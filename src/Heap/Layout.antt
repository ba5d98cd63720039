-- ===== src/Heap/Layout.antt =====
-- The objects that the filled chunks have.
use automatic_optimistic_acc.Base.{
  ℕ, zero, suc, ◌+◌, ◌*◌, ◌≤◌, ◌<◌, ◌≡◌, ◌⊎◌, inl, inr, refl, ap, ◌∙◌, true, false, List, [], ◌∷◌,
  ◌++◌, arith, leb, length, length-append, In, Distinct, In-append, Distinct-append, subst,
}
use automatic_optimistic_acc.Marks.{node_size}
use automatic_optimistic_acc.Pool.{
  AllocEntry, entries_per_cache, create_ptrs, create_entry, fill_chunk,
}

-- The objects of a pool.
unfoldable pub pool_nodes : List AllocEntry → List ℕ
pool_nodes [] = []
pool_nodes (e ∷ es) = e.ptrs ++ pool_nodes es

-- One of `count` nodes from `start` on.
abbrev pub Among : (start count p : ℕ) → Type 0
Among start count p = (j : ℕ) × (j < count) × (p ≡ start + j * node_size)

In-create_ptrs : (count mem p : ℕ) → In p (create_ptrs count mem node_size) → Among mem count p
unfolding create_ptrs
In-create_ptrs zero mem p none = elim none [ ]
In-create_ptrs (suc n) mem p (inl e) = (n, omega arith, e)
In-create_ptrs (suc n) mem p (inr i) =
    let (j, lt, e) = In-create_ptrs n mem p i in (j, omega arith, e)

create_ptrs-Distinct : (count mem : ℕ) → Distinct (create_ptrs count mem node_size)
unfolding create_ptrs
create_ptrs-Distinct zero mem = tt
create_ptrs-Distinct (suc n) mem = (
  λ i. let (j, lt, e) = In-create_ptrs n mem (mem + n * node_size) i in omega arith,
  create_ptrs-Distinct n mem,
)

length-create_ptrs : (count mem size : ℕ) → length (create_ptrs count mem size) ≡ count
unfolding create_ptrs
length-create_ptrs zero mem size = refl
length-create_ptrs (suc n) mem size = ap suc (length-create_ptrs n mem size)

-- A pool that has `count` nodes from `start` on, and those of `head`; they are distinct when those of `head` are
-- and lie elsewhere.
pub record Filled (start count : ℕ) (head result : List AllocEntry) : Type 0 where
  pub nodes-In : (p : ℕ) → In p (pool_nodes result) → Among start count p ⊎ In p (pool_nodes head)
  pub nodes-Distinct :
      Distinct (pool_nodes head)
      → ((p : ℕ) → Among start count p → In p (pool_nodes head) → ⊥)
      → Distinct (pool_nodes result)
  pub nodes-count : length (pool_nodes result) ≡ count + length (pool_nodes head)

create_entry-Filled :
    (address start : ℕ) (head : List AllocEntry)
    → Filled start entries_per_cache head (create_entry address start node_size ∷ head)
unfolding pool_nodes create_entry
create_entry-Filled address start head =
    let ptrs = create_ptrs entries_per_cache start node_size in
    record {
      nodes-In = λ p i. elim (In-append p ptrs (pool_nodes head) i) [
        | inl here ↦ inl (In-create_ptrs entries_per_cache start p here)
        | inr there ↦ inr there
      ];
      nodes-Distinct = λ d apart.
          Distinct-append ptrs (pool_nodes head) (create_ptrs-Distinct entries_per_cache start) d
            (λ p here there. apart p (In-create_ptrs entries_per_cache start p here) there);
      nodes-count =
          length-append ptrs (pool_nodes head)
          ∙ ap (λ n. n + length (pool_nodes head))
              (length-create_ptrs entries_per_cache start node_size);
    }

-- Two runs of nodes, one after the other.
Filled-Filled :
    (start first second : ℕ) (head middle result : List AllocEntry)
    → Filled start first head middle
    → Filled (start + first * node_size) second middle result
    → Filled start (first + second) head result
Filled-Filled start first second head middle result f g =
    let left : (p : ℕ) → Among start first p → Among start (first + second) p =
      λ p (j, lt, e). (j, omega arith, e) in
    let right : (p : ℕ)
        → Among (start + first * node_size) second p
        → Among start (first + second) p =
      λ p (j, lt, e). (first + j, omega arith, omega (arith, e)) in
    record {
      nodes-In = λ p i. elim (g.nodes-In p i) [
        | inl late ↦ inl (right p late)
        | inr i' ↦ elim (f.nodes-In p i') [ inl early ↦ inl (left p early) | inr old ↦ inr old ]
      ];
      nodes-Distinct = λ d apart.
          g.nodes-Distinct (f.nodes-Distinct d (λ p a. apart p (left p a))) (λ p (j, lt, e) i.
            elim (f.nodes-In p i) [
              | inl (k, lt', e') ↦ omega (arith, e, e')
              | inr old ↦ apart p (right p (j, lt, e)) old
            ]);
      nodes-count = omega (arith, f.nodes-count, g.nodes-count);
    }

Filled-none : (start : ℕ) (head : List AllocEntry) → Filled start 0 head head
Filled-none start head = record {
  nodes-In = λ p i. inr i;
  nodes-Distinct = λ d apart. d;
  nodes-count = omega arith;
}

-- The loop over a chunk with room for `m` caches, and not for one more.
pub fill_chunk-Filled :
    (m fuel : ℕ) (addresses : ℕ → ℕ) (start last : ℕ) (head : List AllocEntry)
    → m < fuel
    → start + m * 4032 ≤ last
    → last < start + m * 4032 + 4032
    → Filled start (m * 126) head (fill_chunk fuel addresses start node_size last head)
unfolding fill_chunk
fill_chunk-Filled m zero addresses start last head lt le gt = absurd (omega (arith, lt))
fill_chunk-Filled zero (suc fuel) addresses start last head lt le gt =
    let stop : leb (start + entries_per_cache * node_size) last ≡ false = ground arith in
    rw stop (Filled-none start head)
fill_chunk-Filled (suc m) (suc fuel) addresses start last head lt le gt =
    let more : leb (start + entries_per_cache * node_size) last ≡ true = ground arith in
    let next = create_entry (addresses start) start node_size ∷ head in
    let count : 126 + m * 126 ≡ suc m * 126 = omega arith in
    rw more (
      subst
        (λ c.
          Filled start c head
            (fill_chunk fuel addresses (start + entries_per_cache * node_size) node_size last next))
        count
        (Filled-Filled start 126 (m * 126) head next
          (fill_chunk fuel addresses (start + entries_per_cache * node_size) node_size last next)
          (create_entry-Filled (addresses start) start head)
          (fill_chunk-Filled m fuel addresses (start + 126 * node_size) last next (omega arith)
            (omega arith) (omega arith))))
