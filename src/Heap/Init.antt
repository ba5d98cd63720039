-- ===== src/Heap/Init.antt =====
-- The first heap: its objects lie apart, behind the headers of their chunks, and are about as many as were asked for.
use automatic_optimistic_acc.Base.{
  ℕ, zero, suc, ◌+◌, ◌-◌, ◌*◌, ◌/◌, ◌%◌, ◌^◌, ◌≤◌, ◌<◌, ◌≡◌, ◌⊎◌, inl, inr, refl, sym, ap, true,
  some, List, [], ◌∷◌, arith, ◌==◌, length, In, Distinct, Bool-cases, test_eq, lt→ltb, ok, Returns,
  subst,
}
use automatic_optimistic_acc.Marks.{chunk_size, node_size, header_size}
use automatic_optimistic_acc.Pool.{AllocEntry, fill_chunk}
use automatic_optimistic_acc.Phase.{ThreadRecord}
use automatic_optimistic_acc.Heap.{
  max_chunks, payload_size, Allocator, get_chunk, get_chunks, fill_chunks, num_chunks, new_heap,
  init_heap, assert_in_heap,
}
use automatic_optimistic_acc.Heap.Layout.{pool_nodes, Among, Filled, fill_chunk-Filled}

-- 129 caches of 126 objects fill a chunk.
abbrev pub chunk_nodes : ℕ
chunk_nodes = 16254

-- An object behind the header of one of the chunks.
pub NodeOf : List ℕ → ℕ → Type 0
NodeOf cs p = (c : ℕ) × In c cs × Among (c + header_size) chunk_nodes p

abbrev pub Aligned : List ℕ → Type 0
Aligned [] = Unit {0}
Aligned (c ∷ cs) = (c % chunk_size ≡ 0) × Aligned cs

aligned-In : (cs : List ℕ) (c : ℕ) → Aligned cs → In c cs → c % chunk_size ≡ 0
aligned-In (d ∷ cs) c (here, rest) (inl e) = omega (arith, here, e)
aligned-In (d ∷ cs) c (here, rest) (inr i) = aligned-In cs c rest i
aligned-In [] c al i = elim i [ ]

module _ (fuel : ℕ) (addresses : ℕ → ℕ) (enough : 129 < fuel) where
  filled :
      (c : ℕ) (head : List AllocEntry)
      → Filled
          (c + header_size)
          chunk_nodes
          head
          (fill_chunk fuel addresses (c + header_size) node_size (c + chunk_size) head)
  filled c head =
      fill_chunk-Filled 129 fuel addresses (c + header_size) (c + chunk_size) head enough
        (omega arith) (omega arith)

  fill_chunks-In :
      (cs : List ℕ) (head : List AllocEntry) (p : ℕ)
      → In p (pool_nodes (fill_chunks fuel addresses node_size cs head))
      → NodeOf cs p ⊎ In p (pool_nodes head)
  unfolding fill_chunks NodeOf
  fill_chunks-In [] head p i = inr i
  fill_chunks-In (c ∷ cs) head p i =
      let next = fill_chunk fuel addresses (c + header_size) node_size (c + chunk_size) head in
      elim (fill_chunks-In cs next p i) [
        | inl (d, j, a) ↦ inl (d, inr j, a)
        | inr old ↦ elim ((filled c head).nodes-In p old) [
          | inl a ↦ inl (c, inl refl, a)
          | inr older ↦ inr older
        ]
      ]

  fill_chunks-Distinct :
      (cs : List ℕ) (head : List AllocEntry)
      → Distinct cs
      → Aligned cs
      → Distinct (pool_nodes head)
      → ((p : ℕ) → NodeOf cs p → In p (pool_nodes head) → ⊥)
      → Distinct (pool_nodes (fill_chunks fuel addresses node_size cs head))
  unfolding fill_chunks NodeOf
  fill_chunks-Distinct [] head dc al d apart = d
  fill_chunks-Distinct (c ∷ cs) head (out, dc) (here, al) d apart =
      let next = fill_chunk fuel addresses (c + header_size) node_size (c + chunk_size) head in
      fill_chunks-Distinct cs next dc al
        ((filled c head).nodes-Distinct d (λ p a. apart p (c, inl refl, a)))
        (λ p (b, i, (j, lt, e)) old. elim ((filled c head).nodes-In p old) [
          | inl (k, lt', e') ↦
              let other = aligned-In cs b al i in
              let same : c ≡ b = omega (arith, other, here, e, e', lt, lt') in
              out (subst (λ x. In x cs) (sym same) i)
          | inr older ↦ apart p (b, inr i, (j, lt, e)) older
        ])

  fill_chunks-count :
      (cs : List ℕ) (head : List AllocEntry)
      → length (pool_nodes (fill_chunks fuel addresses node_size cs head))
        ≡ length cs * chunk_nodes + length (pool_nodes head)
  unfolding fill_chunks
  fill_chunks-count [] head = omega arith
  fill_chunks-count (c ∷ cs) head =
      let next = fill_chunk fuel addresses (c + header_size) node_size (c + chunk_size) head in
      omega (arith, fill_chunks-count cs next, (filled c head).nodes-count)

-- The chunks that `memalign` gives, one after the other.
run : (chunk : ℕ → ℕ) (count i : ℕ) → List ℕ
run chunk zero i = []
run chunk (suc n) i = chunk i ∷ run chunk n (i + 1)

module _ (chunk : ℕ → ℕ) (aligned : (i : ℕ) → chunk i % chunk_size ≡ 0) where
  get_chunks-run :
      (n i : ℕ) → i + n ≤ max_chunks → get_chunks (λ k. some (chunk k)) n i ≡ ok (run chunk n i)
  unfolding get_chunks get_chunk run
  get_chunks-run zero i le = refl
  get_chunks-run (suc n) i le =
      rw
        (
          lt→ltb i max_chunks (omega arith),
          test_eq (chunk i % chunk_size) 0 (aligned i),
          get_chunks-run n (i + 1) (omega arith),
        )
        refl

  run-Aligned : (n i : ℕ) → Aligned (run chunk n i)
  unfolding run
  run-Aligned zero i = tt
  run-Aligned (suc n) i = (aligned i, run-Aligned n (i + 1))

In-run : (chunk : ℕ → ℕ) (n i c : ℕ) → In c (run chunk n i) → (k : ℕ) × (i ≤ k) × (c ≡ chunk k)
unfolding run
In-run chunk zero i c inside = elim inside [ ]
In-run chunk (suc n) i c (inl e) = (i, omega arith, e)
In-run chunk (suc n) i c (inr rest) =
    let (k, le, e) = In-run chunk n (i + 1) c rest in (k, omega arith, e)

run-Distinct :
    (chunk : ℕ → ℕ) → ((i j : ℕ) → chunk i ≡ chunk j → i ≡ j) → (n i : ℕ) → Distinct (run chunk n i)
unfolding run
run-Distinct chunk apart zero i = tt
run-Distinct chunk apart (suc n) i = (
  λ inside.
      let (k, le, e) = In-run chunk n (i + 1) (chunk i) inside in
      let same = apart i k e in omega (arith, same, le),
  run-Distinct chunk apart n (i + 1),
)

length-run : (chunk : ℕ → ℕ) (n i : ℕ) → length (run chunk n i) ≡ n
unfolding run
length-run chunk zero i = refl
length-run chunk (suc n) i = ap suc (length-run chunk n (i + 1))

-- The check of `sweep` finds the chunk of an object.
assert_in_heap-NodeOf :
    (cs : List ℕ) (p : ℕ) → Aligned cs → NodeOf cs p → assert_in_heap cs p ≡ ok true
unfolding assert_in_heap NodeOf
assert_in_heap-NodeOf [] p al (c, i, a) = elim i [ ]
assert_in_heap-NodeOf (d ∷ cs) p (here, al) (c, i, (j, lt, e)) =
    elim (Bool-cases (p - p % chunk_size == d)) [
      | inl same ↦ rw same refl
      | inr other ↦ elim i [
        | inl first ↦
            let base : p - p % chunk_size ≡ d = omega (arith, here, first, e, lt) in
            absurd (cc (test_eq (p - p % chunk_size) d base))
        | inr later ↦ rw other (assert_in_heap-NodeOf cs p al (c, later, (j, lt, e)))
      ]
    ]

num_chunks-ok :
    (n : ℕ)
    → n * node_size < 2 ^ 31
    → num_chunks node_size n ≡ ok (1 + n * node_size / payload_size)
unfolding num_chunks
num_chunks-ok n lt = rw (lt→ltb (n * node_size) (2 ^ 31) lt) refl

-- What the first heap for `num_entries` objects is.
pub record IsLaid (num_entries : ℕ) (heap : Allocator) : Type 0 where
  pub inside : (p : ℕ) → In p (pool_nodes heap.collector.head.entries) → NodeOf heap.chunks p
  pub apart : Distinct (pool_nodes heap.collector.head.entries)
  pub count : length (pool_nodes heap.collector.head.entries) ≡ length heap.chunks * chunk_nodes
  pub room : num_entries < length (pool_nodes heap.collector.head.entries) + 2 * length heap.chunks
  pub known :
      (p : ℕ)
      → In p (pool_nodes heap.collector.head.entries)
      → assert_in_heap heap.chunks p ≡ ok true

-- When `posix_memalign` gives aligned chunks, each another, and 20 of them are enough for the objects,
-- `initAllocator` returns a heap whose pool has every object once, each behind the header of a chunk and
-- within it, 16254 for every chunk; these are less than two objects for every chunk short of those asked for
-- at most; and `assert_in_heap` accepts every one of them.
pub init_heap-IsLaid :
    (fuel : ℕ) (chunk addresses : ℕ → ℕ)
    → (num_entries num_threads hps_per_thread : ℕ) (dirties : List ThreadRecord) → 129 < fuel
    → ((i : ℕ) → chunk i % chunk_size ≡ 0)
    → ((i j : ℕ) → chunk i ≡ chunk j → i ≡ j)
    → num_entries * node_size < max_chunks * payload_size
    → Returns
        (init_heap fuel
          (λ i. some (chunk i))
          addresses
          node_size
          num_entries
          num_threads
          hps_per_thread
          dirties)
        (IsLaid num_entries)
unfolding init_heap pool_nodes
init_heap-IsLaid fuel chunk addresses num_entries num_threads hps_per_thread dirties enough aligned
      injective fits =
    let n = 1 + num_entries * node_size / payload_size in
    let cs = run chunk n 0 in
    let al = run-Aligned chunk aligned n 0 in
    let inside : (p : ℕ)
        → In p (pool_nodes (fill_chunks fuel addresses node_size cs []))
        → NodeOf cs p =
      λ p i. elim (fill_chunks-In fuel addresses enough cs [] p i) as (λ x. NodeOf cs p) [
        | inl node ↦ node
        | inr old ↦ elim old [ ]
      ] in
    let total = fill_chunks-count fuel addresses enough cs [] in
    let size = length-run chunk n 0 in
    (
      new_heap fuel addresses node_size num_threads hps_per_thread dirties cs,
      rw
          (
            num_chunks-ok num_entries (omega (arith, fits)),
            get_chunks-run chunk aligned n 0 (omega (arith, fits)),
          )
          refl,
      record {
        inside = inside;
        apart =
            fill_chunks-Distinct fuel addresses enough cs [] (run-Distinct chunk injective n 0) al
              tt (λ p node old. elim old [ ]);
        count = omega (arith, total);
        room = omega (arith, total, size);
        known = λ p i. assert_in_heap-NodeOf cs p al (inside p i);
      },
    )
