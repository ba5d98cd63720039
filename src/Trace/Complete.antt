-- ===== src/Trace/Complete.antt =====
-- When the tracing threads have no unmarked work left, every reachable node is marked, and a sweep
-- frees no reachable node.
use native.Mathlib.Decide.{ℕ_discrete}
use automatic_optimistic_acc.Base.{
  In, ℕ, ◌/◌, ◌%◌, ◌≡◌, ◌≢◌, ◌⊎◌, inl, inr, refl, sym, subst, List, [], ◌∷◌, arith, ◌==◌,
  Bool-cases, ==_iff,
}
use automatic_optimistic_acc.Lfl.{update}
use automatic_optimistic_acc.Marks.{chunk_size}
use automatic_optimistic_acc.Pool.{LocalAlloc}
use automatic_optimistic_acc.Sweep.{
  sweep_pages_per_chunk, page_address, process_sweep_page, Meanwhile,
}
use automatic_optimistic_acc.Sweep.Pages.{free_all, unmarked, page_nodes, process_sweep_page-frees}
use automatic_optimistic_acc.Trace.{
  Thread, Heap, System, child, is_marked, root_list, load, Start, Reach, begins, later,
}
use automatic_optimistic_acc.Trace.Invariant.{Marked, Ok, InWork, Covered, Inv}
use automatic_optimistic_acc.Trace.Stacks.{In-Aligned, push_all-InStack}
use automatic_optimistic_acc.Trace.Closed.{
  update_same, update_ne, Work-Covered, load-Slots, Step-Inv,
}

In-root_list : (m : Heap) (hps : List ℕ) (x : ℕ) → In x hps → In x (root_list m hps)
unfolding root_list
In-root_list m hps x h = elim (Bool-cases (child m 0 == 0)) [
  | inl e ↦ rw e h
  | inr e ↦ rw e (inr h)
]

head-root_list : (m : Heap) (hps : List ℕ) → child m 0 ≢ 0 → In (child m 0) (root_list m hps)
unfolding root_list
head-root_list m hps ne = elim (Bool-cases (child m 0 == 0)) [
  | inl e ↦ absurd (ne ((==_iff _ _).0 e))
  | inr e ↦ rw e (inl refl)
]

load-InWork :
    (m : Heap) (hps : List ℕ) (th : Thread) (x : ℕ)
    → In x (root_list m hps)
    → InWork (load m hps th) x
unfolding load
load-InWork m hps th x h = push_all-InStack th.markstack 0 (root_list m hps) x (inr h)

module _ (p : ℕ) (hps : List ℕ) where
  load-Ok :
      (s : System) (i : ℕ)
      → Start p hps s
      → Ok p hps s.heap (load s.heap hps (s.threads i)).markstack (load s.heap hps (s.threads i)).pc
  unfolding load
  load-Ok s i st = load-Slots s.heap hps (s.threads i) (st.aligned 0) st.protected

  begins-Inv :
      (s : System) (i : ℕ)
      → Start p hps s
      → Inv p hps (record s { threads = update s.threads i (load s.heap hps (s.threads i)) })
  begins-Inv s i st =
      let th = load s.heap hps (s.threads i) in
      let covered = λ (x : ℕ) (h : In x (root_list s.heap hps)).
        Work-Covered s s.heap i th x (load-InWork s.heap hps (s.threads i) x h) in
      record {
        current = st.current;
        aligned = st.aligned;
        protected = st.protected;
        ok = λ j. elim (ℕ_discrete j i) [
          | yes q ↦
              subst (λ (t : Thread). Ok p hps s.heap t.markstack t.pc)
                (sym (rw q (update_same s.threads i th))) (load-Ok s i st)
          | no ne ↦
              subst (λ (t : Thread). Ok p hps s.heap t.markstack t.pc)
                (sym (update_ne s.threads i j th ne))
                (subst (Ok p hps s.heap (s.threads j).markstack) (sym (st.resting j)) tt)
        ];
        roots = λ x h. covered x (In-root_list s.heap hps x h);
        closed = λ n al e. elim e [
          | inl z ↦ elim (ℕ_discrete (child s.heap 0) 0) [
            | yes none ↦ rw z (inl none)
            | no ne ↦ rw z (covered (child s.heap 0) (head-root_list s.heap hps ne))
          ]
          | inr m ↦ absurd (ground (arith, st.cleared n, m))
        ];
      }

  pub Reach-Inv : (s : System) → Reach p hps s → Inv p hps s
  Reach-Inv _ (begins s i st) = begins-Inv s i st
  Reach-Inv _ (later {s} {t} r e) = Step-Inv p hps s t e (Reach-Inv s r)

  -- What a thread of the list can come to: from the head, or from a protected node, along the links.
  pub data Reachable (m : Heap) : ℕ → Type 0 where
    from_head : Reachable m (child m 0)
    from_hp : {h : ℕ} → In h hps → Reachable m h
    along : {n : ℕ} → n ≢ 0 → Reachable m n → Reachable m (child m n)

  -- Nothing is left that is not marked.
  abbrev pub Finished : System → Type 0
  Finished s = (i x : ℕ) → InWork (s.threads i) x → Marked s.heap x

  Covered-Marked : (s : System) → Finished s → (x : ℕ) → Covered s x → (x ≡ 0) ⊎ Marked s.heap x
  Covered-Marked s f x (inl z) = inl z
  Covered-Marked s f x (inr (inl e)) = inr e
  Covered-Marked s f x (inr (inr (i, w))) = inr (f i x w)

  Reachable-Marked :
      (s : System)
      → Inv p hps s
      → Finished s
      → (n : ℕ) → Reachable s.heap n
      → (n % 32 ≡ 0) × ((n ≡ 0) ⊎ Marked s.heap n)
  Reachable-Marked s inv f _ from_head =
      (inv.aligned 0, Covered-Marked s f _ (inv.closed 0 refl (inl refl)))
  Reachable-Marked s inv f n (from_hp h) =
      (In-Aligned n hps inv.protected h, Covered-Marked s f n (inv.roots n h))
  Reachable-Marked s inv f _ (along {n} ne r) =
      let (al, e) = Reachable-Marked s inv f n r in
      (inv.aligned n, Covered-Marked s f _ (inv.closed n al e))

  -- In every state that any number of tracing threads and of late writers can reach, if all pointers
  -- that the threads have still to trace are marked, every reachable node is marked.
  pub Finished-Marked :
      (s : System)
      → Reach p hps s
      → Finished s
      → (n : ℕ) → Reachable s.heap n
      → n ≢ 0
      → Marked s.heap n
  Finished-Marked s r f n path ne = elim (Reachable-Marked s (Reach-Inv s r) f n path).1 [
    | inl z ↦ absurd (ne z)
    | inr e ↦ e
  ]

In-unmarked : (m : Heap) (x : ℕ) (xs : List ℕ) → In x (unmarked m.words xs) → ¬ Marked m x
unfolding unmarked
In-unmarked m x [] h e = elim h [ ]
In-unmarked m x (y ∷ ys) h e = elim (Bool-cases (is_marked m y)) [
  | inl k ↦ In-unmarked m x ys (rw k at h) e
  | inr k ↦ elim (rw k at h) [
    | inl q ↦ ground (arith, rw q at e, k)
    | inr i ↦ In-unmarked m x ys i e
  ]
]

-- The whole collection is safe: the sweep of a page, in a state in which tracing has finished, frees a
-- list of nodes none of which can be reached.
pub process_sweep_page-safe :
    (p : ℕ) (hps : List ℕ) (s : System) (slots : ℕ → ℕ) (os : Meanwhile) (heapmem : ℕ → ℕ)
    (page_number : ℕ) (l : LocalAlloc)
    → Reach p hps s
    → Finished p hps s
    → heapmem (page_number / sweep_pages_per_chunk) % chunk_size ≡ 0
    → (garbage : List ℕ) × (process_sweep_page slots os s.heap.words heapmem page_number l
        ≡ free_all slots os s.heap.words garbage l)
      × ((n : ℕ) → In n garbage → n ≢ 0 → ¬ Reachable p hps s.heap n)
process_sweep_page-safe p hps s slots os heapmem page_number l r f al = (
  unmarked s.heap.words (page_nodes (page_address heapmem page_number)),
  process_sweep_page-frees slots os s.heap.words heapmem page_number l al,
  λ n h ne path. In-unmarked s.heap n _ h (Finished-Marked p hps s r f n path ne),
)
