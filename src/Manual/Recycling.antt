-- ===== src/Manual/Recycling.antt =====
-- Recycling an entry: what a hazard pointer protects is freed again, all else becomes allocatable.
use automatic_optimistic_acc.Base.{
  ℕ, suc, ◌+◌, ◌≤◌, ◌≡◌, ◌≢◌, inl, inr, refl, Bool, true, false, Option, some, List, [], ◌∷◌, ◌++◌,
  arith, if◌then◌else◌, Bool-cases, test_ne, lt→ltb, length, length-append, ◌<◌, ok,
}
use automatic_optimistic_acc.Pool.{AllocEntry, VerEntry, entries_per_cache}
use automatic_optimistic_acc.Manual.{Manual, Collect, contains, pfree, recycle_ptrs}

-- The objects of the list that a test selects.
unfoldable pub select : (test : ℕ → Bool) → List ℕ → List ℕ
select test [] = []
select test (p ∷ ps) = if test p then p ∷ select test ps else select test ps

-- The thread's set answers for each object as `protected` says, and none is `NULL`.
abbrev pub Answers : (protected : ℕ → Bool) → Manual → List ℕ → Type 0
Answers protected s [] = Unit {0}
Answers protected s (p ∷ ps) =
    (p ≢ 0) × (contains s.hps p ≡ ok (protected p)) × Answers protected s ps

abbrev pub opposite : Bool → Bool
opposite true = false
opposite false = true

length-select : (test : ℕ → Bool) (ps : List ℕ) → length (select test ps) ≤ length ps
unfolding select
length-select test [] = omega arith
length-select test (p ∷ ps) = elim (Bool-cases (test p)) [
  | inl e ↦ rw e (omega (arith, length-select test ps))
  | inr e ↦ rw e (omega (arith, length-select test ps))
]

-- The thread's state with these objects in front of the ones that it has freed.
abbrev pub with_freed : Manual → AllocEntry → List ℕ → Manual
with_freed s c ps = record s { free_cache = some (record c { ptrs = ps ++ c.ptrs }) }

module _ (f : ℕ) (collect : Collect) (os : List (Option VerEntry)) (address : ℕ) where
  pfree-room :
      (s : Manual) (c : AllocEntry) (ps : List ℕ) (p : ℕ)
      → p ≢ 0
      → length (ps ++ c.ptrs) < entries_per_cache
      → pfree (suc f) collect os address p (with_freed s c ps) ≡ ok (with_freed s c (p ∷ ps))
  unfolding pfree
  pfree-room s c ps p nz room = rw (test_ne p 0 nz, lt→ltb _ _ room) refl

  -- With room in the thread's cache of freed objects, the loop of `Recycle` over an entry ends, keeps
  -- in the entry exactly the objects that the hazard pointers do not protect, and moves the others,
  -- each once and in order, to that cache.
  pub recycle_ptrs-splits :
      (protected : ℕ → Bool) (s : Manual) (c : AllocEntry) (ps : List ℕ)
      → Answers protected s ps
      → length ps + length c.ptrs ≤ entries_per_cache
      → recycle_ptrs (pfree (suc f) collect os address) ps (with_freed s c [])
        ≡ ok (select (λ p. opposite (protected p)) ps, with_freed s c (select protected ps))
  unfolding recycle_ptrs select
  recycle_ptrs-splits protected s c [] a room = refl
  recycle_ptrs-splits protected s c (p ∷ ps) (nz, ans, a) room =
      let rest = recycle_ptrs-splits protected s c ps a (omega arith) in
      elim (Bool-cases (protected p)) [
        | inl e ↦
            let fits = length-append (select protected ps) c.ptrs in
            rw
              (
                rest,
                ans,
                e,
                pfree-room s c (select protected ps) p nz
                    (omega (arith, fits, length-select protected ps)),
              )
              refl
        | inr e ↦ rw (rest, ans, e) refl
      ]
