-- ===== src/Manual/Rounds.antt =====
-- The rounds of objects through the manual allocator, undisturbed.
use automatic_optimistic_acc.Base.{
  ℕ, suc, ◌+◌, ◌≡◌, inl, inr, refl, Bool, Option, none, some, List, [], ltb, Bool-cases, test_eq,
  length, ok,
}
use automatic_optimistic_acc.Base.Cas.{cas_loop}
use automatic_optimistic_acc.Pool.{AllocEntry, entries_per_cache}
use automatic_optimistic_acc.Manual.{
  Manual, Collect, Interference, close_body, move_body, drain_body, close_phase, return_alloc,
  palloc,
}

abbrev pub undisturbed : Interference
undisturbed = record { closing = []; between = none; moving = []; draining = [] }

-- When both lists are at the thread's version and nobody interferes, `Reclamation` moves all entries
-- of `reclaim` to `toProcess`, leaves `reclaim` empty, and both lists and the thread at the next
-- version; nothing else changes.
pub close_phase-moves :
    (s : Manual)
    → s.reclaim.ver ≡ s.local_ver
    → s.to_process.ver ≡ s.local_ver
    → close_phase undisturbed s ≡ record s {
      local_ver = s.local_ver + 2;
      reclaim = record { entries = []; ver = s.local_ver + 2 };
      to_process = record { entries = s.reclaim.entries; ver = s.local_ver + 2 };
    }
unfolding close_phase close_body move_body drain_body cas_loop
close_phase-moves s r t =
    rw (test_eq _ _ r, test_eq _ _ t, test_eq (s.local_ver + 1) (s.local_ver + 1) refl) refl

-- What is given back is allocated next, from any state.
pub palloc-return_alloc :
    (f : ℕ) (collect : Collect) (rof : Bool) (stops : ℕ → Bool) (address address' obj : ℕ)
    (os : ℕ → List (Option (List AllocEntry))) (heads : List (Option (List AllocEntry)))
    (s : Manual)
    → (s' : Manual) × (palloc
          (suc f)
          collect
          rof
          stops
          address'
          os
          (return_alloc heads address obj s)
        ≡ ok (obj, s'))
unfolding palloc return_alloc
palloc-return_alloc f collect rof stops address address' obj os heads s = go s.alloc_cache
  where
    go :
        (c : Option AllocEntry)
        → (s' : Manual) × (palloc
              (suc f)
              collect
              rof
              stops
              address'
              os
              (return_alloc heads address obj (record s { alloc_cache = c }))
            ≡ ok (obj, s'))
    go none = (_, refl)
    go (some c) = elim (Bool-cases (ltb (length c.ptrs) entries_per_cache)) [
      | inl e ↦ rw e (_, refl)
      | inr e ↦ rw e (_, refl)
    ]
