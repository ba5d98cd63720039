-- ===== src/Moa/Calls.antt =====
-- The calls of `pfree` and `pReturnAlloc` over a run of a thread, while others write what they like.
use automatic_optimistic_acc.Base.{
  ℕ, ◌≡◌, inl, inr, refl, sym, Bool, List, [], ◌∷◌, ◌++◌, ◌==◌, if◌then◌else◌, Bool-cases,
}
use automatic_optimistic_acc.Lfl.{Memory}
use automatic_optimistic_acc.Aoa.{DirtyRecord}
use automatic_optimistic_acc.Aoa
use automatic_optimistic_acc.Moa.{
  Pc, at, clear_then_free, free_node, return_node, step, Call, no_call, freed, returned,
}
use mathlib.Core.List.{append_assoc}

-- The call that a thread still owes the allocator.
abbrev pub owed : Pc → List Call
owed (clear_then_free t prev cur next) = freed cur ∷ []
owed (free_node t prev cur next) = freed cur ∷ []
owed (return_node k d new) = returned new ∷ []
owed _ = []

-- What a step at this place must lead to: the free of a node that it takes out of the list, and the return of a
-- new node that it fails to put in.
abbrev pub due : Memory → Pc → List Call
due m (at (Aoa.unlink t prev cur next)) = if m.link prev == cur then freed cur ∷ [] else []
due m (at (Aoa.connect k d prev cur new)) = if m.link prev == cur then [] else returned new ∷ []
due m _ = []

abbrev pub made : Call → List Call
made no_call = []
made c = c ∷ []

-- A run of a thread, each step from any memory and record, with what its steps must lead to and the calls they
-- make, both in their order.
pub data Run (hash_op : Bool) (me : ℕ) (p : Pc) : (dues calls : List Call) → Pc → Type 0 where
  begins : Run hash_op me p [] [] p
  later :
      {ds cs : List Call} {q : Pc} (fresh : ℕ) (m : Memory) (dty : DirtyRecord)
      → Run hash_op me p ds cs q
      → Run hash_op me p
          (ds ++ due m q)
          (cs ++ made (step hash_op me fresh m dty q).call)
          (step hash_op me fresh m dty q).pc

step-balance :
    (h : Bool) (me fresh : ℕ) (m : Memory) (dty : DirtyRecord) (p : Pc)
    → owed p ++ due m p ≡ made (step h me fresh m dty p).call ++ owed (step h me fresh m dty p).pc
unfolding step
step-balance h me fresh m dty (at (Aoa.unlink t prev cur next)) =
    elim (Bool-cases (m.link prev == cur)) [ inl e ↦ rw e refl | inr e ↦ rw e refl ]
step-balance h me fresh m dty (at (Aoa.connect k d prev cur new)) =
    elim (Bool-cases (m.link prev == cur)) [ inl e ↦ rw e refl | inr e ↦ rw e refl ]
step-balance h me fresh m dty (at p) = refl
step-balance h me fresh m dty (clear_then_free t prev cur next) = refl
step-balance h me fresh m dty (free_node t prev cur next) = refl
step-balance h me fresh m dty (return_node k d new) = refl

-- In every run of a thread from a place at which it owes no call, while the memory and its record change in any
-- way between its steps, the calls of `pfree` and `pReturnAlloc` that it has made, in their order, followed by the
-- one that it still owes, if any, are the nodes that its successful unlinkings have cut off, each freed, and the
-- new nodes that its failed connections have left, each returned, in their order.
pub Run-calls :
    (h : Bool) (me : ℕ) (p : Pc) {ds cs : List Call} {q : Pc}
    → owed p ≡ []
    → Run h me p ds cs q
    → ds ≡ cs ++ owed q
Run-calls h me p none_owed begins = sym none_owed
Run-calls h me p none_owed (later {ds = ds} {cs = cs} {q = q} fresh m dty r) =
    rw (Run-calls h me p none_owed r) (
      rw (append_assoc cs (owed q) (due m q)) (
        rw (step-balance h me fresh m dty q) (
          sym (
            append_assoc cs (made (step h me fresh m dty q).call)
              (owed (step h me fresh m dty q).pc)))))
