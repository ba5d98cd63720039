-- ===== src/Moa/Erasure.antt =====
-- Without its calls the list of lfl-MOA.c does what the list of lfl-RoF.c does.
use automatic_optimistic_acc.Base.{ℕ, ◌≡◌, inl, inr, refl, Bool, true, false, ◌==◌, Bool-cases}
use automatic_optimistic_acc.Entry.{clear_deleted}
use automatic_optimistic_acc.Lfl.{Memory}
use automatic_optimistic_acc.Aoa.{DirtyRecord}
use automatic_optimistic_acc.Aoa
use automatic_optimistic_acc.Moa.{
  Pc, at, clear_then_free, free_node, return_node, Turn, step, Call, no_call, freed, returned,
}

abbrev pub erase : Pc → Aoa.Pc
erase (at p) = p
erase (clear_then_free t prev cur next) = Aoa.clear_unlink t prev next true
erase (free_node t prev cur next) = Aoa.arrive t prev (clear_deleted next)
erase (return_node k d new) = Aoa.clear_connect k d false

-- The call of a place: an unlinked node is freed, an unconnected one returned.
abbrev pub Calls : Pc → Call → Type 0
Calls (free_node t prev cur next) c = c ≡ freed cur
Calls (return_node k d new) c = c ≡ returned new
Calls _ c = ⊥

-- A step at `p` calls nothing and is the step of lfl-RoF.c, or it calls the allocator, with the node
-- that the place is about, and is silent.
pub data Erases (hash_op : Bool) (me fresh : ℕ) (m : Memory) (dty : DirtyRecord) (p : Pc)
    : Turn → Type 0 where
  moves :
      {r : Turn}
      → ◌≡◌ {A = Aoa.Result}
          (r.memory, r.dty, erase r.pc)
          (Aoa.step hash_op me fresh m dty (erase p))
      → r.call ≡ no_call
      → Erases hash_op me fresh m dty p r
  calls :
      {r : Turn}
      → ◌≡◌ {A = Aoa.Result} (r.memory, r.dty, erase r.pc) (m, dty, erase p)
      → Calls p r.call
      → Erases hash_op me fresh m dty p r

-- A step is the step of lfl-RoF.c and calls nothing, or it is the call of `pfree` that follows an
-- unlinking, or that of `pReturnAlloc` that follows a failed connection, with that node, and changes
-- neither memory nor the thread's record.
pub step-Erases :
    (hash_op : Bool) (me fresh : ℕ) (m : Memory) (dty : DirtyRecord) (p : Pc)
    → Erases hash_op me fresh m dty p (step hash_op me fresh m dty p)
unfolding step Aoa.step
step-Erases h me fresh m dty (at (Aoa.unlink t prev cur next)) =
    elim (Bool-cases (m.link prev == cur)) [
      | inl e ↦ rw e (moves (rw e refl) refl)
      | inr e ↦ rw e (moves (rw e refl) refl)
    ]
step-Erases h me fresh m dty (at (Aoa.connect k d prev cur new)) =
    elim (Bool-cases (m.link prev == cur)) [
      | inl e ↦ rw e (moves (rw e refl) refl)
      | inr e ↦ rw e (moves (rw e refl) refl)
    ]
step-Erases h me fresh m dty (at p) = moves refl refl
step-Erases h me fresh m dty (clear_then_free t prev cur next) = moves refl refl
step-Erases h me fresh m dty (free_node t prev cur next) = calls refl refl
step-Erases h me fresh m dty (return_node k d new) = calls refl refl
