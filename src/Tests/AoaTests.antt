-- ===== src/Tests/AoaTests.antt =====
-- One thread of the list under optimistic access at concrete inputs.
use automatic_optimistic_acc.Base.{
  ◌≡◌, List, ◌==◌, if◌then◌else◌, ◌⊎◌, inl, inr, [], ◌∷◌, refl, true, false,
}
use automatic_optimistic_acc.Lfl.{Memory, insert, free}
use automatic_optimistic_acc.Trace.{Root, unmark}
use automatic_optimistic_acc.Trace.Writers.{late_write-Root}
use automatic_optimistic_acc.Aoa.{
  DirtyRecord, no_hps, connect, fence_connect, step, arrive, missing, fence_check,
}
use automatic_optimistic_acc.Aoa.Local.{Local, begins, called, stepped, Protected, Local-Protected}
use automatic_optimistic_acc.Aoa.Writes.{Guarded, Local-Guarded}
use automatic_optimistic_acc.Moa.{Call, freed, free_node, at}
use automatic_optimistic_acc.Moa
use automatic_optimistic_acc.Moa.Calls.{Run, Run-calls}
use automatic_optimistic_acc.Moa.Calls
use automatic_optimistic_acc.Aoa
use automatic_optimistic_acc.Aoa.Simulation.{Simulates, step-Simulates}

abbrev empty : Memory
empty = record { link = λ a. 0; key_data = λ a. 0; status = λ a. free }

-- An insertion into the empty list, up to its compare-and-swap.
inserting :
    Local false 1 (record { dirty = false; hp0 = 0; hp1 = 0; hp2 = 64 }) (connect 7 0 0 0 64)
unfolding step arrive missing fence_check
inserting = stepped 0 empty (
    stepped 0 empty (
      stepped 0 empty (
        stepped 0 empty
          (stepped 64 empty (stepped 0 empty (called (insert 7 0) (begins false) refl refl))))))

Local-Protected_example :
    Protected (connect 7 0 0 0 64) (record { dirty = false; hp0 = 0; hp1 = 0; hp2 = 64 })
Local-Protected_example = Local-Protected false 1 _ _ inserting

Local-Guarded_example :
    Guarded
      (record { dirty = false; hp0 = 0; hp1 = 0; hp2 = 64 })
      empty
      (step false 1 0 empty
        (record { dirty = false; hp0 = 0; hp1 = 0; hp2 = 64 })
        (connect 7 0 0 0 64)).0
Local-Guarded_example =
    Local-Guarded false 1 0 empty (record { dirty = false; hp0 = 0; hp1 = 0; hp2 = 64 })
      (connect 7 0 0 0 64) inserting

step-Simulates_example :
    Simulates false 1 0 empty true
      (fence_connect 7 0 0 0 64)
      (step false 1 0 empty (no_hps true) (fence_connect 7 0 0 0 64)).0
      (step false 1 0 empty (no_hps true) (fence_connect 7 0 0 0 64)).2
step-Simulates_example = step-Simulates false 1 0 empty (no_hps true) (fence_connect 7 0 0 0 64)

-- A late thread connects its new node; the collector has its hazard pointer.
abbrev late : DirtyRecord
late = record { dirty = false; hp0 = 0; hp1 = 0; hp2 = 64 }

root1 : Root (64 ∷ []) (unmark 0)
unfolding unmark
root1 = inl refl

root2 : Root (64 ∷ []) (unmark 64)
unfolding unmark
root2 = inr (inl refl)

late_write-Root_example :
    Root (64 ∷ []) (unmark ((step false 1 0 empty late (connect 7 0 0 0 64)).0.link 0))
    ⊎ (unmark ((step false 1 0 empty late (connect 7 0 0 0 64)).0.link 0) ≡ unmark (empty.link 0))
late_write-Root_example =
    late_write-Root false 1 0 empty late (connect 7 0 0 0 64) (64 ∷ []) inserting root1 root2 0

-- A marked node 64 behind the head, which the thread cuts off and frees.
abbrev with_marked : Memory
with_marked = record { link = λ a. if a == 0 then 64 else 1; key_data = λ a. 3; status = λ a. free }

abbrev quiet_record : DirtyRecord
quiet_record = record { dirty = false; hp0 = 0; hp1 = 64; hp2 = 0 }

unlinking :
    Run false 1
      (at (Aoa.unlink (insert 7 0) 0 64 1))
      (freed 64 ∷ [])
      []
      (free_node (insert 7 0) 0 64 1)
unfolding Moa.step
unlinking =
    Calls.later 0 with_marked quiet_record (Calls.later 0 with_marked quiet_record Calls.begins)

Run-calls_example : ◌≡◌ {A = List Call} (freed 64 ∷ []) (freed 64 ∷ [])
Run-calls_example = Run-calls false 1 (at (Aoa.unlink (insert 7 0) 0 64 1)) refl unlinking
