-- ===== src/Tests/WaitTests.antt =====
-- A tracing thread that runs alone, to its end.
use automatic_optimistic_acc.Base.{ℕ, zero, suc, ◌*◌, ◌^◌, List, [], ◌∷◌, ◌==◌, if◌then◌else◌}
use automatic_optimistic_acc.Trace.{idle, Thread, Heap, step, load}

abbrev phase : ℕ
phase = 2 * 2 ^ 32

-- A list with the one node at 4096.
abbrev heap : Heap
heap = record { words = λ a. phase; link = λ a. if a == 0 then 4096 else 0 }

abbrev resting : Thread
resting = record { markstack = λ j. 0; pc = idle }

abbrev nodes : List ℕ
nodes = 4096 ∷ []

alone : ℕ → Heap × Thread
unfolding step load
alone zero = (heap, load heap [] resting)
alone (suc n) = step phase (alone n).0 (alone n).1
