-- ===== src/Tests/CounterTests.antt =====
-- A counter for two pages: two threads take both, a third finds none, and one moves on to the next phase.
use automatic_optimistic_acc.Base.{◌*◌, ◌+◌, ◌^◌, ◌≡◌, refl, [], ◌∷◌, arith}
use automatic_optimistic_acc.Sweep.{take_body}
use automatic_optimistic_acc.Sweep.Counter.{
  Counter, counter_reset, counter_take, reset_counter_body, start, reset, take, IsHandedOut,
  Reaches-IsHandedOut,
}

abbrev empty : Counter
empty = record { word = 0 * 2 ^ 32; taken = [] }

abbrev all_taken : Counter
all_taken = counter_take 2 0 (counter_take 2 0 (counter_take 2 0 empty))

abbrev moved_on : Counter
moved_on = counter_take 2 2 (counter_reset 2 all_taken)

moved_on-word : (moved_on.word ≡ 2 * 2 ^ 32 + 1) × (moved_on.taken ≡ 2 * 2 ^ 32 ∷ 1 ∷ 0 ∷ [])
unfolding counter_take counter_reset take_body reset_counter_body
moved_on-word = (refl, refl)

Reaches-IsHandedOut_example : IsHandedOut 2 moved_on
Reaches-IsHandedOut_example = Reaches-IsHandedOut 2 moved_on (omega arith) (
    take 2 (counter_reset 2 all_taken) (
      reset 2 all_taken (omega arith) (
        take 0 (counter_take 2 0 (counter_take 2 0 empty))
          (take 0 (counter_take 2 0 empty) (take 0 empty (start 0))))))
