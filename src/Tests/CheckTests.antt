-- ===== src/Tests/CheckTests.antt =====
-- A thread that has finished, and one that traces node 64 with node 96 on its stack.
use automatic_optimistic_acc.Base.{
  ℕ, ◌≡◌, refl, Bool, true, false, List, [], ◌∷◌, arith, ok, Returns, if◌then◌else◌, ◌==◌,
}
use automatic_optimistic_acc.Check.{
  Seen, same_phase, is_tracing, scan_stack, scan_thread, scan, unchanged, check_finish,
}
use automatic_optimistic_acc.Check.Answers.{Answer, check_finish-Answers}

abbrev finished : Seen
finished = record {
  local_ver = 2;
  tracing = 65;
  stack = [];
  tracing_marked = true;
  later_tracing = 65;
  later_ver = 2;
}

abbrev tracing_one : Bool → ℕ → Seen
tracing_one marked later = record {
  local_ver = 2;
  tracing = 64;
  stack = record { ptr = 96; marked = marked } ∷ [];
  tracing_marked = true;
  later_tracing = later;
  later_ver = 2;
}

-- In the first round, number 1, the second thread goes on to node 96; in the last it has marked all.
abbrev rounds : ℕ → List Seen
rounds i = finished ∷ tracing_one true (if i == 0 then 64 else 96) ∷ []

quiet_round : unchanged (rounds 0) ≡ true
unfolding unchanged same_phase
quiet_round = refl

check_finish-Answers_example : Returns (check_finish 2 rounds 2 2) (Answer rounds 2 2)
check_finish-Answers_example = check_finish-Answers 2 rounds 2 2 0 (omega arith) quiet_round

unmarked_left : check_finish 1 (λ i. finished ∷ tracing_one false 64 ∷ []) 2 2 ≡ ok (false, 96 ∷ [])
unfolding check_finish scan scan_thread scan_stack is_tracing same_phase unchanged
unmarked_left = refl
