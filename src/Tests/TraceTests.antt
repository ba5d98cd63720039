-- ===== src/Tests/TraceTests.antt =====
-- One tracing thread on a heap of two nodes, of which one can be reached.
use native.Mathlib.Decide.{ℕ_discrete}
use automatic_optimistic_acc.Base.{
  In, ℕ, zero, suc, ◌+◌, ◌*◌, ◌%◌, ◌^◌, ◌≡◌, ◌≢◌, inl, inr, refl, ◌∙◌, subst, Bool, true, false,
  none, List, [], arith, ◌==◌, if◌then◌else◌, test_ne, Bool-cases, ◌<◌,
}
use automatic_optimistic_acc.Lfl.{update}
use automatic_optimistic_acc.Marks.{chunk_size, mark_word, mark_bit, has_bit, set_bit, is_cur_phase}
use automatic_optimistic_acc.Marks.Params.{mark_word_bounds}
use automatic_optimistic_acc.Pool.{LocalAlloc}
use automatic_optimistic_acc.Sweep.{process_sweep_page}
use automatic_optimistic_acc.Sweep.Pages.{free_all}
use automatic_optimistic_acc.Trace.{
  idle, pop, Thread, System, Start, Reach, begins, later, turn, load, step, step_at, push_all,
  root_list, unmark, won, lost, set_mark,
}
use automatic_optimistic_acc.Trace.Invariant.{Marked, InWork}
use automatic_optimistic_acc.Trace.Complete.{
  Reachable, from_head, Finished, Finished-Marked, process_sweep_page-safe,
}

abbrev phase : ℕ
phase = 2 * 2 ^ 32

-- The list has the node at 4096; the one at 4128 is garbage.
abbrev before : System
before = record {
  heap = record { words = λ a. phase; link = λ a. if a == 0 then 4096 else 0 };
  threads = λ i. record { markstack = λ j. 0; pc = idle };
}

program : Unit {0}
unfolding is_cur_phase has_bit unmark load push_all root_list step step_at won lost set_mark set_bit
    mark_word mark_bit
program = tt

links-aligned : (n : ℕ) → unmark (if n == 0 then 4096 else 0) % 32 ≡ 0
unfolding unmark
links-aligned n = elim (ℕ_discrete n 0) [ yes e ↦ rw e refl | no ne ↦ rw (test_ne n 0 ne) refl ]

-- The low bits of the word of the phase.
clear_below : ℕ → Bool
clear_below zero = true
clear_below (suc n) = if has_bit phase n then false else clear_below n

clear_below_sound : (n b : ℕ) → clear_below n ≡ true → b < n → has_bit phase b ≡ false
unfolding clear_below
clear_below_sound zero b e lt = absurd (omega arith)
clear_below_sound (suc n) b e lt = elim (Bool-cases (has_bit phase n)) [
  | inl h ↦ cc (rw h at e)
  | inr h ↦ elim (ℕ_discrete b n) [
    | yes q ↦ rw q h
    | no ne ↦ clear_below_sound n b (rw h at e) (omega arith)
  ]
]

before-Start : Start phase [] before
unfolding clear_below has_bit
before-Start = record {
  cleared = λ n. clear_below_sound 32 (mark_bit n) refl (mark_word_bounds n).3;
  current = λ a. unfold is_cur_phase in refl;
  aligned = links-aligned;
  protected = tt;
  resting = λ i. refl;
}

-- Turns of thread 0.
turns : ℕ → System → System
unfolding step
turns zero s = s
turns (suc n) s = turns n (record {
  heap = (step phase s.heap (s.threads 0)).0;
  threads = update s.threads 0 (step phase s.heap (s.threads 0)).1;
})

turns-Reach : (n : ℕ) (s : System) → Reach phase [] s → Reach phase [] (turns n s)
unfolding turns
turns-Reach zero s r = r
turns-Reach (suc n) s r = turns-Reach n _ (later r (turn 0))

abbrev begun : System
begun = record before { threads = update before.threads 0 (load before.heap [] (before.threads 0)) }

abbrev after : System
after = turns 5 begun

after-Reach : Reach phase [] after
after-Reach = turns-Reach 5 begun (begins before 0 before-Start)

others-idle : (n : ℕ) (s : System) (i : ℕ) → i ≢ 0 → (turns n s).threads i ≡ s.threads i
unfolding turns
others-idle zero s i ne = refl
others-idle (suc n) s i ne = others-idle n _ i ne ∙ rw (test_ne i 0 ne) refl

last : (after.threads 0).pc ≡ pop 0
unfolding program turns
last = refl

after-Finished : Finished phase [] after
unfolding program turns
after-Finished i x w = elim (ℕ_discrete i 0) [
  | yes q ↦
      let (j, lo, le, e) : InWork (after.threads 0) x =
        subst (λ k. InWork (after.threads k) x) q w in
      absurd (omega (arith, lo, le))
  | no ne ↦
      let same : begun.threads i ≡ before.threads i = rw (test_ne i 0 ne) refl in
      let none_left : InWork (before.threads i) x =
        subst (λ (t : Thread). InWork t x) (others-idle 5 begun i ne ∙ same) w in
      elim none_left [ ]
]

Finished-Marked_example : Marked after.heap 4096
unfolding program turns
Finished-Marked_example =
    Finished-Marked phase [] after after-Reach after-Finished 4096 from_head (omega arith)

abbrev chunks : ℕ → ℕ
chunks i = chunk_size * (i + 1)

abbrev sweeper : LocalAlloc
sweeper = record {
  local_ver = 2;
  alloc_cache = none;
  free_list = [];
  next_slot = 0;
  pool = record { entries = []; ver = 2 };
}

process_sweep_page-safe_example :
    (garbage : List ℕ) × (process_sweep_page chunks
        (λ x. (none, []))
        after.heap.words
        chunks
        3
        sweeper
      ≡ free_all chunks (λ x. (none, [])) after.heap.words garbage sweeper)
    × ((n : ℕ) → In n garbage → n ≢ 0 → ¬ Reachable phase [] after.heap n)
process_sweep_page-safe_example =
    process_sweep_page-safe phase [] after chunks (λ x. (none, [])) chunks 3 sweeper after-Reach
      after-Finished refl
