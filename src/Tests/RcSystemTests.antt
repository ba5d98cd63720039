-- ===== src/Tests/RcSystemTests.antt =====
-- One thread of lfl-RC.c that inserts a node into the empty list.
use automatic_optimistic_acc.Base.{
  ℕ, zero, suc, ◌+◌, ◌*◌, ◌≡◌, ◌≢◌, refl, false, [], ◌∷◌, arith, inl, inr,
}
use automatic_optimistic_acc.Lfl.{free, insert, search, update}
use automatic_optimistic_acc.Rc.{ready, start, step, arrive, missing}
use automatic_optimistic_acc.Rc.System.{System, Start}
use automatic_optimistic_acc.Rc.Links.{total, linked_refs}
use automatic_optimistic_acc.Rc.Safe.{Safe}
use automatic_optimistic_acc.Rc.Attempts.{
  Detailed, outside, seen, attempted, attempt, raise, go_on, Reach, later, begins, call, null, turn,
  look, add,
}
use automatic_optimistic_acc.Rc.Counts.{refcount-owners, holders-Safe}

abbrev initial : System
initial = record {
  memory = record { link = λ a. 0; key_data = λ a. 0; status = λ a. free };
  count = λ a. 0;
  live = 0 ∷ [];
  threads = λ i. ready;
}

initial-Start : Start initial
initial-Start = record { empty = refl; head = refl; none_counted = λ n. refl; resting = λ i. refl }

fresh : ◌≢◌ {A = ℕ} 64 0
fresh = omega arith

-- The run with the accesses of `safeRead`, and a second thread that has taken a reference to the node and not yet
-- read the head again.
inserting : ℕ → Detailed
unfolding step arrive missing
inserting zero = record {
  base = record initial { threads = update initial.threads 0 (start (insert 7 0)) };
  refcount = λ p. 0;
  attempts = λ i. outside;
}
inserting (suc n) = go_on false 64 0 (inserting n)

called_twice : Detailed
called_twice = record (inserting 6) {
  base = record (inserting 6).base {
    threads = update (inserting 6).base.threads 1 (start (search 7));
  };
}

looking : Detailed
looking = attempt 1 (seen 64) called_twice.refcount called_twice

taking : Detailed
taking = raise 1 64 looking

taking-Reach : Reach false 2 taking
unfolding inserting called_twice looking taking step arrive missing
taking-Reach =
    later
      (later
        (later
          (later
            (later
              (later
                (later
                  (later
                    (later
                      (later (begins initial initial-Start) (call 0 (insert 7 0) (omega arith) tt))
                      (null 0 0 (omega arith) refl refl refl))
                    (turn 0 64 (omega arith) refl
                      (fresh, refl, (λ i. elim i [ inl e ↦ fresh e | inr n ↦ n ]), refl)))
                  (turn 0 64 (omega arith) refl tt))
                (turn 0 64 (omega arith) refl tt))
              (turn 0 64 (omega arith) refl tt))
            (turn 0 64 (omega arith) refl tt))
          (call 1 (search 7) (omega arith) tt))
        (look 1 0 (omega arith) refl refl fresh))
      (add 1 64 (omega arith) refl)

-- The node has the reference of the head, and that of the attempt.
count-taking : taking.refcount 64 ≡ 4
unfolding inserting called_twice looking taking
count-taking = refl

refcount-owners_example :
    taking.refcount 64
    ≡ 2
      * (total 64 taking.base.threads 2
          + attempted 64 taking.attempts 2
          + linked_refs 64 taking.base.memory.link taking.base.live)
refcount-owners_example = refcount-owners false 2 taking 64 taking-Reach fresh

holders-Safe_example :
    Safe taking.base.memory.link taking.base.live taking.base.count (taking.base.threads 0)
holders-Safe_example = holders-Safe false 2 taking 0 taking-Reach
