-- ===== src/Tests/WorkerTests.antt =====
-- Two threads at the barrier.
use automatic_optimistic_acc.Base.{◌≡◌, ◌≢◌, ◌≤◌, refl, arith}
use automatic_optimistic_acc.Barrier.{
  outside, failed, spin, step, System, turned, Reach, begins, turn,
}
use automatic_optimistic_acc.Barrier.Safety.{passes, arrivals, passes-arrivals}

abbrev initial : System
initial = record { br = 0; threads = λ i. outside 0 }

-- The first thread arrives and spins.
abbrev spinning : System
spinning = turned 2 0 (turned 2 0 (turned 2 0 initial))

spinning-Reach : Reach 2 spinning
spinning-Reach =
    turn 0 (omega arith)
      (turn 0 (omega arith) (turn 0 (omega arith) (begins initial refl (λ i. refl))))

spinning-first : spinning.threads 0 ≡ spin 0 0
unfolding step
spinning-first = refl

passes-arrivals_example :
    (spinning.threads 0 ≢ failed) × (passes (spinning.threads 0) ≤ arrivals (spinning.threads 1))
passes-arrivals_example = passes-arrivals 2 spinning 0 1 spinning-Reach (omega arith) (omega arith)
