-- ===== src/Barrier.antt =====
-- The barrier of worker.c, one access of the shared counter `br` at a time, while `stop` is not set. The counter
-- does not wrap around here: 2 ^ 64 arrivals do not happen.
pub mod Rounds
pub mod Safety
use automatic_optimistic_acc.Base.{ℕ, zero, suc, ◌+◌, ◌/◌, ◌<◌, ◌≡◌, ◌==◌, if◌then◌else◌}
use automatic_optimistic_acc.Lfl.{update}

-- A place of a thread, with its `cttr` and, in the barrier, the `res` that it has computed.
pub data Pc : Type 0 where
  outside : (cttr : ℕ) → Pc
  arrive : (cttr : ℕ) → Pc
  spin : (cttr res : ℕ) → Pc
  left : (cttr res : ℕ) → Pc
  check : (cttr : ℕ) → Pc
  failed : Pc

-- One access of a thread, of `num_threads`: to the counter, and to the next place.
unfoldable pub step : (num_threads br : ℕ) → Pc → ℕ × Pc
step num_threads br (outside cttr) =
    (br, (if br / num_threads == cttr then arrive cttr else failed))
step num_threads br (arrive cttr) = (suc br, spin cttr (br / num_threads))
step num_threads br (spin cttr res) =
    (br, (if br / num_threads == res then spin cttr res else left (suc cttr) res))
step num_threads br (left cttr res) =
    (br, (if br / num_threads == suc res then check cttr else failed))
step num_threads br (check cttr) = (br, (if br / num_threads == cttr then outside cttr else failed))
step num_threads br failed = (br, failed)

pub record System : Type 0 where
  pub br : ℕ
  pub threads : ℕ → Pc

abbrev pub turned : (num_threads i : ℕ) → System → System
turned n i s = record {
  br = (step n s.br (s.threads i)).0;
  threads = update s.threads i (step n s.br (s.threads i)).1;
}

pub data Reach (n : ℕ) : System → Type 0 where
  begins : (s : System) → s.br ≡ 0 → ((i : ℕ) → s.threads i ≡ outside 0) → Reach n s
  turn : {s : System} (i : ℕ) → i < n → Reach n s → Reach n (turned n i s)
