-- ===== src/Barrier/Rounds.antt =====
-- The round of the barrier, and how many threads have arrived in it.
use native.Mathlib.Decide.{ℕ_discrete}
use native.Mathlib.Nat.{div-eq_of_lt-le, suc-mul}
use automatic_optimistic_acc.Base.{
  ℕ, zero, suc, ◌+◌, ◌*◌, ◌/◌, ◌≤◌, ◌<◌, ◌≡◌, ◌⊎◌, refl, ap, arith, ◌==◌, if◌then◌else◌, test_eq,
  test_ne,
}
use automatic_optimistic_acc.Lfl.{update}
use automatic_optimistic_acc.Barrier.{Pc, outside, arrive, spin, left, check, failed}

-- Whether a thread has arrived in round `q` and has not left it.
abbrev pub waits : (q : ℕ) → Pc → ℕ
waits q (spin cttr res) = if cttr == q then 1 else 0
waits q _ = 0

unfoldable pub waiting : (q : ℕ) (threads : ℕ → Pc) (k : ℕ) → ℕ
waiting q th zero = 0
waiting q th (suc k) = waits q (th k) + waiting q th k

-- What the locals of a thread say in round `q`.
abbrev pub Local : (q : ℕ) → Pc → Type 0
Local q (outside cttr) = cttr ≡ q
Local q (arrive cttr) = cttr ≡ q
Local q (spin cttr res) = (res ≡ cttr) × ((cttr ≡ q) ⊎ (suc cttr ≡ q))
Local q (left cttr res) = (cttr ≡ q) × (suc res ≡ q)
Local q (check cttr) = cttr ≡ q
Local q failed = ⊥

waits_le : (q : ℕ) (pc : Pc) → waits q pc ≤ 1
waits_le q (spin cttr res) = ground arith
waits_le q (outside cttr) = omega arith
waits_le q _ = omega arith

waiting-above :
    (q : ℕ) (th : ℕ → Pc) (i : ℕ) (pc : Pc) (k : ℕ)
    → k ≤ i
    → waiting q (update th i pc) k ≡ waiting q th k
unfolding waiting
waiting-above q th i pc zero le = refl
waiting-above q th i pc (suc k) le =
    rw (test_ne k i (omega arith), waiting-above q th i pc k (omega arith)) refl

pub waiting-update :
    (q : ℕ) (th : ℕ → Pc) (i : ℕ) (pc : Pc) (k : ℕ)
    → i < k
    → waiting q (update th i pc) k + waits q (th i) ≡ waiting q th k + waits q pc
unfolding waiting
waiting-update q th i pc zero lt = absurd (omega arith)
waiting-update q th i pc (suc k) lt = elim (ℕ_discrete k i) [
  | yes e ↦ rw (e, test_eq i i refl, waiting-above q th i pc i (omega arith)) (omega arith)
  | no ne ↦ let rest = waiting-update q th i pc k (omega arith) in rw (test_ne k i ne) (omega arith)
]

pub waiting_le : (q : ℕ) (th : ℕ → Pc) (k : ℕ) → waiting q th k ≤ k
unfolding waiting
waiting_le q th zero = omega arith
waiting_le q th (suc k) = let one = waits_le q (th k) in let rest = waiting_le q th k in omega arith

-- If as many wait as there are, each waits.
pub waiting_full : (q : ℕ) (th : ℕ → Pc) (k i : ℕ) → waiting q th k ≡ k → i < k → waits q (th i) ≡ 1
unfolding waiting
waiting_full q th zero i full lt = absurd (omega arith)
waiting_full q th (suc k) i full lt =
    let one = waits_le q (th k) in
    let most = waiting_le q th k in
    elim (ℕ_discrete i k) [
      | yes e ↦ let same = ap (λ x. waits q (th x)) e in omega arith
      | no ne ↦ waiting_full q th k i (omega arith) (omega arith)
    ]

-- If fewer wait, one does not.
pub waiting_short :
    (q : ℕ) (th : ℕ → Pc) (k : ℕ) → waiting q th k < k → (i : ℕ) × (i < k) × (waits q (th i) ≡ 0)
unfolding waiting
waiting_short q th zero lt = absurd (omega arith)
waiting_short q th (suc k) lt = elim (ℕ_discrete (waits q (th k)) 0) [
  | yes e ↦ (k, omega arith, e)
  | no ne ↦ let (i, li, z) = waiting_short q th k (omega arith) in (i, omega arith, z)
]

pub waiting_none :
    (q : ℕ) (th : ℕ → Pc) (k : ℕ) → ((i : ℕ) → i < k → waits q (th i) ≡ 0) → waiting q th k ≡ 0
unfolding waiting
waiting_none q th zero all = refl
waiting_none q th (suc k) all =
    let last = all k (omega arith) in
    let rest = waiting_none q th k (λ i lt. all i (omega arith)) in omega arith

-- The quotient that the threads compute is the round.
pub round : (n q w : ℕ) → w < n → (q * n + w) / n ≡ q
round n q w lt = div-eq_of_lt-le n (omega arith) (omega (arith, suc-mul q n))
