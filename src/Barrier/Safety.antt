-- ===== src/Barrier/Safety.antt =====
-- The barrier keeps the threads together: its assertions hold, nobody is a round ahead, and somebody can move.
use native.Mathlib.Decide.{ℕ_discrete}
use native.Mathlib.Nat.{suc-mul}
use automatic_optimistic_acc.Base.{
  ℕ, suc, ◌+◌, ◌*◌, ◌/◌, ◌≤◌, ◌<◌, ◌≡◌, ◌≢◌, inl, inr, refl, sym, ap, ◌∙◌, true, false, arith, ◌==◌,
  Bool-cases, test_eq, test_ne, subst,
}
use automatic_optimistic_acc.Lfl.{update}
use automatic_optimistic_acc.Barrier.{
  Pc, outside, arrive, spin, left, check, failed, step, System, Reach, begins, turn,
}
use automatic_optimistic_acc.Barrier.Rounds.{
  waits, waiting, Local, waiting-update, waiting_full, waiting_short, waiting_none, round,
}

-- All threads are in round `q` or about to leave the one before, and not all of them wait in it.
pub record Inv (n br : ℕ) (th : ℕ → Pc) (q : ℕ) : Type 0 where
  pub counted : br ≡ q * n + waiting q th n
  pub short : waiting q th n < n
  pub locals : (i : ℕ) → i < n → Local q (th i)

-- A thread that waits in a round may leave it when the next has begun.
full-Local :
    (q : ℕ) (pc : Pc) → Local q pc → waits q pc ≡ 1 → Local (suc q) pc × (waits (suc q) pc ≡ 0)
full-Local q (spin c res) (same, _) one =
    let here : c ≡ q = ground arith in
    let away : (c == suc q) ≡ false = ground (arith, here) in
    ((same, inr (ap suc here)), rw away refl)
full-Local q (outside c) l one = absurd (omega arith)
full-Local q (arrive c) l one = absurd (omega arith)
full-Local q (left c res) l one = absurd (omega arith)
full-Local q (check c) l one = absurd (omega arith)
full-Local q failed l one = elim l [ ]

module _ (n br : ℕ) (th : ℕ → Pc) (q : ℕ) (inv : Inv n br th q) (i : ℕ) (li : i < n) where
  quotient : br / n ≡ q
  quotient = ap (λ x. x / n) inv.counted ∙ round n q (waiting q th n) inv.short

  updated-Local :
      (r : ℕ) (pc : Pc)
      → Local r pc
      → ((j : ℕ) → j < n → Local r (th j))
      → (j : ℕ) → j < n
      → Local r (update th i pc j)
  updated-Local r pc here others j lj = elim (ℕ_discrete j i) [
    | yes e ↦ rw (test_eq j i e) here
    | no ne ↦ rw (test_ne j i ne) (others j lj)
  ]

  -- A step that is no arrival.
  stay : (pc : Pc) → waits q pc ≡ waits q (th i) → Local q pc → Inv n br (update th i pc) q
  stay pc same here =
      let moved = waiting-update q th i pc n li in
      record {
        counted = let counted = inv.counted in omega arith;
        short = let short = inv.short in omega arith;
        locals = updated-Local q pc here inv.locals;
      }

  -- An arrival; the last one begins the next round.
  arrived :
      (c : ℕ)
      → c ≡ q
      → waits q (th i) ≡ 0
      → (r : ℕ) × Inv n (suc br) (update th i (spin c (br / n))) r
  arrived c here none =
      let pc = spin c (br / n) in
      let one : waits q pc ≡ 1 = rw (test_eq c q here) refl in
      let moved = waiting-update q th i pc n li in
      let counted = inv.counted in
      let short = inv.short in
      let local : Local q pc = (quotient ∙ sym here, inl here) in
      let all = updated-Local q pc local inv.locals in
      elim (ℕ_discrete (suc (waiting q th n)) n) [
        | no more ↦ (q, record { counted = omega arith; short = omega arith; locals = all })
        | yes last ↦
            let full = waiting_full q (update th i pc) n in
            let next = λ (j : ℕ) (lj : j < n).
              full-Local q (update th i pc j) (all j lj) (full j (omega arith) lj) in
            let none_left = waiting_none (suc q) (update th i pc) n (λ j lj. (next j lj).1) in
            (
              suc q,
              record {
                counted = omega (arith, suc-mul q n);
                short = omega arith;
                locals = λ j lj. (next j lj).0;
              },
            )
      ]

  step-Inv :
      (pc : Pc) → th i ≡ pc → (r : ℕ) × Inv n (step n br pc).0 (update th i (step n br pc).1) r
  unfolding step
  step-Inv (outside c) e =
      let here : Local q (outside c) = subst (Local q) e (inv.locals i li) in
      let same : (br / n == c) ≡ true = test_eq (br / n) c (quotient ∙ sym here) in
      let none : waits q (th i) ≡ 0 = ap (waits q) e in
      (q, rw same (stay (arrive c) (sym none) here))
  step-Inv (arrive c) e = arrived c (subst (Local q) e (inv.locals i li)) (ap (waits q) e)
  step-Inv (spin c res) e =
      let here : Local q (spin c res) = subst (Local q) e (inv.locals i li) in
      let now : waits q (th i) ≡ waits q (spin c res) = ap (waits q) e in
      elim (Bool-cases (br / n == res)) [
        | inl f ↦ (q, rw f (stay (spin c res) (sym now) here))
        | inr f ↦
            let away : (c == q) ≡ false = ground (arith, here.0, quotient, f) in
            let left_behind : suc c ≡ q = elim (here.1) [
              | inl z ↦ absurd (ground (arith, z, away))
              | inr z ↦ z
            ] in
            let none : waits q (spin c res) ≡ 0 = rw away refl in
            (
              q,
              rw f (
                  stay (left (suc c) res) (sym (now ∙ none))
                    (left_behind, ap suc here.0 ∙ left_behind)),
            )
      ]
  step-Inv (left c res) e =
      let here : Local q (left c res) = subst (Local q) e (inv.locals i li) in
      let same : (br / n == suc res) ≡ true = test_eq (br / n) (suc res) (quotient ∙ sym here.1) in
      (q, rw same (stay (check c) (sym (ap (waits q) e)) here.0))
  step-Inv (check c) e =
      let here : Local q (check c) = subst (Local q) e (inv.locals i li) in
      let same : (br / n == c) ≡ true = test_eq (br / n) c (quotient ∙ sym here) in
      (q, rw same (stay (outside c) (sym (ap (waits q) e)) here))
  step-Inv failed e = elim (subst (Local q) e (inv.locals i li)) [ ]

pub Reach-Inv : (n : ℕ) (s : System) → 0 < n → Reach n s → (q : ℕ) × Inv n s.br s.threads q
Reach-Inv n s pos (begins _ zero_br rest) =
    let none : waiting 0 s.threads n ≡ 0 =
      waiting_none 0 s.threads n (λ i li. ap (waits 0) (rest i)) in
    (
      0,
      record {
        counted = omega arith;
        short = omega arith;
        locals = λ i li. subst (Local 0) (sym (rest i)) refl;
      },
    )
Reach-Inv n _ pos (turn {s} i li r) =
    let (q, inv) = Reach-Inv n s pos r in step-Inv n s.br s.threads q inv i li (s.threads i) refl

-- How often a thread has arrived at the barrier, and how often it has passed it.
abbrev pub arrivals : Pc → ℕ
arrivals (outside c) = c
arrivals (arrive c) = c
arrivals (spin c res) = suc c
arrivals (left c res) = c
arrivals (check c) = c
arrivals failed = 0

abbrev pub passes : Pc → ℕ
passes (spin c res) = c
passes pc = arrivals pc

abbrev place : Pc → ℕ
place (outside c) = 0
place (arrive c) = 1
place (spin c res) = 2
place (left c res) = 3
place (check c) = 4
place failed = 5

Local-passes : (q : ℕ) (pc : Pc) → Local q pc → (passes pc ≤ q) × (q ≤ arrivals pc) × (pc ≢ failed)
Local-passes q (outside c) l = (omega arith, omega arith, λ e. absurd (omega (arith, ap place e)))
Local-passes q (arrive c) l = (omega arith, omega arith, λ e. absurd (omega (arith, ap place e)))
Local-passes q (spin c res) (same, inl e) =
    (omega arith, omega arith, λ e. absurd (omega (arith, ap place e)))
Local-passes q (spin c res) (same, inr e) =
    (omega arith, omega arith, λ e. absurd (omega (arith, ap place e)))
Local-passes q (left c res) l = (omega arith, omega arith, λ e. absurd (omega (arith, ap place e)))
Local-passes q (check c) l = (omega arith, omega arith, λ e. absurd (omega (arith, ap place e)))
Local-passes q failed l = elim l [ ]

-- In every state that `n` threads can reach: no assertion of the barrier has failed, and a thread has passed the
-- barrier at most as often as any other thread has arrived at it.
pub passes-arrivals :
    (n : ℕ) (s : System) (i j : ℕ)
    → Reach n s
    → i < n
    → j < n
    → (s.threads i ≢ failed) × (passes (s.threads i) ≤ arrivals (s.threads j))
passes-arrivals n s i j r li lj =
    let (q, inv) = Reach-Inv n s (omega arith) r in
    let (mine, _, fine) = Local-passes q (s.threads i) (inv.locals i li) in
    let (_, yours, _) = Local-passes q (s.threads j) (inv.locals j lj) in (fine, omega arith)

-- A thread that does not wait in the round moves.
moves : (n br q : ℕ) (pc : Pc) → br / n ≡ q → Local q pc → waits q pc ≡ 0 → (step n br pc).1 ≢ pc
unfolding step
moves n br q (outside c) e l z =
    let next : (step n br (outside c)).1 ≡ arrive c = rw (test_eq (br / n) c (e ∙ sym l)) refl in
    λ same. absurd (omega (arith, ap place (sym next ∙ same)))
moves n br q (arrive c) e l z = λ same. absurd (omega (arith, ap place same))
moves n br q (spin c res) e (same_res, l) z =
    let away : (br / n == res) ≡ false = ground (arith, e, same_res, z) in
    let next : (step n br (spin c res)).1 ≡ left (suc c) res = rw away refl in
    λ same. absurd (omega (arith, ap place (sym next ∙ same)))
moves n br q (left c res) e l z =
    let next : (step n br (left c res)).1 ≡ check c =
      rw (test_eq (br / n) (suc res) (e ∙ sym l.1)) refl in
    λ same. absurd (omega (arith, ap place (sym next ∙ same)))
moves n br q (check c) e l z =
    let next : (step n br (check c)).1 ≡ outside c = rw (test_eq (br / n) c (e ∙ sym l)) refl in
    λ same. absurd (omega (arith, ap place (sym next ∙ same)))
moves n br q failed e l z = elim l [ ]

-- No deadlock: in every reachable state the next step of some thread is not a spin.
pub Reach-moves :
    (n : ℕ) (s : System)
    → 0 < n
    → Reach n s
    → (i : ℕ) × (i < n) × ((step n s.br (s.threads i)).1 ≢ s.threads i)
Reach-moves n s pos r =
    let (q, inv) = Reach-Inv n s pos r in
    let (i, li, free) = waiting_short q s.threads n inv.short in
    (
      i,
      li,
      moves n s.br q (s.threads i)
          (ap (λ x. x / n) inv.counted ∙ round n q (waiting q s.threads n) inv.short)
          (inv.locals i li) free,
    )
