-- ===== src/Check/Answers.antt =====
-- What the answer of `CheckFinish` says of the round in which it was found.
use automatic_optimistic_acc.Base.{
  ℕ, zero, suc, ◌+◌, ◌≤◌, ◌<◌, ◌≡◌, ◌≢◌, inl, inr, refl, sym, ap, ◌∙◌, Bool, true, false, List, [],
  arith, ltb, ◌==◌, length, In, Bool-cases, ==_iff, test_eq, Returns,
}
use automatic_optimistic_acc.Check.{Seen, scan, unchanged, check_finish}
use automatic_optimistic_acc.Check.Scan.{AllQuiet, Shown, scan-bound, scan-none, scan-Shown}

-- The answers: finished, after a round in which all was quiet and nothing changed; finished, since the phase is
-- over; or not, with pointers to help with.
pub data Answer (rounds : ℕ → List Seen) (phase local_ver : ℕ) : Bool × List ℕ → Type 0 where
  over :
      (i : ℕ)
      → AllQuiet local_ver (rounds i)
      → unchanged (rounds i) ≡ true
      → Answer rounds phase local_ver (true, [])
  left : phase ≢ local_ver → Answer rounds phase local_ver (true, [])
  help :
      (i : ℕ) (helped : List ℕ)
      → phase ≡ local_ver
      → 0 < length helped
      → length helped ≤ 10 + length (rounds i)
      → ((p : ℕ) → In p helped → Shown local_ver p (rounds i))
      → Answer rounds phase local_ver (false, helped)

-- Whatever the threads do while they are looked at: when in one of the rounds none of them changed, `CheckFinish`
-- returns, and its answer is right of the round it was found in. It says that tracing is over only when every
-- thread was quiet or the phase is over; and else it leaves pointers, ten and one for each thread at most,
-- each of which a thread that traces was seen with, unmarked.
pub check_finish-Answers :
    (fuel : ℕ) (rounds : ℕ → List Seen) (phase local_ver : ℕ)
    → (i : ℕ) → i < fuel
    → unchanged (rounds i) ≡ true
    → Returns (check_finish fuel rounds phase local_ver) (Answer rounds phase local_ver)
unfolding check_finish
check_finish-Answers zero rounds phase v i lt same = absurd (omega (arith, lt))
check_finish-Answers (suc fuel) rounds phase v i lt same =
    let seen = rounds fuel in
    let helped = scan v seen [] in
    elim (Bool-cases (ltb 0 (length helped))) [
      | inl some_left ↦ elim (Bool-cases (phase == v)) [
        | inl now ↦ (
          (false, helped),
          rw (some_left, now) refl,
          help fuel helped ((==_iff phase v).0 now) (ground (arith, some_left))
              (omega (arith, scan-bound v seen [] 0 (omega arith)))
              (λ p j. elim (scan-Shown v seen [] p j) [
                | inl shown ↦ shown
                | inr old ↦ elim old [ ]
              ]),
        )
        | inr past ↦
            ((true, []), rw (some_left, past) refl, left (λ e. cc (rw (test_eq phase v e) at past)))
      ]
      | inr none_left ↦
          let empty : length helped ≡ 0 = ground (arith, none_left) in
          elim (Bool-cases (unchanged seen)) [
            | inl still ↦
                ((true, []), rw (none_left, still) refl, over fuel (scan-none v seen empty) still)
            | inr moved ↦
                let earlier : i < fuel = elim (Bool-cases (i == fuel)) [
                  | inl last ↦
                      let at_last : unchanged (rounds i) ≡ unchanged seen =
                        ap (λ k. unchanged (rounds k)) ((==_iff i fuel).0 last) in
                      absurd (cc (sym moved ∙ (sym at_last ∙ same)))
                  | inr other ↦ ground (arith, other, lt)
                ] in
                rw (none_left, moved) (check_finish-Answers fuel rounds phase v i earlier same)
          ]
    ]
