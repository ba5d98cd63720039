-- ===== src/Trace/Marking.antt =====
-- Setting the mark of one node.
use automatic_optimistic_acc.Base.{
  ℕ, ◌%◌, ◌≡◌, ◌⊎◌, inl, inr, refl, sym, ◌∙◌, true, arith, ◌==◌, if◌then◌else◌, Bool-cases, test_eq,
  ==_iff,
}
use automatic_optimistic_acc.Marks.{mark_word, mark_bit}
use automatic_optimistic_acc.Marks.Params.{mark_params_injective, mark_word_bounds}
use automatic_optimistic_acc.Marks.Bits.{has_bit-set_bit, is_cur_phase-set_bit}
use automatic_optimistic_acc.Trace.{Heap, is_marked, set_mark}
use automatic_optimistic_acc.Trace.Invariant.{Marked, Current}

module _ (m : Heap) (cur old : ℕ) (now : m.words (mark_word cur) ≡ old) where
  -- All nodes read their marks as before, but those that share both word and bit with `cur`.
  is_marked-set_mark :
      (n : ℕ)
      → is_marked (set_mark m cur old) n ≡ (
          if mark_word n == mark_word cur
          then if mark_bit n == mark_bit cur then true else is_marked m n
          else is_marked m n)
  unfolding set_mark
  is_marked-set_mark n = elim (Bool-cases (mark_word n == mark_word cur)) [
    | inl e ↦
        let same : mark_word n ≡ mark_word cur = (==_iff _ _).0 e in
        rw (e, has_bit-set_bit old (mark_bit cur) (mark_bit n), same, now) refl
    | inr e ↦ rw e refl
  ]

  pub set_mark-Marked : Marked (set_mark m cur old) cur
  set_mark-Marked =
      is_marked-set_mark cur
      ∙ rw
          (test_eq (mark_word cur) (mark_word cur) refl, test_eq (mark_bit cur) (mark_bit cur) refl)
          refl

  pub set_mark-keeps : (n : ℕ) → Marked m n → Marked (set_mark m cur old) n
  set_mark-keeps n e = is_marked-set_mark n ∙ ground arith

  pub set_mark-fresh :
      (n : ℕ) → n % 32 ≡ 0 → cur % 32 ≡ 0 → Marked (set_mark m cur old) n → Marked m n ⊎ (n ≡ cur)
  set_mark-fresh n an ac e =
      let e' = sym (is_marked-set_mark n) ∙ e in
      elim (Bool-cases (mark_word n == mark_word cur)) [
        | inl w ↦ elim (Bool-cases (mark_bit n == mark_bit cur)) [
          | inl b ↦ inr (mark_params_injective n cur an ac ((==_iff _ _).0 w) ((==_iff _ _).0 b))
          | inr b ↦ inl (rw (w, b) at e')
        ]
        | inr w ↦ inl (rw w at e')
      ]

  pub set_mark-Current :
      (p a : ℕ) → ((b : ℕ) → Current p (m.words b)) → Current p ((set_mark m cur old).words a)
  unfolding set_mark
  set_mark-Current p a all = elim (Bool-cases (a == mark_word cur)) [
    | inl e ↦ rw e (
        is_cur_phase-set_bit old (mark_bit cur) p (mark_word_bounds cur).3
        ∙ rw now at (all (mark_word cur)))
    | inr e ↦ rw e (all a)
  ]
