-- ===== src/Marks/Claim.antt =====
-- Marking a node: of the threads that try, one call wins, and it wins a bit that was clear in a word
-- of the current phase.
use automatic_optimistic_acc.Base.{
  ℕ, ◌<◌, ◌≡◌, ◌⊎◌, inl, inr, refl, sym, subst, ◌∙◌, Bool, true, false, Option, List, ◌==◌,
  if◌then◌else◌, Bool-cases,
}
use automatic_optimistic_acc.Base.Cas.{disturb, decided, cas_loop_atomic, Taken}
use automatic_optimistic_acc.Marks.{has_bit, set_bit, is_cur_phase, mark_body, mark}
use automatic_optimistic_acc.Marks.Bits.{has_bit-set_bit, is_cur_phase-set_bit}

-- A value that the word has when `mark` reads it: the first, or one that an attempt of its loop reads.
abbrev pub Read : (bit phase_shifted : ℕ) → Option ℕ → List (Option ℕ) → (word w : ℕ) → Type 0
Read bit p first os word w = (w ≡ word) ⊎ Taken ◌==◌ (mark_body bit p) os (disturb first word) w

-- The outcome of one marking on a value `w` of the word: a win sets the bit, which `w` lacks, in the phase, and
-- leaves the phase and the other bits; a loss leaves `w` as it is, which has the bit or is of another phase.
abbrev pub ActsOn : (bit phase_shifted w : ℕ) → ℕ × Bool → Type 0
ActsOn bit p w (after, true) =
    (has_bit w bit ≡ false)
    × (is_cur_phase w p ≡ true)
    × (is_cur_phase after p ≡ true)
    × ((c : ℕ) → has_bit after c ≡ (if c == bit then true else has_bit w c))
ActsOn bit p w (after, false) =
    (after ≡ w) × ((has_bit after bit ≡ true) ⊎ (is_cur_phase after p ≡ false))

abbrev pub Claimed :
    (bit phase_shifted : ℕ) → Option ℕ → List (Option ℕ) → (word : ℕ) → ℕ × Bool → Type 0
Claimed bit p first os word r = (w : ℕ) × Read bit p first os word w × ActsOn bit p w r

module _ (bit p : ℕ) (low : bit < 32) where
  win :
      (w : ℕ)
      → has_bit w bit ≡ false
      → is_cur_phase w p ≡ true
      → ActsOn bit p w (set_bit w bit, true)
  win w e c = (e, c, is_cur_phase-set_bit w bit p low ∙ c, has_bit-set_bit w bit)

  body-ActsOn : (w : ℕ) → ActsOn bit p w (decided w (mark_body bit p w))
  unfolding mark_body
  body-ActsOn w = elim (Bool-cases (has_bit w bit)) [
    | inl e ↦ rw e (refl, inl e)
    | inr e ↦ elim (Bool-cases (is_cur_phase w p)) [
      | inl c ↦ rw (e, c) (win w e c)
      | inr c ↦ rw (e, c) (refl, inr c)
    ]
  ]

  -- However the other threads write to the word between its reads and its swaps, `mark` acts on one value that it
  -- reads: it wins exactly by setting a bit that this value lacks, in the phase, all other bits kept; and it loses
  -- only where the value has the bit or is of another phase.
  pub mark-Claimed :
      (first : Option ℕ) (os : List (Option ℕ)) (word : ℕ)
      → Claimed bit p first os word (mark bit p first os word)
  unfolding mark
  mark-Claimed first os word = elim (Bool-cases (has_bit word bit)) [
    | inl e ↦ rw e (word, inl refl, (refl, inl e))
    | inr e ↦ elim (Bool-cases (is_cur_phase word p)) [
      | inr c ↦ rw (e, c) (word, inl refl, (refl, inr c))
      | inl c ↦ elim (Bool-cases (disturb first word == word)) [
        | inl same ↦ rw (e, c, same) (word, inl refl, win word e c)
        | inr moved ↦
            let (w, taken, same) = cas_loop_atomic ◌==◌ (mark_body bit p) os (disturb first word) in
            rw (e, c, moved) (w, inr taken, subst (ActsOn bit p w) (sym same) (body-ActsOn w))
      ]
    ]
  ]
