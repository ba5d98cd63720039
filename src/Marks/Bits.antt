-- ===== src/Marks/Bits.antt =====
-- Setting one bit of a word: the bit is set, every other bit and the phase stay.
use native.Mathlib.Nat.{div-div-eq-div-mul, pow-suc, mul_comm}
use native.Mathlib.Decide.{ℕ_discrete}
use automatic_optimistic_acc.Base.{
  ℕ, zero, suc, ◌+◌, ◌/◌, ◌%◌, ◌^◌, ◌<◌, ◌≡◌, ◌∙◌, sym, ap, true, false, arith, ◌==◌, if◌then◌else◌,
  Bool-cases, inl, inr,
}
use automatic_optimistic_acc.Marks.{has_bit, set_bit, is_cur_phase}

-- The bits from the lowest on.
unfoldable pub bit : (b w : ℕ) → ℕ
bit zero w = w % 2
bit (suc b) w = bit b (w / 2)

div-pow : (w b : ℕ) → w / 2 ^ suc b ≡ w / 2 / 2 ^ b
div-pow w b = rw (pow-suc 2 b, mul_comm (2 ^ b) 2) (sym (div-div-eq-div-mul w 2 (2 ^ b)))

bit_lem : (b w : ℕ) → w / 2 ^ b % 2 ≡ bit b w
unfolding bit
bit_lem zero w = omega arith
bit_lem (suc b) w = rw (div-pow w b) (bit_lem b (w / 2))

half-add : (w b : ℕ) → (w + 2 ^ suc b) / 2 ≡ w / 2 + 2 ^ b
half-add w b = omega (arith, pow-suc 2 b)

bit-add : (b c w : ℕ) → bit b w ≡ 0 → bit c (w + 2 ^ b) ≡ (if c == b then 1 else bit c w)
unfolding bit
bit-add zero zero w e = omega arith
bit-add zero (suc c) w e = let half : (w + 1) / 2 ≡ w / 2 = omega arith in rw half (ground arith)
bit-add (suc b) zero w e = ground (arith, pow-suc 2 b)
bit-add (suc b) (suc c) w e = rw (half-add w b) (bit-add b c (w / 2) e ∙ ground arith)

high-add : (b n w : ℕ) → bit b w ≡ 0 → b < n → (w + 2 ^ b) / 2 ^ n ≡ w / 2 ^ n
unfolding bit
high-add b zero w e h = absurd (omega arith)
high-add zero (suc n) w e h =
    let even : (w + 1) / 2 ≡ w / 2 = omega arith in rw (div-pow (w + 1) n, div-pow w n, even)
high-add (suc b) (suc n) w e h =
    rw (div-pow (w + 2 ^ suc b) n, div-pow w n, half-add w b) (high-add b n (w / 2) e (omega arith))

pub has_bit-bit : (w b : ℕ) → has_bit w b ≡ (bit b w == 1)
unfolding has_bit
has_bit-bit w b = ap (λ x. x == 1) (bit_lem b w)

bit-lt : (b w : ℕ) → bit b w < 2
unfolding bit
bit-lt zero w = omega arith
bit-lt (suc b) w = bit-lt b (w / 2)

clear-bit : (w b : ℕ) → has_bit w b ≡ false → bit b w ≡ 0
clear-bit w b e = ground (arith, has_bit-bit w b, bit-lt b w)

-- Setting a bit sets this bit and leaves every other one.
pub has_bit-set_bit : (w b c : ℕ) → has_bit (set_bit w b) c ≡ (if c == b then true else has_bit w c)
unfolding set_bit
has_bit-set_bit w b c = elim (Bool-cases (has_bit w b)) [
  | inl e ↦ rw e (same (ℕ_discrete c b) e)
  | inr e ↦ rw e (
      rw (has_bit-bit (w + 2 ^ b) c, bit-add b c w (clear-bit w b e), has_bit-bit w c)
        (ground arith))
]
  where
    same : Dec (c ≡ b) → has_bit w b ≡ true → has_bit w c ≡ (if c == b then true else has_bit w c)
    same (yes q) e = rw q (ground (arith, e))
    same (no q) e = ground arith

-- Setting a mark bit leaves the phase.
pub is_cur_phase-set_bit : (w b p : ℕ) → b < 32 → is_cur_phase (set_bit w b) p ≡ is_cur_phase w p
unfolding set_bit is_cur_phase
is_cur_phase-set_bit w b p h = elim (Bool-cases (has_bit w b)) [
  | inl e ↦ rw e
  | inr e ↦ rw e (ap (λ x. x == p) (omega (arith, high-add b 32 w (clear-bit w b e) h)))
]
