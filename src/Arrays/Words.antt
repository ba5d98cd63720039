-- ===== src/Arrays/Words.antt =====
-- The low half of a mark word, as an `unsigned`: its bits are those of the word.
use native.Mathlib.Nat.{pow-suc, mul_assoc}
use automatic_optimistic_acc.Base.{
  ℕ, zero, suc, ◌+◌, ◌-◌, ◌*◌, ◌/◌, ◌%◌, ◌^◌, ◌≤◌, ◌<◌, ◌≡◌, ◌∙◌, sym, ap, true, arith, ◌==◌,
}
use automatic_optimistic_acc.Marks.{has_bit}
use automatic_optimistic_acc.Marks.Bits.{bit, has_bit-bit}

bit-add_high : (b n w q : ℕ) → b < n → bit b (w + q * 2 ^ n) ≡ bit b w
unfolding bit
bit-add_high b zero w q lt = absurd (omega arith)
bit-add_high zero (suc n) w q lt =
    let twice : q * 2 ^ suc n ≡ q * 2 ^ n * 2 = rw (pow-suc 2 n) (sym (mul_assoc q (2 ^ n) 2)) in
    omega arith
bit-add_high (suc b) (suc n) w q lt =
    let twice : q * 2 ^ suc n ≡ q * 2 ^ n * 2 = rw (pow-suc 2 n) (sym (mul_assoc q (2 ^ n) 2)) in
    let half : (w + q * 2 ^ suc n) / 2 ≡ w / 2 + q * 2 ^ n = omega arith in
    rw half (bit-add_high b n (w / 2) q (omega arith))

one_le_pow : (n : ℕ) → 1 ≤ 2 ^ n
one_le_pow zero = omega arith
one_le_pow (suc n) = let rest = one_le_pow n in omega (arith, pow-suc 2 n)

bit-ones : (b n : ℕ) → b < n → bit b (2 ^ n - 1) ≡ 1
unfolding bit
bit-ones b zero lt = absurd (omega arith)
bit-ones zero (suc n) lt = omega (arith, pow-suc 2 n, one_le_pow n)
bit-ones (suc b) (suc n) lt =
    let half : (2 ^ suc n - 1) / 2 ≡ 2 ^ n - 1 = omega (arith, pow-suc 2 n, one_le_pow n) in
    rw half (bit-ones b n (omega arith))

pub has_bit-low : (w b : ℕ) → b < 32 → has_bit (w % 2 ^ 32) b ≡ has_bit w b
has_bit-low w b lt =
    let whole : w % 2 ^ 32 + w / 2 ^ 32 * 2 ^ 32 ≡ w = omega arith in
    let same = bit-add_high b 32 (w % 2 ^ 32) (w / 2 ^ 32) lt in
    has_bit-bit (w % 2 ^ 32) b
    ∙ (ap (λ x. x == 1) (sym same ∙ ap (bit b) whole) ∙ sym (has_bit-bit w b))

pub has_bit-ones : (w b : ℕ) → b < 32 → w % 2 ^ 32 ≡ 2 ^ 32 - 1 → has_bit w b ≡ true
has_bit-ones w b lt e =
    sym (has_bit-low w b lt)
    ∙ (ap (λ x. has_bit x b) e ∙ (has_bit-bit (2 ^ 32 - 1) b ∙ ap (λ x. x == 1) (bit-ones b 32 lt)))
