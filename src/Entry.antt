-- ===== src/Entry.antt =====
-- entry.h: tagged pointers and the packed key. A pointer is its address, a number; bit 0 of the
-- `nextEntry` word says that the node which holds the word is deleted. `& 1` is `% 2`, `| 1` and
-- `& ~1` put 1 and 0 in its place.
use automatic_optimistic_acc.Base.{ℕ, ◌+◌, ◌-◌, ◌/◌, ◌%◌, ◌^◌, ◌≡◌, ◌<◌, Bool, arith, ◌==◌}

unfoldable pub is_deleted : ℕ → Bool
is_deleted p = p % 2 == 1

unfoldable pub mark_deleted : ℕ → ℕ
mark_deleted p = p - p % 2 + 1

unfoldable pub clear_deleted : ℕ → ℕ
clear_deleted p = p - p % 2

-- `keydata >> 32`, then cut to an `int`
unfoldable pub get_data : ℕ → ℕ
get_data key_data = key_data / 2 ^ 32 % 2 ^ 32

-- The low 32 bits, as an `int` that is not negative.
unfoldable pub get_key : ℕ → ℕ
get_key key_data = key_data % 2 ^ 32

pub get_key-of_small : (k : ℕ) → k < 2 ^ 31 → get_key k ≡ k
unfolding get_key
get_key-of_small k h = omega arith

pub get_data-of_small : (k : ℕ) → k < 2 ^ 31 → get_data k ≡ 0
unfolding get_data
get_data-of_small k h = omega arith
