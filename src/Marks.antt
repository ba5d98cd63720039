-- ===== src/Marks.antt =====
-- The mark bits of trace.c, with the sizes of allocator.h. A chunk of the heap is aligned to its size
-- and begins with a header of 64-bit words; the high half of a word is the phase for which its low
-- half, 32 mark bits, is valid. Masks are read by arithmetic: `x & (2^k - 1)` is `x % 2^k`, and the
-- test of one bit is the parity of a quotient. The model of a chunk's header is a function from word
-- indices; other threads' writes to a word are the interferences of Base.Cas.
pub mod Bits
pub mod Params
pub mod Claim
pub mod Clear
use automatic_optimistic_acc.Base.{
  ℕ, zero, suc, ◌+◌, ◌-◌, ◌*◌, ◌/◌, ◌%◌, ◌^◌, Bool, true, false, Option, List, [], ◌∷◌, ltb, leb,
  ◌==◌, if◌then◌else◌, Outcome, ok, out_of_fuel, ◌>>=◌,
}
use automatic_optimistic_acc.Base.Cas.{Decision, stop, swap, disturb, cas_loop}

abbrev pub chunk_size : ℕ
chunk_size = 2 ^ 19

abbrev pub node_size : ℕ
node_size = 32

abbrev pub mem_per_byte : ℕ
mem_per_byte = node_size / 2 * 8

abbrev round_up : ℕ → ℕ → ℕ
round_up n s = (n + s - 1) / s * s

abbrev pub header_size : ℕ
header_size = round_up (chunk_size / mem_per_byte) node_size

-- `get_mark_params`: the address of the word, and the bit that the mask has.
unfoldable pub mark_word : ℕ → ℕ
mark_word ptr = ptr - ptr % chunk_size + 8 * (ptr % chunk_size / node_size / 32)

unfoldable pub mark_bit : ℕ → ℕ
mark_bit ptr = ptr % chunk_size / node_size % 32

-- `word & mask`
unfoldable pub has_bit : (word bit : ℕ) → Bool
has_bit word bit = word / 2 ^ bit % 2 == 1

-- `word | mask`
unfoldable pub set_bit : (word bit : ℕ) → ℕ
set_bit word bit = if has_bit word bit then word else word + 2 ^ bit

unfoldable pub is_cur_phase : (word phase_shifted : ℕ) → Bool
is_cur_phase word phase_shifted = word - word % 2 ^ 32 == phase_shifted

-- `MAKE_SC(0, phase)`, and `phaseNum<<=32`
unfoldable pub shifted : ℕ → ℕ
shifted phase = phase * 2 ^ 32 % 2 ^ 64

-- The loop of `__mark`.
unfoldable pub mark_body : (bit phase_shifted word : ℕ) → Decision ℕ Bool
mark_body bit phase_shifted word =
    if has_bit word bit
    then stop false
    else if is_cur_phase word phase_shifted
    then swap (set_bit word bit) true
    else stop false

-- `__mark`, given the word `old` as it was read before and `now` as it is at the first swap.
unfoldable pub mark_old : (bit phase_shifted old now : ℕ) → List (Option ℕ) → ℕ × Bool
unfolding mark_body cas_loop
mark_old bit phase_shifted old now os =
    if is_cur_phase old phase_shifted
    then if now == old
      then (set_bit old bit, true)
      else cas_loop ◌==◌ (mark_body bit phase_shifted) os now
    else (old, false)

-- `mark`: the word that it wrote, or else the one that it saw last, and whether it set the bit.
unfoldable pub mark :
    (bit phase_shifted : ℕ) → (first : Option ℕ) → List (Option ℕ) → (word : ℕ) → ℕ × Bool
unfolding mark_old
mark bit phase_shifted first os word =
    if has_bit word bit
    then (word, false)
    else mark_old bit phase_shifted word (disturb first word) os

-- The loop on one word in `clearMarks`.
unfoldable pub clear_body : (phase_shifted word : ℕ) → Decision ℕ (Unit {0})
clear_body phase_shifted word = if leb phase_shifted word then stop tt else swap phase_shifted tt

abbrev pub Header : Type 0
Header = ℕ → ℕ

abbrev pub write : Header → ℕ → ℕ → Header
write m i v j = if j == i then v else m j

unfoldable pub clear_word : (phase_shifted : ℕ) → List (Option ℕ) → Header → ℕ → Header
unfolding clear_body cas_loop
clear_word phase_shifted os m h = write m h (cas_loop ◌==◌ (clear_body phase_shifted) os (m h)).0

-- The words of one chunk: from `first` on, round the end, until `first` comes back.
unfoldable pub clear_chunk :
    (fuel phase_shifted size first h : ℕ) → (ℕ → List (Option ℕ)) → Header → Outcome Header
unfolding clear_word
clear_chunk zero phase_shifted size first h os m = out_of_fuel
clear_chunk (suc fuel) phase_shifted size first h os m =
    let m' = clear_word phase_shifted (os h) m h in
    let h' = if ltb (h + 1) size then h + 1 else 0 in
    let rest = clear_chunk fuel phase_shifted size first h' os m' in
    if h' == first then ok m' else rest

abbrev pub header_words : ℕ
header_words = header_size / 8

-- `clearMarks`: each thread begins at a place of its own. `os` are the interferences by chunk and word.
unfoldable pub clear_marks :
    (threads tid phase : ℕ) → (ℕ → ℕ → List (Option ℕ)) → List Header → Outcome (List Header)
unfolding clear_chunk shifted
clear_marks threads tid phase os [] = ok []
clear_marks threads tid phase os (m ∷ ms) =
    let first = tid * (header_words / threads) in
    clear_chunk header_words (shifted phase) header_words first first (os 0) m >>= λ m'.
    clear_marks threads tid phase (λ c. os (suc c)) ms >>= λ ms'. ok (m' ∷ ms')
