-- ===== src/Arrays.antt =====
-- Roots that are arrays, in trace.c: their registration, the chunks of 64 entries that threads take from a
-- shared counter, and the mark bits of these chunks. An array is a function from its indices.
pub mod Chunks
pub mod Register
pub mod Words
pub mod Help
pub mod Reset
use automatic_optimistic_acc.Base.{
  ℕ, zero, suc, ◌+◌, ◌-◌, ◌*◌, ◌/◌, ◌%◌, ◌^◌, Bool, true, false, not, ◌&&◌, ◌||◌, List, [], ◌∷◌,
  ◌++◌, Option, none, some, ◌==◌, if◌then◌else◌, ltb, leb, Outcome, ok, abort, out_of_fuel,
}
use automatic_optimistic_acc.Base.Cas.{Decision, stop, swap, cas_loop}
use automatic_optimistic_acc.Lfl.{update}
use automatic_optimistic_acc.Marks.{has_bit, set_bit, is_cur_phase, Header, clear_word}

abbrev pub arr_entries_per_bit : ℕ
arr_entries_per_bit = 64

abbrev pub entries_per_word : ℕ
entries_per_word = arr_entries_per_bit * 32

abbrev pub max_number_of_roots : ℕ
max_number_of_roots = 10

-- The bytes of the mark table of an array, without the counter in front of it.
unfoldable pub array_marktable_size : (len : ℕ) → ℕ
array_marktable_size len = (len + entries_per_word - 1) / entries_per_word * 8

-- The sum in it does not leave the range of an `int`.
abbrev pub fits_int : (len : ℕ) → Bool
fits_int len = ltb (len + entries_per_word - 1) (2 ^ 31)

-- `roots`, `rootLen`, and the bytes at `arr_marktable`.
pub record Roots : Type 0 where
  pub current_root : ℕ
  pub roots : ℕ → ℕ
  pub root_len : ℕ → ℕ
  pub marktable : ℕ → ℕ

unfoldable pub add_global_root : (root len : ℕ) → Roots → Outcome Roots
unfolding array_marktable_size
add_global_root root len r =
    let idx = r.current_root in
    if ltb idx max_number_of_roots && (leb len 1 || fits_int len)
    then ok (record {
      current_root = idx + 1;
      roots = update r.roots idx root;
      root_len = update r.root_len idx len;
      marktable =
          if ltb 1 len then update r.marktable idx (array_marktable_size len + 8) else r.marktable;
    })
    else abort

-- `(unsigned) ctr * ARR_ENTRIES_PER_BIT >= len`
unfoldable pub beyond : (ctr len : ℕ) → Bool
beyond ctr len = leb len (ctr % 2 ^ 32 * arr_entries_per_bit % 2 ^ 32)

unfoldable pub chunk_of : (ctr len phase : ℕ) → Option ℕ
unfolding beyond
chunk_of ctr len phase =
    if beyond ctr len then none else if is_cur_phase ctr phase then some (ctr % 2 ^ 31) else none

-- `get_arr_chunk` that reads `ctr` and, if this has a chunk, finds the counter at `now` in its increment;
-- with the counter that it leaves.
abbrev pub take_chunk : (len phase now : ℕ) → (seen : Option ℕ) → ℕ × Option ℕ
take_chunk len phase now none = (now, none)
take_chunk len phase now (some c) = ((now + 1) % 2 ^ 64, chunk_of now len phase)

unfoldable pub get_arr_chunk : (len phase ctr now : ℕ) → ℕ × Option ℕ
unfolding chunk_of
get_arr_chunk len phase ctr now = take_chunk len phase now (chunk_of ctr len phase)

unfoldable pub sign_body : (bit phase old : ℕ) → Decision ℕ Bool
sign_body bit phase old =
    if not (is_cur_phase old phase)
    then stop false
    else if has_bit old bit
    then stop false
    else swap (set_bit old bit) true

unfoldable pub sign_bit : List (Option ℕ) → (word bit phase : ℕ) → ℕ × Bool
unfolding sign_body cas_loop
sign_bit os word bit phase = cas_loop ◌==◌ (sign_body bit phase) os word

-- The loop of `copyPartOfArr`, with `n` entries to go.
unfoldable pub copy_entries :
    (n : ℕ) (arr : ℕ → ℕ) (at : ℕ) → (markstack : ℕ → ℕ) (counter : ℕ) → (ℕ → ℕ) × ℕ
copy_entries zero arr at markstack counter = (markstack, counter)
copy_entries (suc n) arr at markstack counter =
    let skipped = copy_entries n arr (at + 1) markstack counter in
    let pushed =
      copy_entries n arr (at + 1) (update markstack (suc counter) (arr at)) (suc counter) in
    if arr at == 0 then skipped else pushed

unfoldable pub copy_part_of_arr : (arr : ℕ → ℕ) (begin : ℕ) → (markstack : ℕ → ℕ) → (ℕ → ℕ) × ℕ
unfolding copy_entries
copy_part_of_arr arr begin markstack = copy_entries arr_entries_per_bit arr begin markstack 0

-- What one thread does with the mark words `bits` in `finishTraceArr`: the chunks that it signs and traces.
-- The bits of a word from `j` on, with `n` to go; `uval` is the word as it was read first.
unfoldable pub help_bits : (n j i uval phase : ℕ) → (bits : ℕ → ℕ) → (ℕ → ℕ) × List ℕ
help_bits zero j i uval phase bits = (bits, [])
help_bits (suc n) j i uval phase bits =
    let (word, signed) = sign_bit [] (bits i) j phase in
    let (skipped, traced) = help_bits n (j + 1) i uval phase bits in
    let (bits', more) = help_bits n (j + 1) i uval phase (update bits i word) in
    if has_bit uval j
    then (skipped, traced)
    else if signed
    then (bits', (i * 32 + j) ∷ more)
    else (bits', more)

-- The words from `i` on, with `n` to go.
unfoldable pub help_words : (n i phase : ℕ) → (bits : ℕ → ℕ) → (ℕ → ℕ) × List ℕ
help_words zero i phase bits = (bits, [])
help_words (suc n) i phase bits =
    let (all, none_left) = help_words n (i + 1) phase bits in
    let (helped, traced) = help_bits 32 0 i (bits i % 2 ^ 32) phase bits in
    let (rest, more) = help_words n (i + 1) phase helped in
    if is_cur_phase (bits i) phase
    then if bits i % 2 ^ 32 == 2 ^ 32 - 1 then (all, none_left) else (rest, traced ++ more)
    else (bits, [])

unfoldable pub finish_trace_arr : (len phase : ℕ) → (bits : ℕ → ℕ) → (ℕ → ℕ) × List ℕ
finish_trace_arr len phase bits = help_words (len / arr_entries_per_bit / 32) 0 phase bits

-- The words of a mark table from `h` on, with `n` to go; the lists are the interference at each.
unfoldable pub clear_arr_marks : (n h phase_shifted : ℕ) → (ℕ → List (Option ℕ)) → Header → Header
clear_arr_marks zero h phase_shifted os m = m
clear_arr_marks (suc n) h phase_shifted os m =
    clear_arr_marks n (h + 1) phase_shifted os (clear_word phase_shifted (os h) m h)

-- The roots from `i` on, with `n` to go; `tables` is `arr_marktable`, of whose first table there are `room` bytes,
-- none if it is `NULL`. A write beyond it is undefined.
unfoldable pub clear_roots :
    (n i phase_shifted : ℕ)
    → (ℕ → ℕ → List (Option ℕ))
    → (root_len : ℕ → ℕ) → (room : ℕ) → (tables : ℕ → Header) → Outcome (ℕ → Header)
clear_roots zero i phase_shifted os root_len room tables = ok tables
clear_roots (suc n) i phase_shifted os root_len room tables =
    let size = array_marktable_size (root_len i) + 8 in
    let first = clear_arr_marks (size / 8) 0 phase_shifted (os i) (tables 0) in
    let skipped = clear_roots n (i + 1) phase_shifted os root_len room tables in
    let cleared = clear_roots n (i + 1) phase_shifted os root_len room (update tables 0 first) in
    if root_len i == 1 then skipped else if leb size room then cleared else abort

unfoldable pub clear_roots_mark :
    (phase_shifted : ℕ) → (ℕ → ℕ → List (Option ℕ)) → Roots → (ℕ → Header) → Outcome (ℕ → Header)
clear_roots_mark phase_shifted os r tables =
    clear_roots r.current_root 0 phase_shifted os r.root_len (r.marktable 0) tables
