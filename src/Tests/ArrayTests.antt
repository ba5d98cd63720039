-- ===== src/Tests/ArrayTests.antt =====
-- Array roots at concrete inputs.
use automatic_optimistic_acc.Base.{
  In, ℕ, ◌+◌, ◌*◌, ◌/◌, ◌%◌, ◌^◌, ◌<◌, ◌≡◌, ◌↔◌, refl, false, true, [], ◌∷◌, arith, Returns,
}
use automatic_optimistic_acc.Marks.{has_bit, is_cur_phase}
use automatic_optimistic_acc.Arrays.{
  Roots, array_marktable_size, clear_roots_mark, finish_trace_arr,
}
use automatic_optimistic_acc.Arrays.Chunks.{calls, HandsOut, calls-HandsOut}
use automatic_optimistic_acc.Arrays.Help.{finish_trace_arr-helps}
use automatic_optimistic_acc.Arrays.Reset.{OnlyFirst, Fits, clear_roots_mark-OnlyFirst}

abbrev phase : ℕ
phase = 2 * 2 ^ 32

-- Two chunks and a half, and calls of which the third has read the counter before the others raised it.
calls-HandsOut_example : HandsOut 160 0 (calls 160 phase (0 ∷ 0 ∷ 2 ∷ 0 ∷ 1 ∷ []) (phase + 0))
calls-HandsOut_example =
    calls-HandsOut 160 phase (omega arith) (omega arith) (omega arith) (0 ∷ 0 ∷ 2 ∷ 0 ∷ 1 ∷ []) 0
      (omega arith)

-- The words of an array with one complete mark word and a half, with the first three chunks signed.
abbrev bits : ℕ → ℕ
bits a = phase + 7

bits-current : (a : ℕ) → a < 3072 / 64 / 32 → is_cur_phase (bits a) phase ≡ true
unfolding is_cur_phase
bits-current a lt = refl

-- The chunk 40 is beyond the complete word.
finish_trace_arr-helps_example :
    In 40 (finish_trace_arr 3072 phase bits).1
    ↔ ((40 < 3072 / 64 / 32 * 32) × (has_bit (bits (40 / 32)) (40 % 32) ≡ false))
finish_trace_arr-helps_example = finish_trace_arr-helps 3072 phase bits bits-current 40

abbrev no_roots : Roots
no_roots = record { current_root = 0; roots = λ i. 0; root_len = λ i. 0; marktable = λ i. 0 }

-- Two array roots: the table of the second is not cleared.
abbrev two_arrays : Roots
two_arrays = record { current_root = 2; roots = λ i. 64; root_len = λ i. 100; marktable = λ i. 16 }

two_arrays-Fits : Fits 2 0 (λ i. 100) 16
unfolding array_marktable_size
two_arrays-Fits j lo hi ne = omega arith

clear_roots_mark-OnlyFirst_example :
    Returns
      (clear_roots_mark phase (λ i h. []) two_arrays (λ t h. 1))
      (OnlyFirst 2 0 phase (λ i. 100) (λ t h. 1))
clear_roots_mark-OnlyFirst_example =
    clear_roots_mark-OnlyFirst phase (λ i h. []) two_arrays (λ t h. 1) two_arrays-Fits
