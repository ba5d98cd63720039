-- ===== src/Arrays/Chunks.antt =====
-- The chunks of an array root: who gets which, and what a chunk puts on the mark stack.
use automatic_optimistic_acc.Base.{
  ℕ, zero, suc, ◌+◌, ◌-◌, ◌*◌, ◌%◌, ◌^◌, ◌≤◌, ◌<◌, ◌≡◌, inl, inr, refl, true, List, [], ◌∷◌, Option,
  none, some, arith, ◌==◌, if◌then◌else◌, leb, Bool-cases, length, ap, ◌∙◌,
}
use automatic_optimistic_acc.Lfl.{update}
use automatic_optimistic_acc.Marks.{is_cur_phase}
use automatic_optimistic_acc.Trace.{push_all}
use automatic_optimistic_acc.Arrays.{
  beyond, chunk_of, take_chunk, get_arr_chunk, copy_entries, copy_part_of_arr, arr_entries_per_bit,
}

-- Calls of `get_arr_chunk` by any threads, in the order of their increments. The number of a call says by how
-- much the counter that it has read is behind.
unfoldable pub calls : (len phase : ℕ) → List ℕ → (counter : ℕ) → List (Option ℕ)
calls len phase [] counter = []
calls len phase (lag ∷ lags) counter =
    let read = if leb (phase + lag) counter then counter - lag else phase in
    let (counter', chunk) = get_arr_chunk len phase read counter in
    chunk ∷ calls len phase lags counter'

abbrev pub AllNone : List (Option ℕ) → Type 0
AllNone [] = Unit {0}
AllNone (none ∷ rs) = AllNone rs
AllNone (some c ∷ rs) = ⊥

-- The chunks from `k` on, one after the other, and nothing more once the array has come to its end.
abbrev pub HandsOut : (len k : ℕ) → List (Option ℕ) → Type 0
HandsOut len k [] = Unit {0}
HandsOut len k (none ∷ rs) = (len ≤ arr_entries_per_bit * k) × AllNone rs
HandsOut len k (some c ∷ rs) = (c ≡ k) × (arr_entries_per_bit * k < len) × HandsOut len (suc k) rs

module _ (len p : ℕ) (fits : len < 2 ^ 31) (high : p < 2 ^ 64) (even : p % 2 ^ 32 ≡ 0) where
  chunk_of-at :
      (k : ℕ)
      → k < 2 ^ 26
      → chunk_of (p + k) len p ≡ (if leb len (arr_entries_per_bit * k) then none else some k)
  unfolding chunk_of beyond is_cur_phase
  chunk_of-at k small =
      let low : (p + k) % 2 ^ 32 ≡ k = omega arith in
      let product : k * 64 % 2 ^ 32 ≡ 64 * k = omega arith in
      let same : (p + k - k == p) ≡ true = ground arith in
      let bits : (p + k) % 2 ^ 31 ≡ k = omega arith in rw (low, product, same, bits) refl

  -- A call that reads the counter at `k` and raises it at `k'`.
  get_arr_chunk-at :
      (k k' : ℕ)
      → k ≤ k'
      → k' < 2 ^ 26
      → get_arr_chunk len p (p + k) (p + k') ≡ (
          if leb len (arr_entries_per_bit * k)
          then (p + k', none)
          else (p + suc k', (if leb len (arr_entries_per_bit * k') then none else some k')))
  unfolding get_arr_chunk
  get_arr_chunk-at k k' le small =
      let next : (p + k' + 1) % 2 ^ 64 ≡ p + suc k' = omega arith in
      let seen = ap (take_chunk len p (p + k')) (chunk_of-at k (omega arith)) in
      elim (Bool-cases (leb len (arr_entries_per_bit * k))) [
        | inl e ↦ seen ∙ rw e refl
        | inr e ↦ seen ∙ rw (e, next, chunk_of-at k' small) refl
      ]

  -- What a call that lags behind reads.
  read-at : (lag k : ℕ) → (if leb (p + lag) (p + k) then p + k - lag else p) ≡ p + (k - lag)
  read-at lag k = ground arith

  calls-AllNone :
      (lags : List ℕ) (k : ℕ)
      → k + length lags < 2 ^ 26
      → len ≤ arr_entries_per_bit * k
      → AllNone (calls len p lags (p + k))
  unfolding calls
  calls-AllNone [] k small end = tt
  calls-AllNone (lag ∷ lags) k small end =
      let chunk = get_arr_chunk-at (k - lag) k (omega arith) (omega arith) in
      elim (Bool-cases (leb len (arr_entries_per_bit * (k - lag)))) [
        | inl e ↦ rw (read-at lag k, chunk, e) (calls-AllNone lags k (omega arith) end)
        | inr e ↦
            let last : leb len (arr_entries_per_bit * k) ≡ true = ground arith in
            rw (read-at lag k, chunk, e, last)
              (calls-AllNone lags (suc k) (omega arith) (omega arith))
      ]

  -- For fewer than 2 ^ 26 calls, and an array whose length is an `int`: from its start in the phase on, the counter hands out the chunks of an array one by one, in order and
  -- each once, however late the calls read it; and when a call has nothing, all have been handed out.
  pub calls-HandsOut :
      (lags : List ℕ) (k : ℕ) → k + length lags < 2 ^ 26 → HandsOut len k (calls len p lags (p + k))
  unfolding calls
  calls-HandsOut [] k small = tt
  calls-HandsOut (lag ∷ lags) k small =
      let chunk = get_arr_chunk-at (k - lag) k (omega arith) (omega arith) in
      elim (Bool-cases (leb len (arr_entries_per_bit * (k - lag)))) [
        | inl e ↦
            let end : len ≤ arr_entries_per_bit * k = ground arith in
            rw (read-at lag k, chunk, e) (end, calls-AllNone lags k (omega arith) end)
        | inr e ↦ elim (Bool-cases (leb len (arr_entries_per_bit * k))) [
          | inl f ↦
              let end : len ≤ arr_entries_per_bit * k = ground arith in
              rw (read-at lag k, chunk, e, f)
                (end, calls-AllNone lags (suc k) (omega arith) (omega arith))
          | inr f ↦
              rw (read-at lag k, chunk, e, f)
                (refl, ground arith, calls-HandsOut lags (suc k) (omega arith))
        ]
      ]

-- The pointers of `n` entries from `at` on that are not null.
abbrev pub non_null : (n : ℕ) (arr : ℕ → ℕ) (at : ℕ) → List ℕ
non_null zero arr at = []
non_null (suc n) arr at =
    if arr at == 0 then non_null n arr (at + 1) else arr at ∷ non_null n arr (at + 1)

copy_entries-push_all :
    (n : ℕ) (arr : ℕ → ℕ) (at : ℕ) (st : ℕ → ℕ) (c : ℕ)
    → copy_entries n arr at st c ≡ push_all st c (non_null n arr at)
unfolding copy_entries push_all
copy_entries-push_all zero arr at st c = refl
copy_entries-push_all (suc n) arr at st c = elim (Bool-cases (arr at == 0)) [
  | inl e ↦ rw e (copy_entries-push_all n arr (at + 1) st c)
  | inr e ↦ rw e (copy_entries-push_all n arr (at + 1) (update st (suc c) (arr at)) (suc c))
]

-- A chunk is copied as `trace` pushes its roots: its 64 entries but for the null ones, in order, from the bottom
-- of the mark stack.
pub copy_part_of_arr-push_all :
    (arr : ℕ → ℕ) (begin : ℕ) (st : ℕ → ℕ)
    → copy_part_of_arr arr begin st ≡ push_all st 0 (non_null 64 arr begin)
unfolding copy_part_of_arr
copy_part_of_arr-push_all arr begin st = copy_entries-push_all 64 arr begin st 0
