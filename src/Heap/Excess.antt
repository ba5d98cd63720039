-- ===== src/Heap/Excess.antt =====
-- Requests for more objects than `heapmem` has chunks for.
use automatic_optimistic_acc.Base.{
  ℕ, zero, suc, ◌+◌, ◌*◌, ◌/◌, ◌%◌, ◌^◌, ◌≤◌, ◌<◌, ◌≡◌, ◌⊎◌, inl, inr, refl, ◌&&◌, Option, none,
  some, List, arith, ltb, ◌==◌, Bool-cases, ok, abort,
}
use automatic_optimistic_acc.Marks.{chunk_size, node_size}
use automatic_optimistic_acc.Phase.{ThreadRecord}
use automatic_optimistic_acc.Heap.{
  max_chunks, payload_size, get_chunk, get_chunks, num_chunks, init_heap,
}

-- One chunk is either had or the run ends.
get_chunk-cases :
    (bound : ℕ) (memalign : ℕ → Option ℕ) (i : ℕ)
    → (get_chunk bound memalign i ≡ abort)
      ⊎ ((c : ℕ) × (get_chunk bound memalign i ≡ ok c) × (i < bound))
unfolding get_chunk
get_chunk-cases bound memalign i = go (memalign i) refl
  where
    go :
        (found : Option ℕ)
        → memalign i ≡ found
        → (get_chunk bound memalign i ≡ abort)
          ⊎ ((c : ℕ) × (get_chunk bound memalign i ≡ ok c) × (i < bound))
    go none m = inl (rw (get_chunk, m) refl)
    go (some chunk) m = elim (Bool-cases (ltb i bound && (chunk % chunk_size == 0))) [
      | inl good ↦ inr (chunk, rw (get_chunk, m, good) refl, ground (arith, good))
      | inr bad ↦ inl (rw (get_chunk, m, bad) refl)
    ]

get_chunks-excess :
    (memalign : ℕ → Option ℕ) (count i : ℕ)
    → i ≤ max_chunks
    → max_chunks < i + count
    → get_chunks memalign count i ≡ abort
unfolding get_chunks
get_chunks-excess memalign zero i le lt = absurd (omega (arith, le, lt))
get_chunks-excess memalign (suc count) i le lt = elim (get_chunk-cases max_chunks memalign i) [
  | inl stop ↦ rw stop refl
  | inr (c, got, inside) ↦
      rw (got, get_chunks-excess memalign count (i + 1) (omega (arith, inside)) (omega (arith, lt)))
        refl
]

-- However many chunks `posix_memalign` gives, a request for as many objects as 20 chunks have room for, or more,
-- does not end normally: `initAllocator` writes past `heapmem`, or has stopped before.
pub init_heap-excess :
    (fuel : ℕ) (memalign : ℕ → Option ℕ) (addresses : ℕ → ℕ)
    → (num_entries num_threads hps_per_thread : ℕ) (dirties : List ThreadRecord)
    → max_chunks * payload_size ≤ num_entries * node_size
    → init_heap fuel memalign addresses node_size num_entries num_threads hps_per_thread dirties
      ≡ abort
unfolding init_heap num_chunks
init_heap-excess fuel memalign addresses num_entries num_threads hps_per_thread dirties many =
    let n = 1 + num_entries * node_size / payload_size in
    elim (Bool-cases (ltb (num_entries * node_size) (2 ^ 31))) [
      | inl small ↦
          rw (small, get_chunks-excess memalign n 0 (omega arith) (omega (arith, many))) refl
      | inr large ↦ rw large refl
    ]
