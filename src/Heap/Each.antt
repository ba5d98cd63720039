-- ===== src/Heap/Each.antt =====
-- The loop of allocatorNR.c against the two loops of allocator.c.
use automatic_optimistic_acc.Base.{
  ℕ, zero, suc, ◌+◌, ◌%◌, ◌<◌, ◌≡◌, inl, inr, refl, ap, ◌∙◌, Option, none, some, List, [], ◌∷◌,
  arith, ◌&&◌, ltb, ◌==◌, if◌then◌else◌, Bool-cases, lt→ltb, Outcome, ok, abort, out_of_fuel, ◌>>=◌,
  subst,
}
use automatic_optimistic_acc.Marks.{chunk_size, header_size}
use automatic_optimistic_acc.Pool.{AllocEntry, VerEntry, fill_chunk}
use automatic_optimistic_acc.Phase.{ThreadRecord}
use automatic_optimistic_acc.Heap.{
  max_chunks, get_chunk, get_chunks, fill_chunks, fill_each, Allocator, new_heap, init_heap,
  init_pool, num_chunks,
}

-- A run that ends normally has done so in its first part.
bind-ok :
    {A B : Type 0} (r : Outcome A) (f : A → Outcome B) (b : B)
    → (r >>= f) ≡ ok b
    → (a : A) × (r ≡ ok a) × (f a ≡ ok b)
bind-ok (ok a) f b e = (a, refl, e)
bind-ok abort f b e = absurd (cc e)
bind-ok out_of_fuel f b e = absurd (cc e)

get_chunk-ok :
    (memalign : ℕ → Option ℕ) (i c : ℕ)
    → get_chunk max_chunks memalign i ≡ ok c
    → (memalign i ≡ some c) × (i < max_chunks)
unfolding get_chunk
get_chunk-ok memalign i c e = go (memalign i) refl e
  where
    go :
        (found : Option ℕ)
        → memalign i ≡ found
        → (elim found [
          | none ↦ abort
          | some chunk ↦ if ltb i max_chunks && (chunk % chunk_size == 0) then ok chunk else abort
        ])
          ≡ ok c
        → (memalign i ≡ some c) × (i < max_chunks)
    go none m e' = absurd (cc e')
    go (some chunk) m e' = elim (Bool-cases (ltb i max_chunks && (chunk % chunk_size == 0))) [
      | inl good ↦
          let here : ok chunk ≡ ok c = rw good at e' in
          let same : chunk ≡ c = cc here in (m ∙ ap some same, ground (arith, good))
      | inr bad ↦ absurd (cc (rw bad at e'))
    ]

fill_each-Equals :
    (fuel : ℕ) (memalign : ℕ → Option ℕ) (addresses : ℕ → ℕ)
    → (size count i : ℕ) (cs : List ℕ) (head : List AllocEntry)
    → get_chunks memalign count i ≡ ok cs
    → fill_each fuel memalign addresses size count i head
      ≡ ok (fill_chunks fuel addresses size cs head)
unfolding get_chunks fill_each fill_chunks
fill_each-Equals fuel memalign addresses size zero i cs head e =
    let none_left : [] ≡ cs = cc e in
    subst (λ x. ok head ≡ ok (fill_chunks fuel addresses size x head)) none_left refl
fill_each-Equals fuel memalign addresses size (suc count) i cs head e =
    let (c, first, rest) =
      bind-ok (get_chunk max_chunks memalign i)
        (λ chunk. get_chunks memalign count (i + 1) >>= λ chunks. ok (chunk ∷ chunks)) cs e in
    let (ds, later, last) =
      bind-ok (get_chunks memalign count (i + 1)) (λ chunks. ok (c ∷ chunks)) cs rest in
    let (found, lt) = get_chunk-ok memalign i c first in
    let whole : (c ∷ ds) ≡ cs = cc last in
    let next = fill_chunk fuel addresses (c + header_size) size (c + chunk_size) head in
    let ran : fill_each fuel memalign addresses size (suc count) i head
        ≡ fill_each fuel memalign addresses size count (i + 1) next =
      rw (found, fill_each, lt→ltb i 5000 (omega (arith, lt))) refl in
    subst
      (λ x.
        fill_each fuel memalign addresses size (suc count) i head
        ≡ ok (fill_chunks fuel addresses size x head))
      whole (ran ∙ fill_each-Equals fuel memalign addresses size count (i + 1) ds next later)

-- Where `initAllocator` of allocator.c returns a heap, `initAllocator` of allocatorNR.c makes the same pool of
-- the same memory.
pub init_pool-Equals :
    (fuel : ℕ) (memalign : ℕ → Option ℕ) (addresses : ℕ → ℕ)
    → (entry_size num_entries num_threads hps_per_thread : ℕ) (dirties : List ThreadRecord)
    → (heap : Allocator)
    → init_heap fuel memalign addresses entry_size num_entries num_threads hps_per_thread dirties
      ≡ ok heap
    → init_pool fuel memalign addresses entry_size num_entries ≡ ok heap.collector.head
unfolding init_heap init_pool
init_pool-Equals fuel memalign addresses entry_size num_entries num_threads hps_per_thread dirties
      heap e =
    let (n, counted, later) =
      bind-ok (num_chunks entry_size num_entries)
        (λ count. get_chunks memalign count 0 >>= λ chunks.
          ok (new_heap fuel addresses entry_size num_threads hps_per_thread dirties chunks))
        heap e in
    let (cs, got, last) =
      bind-ok (get_chunks memalign n 0)
        (λ chunks.
          ok (new_heap fuel addresses entry_size num_threads hps_per_thread dirties chunks))
        heap later in
    let same = fill_each-Equals fuel memalign addresses entry_size n 0 cs [] got in
    let head : VerEntry = record {
      entries = fill_chunks fuel addresses entry_size cs [];
      ver = 0;
    } in
    let whole : new_heap fuel addresses entry_size num_threads hps_per_thread dirties cs ≡ heap =
      cc last in
    let made : init_pool fuel memalign addresses entry_size num_entries ≡ ok head =
      rw (init_pool, counted, same) refl in
    made ∙ ap (λ (h : Allocator). ok h.collector.head) whole
