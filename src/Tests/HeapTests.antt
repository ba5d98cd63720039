-- ===== src/Tests/HeapTests.antt =====
-- Heaps of chunks that lie one after the other.
use automatic_optimistic_acc.Base.{ℕ, ◌+◌, ◌*◌, ◌≡◌, refl, some, [], ◌∷◌, arith, ok, Returns}
use automatic_optimistic_acc.Marks.{chunk_size, node_size}
use automatic_optimistic_acc.Heap.{
  new_heap, init_heap, init_pool, num_chunks, get_chunks, get_chunk,
}
use automatic_optimistic_acc.Heap.Init.{IsLaid, init_heap-IsLaid}
use automatic_optimistic_acc.Heap.Each.{init_pool-Equals}

abbrev chunk : ℕ → ℕ
chunk i = (i + 1) * chunk_size

-- What `malloc` returns for a cache; its value plays no part here.
abbrev cache_address : ℕ → ℕ
cache_address p = p + 1

-- The default size of the heap is two chunks.
init_heap-IsLaid_example :
    Returns
      (init_heap 130 (λ i. some (chunk i)) cache_address node_size 20000 2 3 [])
      (IsLaid 20000)
init_heap-IsLaid_example =
    init_heap-IsLaid 130 chunk cache_address 20000 2 3 [] (omega arith) (λ i. omega arith)
      (λ i j e. omega (arith, e)) (omega arith)

-- Ten objects need one chunk.
one_chunk :
    init_heap 130 (λ i. some (chunk i)) cache_address node_size 10 2 3 []
    ≡ ok (new_heap 130 cache_address node_size 2 3 [] (chunk 0 ∷ []))
unfolding init_heap num_chunks get_chunks get_chunk
one_chunk = refl

init_pool-Equals_example :
    init_pool 130 (λ i. some (chunk i)) cache_address node_size 10
    ≡ ok (new_heap 130 cache_address node_size 2 3 [] (chunk 0 ∷ [])).collector.head
init_pool-Equals_example =
    init_pool-Equals 130 (λ i. some (chunk i)) cache_address node_size 10 2 3 []
      (new_heap 130 cache_address node_size 2 3 [] (chunk 0 ∷ [])) one_chunk
