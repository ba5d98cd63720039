-- ===== src/Heap.antt =====
-- The heap of allocator.c and allocatorNR.c: chunks of memory, each aligned to its size, and the entries with
-- the objects of every chunk, which make the first pool; then the first state of every thread. The memory
-- comes from `posix_memalign`, a parameter: none is its failure.
pub mod Layout
pub mod Init
pub mod Each
pub mod Excess
use automatic_optimistic_acc.Base.{
  ℕ, zero, suc, ◌+◌, ◌-◌, ◌*◌, ◌/◌, ◌%◌, ◌^◌, Bool, true, false, ◌&&◌, Option, none, some, List, [],
  ◌∷◌, ltb, leb, ◌==◌, if◌then◌else◌, length, replicate, Outcome, ok, abort, ◌>>=◌,
}
use automatic_optimistic_acc.Marks.{chunk_size, node_size, header_size}
use automatic_optimistic_acc.Pool.{AllocEntry, VerEntry, LocalAlloc, fill_chunk}
use automatic_optimistic_acc.Phase.{ThreadRecord, Collector}

abbrev pub max_chunks : ℕ
max_chunks = 20

abbrev pub payload_size : ℕ
payload_size = chunk_size - header_size

-- `struct allocator` with `heapmem`, whose first `heapmemcnt` places are the chunks. `collector` is what
-- a collection reads and changes.
pub record Allocator : Type 0 where
  pub num_threads : ℕ
  pub num_hp_entries : ℕ
  pub entry_size : ℕ
  pub sweep_counter : ℕ
  pub collector : Collector
  pub chunks : List ℕ

-- The two assertions of the first loop of `initAllocator`; a place past `heapmem` is undefined.
unfoldable pub get_chunk : (bound : ℕ) (memalign : ℕ → Option ℕ) → ℕ → Outcome ℕ
get_chunk bound memalign i = elim (memalign i) [
  | none ↦ abort
  | some chunk ↦ if ltb i bound && (chunk % chunk_size == 0) then ok chunk else abort
]

unfoldable pub get_chunks : (memalign : ℕ → Option ℕ) (count i : ℕ) → Outcome (List ℕ)
unfolding get_chunk
get_chunks memalign zero i = ok []
get_chunks memalign (suc count) i = get_chunk max_chunks memalign i >>= λ chunk.
    get_chunks memalign count (i + 1) >>= λ chunks. ok (chunk ∷ chunks)

-- The second loop: `fill_chunk` between the header and the end of every chunk.
unfoldable pub fill_chunks :
    (fuel : ℕ) (addresses : ℕ → ℕ) (size : ℕ) → List ℕ → List AllocEntry → List AllocEntry
fill_chunks fuel addresses size [] head = head
fill_chunks fuel addresses size (chunk ∷ chunks) head =
    fill_chunks fuel addresses size chunks
      (fill_chunk fuel addresses (chunk + header_size) size (chunk + chunk_size) head)

-- `numChunks`; the product is of two numbers of type `int`.
unfoldable pub num_chunks : (entry_size num_entries : ℕ) → Outcome ℕ
num_chunks entry_size num_entries =
    if ltb (num_entries * entry_size) (2 ^ 31)
    then ok (1 + num_entries * entry_size / payload_size)
    else abort

-- `INIT_PHASE`
abbrev init_phase : ℕ
init_phase = 0

-- `memset` of the dirty records, and the phase that `init_allocator` puts into them.
abbrev pub clear_record : ThreadRecord
clear_record = record { dirty_n_phase = init_phase * 2 ^ 8; hp0 = 0; hp1 = 0; hp2 = 0 }

-- What `initAllocator` stores, with the chunks that it got.
abbrev pub new_heap :
    (fuel : ℕ) (addresses : ℕ → ℕ) (entry_size num_threads hps_per_thread : ℕ)
    → List ThreadRecord
    → List ℕ
    → Allocator
new_heap fuel addresses entry_size num_threads hps_per_thread dirties chunks = record {
  num_threads = num_threads;
  num_hp_entries = num_threads * hps_per_thread;
  entry_size = entry_size;
  sweep_counter = init_phase * 2 ^ 32;
  collector = record {
    phase = init_phase;
    head = record { entries = fill_chunks fuel addresses entry_size chunks []; ver = init_phase };
    records = dirties;
  };
  chunks = chunks;
}

-- `initAllocator`
unfoldable pub init_heap :
    (fuel : ℕ) (memalign : ℕ → Option ℕ) (addresses : ℕ → ℕ)
    → (entry_size num_entries num_threads hps_per_thread : ℕ) → List ThreadRecord
    → Outcome Allocator
init_heap fuel memalign addresses entry_size num_entries num_threads hps_per_thread dirties =
    num_chunks entry_size num_entries >>= λ count. get_chunks memalign count 0 >>= λ chunks.
    ok (new_heap fuel addresses entry_size num_threads hps_per_thread dirties chunks)

-- `struct localAlloc`, with the pool that it reaches through `global`.
pub record ThreadAlloc : Type 0 where
  pub alloc : LocalAlloc
  pub markstack : List ℕ
  pub tid : ℕ

unfoldable pub init_local_allocator : VerEntry → (tid : ℕ) → ThreadAlloc
init_local_allocator head tid = record {
  alloc = record {
    local_ver = init_phase;
    alloc_cache = none;
    free_list = [];
    next_slot = 0;
    pool = head;
  };
  markstack = 1 ∷ replicate 999 0;
  tid = tid;
}

unfoldable pub init_local_allocators : VerEntry → (count tid : ℕ) → List ThreadAlloc
init_local_allocators head zero tid = []
init_local_allocators head (suc count) tid =
    init_local_allocator head tid ∷ init_local_allocators head count (tid + 1)

-- `init_allocator`
unfoldable pub init_threads :
    (fuel : ℕ) (memalign : ℕ → Option ℕ) (addresses : ℕ → ℕ)
    → (num_entries num_threads hps_per_thread : ℕ) → Outcome (Allocator × List ThreadAlloc)
init_threads fuel memalign addresses num_entries num_threads hps_per_thread =
    init_heap fuel memalign addresses node_size num_entries num_threads hps_per_thread
      (replicate num_threads clear_record)
    >>= λ heap. ok (heap, init_local_allocators heap.collector.head num_threads 0)

-- The loop of allocatorNR.c, which fills every chunk as soon as it has it, and does not look at its address;
-- `heap` has 5000 places.
unfoldable pub fill_each :
    (fuel : ℕ) (memalign : ℕ → Option ℕ) (addresses : ℕ → ℕ)
    → (size count i : ℕ) → List AllocEntry
    → Outcome (List AllocEntry)
fill_each fuel memalign addresses size zero i head = ok head
fill_each fuel memalign addresses size (suc count) i head = elim (memalign i) [
  | none ↦ abort
  | some chunk ↦
      let rest =
        fill_each fuel memalign addresses size count (i + 1)
          (fill_chunk fuel addresses (chunk + header_size) size (chunk + chunk_size) head) in
      if ltb i 5000 then rest else abort
]

-- `initAllocator` of allocatorNR.c: the pool that it makes. Its other fields are set as `init_heap` sets them.
unfoldable pub init_pool :
    (fuel : ℕ) (memalign : ℕ → Option ℕ) (addresses : ℕ → ℕ)
    → (entry_size num_entries : ℕ) → Outcome VerEntry
init_pool fuel memalign addresses entry_size num_entries =
    num_chunks entry_size num_entries >>= λ count.
    fill_each fuel memalign addresses entry_size count 0 [] >>= λ head.
    ok (record { entries = head; ver = init_phase })

-- `assert_in_heap`
unfoldable pub assert_in_heap : List ℕ → (ptr : ℕ) → Outcome Bool
assert_in_heap [] ptr = abort
assert_in_heap (chunk ∷ chunks) ptr =
    let rest = assert_in_heap chunks ptr in
    if ptr - ptr % chunk_size == chunk then ok true else rest
