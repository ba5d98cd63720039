-- ===== src/Manual/Start.antt =====
-- The first state of allocatorOA.c.
use automatic_optimistic_acc.Base.{ℕ, zero, suc, ◌+◌, ◌*◌, ◌/◌, none, List, [], ◌∷◌, replicate, ◌^◌}
use automatic_optimistic_acc.Phase.{ThreadRecord}
use automatic_optimistic_acc.Pool.{AllocEntry, entries_per_cache, create_entry}
use automatic_optimistic_acc.Manual.{Manual}

-- The loop of `initAllocator`; `addresses` and `memory` are what `malloc` returns.
unfoldable pub init_entries : (count : ℕ) (addresses memory : ℕ → ℕ) (size : ℕ) → List AllocEntry
unfolding create_entry
init_entries zero addresses memory size = []
init_entries (suc n) addresses memory size =
    create_entry (addresses n) (memory n) size ∷ init_entries n addresses memory size

unfoldable pub num_caches : ℕ → ℕ
num_caches num_entries = 1 + num_entries / entries_per_cache

-- `INIT_PHASE`
abbrev pub init_phase : ℕ
init_phase = 0

-- `memset` of the dirty records, and the phase that `init_allocator` puts into them.
abbrev clear_record : ThreadRecord
clear_record = record { dirty_n_phase = init_phase * 2 ^ 8; hp0 = 0; hp1 = 0; hp2 = 0 }

-- `init_allocator`, with `initAllocator` and with `initLocalAllocator` for one thread.
unfoldable pub init_allocator :
    (addresses memory : ℕ → ℕ) (entry_size num_entries num_threads : ℕ) → Manual
unfolding init_entries num_caches
init_allocator addresses memory entry_size num_entries num_threads = record {
  local_ver = init_phase;
  alloc_cache = none;
  free_cache = none;
  head = init_entries (num_caches num_entries) addresses memory entry_size;
  reclaim = record { entries = []; ver = 2 };
  to_process = record { entries = []; ver = 2 };
  hps = none;
  records = replicate num_threads clear_record;
}
