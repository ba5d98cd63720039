-- ===== src/Tests/ManualTests.antt =====
-- The start of a collection and the manual allocator at concrete inputs.
use automatic_optimistic_acc.Base.{
  ℕ, ◌+◌, ◌*◌, ◌≡◌, refl, inl, Bool, false, Option, none, some, List, [], ◌∷◌, arith, ok,
  out_of_fuel, ◌==◌, if◌then◌else◌, get_or,
}
use automatic_optimistic_acc.Pool.{AllocEntry}
use automatic_optimistic_acc.SimpleSet.{HashTable, hash_fun, set_contains_p}
use automatic_optimistic_acc.Phase.{Collector, Others, reclamation}
use automatic_optimistic_acc.Phase.Ready.{Ready, reclamation-Ready}
use automatic_optimistic_acc.Manual.{Manual, Collect, pfree, recycle_ptrs, contains}
use automatic_optimistic_acc.Manual.Recycling.{recycle_ptrs-splits, select, with_freed}

-- Thread 0 clears its dirty byte before the first swap; thread 1 has been raised by another collector.
abbrev clearing : ℕ → Others
clearing i =
    if i == 0
    then record { first = some 512; between = none; second = none }
    else record { first = none; between = none; second = none }

abbrev collector : Collector
collector = record {
  phase = 2;
  head = record { entries = record { address = 1; ptrs = 4096 ∷ [] } ∷ []; ver = 2 };
  records =
      record { dirty_n_phase = 513; hp0 = 4128; hp1 = 0; hp2 = 4160 }
      ∷ record { dirty_n_phase = 1025; hp0 = 0; hp1 = 0; hp2 = 0 }
      ∷ [];
}

reclamation-Ready_example : Ready 2 (reclamation none [] clearing 2 collector)
reclamation-Ready_example = reclamation-Ready none [] clearing 2 collector (
  record { first = inl refl; between = tt; second = tt },
  (record { first = tt; between = tt; second = tt }, tt),
)

abbrev no_collection : Collect
no_collection s = out_of_fuel

-- A thread whose set has the one key 4128.
abbrev one_hazard : HashTable
one_hazard = record { max = 6; number_of_elements = 1; elements = 4128 ∷ 0 ∷ 0 ∷ 0 ∷ 0 ∷ 0 ∷ [] }

abbrev cache : AllocEntry
cache = record { address = 1; ptrs = 8192 ∷ [] }

abbrev thread : Manual
thread = record {
  local_ver = 2;
  alloc_cache = none;
  free_cache = none;
  head = [];
  reclaim = record { entries = cache ∷ []; ver = 2 };
  to_process = record { entries = []; ver = 2 };
  hps = some one_hazard;
  records = [];
}

abbrev running : ℕ → Bool
running i = false

abbrev quiet : ℕ → List (Option (List AllocEntry))
quiet i = []

abbrev mallocs : ℕ → ℕ
mallocs i = 16 + 65536 * i

abbrev protected : ℕ → Bool
protected p = p == 4128

program : Unit {0}
unfolding contains set_contains_p hash_fun get_or
program = tt

-- Of two objects, the second is protected.
recycle_ptrs-splits_example :
    recycle_ptrs (pfree 1 no_collection [] 16) (4096 ∷ 4128 ∷ []) (with_freed thread cache [])
    ≡ ok (4096 ∷ [], with_freed thread cache (4128 ∷ []))
unfolding program select
recycle_ptrs-splits_example =
    recycle_ptrs-splits 0 no_collection [] 16 protected thread cache (4096 ∷ 4128 ∷ [])
      (omega arith, refl, (omega arith, refl, tt)) (omega arith)
