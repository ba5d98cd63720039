-- ===== src/NoRecl.antt =====
-- The allocator of allocatorNR.c, which reclaims nothing: `palloc` takes objects from its cache, the
-- cache from the pool, and memory from `malloc` when the pool is empty. Its pool and its entries are
-- those of Pool, as is its `pop`.
pub mod Total
use automatic_optimistic_acc.Base.{
  ℕ, zero, suc, Option, none, some, List, [], ◌∷◌, Outcome, ok, out_of_fuel,
}
use automatic_optimistic_acc.Pool.{
  AllocEntry, VerEntry, create_entry, pop, entry, null, recycle_needed,
}

pub record Unreclaimed : Type 0 where
  pub local_ver : ℕ
  pub alloc_cache : Option AllocEntry
  pub pool : VerEntry

-- `palloc`; `addresses` and `memory` are what `malloc` returns. The second round of the loop over
-- `iter` is never reached; the rounds that `goto start` adds are bounded by the fuel.
unfoldable pub palloc :
    (fuel : ℕ) (addresses memory : ℕ → ℕ) (entry_size : ℕ)
    → (ℕ → List (Option VerEntry))
    → Unreclaimed
    → Outcome (ℕ × Unreclaimed)
unfolding pop create_entry
palloc zero addresses memory entry_size os l = out_of_fuel
palloc (suc fuel) addresses memory entry_size os l =
    let (pool, got) = pop l.local_ver (os fuel) l.pool in
    let fresh = palloc fuel addresses memory entry_size os (record l {
      alloc_cache = some (create_entry (addresses fuel) (memory fuel) entry_size);
      pool = pool;
    }) in
    let refill : Outcome (ℕ × Unreclaimed) = elim got [
      | entry e ↦
          palloc fuel addresses memory entry_size os
            (record l { alloc_cache = some e; pool = pool })
      | null ↦ fresh
      | recycle_needed ↦ fresh
    ] in
    elim l.alloc_cache [
      | none ↦ refill
      | some c ↦ elim c.ptrs [
        | [] ↦ refill
        | p ∷ ps ↦ ok (p, record l { alloc_cache = some (record c { ptrs = ps }) })
      ]
    ]
