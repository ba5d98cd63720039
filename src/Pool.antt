-- ===== src/Pool.antt =====
-- The allocation caches of allocator.c and trace.c. A `struct allocEntry` is its address and the
-- pointers that it holds, `ptrs[free - 1]` first; what lies beyond `free` is never read. The shared
-- pool, a `struct verEntry`, is the list of the entries that `next` leads through, with its version.
-- `verCAS` compares the address of the first entry and the version.
pub mod Laws
use automatic_optimistic_acc.Base.{
  ℕ, zero, suc, ◌+◌, ◌-◌, ◌*◌, ◌/◌, ◌%◌, ◌^◌, Bool, true, false, ◌&&◌, Option, none, some, List, [],
  ◌∷◌, ◌++◌, ltb, leb, ◌==◌, if◌then◌else◌, length, Outcome, ok, abort, out_of_fuel, ◌>>=◌,
}
use automatic_optimistic_acc.Base.Cas.{Decision, stop, swap, cas_loop}

pub record AllocEntry : Type 0 where
  pub address : ℕ
  pub ptrs : List ℕ

pub record VerEntry : Type 0 where
  pub entries : List AllocEntry
  pub ver : ℕ

abbrev pub entries_per_cache : ℕ
entries_per_cache = 126

-- `head`, 0 if it is `NULL`
abbrev pub head_address : List AllocEntry → ℕ
head_address [] = 0
head_address (e ∷ es) = e.address

-- The comparison that `verCAS` makes.
abbrev pub same_ver_entry : VerEntry → VerEntry → Bool
same_ver_entry a b = (head_address a.entries == head_address b.entries) && (a.ver == b.ver)

unfoldable pub create_ptrs : (count mem size : ℕ) → List ℕ
create_ptrs zero mem size = []
create_ptrs (suc j) mem size = (mem + j * size) ∷ create_ptrs j mem size

-- `createEntry`; `address` is what `malloc` returns.
unfoldable pub create_entry : (address mem size : ℕ) → AllocEntry
unfolding create_ptrs
create_entry address mem size = record {
  address = address;
  ptrs = create_ptrs entries_per_cache mem size;
}

-- The loop over one chunk in `initAllocator`: entries are put in front of `head`. The rounds are
-- bounded by the fuel; `addresses` are the results of `malloc`, one for each place.
unfoldable pub fill_chunk :
    (fuel : ℕ) (addresses : ℕ → ℕ) (cur size last : ℕ) → List AllocEntry → List AllocEntry
unfolding create_entry
fill_chunk zero addresses cur size last head = head
fill_chunk (suc fuel) addresses cur size last head =
    let rest =
      fill_chunk fuel addresses (cur + entries_per_cache * size) size last
        (create_entry (addresses cur) cur size ∷ head) in
    if leb (cur + entries_per_cache * size) last then rest else head

-- `pop`
pub data Popped : Type 0 where
  recycle_needed : Popped
  null : Popped
  entry : AllocEntry → Popped

unfoldable pub pop_body : (ver : ℕ) → VerEntry → Decision VerEntry Popped
pop_body ver old =
    if old.ver == ver
    then elim old.entries [ [] ↦ stop null | e ∷ es ↦ swap (record old { entries = es }) (entry e) ]
    else stop recycle_needed

unfoldable pub pop : (ver : ℕ) → List (Option VerEntry) → VerEntry → VerEntry × Popped
unfolding pop_body cas_loop
pop ver os adr = cas_loop same_ver_entry (pop_body ver) os adr

-- What a thread has of its own: `localVer`, `alloc_cache` and `entriesLocalFreeList`; and what it
-- shares: the counter of the static array of entries, and the pool.
pub record LocalAlloc : Type 0 where
  pub local_ver : ℕ
  pub alloc_cache : Option AllocEntry
  pub free_list : List AllocEntry
  pub next_slot : ℕ
  pub pool : VerEntry

abbrev pub slot_count : ℕ
slot_count = 100000

-- The two assignments that follow `getAllocEntry` in `setAsFree`.
abbrev pub first_ptr : (address obj : ℕ) → AllocEntry
first_ptr address obj = record { address = address; ptrs = obj ∷ [] }

-- `getAllocEntry`: an entry of the thread's own list, or the next one of the array, whose addresses
-- are `slots`.
unfoldable pub get_alloc_entry : (slots : ℕ → ℕ) → LocalAlloc → Outcome (ℕ × LocalAlloc)
get_alloc_entry slots l = elim l.free_list [
  | e ∷ es ↦ ok (e.address, record l { free_list = es })
  | [] ↦
      if ltb l.next_slot slot_count
      then ok (slots l.next_slot, record l { next_slot = l.next_slot + 1 })
      else abort
]

unfoldable pub free_alloc_entry : LocalAlloc → AllocEntry → LocalAlloc
free_alloc_entry l e = record l { free_list = e ∷ l.free_list }

-- The loop of `pReturnCache`.
unfoldable pub return_body : (ver : ℕ) → AllocEntry → VerEntry → Decision VerEntry Bool
return_body ver cache old =
    if old.ver == ver then swap (record old { entries = cache ∷ old.entries }) true else stop false

-- `free = 1` keeps `ptrs[0]`, the last of the list.
unfoldable pub keep_last : List ℕ → List ℕ
keep_last [] = []
keep_last (p ∷ []) = p ∷ []
keep_last (p ∷ q ∷ qs) = keep_last (q ∷ qs)

unfoldable pub return_cache : List (Option VerEntry) → LocalAlloc → AllocEntry → LocalAlloc
unfolding return_body keep_last cas_loop
return_cache os l cache =
    let (pool, done) = cas_loop same_ver_entry (return_body l.local_ver cache) os l.pool in
    if done
    then record l { alloc_cache = none; pool = pool }
    else record l { alloc_cache = some (record cache { ptrs = keep_last cache.ptrs }); pool = pool }

-- The end of `setAsFree`: a new cache that holds `obj` alone.
unfoldable pub new_cache : (slots : ℕ → ℕ) → LocalAlloc → (obj : ℕ) → Outcome LocalAlloc
unfolding get_alloc_entry
new_cache slots l obj =
    get_alloc_entry slots l >>= λ r. ok (record (r.1) { alloc_cache = some (first_ptr r.0 obj) })

unfoldable pub set_as_free :
    (slots : ℕ → ℕ) → List (Option VerEntry) → LocalAlloc → (obj : ℕ) → Outcome LocalAlloc
unfolding return_cache new_cache
set_as_free slots os l obj = elim l.alloc_cache [
  | none ↦ new_cache slots l obj
  | some c ↦
      if ltb (length c.ptrs) entries_per_cache
      then ok (record l { alloc_cache = some (record c { ptrs = obj ∷ c.ptrs }) })
      else new_cache slots (return_cache os l c) obj
]

-- `triggerCollection` as `palloc` uses it: the thread's state afterwards, and its dirty bit.
abbrev pub Collect : Type 0
Collect = LocalAlloc → Outcome (LocalAlloc × Bool)

-- What `palloc` returns: an object, or `NULL`, which the check after the allocation discards.
pub data Allocated : Type 0 where
  object : ℕ → Allocated
  discarded : Allocated

-- `palloc`: from the cache; else from the pool; else collect and try again, 101 times at most
-- (`iter`). The rounds that `goto start` adds are bounded by the fuel.
unfoldable pub palloc :
    (fuel iter : ℕ)
    → Collect
    → List (Option VerEntry)
    → LocalAlloc
    → Outcome (Allocated × LocalAlloc)
unfolding free_alloc_entry pop
palloc zero iter collect os l = out_of_fuel
palloc (suc fuel) iter collect os l = elim l.alloc_cache [
  | some c ↦ elim c.ptrs [
    | p ∷ ps ↦ ok (object p, record l { alloc_cache = some (record c { ptrs = ps }) })
    | [] ↦ palloc fuel 0 collect os (record (free_alloc_entry l c) { alloc_cache = none })
  ]
  | none ↦
      let (pool, got) = pop l.local_ver os l.pool in
      let retry = collect (record l { pool = pool }) >>= λ r.
      if r.1 then ok (discarded, r.0) else elim (r.0).alloc_cache [
        | some c ↦ abort
        | none ↦ if ltb iter 100 then palloc fuel (iter + 1) collect os r.0 else abort
      ] in
      elim got [
        | entry e ↦ palloc fuel 0 collect os (record l { pool = pool; alloc_cache = some e })
        | null ↦ retry
        | recycle_needed ↦ retry
      ]
]
