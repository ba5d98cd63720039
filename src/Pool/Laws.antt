-- ===== src/Pool/Laws.antt =====
-- The caches and the pool keep every object: what is freed is allocated next, and nothing is lost.
use automatic_optimistic_acc.Base.{
  ℕ, zero, suc, ◌+◌, ◌≤◌, ◌<◌, ◌≡◌, ◌⊎◌, inl, inr, sym, ap, refl, subst, Option, none, some, List,
  [], ◌∷◌, ◌++◌, arith, ltb, Bool-cases, test_eq, lt→ltb, length, Returns,
}
use automatic_optimistic_acc.Base.Cas.{cas_loop}
use automatic_optimistic_acc.Pool.{
  AllocEntry, VerEntry, LocalAlloc, Collect, Allocated, object, entries_per_cache, slot_count,
  get_alloc_entry, return_body, return_cache, new_cache, set_as_free, free_alloc_entry, entry,
  pop_body, pop, palloc,
}

abbrev pub pool_ptrs : List AllocEntry → List ℕ
pool_ptrs [] = []
pool_ptrs (e ∷ es) = e.ptrs ++ pool_ptrs es

abbrev pub cache_ptrs : Option AllocEntry → List ℕ
cache_ptrs none = []
cache_ptrs (some c) = c.ptrs

-- The objects that a thread can allocate, in the order in which it does.
abbrev pub held : LocalAlloc → List ℕ
held l = cache_ptrs l.alloc_cache ++ pool_ptrs l.pool.entries

-- `getAllocEntry` has an entry to give.
abbrev pub HasSlot : LocalAlloc → Type 0
HasSlot l = (1 ≤ length l.free_list) ⊎ (l.next_slot < slot_count)

new_cache-held :
    (slots : ℕ → ℕ) (v : ℕ) (c : Option AllocEntry) (fs : List AllocEntry) (n : ℕ) (p : VerEntry)
    (obj : ℕ)
    → (1 ≤ length fs) ⊎ (n < slot_count)
    → Returns
        (new_cache slots
          (record { local_ver = v; alloc_cache = c; free_list = fs; next_slot = n; pool = p })
          obj)
        (λ l'. held l' ≡ obj ∷ pool_ptrs p.entries)
unfolding new_cache get_alloc_entry
new_cache-held slots v c (f ∷ fs) n p obj h = (_, refl, refl)
new_cache-held slots v c [] n p obj (inr lt) = rw (lt→ltb n slot_count lt) (_, refl, refl)
new_cache-held slots v c [] n p obj (inl le) = absurd (omega arith)

return_cache-current :
    (l : LocalAlloc) (c : AllocEntry)
    → l.pool.ver ≡ l.local_ver
    → return_cache [] l c ≡ record l {
      alloc_cache = none;
      pool = record { entries = c ∷ l.pool.entries; ver = l.pool.ver };
    }
unfolding return_cache return_body cas_loop
return_cache-current l c cur = rw (test_eq _ _ cur)

-- With the pool at the thread's version and undisturbed, what is freed becomes the next to be
-- allocated, and nothing that was held is lost.
pub set_as_free-held :
    (slots : ℕ → ℕ) (l : LocalAlloc) (obj : ℕ)
    → HasSlot l
    → l.pool.ver ≡ l.local_ver
    → Returns (set_as_free slots [] l obj) (λ l'. held l' ≡ obj ∷ held l)
unfolding set_as_free
set_as_free-held slots l obj h cur = go l.alloc_cache
  where
    go :
        (c : Option AllocEntry)
        → Returns
            (set_as_free slots [] (record l { alloc_cache = c }) obj)
            (λ l'. held l' ≡ obj ∷ held (record l { alloc_cache = c }))
    go none = new_cache-held slots l.local_ver none l.free_list l.next_slot l.pool obj h
    go (some c) = elim (Bool-cases (ltb (length c.ptrs) entries_per_cache)) [
      | inl e ↦ rw e (_, refl, refl)
      | inr e ↦
          rw (e, return_cache-current (record l { alloc_cache = some c }) c cur)
            (new_cache-held slots l.local_ver none l.free_list l.next_slot
              (record { entries = c ∷ l.pool.entries; ver = l.pool.ver }) obj h)
    ]

-- The rounds that `palloc` may need to find an object behind empty caches.
abbrev pub rounds : LocalAlloc → ℕ
rounds l = length l.pool.entries + length l.pool.entries + 2

-- The object is the first one that was held.
abbrev pub TakesFirst : List ℕ → Allocated × LocalAlloc → Type 0
TakesFirst before r = (o : ℕ) × (r.0 ≡ object o) × (before ≡ o ∷ held r.1)

pop-current :
    (v : ℕ) (e : AllocEntry) (es : List AllocEntry) (ver : ℕ)
    → ver ≡ v
    → pop v [] (record { entries = e ∷ es; ver = ver })
      ≡ (record { entries = es; ver = ver }, entry e)
unfolding pop pop_body cas_loop
pop-current v e es ver cur = rw (test_eq ver v cur)

module _ (collect : Collect) (v : ℕ) (n : ℕ) (ver : ℕ) (cur : ver ≡ v) where
  abbrev local : Option AllocEntry → List AllocEntry → List AllocEntry → LocalAlloc
  local c fs es = record {
    local_ver = v;
    alloc_cache = c;
    free_list = fs;
    next_slot = n;
    pool = record { entries = es; ver = ver };
  }

  palloc-entry :
      (f iter : ℕ) (fs : List AllocEntry) (e : AllocEntry) (es : List AllocEntry)
      → palloc (suc f) iter collect [] (local none fs (e ∷ es))
        ≡ palloc f 0 collect [] (local (some e) fs es)
  unfolding palloc pop pop_body cas_loop
  palloc-entry f iter fs e es =
      rw (palloc, pop, pop_body, test_eq ver v cur)
        (ap (λ r. palloc f 0 collect [] (record (local (some e) fs es) { pool = r.0 }))
          (pop-current v e es ver cur))

  -- From a cache of the objects `ps`: two rounds for each empty cache.
  palloc-cache :
      (f iter a : ℕ) (ps : List ℕ) (fs es : List AllocEntry)
      → length es + length es + 1 ≤ f
      → 1 ≤ length (ps ++ pool_ptrs es)
      → Returns
          (palloc f iter collect [] (local (some (record { address = a; ptrs = ps })) fs es))
          (TakesFirst (ps ++ pool_ptrs es))
  unfolding palloc free_alloc_entry
  palloc-cache zero iter a ps fs es le h = absurd (omega arith)
  palloc-cache (suc f) iter a (p ∷ ps) fs es le h = (_, refl, (p, refl, refl))
  palloc-cache (suc f) iter a [] fs [] le h = absurd (omega arith)
  palloc-cache (suc zero) iter a [] fs (e ∷ es) le h = absurd (omega arith)
  palloc-cache (suc (suc f)) iter a [] fs (e ∷ es) le h =
      let fs' = record { address = a; ptrs = [] } ∷ fs in
      subst (λ r. Returns r (TakesFirst (e.ptrs ++ pool_ptrs es))) (sym (palloc-entry f 0 fs' e es))
        (palloc-cache f 0 e.address e.ptrs fs' es (omega arith) h)

  palloc-local :
      (f : ℕ) (c : Option AllocEntry) (fs es : List AllocEntry)
      → length es + length es + 1 ≤ f
      → 1 ≤ length (held (local c fs es))
      → Returns (palloc f 0 collect [] (local c fs es)) (TakesFirst (held (local c fs es)))
  palloc-local f (some e) fs es le h = palloc-cache f 0 e.address e.ptrs fs es le h
  palloc-local f none fs [] le h = absurd (omega arith)
  palloc-local zero none fs (e ∷ es) le h = absurd (omega arith)
  palloc-local (suc f) none fs (e ∷ es) le h =
      subst (λ r. Returns r (TakesFirst (e.ptrs ++ pool_ptrs es))) (sym (palloc-entry f 0 fs e es))
        (palloc-cache f 0 e.address e.ptrs fs es (omega arith) h)

-- From a pool at the thread's version and undisturbed, `palloc` returns the first object held and
-- keeps all the others in their order; it does not collect.
pub palloc-TakesFirst :
    (collect : Collect) (l : LocalAlloc)
    → l.pool.ver ≡ l.local_ver
    → 1 ≤ length (held l)
    → Returns (palloc (rounds l) 0 collect [] l) (TakesFirst (held l))
palloc-TakesFirst collect l cur h =
    palloc-local collect l.local_ver l.next_slot l.pool.ver cur (rounds l) l.alloc_cache l.free_list
      l.pool.entries (omega arith) h
