-- ===== src/NoRecl/Total.antt =====
-- `palloc` of allocatorNR.c always returns an object.
use automatic_optimistic_acc.Base.{
  ℕ, zero, suc, ◌+◌, ◌≤◌, ◌≡◌, refl, sym, subst, inl, inr, true, false, Bool-cases, Option, some,
  List, [], ◌∷◌, arith, length, Outcome, Returns, ◌==◌,
}
use automatic_optimistic_acc.Base.Cas.{cas_loop}
use automatic_optimistic_acc.Pool.{
  AllocEntry, VerEntry, create_ptrs, create_entry, pop, pop_body, Popped, entry, null,
  recycle_needed,
}
use automatic_optimistic_acc.NoRecl.{Unreclaimed, palloc}

module _ (addresses memory : ℕ → ℕ) (size v ver : ℕ) where
  abbrev local : Option AllocEntry → List AllocEntry → Unreclaimed
  local c es = record { local_ver = v; alloc_cache = c; pool = record { entries = es; ver = ver } }

  abbrev quiet : ℕ → List (Option VerEntry)
  quiet i = []

  abbrev AnObject : Outcome (ℕ × Unreclaimed) → Type 0
  AnObject r = Returns r (λ x. Unit {0})

  full :
      (f a p : ℕ) (ps : List ℕ) (pool : VerEntry)
      → AnObject (
          palloc (suc f) addresses memory size quiet (record {
            local_ver = v;
            alloc_cache = some (record { address = a; ptrs = p ∷ ps });
            pool = pool;
          }))
  unfolding palloc
  full f a p ps pool = (_, refl, tt)

  fresh-full :
      (f a m : ℕ) (pool : VerEntry)
      → AnObject (
          palloc
            (suc f)
            addresses
            memory
            size
            quiet
            (record { local_ver = v; alloc_cache = some (create_entry a m size); pool = pool }))
  unfolding palloc create_entry create_ptrs
  fresh-full f a m pool = (_, refl, tt)

  -- What `palloc` does after the pop.
  abbrev after : ℕ → VerEntry × Popped → Outcome (ℕ × Unreclaimed)
  after f r = elim r.1 [
    | entry e ↦
        palloc f addresses memory size quiet
          (record { local_ver = v; alloc_cache = some e; pool = r.0 })
    | null ↦ palloc f addresses memory size quiet (record {
      local_ver = v;
      alloc_cache = some (create_entry (addresses f) (memory f) size);
      pool = r.0;
    })
    | recycle_needed ↦ palloc f addresses memory size quiet (record {
      local_ver = v;
      alloc_cache = some (create_entry (addresses f) (memory f) size);
      pool = r.0;
    })
  ]

  pop-old :
      (es : List AllocEntry)
      → (ver == v) ≡ false
      → pop v [] (record { entries = es; ver = ver })
        ≡ (record { entries = es; ver = ver }, recycle_needed)
  unfolding pop pop_body cas_loop
  pop-old es e = rw e refl

  pop-nil :
      (ver == v) ≡ true
      → pop v [] (record { entries = []; ver = ver }) ≡ (record { entries = []; ver = ver }, null)
  unfolding pop pop_body cas_loop
  pop-nil e = rw e refl

  pop-cons :
      (c : AllocEntry) (es : List AllocEntry)
      → (ver == v) ≡ true
      → pop v [] (record { entries = c ∷ es; ver = ver })
        ≡ (record { entries = es; ver = ver }, entry c)
  unfolding pop pop_body cas_loop
  pop-cons c es e = rw e refl

  -- From any pool, one round for each of its entries and two more.
  some-AnObject :
      (f a : ℕ) (ps : List ℕ) (es : List AllocEntry)
      → length es + 2 ≤ f
      → AnObject (
          palloc f addresses memory size quiet
            (local (some (record { address = a; ptrs = ps })) es))
  unfolding palloc
  some-AnObject zero a ps es le = absurd (omega arith)
  some-AnObject (suc zero) a ps es le = absurd (omega arith)
  some-AnObject (suc f) a (p ∷ ps) es le = full f a p ps (record { entries = es; ver = ver })
  some-AnObject (suc (suc f)) a [] [] le = elim (Bool-cases (ver == v)) [
    | inl e ↦ subst (λ r. AnObject (after (suc f) r)) (sym (pop-nil e)) (fresh-full f _ _ _)
    | inr e ↦ subst (λ r. AnObject (after (suc f) r)) (sym (pop-old [] e)) (fresh-full f _ _ _)
  ]
  some-AnObject (suc (suc f)) a [] (c ∷ es) le = elim (Bool-cases (ver == v)) [
    | inl e ↦
        subst (λ r. AnObject (after (suc f) r)) (sym (pop-cons c es e))
          (some-AnObject (suc f) c.address c.ptrs es (omega arith))
    | inr e ↦
        subst (λ r. AnObject (after (suc f) r)) (sym (pop-old (c ∷ es) e)) (fresh-full f _ _ _)
  ]

-- Undisturbed, and whatever the versions, `palloc` returns an object in as many rounds as the pool has
-- entries and two more, from any cache.
pub palloc-Returns :
    (addresses memory : ℕ → ℕ) (size a : ℕ) (ps : List ℕ) (v : ℕ) (pool : VerEntry)
    → Returns
        (palloc
          (length pool.entries + 2)
          addresses
          memory
          size
          (λ i. [])
          (record {
            local_ver = v;
            alloc_cache = some (record { address = a; ptrs = ps });
            pool = pool;
          }))
        (λ r. Unit {0})
palloc-Returns addresses memory size a ps v pool =
    some-AnObject addresses memory size v pool.ver (length pool.entries + 2) a ps pool.entries
      (omega arith)
