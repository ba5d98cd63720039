-- ===== src/Manual.antt =====
-- The manual allocator, allocatorOA.c. Freed objects go through three places: the caches that threads
-- have filled (`reclaim`), those of the phase that is being recycled (`toProcess`), and the pool
-- (`head`). Entries and versions are those of Pool. Others' writes between a read and a swap are the
-- interferences of Base.Cas.
pub mod Recycling
pub mod Rounds
pub mod Start
use automatic_optimistic_acc.Base.{
  ℕ, zero, suc, ◌+◌, ◌*◌, Bool, true, false, Option, none, some, List, [], ◌∷◌, ltb, ◌==◌,
  if◌then◌else◌, length, Outcome, ok, abort, out_of_fuel, ◌>>=◌,
}
use automatic_optimistic_acc.Base.Cas.{Decision, stop, swap, disturb, cas_loop}
use automatic_optimistic_acc.SimpleSet.{HashTable, set_init, set_reset, set_contains_p, add_all}
use automatic_optimistic_acc.Phase.{ThreadRecord, Others, phase_word, raise_all, collect_hps}
use automatic_optimistic_acc.Pool.{
  AllocEntry, VerEntry, head_address, same_ver_entry, entries_per_cache, first_ptr, return_body,
  pop, entry, null, recycle_needed,
}

-- A thread's caches and version, and what all threads share.
pub record Manual : Type 0 where
  pub local_ver : ℕ
  pub alloc_cache : Option AllocEntry
  pub free_cache : Option AllocEntry
  pub head : List AllocEntry
  pub reclaim : VerEntry
  pub to_process : VerEntry
  pub hps : Option HashTable  -- the thread's own set of hazard pointers
  pub records : List ThreadRecord

-- What others do during the loops of one `Reclamation`.
pub record Interference : Type 0 where
  pub closing : List (Option VerEntry)
  pub between : Option VerEntry
  pub moving : List (Option VerEntry)
  pub draining : List (Option VerEntry)

-- The three loops of `Reclamation`: `reclaim` is closed under an odd version, its entries become those
-- to process, and it is emptied.
unfoldable pub close_body : (ver : ℕ) → VerEntry → Decision VerEntry VerEntry
close_body ver old =
    if old.ver == ver
    then swap (record old { ver = ver + 1 }) (record old { ver = ver + 1 })
    else stop old

unfoldable pub move_body : (ver : ℕ) → List AllocEntry → VerEntry → Decision VerEntry (Unit {0})
move_body ver taken old =
    if old.ver == ver then swap (record { entries = taken; ver = ver + 2 }) tt else stop tt

unfoldable pub drain_body : (ver : ℕ) → VerEntry → Decision VerEntry (Unit {0})
drain_body ver old =
    if old.ver == ver + 1 then swap (record { entries = []; ver = ver + 2 }) tt else stop tt

unfoldable pub close_phase : Interference → Manual → Manual
unfolding close_body move_body drain_body cas_loop
close_phase o s =
    let ver = s.local_ver in
    let (closed, seen) = cas_loop same_ver_entry (close_body ver) o.closing s.reclaim in
    let moved = (cas_loop same_ver_entry (move_body ver seen.entries) o.moving s.to_process).0 in
    let drained =
      (cas_loop same_ver_entry (drain_body ver) o.draining (disturb o.between closed)).0 in
    if seen.ver == ver + 1
    then record s { local_ver = ver + 2; reclaim = drained; to_process = moved }
    else record s { local_ver = ver + 2; reclaim = closed }

-- `triggerCollection`, as `pfree` and `palloc` call it.
abbrev pub Collect : Type 0
Collect = Manual → Outcome Manual

-- `pfree`; `address` is what `malloc` returns. Each `goto restart` takes one round.
unfoldable pub pfree :
    (fuel : ℕ) → Collect → List (Option VerEntry) → (address obj : ℕ) → Manual → Outcome Manual
unfolding return_body cas_loop
pfree zero collect os address obj s = out_of_fuel
pfree (suc fuel) collect os address obj s =
    let fresh = some (first_ptr address obj) in
    let again = collect s >>= pfree fuel collect os address obj in
    if obj == 0 then ok s else elim s.free_cache [
      | none ↦ ok (record s { free_cache = fresh })
      | some c ↦
          let (reclaim, done) = cas_loop same_ver_entry (return_body s.local_ver c) os s.reclaim in
          if ltb (length c.ptrs) entries_per_cache
          then ok (record s { free_cache = some (record c { ptrs = obj ∷ c.ptrs }) })
          else if done
          then ok (record s { reclaim = reclaim; free_cache = fresh })
          else again
    ]

-- `setContains(HPs, …)`, undefined for the null pointer.
unfoldable pub contains : Option HashTable → ℕ → Outcome Bool
contains none p = abort
contains (some t) p = set_contains_p t p

-- The loop over `ptrs` in `Recycle`, from index 0, which is the end of the list.
unfoldable pub recycle_ptrs :
    (free : ℕ → Manual → Outcome Manual) → List ℕ → Manual → Outcome (List ℕ × Manual)
recycle_ptrs free [] s = ok ([], s)
recycle_ptrs free (p ∷ ps) s = recycle_ptrs free ps s >>= λ r. contains (r.1).hps p >>= λ protected.
    if protected then (free p r.1 >>= λ s'. ok (r.0, s')) else ok (p ∷ r.0, r.1)

-- Pushing an entry to the pool, and taking one from it.
unfoldable pub push_body : AllocEntry → List AllocEntry → Decision (List AllocEntry) (Unit {0})
push_body e old = swap (e ∷ old) tt

unfoldable pub take_body : List AllocEntry → Decision (List AllocEntry) (Option AllocEntry)
take_body [] = stop none
take_body (e ∷ es) = swap es (some e)

abbrev pub same_head : List AllocEntry → List AllocEntry → Bool
same_head a b = head_address a == head_address b

unfoldable pub push :
    List (Option (List AllocEntry)) → AllocEntry → List AllocEntry → List AllocEntry
unfolding push_body cas_loop
push os e head = (cas_loop same_head (push_body e) os head).0

-- An entry that still has objects goes to the pool.
unfoldable pub give_back : List (Option (List AllocEntry)) → AllocEntry → List ℕ × Manual → Manual
unfolding push
give_back os e ([], s) = s
give_back os e (p ∷ ps, s) = record s { head = push os (record e { ptrs = p ∷ ps }) s.head }

-- `Recycle`: until there is nothing to process, or the phase is over.
unfoldable pub recycle :
    (fuel : ℕ) (free : ℕ → Manual → Outcome Manual)
    → (ℕ → List (Option VerEntry))
    → (ℕ → List (Option (List AllocEntry)))
    → Manual
    → Outcome Manual
unfolding recycle_ptrs pop give_back
recycle zero free os heads s = out_of_fuel
recycle (suc fuel) free os heads s =
    let (left, got) = pop s.local_ver (os fuel) s.to_process in
    elim got [
      | entry e ↦ recycle_ptrs free e.ptrs (record s { to_process = left }) >>= λ r.
          recycle fuel free os heads (give_back (heads fuel) e r)
      | null ↦ ok (record s { to_process = left })
      | recycle_needed ↦ ok (record s { to_process = left })
    ]

-- `pReturnAlloc`
unfoldable pub return_alloc : List (Option (List AllocEntry)) → (address obj : ℕ) → Manual → Manual
unfolding push
return_alloc os address obj s = elim s.alloc_cache [
  | none ↦ record s { alloc_cache = some (first_ptr address obj) }
  | some c ↦
      if ltb (length c.ptrs) entries_per_cache
      then record s { alloc_cache = some (record c { ptrs = obj ∷ c.ptrs }) }
      else record s { alloc_cache = some (first_ptr address obj); head = push os c s.head }
]

-- What `palloc` does once its cache has nothing: `rof` is the macro RoF, without which it gives up;
-- `stops` is the flag of the end of a test, after which `malloc` serves, with `address`.
unfoldable pub palloc :
    (fuel : ℕ)
    → Collect
    → (rof : Bool) (stops : ℕ → Bool) (address : ℕ) → (ℕ → List (Option (List AllocEntry)))
    → Manual
    → Outcome (ℕ × Manual)
unfolding take_body cas_loop
palloc zero collect rof stops address os s = out_of_fuel
palloc (suc fuel) collect rof stops address os s =
    let (head, got) = cas_loop same_head take_body (os fuel) s.head in
    let after = collect s >>= λ s'.
    if stops fuel then ok (address, s') else palloc fuel collect rof stops address os s' in
    let refill : Outcome (ℕ × Manual) = elim got [
      | some e ↦
          palloc fuel collect rof stops address os (record s { alloc_cache = some e; head = head })
      | none ↦ if rof then after else abort
    ] in
    elim s.alloc_cache [
      | none ↦ refill
      | some c ↦ elim c.ptrs [
        | [] ↦ refill
        | p ∷ ps ↦ ok (p, record s { alloc_cache = some (record c { ptrs = ps }) })
      ]
    ]

-- `Reclamation`: the phase, the dirty words, and the thread's set, made at its first use with
-- `numHPEntries * 2` and emptied later.
unfoldable pub reclamation :
    Interference → (ℕ → Others) → (num_hp_entries : ℕ) → Manual → Outcome Manual
unfolding close_phase phase_word raise_all collect_hps add_all set_init set_reset
reclamation o others num_hp_entries s =
    let s' = close_phase o s in
    let records' = raise_all (phase_word s'.local_ver) 0 others s.records in
    let empty : HashTable = elim s.hps [
      | none ↦ set_init (num_hp_entries * 2)
      | some t ↦ set_reset t
    ] in
    add_all empty (collect_hps records') >>= λ t.
    ok (record s' { records = records'; hps = some t })

-- `triggerCollection`, with all that others do and that `malloc` returns; objects that are freed again
-- may trigger another one, which `fuel` bounds.
unfoldable pub trigger_collection :
    (fuel rounds : ℕ)
    → (ℕ → Interference)
    → (ℕ → ℕ → Others)
    → (num_hp_entries : ℕ) → (ℕ → List (Option VerEntry))
    → (ℕ → List (Option (List AllocEntry)))
    → (address : ℕ) → Collect
unfolding reclamation recycle pfree
trigger_collection zero rounds o others num_hp_entries os heads address s = out_of_fuel
trigger_collection (suc fuel) rounds o others num_hp_entries os heads address s =
    let again = trigger_collection fuel rounds o others num_hp_entries os heads address in
    reclamation (o fuel) (others fuel) num_hp_entries s
    >>= recycle rounds (pfree rounds again (os fuel) address) os heads
