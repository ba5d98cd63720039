-- ===== src/Phase.antt =====
-- `Reclamation` of allocator.c: the start of a collection. The phase is advanced, the pool of the old
-- phase is dropped, every thread's dirty word is raised to the new phase, and the hazard pointers are
-- read. Others' writes between a read and a swap are the interferences of Base.Cas.
pub mod Ready
use automatic_optimistic_acc.Base.{
  ℕ, zero, suc, ◌+◌, ◌*◌, ◌%◌, ◌^◌, Bool, true, false, Option, none, some, List, [], ◌∷◌, ◌++◌, leb,
  ◌==◌, if◌then◌else◌,
}
use automatic_optimistic_acc.Base.Cas.{Decision, stop, swap, disturb, cas_loop}
use automatic_optimistic_acc.Pool.{VerEntry, same_ver_entry}

-- `struct DirtyRecord` as the collector sees it: `dirtyNphase`, whose low byte is `dirty`, and `HPs`.
pub record ThreadRecord : Type 0 where
  pub dirty_n_phase : ℕ
  pub hp0 : ℕ
  pub hp1 : ℕ
  pub hp2 : ℕ

pub record Collector : Type 0 where
  pub phase : ℕ
  pub head : VerEntry
  pub records : List ThreadRecord

-- What happens to one thread's word during the two attempts to raise it.
pub record Others : Type 0 where
  pub first : Option ℕ
  pub between : Option ℕ
  pub second : Option ℕ

-- The loop that empties the pool of the old phase.
unfoldable pub reset_body : (ver : ℕ) → VerEntry → Decision VerEntry (Unit {0})
reset_body ver old =
    if old.ver == ver then swap (record { entries = []; ver = ver + 2 }) tt else stop tt

-- `dNp`; `dNpd` is one more.
unfoldable pub phase_word : (ver : ℕ) → ℕ
phase_word ver = ver * 2 ^ 8 % 2 ^ 64

unfoldable pub raise_once : (dnp : ℕ) → Option ℕ → ℕ → ℕ
raise_once dnp o w = if leb dnp w then w else if disturb o w == w then dnp + 1 else disturb o w

unfoldable pub raise_dirty : (dnp : ℕ) → Others → ℕ → ℕ
unfolding raise_once
raise_dirty dnp o w =
    if leb dnp w then w else raise_once dnp o.second (disturb o.between (raise_once dnp o.first w))

unfoldable pub raise_all :
    (dnp : ℕ) → (i : ℕ) → (ℕ → Others) → List ThreadRecord → List ThreadRecord
unfolding raise_dirty
raise_all dnp i os [] = []
raise_all dnp i os (r ∷ rs) =
    record r { dirty_n_phase = raise_dirty dnp (os i) r.dirty_n_phase }
    ∷ raise_all dnp (i + 1) os rs

-- One hazard pointer, if it is not `NULL`.
abbrev pub non_null : ℕ → List ℕ
non_null p = if p == 0 then [] else p ∷ []

unfoldable pub collect_hps : List ThreadRecord → List ℕ
collect_hps [] = []
collect_hps (r ∷ rs) = non_null r.hp0 ++ (non_null r.hp1 ++ (non_null r.hp2 ++ collect_hps rs))

-- `Reclamation` of a thread at version `ver`: no list when another phase has begun. `later` is what
-- the phase has become when it is read again.
unfoldable pub reclamation :
    (later : Option ℕ)
    → List (Option VerEntry)
    → (ℕ → Others)
    → (ver : ℕ) → Collector
    → Collector × Option (List ℕ)
unfolding reset_body phase_word raise_all collect_hps cas_loop
reclamation later os others ver g =
    let phase' = disturb later (if g.phase == ver then ver + 2 else g.phase) in
    let head' = (cas_loop same_ver_entry (reset_body ver) os g.head).0 in
    let records' = raise_all (phase_word (ver + 2)) 0 others g.records in
    if phase' == ver + 2
    then (record { phase = phase'; head = head'; records = records' }, some (collect_hps records'))
    else (record g { phase = phase'; head = head' }, none)
