-- ===== src/Phase/Ready.antt =====
-- When a collection goes on after `Reclamation`, no thread can go on in the old phase without noticing.
use automatic_optimistic_acc.Base.{
  In, ℕ, ◌+◌, ◌-◌, ◌%◌, ◌^◌, ◌≤◌, ◌≡◌, ◌≢◌, ◌⊎◌, inl, inr, Option, none, some, List, [], ◌∷◌, ◌++◌,
  ◌==◌, if◌then◌else◌, Bool-cases, arith,
}
use automatic_optimistic_acc.Base.Cas.{decided, disturb, cas_loop_all}
use automatic_optimistic_acc.Pool.{VerEntry, same_ver_entry}
use automatic_optimistic_acc.Phase.{
  ThreadRecord, Collector, Others, reset_body, phase_word, raise_once, raise_dirty, raise_all,
  non_null, collect_hps, reclamation,
}

-- Others leave a dirty word alone, or its thread clears its low byte, or a collector raises it.
abbrev pub Allowed : (dnp : ℕ) → Option ℕ → (w : ℕ) → Type 0
Allowed dnp none w = Unit {0}
Allowed dnp (some v) w = (v ≡ w - w % 2 ^ 8) ⊎ (dnp ≤ v)

-- This holds at each moment of the two attempts on a word.
pub record AllowedAll (dnp : ℕ) (o : Others) (w : ℕ) : Type 0 where
  pub first : Allowed dnp o.first w
  pub between : Allowed dnp o.between (raise_once dnp o.first w)
  pub second : Allowed dnp o.second (disturb o.between (raise_once dnp o.first w))

-- A word that one attempt has left is raised, or its low byte is clear.
abbrev Raised : (dnp : ℕ) → ℕ → Type 0
Raised dnp w = (dnp ≤ w) ⊎ (w % 2 ^ 8 ≡ 0)

once-Raised : (dnp : ℕ) (o : Option ℕ) (w : ℕ) → Allowed dnp o w → Raised dnp (raise_once dnp o w)
unfolding raise_once
once-Raised dnp none w a = ground arith
once-Raised dnp (some v) w a = ground arith

disturb-Raised :
    (dnp : ℕ) (o : Option ℕ) (w : ℕ)
    → dnp % 2 ^ 8 ≡ 0
    → Allowed dnp o w
    → Raised dnp w
    → Raised dnp (disturb o w)
disturb-Raised dnp none w z a r = r
disturb-Raised dnp (some v) w z a r = ground arith

raise_once-le :
    (dnp : ℕ) (o : Option ℕ) (w : ℕ) → Allowed dnp o w → Raised dnp w → dnp ≤ raise_once dnp o w
unfolding raise_once
raise_once-le dnp none w a r = ground arith
raise_once-le dnp (some v) w a r = ground arith

-- Two attempts are enough.
raise_dirty-le :
    (dnp : ℕ) (o : Others) (w : ℕ)
    → dnp % 2 ^ 8 ≡ 0
    → AllowedAll dnp o w
    → dnp ≤ raise_dirty dnp o w
unfolding raise_dirty
raise_dirty-le dnp o w z a =
    let middle =
      disturb-Raised dnp o.between (raise_once dnp o.first w) z a.between
        (once-Raised dnp o.first w a.first) in
    let done = raise_once-le dnp o.second _ a.second middle in ground (arith)

-- The assumption on the others, for the records from number `i` on.
abbrev pub AllowedFor : (dnp i : ℕ) → (ℕ → Others) → List ThreadRecord → Type 0
AllowedFor dnp i os [] = Unit {0}
AllowedFor dnp i os (r ∷ rs) = AllowedAll dnp (os i) r.dirty_n_phase × AllowedFor dnp (i + 1) os rs

abbrev pub AllRaised : (dnp : ℕ) → List ThreadRecord → Type 0
AllRaised dnp [] = Unit {0}
AllRaised dnp (r ∷ rs) = (dnp ≤ r.dirty_n_phase) × AllRaised dnp rs

raise_all-AllRaised :
    (dnp i : ℕ) (os : ℕ → Others) (rs : List ThreadRecord)
    → dnp % 2 ^ 8 ≡ 0
    → AllowedFor dnp i os rs
    → AllRaised dnp (raise_all dnp i os rs)
unfolding raise_all
raise_all-AllRaised dnp i os [] z a = tt
raise_all-AllRaised dnp i os (r ∷ rs) z a =
    (raise_dirty-le dnp (os i) r.dirty_n_phase z a.0, raise_all-AllRaised dnp (i + 1) os rs z a.1)

-- `p` is a hazard pointer of one of the records.
abbrev pub IsHazard : ℕ → List ThreadRecord → Type 0
IsHazard p [] = ⊥
IsHazard p (r ∷ rs) = ((p ≡ r.hp0) ⊎ (p ≡ r.hp1) ⊎ (p ≡ r.hp2)) ⊎ IsHazard p rs

In-non_null : (p q : ℕ) (xs : List ℕ) → p ≢ 0 → (p ≡ q) ⊎ In p xs → In p (non_null q ++ xs)
In-non_null p q xs ne i = elim (Bool-cases (q == 0)) [
  | inl e ↦ rw e (elim i [ inl pq ↦ absurd (ground arith) | inr x ↦ x ])
  | inr e ↦ rw e i
]

collect_hps-In : (p : ℕ) (rs : List ThreadRecord) → p ≢ 0 → IsHazard p rs → In p (collect_hps rs)
unfolding collect_hps
collect_hps-In p [] ne h = elim h [ ]
collect_hps-In p (r ∷ rs) ne h =
    let rest = collect_hps rs in
    In-non_null p r.hp0 (non_null r.hp1 ++ (non_null r.hp2 ++ rest)) ne (elim h [
      | inl (inl e) ↦ inl e
      | inl (inr (inl e)) ↦ inr (In-non_null p r.hp1 (non_null r.hp2 ++ rest) ne (inl e))
      | inl (inr (inr e)) ↦ inr (
          In-non_null p r.hp1 (non_null r.hp2 ++ rest) ne
            (inr (In-non_null p r.hp2 rest ne (inl e))))
      | inr more ↦ inr (
          In-non_null p r.hp1 (non_null r.hp2 ++ rest) ne
            (inr (In-non_null p r.hp2 rest ne (inr (collect_hps-In p rs ne more)))))
    ])

-- What `Reclamation` has achieved. In both cases the pool of version `ver` is gone.
abbrev pub Ready : (ver : ℕ) → Collector × Option (List ℕ) → Type 0
Ready ver (g, none) = (g.phase ≢ ver + 2) × (g.head.ver ≢ ver)
Ready ver (g, some hps) =
    (g.phase ≡ ver + 2)
    × (g.head.ver ≢ ver)
    × AllRaised (phase_word (ver + 2)) g.records
    × ((p : ℕ) → p ≢ 0 → IsHazard p g.records → In p hps)

reset_body-ne : (ver : ℕ) (w : VerEntry) → (decided w (reset_body ver w)).0.ver ≢ ver
unfolding reset_body
reset_body-ne ver w = elim (Bool-cases (w.ver == ver)) [
  | inl e ↦ rw e (λ q. absurd (omega (arith, q)))
  | inr e ↦ rw e (ground arith)
]

phase_word-low : (ver : ℕ) → phase_word ver % 2 ^ 8 ≡ 0
unfolding phase_word
phase_word-low ver = omega arith

-- However others move the phase and the pool, and as long as they treat the dirty words as threads and
-- collectors do, `Reclamation` leaves no pool of the old version; if it goes on, the phase is the next
-- one, the dirty word of every thread is raised to it, and all hazard pointers have been collected.
pub reclamation-Ready :
    (later : Option ℕ) (os : List (Option VerEntry)) (others : ℕ → Others) (ver : ℕ) (g : Collector)
    → AllowedFor (phase_word (ver + 2)) 0 others g.records
    → Ready ver (reclamation later os others ver g)
unfolding reclamation
reclamation-Ready later os others ver g a =
    let phase' = disturb later (if g.phase == ver then ver + 2 else g.phase) in
    let gone =
      cas_loop_all same_ver_entry (reset_body ver) (λ r. r.0.ver ≢ ver) (reset_body-ne ver) os
        g.head in
    elim (Bool-cases (phase' == ver + 2)) [
      | inl e ↦ rw e (
        ground arith,
        gone,
        raise_all-AllRaised (phase_word (ver + 2)) 0 others g.records (phase_word-low (ver + 2)) a,
        λ p ne h. collect_hps-In p _ ne h,
      )
      | inr e ↦ rw e (ground arith, gone)
    ]
