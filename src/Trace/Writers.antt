-- ===== src/Trace/Writers.antt =====
-- The writers that tracing allows for are the threads of lfl-RoF.c: what one of them writes to a link
-- it has protected before.
use automatic_optimistic_acc.Base.{
  ℕ, ◌≡◌, ◌⊎◌, inl, inr, refl, sym, ◌∙◌, ap, Bool, List, arith, ◌==◌, Bool-cases, ==_iff,
}
use automatic_optimistic_acc.Entry.{mark_deleted, clear_deleted}
use automatic_optimistic_acc.Lfl.{Memory, Status, shared, update}
use automatic_optimistic_acc.Aoa.{
  Pc, check_next, fence_unlink, unlink, check_key, fence_connect, write_next, connect, fence_mark,
  mark, DirtyRecord, check, fence_check, step,
}
use automatic_optimistic_acc.Aoa.Local.{Protected, Local, Local-Protected}
use automatic_optimistic_acc.Trace.{unmark, Root}

-- What `m'` has at each link is what `m` has up to the mark, or the second or third hazard pointer.
abbrev Supported : DirtyRecord → (m m' : Memory) → Type 0
Supported dty m m' =
    (a : ℕ)
    → (unmark (m'.link a) ≡ unmark (m.link a)) ⊎ ((m'.link a ≡ dty.hp1) ⊎ (m'.link a ≡ dty.hp2))

same-Supported : (dty : DirtyRecord) (m : Memory) → Supported dty m m
same-Supported dty m a = inl refl

-- One link is written.
link-Supported :
    (dty : DirtyRecord) (m : Memory) (i v : ℕ) (st : ℕ → Status)
    → (unmark v ≡ unmark (m.link i)) ⊎ ((v ≡ dty.hp1) ⊎ (v ≡ dty.hp2))
    → Supported dty m (record m { link = update m.link i v; status = st })
link-Supported dty m i v st h a = elim (Bool-cases (a == i)) [
  | inl e ↦ rw (e, (==_iff _ _).0 e) h
  | inr e ↦ rw e (inl refl)
]

unmark-mark_deleted : (next : ℕ) → unmark (mark_deleted next) ≡ unmark next
unfolding unmark mark_deleted
unmark-mark_deleted next = omega arith

check-Supported :
    (m : Memory) (dty : DirtyRecord) (label next : Pc) → Supported dty m (check m dty label next).0
unfolding check
check-Supported m dty label next = elim (Bool-cases dty.dirty) [
  | inl d ↦ rw d (same-Supported dty m)
  | inr d ↦ rw d (same-Supported dty m)
]

fence_check-Supported :
    (m : Memory) (dty : DirtyRecord) (label next : Pc)
    → Supported dty m (fence_check m dty label next).0
unfolding fence_check
fence_check-Supported m dty label next = elim (Bool-cases dty.dirty) [
  | inl d ↦ rw d (same-Supported dty m)
  | inr d ↦ rw d (same-Supported dty m)
]

module _ (h : Bool) (me fresh : ℕ) (m : Memory) (dty : DirtyRecord) where
  step-Supported : (p : Pc) → Protected p dty → Supported dty m (step h me fresh m dty p).0
  unfolding step
  step-Supported (check_next t prev cur next) s = check-Supported m dty _ _
  step-Supported (check_key t prev cur next kd r) s = check-Supported m dty _ _
  step-Supported (fence_unlink t prev cur next) s = fence_check-Supported m dty _ _
  step-Supported (fence_connect k d prev cur new) s = fence_check-Supported m dty _ _
  step-Supported (fence_mark k cur next) s = fence_check-Supported m dty _ _
  step-Supported (unlink t prev cur next) s = elim (Bool-cases (m.link prev == cur)) [
    | inl e ↦ rw e (link-Supported dty m prev (clear_deleted next) m.status (inr (inr (sym s.2))))
    | inr e ↦ rw e (same-Supported dty m)
  ]
  step-Supported (connect k d prev cur new) s = elim (Bool-cases (m.link prev == cur)) [
    | inl e ↦
        rw e (link-Supported dty m prev new (update m.status new shared) (inr (inr (sym s.2))))
    | inr e ↦ rw e (same-Supported dty m)
  ]
  step-Supported (mark k cur next) s = elim (Bool-cases (m.link cur == next)) [
    | inl e ↦ rw e (
        link-Supported dty m cur (mark_deleted next) m.status
          (inl (unmark-mark_deleted next ∙ ap unmark (sym ((==_iff _ _).0 e)))))
    | inr e ↦ rw e (same-Supported dty m)
  ]
  step-Supported (write_next k d prev cur new) s =
      link-Supported dty m new cur m.status (inr (inl (sym s.1)))
  step-Supported _ s = same-Supported dty m

-- A thread of the list that has not noticed the phase writes as tracing allows: if the collector has its
-- second and third hazard pointers, then after its step each link has what it had, up to the deletion
-- mark, or nothing, or a node that a hazard pointer of the collection protects.
pub late_write-Root :
    (hash_op : Bool) (me fresh : ℕ) (m : Memory) (dty : DirtyRecord) (p : Pc) (hps : List ℕ)
    → Local hash_op me dty p
    → Root hps (unmark dty.hp1)
    → Root hps (unmark dty.hp2)
    → (a : ℕ)
    → Root hps (unmark ((step hash_op me fresh m dty p).0.link a))
      ⊎ (unmark ((step hash_op me fresh m dty p).0.link a) ≡ unmark (m.link a))
late_write-Root h me fresh m dty p hps l r1 r2 a =
    elim (step-Supported h me fresh m dty p (Local-Protected h me dty p l) a) [
      | inl e ↦ inr e
      | inr (inl e) ↦ inl (rw e r1)
      | inr (inr e) ↦ inl (rw e r2)
    ]
