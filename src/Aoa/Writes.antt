-- ===== src/Aoa/Writes.antt =====
-- Where a thread of lfl-RoF.c writes: to the list's head, and to nodes that its hazard pointers hold.
use automatic_optimistic_acc.Base.{
  ℕ, ◌≡◌, ◌≢◌, ◌⊎◌, inl, inr, refl, sym, ◌∙◌, Bool, ◌==◌, Bool-cases, arith,
}
use automatic_optimistic_acc.Entry.{mark_deleted, clear_deleted}
use automatic_optimistic_acc.Lfl.{Memory, Status, shared, update}
use automatic_optimistic_acc.Aoa.{
  Pc, check_next, fence_unlink, unlink, check_key, fence_connect, write_key, write_next, connect,
  fence_mark, mark, DirtyRecord, check, fence_check, step,
}
use automatic_optimistic_acc.Aoa.Local.{Protected, Local, Local-Protected}

-- Every word of `m'` that differs from `m` belongs to a node that the record protects; the head's link
-- is protected by a hazard pointer that is `NULL`.
abbrev pub Guarded : DirtyRecord → (m m' : Memory) → Type 0
Guarded dty m m' =
    ((a : ℕ) → m'.link a ≢ m.link a → (a ≡ dty.hp0) ⊎ (a ≡ dty.hp2))
    × ((a : ℕ) → m'.key_data a ≢ m.key_data a → a ≡ dty.hp2)

same-Guarded : (dty : DirtyRecord) (m : Memory) → Guarded dty m m
same-Guarded dty m = (λ a ne. absurd (ne refl), λ a ne. absurd (ne refl))

-- A word that an update has changed is the one that it names.
update-ne : (f : ℕ → ℕ) (i v a : ℕ) → update f i v a ≢ f a → a ≡ i
update-ne f i v a ne = ground arith

check-Guarded :
    (m : Memory) (dty : DirtyRecord) (label next : Pc) → Guarded dty m (check m dty label next).0
unfolding check
check-Guarded m dty label next = elim (Bool-cases dty.dirty) [
  | inl d ↦ rw d (same-Guarded dty m)
  | inr d ↦ rw d (same-Guarded dty m)
]

fence_check-Guarded :
    (m : Memory) (dty : DirtyRecord) (label next : Pc)
    → Guarded dty m (fence_check m dty label next).0
unfolding fence_check
fence_check-Guarded m dty label next = elim (Bool-cases dty.dirty) [
  | inl d ↦ rw d (same-Guarded dty m)
  | inr d ↦ rw d (same-Guarded dty m)
]

link-Guarded :
    (dty : DirtyRecord) (m : Memory) (i v : ℕ) (st : ℕ → Status)
    → (i ≡ dty.hp0) ⊎ (i ≡ dty.hp2)
    → Guarded dty m (record m { link = update m.link i v; status = st })
link-Guarded dty m i v st held =
    (λ a ne. let e = update-ne m.link i v a ne in grind (arith, e, held), λ a ne. absurd (ne refl))

module _ (h : Bool) (me fresh : ℕ) (m : Memory) (dty : DirtyRecord) where
  step-Guarded : (p : Pc) → Protected p dty → Guarded dty m (step h me fresh m dty p).0
  unfolding step
  step-Guarded (check_next t prev cur next) s = check-Guarded m dty _ _
  step-Guarded (check_key t prev cur next kd r) s = check-Guarded m dty _ _
  step-Guarded (fence_unlink t prev cur next) s = fence_check-Guarded m dty _ _
  step-Guarded (fence_connect k d prev cur new) s = fence_check-Guarded m dty _ _
  step-Guarded (fence_mark k cur next) s = fence_check-Guarded m dty _ _
  step-Guarded (unlink t prev cur next) s = elim (Bool-cases (m.link prev == cur)) [
    | inl e ↦ rw e (link-Guarded dty m prev (clear_deleted next) m.status (inl (sym s.0)))
    | inr e ↦ rw e (same-Guarded dty m)
  ]
  step-Guarded (connect k d prev cur new) s = elim (Bool-cases (m.link prev == cur)) [
    | inl e ↦ rw e (link-Guarded dty m prev new (update m.status new shared) (inl (sym s.0)))
    | inr e ↦ rw e (same-Guarded dty m)
  ]
  step-Guarded (mark k cur next) s = elim (Bool-cases (m.link cur == next)) [
    | inl e ↦ rw e (link-Guarded dty m cur (mark_deleted next) m.status (inl (sym s.0)))
    | inr e ↦ rw e (same-Guarded dty m)
  ]
  step-Guarded (write_next k d prev cur new) s = link-Guarded dty m new cur m.status (inr (sym s.2))
  step-Guarded (write_key k d prev cur new) s =
      (λ a ne. absurd (ne refl), λ a ne. update-ne m.key_data new k a ne ∙ sym s.2)
  step-Guarded _ s = same-Guarded dty m

-- Whatever the others have done before, a step of a thread writes no link but the list's head and the
-- links of nodes that its first or third hazard pointer holds, and no key but the third's.
pub Local-Guarded :
    (hash_op : Bool) (me fresh : ℕ) (m : Memory) (dty : DirtyRecord) (p : Pc)
    → Local hash_op me dty p
    → Guarded dty m (step hash_op me fresh m dty p).0
Local-Guarded h me fresh m dty p l = step-Guarded h me fresh m dty p (Local-Protected h me dty p l)
