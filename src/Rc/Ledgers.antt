-- ===== src/Rc/Ledgers.antt =====
-- What a thread of lfl-RC.c may take and give up: it takes a reference only from a live link or from the
-- allocator, and gives up only what it holds.
use automatic_optimistic_acc.Base.{
  ℕ, ◌≤◌, ◌≡◌, ◌≢◌, ◌⊎◌, inl, inr, refl, ap, ◌∙◌, Bool, List, [], ◌∷◌, arith, ◌==◌, In, Bool-cases,
}
use automatic_optimistic_acc.Lfl.{Memory}
use automatic_optimistic_acc.Rc.{
  Pc, start, read_next, unlink, read_again, alloc, read_cur, connect, mark, releasing, step,
}
use automatic_optimistic_acc.Rc.Balance.{refs, held}
use automatic_optimistic_acc.Rc.System.{Fresh}
use automatic_optimistic_acc.Rc.Links.{linked_refs, linked_refs-In}
use automatic_optimistic_acc.Rc.Safe.{Safe, Alive-In}
use automatic_optimistic_acc.Rc.Relinks.{Linked}

module _ (h : Bool) (me fresh : ℕ) (m : Memory) (live : List ℕ) (count : ℕ → ℕ)
    (ok : Linked m.link live) (n : ℕ) (ne : n ≢ 0) where
  abbrev Source : Type 0
  Source = (count n ≡ 0) ⊎ (1 ≤ linked_refs n m.link live)

  from_link : (a v : ℕ) → In a live → m.link a ≡ v → 1 ≤ refs n (v ∷ []) → Source
  from_link a v i e some_refs =
      let all = linked_refs-In n m.link a live i in
      let same = ap (λ x. refs n (x ∷ [])) e in inr (omega arith)

  pub acquired-Source :
      (pc : Pc)
      → Fresh live count fresh pc
      → Safe m.link live count pc
      → 1 ≤ refs n (step h me fresh m pc).1.acquired
      → Source
  unfolding step
  acquired-Source (start t) f s le = from_link 0 (m.link 0) ok.root refl le
  acquired-Source (read_next t prev cur) f ((ap', (ac, _)), (ep, ec, nz)) le =
      from_link cur (m.link cur) (Alive-In live cur ok.root ec ac) refl le
  acquired-Source (unlink t prev cur next) f s le = elim (Bool-cases (m.link prev == cur)) [
    | inl e ↦ absurd (omega (arith, rw e at le))
    | inr e ↦ absurd (omega (arith, rw e at le))
  ]
  acquired-Source (read_again t prev cur next) f ((ap', (ac, _)), (ep, ec, (nz, odd, now))) le =
      from_link cur next (Alive-In live cur ok.root ec ac) now le
  acquired-Source (alloc k prev cur next) (nz, even, out, none) s le =
      let here : n ≡ fresh = ground arith in inl (ap count here ∙ none)
  acquired-Source (read_cur k prev cur next new) f
        ((ap', (an, (aw, _))), (ep, ec, (ew, nz, two), now)) le =
      from_link new cur (Alive-In live new ok.root ew aw) now le
  acquired-Source (connect k prev cur next new) f s le = elim (Bool-cases (m.link prev == cur)) [
    | inl e ↦ absurd (omega (arith, rw e at le))
    | inr e ↦ absurd (omega (arith, rw e at le))
  ]
  acquired-Source (mark k prev cur next) f s le = elim (Bool-cases (m.link cur == next)) [
    | inl e ↦ absurd (omega (arith, rw e at le))
    | inr e ↦ absurd (omega (arith, rw e at le))
  ]
  acquired-Source (releasing [] q) f s le = absurd (omega arith)
  acquired-Source (releasing (p ∷ ps) q) f s le = absurd (omega arith)
  acquired-Source _ f s le = absurd (omega arith)

  pub released-held : (pc : Pc) → refs n (step h me fresh m pc).1.released ≤ refs n (held pc)
  unfolding step
  released-held (unlink t prev cur next) = elim (Bool-cases (m.link prev == cur)) [
    | inl e ↦ rw e (omega arith)
    | inr e ↦ rw e (omega arith)
  ]
  released-held (connect k prev cur next new) = elim (Bool-cases (m.link prev == cur)) [
    | inl e ↦ rw e (omega arith)
    | inr e ↦ rw e (omega arith)
  ]
  released-held (mark k prev cur next) = elim (Bool-cases (m.link cur == next)) [
    | inl e ↦ rw e (omega arith)
    | inr e ↦ rw e (omega arith)
  ]
  released-held (releasing [] q) = omega arith
  released-held (releasing (p ∷ ps) q) = omega arith
  released-held _ = omega arith
