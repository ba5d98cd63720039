-- ===== src/Rc/Balance.antt =====
-- Each operation of lfl-RC.c gives back what it takes: its ledger is balanced, for every node.
use automatic_optimistic_acc.Base.{
  ℕ, ◌+◌, ◌-◌, ◌%◌, ◌≡◌, ◌≢◌, inl, inr, refl, Bool, List, [], ◌∷◌, ◌++◌, arith, leb, ◌==◌,
  if◌then◌else◌, Bool-cases, ==_iff,
}
use automatic_optimistic_acc.Entry.{is_deleted, mark_deleted, clear_deleted}
use automatic_optimistic_acc.Lfl.{Memory, Task, search, insert, delete, force_update, key_of}
use automatic_optimistic_acc.Rc.{
  Pc, ready, done, hit, start, read_next, unlink, drop_link, read_again, drop_cur, read_key,
  revalidate, read_data, alloc, write_key, write_next, read_cur, connect, mark, releasing, Ledger,
  missing, found, arrive, decide, step, run,
}

-- The references to node `n` in a list of pointers.
abbrev pub refs : ℕ → List ℕ → ℕ
refs n [] = 0
refs n (p ∷ ps) = (if p - p % 2 == n then 1 else 0) + refs n ps

-- The pointers for which a thread holds a reference.
abbrev pub held : Pc → List ℕ
held (read_next t prev cur) = prev ∷ cur ∷ []
held (unlink t prev cur next) = prev ∷ cur ∷ next ∷ []
held (drop_link t prev cur next) = prev ∷ cur ∷ cur ∷ []
held (read_again t prev cur next) = prev ∷ cur ∷ []
held (drop_cur t prev cur next) = prev ∷ cur ∷ next ∷ []
held (read_key t prev cur next) = prev ∷ cur ∷ next ∷ []
held (revalidate t prev cur next ckey) = prev ∷ cur ∷ next ∷ []
held (read_data k prev cur next) = prev ∷ cur ∷ next ∷ []
held (alloc k prev cur next) = prev ∷ cur ∷ next ∷ []
held (write_key k prev cur next new) = prev ∷ cur ∷ next ∷ new ∷ []
held (write_next k prev cur next new) = prev ∷ cur ∷ next ∷ new ∷ []
held (read_cur k prev cur next new) = prev ∷ next ∷ new ∷ []
held (connect k prev cur next new) = prev ∷ cur ∷ next ∷ new ∷ []
held (mark k prev cur next) = prev ∷ cur ∷ next ∷ []
held (releasing ps q) = ps ++ held q
held _ = []

-- The references to `n` before and after agree with the ledger.
abbrev pub Balanced : ℕ → Pc → Ledger → Pc → Type 0
Balanced n pc l pc' =
    refs n (held pc) + refs n l.acquired + refs n l.unlinked
    ≡ refs n (held pc') + refs n l.released + refs n l.linked

module _ (n : ℕ) (ne : n ≢ 0) where
  cleared : (p : ℕ) → clear_deleted p - clear_deleted p % 2 ≡ p - p % 2
  unfolding clear_deleted
  cleared p = omega arith

  missing-refs :
      (t : Task) (prev cur next : ℕ)
      → refs n (held (missing t prev cur next)) ≡ refs n (prev ∷ cur ∷ next ∷ [])
  unfolding missing
  missing-refs (search k) prev cur next = omega arith
  missing-refs (insert k d) prev cur next = omega arith
  missing-refs (delete k) prev cur next = omega arith
  missing-refs (force_update k) prev cur next = omega arith

  found-refs :
      (t : Task) (prev cur next : ℕ)
      → refs n (held (found t prev cur next)) ≡ refs n (prev ∷ cur ∷ next ∷ [])
  unfolding found
  found-refs (search k) prev cur next = omega arith
  found-refs (insert k d) prev cur next = omega arith
  found-refs (delete k) prev cur next = omega arith
  found-refs (force_update k) prev cur next = omega arith

  arrive-refs :
      (t : Task) (prev cur : ℕ) → refs n (held (arrive t prev cur)) ≡ refs n (prev ∷ cur ∷ [])
  unfolding arrive
  arrive-refs t prev cur = elim (Bool-cases (cur == 0)) [
    | inl e ↦ rw e (
        let null : cur ≡ 0 = (==_iff _ _).0 e in
        let all = missing-refs t prev 0 0 in rw (null) ((ground arith)))
    | inr e ↦ rw e (omega arith)
  ]

  decide-refs :
      (t : Task) (prev cur next ckey : ℕ)
      → refs n (held (decide t prev cur next ckey)) ≡ refs n (prev ∷ cur ∷ next ∷ [])
  unfolding decide
  decide-refs t prev cur next ckey = elim (Bool-cases (leb (key_of t) ckey)) [
    | inl e ↦ rw e (elim (Bool-cases (ckey == key_of t)) [
      | inl f ↦ rw f (found-refs t prev cur next)
      | inr f ↦ rw f (missing-refs t prev cur next)
    ])
    | inr e ↦ rw e (let rest = arrive-refs t cur next in omega arith)
  ]

  pub step-Balanced :
      (h : Bool) (me fresh : ℕ) (m : Memory) (pc : Pc)
      → Balanced n pc (step h me fresh m pc).1 (step h me fresh m pc).2
  unfolding step clear_deleted is_deleted mark_deleted
  step-Balanced h me fresh m (start t) = let all = arrive-refs t 0 (m.link 0) in ground arith
  step-Balanced h me fresh m (read_next t prev cur) = elim (Bool-cases (is_deleted (m.link cur))) [
    | inl e ↦ rw e (omega arith)
    | inr e ↦ rw e (omega arith)
  ]
  step-Balanced h me fresh m (unlink t prev cur next) = elim (Bool-cases (m.link prev == cur)) [
    | inl e ↦ rw e (omega arith)
    | inr e ↦ rw e (omega arith)
  ]
  step-Balanced h me fresh m (drop_link t prev cur next) = omega arith
  step-Balanced h me fresh m (read_again t prev cur next) = omega arith
  step-Balanced h me fresh m (drop_cur t prev cur next) =
      let all = arrive-refs t prev (clear_deleted next) in
      let same : refs n (clear_deleted next ∷ []) ≡ refs n (next ∷ []) = rw (cleared next) refl in
      omega arith
  step-Balanced h me fresh m (read_key t prev cur next) = refl
  step-Balanced h me fresh m (revalidate t prev cur next ckey) =
      elim (Bool-cases (m.link prev == cur)) [
        | inl e ↦ rw e (let all = decide-refs t prev cur next ckey in omega arith)
        | inr e ↦ rw e (omega arith)
      ]
  step-Balanced h me fresh m (read_data k prev cur next) = omega arith
  step-Balanced h me fresh m (alloc k prev cur next) = omega arith
  step-Balanced h me fresh m (write_key k prev cur next new) = refl
  step-Balanced h me fresh m (write_next k prev cur next new) = omega arith
  step-Balanced h me fresh m (read_cur k prev cur next new) = omega arith
  step-Balanced h me fresh m (connect k prev cur next new) =
      elim (Bool-cases (m.link prev == cur)) [
        | inl e ↦ rw e (omega arith)
        | inr e ↦ rw e (omega arith)
      ]
  step-Balanced h me fresh m (mark k prev cur next) = elim (Bool-cases (m.link cur == next)) [
    | inl e ↦ elim (Bool-cases h) [
      | inl f ↦ rw (e, f) (omega arith)
      | inr f ↦ rw (e, f) (omega arith)
    ]
    | inr e ↦ rw e (omega arith)
  ]
  step-Balanced h me fresh m (releasing [] q) = refl
  step-Balanced h me fresh m (releasing (p ∷ ps) q) = omega arith
  step-Balanced h me fresh m ready = refl
  step-Balanced h me fresh m (done t b) = refl
  step-Balanced h me fresh m (hit k d) = refl

  pub refs-append : (ps qs : List ℕ) → refs n (ps ++ qs) ≡ refs n ps + refs n qs
  refs-append [] qs = omega arith
  refs-append (p ∷ ps) qs = let rest = refs-append ps qs in omega arith

  -- Over any steps of one thread, whatever memory it meets, the references to a node that it holds and takes
  -- and those of the links removed, are those that it gives up, those of the links written, and those
  -- that it still holds.
  pub run-Balanced :
      (h : Bool) (me : ℕ) (seen : List (ℕ × Memory)) (pc : Pc)
      → Balanced n pc (run h me seen pc).0 (run h me seen pc).1
  unfolding run
  run-Balanced h me [] pc = refl
  run-Balanced h me ((fresh, m) ∷ rest) pc =
      let (m', l, pc') = step h me fresh m pc in
      let one = step-Balanced h me fresh m pc in
      let others = run-Balanced h me rest pc' in
      let (r, last) = run h me rest pc' in
      let a = refs-append l.acquired r.acquired in
      let b = refs-append l.released r.released in
      let c = refs-append l.unlinked r.unlinked in
      let d = refs-append l.linked r.linked in omega arith
