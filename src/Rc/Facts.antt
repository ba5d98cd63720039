-- ===== src/Rc/Facts.antt =====
-- What one step of a thread of lfl-RC.c does to the links, and that the thread stays safe.
use automatic_optimistic_acc.Base.{
  ℕ, ◌+◌, ◌-◌, ◌%◌, ◌≤◌, ◌≡◌, ◌≢◌, ◌⊎◌, inl, inr, refl, sym, ap, Bool, true, List, [], ◌∷◌, arith,
  ◌==◌, In, Bool-cases, ==_iff, test_eq, test_ne, subst,
}
use automatic_optimistic_acc.Entry.{is_deleted, mark_deleted, clear_deleted}
use automatic_optimistic_acc.Lfl.{Memory, Task}
use automatic_optimistic_acc.Rc.{
  Pc, ready, done, hit, start, read_next, unlink, drop_link, read_again, drop_cur, read_key,
  revalidate, read_data, alloc, write_key, write_next, read_cur, connect, mark, releasing,
  no_change, acquire, give_up, step,
}
use automatic_optimistic_acc.Rc.Balance.{refs, held}
use automatic_optimistic_acc.Rc.System.{grown, counted, Fresh}
use automatic_optimistic_acc.Rc.Safe.{Even, Alive, Safe, Alive-In, arrive-Safe, decide-Safe}
use automatic_optimistic_acc.Rc.Relinks.{Relinks, Linked, same-Relinks, swap-Relinks, born-Relinks}

-- The node of a pointer that heads the list of what is held.
refs_self : (p : ℕ) (ps : List ℕ) → Even p → 1 ≤ refs p (p ∷ ps)
refs_self p ps e = let same : (p - p % 2 == p) ≡ true = ground arith in rw same (omega arith)

refs-second : (p q : ℕ) (ps : List ℕ) → Even p → 1 ≤ refs p (q ∷ p ∷ ps)
refs-second p q ps e = let self = refs_self p ps e in omega arith

refs-fourth : (p a b c : ℕ) → Even p → 1 ≤ refs p (a ∷ b ∷ c ∷ p ∷ [])
refs-fourth p a b c e = let self = refs_self p [] e in omega arith

refs-clear : (n p : ℕ) → refs n (clear_deleted p ∷ []) ≡ refs n (p ∷ [])
unfolding clear_deleted
refs-clear n p = let same : p - p % 2 - (p - p % 2) % 2 ≡ p - p % 2 = omega arith in rw same refl

refs-mark : (n p : ℕ) → refs n (mark_deleted p ∷ []) ≡ refs n (p ∷ [])
unfolding mark_deleted
refs-mark n p =
    let same : p - p % 2 + 1 - (p - p % 2 + 1) % 2 ≡ p - p % 2 = omega arith in rw same refl

module _ (h : Bool) (me fresh : ℕ) (m : Memory) (live : List ℕ) (count : ℕ → ℕ)
    (ok : Linked m.link live) where
  abbrev pub After : Pc → Type 0
  After pc =
      Relinks (held pc) m.link live (step h me fresh m pc).1 (step h me fresh m pc).0.link
        (grown live pc)
      × Safe (step h me fresh m pc).0.link (grown live pc) (counted count (step h me fresh m pc).1)
          (step h me fresh m pc).2

  -- The clearing of a mark names the same node.
  Alive-clear : (v : ℕ) → Alive live v → Alive live (clear_deleted v)
  unfolding clear_deleted
  Alive-clear v a =
      let same : v - v % 2 - (v - v % 2) % 2 ≡ v - v % 2 = omega arith in
      subst (λ x. (x ≡ 0) ⊎ In x live) (sym same) a

  Even-clear : (v : ℕ) → Even (clear_deleted v)
  unfolding clear_deleted
  Even-clear v = omega arith

  Alive-mark : (v : ℕ) → Alive live v → Alive live (mark_deleted v)
  unfolding mark_deleted
  Alive-mark v a =
      let same : v - v % 2 + 1 - (v - v % 2 + 1) % 2 ≡ v - v % 2 = omega arith in
      subst (λ x. (x ≡ 0) ⊎ In x live) (sym same) a

  grow : (a v : ℕ) → Alive live v → Alive (a ∷ live) v
  grow a v (inl z) = inl z
  grow a v (inr i) = inr (inr i)

  unlink-After :
      (t : Task) (prev cur next : ℕ)
      → Safe m.link live count (unlink t prev cur next)
      → After (unlink t prev cur next)
  unfolding step
  unlink-After t prev cur next ((ap', (ac, (an, _))), (ep, ec, (ne, odd, now))) =
      elim (Bool-cases (m.link prev == cur)) [
        | inr e ↦
            rw e (same-Relinks _ m.link live ok _ (λ n. refl), ((ac, (an, (ap', tt))), λ c. tt))
        | inl e ↦
            let here : m.link prev ≡ cur = (==_iff _ _).0 e in
            let away : cur ≢ prev = λ q. absurd (omega (arith, ap m.link q)) in
            rw e (
              swap-Relinks (prev ∷ cur ∷ next ∷ []) m.link live ok
                  (record no_change { unlinked = cur ∷ []; linked = next ∷ [] }) prev
                  (clear_deleted next) (Alive-In live prev ok.root ep ap')
                  (inr (refs_self prev (cur ∷ next ∷ []) ep)) (rw here ec) (Alive-clear next an)
                  (λ _. Even-clear next) (λ n. rw (here, refs-clear n next) (omega arith)),
              ((ap', (ac, (ac, tt))), (ep, ec, (ne, odd, rw (test_ne cur prev away) now))),
            )
      ]

  connect-After :
      (k prev cur next new : ℕ)
      → Safe m.link live count (connect k prev cur next new)
      → After (connect k prev cur next new)
  unfolding step
  connect-After k prev cur next new ((ap', (ac, (an, (aw, _)))), (ep, ec, ew, ne)) =
      elim (Bool-cases (m.link prev == cur)) [
        | inr e ↦
            rw e
              (same-Relinks _ m.link live ok _ (λ n. refl), ((aw, (an, (ac, (ap', tt)))), λ c. tt))
        | inl e ↦
            let here : m.link prev ≡ cur = (==_iff _ _).0 e in
            rw e (
              swap-Relinks (prev ∷ cur ∷ next ∷ new ∷ []) m.link live ok
                  (record no_change { unlinked = cur ∷ []; linked = new ∷ [] }) prev new
                  (Alive-In live prev ok.root ep ap')
                  (inr (refs_self prev (cur ∷ next ∷ new ∷ []) ep)) (rw here ec) aw (λ _. ew)
                  (λ n. rw here (omega arith)),
              ((ac, (an, (ac, (ap', tt)))), λ c. tt),
            )
      ]

  mark-After :
      (k prev cur next : ℕ)
      → Safe m.link live count (mark k prev cur next)
      → After (mark k prev cur next)
  unfolding step
  mark-After k prev cur next ((ap', (ac, (an, _))), (ep, ec, ne, en)) =
      elim (Bool-cases (m.link cur == next)) [
        | inr e ↦
            rw e (same-Relinks _ m.link live ok _ (λ n. refl), ((ac, (an, (ap', tt))), λ c. tt))
        | inl e ↦
            let here : m.link cur ≡ next = (==_iff _ _).0 e in
            let written =
              swap-Relinks (prev ∷ cur ∷ next ∷ []) m.link live ok no_change cur (mark_deleted next)
                (Alive-In live cur ok.root ec ac) (inr (refs-second cur prev (next ∷ []) ec))
                (rw here en) (Alive-mark next an) (λ z. absurd (ne z))
                (λ n. rw (here, refs-mark n next) refl) in
            elim (Bool-cases h) [
              | inl f ↦ rw (e, f) (written, ((ac, (an, (ap', tt))), λ c. tt))
              | inr f ↦ rw (e, f) (written, ((ac, (an, (ap', tt))), λ c. tt))
            ]
      ]

  read_next-After :
      (t : Task) (prev cur : ℕ)
      → Safe m.link live count (read_next t prev cur)
      → After (read_next t prev cur)
  unfolding step is_deleted
  read_next-After t prev cur ((ap', (ac, _)), (ep, ec, ne)) =
      let an = ok.targets cur (Alive-In live cur ok.root ec ac) in
      let same = same-Relinks (prev ∷ cur ∷ []) m.link live ok (acquire (m.link cur)) (λ n. refl) in
      elim (Bool-cases (m.link cur % 2 == 1)) [
        | inl e ↦ rw e (same, ((ap', (ac, (an, tt))), (ep, ec, (ne, ground arith, refl))))
        | inr e ↦ rw e (same, ((ap', (ac, (an, tt))), (ep, ec, ne, ground arith)))
      ]

  pub step-After : (pc : Pc) → Fresh live count fresh pc → Safe m.link live count pc → After pc
  unfolding step
  step-After (start t) f s = (
    same-Relinks _ m.link live ok _ (λ n. refl),
    arrive-Safe m.link live (counted count (acquire (m.link 0))) t 0 (m.link 0) (inl (omega arith))
        (ok.targets 0 ok.root) (omega arith) ok.head,
  )
  step-After (read_next t prev cur) f s = read_next-After t prev cur s
  step-After (unlink t prev cur next) f s = unlink-After t prev cur next s
  step-After (drop_link t prev cur next) f ((ap', (ac, _)), x) =
      (same-Relinks _ m.link live ok _ (λ n. refl), ((ap', (ac, tt)), x))
  step-After (read_again t prev cur next) f ((ap', (ac, _)), (ep, ec, (ne, odd, now))) = (
    same-Relinks _ m.link live ok _ (λ n. refl),
    (
      (ap', (ac, (subst (Alive live) now (ok.targets cur (Alive-In live cur ok.root ec ac)), tt))),
      ep,
    ),
  )
  step-After (drop_cur t prev cur next) f ((ap', (ac, (an, _))), ep) = (
    same-Relinks _ m.link live ok _ (λ n. refl),
    arrive-Safe m.link live (counted count (give_up cur)) t prev (clear_deleted next) ap'
        (Alive-clear next an) ep (Even-clear next),
  )
  step-After (read_key t prev cur next) f s = (same-Relinks _ m.link live ok _ (λ n. refl), s)
  step-After (revalidate t prev cur next ckey) f ((ap', (ac, (an, _))), (ep, ec, ne, en)) =
      elim (Bool-cases (m.link prev == cur)) [
        | inl e ↦ rw e (
          same-Relinks _ m.link live ok _ (λ n. refl),
          decide-Safe m.link live (counted count no_change) t prev cur next ckey ap' ac an ep ec ne
              en,
        )
        | inr e ↦
            rw e (same-Relinks _ m.link live ok _ (λ n. refl), ((ac, (an, (ap', tt))), λ c. tt))
      ]
  step-After (read_data k prev cur next) f ((ap', (ac, (an, _))), _) =
      (same-Relinks _ m.link live ok _ (λ n. refl), ((ac, (an, (ap', tt))), λ c. tt))
  step-After (alloc k prev cur next) (nf, ef, out, zero_count) (as', (ep, ec)) =
      let self : (fresh - fresh % 2 == fresh) ≡ true = ground arith in
      (
        same-Relinks _ m.link live ok _ (λ n. refl),
        (as', (ep, ec, (ef, nf, rw self (omega arith)), out)),
      )
  step-After (write_key k prev cur next new) f (as', (ep, ec, (ew, ne, two), out)) =
      (same-Relinks _ m.link live ok _ (λ n. refl), (as', (ep, ec, (ew, ne, omega arith), out)))
  step-After (write_next k prev cur next new) f
        ((ap', (ac, (an, _))), (ep, ec, (ew, ne, two), out)) =
      (
        born-Relinks (prev ∷ cur ∷ next ∷ new ∷ []) m.link live ok
            (record no_change { linked = cur ∷ [] }) new cur out ne
            (refs-fourth new prev cur next ew) ac (λ n. omega arith),
        (
          (grow new prev ap', (grow new next an, (inr (inl (omega arith)), tt))),
          (ep, ec, (ew, ne, omega arith), rw (test_eq new new refl) refl),
        ),
      )
  step-After (read_cur k prev cur next new) f ((ap', (an, (aw, _))), (ep, ec, (ew, ne, two), now)) =
      (
        same-Relinks _ m.link live ok _ (λ n. refl),
        (
          (
            ap',
            (
              subst (Alive live) now (ok.targets new (Alive-In live new ok.root ew aw)),
              (an, (aw, tt)),
            ),
          ),
          (ep, ec, ew, ne),
        ),
      )
  step-After (connect k prev cur next new) f s = connect-After k prev cur next new s
  step-After (mark k prev cur next) f s = mark-After k prev cur next s
  step-After (releasing [] q) f s =
      (same-Relinks _ m.link live ok _ (λ n. refl), (s.0, s.1 (counted count no_change)))
  step-After (releasing (p ∷ ps) q) f ((_, rest), x) =
      (same-Relinks _ m.link live ok _ (λ n. refl), (rest, x))
  step-After ready f s = (same-Relinks _ m.link live ok _ (λ n. refl), s)
  step-After (done t b) f s = (same-Relinks _ m.link live ok _ (λ n. refl), s)
  step-After (hit k d) f s = (same-Relinks _ m.link live ok _ (λ n. refl), s)
