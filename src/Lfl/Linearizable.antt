-- ===== src/Lfl/Linearizable.antt =====
-- What the lock-free list promises in every reachable state, whatever the interleaving.
use automatic_optimistic_acc.Base.{
  In, Option, none, some, ℕ, ◌<◌, ◌≡◌, inl, inr, refl, sym, ◌∙◌, subst, arith, ◌==◌, List, Bool,
  true, false, leb, Bool-cases,
}
use automatic_optimistic_acc.Entry.{is_deleted}
use automatic_optimistic_acc.Lfl.{
  Memory, Task, insert, key_of, Pc, ready, done, hit, start, read_next, unlink, read_key,
  revalidate, read_data, alloc, write_key, write_next, connect, mark, is_idle, missing, found,
  arrive, decide, step, Available, System, Reach,
}
use automatic_optimistic_acc.Lfl.Chain.{Chain}
use automatic_optimistic_acc.Lfl.Invariant.{key, Ok}
use automatic_optimistic_acc.Lfl.Linear.{
  Live, Present, Event, added, removed, quiet, event, Effect, Live-unique, gap-not-Present,
  step-Effect,
}
use automatic_optimistic_acc.Lfl.Safety.{Reach-Inv}

-- In every reachable state each step of each thread changes the set of keys exactly as its
-- event says: a compare-and-swap that links a node in adds a key that was absent, one that sets a
-- mark removes a key that was present, and every other step, unlinking included, changes nothing.
pub turn-Effect :
    {h : Bool} {s : System}
    → Reach h s
    → (i fresh : ℕ) → Available s.mem (s.pc i) fresh
    → Effect (event s.mem (s.pc i)) s.mem (step h i fresh s.mem (s.pc i)).0
turn-Effect {h} {s} r i fresh av =
    let inv = Reach-Inv r in step-Effect h i fresh s.mem inv.good (s.pc i) (inv.oks i) av

-- In every reachable state the list is sound: all live nodes lie on one chain of links from the
-- head, and no two of them have the same key.
pub Live-nodes :
    {h : Bool} {s : System}
    → Reach h s
    → (xs : List ℕ) × Chain s.mem.link 0 xs
      × ((n : ℕ) → Live s.mem n → In n xs)
      × ((n n' : ℕ) → Live s.mem n → Live s.mem n' → key s.mem n ≡ key s.mem n' → n ≡ n')
Live-nodes {s} r =
    let g = (Reach-Inv r).good in
    (g.chain, g.linked, (λ n l. g.covers n l.0 l.1), Live-unique s.mem g)

-- The revalidation in `find` is sound: when it finds `prev` still leading to `cur`, and the key read
-- from `cur` is beyond the key sought, then at this moment the set does not have the key.
pub revalidate-absent :
    {h : Bool} {s : System}
    → Reach h s
    → (i : ℕ) (t : Task) (prev cur next ckey : ℕ) → s.pc i ≡ revalidate t prev cur next ckey
    → s.mem.link prev ≡ cur
    → key_of t < ckey
    → ¬ Present s.mem (key_of t)
revalidate-absent {s} r i t prev cur next ckey e at lt =
    let inv = Reach-Inv r in
    let (l, b, sh, n, q) = subst (Ok i s.mem) e (inv.oks i) in
    gap-not-Present s.mem inv.good (key_of t) prev cur b (inr (sh, rw q lt)) at
      (inv.good.node cur sh).1

-- The link that `find` reads in a node tells whether the node is in the set: where it is not marked,
-- the set has the node's key at this moment.
pub read_next-Present :
    {h : Bool} {s : System}
    → Reach h s
    → (i : ℕ) (t : Task) (prev cur : ℕ) → s.pc i ≡ read_next t prev cur
    → is_deleted (s.mem.link cur) ≡ false
    → Present s.mem (key s.mem cur)
unfolding is_deleted
read_next-Present {s} r i t prev cur e even =
    let (l, b, sh) = subst (Ok i s.mem) e ((Reach-Inv r).oks i) in (cur, ground arith, refl)

-- The key of an insertion that has returned `TRUE`.
abbrev pub inserted : Pc → Option ℕ
inserted (done (insert k d) true) = some k
inserted _ = none

abbrev pub added_key : Event → Option ℕ
added_key (added k) = some k
added_key _ = none

missing-inserted : (t : Task) (prev cur : ℕ) → inserted (missing t prev cur) ≡ none
unfolding missing
missing-inserted (insert k d) prev cur = refl
missing-inserted _ prev cur = refl

found-inserted : (t : Task) (cur next : ℕ) → inserted (found t cur next) ≡ none
unfolding found
found-inserted (insert k d) cur next = refl
found-inserted _ cur next = refl

arrive-inserted : (t : Task) (prev cur : ℕ) → inserted (arrive t prev cur) ≡ none
unfolding arrive
arrive-inserted t prev cur = elim (Bool-cases (cur == 0)) [
  | inl e ↦ rw e (missing-inserted t prev cur)
  | inr e ↦ rw e
]

decide-inserted :
    (t : Task) (prev cur next ckey : ℕ) → inserted (decide t prev cur next ckey) ≡ none
unfolding decide
decide-inserted t prev cur next ckey = elim (Bool-cases (leb (key_of t) ckey)) [
  | inr lt ↦ rw lt (arrive-inserted t cur next)
  | inl le ↦ elim (Bool-cases (ckey == key_of t)) [
    | inl e ↦ rw (le, e) (found-inserted t cur next)
    | inr e ↦ rw (le, e) (missing-inserted t prev cur)
  ]
]

-- An insertion returns `TRUE` exactly by the step that adds its key to the set, from any memory:
-- a step that does anything else returns no success of an insertion.
pub insert-commits :
    (h : Bool) (me fresh : ℕ) (m : Memory) (pc : Pc)
    → is_idle pc ≡ false
    → inserted (step h me fresh m pc).1 ≡ added_key (event m pc)
unfolding step event
insert-commits h me fresh m (start t) busy = arrive-inserted t 0 (m.link 0)
insert-commits h me fresh m (read_next t prev cur) busy =
    elim (Bool-cases (is_deleted (m.link cur))) [ inl e ↦ rw e | inr e ↦ rw e ]
insert-commits h me fresh m (unlink t prev cur next) busy = elim (Bool-cases (m.link prev == cur)) [
  | inl e ↦ rw e (arrive-inserted t prev _)
  | inr e ↦ rw e
]
insert-commits h me fresh m (read_key t prev cur next) busy = refl
insert-commits h me fresh m (revalidate t prev cur next ckey) busy =
    elim (Bool-cases (m.link prev == cur)) [
      | inl e ↦ rw e (decide-inserted t prev cur next ckey)
      | inr e ↦ rw e
    ]
insert-commits h me fresh m (read_data k cur) busy = refl
insert-commits h me fresh m (alloc k d prev cur) busy = refl
insert-commits h me fresh m (write_key k d prev cur new) busy = refl
insert-commits h me fresh m (write_next k d prev cur new) busy = refl
insert-commits h me fresh m (connect k d prev cur new) busy =
    elim (Bool-cases (m.link prev == cur)) [ inl e ↦ rw e | inr e ↦ rw e ]
insert-commits true me fresh m (mark k cur next) busy = elim (Bool-cases (m.link cur == next)) [
  | inl e ↦ rw e
  | inr e ↦ rw e
]
insert-commits false me fresh m (mark k cur next) busy = elim (Bool-cases (m.link cur == next)) [
  | inl e ↦ rw e
  | inr e ↦ rw e
]
insert-commits h me fresh m ready busy = cc
insert-commits h me fresh m (done t b) busy = cc
insert-commits h me fresh m (hit k d) busy = cc

event-added : (e : Event) (k : ℕ) → added_key e ≡ some k → e ≡ added k
event-added (added j) k same = cc same
event-added (removed j) k same = absurd (cc same)
event-added quiet k same = absurd (cc same)

-- In every reachable state: a step of a busy thread by which an insertion returns `TRUE` adds its key to the set,
-- which did not have it, and adds or removes no other.
pub insert-Adds :
    {h : Bool} {s : System}
    → Reach h s
    → (i fresh k : ℕ) → Available s.mem (s.pc i) fresh
    → is_idle (s.pc i) ≡ false
    → inserted (step h i fresh s.mem (s.pc i)).1 ≡ some k
    → Effect (added k) s.mem (step h i fresh s.mem (s.pc i)).0
insert-Adds {h} {s} r i fresh k av busy returned =
    let commits = insert-commits h i fresh s.mem (s.pc i) busy in
    subst (λ e. Effect e s.mem (step h i fresh s.mem (s.pc i)).0)
      (event-added (event s.mem (s.pc i)) k (sym commits ∙ returned)) (turn-Effect r i fresh av)
