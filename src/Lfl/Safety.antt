-- ===== src/Lfl/Safety.antt =====
-- Every reachable state of the lock-free list satisfies the invariant.
use native.Mathlib.Decide.{ℕ_discrete}
use automatic_optimistic_acc.Base.{
  ℕ, ◌+◌, ◌-◌, ◌%◌, ◌^◌, ◌<◌, ◌≡◌, ◌⊎◌, inl, inr, sym, refl, subst, arith, ◌==◌, if◌then◌else◌, [],
  Bool, true, false, leb, Bool-cases, ==_iff, test_eq, test_ne,
}
use automatic_optimistic_acc.Entry.{is_deleted, clear_deleted}
use automatic_optimistic_acc.Lfl.{
  shared, Memory, update, Task, search, insert, delete, force_update, key_of, Pc, ready, done, hit,
  start, read_next, unlink, read_key, revalidate, read_data, alloc, write_key, write_next, connect,
  mark, missing, found, arrive, decide, step, Available, System, Step, call, turn, init, Reach,
  initially, later,
}
use automatic_optimistic_acc.Lfl.Invariant.{key, Good, Before, Behind, Ok, Inv}
use automatic_optimistic_acc.Lfl.Rely.{Before-IsLink, Ok-Evolves, step-Evolves}
use automatic_optimistic_acc.Lfl.Writes.{Good-same, Good-mark, Good-relink, Good-connect}

module _ (me : ℕ) (m : Memory) where
  missing-Ok :
      (t : Task) (prev cur : ℕ)
      → key_of t < 2 ^ 31
      → Before m (key_of t) prev
      → Behind m (key_of t) cur
      → Ok me m (missing t prev cur)
  unfolding missing key_of
  missing-Ok (search k) prev cur l b h = tt
  missing-Ok (insert k d) prev cur l b h = (l, b, h)
  missing-Ok (delete k) prev cur l b h = tt
  missing-Ok (force_update k) prev cur l b h = tt

  arrive-Ok :
      (t : Task) (prev cur : ℕ)
      → key_of t < 2 ^ 31
      → Before m (key_of t) prev
      → (cur ≡ 0) ⊎ (m.status cur ≡ shared)
      → Ok me m (arrive t prev cur)
  unfolding arrive
  arrive-Ok t prev cur l b s = elim (Bool-cases (cur == 0)) [
    | inl e ↦ rw e (missing-Ok t prev cur l b (inl ((==_iff cur 0).0 e)))
    | inr e ↦ rw e (l, b, ground (arith, s))
  ]

  found-Ok :
      (t : Task) (cur next : ℕ)
      → key_of t < 2 ^ 31
      → m.status cur ≡ shared
      → key m cur ≡ key_of t
      → next % 2 ≡ 0
      → Ok me m (found t cur next)
  unfolding found key_of
  found-Ok (search k) cur next l s e even = s
  found-Ok (insert k d) cur next l s e even = tt
  found-Ok (delete k) cur next l s e even = (l, s, e, even)
  found-Ok (force_update k) cur next l s e even = tt

  decide-Ok :
      (t : Task) (prev cur next ckey : ℕ)
      → Ok me m (revalidate t prev cur next ckey)
      → Ok me m (decide t prev cur next ckey)
  unfolding decide
  decide-Ok t prev cur next ckey (l, b, s, (even, n), e) = elim (Bool-cases (leb (key_of t) ckey)) [
    | inr lt ↦ rw lt (arrive-Ok t cur next l (inr (s, ground arith)) n)
    | inl le ↦ elim (Bool-cases (ckey == key_of t)) [
      | inl eq ↦ rw (le, eq) (found-Ok t cur next l s (ground arith) even)
      | inr ne ↦ rw (le, ne) (missing-Ok t prev cur l b (inr (s, ground arith)))
    ]
  ]

-- What a thread's locals say stays true over its own step.
step-Ok :
    (h : Bool) (me fresh : ℕ) (m : Memory)
    → Good m
    → (pc : Pc) → Ok me m pc
    → Available m pc fresh
    → Ok me (step h me fresh m pc).0 (step h me fresh m pc).1
unfolding step key_of
step-Ok h me fresh m g (start t) ok av =
    arrive-Ok me m t 0 (m.link 0) ok (inl refl) (ground (arith, g.head, g.closed 0))
step-Ok h me fresh m g (read_next t prev cur) (l, b, s) av =
    elim (Bool-cases (is_deleted (m.link cur))) [
      | inl e ↦ rw e (l, b, s, ground arith, refl)
      | inr e ↦ rw e (l, b, s, ground (arith, g.closed cur))
    ]
step-Ok h me fresh m g (unlink t prev cur next) (l, b, s, odd, at) av =
    elim (Bool-cases (m.link prev == cur)) [
      | inl e ↦ rw e (
          arrive-Ok me (record m { link = update m.link prev (clear_deleted next) }) t prev
            (clear_deleted next) l b (ground (arith, g.closed cur)))
      | inr e ↦ rw e l
    ]
step-Ok h me fresh m g (read_key t prev cur next) (l, b, s, n) av = (l, b, s, n, refl)
step-Ok h me fresh m g (revalidate t prev cur next ckey) ok av =
    elim (Bool-cases (m.link prev == cur)) [
      | inl e ↦ rw e (decide-Ok me m t prev cur next ckey ok)
      | inr e ↦ rw e ok.0
    ]
step-Ok h me fresh m g (read_data k cur) ok av = tt
step-Ok h me fresh m g (alloc k d prev cur) (l, b, c) (unused, nz, even) =
    (l, ground (arith, b), ground (arith, c), (ground arith, nz, even))
step-Ok h me fresh m g (write_key k d prev cur new) (l, b, c, w) av =
    (l, ground (arith, b, w), ground (arith, c, w), w, ground arith)
step-Ok h me fresh m g (write_next k d prev cur new) (l, b, c, w, q) av =
    (l, b, c, w, q, ground arith)
step-Ok h me fresh m g (connect k d prev cur new) ok av = elim (Bool-cases (m.link prev == cur)) [
  | inl e ↦ rw e tt
  | inr e ↦ rw e ok.0
]
step-Ok h me fresh m g (mark k cur next) ok av = elim (Bool-cases (m.link cur == next)) [
  | inl e ↦ rw e (ending h)
  | inr e ↦ rw e ok.0
]
  where
    ending :
        (b : Bool)
        → Ok me
            (record m { link = update m.link cur (next - next % 2 + 1) })
            (if b then start (force_update k) else done (delete k) true)
    ending true = ok.0
    ending false = tt
step-Ok h me fresh m g ready ok av = tt
step-Ok h me fresh m g (done t b) ok av = tt
step-Ok h me fresh m g (hit k d) ok av = tt

step-Good :
    (h : Bool) (me fresh : ℕ) (m : Memory)
    → Good m
    → (pc : Pc) → Ok me m pc
    → Available m pc fresh
    → Good (step h me fresh m pc).0
unfolding step
step-Good h me fresh m g (start t) ok av = g
step-Good h me fresh m g (read_next t prev cur) ok av = g
step-Good h me fresh m g (unlink t prev cur next) (l, b, s, odd, at) av =
    elim (Bool-cases (m.link prev == cur)) [
      | inl e ↦
          rw e
            (Good-relink m g prev cur next (Before-IsLink m _ prev b) s ((==_iff _ _).0 e) at odd)
      | inr e ↦ rw e g
    ]
step-Good h me fresh m g (read_key t prev cur next) ok av = g
step-Good h me fresh m g (revalidate t prev cur next ckey) ok av = g
step-Good h me fresh m g (read_data k cur) ok av = g
step-Good h me fresh m g (alloc k d prev cur) ok (unused, nz, even) =
    Good-same m _ g (λ n s. ground arith) (λ n s. ground arith) refl (λ n s. refl) (λ n s. refl)
step-Good h me fresh m g (write_key k d prev cur new) (l, b, c, w) av =
    Good-same m _ g (λ n s. s) (λ n s. s) refl (λ n s. refl) (λ n s. ground (arith, w))
step-Good h me fresh m g (write_next k d prev cur new) (l, b, c, w, q) av =
    Good-same m _ g (λ n s. s) (λ n s. s) (ground (arith, w)) (λ n s. ground (arith, w))
      (λ n s. refl)
step-Good h me fresh m g (connect k d prev cur new) (l, b, c, w, q, r) av =
    elim (Bool-cases (m.link prev == cur)) [
      | inl e ↦ rw e (Good-connect m g me k prev cur new l b c w q r ((==_iff _ _).0 e))
      | inr e ↦ rw e g
    ]
step-Good h me fresh m g (mark k cur next) (l, s, c, even) av =
    elim (Bool-cases (m.link cur == next)) [
      | inl e ↦ rw e (Good-mark m g cur next s ((==_iff _ _).0 e))
      | inr e ↦ rw e g
    ]
step-Good h me fresh m g ready ok av = g
step-Good h me fresh m g (done t b) ok av = g
step-Good h me fresh m g (hit k d) ok av = g

pub Step-Inv : {h : Bool} {s t : System} → Step h s t → Inv s → Inv t
Step-Inv {s} (call i t idle request small) inv = record {
  good = inv.good;
  oks = λ j. elim (ℕ_discrete j i) [
    | yes e ↦ rw (test_eq j i e) small
    | no ne ↦ rw (test_ne j i ne) (inv.oks j)
  ];
}
Step-Inv {h} {s} (turn i fresh av) inv = record {
  good = step-Good h i fresh s.mem inv.good (s.pc i) (inv.oks i) av;
  oks = λ j. elim (ℕ_discrete j i) [
    | yes e ↦ rw (test_eq j i e) (
        subst (λ x. Ok x (step h i fresh s.mem (s.pc i)).0 (step h i fresh s.mem (s.pc i)).1)
          (sym e) (step-Ok h i fresh s.mem inv.good (s.pc i) (inv.oks i) av))
    | no ne ↦ rw (test_ne j i ne) (
        Ok-Evolves (step-Evolves h i fresh s.mem inv.good (s.pc i) (inv.oks i) av) j ne (s.pc j)
          (inv.oks j))
  ];
}

init-Inv : Inv init
init-Inv = record {
  good = record {
    head = refl;
    node = λ n e. cc;
    closed = λ a l nz. absurd (nz refl);
    sorted = λ a e nz. cc;
    chain = [];
    linked = refl;
    covers = λ n e even. cc;
  };
  oks = λ i. tt;
}

-- Whatever the threads do, in whatever order, memory stays good and no thread is misled: the links
-- from the head lead through ascending keys, every unmarked shared node is among them, and each
-- thread's locals are true of memory as `Ok` says.
pub Reach-Inv : {h : Bool} {s : System} → Reach h s → Inv s
Reach-Inv initially = init-Inv
Reach-Inv (later r st) = Step-Inv st (Reach-Inv r)
