-- ===== src/Trace/Local.antt =====
-- What one step of a tracing thread does: marks stay, a node that becomes marked leaves its child to
-- do, and no pointer is dropped unmarked.
use native.Mathlib.Decide.{ℕ_discrete}
use automatic_optimistic_acc.Base.{
  ℕ, zero, suc, ◌%◌, ◌≡◌, ◌⊎◌, inl, inr, refl, sym, ◌∙◌, ap, List, arith, ◌==◌, Bool-cases, test_eq,
  ==_iff,
}
use automatic_optimistic_acc.Marks.{mark_word}
use automatic_optimistic_acc.Trace.{
  Pc, idle, pop, read_word, publish, read_child, write_child, mark_first, mark_read, mark_swap,
  undo, finish, done, Thread, Heap, child, is_marked, set_mark, won, lost, step_at, Root,
}
use automatic_optimistic_acc.Trace.Marking.{
  set_mark-Marked, set_mark-keeps, set_mark-fresh, set_mark-Current,
}
use automatic_optimistic_acc.Trace.Stacks.{
  Slots-below, Slots-bottom, Slots-more, InStack-below, InStack-bottom, InStack-more,
}
use automatic_optimistic_acc.Trace.Invariant.{
  Marked, Current, Slots, Stale, Written, Ok, InStack, Work,
}

-- From memory `m` and a thread at `pc` with stack `st`, to `m'` and a thread with `st'` at `pc'`.
pub record Progress (p : ℕ) (hps : List ℕ) (m : Heap) (st : ℕ → ℕ) (pc : Pc) (m' : Heap)
    (st' : ℕ → ℕ) (pc' : Pc) : Type 0 where
  pub same_links : m'.link ≡ m.link
  pub current : (a : ℕ) → Current p (m'.words a)
  pub keeps : (n : ℕ) → Marked m n → Marked m' n
  pub fresh :
      (n : ℕ)
      → n % 32 ≡ 0
      → Marked m' n
      → Marked m n ⊎ (Root hps (child m n) ⊎ Work st' pc' (child m n))
  pub kept : (x : ℕ) → Work st pc x → Work st' pc' x ⊎ Marked m' x
  pub ok : Ok p hps m st' pc'

-- A step that writes no mark.
quiet :
    (p : ℕ) (hps : List ℕ) (m : Heap) (st : ℕ → ℕ) (pc : Pc) (st' : ℕ → ℕ) (pc' : Pc)
    → ((a : ℕ) → Current p (m.words a))
    → ((x : ℕ) → Work st pc x → Work st' pc' x ⊎ Marked m x)
    → Ok p hps m st' pc'
    → Progress p hps m st pc m st' pc'
quiet p hps m st pc st' pc' current kept ok = record {
  same_links = refl;
  current = current;
  keeps = λ n e. e;
  fresh = λ n al e. inl e;
  kept = kept;
  ok = ok;
}

abbrev Result : (p : ℕ) → List ℕ → Heap → (ℕ → ℕ) → Pc → Heap × Thread → Type 0
Result p hps m st pc r = Progress p hps m st pc r.0 (r.1).markstack (r.1).pc

module _ (p : ℕ) (hps : List ℕ) (m : Heap) (st : ℕ → ℕ) (cur nxt c : ℕ) where
  -- `__mark` has returned 0: the node is marked, and its child need not be traced.
  lost-Ok : Slots st c → Ok p hps m st (lost nxt c)
  unfolding lost
  lost-Ok s = elim (Bool-cases (nxt == 0)) [ inl e ↦ rw e s | inr e ↦ rw e s ]

  lost-Work : (x : ℕ) → InStack st c x → Work st (lost nxt c) x
  unfolding lost
  lost-Work x w = elim (Bool-cases (nxt == 0)) [ inl e ↦ rw e w | inr e ↦ rw e w ]

  won-Ok : Slots st c → nxt % 32 ≡ 0 → Written st c nxt → Ok p hps m st (won nxt c)
  unfolding won
  won-Ok s al w = elim (Bool-cases (nxt == 0)) [
    | inl e ↦ rw e s
    | inr e ↦ rw e (Slots-more st c nxt (w (ground arith)) al s)
  ]

  won-Work : (x : ℕ) → InStack st c x → Work st (won nxt c) x
  unfolding won
  won-Work x w = elim (Bool-cases (nxt == 0)) [
    | inl e ↦ rw e w
    | inr e ↦ rw e (InStack-more st c x w)
  ]

  -- The child is on the stack, unless there is none.
  won-child : Written st c nxt → (nxt ≡ 0) ⊎ Work st (won nxt c) nxt
  unfolding won
  won-child w = elim (Bool-cases (nxt == 0)) [
    | inl e ↦ inl ((==_iff _ _).0 e)
    | inr e ↦ rw e (inr (suc c, omega arith, omega arith, w (ground arith)))
  ]

module _ (p : ℕ) (hps : List ℕ) (m : Heap) (th : Thread)
    (current : (a : ℕ) → Current p (m.words a)) where
  -- The swap of `__mark` has succeeded.
  swapped :
      (pc : Pc) (cur nxt old c : ℕ)
      → ((x : ℕ) → Work th.markstack pc x → (x ≡ cur) ⊎ InStack th.markstack c x)
      → m.words (mark_word cur) ≡ old
      → cur % 32 ≡ 0
      → Slots th.markstack c
      → Stale hps m cur nxt
      → Written th.markstack c nxt
      → Progress p hps m th.markstack pc (set_mark m cur old) th.markstack (won nxt c)
  swapped pc cur nxt old c work now al s (an, stale) w = record {
    same_links = unfold set_mark in refl;
    current = λ a. set_mark-Current m cur old now p a current;
    keeps = set_mark-keeps m cur old now;
    fresh = λ n an e. elim (set_mark-fresh m cur old now n an al e) [
      | inl before ↦ inl before
      | inr here ↦ inr (
          rw here (elim stale [
            | inl same ↦ rw same (elim (won-child p hps m th.markstack cur nxt c w) [
              | inl z ↦ inl (inl z)
              | inr v ↦ inr v
            ])
            | inr root ↦ inl root
          ]))
    ];
    kept = λ x v. elim (work x v) [
      | inl e ↦ inr (rw e (set_mark-Marked m cur old now))
      | inr v' ↦ inl (won-Work p hps m th.markstack cur nxt c x v')
    ];
    ok = won-Ok p hps m th.markstack cur nxt c s an w;
  }

  -- `__mark` has found the node marked.
  beaten :
      (pc : Pc) (cur nxt c : ℕ)
      → ((x : ℕ) → Work th.markstack pc x → (x ≡ cur) ⊎ InStack th.markstack c x)
      → Marked m cur
      → Slots th.markstack c
      → Progress p hps m th.markstack pc m th.markstack (lost nxt c)
  beaten pc cur nxt c work marked s =
      quiet p hps m th.markstack pc th.markstack (lost nxt c) current
        (λ x v. elim (work x v) [
          | inl e ↦ inr (rw e marked)
          | inr v' ↦ inl (lost-Work p hps m th.markstack cur nxt c x v')
        ])
        (lost-Ok p hps m th.markstack cur nxt c s)

  pub step_at-Progress :
      (pc : Pc)
      → Ok p hps m th.markstack pc
      → ((n : ℕ) → child m n % 32 ≡ 0)
      → Result p hps m th.markstack pc (step_at p m th pc)
  unfolding step_at
  step_at-Progress idle ok al = quiet p hps m _ idle _ idle current (λ x v. elim v [ ]) tt
  step_at-Progress (pop zero) ok al =
      quiet p hps m _ (pop zero) _ _ current (λ x (j, lo, le, e). absurd (omega arith)) tt
  step_at-Progress (pop (suc c)) ok al =
      quiet p hps m _ (pop (suc c)) _ _ current
        (λ x (j, lo, le, e). inl (elim (ℕ_discrete j (suc c)) [
          | yes q ↦ inl (sym e ∙ ap th.markstack q)
          | no q ↦ inr (j, lo, omega arith, e)
        ]))
        (ok (suc c) (omega arith) (omega arith), λ j lo le. ok j lo (omega arith))
  step_at-Progress (read_word cur c) (ac, s) al = elim (Bool-cases (is_marked m cur)) [
    | inl e ↦ rw e (
        quiet p hps m _ (read_word cur c) _ (pop c) current
          (λ x v. elim v [ inl q ↦ inr (rw q e) | inr w ↦ inl w ]) s)
    | inr e ↦ rw e (
        quiet p hps m _ (read_word cur c) _ (publish cur (m.words (mark_word cur)) c) current
          (λ x v. inl v) (ac, s, current (mark_word cur)))
  ]
  step_at-Progress (publish cur old c) (ac, s, now) al =
      quiet p hps m _ (publish cur old c) _ (read_child cur old c) current
        (λ x v. elim v [
          | inl q ↦ inl (inl q)
          | inr w ↦ inl (inr (InStack-bottom th.markstack c cur x w))
        ])
        (ac, Slots-bottom th.markstack c cur s, now)
  step_at-Progress (read_child cur old c) (ac, s, now) al = elim (Bool-cases (child m cur == 0)) [
    | inl e ↦ rw e (
        quiet p hps m _ (read_child cur old c) _ (mark_first cur 0 old c) current (λ x v. inl v)
          (ac, s, now, (refl, inl ((==_iff _ _).0 e)), λ ne. absurd (ne refl)))
    | inr e ↦ rw e (
        quiet p hps m _ (read_child cur old c) _ (write_child cur (child m cur) old c) current
          (λ x v. inl v) (ac, s, now, (al cur, inl refl)))
  ]
  step_at-Progress (write_child cur nxt old c) (ac, s, now, stale) al =
      quiet p hps m _ (write_child cur nxt old c) _ (mark_first cur nxt old c) current
        (λ x v. elim v [
          | inl q ↦ inl (inl q)
          | inr w ↦ inl (inr (InStack-below th.markstack c nxt x w))
        ])
        (
          ac,
          Slots-below th.markstack c nxt s,
          now,
          stale,
          λ ne. rw (test_eq (suc c) (suc c) refl) refl,
        )
  step_at-Progress (mark_first cur nxt old c) (ac, s, now, stale, w) al =
      elim (Bool-cases (m.words (mark_word cur) == old)) [
        | inl e ↦
            rw (now, e)
              (swapped (mark_first cur nxt old c) cur nxt old c (λ x v. v) ((==_iff _ _).0 e) ac s
                stale w)
        | inr e ↦
            rw (now, e)
              (quiet p hps m _ (mark_first cur nxt old c) _ (mark_read cur nxt c) current
                (λ x v. inl v) (ac, s, stale, w))
      ]
  step_at-Progress (mark_read cur nxt c) (ac, s, stale, w) al =
      elim (Bool-cases (is_marked m cur)) [
        | inl e ↦ rw e (beaten (mark_read cur nxt c) cur nxt c (λ x v. v) e s)
        | inr e ↦
            rw (e, current (mark_word cur))
              (quiet p hps m _ (mark_read cur nxt c) _
                (mark_swap cur nxt (m.words (mark_word cur)) c) current (λ x v. inl v)
                (ac, s, current (mark_word cur), stale, w))
      ]
  step_at-Progress (mark_swap cur nxt old c) (ac, s, now, stale, w) al =
      elim (Bool-cases (m.words (mark_word cur) == old)) [
        | inl e ↦ rw e (
            swapped (mark_swap cur nxt old c) cur nxt old c (λ x v. v) ((==_iff _ _).0 e) ac s stale
              w)
        | inr e ↦ rw e (
            quiet p hps m _ (mark_swap cur nxt old c) _ (mark_read cur nxt c) current (λ x v. inl v)
              (ac, s, stale, w))
      ]
  step_at-Progress (undo c) s al =
      quiet p hps m _ (undo c) _ (pop c) current (λ x v. inl (InStack-below th.markstack c 0 x v))
        (Slots-below th.markstack c 0 s)
  step_at-Progress finish ok al = quiet p hps m _ finish _ done current (λ x v. elim v [ ]) tt
  step_at-Progress done ok al = quiet p hps m _ done _ done current (λ x v. elim v [ ]) tt
