-- ===== src/Trace/Closed.antt =====
-- The tri-colour invariant holds in every reachable state, and when the work is done every node that
-- can be reached is marked.
use native.Mathlib.Decide.{ℕ_discrete}
use automatic_optimistic_acc.Base.{
  ℕ, ◌%◌, ◌≡◌, ◌≢◌, ◌⊎◌, inl, inr, refl, sym, ap, subst, List, ◌∷◌, arith, ◌==◌, Bool-cases,
  test_eq, test_ne, ==_iff,
}
use automatic_optimistic_acc.Lfl.{update}
use automatic_optimistic_acc.Trace.{
  Pc, idle, pop, read_word, publish, read_child, write_child, mark_first, mark_read, mark_swap,
  undo, finish, done, Thread, Heap, System, unmark, child, Root, Aligned, push_all, root_list, load,
  step, Step, enter, turn, mutate, help,
}
use automatic_optimistic_acc.Trace.Invariant.{Marked, Slots, Stale, Ok, Work, InWork, Covered, Inv}
use automatic_optimistic_acc.Trace.Local.{Progress, step_at-Progress}
use automatic_optimistic_acc.Trace.Stacks.{In-Aligned, push_all-Slots}

pub update_same : (f : ℕ → Thread) (i : ℕ) (th : Thread) → update f i th i ≡ th
update_same f i th = rw (test_eq i i refl) refl

pub update_ne : (f : ℕ → Thread) (i j : ℕ) (th : Thread) → j ≢ i → update f i th j ≡ f j
update_ne f i j th ne = rw (test_ne j i ne) refl

-- What is covered stays covered when thread `i` goes on to `th`.
pub Covered-update :
    (s : System) (m : Heap) (i : ℕ) (th : Thread)
    → ((n : ℕ) → Marked s.heap n → Marked m n)
    → ((x : ℕ) → InWork (s.threads i) x → InWork th x ⊎ Marked m x)
    → (x : ℕ) → Covered s x
    → Covered (record { heap = m; threads = update s.threads i th }) x
Covered-update s m i th keeps kept x (inl z) = inl z
Covered-update s m i th keeps kept x (inr (inl e)) = inr (inl (keeps x e))
Covered-update s m i th keeps kept x (inr (inr (j, w))) = elim (ℕ_discrete j i) [
  | yes q ↦ elim (kept x (subst (λ k. InWork (s.threads k) x) q w)) [
    | inl w' ↦ inr (inr (i, subst (λ t. InWork t x) (sym (update_same s.threads i th)) w'))
    | inr e ↦ inr (inl e)
  ]
  | no ne ↦ inr (inr (j, subst (λ t. InWork t x) (sym (update_ne s.threads i j th ne)) w))
]

-- Work of thread `i` is covered after it has gone on.
pub Work-Covered :
    (s : System) (m : Heap) (i : ℕ) (th : Thread) (x : ℕ)
    → InWork th x
    → Covered (record { heap = m; threads = update s.threads i th }) x
Work-Covered s m i th x w =
    inr (inr (i, subst (λ t. InWork t x) (sym (update_same s.threads i th)) w))

abbrev OkAt : (p : ℕ) → List ℕ → Heap → Thread → Type 0
OkAt p hps m th = Ok p hps m th.markstack th.pc

-- The locals of a thread depend on memory through the links alone.
Ok-links :
    (p : ℕ) (hps : List ℕ) (m m' : Heap) (st : ℕ → ℕ) (pc : Pc)
    → ((cur nxt : ℕ) → Stale hps m cur nxt → Stale hps m' cur nxt)
    → Ok p hps m st pc
    → Ok p hps m' st pc
Ok-links p hps m m' st idle f ok = tt
Ok-links p hps m m' st (pop c) f ok = ok
Ok-links p hps m m' st (read_word cur c) f ok = ok
Ok-links p hps m m' st (publish cur old c) f ok = ok
Ok-links p hps m m' st (read_child cur old c) f ok = ok
Ok-links p hps m m' st (write_child cur nxt old c) f (a, s, o, l) = (a, s, o, f cur nxt l)
Ok-links p hps m m' st (mark_first cur nxt old c) f (a, s, o, l, w) = (a, s, o, f cur nxt l, w)
Ok-links p hps m m' st (mark_read cur nxt c) f (a, s, l, w) = (a, s, f cur nxt l, w)
Ok-links p hps m m' st (mark_swap cur nxt old c) f (a, s, o, l, w) = (a, s, o, f cur nxt l, w)
Ok-links p hps m m' st (undo c) f ok = ok
Ok-links p hps m m' st finish f ok = tt
Ok-links p hps m m' st done f ok = tt

Ok-update :
    (p : ℕ) (hps : List ℕ) (s : System) (m : Heap) (i : ℕ) (th : Thread)
    → ((cur nxt : ℕ) → Stale hps s.heap cur nxt → Stale hps m cur nxt)
    → ((j : ℕ) → OkAt p hps s.heap (s.threads j))
    → OkAt p hps m th
    → (j : ℕ) → OkAt p hps m (update s.threads i th j)
Ok-update p hps s m i th f all here j = elim (ℕ_discrete j i) [
  | yes q ↦ subst (OkAt p hps m) (sym (rw q (update_same s.threads i th))) here
  | no ne ↦
      subst (OkAt p hps m) (sym (update_ne s.threads i j th ne))
        (Ok-links p hps s.heap m (s.threads j).markstack (s.threads j).pc f (all j))
]

module _ (p : ℕ) (hps : List ℕ) (s : System) (inv : Inv p hps s) where
  -- A thread goes on, and memory keeps its links.
  next :
      (i : ℕ) (m : Heap) (th : Thread)
      → Progress p hps s.heap (s.threads i).markstack (s.threads i).pc m th.markstack th.pc
      → Inv p hps (record { heap = m; threads = update s.threads i th })
  next i m th pr =
      let covered = Covered-update s m i th pr.keeps pr.kept in
      let same : (n : ℕ) → child m n ≡ child s.heap n = λ n. ap (λ l. unmark (l n)) pr.same_links in
      record {
        current = pr.current;
        aligned = λ n. rw (same n) (inv.aligned n);
        protected = inv.protected;
        ok =
            Ok-update p hps s m i th (λ cur nxt (al, l). (al, rw (same cur) l)) inv.ok
              (Ok-links p hps s.heap m th.markstack th.pc (λ cur nxt (al, l). (al, rw (same cur) l))
                pr.ok);
        roots = λ h e. covered h (inv.roots h e);
        closed = λ n al e. rw (same n) (elim e [
          | inl z ↦ covered (child s.heap n) (inv.closed n al (inl z))
          | inr e' ↦ elim (pr.fresh n al e') [
            | inl before ↦ covered (child s.heap n) (inv.closed n al (inr before))
            | inr (inl (inl z)) ↦ inl z
            | inr (inl (inr h)) ↦ covered (child s.heap n) (inv.roots (child s.heap n) h)
            | inr (inr w) ↦ Work-Covered s m i th (child s.heap n) w
          ]
        ]);
      }

  turn-Inv :
      (i : ℕ)
      → Inv p hps (record {
        heap = (step p s.heap (s.threads i)).0;
        threads = update s.threads i (step p s.heap (s.threads i)).1;
      })
  unfolding step
  turn-Inv i =
      let th = s.threads i in
      next i _ _ (step_at-Progress p hps s.heap th inv.current th.pc (inv.ok i) inv.aligned)

  -- A resting thread takes up work.
  resume :
      (i : ℕ) (th : Thread)
      → ((x : ℕ) → ¬ InWork (s.threads i) x)
      → OkAt p hps s.heap th
      → Inv p hps (record s { threads = update s.threads i th })
  resume i th rests ok = next i s.heap th (record {
    same_links = refl;
    current = inv.current;
    keeps = λ n e. e;
    fresh = λ n al e. inl e;
    kept = λ x w. absurd (rests x w);
    ok = ok;
  })

  module _ (a v : ℕ) (h : Root hps (unmark v) ⊎ (unmark v ≡ child s.heap a)) where
    abbrev mutated : Heap
    mutated = record s.heap { link = update s.heap.link a v }

    -- What holds of the written pointer and of the old child holds of the new child.
    at-link :
        (P : ℕ → Type 0) (n : ℕ) → (n ≡ a → P (unmark v)) → P (child s.heap n) → P (child mutated n)
    at-link P n new old = elim (Bool-cases (n == a)) [
      | inl e ↦ rw e (new ((==_iff _ _).0 e))
      | inr e ↦ rw e old
    ]

    stale : (cur nxt : ℕ) → Stale hps s.heap cur nxt → Stale hps mutated cur nxt
    stale cur nxt (al, l) = (
      al,
      at-link (λ x. (x ≡ nxt) ⊎ Root hps x) cur
          (λ q. elim h [
            | inl root ↦ inr root
            | inr e ↦ rw e (subst (λ b. (child s.heap b ≡ nxt) ⊎ Root hps (child s.heap b)) q l)
          ])
          l,
    )

    Root-aligned : (x : ℕ) → Root hps x → x % 32 ≡ 0
    Root-aligned x (inl z) = rw z refl
    Root-aligned x (inr e) = In-Aligned x hps inv.protected e

    Root-Covered : (x : ℕ) → Root hps x → Covered s x
    Root-Covered x (inl z) = inl z
    Root-Covered x (inr e) = inv.roots x e

    mutate-Inv : Inv p hps (record s { heap = mutated })
    mutate-Inv = record {
      current = inv.current;
      aligned = λ n.
          at-link (λ x. x % 32 ≡ 0) n
            (λ q. elim h [ inl root ↦ Root-aligned (unmark v) root | inr e ↦ rw e (inv.aligned a) ])
            (inv.aligned n);
      protected = inv.protected;
      ok = λ j.
          Ok-links p hps s.heap mutated (s.threads j).markstack (s.threads j).pc stale (inv.ok j);
      roots = inv.roots;
      closed = λ n al e.
          at-link (Covered s) n
            (λ q. elim h [
              | inl root ↦ Root-Covered (unmark v) root
              | inr e' ↦ rw e' (subst (λ b. Covered s (child s.heap b)) q (inv.closed n al e))
            ])
            (inv.closed n al e);
    }

-- A resting thread has nothing to do.
rests : (st : ℕ → ℕ) (pc : Pc) → (pc ≡ idle) ⊎ (pc ≡ done) → (x : ℕ) → ¬ Work st pc x
rests st pc (inl e) x w = elim (rw e at w) [ ]
rests st pc (inr e) x w = elim (rw e at w) [ ]

pub load-Slots :
    (m : Heap) (hps : List ℕ) (th : Thread)
    → child m 0 % 32 ≡ 0
    → Aligned hps
    → Slots
        (push_all th.markstack 0 (root_list m hps)).0
        (push_all th.markstack 0 (root_list m hps)).1
unfolding root_list
load-Slots m hps th al prot = elim (Bool-cases (child m 0 == 0)) [
  | inl e ↦ rw e (push_all-Slots th.markstack 0 hps prot (λ j lo le. absurd (omega arith)))
  | inr e ↦
      rw e (
        push_all-Slots th.markstack 0 (child m 0 ∷ hps) (al, prot)
          (λ j lo le. absurd (omega arith)))
]

pub Step-Inv : (p : ℕ) (hps : List ℕ) (s t : System) → Step p hps s t → Inv p hps s → Inv p hps t
unfolding load
Step-Inv p hps s _ (enter i e) inv =
    resume p hps s inv i _ (rests _ _ (inl e))
      (load-Slots s.heap hps (s.threads i) (inv.aligned 0) inv.protected)
Step-Inv p hps s _ (turn i) inv = turn-Inv p hps s inv i
Step-Inv p hps s _ (mutate a v h) inv = mutate-Inv p hps s inv a v h
Step-Inv p hps s _ (help i ptrs e al) inv =
    resume p hps s inv i _ (rests _ _ (inr e))
      (push_all-Slots (s.threads i).markstack 0 ptrs al (λ j lo le. absurd (omega arith)))
