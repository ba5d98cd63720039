-- ===== src/Rc/Safety.antt =====
-- The invariant of Rc.System over the steps of lfl-RC.c and refcount.c, with `safeRead` as one step.
use native.Mathlib.Decide.{ℕ_discrete, dec_lt}
use automatic_optimistic_acc.Base.{
  ℕ, zero, suc, ◌-◌, ◌%◌, ◌<◌, ◌≡◌, ◌≢◌, inl, inr, refl, sym, ap, ◌∙◌, Bool, [], ◌∷◌, arith, In,
  test_eq, test_ne, subst, Distinct,
}
use automatic_optimistic_acc.Lfl.{Task, update}
use automatic_optimistic_acc.Rc.{Pc, ready, done, hit, start}
use automatic_optimistic_acc.Rc.Balance.{refs, held}
use automatic_optimistic_acc.Rc.System.{
  System, Resting, collected, call, turn, collect, Start, Reach, begins, later,
}
use automatic_optimistic_acc.Rc.Links.{
  linked_refs, linked_refs-In, linked_refs-remove, total, total-update, total-one, remove-In,
  In-remove, remove-Distinct,
}
use automatic_optimistic_acc.Rc.Safe.{Alive, secured}
use automatic_optimistic_acc.Rc.Stable.{Undisturbed, Locals-stable, secured-held, AllAlive-remove}
use automatic_optimistic_acc.Rc.Turn.{Inv, update_ne, turn-Inv}

module _ (k : ℕ) (s : System) (inv : Inv k s) (p : ℕ) (nz : p ≢ 0) (live_p : In p s.live)
    (zero_p : s.count p ≡ 0) where
  abbrev Rest : System
  Rest = collected p s

  -- Nobody refers to a node whose count is zero.
  unreferenced : (total p s.threads k ≡ 0) × (linked_refs p s.memory.link s.live ≡ 0)
  unreferenced = let exact = inv.exact p nz in (omega arith, omega arith)

  unheld : (i : ℕ) → refs p (held (s.threads i)) ≡ 0
  unheld i = elim (dec_lt i k) [
    | yes li ↦
        let one = total-one p s.threads i k li in let none_held = unreferenced.0 in omega arith
    | no above ↦ rw (inv.resting i (omega arith)) refl
  ]

  Alive-rest :
      (a : ℕ) → In a s.live → Alive s.live (s.memory.link a) → Alive Rest.live (s.memory.link a)
  Alive-rest a i (inl z) = inl z
  Alive-rest a i (inr l) =
      let one = linked_refs-In p s.memory.link a s.live i in
      let none_linked = unreferenced.1 in
      let away : s.memory.link a - s.memory.link a % 2 ≢ p =
        λ e. absurd (ground (arith, e, one, none_linked)) in
      inr (remove-In p (s.memory.link a - s.memory.link a % 2) s.live away l)

  collect-Undisturbed :
      (i : ℕ)
      → Undisturbed s.memory.link s.live s.count
          (held (s.threads i))
          Rest.memory.link
          Rest.live
          Rest.count
  collect-Undisturbed i = record {
    marked = λ a live odd. refl;
    own = λ new mine own.
        let exact = inv.exact new own.1 in
        let li : i < k = elim (dec_lt i k) [
          | yes l ↦ l
          | no above ↦
              let none_held = ap (λ pc. refs new (held pc)) (inv.resting i (omega arith)) in
              absurd (omega arith)
        ] in
        let one = total-one new s.threads i k li in
        let link_p = linked_refs-In new s.memory.link p s.live live_p in
        (omega (arith, own.2), refl, λ r. In-remove p new s.live r);
  }

  collect-Inv : Inv k Rest
  collect-Inv = record {
    linked = record {
      targets = λ a r. let i = In-remove p a s.live r in Alive-rest a i (inv.linked.targets a i);
      head = inv.linked.head;
      distinct = remove-Distinct p s.live inv.linked.distinct;
      root = remove-In p 0 s.live (λ e. nz (sym e)) inv.linked.root;
    };
    exact = λ n ne.
        let exact = inv.exact n ne in
        let links = linked_refs-remove n s.memory.link p s.live live_p in omega arith;
    safe = λ i. (
      AllAlive-remove p s.live (secured (s.threads i)) nz
          (let part = secured-held p nz (s.threads i) in let none_held = unheld i in omega arith)
          (inv.safe i).0,
      Locals-stable s.memory.link s.live s.count Rest.memory.link Rest.live Rest.count (s.threads i)
          inv.linked.root (collect-Undisturbed i) (inv.safe i),
    );
    resting = inv.resting;
  }

Resting-held : (pc : Pc) → Resting pc → held pc ≡ []
Resting-held ready r = refl
Resting-held (done t b) r = refl
Resting-held (hit k d) r = refl
Resting-held _ r = elim r [ ]

call-Inv :
    (k : ℕ) (s : System) (i : ℕ) (t : Task)
    → Inv k s
    → i < k
    → Resting (s.threads i)
    → Inv k (record s { threads = update s.threads i (start t) })
call-Inv k s i t inv li idle = record {
  linked = inv.linked;
  exact = λ n ne.
      let exact = inv.exact n ne in
      let moved = total-update n s.threads i (start t) k li in
      let none_held = ap (refs n) (Resting-held (s.threads i) idle) in omega arith;
  safe = λ j. elim (ℕ_discrete j i) [
    | yes e ↦ rw (test_eq j i e) (tt, tt)
    | no ne ↦ rw (test_ne j i ne) (inv.safe j)
  ];
  resting =
      λ j le. update_ne s.threads i j (start t) (λ e. absurd (omega arith)) ∙ inv.resting j le;
}

total-resting : (s : System) (n k : ℕ) → Start s → total n s.threads k ≡ 0
unfolding total
total-resting s n zero st = refl
total-resting s n (suc k) st =
    let rest = total-resting s n k st in
    let none_held = ap (λ pc. refs n (held pc)) (st.resting k) in omega arith

start-Inv : (k : ℕ) (s : System) → Start s → Inv k s
unfolding linked_refs
start-Inv k s st = record {
  linked = record {
    targets = λ a i. elim (subst (In a) st.head i) [
      | inl e ↦ let null = ap s.memory.link e ∙ st.empty in inl (omega arith)
      | inr none_else ↦ elim none_else [ ]
    ];
    head = let null = st.empty in omega arith;
    distinct = subst Distinct (sym st.head) (λ i. i, tt);
    root = subst (In 0) (sym st.head) (inl refl);
  };
  exact = λ n ne.
      let none_held = total-resting s n k st in
      let none_counted = st.none_counted n in
      let links = ap (linked_refs n s.memory.link) st.head in
      let null = ap (λ x. refs n (x ∷ [])) st.empty in
      let nothing : refs n (0 ∷ []) ≡ 0 = ground (arith, ne) in omega arith;
  safe = λ i. rw (st.resting i) (tt, tt);
  resting = λ i le. st.resting i;
}

-- The invariant holds in every reachable state of `k` threads.
pub Reach-Exact : (h : Bool) (k : ℕ) (s : System) → Reach h k s → Inv k s
Reach-Exact h k _ (begins s st) = start-Inv k s st
Reach-Exact h k _ (later {s} r (call i t li idle)) = call-Inv k s i t (Reach-Exact h k s r) li idle
Reach-Exact h k _ (later {s} r (turn i fresh li f)) =
    turn-Inv h k s (Reach-Exact h k s r) i fresh li f
Reach-Exact h k _ (later {s} r (collect p nz i z)) = collect-Inv k s (Reach-Exact h k s r) p nz i z
