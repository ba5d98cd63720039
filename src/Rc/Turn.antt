-- ===== src/Rc/Turn.antt =====
-- A step of one thread keeps the counts exact and all threads safe.
use native.Mathlib.Decide.{ℕ_discrete, dec_lt}
use automatic_optimistic_acc.Base.{
  ℕ, ◌+◌, ◌*◌, ◌≤◌, ◌<◌, ◌≡◌, ◌≢◌, inl, inr, refl, sym, ap, ◌∙◌, Bool, arith, test_eq, test_ne,
  subst,
}
use automatic_optimistic_acc.Lfl.{update}
use automatic_optimistic_acc.Rc.{Pc, ready, step}
use automatic_optimistic_acc.Rc.Balance.{refs, held, step-Balanced}
use automatic_optimistic_acc.Rc.System.{System, Fresh, turned}
use automatic_optimistic_acc.Rc.Links.{linked_refs, total, total-update, total-one, total-two}
use automatic_optimistic_acc.Rc.Safe.{AllAlive-mono, secured, Own, Safe}
use automatic_optimistic_acc.Rc.Relinks.{Relinks, Linked}
use automatic_optimistic_acc.Rc.Facts.{step-After}
use automatic_optimistic_acc.Rc.Stable.{Undisturbed, Locals-stable}
use automatic_optimistic_acc.Rc.Ledgers.{acquired-Source, released-held}

-- The references to `n` that there are.
abbrev pub owners : System → (k n : ℕ) → ℕ
owners s k n = total n s.threads k + linked_refs n s.memory.link s.live

pub record Inv (k : ℕ) (s : System) : Type 0 where
  pub linked : Linked s.memory.link s.live
  pub exact : (n : ℕ) → n ≢ 0 → s.count n ≡ 2 * owners s k n
  pub safe : (i : ℕ) → Safe s.memory.link s.live s.count (s.threads i)
  pub resting : (i : ℕ) → k ≤ i → s.threads i ≡ ready

update_same : (f : ℕ → Pc) (i : ℕ) (pc : Pc) → update f i pc i ≡ pc
update_same f i pc = rw (test_eq i i refl) refl

pub update_ne : (f : ℕ → Pc) (i j : ℕ) (pc : Pc) → j ≢ i → update f i pc j ≡ f j
update_ne f i j pc ne = rw (test_ne j i ne) refl

-- A node of its own that thread `j` holds is held by nobody else, and no live link leads to it.
Own-alone :
    (k : ℕ) (s : System) (i j new : ℕ)
    → Inv k s
    → i ≢ j
    → i < k
    → j < k
    → 1 ≤ refs new (held (s.threads j))
    → Own s.count new
    → (refs new (held (s.threads i)) ≡ 0) × (linked_refs new s.memory.link s.live ≡ 0)
Own-alone k s i j new inv ne li lj mine (ew, nz, two) =
    let exact = inv.exact new nz in
    let both = total-two new s.threads i j k ne li lj in (omega arith, omega arith)

module _ (h : Bool) (k : ℕ) (s : System) (inv : Inv k s) (i fresh : ℕ) (li : i < k)
    (fr : Fresh s.live s.count fresh (s.threads i)) where
  abbrev Mine : Pc
  Mine = s.threads i

  abbrev Next : System
  Next = turned h fresh i s

  after :
      Relinks
        (held Mine)
        s.memory.link
        s.live
        (step h i fresh s.memory Mine).1
        Next.memory.link
        Next.live
      × Safe Next.memory.link Next.live Next.count (step h i fresh s.memory Mine).2
  after = step-After h i fresh s.memory s.live s.count inv.linked Mine fr (inv.safe i)

  turn-exact : (n : ℕ) → n ≢ 0 → Next.count n ≡ 2 * owners Next k n
  turn-exact n ne =
      let balanced = step-Balanced n ne h i fresh s.memory Mine in
      let links = after.0.balance n in
      let given = released-held h i fresh s.memory s.live s.count inv.linked n ne Mine in
      let moved = total-update n s.threads i (step h i fresh s.memory Mine).2 k li in
      let one = total-one n s.threads i k li in let exact = inv.exact n ne in omega arith

  turn-Undisturbed :
      (j : ℕ)
      → j ≢ i
      → j < k
      → Undisturbed s.memory.link s.live s.count
          (held (s.threads j))
          Next.memory.link
          Next.live
          Next.count
  turn-Undisturbed j ne lj = record {
    marked = λ a live odd. elim (after.0.changed a) [
      | inl same ↦ same
      | inr (_, inl even) ↦ absurd (omega arith)
      | inr (_, inr out) ↦ absurd (out live)
    ];
    own = λ new mine own.
        let (alone, unlinked) = Own-alone k s i j new inv (λ e. ne (sym e)) li lj mine own in
        let given = released-held h i fresh s.memory s.live s.count inv.linked new own.1 Mine in
        let none_taken : refs new (step h i fresh s.memory Mine).1.acquired ≡ 0 =
          elim (ℕ_discrete (refs new (step h i fresh s.memory Mine).1.acquired) 0) [
            | yes e ↦ e
            | no some_taken ↦
                elim (acquired-Source h i fresh s.memory s.live s.count inv.linked new own.1 Mine fr
                  (inv.safe i) (omega arith)) [
                    | inl z ↦ absurd (omega (arith, own.2, z))
                    | inr l ↦ absurd (omega arith)
                  ]
          ] in
        (
          omega (arith, own.2),
          elim (after.0.changed new) [
            | inl same ↦ same
            | inr (inl z, _) ↦ absurd (own.1 z)
            | inr (inr some_held, _) ↦ absurd (omega arith)
          ],
          λ live'. elim (after.0.added new live') [
            | inl live ↦ live
            | inr (some_held, _) ↦ absurd (omega arith)
          ],
        );
  }

  turn-safe : (j : ℕ) → Safe Next.memory.link Next.live Next.count (Next.threads j)
  turn-safe j = elim (ℕ_discrete j i) [
    | yes e ↦
        subst (Safe Next.memory.link Next.live Next.count)
          (sym (ap Next.threads e ∙ update_same s.threads i (step h i fresh s.memory Mine).2))
          after.1
    | no ne ↦
        subst (Safe Next.memory.link Next.live Next.count)
          (sym (update_ne s.threads i j (step h i fresh s.memory Mine).2 ne))
          (elim (dec_lt j k) [
            | yes lj ↦ (
              AllAlive-mono s.live Next.live (secured (s.threads j)) after.0.more (inv.safe j).0,
              Locals-stable s.memory.link s.live s.count Next.memory.link Next.live Next.count
                  (s.threads j) inv.linked.root (turn-Undisturbed j ne lj) (inv.safe j),
            )
            | no above ↦ rw (inv.resting j (omega arith)) (tt, tt)
          ])
  ]

  pub turn-Inv : Inv k Next
  turn-Inv = record {
    linked = record {
      targets = after.0.targets;
      head = after.0.head;
      distinct = after.0.distinct;
      root = after.0.more 0 inv.linked.root;
    };
    exact = turn-exact;
    safe = turn-safe;
    resting = λ j le.
        update_ne s.threads i j (step h i fresh s.memory Mine).2 (λ e. absurd (omega arith))
        ∙ inv.resting j le;
  }
