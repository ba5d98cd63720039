-- ===== src/Rc/Relinks.antt =====
-- What the writes of lfl-RC.c do to the live links and to the references in them.
use native.Mathlib.Decide.{ℕ_discrete}
use automatic_optimistic_acc.Base.{
  ℕ, ◌+◌, ◌≤◌, ◌≡◌, ◌≢◌, ◌⊎◌, inl, inr, refl, sym, ap, List, [], ◌∷◌, arith, In, test_eq, test_ne,
  subst, Distinct,
}
use automatic_optimistic_acc.Lfl.{update}
use automatic_optimistic_acc.Rc.{Ledger}
use automatic_optimistic_acc.Rc.Balance.{refs}
use automatic_optimistic_acc.Rc.Links.{linked_refs, linked_refs-update, linked_refs-out}
use automatic_optimistic_acc.Rc.Safe.{Even, Alive}

-- The links `f` of `live`, and what a step makes of them; `mine` is what the thread holds.
pub record Relinks (mine : List ℕ) (f : ℕ → ℕ) (live : List ℕ) (l : Ledger) (f' : ℕ → ℕ)
    (live' : List ℕ) : Type 0 where
  pub balance :
      (n : ℕ) → linked_refs n f' live' + refs n l.unlinked ≡ linked_refs n f live + refs n l.linked
  pub targets : (a : ℕ) → In a live' → Alive live' (f' a)
  pub head : Even (f' 0)
  pub distinct : Distinct live'
  pub more : (x : ℕ) → In x live → In x live'
  pub added : (x : ℕ) → In x live' → In x live ⊎ ((1 ≤ refs x mine) × (In x live → ⊥))
  pub changed :
      (a : ℕ) → (f' a ≡ f a) ⊎ (((a ≡ 0) ⊎ (1 ≤ refs a mine)) × (Even (f a) ⊎ (In a live → ⊥)))

-- The links as they have to be before a step.
pub record Linked (f : ℕ → ℕ) (live : List ℕ) : Type 0 where
  pub targets : (a : ℕ) → In a live → Alive live (f a)
  pub head : Even (f 0)
  pub distinct : Distinct live
  pub root : In 0 live

module _ (mine : List ℕ) (f : ℕ → ℕ) (live : List ℕ) (ok : Linked f live) where
  -- A step that writes no link.
  pub same-Relinks :
      (l : Ledger) → ((n : ℕ) → refs n l.unlinked ≡ refs n l.linked) → Relinks mine f live l f live
  same-Relinks l e = record {
    balance = λ n. ap (λ (x : ℕ). linked_refs n f live + x) (e n);
    targets = ok.targets;
    head = ok.head;
    distinct = ok.distinct;
    more = λ x i. i;
    added = λ x i. inl i;
    changed = λ a. inl refl;
  }

  -- A write to the live link `a`, which was not marked, of a pointer to a live node.
  pub swap-Relinks :
      (l : Ledger) (a v : ℕ)
      → In a live
      → (a ≡ 0) ⊎ (1 ≤ refs a mine)
      → Even (f a)
      → Alive live v
      → (a ≡ 0 → Even v)
      → ((n : ℕ) → refs n (f a ∷ []) + refs n l.linked ≡ refs n (v ∷ []) + refs n l.unlinked)
      → Relinks mine f live l (update f a v) live
  swap-Relinks l a v i held_a even alive head e = record {
    balance =
        λ n. let all = linked_refs-update n f a v live ok.distinct i in let es = e n in omega arith;
    targets = λ b k. elim (ℕ_discrete b a) [
      | yes q ↦ rw (q, test_eq a a refl) alive
      | no ne ↦ rw (test_ne b a ne) (ok.targets b k)
    ];
    head = elim (ℕ_discrete 0 a) [
      | yes q ↦ rw (test_eq 0 a q) (head (sym q))
      | no ne ↦ rw (test_ne 0 a ne) ok.head
    ];
    distinct = ok.distinct;
    more = λ x k. k;
    added = λ x k. inl k;
    changed = λ b. elim (ℕ_discrete b a) [
      | yes q ↦ inr (rw q (held_a, inl even))
      | no ne ↦ inl (rw (test_ne b a ne) refl)
    ];
  }

  -- The first write of the link of a node that is not live yet.
  pub born-Relinks :
      (l : Ledger) (a v : ℕ)
      → (In a live → ⊥)
      → a ≢ 0
      → 1 ≤ refs a mine
      → Alive live v
      → ((n : ℕ) → refs n l.linked ≡ refs n (v ∷ []) + refs n l.unlinked)
      → Relinks mine f live l (update f a v) (a ∷ live)
  unfolding linked_refs
  born-Relinks l a v out ne held_a alive e = record {
    balance = λ n.
        let all = linked_refs-out n f a v live out in
        let es = e n in rw (test_eq a a refl) (omega arith);
    targets = λ b k. elim (ℕ_discrete b a) [
      | yes q ↦
          let there : update f a v b ≡ v = rw (q, test_eq a a refl) refl in
          subst (Alive (a ∷ live)) (sym there) (grow v alive)
      | no away ↦
          let there : update f a v b ≡ f b = rw (test_ne b a away) refl in
          subst (Alive (a ∷ live)) (sym there)
            (grow (f b) (ok.targets b (elim k [ inl q ↦ absurd (away q) | inr j ↦ j ])))
    ];
    head = rw (test_ne 0 a (λ q. ne (sym q))) ok.head;
    distinct = (out, ok.distinct);
    more = λ x k. inr k;
    added = λ x k. elim k [ inl q ↦ inr (rw q (held_a, out)) | inr j ↦ inl j ];
    changed = λ b. elim (ℕ_discrete b a) [
      | yes q ↦ inr (rw q (inr held_a, inr out))
      | no away ↦ inl (rw (test_ne b a away) refl)
    ];
  }
    where
      grow : (w : ℕ) → Alive live w → Alive (a ∷ live) w
      grow w (inl z) = inl z
      grow w (inr i) = inr (inr i)
