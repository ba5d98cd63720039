-- ===== src/Rc/Links.antt =====
-- References counted over lists: the links of the live nodes, and what the threads hold.
use native.Mathlib.Decide.{ℕ_discrete}
use automatic_optimistic_acc.Base.{
  ℕ, zero, suc, ◌+◌, ◌≤◌, ◌<◌, ◌≡◌, ◌≢◌, inl, inr, refl, sym, ap, ◌∙◌, List, [], ◌∷◌, arith, In,
  test_eq, test_ne, subst, Distinct,
}
use automatic_optimistic_acc.Lfl.{update}
use automatic_optimistic_acc.Rc.{Pc}
use automatic_optimistic_acc.Rc.Balance.{refs, held}
use automatic_optimistic_acc.Rc.System.{remove}

-- The references to `n` in the links of `live`.
unfoldable pub linked_refs : ℕ → (link : ℕ → ℕ) → (live : List ℕ) → ℕ
linked_refs n link [] = 0
linked_refs n link (a ∷ live) = refs n (link a ∷ []) + linked_refs n link live

-- The references to `n` that the first `k` threads hold.
unfoldable pub total : ℕ → (threads : ℕ → Pc) → (k : ℕ) → ℕ
total n threads zero = 0
total n threads (suc k) = refs n (held (threads k)) + total n threads k

module _ (n : ℕ) where
  pub linked_refs-out :
      (link : ℕ → ℕ) (a v : ℕ) (live : List ℕ)
      → (In a live → ⊥)
      → linked_refs n (update link a v) live ≡ linked_refs n link live
  unfolding linked_refs
  linked_refs-out link a v [] out = refl
  linked_refs-out link a v (x ∷ live) out =
      let rest = linked_refs-out link a v live (λ i. out (inr i)) in
      let there : update link a v x ≡ link x = rw (test_ne x a (λ e. out (inl (sym e)))) refl in
      rw (there, rest) refl

  pub linked_refs-update :
      (link : ℕ → ℕ) (a v : ℕ) (live : List ℕ)
      → Distinct live
      → In a live
      → linked_refs n (update link a v) live + refs n (link a ∷ [])
        ≡ linked_refs n link live + refs n (v ∷ [])
  unfolding linked_refs
  linked_refs-update link a v [] d i = elim i [ ]
  linked_refs-update link a v (x ∷ live) (out, d) i = elim (ℕ_discrete x a) [
    | yes e ↦
        let rest = linked_refs-out link a v live (subst (λ y. In y live → ⊥) e out) in
        rw (e, test_eq a a refl, rest) (omega arith)
    | no ne ↦
        let i' : In a live = elim i [ inl e ↦ absurd (ne (sym e)) | inr k ↦ k ] in
        let rest = linked_refs-update link a v live d i' in rw (test_ne x a ne) (omega arith)
  ]

  pub linked_refs-remove :
      (link : ℕ → ℕ) (p : ℕ) (live : List ℕ)
      → In p live
      → linked_refs n link (remove p live) + refs n (link p ∷ []) ≡ linked_refs n link live
  unfolding linked_refs
  linked_refs-remove link p [] i = elim i [ ]
  linked_refs-remove link p (x ∷ live) i = elim (ℕ_discrete x p) [
    | yes e ↦ rw (e, test_eq p p refl) (omega arith)
    | no ne ↦
        let i' : In p live = elim i [ inl e ↦ absurd (ne (sym e)) | inr k ↦ k ] in
        let rest = linked_refs-remove link p live i' in rw (test_ne x p ne) (omega arith)
  ]

  pub linked_refs-In :
      (link : ℕ → ℕ) (a : ℕ) (live : List ℕ)
      → In a live
      → refs n (link a ∷ []) ≤ linked_refs n link live
  unfolding linked_refs
  linked_refs-In link a [] i = elim i [ ]
  linked_refs-In link a (x ∷ live) (inl e) = rw e (omega arith)
  linked_refs-In link a (x ∷ live) (inr i) = let rest = linked_refs-In link a live i in omega arith

  total-above :
      (th : ℕ → Pc) (i : ℕ) (pc : Pc) (k : ℕ) → k ≤ i → total n (update th i pc) k ≡ total n th k
  unfolding total
  total-above th i pc zero le = refl
  total-above th i pc (suc k) le =
      rw (test_ne k i (omega arith), total-above th i pc k (omega arith)) refl

  pub total-update :
      (th : ℕ → Pc) (i : ℕ) (pc : Pc) (k : ℕ)
      → i < k
      → total n (update th i pc) k + refs n (held (th i)) ≡ total n th k + refs n (held pc)
  unfolding total
  total-update th i pc zero lt = absurd (omega arith)
  total-update th i pc (suc k) lt = elim (ℕ_discrete k i) [
    | yes e ↦ rw (e, test_eq i i refl, total-above th i pc i (omega arith)) (omega arith)
    | no ne ↦ let rest = total-update th i pc k (omega arith) in rw (test_ne k i ne) (omega arith)
  ]

  pub total-one : (th : ℕ → Pc) (i k : ℕ) → i < k → refs n (held (th i)) ≤ total n th k
  unfolding total
  total-one th i zero lt = absurd (omega arith)
  total-one th i (suc k) lt = elim (ℕ_discrete k i) [
    | yes e ↦ rw e (omega arith)
    | no ne ↦ let rest = total-one th i k (omega arith) in omega arith
  ]

  pub total-two :
      (th : ℕ → Pc) (i j k : ℕ)
      → i ≢ j
      → i < k
      → j < k
      → refs n (held (th i)) + refs n (held (th j)) ≤ total n th k
  unfolding total
  total-two th i j zero ne li lj = absurd (omega arith)
  total-two th i j (suc k) ne li lj = elim (ℕ_discrete k i) [
    | yes e ↦
        let same = ap (λ x. refs n (held (th x))) e in
        let rest = total-one th j k (omega arith) in omega arith
    | no ni ↦ elim (ℕ_discrete k j) [
      | yes e ↦
          let same = ap (λ x. refs n (held (th x))) e in
          let rest = total-one th i k (omega arith) in omega arith
      | no nj ↦ let rest = total-two th i j k ne (omega arith) (omega arith) in omega arith
    ]
  ]

pub remove-In : (p x : ℕ) (xs : List ℕ) → x ≢ p → In x xs → In x (remove p xs)
remove-In p x [] ne i = i
remove-In p x (y ∷ xs) ne i = elim (ℕ_discrete y p) [
  | yes e ↦ rw (e, test_eq p p refl) (elim i [ inl q ↦ absurd (ne (q ∙ e)) | inr k ↦ k ])
  | no np ↦ rw (test_ne y p np) (elim i [ inl q ↦ inl q | inr k ↦ inr (remove-In p x xs ne k) ])
]

pub In-remove : (p x : ℕ) (xs : List ℕ) → In x (remove p xs) → In x xs
In-remove p x [] i = i
In-remove p x (y ∷ xs) i = elim (ℕ_discrete y p) [
  | yes e ↦ inr (rw (e, test_eq p p refl) at i)
  | no np ↦ elim (rw (test_ne y p np) at i) [ inl q ↦ inl q | inr k ↦ inr (In-remove p x xs k) ]
]

pub remove-Distinct : (p : ℕ) (xs : List ℕ) → Distinct xs → Distinct (remove p xs)
remove-Distinct p [] d = d
remove-Distinct p (y ∷ xs) (out, d) = elim (ℕ_discrete y p) [
  | yes e ↦ rw (e, test_eq p p refl) d
  | no np ↦ rw (test_ne y p np) (λ i. out (In-remove p y xs i), remove-Distinct p xs d)
]
