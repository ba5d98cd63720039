-- ===== src/Lfl/Order.antt =====
-- The order of keys along a chain: no key comes twice, and none lies between a link and its target.
use native.Mathlib.Decide.{ℕ_discrete}
use automatic_optimistic_acc.Base.{
  In, ℕ, ◌<◌, ◌≡◌, ◌≢◌, ◌⊎◌, inl, inr, ◌∙◌, sym, ap, subst, arith, List, [], ◌∷◌,
}
use automatic_optimistic_acc.Lfl.Chain.{target, Chain, At, At-next, above, next-Used, not_zero}

module _ (link key : ℕ → ℕ) (Used : ℕ → Type 0)
    (closed : (a : ℕ) → Used a → target link a ≢ 0 → Used (target link a))
    (sorted : (a : ℕ) → Used a → a ≢ 0 → target link a ≢ 0 → key a < key (target link a)) where
  below : (x n : ℕ) (xs : List ℕ) → Used x → x ≢ 0 → Chain link x xs → In n xs → key x < key n
  below x n xs = above link key Used closed sorted x n xs

  pub unique :
      (a n n' : ℕ) (xs : List ℕ)
      → Used a
      → Chain link a xs
      → In n xs
      → In n' xs
      → key n ≡ key n'
      → n ≡ n'
  unique a n n' [] u c i j e = elim i [ ]
  unique a n n' (x ∷ r) u (at, nz, c) i j e =
      let ux = next-Used link key Used closed sorted a x u at nz in
      elim i [
        | inl p ↦ elim j [
          | inl q ↦ p ∙ sym q
          | inr q ↦ absurd (omega (arith, below x n' r ux nz c q, ap key p))
        ]
        | inr p ↦ elim j [
          | inl q ↦ absurd (omega (arith, below x n r ux nz c p, ap key q))
          | inr q ↦ unique x n n' r ux c p q e
        ]
      ]

  -- A node on the chain lies up to `p`, or from the target of `p` on.
  pub gap :
      (p a n : ℕ) (xs : List ℕ)
      → Used a
      → Chain link a xs
      → At p a xs
      → In n xs
      → (n ≡ p)
        ⊎ ((p ≢ 0) × (key n < key p))
        ⊎ (n ≡ target link p)
        ⊎ ((target link p ≢ 0) × (key (target link p) < key n))
  gap p a n [] u c at i = elim i [ ]
  gap p a n (x ∷ r) u (e, nz, c) at i =
      let ux = next-Used link key Used closed sorted a x u e nz in
      elim (ℕ_discrete a p) [
        | yes same ↦
            let here : target link p ≡ x = ap (target link) (sym same) ∙ e in
            elim i [
              | inl q ↦ inr (inr (inl (q ∙ sym here)))
              | inr q ↦ inr (
                  inr (
                    inr (
                      (λ z. nz (sym here ∙ z)),
                      subst (λ y. key y < key n) (sym here) (below x n r ux nz c q),
                    )))
            ]
        | no other ↦ elim i [
          | inl q ↦ elim (At-next r other at) [
            | inl same ↦ inl (q ∙ same)
            | inr later ↦ inr (
                inl (
                  (λ z. not_zero link x r c (subst (λ y. In y r) z later)),
                  subst (λ y. key y < key p) (sym q) (below x p r ux nz c later),
                ))
          ]
          | inr q ↦ gap p x n r ux c (At-next r other at) q
        ]
      ]
