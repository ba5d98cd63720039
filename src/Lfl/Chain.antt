-- ===== src/Lfl/Chain.antt =====
-- Chains of links: the nodes met from a link on, marked ones included, and what the three kinds of
-- write do to them.
use native.Mathlib.Decide.{ℕ_discrete}
use automatic_optimistic_acc.Base.{
  In, ℕ, ◌+◌, ◌-◌, ◌%◌, ◌≡◌, ◌<◌, ◌≢◌, ◌⊎◌, inl, inr, ◌∙◌, refl, sym, ap, subst, List, [], ◌∷◌,
  arith,
}
use automatic_optimistic_acc.Lfl.{update}

-- The link without its mark.
abbrev pub target : (ℕ → ℕ) → ℕ → ℕ
target link a = link a - link a % 2

abbrev pub Chain : (ℕ → ℕ) → ℕ → List ℕ → Type 0
Chain link a [] = target link a ≡ 0
Chain link a (x ∷ xs) = (target link a ≡ x) × (x ≢ 0) × Chain link x xs

-- A chain depends only on the targets at its own links.
pub Chain-frame :
    (link other : ℕ → ℕ) (a : ℕ) (xs : List ℕ)
    → Chain link a xs
    → target other a ≡ target link a
    → ((n : ℕ) → In n xs → target other n ≡ target link n)
    → Chain other a xs
Chain-frame link other a [] c here same = here ∙ c
Chain-frame link other a (x ∷ xs) (e, nz, c) here same =
    (here ∙ e, nz, Chain-frame link other x xs c (same x (inl refl)) (λ n i. same n (inr i)))

-- Two links with the same target have the same chain behind them.
pub Chain-of_target :
    (link : ℕ → ℕ) (a b : ℕ) (xs : List ℕ)
    → target link b ≡ target link a
    → Chain link a xs
    → Chain link b xs
Chain-of_target link a b [] e c = e ∙ c
Chain-of_target link a b (x ∷ xs) e (h, nz, c) = (e ∙ h, nz, c)

pub not_zero : (link : ℕ → ℕ) (a : ℕ) (xs : List ℕ) → Chain link a xs → ¬ In 0 xs
not_zero link a [] c i = elim i [ ]
not_zero link a (x ∷ xs) (e, nz, c) (inl z) = nz (sym z)
not_zero link a (x ∷ xs) (e, nz, c) (inr i) = not_zero link x xs c i

-- From the link `p` on, or somewhere behind `a`.
abbrev pub At : (p a : ℕ) → List ℕ → Type 0
At p a xs = (a ≡ p) ⊎ In p xs

pub At-next : {p a x : ℕ} (r : List ℕ) → a ≢ p → At p a (x ∷ r) → At p x r
At-next r ne (inl e) = absurd (ne e)
At-next r ne (inr (inl e)) = inl (sym e)
At-next r ne (inr (inr i)) = inr i

-- Links that are in use point to links in use, with a greater key.
module _ (link key : ℕ → ℕ) (Used : ℕ → Type 0)
    (closed : (a : ℕ) → Used a → target link a ≢ 0 → Used (target link a))
    (sorted : (a : ℕ) → Used a → a ≢ 0 → target link a ≢ 0 → key a < key (target link a)) where
  pub next-Used : (a x : ℕ) → Used a → target link a ≡ x → x ≢ 0 → Used x
  next-Used a x u e nz = subst Used e (closed a u (λ z. nz (sym e ∙ z)))

  pub in-Used : (a n : ℕ) (xs : List ℕ) → Used a → Chain link a xs → In n xs → Used n
  in-Used a n [] u c i = elim i [ ]
  in-Used a n (x ∷ xs) u (e, xnz, c) (inl q) = subst Used (sym q) (next-Used a x u e xnz)
  in-Used a n (x ∷ xs) u (e, xnz, c) (inr r) = in-Used x n xs (next-Used a x u e xnz) c r

  pub above : (a n : ℕ) (xs : List ℕ) → Used a → a ≢ 0 → Chain link a xs → In n xs → key a < key n
  above a n [] u nz c i = elim i [ ]
  above a n (x ∷ xs) u nz (e, xnz, c) i =
      let first : key a < key x =
        subst (λ y. key a < key y) e (sorted a u nz (λ z. xnz (sym e ∙ z))) in
      elim i [
        | inl q ↦ subst (λ y. key a < key y) (sym q) first
        | inr r ↦ omega (arith, first, above x n xs (next-Used a x u e xnz) xnz c r)
      ]

  -- A chain does not come back to its start.
  pub not-back : (a : ℕ) (xs : List ℕ) → Used a → Chain link a xs → ¬ In a xs
  not-back a xs u c i = elim (ℕ_discrete a 0) [
    | yes z ↦ not_zero link a xs c (subst (λ y. In y xs) z i)
    | no nz ↦ omega (arith, above a a xs u nz c i)
  ]

  not-back_eq : (a p n : ℕ) (xs : List ℕ) → Used a → Chain link a xs → a ≡ p → In n xs → n ≢ p
  not-back_eq a p n xs u c e i q = not-back a xs u c (subst (λ y. In y xs) (q ∙ sym e) i)

  module _ (p new : ℕ) where
    abbrev Inserted : (a : ℕ) → List ℕ → Type 0
    Inserted a xs =
        (ys : List ℕ) × Chain (update link p new) a ys × ((n : ℕ) → In n xs → In n ys) × In new ys

    module _ (nz : new ≢ 0) (even : new % 2 ≡ 0) (ne : new ≢ p)
        (joined : target link new ≡ target link p) where
      insert-here : (a : ℕ) (xs : List ℕ) → Used a → Chain link a xs → a ≡ p → Inserted a xs
      insert-here a xs u c e = (
        new ∷ xs,
        (
          ground arith,
          nz,
          Chain-frame link (update link p new) new xs
              (Chain-of_target link a new xs (joined ∙ ap (target link) (sym e)) c) (ground arith)
              (λ n i. ground (arith, not-back_eq a p n xs u c e i)),
        ),
        (λ n i. inr i),
        inl refl,
      )

      -- A new node between `p` and its target joins the chain, and nobody leaves it.
      pub insert-Chain :
          (a : ℕ) (xs : List ℕ) → Used a → Chain link a xs → At p a xs → Inserted a xs
      insert-Chain a [] u c at = insert-here a [] u c (elim at [ inl e ↦ e | inr i ↦ elim i [ ] ])
      insert-Chain a (x ∷ r) u (e, xnz, c) at = elim (ℕ_discrete a p) [
        | yes q ↦ insert-here a (x ∷ r) u (e, xnz, c) q
        | no other ↦
            let (ys, c', keep, has) =
              insert-Chain x r (next-Used a x u e xnz) c (At-next r other at) in
            (
              x ∷ ys,
              (ground arith, xnz, c'),
              (λ n i. elim i [ inl s ↦ inl s | inr j ↦ inr (keep n j) ]),
              inr has,
            )
      ]

  module _ (p c : ℕ) where
    abbrev Snipped : (a : ℕ) → List ℕ → Type 0
    Snipped a xs =
        (ys : List ℕ) × Chain (update link p (target link c)) a ys
        × ((n : ℕ) → In n xs → n ≢ c → In n ys)

    module _ (nz : c ≢ 0) (points : target link p ≡ c) where
      snip-here : (a : ℕ) (xs : List ℕ) → Used a → Chain link a xs → a ≡ p → Snipped a xs
      snip-here a [] u h e = absurd (nz (sym points ∙ ap (target link) (sym e) ∙ h))
      snip-here a (x ∷ r) u (at, xnz, h) e =
          let xc : x ≡ c = sym at ∙ ap (target link) e ∙ points in
          let away : (n : ℕ) → In n (x ∷ r) → n ≢ p =
            λ n i. not-back_eq a p n (x ∷ r) u (at, xnz, h) e i in
          (
            r,
            Chain-of_target (update link p (target link c)) x a r
                (ground (arith, away x (inl refl)))
                (Chain-frame link (update link p (target link c)) x r h
                  (ground (arith, away x (inl refl))) (λ n i. ground (arith, away n (inr i)))),
            (λ n i nc. elim i [ inl s ↦ absurd (nc (s ∙ xc)) | inr j ↦ j ]),
          )

      -- When `p` is led past its target `c`, only `c` leaves the chain.
      pub snip-Chain : (a : ℕ) (xs : List ℕ) → Used a → Chain link a xs → At p a xs → Snipped a xs
      snip-Chain a [] u h at = snip-here a [] u h (elim at [ inl e ↦ e | inr i ↦ elim i [ ] ])
      snip-Chain a (x ∷ r) u (e, xnz, h) at = elim (ℕ_discrete a p) [
        | yes q ↦ snip-here a (x ∷ r) u (e, xnz, h) q
        | no other ↦
            let (ys, h', keep) = snip-Chain x r (next-Used a x u e xnz) h (At-next r other at) in
            (
              x ∷ ys,
              (ground arith, xnz, h'),
              (λ n i nc. elim i [ inl s ↦ inl s | inr j ↦ inr (keep n j nc) ]),
            )
      ]

-- A mark leaves every target as it is.
pub mark-Chain :
    (link : ℕ → ℕ) (c next a : ℕ) (xs : List ℕ)
    → link c ≡ next
    → Chain link a xs
    → Chain (update link c (next - next % 2 + 1)) a xs
mark-Chain link c next a xs e h =
    Chain-frame link (update link c (next - next % 2 + 1)) a xs h (same a) (λ n i. same n)
  where
    same : (n : ℕ) → target (update link c (next - next % 2 + 1)) n ≡ target link n
    same n = ground arith
