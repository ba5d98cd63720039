-- ===== src/FastInit/Chains.antt =====
-- A chain of nodes in the order of their keys: where a search in it stops, and what an insertion makes of it.
use automatic_optimistic_acc.Base.{
  In, ℕ, zero, suc, ◌≤◌, ◌<◌, ◌≡◌, ◌≢◌, ◌⊎◌, inl, inr, refl, sym, ap, ◌∙◌, Bool, false, List, [],
  ◌∷◌, some, arith, ◌==◌, leb, if◌then◌else◌, Bool-cases, test_eq, test_ne, subst, length, Distinct,
}
use automatic_optimistic_acc.Lfl.{update}
use automatic_optimistic_acc.Entry.{get_key}
use automatic_optimistic_acc.FastInit.{find_fast}

-- From the link `a` on, the links lead through the nodes.
abbrev pub Chain : (link : ℕ → ℕ) (a : ℕ) → List ℕ → Type 0
Chain link a [] = link a ≡ 0
Chain link a (x ∷ xs) = (link a ≡ x) × (x ≢ 0) × Chain link x xs

-- The nodes' keys ascend, from above `low`.
abbrev pub Ascending : (key : ℕ → ℕ) → List ℕ → Type 0
Ascending key [] = Unit {0}
Ascending key (x ∷ xs) = ((y : ℕ) → In y xs → key x < key y) × Ascending key xs

module _ (key : ℕ → ℕ) (k : ℕ) where
  -- The last link before a key that is not smaller, the node after it, and whether it has the key.
  abbrev pub before : (a : ℕ) → List ℕ → ℕ
  before a [] = a
  before a (x ∷ xs) = if leb k (key x) then a else before x xs

  abbrev pub from : List ℕ → ℕ
  from [] = 0
  from (x ∷ xs) = if leb k (key x) then x else from xs

  abbrev pub found : List ℕ → Bool
  found [] = false
  found (x ∷ xs) = if leb k (key x) then key x == k else found xs

  abbrev pub inserted : (new : ℕ) → List ℕ → List ℕ
  inserted new [] = new ∷ []
  inserted new (x ∷ xs) = if leb k (key x) then new ∷ x ∷ xs else x ∷ inserted new xs

pub find_fast_lem :
    (fuel : ℕ) (link key_data : ℕ → ℕ) (a k : ℕ) (ns : List ℕ)
    → Chain link a ns
    → length ns < fuel
    → find_fast fuel link key_data a k
      ≡ some (
        before (λ n. get_key (key_data n)) k a ns,
        from (λ n. get_key (key_data n)) k ns,
        found (λ n. get_key (key_data n)) k ns,
      )
unfolding find_fast
find_fast_lem zero link key_data a k ns c lt = absurd (omega arith)
find_fast_lem (suc fuel) link key_data a k [] c lt = rw (test_eq (link a) 0 c) refl
find_fast_lem (suc fuel) link key_data a k (x ∷ xs) (e, nz, c) lt =
    let rest = find_fast_lem fuel link key_data x k xs c (omega arith) in
    elim (Bool-cases (leb k (get_key (key_data x)))) [
      | inl f ↦ rw (e, test_ne x 0 nz, f) refl
      | inr f ↦ rw (e, test_ne x 0 nz, f) rest
    ]

-- Searching from a node whose key is smaller is searching from the start.
pub from_mid :
    (link key : ℕ → ℕ) (k a mid : ℕ) (ns : List ℕ)
    → Chain link a ns
    → Ascending key ns
    → In mid ns
    → key mid < k
    → (bs : List ℕ) × Chain link mid bs
      × (length bs ≤ length ns)
      × (before key k mid bs ≡ before key k a ns)
      × (from key k bs ≡ from key k ns)
      × (found key k bs ≡ found key k ns)
from_mid link key k a mid [] c asc i lt = elim i [ ]
from_mid link key k a mid (x ∷ xs) (e, nz, c) (low, asc) (inl q) lt =
    let past : leb k (key x) ≡ false = ground (arith, ap key q) in
    (
      xs,
      subst (λ n. Chain link n xs) (sym q) c,
      omega arith,
      ap (λ n. before key k n xs) q ∙ rw past refl,
      rw past refl,
      rw past refl,
    )
from_mid link key k a mid (x ∷ xs) (e, nz, c) (low, asc) (inr i) lt =
    let smaller = low mid i in
    let past : leb k (key x) ≡ false = ground arith in
    let (bs, cb, le, b1, b2, b3) = from_mid link key k x mid xs c asc i lt in
    (bs, cb, omega arith, b1 ∙ rw past refl, b2 ∙ rw past refl, b3 ∙ rw past refl)

Chain-frame :
    (link other : ℕ → ℕ) (a : ℕ) (ns : List ℕ)
    → Chain link a ns
    → other a ≡ link a
    → ((n : ℕ) → In n ns → other n ≡ link n)
    → Chain other a ns
Chain-frame link other a [] c here same = here ∙ c
Chain-frame link other a (x ∷ xs) (e, nz, c) here same =
    (here ∙ e, nz, Chain-frame link other x xs c (same x (inl refl)) (λ n i. same n (inr i)))

before-In :
    (key : ℕ → ℕ) (k a : ℕ) (ns : List ℕ) → (before key k a ns ≡ a) ⊎ In (before key k a ns) ns
before-In key k a [] = inl refl
before-In key k a (x ∷ xs) = elim (Bool-cases (leb k (key x))) [
  | inl f ↦ rw f (inl refl)
  | inr f ↦
      let same : before key k a (x ∷ xs) ≡ before key k x xs = rw f refl in
      inr (subst (λ y. In y (x ∷ xs)) (sym same) (before-In key k x xs))
]

-- The two writes of an insertion.
pub inserted-Chain :
    (link key : ℕ → ℕ) (k a new : ℕ) (ns : List ℕ)
    → Chain link a ns
    → Distinct (a ∷ ns)
    → new ≢ 0
    → (In new (a ∷ ns) → ⊥)
    → Chain
        (update (update link new (from key k ns)) (before key k a ns) new)
        a
        (inserted key k new ns)
inserted-Chain link key k a new [] c d nz out =
    let other = update (update link new 0) a new in
    let here : other a ≡ new = rw (test_eq a a refl) refl in
    let there : other new ≡ 0 = rw (test_ne new a (λ e. out (inl e)), test_eq new new refl) refl in
    (here, nz, there)
inserted-Chain link key k a new (x ∷ xs) (e, xnz, c) (out_a, d) nz out =
    elim (Bool-cases (leb k (key x))) [
      | inl f ↦
          let other = update (update link new x) a new in
          let same = λ (n : ℕ) (i : In n (x ∷ xs)).
            let na : n ≢ a = λ q. out_a (subst (λ y. In y (x ∷ xs)) q i) in
            let nn : n ≢ new = λ q. out (inr (subst (λ y. In y (x ∷ xs)) q i)) in
            let kept : other n ≡ link n = rw (test_ne n a na, test_ne n new nn) refl in kept in
          let here : other a ≡ new = rw (test_eq a a refl) refl in
          let there : other new ≡ x =
            rw (test_ne new a (λ q. out (inl q)), test_eq new new refl) refl in
          rw f (
            here,
            nz,
            (there, xnz, Chain-frame link other x xs c (same x (inl refl)) (λ n i. same n (inr i))),
          )
      | inr f ↦
          let p = before key k x xs in
          let other = update (update link new (from key k xs)) p new in
          let ap' : a ≢ p = λ q. out_a (elim (before-In key k x xs) [
            | inl z ↦ inl (q ∙ z)
            | inr i ↦ inr (subst (λ y. In y xs) (sym q) i)
          ]) in
          let here : other a ≡ x = rw (test_ne a p ap', test_ne a new (λ q. out (inl (sym q)))) e in
          rw f (here, xnz, inserted-Chain link key k x new xs c d nz (λ i. out (inr i)))
    ]
