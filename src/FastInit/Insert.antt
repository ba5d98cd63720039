-- ===== src/FastInit/Insert.antt =====
-- `ListInsertFAST` keeps the list in order and adds its key.
use automatic_optimistic_acc.Base.{
  In, ℕ, suc, ◌<◌, ◌≡◌, ◌≢◌, ◌⊎◌, ◌↔◌, inl, inr, refl, sym, ap, true, false, List, [], ◌∷◌, arith,
  ◌==◌, leb, Bool-cases, ==_iff, length, Distinct,
}
use automatic_optimistic_acc.Entry.{get_key}
use automatic_optimistic_acc.FastInit.{Store}
use automatic_optimistic_acc.FastInit.Chains.{Chain, Ascending, found, inserted}

abbrev pub key_of : Store → ℕ → ℕ
key_of s n = get_key (s.key_data n)

-- The list has the key.
abbrev pub HasKey : (key : ℕ → ℕ) → List ℕ → ℕ → Type 0
HasKey key ns k = (n : ℕ) × In n ns × (key n ≡ k)

-- What an allocator returns: nodes, each once.
pub record Nodes (palloc : ℕ → ℕ) : Type 0 where
  pub not_null : (j : ℕ) → palloc j ≢ 0
  pub apart : (i j : ℕ) → palloc i ≡ palloc j → i ≡ j

-- The list from `entryHead` has the nodes `ns`, in the order of their keys.
pub record IsOrdered (palloc : ℕ → ℕ) (s : Store) (ns : List ℕ) : Type 0 where
  pub chain : Chain s.link 0 ns
  pub ascending : Ascending (key_of s) ns
  pub distinct : Distinct (0 ∷ ns)
  pub middle : (s.mid ≡ 0) ⊎ In s.mid ns
  pub used : length ns ≡ s.allocated
  pub old : (n : ℕ) → In n ns → (j : ℕ) × (j < s.allocated) × (n ≡ palloc j)

module _ (key : ℕ → ℕ) (k : ℕ) where
  pub found-HasKey : (ns : List ℕ) → found key k ns ≡ true → HasKey key ns k
  found-HasKey [] e = cc
  found-HasKey (x ∷ xs) e = elim (Bool-cases (leb k (key x))) [
    | inl f ↦ (x, inl refl, (==_iff (key x) k).0 (rw f at e))
    | inr f ↦ let (n, i, q) = found-HasKey xs (rw f at e) in (n, inr i, q)
  ]

  -- If the search has found nothing, all keys are smaller than `k` or greater.
  pub found-Absent :
      (ns : List ℕ) → Ascending key ns → found key k ns ≡ false → (n : ℕ) → In n ns → key n ≢ k
  found-Absent [] asc e n i = elim i [ ]
  found-Absent (x ∷ xs) (low, asc) e n i = elim (Bool-cases (leb k (key x))) [
    | inl f ↦
        let differs : (key x == k) ≡ false = rw f at e in
        elim i [
          | inl q ↦ λ z. absurd (ground (arith, differs, ap key q, z))
          | inr j ↦ let greater = low n j in λ z. absurd (ground (arith, differs, f, z, greater))
        ]
    | inr f ↦ elim i [
      | inl q ↦ λ z. absurd (ground (arith, f, ap key q, z))
      | inr j ↦ found-Absent xs asc (rw f at e) n j
    ]
  ]

  pub In-inserted : (new n : ℕ) (ns : List ℕ) → In n (inserted key k new ns) ↔ ((n ≡ new) ⊎ In n ns)
  In-inserted new n [] = (λ i. i, λ i. i)
  In-inserted new n (x ∷ xs) = elim (Bool-cases (leb k (key x))) [
    | inl f ↦ rw f (λ i. i, λ i. i)
    | inr f ↦
        let (there, back) = In-inserted new n xs in
        rw f (
          λ i. elim i [
            | inl q ↦ inr (inl q)
            | inr j ↦ elim (there j) [ inl q ↦ inl q | inr l ↦ inr (inr l) ]
          ],
          λ i. elim i [
            | inl q ↦ inr (back (inl q))
            | inr (inl q) ↦ inl q
            | inr (inr l) ↦ inr (back (inr l))
          ],
        )
  ]

  pub length-inserted : (new : ℕ) (ns : List ℕ) → length (inserted key k new ns) ≡ suc (length ns)
  length-inserted new [] = refl
  length-inserted new (x ∷ xs) = elim (Bool-cases (leb k (key x))) [
    | inl f ↦ rw f refl
    | inr f ↦ rw f (ap suc (length-inserted new xs))
  ]

  pub inserted-Distinct :
      (new : ℕ) (ns : List ℕ) → Distinct ns → (In new ns → ⊥) → Distinct (inserted key k new ns)
  inserted-Distinct new [] d out = (out, d)
  inserted-Distinct new (x ∷ xs) (out_x, d) out = elim (Bool-cases (leb k (key x))) [
    | inl f ↦ rw f (out, (out_x, d))
    | inr f ↦ rw f (
      λ i. elim ((In-inserted new x xs).0 i) [ inl q ↦ out (inl (sym q)) | inr j ↦ out_x j ],
      inserted-Distinct new xs d (λ i. out (inr i)),
    )
  ]

  -- With the new key in place, the keys ascend still.
  pub inserted-Ascending :
      (key' : ℕ → ℕ) (new : ℕ) (ns : List ℕ)
      → key' new ≡ k
      → ((n : ℕ) → In n ns → key' n ≡ key n)
      → Ascending key ns
      → found key k ns ≡ false
      → Ascending key' (inserted key k new ns)
  inserted-Ascending key' new [] here same asc e = (λ y i. absurd i, tt)
  inserted-Ascending key' new (x ∷ xs) here same (low, asc) e = elim (Bool-cases (leb k (key x))) [
    | inl f ↦
        let differs : (key x == k) ≡ false = rw f at e in
        let first : key' x ≡ key x = same x (inl refl) in
        let above : key' new < key' x = ground (arith, f, differs, first, here) in
        let rest = λ (y : ℕ) (j : In y xs).
          let higher : key' x < key' y =
            let one = low y j in let two = same y (inr j) in omega arith in
          higher in
        rw f (
          λ y i. elim i [
            | inl q ↦ let eq = ap key' q in omega arith
            | inr j ↦ let up = rest y j in omega arith
          ],
          (rest, frame xs asc (λ n i. same n (inr i))),
        )
    | inr f ↦
        let first : key' x ≡ key x = same x (inl refl) in
        rw f (
          λ y i. elim ((In-inserted new y xs).0 i) [
            | inl q ↦ let eq = ap key' q in ground (arith, eq, f, first, here)
            | inr j ↦ let one = low y j in let two = same y (inr j) in omega arith
          ],
          inserted-Ascending key' new xs here (λ n i. same n (inr i)) asc (rw f at e),
        )
  ]
    where
      frame :
          (ns : List ℕ)
          → Ascending key ns
          → ((n : ℕ) → In n ns → key' n ≡ key n)
          → Ascending key' ns
      frame [] a s = a
      frame (z ∷ zs) (l, a) s = (
        λ y i.
            let one = l y i in let two = s y (inr i) in let three = s z (inl refl) in omega arith,
        frame zs a (λ n i. s n (inr i)),
      )
