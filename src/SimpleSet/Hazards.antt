-- ===== src/SimpleSet/Hazards.antt =====
-- The set as the manual collector uses it: filled with the hazard pointers after `setInit` or
-- `setReset`, then asked for each retired node. The table has two cells for each hazard pointer, so
-- that the assertion on its load never fails. Pointers are cut to 32 bits.
use native.Mathlib.Decide.{ℕ_discrete}
use automatic_optimistic_acc.Base.{
  test_eq, test_ne, ℕ, ◌+◌, ◌*◌, ◌/◌, ◌%◌, ◌^◌, ◌≤◌, ◌<◌, ◌≡◌, ◌≢◌, ◌⊎◌, ◌↔◌, inl, inr, ◌∙◌, refl,
  sym, true, List, [], ◌∷◌, arith, length, length-replicate, get_or-replicate, Returns,
}
use automatic_optimistic_acc.SimpleSet.{HashTable, set_init, set_reset, set_contains_p, add_all}
use automatic_optimistic_acc.SimpleSet.Laws.{
  Member, IsValid, occupied-replicate, Inserted, hash_retrieve-Member, hash_insert-Inserted,
}

abbrev pub low : ℕ → ℕ
low p = p % 2 ^ 32

pub set_init-IsValid : (n : ℕ) → 3 ≤ n → n < 2 ^ 31 → IsValid (set_init n)
unfolding set_init
set_init-IsValid n few many = record {
  width = length-replicate n 0;
  cells = few;
  small = many;
  counted = occupied-replicate n;
  roomy = omega arith;
  words = λ i hi. rw (get_or-replicate {A = ℕ} n i 0) (omega arith);
  placed = λ k i hi at nz. absurd (nz (sym at ∙ get_or-replicate n i 0));
}

set_init-not-Member : (n k : ℕ) → k ≢ 0 → ¬ Member k (set_init n)
unfolding set_init
set_init-not-Member n k nz (i, hi, at) = nz (sym at ∙ get_or-replicate n i 0)

-- `setReset` gives a set of the same size as `setInit` gave.
pub set_reset-set_init : (t : HashTable) → set_reset t ≡ set_init t.max
unfolding set_reset set_init
set_reset-set_init t = refl

-- One of the hazard pointers `ps` agrees with `k` on the low 32 bits.
abbrev pub Listed : List ℕ → ℕ → Type 0
Listed [] k = ⊥
Listed (p ∷ ps) k = ((p ≢ 0) × (low p ≡ k)) ⊎ Listed ps k

abbrev pub IsCut : List ℕ → Type 0
IsCut [] = Unit
IsCut (p ∷ ps) = (p ≢ 0 → low p ≢ 0) × IsCut ps

-- What a run of `setAddP` over `ps` leaves of `t`.
pub record Filled (t : HashTable) (ps : List ℕ) (t' : HashTable) : Type 0 where
  pub valid : IsValid t'
  pub members : (k : ℕ) → k ≢ 0 → Member k t' ↔ (Listed ps k ⊎ Member k t)

skip-Filled :
    {t t' : HashTable} {p : ℕ} {ps : List ℕ} → p ≡ 0 → Filled t ps t' → Filled t (p ∷ ps) t'
skip-Filled e f = record {
  valid = f.valid;
  members = λ k nz. (
    (λ m. elim ((f.members k nz).0 m) [ inl l ↦ inl (inr l) | inr o ↦ inr o ]),
    (λ c. elim c [
      | inl (inl (ne, _)) ↦ absurd (ne e)
      | inl (inr l) ↦ (f.members k nz).1 (inl l)
      | inr o ↦ (f.members k nz).1 (inr o)
    ]),
  );
}

add-Filled :
    {t u t' : HashTable} {p : ℕ} {ps : List ℕ}
    → p ≢ 0
    → Inserted t (low p) u
    → Filled u ps t'
    → Filled t (p ∷ ps) t'
add-Filled {t} {u} {t'} {p} {ps} ne i f = record {
  valid = f.valid;
  members = λ k nz. (into k nz, out k nz);
}
  where
    into : (k : ℕ) → k ≢ 0 → Member k t' → Listed (p ∷ ps) k ⊎ Member k t
    into k nz m = elim ((f.members k nz).0 m) [
      | inl l ↦ inl (inr l)
      | inr o ↦ elim ((i.members k nz).0 o) [ inl e ↦ inl (inl (ne, sym e)) | inr old ↦ inr old ]
    ]

    out : (k : ℕ) → k ≢ 0 → Listed (p ∷ ps) k ⊎ Member k t → Member k t'
    out k nz (inl (inl (_, e))) = (f.members k nz).1 (inr ((i.members k nz).1 (inl (sym e))))
    out k nz (inl (inr l)) = (f.members k nz).1 (inl l)
    out k nz (inr o) = (f.members k nz).1 (inr ((i.members k nz).1 (inr o)))

low-lt : (p : ℕ) → low p < 2 ^ 32
low-lt p = omega arith

add_all-Filled :
    (ps : List ℕ) (t : HashTable)
    → IsValid t
    → IsCut ps
    → t.number_of_elements + length ps ≤ t.max / 2 + 1
    → Returns (add_all t ps) (Filled t ps)
unfolding add_all
add_all-Filled [] t v cut room = (
  t,
  refl,
  record {
    valid = v;
    members = λ k nz. ((λ m. inr m), λ c. elim c [ inl l ↦ elim l [ ] | inr m ↦ m ]);
  },
)
add_all-Filled (p ∷ ps) t v cut room = elim (ℕ_discrete p 0) [
  | yes e ↦
      let (t', run, f) = add_all-Filled ps t v cut.1 (omega arith) in
      (t', rw (test_eq p 0 e) run, skip-Filled e f)
  | no ne ↦
      let (u, one, i) = hash_insert-Inserted v (low p) (low-lt p) (cut.0 ne) (omega arith) in
      let (t', run, f) = add_all-Filled ps u i.valid cut.1 (omega (arith, i.max, i.number)) in
      (t', rw (test_ne p 0 ne, one) run, add-Filled ne i f)
]

set_init-room :
    (n : ℕ) (ps : List ℕ)
    → length ps ≤ n
    → (set_init (n * 2)).number_of_elements + length ps ≤ (set_init (n * 2)).max / 2 + 1
unfolding set_init
set_init-room n ps h = omega arith

-- For `n` from 2 to 2^30 - 1: filled from `setInit(2 * n)` with at most `n` hazard pointers whose low 32 bits are not all
-- zero, the set answers each question about a pointer whose low 32 bits are not all zero, and says yes exactly for
-- those that agree with a hazard pointer on the low 32 bits.
pub hazards-protected :
    (n : ℕ) (ps : List ℕ)
    → 2 ≤ n
    → n < 2 ^ 30
    → length ps ≤ n
    → IsCut ps
    → Returns
        (add_all (set_init (n * 2)) ps)
        λ t. (q : ℕ) → low q ≢ 0 → Returns (set_contains_p t q) λ b. (b ≡ true) ↔ Listed ps (low q)
hazards-protected n ps few many room cut =
    let v = set_init-IsValid (n * 2) (omega arith) (omega arith) in
    let (t, run, f) = add_all-Filled ps (set_init (n * 2)) v cut (set_init-room n ps room) in
    (
      t,
      run,
      λ q nz.
          let (b, ran, (to, from)) = hash_retrieve-Member f.valid (low q) (low-lt q) nz in
          (
            b,
            unfold set_contains_p in ran,
            (
              (λ e. elim ((f.members (low q) nz).0 (to e)) [
                | inl l ↦ l
                | inr m ↦ absurd (set_init-not-Member (n * 2) (low q) nz m)
              ]),
              λ l. from ((f.members (low q) nz).1 (inl l)),
            ),
          ),
    )
