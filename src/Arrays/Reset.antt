-- ===== src/Arrays/Reset.antt =====
-- Clearing the mark tables of array roots for a new phase: which words are cleared.
use native.Mathlib.Decide.{ℕ_discrete}
use automatic_optimistic_acc.Base.{
  ℕ, zero, suc, ◌+◌, ◌/◌, ◌≤◌, ◌<◌, ◌≡◌, ◌≢◌, inl, inr, refl, List, Option, arith, ◌==◌, Bool-cases,
  ==_iff, test_eq, test_ne, true, leb, Returns, ap, ◌∙◌, subst,
}
use automatic_optimistic_acc.Lfl.{update}
use automatic_optimistic_acc.Marks.{Header, clear_word}
use automatic_optimistic_acc.Marks.Clear.{clear_word-le, clear_word-ne}
use automatic_optimistic_acc.Arrays.{
  Roots, array_marktable_size, clear_arr_marks, clear_roots, clear_roots_mark,
}

-- A word that is at the phase stays there.
clear_word-keeps :
    (p : ℕ) (os : List (Option ℕ)) (m : Header) (h i : ℕ) → p ≤ m i → p ≤ clear_word p os m h i
clear_word-keeps p os m h i le = elim (ℕ_discrete i h) [
  | yes e ↦ rw e (clear_word-le p os m h)
  | no ne ↦ rw (clear_word-ne p os m h i ne) le
]

clear_arr_marks-keeps :
    (n h p : ℕ) (os : ℕ → List (Option ℕ)) (m : Header) (i : ℕ)
    → p ≤ m i
    → p ≤ clear_arr_marks n h p os m i
unfolding clear_arr_marks
clear_arr_marks-keeps zero h p os m i le = le
clear_arr_marks-keeps (suc n) h p os m i le =
    clear_arr_marks-keeps n (h + 1) p os (clear_word p (os h) m h) i
      (clear_word-keeps p (os h) m h i le)

clear_arr_marks-le :
    (n h p : ℕ) (os : ℕ → List (Option ℕ)) (m : Header) (i : ℕ)
    → h ≤ i
    → i < h + n
    → p ≤ clear_arr_marks n h p os m i
unfolding clear_arr_marks
clear_arr_marks-le zero h p os m i lo hi = absurd (omega arith)
clear_arr_marks-le (suc n) h p os m i lo hi = elim (ℕ_discrete i h) [
  | yes e ↦
      clear_arr_marks-keeps n (h + 1) p os (clear_word p (os h) m h) i
        (rw e (clear_word-le p (os h) m h))
  | no ne ↦
      clear_arr_marks-le n (h + 1) p os (clear_word p (os h) m h) i (omega arith) (omega arith)
]

-- The tables other than the first are as before; in the first, the words are cleared that the size of some root
-- covers, and those that were at the phase stay there.
pub record OnlyFirst (n i p : ℕ) (root_len : ℕ → ℕ) (tables tables' : ℕ → Header) : Type 0 where
  pub others : (t : ℕ) → t ≢ 0 → tables' t ≡ tables t
  pub cleared :
      (j h : ℕ)
      → i ≤ j
      → j < i + n
      → root_len j ≢ 1
      → h < (array_marktable_size (root_len j) + 8) / 8
      → p ≤ tables' 0 h
  pub keeps : (h : ℕ) → p ≤ tables 0 h → p ≤ tables' 0 h

-- The first table has room for what is cleared for each array root from `i` on, with `n` to go.
abbrev pub Fits : (n i : ℕ) (root_len : ℕ → ℕ) (room : ℕ) → Type 0
Fits n i root_len room =
    (j : ℕ) → i ≤ j → j < i + n → root_len j ≢ 1 → array_marktable_size (root_len j) + 8 ≤ room

clear_roots-OnlyFirst :
    (n i p : ℕ) (os : ℕ → ℕ → List (Option ℕ)) (root_len : ℕ → ℕ) (room : ℕ) (tables : ℕ → Header)
    → Fits n i root_len room
    → Returns (clear_roots n i p os root_len room tables) (OnlyFirst n i p root_len tables)
unfolding clear_roots
clear_roots-OnlyFirst zero i p os root_len room tables fits = (
  tables,
  refl,
  record { others = λ t ne. refl; cleared = λ j h lo hi. absurd (omega arith); keeps = λ h le. le },
)
clear_roots-OnlyFirst (suc n) i p os root_len room tables fits =
    let later : Fits n (i + 1) root_len room =
      λ j lo hi ne. fits j (omega (arith, lo)) (omega (arith, hi)) ne in
    elim (Bool-cases (root_len i == 1)) [
      | inl e ↦
          let (done, ran, rest) = clear_roots-OnlyFirst n (i + 1) p os root_len room tables later in
          (
            done,
            rw e ran,
            record {
              others = rest.others;
              cleared = λ j h lo hi ne.
                  rest.cleared j h (beyond j lo (λ q. ne (ap root_len q ∙ (==_iff _ _).0 e)))
                    (omega arith) ne;
              keeps = rest.keeps;
            },
          )
      | inr e ↦
          let size = array_marktable_size (root_len i) + 8 in
          let words = size / 8 in
          let first = clear_arr_marks words 0 p (os i) (tables 0) in
          let array : root_len i ≢ 1 = λ one. cc (rw (test_eq (root_len i) 1 one) at e) in
          let enough : leb size room ≡ true =
            ground (arith, fits i (omega arith) (omega arith) array) in
          let (done, ran, rest) =
            clear_roots-OnlyFirst n (i + 1) p os root_len room (update tables 0 first) later in
          (
            done,
            rw (e, enough) ran,
            record {
              others = λ t ne. rest.others t ne ∙ rw (test_ne t 0 ne) refl;
              cleared = λ j h lo hi ne lt. elim (ℕ_discrete j i) [
                | yes q ↦
                    let covered : h < words =
                      subst (λ x. h < (array_marktable_size (root_len x) + 8) / 8) q lt in
                    rest.keeps h
                      (clear_arr_marks-le words 0 p (os i) (tables 0) h (omega arith) (omega arith))
                | no away ↦ rest.cleared j h (beyond j lo away) (omega arith) ne lt
              ];
              keeps = λ h le. rest.keeps h (clear_arr_marks-keeps words 0 p (os i) (tables 0) h le);
            },
          )
    ]
  where
    beyond : (j : ℕ) → i ≤ j → j ≢ i → i + 1 ≤ j
    beyond j lo ne = omega arith

-- When the first mark table is as large as the size of each array root asks for, `clearRootsMark` ends, however others
-- write meanwhile, changes no mark table but the first, and there it leaves at the phase, or a later one, each word
-- that the size of some array root covers.
pub clear_roots_mark-OnlyFirst :
    (p : ℕ) (os : ℕ → ℕ → List (Option ℕ)) (r : Roots) (tables : ℕ → Header)
    → Fits r.current_root 0 r.root_len (r.marktable 0)
    → Returns (clear_roots_mark p os r tables) (OnlyFirst r.current_root 0 p r.root_len tables)
unfolding clear_roots_mark
clear_roots_mark-OnlyFirst p os r tables fits =
    clear_roots-OnlyFirst r.current_root 0 p os r.root_len (r.marktable 0) tables fits
