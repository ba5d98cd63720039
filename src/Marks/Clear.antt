-- ===== src/Marks/Clear.antt =====
-- `clearMarks` visits every word of a header once and leaves it at the new phase or a later one.
use native.Mathlib.Nat.{div-mul-le_self}
use native.Mathlib.Decide.{ℕ_discrete, dec_lt}
use automatic_optimistic_acc.Base.{
  ℕ, zero, suc, ◌+◌, ◌*◌, ◌/◌, ◌≤◌, ◌<◌, ◌≡◌, ◌≢◌, ◌⊎◌, inl, inr, ◌∙◌, refl, true, false, Option,
  List, [], ◌∷◌, arith, ltb, ◌==◌, lt→ltb, test_eq, lt→ltb, test_ne, Returns,
}
use automatic_optimistic_acc.Base.Cas.{decided, cas_loop_all}
use automatic_optimistic_acc.Marks.{
  clear_body, Header, clear_word, clear_chunk, header_words, clear_marks, shifted,
}

clear_body-le : (p w : ℕ) → p ≤ (decided w (clear_body p w)).0
unfolding clear_body
clear_body-le p w = ground arith

pub clear_word-le : (p : ℕ) (os : List (Option ℕ)) (m : Header) (h : ℕ) → p ≤ clear_word p os m h h
unfolding clear_word
clear_word-le p os m h =
    rw (test_eq h h refl)
      (cas_loop_all ◌==◌ (clear_body p) (λ r. p ≤ r.0) (clear_body-le p) os (m h))

pub clear_word-ne :
    (p : ℕ) (os : List (Option ℕ)) (m : Header) (h i : ℕ) → i ≢ h → clear_word p os m h i ≡ m i
unfolding clear_word
clear_word-ne p os m h i ne = rw (test_ne i h ne)

-- `m'` has the words of `Done` cleared, and those of `Rest` as in `m`.
pub record Cleared (p : ℕ) (Done Rest : ℕ → Type 0) (m m' : Header) : Type 0 where
  pub done : (i : ℕ) → Done i → p ≤ m' i
  pub rest : (i : ℕ) → Rest i → m' i ≡ m i

module _ (p size : ℕ) (os : ℕ → List (Option ℕ)) where
  -- One word, then the others.
  one-more :
      (m m' : Header) (h : ℕ) (Done Rest Done' Rest' : ℕ → Type 0)
      → Cleared p Done Rest (clear_word p (os h) m h) m'
      → ((i : ℕ) → Done' i → i ≢ h → Done i)
      → (Rest h)
      → ((i : ℕ) → Rest' i → (i ≢ h) × Rest i)
      → Cleared p Done' Rest' m m'
  one-more m m' h Done Rest Done' Rest' c more here fewer = record {
    done = λ i d. elim (ℕ_discrete i h) [
      | yes e ↦ rw (e, c.rest h here) (clear_word-le p (os h) m h)
      | no ne ↦ c.done i (more i d ne)
    ];
    rest = λ i r. c.rest i (fewer i r).1 ∙ clear_word-ne p (os h) m h i (fewer i r).0;
  }

  -- The last word.
  the_last :
      (m : Header) (h : ℕ) (Done Rest : ℕ → Type 0)
      → ((i : ℕ) → Done i → i ≡ h)
      → ((i : ℕ) → Rest i → i ≢ h)
      → Cleared p Done Rest m (clear_word p (os h) m h)
  the_last m h Done Rest only other = record {
    done = λ i d. rw (only i d) (clear_word-le p (os h) m h);
    rest = λ i r. clear_word-ne p (os h) m h i (other i r);
  }

  -- The second lap: from `h` up to `first`.
  lap :
      (fuel first h : ℕ) (m : Header)
      → h < first
      → first < size
      → first ≤ h + fuel
      → Returns
          (clear_chunk fuel p size first h os m)
          (Cleared p (λ i. (h ≤ i) × (i < first)) (λ i. (i < h) ⊎ (first ≤ i)) m)
  unfolding clear_chunk
  lap zero first h m lt fits enough = absurd (omega arith)
  lap (suc f) first h m lt fits enough =
      let inside : ltb (h + 1) size ≡ true = ground arith in
      elim (ℕ_discrete (h + 1) first) [
        | yes e ↦ (
          clear_word p (os h) m h,
          rw (inside, test_eq (h + 1) first e),
          the_last m h _ _ (λ i d. omega arith) (λ i r. ground arith),
        )
        | no ne ↦
            let (m', run, c) =
              lap f first (h + 1) (clear_word p (os h) m h) (omega arith) fits (omega arith) in
            (
              m',
              rw (inside, test_ne (h + 1) first ne) run,
              one-more m m' h _ _ _ _ c (λ i d n. omega arith) (inl (omega arith))
                  (λ i r. (ground arith, ground arith)),
            )
      ]

  -- From `h` to the end, then from the beginning up to `first`.
  around :
      (fuel first h : ℕ) (m : Header)
      → first ≤ h
      → h < size
      → size + first ≤ h + fuel
      → Returns (clear_chunk fuel p size first h os m) (
          Cleared p
            (λ i. ((h ≤ i) × (i < size)) ⊎ (i < first))
            (λ i. ((first ≤ i) × (i < h)) ⊎ (size ≤ i))
            m)
  unfolding clear_chunk
  around zero first h m le lt enough = absurd (omega arith)
  around (suc f) first h m le lt enough = elim (dec_lt (h + 1) size) [
    | yes inside ↦
        let (m', run, c) =
          around f first (h + 1) (clear_word p (os h) m h) (omega arith) inside (omega arith) in
        (
          m',
          rw (lt→ltb _ _ inside, test_ne (h + 1) first (omega arith)) run,
          one-more m m' h _ _ _ _ c (λ i d n. ground arith) (inl (omega arith))
              (λ i r. (ground arith, ground arith)),
        )
    | no end ↦
        let over : ltb (h + 1) size ≡ false = ground arith in
        elim (ℕ_discrete 0 first) [
          | yes e ↦ (
            clear_word p (os h) m h,
            rw (over, test_eq 0 first e),
            the_last m h _ _ (λ i d. ground arith) (λ i r. ground arith),
          )
          | no ne ↦
              let (m', run, c) =
                lap f first 0 (clear_word p (os h) m h) (omega arith) (omega arith) (omega arith) in
              (
                m',
                rw (over, test_ne 0 first ne) run,
                one-more m m' h _ _ _ _ c (λ i d n. ground arith) (inr (omega arith))
                    (λ i r. (ground arith, ground arith)),
              )
        ]
  ]

  -- From any first word, one round clears all words of the header and touches nothing else.
  clear_chunk-Cleared :
      (first : ℕ) (m : Header)
      → first < size
      → Returns
          (clear_chunk size p size first first os m)
          (Cleared p (λ i. i < size) (λ i. size ≤ i) m)
  clear_chunk-Cleared first m lt =
      let (m', run, c) = around size first first m (omega arith) lt (omega arith) in
      (m', run, record { done = λ i d. c.done i (ground arith); rest = λ i r. c.rest i (inr r) })

mul_mono : (a b c : ℕ) → a < b → a * c + c ≤ b * c
mul_mono a b c h = grind arith

-- The word at which a thread begins lies in the header.
first-lt : (threads tid : ℕ) → tid < threads → tid * (header_words / threads) < header_words
first-lt threads tid lt =
    grind
      (arith, div-mul-le_self header_words threads, mul_mono tid threads (header_words / threads))

-- Each header of `ms'` is the one of `ms` with all its words cleared.
abbrev pub AllCleared : ℕ → List Header → List Header → Type 0
AllCleared p [] [] = Unit {0}
AllCleared p (m ∷ ms) (m' ∷ ms') =
    Cleared p (λ i. i < header_words) (λ i. header_words ≤ i) m m' × AllCleared p ms ms'
AllCleared p _ _ = ⊥

-- For a thread number below the number of threads `clearMarks` ends, whatever the others write to each chunk,
-- and leaves each word of each chunk's header, and nothing else, at its phase or a later one.
pub clear_marks-AllCleared :
    (threads tid phase : ℕ) (os : ℕ → ℕ → List (Option ℕ)) (ms : List Header)
    → tid < threads
    → Returns (clear_marks threads tid phase os ms) (AllCleared (shifted phase) ms)
unfolding clear_marks
clear_marks-AllCleared threads tid phase os [] lt = ([], refl, tt)
clear_marks-AllCleared threads tid phase os (m ∷ ms) lt =
    let first = tid * (header_words / threads) in
    let (m', run, c) =
      clear_chunk-Cleared (shifted phase) header_words (os 0) first m (first-lt threads tid lt) in
    let (ms', runs, cs) = clear_marks-AllCleared threads tid phase (λ c. os (suc c)) ms lt in
    (m' ∷ ms', rw (run, runs), (c, cs))
