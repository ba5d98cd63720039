-- ===== src/Arrays/Help.antt =====
-- Helping with an array root: which chunks `finishTraceArr` traces.
use native.Mathlib.Decide.{ℕ_discrete}
use automatic_optimistic_acc.Base.{
  In, ℕ, zero, suc, ◌+◌, ◌-◌, ◌*◌, ◌/◌, ◌%◌, ◌^◌, ◌≤◌, ◌<◌, ◌≡◌, ◌≢◌, ◌⊎◌, inl, inr, refl, ap, sym,
  ◌∙◌, true, false, List, [], ◌∷◌, ◌++◌, arith, ◌==◌, Bool-cases, ==_iff, test_eq, test_ne, ◌↔◌,
  subst,
}
use automatic_optimistic_acc.Lfl.{update}
use automatic_optimistic_acc.Marks.{has_bit, set_bit, is_cur_phase}
use automatic_optimistic_acc.Marks.Bits.{has_bit-set_bit, is_cur_phase-set_bit}
use automatic_optimistic_acc.Arrays.Words.{has_bit-low, has_bit-ones}
use automatic_optimistic_acc.Arrays.{sign_body, sign_bit, help_bits, help_words, finish_trace_arr}

-- Undisturbed, a chunk is signed when its bit is clear in a word of the phase.
sign_bit-clear :
    (word bit p : ℕ)
    → is_cur_phase word p ≡ true
    → has_bit word bit ≡ false
    → sign_bit [] word bit p ≡ (set_bit word bit, true)
unfolding sign_bit sign_body
sign_bit-clear word bit p e f = rw (e, f) refl

-- From bit `j` on, the words and the chunks traced: those chunks whose bits are clear in `uval`.
pub record Helped (n j i uval : ℕ) (bits bits' : ℕ → ℕ) (traced : List ℕ) : Type 0 where
  pub complete : (b : ℕ) → j ≤ b → b < j + n → has_bit uval b ≡ false → In (i * 32 + b) traced
  pub sound :
      (c : ℕ)
      → In c traced
      → (b : ℕ) × (j ≤ b) × (b < j + n) × (has_bit uval b ≡ false) × (c ≡ i * 32 + b)
  pub others : (a : ℕ) → a ≢ i → bits' a ≡ bits a

help_bits-Helped :
    (n j i uval p : ℕ) (bits : ℕ → ℕ)
    → j + n ≤ 32
    → is_cur_phase (bits i) p ≡ true
    → ((b : ℕ) → j ≤ b → b < 32 → has_bit (bits i) b ≡ has_bit uval b)
    → Helped n j i uval bits (help_bits n j i uval p bits).0 (help_bits n j i uval p bits).1
unfolding help_bits
help_bits-Helped zero j i uval p bits le cur same = record {
  complete = λ b lo hi e. absurd (omega arith);
  sound = λ c k. elim k [ ];
  others = λ a ne. refl;
}
help_bits-Helped (suc n) j i uval p bits le cur same = elim (Bool-cases (has_bit uval j)) [
  | inl e ↦
      let rest =
        help_bits-Helped n (j + 1) i uval p bits (omega arith) cur
          (λ b lo hi. same b (omega arith) hi) in
      rw e (record {
        complete = λ b lo hi f.
            rest.complete b (later_bit b lo (λ q. cc (sym e ∙ ap (has_bit uval) (sym q) ∙ f)))
              (omega arith) f;
        sound =
            λ c k. let (b, lo, hi, f, s) = rest.sound c k in (b, omega arith, omega arith, f, s);
        others = rest.others;
      })
  | inr e ↦
      let word = bits i in
      let clear : has_bit word j ≡ false = same j (omega arith) (omega arith) ∙ e in
      let signed = sign_bit-clear word j p cur clear in
      let bits1 : ℕ → ℕ = update bits i (set_bit word j) in
      let here : bits1 i ≡ set_bit word j = rw (test_eq i i refl) refl in
      let rest =
        help_bits-Helped n (j + 1) i uval p bits1 (omega arith)
          (ap (λ w. is_cur_phase w p) here ∙ (is_cur_phase-set_bit word j p (omega arith) ∙ cur))
          (λ b lo hi.
            ap (λ w. has_bit w b) here
            ∙ (has_bit-set_bit word j b
                ∙ rw (test_ne b j (omega arith)) (same b (omega arith) hi))) in
      rw (e, signed)
        (record {
          complete = λ b lo hi f. elim (ℕ_discrete b j) [
            | yes q ↦ inl (rw q refl)
            | no ne ↦ inr (rest.complete b (later_bit b lo ne) (omega arith) f)
          ];
          sound = λ c k. elim k [
            | inl q ↦ (j, omega arith, omega arith, e, q)
            | inr k' ↦
                let (b, lo, hi, f, s) = rest.sound c k' in (b, omega arith, omega arith, f, s)
          ];
          others = λ a ne. rest.others a ne ∙ rw (test_ne a i ne) refl;
        })
]
  where
    later_bit : (b : ℕ) → j ≤ b → b ≢ j → j + 1 ≤ b
    later_bit b lo ne = omega arith

In-left : (x : ℕ) (xs ys : List ℕ) → In x xs → In x (xs ++ ys)
In-left x [] ys k = elim k [ ]
In-left x (y ∷ xs) ys (inl e) = inl e
In-left x (y ∷ xs) ys (inr k) = inr (In-left x xs ys k)

In-right : (x : ℕ) (xs ys : List ℕ) → In x ys → In x (xs ++ ys)
In-right x [] ys k = k
In-right x (y ∷ xs) ys k = inr (In-right x xs ys k)

In-either : (x : ℕ) (xs ys : List ℕ) → In x (xs ++ ys) → In x xs ⊎ In x ys
In-either x [] ys k = inr k
In-either x (y ∷ xs) ys (inl e) = inl (inl e)
In-either x (y ∷ xs) ys (inr k) = elim (In-either x xs ys k) [ inl a ↦ inl (inr a) | inr b ↦ inr b ]

-- The chunks traced for `n` words from `i` on are those whose bits are clear.
pub record HelpedAll (n i : ℕ) (bits : ℕ → ℕ) (traced : List ℕ) : Type 0 where
  pub complete :
      (a b : ℕ) → i ≤ a → a < i + n → b < 32 → has_bit (bits a) b ≡ false → In (a * 32 + b) traced
  pub sound :
      (c : ℕ)
      → In c traced
      → (a : ℕ) × (b : ℕ) × (i ≤ a)
        × (a < i + n)
        × (b < 32)
        × (has_bit (bits a) b ≡ false)
        × (c ≡ a * 32 + b)

abbrev CurrentFrom : (n i p : ℕ) (bits : ℕ → ℕ) → Type 0
CurrentFrom n i p bits = (a : ℕ) → i ≤ a → a < i + n → is_cur_phase (bits a) p ≡ true

later_word : (i a : ℕ) → i ≤ a → a ≢ i → i + 1 ≤ a
later_word i a lo ne = omega arith

-- A word of which all chunks are signed.
skip-HelpedAll :
    (n i : ℕ) (bits : ℕ → ℕ) (traced : List ℕ)
    → bits i % 2 ^ 32 ≡ 2 ^ 32 - 1
    → HelpedAll n (i + 1) bits traced
    → HelpedAll (suc n) i bits traced
skip-HelpedAll n i bits traced full h = record {
  complete = λ a b lo hi lt e. elim (ℕ_discrete a i) [
    | yes q ↦
        cc (sym (has_bit-ones (bits i) b lt full) ∙ (ap (λ x. has_bit (bits x) b) (sym q) ∙ e))
    | no ne ↦ h.complete a b (later_word i a lo ne) (omega arith) lt e
  ];
  sound = λ c k.
      let (a, b, lo, hi, lt, e, s) = h.sound c k in (a, b, omega arith, omega arith, lt, e, s);
}

append-HelpedAll :
    (n i : ℕ) (bits bits' : ℕ → ℕ) (traced more : List ℕ)
    → Helped 32 0 i (bits i % 2 ^ 32) bits bits' traced
    → HelpedAll n (i + 1) bits' more
    → HelpedAll (suc n) i bits (traced ++ more)
append-HelpedAll n i bits bits' traced more now rest = record {
  complete = λ a b lo hi lt e. elim (ℕ_discrete a i) [
    | yes q ↦ In-left (a * 32 + b) traced more (
        rw q (
          now.complete b (omega arith) (omega arith)
            (has_bit-low (bits i) b lt ∙ (ap (λ x. has_bit (bits x) b) (sym q) ∙ e))))
    | no ne ↦ In-right (a * 32 + b) traced more (
        rest.complete a b (later_word i a lo ne) (omega arith) lt
          (ap (λ x. has_bit x b) (now.others a ne) ∙ e))
  ];
  sound = λ c k. elim (In-either c traced more k) [
    | inl k1 ↦
        let (b, lo, hi, f, s) = now.sound c k1 in
        (i, b, omega arith, omega arith, hi, sym (has_bit-low (bits i) b hi) ∙ f, s)
    | inr k2 ↦
        let (a, b, lo, hi, lt, f, s) = rest.sound c k2 in
        (
          a,
          b,
          omega arith,
          omega arith,
          lt,
          ap (λ x. has_bit x b) (sym (now.others a (omega arith))) ∙ f,
          s,
        )
  ];
}

help_words-HelpedAll :
    (n i p : ℕ) (bits : ℕ → ℕ)
    → CurrentFrom n i p bits
    → HelpedAll n i bits (help_words n i p bits).1
unfolding help_words
help_words-HelpedAll zero i p bits cur = record {
  complete = λ a b lo hi lt e. absurd (omega arith);
  sound = λ c k. elim k [ ];
}
help_words-HelpedAll (suc n) i p bits cur =
    let here : is_cur_phase (bits i) p ≡ true = cur i (omega arith) (omega arith) in
    elim (Bool-cases (bits i % 2 ^ 32 == 2 ^ 32 - 1)) [
      | inl e ↦
          rw (here, e)
            (skip-HelpedAll n i bits (help_words n (i + 1) p bits).1 ((==_iff _ _).0 e) (
              help_words-HelpedAll n (i + 1) p bits (λ a lo hi. cur a (omega arith) (omega arith))))
      | inr e ↦
          let now =
            help_bits-Helped 32 0 i (bits i % 2 ^ 32) p bits (omega arith) here
              (λ b lo hi. sym (has_bit-low (bits i) b hi)) in
          let (bits', traced) = help_bits 32 0 i (bits i % 2 ^ 32) p bits in
          rw (here, e)
            (append-HelpedAll n i bits bits' traced (help_words n (i + 1) p bits').1 now (
              help_words-HelpedAll n (i + 1) p bits' (λ a lo hi.
                ap (λ x. is_cur_phase x p) (now.others a (omega arith))
                ∙ cur a (omega arith) (omega arith))))
    ]

-- With all its mark words in the phase, and undisturbed, `finishTraceArr` traces exactly the chunks that are
-- not signed among those of the complete mark words, `len / 64 / 32` in number: of the other chunks of the
-- array, none.
pub finish_trace_arr-helps :
    (len p : ℕ) (bits : ℕ → ℕ)
    → ((a : ℕ) → a < len / 64 / 32 → is_cur_phase (bits a) p ≡ true)
    → (c : ℕ)
    → In c (finish_trace_arr len p bits).1
      ↔ ((c < len / 64 / 32 * 32) × (has_bit (bits (c / 32)) (c % 32) ≡ false))
unfolding finish_trace_arr
finish_trace_arr-helps len p bits cur c =
    let all = help_words-HelpedAll (len / 64 / 32) 0 p bits (λ a lo hi. cur a (omega arith)) in
    (
      λ k.
          let (a, b, lo, hi, lt, e, s) = all.sound c k in
          let word : c / 32 ≡ a = omega arith in
          let chunk : c % 32 ≡ b = omega arith in (omega arith, rw (word, chunk) e),
      λ h.
          let whole : c / 32 * 32 + c % 32 ≡ c = omega arith in
          let (lt, e) = h in
          subst (λ x. In x (help_words (len / 64 / 32) 0 p bits).1) whole
            (all.complete (c / 32) (c % 32) (omega arith) (omega arith) (omega arith) e),
    )
