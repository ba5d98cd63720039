-- ===== src/Sweep/Counter.antt =====
-- The sweep counter of trace.c, between all threads: `resetSweepCounter` moves it to a new phase, and the loop
-- of `sweep` takes pages from it. By `Base.Cas.cas_loop_atomic` each loop acts in one step.
use automatic_optimistic_acc.Base.{
  ℕ, ◌+◌, ◌*◌, ◌%◌, ◌^◌, ◌≤◌, ◌<◌, ◌≡◌, ◌⊎◌, inl, inr, refl, sym, ap, subst, ◌||◌, not, Option,
  none, some, List, [], ◌∷◌, arith, leb, ◌==◌, if◌then◌else◌, In, Distinct, Bool-cases, Outcome, ok,
  abort,
}
use automatic_optimistic_acc.Base.Cas.{Decision, stop, swap, decided, cas_loop}
use automatic_optimistic_acc.Sweep.{phase_of, count_of, take_body}

-- The body of `resetSweepCounter`; `MAKE_SC` puts the phase into the high half.
unfoldable pub reset_counter_body : (local_ver w : ℕ) → Decision ℕ (Outcome (Unit {0}))
reset_counter_body local_ver w =
    if leb local_ver (phase_of w)
    then stop (ok tt)
    else if phase_of w + 2 == local_ver
    then swap (local_ver * 2 ^ 32 % 2 ^ 64) (ok tt)
    else stop abort

unfoldable pub reset_sweep_counter : (local_ver : ℕ) → List (Option ℕ) → ℕ → ℕ × Outcome (Unit {0})
unfolding reset_counter_body cas_loop
reset_sweep_counter local_ver os w = cas_loop ◌==◌ (reset_counter_body local_ver) os w

-- The word, and the values that it had when pages were taken: each is a phase and a page.
pub record Counter : Type 0 where
  pub word : ℕ
  pub taken : List ℕ

abbrev logged : ℕ → Option ℕ → List ℕ → List ℕ
logged w none ws = ws
logged w (some page) ws = w ∷ ws

-- A step of any thread, at any version.
unfoldable pub counter_reset : (local_ver : ℕ) → Counter → Counter
unfolding reset_counter_body
counter_reset local_ver s = record s {
  word = (decided s.word (reset_counter_body local_ver s.word)).0;
}

unfoldable pub counter_take : (pages local_ver : ℕ) → Counter → Counter
unfolding take_body
counter_take pages local_ver s =
    let (word, page) = decided s.word (take_body local_ver pages s.word) in
    record { word = word; taken = logged s.word page s.taken }

-- The states that the counter comes to, when it starts with no page taken and the versions fit its high half.
pub data Reaches (pages : ℕ) : Counter → Type 0 where
  start : (phase : ℕ) → Reaches pages (record { word = phase * 2 ^ 32; taken = [] })
  reset :
      (local_ver : ℕ) (s : Counter)
      → local_ver < 2 ^ 32
      → Reaches pages s
      → Reaches pages (counter_reset local_ver s)
  take :
      (local_ver : ℕ) (s : Counter)
      → Reaches pages s
      → Reaches pages (counter_take pages local_ver s)

-- No page is taken twice in a phase, every page taken is one of the heap, and those of the current phase are the
-- ones below the count.
pub record IsHandedOut (pages : ℕ) (s : Counter) : Type 0 where
  pub once : Distinct s.taken
  pub past : (w : ℕ) → In w s.taken → (w < s.word) × (count_of w < pages)
  pub all : (w : ℕ) → phase_of w ≡ phase_of s.word → w < s.word → In w s.taken
  pub within : count_of s.word ≤ pages

-- The word after a reset is that before, or the start of a later phase.
counter_reset-cases :
    (v : ℕ) (s : Counter)
    → v < 2 ^ 32
    → (counter_reset v s ≡ s)
      ⊎ ((phase_of s.word < v) × (counter_reset v s ≡ record s { word = v * 2 ^ 32 }))
unfolding counter_reset reset_counter_body
counter_reset-cases v s fits = elim (Bool-cases (leb v (phase_of s.word))) [
  | inl at_least ↦ inl (simp at_least refl)
  | inr behind ↦ elim (Bool-cases (phase_of s.word + 2 == v)) [
    | inl next ↦
        let whole : v * 2 ^ 32 % 2 ^ 64 ≡ v * 2 ^ 32 = omega (arith, fits) in
        inr (ground (arith, behind), simp (behind, next) (ap (λ x. record s { word = x }) whole))
    | inr failed ↦ inl (simp (behind, failed) refl)
  ]
]

counter_take-cases :
    (pages v : ℕ) (s : Counter)
    → (counter_take pages v s ≡ s)
      ⊎ ((count_of s.word < pages)
          × (counter_take pages v s ≡ record { word = s.word + 1; taken = s.word ∷ s.taken }))
unfolding counter_take take_body
counter_take-cases pages v s =
    elim (Bool-cases (not (phase_of s.word == v) || leb pages (count_of s.word))) [
      | inl none_left ↦ inl (simp none_left refl)
      | inr page_left ↦ inr (ground (arith, page_left), simp page_left refl)
    ]

-- Whatever resets and takes the threads make, at whatever versions below 2^32, and in whatever order, for fewer than
-- 2^32 pages: no page is taken twice in a phase, each page taken is one of the heap, and those taken in the current
-- phase are the ones below the count.
pub Reaches-IsHandedOut :
    (pages : ℕ) (s : Counter) → pages < 2 ^ 32 → Reaches pages s → IsHandedOut pages s
Reaches-IsHandedOut pages _ few (start phase) = record {
  once = tt;
  past = λ w i. elim i [ ];
  all = λ w e lt. absurd (omega (arith, e, lt));
  within = omega arith;
}
Reaches-IsHandedOut pages _ few (reset v s fits r) =
    let h = Reaches-IsHandedOut pages s few r in
    elim (counter_reset-cases v s fits) [
      | inl same ↦ subst (IsHandedOut pages) (sym same) h
      | inr (behind, moved) ↦ subst (IsHandedOut pages) (sym moved) (record {
        once = h.once;
        past = λ w i. let (lt, in_heap) = h.past w i in (omega (arith, behind, lt), in_heap);
        all = λ w e lt. absurd (omega (arith, e, lt));
        within = omega arith;
      })
    ]
Reaches-IsHandedOut pages _ few (take v s r) =
    let h = Reaches-IsHandedOut pages s few r in
    elim (counter_take-cases pages v s) [
      | inl same ↦ subst (IsHandedOut pages) (sym same) h
      | inr (page_left, moved) ↦ subst (IsHandedOut pages) (sym moved) (record {
        once = (λ i. omega (arith, (h.past s.word i).0), h.once);
        past = λ w i. elim i [
          | inl last ↦ (omega (arith, last), omega (arith, last, page_left))
          | inr old ↦ let (lt, in_heap) = h.past w old in (omega (arith, lt), in_heap)
        ];
        all = λ w e lt. elim (Bool-cases (w == s.word)) [
          | inl last ↦ inl (ground (arith, last))
          | inr other ↦ inr (h.all w (omega (arith, e, few, page_left)) (ground (arith, other, lt)))
        ];
        within = omega (arith, page_left, few);
      })
    ]
