-- ===== src/Check/Scan.antt =====
-- What the scan of the mark stacks finds.
use automatic_optimistic_acc.Base.{
  ℕ, suc, ◌+◌, ◌≤◌, ◌≡◌, ◌⊎◌, inl, inr, refl, sym, subst, true, false, not, ◌&&◌, List, [], ◌∷◌,
  arith, ltb, length, In, Bool-cases,
}
use automatic_optimistic_acc.Check.{StackEntry, Seen, is_tracing, scan_stack, scan_thread, scan}

abbrev pub AllMarked : List StackEntry → Type 0
AllMarked [] = Unit {0}
AllMarked (e ∷ es) = (e.marked ≡ true) × AllMarked es

-- Nothing is left of a thread: it does not trace, or all that it holds is marked.
abbrev pub Quiet : (local_ver : ℕ) → Seen → Type 0
Quiet v s = (is_tracing v s ≡ false) ⊎ ((s.tracing_marked ≡ true) × AllMarked s.stack)

abbrev pub AllQuiet : (local_ver : ℕ) → List Seen → Type 0
AllQuiet v [] = Unit {0}
AllQuiet v (s ∷ ss) = Quiet v s × AllQuiet v ss

abbrev pub UnmarkedIn : ℕ → List StackEntry → Type 0
UnmarkedIn p [] = ⊥
UnmarkedIn p (e ∷ es) = ((e.marked ≡ false) × (p ≡ e.ptr)) ⊎ UnmarkedIn p es

-- A thread that traces was seen with the pointer, which was not marked.
abbrev pub Shows : (local_ver p : ℕ) → Seen → Type 0
Shows v p s =
    (is_tracing v s ≡ true)
    × (((s.tracing_marked ≡ false) × (p ≡ s.tracing)) ⊎ UnmarkedIn p s.stack)

abbrev pub Shown : (local_ver p : ℕ) → List Seen → Type 0
Shown v p [] = ⊥
Shown v p (s ∷ ss) = Shows v p s ⊎ Shown v p ss

scan_stack-grows : (es : List StackEntry) (st : List ℕ) → length st ≤ length (scan_stack es st)
unfolding scan_stack
scan_stack-grows [] st = omega arith
scan_stack-grows (e ∷ es) st = elim (Bool-cases (not e.marked && ltb (length st) 10)) [
  | inl push ↦ rw push (omega (arith, scan_stack-grows es (e.ptr ∷ st)))
  | inr skip ↦ rw skip (scan_stack-grows es st)
]

scan_stack-bound :
    (es : List StackEntry) (st : List ℕ) (n : ℕ)
    → length st ≤ 10 + n
    → length (scan_stack es st) ≤ 10 + n
unfolding scan_stack
scan_stack-bound [] st n le = le
scan_stack-bound (e ∷ es) st n le = elim (Bool-cases (not e.marked && ltb (length st) 10)) [
  | inl push ↦ rw push (scan_stack-bound es (e.ptr ∷ st) n (ground (arith, push)))
  | inr skip ↦ rw skip (scan_stack-bound es st n le)
]

scan_stack-none : (es : List StackEntry) → length (scan_stack es []) ≡ 0 → AllMarked es
unfolding scan_stack
scan_stack-none [] e = tt
scan_stack-none (m ∷ es) e = elim (Bool-cases m.marked) [
  | inl marked ↦ (marked, scan_stack-none es (rw marked at e))
  | inr clear ↦ absurd (omega (arith, scan_stack-grows es (m.ptr ∷ []), rw clear at e))
]

scan_stack-In :
    (es : List StackEntry) (st : List ℕ) (p : ℕ)
    → In p (scan_stack es st)
    → UnmarkedIn p es ⊎ In p st
unfolding scan_stack
scan_stack-In [] st p i = inr i
scan_stack-In (e ∷ es) st p i = elim (Bool-cases e.marked) [
  | inl marked ↦ elim (scan_stack-In es st p (rw marked at i)) [
    | inl later ↦ inl (inr later)
    | inr old ↦ inr old
  ]
  | inr clear ↦ elim (Bool-cases (ltb (length st) 10)) [
    | inl room ↦ elim (scan_stack-In es (e.ptr ∷ st) p (rw (clear, room) at i)) [
      | inl later ↦ inl (inr later)
      | inr (inl here) ↦ inl (inl (clear, here))
      | inr (inr old) ↦ inr old
    ]
    | inr full ↦ elim (scan_stack-In es st p (rw (clear, full) at i)) [
      | inl later ↦ inl (inr later)
      | inr old ↦ inr old
    ]
  ]
]

-- What the scan of one thread does to the own stack.
record Scanned (v : ℕ) (s : Seen) (st result : List ℕ) : Type 0 where
  grows : length st ≤ length result
  bound : (n : ℕ) → length st ≤ 10 + n → length result ≤ 11 + n
  none : st ≡ [] → length result ≡ 0 → Quiet v s
  shows : (p : ℕ) → In p result → Shows v p s ⊎ In p st

scan_thread-Scanned : (v : ℕ) (s : Seen) (st : List ℕ) → Scanned v s st (scan_thread v s st)
unfolding scan_thread
scan_thread-Scanned v s st = elim (Bool-cases (is_tracing v s)) [
  | inr idle ↦ rw idle (record {
    grows = omega arith;
    bound = λ n le. omega (arith, le);
    none = λ e z. inl idle;
    shows = λ p i. inr i;
  })
  | inl active ↦ elim (Bool-cases s.tracing_marked) [
    | inl marked ↦ subst (Scanned v s st) (sym (whole_stack active marked)) (record {
      grows = scan_stack-grows s.stack st;
      bound = λ n le. omega (arith, scan_stack-bound s.stack st n le);
      none = λ e z.
          inr
            (marked, scan_stack-none s.stack (subst (λ x. length (scan_stack s.stack x) ≡ 0) e z));
      shows = λ p i. elim (scan_stack-In s.stack st p i) [
        | inl there ↦ inl (active, inr there)
        | inr old ↦ inr old
      ];
    })
    | inr clear ↦ subst (Scanned v s st) (sym (and_node active clear)) (record {
      grows = omega (arith, scan_stack-grows s.stack st);
      bound = λ n le. omega (arith, scan_stack-bound s.stack st n le);
      none = λ e z. absurd (omega (arith, z));
      shows = λ p i. elim i [
        | inl here ↦ inl (active, inl (clear, here))
        | inr rest ↦ elim (scan_stack-In s.stack st p rest) [
          | inl there ↦ inl (active, inr there)
          | inr old ↦ inr old
        ]
      ];
    })
  ]
]
  where
    whole_stack :
        is_tracing v s ≡ true → s.tracing_marked ≡ true → scan_thread v s st ≡ scan_stack s.stack st
    whole_stack active marked = simp (active, marked) refl

    and_node :
        is_tracing v s ≡ true
        → s.tracing_marked ≡ false
        → scan_thread v s st ≡ s.tracing ∷ scan_stack s.stack st
    and_node active clear = simp (active, clear) refl

scan-grows : (v : ℕ) (ss : List Seen) (st : List ℕ) → length st ≤ length (scan v ss st)
unfolding scan
scan-grows v [] st = omega arith
scan-grows v (s ∷ ss) st =
    omega (arith, (scan_thread-Scanned v s st).grows, scan-grows v ss (scan_thread v s st))

pub scan-bound :
    (v : ℕ) (ss : List Seen) (st : List ℕ) (n : ℕ)
    → length st ≤ 10 + n
    → length (scan v ss st) ≤ 10 + n + length ss
unfolding scan
scan-bound v [] st n le = omega (arith, le)
scan-bound v (s ∷ ss) st n le = omega (
  arith,
  scan-bound v ss (scan_thread v s st) (suc n)
      (omega (arith, (scan_thread-Scanned v s st).bound n le)),
)

-- A list without elements.
length-none : (st : List ℕ) → length st ≡ 0 → st ≡ []
length-none [] e = refl
length-none (x ∷ st) e = absurd (omega (arith, e))

pub scan-none : (v : ℕ) (ss : List Seen) → length (scan v ss []) ≡ 0 → AllQuiet v ss
unfolding scan
scan-none v [] e = tt
scan-none v (s ∷ ss) e =
    let one = scan_thread-Scanned v s [] in
    let st = scan_thread v s [] in
    let empty : length st ≡ 0 = omega (arith, e, scan-grows v ss st) in
    (
      one.none refl empty,
      scan-none v ss (subst (λ x. length (scan v ss x) ≡ 0) (length-none st empty) e),
    )

pub scan-Shown :
    (v : ℕ) (ss : List Seen) (st : List ℕ) (p : ℕ) → In p (scan v ss st) → Shown v p ss ⊎ In p st
unfolding scan
scan-Shown v [] st p i = inr i
scan-Shown v (s ∷ ss) st p i = elim (scan-Shown v ss (scan_thread v s st) p i) [
  | inl later ↦ inl (inr later)
  | inr first ↦ elim ((scan_thread-Scanned v s st).shows p first) [
    | inl here ↦ inl (inl here)
    | inr old ↦ inr old
  ]
]
