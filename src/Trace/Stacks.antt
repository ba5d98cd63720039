-- ===== src/Trace/Stacks.antt =====
-- Mark stacks: what a write leaves alone, and what a run of pushes makes.
use native.Mathlib.Decide.{ℕ_discrete}
use automatic_optimistic_acc.Base.{
  In, ℕ, suc, ◌%◌, ◌≤◌, ◌≡◌, ◌⊎◌, inl, inr, refl, sym, ◌∙◌, List, [], ◌∷◌, arith, test_eq, test_ne,
}
use automatic_optimistic_acc.Lfl.{update}
use automatic_optimistic_acc.Trace.{Aligned, push_all}
use automatic_optimistic_acc.Trace.Invariant.{Slots, InStack}

-- The stack below a write at `suc c`.
below : (st : ℕ → ℕ) (c v j : ℕ) → j ≤ c → update st (suc c) v j ≡ st j
below st c v j le = rw (test_ne j (suc c) (omega arith)) refl

pub Slots-below : (st : ℕ → ℕ) (c v : ℕ) → Slots st c → Slots (update st (suc c) v) c
Slots-below st c v s j lo le = rw (below st c v j le) (s j lo le)

pub InStack-below : (st : ℕ → ℕ) (c v x : ℕ) → InStack st c x → InStack (update st (suc c) v) c x
InStack-below st c v x (j, lo, le, e) = (j, lo, le, below st c v j le ∙ e)

-- The stack above a write at 0.
bottom : (st : ℕ → ℕ) (v j : ℕ) → 1 ≤ j → update st 0 v j ≡ st j
bottom st v j lo = rw (test_ne j 0 (omega arith)) refl

pub Slots-bottom : (st : ℕ → ℕ) (c v : ℕ) → Slots st c → Slots (update st 0 v) c
Slots-bottom st c v s j lo le = rw (bottom st v j lo) (s j lo le)

pub InStack-bottom : (st : ℕ → ℕ) (c v x : ℕ) → InStack st c x → InStack (update st 0 v) c x
InStack-bottom st c v x (j, lo, le, e) = (j, lo, le, bottom st v j lo ∙ e)

pub InStack-more : (st : ℕ → ℕ) (c x : ℕ) → InStack st c x → InStack st (suc c) x
InStack-more st c x (j, lo, le, e) = (j, lo, omega arith, e)

pub Slots-more :
    (st : ℕ → ℕ) (c v : ℕ) → st (suc c) ≡ v → v % 32 ≡ 0 → Slots st c → Slots st (suc c)
Slots-more st c v e al s j lo le = elim (ℕ_discrete j (suc c)) [
  | yes q ↦ rw (q, e) al
  | no q ↦ s j lo (omega arith)
]

pub In-Aligned : (x : ℕ) (xs : List ℕ) → Aligned xs → In x xs → x % 32 ≡ 0
In-Aligned x [] al i = elim i [ ]
In-Aligned x (y ∷ ys) (a, al) (inl e) = rw e a
In-Aligned x (y ∷ ys) (a, al) (inr i) = In-Aligned x ys al i

pub push_all-Slots :
    (st : ℕ → ℕ) (c : ℕ) (ps : List ℕ)
    → Aligned ps
    → Slots st c
    → Slots (push_all st c ps).0 (push_all st c ps).1
unfolding push_all
push_all-Slots st c [] al s = s
push_all-Slots st c (p ∷ ps) (a, al) s = push_all-Slots (update st (suc c) p) (suc c) ps al (
    Slots-more (update st (suc c) p) c p (rw (test_eq (suc c) (suc c) refl) refl) a
      (Slots-below st c p s))

pub push_all-InStack :
    (st : ℕ → ℕ) (c : ℕ) (ps : List ℕ) (x : ℕ)
    → InStack st c x ⊎ In x ps
    → InStack (push_all st c ps).0 (push_all st c ps).1 x
unfolding push_all
push_all-InStack st c [] x (inl w) = w
push_all-InStack st c [] x (inr i) = elim i [ ]
push_all-InStack st c (p ∷ ps) x h = push_all-InStack (update st (suc c) p) (suc c) ps x (elim h [
  | inl w ↦ inl (InStack-more (update st (suc c) p) c x (InStack-below st c p x w))
  | inr (inl e) ↦ inl (suc c, omega arith, omega arith, rw (test_eq (suc c) (suc c) refl) (sym e))
  | inr (inr i) ↦ inr i
])
