-- ===== src/Trace/Measure.antt =====
-- How far a tracing thread is from its end: a number that each of its steps lowers and that the others
-- cannot raise.
use automatic_optimistic_acc.Base.{
  In, ℕ, ◌+◌, ◌*◌, ◌≤◌, ◌<◌, ◌≡◌, ◌⊎◌, inl, inr, refl, false, List, [], ◌∷◌, arith, ◌==◌,
  if◌then◌else◌, Bool-cases, ap, sym, ◌∙◌,
}
use automatic_optimistic_acc.Marks.{mark_word}
use automatic_optimistic_acc.Trace.{
  Pc, idle, pop, read_word, publish, read_child, write_child, mark_first, mark_read, mark_swap,
  undo, finish, done, Heap, child, is_marked,
}
use automatic_optimistic_acc.Trace.Invariant.{Marked}

unfoldable pub unmarked : Heap → List ℕ → ℕ
unmarked m [] = 0
unmarked m (n ∷ ns) = (if is_marked m n then 0 else 1) + unmarked m ns

-- The pointers on the mark stack.
abbrev pub height : Pc → ℕ
height (pop c) = c
height (read_word cur c) = c
height (publish cur old c) = c
height (read_child cur old c) = c
height (write_child cur nxt old c) = c
height (mark_first cur nxt old c) = c
height (mark_read cur nxt c) = c
height (mark_swap cur nxt old c) = c
height (undo c) = c
height _ = 0

-- A swap that has to fail leads to another attempt.
abbrev pub rank : Heap → Pc → ℕ
rank m idle = 0
rank m (pop c) = 2
rank m (read_word cur c) = 11
rank m (publish cur old c) = 10
rank m (read_child cur old c) = 9
rank m (write_child cur nxt old c) = 8
rank m (mark_first cur nxt old c) = 7
rank m (mark_read cur nxt c) = 5
rank m (mark_swap cur nxt old c) = if m.words (mark_word cur) == old then 4 else 6
rank m (undo c) = 3
rank m finish = 1
rank m done = 0

abbrev pub distance : List ℕ → Heap → Pc → ℕ
distance nodes m pc = 32 * unmarked m nodes + 16 * height pc + rank m pc

pub unmarked_le :
    (m m' : Heap) (ns : List ℕ)
    → ((n : ℕ) → Marked m n → Marked m' n)
    → unmarked m' ns ≤ unmarked m ns
unfolding unmarked
unmarked_le m m' [] keeps = omega arith
unmarked_le m m' (n ∷ ns) keeps =
    let rest = unmarked_le m m' ns keeps in
    elim (Bool-cases (is_marked m n)) [
      | inl e ↦ rw (e, keeps n e) (omega arith)
      | inr e ↦ rw e (ground arith)
    ]

pub unmarked_lt :
    (m m' : Heap) (x : ℕ) (ns : List ℕ)
    → ((n : ℕ) → Marked m n → Marked m' n)
    → In x ns
    → is_marked m x ≡ false
    → Marked m' x
    → unmarked m' ns < unmarked m ns
unfolding unmarked
unmarked_lt m m' x [] keeps i clear marked = elim i [ ]
unmarked_lt m m' x (n ∷ ns) keeps (inl e) clear marked =
    let rest = unmarked_le m m' ns keeps in
    rw (ap (is_marked m) (sym e) ∙ clear, ap (is_marked m') (sym e) ∙ marked) (omega arith)
unmarked_lt m m' x (n ∷ ns) keeps (inr i) clear marked =
    let rest = unmarked_lt m m' x ns keeps i clear marked in
    elim (Bool-cases (is_marked m n)) [
      | inl e ↦ rw (e, keeps n e) (omega arith)
      | inr e ↦ rw e (ground arith)
    ]

pub unmarked_same :
    (m m' : Heap) (ns : List ℕ)
    → ((a : ℕ) → m'.words a ≡ m.words a)
    → unmarked m' ns ≡ unmarked m ns
unfolding unmarked
unmarked_same m m' [] same = refl
unmarked_same m m' (n ∷ ns) same = rw (same (mark_word n), unmarked_same m m' ns same) refl

rank_same : (m m' : Heap) (pc : Pc) → ((a : ℕ) → m'.words a ≡ m.words a) → rank m' pc ≡ rank m pc
rank_same m m' (mark_swap cur nxt old c) same = rw (same (mark_word cur)) refl
rank_same m m' _ same = refl

rank_near : (m m' : Heap) (pc : Pc) → rank m' pc ≤ rank m pc + 2
rank_near m m' (mark_swap cur nxt old c) = ground arith
rank_near m m' _ = omega arith

-- What the other threads do between two steps of a thread: they set no mark, or fewer of the nodes are unmarked
-- afterwards; and the child of a node stays one of the nodes, or none.
pub record Interferes (nodes : List ℕ) (m m' : Heap) : Type 0 where
  pub moves : ((a : ℕ) → m'.words a ≡ m.words a) ⊎ (unmarked m' nodes < unmarked m nodes)
  pub closed : (n : ℕ) → In n nodes → (child m' n ≡ 0) ⊎ In (child m' n) nodes

pub distance-Interferes :
    (nodes : List ℕ) (m m' : Heap) (pc : Pc)
    → Interferes nodes m m'
    → distance nodes m' pc ≤ distance nodes m pc
distance-Interferes nodes m m' pc i = elim i.moves [
  | inl same ↦ rw (unmarked_same m m' nodes same, rank_same m m' pc same) (omega arith)
  | inr less ↦ let near = rank_near m m' pc in omega arith
]
