-- ===== src/Trace/Invariant.antt =====
-- What holds while threads trace: what a thread's locals say, what it has still to do, and which
-- pointers are taken care of.
use automatic_optimistic_acc.Base.{In, ℕ, suc, ◌%◌, ◌≤◌, ◌≡◌, ◌≢◌, ◌⊎◌, true, List}
use automatic_optimistic_acc.Marks.{is_cur_phase}
use automatic_optimistic_acc.Trace.{
  Pc, pop, read_word, publish, read_child, write_child, mark_first, mark_read, mark_swap, undo,
  Thread, Heap, System, child, is_marked, Root, Aligned,
}

abbrev pub Marked : Heap → ℕ → Type 0
Marked m n = is_marked m n ≡ true

-- The pointers at 1 to `c` of a mark stack are nodes.
abbrev pub Slots : (stack : ℕ → ℕ) (c : ℕ) → Type 0
Slots stack c = (j : ℕ) → 1 ≤ j → j ≤ c → stack j % 32 ≡ 0

-- `nxt` is the child of `cur`, or the link has been written since: then it has a root.
abbrev pub Stale : List ℕ → Heap → (cur nxt : ℕ) → Type 0
Stale hps m cur nxt = (nxt % 32 ≡ 0) × ((child m cur ≡ nxt) ⊎ Root hps (child m cur))

-- The tentative entry of the child.
abbrev pub Written : (stack : ℕ → ℕ) (c nxt : ℕ) → Type 0
Written stack c nxt = nxt ≢ 0 → stack (suc c) ≡ nxt

abbrev pub Current : (phase old : ℕ) → Type 0
Current phase old = is_cur_phase old phase ≡ true

-- What the locals at a place say.
abbrev pub Ok : (phase : ℕ) → List ℕ → Heap → (stack : ℕ → ℕ) → Pc → Type 0
Ok p hps m st (pop c) = Slots st c
Ok p hps m st (read_word cur c) = (cur % 32 ≡ 0) × Slots st c
Ok p hps m st (publish cur old c) = (cur % 32 ≡ 0) × Slots st c × Current p old
Ok p hps m st (read_child cur old c) = (cur % 32 ≡ 0) × Slots st c × Current p old
Ok p hps m st (write_child cur nxt old c) =
    (cur % 32 ≡ 0) × Slots st c × Current p old × Stale hps m cur nxt
Ok p hps m st (mark_first cur nxt old c) =
    (cur % 32 ≡ 0) × Slots st c × Current p old × Stale hps m cur nxt × Written st c nxt
Ok p hps m st (mark_read cur nxt c) =
    (cur % 32 ≡ 0) × Slots st c × Stale hps m cur nxt × Written st c nxt
Ok p hps m st (mark_swap cur nxt old c) =
    (cur % 32 ≡ 0) × Slots st c × Current p old × Stale hps m cur nxt × Written st c nxt
Ok p hps m st (undo c) = Slots st c
Ok p hps m st _ = Unit {0}

abbrev pub InStack : (stack : ℕ → ℕ) (c x : ℕ) → Type 0
InStack st c x = (j : ℕ) × (1 ≤ j) × (j ≤ c) × (st j ≡ x)

-- The pointers that a thread has still to trace.
abbrev pub Work : (stack : ℕ → ℕ) → Pc → ℕ → Type 0
Work st (pop c) x = InStack st c x
Work st (read_word cur c) x = (x ≡ cur) ⊎ InStack st c x
Work st (publish cur old c) x = (x ≡ cur) ⊎ InStack st c x
Work st (read_child cur old c) x = (x ≡ cur) ⊎ InStack st c x
Work st (write_child cur nxt old c) x = (x ≡ cur) ⊎ InStack st c x
Work st (mark_first cur nxt old c) x = (x ≡ cur) ⊎ InStack st c x
Work st (mark_read cur nxt c) x = (x ≡ cur) ⊎ InStack st c x
Work st (mark_swap cur nxt old c) x = (x ≡ cur) ⊎ InStack st c x
Work st (undo c) x = InStack st c x
Work st _ x = ⊥

abbrev pub InWork : Thread → ℕ → Type 0
InWork th x = Work th.markstack th.pc x

-- A pointer that is taken care of.
abbrev pub Covered : System → ℕ → Type 0
Covered s x = (x ≡ 0) ⊎ (Marked s.heap x ⊎ ((i : ℕ) × InWork (s.threads i) x))

-- The tri-colour invariant: the children of marked nodes and all roots are covered.
pub record Inv (phase : ℕ) (hps : List ℕ) (s : System) : Type 0 where
  pub current : (a : ℕ) → Current phase (s.heap.words a)
  pub aligned : (n : ℕ) → child s.heap n % 32 ≡ 0
  pub protected : Aligned hps
  pub ok : (i : ℕ) → Ok phase hps s.heap (s.threads i).markstack (s.threads i).pc
  pub roots : (h : ℕ) → In h hps → Covered s h
  pub closed : (n : ℕ) → n % 32 ≡ 0 → (n ≡ 0) ⊎ Marked s.heap n → Covered s (child s.heap n)
