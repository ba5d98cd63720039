-- ===== src/Trace.antt =====
-- Tracing in trace.c, one shared access at a time: `traceRoots` for the one root of the list, `trace`,
-- `traceMarkstack` and `traceObj` with `__mark`. Any number of threads trace in one phase; a thread that
-- has not yet seen its dirty bit may still write a link. The root `entryHead` is the link with name 0.
pub mod Invariant
pub mod Marking
pub mod Stacks
pub mod Local
pub mod Closed
pub mod Complete
pub mod Writers
pub mod Measure
pub mod Finish
pub mod WaitFree
use automatic_optimistic_acc.Base.{
  In, ℕ, zero, suc, ◌+◌, ◌-◌, ◌%◌, ◌≡◌, ◌⊎◌, Bool, true, false, List, [], ◌∷◌, ◌==◌, if◌then◌else◌,
}
use automatic_optimistic_acc.Lfl.{update}
use automatic_optimistic_acc.Marks.{mark_word, mark_bit, has_bit, set_bit, is_cur_phase}

-- A place of a thread, just before its next access, with the local variables that are live there:
-- `counter`, and in `traceObj` the node, the child that it read, and the mark word that it read.
pub data Pc : Type 0 where
  idle : Pc
  pop : (counter : ℕ) → Pc
  read_word : (cur counter : ℕ) → Pc
  publish : (cur old counter : ℕ) → Pc
  read_child : (cur old counter : ℕ) → Pc
  write_child : (cur nxt old counter : ℕ) → Pc
  mark_first : (cur nxt old counter : ℕ) → Pc
  mark_read : (cur nxt counter : ℕ) → Pc
  mark_swap : (cur nxt old counter : ℕ) → Pc
  undo : (counter : ℕ) → Pc
  finish : Pc
  done : Pc

-- `markstack` can be read by all threads.
pub record Thread : Type 0 where
  pub markstack : ℕ → ℕ
  pub pc : Pc

-- The mark words and the links, by address.
pub record Heap : Type 0 where
  pub words : ℕ → ℕ
  pub link : ℕ → ℕ

-- `UNMARK`
unfoldable pub unmark : ℕ → ℕ
unmark a = a - a % 4

-- `getChild`
abbrev pub child : Heap → ℕ → ℕ
child m n = unmark (m.link n)

-- `is_marked`
abbrev pub is_marked : Heap → ℕ → Bool
is_marked m n = has_bit (m.words (mark_word n)) (mark_bit n)

-- The end of `traceObj`, after `__mark` has returned 1 or 0.
unfoldable pub won : (nxt counter : ℕ) → Pc
won nxt counter = if nxt == 0 then pop counter else pop (suc counter)

unfoldable pub lost : (nxt counter : ℕ) → Pc
lost nxt counter = if nxt == 0 then pop counter else undo counter

-- The mark word of a node with the node's bit set.
unfoldable pub set_mark : Heap → (cur old : ℕ) → Heap
set_mark m cur old = record m {
  words = update m.words (mark_word cur) (set_bit old (mark_bit cur));
}

abbrev pub goto : Thread → Pc → Thread
goto th p = record th { pc = p }

-- One access of a thread; `phase` is `localSweep`.
unfoldable pub step_at : (phase : ℕ) → Heap → Thread → Pc → Heap × Thread
unfolding won lost set_mark
step_at phase m th idle = (m, goto th idle)
step_at phase m th (pop zero) = (m, goto th finish)
step_at phase m th (pop (suc counter)) =
    (m, goto th (read_word (th.markstack (suc counter)) counter))
step_at phase m th (read_word cur counter) =
    let old = m.words (mark_word cur) in
    (m, goto th (if has_bit old (mark_bit cur) then pop counter else publish cur old counter))
step_at phase m th (publish cur old counter) =
    (m, record { markstack = update th.markstack 0 cur; pc = read_child cur old counter })
step_at phase m th (read_child cur old counter) =
    let nxt = child m cur in
    (
      m,
      goto th (if nxt == 0 then mark_first cur 0 old counter else write_child cur nxt old counter),
    )
step_at phase m th (write_child cur nxt old counter) = (
  m,
  record { markstack = update th.markstack (suc counter) nxt; pc = mark_first cur nxt old counter },
)
step_at phase m th (mark_first cur nxt old counter) =
    if is_cur_phase old phase
    then if m.words (mark_word cur) == old
      then (set_mark m cur old, goto th (won nxt counter))
      else (m, goto th (mark_read cur nxt counter))
    else (m, goto th (lost nxt counter))
step_at phase m th (mark_read cur nxt counter) =
    let old = m.words (mark_word cur) in
    (
      m,
      goto th (
          if has_bit old (mark_bit cur)
          then lost nxt counter
          else if is_cur_phase old phase
          then mark_swap cur nxt old counter
          else lost nxt counter),
    )
step_at phase m th (mark_swap cur nxt old counter) =
    if m.words (mark_word cur) == old
    then (set_mark m cur old, goto th (won nxt counter))
    else (m, goto th (mark_read cur nxt counter))
step_at phase m th (undo counter) =
    (m, record { markstack = update th.markstack (suc counter) 0; pc = pop counter })
step_at phase m th finish = (
  m,
  record { markstack = update th.markstack 0 (th.markstack 0 + 1 - th.markstack 0 % 2); pc = done },
)
step_at phase m th done = (m, goto th done)

unfoldable pub step : (phase : ℕ) → Heap → Thread → Heap × Thread
unfolding step_at
step phase m th = step_at phase m th th.pc

-- `markstack[++counter] = p` for each pointer of a list.
unfoldable pub push_all : (ℕ → ℕ) → (counter : ℕ) → List ℕ → (ℕ → ℕ) × ℕ
push_all stack counter [] = (stack, counter)
push_all stack counter (p ∷ ps) = push_all (update stack (suc counter) p) (suc counter) ps

-- The roots of a trace: the child of `entryHead` if there is one (`traceRoots`), and the hazard
-- pointers.
unfoldable pub root_list : Heap → List ℕ → List ℕ
root_list m hps = if child m 0 == 0 then hps else child m 0 ∷ hps

-- `trace`, up to its `traceMarkstack`.
unfoldable pub load : Heap → List ℕ → Thread → Thread
unfolding push_all root_list
load m hps th =
    let (stack, counter) = push_all th.markstack 0 (root_list m hps) in
    record { markstack = stack; pc = pop counter }

pub record System : Type 0 where
  pub heap : Heap
  pub threads : ℕ → Thread

-- No pointer, or one that a hazard pointer protects.
abbrev pub Root : List ℕ → ℕ → Type 0
Root hps x = (x ≡ 0) ⊎ In x hps

-- Nodes are aligned to their size.
abbrev pub Aligned : List ℕ → Type 0
Aligned [] = Unit {0}
Aligned (x ∷ xs) = (x % 32 ≡ 0) × Aligned xs

-- `enter` is the beginning of `trace`, and `help` the return of `CheckFinish` with pointers of other
-- threads. `mutate` is a store by a thread of the list that has not yet noticed the phase: what it
-- writes it has protected, or it changes the deletion mark alone.
pub data Step (phase : ℕ) (hps : List ℕ) (s : System) : System → Type 0 where
  enter :
      (i : ℕ)
      → (s.threads i).pc ≡ idle
      → Step phase hps s (record s { threads = update s.threads i (load s.heap hps (s.threads i)) })
  turn :
      (i : ℕ)
      → Step phase hps s (record {
        heap = (step phase s.heap (s.threads i)).0;
        threads = update s.threads i (step phase s.heap (s.threads i)).1;
      })
  mutate :
      (a v : ℕ)
      → Root hps (unmark v) ⊎ (unmark v ≡ child s.heap a)
      → Step phase hps s (record s { heap = record s.heap { link = update s.heap.link a v } })
  help :
      (i : ℕ) (ptrs : List ℕ)
      → (s.threads i).pc ≡ done
      → Aligned ptrs
      → Step phase hps s (record s {
        threads = update s.threads i (record {
          markstack = (push_all (s.threads i).markstack 0 ptrs).0;
          pc = pop (push_all (s.threads i).markstack 0 ptrs).1;
        });
      })

-- The marks are clear in all words of the phase, and nobody traces.
pub record Start (phase : ℕ) (hps : List ℕ) (s : System) : Type 0 where
  pub cleared : (n : ℕ) → is_marked s.heap n ≡ false
  pub current : (a : ℕ) → is_cur_phase (s.heap.words a) phase ≡ true
  pub aligned : (n : ℕ) → child s.heap n % 32 ≡ 0
  pub protected : Aligned hps
  pub resting : (i : ℕ) → (s.threads i).pc ≡ idle

-- From the first thread that enters on.
pub data Reach (phase : ℕ) (hps : List ℕ) : System → Type 0 where
  begins :
      (s : System) (i : ℕ)
      → Start phase hps s
      → Reach phase hps (record s { threads = update s.threads i (load s.heap hps (s.threads i)) })
  later : {s t : System} → Reach phase hps s → Step phase hps s t → Reach phase hps t
