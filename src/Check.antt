-- ===== src/Check.antt =====
-- `CheckFinish` of trace.c: a thread that has no more to trace looks at the mark stacks of all threads, for
-- pointers that are not marked. The others go on while it reads; so what it reads is arbitrary, and each read
-- has a place of its own in the records below. `usleep` plays no part.
pub mod Scan
pub mod Answers
use automatic_optimistic_acc.Base.{
  ℕ, zero, suc, ◌+◌, ◌%◌, ◌^◌, Bool, true, false, not, ◌&&◌, List, [], ◌∷◌, ltb, ◌==◌,
  if◌then◌else◌, length, Outcome, ok, out_of_fuel,
}

-- A pointer of a mark stack, and what `is_marked` says of it.
pub record StackEntry : Type 0 where
  pub ptr : ℕ
  pub marked : Bool

-- What is read of one thread in one round: the version, `markstack[0]`, the stack up to `NULL`, the mark of the
-- traced node; and `markstack[0]` and the version again.
pub record Seen : Type 0 where
  pub local_ver : ℕ
  pub tracing : ℕ
  pub stack : List StackEntry
  pub tracing_marked : Bool
  pub later_tracing : ℕ
  pub later_ver : ℕ

-- A version against one that went through an `int`; a negative one equals no version.
unfoldable pub same_phase : (ver cur_phase : ℕ) → Bool
same_phase ver cur_phase = ltb (cur_phase % 2 ^ 32) (2 ^ 31) && (cur_phase % 2 ^ 32 == ver)

-- Not finished, and in this phase.
unfoldable pub is_tracing : (local_ver : ℕ) → Seen → Bool
unfolding same_phase
is_tracing local_ver s = (s.tracing % 2 == 0) && same_phase local_ver s.local_ver

-- The loop over one stack; the pointers that are put on the own stack, the last one first.
unfoldable pub scan_stack : List StackEntry → List ℕ → List ℕ
scan_stack [] helped = helped
scan_stack (e ∷ es) helped =
    scan_stack es (if not e.marked && ltb (length helped) 10 then e.ptr ∷ helped else helped)

unfoldable pub scan_thread : (local_ver : ℕ) → Seen → List ℕ → List ℕ
unfolding is_tracing scan_stack
scan_thread local_ver s helped =
    let scanned = scan_stack s.stack helped in
    if is_tracing local_ver s
    then (if s.tracing_marked then scanned else s.tracing ∷ scanned)
    else helped

unfoldable pub scan : (local_ver : ℕ) → List Seen → List ℕ → List ℕ
unfolding scan_thread
scan local_ver [] helped = helped
scan local_ver (s ∷ seen) helped = scan local_ver seen (scan_thread local_ver s helped)

-- The second loop over the threads.
unfoldable pub unchanged : List Seen → Bool
unfolding same_phase
unchanged [] = true
unchanged (s ∷ seen) =
    (s.later_tracing == s.tracing) && same_phase s.later_ver s.local_ver && unchanged seen

-- The result, and what is on the own stack. `phase` is the phase that is read when there is something to help
-- with. The rounds are bounded by the fuel, and numbered down to 0.
unfoldable pub check_finish :
    (fuel : ℕ) (rounds : ℕ → List Seen) (phase local_ver : ℕ) → Outcome (Bool × List ℕ)
unfolding scan unchanged
check_finish zero rounds phase local_ver = out_of_fuel
check_finish (suc fuel) rounds phase local_ver =
    let again = check_finish fuel rounds phase local_ver in
    let helped = scan local_ver (rounds fuel) [] in
    if ltb 0 (length helped)
    then (if phase == local_ver then ok (false, helped) else ok (true, []))
    else if unchanged (rounds fuel)
    then ok (true, [])
    else again
