-- ===== src/Refcount.antt =====
-- refcount.c: reference counts. A count is twice the number of references; its lowest bit is set while the
-- node is free. `long` is 64 bits wide, its wrap-around written out. The free list belongs to one thread.
pub mod Decrement
pub mod Release
pub mod Reuse
use automatic_optimistic_acc.Base.{
  ℕ, zero, suc, ◌+◌, ◌-◌, ◌%◌, ◌^◌, Bool, not, ◌&&◌, List, [], ◌∷◌, Option, none, some, ◌==◌,
  if◌then◌else◌,
}
use mathlib.Core.Option.{map as map_option}
use automatic_optimistic_acc.Base.Cas.{Decision, swap, cas_loop}
use automatic_optimistic_acc.Entry.{clear_deleted}
use automatic_optimistic_acc.Lfl.{update}

-- What `DecrementAndTestAndSet` writes for the count `old`, with its result.
unfoldable pub decrement_body : ℕ → Decision ℕ Bool
decrement_body old =
    let less = (old + (2 ^ 64 - 2)) % 2 ^ 64 in
    let new = if less == 0 then 1 else less in swap new ((old + (2 ^ 64 - new)) % 2 == 1)

-- The list says what other threads write between a read and the swap after it.
unfoldable pub decrement_and_test_and_set : List (Option ℕ) → ℕ → ℕ × Bool
unfolding cas_loop decrement_body
decrement_and_test_and_set os count = cas_loop ◌==◌ decrement_body os count

unfoldable pub clear_lowest_bit : List (Option ℕ) → ℕ → ℕ
unfolding cas_loop
clear_lowest_bit os count =
    (cas_loop ◌==◌ (λ old. swap ((old + (2 ^ 64 - 1)) % 2 ^ 64) old) os count).0

pub record Store : Type 0 where
  pub refcount : ℕ → ℕ
  pub next_entry : ℕ → ℕ
  pub free_list : ℕ

abbrev pub set_count : Store → (p count : ℕ) → Store
set_count s p count = record s { refcount = update s.refcount p count }

-- `freeList == clearDeleted(freeList)`, as the assertions have it
unfoldable pub unmarked_list : ℕ → Bool
unfolding clear_deleted
unmarked_list free_list = free_list == clear_deleted free_list

-- `none` is a failed assertion.
unfoldable pub reclaim : ℕ → Store → Option Store
unfolding unmarked_list
reclaim p s =
    if unmarked_list s.free_list && unmarked_list p
    then some (record s { next_entry = update s.next_entry p s.free_list; free_list = p })
    else none

abbrev pub reclaim_after : ℕ → Option Store → Option Store
reclaim_after p none = none
reclaim_after p (some s) = reclaim p s

-- It calls itself on the next node; `fuel` bounds the calls. `none` is a failed assertion, or the end of the fuel.
unfoldable pub release : (fuel : ℕ) → Store → ℕ → Option Store
release zero s p = none
release (suc fuel) s p =
    let q = clear_deleted p in
    let (count, claimed) = decrement_and_test_and_set [] (s.refcount q) in
    let lower = set_count s q count in
    let rest = release fuel lower (s.next_entry q) in
    if q == 0 then some s else if claimed then reclaim_after q rest else some lower

-- `safeRead`. Each attempt finds a pointer in the first read and another, or the same, in the second; in
-- the last attempt of the list both reads agree.
unfoldable pub safe_read : (fuel : ℕ) → Store → List (ℕ × ℕ) → (last : ℕ) → Option (Store × ℕ)
safe_read fuel s [] q =
    let p = clear_deleted q in
    if p == 0 then some (s, q) else some (set_count s p ((s.refcount p + 2) % 2 ^ 64), q)
safe_read fuel s ((q, again) ∷ rest) last =
    let p = clear_deleted q in
    let more = set_count s p ((s.refcount p + 2) % 2 ^ 64) in
    if p == 0
    then some (s, q)
    else if again == q
    then some (more, q)
    else elim (release fuel more q) [ none ↦ none | some s' ↦ safe_read fuel s' rest last ]

-- `newRC`, with its assertions. `palloc` is given by the node that it returns.
unfoldable pub new_rc : (palloc : ℕ) → Store → Option (Store × ℕ)
unfolding unmarked_list
new_rc palloc s =
    let p = s.free_list in
    let count = clear_lowest_bit [] ((s.refcount p + 2) % 2 ^ 64) in
    if not (unmarked_list p)
    then none
    else if p == 0
    then some (set_count s palloc 2, palloc)
    else if unmarked_list (s.next_entry p)
    then some (record s { refcount = update s.refcount p count; free_list = s.next_entry p }, p)
    else none

-- `cntfree`
unfoldable pub cntfree : (fuel : ℕ) → (next_entry : ℕ → ℕ) → (cur : ℕ) → Option ℕ
cntfree zero next_entry cur = none
cntfree (suc fuel) next_entry cur =
    let rest = cntfree fuel next_entry (next_entry cur) in
    if cur == 0 then some 0 else map_option suc rest
