-- ===== src/Tests/LflTests.antt =====
-- Schedules of the lock-free list: reachable states by evaluation.
use native.Mathlib.Decide.{ℕ_discrete, dec_lt}
use mathlib.Core.List.{foldl}
use automatic_optimistic_acc.Base.{In, zero, suc}
use automatic_optimistic_acc.Base.{
  ℕ, ◌%◌, ◌^◌, ◌≡◌, refl, Bool, true, false, Option, none, some, List, [], ◌∷◌, arith,
}
use automatic_optimistic_acc.Entry.{get_key}
use automatic_optimistic_acc.Lfl.{
  Status, free, Memory, Task, search, insert, delete, key_of, Pc, start, revalidate, alloc, connect,
  is_idle, is_request, step, Available, System, call, turn, init, Reach, initially, later,
}
use automatic_optimistic_acc.Lfl.Chain.{Chain}
use automatic_optimistic_acc.Lfl.Invariant.{key, Inv}
use automatic_optimistic_acc.Lfl.Linear.{Live, Present, added, event, Effect}
use automatic_optimistic_acc.Lfl.Linearizable.{
  turn-Effect, Live-nodes, revalidate-absent, read_next-Present, insert-Adds,
}
use automatic_optimistic_acc.Lfl.Safety.{Reach-Inv}

Bool-discrete : Discrete Bool
Bool-discrete = hlevel

Status-discrete : Discrete Status
Status-discrete = hlevel ℕ_discrete

data Action : Type 0 where
  calls : (thread : ℕ) → Task → Action
  turns : (thread fresh : ℕ) → Action

record Run : Type 0 where
  last : System
  reach : Reach false last

available : (m : Memory) (pc : Pc) (n : ℕ) → Option (Available m pc n)
unfolding Status-discrete ℕ_discrete
available m (alloc k d prev cur) n = elim (Status-discrete (m.status n) free) [
  | no _ ↦ none
  | yes e ↦ elim (ℕ_discrete n 0) [
    | yes _ ↦ none
    | no nz ↦ elim (ℕ_discrete (n % 2) 0) [ no _ ↦ none | yes even ↦ some (e, nz, even) ]
  ]
]
available m _ n = some tt

move : Run → Action → Run
unfolding available Bool-discrete key_of dec_lt step
move r (calls i t) = elim (Bool-discrete (is_idle (r.last.pc i)) true) [
  | no _ ↦ r
  | yes idle ↦ elim (Bool-discrete (is_request t) true) [
    | no _ ↦ r
    | yes request ↦ elim (dec_lt (key_of t) (2 ^ 31)) [
      | no _ ↦ r
      | yes small ↦ record { last = _; reach = later r.reach (call i t idle request small) }
    ]
  ]
]
move r (turns i fresh) = elim (available r.last.mem (r.last.pc i) fresh) [
  | none ↦ r
  | some av ↦ record { last = _; reach = later r.reach (turn i fresh av) }
]

run : List Action → Run
unfolding move
run = foldl move (record { last = init; reach = initially })

abbrev steps : ℕ → ℕ → List Action → List Action
steps zero i rest = rest
steps (suc n) i rest = turns i 0 ∷ steps n i rest

-- Thread 0 inserts 5 at node 8 up to its compare-and-swap.
abbrev inserting : List Action → List Action
inserting rest = calls 0 (insert 5 0) ∷ turns 0 0 ∷ turns 0 8 ∷ steps 2 0 rest

abbrev connecting : Run
connecting = run (inserting [])

connecting_pc : connecting.last.pc 0 ≡ connect 5 0 0 0 8
unfolding run
connecting_pc = refl

-- Then thread 1 looks for 3, up to its revalidation.
abbrev looking : Run
looking = run (inserting (turns 0 0 ∷ calls 1 (search 3) ∷ steps 3 1 []))

looking_pc : looking.last.pc 1 ≡ revalidate (search 3) 0 8 0 5
unfolding run get_key
looking_pc = refl

abbrev reading : Run
reading = run (inserting (turns 0 0 ∷ calls 1 (search 3) ∷ steps 1 1 []))

-- Thread 1 deletes 5 while thread 2 holds it: the mark stops the insertion of 7 behind it.
raced :
    (run (
        inserting (
          turns 0 0
          ∷ calls 2 (insert 7 0)
          ∷ steps 4 2
              (turns 2 16 ∷ steps 2 2 (calls 1 (delete 5) ∷ steps 5 1 (turns 2 0 ∷ [])))))).last.pc
      2
    ≡ start (insert 7 0)
unfolding run get_key
raced = refl

turn-Effect_example :
    Effect
      (event connecting.last.mem (connecting.last.pc 0))
      connecting.last.mem
      (step false 0 0 connecting.last.mem (connecting.last.pc 0)).0
unfolding run
turn-Effect_example = turn-Effect connecting.reach 0 0 tt

Live-nodes_example :
    (xs : List ℕ) × Chain looking.last.mem.link 0 xs
    × ((n : ℕ) → Live looking.last.mem n → In n xs)
    × ((n n' : ℕ)
        → Live looking.last.mem n
        → Live looking.last.mem n'
        → key looking.last.mem n ≡ key looking.last.mem n'
        → n ≡ n')
Live-nodes_example = Live-nodes looking.reach

revalidate-absent_example : ¬ Present looking.last.mem 3
unfolding run get_key
revalidate-absent_example =
    revalidate-absent looking.reach 1 (search 3) 0 8 0 5 refl refl (omega arith)

read_next-Present_example : Present reading.last.mem (key reading.last.mem 8)
unfolding run get_key
read_next-Present_example = read_next-Present reading.reach 1 (search 3) 0 8 refl refl

Reach-Inv_example : Inv looking.last
Reach-Inv_example = Reach-Inv looking.reach

insert-Adds_example :
    Effect
      (added 5)
      connecting.last.mem
      (step false 0 0 connecting.last.mem (connecting.last.pc 0)).0
unfolding run
insert-Adds_example = insert-Adds connecting.reach 0 0 5 tt refl refl
