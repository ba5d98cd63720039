-- ===== src/Tests/SetTests.antt =====
-- simpleSet.c at concrete tables.
use automatic_optimistic_acc.Base.{
  ℕ, ◌+◌, ◌*◌, get_or, set, replicate, ◌≡◌, ◌≢◌, ◌↔◌, ◌^◌, refl, true, [], ◌∷◌, arith, ok, abort,
  out_of_fuel, Returns,
}
use automatic_optimistic_acc.SimpleSet.{hash_fun, hash_retrieve, set_init, set_contains_p, add_all}
use automatic_optimistic_acc.SimpleSet.Laws.{Member, hash_retrieve-Member}
use automatic_optimistic_acc.SimpleSet.Hazards.{low, Listed, set_init-IsValid, hazards-protected}

program : Unit {0}
unfolding hash_fun get_or set replicate set_init add_all set_contains_p
program = tt

-- Keys 3, 9 and 15 collide in a table of six cells.
collide :
    add_all (set_init 6) (3 ∷ 9 ∷ 15 ∷ [])
    ≡ ok (record { max = 6; number_of_elements = 3; elements = 0 ∷ 0 ∷ 0 ∷ 3 ∷ 9 ∷ 15 ∷ [] })
unfolding program
collide = refl

-- The assertion on the load: the fifth element of six cells is refused.
full : add_all (set_init 6) (1 ∷ 2 ∷ 3 ∷ 4 ∷ 5 ∷ []) ≡ abort
unfolding program
full = refl

-- Of two cells both may be filled, and then the search for another key does not stop.
no_stop :
    hash_retrieve (record { max = 2; number_of_elements = 2; elements = 4 ∷ 5 ∷ [] }) 6
    ≡ out_of_fuel
unfolding program hash_retrieve
no_stop = refl

hash_retrieve-Member_example :
    Returns (hash_retrieve (set_init 6) 7) λ b. (b ≡ true) ↔ Member 7 (set_init 6)
hash_retrieve-Member_example =
    hash_retrieve-Member (set_init-IsValid 6 (omega arith) (omega arith)) 7 (omega arith)
      (omega arith)

hazards-protected_example : Returns (add_all (set_init (3 * 2)) (32 ∷ 0 ∷ (2 ^ 32 + 64) ∷ [])) λ t.
    (q : ℕ)
    → low q ≢ 0
    → Returns (set_contains_p t q) λ b. (b ≡ true) ↔ Listed (32 ∷ 0 ∷ (2 ^ 32 + 64) ∷ []) (low q)
hazards-protected_example =
    hazards-protected 3 (32 ∷ 0 ∷ (2 ^ 32 + 64) ∷ []) (omega arith) (omega arith) (omega arith)
      (omega arith)
