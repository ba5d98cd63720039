-- ===== src/Tests/InitTests.antt =====
-- An initial list of two draws.
use automatic_optimistic_acc.Base.{ℕ, suc, ◌-◌, ◌*◌, ◌^◌, ◌≡◌, ◌↔◌, refl, some, List, arith}
use automatic_optimistic_acc.FastInit.{Store, initialize_ds}
use automatic_optimistic_acc.FastInit.Insert.{key_of, HasKey, Nodes, IsOrdered}
use automatic_optimistic_acc.FastInit.Sorted.{Drawn, initialize_ds-IsOrdered}

abbrev palloc : ℕ → ℕ
palloc j = 32 * suc j

palloc-Nodes : Nodes palloc
palloc-Nodes = record { not_null = λ j e. omega arith; apart = λ i j e. omega arith }

abbrev empty : Store
empty = record { link = λ a. 0; key_data = λ a. 0; mid = 0; allocated = 0 }

initialize_ds-IsOrdered_example :
    (s : Store) × (ns : List ℕ) × (initialize_ds palloc 2 100 empty ≡ some s)
    × IsOrdered palloc s ns
    × ((k : ℕ) → HasKey (key_of s) ns k ↔ Drawn 2 100 (2 ^ 64 - 1) k)
initialize_ds-IsOrdered_example =
    initialize_ds-IsOrdered palloc palloc-Nodes 100 (omega arith) (omega arith) 2 empty refl refl
