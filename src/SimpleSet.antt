-- ===== src/SimpleSet.antt =====
-- simpleSet.c and simpleSet.h: the hash set of 32-bit integers in which the manual collector keeps
-- the hazard pointers. An `int` is its 32-bit pattern, a number below 2 ^ 32; 0 marks a free cell.
-- The `try` loops have no bound in the source: they run on fuel, twice the number of cells.
pub mod Probe
pub mod Laws
pub mod Hazards
use automatic_optimistic_acc.Base.{
  ℕ, zero, suc, ◌+◌, ◌*◌, ◌/◌, ◌%◌, ◌^◌, Bool, true, false, List, [], ◌∷◌, ltb, ◌==◌, if◌then◌else◌,
  get_or, set, replicate, Outcome, ok, abort, out_of_fuel, ◌>>=◌,
}

pub record HashTable : Type 0 where
  pub max : ℕ
  pub number_of_elements : ℕ
  pub elements : List ℕ

-- The sum is taken in `unsigned`.
unfoldable pub hash_fun : (key try max : ℕ) → ℕ
hash_fun key try max = (key + try) % 2 ^ 32 % max

-- The second parameter of `create_hash` is not used.
unfoldable pub create_hash : (size max : ℕ) → HashTable
create_hash size max = record { max = size; number_of_elements = 0; elements = replicate size 0 }

unfoldable pub clean_hash : HashTable → HashTable
clean_hash t = record t { number_of_elements = 0; elements = replicate t.max 0 }

-- `elements[hash]`
unfoldable pub cell : HashTable → (key try : ℕ) → ℕ
cell t key try = get_or t.elements (hash_fun key try t.max) 0

-- The write into the empty cell that round `try` has found.
unfoldable pub fill : HashTable → (key try : ℕ) → HashTable
fill t key try = record t {
  number_of_elements = t.number_of_elements + 1;
  elements = set t.elements (hash_fun key try t.max) key;
}

unfoldable pub insert_loop : (fuel : ℕ) → HashTable → (key try : ℕ) → Outcome HashTable
unfolding cell fill
insert_loop zero t key try = out_of_fuel
insert_loop (suc fuel) t key try =
    let rest = insert_loop fuel t key (try + 1) in
    if cell t key try == 0
    then ok (fill t key try)
    else if cell t key try == key
    then ok t
    else rest

-- The two asserts, then the loop. Without cells the first `%` divides by zero.
unfoldable pub hash_insert : HashTable → ℕ → Outcome HashTable
unfolding insert_loop
hash_insert t key =
    if key == 0
    then abort
    else if ltb (t.max / 2) t.number_of_elements
    then abort
    else if t.max == 0
    then abort
    else insert_loop (2 * t.max) t key 0

unfoldable pub retrieve_loop : (fuel : ℕ) → HashTable → (key try : ℕ) → Outcome Bool
unfolding cell
retrieve_loop zero t key try = out_of_fuel
retrieve_loop (suc fuel) t key try =
    let rest = retrieve_loop fuel t key (try + 1) in
    if cell t key try == 0 then ok false else if cell t key try == key then ok true else rest

unfoldable pub hash_retrieve : HashTable → ℕ → Outcome Bool
unfolding retrieve_loop
hash_retrieve t key = if t.max == 0 then abort else retrieve_loop (2 * t.max) t key 0

unfoldable pub set_init : ℕ → HashTable
unfolding create_hash
set_init max_size = create_hash max_size max_size

unfoldable pub set_reset : HashTable → HashTable
unfolding clean_hash
set_reset t = clean_hash t

-- The cast `(int)(long)addr` keeps the low 32 bits.
unfoldable pub set_add_p : HashTable → ℕ → Outcome HashTable
unfolding hash_insert
set_add_p t addr = hash_insert t (addr % 2 ^ 32)

unfoldable pub set_contains_p : HashTable → ℕ → Outcome Bool
unfolding hash_retrieve
set_contains_p t addr = hash_retrieve t (addr % 2 ^ 32)

-- A run of `setAddP` over the pointers that are not `NULL`, as the collector makes it.
unfoldable pub add_all : HashTable → List ℕ → Outcome HashTable
unfolding set_add_p
add_all t [] = ok t
add_all t (p ∷ ps) = (if p == 0 then ok t else set_add_p t p) >>= λ t'. add_all t' ps
