-- ===== src/FastInit.antt =====
-- The initial list of a test, main_test.c and rand.h: keys are drawn and inserted by one thread. A link is named by
-- the node that holds it; the head, `entryHead`, is 0. This is the build without HASH_OP.
pub mod Chains
pub mod Insert
pub mod Sorted
use automatic_optimistic_acc.Base.{
  ℕ, zero, suc, ◌+◌, ◌*◌, ◌-◌, ◌/◌, ◌%◌, ◌^◌, Bool, true, false, not, ◌&&◌, ◌||◌, Option, none,
  some, ◌==◌, leb, ltb, if◌then◌else◌, List, [], ◌∷◌,
}
use automatic_optimistic_acc.Entry.{get_key}
use automatic_optimistic_acc.Lfl.{update}

-- `simRandom`: the number, and the next state.
unfoldable pub sim_random : (next : ℕ) → ℕ × ℕ
sim_random next =
    let next' = (next * 1103515245 + 12345) % 2 ^ 64 in (next' / 65536 % 2 ^ 32, next')

-- The nodes, `mid`, and how many nodes have been allocated.
pub record Store : Type 0 where
  pub link : ℕ → ℕ
  pub key_data : ℕ → ℕ
  pub mid : ℕ
  pub allocated : ℕ

-- `findFAST` from the link `prev` on: `prev`, `cur` and the result.
unfoldable pub find_fast : (fuel : ℕ) (link key_data : ℕ → ℕ) (prev key : ℕ) → Option (ℕ × ℕ × Bool)
find_fast zero link key_data prev key = none
find_fast (suc fuel) link key_data prev key =
    let cur = link prev in
    let ckey = get_key (key_data cur) in
    let rest = find_fast fuel link key_data cur key in
    if cur == 0
    then some (prev, 0, false)
    else if leb key ckey
    then some (prev, cur, ckey == key)
    else rest

-- The end of `ListInsertFAST`, when `findFAST` has returned; `new` is what `palloc` returns.
unfoldable pub place_entry : (new midkey key prev cur : ℕ) (found : Bool) → Store → Store × Bool
place_entry new midkey key prev cur true s = (s, false)
place_entry new midkey key prev cur false s = (
  record {
    link = update (update s.link new cur) prev new;
    key_data = update s.key_data new key;
    mid =
        if ltb key midkey && (s.mid == 0 || ltb (get_key (s.key_data s.mid)) key)
        then new
        else s.mid;
    allocated = suc s.allocated;
  },
  true,
)

abbrev pub placed : (new midkey key : ℕ) → Store → (ℕ × ℕ × Bool) → Store × Bool
placed new midkey key s r = place_entry new midkey key r.0 r.1 r.2 s

-- The node to begin at: the call of itself, from `mid` on, is at most one.
unfoldable pub first_link : (entry_head key : ℕ) → Store → ℕ
first_link entry_head key s =
    if not (s.mid == 0) && (not (entry_head == s.mid) && ltb (get_key (s.key_data s.mid)) key)
    then s.mid
    else entry_head

-- `ListInsertFAST`; `palloc` says which node each allocation returns.
unfoldable pub list_insert_fast :
    (fuel : ℕ) (palloc : ℕ → ℕ) (entry_head midkey key : ℕ) → Store → Option (Store × Bool)
list_insert_fast fuel palloc entry_head midkey key s =
    elim (find_fast fuel s.link s.key_data (first_link entry_head key s) key) [
      | none ↦ none
      | some r ↦ some (placed (palloc s.allocated) midkey key s r)
    ]

-- The loop of `initialize_ds`, with `n` rounds to go.
unfoldable pub draw : (n fuel : ℕ) (palloc : ℕ → ℕ) (elements_range next : ℕ) → Store → Option Store
draw zero fuel palloc elements_range next s = some s
draw (suc n) fuel palloc elements_range next s =
    let (drawn, next') = sim_random next in
    elim (list_insert_fast fuel palloc 0 (elements_range / 2) (drawn % elements_range) s) [
      | none ↦ none
      | some r ↦ draw n fuel palloc elements_range next' r.0
    ]

-- `initialize_ds`; the seed is -1.
unfoldable pub initialize_ds :
    (palloc : ℕ → ℕ) (init_list_size elements_range : ℕ) → Store → Option Store
initialize_ds palloc init_list_size elements_range s =
    draw init_list_size (suc init_list_size) palloc elements_range (2 ^ 64 - 1)
      (record s { link = update s.link 0 0 })
