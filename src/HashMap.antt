-- ===== src/HashMap.antt =====
-- The hash map of lfhash.c: an array of lists. A list comes by the interface ListOps, the calls that lfl.h
-- declares. The data are left out: `ListInsert` drops them.
-- `addRoot`, which the build DAOA calls, is `Arrays.add_global_root`.
pub mod Laws
use automatic_optimistic_acc.Base.{
  ℕ, zero, suc, ◌+◌, ◌*◌, ◌-◌, ◌/◌, ◌%◌, ◌^◌, ◌<◌, ◌≡◌, Bool, true, false, not, ◌&&◌, ◌==◌, ltb,
  if◌then◌else◌, Outcome, ok, abort, ◌>>=◌,
}
use automatic_optimistic_acc.Lfl.{update}

-- The calls of lfl.h on a list, with their results.
pub record ListOps (State : Type 0) : Type 0 where
  pub search : ℕ → State → State × Bool
  pub add : ℕ → State → State × Bool
  pub delete : ℕ → State → State × Bool

pub record HashMap (State : Type 0) : Type 0 where
  pub array : ℕ → State
  pub log_len : ℕ
  pub len : ℕ

-- `HASH`: the product of an `int` and an `unsigned` is `unsigned`. A shift by 32, for `log_s` 0, is undefined.
unfoldable pub hash : (key log_s : ℕ) → ℕ
hash key log_s = key * 2654435761 % 2 ^ 32 / 2 ^ (32 - log_s)

module _ {State : Type 0} where
  -- `initHash`, for a length that an `int` can hold, with whether `malloc` found the space; all lists are empty.
  unfoldable pub init_hash :
      (allocated : Bool) (empty : State) (log_len : ℕ) → Outcome (HashMap State)
  init_hash allocated empty log_len =
      if allocated && ltb log_len 31
      then ok (record { array = λ i. empty; log_len = log_len; len = 2 ^ log_len })
      else abort

  -- A call on the bucket of a key; the assertion of the three calls is in front.
  unfoldable pub in_bucket :
      (ℕ → State → State × Bool) → (key : ℕ) → HashMap State → Outcome (HashMap State × Bool)
  in_bucket call key map =
      let bucket = hash key map.log_len in
      let (list, result) = call key (map.array bucket) in
      if ltb bucket map.len
      then ok (record map { array = update map.array bucket list }, result)
      else abort

  module _ (ops : ListOps State) where
    unfoldable pub hash_search : (key : ℕ) → HashMap State → Outcome (HashMap State × Bool)
    unfolding in_bucket
    hash_search key map = in_bucket ops.search key map

    unfoldable pub hash_insert : (key : ℕ) → HashMap State → Outcome (HashMap State × Bool)
    unfolding in_bucket
    hash_insert key map = in_bucket ops.add key map

    unfoldable pub hash_delete : (key : ℕ) → HashMap State → Outcome (HashMap State × Bool)
    unfolding in_bucket
    hash_delete key map = in_bucket ops.delete key map
