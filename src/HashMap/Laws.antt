-- ===== src/HashMap/Laws.antt =====
-- Calls of the hash map of lfhash.c, one after the other.
use native.Mathlib.Nat.{pow-suc, mul_assoc, div-lt_iff_lt-mul, one-le-pow}
use automatic_optimistic_acc.Base.{
  Outcome, List, [], ◌∷◌, inl, inr, ◌==◌, ==_iff, Bool-cases, if◌then◌else◌, true, ◌>>=◌, ℕ, zero,
  suc, ◌+◌, ◌*◌, ◌-◌, ◌%◌, ◌^◌, ◌<◌, ◌≡◌, refl, sym, ap, ◌∙◌, subst, Bool, arith, lt→ltb, ok,
  Returns,
}
use automatic_optimistic_acc.Lfl.{update}
use automatic_optimistic_acc.HashMap.{
  ListOps, HashMap, hash, init_hash, in_bucket, hash_search, hash_insert, hash_delete,
}

pow-add : (a b : ℕ) → 2 ^ (a + b) ≡ 2 ^ a * 2 ^ b
pow-add a zero =
    let still : a + 0 ≡ a = omega arith in
    let one : 2 ^ 0 ≡ 1 = refl in rw (still, one) (omega arith)
pow-add a (suc b) =
    let shift : a + suc b ≡ suc (a + b) = omega arith in
    rw (shift, pow-suc 2 (a + b), pow-add a b, pow-suc 2 b) (mul_assoc (2 ^ a) (2 ^ b) 2)

-- A power of two buckets takes the high bits of the hash.
pub hash-lt : (key log_s : ℕ) → log_s < 32 → hash key log_s < 2 ^ log_s
unfolding hash
hash-lt key log_s lt =
    let high = key * 2654435761 % 2 ^ 32 in
    let width : log_s + (32 - log_s) ≡ 32 = omega arith in
    let whole : 2 ^ log_s * 2 ^ (32 - log_s) ≡ 2 ^ 32 =
      sym (pow-add log_s (32 - log_s)) ∙ ap (λ x. 2 ^ x) width in
    let below : high < 2 ^ 32 = omega arith in
    let positive : 0 < 2 ^ (32 - log_s) = one-le-pow (32 - log_s) 2 (omega arith) in
    (div-lt_iff_lt-mul positive).1 (subst (λ x. high < x) (sym whole) below)

-- One call of the map.
pub data Call : Type 0 where
  search : (key : ℕ) → Call
  insert : (key : ℕ) → Call
  delete : (key : ℕ) → Call

abbrev pub key_of : Call → ℕ
key_of (search k) = k
key_of (insert k) = k
key_of (delete k) = k

module _ {State : Type 0} (ops : ListOps State) where
  abbrev pub perform : Call → HashMap State → Outcome (HashMap State × Bool)
  perform (search k) map = hash_search ops k map
  perform (insert k) map = hash_insert ops k map
  perform (delete k) map = hash_delete ops k map

  abbrev pub list_call : Call → State → State × Bool
  list_call (search k) s = ops.search k s
  list_call (insert k) s = ops.add k s
  list_call (delete k) s = ops.delete k s

  unfoldable pub perform_all : List Call → HashMap State → Outcome (HashMap State)
  perform_all [] map = ok map
  perform_all (c ∷ cs) map = perform c map >>= λ r. perform_all cs r.0

  -- What becomes of a list when only the calls come to it whose keys hash to bucket `i`.
  unfoldable pub alone : (i log_len : ℕ) → List Call → State → State
  alone i log_len [] s = s
  alone i log_len (c ∷ cs) s =
      if i == hash (key_of c) log_len
      then alone i log_len cs (list_call c s).0
      else alone i log_len cs s

  in_bucket-ok :
      (call : ℕ → State → State × Bool) (key : ℕ) (map : HashMap State)
      → map.log_len < 31
      → map.len ≡ 2 ^ map.log_len
      → in_bucket call key map
        ≡ ok (
          record map {
            array =
                update map.array
                  (hash key map.log_len)
                  (call key (map.array (hash key map.log_len))).0;
          },
          (call key (map.array (hash key map.log_len))).1,
        )
  unfolding in_bucket
  in_bucket-ok call key map small power =
      let inside : hash key map.log_len < map.len =
        subst (λ x. hash key map.log_len < x) (sym power)
          (hash-lt key map.log_len (omega (arith, small))) in
      rw (lt→ltb (hash key map.log_len) map.len inside) refl

  perform-ok :
      (c : Call) (map : HashMap State)
      → map.log_len < 31
      → map.len ≡ 2 ^ map.log_len
      → perform c map
        ≡ ok (
          record map {
            array =
                update map.array
                  (hash (key_of c) map.log_len)
                  (list_call c (map.array (hash (key_of c) map.log_len))).0;
          },
          (list_call c (map.array (hash (key_of c) map.log_len))).1,
        )
  unfolding hash_search hash_insert hash_delete
  perform-ok (search k) map small power = in_bucket-ok ops.search k map small power
  perform-ok (insert k) map small power = in_bucket-ok ops.add k map small power
  perform-ok (delete k) map small power = in_bucket-ok ops.delete k map small power

  perform_all-Independent :
      (cs : List Call) (map : HashMap State)
      → map.log_len < 31
      → map.len ≡ 2 ^ map.log_len
      → Returns (perform_all cs map) λ out.
        ((i : ℕ) → out.array i ≡ alone i map.log_len cs (map.array i))
        × ((out.log_len ≡ map.log_len) × (out.len ≡ map.len))
  unfolding perform_all alone
  perform_all-Independent [] map small power = (map, refl, ((λ i. refl), (refl, refl)))
  perform_all-Independent (c ∷ cs) map small power =
      let bucket = hash (key_of c) map.log_len in
      let next : HashMap State = record map {
        array = update map.array bucket (list_call c (map.array bucket)).0;
      } in
      let (out, ran, (each, sizes)) = perform_all-Independent cs next small power in
      (
        out,
        rw (perform-ok c map small power) ran,
        (
          (λ i. each i ∙ elim (Bool-cases (i == bucket)) [
            | inl same ↦
                let here : i ≡ bucket = (==_iff i bucket).0 same in
                rw same (ap (λ x. alone i map.log_len cs (list_call c (map.array x)).0) (sym here))
            | inr other ↦ rw other refl
          ]),
          sizes,
        ),
      )

  -- A new map of 2 to 2^30 buckets is that many independent lists, whatever the calls on a list do: whatever calls
  -- follow one another on it, with whatever keys, no assertion fails, each list is what the calls with the keys of its
  -- bucket, in their order, make of an empty one, and a further call returns what the list of its bucket then answers.
  pub init_hash-Independent :
      (empty : State) (log_len : ℕ) (cs : List Call)
      → 0 < log_len
      → log_len < 31
      → Returns (init_hash true empty log_len >>= perform_all cs) λ out.
        ((i : ℕ) → out.array i ≡ alone i log_len cs empty)
        × ((c : Call)
            → Returns
                (perform c out)
                λ r. r.1 ≡ (list_call c (alone (hash (key_of c) log_len) log_len cs empty)).1)
  unfolding init_hash
  init_hash-Independent empty log_len cs shifts small =
      let map : HashMap State = record {
        array = λ i. empty;
        log_len = log_len;
        len = 2 ^ log_len;
      } in
      let (out, ran, (each, (same_log, same_len))) = perform_all-Independent cs map small refl in
      (
        out,
        rw (lt→ltb log_len 31 small) ran,
        (
          each,
          λ c.
              let power : out.len ≡ 2 ^ out.log_len = same_len ∙ ap (λ x. 2 ^ x) (sym same_log) in
              (
                _,
                perform-ok c out (omega (arith, same_log)) power,
                ap (λ x. (list_call c (out.array (hash (key_of c) x))).1) same_log
                    ∙ ap (λ x. (list_call c x).1) (each (hash (key_of c) log_len)),
              ),
        ),
      )
