-- ===== src/Tests/HashTests.antt =====
-- A hash map of eight buckets, with a list of its keys in the place of each list.
use automatic_optimistic_acc.Base.{ℕ, ◌≡◌, true, List, [], ◌∷◌, arith, refl, Returns, ◌>>=◌}
use automatic_optimistic_acc.HashMap.{ListOps, hash, init_hash}
use automatic_optimistic_acc.HashMap.Laws.{
  Call, search, insert, perform, perform_all, list_call, key_of, alone, init_hash-Independent,
}

abbrev key_lists : ListOps (List ℕ)
key_lists = record {
  search = λ k s. (s, true);
  add = λ k s. (k ∷ s, true);
  delete = λ k s. ([], true);
}

-- 1 and 9 have the same bucket, 4; 8 has another.
abbrev calls : List Call
calls = insert 1 ∷ insert 8 ∷ insert 9 ∷ search 8 ∷ []

bucket_4 : alone key_lists 4 3 calls [] ≡ 9 ∷ 1 ∷ []
unfolding alone hash
bucket_4 = refl

init_hash-Independent_example : Returns (init_hash true [] 3 >>= perform_all key_lists calls) λ out.
    ((i : ℕ) → out.array i ≡ alone key_lists i 3 calls [])
    × ((c : Call)
        → Returns
            (perform key_lists c out)
            λ r. r.1 ≡ (list_call key_lists c (alone key_lists (hash (key_of c) 3) 3 calls [])).1)
init_hash-Independent_example =
    init_hash-Independent key_lists [] 3 calls (omega arith) (omega arith)
