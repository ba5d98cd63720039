-- ===== src/Tests/RcTests.antt =====
-- Examples for the reference counts and for the list that uses them.
use automatic_optimistic_acc.Base.{
  ℕ, ◌-◌, ◌^◌, ◌≡◌, ◌≤◌, ◌<◌, inl, inr, refl, true, false, List, [], ◌∷◌, some, arith,
  if◌then◌else◌, In, ◌==◌, Distinct,
}
use automatic_optimistic_acc.Base.Cas.{Taken}
use automatic_optimistic_acc.Entry.{clear_deleted}
use automatic_optimistic_acc.Lfl.{Memory, free, key_of, delete}
use automatic_optimistic_acc.Rc.{start, done, run}
use automatic_optimistic_acc.Refcount.{
  decrement_body, decrement_and_test_and_set, Store, release, new_rc, safe_read,
}
use automatic_optimistic_acc.Refcount.Decrement.{
  Decrements, decrement_and_test_and_set-Decrements, Read, acquired, safe_read-acquired,
}
use automatic_optimistic_acc.Refcount.Release.{Leads, Freed, Stops, release-Freed}
use automatic_optimistic_acc.Refcount.Reuse.{Reused, release-Reused}

-- Two nodes with one reference each, then a node with two; the free list has one node.
abbrev counts : ℕ → ℕ
counts n = if n == 32 then 2 else if n == 64 then 2 else if n == 96 then 4 else 1

abbrev entries : ℕ → ℕ
entries n = if n == 32 then 65 else if n == 64 then 96 else 0

abbrev store : Store
store = record { refcount = counts; next_entry = entries; free_list = 128 }

abbrev pair : List ℕ
pair = 32 ∷ 64 ∷ []

pair-Leads : Leads entries 33 pair 96
unfolding clear_deleted
pair-Leads = (refl, omega arith, (refl, omega arith, refl))

pair-Distinct : Distinct pair
pair-Distinct = (λ i. elim i [ inl e ↦ absurd (ground arith) | inr j ↦ j ], (λ i. i, tt))

pair-twos : (m : ℕ) → In m pair → counts m ≡ 2
pair-twos m (inl e) = rw e refl
pair-twos m (inr (inl e)) = rw e refl
pair-twos m (inr (inr i)) = elim i [ ]

store-Stops : Stops store 96
unfolding clear_deleted
store-Stops = inr (omega arith, omega arith, omega arith)

fresh : (m : ℕ) → In m (128 ∷ []) → In m pair → ⊥
fresh m (inl e) (inl f) = absurd (ground arith)
fresh m (inl e) (inr (inl f)) = absurd (ground arith)
fresh m (inl e) (inr (inr i)) = elim i [ ]
fresh m (inr i) j = elim i [ ]

release-Reused_example :
    (t : Store) × (release 3 store 33 ≡ some t)
    × ((u : Store) × (new_rc 160 t ≡ some (u, 32)) × Reused 32 (64 ∷ []) 128 t u)
release-Reused_example =
    release-Reused 3 store 33 32 (64 ∷ []) 96 160 refl (omega arith) pair-Leads pair-Distinct
      pair-twos store-Stops

release-Freed_example : (t : Store) × (release 3 store 33 ≡ some t) × Freed pair 96 store t
release-Freed_example =
    release-Freed 3 store 33 pair 96 refl (omega arith) pair-Leads pair-Distinct pair-twos
      store-Stops

store-range : (n : ℕ) → (1 ≤ counts n) × (counts n < 2 ^ 64 - 2)
store-range n = ground arith

-- The first attempt passes by the free node at 128.
safe_read-acquired_example :
    (q : ℕ) × Read ((128, 97) ∷ (97, 97) ∷ []) 33 q
    × (safe_read 1 store ((128, 97) ∷ (97, 97) ∷ []) 33 ≡ some (acquired store q, q))
safe_read-acquired_example = safe_read-acquired 0 store ((128, 97) ∷ (97, 97) ∷ []) 33 store-range

in_range : (w : ℕ) → Taken ◌==◌ decrement_body (some 2 ∷ []) 4 w → (2 ≤ w) × (w < 2 ^ 64)
in_range w (inl e) = (omega arith, omega arith)
in_range w (inr e) = (omega arith, omega arith)

-- Another thread gives up its reference between the read and the swap.
decrement_and_test_and_set-Decrements_example :
    (w : ℕ) × Taken ◌==◌ decrement_body (some 2 ∷ []) 4 w
    × Decrements w (decrement_and_test_and_set (some 2 ∷ []) 4)
decrement_and_test_and_set-Decrements_example =
    decrement_and_test_and_set-Decrements (some 2 ∷ []) 4 in_range

-- A list with the one node 32, and its deletion, to the end.
abbrev one_node : Memory
one_node = record { link = λ a. if a == 0 then 32 else 0; key_data = λ a. 5; status = λ a. free }

abbrev deletion : List (ℕ × Memory)
deletion =
    (0, one_node)
    ∷ (0, one_node)
    ∷ (0, one_node)
    ∷ (0, one_node)
    ∷ (0, one_node)
    ∷ (0, one_node)
    ∷ (0, one_node)
    ∷ (0, one_node)
    ∷ (0, one_node)
    ∷ []

run-done : (run false 1 deletion (start (delete 5))).1 ≡ done (delete 5) true
unfolding run key_of
run-done = refl
