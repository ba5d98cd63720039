-- ===== src/Refcount/Decrement.antt =====
-- The counts under compare-and-swap: which decrement claims a node, and what `safeRead` leaves behind.
use automatic_optimistic_acc.Base.{
  ℕ, suc, ◌+◌, ◌-◌, ◌%◌, ◌^◌, ◌≡◌, ◌≢◌, ◌≤◌, ◌<◌, ◌⊎◌, inl, inr, refl, Bool, true, false, List, [],
  ◌∷◌, Option, some, arith, ◌==◌, if◌then◌else◌, Bool-cases, ==_iff, fun_ext, ap, sym, test_eq,
  test_ne, ◌∙◌,
}
use automatic_optimistic_acc.Base.Cas.{decided, Taken, cas_loop_atomic}
use automatic_optimistic_acc.Entry.{clear_deleted}
use automatic_optimistic_acc.Lfl.{update}
use automatic_optimistic_acc.Refcount.{
  reclaim_after, decrement_body, decrement_and_test_and_set, Store, set_count, release, safe_read,
}

-- What a decrement of the count `w` amounts to: it claims the node exactly when the count falls to zero,
-- and then sets the lowest bit alone; otherwise it takes 2 away.
abbrev pub Decrements : (w : ℕ) → ℕ × Bool → Type 0
Decrements w r = (w ≡ 2 → (r.0 ≡ 1) × (r.1 ≡ true)) × (w ≢ 2 → (r.0 + 2 ≡ w) × (r.1 ≡ false))

pub body-Decrements : (w : ℕ) → 2 ≤ w → w < 2 ^ 64 → Decrements w (decided w (decrement_body w))
unfolding decrement_body
body-Decrements w low high = (
  λ two. rw two (refl, refl),
  λ more.
      let wrap : (w + (2 ^ 64 - 2)) % 2 ^ 64 ≡ w - 2 = omega arith in
      let nonzero : (w - 2 == 0) ≡ false = ground arith in
      let even : (w + (2 ^ 64 - (w - 2))) % 2 ≡ 0 = omega arith in
      rw (wrap, nonzero, even) (omega arith, refl),
)

-- Whatever other threads do to the count, as long as it stays between 2 and `2 ^ 64`, a decrement acts on one value of it: the node is claimed exactly
-- when that count was 2, one reference, and then it becomes 1, free; otherwise it falls by 2.
pub decrement_and_test_and_set-Decrements :
    (os : List (Option ℕ)) (count : ℕ)
    → ((w : ℕ) → Taken ◌==◌ decrement_body os count w → (2 ≤ w) × (w < 2 ^ 64))
    → (w : ℕ) × Taken ◌==◌ decrement_body os count w
      × Decrements w (decrement_and_test_and_set os count)
unfolding decrement_and_test_and_set
decrement_and_test_and_set-Decrements os count legal =
    let (w, taken, same) = cas_loop_atomic ◌==◌ decrement_body os count in
    let (low, high) = legal w taken in (w, taken, rw same (body-Decrements w low high))

-- The pointer returned is null, or both reads of one attempt gave it.
abbrev pub Read : List (ℕ × ℕ) → (last : ℕ) → ℕ → Type 0
Read [] last q = q ≡ last
Read ((a, b) ∷ rest) last q = ((q ≡ a) × ((clear_deleted a ≡ 0) ⊎ (b ≡ a))) ⊎ Read rest last q

-- One reference more to the node of `q`.
abbrev pub acquired : Store → ℕ → Store
acquired s q =
    if clear_deleted q == 0
    then s
    else set_count s (clear_deleted q) (s.refcount (clear_deleted q) + 2)

restore : (s : Store) (p : ℕ) → set_count (set_count s p (s.refcount p + 2)) p (s.refcount p) ≡ s
restore s p =
    ap (λ (f : ℕ → ℕ). record s { refcount = f })
      (fun_ext (λ n. elim (Bool-cases (n == p)) [
        | inl e ↦ rw e (ap s.refcount (sym ((==_iff n p).0 e)))
        | inr e ↦ rw e refl
      ]))

-- A decrement that nobody disturbs.
pub decrement-kept : (w : ℕ) → 2 < w → w < 2 ^ 64 → decrement_and_test_and_set [] w ≡ (w - 2, false)
unfolding decrement_and_test_and_set
decrement-kept w low high =
    let (less, kept) = (body-Decrements w (omega arith) high).1 (omega arith) in
    let one : (decided w (decrement_body w)).0 ≡ w - 2 = omega arith in
    ap (λ x. (x, (decided w (decrement_body w)).1)) one ∙ ap (λ b. (w - 2, b)) kept

pub decrement-claim : decrement_and_test_and_set [] 2 ≡ (1, true)
unfolding decrement_and_test_and_set decrement_body
decrement-claim = refl

pub release-next :
    (fuel : ℕ) (s : Store) (q count : ℕ) (claimed : Bool)
    → clear_deleted q ≢ 0
    → decrement_and_test_and_set [] (s.refcount (clear_deleted q)) ≡ (count, claimed)
    → release (suc fuel) s q ≡ (
        if claimed
        then reclaim_after
            (clear_deleted q)
            (release fuel (set_count s (clear_deleted q) count) (s.next_entry (clear_deleted q)))
        else some (set_count s (clear_deleted q) count))
unfolding release
release-next fuel s q count claimed ne same = rw (test_ne (clear_deleted q) 0 ne, same) refl

-- A release after an increment of a count that was not zero undoes it, on free nodes too.
release-undo :
    (fuel : ℕ) (s : Store) (q : ℕ)
    → clear_deleted q ≢ 0
    → 1 ≤ s.refcount (clear_deleted q)
    → s.refcount (clear_deleted q) < 2 ^ 64 - 2
    → release (suc fuel) (set_count s (clear_deleted q) (s.refcount (clear_deleted q) + 2)) q
      ≡ some s
release-undo fuel s q ne low high =
    let p = clear_deleted q in
    let now : update s.refcount p (s.refcount p + 2) p ≡ s.refcount p + 2 =
      rw (test_eq p p refl) refl in
    let less : s.refcount p + 2 - 2 ≡ s.refcount p = omega arith in
    let same : decrement_and_test_and_set [] (update s.refcount p (s.refcount p + 2) p)
        ≡ (s.refcount p, false) =
      rw (now) (rw (decrement-kept (s.refcount p + 2) (omega arith) (omega arith), less) refl) in
    release-next fuel (set_count s p (s.refcount p + 2)) q (s.refcount p) false ne same
    ∙ ap some (restore s p)

-- With all counts positive and below `2 ^ 64 - 2`, `safeRead` returns a pointer that it has read twice, or null, and all that it changes is one reference
-- more to the node returned: the nodes that it passes by, the free ones too, are as before.
pub safe_read-acquired :
    (fuel : ℕ) (s : Store) (tries : List (ℕ × ℕ)) (last : ℕ)
    → ((n : ℕ) → (1 ≤ s.refcount n) × (s.refcount n < 2 ^ 64 - 2))
    → (q : ℕ) × Read tries last q × (safe_read (suc fuel) s tries last ≡ some (acquired s q, q))
unfolding safe_read
safe_read-acquired fuel s [] q counts =
    let (low, high) = counts (clear_deleted q) in
    let plus : (s.refcount (clear_deleted q) + 2) % 2 ^ 64 ≡ s.refcount (clear_deleted q) + 2 =
      omega arith in
    (
      q,
      refl,
      elim (Bool-cases (clear_deleted q == 0)) [ inl e ↦ rw e refl | inr e ↦ rw (e, plus) refl ],
    )
safe_read-acquired fuel s ((q, again) ∷ rest) last counts =
    let p = clear_deleted q in
    let (low, high) = counts p in
    let plus : (s.refcount p + 2) % 2 ^ 64 ≡ s.refcount p + 2 = omega arith in
    elim (Bool-cases (p == 0)) [
      | inl e ↦ (q, inl (refl, inl ((==_iff p 0).0 e)), rw e refl)
      | inr e ↦ elim (Bool-cases (again == q)) [
        | inl f ↦ (q, inl (refl, inr ((==_iff again q).0 f)), rw (e, f, plus) refl)
        | inr f ↦
            let (found, read, rest_same) = safe_read-acquired fuel s rest last counts in
            let ne : p ≢ 0 = ground arith in
            (found, inr read, rw (e, f, plus, release-undo fuel s q ne low high) rest_same)
      ]
    ]
