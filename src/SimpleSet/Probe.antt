-- ===== src/SimpleSet/Probe.antt =====
-- The probe sequence of simpleSet.c: it visits every cell within two rounds of the table, in spite
-- of the wrap-around of `unsigned`; a search stops at the first free cell or at the key.
use native.Mathlib.Nat.{mul-add-mod_self_right, div-add-mod', mod-eq_of_lt, mod-lt}
use native.Mathlib.Decide.{dec_le, ℕ_discrete}
use automatic_optimistic_acc.Base.{
  ℕ, zero, suc, ◌+◌, ◌-◌, ◌*◌, ◌/◌, ◌%◌, ◌^◌, ◌≤◌, ◌<◌, ◌≡◌, ◌≢◌, ◌⊎◌, inl, inr, ◌∙◌, true, false,
  arith, ◌==◌, if◌then◌else◌, test_ne, ok,
}
use automatic_optimistic_acc.SimpleSet.{HashTable, hash_fun, cell, fill, insert_loop, retrieve_loop}

pub hash_fun-lt : (key try : ℕ) {max : ℕ} → 0 < max → hash_fun key try max < max
unfolding hash_fun
hash_fun-lt key try h = mod-lt _ h

mod_unique : (q r m : ℕ) → r < m → (q * m + r) % m ≡ r
mod_unique q r m h = mul-add-mod_self_right q m r ∙ mod-eq_of_lt h

straight_sum :
    (key n max q i : ℕ)
    → key + n ≡ q * max + i
    → key + n < 2 ^ 32
    → (key + n) % 2 ^ 32 ≡ q * max + i
straight_sum key n max q i e h = omega arith

-- Before the wrap-around, `max` rounds reach every index.
straight :
    (key i max : ℕ)
    → i < max
    → key + max ≤ 2 ^ 32
    → (n : ℕ) × (n < 2 * max) × (hash_fun key n max ≡ i)
unfolding hash_fun
straight key i max hi fits =
    let low : key % max < max = mod-lt key (omega arith) in
    let parts : key / max * max + key % max ≡ key = div-add-mod' key max in
    elim (dec_le (key % max) i) [
      | yes p ↦ (
        i - key % max,
        omega arith,
        rw (straight_sum key (i - key % max) max (key / max) i (omega arith) (omega arith))
            (mod_unique (key / max) i max hi),
      )
      | no p ↦ (
        i + max - key % max,
        omega arith,
        rw
            (straight_sum key (i + max - key % max) max (key / max + 1) i (omega arith)
              (omega arith))
            (mod_unique (key / max + 1) i max hi),
      )
    ]

-- Where the sum wraps around, the rounds from there on count from 0.
wrapped :
    (key i max : ℕ)
    → i < max
    → key < 2 ^ 32
    → max < 2 ^ 31
    → 2 ^ 32 < key + max
    → (n : ℕ) × (n < 2 * max) × (hash_fun key n max ≡ i)
unfolding hash_fun
wrapped key i max hi hk hm wraps =
    let e : (key + (2 ^ 32 - key + i)) % 2 ^ 32 ≡ i = omega arith in
    (2 ^ 32 - key + i, omega arith, rw e (mod-eq_of_lt hi))

-- Every index is reached within twice as many rounds as there are cells.
pub hash_fun-reaches :
    (key i max : ℕ)
    → i < max
    → key < 2 ^ 32
    → max < 2 ^ 31
    → (n : ℕ) × (n < 2 * max) × (hash_fun key n max ≡ i)
hash_fun-reaches key i max hi hk hm = elim (dec_le (key + max) (2 ^ 32)) [
  | yes fits ↦ straight key i max hi fits
  | no wraps ↦ wrapped key i max hi hk hm (omega arith)
]

-- Where a search from round `try` stops: the first free cell, or the first that holds the key.
pub record Stop (t : HashTable) (key try n : ℕ) : Type 0 where
  pub late : try ≤ n
  pub ends : (cell t key n ≡ 0) ⊎ (cell t key n ≡ key)
  pub passes : (m : ℕ) → try ≤ m → m < n → (cell t key m ≢ 0) × (cell t key m ≢ key)

Stop-later :
    (t : HashTable) (key try n : ℕ)
    → cell t key try ≢ 0
    → cell t key try ≢ key
    → Stop t key (try + 1) n
    → Stop t key try n
Stop-later t key try n used other s = record {
  late = omega (arith, s.late);
  ends = s.ends;
  passes = λ m lo hi. elim (ℕ_discrete try m) [
    | yes e ↦ rw (← e) (used, other)
    | no e ↦ s.passes m (omega arith) hi
  ];
}

-- A free cell ahead bounds the search.
pub first-Stop :
    (fuel : ℕ) (t : HashTable) (key try n : ℕ)
    → try ≤ n
    → n < try + fuel
    → cell t key n ≡ 0
    → (m : ℕ) × (m < try + fuel) × Stop t key try m
first-Stop zero t key try n lo hi e = absurd (omega arith)
first-Stop (suc f) t key try n lo hi e = elim (ℕ_discrete (cell t key try) 0) [
  | yes free ↦ (
    try,
    omega arith,
    record { late = omega arith; ends = inl free; passes = λ m a b. absurd (omega arith) },
  )
  | no used ↦ elim (ℕ_discrete (cell t key try) key) [
    | yes hit ↦ (
      try,
      omega arith,
      record { late = omega arith; ends = inr hit; passes = λ m a b. absurd (omega arith) },
    )
    | no other ↦
        let ne : try ≢ n = λ q. used (rw q e) in
        let (m, hm, s) = first-Stop f t key (try + 1) n (omega arith) (omega arith) e in
        (m, omega arith, Stop-later t key try m used other s)
  ]
]

-- Both loops run to the place where the search stops.
pub retrieve_loop-Stop :
    (fuel : ℕ) (t : HashTable) (key try n : ℕ)
    → n < try + fuel
    → Stop t key try n
    → retrieve_loop fuel t key try ≡ ok (if cell t key n == 0 then false else true)
unfolding retrieve_loop
retrieve_loop-Stop zero t key try n hi s = absurd (omega (arith, s.late))
retrieve_loop-Stop (suc f) t key try n hi s = elim (ℕ_discrete try n) [
  | yes e ↦ rw (← e) (ground (arith, s.ends, e))
  | no e ↦
      let (used, other) = s.passes try (omega arith) (omega (arith, s.late)) in
      rw (test_ne _ _ used, test_ne _ _ other)
        (retrieve_loop-Stop f t key (try + 1) n (omega arith) (record {
          late = omega (arith, s.late);
          ends = s.ends;
          passes = λ m a b. s.passes m (omega arith) b;
        }))
]

pub insert_loop-Stop :
    (fuel : ℕ) (t : HashTable) (key try n : ℕ)
    → n < try + fuel
    → Stop t key try n
    → insert_loop fuel t key try ≡ ok (if cell t key n == 0 then fill t key n else t)
unfolding insert_loop
insert_loop-Stop zero t key try n hi s = absurd (omega (arith, s.late))
insert_loop-Stop (suc f) t key try n hi s = elim (ℕ_discrete try n) [
  | yes e ↦ rw (← e) (ground (arith, s.ends, e))
  | no e ↦
      let (used, other) = s.passes try (omega arith) (omega (arith, s.late)) in
      rw (test_ne _ _ used, test_ne _ _ other)
        (insert_loop-Stop f t key (try + 1) n (omega arith) (record {
          late = omega (arith, s.late);
          ends = s.ends;
          passes = λ m a b. s.passes m (omega arith) b;
        }))
]
