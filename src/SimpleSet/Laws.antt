-- ===== src/SimpleSet/Laws.antt =====
-- simpleSet.c as a set: what the table stands for, and each operation against it.
use native.Mathlib.Decide.{dec_lt, ℕ_discrete}
use automatic_optimistic_acc.Base.{
  ℕ, zero, suc, ◌+◌, ◌*◌, ◌/◌, ◌^◌, ◌≤◌, ◌<◌, ◌≡◌, ◌≢◌, ◌⊎◌, ◌↔◌, inl, inr, ◌∙◌, refl, sym, true,
  false, List, [], ◌∷◌, arith, ◌==◌, if◌then◌else◌, length, get_or, set, replicate, length-set,
  get_or-set, Returns,
}
use automatic_optimistic_acc.SimpleSet.{HashTable, hash_fun, cell, fill, hash_insert, hash_retrieve}
use automatic_optimistic_acc.SimpleSet.Probe.{
  hash_fun-lt, hash_fun-reaches, Stop, first-Stop, retrieve_loop-Stop, insert_loop-Stop,
}

-- The cells in use.
pub occupied : List ℕ → ℕ
occupied [] = 0
occupied (x ∷ xs) = (if x == 0 then 0 else 1) + occupied xs

occupied-set :
    (xs : List ℕ) (i v : ℕ)
    → i < length xs
    → get_or xs i 0 ≡ 0
    → v ≢ 0
    → occupied (set xs i v) ≡ occupied xs + 1
unfolding occupied set get_or
occupied-set [] i v hi e ne = absurd (omega arith)
occupied-set (x ∷ xs) zero v hi e ne = ground arith
occupied-set (x ∷ xs) (suc i) v hi e ne = ground (arith, occupied-set xs i v)

pub occupied-replicate : (n : ℕ) → occupied (replicate n 0) ≡ 0
unfolding occupied replicate
occupied-replicate zero = refl
occupied-replicate (suc n) = omega (arith, occupied-replicate n)

free_cell :
    (xs : List ℕ) → occupied xs < length xs → (i : ℕ) × (i < length xs) × (get_or xs i 0 ≡ 0)
unfolding occupied get_or
free_cell [] h = absurd (omega arith)
free_cell (x ∷ xs) h = elim (ℕ_discrete x 0) [
  | yes e ↦ (0, omega arith, e)
  | no ne ↦ let (i, hi, e) = free_cell xs (ground arith) in (suc i, omega arith, e)
]

-- The abstract set.
abbrev pub Member : ℕ → HashTable → Type 0
Member k t = (i : ℕ) × (i < t.max) × (get_or t.elements i 0 ≡ k)

-- Key `k` in cell `i` is found by its own probe sequence: no free cell comes before.
abbrev pub Placed : HashTable → (k i : ℕ) → Type 0
Placed t k i = (n : ℕ) × (hash_fun k n t.max ≡ i) × ((m : ℕ) → m < n → cell t k m ≢ 0)

pub record IsValid (t : HashTable) : Type 0 where
  pub width : length t.elements ≡ t.max
  pub cells : 3 ≤ t.max
  pub small : t.max < 2 ^ 31
  pub counted : occupied t.elements ≡ t.number_of_elements
  pub roomy : t.number_of_elements ≤ t.max / 2 + 1
  pub words : (i : ℕ) → i < t.max → get_or t.elements i 0 < 2 ^ 32
  pub placed : (k i : ℕ) → i < t.max → get_or t.elements i 0 ≡ k → k ≢ 0 → Placed t k i

-- What an insertion of `key` into `t` leaves.
pub record Inserted (t : HashTable) (key : ℕ) (t' : HashTable) : Type 0 where
  pub valid : IsValid t'
  pub max : t'.max ≡ t.max
  pub number : t'.number_of_elements ≤ t.number_of_elements + 1
  pub members : (k : ℕ) → k ≢ 0 → Member k t' ↔ ((k ≡ key) ⊎ Member k t)

module _ {t : HashTable} (v : IsValid t) (key : ℕ) (word : key < 2 ^ 32) where
  -- A valid table has a free cell, so that each search stops.
  stops : (n : ℕ) × (n < 2 * t.max) × Stop t key 0 n
  unfolding cell
  stops =
      let (i, hi, e) = free_cell t.elements (omega (arith, v.width, v.cells, v.counted, v.roomy)) in
      let (n, hn, at) = hash_fun-reaches key i t.max (omega (arith, v.width)) word v.small in
      let (m, hm, s) = first-Stop (2 * t.max) t key 0 n (omega arith) (omega arith) (rw at e) in
      (m, omega arith, s)

  cell-Member : (n : ℕ) → cell t key n ≡ key → Member key t
  unfolding cell
  cell-Member n e = (hash_fun key n t.max, hash_fun-lt key n (omega (arith, v.cells)), e)

  -- Where the search ends at a free cell, the key is nowhere.
  free-not-Member : (n : ℕ) → key ≢ 0 → Stop t key 0 n → cell t key n ≡ 0 → ¬ Member key t
  unfolding cell
  free-not-Member n ne s e (i, hi, at) =
      let (m, here, before) = v.placed key i hi at ne in
      let hit : cell t key m ≡ key = rw here at in
      elim (dec_lt m n) [
        | yes lt ↦ (s.passes m (omega arith) lt).1 hit
        | no ge ↦ elim (ℕ_discrete m n) [
          | yes eq ↦ ne (sym hit ∙ rw eq e)
          | no other ↦ before n (omega arith) e
        ]
      ]

  -- `setContains` ends on every valid table, and says whether the key is in the set.
  pub hash_retrieve-Member : key ≢ 0 → Returns (hash_retrieve t key) λ b. (b ≡ true) ↔ Member key t
  unfolding hash_retrieve
  hash_retrieve-Member ne =
      let (n, hn, s) = stops in
      let run = retrieve_loop-Stop (2 * t.max) t key 0 n (omega arith) s in
      elim (ℕ_discrete (cell t key n) 0) [
        | yes e ↦ (
          false,
          ground (arith, run, v.cells),
          ((λ q. cc), λ m. absurd (free-not-Member n ne s e m)),
        )
        | no u ↦ (
          true,
          ground (arith, run, v.cells),
          ((λ q. cell-Member n (ground (arith, s.ends))), λ m. refl),
        )
      ]

  -- The write of a new key into the free cell where its search ended.
  module _ (n : ℕ) (ne : key ≢ 0) (s : Stop t key 0 n) (free : cell t key n ≡ 0) where
    abbrev spot : ℕ
    spot = hash_fun key n t.max

    spot-lt : spot < t.max
    spot-lt = hash_fun-lt key n (omega (arith, v.cells))

    fill-get :
        (i : ℕ)
        → get_or (fill t key n).elements i 0 ≡ (if spot == i then key else get_or t.elements i 0)
    unfolding fill
    fill-get i = get_or-set t.elements spot i key 0 (omega (arith, v.width, spot-lt))

    -- A cell in use stays in use.
    fill-used : (k m : ℕ) → cell t k m ≢ 0 → cell (fill t key n) k m ≢ 0
    unfolding cell fill
    fill-used k m used = ground (arith, fill-get (hash_fun k m t.max))

    fill-Placed :
        (k i : ℕ)
        → i < t.max
        → get_or (fill t key n).elements i 0 ≡ k
        → k ≢ 0
        → Placed (fill t key n) k i
    unfolding fill
    fill-Placed k i hi at nz = elim (ℕ_discrete spot i) [
      | yes e ↦
          let same : key ≡ k = ground (arith, fill-get i) in
          (n, rw (← same) e, λ m lt. rw (← same) (fill-used key m (s.passes m (omega arith) lt).0))
      | no other ↦
          let (m, here, before) = v.placed k i hi (ground (arith, fill-get i)) nz in
          (m, here, λ j lt. fill-used k j (before j lt))
    ]

    fill-IsValid : t.number_of_elements ≤ t.max / 2 → IsValid (fill t key n)
    unfolding fill cell
    fill-IsValid room = record {
      width = length-set t.elements spot key ∙ v.width;
      cells = v.cells;
      small = v.small;
      counted =
          omega (arith, occupied-set t.elements spot key (rw v.width spot-lt) free ne, v.counted);
      roomy = omega arith;
      words = λ i hi. ground (arith, fill-get i, v.words i hi);
      placed = fill-Placed;
    }

    fill-Member : (k : ℕ) → k ≢ 0 → Member k (fill t key n) ↔ ((k ≡ key) ⊎ Member k t)
    unfolding fill cell
    fill-Member k nz = (into, out)
      where
        into : Member k (fill t key n) → (k ≡ key) ⊎ Member k t
        into (i, hi, at) = elim (ℕ_discrete spot i) [
          | yes e ↦ inl (ground (arith, fill-get i))
          | no e ↦ inr (i, hi, ground (arith, fill-get i))
        ]

        out : (k ≡ key) ⊎ Member k t → Member k (fill t key n)
        out (inl e) = (spot, spot-lt, ground (arith, fill-get spot))
        out (inr (i, hi, at)) = (i, hi, ground (arith, fill-get i))

  kept : (n : ℕ) → cell t key n ≡ key → Inserted t key t
  kept n hit = record {
    valid = v;
    max = refl;
    number = omega arith;
    members = λ k nz. ((λ m. inr m), λ c. elim c [ inl e ↦ rw e (cell-Member n hit) | inr m ↦ m ]);
  }

  -- `setAdd` of a key other than 0 ends while the table is at most half full.
  pub hash_insert-Inserted :
      key ≢ 0 → t.number_of_elements ≤ t.max / 2 → Returns (hash_insert t key) (Inserted t key)
  unfolding hash_insert
  hash_insert-Inserted ne room =
      let (n, hn, s) = stops in
      let run = insert_loop-Stop (2 * t.max) t key 0 n (omega arith) s in
      elim (ℕ_discrete (cell t key n) 0) [
        | yes e ↦ (
          fill t key n,
          ground (arith, run, v.cells),
          record {
            valid = fill-IsValid n ne s e room;
            max = unfold fill in refl;
            number = unfold fill in omega arith;
            members = fill-Member n ne s e;
          },
        )
        | no u ↦ (t, ground (arith, run, v.cells), kept n (ground (arith, s.ends)))
      ]
