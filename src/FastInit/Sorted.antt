-- ===== src/FastInit/Sorted.antt =====
-- The initial list of a test has the keys that were drawn, each once, in ascending order.
use native.Mathlib.Nat.{mod-lt}
use automatic_optimistic_acc.Base.{
  In, ℕ, zero, suc, ◌+◌, ◌-◌, ◌/◌, ◌%◌, ◌^◌, ◌≤◌, ◌<◌, ◌≡◌, ◌≢◌, ◌⊎◌, ◌↔◌, inl, inr, refl, sym, ap,
  ◌∙◌, Bool, true, not, ◌&&◌, ◌||◌, List, [], ◌∷◌, Option, none, some, arith, ◌==◌, ltb, Bool-cases,
  test_eq, test_ne, length,
}
use automatic_optimistic_acc.Lfl.{update}
use automatic_optimistic_acc.Entry.{get_key, get_key-of_small}
use automatic_optimistic_acc.FastInit.{
  Store, sim_random, find_fast, place_entry, placed, first_link, list_insert_fast, draw,
  initialize_ds,
}
use automatic_optimistic_acc.FastInit.Chains.{
  before, from, found, inserted, find_fast_lem, from_mid, inserted-Chain,
}
use automatic_optimistic_acc.FastInit.Insert.{
  key_of, HasKey, Nodes, IsOrdered, found-HasKey, found-Absent, In-inserted, length-inserted,
  inserted-Distinct, inserted-Ascending,
}

-- What an insertion of `k` has done.
abbrev pub Inserted :
    (palloc : ℕ → ℕ) (k : ℕ) (s : Store) (ns : List ℕ) (s' : Store) → Bool → Type 0
Inserted palloc k s ns s' b =
    (ns' : List ℕ) × IsOrdered palloc s' ns'
    × ((k' : ℕ) → HasKey (key_of s') ns' k' ↔ (HasKey (key_of s) ns k' ⊎ (k' ≡ k)))
    × ((b ≡ true) ↔ (HasKey (key_of s) ns k → ⊥))
    × (length ns' ≤ suc (length ns))

module _ (palloc : ℕ → ℕ) (nodes : Nodes palloc) (midkey k : ℕ) (small : k < 2 ^ 31) (s : Store)
    (ns : List ℕ) (ok : IsOrdered palloc s ns) where
  abbrev searched : ℕ × ℕ × Bool
  searched = (before (key_of s) k 0 ns, from (key_of s) k ns, found (key_of s) k ns)

  -- Beginning at `mid` makes no difference.
  find-searched :
      (fuel : ℕ)
      → length ns < fuel
      → find_fast fuel s.link s.key_data (first_link 0 k s) k ≡ some searched
  unfolding first_link
  find-searched fuel lt =
      elim (Bool-cases (not (s.mid == 0) && (not (0 == s.mid) && ltb (key_of s s.mid) k))) [
        | inr e ↦ rw e (find_fast_lem fuel s.link s.key_data 0 k ns ok.chain lt)
        | inl e ↦
            let not_null : s.mid ≢ 0 = λ z. absurd (ground (arith, e, z)) in
            let smaller : key_of s s.mid < k = ground (arith, e) in
            let i : In s.mid ns = elim ok.middle [ inl z ↦ absurd (not_null z) | inr i ↦ i ] in
            let (bs, c, le, b1, b2, b3) =
              from_mid s.link (key_of s) k 0 s.mid ns ok.chain ok.ascending i smaller in
            rw e (
              find_fast_lem fuel s.link s.key_data s.mid k bs c (omega arith)
              ∙ (ap (λ x. some (x, from (key_of s) k bs, found (key_of s) k bs)) b1
                  ∙ (ap (λ x. some (before (key_of s) k 0 ns, x, found (key_of s) k bs)) b2
                      ∙ ap (λ x. some (before (key_of s) k 0 ns, from (key_of s) k ns, x)) b3)))
      ]

  -- A new node is none of the list's.
  fresh : (n : ℕ) → In n ns → n ≢ palloc s.allocated
  fresh n i e =
      let (j, lt, same) = ok.old n i in
      let again = nodes.apart j s.allocated (sym same ∙ e) in omega arith

  place-Inserted :
      Inserted palloc k s ns
        (placed (palloc s.allocated) midkey k s searched).0
        (placed (palloc s.allocated) midkey k s searched).1
  unfolding place_entry
  place-Inserted = elim (Bool-cases (found (key_of s) k ns)) [
    | inl e ↦
        let there = found-HasKey (key_of s) k ns e in
        rw e (
          ns,
          ok,
          (λ k'. (λ h. inl h, λ h. elim h [ inl g ↦ g | inr q ↦ rw q there ])),
          ((λ q. cc), λ absent. absurd (absent there)),
          omega arith,
        )
    | inr e ↦
        let new = palloc s.allocated in
        let key = key_of s in
        let key' = λ (n : ℕ). get_key (update s.key_data new k n) in
        let new_key : key' new ≡ k = rw (test_eq new new refl) (get_key-of_small k small) in
        let old_key = λ (n : ℕ) (i : In n ns).
          let same : key' n ≡ key n = rw (test_ne n new (fresh n i)) refl in same in
        let absent = found-Absent key k ns ok.ascending e in
        let out : In new (0 ∷ ns) → ⊥ =
          λ i. elim i [ inl q ↦ nodes.not_null s.allocated q | inr j ↦ fresh new j refl ] in
        let members = λ (n : ℕ). In-inserted key k new n ns in
        rw e (
          inserted key k new ns,
          record {
            chain =
                inserted-Chain s.link key k 0 new ns ok.chain ok.distinct
                  (nodes.not_null s.allocated) out;
            ascending = inserted-Ascending key k key' new ns new_key old_key ok.ascending e;
            distinct = (
              λ i. elim ((members 0).0 i) [
                | inl q ↦ nodes.not_null s.allocated (sym q)
                | inr j ↦ ok.distinct.0 j
              ],
              inserted-Distinct key k new ns ok.distinct.1 (λ i. out (inr i)),
            );
            middle = elim (Bool-cases (ltb k midkey && (s.mid == 0 || ltb (key_of s s.mid) k))) [
              | inl f ↦ rw f (inr ((members new).1 (inl refl)))
              | inr f ↦
                  rw f (elim ok.middle [ inl z ↦ inl z | inr i ↦ inr ((members s.mid).1 (inr i)) ])
            ];
            used = length-inserted key k new ns ∙ ap suc ok.used;
            old = λ n i. elim ((members n).0 i) [
              | inl q ↦ (s.allocated, omega arith, q)
              | inr j ↦ let (m, lt, q) = ok.old n j in (m, omega arith, q)
            ];
          },
          (λ k'. (
            λ h.
                let (n, i, q) = h in
                elim ((members n).0 i) [
                  | inl z ↦ inr (sym q ∙ (ap key' z ∙ new_key))
                  | inr j ↦ inl (n, j, sym (old_key n j) ∙ q)
                ],
            λ h. elim h [
              | inl g ↦ let (n, j, q) = g in (n, (members n).1 (inr j), old_key n j ∙ q)
              | inr q ↦ (new, (members new).1 (inl refl), new_key ∙ sym q)
            ],
          )),
          ((λ _. λ h. let (n, i, q) = h in absent n i q), λ _. refl),
          omega (arith, length-inserted key k new ns),
        )
  ]

  -- Insertion ends, keeps the list in order, adds the key, and says whether it was absent.
  pub list_insert_fast-Inserted :
      (fuel : ℕ)
      → length ns < fuel
      → (s' : Store) × (b : Bool) × (list_insert_fast fuel palloc 0 midkey k s ≡ some (s', b))
        × Inserted palloc k s ns s' b
  unfolding list_insert_fast
  list_insert_fast-Inserted fuel lt = (
    (placed (palloc s.allocated) midkey k s searched).0,
    (placed (palloc s.allocated) midkey k s searched).1,
    ap finish (find-searched fuel lt),
    place-Inserted,
  )
    where
      finish : Option (ℕ × ℕ × Bool) → Option (Store × Bool)
      finish r = elim r [ none ↦ none | some x ↦ some (placed (palloc s.allocated) midkey k s x) ]

-- The keys that `n` rounds draw.
unfoldable pub Drawn : (n range next k : ℕ) → Type 0
Drawn zero range next k = ⊥
Drawn (suc n) range next k = (k ≡ (sim_random next).0 % range) ⊎ Drawn n range (sim_random next).1 k

module _ (palloc : ℕ → ℕ) (nodes : Nodes palloc) (range : ℕ) (pos : 0 < range)
    (int : range ≤ 2 ^ 31) where
  draw-IsOrdered :
      (n fuel next : ℕ) (s : Store) (ns : List ℕ)
      → IsOrdered palloc s ns
      → length ns + n < fuel
      → (s' : Store) × (ns' : List ℕ) × (draw n fuel palloc range next s ≡ some s')
        × IsOrdered palloc s' ns'
        × ((k : ℕ) → HasKey (key_of s') ns' k ↔ (HasKey (key_of s) ns k ⊎ Drawn n range next k))
  unfolding draw Drawn
  draw-IsOrdered zero fuel next s ns ok lt =
      (s, ns, refl, ok, λ k. (λ h. inl h, λ h. elim h [ inl g ↦ g | inr x ↦ elim x [ ] ]))
  draw-IsOrdered (suc n) fuel next s ns ok lt =
      let k0 = (sim_random next).0 % range in
      let below : k0 < range = mod-lt (sim_random next).0 pos in
      let (s1, b, ran, (ns1, ok1, keys1, _, len1)) =
        list_insert_fast-Inserted palloc nodes (range / 2) k0 (omega arith) s ns ok fuel
          (omega arith) in
      let (s2, ns2, ran2, ok2, keys2) =
        draw-IsOrdered n fuel (sim_random next).1 s1 ns1 ok1 (omega arith) in
      (
        s2,
        ns2,
        ap (go n fuel (sim_random next).1) ran ∙ ran2,
        ok2,
        λ k. (
          λ h. elim ((keys2 k).0 h) [
            | inl g ↦ elim ((keys1 k).0 g) [ inl o ↦ inl o | inr q ↦ inr (inl q) ]
            | inr d ↦ inr (inr d)
          ],
          λ h. elim h [
            | inl o ↦ (keys2 k).1 (inl ((keys1 k).1 (inl o)))
            | inr (inl q) ↦ (keys2 k).1 (inl ((keys1 k).1 (inr q)))
            | inr (inr d) ↦ (keys2 k).1 (inr d)
          ],
        ),
      )
    where
      go : (n fuel next : ℕ) → Option (Store × Bool) → Option Store
      go n fuel next r = elim r [ none ↦ none | some r' ↦ draw n fuel palloc range next r'.0 ]

  -- From any memory in which `mid` is still null and nothing has been allocated, with a range of 1 to 2^31 and an
  -- allocator that returns new nodes, `initialize_ds` ends, and leaves a list with the keys that its rounds have
  -- drawn and no others, in ascending order, each once.
  pub initialize_ds-IsOrdered :
      (n : ℕ) (s : Store)
      → s.mid ≡ 0
      → s.allocated ≡ 0
      → (s' : Store) × (ns : List ℕ) × (initialize_ds palloc n range s ≡ some s')
        × IsOrdered palloc s' ns
        × ((k : ℕ) → HasKey (key_of s') ns k ↔ Drawn n range (2 ^ 64 - 1) k)
  unfolding initialize_ds
  initialize_ds-IsOrdered n s no_mid none_used =
      let s0 = record s { link = update s.link 0 0 } in
      let empty : IsOrdered palloc s0 [] = record {
        chain = refl;
        ascending = tt;
        distinct = (λ i. i, tt);
        middle = inl no_mid;
        used = sym none_used;
        old = λ m i. absurd i;
      } in
      let (s', ns, ran, ok, keys) =
        draw-IsOrdered n (suc n) (2 ^ 64 - 1) s0 [] empty (omega arith) in
      (
        s',
        ns,
        ran,
        ok,
        λ k. (
          λ h. elim ((keys k).0 h) [ inl g ↦ elim (g.1) [ ] | inr d ↦ d ],
          λ d. (keys k).1 (inr d),
        ),
      )
