-- ===== src/Rc/Safe.antt =====
-- What holds of a thread of lfl-RC.c between its steps: the nodes that it refers to are live, and its locals are
-- true of memory.
use automatic_optimistic_acc.Base.{
  ℕ, ◌-◌, ◌%◌, ◌≡◌, ◌≢◌, ◌⊎◌, inl, inr, List, [], ◌∷◌, ◌++◌, arith, In, subst, ◌==◌, Bool-cases,
  leb,
}
use automatic_optimistic_acc.Lfl.{Task, search, insert, delete, force_update, key_of}
use automatic_optimistic_acc.Rc.{
  Pc, read_next, unlink, drop_link, read_again, drop_cur, read_key, revalidate, alloc, write_key,
  write_next, read_cur, connect, mark, releasing, missing, found, arrive, decide,
}
use automatic_optimistic_acc.Rc.Balance.{held}

abbrev pub Even : ℕ → Type 0
Even p = p % 2 ≡ 0

-- The pointer is null or its node is live.
abbrev pub Alive : List ℕ → ℕ → Type 0
Alive live v = (v - v % 2 ≡ 0) ⊎ In (v - v % 2) live

abbrev pub AllAlive : (live ps : List ℕ) → Type 0
AllAlive live [] = Unit {0}
AllAlive live (p ∷ ps) = Alive live p × AllAlive live ps

-- The pointers that have to be live: all that a thread holds but its new node, whose link is not written yet.
abbrev pub secured : Pc → List ℕ
secured (write_key k prev cur next new) = prev ∷ cur ∷ next ∷ []
secured (write_next k prev cur next new) = prev ∷ cur ∷ next ∷ []
secured (releasing ps q) = ps ++ secured q
secured pc = held pc

-- A new node that nobody else refers to.
abbrev pub Own : (count : ℕ → ℕ) → ℕ → Type 0
Own count new = Even new × (new ≢ 0) × (count new ≡ 2)

-- `next` is a marked link, the one of `cur`.
abbrev pub Marked : (link : ℕ → ℕ) → (cur next : ℕ) → Type 0
Marked link cur next = (cur ≢ 0) × (next % 2 ≡ 1) × (link cur ≡ next)

abbrev pub Locals : (link : ℕ → ℕ) → List ℕ → (count : ℕ → ℕ) → Pc → Type 0
Locals link live count (read_next t prev cur) = Even prev × Even cur × (cur ≢ 0)
Locals link live count (unlink t prev cur next) = Even prev × Even cur × Marked link cur next
Locals link live count (drop_link t prev cur next) = Even prev × Even cur × Marked link cur next
Locals link live count (read_again t prev cur next) = Even prev × Even cur × Marked link cur next
Locals link live count (drop_cur t prev cur next) = Even prev
Locals link live count (read_key t prev cur next) = Even prev × Even cur × (cur ≢ 0) × Even next
Locals link live count (revalidate t prev cur next ckey) =
    Even prev × Even cur × (cur ≢ 0) × Even next
Locals link live count (mark k prev cur next) = Even prev × Even cur × (cur ≢ 0) × Even next
Locals link live count (alloc k prev cur next) = Even prev × Even cur
Locals link live count (write_key k prev cur next new) =
    Even prev × Even cur × Own count new × (In new live → ⊥)
Locals link live count (write_next k prev cur next new) =
    Even prev × Even cur × Own count new × (In new live → ⊥)
Locals link live count (read_cur k prev cur next new) =
    Even prev × Even cur × Own count new × (link new ≡ cur)
Locals link live count (connect k prev cur next new) = Even prev × Even cur × Even new × (new ≢ 0)
Locals link live count (releasing ps q) = (c : ℕ → ℕ) → Locals link live c q
Locals link live count _ = Unit {0}

abbrev pub Safe : (link : ℕ → ℕ) → List ℕ → (count : ℕ → ℕ) → Pc → Type 0
Safe link live count pc = AllAlive live (secured pc) × Locals link live count pc

-- A name that is even and alive is a live link; the head is always one.
pub Alive-In : (live : List ℕ) (p : ℕ) → In 0 live → Even p → Alive live p → In p live
Alive-In live p zero e (inl z) = let null : 0 ≡ p = omega arith in subst (λ x. In x live) null zero
Alive-In live p zero e (inr i) =
    let same : p - p % 2 ≡ p = omega arith in subst (λ x. In x live) same i

pub Alive-mono :
    (live live' : List ℕ) (p : ℕ)
    → ((x : ℕ) → In x live → In x live')
    → Alive live p
    → Alive live' p
Alive-mono live live' p more (inl z) = inl z
Alive-mono live live' p more (inr i) = inr (more (p - p % 2) i)

pub AllAlive-mono :
    (live live' ps : List ℕ)
    → ((x : ℕ) → In x live → In x live')
    → AllAlive live ps
    → AllAlive live' ps
AllAlive-mono live live' [] more a = a
AllAlive-mono live live' (p ∷ ps) more (a, as') =
    (Alive-mono live live' p more a, AllAlive-mono live live' ps more as')

pub AllAlive-drop : (live ps qs : List ℕ) → AllAlive live (ps ++ qs) → AllAlive live qs
AllAlive-drop live [] qs a = a
AllAlive-drop live (p ∷ ps) qs (_, rest) = AllAlive-drop live ps qs rest

module _ (link : ℕ → ℕ) (live : List ℕ) where
  pub missing-Safe :
      (count : ℕ → ℕ) (t : Task) (prev cur next : ℕ)
      → Alive live prev
      → Alive live cur
      → Alive live next
      → Even prev
      → Even cur
      → Safe link live count (missing t prev cur next)
  unfolding missing
  missing-Safe count (search k) prev cur next ap' ac an ep ec = ((ac, (an, (ap', tt))), λ c. tt)
  missing-Safe count (insert k d) prev cur next ap' ac an ep ec = ((ap', (ac, (an, tt))), (ep, ec))
  missing-Safe count (delete k) prev cur next ap' ac an ep ec = ((ac, (an, (ap', tt))), λ c. tt)
  missing-Safe count (force_update k) prev cur next ap' ac an ep ec =
      ((ac, (an, (ap', tt))), λ c. tt)

  pub found-Safe :
      (count : ℕ → ℕ) (t : Task) (prev cur next : ℕ)
      → Alive live prev
      → Alive live cur
      → Alive live next
      → Even prev
      → Even cur
      → cur ≢ 0
      → Even next
      → Safe link live count (found t prev cur next)
  unfolding found
  found-Safe count (search k) prev cur next ap' ac an ep ec ne en = ((ap', (ac, (an, tt))), tt)
  found-Safe count (insert k d) prev cur next ap' ac an ep ec ne en =
      ((ac, (an, (ap', tt))), λ c. tt)
  found-Safe count (delete k) prev cur next ap' ac an ep ec ne en =
      ((ap', (ac, (an, tt))), (ep, ec, ne, en))
  found-Safe count (force_update k) prev cur next ap' ac an ep ec ne en =
      ((ac, (an, (ap', tt))), λ c. tt)

  pub arrive-Safe :
      (count : ℕ → ℕ) (t : Task) (prev cur : ℕ)
      → Alive live prev
      → Alive live cur
      → Even prev
      → Even cur
      → Safe link live count (arrive t prev cur)
  unfolding arrive
  arrive-Safe count t prev cur ap' ac ep ec = elim (Bool-cases (cur == 0)) [
    | inl e ↦
        rw e (
          missing-Safe count t prev 0 0 ap' (inl (omega arith)) (inl (omega arith)) ep
            (omega arith))
    | inr e ↦ rw e ((ap', (ac, tt)), (ep, ec, ground arith))
  ]

  pub decide-Safe :
      (count : ℕ → ℕ) (t : Task) (prev cur next ckey : ℕ)
      → Alive live prev
      → Alive live cur
      → Alive live next
      → Even prev
      → Even cur
      → cur ≢ 0
      → Even next
      → Safe link live count (decide t prev cur next ckey)
  unfolding decide
  decide-Safe count t prev cur next ckey ap' ac an ep ec ne en =
      elim (Bool-cases (leb (key_of t) ckey)) [
        | inl e ↦ rw e (elim (Bool-cases (ckey == key_of t)) [
          | inl f ↦ rw f (found-Safe count t prev cur next ap' ac an ep ec ne en)
          | inr f ↦ rw f (missing-Safe count t prev cur next ap' ac an ep ec)
        ])
        | inr e ↦ rw e (
          (ap', (arrive-Safe count t cur next ac an ec en).0),
          λ c. (arrive-Safe c t cur next ac an ec en).1,
        )
      ]
