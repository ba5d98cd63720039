-- ===== src/Aoa/Local.antt =====
-- The discipline of one thread of lfl-RoF.c, whatever the other threads and the collector do to memory
-- and to its dirty bit: what its hazard pointers hold at each place, and where it writes.
use automatic_optimistic_acc.Base.{
  ℕ, ◌≡◌, inl, inr, refl, Bool, true, false, leb, ◌==◌, if◌then◌else◌, Bool-cases, arith,
}
use automatic_optimistic_acc.Entry.{is_deleted, clear_deleted, get_key}
use automatic_optimistic_acc.Lfl.{
  Memory, Task, search, insert, delete, force_update, key_of, is_request,
}
use automatic_optimistic_acc.Aoa.{
  Pc, ready, done, hit, start, read_next, check_next, protect_unlink, fence_unlink, unlink,
  clear_unlink, read_key, revalidate, check_key, alloc, protect_connect, fence_connect, write_key,
  write_next, connect, clear_connect, protect_mark, fence_mark, mark, clear_mark, DirtyRecord,
  no_hps, missing, found, arrive, decide, check, fence_check, step,
}

abbrev pub is_idle : Pc → Bool
is_idle ready = true
is_idle (done t b) = true
is_idle (hit k cur kd) = true
is_idle _ = false

-- The hazard pointers are `a`, `b` and `c`.
abbrev pub Hps : DirtyRecord → (a b c : ℕ) → Type 0
Hps dty a b c = (dty.hp0 ≡ a) × (dty.hp1 ≡ b) × (dty.hp2 ≡ c)

-- Inside `find`: none, except in the search that ends a deletion.
abbrev Searching : Task → DirtyRecord → Type 0
Searching (force_update k) dty = Unit {0}
Searching _ dty = Hps dty 0 0 0

-- What the hazard pointers hold at each place.
abbrev pub Protected : Pc → DirtyRecord → Type 0
Protected (start t) dty = Searching t dty
Protected (read_next t prev cur) dty = Searching t dty
Protected (check_next t prev cur next) dty = Searching t dty
Protected (protect_unlink t prev cur next) dty = Searching t dty
Protected (fence_unlink t prev cur next) dty = Hps dty prev cur (clear_deleted next)
Protected (unlink t prev cur next) dty = Hps dty prev cur (clear_deleted next)
Protected (clear_unlink t prev next success) dty = Unit {0}
Protected (read_key t prev cur next) dty = Searching t dty
Protected (revalidate t prev cur next kd) dty = Searching t dty
Protected (check_key t prev cur next kd r) dty = Searching t dty
Protected (fence_connect k d prev cur new) dty = Hps dty prev cur new
Protected (write_key k d prev cur new) dty = Hps dty prev cur new
Protected (write_next k d prev cur new) dty = Hps dty prev cur new
Protected (connect k d prev cur new) dty = Hps dty prev cur new
Protected (clear_connect k d success) dty = Unit {0}
Protected (fence_mark k cur next) dty = Hps dty cur next 0
Protected (mark k cur next) dty = Hps dty cur next 0
Protected (clear_mark k success) dty = Unit {0}
Protected _ dty = Hps dty 0 0 0

none-Searching : (t : Task) (b : Bool) → Searching t (no_hps b)
none-Searching (search k) b = (refl, refl, refl)
none-Searching (insert k d) b = (refl, refl, refl)
none-Searching (delete k) b = (refl, refl, refl)
none-Searching (force_update k) b = tt

-- The dirty bit plays no part.
bit-Searching :
    (t : Task) (dty : DirtyRecord) (b : Bool)
    → Searching t dty
    → Searching t (record dty { dirty = b })
bit-Searching (search k) dty b s = s
bit-Searching (insert k d) dty b s = s
bit-Searching (delete k) dty b s = s
bit-Searching (force_update k) dty b s = s

missing-Protected :
    (t : Task) (prev cur : ℕ) (dty : DirtyRecord)
    → Searching t dty
    → Protected (missing t prev cur) dty
unfolding missing
missing-Protected (search k) prev cur dty s = s
missing-Protected (insert k d) prev cur dty s = s
missing-Protected (delete k) prev cur dty s = s
missing-Protected (force_update k) prev cur dty s = tt

found-Protected :
    (t : Task) (cur next kd : ℕ) (dty : DirtyRecord)
    → Searching t dty
    → Protected (found t cur next kd) dty
unfolding found
found-Protected (search k) cur next kd dty s = s
found-Protected (insert k d) cur next kd dty s = s
found-Protected (delete k) cur next kd dty s = s
found-Protected (force_update k) cur next kd dty s = tt

arrive-Protected :
    (t : Task) (prev cur : ℕ) (dty : DirtyRecord)
    → Searching t dty
    → Protected (arrive t prev cur) dty
unfolding arrive
arrive-Protected t prev cur dty s = elim (Bool-cases (cur == 0)) [
  | inl e ↦ rw e (missing-Protected t prev cur dty s)
  | inr e ↦ rw e s
]

decide-Protected :
    (t : Task) (prev cur next kd : ℕ) (dty : DirtyRecord)
    → Searching t dty
    → Protected (decide t prev cur next kd) dty
unfolding decide
decide-Protected t prev cur next kd dty s = elim (Bool-cases (leb (key_of t) (get_key kd))) [
  | inl e ↦ elim (Bool-cases (get_key kd == key_of t)) [
    | inl e' ↦ rw (e, e') (found-Protected t cur next kd dty s)
    | inr e' ↦ rw (e, e') (missing-Protected t prev cur dty s)
  ]
  | inr e ↦ rw e (arrive-Protected t cur next dty s)
]

-- The record's discipline holds at the end of a step.
abbrev Kept : Memory × DirtyRecord × Pc → Type 0
Kept r = Protected r.2 r.1

check-Kept :
    (m : Memory) (t : Task) (dty : DirtyRecord) (next : Pc)
    → Searching t dty
    → ((b : Bool) → Protected next (record dty { dirty = b }))
    → Kept (check m dty (start t) next)
unfolding check
check-Kept m t dty next s p = elim (Bool-cases dty.dirty) [
  | inl d ↦ rw d (bit-Searching t dty false s)
  | inr d ↦ rw d (p false)
]

fence_check-Kept :
    (m : Memory) (t : Task) (dty : DirtyRecord) (next : Pc)
    → Protected next (record dty { dirty = false })
    → Kept (fence_check m dty (start t) next)
unfolding fence_check
fence_check-Kept m t dty next p = elim (Bool-cases dty.dirty) [
  | inl d ↦ rw d (none-Searching t false)
  | inr d ↦ rw d p
]

next-Protected :
    (t : Task) (prev cur next : ℕ) (dty : DirtyRecord)
    → Searching t dty
    → Protected
        (if is_deleted next then protect_unlink t prev cur next else read_key t prev cur next)
        dty
next-Protected t prev cur next dty s = elim (Bool-cases (is_deleted next)) [
  | inl e ↦ rw e s
  | inr e ↦ rw e s
]

key-Protected :
    (t : Task) (prev cur next kd r : ℕ) (dty : DirtyRecord)
    → Searching t dty
    → Protected (if r == cur then decide t prev cur next kd else start t) dty
key-Protected t prev cur next kd r dty s = elim (Bool-cases (r == cur)) [
  | inl e ↦ rw e (decide-Protected t prev cur next kd dty s)
  | inr e ↦ rw e s
]

step-Protected :
    (h : Bool) (me fresh : ℕ) (m : Memory) (dty : DirtyRecord) (p : Pc)
    → Protected p dty
    → Kept (step h me fresh m dty p)
unfolding step
step-Protected h me fresh m dty ready s = s
step-Protected h me fresh m dty (done t b) s = s
step-Protected h me fresh m dty (hit k cur kd) s = s
step-Protected h me fresh m dty (start t) s = arrive-Protected t 0 (m.link 0) dty s
step-Protected h me fresh m dty (read_next t prev cur) s = s
step-Protected h me fresh m dty (check_next t prev cur next) s =
    check-Kept m t dty _ s
      (λ b. next-Protected t prev cur next (record dty { dirty = b }) (bit-Searching t dty b s))
step-Protected h me fresh m dty (protect_unlink t prev cur next) s = (refl, refl, refl)
step-Protected h me fresh m dty (fence_unlink t prev cur next) s = fence_check-Kept m t dty _ s
step-Protected h me fresh m dty (unlink t prev cur next) s =
    elim (Bool-cases (m.link prev == cur)) [ inl e ↦ rw e tt | inr e ↦ rw e tt ]
step-Protected h me fresh m dty (clear_unlink t prev next true) s =
    arrive-Protected t prev (clear_deleted next) (no_hps dty.dirty) (none-Searching t dty.dirty)
step-Protected h me fresh m dty (clear_unlink t prev next false) s = none-Searching t dty.dirty
step-Protected h me fresh m dty (read_key t prev cur next) s = s
step-Protected h me fresh m dty (revalidate t prev cur next kd) s = s
step-Protected h me fresh m dty (check_key t prev cur next kd r) s =
    check-Kept m t dty _ s
      (λ b. key-Protected t prev cur next kd r (record dty { dirty = b }) (bit-Searching t dty b s))
step-Protected h me fresh m dty (alloc k d prev cur) s = s
step-Protected h me fresh m dty (protect_connect k d prev cur new) s = (refl, refl, refl)
step-Protected h me fresh m dty (fence_connect k d prev cur new) s =
    fence_check-Kept m (insert k d) dty _ s
step-Protected h me fresh m dty (write_key k d prev cur new) s = s
step-Protected h me fresh m dty (write_next k d prev cur new) s = s
step-Protected h me fresh m dty (connect k d prev cur new) s =
    elim (Bool-cases (m.link prev == cur)) [ inl e ↦ rw e tt | inr e ↦ rw e tt ]
step-Protected h me fresh m dty (clear_connect k d true) s = (refl, refl, refl)
step-Protected h me fresh m dty (clear_connect k d false) s = (refl, refl, refl)
step-Protected h me fresh m dty (protect_mark k cur next) s = (refl, refl, s.2)
step-Protected h me fresh m dty (fence_mark k cur next) s = fence_check-Kept m (delete k) dty _ s
step-Protected h me fresh m dty (mark k cur next) s = elim (Bool-cases (m.link cur == next)) [
  | inl e ↦ rw e (elim (Bool-cases h) [ inl w ↦ rw w tt | inr w ↦ rw w tt ])
  | inr e ↦ rw e tt
]
step-Protected h me fresh m dty (clear_mark k true) s = (refl, refl, refl)
step-Protected h me fresh m dty (clear_mark k false) s = (refl, refl, refl)

bit-Protected :
    (p : Pc) (dty : DirtyRecord) (b : Bool)
    → Protected p dty
    → Protected p (record dty { dirty = b })
bit-Protected (start t) dty b s = bit-Searching t dty b s
bit-Protected (read_next t prev cur) dty b s = bit-Searching t dty b s
bit-Protected (check_next t prev cur next) dty b s = bit-Searching t dty b s
bit-Protected (protect_unlink t prev cur next) dty b s = bit-Searching t dty b s
bit-Protected (read_key t prev cur next) dty b s = bit-Searching t dty b s
bit-Protected (revalidate t prev cur next kd) dty b s = bit-Searching t dty b s
bit-Protected (check_key t prev cur next kd r) dty b s = bit-Searching t dty b s
bit-Protected ready dty b s = s
bit-Protected (done t r) dty b s = s
bit-Protected (hit k cur kd) dty b s = s
bit-Protected (fence_unlink t prev cur next) dty b s = s
bit-Protected (unlink t prev cur next) dty b s = s
bit-Protected (clear_unlink t prev next r) dty b s = s
bit-Protected (alloc k d prev cur) dty b s = s
bit-Protected (protect_connect k d prev cur new) dty b s = s
bit-Protected (fence_connect k d prev cur new) dty b s = s
bit-Protected (write_key k d prev cur new) dty b s = s
bit-Protected (write_next k d prev cur new) dty b s = s
bit-Protected (connect k d prev cur new) dty b s = s
bit-Protected (clear_connect k d r) dty b s = s
bit-Protected (protect_mark k cur next) dty b s = s
bit-Protected (fence_mark k cur next) dty b s = s
bit-Protected (mark k cur next) dty b s = s
bit-Protected (clear_mark k r) dty b s = s

-- What one thread can come to: at each step memory is as the others have left it, and between its
-- steps the collector writes its dirty bit.
pub data Local (hash_op : Bool) (me : ℕ) : DirtyRecord → Pc → Type 0 where
  begins : (b : Bool) → Local hash_op me (no_hps b) ready
  called :
      {dty : DirtyRecord} {p : Pc} (t : Task)
      → Local hash_op me dty p
      → is_idle p ≡ true
      → is_request t ≡ true
      → Local hash_op me dty (start t)
  dirtied :
      {dty : DirtyRecord} {p : Pc} (b : Bool)
      → Local hash_op me dty p
      → Local hash_op me (record dty { dirty = b }) p
  stepped :
      {dty : DirtyRecord} {p : Pc} (fresh : ℕ) (m : Memory)
      → Local hash_op me dty p
      → Local hash_op me (step hash_op me fresh m dty p).1 (step hash_op me fresh m dty p).2

call-Protected :
    (t : Task) (p : Pc) (dty : DirtyRecord)
    → is_idle p ≡ true
    → is_request t ≡ true
    → Protected p dty
    → Protected (start t) dty
call-Protected (search k) ready dty i r s = s
call-Protected (insert k d) ready dty i r s = s
call-Protected (delete k) ready dty i r s = s
call-Protected (search k) (done t b) dty i r s = s
call-Protected (insert k d) (done t b) dty i r s = s
call-Protected (delete k) (done t b) dty i r s = s
call-Protected (search k) (hit k' cur kd) dty i r s = s
call-Protected (insert k d) (hit k' cur kd) dty i r s = s
call-Protected (delete k) (hit k' cur kd) dty i r s = s
call-Protected (force_update k) p dty i r s = tt
call-Protected t p dty i r s = ground arith

-- Whatever happens to memory and to the dirty bit, the hazard pointers of a thread hold the nodes of
-- its compare-and-swap from the fence to the swap, and none when it is idle.
pub Local-Protected :
    (hash_op : Bool) (me : ℕ) (dty : DirtyRecord) (p : Pc)
    → Local hash_op me dty p
    → Protected p dty
Local-Protected h me _ _ (begins b) = (refl, refl, refl)
Local-Protected h me dty _ (called t l i r) =
    call-Protected t _ dty i r (Local-Protected h me dty _ l)
Local-Protected h me _ p (dirtied b l) = bit-Protected p _ b (Local-Protected h me _ p l)
Local-Protected h me _ _ (stepped fresh m l) =
    step-Protected h me fresh m _ _ (Local-Protected h me _ _ l)
