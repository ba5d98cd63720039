-- ===== src/Aoa/Simulation.antt =====
-- The list under optimistic access does the steps of the list without reclamation: the checks and the
-- hazard pointers are silent, or send the thread back to the beginning of its search.
use automatic_optimistic_acc.Base.{
  ℕ, ◌≡◌, inl, inr, refl, ap, Bool, true, false, leb, ◌==◌, if◌then◌else◌, Bool-cases,
}
use automatic_optimistic_acc.Entry.{is_deleted, clear_deleted, get_key}
use automatic_optimistic_acc.Lfl.{Memory, Task, search, insert, delete, force_update, key_of}
use automatic_optimistic_acc.Lfl
use automatic_optimistic_acc.Aoa.{
  Pc, ready, done, hit, start, read_next, check_next, protect_unlink, fence_unlink, unlink,
  clear_unlink, read_key, revalidate, check_key, alloc, protect_connect, fence_connect, write_key,
  write_next, connect, clear_connect, protect_mark, fence_mark, mark, clear_mark, DirtyRecord,
  missing, found, arrive, decide, check, fence_check, step,
}

-- The place of lfl-NoOrDelayRecl.c that a place stands for.
abbrev pub abstract : Pc → Lfl.Pc
abstract ready = Lfl.ready
abstract (done t b) = Lfl.done t b
abstract (hit k cur kd) = Lfl.read_data k cur
abstract (start t) = Lfl.start t
abstract (read_next t prev cur) = Lfl.read_next t prev cur
abstract (check_next t prev cur next) =
    if is_deleted next then Lfl.unlink t prev cur next else Lfl.read_key t prev cur next
abstract (protect_unlink t prev cur next) = Lfl.unlink t prev cur next
abstract (fence_unlink t prev cur next) = Lfl.unlink t prev cur next
abstract (unlink t prev cur next) = Lfl.unlink t prev cur next
abstract (clear_unlink t prev next true) = Lfl.arrive t prev (clear_deleted next)
abstract (clear_unlink t prev next false) = Lfl.start t
abstract (read_key t prev cur next) = Lfl.read_key t prev cur next
abstract (revalidate t prev cur next kd) = Lfl.revalidate t prev cur next (get_key kd)
abstract (check_key t prev cur next kd revalidate_prev) =
    if revalidate_prev == cur then Lfl.decide t prev cur next (get_key kd) else Lfl.start t
abstract (alloc k d prev cur) = Lfl.alloc k d prev cur
abstract (protect_connect k d prev cur new) = Lfl.write_key k d prev cur new
abstract (fence_connect k d prev cur new) = Lfl.write_key k d prev cur new
abstract (write_key k d prev cur new) = Lfl.write_key k d prev cur new
abstract (write_next k d prev cur new) = Lfl.write_next k d prev cur new
abstract (connect k d prev cur new) = Lfl.connect k d prev cur new
abstract (clear_connect k d true) = Lfl.done (insert k d) true
abstract (clear_connect k d false) = Lfl.start (insert k d)
abstract (protect_mark k cur next) = Lfl.mark k cur next
abstract (fence_mark k cur next) = Lfl.mark k cur next
abstract (mark k cur next) = Lfl.mark k cur next
abstract (clear_mark k true) = Lfl.done (delete k) true
abstract (clear_mark k false) = Lfl.start (delete k)

missing-abstract :
    (t : Task) (prev cur : ℕ) → abstract (missing t prev cur) ≡ Lfl.missing t prev cur
unfolding missing Lfl.missing
missing-abstract (search k) prev cur = refl
missing-abstract (insert k d) prev cur = refl
missing-abstract (delete k) prev cur = refl
missing-abstract (force_update k) prev cur = refl

found-abstract :
    (t : Task) (cur next kd : ℕ) → abstract (found t cur next kd) ≡ Lfl.found t cur next
unfolding found Lfl.found
found-abstract (search k) cur next kd = refl
found-abstract (insert k d) cur next kd = refl
found-abstract (delete k) cur next kd = refl
found-abstract (force_update k) cur next kd = refl

arrive-abstract : (t : Task) (prev cur : ℕ) → abstract (arrive t prev cur) ≡ Lfl.arrive t prev cur
unfolding arrive Lfl.arrive
arrive-abstract t prev cur = elim (Bool-cases (cur == 0)) [
  | inl e ↦ rw e (missing-abstract t prev cur)
  | inr e ↦ rw e refl
]

decide-abstract :
    (t : Task) (prev cur next kd : ℕ)
    → abstract (decide t prev cur next kd) ≡ Lfl.decide t prev cur next (get_key kd)
unfolding decide Lfl.decide
decide-abstract t prev cur next kd = elim (Bool-cases (leb (key_of t) (get_key kd))) [
  | inl e ↦ elim (Bool-cases (get_key kd == key_of t)) [
    | inl e' ↦ rw (e, e') (found-abstract t cur next kd)
    | inr e' ↦ rw (e, e') (missing-abstract t prev cur)
  ]
  | inr e ↦ rw e (arrive-abstract t cur next)
]

-- What the thread works on, at a place from which it may be sent back.
abbrev pub task_of : Pc → Task
task_of (check_next t prev cur next) = t
task_of (fence_unlink t prev cur next) = t
task_of (check_key t prev cur next kd r) = t
task_of (fence_connect k d prev cur new) = insert k d
task_of (fence_mark k cur next) = delete k
task_of _ = search 0

-- One step, made from `m` at `p`: it ended in memory `m'` at place `p'`.
pub data Simulates (hash_op : Bool) (me fresh : ℕ) (m : Memory) (dirty : Bool) (p : Pc)
    : Memory → Pc → Type 0 where
  silent : {p' : Pc} → abstract p' ≡ abstract p → Simulates hash_op me fresh m dirty p m p'
  restart : dirty ≡ true → Simulates hash_op me fresh m dirty p m (start (task_of p))
  moves :
      {m' : Memory} {p' : Pc}
      → (m', abstract p') ≡ Lfl.step hash_op me fresh m (abstract p)
      → Simulates hash_op me fresh m dirty p m' p'

module _ (h : Bool) (me fresh : ℕ) (m : Memory) where
  abbrev Simulated : DirtyRecord → Pc → Type 0
  Simulated dty p =
      Simulates h me fresh m dty.dirty p (step h me fresh m dty p).0 (step h me fresh m dty p).2

  check-Simulates :
      (dty : DirtyRecord) (p next : Pc)
      → abstract next ≡ abstract p
      → Simulates h me fresh m dty.dirty p
          (check m dty (start (task_of p)) next).0
          (check m dty (start (task_of p)) next).2
  unfolding check
  check-Simulates dty p next e = elim (Bool-cases dty.dirty) [
    | inl d ↦ rw d (restart refl)
    | inr d ↦ rw d (silent e)
  ]

  fence_check-Simulates :
      (dty : DirtyRecord) (p next : Pc)
      → abstract next ≡ abstract p
      → Simulates h me fresh m dty.dirty p
          (fence_check m dty (start (task_of p)) next).0
          (fence_check m dty (start (task_of p)) next).2
  unfolding fence_check
  fence_check-Simulates dty p next e = elim (Bool-cases dty.dirty) [
    | inl d ↦ rw d (restart refl)
    | inr d ↦ rw d (silent e)
  ]

  next-abstract :
      (t : Task) (prev cur next : ℕ)
      → abstract
          (if is_deleted next then protect_unlink t prev cur next else read_key t prev cur next)
        ≡ abstract (check_next t prev cur next)
  next-abstract t prev cur next = elim (Bool-cases (is_deleted next)) [
    | inl e ↦ rw e refl
    | inr e ↦ rw e refl
  ]

  key-abstract :
      (t : Task) (prev cur next kd r : ℕ)
      → abstract (if r == cur then decide t prev cur next kd else start t)
        ≡ abstract (check_key t prev cur next kd r)
  key-abstract t prev cur next kd r = elim (Bool-cases (r == cur)) [
    | inl e ↦ rw e (decide-abstract t prev cur next kd)
    | inr e ↦ rw e refl
  ]

  -- Each step, from any memory and with any dirty bit, is silent, or sends the thread back because
  -- its bit is set and writes nothing, or is the step of the list without reclamation.
  pub step-Simulates : (dty : DirtyRecord) (p : Pc) → Simulated dty p
  unfolding step Lfl.step
  step-Simulates dty ready = silent refl
  step-Simulates dty (done t b) = silent refl
  step-Simulates dty (hit k cur kd) = silent refl
  step-Simulates dty (start t) = moves (ap (λ q. (m, q)) (arrive-abstract t 0 (m.link 0)))
  step-Simulates dty (read_next t prev cur) = moves refl
  step-Simulates dty (check_next t prev cur next) =
      check-Simulates dty (check_next t prev cur next) _ (next-abstract t prev cur next)
  step-Simulates dty (protect_unlink t prev cur next) = silent refl
  step-Simulates dty (fence_unlink t prev cur next) =
      fence_check-Simulates dty (fence_unlink t prev cur next) _ refl
  step-Simulates dty (unlink t prev cur next) = elim (Bool-cases (m.link prev == cur)) [
    | inl e ↦ rw e (moves (rw e refl))
    | inr e ↦ rw e (moves (rw e refl))
  ]
  step-Simulates dty (clear_unlink t prev next true) =
      silent (arrive-abstract t prev (clear_deleted next))
  step-Simulates dty (clear_unlink t prev next false) = silent refl
  step-Simulates dty (read_key t prev cur next) = moves refl
  step-Simulates dty (revalidate t prev cur next kd) = moves refl
  step-Simulates dty (check_key t prev cur next kd r) =
      check-Simulates dty (check_key t prev cur next kd r) _ (key-abstract t prev cur next kd r)
  step-Simulates dty (alloc k d prev cur) = moves refl
  step-Simulates dty (protect_connect k d prev cur new) = silent refl
  step-Simulates dty (fence_connect k d prev cur new) =
      fence_check-Simulates dty (fence_connect k d prev cur new) _ refl
  step-Simulates dty (write_key k d prev cur new) = moves refl
  step-Simulates dty (write_next k d prev cur new) = moves refl
  step-Simulates dty (connect k d prev cur new) = elim (Bool-cases (m.link prev == cur)) [
    | inl e ↦ rw e (moves (rw e refl))
    | inr e ↦ rw e (moves (rw e refl))
  ]
  step-Simulates dty (clear_connect k d true) = silent refl
  step-Simulates dty (clear_connect k d false) = silent refl
  step-Simulates dty (protect_mark k cur next) = silent refl
  step-Simulates dty (fence_mark k cur next) =
      fence_check-Simulates dty (fence_mark k cur next) _ refl
  step-Simulates dty (mark k cur next) = elim (Bool-cases (m.link cur == next)) [
    | inl e ↦ elim (Bool-cases h) [
      | inl w ↦ rw (e, w) (moves (rw e refl))
      | inr w ↦ rw (e, w) (moves (rw e refl))
    ]
    | inr e ↦ rw e (moves (rw e refl))
  ]
  step-Simulates dty (clear_mark k true) = silent refl
  step-Simulates dty (clear_mark k false) = silent refl
