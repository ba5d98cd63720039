-- ===== src/Aoa.antt =====
-- The list of lfl-RoF.c, with automatic optimistic access, one shared access at a time. Places, links
-- and memory are named as in Lfl. A thread reads without protection and then looks at its dirty bit
-- (`CHECK`); before it writes, it publishes hazard pointers and tests the bit again (`FENCE_CHECK`).
-- The stores to the three hazard pointers are one step; the locked exchange of the bit follows them.
-- `helpCollection` runs the collector, which changes no link and no hazard pointer.
pub mod Local
pub mod Simulation
pub mod Writes
use automatic_optimistic_acc.Base.{ℕ, ◌%◌, Bool, true, false, leb, ◌==◌, if◌then◌else◌}
use automatic_optimistic_acc.Entry.{is_deleted, mark_deleted, clear_deleted, get_key}
use automatic_optimistic_acc.Lfl.{
  Memory, update, private, shared, Task, search, insert, delete, force_update, key_of,
}

-- `struct DirtyRecord`; the hazard pointer of the list's head is `NULL`, as its link has name 0.
pub record DirtyRecord : Type 0 where
  pub dirty : Bool
  pub hp0 : ℕ
  pub hp1 : ℕ
  pub hp2 : ℕ

abbrev pub no_hps : Bool → DirtyRecord
no_hps b = record { dirty = b; hp0 = 0; hp1 = 0; hp2 = 0 }

pub data Pc : Type 0 where
  ready : Pc
  done : Task → (result : Bool) → Pc
  hit : (key cur key_data : ℕ) → Pc  -- `cur` is where the data was read; no code reads it
  start : Task → Pc
  read_next : Task → (prev cur : ℕ) → Pc
  check_next : Task → (prev cur next : ℕ) → Pc
  protect_unlink : Task → (prev cur next : ℕ) → Pc
  fence_unlink : Task → (prev cur next : ℕ) → Pc
  unlink : Task → (prev cur next : ℕ) → Pc
  clear_unlink : Task → (prev next : ℕ) → (success : Bool) → Pc
  read_key : Task → (prev cur next : ℕ) → Pc
  revalidate : Task → (prev cur next kd : ℕ) → Pc
  check_key : Task → (prev cur next kd revalidate_prev : ℕ) → Pc
  alloc : (key new_data prev cur : ℕ) → Pc
  protect_connect : (key new_data prev cur new : ℕ) → Pc
  fence_connect : (key new_data prev cur new : ℕ) → Pc
  write_key : (key new_data prev cur new : ℕ) → Pc
  write_next : (key new_data prev cur new : ℕ) → Pc
  connect : (key new_data prev cur new : ℕ) → Pc
  clear_connect : (key new_data : ℕ) → (success : Bool) → Pc
  protect_mark : (key cur next : ℕ) → Pc
  fence_mark : (key cur next : ℕ) → Pc
  mark : (key cur next : ℕ) → Pc
  clear_mark : (key : ℕ) → (success : Bool) → Pc

-- `find` returns `FALSE` to its caller.
unfoldable pub missing : Task → (prev cur : ℕ) → Pc
missing (search k) prev cur = done (search k) false
missing (insert k d) prev cur = alloc k d prev cur
missing (delete k) prev cur = done (delete k) false
missing (force_update k) prev cur = clear_mark k true

-- `find` returns `TRUE`.
unfoldable pub found : Task → (cur next kd : ℕ) → Pc
found (search k) cur next kd = hit k cur kd
found (insert k d) cur next kd = done (insert k d) false
found (delete k) cur next kd = protect_mark k cur next
found (force_update k) cur next kd = clear_mark k true

unfoldable pub arrive : Task → (prev cur : ℕ) → Pc
unfolding missing
arrive t prev cur = if cur == 0 then missing t prev cur else read_next t prev cur

unfoldable pub decide : Task → (prev cur next kd : ℕ) → Pc
unfolding found missing arrive
decide t prev cur next kd =
    if leb (key_of t) (get_key kd)
    then if get_key kd == key_of t then found t cur next kd else missing t prev cur
    else arrive t cur next

-- The memory, the thread's record, and where it goes on.
abbrev pub Result : Type 0
Result = Memory × DirtyRecord × Pc

-- `CHECK(label)`, and `FENCE_CHECK(label)`, whose failure drops the hazard pointers too.
unfoldable pub check : Memory → DirtyRecord → (label next : Pc) → Result
check m dty label next =
    if dty.dirty then (m, record dty { dirty = false }, label) else (m, dty, next)

unfoldable pub fence_check : Memory → DirtyRecord → (label next : Pc) → Result
fence_check m dty label next =
    if dty.dirty then (m, no_hps false, label) else (m, record dty { dirty = false }, next)

abbrev pub set_hps : DirtyRecord → (a b c : ℕ) → DirtyRecord
set_hps dty a b c = record dty { hp0 = a; hp1 = b; hp2 = c }

unfoldable pub step : (hash_op : Bool) (me fresh : ℕ) → Memory → DirtyRecord → Pc → Result
unfolding arrive decide check fence_check is_deleted mark_deleted clear_deleted
step h me fresh m dty (start t) = (m, dty, arrive t 0 (m.link 0))
step h me fresh m dty (read_next t prev cur) = (m, dty, check_next t prev cur (m.link cur))
step h me fresh m dty (check_next t prev cur next) =
    check m dty (start t)
      (if is_deleted next then protect_unlink t prev cur next else read_key t prev cur next)
step h me fresh m dty (protect_unlink t prev cur next) =
    (m, set_hps dty prev cur (clear_deleted next), fence_unlink t prev cur next)
step h me fresh m dty (fence_unlink t prev cur next) =
    fence_check m dty (start t) (unlink t prev cur next)
step h me fresh m dty (unlink t prev cur next) =
    if m.link prev == cur
    then (
      record m { link = update m.link prev (clear_deleted next) },
      dty,
      clear_unlink t prev next true,
    )
    else (m, dty, clear_unlink t prev next false)
step h me fresh m dty (clear_unlink t prev next success) =
    (m, no_hps dty.dirty, if success then arrive t prev (clear_deleted next) else start t)
step h me fresh m dty (read_key t prev cur next) =
    (m, dty, revalidate t prev cur next (m.key_data cur))
step h me fresh m dty (revalidate t prev cur next kd) =
    (m, dty, check_key t prev cur next kd (m.link prev))
step h me fresh m dty (check_key t prev cur next kd revalidate_prev) =
    check m dty (start t) (if revalidate_prev == cur then decide t prev cur next kd else start t)
step h me fresh m dty (alloc k d prev cur) = (
  record m { status = update m.status fresh (private me) },
  dty,
  protect_connect k d prev cur fresh,
)
step h me fresh m dty (protect_connect k d prev cur new) =
    (m, set_hps dty prev cur new, fence_connect k d prev cur new)
step h me fresh m dty (fence_connect k d prev cur new) =
    fence_check m dty (start (insert k d)) (write_key k d prev cur new)
step h me fresh m dty (write_key k d prev cur new) =
    (record m { key_data = update m.key_data new k }, dty, write_next k d prev cur new)
step h me fresh m dty (write_next k d prev cur new) =
    (record m { link = update m.link new cur }, dty, connect k d prev cur new)
step h me fresh m dty (connect k d prev cur new) =
    if m.link prev == cur
    then (
      record m { link = update m.link prev new; status = update m.status new shared },
      dty,
      clear_connect k d true,
    )
    else (m, dty, clear_connect k d false)
step h me fresh m dty (clear_connect k d success) =
    (m, no_hps dty.dirty, if success then done (insert k d) true else start (insert k d))
step h me fresh m dty (protect_mark k cur next) =
    (m, record dty { hp0 = cur; hp1 = next }, fence_mark k cur next)
step h me fresh m dty (fence_mark k cur next) =
    fence_check m dty (start (delete k)) (mark k cur next)
step h me fresh m dty (mark k cur next) =
    if m.link cur == next
    then (
      record m { link = update m.link cur (mark_deleted next) },
      dty,
      if h then start (force_update k) else clear_mark k true,
    )
    else (m, dty, clear_mark k false)
step h me fresh m dty (clear_mark k success) =
    (m, no_hps dty.dirty, if success then done (delete k) true else start (delete k))
step h me fresh m dty ready = (m, dty, ready)
step h me fresh m dty (done t b) = (m, dty, done t b)
step h me fresh m dty (hit k cur kd) = (m, dty, hit k cur kd)
