-- ===== src/Moa.antt =====
-- The list of lfl-MOA.c, with manual optimistic access. Its places are those of lfl-RoF.c (Aoa), which
-- stand under `at`, and those of two calls of the allocator: `pfree` of a node that the thread has unlinked, and
-- `pReturnAlloc` of a node that it could not connect. Its checks do not help a collection.
-- `find` with its tests, `CHECK` and `FENCE_CHECK` are functions of Aoa where the two files agree.
pub mod Calls
pub mod Erasure
use automatic_optimistic_acc.Base.{ℕ, Bool, true, false, ◌==◌, if◌then◌else◌}
use automatic_optimistic_acc.Entry.{is_deleted, mark_deleted, clear_deleted}
use automatic_optimistic_acc.Lfl.{
  Memory, update, Task, insert, delete, force_update, private, shared,
}
use automatic_optimistic_acc.Aoa.{DirtyRecord, no_hps, set_hps}
use automatic_optimistic_acc.Aoa

pub data Pc : Type 0 where
  at : Aoa.Pc → Pc
  clear_then_free : Task → (prev cur next : ℕ) → Pc  -- the unlinking has succeeded
  free_node : Task → (prev cur next : ℕ) → Pc
  return_node : (key new_data new : ℕ) → Pc  -- the connecting has failed

-- What a step asks of the allocator.
pub data Call : Type 0 where
  no_call : Call
  freed : (node : ℕ) → Call
  returned : (node : ℕ) → Call

pub record Turn : Type 0 where
  pub memory : Memory
  pub dty : DirtyRecord
  pub pc : Pc
  pub call : Call

abbrev pub turn : Memory → DirtyRecord → Pc → Call → Turn
turn m d p c = record { memory = m; dty = d; pc = p; call = c }

abbrev pub quiet_turn : Aoa.Result → Turn
quiet_turn r = turn r.0 r.1 (at r.2) no_call

unfoldable pub step : (hash_op : Bool) (me fresh : ℕ) → Memory → DirtyRecord → Pc → Turn
unfolding is_deleted mark_deleted clear_deleted
step h me fresh m dty (at (Aoa.start t)) = quiet_turn ((m, dty, Aoa.arrive t 0 (m.link 0)))
step h me fresh m dty (at (Aoa.read_next t prev cur)) =
    quiet_turn ((m, dty, Aoa.check_next t prev cur (m.link cur)))
step h me fresh m dty (at (Aoa.check_next t prev cur next)) = quiet_turn (
    Aoa.check m dty (Aoa.start t) (
      if is_deleted next then Aoa.protect_unlink t prev cur next else Aoa.read_key t prev cur next))
step h me fresh m dty (at (Aoa.protect_unlink t prev cur next)) =
    quiet_turn ((m, set_hps dty prev cur (clear_deleted next), Aoa.fence_unlink t prev cur next))
step h me fresh m dty (at (Aoa.fence_unlink t prev cur next)) =
    quiet_turn (Aoa.fence_check m dty (Aoa.start t) (Aoa.unlink t prev cur next))
step h me fresh m dty (at (Aoa.unlink t prev cur next)) =
    if m.link prev == cur
    then turn (record m { link = update m.link prev (clear_deleted next) }) dty
        (clear_then_free t prev cur next) no_call
    else turn m dty (at (Aoa.clear_unlink t prev next false)) no_call
step h me fresh m dty (at (Aoa.clear_unlink t prev next success)) =
    quiet_turn (
      (
        m,
        no_hps dty.dirty,
        if success then Aoa.arrive t prev (clear_deleted next) else Aoa.start t,
      ))
step h me fresh m dty (at (Aoa.read_key t prev cur next)) =
    quiet_turn ((m, dty, Aoa.revalidate t prev cur next (m.key_data cur)))
step h me fresh m dty (at (Aoa.revalidate t prev cur next kd)) =
    quiet_turn ((m, dty, Aoa.check_key t prev cur next kd (m.link prev)))
step h me fresh m dty (at (Aoa.check_key t prev cur next kd revalidate_prev)) = quiet_turn (
    Aoa.check m dty (Aoa.start t)
      (if revalidate_prev == cur then Aoa.decide t prev cur next kd else Aoa.start t))
step h me fresh m dty (at (Aoa.alloc k d prev cur)) = quiet_turn (
    (
      record m { status = update m.status fresh (private me) },
      dty,
      Aoa.protect_connect k d prev cur fresh,
    ))
step h me fresh m dty (at (Aoa.protect_connect k d prev cur new)) =
    quiet_turn ((m, set_hps dty prev cur new, Aoa.fence_connect k d prev cur new))
step h me fresh m dty (at (Aoa.fence_connect k d prev cur new)) =
    quiet_turn (Aoa.fence_check m dty (Aoa.start (insert k d)) (Aoa.write_key k d prev cur new))
step h me fresh m dty (at (Aoa.write_key k d prev cur new)) =
    quiet_turn
      ((record m { key_data = update m.key_data new k }, dty, Aoa.write_next k d prev cur new))
step h me fresh m dty (at (Aoa.write_next k d prev cur new)) =
    quiet_turn ((record m { link = update m.link new cur }, dty, Aoa.connect k d prev cur new))
step h me fresh m dty (at (Aoa.connect k d prev cur new)) =
    if m.link prev == cur
    then turn (record m { link = update m.link prev new; status = update m.status new shared }) dty
        (at (Aoa.clear_connect k d true)) no_call
    else turn m dty (return_node k d new) no_call
step h me fresh m dty (at (Aoa.clear_connect k d success)) =
    quiet_turn (
      (m, no_hps dty.dirty, if success then Aoa.done (insert k d) true else Aoa.start (insert k d)))
step h me fresh m dty (at (Aoa.protect_mark k cur next)) =
    quiet_turn ((m, record dty { hp0 = cur; hp1 = next }, Aoa.fence_mark k cur next))
step h me fresh m dty (at (Aoa.fence_mark k cur next)) =
    quiet_turn (Aoa.fence_check m dty (Aoa.start (delete k)) (Aoa.mark k cur next))
step h me fresh m dty (at (Aoa.mark k cur next)) = quiet_turn (
    if m.link cur == next
    then (
      record m { link = update m.link cur (mark_deleted next) },
      dty,
      if h then Aoa.start (force_update k) else Aoa.clear_mark k true,
    )
    else (m, dty, Aoa.clear_mark k false))
step h me fresh m dty (at (Aoa.clear_mark k success)) =
    quiet_turn
      ((m, no_hps dty.dirty, if success then Aoa.done (delete k) true else Aoa.start (delete k)))
step h me fresh m dty (at Aoa.ready) = quiet_turn ((m, dty, Aoa.ready))
step h me fresh m dty (at (Aoa.done t b)) = quiet_turn ((m, dty, Aoa.done t b))
step h me fresh m dty (at (Aoa.hit k cur kd)) = quiet_turn ((m, dty, Aoa.hit k cur kd))
step h me fresh m dty (clear_then_free t prev cur next) =
    turn m (no_hps dty.dirty) (free_node t prev cur next) no_call
step h me fresh m dty (free_node t prev cur next) =
    turn m dty (at (Aoa.arrive t prev (clear_deleted next))) (freed cur)
step h me fresh m dty (return_node k d new) =
    turn m dty (at (Aoa.clear_connect k d false)) (returned new)
