-- ===== src/Rc.antt =====
-- The list with reference counts, lfl-RC.c, one call or shared access at a time. Places, links and memory
-- are named as in Lfl. `safeRead` takes effect at its second read, and `release` is one step: what they do
-- to the counts is in Refcount. A step comes with what it does to the references, as a ledger.
pub mod Balance
pub mod System
pub mod Links
pub mod Safe
pub mod Relinks
pub mod Facts
pub mod Stable
pub mod Ledgers
pub mod Turn
pub mod Safety
pub mod Attempts
pub mod Counts
use automatic_optimistic_acc.Base.{
  ℕ, Bool, true, false, List, [], ◌∷◌, ◌++◌, leb, ◌==◌, if◌then◌else◌,
}
use automatic_optimistic_acc.Entry.{is_deleted, mark_deleted, clear_deleted, get_data, get_key}
use automatic_optimistic_acc.Lfl.{
  Memory, update, private, shared, Task, search, insert, delete, force_update, key_of,
}

-- `releasing ps q` releases the pointers of `ps`, in order, and goes on at `q`.
pub data Pc : Type 0 where
  ready : Pc
  done : Task → (result : Bool) → Pc
  hit : (key found_data : ℕ) → Pc
  start : Task → Pc
  read_next : Task → (prev cur : ℕ) → Pc
  unlink : Task → (prev cur next : ℕ) → Pc
  drop_link : Task → (prev cur next : ℕ) → Pc
  read_again : Task → (prev cur next : ℕ) → Pc
  drop_cur : Task → (prev cur next : ℕ) → Pc
  read_key : Task → (prev cur next : ℕ) → Pc
  revalidate : Task → (prev cur next ckey : ℕ) → Pc
  read_data : (key prev cur next : ℕ) → Pc
  alloc : (key prev cur next : ℕ) → Pc
  write_key : (key prev cur next new : ℕ) → Pc
  write_next : (key prev cur next new : ℕ) → Pc
  read_cur : (key prev cur next new : ℕ) → Pc
  connect : (key prev cur next new : ℕ) → Pc
  mark : (key prev cur next : ℕ) → Pc
  releasing : List ℕ → Pc → Pc

-- The nodes whose references a step takes and gives up, and those to which a link ends or begins to
-- point; the deletion mark of a pointer does not count.
pub record Ledger : Type 0 where
  pub acquired : List ℕ
  pub released : List ℕ
  pub unlinked : List ℕ
  pub linked : List ℕ

abbrev pub no_change : Ledger
no_change = record { acquired = []; released = []; unlinked = []; linked = [] }

abbrev pub acquire : ℕ → Ledger
acquire p = record no_change { acquired = p ∷ [] }

abbrev pub give_up : ℕ → Ledger
give_up p = record no_change { released = p ∷ [] }

-- The parameter `data` of `ListInsert` is not used, so `insert` carries it for nothing.
unfoldable pub missing : Task → (prev cur next : ℕ) → Pc
missing (search k) prev cur next = releasing (cur ∷ next ∷ prev ∷ []) (done (search k) false)
missing (insert k d) prev cur next = alloc k prev cur next
missing (delete k) prev cur next = releasing (cur ∷ next ∷ prev ∷ []) (done (delete k) false)
missing (force_update k) prev cur next = releasing (cur ∷ next ∷ prev ∷ []) (done (delete k) true)

unfoldable pub found : Task → (prev cur next : ℕ) → Pc
found (search k) prev cur next = read_data k prev cur next
found (insert k d) prev cur next = releasing (cur ∷ next ∷ prev ∷ []) (done (insert k d) false)
found (delete k) prev cur next = mark k prev cur next
found (force_update k) prev cur next = releasing (cur ∷ next ∷ prev ∷ []) (done (delete k) true)

-- The test of the `while` in `find`. At the end of the list `next` is null too, up to a mark.
unfoldable pub arrive : Task → (prev cur : ℕ) → Pc
unfolding missing
arrive t prev cur = if cur == 0 then missing t prev 0 0 else read_next t prev cur

unfoldable pub decide : Task → (prev cur next ckey : ℕ) → Pc
unfolding found missing arrive
decide t prev cur next ckey =
    if leb (key_of t) ckey
    then if ckey == key_of t then found t prev cur next else missing t prev cur next
    else releasing (prev ∷ []) (arrive t cur next)

abbrev pub Result : Type 0
Result = Memory × Ledger × Pc

unfoldable pub step : (hash_op : Bool) (me fresh : ℕ) → Memory → Pc → Result
unfolding arrive decide is_deleted mark_deleted clear_deleted get_data get_key
step h me fresh m (start t) = (m, acquire (m.link 0), arrive t 0 (m.link 0))
step h me fresh m (read_next t prev cur) =
    let next = m.link cur in
    (m, acquire next, if is_deleted next then unlink t prev cur next else read_key t prev cur next)
step h me fresh m (unlink t prev cur next) =
    if m.link prev == cur
    then (
      record m { link = update m.link prev (clear_deleted next) },
      record no_change { unlinked = cur ∷ []; linked = next ∷ [] },
      drop_link t prev cur next,
    )
    else (m, no_change, releasing (cur ∷ next ∷ prev ∷ []) (start t))
step h me fresh m (drop_link t prev cur next) = (m, give_up cur, read_again t prev cur next)
step h me fresh m (read_again t prev cur next) = (m, acquire next, drop_cur t prev cur next)
step h me fresh m (drop_cur t prev cur next) = (m, give_up cur, arrive t prev (clear_deleted next))
step h me fresh m (read_key t prev cur next) =
    (m, no_change, revalidate t prev cur next (get_key (m.key_data cur)))
step h me fresh m (revalidate t prev cur next ckey) = (
  m,
  no_change,
  if m.link prev == cur
      then decide t prev cur next ckey
      else releasing (cur ∷ next ∷ prev ∷ []) (start t),
)
step h me fresh m (read_data k prev cur next) =
    (m, no_change, releasing (cur ∷ next ∷ prev ∷ []) (hit k (get_data (m.key_data cur))))
step h me fresh m (alloc k prev cur next) = (
  record m { status = update m.status fresh (private me) },
  acquire fresh,
  write_key k prev cur next fresh,
)
step h me fresh m (write_key k prev cur next new) =
    (record m { key_data = update m.key_data new k }, no_change, write_next k prev cur next new)
step h me fresh m (write_next k prev cur next new) = (
  record m { link = update m.link new cur },
  record no_change { linked = cur ∷ [] },
  read_cur k prev cur next new,
)
step h me fresh m (read_cur k prev cur next new) = (m, acquire cur, connect k prev cur next new)
step h me fresh m (connect k prev cur next new) =
    if m.link prev == cur
    then (
      record m { link = update m.link prev new; status = update m.status new shared },
      record no_change { unlinked = cur ∷ []; linked = new ∷ [] },
      releasing (cur ∷ next ∷ cur ∷ prev ∷ []) (done (insert k 0) true),
    )
    else (m, no_change, releasing (new ∷ next ∷ cur ∷ prev ∷ []) (start (insert k 0)))
step h me fresh m (mark k prev cur next) =
    if m.link cur == next
    then (
      record m { link = update m.link cur (mark_deleted next) },
      no_change,
      releasing (cur ∷ next ∷ prev ∷ [])
          (if h then start (force_update k) else done (delete k) true),
    )
    else (m, no_change, releasing (cur ∷ next ∷ prev ∷ []) (start (delete k)))
step h me fresh m (releasing [] q) = (m, no_change, q)
step h me fresh m (releasing (p ∷ ps) q) = (m, give_up p, releasing ps q)
step h me fresh m ready = (m, no_change, ready)
step h me fresh m (done t b) = (m, no_change, done t b)
step h me fresh m (hit k d) = (m, no_change, hit k d)

-- The steps of one thread, each from memory as the others have left it, and with the node that an
-- allocation would return; the ledgers are added up.
abbrev pub add : Ledger → Ledger → Ledger
add a b = record {
  acquired = a.acquired ++ b.acquired;
  released = a.released ++ b.released;
  unlinked = a.unlinked ++ b.unlinked;
  linked = a.linked ++ b.linked;
}

unfoldable pub run : (hash_op : Bool) (me : ℕ) → List (ℕ × Memory) → Pc → Ledger × Pc
unfolding step
run h me [] pc = (no_change, pc)
run h me ((fresh, m) ∷ rest) pc =
    let (m', ledger, pc') = step h me fresh m pc in
    let (total, last) = run h me rest pc' in (add ledger total, last)
