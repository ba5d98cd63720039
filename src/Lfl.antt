-- ===== src/Lfl.antt =====
-- The lock-free list of lfl-NoOrDelayRecl.c, one shared access at a time. A link, an `Entry **`, is
-- named by the node whose `nextEntry` field it is, and by 0 if it is the list's head: `entPtr` then
-- does nothing, and no node has address 0. Memory is sequentially consistent, as the `lock`-prefixed
-- operations and the loads of the source are on x86.
pub mod Chain
pub mod Invariant
pub mod Rely
pub mod Writes
pub mod Safety
pub mod Order
pub mod Linear
pub mod Linearizable
use automatic_optimistic_acc.Base.{
  ℕ, ◌%◌, ◌^◌, ◌<◌, ◌≡◌, ◌≢◌, Bool, true, false, leb, ◌==◌, if◌then◌else◌,
}
use automatic_optimistic_acc.Entry.{is_deleted, mark_deleted, clear_deleted, get_data, get_key}

-- Who may touch a node: nobody, the thread that has just allocated it, or all.
pub data Status : Type 0 where
  free : Status
  private : (owner : ℕ) → Status
  shared : Status

pub record Memory : Type 0 where
  pub link : ℕ → ℕ  -- the word at a link
  pub key_data : ℕ → ℕ
  pub status : ℕ → Status  -- no code reads it

abbrev pub update {ℓ} : {A : Type ℓ} → (ℕ → A) → ℕ → A → ℕ → A
update f i a j = if j == i then a else f j

-- `update` is the call of `find` in `ListDelete` that forces the unlinking.
pub data Task : Type 0 where
  search : (key : ℕ) → Task
  insert : (key new_data : ℕ) → Task
  delete : (key : ℕ) → Task
  force_update : (key : ℕ) → Task

unfoldable pub key_of : Task → ℕ
key_of (search k) = k
key_of (insert k d) = k
key_of (delete k) = k
key_of (force_update k) = k

-- Where a thread stands, with the local variables that are live there. Each place but `ready`,
-- `done` and `hit` is just before a shared access.
pub data Pc : Type 0 where
  ready : Pc
  done : Task → (result : Bool) → Pc
  hit : (key found_data : ℕ) → Pc  -- `ListSearch` has returned `TRUE` and the data
  start : Task → Pc  -- label `try_again`
  read_next : Task → (prev cur : ℕ) → Pc
  unlink : Task → (prev cur next : ℕ) → Pc
  read_key : Task → (prev cur next : ℕ) → Pc
  revalidate : Task → (prev cur next ckey : ℕ) → Pc
  read_data : (key cur : ℕ) → Pc
  alloc : (key new_data prev cur : ℕ) → Pc
  write_key : (key new_data prev cur new : ℕ) → Pc
  write_next : (key new_data prev cur new : ℕ) → Pc
  connect : (key new_data prev cur new : ℕ) → Pc
  mark : (key cur next : ℕ) → Pc

-- `find` returns `FALSE` to its caller.
unfoldable pub missing : Task → (prev cur : ℕ) → Pc
missing (search k) prev cur = done (search k) false
missing (insert k d) prev cur = alloc k d prev cur
missing (delete k) prev cur = done (delete k) false
missing (force_update k) prev cur = done (delete k) true

-- `find` returns `TRUE`.
unfoldable pub found : Task → (cur next : ℕ) → Pc
found (search k) cur next = read_data k cur
found (insert k d) cur next = done (insert k d) false
found (delete k) cur next = mark k cur next
found (force_update k) cur next = done (delete k) true

-- The test of the `while` in `find`.
unfoldable pub arrive : Task → (prev cur : ℕ) → Pc
unfolding missing
arrive t prev cur = if cur == 0 then missing t prev cur else read_next t prev cur

-- After the revalidation: return, or advance.
unfoldable pub decide : Task → (prev cur next ckey : ℕ) → Pc
unfolding key_of found missing arrive
decide t prev cur next ckey =
    if leb (key_of t) ckey
    then if ckey == key_of t then found t cur next else missing t prev cur
    else arrive t cur next

-- `hash_op` is the macro HASH_OP. `fresh` is the node that an allocation in this step returns.
unfoldable pub step : (hash_op : Bool) (me fresh : ℕ) → Memory → Pc → Memory × Pc
unfolding arrive decide is_deleted mark_deleted clear_deleted get_data get_key
step h me fresh m (start t) = (m, arrive t 0 (m.link 0))
step h me fresh m (read_next t prev cur) =
    let next = m.link cur in
    (m, if is_deleted next then unlink t prev cur next else read_key t prev cur next)
step h me fresh m (unlink t prev cur next) =
    if m.link prev == cur
    then (
      record m { link = update m.link prev (clear_deleted next) },
      arrive t prev (clear_deleted next),
    )
    else (m, start t)
step h me fresh m (read_key t prev cur next) =
    (m, revalidate t prev cur next (get_key (m.key_data cur)))
step h me fresh m (revalidate t prev cur next ckey) =
    (m, if m.link prev == cur then decide t prev cur next ckey else start t)
step h me fresh m (read_data k cur) = (m, hit k (get_data (m.key_data cur)))
step h me fresh m (alloc k d prev cur) =
    (record m { status = update m.status fresh (private me) }, write_key k d prev cur fresh)
step h me fresh m (write_key k d prev cur new) =
    (record m { key_data = update m.key_data new k }, write_next k d prev cur new)
step h me fresh m (write_next k d prev cur new) =
    (record m { link = update m.link new cur }, connect k d prev cur new)
step h me fresh m (connect k d prev cur new) =
    if m.link prev == cur
    then (
      record m { link = update m.link prev new; status = update m.status new shared },
      done (insert k d) true,
    )
    else (m, start (insert k d))
step h me fresh m (mark k cur next) =
    if m.link cur == next
    then (
      record m { link = update m.link cur (mark_deleted next) },
      if h then start (force_update k) else done (delete k) true,
    )
    else (m, start (delete k))
step h me fresh m ready = (m, ready)
step h me fresh m (done t b) = (m, done t b)
step h me fresh m (hit k d) = (m, hit k d)

pub record System : Type 0 where
  pub mem : Memory
  pub pc : ℕ → Pc

-- What an allocation may return: an aligned node that nobody uses.
abbrev pub Available : Memory → Pc → ℕ → Type 0
Available m (alloc k d prev cur) n = (m.status n ≡ free) × (n ≢ 0) × (n % 2 ≡ 0)
Available m _ n = Unit {0}

abbrev pub is_idle : Pc → Bool
is_idle ready = true
is_idle (done t b) = true
is_idle (hit k d) = true
is_idle _ = false

-- `force_update` is made by `ListDelete` alone.
abbrev pub is_request : Task → Bool
is_request (force_update k) = false
is_request _ = true

-- Keys are drawn below `elementsRange`, an `int`.
pub data Step (hash_op : Bool) (s : System) : System → Type 0 where
  call :
      (i : ℕ) (t : Task)
      → is_idle (s.pc i) ≡ true
      → is_request t ≡ true
      → key_of t < 2 ^ 31
      → Step hash_op s (record s { pc = update s.pc i (start t) })
  turn :
      (i fresh : ℕ)
      → Available s.mem (s.pc i) fresh
      → Step hash_op s (record {
        mem = (step hash_op i fresh s.mem (s.pc i)).0;
        pc = update s.pc i (step hash_op i fresh s.mem (s.pc i)).1;
      })

abbrev pub init : System
init = record {
  mem = record { link = λ _. 0; key_data = λ _. 0; status = λ _. free };
  pc = λ _. ready;
}

pub data Reach (hash_op : Bool) : System → Type 0 where
  initially : Reach hash_op init
  later : {s t : System} → Reach hash_op s → Step hash_op s t → Reach hash_op t
