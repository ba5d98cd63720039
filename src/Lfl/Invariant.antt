-- ===== src/Lfl/Invariant.antt =====
-- The invariant of the lock-free list: what holds of memory, what a thread's locals say about it,
-- and what a step of another thread leaves alone.
use automatic_optimistic_acc.Base.{In, ℕ, ◌%◌, ◌^◌, ◌<◌, ◌≡◌, ◌≢◌, ◌⊎◌, List}
use automatic_optimistic_acc.Entry.{get_key}
use automatic_optimistic_acc.Lfl.{
  private, shared, Memory, key_of, Pc, start, read_next, unlink, read_key, revalidate, read_data,
  alloc, write_key, write_next, connect, mark, System,
}
use automatic_optimistic_acc.Lfl.Chain.{target, Chain}

abbrev pub key : Memory → ℕ → ℕ
key m n = get_key (m.key_data n)

-- A link that any thread may use: the head, or that of a shared node.
abbrev pub IsLink : Memory → ℕ → Type 0
IsLink m a = (a ≡ 0) ⊎ (m.status a ≡ shared)

pub record Good (m : Memory) : Type 0 where
  pub head : m.link 0 % 2 ≡ 0
  pub node : (n : ℕ) → m.status n ≡ shared → (n ≢ 0) × (n % 2 ≡ 0)
  pub closed : (a : ℕ) → IsLink m a → target m.link a ≢ 0 → m.status (target m.link a) ≡ shared
  pub sorted :
      (a : ℕ) → m.status a ≡ shared → target m.link a ≢ 0 → key m a < key m (target m.link a)
  pub chain : List ℕ
  pub linked : Chain m.link 0 chain
  pub covers : (n : ℕ) → m.status n ≡ shared → m.link n % 2 ≡ 0 → In n chain

-- `prev` is a link before key `k`.
abbrev pub Before : Memory → (k prev : ℕ) → Type 0
Before m k prev = (prev ≡ 0) ⊎ ((m.status prev ≡ shared) × (key m prev < k))

-- `cur` is the end of the list, or a node behind key `k`.
abbrev pub Behind : Memory → (k cur : ℕ) → Type 0
Behind m k cur = (cur ≡ 0) ⊎ ((m.status cur ≡ shared) × (k < key m cur))

abbrev pub Owns : (me : ℕ) → Memory → (new : ℕ) → Type 0
Owns me m new = (m.status new ≡ private me) × (new ≢ 0) × (new % 2 ≡ 0)

-- An unmarked value read from the link of a shared node.
abbrev pub Successor : Memory → (next : ℕ) → Type 0
Successor m next = (next % 2 ≡ 0) × ((next ≡ 0) ⊎ (m.status next ≡ shared))

-- What the locals of thread `me` say about memory.
abbrev pub Ok : (me : ℕ) → Memory → Pc → Type 0
Ok me m (start t) = key_of t < 2 ^ 31
Ok me m (read_next t prev cur) =
    (key_of t < 2 ^ 31) × Before m (key_of t) prev × (m.status cur ≡ shared)
Ok me m (unlink t prev cur next) =
    (key_of t < 2 ^ 31)
    × Before m (key_of t) prev
    × (m.status cur ≡ shared)
    × (next % 2 ≡ 1)
    × (m.link cur ≡ next)
Ok me m (read_key t prev cur next) =
    (key_of t < 2 ^ 31) × Before m (key_of t) prev × (m.status cur ≡ shared) × Successor m next
Ok me m (revalidate t prev cur next ckey) =
    (key_of t < 2 ^ 31)
    × Before m (key_of t) prev
    × (m.status cur ≡ shared)
    × Successor m next
    × (key m cur ≡ ckey)
Ok me m (read_data k cur) = m.status cur ≡ shared
Ok me m (alloc k d prev cur) = (k < 2 ^ 31) × Before m k prev × Behind m k cur
Ok me m (write_key k d prev cur new) =
    (k < 2 ^ 31) × Before m k prev × Behind m k cur × Owns me m new
Ok me m (write_next k d prev cur new) =
    (k < 2 ^ 31) × Before m k prev × Behind m k cur × Owns me m new × (m.key_data new ≡ k)
Ok me m (connect k d prev cur new) =
    (k < 2 ^ 31)
    × Before m k prev
    × Behind m k cur
    × Owns me m new
    × (m.key_data new ≡ k)
    × (m.link new ≡ cur)
Ok me m (mark k cur next) =
    (k < 2 ^ 31) × (m.status cur ≡ shared) × (key m cur ≡ k) × (next % 2 ≡ 0)
Ok me m _ = Unit {0}

-- What a step of thread `me` may do, as the other threads see it.
pub record Evolves (me : ℕ) (m m' : Memory) : Type 0 where
  pub stays : (n : ℕ) → m.status n ≡ shared → m'.status n ≡ shared
  pub same_key : (n : ℕ) → m.status n ≡ shared → m'.key_data n ≡ m.key_data n
  pub frozen : (n : ℕ) → m.status n ≡ shared → m.link n % 2 ≡ 1 → m'.link n ≡ m.link n
  pub others :
      (n o : ℕ)
      → o ≢ me
      → n ≢ 0
      → m.status n ≡ private o
      → (m'.status n ≡ private o) × (m'.link n ≡ m.link n) × (m'.key_data n ≡ m.key_data n)

pub record Inv (s : System) : Type 0 where
  pub good : Good s.mem
  pub oks : (i : ℕ) → Ok i s.mem (s.pc i)
