-- ===== src/Rc/Attempts.antt =====
-- The system of Rc.System with the accesses of `safeRead` one at a time: the first read, the fetch-and-add on the
-- node that it found, which may have been freed meanwhile, and the second read, after which the reference is kept or
-- released again. `base` counts a reference from the second read on; `refcount` is the field of the nodes, up to its
-- lowest bit. `safeRead` of a local variable, as find and ListInsert use it too, has nothing to read again.
use automatic_optimistic_acc.Base.{
  ℕ, zero, suc, ◌+◌, ◌-◌, ◌*◌, ◌%◌, ◌<◌, ◌≡◌, ◌≢◌, Bool, Option, none, some, List, [], ◌∷◌, In,
}
use automatic_optimistic_acc.Lfl.{Task, update}
use automatic_optimistic_acc.Rc.{Pc, start, read_next, acquire, give_up, step}
use automatic_optimistic_acc.Rc.Balance.{refs}
use automatic_optimistic_acc.Rc.System.{System, Start, Fresh, Resting, counted, turned, collected}

-- How far a thread is in `safeRead`: `q` is what the first read found.
pub data Attempt : Type 0 where
  outside : Attempt
  seen : (q : ℕ) → Attempt
  raised : (q : ℕ) → Attempt

-- The reference that an attempt has taken.
abbrev pub grabbed : Attempt → List ℕ
grabbed (raised q) = q ∷ []
grabbed _ = []

-- The link that a call of `safeRead` reads.
abbrev pub reads : Pc → Option ℕ
reads (start t) = some 0
reads (read_next t prev cur) = some cur
reads _ = none

pub record Detailed : Type 0 where
  pub base : System
  pub refcount : ℕ → ℕ
  pub attempts : ℕ → Attempt

-- The references that the attempts of the first `k` threads have taken.
unfoldable pub attempted : ℕ → (attempts : ℕ → Attempt) → (k : ℕ) → ℕ
attempted n attempts zero = 0
attempted n attempts (suc k) = refs n (grabbed (attempts k)) + attempted n attempts k

-- The state after thread `i` has gone on to `a`, with what that does to the counts.
abbrev pub attempt : (i : ℕ) → Attempt → (ℕ → ℕ) → Detailed → Detailed
attempt i a refcount d = record d { refcount = refcount; attempts = update d.attempts i a }

abbrev pub raise : (i q : ℕ) → Detailed → Detailed
raise i q d = attempt i (raised q) (counted d.refcount (acquire q)) d

abbrev pub retry : (i q : ℕ) → Detailed → Detailed
retry i q d = attempt i outside (counted d.refcount (give_up q)) d

-- The second read agrees: the thread has its pointer.
abbrev pub keep : (hash_op : Bool) (i : ℕ) → Detailed → Detailed
keep h i d = record {
  base = turned h 0 i d.base;
  refcount = d.refcount;
  attempts = update d.attempts i outside;
}

-- Any other step of thread `i`.
abbrev pub go_on : (hash_op : Bool) (fresh i : ℕ) → Detailed → Detailed
go_on h fresh i d = record d {
  base = turned h fresh i d.base;
  refcount = counted d.refcount (step h i fresh d.base.memory (d.base.threads i)).1;
}

abbrev pub free_node : (p : ℕ) → Detailed → Detailed
free_node p d = record d {
  base = collected p d.base;
  refcount = counted d.refcount (give_up (d.base.memory.link p));
}

-- A step of one of `n` threads. A node is collected when only attempts refer to it; their own releases leave the
-- lowest bit, which is set by then, alone.
pub data Step (hash_op : Bool) (n : ℕ) (d : Detailed) : Detailed → Type 0 where
  call :
      (i : ℕ) (t : Task)
      → i < n
      → Resting (d.base.threads i)
      → Step hash_op n d
          (record d { base = record d.base { threads = update d.base.threads i (start t) } })
  look :
      (i a : ℕ)
      → i < n
      → reads (d.base.threads i) ≡ some a
      → d.attempts i ≡ outside
      → d.base.memory.link a - d.base.memory.link a % 2 ≢ 0
      → Step hash_op n d (attempt i (seen (d.base.memory.link a)) d.refcount d)
  add : (i q : ℕ) → i < n → d.attempts i ≡ seen q → Step hash_op n d (raise i q d)
  fail :
      (i q a : ℕ)
      → i < n
      → d.attempts i ≡ raised q
      → reads (d.base.threads i) ≡ some a
      → d.base.memory.link a ≢ q
      → Step hash_op n d (retry i q d)
  agree :
      (i q a : ℕ)
      → i < n
      → d.attempts i ≡ raised q
      → reads (d.base.threads i) ≡ some a
      → d.base.memory.link a ≡ q
      → Step hash_op n d (keep hash_op i d)
  null :
      (i a : ℕ)
      → i < n
      → d.attempts i ≡ outside
      → reads (d.base.threads i) ≡ some a
      → d.base.memory.link a - d.base.memory.link a % 2 ≡ 0
      → Step hash_op n d (go_on hash_op 0 i d)
  turn :
      (i fresh : ℕ)
      → i < n
      → reads (d.base.threads i) ≡ none
      → Fresh d.base.live d.base.count fresh (d.base.threads i)
      → Step hash_op n d (go_on hash_op fresh i d)
  collect :
      (p : ℕ)
      → p ≢ 0
      → In p d.base.live
      → d.refcount p ≡ 2 * attempted p d.attempts n
      → Step hash_op n d (free_node p d)

pub data Reach (hash_op : Bool) (n : ℕ) : Detailed → Type 0 where
  begins :
      (s : System)
      → Start s
      → Reach hash_op n (record { base = s; refcount = λ p. 0; attempts = λ i. outside })
  later : {d e : Detailed} → Reach hash_op n d → Step hash_op n d e → Reach hash_op n e
