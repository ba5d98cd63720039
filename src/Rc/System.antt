-- ===== src/Rc/System.antt =====
-- The list with reference counts as a system of threads. A count is kept as `refcount` without its lowest bit:
-- it is 0 from the decrement that claims the node on. `collect` is what the claim obliges to: the link of the
-- node is released, and the node is free.
use automatic_optimistic_acc.Base.{
  ℕ, ◌+◌, ◌-◌, ◌*◌, ◌%◌, ◌<◌, ◌≡◌, ◌≢◌, Bool, List, [], ◌∷◌, ◌==◌, if◌then◌else◌, In,
}
use automatic_optimistic_acc.Lfl.{Memory, update}
use automatic_optimistic_acc.Rc.{
  Pc, ready, done, hit, start, alloc, write_next, Ledger, give_up, step,
}
use automatic_optimistic_acc.Rc.Balance.{refs}
use automatic_optimistic_acc.Lfl.{Task}

-- `live` names the links that hold a reference: the head, 0, and those of the nodes that have been written and
-- not yet collected.
pub record System : Type 0 where
  pub memory : Memory
  pub count : ℕ → ℕ
  pub live : List ℕ
  pub threads : ℕ → Pc

-- Two for each reference taken or given up.
abbrev pub counted : (ℕ → ℕ) → Ledger → ℕ → ℕ
counted count l n = count n + 2 * refs n l.acquired - 2 * refs n l.released

abbrev pub grown : List ℕ → Pc → List ℕ
grown live (write_next k prev cur next new) = new ∷ live
grown live _ = live

abbrev pub remove : ℕ → List ℕ → List ℕ
remove p [] = []
remove p (x ∷ xs) = if x == p then xs else x ∷ remove p xs

-- What an allocation returns: a node that is aligned and free.
abbrev pub Fresh : List ℕ → (ℕ → ℕ) → (fresh : ℕ) → Pc → Type 0
Fresh live count fresh (alloc k prev cur next) =
    (fresh ≢ 0) × (fresh % 2 ≡ 0) × (In fresh live → ⊥) × (count fresh ≡ 0)
Fresh live count fresh _ = Unit {0}

-- The state after a step of thread `i`.
abbrev pub turned : (hash_op : Bool) (fresh i : ℕ) → System → System
turned h fresh i s =
    let (m, l, pc) = step h i fresh s.memory (s.threads i) in
    record {
      memory = m;
      count = counted s.count l;
      live = grown s.live (s.threads i);
      threads = update s.threads i pc;
    }

abbrev pub collected : ℕ → System → System
collected p s = record s {
  count = counted s.count (give_up (s.memory.link p));
  live = remove p s.live;
}

-- A thread between two calls.
abbrev pub Resting : Pc → Type 0
Resting ready = Unit {0}
Resting (done t b) = Unit {0}
Resting (hit k d) = Unit {0}
Resting _ = ⊥

-- A step of one of `n` threads.
pub data Step (hash_op : Bool) (n : ℕ) (s : System) : System → Type 0 where
  call :
      (i : ℕ) (t : Task)
      → i < n
      → Resting (s.threads i)
      → Step hash_op n s (record s { threads = update s.threads i (start t) })
  turn :
      (i fresh : ℕ)
      → i < n
      → Fresh s.live s.count fresh (s.threads i)
      → Step hash_op n s (turned hash_op fresh i s)
  collect : (p : ℕ) → p ≢ 0 → In p s.live → s.count p ≡ 0 → Step hash_op n s (collected p s)

-- The empty list, and no thread in an operation.
pub record Start (s : System) : Type 0 where
  pub empty : s.memory.link 0 ≡ 0
  pub head : s.live ≡ 0 ∷ []
  pub none_counted : (n : ℕ) → s.count n ≡ 0
  pub resting : (i : ℕ) → s.threads i ≡ ready

pub data Reach (hash_op : Bool) (n : ℕ) : System → Type 0 where
  begins : (s : System) → Start s → Reach hash_op n s
  later : {s t : System} → Reach hash_op n s → Step hash_op n s t → Reach hash_op n t
