-- ===== src/Rc/Stable.antt =====
-- What a thread of lfl-RC.c relies on while others step: its locals stay true if marked links and its own new
-- node are left alone.
use automatic_optimistic_acc.Base.{
  ℕ, ◌-◌, ◌%◌, ◌≤◌, ◌≡◌, ◌≢◌, inl, inr, ap, ◌∙◌, true, List, [], ◌∷◌, arith, ◌==◌, In,
}
use automatic_optimistic_acc.Rc.{
  Pc, unlink, drop_link, read_again, write_key, write_next, read_cur, releasing,
}
use automatic_optimistic_acc.Rc.Balance.{refs, held, refs-append}
use automatic_optimistic_acc.Rc.System.{remove}
use automatic_optimistic_acc.Rc.Links.{remove-In}
use automatic_optimistic_acc.Rc.Safe.{
  Even, Alive, AllAlive, AllAlive-drop, secured, Own, Marked, Locals, Safe, Alive-In,
}

pub record Undisturbed (f : ℕ → ℕ) (live : List ℕ) (count : ℕ → ℕ) (mine : List ℕ) (f' : ℕ → ℕ)
    (live' : List ℕ) (count' : ℕ → ℕ) : Type 0 where
  pub marked : (a : ℕ) → In a live → f a % 2 ≡ 1 → f' a ≡ f a
  pub own :
      (new : ℕ)
      → 1 ≤ refs new mine
      → Own count new
      → (count' new ≡ 2) × (f' new ≡ f new) × (In new live' → In new live)

module _ (f : ℕ → ℕ) (live : List ℕ) (f' : ℕ → ℕ) (live' : List ℕ) (root : In 0 live)
    (marked : (a : ℕ) → In a live → f a % 2 ≡ 1 → f' a ≡ f a) where
  Marked-stable :
      (cur next : ℕ) → Even cur → Alive live cur → Marked f cur next → Marked f' cur next
  Marked-stable cur next ec ac (ne, odd, now) =
      (ne, odd, marked cur (Alive-In live cur root ec ac) (ap (λ (x : ℕ). x % 2) now ∙ odd) ∙ now)

  -- A thread whose locals are true whatever the counts has no new node.
  quiet-Locals :
      (pc : Pc)
      → AllAlive live (secured pc)
      → ((c : ℕ → ℕ) → Locals f live c pc)
      → (c : ℕ → ℕ) → Locals f' live' c pc
  quiet-Locals (unlink t prev cur next) (ap', (ac, as')) x c =
      let (ep, ec, mk) = x c in (ep, ec, Marked-stable cur next ec ac mk)
  quiet-Locals (drop_link t prev cur next) (ap', (ac, as')) x c =
      let (ep, ec, mk) = x c in (ep, ec, Marked-stable cur next ec ac mk)
  quiet-Locals (read_again t prev cur next) (ap', (ac, as')) x c =
      let (ep, ec, mk) = x c in (ep, ec, Marked-stable cur next ec ac mk)
  quiet-Locals (write_key k prev cur next new) a x c =
      let none_own = (x (λ n. 0)).2.2 in absurd (omega (arith, none_own))
  quiet-Locals (write_next k prev cur next new) a x c =
      let none_own = (x (λ n. 0)).2.2 in absurd (omega (arith, none_own))
  quiet-Locals (read_cur k prev cur next new) a x c =
      let none_own = (x (λ n. 0)).2.2 in absurd (omega (arith, none_own))
  quiet-Locals (releasing ps q) a x c =
      quiet-Locals q (AllAlive-drop live ps (secured q) a) (λ d. x d d)
  quiet-Locals pc a x c = x c

last-held : (new a b c : ℕ) → Even new → 1 ≤ refs new (a ∷ b ∷ c ∷ new ∷ [])
last-held new a b c e =
    let self : (new - new % 2 == new) ≡ true = ground arith in rw self (omega arith)

third-held : (new a b : ℕ) → Even new → 1 ≤ refs new (a ∷ b ∷ new ∷ [])
third-held new a b e =
    let self : (new - new % 2 == new) ≡ true = ground arith in rw self (omega arith)

pub Locals-stable :
    (f : ℕ → ℕ) (live : List ℕ) (count : ℕ → ℕ) (f' : ℕ → ℕ) (live' : List ℕ) (count' : ℕ → ℕ)
    (pc : Pc)
    → In 0 live
    → Undisturbed f live count (held pc) f' live' count'
    → Safe f live count pc
    → Locals f' live' count' pc
Locals-stable f live count f' live' count' (write_key k prev cur next new) root u
      (a, (ep, ec, (ew, ne, two), out)) =
    let (two', _, back) = u.own new (last-held new prev cur next ew) (ew, ne, two) in
    (ep, ec, (ew, ne, two'), λ i. out (back i))
Locals-stable f live count f' live' count' (write_next k prev cur next new) root u
      (a, (ep, ec, (ew, ne, two), out)) =
    let (two', _, back) = u.own new (last-held new prev cur next ew) (ew, ne, two) in
    (ep, ec, (ew, ne, two'), λ i. out (back i))
Locals-stable f live count f' live' count' (read_cur k prev cur next new) root u
      (a, (ep, ec, (ew, ne, two), now)) =
    let (two', same, _) = u.own new (third-held new prev next ew) (ew, ne, two) in
    (ep, ec, (ew, ne, two'), same ∙ now)
Locals-stable f live count f' live' count' pc root u (a, x) =
    quiet-Locals f live f' live' root u.marked pc a (λ c. x) count'

-- What a thread has to have live is part of what it holds.
pub secured-held : (n : ℕ) (ne : n ≢ 0) (pc : Pc) → refs n (secured pc) ≤ refs n (held pc)
secured-held n ne (write_key k prev cur next new) = omega arith
secured-held n ne (write_next k prev cur next new) = omega arith
secured-held n ne (releasing ps q) =
    let all = refs-append n ne ps (held q) in
    let part = refs-append n ne ps (secured q) in let rest = secured-held n ne q in omega arith
secured-held n ne pc = omega arith

-- The collection of a node that nothing in the list refers to.
pub AllAlive-remove :
    (p : ℕ) (live ps : List ℕ)
    → p ≢ 0
    → refs p ps ≡ 0
    → AllAlive live ps
    → AllAlive (remove p live) ps
AllAlive-remove p live [] ne none a = a
AllAlive-remove p live (x ∷ ps) ne none (inl z, as') =
    (inl z, AllAlive-remove p live ps ne (omega arith) as')
AllAlive-remove p live (x ∷ ps) ne none (inr i, as') =
    let away : x - x % 2 ≢ p = λ e. absurd (ground (arith, e, none)) in
    (inr (remove-In p (x - x % 2) live away i), AllAlive-remove p live ps ne (omega arith) as')
