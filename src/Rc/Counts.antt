-- ===== src/Rc/Counts.antt =====
-- The counts in Rc.Attempts, at every single access of `safeRead`.
use native.Mathlib.Decide.{ℕ_discrete}
use automatic_optimistic_acc.Base.{
  ℕ, zero, suc, ◌+◌, ◌*◌, ◌≤◌, ◌<◌, ◌≡◌, ◌≢◌, refl, ap, Bool, some, List, [], ◌∷◌, arith, In,
  test_eq, test_ne,
}
use automatic_optimistic_acc.Lfl.{Memory, update}
use automatic_optimistic_acc.Rc.{Pc, start, read_next, acquire, give_up, step}
use automatic_optimistic_acc.Rc.Balance.{refs}
use automatic_optimistic_acc.Rc.System.{System, Start, Fresh, counted}
use automatic_optimistic_acc.Rc.System
use automatic_optimistic_acc.Rc.Links.{linked_refs, linked_refs-In, total, total-one}
use automatic_optimistic_acc.Rc.Ledgers.{released-held}
use automatic_optimistic_acc.Rc.Safe.{Safe}
use automatic_optimistic_acc.Rc.Safety.{Reach-Exact}
use automatic_optimistic_acc.Rc.Attempts.{
  Attempt, outside, seen, raised, grabbed, reads, Detailed, attempted, attempt, keep, go_on,
  free_node, call, look, add, fail, agree, null, turn, collect, Reach, begins, later,
}

attempted-above :
    (n : ℕ) (as' : ℕ → Attempt) (i : ℕ) (a : Attempt) (k : ℕ)
    → k ≤ i
    → attempted n (update as' i a) k ≡ attempted n as' k
unfolding attempted
attempted-above n as' i a zero le = refl
attempted-above n as' i a (suc k) le =
    rw (test_ne k i (omega arith), attempted-above n as' i a k (omega arith)) refl

attempted-update :
    (n : ℕ) (as' : ℕ → Attempt) (i : ℕ) (a : Attempt) (k : ℕ)
    → i < k
    → attempted n (update as' i a) k + refs n (grabbed (as' i))
      ≡ attempted n as' k + refs n (grabbed a)
unfolding attempted
attempted-update n as' i a zero lt = absurd (omega arith)
attempted-update n as' i a (suc k) lt = elim (ℕ_discrete k i) [
  | yes e ↦ rw (e, test_eq i i refl, attempted-above n as' i a i (omega arith)) (omega arith)
  | no ne ↦
      let rest = attempted-update n as' i a k (omega arith) in rw (test_ne k i ne) (omega arith)
]

attempted-one :
    (n : ℕ) (as' : ℕ → Attempt) (i k : ℕ) → i < k → refs n (grabbed (as' i)) ≤ attempted n as' k
unfolding attempted
attempted-one n as' i zero lt = absurd (omega arith)
attempted-one n as' i (suc k) lt = elim (ℕ_discrete k i) [
  | yes e ↦ rw e (omega arith)
  | no ne ↦ let rest = attempted-one n as' i k (omega arith) in omega arith
]

attempted-none : (n k : ℕ) → attempted n (λ i. outside) k ≡ 0
unfolding attempted
attempted-none n zero = refl
attempted-none n (suc k) = let rest = attempted-none n k in omega arith

reads-Fresh :
    (live : List ℕ) (count : ℕ → ℕ) (fresh a : ℕ) (pc : Pc)
    → reads pc ≡ some a
    → Fresh live count fresh pc
reads-Fresh live count fresh a (start t) e = tt
reads-Fresh live count fresh a (read_next t prev cur) e = tt
reads-Fresh live count fresh a _ e = absurd (cc e)

reads-acquire :
    (h : Bool) (i fresh a : ℕ) (m : Memory) (pc : Pc)
    → reads pc ≡ some a
    → (step h i fresh m pc).1 ≡ acquire (m.link a)
unfolding step
reads-acquire h i fresh a m (start t) e = ap (λ x. acquire (m.link x)) (cc e)
reads-acquire h i fresh a m (read_next t prev cur) e = ap (λ x. acquire (m.link x)) (cc e)
reads-acquire h i fresh a m _ e = absurd (cc e)

-- The system without attempts has come as far, and the attempts account for the rest of the counts.
pub record Counted (h : Bool) (k : ℕ) (d : Detailed) : Type 0 where
  pub reached : System.Reach h k d.base
  pub exact : (n : ℕ) → n ≢ 0 → d.refcount n ≡ d.base.count n + 2 * attempted n d.attempts k

module _ (h : Bool) (k : ℕ) (d : Detailed) (c : Counted h k d) where
  attempt-Counted :
      (i : ℕ) (a : Attempt) (refcount : ℕ → ℕ)
      → i < k
      → ((n : ℕ)
          → n ≢ 0
          → refcount n + 2 * refs n (grabbed (d.attempts i))
            ≡ d.refcount n + 2 * refs n (grabbed a))
      → Counted h k (attempt i a refcount d)
  attempt-Counted i a refcount li moved = record {
    reached = c.reached;
    exact = λ n ne.
        let counts = moved n ne in
        let sums = attempted-update n d.attempts i a k li in
        let before = c.exact n ne in omega (arith, counts, sums, before);
  }

  -- What a step gives up has been counted.
  go_on-Counted :
      (fresh i : ℕ)
      → i < k
      → Fresh d.base.live d.base.count fresh (d.base.threads i)
      → Counted h k (go_on h fresh i d)
  go_on-Counted fresh i li f =
      let inv = Reach-Exact h k d.base c.reached in
      record {
        reached = System.later c.reached (System.turn i fresh li f);
        exact = λ n ne.
            let given =
              released-held h i fresh d.base.memory d.base.live d.base.count inv.linked n ne
                (d.base.threads i) in
            let one = total-one n d.base.threads i k li in
            let owned = inv.exact n ne in
            let before = c.exact n ne in omega (arith, given, one, owned, before);
      }

  keep-Counted :
      (i q a : ℕ)
      → i < k
      → d.attempts i ≡ raised q
      → reads (d.base.threads i) ≡ some a
      → d.base.memory.link a ≡ q
      → Counted h k (keep h i d)
  keep-Counted i q a li at here same = record {
    reached =
        System.later c.reached
          (System.turn i 0 li (reads-Fresh d.base.live d.base.count 0 a (d.base.threads i) here));
    exact = λ n ne.
        let ledger = reads-acquire h i 0 a d.base.memory (d.base.threads i) here in
        let gained = ap (λ l. counted d.base.count l n) ledger in
        let sums = attempted-update n d.attempts i outside k li in
        let taken = ap (λ x. refs n (grabbed x)) at in
        let read = ap (λ x. refs n (x ∷ [])) same in
        let before = c.exact n ne in omega (arith, gained, sums, taken, read, before);
  }

  free-Counted :
      (p : ℕ)
      → p ≢ 0
      → In p d.base.live
      → d.refcount p ≡ 2 * attempted p d.attempts k
      → Counted h k (free_node p d)
  free-Counted p nz live only =
      let inv = Reach-Exact h k d.base c.reached in
      let settled : d.base.count p ≡ 0 = omega (arith, c.exact p nz, only) in
      record {
        reached = System.later c.reached (System.collect p nz live settled);
        exact = λ n ne.
            let linked = linked_refs-In n d.base.memory.link p d.base.live live in
            let owned = inv.exact n ne in
            let before = c.exact n ne in omega (arith, linked, owned, before);
      }

pub Reach-Counted : (h : Bool) (k : ℕ) (d : Detailed) → Reach h k d → Counted h k d
Reach-Counted h k _ (begins s st) = record {
  reached = System.begins s st;
  exact = λ n ne. omega (arith, st.none_counted n, attempted-none n k);
}
Reach-Counted h k _ (later {d} r (call i t li idle)) =
    let c = Reach-Counted h k d r in
    record { reached = System.later c.reached (System.call i t li idle); exact = c.exact }
Reach-Counted h k _ (later {d} r (look i a li here at ne)) =
    attempt-Counted h k d (Reach-Counted h k d r) i (seen (d.base.memory.link a)) d.refcount li
      (λ n nz. let none_taken = ap (λ x. refs n (grabbed x)) at in omega (arith, none_taken))
Reach-Counted h k _ (later {d} r (add i q li at)) =
    attempt-Counted h k d (Reach-Counted h k d r) i (raised q) (counted d.refcount (acquire q)) li
      (λ n nz. let none_taken = ap (λ x. refs n (grabbed x)) at in omega (arith, none_taken))
Reach-Counted h k _ (later {d} r (fail i q a li at here moved)) =
    let c = Reach-Counted h k d r in
    attempt-Counted h k d c i outside (counted d.refcount (give_up q)) li (λ n nz.
      let taken = ap (λ x. refs n (grabbed x)) at in
      let one = attempted-one n d.attempts i k li in
      let before = c.exact n nz in omega (arith, taken, one, before))
Reach-Counted h k _ (later {d} r (agree i q a li at here same)) =
    keep-Counted h k d (Reach-Counted h k d r) i q a li at here same
Reach-Counted h k _ (later {d} r (null i a li at here none_there)) =
    go_on-Counted h k d (Reach-Counted h k d r) 0 i li
      (reads-Fresh d.base.live d.base.count 0 a (d.base.threads i) here)
Reach-Counted h k _ (later {d} r (turn i fresh li here f)) =
    go_on-Counted h k d (Reach-Counted h k d r) fresh i li f
Reach-Counted h k _ (later {d} r (collect p nz live only)) =
    free-Counted h k d (Reach-Counted h k d r) p nz live only

-- In every state that any number of threads can reach, at every single access of `safeRead`, the count of a node is
-- twice the number of the references that threads hold, of those that unfinished attempts of `safeRead` have taken,
-- and of the live links that lead to the node.
pub refcount-owners :
    (h : Bool) (k : ℕ) (d : Detailed) (n : ℕ)
    → Reach h k d
    → n ≢ 0
    → d.refcount n
      ≡ 2
        * (total n d.base.threads k
            + attempted n d.attempts k
            + linked_refs n d.base.memory.link d.base.live)
refcount-owners h k d n r ne =
    let c = Reach-Counted h k d r in
    let settled = (Reach-Exact h k d.base c.reached).exact n ne in
    let all = c.exact n ne in omega (arith, settled, all)

-- In every such state each pointer that a thread holds, those that it is about to release among them, but not its new
-- node before the link of this is written, is null or leads to a node that is live, whatever the attempts of others;
-- and what the thread has read of links that are marked is still true.
pub holders-Safe :
    (h : Bool) (k : ℕ) (d : Detailed) (i : ℕ)
    → Reach h k d
    → Safe d.base.memory.link d.base.live d.base.count (d.base.threads i)
holders-Safe h k d i r = (Reach-Exact h k d.base (Reach-Counted h k d r).reached).safe i
