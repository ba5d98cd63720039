-- ===== src/Lfl/Linear.antt =====
-- The lock-free list as a set of keys: each step of a thread either leaves the set alone, or is the
-- compare-and-swap by which an insertion or a deletion takes effect at once.
use native.Mathlib.Decide.{ℕ_discrete}
use automatic_optimistic_acc.Base.{
  ℕ, ◌+◌, ◌-◌, ◌%◌, ◌≡◌, ◌≢◌, ◌⊎◌, ◌↔◌, inl, inr, ◌∙◌, sym, ap, refl, arith, ◌==◌, if◌then◌else◌,
  Bool, Bool-cases, ==_iff,
}
use automatic_optimistic_acc.Entry.{get_key, get_key-of_small}
use automatic_optimistic_acc.Lfl.{
  shared, Memory, update, Pc, ready, done, hit, start, read_next, unlink, read_key, revalidate,
  read_data, alloc, write_key, write_next, connect, mark, step, Available,
}
use automatic_optimistic_acc.Lfl.Invariant.{key, IsLink, Good, Before, Behind, Ok}
use automatic_optimistic_acc.Lfl.Rely.{Before-IsLink}
use automatic_optimistic_acc.Lfl.Writes.{closed_link, sorted_link, on_chain}
use automatic_optimistic_acc.Lfl.Order.{unique, gap}

-- A node that is in the list and not deleted.
abbrev pub Live : Memory → ℕ → Type 0
Live m n = (m.status n ≡ shared) × (m.link n % 2 ≡ 0)

-- The abstract set.
abbrev pub Present : Memory → ℕ → Type 0
Present m k = (n : ℕ) × Live m n × (key m n ≡ k)

pub data Event : Type 0 where
  quiet : Event
  added : (key : ℕ) → Event
  removed : (key : ℕ) → Event

-- What the step from a place does to the set: read off the result of its compare-and-swap.
unfoldable pub event : Memory → Pc → Event
event m (connect k d prev cur new) = if m.link prev == cur then added k else quiet
event m (mark k cur next) = if m.link cur == next then removed k else quiet
event m _ = quiet

abbrev pub Effect : Event → Memory → Memory → Type 0
Effect quiet m m' = (j : ℕ) → Present m' j ↔ Present m j
Effect (added k) m m' = (¬ Present m k) × ((j : ℕ) → Present m' j ↔ ((j ≡ k) ⊎ Present m j))
Effect (removed k) m m' = Present m k × ((j : ℕ) → Present m' j ↔ ((j ≢ k) × Present m j))

module _ (m : Memory) (g : Good m) where
  -- No two live nodes have the same key.
  pub Live-unique : (n n' : ℕ) → Live m n → Live m n' → key m n ≡ key m n' → n ≡ n'
  Live-unique n n' l l' e =
      unique m.link (key m) (IsLink m) (closed_link m g) (sorted_link m g) 0 n n' g.chain (inl refl)
        g.linked (g.covers n l.0 l.1) (g.covers n' l'.0 l'.1) e

  -- Between an unmarked link before `k` and its target behind `k` the set has no key `k`.
  pub gap-not-Present :
      (k p c : ℕ) → Before m k p → Behind m k c → m.link p ≡ c → c % 2 ≡ 0 → ¬ Present m k
  gap-not-Present k p c b h at even (n, l, e) =
      let near =
        gap m.link (key m) (IsLink m) (closed_link m g) (sorted_link m g) p 0 n g.chain (inl refl)
          g.linked (on_chain m g p (Before-IsLink m k p b) (rw at even)) (g.covers n l.0 l.1) in
      ground (arith, near, g.node n l.0)

Effect-same :
    (m m' : Memory)
    → ((n : ℕ) → Live m n → Live m' n × (key m' n ≡ key m n))
    → ((n : ℕ) → Live m' n → Live m n × (key m' n ≡ key m n))
    → Effect quiet m m'
Effect-same m m' to from j = (
  (λ (n, l, e). let (l', e') = from n l in (n, l', sym e' ∙ e)),
  (λ (n, l, e). let (l', e') = to n l in (n, l', e' ∙ e)),
)

-- Unlinking a marked node removes no key.
relink-Effect :
    (m : Memory) (p c next : ℕ)
    → m.link p ≡ c
    → c % 2 ≡ 0
    → Effect quiet m (record m { link = update m.link p (next - next % 2) })
relink-Effect m p c next at even = Effect-same m _ (λ n l. ground arith) (λ n l. ground arith)

connect-Effect :
    (m : Memory)
    → Good m
    → (me k d p c new : ℕ) → Ok me m (connect k d p c new)
    → m.link p ≡ c
    → Effect
        (added k)
        m
        (record m { link = update m.link p new; status = update m.status new shared })
connect-Effect m g me k d p c new (small, b, h, (own, nz, even), kd, e) at =
    let c_even : c % 2 ≡ 0 = ground (arith, h, g.node c) in
    let ne : new ≢ p = ground (arith, Before-IsLink m k p b) in
    (
      gap-not-Present m g k p c b h at c_even,
      λ j. (
        (λ (n, l, q). elim (ℕ_discrete n new) [
          | yes same ↦ inl (sym q ∙ ap (key m) same ∙ ap get_key kd ∙ get_key-of_small k small)
          | no other ↦ inr (n, ground arith, q)
        ]),
        (λ r. elim r [
          | inl q ↦ (new, ground arith, ap get_key kd ∙ get_key-of_small k small ∙ sym q)
          | inr (n, l, q) ↦ (n, ground arith, q)
        ]),
      ),
    )

mark-Effect :
    (m : Memory)
    → Good m
    → (me k c next : ℕ) → Ok me m (mark k c next)
    → m.link c ≡ next
    → Effect (removed k) m (record m { link = update m.link c (next - next % 2 + 1) })
mark-Effect m g me k c next (small, s, q, even) at =
    let live : Live m c = (s, rw at even) in
    (
      (c, live, q),
      λ j. (
        (λ (n, l, e).
            let ne : n ≢ c = ground arith in
            let l' : Live m n = ground arith in
            ((λ jk. ne (Live-unique m g n c l' live (e ∙ jk ∙ sym q))), (n, l', e))),
        (λ (ne, (n, l, e)).
            let other : n ≢ c = λ same. ne (sym e ∙ ap (key m) same ∙ q) in (n, ground arith, e)),
      ),
    )

quiet_step : (m : Memory) → Effect quiet m m
quiet_step m j = ((λ p. p), λ p. p)

-- A step has the effect that its event says.
pub step-Effect :
    (h : Bool) (me fresh : ℕ) (m : Memory)
    → Good m
    → (pc : Pc) → Ok me m pc
    → Available m pc fresh
    → Effect (event m pc) m (step h me fresh m pc).0
unfolding step event
step-Effect h me fresh m g (start t) ok av = quiet_step m
step-Effect h me fresh m g (read_next t prev cur) ok av = quiet_step m
step-Effect h me fresh m g (unlink t prev cur next) (l, b, s, odd, at) av =
    elim (Bool-cases (m.link prev == cur)) [
      | inl e ↦ rw e (relink-Effect m prev cur next ((==_iff _ _).0 e) (g.node cur s).1)
      | inr e ↦ rw e (quiet_step m)
    ]
step-Effect h me fresh m g (read_key t prev cur next) ok av = quiet_step m
step-Effect h me fresh m g (revalidate t prev cur next ckey) ok av = quiet_step m
step-Effect h me fresh m g (read_data k cur) ok av = quiet_step m
step-Effect h me fresh m g (alloc k d prev cur) ok (unused, nz, even) =
    Effect-same m _ (λ n l. ground arith) (λ n l. ground arith)
step-Effect h me fresh m g (write_key k d prev cur new) (l, b, c, w) av =
    Effect-same m _ (λ n l. ground (arith, w)) (λ n l. ground (arith, w))
step-Effect h me fresh m g (write_next k d prev cur new) (l, b, c, w, q) av =
    Effect-same m _ (λ n l. ground (arith, w)) (λ n l. ground (arith, w))
step-Effect h me fresh m g (connect k d prev cur new) ok av =
    elim (Bool-cases (m.link prev == cur)) [
      | inl e ↦ rw e (connect-Effect m g me k d prev cur new ok ((==_iff _ _).0 e))
      | inr e ↦ rw e (quiet_step m)
    ]
step-Effect h me fresh m g (mark k cur next) ok av = elim (Bool-cases (m.link cur == next)) [
  | inl e ↦ rw e (mark-Effect m g me k cur next ok ((==_iff _ _).0 e))
  | inr e ↦ rw e (quiet_step m)
]
step-Effect h me fresh m g ready ok av = quiet_step m
step-Effect h me fresh m g (done t b) ok av = quiet_step m
step-Effect h me fresh m g (hit k d) ok av = quiet_step m
