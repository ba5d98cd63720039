-- ===== src/Lfl/Writes.antt =====
-- The writes of the lock-free list keep memory good: those to a private node, and the three
-- compare-and-swaps on shared links (link in, mark, unlink).
use native.Mathlib.Decide.{ℕ_discrete}
use automatic_optimistic_acc.Base.{
  In, ℕ, ◌+◌, ◌-◌, ◌%◌, ◌^◌, ◌<◌, ◌≡◌, ◌≢◌, inl, inr, ◌∙◌, sym, ap, refl, subst, arith,
}
use automatic_optimistic_acc.Entry.{get_key, get_key-of_small}
use automatic_optimistic_acc.Lfl.{shared, Memory, update}
use automatic_optimistic_acc.Lfl.Chain.{
  target, At, Chain-frame, in-Used, insert-Chain, snip-Chain, mark-Chain,
}
use automatic_optimistic_acc.Lfl.Invariant.{key, IsLink, Good, Before, Behind, Owns}
use automatic_optimistic_acc.Lfl.Rely.{Before-IsLink}

module _ (m : Memory) (g : Good m) where
  pub closed_link : (a : ℕ) → IsLink m a → target m.link a ≢ 0 → IsLink m (target m.link a)
  closed_link a l nz = inr (g.closed a l nz)

  pub sorted_link :
      (a : ℕ) → IsLink m a → a ≢ 0 → target m.link a ≢ 0 → key m a < key m (target m.link a)
  sorted_link a (inl z) nz t = absurd (nz z)
  sorted_link a (inr s) nz t = g.sorted a s t

  -- A link that is not marked lies on the chain.
  pub on_chain : (p : ℕ) → IsLink m p → m.link p % 2 ≡ 0 → At p 0 g.chain
  on_chain p (inl z) even = inl (sym z)
  on_chain p (inr s) even = inr (g.covers p s even)

-- A change that no shared link and no shared key sees.
pub Good-same :
    (m m' : Memory)
    → Good m
    → ((n : ℕ) → m.status n ≡ shared → m'.status n ≡ shared)
    → ((n : ℕ) → m'.status n ≡ shared → m.status n ≡ shared)
    → m'.link 0 ≡ m.link 0
    → ((n : ℕ) → m.status n ≡ shared → m'.link n ≡ m.link n)
    → ((n : ℕ) → m.status n ≡ shared → m'.key_data n ≡ m.key_data n)
    → Good m'
Good-same m m' g to from head_same same keys = record {
  head = rw head_same g.head;
  node = λ n s. g.node n (from n s);
  closed = λ a l nz. ground (arith, from a, to (target m.link a), head_same, same a, g.closed a);
  sorted = λ a s nz.
      let s' = from a s in
      let e = ap (λ x. x - x % 2) (same a s') in
      let old = g.sorted a s' (λ z. nz (e ∙ z)) in
      rw
        (
          e,
          ap get_key (keys a s'),
          ap get_key (keys (target m.link a) (g.closed a (inr s') (λ z. nz (e ∙ z)))),
        )
        old;
  chain = g.chain;
  linked = Chain-frame m.link m'.link 0 g.chain g.linked (link_same 0 (inl refl)) (λ n i.
      link_same n (
        in-Used m.link (key m) (IsLink m) (closed_link m g) (sorted_link m g) 0 n g.chain (inl refl)
          g.linked i));
  covers = λ n s even. g.covers n (from n s) (rw (← same n (from n s)) even);
}
  where
    link_same : (n : ℕ) → IsLink m n → target m'.link n ≡ target m.link n
    link_same n (inl z) = ap (λ x. x - x % 2) (ap m'.link z ∙ head_same ∙ ap m.link (sym z))
    link_same n (inr s) = ap (λ x. x - x % 2) (same n s)

module _ (m : Memory) (g : Good m) where
  pub Good-mark :
      (c next : ℕ)
      → m.status c ≡ shared
      → m.link c ≡ next
      → Good (record m { link = update m.link c (next - next % 2 + 1) })
  Good-mark c next s e = record {
    head = ground (arith, g.head, g.node c s);
    node = g.node;
    closed = λ a l nz. ground (arith, g.closed a);
    sorted = λ a q nz. ground (arith, g.sorted a);
    chain = g.chain;
    linked = mark-Chain m.link c next 0 g.chain e g.linked;
    covers = λ n q even. g.covers n q (ground arith);
  }

  -- A marked node `c` is unlinked.
  pub Good-relink :
      (p c next : ℕ)
      → IsLink m p
      → m.status c ≡ shared
      → m.link p ≡ c
      → m.link c ≡ next
      → next % 2 ≡ 1
      → Good (record m { link = update m.link p (next - next % 2) })
  Good-relink p c next l s at e odd =
      let even : c % 2 ≡ 0 = (g.node c s).1 in
      let (ys, linked, keep) =
        snip-Chain m.link (key m) (IsLink m) (closed_link m g) (sorted_link m g) p c (g.node c s).0
          (ground arith) 0 g.chain (inl refl) g.linked (on_chain m g p l (rw at even)) in
      record {
        head = ground (arith, g.head);
        node = g.node;
        closed = λ a l nz. ground (arith, g.closed a, g.closed c);
        sorted = λ a q nz. ground (arith, g.sorted a, g.sorted c, g.node a);
        chain = ys;
        linked = rw (← e) linked;
        covers = λ n q un. keep n (g.covers n q (ground arith)) (ground arith);
      }

  -- A new node is linked in.
  pub Good-connect :
      (me k p c new : ℕ)
      → k < 2 ^ 31
      → Before m k p
      → Behind m k c
      → Owns me m new
      → m.key_data new ≡ k
      → m.link new ≡ c
      → m.link p ≡ c
      → Good (record m { link = update m.link p new; status = update m.status new shared })
  Good-connect me k p c new small b h (owned, nz, even) kd e at =
      let l : IsLink m p = Before-IsLink m k p b in
      let c_even : c % 2 ≡ 0 = ground (arith, h, g.node c) in
      let ne : new ≢ p = ground (arith, l) in
      let (ys, linked, keep, has) =
        insert-Chain m.link (key m) (IsLink m) (closed_link m g) (sorted_link m g) p new nz even ne
          (ap (λ x. x - x % 2) (e ∙ sym at)) 0 g.chain (inl refl) g.linked
          (on_chain m g p l (rw at c_even)) in
      record {
        head = ground (arith, g.head);
        node = λ n q. ground (arith, g.node n);
        closed = λ a q t. ground (arith, g.closed a, h, b);
        sorted = λ a q t. ground (arith, g.sorted a, h, b, g.node a, get_key-of_small k small);
        chain = ys;
        linked = linked;
        covers = λ n q un. elim (ℕ_discrete n new) [
          | yes same ↦ subst (λ x. In x ys) (sym same) has
          | no other ↦ keep n (g.covers n (ground arith) (ground arith))
        ];
      }
