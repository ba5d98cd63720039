-- ===== src/Refcount/Release.antt =====
-- What the last release of a node does: the chain of nodes that nothing else refers to goes to the free list.
use automatic_optimistic_acc.Base.{
  ℕ, zero, suc, ◌+◌, ◌-◌, ◌%◌, ◌^◌, ◌≡◌, ◌≢◌, ◌<◌, ◌⊎◌, inl, inr, refl, ap, sym, ◌∙◌, true, false,
  List, [], ◌∷◌, some, arith, ◌==◌, test_eq, test_ne, length, In, Distinct, subst,
}
use automatic_optimistic_acc.Entry.{clear_deleted}
use automatic_optimistic_acc.Lfl.{update}
use automatic_optimistic_acc.Refcount.{
  reclaim, reclaim_after, unmarked_list, Store, set_count, release,
}
use automatic_optimistic_acc.Refcount.Decrement.{decrement-kept, decrement-claim}

-- From `p`, the entries lead through the nodes `ns` to the pointer `q`.
abbrev pub Leads : (next_entry : ℕ → ℕ) → (p : ℕ) → List ℕ → (q : ℕ) → Type 0
Leads next p [] q = p ≡ q
Leads next p (n ∷ ns) q = (clear_deleted p ≡ n) × (n ≢ 0) × Leads next (next n) ns q

-- The same, with no mark on the way: so are the nodes of a free list.
abbrev pub Listed : (next_entry : ℕ → ℕ) → (p : ℕ) → List ℕ → (q : ℕ) → Type 0
Listed next p [] q = p ≡ q
Listed next p (n ∷ ns) q = (p ≡ n) × (n ≢ 0) × Listed next (next n) ns q

Listed-update :
    (next : ℕ → ℕ) (n v : ℕ) (p : ℕ) (ns : List ℕ) (q : ℕ)
    → (In n ns → ⊥)
    → Listed next p ns q
    → Listed (update next n v) p ns q
Listed-update next n v p [] q out l = l
Listed-update next n v p (x ∷ ns) q out (same, ne, rest) =
    let there : update next n v x ≡ next x = rw (test_ne x n (λ e. out (inl (sym e)))) refl in
    (same, ne, rw there (Listed-update next n v (next x) ns q (λ i. out (inr i)) rest))

-- What a release of a chain has done.
pub record Freed (ns : List ℕ) (q : ℕ) (before after : Store) : Type 0 where
  pub listed : Listed after.next_entry after.free_list ns before.free_list
  pub even : after.free_list % 2 ≡ 0
  pub free : (n : ℕ) → In n ns → after.refcount n ≡ 1
  pub lowered :
      clear_deleted q ≢ 0 → after.refcount (clear_deleted q) + 2 ≡ before.refcount (clear_deleted q)
  pub kept_count :
      (n : ℕ) → (In n ns → ⊥) → n ≢ clear_deleted q → after.refcount n ≡ before.refcount n
  pub kept_next : (n : ℕ) → (In n ns → ⊥) → after.next_entry n ≡ before.next_entry n

-- The chain from `p` is not freed any further at `q`: it ends there, or something else refers to its node.
abbrev pub Stops : Store → ℕ → Type 0
Stops s q =
    (clear_deleted q ≡ 0)
    ⊎ ((clear_deleted q ≢ 0)
        × (2 < s.refcount (clear_deleted q))
        × (s.refcount (clear_deleted q) < 2 ^ 64))

pub unmarked_list-Even : (f : ℕ) → f % 2 ≡ 0 → unmarked_list f ≡ true
unfolding unmarked_list clear_deleted
unmarked_list-Even f e = test_eq f (f - f % 2) (omega (arith, e))

-- At the end of the chain nothing is freed.
release-Stops :
    (fuel : ℕ) (s : Store) (p : ℕ)
    → s.free_list % 2 ≡ 0
    → Stops s p
    → (t : Store) × (release (suc fuel) s p ≡ some t) × Freed [] p s t
unfolding release
release-Stops fuel s p even (inl null) = (
  s,
  rw (test_eq (clear_deleted p) 0 null) refl,
  record {
    listed = refl;
    even = even;
    free = λ n i. absurd i;
    lowered = λ ne. absurd (ne null);
    kept_count = λ n out ne. refl;
    kept_next = λ n out. refl;
  },
)
release-Stops fuel s p even (inr (nonnull, low, high)) =
    let n = clear_deleted p in
    (
      set_count s n (s.refcount n - 2),
      rw (test_ne n 0 nonnull, decrement-kept (s.refcount n) low high) refl,
      record {
        listed = refl;
        even = even;
        free = λ m i. absurd i;
        lowered = λ ne. rw (test_eq n n refl) (omega arith);
        kept_count = λ m out ne. rw (test_ne m n ne) refl;
        kept_next = λ m out. refl;
      },
    )

release-claim :
    (fuel : ℕ) (s : Store) (p n : ℕ)
    → clear_deleted p ≡ n
    → n ≢ 0
    → s.refcount n ≡ 2
    → release (suc fuel) s p ≡ reclaim_after n (release fuel (set_count s n 1) (s.next_entry n))
unfolding release
release-claim fuel s p n here ne two = rw (here, test_ne n 0 ne, two, decrement-claim) refl

pub clear_deleted-even : (p n : ℕ) → clear_deleted p ≡ n → n % 2 ≡ 0
unfolding clear_deleted
clear_deleted-even p n e = omega (arith, e)

-- What `reclaim` does where its assertions hold.
abbrev pub reclaimed : ℕ → Store → Store
reclaimed p s = record s { next_entry = update s.next_entry p s.free_list; free_list = p }

reclaim-even :
    (n : ℕ) (t : Store) → n % 2 ≡ 0 → t.free_list % 2 ≡ 0 → reclaim n t ≡ some (reclaimed n t)
unfolding reclaim
reclaim-even n t en et = rw (unmarked_list-Even t.free_list et, unmarked_list-Even n en) refl

-- A node joins those that the rest of its release has freed.
reclaim-Freed :
    (s t : Store) (n : ℕ) (ns : List ℕ) (q : ℕ)
    → n ≢ 0
    → n % 2 ≡ 0
    → (In n ns → ⊥)
    → n ≢ clear_deleted q
    → Freed ns q (set_count s n 1) t
    → Freed (n ∷ ns) q s (reclaimed n t)
reclaim-Freed s t n ns q ne even fresh off freed = record {
  even = even;
  listed = (
    refl,
    ne,
    rw (test_eq n n refl)
        (Listed-update t.next_entry n t.free_list t.free_list ns s.free_list fresh freed.listed),
  );
  free = λ m i. elim i [
    | inl e ↦ rw e (freed.kept_count n fresh off ∙ rw (test_eq n n refl) refl)
    | inr j ↦ freed.free m j
  ];
  lowered = λ there. freed.lowered there ∙ rw (test_ne (clear_deleted q) n (λ e. off (sym e))) refl;
  kept_count = λ m out away.
      freed.kept_count m (λ i. out (inr i)) away ∙ rw (test_ne m n (λ e. out (inl e))) refl;
  kept_next = λ m out. rw (test_ne m n (λ e. out (inl e))) (freed.kept_next m (λ i. out (inr i)));
}

-- With no mark on the head of the free list, a release of a node at the head of a chain `ns` of distinct nodes with
-- one reference each, up to a pointer `q` that is null or whose node has further references, puts the whole chain in front of the free list, in order,
-- with its counts free, takes one reference from the node of `q`, and changes no other count or entry;
-- fuel for each node of the chain, and one more, is enough.
pub release-Freed :
    (fuel : ℕ) (s : Store) (p : ℕ) (ns : List ℕ) (q : ℕ)
    → s.free_list % 2 ≡ 0
    → length ns < fuel
    → Leads s.next_entry p ns q
    → Distinct ns
    → ((n : ℕ) → In n ns → s.refcount n ≡ 2)
    → Stops s q
    → (t : Store) × (release fuel s p ≡ some t) × Freed ns q s t
release-Freed (suc fuel) s p [] q even more leads distinct twos stop =
    subst (λ x. (t : Store) × (release (suc fuel) s p ≡ some t) × Freed [] x s t) leads
      (release-Stops fuel s p even (subst (Stops s) (sym leads) stop))
release-Freed (suc fuel) s p (n ∷ ns) q even more (here, ne, leads) (fresh, distinct) twos stop =
    let two : s.refcount n ≡ 2 = twos n (inl refl) in
    let en : n % 2 ≡ 0 = clear_deleted-even p n here in
    let off : n ≢ clear_deleted q = λ e. elim stop [
      | inl null ↦ ne (e ∙ null)
      | inr (nonnull, low, high) ↦ absurd (omega (arith, ap s.refcount e))
    ] in
    let off' : (clear_deleted q == n) ≡ false = test_ne (clear_deleted q) n (λ e. off (sym e)) in
    let (t, ran, freed) =
      release-Freed fuel (set_count s n 1) (s.next_entry n) ns q even (omega arith) leads distinct
        (λ m i. rw (test_ne m n (λ e. fresh (subst (λ x. In x ns) e i))) (twos m (inr i)))
        (rw off' stop) in
    (
      reclaimed n t,
      release-claim fuel s p n here ne two
          ∙ (ap (reclaim_after n) ran ∙ reclaim-even n t en freed.even),
      reclaim-Freed s t n ns q ne en fresh off freed,
    )
release-Freed zero s p ns q even more leads distinct twos stop = absurd (omega arith)
