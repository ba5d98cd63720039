-- ===== src/Refcount/Reuse.antt =====
-- Nodes from release to reuse: `newRC` takes them back from the free list, `cntfree` counts them.
use automatic_optimistic_acc.Base.{
  ℕ, zero, suc, ◌+◌, ◌%◌, ◌≡◌, ◌≢◌, ◌<◌, inl, inr, refl, ◌∙◌, List, [], ◌∷◌, some, arith, test_eq,
  test_ne, length, In, subst, ◌++◌, length-append, Distinct,
}
use automatic_optimistic_acc.Lfl.{update}
use automatic_optimistic_acc.Refcount.{clear_lowest_bit, Store, release, new_rc, cntfree}
use automatic_optimistic_acc.Refcount.Release.{
  Leads, Listed, Stops, release-Freed, unmarked_list-Even, clear_deleted-even,
}

-- `newRC` has taken the first node of the free list, with one reference.
pub record Reused (n : ℕ) (ns : List ℕ) (q : ℕ) (before after : Store) : Type 0 where
  pub owned : after.refcount n ≡ 2
  pub listed : Listed after.next_entry after.free_list ns q
  pub kept : (m : ℕ) → m ≢ n → after.refcount m ≡ before.refcount m

pub new_rc-Reused :
    (palloc : ℕ) (s : Store) (n : ℕ) (ns : List ℕ) (q : ℕ)
    → Listed s.next_entry s.free_list (n ∷ ns) q
    → n % 2 ≡ 0
    → s.next_entry n % 2 ≡ 0
    → s.refcount n ≡ 1
    → (u : Store) × (new_rc palloc s ≡ some (u, n)) × Reused n ns q s u
unfolding new_rc clear_lowest_bit
new_rc-Reused palloc s n ns q (first, ne, rest) en next_even one = (
  record s { refcount = update s.refcount n 2; free_list = s.next_entry n },
  rw
      (
        first,
        unmarked_list-Even n en,
        test_ne n 0 ne,
        unmarked_list-Even (s.next_entry n) next_even,
        one,
      )
      refl,
  record {
    owned = rw (test_eq n n refl) refl;
    listed = rest;
    kept = λ m off. rw (test_ne m n off) refl;
  },
)

-- A chain of cleared nodes and a list without a mark.
Listed-even :
    (next next' : ℕ → ℕ) (p p' : ℕ) (ns : List ℕ) (q q' : ℕ)
    → q % 2 ≡ 0
    → Leads next p' ns q'
    → Listed next' p ns q
    → p % 2 ≡ 0
Listed-even next next' p p' [] q q' even leads here = omega (arith, even, here)
Listed-even next next' p p' (n ∷ ns) q q' even (cleared, _, _) (here, _, _) =
    let en = clear_deleted-even p' n cleared in omega (arith, en, here)

-- With no mark on the head of the free list: when the last reference to a node is released, the next node that the
-- thread allocates is that one, with one reference, and the nodes freed with it are next in the free list.
pub release-Reused :
    (fuel : ℕ) (s : Store) (p n : ℕ) (ns : List ℕ) (q palloc : ℕ)
    → s.free_list % 2 ≡ 0
    → length (n ∷ ns) < fuel
    → Leads s.next_entry p (n ∷ ns) q
    → Distinct (n ∷ ns)
    → ((m : ℕ) → In m (n ∷ ns) → s.refcount m ≡ 2)
    → Stops s q
    → (t : Store) × (release fuel s p ≡ some t)
      × ((u : Store) × (new_rc palloc t ≡ some (u, n)) × Reused n ns s.free_list t u)
release-Reused fuel s p n ns q palloc even more (here, ne, leads) distinct twos stop =
    let (t, ran, freed) =
      release-Freed fuel s p (n ∷ ns) q even more (here, ne, leads) distinct twos stop in
    let (_, _, tail) = freed.listed in
    (
      t,
      ran,
      new_rc-Reused palloc t n ns s.free_list freed.listed (clear_deleted-even p n here)
          (Listed-even s.next_entry t.next_entry (t.next_entry n) (s.next_entry n) ns s.free_list q
            even leads tail)
          (freed.free n (inl refl)),
    )

cntfree-Listed :
    (fuel : ℕ) (next : ℕ → ℕ) (p : ℕ) (ns : List ℕ)
    → length ns < fuel
    → Listed next p ns 0
    → cntfree fuel next p ≡ some (length ns)
unfolding cntfree
cntfree-Listed (suc fuel) next p [] more null = rw null refl
cntfree-Listed (suc fuel) next p (n ∷ ns) more (here, ne, rest) =
    rw (here, test_ne n 0 ne, cntfree-Listed fuel next (next n) ns (omega arith) rest) refl
cntfree-Listed zero next p ns more l = absurd (omega arith)

Listed-append :
    (next next' : ℕ → ℕ) (p q : ℕ) (ns fs : List ℕ)
    → Listed next' p ns q
    → Listed next q fs 0
    → ((m : ℕ) → In m fs → next' m ≡ next m)
    → Listed next' p (ns ++ fs) 0
Listed-append next next' p q (n ∷ ns) fs (here, ne, rest) tail same =
    (here, ne, Listed-append next next' (next' n) q ns fs rest tail same)
Listed-append next next' p q [] [] here tail same = here ∙ tail
Listed-append next next' p q [] (f ∷ fs) here (there, ne, tail) same = (
  here ∙ there,
  ne,
  Listed-append next next' (next' f) (next f) [] fs (same f (inl refl)) tail
      (λ m i. same m (inr i)),
)

-- Nothing is lost: with no mark on the head of the free list, a release that frees the nodes `ns` raises what `cntfree` counts, for a free list `fs` apart
-- from them, by the number of these nodes.
pub release-cntfree :
    (fuel : ℕ) (s : Store) (p : ℕ) (ns fs : List ℕ) (q : ℕ)
    → s.free_list % 2 ≡ 0
    → length ns < fuel
    → Leads s.next_entry p ns q
    → Distinct ns
    → ((m : ℕ) → In m ns → s.refcount m ≡ 2)
    → Stops s q
    → Listed s.next_entry s.free_list fs 0
    → ((m : ℕ) → In m fs → In m ns → ⊥)
    → (t : Store) × (release fuel s p ≡ some t)
      × (cntfree (suc (length ns + length fs)) t.next_entry t.free_list
          ≡ some (length ns + length fs))
release-cntfree fuel s p ns fs q even more leads distinct twos stop old apart =
    let (t, ran, freed) = release-Freed fuel s p ns q even more leads distinct twos stop in
    let all =
      Listed-append s.next_entry t.next_entry t.free_list s.free_list ns fs freed.listed old
        (λ m i. freed.kept_next m (apart m i)) in
    (
      t,
      ran,
      subst (λ k. cntfree (suc k) t.next_entry t.free_list ≡ some k) (length-append ns fs)
          (cntfree-Listed (suc (length (ns ++ fs))) t.next_entry t.free_list (ns ++ fs)
            (omega arith) all),
    )
