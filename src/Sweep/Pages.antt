-- ===== src/Sweep/Pages.antt =====
-- A page's sweep frees exactly the nodes of the page, outside the header, that are not marked, in the
-- order of their addresses.
use automatic_optimistic_acc.Base.{
  ℕ, zero, suc, ◌+◌, ◌-◌, ◌*◌, ◌/◌, ◌%◌, ◌≤◌, ◌<◌, ◌≡◌, ◌∙◌, sym, ap, refl, Bool, false, inl, inr,
  List, [], ◌∷◌, ◌++◌, arith, ltb, ◌==◌, if◌then◌else◌, Bool-cases, test_eq, test_ne, ◌≢◌, lt→ltb,
  fun_ext, Outcome, ok, abort, out_of_fuel, ◌>>=◌,
}
use automatic_optimistic_acc.Marks.{
  chunk_size, node_size, mem_per_byte, header_size, has_bit, mark_word, mark_bit,
}
use automatic_optimistic_acc.Pool.{LocalAlloc, set_as_free}
use automatic_optimistic_acc.Sweep.{
  ignores, sweep_page, sweep_pages_per_chunk, page_address, sweep_bits, sweep_words, sweep_at,
  process_sweep_page, Meanwhile, met,
}

-- `count` nodes, one after the other.
unfoldable pub nodes : (start count : ℕ) → List ℕ
nodes start zero = []
nodes start (suc n) = start ∷ nodes (start + node_size) n

-- The nodes of a page: a chunk's first page loses the room of the header.
abbrev pub page_nodes : ℕ → List ℕ
page_nodes page =
    if page % chunk_size == 0
    then nodes (page + header_size) ((sweep_page - header_size) / node_size)
    else nodes page (sweep_page / node_size)

-- The mark of a node, by `get_mark_params`.
abbrev pub is_marked : (words : ℕ → ℕ) → ℕ → Bool
is_marked words obj = has_bit (words (mark_word obj)) (mark_bit obj)

unfoldable pub unmarked : (words : ℕ → ℕ) → List ℕ → List ℕ
unmarked words [] = []
unmarked words (x ∷ xs) = if is_marked words x then unmarked words xs else x ∷ unmarked words xs

bind_assoc :
    {A : Type 0} (r : Outcome A) (f g : A → Outcome A) → (r >>= λ a. f a >>= g) ≡ (r >>= f >>= g)
bind_assoc (ok a) f g = refl
bind_assoc abort f g = refl
bind_assoc out_of_fuel f g = refl

bits-next :
    (obj b : ℕ)
    → obj % 1024 ≡ 32 * b
    → b + 1 < 32
    → (mark_word (obj + 32) ≡ mark_word obj) × ((obj + 32) % 1024 ≡ 32 * (b + 1))
unfolding mark_word
bits-next obj b e lt = omega arith

bit-here : (obj b : ℕ) → obj % 1024 ≡ 32 * b → b < 32 → mark_bit obj ≡ b
unfolding mark_bit
bit-here obj b e lt = omega arith

word-next :
    (obj k : ℕ)
    → 1 ≤ k
    → obj % 1024 ≡ 0
    → obj % chunk_size + 1024 * suc k ≤ chunk_size
    → (mark_word (obj + 1024) ≡ mark_word obj + 8)
      × ((obj + 1024) % 1024 ≡ 0)
      × ((obj + 1024) % chunk_size + 1024 * k ≤ chunk_size)
unfolding mark_word
word-next obj k more e lt = omega arith

-- The mark word of the first node behind the header, and of the first node of another page.
first-word :
    (page : ℕ)
    → page % chunk_size ≡ 0
    → page - page % chunk_size + page % chunk_size / mem_per_byte + ignores * 8
      ≡ mark_word (page + header_size)
unfolding mark_word
first-word page z = omega arith

any-word :
    (page : ℕ)
    → page % sweep_page ≡ 0
    → page - page % chunk_size + page % chunk_size / mem_per_byte ≡ mark_word page
unfolding mark_word
any-word page e = omega arith

module _ (slots : ℕ → ℕ) (os : Meanwhile) (words : ℕ → ℕ) where
  -- Every object of the list is freed, in order.
  unfoldable pub free_all : List ℕ → LocalAlloc → Outcome LocalAlloc
  free_all [] l = ok l
  free_all (x ∷ xs) l = set_as_free slots (os x).1 (met os x l) x >>= free_all xs

  free_all-append :
      (xs ys : List ℕ) (l : LocalAlloc) → free_all (xs ++ ys) l ≡ (free_all xs l >>= free_all ys)
  unfolding free_all
  free_all-append [] ys l = refl
  free_all-append (x ∷ xs) ys l =
      ap (λ f. set_as_free slots (os x).1 (met os x l) x >>= f) (fun_ext (free_all-append xs ys))
      ∙ bind_assoc (set_as_free slots (os x).1 (met os x l) x) (free_all xs) (free_all ys)

  sweep_bits-frees :
      (n bit word obj : ℕ) (l : LocalAlloc)
      → bit + n ≤ 32
      → (1 ≤ n → (obj % 1024 ≡ 32 * bit) × (word ≡ words (mark_word obj)))
      → sweep_bits slots os words n bit word obj l ≡ free_all (unmarked words (nodes obj n)) l
  unfolding sweep_bits unmarked nodes free_all
  sweep_bits-frees zero bit word obj l le here = refl
  sweep_bits-frees (suc n) bit word obj l le here =
      let (e, w) = here (omega arith) in
      let same : has_bit word bit ≡ is_marked words obj =
        rw (w, bit-here obj bit e (omega arith)) refl in
      let rest = λ (l' : LocalAlloc).
        sweep_bits-frees n (bit + 1) word (obj + node_size) l' (omega arith) (λ more.
          let (w', e') = bits-next obj bit e (omega arith) in (e', w ∙ ap words (sym w'))) in
      elim (Bool-cases (is_marked words obj)) [
        | inl m ↦ rw (m, same ∙ m) (rest l)
        | inr m ↦
            rw (m, same ∙ m)
              (ap (λ f. set_as_free slots (os obj).1 (met os obj l) obj >>= f) (fun_ext rest))
      ]

  unmarked-append :
      (xs ys : List ℕ) → unmarked words (xs ++ ys) ≡ unmarked words xs ++ unmarked words ys
  unfolding unmarked
  unmarked-append [] ys = refl
  unmarked-append (x ∷ xs) ys = elim (Bool-cases (is_marked words x)) [
    | inl m ↦ rw m (unmarked-append xs ys)
    | inr m ↦ rw m (ap (λ zs. x ∷ zs) (unmarked-append xs ys))
  ]

  nodes-append :
      (start next m n : ℕ)
      → next ≡ start + 32 * m
      → nodes start (m + n) ≡ nodes start m ++ nodes next n
  unfolding nodes
  nodes-append start next zero n e =
      let none : 0 + n ≡ n = omega arith in
      let same : next ≡ start = omega arith in rw (none, same) refl
  nodes-append start next (suc m) n e =
      let one : suc m + n ≡ suc (m + n) = omega arith in
      rw one (ap (λ zs. start ∷ zs) (nodes-append (start + node_size) next m n (omega arith)))

  no-nodes : (obj : ℕ) (l : LocalAlloc) → free_all (unmarked words (nodes obj (32 * 0))) l ≡ ok l
  unfolding free_all unmarked nodes
  no-nodes obj l = refl

  -- The words of `k` times 32 nodes.
  sweep_words-frees :
      (k fuel h_ptr obj end : ℕ) (l : LocalAlloc)
      → k < fuel
      → end ≡ obj + 1024 * k
      → (1 ≤ k
          → (h_ptr ≡ mark_word obj) × (obj % 1024 ≡ 0) × (obj % chunk_size + 1024 * k ≤ chunk_size))
      → sweep_words slots os words fuel h_ptr obj end l
        ≡ free_all (unmarked words (nodes obj (32 * k))) l
  unfolding sweep_words
  sweep_words-frees k zero h_ptr obj end l lt e here = absurd (omega arith)
  sweep_words-frees zero (suc f) h_ptr obj end l lt e here =
      let over : ltb obj end ≡ false = ground arith in rw over (sym (no-nodes obj l))
  sweep_words-frees (suc k) (suc f) h_ptr obj end l lt e here =
      let (w, al, fits) = here (omega arith) in
      let rest = λ (l' : LocalAlloc).
        sweep_words-frees k f (h_ptr + 8) (obj + 1024) end l' (omega arith) (omega arith) (λ more.
          let (w', al', fits') = word-next obj k more al fits in
          (omega (arith, w, w'), al', fits')) in
      let split : 32 * suc k ≡ 32 + 32 * k = omega arith in
      rw
        (
          lt→ltb obj end (omega arith),
          split,
          nodes-append obj (obj + 1024) 32 (32 * k) (omega arith),
          unmarked-append (nodes obj 32) (nodes (obj + 1024) (32 * k)),
          free_all-append (unmarked words (nodes obj 32))
              (unmarked words (nodes (obj + 1024) (32 * k))) l,
          sweep_bits-frees 32 0 (words h_ptr) obj l (omega arith) (λ more. (al, ap words w)),
        )
        (ap (λ g. free_all (unmarked words (nodes obj 32)) l >>= g) (fun_ext rest))

  sweep_at-frees :
      (page : ℕ) (l : LocalAlloc)
      → page % sweep_page ≡ 0
      → sweep_at slots os words page l ≡ free_all (unmarked words (page_nodes page)) l
  unfolding sweep_at
  sweep_at-frees page l e = elim (Bool-cases (page % chunk_size == 0)) [
    | inl m ↦
        let z : page % chunk_size ≡ 0 = ground arith in
        rw (m, test_eq page (page - page % chunk_size) (omega (arith, z)))
          (sweep_words-frees 60 65 _ (page + header_size) (page + sweep_page) l (omega arith)
            (omega arith) (λ more. (first-word page z, omega (arith, z), omega (arith, z))))
    | inr m ↦
        let z : page % chunk_size ≢ 0 = ground arith in
        rw (m, test_ne page (page - page % chunk_size) (omega (arith, z)))
          (sweep_words-frees 64 65 _ page (page + sweep_page) l (omega arith) (omega arith)
            (λ more. (any-word page e, omega arith, omega arith)))
  ]

  -- Whatever the state of the caches, and whatever the others do to the pool before and during each return, sweeping a
  -- page whose chunk is aligned is to free, one after the other, the nodes of the page outside the
  -- header whose mark, as `get_mark_params` finds it, is clear.
  pub process_sweep_page-frees :
      (heapmem : ℕ → ℕ) (page_number : ℕ) (l : LocalAlloc)
      → heapmem (page_number / sweep_pages_per_chunk) % chunk_size ≡ 0
      → process_sweep_page slots os words heapmem page_number l
        ≡ free_all (unmarked words (page_nodes (page_address heapmem page_number))) l
  unfolding process_sweep_page page_address
  process_sweep_page-frees heapmem page_number l al =
      sweep_at-frees (page_address heapmem page_number) l (omega arith)
