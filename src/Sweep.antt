-- ===== src/Sweep.antt =====
-- Sweeping in trace.c: a thread takes pages of the heap by a shared counter and frees the nodes of a
-- page whose mark bit is clear. `words` are the mark words as the thread reads them, by address;
-- `heapmem` gives the addresses of the chunks.
pub mod Pages
pub mod Counter
use automatic_optimistic_acc.Base.{
  ℕ, zero, suc, ◌+◌, ◌-◌, ◌*◌, ◌/◌, ◌%◌, ◌^◌, Bool, true, false, ◌||◌, not, Option, none, some,
  List, ltb, leb, ◌==◌, if◌then◌else◌, Outcome, ok, out_of_fuel, ◌>>=◌,
}
use automatic_optimistic_acc.Base.Cas.{Decision, stop, swap, disturb, cas_loop}
use automatic_optimistic_acc.Marks.{chunk_size, node_size, mem_per_byte, header_size, has_bit}
use automatic_optimistic_acc.Pool.{VerEntry, AllocEntry, LocalAlloc, set_as_free, return_cache}

abbrev pub sweep_page : ℕ
sweep_page = 2 ^ 16

abbrev pub sweep_pages_per_chunk : ℕ
sweep_pages_per_chunk = chunk_size / sweep_page

-- The address of a page.
unfoldable pub page_address : (heapmem : ℕ → ℕ) (page_number : ℕ) → ℕ
page_address heapmem page_number =
    heapmem (page_number / sweep_pages_per_chunk) + page_number % sweep_pages_per_chunk * sweep_page

-- `PHASE` and `SCOUNTER`
abbrev pub phase_of : ℕ → ℕ
phase_of w = w / 2 ^ 32

abbrev pub count_of : ℕ → ℕ
count_of w = w % 2 ^ 32

-- Taking a page: no page when another phase has begun, or all pages are taken.
unfoldable pub take_body : (phase pages w : ℕ) → Decision ℕ (Option ℕ)
take_body phase pages w =
    if not (phase_of w == phase) || leb pages (count_of w)
    then stop none
    else swap (w + 1) (some (count_of w))

-- The words of a page, and one more round to see its end.
abbrev pub page_fuel : ℕ
page_fuel = 65

abbrev pub ignores : ℕ
ignores = header_size / (mem_per_byte * 8)

-- What others do to the pool around the freeing of a node: before it, and at each attempt to return a cache in it. A
-- sweep frees a node at most once, so the node's address names the place; 0, which is no node, names the end.
abbrev pub Meanwhile : Type 0
Meanwhile = ℕ → Option VerEntry × List (Option VerEntry)

abbrev pub met : Meanwhile → (obj : ℕ) → LocalAlloc → LocalAlloc
met os obj l = record l { pool = disturb (os obj).0 l.pool }

module _ (slots : ℕ → ℕ) (os : Meanwhile) (words : ℕ → ℕ) where
  -- The loop over the bits of a word, from `bit` on.
  unfoldable pub sweep_bits : (count bit word obj : ℕ) → LocalAlloc → Outcome LocalAlloc
  sweep_bits zero bit word obj l = ok l
  sweep_bits (suc n) bit word obj l =
      (if has_bit word bit then ok l else set_as_free slots (os obj).1 (met os obj l) obj)
      >>= sweep_bits n (bit + 1) word (obj + node_size)

  -- The loop over the words of a page.
  unfoldable pub sweep_words : (fuel h_ptr obj end : ℕ) → LocalAlloc → Outcome LocalAlloc
  unfolding sweep_bits
  sweep_words zero h_ptr obj end l = out_of_fuel
  sweep_words (suc fuel) h_ptr obj end l =
      if ltb obj end
      then sweep_bits 32 0 (words h_ptr) obj l
        >>= sweep_words fuel (h_ptr + 8) (obj + 32 * node_size) end
      else ok l

  -- `process_sweep_page`, from the page's address on.
  unfoldable pub sweep_at : (page : ℕ) → LocalAlloc → Outcome LocalAlloc
  unfolding sweep_words
  sweep_at page l =
      let base = page - page % chunk_size in
      let h_ptr = base + page % chunk_size / mem_per_byte in
      if page == base
      then sweep_words page_fuel (h_ptr + ignores * 8) (page + header_size) (page + sweep_page) l
      else sweep_words page_fuel h_ptr page (page + sweep_page) l

  unfoldable pub process_sweep_page :
      (heapmem : ℕ → ℕ) (page_number : ℕ) → LocalAlloc → Outcome LocalAlloc
  unfolding page_address sweep_at
  process_sweep_page heapmem page_number l = sweep_at (page_address heapmem page_number) l

  -- The end of `sweep`: what is left of the cache is returned, or dropped with it.
  unfoldable pub finish_sweep : LocalAlloc → LocalAlloc
  finish_sweep l = elim l.alloc_cache [
    | none ↦ l
    | some c ↦ record (return_cache (os 0).1 (met os 0 l) c) { alloc_cache = none }
  ]

  -- The loop of `sweep`; `counts` are the interferences on the counter, for each page taken.
  unfoldable pub sweep_loop :
      (fuel : ℕ) (heapmem : ℕ → ℕ) (pages : ℕ) (counts : ℕ → List (Option ℕ)) (counter : ℕ)
      → LocalAlloc
      → Outcome (ℕ × LocalAlloc)
  unfolding take_body process_sweep_page finish_sweep cas_loop
  sweep_loop zero heapmem pages counts counter l = out_of_fuel
  sweep_loop (suc fuel) heapmem pages counts counter l =
      let (counter', taken) =
        cas_loop ◌==◌ (take_body (l.local_ver % 2 ^ 32) pages) (counts fuel) counter in
      elim taken [
        | none ↦ ok (counter', finish_sweep l)
        | some n ↦ process_sweep_page heapmem n l >>= sweep_loop fuel heapmem pages counts counter'
      ]

  unfoldable pub sweep :
      (fuel : ℕ) (heapmem : ℕ → ℕ) (heapmemcnt : ℕ) (counts : ℕ → List (Option ℕ)) (counter : ℕ)
      → LocalAlloc
      → Outcome (ℕ × LocalAlloc)
  unfolding sweep_loop
  sweep fuel heapmem heapmemcnt counts counter l =
      sweep_loop fuel heapmem (heapmemcnt * sweep_pages_per_chunk) counts counter
        (record l { alloc_cache = none })
