-- ===== src/Tests/MarkTests.antt =====
-- The mark bits and the sweep at concrete inputs.
use automatic_optimistic_acc.Base.{
  ℕ, ◌+◌, ◌*◌, ok, ◌≡◌, ◌^◌, refl, false, Option, none, some, List, [], ◌∷◌, arith, Returns,
}
use automatic_optimistic_acc.Marks.{mark, clear_marks, shifted, Header, chunk_size}
use automatic_optimistic_acc.Marks.Claim.{Claimed, mark-Claimed}
use automatic_optimistic_acc.Marks.Clear.{AllCleared, clear_marks-AllCleared}
use automatic_optimistic_acc.Pool.{LocalAlloc, Collect}
use automatic_optimistic_acc.Sweep.{process_sweep_page, page_address}
use automatic_optimistic_acc.Sweep.Pages.{process_sweep_page-frees, free_all, unmarked, page_nodes}

-- Bit 3, in a word of phase 2 that another thread writes once.
mark-Claimed_example :
    Claimed 3
      (2 * 2 ^ 32)
      none
      (some (2 * 2 ^ 32 + 1) ∷ [])
      (2 * 2 ^ 32)
      (mark 3 (2 * 2 ^ 32) none (some (2 * 2 ^ 32 + 1) ∷ []) (2 * 2 ^ 32))
mark-Claimed_example =
    mark-Claimed 3 (2 * 2 ^ 32) (omega arith) none (some (2 * 2 ^ 32 + 1) ∷ []) (2 * 2 ^ 32)

abbrev other_words : Header
other_words i = i

abbrev quiet : ℕ → List (Option ℕ)
quiet i = []

clear_marks-AllCleared_example :
    Returns
      (clear_marks 4 1 2 (λ c. quiet) (other_words ∷ []))
      (AllCleared (shifted 2) (other_words ∷ []))
clear_marks-AllCleared_example =
    clear_marks-AllCleared 4 1 2 (λ c. quiet) (other_words ∷ []) (omega arith)

abbrev slots : ℕ → ℕ
slots i = 16 + 1024 * i

-- A thread whose cache holds two nodes, with an entry of one node in the pool.
abbrev two_nodes : LocalAlloc
two_nodes = record {
  local_ver = 2;
  alloc_cache = some (record { address = 1; ptrs = 4096 ∷ 4128 ∷ [] });
  free_list = [];
  next_slot = 0;
  pool = record { entries = record { address = 2; ptrs = 8192 ∷ [] } ∷ []; ver = 2 };
}

abbrev no_collection : Collect
no_collection l = ok (l, false)

abbrev chunks : ℕ → ℕ
chunks i = chunk_size * (i + 1)

process_sweep_page-frees_example :
    process_sweep_page slots (λ x. (none, [])) other_words chunks 3 two_nodes
    ≡ free_all slots
        (λ x. (none, []))
        other_words
        (unmarked other_words (page_nodes (page_address chunks 3)))
        two_nodes
process_sweep_page-frees_example =
    process_sweep_page-frees slots (λ x. (none, [])) other_words chunks 3 two_nodes refl
