-- ===== src/Marks/Params.antt =====
-- Where the mark of a node lies: inside the header of its chunk, and nowhere else than the mark of
-- another node.
use automatic_optimistic_acc.Base.{ℕ, ◌+◌, ◌-◌, ◌%◌, ◌≤◌, ◌<◌, ◌≡◌, arith}
use automatic_optimistic_acc.Marks.{chunk_size, node_size, header_size, mark_word, mark_bit}

-- The word is an aligned word of the header of the node's chunk, and the bit one of its low 32.
pub mark_word_bounds :
    (ptr : ℕ)
    → (ptr - ptr % chunk_size ≤ mark_word ptr)
      × (mark_word ptr + 8 ≤ ptr - ptr % chunk_size + header_size)
      × (mark_word ptr % 8 ≡ 0)
      × (mark_bit ptr < 32)
unfolding mark_word mark_bit
mark_word_bounds ptr = omega arith

-- Two nodes, aligned to the size of a node, never share a mark bit.
pub mark_params_injective :
    (p q : ℕ)
    → p % node_size ≡ 0
    → q % node_size ≡ 0
    → mark_word p ≡ mark_word q
    → mark_bit p ≡ mark_bit q
    → p ≡ q
unfolding mark_word mark_bit
mark_params_injective p q hp hq hw hb = omega arith
