-- ===== src/Arrays/Register.antt =====
-- Registering roots: how many there may be, and whether the mark table of an array is large enough.
use automatic_optimistic_acc.Base.{ℕ, suc, ◌+◌, ◌*◌, ◌/◌, ◌≤◌, ◌<◌, ◌≡◌, ◌≢◌}
use automatic_optimistic_acc.Arrays.{Roots, arr_entries_per_bit}

-- The root `root` of `len` entries is the last of `r'`, which are otherwise the roots `r`; the mark table has the
-- counter and a word for each chunk if there is more than one entry.
pub record Registered (root len : ℕ) (r r' : Roots) : Type 0 where
  pub counted : r'.current_root ≡ suc r.current_root
  pub last : (r'.roots r.current_root ≡ root) × (r'.root_len r.current_root ≡ len)
  pub earlier :
      (i : ℕ)
      → i ≢ r.current_root
      → (r'.roots i ≡ r.roots i) × (r'.root_len i ≡ r.root_len i) × (r'.marktable i ≡ r.marktable i)
  pub room :
      (c : ℕ)
      → 1 < len
      → arr_entries_per_bit * c < len
      → 8 + 8 * (c / 32) + 8 ≤ r'.marktable r.current_root
