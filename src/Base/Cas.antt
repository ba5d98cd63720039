-- ===== src/Base/Cas.antt =====
-- Compare-and-swap loops: `do { old = *p; … } while (!CAS(p, old, new))`. What other threads do to
-- the word is a list of interferences, one for each attempt: between its read and its swap the
-- word may be overwritten. The loop runs until an attempt is not disturbed, or it stops by itself.
use mathlib.Core.Path.{◌≡◌, refl, sym, subst}
use mathlib.Core.Bool.{Bool}
use mathlib.Core.List.{List, [], ◌∷◌}
use mathlib.Core.Logic.{◌⊎◌, inl, inr}
use mathlib.Core.Option.{Option, none, some}
use automatic_optimistic_acc.Base.Tests.{Bool-cases, if◌then◌else◌}

-- What the body of the loop decides from the value that it has read.
pub data Decision (S R : Type 0) : Type 0 where
  stop : R → Decision S R
  swap : S → R → Decision S R

-- The value that the decision leaves in the word, and the result.
abbrev pub decided : {S R : Type 0} → S → Decision S R → S × R
decided v (stop r) = (v, r)
decided v (swap v' r) = (v', r)

abbrev pub disturb : {S : Type 0} → Option S → S → S
disturb none v = v
disturb (some w) v = w

abbrev pub result_of : {S R : Type 0} → Decision S R → R
result_of (stop r) = r
result_of (swap v r) = r

module _ {S R : Type 0} (equal : S → S → Bool) (body : S → Decision S R) where
  -- One attempt that has read `old`, with the word now at `now`.
  abbrev attempt : Decision S R → (old now : S) → S × R → S × R
  attempt (stop r) old now rest = (old, r)
  attempt (swap new r) old now rest = if equal now old then (new, r) else rest

  unfoldable pub cas_loop : List (Option S) → S → S × R
  cas_loop [] v = decided v (body v)
  cas_loop (o ∷ os) v =
      let rest = cas_loop os (disturb o v) in attempt (body v) v (disturb o v) rest

  -- A value that an attempt of the loop reads.
  abbrev pub Taken : List (Option S) → (v w : S) → Type 0
  Taken [] v w = w ≡ v
  Taken (o ∷ os) v w = (w ≡ v) ⊎ Taken os (disturb o v) w

  -- Whatever the others do, the loop acts as its body does on one value of the word, in one step.
  pub cas_loop_atomic :
      (os : List (Option S)) (v : S) → (w : S) × Taken os v w × (cas_loop os v ≡ decided w (body w))
  unfolding cas_loop
  cas_loop_atomic [] v = (v, refl, refl)
  cas_loop_atomic (o ∷ os) v =
      let (w, t, e) = cas_loop_atomic os (disturb o v) in go (body v) refl w t e
    where
      go :
          (d : Decision S R)
          → body v ≡ d
          → (w : S) → Taken os (disturb o v) w
          → cas_loop os (disturb o v) ≡ decided w (body w)
          → (w : S) × Taken (o ∷ os) v w
            × (attempt (body v) v (disturb o v) (cas_loop os (disturb o v)) ≡ decided w (body w))
      go (stop r) b w t e = (v, inl refl, rw b)
      go (swap new r) b w t e = elim (Bool-cases (equal (disturb o v) v)) [
        | inl same ↦ (v, inl refl, rw (b, same))
        | inr moved ↦ (w, inr t, rw (b, moved) e)
      ]

  -- A fact about the outcome that holds from every value of the word holds of the loop.
  pub cas_loop_all :
      (P : S × R → Type 0)
      → ((w : S) → P (decided w (body w)))
      → (os : List (Option S)) (v : S) → P (cas_loop os v)
  cas_loop_all P each os v = let (w, t, e) = cas_loop_atomic os v in subst P (sym e) (each w)
