-- ===== src/Trace/Finish.antt =====
-- The steps that a thread needs to empty its own mark stack, whatever the other threads do.
use native.Mathlib.Decide.{ℕ_discrete}
use automatic_optimistic_acc.Base.{
  In, ℕ, zero, suc, ◌+◌, ◌*◌, ◌≤◌, ◌<◌, ◌≡◌, ◌⊎◌, inl, inr, refl, false, List, arith, ◌==◌,
  Bool-cases, ==_iff, test_eq, test_ne, sym, subst,
}
use automatic_optimistic_acc.Lfl.{update}
use automatic_optimistic_acc.Marks.{mark_word, mark_bit, has_bit, is_cur_phase}
use automatic_optimistic_acc.Trace.{
  Pc, idle, pop, read_word, publish, read_child, write_child, mark_first, mark_read, mark_swap,
  undo, finish, done, Thread, Heap, child, won, lost, set_mark, step_at,
}
use automatic_optimistic_acc.Trace.Marking.{set_mark-Marked, set_mark-keeps}
use automatic_optimistic_acc.Trace.Measure.{unmarked, height, rank, distance, unmarked_lt}

-- The node's bit is clear in the word.
abbrev Clear : (old cur : ℕ) → Type 0
Clear old cur = has_bit old (mark_bit cur) ≡ false

module _ (nodes : List ℕ) where
  -- The pointers at 1 to `c` of a mark stack are among the nodes.
  abbrev pub Held : (stack : ℕ → ℕ) (c : ℕ) → Type 0
  Held stack c = (j : ℕ) → 1 ≤ j → j ≤ c → In (stack j) nodes

  abbrev Pushed : (stack : ℕ → ℕ) (c nxt : ℕ) → Type 0
  Pushed stack c nxt = (nxt ≡ 0) ⊎ ((stack (suc c) ≡ nxt) × In nxt nodes)

  -- A thread that traces, whose pointers are among the nodes.
  abbrev pub Traces : (stack : ℕ → ℕ) → Pc → Type 0
  Traces st idle = ⊥
  Traces st (pop c) = Held st c
  Traces st (read_word cur c) = In cur nodes × Held st c
  Traces st (publish cur old c) = In cur nodes × Held st c × Clear old cur
  Traces st (read_child cur old c) = In cur nodes × Held st c × Clear old cur
  Traces st (write_child cur nxt old c) = In cur nodes × Held st c × Clear old cur × In nxt nodes
  Traces st (mark_first cur nxt old c) = In cur nodes × Held st c × Clear old cur × Pushed st c nxt
  Traces st (mark_read cur nxt c) = In cur nodes × Held st c × Pushed st c nxt
  Traces st (mark_swap cur nxt old c) = In cur nodes × Held st c × Clear old cur × Pushed st c nxt
  Traces st (undo c) = Held st c
  Traces st finish = Unit {0}
  Traces st done = Unit {0}

  -- After a step of a thread that was at `pc`: it is nearer to its end, if it was not there, and the step is
  -- no more than others allow for.
  abbrev pub Nearer : Heap → Pc → Heap × Thread → Type 0
  Nearer m pc r =
      Traces (r.1).markstack (r.1).pc
      × ((pc ≡ done) ⊎ (distance nodes r.0 (r.1).pc < distance nodes m pc))
      × (((a : ℕ) → (r.0).words a ≡ m.words a) ⊎ (unmarked r.0 nodes < unmarked m nodes))

  pub Held-below : (st : ℕ → ℕ) (c v : ℕ) → Held st c → Held (update st (suc c) v) c
  Held-below st c v h j lo le = rw (test_ne j (suc c) (omega arith)) (h j lo le)

  Held-bottom : (st : ℕ → ℕ) (c v : ℕ) → Held st c → Held (update st 0 v) c
  Held-bottom st c v h j lo le = rw (test_ne j 0 (omega arith)) (h j lo le)

  pub Held-more : (st : ℕ → ℕ) (c v : ℕ) → Held st c → st (suc c) ≡ v → In v nodes → Held st (suc c)
  Held-more st c v h e i j lo le = elim (ℕ_discrete j (suc c)) [
    | yes q ↦ rw (q, e) i
    | no q ↦ h j lo (omega arith)
  ]

  lost-Traces : (st : ℕ → ℕ) (nxt c : ℕ) → Held st c → Traces st (lost nxt c)
  unfolding lost
  lost-Traces st nxt c h = elim (Bool-cases (nxt == 0)) [ inl e ↦ rw e h | inr e ↦ rw e h ]

  lost-distance :
      (m : Heap) (nxt c : ℕ) → distance nodes m (lost nxt c) ≤ 32 * unmarked m nodes + 16 * c + 3
  unfolding lost
  lost-distance m nxt c = elim (Bool-cases (nxt == 0)) [
    | inl e ↦ rw e (omega arith)
    | inr e ↦ rw e (omega arith)
  ]

  won-Traces : (st : ℕ → ℕ) (nxt c : ℕ) → Held st c → Pushed st c nxt → Traces st (won nxt c)
  unfolding won
  won-Traces st nxt c h (inl e) = rw (test_eq nxt 0 e) h
  won-Traces st nxt c h (inr (e, i)) = elim (Bool-cases (nxt == 0)) [
    | inl z ↦ rw z h
    | inr z ↦ rw z (Held-more st c nxt h e i)
  ]

  won-distance :
      (m : Heap) (nxt c : ℕ) → distance nodes m (won nxt c) ≤ 32 * unmarked m nodes + 16 * c + 18
  unfolding won
  won-distance m nxt c = elim (Bool-cases (nxt == 0)) [
    | inl e ↦ rw e (omega arith)
    | inr e ↦ rw e (omega arith)
  ]

  -- A successful swap marks a node that was not marked.
  set_mark-less :
      (m : Heap) (cur old : ℕ)
      → In cur nodes
      → Clear old cur
      → m.words (mark_word cur) ≡ old
      → unmarked (set_mark m cur old) nodes < unmarked m nodes
  set_mark-less m cur old i clear now =
      unmarked_lt m (set_mark m cur old) cur nodes (λ n e. set_mark-keeps m cur old now n e) i
        (rw now clear) (set_mark-Marked m cur old now)

  swapped :
      (m : Heap) (st : ℕ → ℕ) (cur nxt old c : ℕ) (th : Thread) (pc : Pc)
      → th.markstack ≡ st
      → height pc ≡ c
      → 4 ≤ rank m pc
      → In cur nodes × Held st c × Clear old cur × Pushed st c nxt
      → m.words (mark_word cur) ≡ old
      → Nearer m pc (set_mark m cur old, record th { pc = won nxt c })
  swapped m st cur nxt old c th pc same high above (i, h, clear, pushed) now =
      let less = set_mark-less m cur old i clear now in
      let near = won-distance (set_mark m cur old) nxt c in
      (rw same (won-Traces st nxt c h pushed), inr (omega arith), inr less)

  -- A step that writes no mark.
  quiet :
      (m : Heap) (pc : Pc) (st : ℕ → ℕ) (pc' : Pc)
      → Traces st pc'
      → distance nodes m pc' < distance nodes m pc
      → Nearer m pc (m, record { markstack = st; pc = pc' })
  quiet m pc st pc' t less = (t, inr less, inl (λ a. refl))

  pub step_at-Nearer :
      (p : ℕ) (m : Heap) (th : Thread) (pc : Pc)
      → ((n : ℕ) → In n nodes → (child m n ≡ 0) ⊎ In (child m n) nodes)
      → Traces th.markstack pc
      → Nearer m pc (step_at p m th pc)
  unfolding step_at
  step_at-Nearer p m th idle closed t = elim t [ ]
  step_at-Nearer p m th (pop zero) closed t =
      quiet m (pop zero) th.markstack finish tt (omega arith)
  step_at-Nearer p m th (pop (suc c)) closed t =
      quiet m (pop (suc c)) th.markstack (read_word (th.markstack (suc c)) c)
        (t (suc c) (omega arith) (omega arith), λ j lo le. t j lo (omega arith)) (omega arith)
  step_at-Nearer p m th (read_word cur c) closed (i, h) =
      elim (Bool-cases (has_bit (m.words (mark_word cur)) (mark_bit cur))) [
        | inl e ↦ rw e (quiet m (read_word cur c) th.markstack (pop c) h (omega arith))
        | inr e ↦ rw e (
            quiet m (read_word cur c) th.markstack (publish cur (m.words (mark_word cur)) c)
              (i, h, e) (omega arith))
      ]
  step_at-Nearer p m th (publish cur old c) closed (i, h, clear) =
      quiet m (publish cur old c) (update th.markstack 0 cur) (read_child cur old c)
        (i, Held-bottom th.markstack c cur h, clear) (omega arith)
  step_at-Nearer p m th (read_child cur old c) closed (i, h, clear) =
      elim (Bool-cases (child m cur == 0)) [
        | inl e ↦ rw e (
            quiet m (read_child cur old c) th.markstack (mark_first cur 0 old c)
              (i, h, clear, inl refl) (omega arith))
        | inr e ↦ rw e (
            let there : In (child m cur) nodes = elim (closed cur i) [
              | inl z ↦ absurd (ground (arith, z, e))
              | inr k ↦ k
            ] in
            quiet m (read_child cur old c) th.markstack (write_child cur (child m cur) old c)
              (i, h, clear, there) (omega arith))
      ]
  step_at-Nearer p m th (write_child cur nxt old c) closed (i, h, clear, k) =
      quiet m (write_child cur nxt old c) (update th.markstack (suc c) nxt)
        (mark_first cur nxt old c)
        (i, Held-below th.markstack c nxt h, clear, inr (rw (test_eq (suc c) (suc c) refl) refl, k))
        (omega arith)
  step_at-Nearer p m th (mark_first cur nxt old c) closed t =
      let near = lost-distance m nxt c in
      elim (Bool-cases (is_cur_phase old p)) [
        | inl e ↦ elim (Bool-cases (m.words (mark_word cur) == old)) [
          | inl f ↦
              rw (e, f)
                (swapped m th.markstack cur nxt old c th (mark_first cur nxt old c) refl refl
                  (omega arith) t ((==_iff _ _).0 f))
          | inr f ↦
              rw (e, f)
                (quiet m (mark_first cur nxt old c) th.markstack (mark_read cur nxt c)
                  (t.0, t.1, t.3) (omega arith))
        ]
        | inr e ↦ rw e (
            quiet m (mark_first cur nxt old c) th.markstack (lost nxt c)
              (lost-Traces th.markstack nxt c t.1) (omega arith))
      ]
  step_at-Nearer p m th (mark_read cur nxt c) closed (i, h, pushed) =
      let old = m.words (mark_word cur) in
      let near = lost-distance m nxt c in
      let stop =
        quiet m (mark_read cur nxt c) th.markstack (lost nxt c) (lost-Traces th.markstack nxt c h)
          (omega arith) in
      elim (Bool-cases (has_bit old (mark_bit cur))) [
        | inl e ↦ rw e stop
        | inr e ↦ elim (Bool-cases (is_cur_phase old p)) [
          | inl f ↦
              rw (e, f)
                (quiet m (mark_read cur nxt c) th.markstack (mark_swap cur nxt old c)
                  (i, h, e, pushed) (rw (test_eq old old refl) (omega arith)))
          | inr f ↦ rw (e, f) stop
        ]
      ]
  step_at-Nearer p m th (mark_swap cur nxt old c) closed t =
      let pc = mark_swap cur nxt old c in
      elim (Bool-cases (m.words (mark_word cur) == old)) [
        | inl f ↦
            let ran : step_at p m th pc ≡ (set_mark m cur old, record th { pc = won nxt c }) =
              rw f refl in
            subst (Nearer m pc) (sym ran) (
              swapped m th.markstack cur nxt old c th pc refl refl (rw f (omega arith)) t
                ((==_iff _ _).0 f))
        | inr f ↦
            let ran : step_at p m th pc ≡ (m, record th { pc = mark_read cur nxt c }) = rw f refl in
            subst (Nearer m pc) (sym ran)
              (quiet m pc th.markstack (mark_read cur nxt c) (t.0, t.1, t.3) (rw f (omega arith)))
      ]
  step_at-Nearer p m th (undo c) closed h =
      quiet m (undo c) (update th.markstack (suc c) 0) (pop c) (Held-below th.markstack c 0 h)
        (omega arith)
  step_at-Nearer p m th finish closed t = (tt, inr (omega arith), inl (λ a. refl))
  step_at-Nearer p m th done closed t = (tt, inl refl, inl (λ a. refl))
