-- ===== src/Trace/WaitFree.antt =====
-- The own steps of a tracing thread from its beginning to its first `CheckFinish`, and what the other threads may do meanwhile.
use automatic_optimistic_acc.Base.{
  In, ℕ, zero, suc, ◌+◌, ◌≤◌, ◌≡◌, ◌⊎◌, inl, inr, refl, List, [], ◌∷◌, arith, ◌==◌, Bool-cases,
  ==_iff, subst,
}
use automatic_optimistic_acc.Lfl.{update}
use automatic_optimistic_acc.Marks.{mark_word, is_cur_phase}
use automatic_optimistic_acc.Trace.{
  Pc, pop, mark_first, mark_swap, done, Thread, Heap, child, unmark, set_mark, step_at, step,
}
use automatic_optimistic_acc.Trace.Measure.{distance, Interferes, distance-Interferes}
use automatic_optimistic_acc.Trace.Finish.{Traces, step_at-Nearer}

module _ (nodes : List ℕ) where
  -- `n` steps of a thread, each preceded by interference of the others.
  pub data Run (p : ℕ) (m : Heap) (th : Thread) : (n : ℕ) → Heap → Thread → Type 0 where
    stays : Run p m th 0 m th
    turns :
        {n : ℕ} {m' m'' : Heap} {th' : Thread}
        → Run p m th n m' th'
        → Interferes nodes m' m''
        → Run p m th (suc n) (step p m'' th').0 (step p m'' th').1

  step-done : (p : ℕ) (m : Heap) (th : Thread) → th.pc ≡ done → (step p m th).1.pc ≡ done
  unfolding step step_at
  step-done p m th e = rw e refl

  -- After `n` steps a thread has ended, or is at least `n` nearer to its end.
  pub Run-distance :
      (p : ℕ) (m : Heap) (th : Thread) (n : ℕ) (m' : Heap) (th' : Thread)
      → Traces nodes th.markstack th.pc
      → Run p m th n m' th'
      → Traces nodes th'.markstack th'.pc
        × ((th'.pc ≡ done) ⊎ (distance nodes m' th'.pc + n ≤ distance nodes m th.pc))
  unfolding step
  Run-distance p m th _ _ _ t stays = (t, inr (omega arith))
  Run-distance p m th _ _ _ t (turns {n} {m'} {m''} {th'} r i) =
      let (t', far) = Run-distance p m th n m' th' t r in
      let (t'', nearer, _) = step_at-Nearer nodes p m'' th' th'.pc i.closed t' in
      let others = distance-Interferes nodes m' m'' th'.pc i in
      (
        t'',
        elim far [
          | inl e ↦ inl (step-done p m'' th' e)
          | inr le ↦ elim nearer [
            | inl e ↦ inl (step-done p m'' th' e)
            | inr lt ↦ inr (omega arith)
          ]
        ],
      )

-- All of the pointers are among the nodes.
abbrev pub Within : (nodes ps : List ℕ) → Type 0
Within nodes [] = Unit {0}
Within nodes (p ∷ ps) = In p nodes × Within nodes ps

-- The child of a node is a node, or none.
abbrev pub Closed : List ℕ → Heap → Type 0
Closed nodes m = (n : ℕ) → In n nodes → (child m n ≡ 0) ⊎ In (child m n) nodes

-- A step writes no link.
pub step_at-link : (p : ℕ) (m : Heap) (th : Thread) (pc : Pc) → (step_at p m th pc).0.link ≡ m.link
unfolding step_at set_mark
step_at-link p m th (pop zero) = refl
step_at-link p m th (pop (suc c)) = refl
step_at-link p m th (mark_first cur nxt old c) = elim (Bool-cases (is_cur_phase old p)) [
  | inl e ↦ elim (Bool-cases (m.words (mark_word cur) == old)) [
    | inl f ↦ rw (e, f) refl
    | inr f ↦ rw (e, f) refl
  ]
  | inr e ↦ rw e refl
]
step_at-link p m th (mark_swap cur nxt old c) = elim (Bool-cases (m.words (mark_word cur) == old)) [
  | inl f ↦ rw f refl
  | inr f ↦ rw f refl
]
step_at-link p m th _ = refl

-- A step of a tracing thread is interference that the others allow for.
pub step-Interferes :
    (p : ℕ) (nodes : List ℕ) (m : Heap) (th : Thread)
    → Closed nodes m
    → Traces nodes th.markstack th.pc
    → Interferes nodes m (step p m th).0
unfolding step
step-Interferes p nodes m th closed t = record {
  moves = (step_at-Nearer nodes p m th th.pc closed t).2;
  closed = λ n i. rw (step_at-link p m th th.pc) (closed n i);
}

-- So is a store of a link to one of the nodes, or to none, or to the child that is there already.
pub mutate-Interferes :
    (nodes : List ℕ) (m : Heap) (a v : ℕ)
    → Closed nodes m
    → (unmark v ≡ 0) ⊎ (In (unmark v) nodes ⊎ (unmark v ≡ child m a))
    → Interferes nodes m (record m { link = update m.link a v })
mutate-Interferes nodes m a v closed w = record {
  moves = inl (λ b. refl);
  closed = λ n i. elim (Bool-cases (n == a)) [
    | inl e ↦ rw e (elim w [
      | inl z ↦ inl z
      | inr (inl k) ↦ inr k
      | inr (inr same) ↦
          rw same
            (subst (λ x. (child m x ≡ 0) ⊎ In (child m x) nodes) ((==_iff n a).0 e) (closed n i))
    ])
    | inr e ↦ rw e (closed n i)
  ];
}
