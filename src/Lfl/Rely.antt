-- ===== src/Lfl/Rely.antt =====
-- Each step is one that the other threads can rely on: it leaves what their locals say true.
use native.Mathlib.Decide.{ℕ_discrete}
use automatic_optimistic_acc.Base.{
  ℕ, ◌%◌, ◌≡◌, ◌≢◌, inl, inr, ◌∙◌, ap, refl, Bool, Bool-cases, ==_iff, arith, ◌==◌,
}
use automatic_optimistic_acc.Entry.{get_key, clear_deleted}
use automatic_optimistic_acc.Lfl.{
  shared, Memory, Pc, ready, done, hit, start, read_next, unlink, read_key, revalidate, read_data,
  alloc, write_key, write_next, connect, mark, update, step, Available,
}
use automatic_optimistic_acc.Lfl.Invariant.{
  key, IsLink, Good, Before, Behind, Owns, Successor, Ok, Evolves,
}

Evolves-refl : (me : ℕ) (m : Memory) → Evolves me m m
Evolves-refl me m = record {
  stays = λ n s. s;
  same_key = λ n s. refl;
  frozen = λ n s f. refl;
  others = λ n o ne nz p. (p, refl, refl);
}

module _ {me : ℕ} {m m' : Memory} (e : Evolves me m m') where
  key-Evolves : (n : ℕ) → m.status n ≡ shared → key m' n ≡ key m n
  key-Evolves n s = ap get_key (e.same_key n s)

  Before-Evolves : (k p : ℕ) → Before m k p → Before m' k p
  Before-Evolves k p (inl z) = inl z
  Before-Evolves k p (inr (s, lt)) = inr (e.stays p s, rw (key-Evolves p s) lt)

  Behind-Evolves : (k c : ℕ) → Behind m k c → Behind m' k c
  Behind-Evolves k c (inl z) = inl z
  Behind-Evolves k c (inr (s, lt)) = inr (e.stays c s, rw (key-Evolves c s) lt)

  Successor-Evolves : (n : ℕ) → Successor m n → Successor m' n
  Successor-Evolves n (even, inl z) = (even, inl z)
  Successor-Evolves n (even, inr s) = (even, inr (e.stays n s))

  Owns-Evolves : (o n : ℕ) → o ≢ me → Owns o m n → Owns o m' n
  Owns-Evolves o n ne (s, nz, even) = ((e.others n o ne nz s).0, nz, even)

  -- What another thread knows stays true.
  pub Ok-Evolves : (o : ℕ) → o ≢ me → (pc : Pc) → Ok o m pc → Ok o m' pc
  Ok-Evolves o ne (start t) k = k
  Ok-Evolves o ne (read_next t prev cur) (k, b, s) = (k, Before-Evolves _ _ b, e.stays cur s)
  Ok-Evolves o ne (unlink t prev cur next) (k, b, s, odd, at) =
      (k, Before-Evolves _ _ b, e.stays cur s, odd, e.frozen cur s (rw at odd) ∙ at)
  Ok-Evolves o ne (read_key t prev cur next) (k, b, s, n) =
      (k, Before-Evolves _ _ b, e.stays cur s, Successor-Evolves next n)
  Ok-Evolves o ne (revalidate t prev cur next ckey) (k, b, s, n, c) =
      (k, Before-Evolves _ _ b, e.stays cur s, Successor-Evolves next n, key-Evolves cur s ∙ c)
  Ok-Evolves o ne (read_data k cur) s = e.stays cur s
  Ok-Evolves o ne (alloc k d prev cur) (l, b, c) = (l, Before-Evolves _ _ b, Behind-Evolves _ _ c)
  Ok-Evolves o ne (write_key k d prev cur new) (l, b, c, w) =
      (l, Before-Evolves _ _ b, Behind-Evolves _ _ c, Owns-Evolves o new ne w)
  Ok-Evolves o ne (write_next k d prev cur new) (l, b, c, w, q) = (
    l,
    Before-Evolves _ _ b,
    Behind-Evolves _ _ c,
    Owns-Evolves o new ne w,
    (e.others new o ne w.1 w.0).2 ∙ q,
  )
  Ok-Evolves o ne (connect k d prev cur new) (l, b, c, w, q, r) = (
    l,
    Before-Evolves _ _ b,
    Behind-Evolves _ _ c,
    Owns-Evolves o new ne w,
    (e.others new o ne w.1 w.0).2 ∙ q,
    (e.others new o ne w.1 w.0).1 ∙ r,
  )
  Ok-Evolves o ne (mark k cur next) (l, s, c, n) = (l, e.stays cur s, key-Evolves cur s ∙ c, n)
  Ok-Evolves o ne ready k = tt
  Ok-Evolves o ne (done t b) k = tt
  Ok-Evolves o ne (hit k d) c = tt

-- A write that finds an unmarked word does not touch a marked one.
pub Before-IsLink : (m : Memory) (k p : ℕ) → Before m k p → IsLink m p
Before-IsLink m k p (inl z) = inl z
Before-IsLink m k p (inr (s, lt)) = inr s

write-frozen :
    (link : ℕ → ℕ) (p c v n : ℕ)
    → link p ≡ c
    → c % 2 ≡ 0
    → link n % 2 ≡ 1
    → update link p v n ≡ link n
write-frozen link p c v n at even odd = elim (ℕ_discrete n p) [
  | yes e ↦ absurd (omega (arith, ap link e))
  | no ne ↦ ground arith
]

relink-Evolves :
    (me : ℕ) (m : Memory) (p c v : ℕ)
    → m.link p ≡ c
    → c % 2 ≡ 0
    → IsLink m p
    → Evolves me m (record m { link = update m.link p v })
relink-Evolves me m p c v at even l = record {
  stays = λ n s. s;
  same_key = λ n s. refl;
  frozen = λ n s f. write-frozen m.link p c v n at even f;
  others = λ n o ne nz s. ground (arith, l);
}

-- A step of thread `me` from a place where its locals tell the truth.
pub step-Evolves :
    (h : Bool) (me fresh : ℕ) (m : Memory)
    → Good m
    → (pc : Pc) → Ok me m pc
    → Available m pc fresh
    → Evolves me m (step h me fresh m pc).0
unfolding step
step-Evolves h me fresh m g (start t) ok av = Evolves-refl me m
step-Evolves h me fresh m g (read_next t prev cur) ok av = Evolves-refl me m
step-Evolves h me fresh m g (unlink t prev cur next) (k, b, s, odd, at) av =
    elim (Bool-cases (m.link prev == cur)) [
      | inl e ↦ rw e (
          relink-Evolves me m prev cur (clear_deleted next) ((==_iff _ _).0 e) (g.node cur s).1
            (Before-IsLink m _ prev b))
      | inr e ↦ rw e (Evolves-refl me m)
    ]
step-Evolves h me fresh m g (read_key t prev cur next) ok av = Evolves-refl me m
step-Evolves h me fresh m g (revalidate t prev cur next ckey) ok av = Evolves-refl me m
step-Evolves h me fresh m g (read_data k cur) ok av = Evolves-refl me m
step-Evolves h me fresh m g (alloc k d prev cur) ok (unused, nz, even) = record {
  stays = λ n p. ground arith;
  same_key = λ n p. refl;
  frozen = λ n p f. refl;
  others = λ n o ne nz p. ground arith;
}
step-Evolves h me fresh m g (write_key k d prev cur new) ok av = record {
  stays = λ n p. p;
  same_key = λ n p. ground arith;
  frozen = λ n p f. refl;
  others = λ n o ne nz p. ground arith;
}
step-Evolves h me fresh m g (write_next k d prev cur new) ok av = record {
  stays = λ n p. p;
  same_key = λ n p. refl;
  frozen = λ n p f. ground arith;
  others = λ n o ne nz p. ground arith;
}
step-Evolves h me fresh m g (connect k d prev cur new) ok av = record {
  stays = λ n p. ground arith;
  same_key = λ n p. ground arith;
  frozen = λ n p f. ground (arith, g.head, g.node cur);
  others = λ n o ne nz p. ground arith;
}
step-Evolves h me fresh m g (mark k cur next) ok av = record {
  stays = λ n p. ground arith;
  same_key = λ n p. ground arith;
  frozen = λ n p f. ground arith;
  others = λ n o ne nz p. ground arith;
}
step-Evolves h me fresh m g ready ok av = Evolves-refl me m
step-Evolves h me fresh m g (done t b) ok av = Evolves-refl me m
step-Evolves h me fresh m g (hit k d) ok av = Evolves-refl me m
