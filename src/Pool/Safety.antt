-- ===== src/Pool/Safety.antt =====
-- The callers of a pool, and the connections that they hold.
use filehub_cloud.Base.{
  ltb, if◌then◌else◌, ℕ, ◌+◌, ◌≤◌, ◌<◌, Bool, true, false, ◌≡◌, List, [], ◌∷◌, ◌++◌, arith, length,
  ◌==◌, leb, count, count-append, length-append, refl, Bool-cases, inl, inr, ap,
}
use filehub_cloud.Pool.{
  Pool, Outcome, null, conn, waits, init, pop_front, grow, get_conn, resume, resume_timed, rel_conn,
  notify_one, awake, contains, is_empty, may_resume,
}
use filehub_cloud.Pool.Counting.{
  times, length-make_conns, make_conns-above, make_conns-once, contains-times,
}

-- A pool, and the connections that it has lent, the last one first.
pub record Lending : Type 0 where
  pub pool : Pool
  pub lent : List ℕ

abbrev pub settled : List ℕ → Outcome × Pool → Lending
settled lent (null, p) = record { pool = p; lent = lent }
settled lent (conn c, p) = record { pool = p; lent = c ∷ lent }
settled lent (waits, p) = record { pool = p; lent = lent }

-- A call up to its end or its wait, the end of a wait, a connection given back by a caller that holds
-- it, and one given back again.
pub data Step : Lending → Lending → Type 0 where
  gets :
      {p : Pool} {lent : List ℕ} (connects : Bool)
      → Step (record { pool = p; lent = lent }) (settled lent (get_conn connects p))
  resumes :
      {p : Pool} {lent : List ℕ} → Step (record { pool = p; lent = lent }) (settled lent (resume p))
  resumes_timed :
      {p : Pool} {lent : List ℕ}
      → Step (record { pool = p; lent = lent }) (settled lent (resume_timed p))
  returns :
      {p : Pool} (before after : List ℕ) (c : ℕ)
      → Step
          (record { pool = p; lent = before ++ c ∷ after })
          (record { pool = rel_conn c p; lent = before ++ after })
  repeats :
      {p : Pool} {lent : List ℕ} (c : ℕ)
      → contains c p.free_list ≡ true
      → Step (record { pool = p; lent = lent }) (record { pool = rel_conn c p; lent = lent })

pub data Reach (min max : ℕ) : Lending → Type 0 where
  start : Reach min max (record { pool = init min max; lent = [] })
  then_step : {s t : Lending} → Reach min max s → Step s t → Reach min max t

-- Each connection that was made is in one place at most, no other is in a place, and the free and the
-- lent ones are those that the pool counts, at most as many as it may make.
pub record IsSound (s : Lending) : Type 0 where
  pub placed :
      (c : ℕ)
      → times c s.pool.free_list + times c s.lent ≤ (if ltb c s.pool.next_conn then 1 else 0)
  pub counted : length s.pool.free_list + length s.lent ≡ s.pool.cur_conn_cnt
  pub bounded : s.pool.cur_conn_cnt ≤ s.pool.max_conn_cnt

init-IsSound : (min max : ℕ) → min ≤ max → IsSound (record { pool = init min max; lent = [] })
unfolding init count
init-IsSound min max h = record {
  placed = λ c. ground (arith, make_conns-once c 0 min, make_conns-above c 0 min);
  counted = omega (arith, length-make_conns 0 min);
  bounded = h;
}

-- The first free connection is lent.
lends-IsSound :
    (p : Pool) (lent free : List ℕ)
    → p.free_list ≡ free
    → IsSound (record { pool = p; lent = lent })
    → IsSound (settled lent (pop_front p free))
unfolding pop_front count
lends-IsSound p lent [] e sound = sound
lends-IsSound p lent (c ∷ rest) e sound = record {
  placed = λ d. ground (arith, sound.placed d, ap (times d) e);
  counted = omega (arith, sound.counted, ap length e);
  bounded = sound.bounded;
}

grow-IsSound :
    (p : Pool) (lent : List ℕ)
    → IsSound (record { pool = p; lent = lent })
    → p.cur_conn_cnt < p.max_conn_cnt
    → IsSound (record { pool = grow p; lent = lent })
unfolding grow count
grow-IsSound p lent sound room = record {
  placed = λ c.
      ground (arith, sound.placed c, count-append (λ d. d == c) p.free_list (p.next_conn ∷ []));
  counted = omega (arith, sound.counted, length-append p.free_list (p.next_conn ∷ []));
  bounded = omega arith;
}

-- Who sleeps does not matter.
slept :
    (p : Pool) (lent : List ℕ) (a b : ℕ)
    → IsSound (record { pool = p; lent = lent })
    → IsSound (record { pool = record p { waiting = a; woken = b }; lent = lent })
slept p lent a b sound = record {
  placed = sound.placed;
  counted = sound.counted;
  bounded = sound.bounded;
}

kept :
    (r : Outcome × Pool) (lent : List ℕ) (o : Outcome) (p : Pool)
    → r ≡ (o, p)
    → IsSound (settled lent (o, p))
    → IsSound (settled lent r)
kept r lent o p e sound = rw e sound

lent_first :
    (r : Outcome × Pool) (p : Pool) (lent : List ℕ)
    → r ≡ pop_front p p.free_list
    → IsSound (record { pool = p; lent = lent })
    → IsSound (settled lent r)
lent_first r p lent e sound = rw e (lends-IsSound p lent p.free_list refl sound)

get_conn-IsSound :
    (connects : Bool) (p : Pool) (lent : List ℕ)
    → IsSound (record { pool = p; lent = lent })
    → IsSound (settled lent (get_conn connects p))
unfolding get_conn grow
get_conn-IsSound connects p lent sound = elim (Bool-cases p.abort_request) [
  | inl a ↦ kept (get_conn connects p) lent null p (rw a refl) sound
  | inr a ↦ elim (Bool-cases (is_empty p.free_list)) [
    | inr f ↦ lent_first (get_conn connects p) p lent (rw (a, f) refl) sound
    | inl f ↦ elim (Bool-cases (leb p.max_conn_cnt p.cur_conn_cnt)) [
      | inl full ↦
          kept (get_conn connects p) lent waits (record p { waiting = p.waiting + 1 })
            (rw (a, f, full) refl) (slept p lent _ _ sound)
      | inr room ↦ elim (Bool-cases connects) [
        | inr ng ↦ kept (get_conn connects p) lent null p (rw (a, f, room, ng) refl) sound
        | inl ok ↦
            lent_first (get_conn connects p) (grow p) lent (rw (a, f, room, ok) refl)
              (grow-IsSound p lent sound (ground arith))
      ]
    ]
  ]
]

resume-IsSound :
    (p : Pool) (lent : List ℕ)
    → IsSound (record { pool = p; lent = lent })
    → IsSound (settled lent (resume p))
unfolding resume
resume-IsSound p lent sound = elim (Bool-cases (may_resume p)) [
  | inr go ↦
      kept (resume p) lent waits (record (awake p) { waiting = p.waiting + 1 }) (rw go refl)
        (slept p lent _ _ sound)
  | inl go ↦ elim (Bool-cases p.abort_request) [
    | inl a ↦ kept (resume p) lent null (awake p) (rw (go, a) refl) (slept p lent _ _ sound)
    | inr a ↦ lent_first (resume p) (awake p) lent (rw (go, a) refl) (slept p lent _ _ sound)
  ]
]

resume_timed-IsSound :
    (p : Pool) (lent : List ℕ)
    → IsSound (record { pool = p; lent = lent })
    → IsSound (settled lent (resume_timed p))
unfolding resume_timed
resume_timed-IsSound p lent sound = elim (Bool-cases (is_empty p.free_list)) [
  | inl f ↦ kept (resume_timed p) lent null (awake p) (rw f refl) (slept p lent _ _ sound)
  | inr f ↦ elim (Bool-cases p.abort_request) [
    | inl a ↦ kept (resume_timed p) lent null (awake p) (rw (f, a) refl) (slept p lent _ _ sound)
    | inr a ↦ lent_first (resume_timed p) (awake p) lent (rw (f, a) refl) (slept p lent _ _ sound)
  ]
]

-- A connection that a caller holds is not free.
held-not_free :
    (p : Pool) (before after : List ℕ) (c : ℕ)
    → IsSound (record { pool = p; lent = before ++ c ∷ after })
    → contains c p.free_list ≡ false
unfolding count
held-not_free p before after c sound = ground (
  arith,
  contains-times c p.free_list,
  sound.placed c,
  count-append (λ d. d == c) before (c ∷ after),
)

returns-IsSound :
    (p : Pool) (before after : List ℕ) (c : ℕ)
    → IsSound (record { pool = p; lent = before ++ c ∷ after })
    → IsSound (record { pool = rel_conn c p; lent = before ++ after })
unfolding rel_conn notify_one count
returns-IsSound p before after c sound = rw (held-not_free p before after c sound) (record {
  placed = λ d. ground (
    arith,
    sound.placed d,
    count-append (λ x. x == d) before (c ∷ after),
    count-append (λ x. x == d) before after,
    count-append (λ x. x == d) p.free_list (c ∷ []),
  );
  counted = omega (
    arith,
    sound.counted,
    length-append before (c ∷ after),
    length-append before after,
    length-append p.free_list (c ∷ []),
  );
  bounded = sound.bounded;
})

Step-IsSound : {s t : Lending} → Step s t → IsSound s → IsSound t
unfolding rel_conn
Step-IsSound (gets {p} {lent} connects) sound = get_conn-IsSound connects p lent sound
Step-IsSound (resumes {p} {lent}) sound = resume-IsSound p lent sound
Step-IsSound (resumes_timed {p} {lent}) sound = resume_timed-IsSound p lent sound
Step-IsSound (returns {p} before after c) sound = returns-IsSound p before after c sound
Step-IsSound (repeats c free) sound = rw free sound

-- Let a pool be initialised with at most as many connections as its limit. Then after every sequence
-- of calls, whatever waits they make and whether or not new connections succeed, where callers give
-- back what they hold, or again what is free: no connection is free and lent, lent twice or free
-- twice; none that was not made is free or lent; and the free and the lent ones are as many as the
-- pool's counter says, which is at most its limit.
pub reach-IsSound : {min max : ℕ} {s : Lending} → min ≤ max → Reach min max s → IsSound s
reach-IsSound {min} {max} h start = init-IsSound min max h
reach-IsSound h (then_step r step) = Step-IsSound step (reach-IsSound h r)
