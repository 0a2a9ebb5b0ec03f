-- ===== src/Postgres/Pools/Owners.antt =====
-- No async pool is lost, and none is closed while it is kept, whatever the order of the tasks.
use swarmstate.Prelude.{
  ℕ, suc, ◌<◌, ◌≡◌, refl, ap, sym, ◌∙◌, ◌⊎◌, inl, inr, Bool, true, false, Option, none, some, arith,
  nat_eq, Bool-cases,
}
use swarmstate.Postgres.Pools.{
  Phase, waiting, opening, opened, losing, using, closing, ended, Pools, start, put_at, to_phase,
  close_entry,
}

-- The entry that a task is to hand over or to close.
abbrev pub owned : Phase → Option ℕ
owned waiting = none
owned opening = none
owned (opened i) = some i
owned (losing i e) = some i
owned (using e) = none
owned (closing e) = some e
owned ended = none

-- Every entry that was made is closed, or in the slot, or owned by one task; and what is in the
-- slot or owned is not closed.
pub record Sound (w : Pools) : Type 0 where
  pub kept :
      (i : ℕ)
      → i < w.made
      → (w.closed i ≡ true) ⊎ (w.slot ≡ some i) ⊎ ((t : ℕ) × (owned (w.phase t) ≡ some i))
  pub slot_open : (i : ℕ) → w.slot ≡ some i → (i < w.made) × (w.closed i ≡ false)
  pub owned_open : (t i : ℕ) → owned (w.phase t) ≡ some i → (i < w.made) × (w.closed i ≡ false)
  pub apart : (t i : ℕ) → owned (w.phase t) ≡ some i → w.slot ≡ some i → ⊥
  pub closed_made : (i : ℕ) → w.closed i ≡ true → i < w.made
  pub one_owner : (t u i : ℕ) → owned (w.phase t) ≡ some i → owned (w.phase u) ≡ some i → t ≡ u

pub start-Sound : Sound start
start-Sound = record {
  kept = λ i h. absurd (omega (arith, h));
  slot_open = λ i h. absurd (ground (arith, h));
  owned_open = λ t i h. absurd (ground (arith, h));
  apart = λ t i h k. ground (arith, h);
  closed_made = λ i h. absurd (ground (arith, h));
  one_owner = λ t u i h k. absurd (ground (arith, h));
}

module _ (w : Pools) (t : ℕ) (s : Sound w) where
  abbrev Other : ℕ → Type 0
  Other u = t ≡ u → ⊥

  -- Another task stands where it stood.
  same_place : (p : Phase) (u : ℕ) → Other u → owned (put_at t p w.phase u) ≡ owned (w.phase u)
  same_place p u n = elim (Bool-cases (nat_eq t u)) [
    | inl e ↦ absurd (n (ground (arith, e)))
    | inr e ↦ rw e refl
  ]

  new_place : (p : Phase) → owned (put_at t p w.phase t) ≡ owned p
  new_place p = let e : nat_eq t t ≡ true = ground arith in rw e refl

  -- What a task owns after the event: the task `t` what its new phase says, another what it owned.
  owner-cases :
      (p : Phase) (u i : ℕ)
      → owned (put_at t p w.phase u) ≡ some i
      → ((t ≡ u) × (owned p ≡ some i)) ⊎ (Other u × (owned (w.phase u) ≡ some i))
  owner-cases p u i o = elim (Bool-cases (nat_eq t u)) [
    | inl e ↦ inl (ground (arith, e), rw e at o)
    | inr e ↦ inr (λ q. ground (arith, q, e), rw e at o)
  ]

  -- What an event has to keep.
  record Keeps (p : Phase) (slot : Option ℕ) (made : ℕ) (closed : ℕ → Bool) : Type 0 where
    all_kept :
        (i : ℕ)
        → i < made
        → (closed i ≡ true)
          ⊎ (slot ≡ some i)
          ⊎ (owned p ≡ some i)
          ⊎ ((u : ℕ) × Other u × (owned (w.phase u) ≡ some i))
    slot_kept : (i : ℕ) → slot ≡ some i → (i < made) × (closed i ≡ false)
    past : (i : ℕ) → closed i ≡ true → i < made
    own : (i : ℕ) → owned p ≡ some i → (i < made) × (closed i ≡ false)
    own_apart : (i : ℕ) → owned p ≡ some i → slot ≡ some i → ⊥
    own_alone : (u i : ℕ) → Other u → owned p ≡ some i → owned (w.phase u) ≡ some i → ⊥
    others : (u i : ℕ) → Other u → owned (w.phase u) ≡ some i → (i < made) × (closed i ≡ false)
    others_apart : (u i : ℕ) → Other u → owned (w.phase u) ≡ some i → slot ≡ some i → ⊥

  Keeps-Sound :
      (p : Phase) (slot : Option ℕ) (made : ℕ) (closed : ℕ → Bool)
      → Keeps p slot made closed
      → Sound (record { slot = slot; made = made; closed = closed; phase = put_at t p w.phase })
  Keeps-Sound p slot made closed k = record {
    kept = λ i l. elim (k.all_kept i l) [
      | inl c ↦ inl c
      | inr (inl e) ↦ inr (inl e)
      | inr (inr (inl o)) ↦ inr (inr (t, new_place p ∙ o))
      | inr (inr (inr (u, n, o))) ↦ inr (inr (u, same_place p u n ∙ o))
    ];
    slot_open = k.slot_kept;
    owned_open = λ u i o. elim (owner-cases p u i o) [
      | inl (e, q) ↦ k.own i q
      | inr (n, q) ↦ k.others u i n q
    ];
    apart = λ u i o c. elim (owner-cases p u i o) [
      | inl (e, q) ↦ k.own_apart i q c
      | inr (n, q) ↦ k.others_apart u i n q c
    ];
    closed_made = k.past;
    one_owner = λ u v i o c. elim (owner-cases p u i o) [
      | inl (e, q) ↦ elim (owner-cases p v i c) [
        | inl (e', q') ↦ sym e ∙ e'
        | inr (n', q') ↦ absurd (k.own_alone v i n' q q')
      ]
      | inr (n, q) ↦ elim (owner-cases p v i c) [
        | inl (e', q') ↦ absurd (k.own_alone u i n q' q)
        | inr (n', q') ↦ s.one_owner u v i q q'
      ]
    ];
  }

  -- An old owner, or the task itself.
  owner_or_task : (u i : ℕ) → owned (w.phase u) ≡ some i → (owned (w.phase t) ≡ some i) ⊎ Other u
  owner_or_task u i o = elim (Bool-cases (nat_eq t u)) [
    | inl e ↦ let n : t ≡ u = ground (arith, e) in inl (ap (λ x. owned (w.phase x)) n ∙ o)
    | inr e ↦ inr (λ q. ground (arith, q, e))
  ]

  -- The task owns what it owned.
  pub moves : (p : Phase) → owned p ≡ owned (w.phase t) → Sound (to_phase t p w)
  moves p h = Keeps-Sound p w.slot w.made w.closed (record {
    all_kept = λ i l. elim (s.kept i l) [
      | inl c ↦ inl c
      | inr (inl e) ↦ inr (inl e)
      | inr (inr (u, o)) ↦ elim (owner_or_task u i o) [
        | inl q ↦ inr (inr (inl (h ∙ q)))
        | inr n ↦ inr (inr (inr (u, n, o)))
      ]
    ];
    slot_kept = s.slot_open;
    past = s.closed_made;
    own = λ i o. s.owned_open t i (sym h ∙ o);
    own_apart = λ i o. s.apart t i (sym h ∙ o);
    own_alone = λ u i n o o'. n (s.one_owner t u i (sym h ∙ o) o');
    others = λ u i n. s.owned_open u i;
    others_apart = λ u i n. s.apart u i;
  })

  -- `_open_async` returns: the new entry is the task's own.
  pub opens :
      owned (w.phase t) ≡ none
      → Sound (record w { made = suc w.made; phase = put_at t (opened w.made) w.phase })
  opens h = Keeps-Sound (opened w.made) w.slot (suc w.made) w.closed (record {
    all_kept = λ i l. elim (Bool-cases (nat_eq i w.made)) [
      | inl e ↦ inr (inr (inl (ground (arith, e))))
      | inr e ↦ elim (s.kept i (ground (arith, l, e))) [
        | inl c ↦ inl c
        | inr (inl q) ↦ inr (inl q)
        | inr (inr (u, o)) ↦ elim (owner_or_task u i o) [
          | inl q ↦ absurd (ground (arith, h, q))
          | inr n ↦ inr (inr (inr (u, n, o)))
        ]
      ]
    ];
    slot_kept = λ i q. let r = s.slot_open i q in (omega (arith, r.0), r.1);
    past = λ i q. omega (arith, s.closed_made i q);
    own = λ i o. (
      ground (arith, o),
      elim (Bool-cases (w.closed i)) [
        | inl q ↦ absurd (ground (arith, o, s.closed_made i q))
        | inr q ↦ q
      ],
    );
    own_apart = λ i o q. ground (arith, o, s.slot_open i q);
    own_alone = λ u i n o q. ground (arith, o, s.owned_open u i q);
    others = λ u i n o. let r = s.owned_open u i o in (omega (arith, r.0), r.1);
    others_apart = λ u i n. s.apart u i;
  })

  -- The task's own entry goes into the slot.
  pub wins :
      (i : ℕ)
      → owned (w.phase t) ≡ some i
      → w.slot ≡ none
      → Sound (record w { slot = some i; phase = put_at t (using i) w.phase })
  wins i h e = Keeps-Sound (using i) (some i) w.made w.closed (record {
    all_kept = λ j l. elim (s.kept j l) [
      | inl c ↦ inl c
      | inr (inl q) ↦ absurd (ground (arith, e, q))
      | inr (inr (u, o)) ↦ elim (owner_or_task u j o) [
        | inl q ↦ inr (inl (sym h ∙ q))
        | inr n ↦ inr (inr (inr (u, n, o)))
      ]
    ];
    slot_kept = λ j q. s.owned_open t j (h ∙ q);
    past = s.closed_made;
    own = λ j o. absurd (ground (arith, o));
    own_apart = λ j o q. ground (arith, o);
    own_alone = λ u j n o q. ground (arith, o);
    others = λ u j n. s.owned_open u j;
    others_apart = λ u j n o q. n (s.one_owner t u j (h ∙ q) o);
  })

  still_open : (i j : ℕ) → (i ≡ j → ⊥) → w.closed j ≡ false → put_at i true w.closed j ≡ false
  still_open i j n c = elim (Bool-cases (nat_eq i j)) [
    | inl e ↦ absurd (n (ground (arith, e)))
    | inr e ↦ rw e c
  ]

  -- The task's own entry is closed.
  pub closes_own :
      (i : ℕ) (p : Phase)
      → owned (w.phase t) ≡ some i
      → owned p ≡ none
      → Sound (close_entry t i p w)
  closes_own i p h h' = Keeps-Sound p w.slot w.made (put_at i true w.closed) (record {
    all_kept = λ j l. elim (s.kept j l) [
      | inl c ↦ inl (ground (arith, c))
      | inr (inl q) ↦ inr (inl q)
      | inr (inr (u, o)) ↦ elim (owner_or_task u j o) [
        | inl q ↦ inl (ground (arith, h, q))
        | inr n ↦ inr (inr (inr (u, n, o)))
      ]
    ];
    slot_kept = λ j q.
        let r = s.slot_open j q in
        (r.0, still_open i j (λ e. s.apart t i h (q ∙ ap some (sym e))) r.1);
    past = λ j q. elim (Bool-cases (nat_eq i j)) [
      | inl e ↦ (let r = s.owned_open t i h in ground (arith, e, r.0))
      | inr e ↦ s.closed_made j (rw e at q)
    ];
    own = λ j o. absurd (ground (arith, o, h'));
    own_apart = λ j o q. ground (arith, o, h');
    own_alone = λ u j n o q. ground (arith, o, h');
    others = λ u j n o.
        let r = s.owned_open u j o in
        (r.0, still_open i j (λ e. n (s.one_owner t u i h (o ∙ ap some (sym e)))) r.1);
    others_apart = λ u j n. s.apart u j;
  })

  -- The entry in the slot becomes the task's own.
  pub pops :
      (e : ℕ)
      → owned (w.phase t) ≡ none
      → w.slot ≡ some e
      → Sound (record w { slot = none; phase = put_at t (closing e) w.phase })
  pops e h q = Keeps-Sound (closing e) none w.made w.closed (record {
    all_kept = λ j l. elim (s.kept j l) [
      | inl c ↦ inl c
      | inr (inl r) ↦ inr (inr (inl (sym q ∙ r)))
      | inr (inr (u, o)) ↦ elim (owner_or_task u j o) [
        | inl r ↦ absurd (ground (arith, h, r))
        | inr n ↦ inr (inr (inr (u, n, o)))
      ]
    ];
    slot_kept = λ j r. absurd (ground (arith, r));
    past = s.closed_made;
    own = λ j o. s.slot_open j (q ∙ o);
    own_apart = λ j o r. ground (arith, r);
    own_alone = λ u j n o r. s.apart u j r (q ∙ o);
    others = λ u j n. s.owned_open u j;
    others_apart = λ u j n o r. ground (arith, r);
  })
