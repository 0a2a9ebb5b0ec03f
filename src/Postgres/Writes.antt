-- ===== src/Postgres/Writes.antt =====
-- The writes of `PostgresStore`: what a batch leaves in the table, and that it is all or nothing.
use mathlib.Core.Path.{fun_ext}
use swarmstate.Prelude.{
  ℕ, ◌≡◌, refl, ◌∙◌, inl, inr, Option, some, List, [], ◌∷◌, map, arith, or_else, Option-cases,
  pair_eq,
}
use swarmstate.Prelude.Result.{Result, ok, raise}
use swarmstate.Text.{Text, text_eq}
use swarmstate.Store.{written}
use swarmstate.Store.Packed.{packed}
use swarmstate.Snapshot.{Bytes}
use swarmstate.Disk.Statements.{Codec}
use swarmstate.Postgres
use swarmstate.Postgres.Statements.{Postgresql, IsPostgres, Reliable, Fits, Write, upsert, effect}

-- What a batch of writes leaves at a pair.
abbrev pub effects : List Write → (Text → Text → Option Bytes) → Text → Text → Option Bytes
effects [] at = at
effects (w ∷ ws) at = effects ws (effect w at)

module _ (P : Postgresql) where
  -- A step succeeds and leaves `at` in the table, or raises and leaves the table as it was.
  abbrev pub Atomic : {B : Type 0} → P.Db → (Text → Text → Option Bytes) → Result B × P.Db → Type 0
  Atomic d at (ok b, d') = P.select_v d' ≡ at
  Atomic d at (raise e, d') = d' ≡ d

  -- A step that succeeds leaves `at` in the table.
  abbrev pub Leaves : {B : Type 0} → (Text → Text → Option Bytes) → Result B × P.Db → Type 0
  Leaves at (ok b, d') = P.select_v d' ≡ at
  Leaves at (raise e, d') = Unit

  -- A step succeeds and leaves `at` in the table.
  abbrev pub Ends : {B : Type 0} → (Text → Text → Option Bytes) → Result B × P.Db → Type 0
  Ends at (ok b, d') = P.select_v d' ≡ at
  Ends at (raise e, d') = ⊥

module _ {A : Type 0} (P : Postgresql) (C : Codec A) (laws : IsPostgres P) where
  pub step_effect :
      (d : P.Db) (w : Write) (c : ℕ) (d' : P.Db)
      → P.execute d w ≡ some (c, d')
      → P.select_v d' ≡ effect w (P.select_v d)
  step_effect d w c d' h = fun_ext λ n. fun_ext λ k. laws.execute_effect d w c d' h n k

  executemany-Leaves :
      (ws : List Write) (d : P.Db)
      → Leaves P (effects ws (P.select_v d)) (Postgres.executemany P C ws d)
  unfolding Postgres.executemany
  executemany-Leaves [] d = refl
  executemany-Leaves (w ∷ ws) d = elim (Option-cases (P.execute d w)) [
    | inl e ↦ rw e tt
    | inr ((c, d'), e) ↦ rw (e, ← step_effect d w c d' e) (executemany-Leaves ws d')
  ]

  finish-Atomic :
      {B : Type 0} (at : Text → Text → Option Bytes) (d : P.Db) (r : Result B × P.Db)
      → Leaves P at r
      → Atomic P d at (Postgres.finish P C d r)
  finish-Atomic at d (ok b, d') h = h
  finish-Atomic at d (raise e, d') h = refl

  upsert_effects :
      (items : List (Text × Text × Option A)) (at : Text → Text → Option Bytes) (n k : Text)
      → effects (map (λ i. upsert i.0 i.1 (C.pack i.2)) items) at n k
        ≡ or_else (written (packed C items) n k) (at n k)
  unfolding written
  upsert_effects [] at n k = refl
  upsert_effects ((m, j, v) ∷ items) at n k =
      upsert_effects items (effect (upsert m j (C.pack v)) at) n k ∙ ground arith

  pub set_many-Atomic :
      (items : List (Text × Text × Option A)) (d : P.Db)
      → Atomic P d
          (λ n k. or_else (written (packed C items) n k) (P.select_v d n k))
          (Postgres.set_many P C items d)
  unfolding Postgres.set_many Postgres.transaction written
  set_many-Atomic [] d = refl
  set_many-Atomic (item ∷ items) d =
      rw (← fun_ext λ n. fun_ext λ k. upsert_effects (item ∷ items) (P.select_v d) n k)
        (finish-Atomic _ d _ (executemany-Leaves _ d))

  module _ (reliable : Reliable P) where
    pub run-Ends :
        (w : Write) (d : P.Db)
        → Fits P d w
        → Ends P (effect w (P.select_v d)) (Postgres.run P C w d)
    unfolding Postgres.run
    run-Ends w d fits = let (c, d', e) = reliable.succeeds d w fits in rw e (step_effect d w c d' e)

    -- Each statement of a batch is let through by the primary key, after those before it.
    abbrev pub AllFit : List Write → P.Db → Type 0
    AllFit [] d = Unit
    AllFit (w ∷ ws) d =
        Fits P d w × ((d' : P.Db) → P.select_v d' ≡ effect w (P.select_v d) → AllFit ws d')

    pub executemany-Ends :
        (ws : List Write) (d : P.Db)
        → AllFit ws d
        → Ends P (effects ws (P.select_v d)) (Postgres.executemany P C ws d)
    unfolding Postgres.executemany
    executemany-Ends [] d fit = refl
    executemany-Ends (w ∷ ws) d fit =
        let (c, d', e) = reliable.succeeds d w fit.0 in
        let at = step_effect d w c d' e in rw (e, ← at) (executemany-Ends ws d' (fit.1 d' at))

    pub finish-Ends :
        {B : Type 0} (at : Text → Text → Option Bytes) (d : P.Db) (r : Result B × P.Db)
        → Ends P at r
        → Ends P at (Postgres.finish P C d r)
    finish-Ends at d (ok b, d') h = h
    finish-Ends at d (raise e, d') h = h

    upserts-AllFit :
        (items : List (Text × Text × Option A)) (d : P.Db)
        → AllFit (map (λ i. upsert i.0 i.1 (C.pack i.2)) items) d
    upserts-AllFit [] d = tt
    upserts-AllFit (i ∷ items) d = (tt, λ d' e. upserts-AllFit items d')

    -- On a database on which no statement fails but an insert of a row that is there, a batch is
    -- written.
    pub set_many-Ends :
        (items : List (Text × Text × Option A)) (d : P.Db)
        → Ends P
            (λ n k. or_else (written (packed C items) n k) (P.select_v d n k))
            (Postgres.set_many P C items d)
    unfolding Postgres.set_many Postgres.transaction written
    set_many-Ends [] d = refl
    set_many-Ends (item ∷ items) d =
        rw (← fun_ext λ n. fun_ext λ k. upsert_effects (item ∷ items) (P.select_v d) n k)
          (finish-Ends _ d _ (executemany-Ends _ d (upserts-AllFit (item ∷ items) d)))
