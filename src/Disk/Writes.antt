-- ===== src/Disk/Writes.antt =====
-- The writes of `DiskStore`: what a batch leaves in the table, and that it is all or nothing.
use mathlib.Core.Path.{fun_ext}
use swarmstate.Prelude.{
  ℕ, ◌≡◌, refl, ◌∙◌, ◌⊎◌, inl, inr, Option, none, some, List, [], ◌∷◌, map, arith, or_else,
  if◌then◌else◌, Option-cases, contains, pair_eq,
}
use swarmstate.Prelude.Result.{Result, Error, ok, raise}
use swarmstate.Text.{Text, text_eq}
use swarmstate.Store.{written}
use swarmstate.Store.Packed.{packed}
use swarmstate.Snapshot.{Bytes, Row, SnapshotMeta, copy_snapshot, next}
use swarmstate.Disk
use swarmstate.Disk.Statements.{
  Codec, Sqlite, IsSqlite, Write, replace_row, insert_row, delete_row, delete_all, effect,
}

-- What a batch of writes leaves at a pair.
abbrev pub effects : List Write → (Text → Text → Option Bytes) → Text → Text → Option Bytes
effects [] at = at
effects (w ∷ ws) at = effects ws (effect w at)

module _ (D : Sqlite) where
  -- A step in a transaction that began with `before` leaves `at` in the table, if it returns.
  abbrev Leaves :
      {B : Type 0}
      → (Text → Text → Option Bytes)
      → (Text → Text → Option Bytes)
      → Result B × D.Db
      → Type 0
  Leaves before at (ok b, d') = (D.select_v d' ≡ at) × (D.begun_with d' ≡ before)
  Leaves before at (raise e, d') = D.begun_with d' ≡ before

  -- What is left where a method raises: the table as it was; or, as the COMMIT failed, `at` in a
  -- transaction that is still open; or, as the ROLLBACK failed, anything in such a transaction.
  abbrev Unfinished : D.Db → (Text → Text → Option Bytes) → D.Db → Type 0
  Unfinished d at d' =
      (D.select_v d' ≡ D.select_v d)
      ⊎ ((D.begun_with d' ≡ D.select_v d)
          × (((D.commit d' ≡ none) × (D.select_v d' ≡ at)) ⊎ (D.rollback d' ≡ none)))

  -- A step returns and leaves `at` in the table, or raises and leaves it unfinished.
  abbrev pub Atomic : {B : Type 0} → D.Db → (Text → Text → Option Bytes) → Result B × D.Db → Type 0
  Atomic d at (ok b, d') = D.select_v d' ≡ at
  Atomic d at (raise e, d') = Unfinished d at d'

module _ {A : Type 0} (D : Sqlite) (C : Codec A) (laws : IsSqlite D) where
  open laws use {
    execute_effect, execute_begun_with, begin_lem, commit_lem, rollback_lem, select_all_lem,
  }

  step_effect :
      (d : D.Db) (w : Write) (c : ℕ) (d' : D.Db)
      → D.execute d w ≡ some (c, d')
      → D.select_v d' ≡ effect w (D.select_v d)
  step_effect d w c d' h = fun_ext λ n. fun_ext λ k. execute_effect d w c d' h n k

  add_count-Leaves :
      (before at : Text → Text → Option Bytes) (c : ℕ) (r : Result ℕ × D.Db)
      → Leaves D before at r
      → Leaves D before at (Disk.add_count D C c r)
  add_count-Leaves before at c (ok n, d) h = h
  add_count-Leaves before at c (raise e, d) h = h

  continue-Leaves :
      (before at : Text → Text → Option Bytes) (d : D.Db) (o : Option (ℕ × D.Db))
      (rest : D.Db → Result ℕ × D.Db)
      → D.begun_with d ≡ before
      → ((c : ℕ) (d' : D.Db) → o ≡ some (c, d') → Leaves D before at (rest d'))
      → Leaves D before at (Disk.continue D C d o rest)
  continue-Leaves before at d none rest b h = b
  continue-Leaves before at d (some (c, d')) rest b h =
      add_count-Leaves before at c (rest d') (h c d' refl)

  executemany-Leaves :
      (before : Text → Text → Option Bytes) (ws : List Write) (d : D.Db)
      → D.begun_with d ≡ before
      → Leaves D before (effects ws (D.select_v d)) (Disk.executemany D C ws d)
  unfolding Disk.executemany
  executemany-Leaves before [] d b = (refl, b)
  executemany-Leaves before (w ∷ ws) d b =
      continue-Leaves before (effects (w ∷ ws) (D.select_v d)) d (D.execute d w)
        (Disk.executemany D C ws) b
        (λ c d' e.
          rw (step_effect d w c d' e) at
            (executemany-Leaves before ws d' (execute_begun_with d w c d' e ∙ b)))

  pub run-Atomic : (w : Write) (d : D.Db) → Atomic D d (effect w (D.select_v d)) (Disk.run D C w d)
  unfolding Disk.run
  run-Atomic w d = elim (Option-cases (D.execute d w)) [
    | inl e ↦ rw e (inl refl)
    | inr ((c, d'), e) ↦ rw e (step_effect d w c d' e)
  ]

  committed-Atomic :
      {B : Type 0} (at : Text → Text → Option Bytes) (d d' : D.Db) (b : B) (o : Option D.Db)
      → D.commit d' ≡ o
      → Leaves D (D.select_v d) at (ok b, d')
      → Atomic D d at (Disk.committed D C b d' o)
  committed-Atomic at d d' b none e h = inr (h.1, inl (e, h.0))
  committed-Atomic at d d' b (some d'') e h = commit_lem d' d'' e ∙ h.0

  rolled_back-Atomic :
      (B : Type 0) (at : Text → Text → Option Bytes) (d d' : D.Db) (x : Error) (o : Option D.Db)
      → D.rollback d' ≡ o
      → D.begun_with d' ≡ D.select_v d
      → Atomic D d at (Disk.rolled_back D C {B = B} x d' o)
  rolled_back-Atomic B at d d' x none e h = inr (h, inr e)
  rolled_back-Atomic B at d d' x (some d'') e h = inl (rollback_lem d' d'' e ∙ h)

  finish-Atomic :
      {B : Type 0} (at : Text → Text → Option Bytes) (d : D.Db) (r : Result B × D.Db)
      → Leaves D (D.select_v d) at r
      → Atomic D d at (Disk.finish D C r)
  finish-Atomic at d (ok b, d') h = committed-Atomic at d d' b (D.commit d') refl h
  finish-Atomic at d (raise e, d') h = rolled_back-Atomic _ at d d' e (D.rollback d') refl h

  begun-Atomic :
      {B : Type 0} (at : Text → Text → Option Bytes) (d : D.Db) (body : D.Db → Result B × D.Db)
      (o : Option D.Db)
      → D.begin d ≡ o
      → ((d' : D.Db)
          → D.select_v d' ≡ D.select_v d
          → D.begun_with d' ≡ D.select_v d
          → Leaves D (D.select_v d) at (body d'))
      → Atomic D d at (Disk.begun D C body d o)
  begun-Atomic at d body none e h = inl refl
  begun-Atomic at d body (some d') e h =
      let (s, b) = begin_lem d d' e in finish-Atomic at d (body d') (h d' s b)

  -- A batch of statements in a transaction.
  batch-Atomic :
      (ws : List Write) (d : D.Db)
      → Atomic D d (effects ws (D.select_v d)) (Disk.transaction D C (Disk.executemany D C ws) d)
  unfolding Disk.transaction
  batch-Atomic ws d =
      begun-Atomic (effects ws (D.select_v d)) d (Disk.executemany D C ws) (D.begin d) refl
        (λ d' s b. rw s at (executemany-Leaves (D.select_v d) ws d' b))

  done-Atomic :
      (at : Text → Text → Option Bytes) (d : D.Db) (r : Result ℕ × D.Db)
      → Atomic D d at r
      → Atomic D d at (Disk.done D C r)
  done-Atomic at d (ok n, d') h = h
  done-Atomic at d (raise e, d') h = h

  -- The entries of a batch, as the bytes that are stored.

  replace_effects :
      (items : List (Text × Text × Option A)) (at : Text → Text → Option Bytes) (n k : Text)
      → effects (map (λ i. replace_row i.0 i.1 (C.pack i.2)) items) at n k
        ≡ or_else (written (packed C items) n k) (at n k)
  unfolding written
  replace_effects [] at n k = refl
  replace_effects ((m, j, v) ∷ items) at n k =
      replace_effects items (effect (replace_row m j (C.pack v)) at) n k ∙ ground arith

  insert_effects :
      (rows : List Row) (at : Text → Text → Option Bytes) (n k : Text)
      → effects (map (λ r. insert_row r.0 r.1 r.2) rows) at n k
        ≡ or_else (written rows n k) (at n k)
  unfolding written
  insert_effects [] at n k = refl
  insert_effects ((m, j, v) ∷ rows) at n k =
      insert_effects rows (effect (insert_row m j v) at) n k ∙ ground arith

  delete_effects :
      (pairs : List (Text × Text)) (at : Text → Text → Option Bytes) (n k : Text)
      → effects (map (λ p. delete_row p.0 p.1) pairs) at n k
        ≡ (if contains (n, k) pairs then none else at n k)
  unfolding contains
  delete_effects [] at n k = refl
  delete_effects ((m, j) ∷ pairs) at n k =
      delete_effects pairs (effect (delete_row m j) at) n k ∙ ground arith

  pub set_many-Atomic :
      (items : List (Text × Text × Option A)) (d : D.Db)
      → Atomic D d
          (λ n k. or_else (written (packed C items) n k) (D.select_v d n k))
          (Disk.set_many D C items d)
  unfolding Disk.set_many written
  set_many-Atomic [] d = refl
  set_many-Atomic (item ∷ items) d =
      rw (← fun_ext λ n. fun_ext λ k. replace_effects (item ∷ items) (D.select_v d) n k)
        (done-Atomic _ d _ (batch-Atomic _ d))

  pub delete_many-Atomic :
      (pairs : List (Text × Text)) (d : D.Db)
      → Atomic D d
          (λ n k. if contains (n, k) pairs then none else D.select_v d n k)
          (Disk.delete_many D C pairs d)
  unfolding Disk.delete_many contains
  delete_many-Atomic [] d = refl
  delete_many-Atomic (pair ∷ pairs) d =
      rw (← fun_ext λ n. fun_ext λ k. delete_effects (pair ∷ pairs) (D.select_v d) n k)
        (batch-Atomic _ d)

  run-Leaves :
      (before : Text → Text → Option Bytes) (w : Write) (d : D.Db)
      → D.begun_with d ≡ before
      → Leaves D before (effect w (D.select_v d)) (Disk.run D C w d)
  unfolding Disk.run
  run-Leaves before w d b = elim (Option-cases (D.execute d w)) [
    | inl e ↦ rw e b
    | inr ((c, d'), e) ↦ rw e (step_effect d w c d' e, execute_begun_with d w c d' e ∙ b)
  ]

  and_then-Leaves :
      (before : Text → Text → Option Bytes) (rows : List Row) (r : Result ℕ × D.Db)
      → Leaves D before (λ n k. none) r
      → Leaves D before
          (λ n k. or_else (written rows n k) none)
          (Disk.and_then D C r (Disk.executemany D C (map (λ r. insert_row r.0 r.1 r.2) rows)))
  and_then-Leaves before rows (raise e, d') h = h
  and_then-Leaves before rows (ok b, d') h =
      rw (← fun_ext λ n. fun_ext λ k. insert_effects rows (λ n k. none) n k)
        (rw h.0 at (executemany-Leaves before (map (λ r. insert_row r.0 r.1 r.2) rows) d' h.1))

  or_else-none : (o : Option Bytes) → or_else o none ≡ o
  or_else-none none = refl
  or_else-none (some b) = refl

  rows_lem : (d : D.Db) → (λ n k. or_else (written (D.select_all d) n k) none) ≡ D.select_v d
  rows_lem d = fun_ext λ n. fun_ext λ k. or_else-none _ ∙ select_all_lem d n k

  -- Whatever was written since a snapshot was taken, `restore` brings every pair back to what it
  -- was then, or raises and leaves the table unfinished.
  restore-snapshot :
      {Time : Type 0} (taken d : D.Db) (now : Time) (m : SnapshotMeta)
      → Atomic D d (D.select_v taken) (Disk.restore D C (Disk.snapshot D C now m taken).0 d)
  unfolding Disk.restore Disk.snapshot Disk.transaction copy_snapshot next
  restore-snapshot taken d now m = done-Atomic _ d _ (
      begun-Atomic (D.select_v taken) d _ (D.begin d) refl (λ d' s b. rw (rows_lem taken) at (
        and_then-Leaves (D.select_v d) (D.select_all taken) (Disk.run D C delete_all d')
          (run-Leaves (D.select_v d) delete_all d' b))))
