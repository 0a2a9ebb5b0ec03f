-- ===== src/Postgres/Restore.antt =====
-- Snapshots of `PostgresStore`, and the way back to one.
use mathlib.Core.Path.{fun_ext}
use swarmstate.Prelude.{
  ℕ, ◌≡◌, refl, ap, ◌∙◌, true, Option, none, some, List, [], ◌∷◌, map, arith, or_else, contains,
  pair_eq, IsDistinct, eq_iff,
}
use swarmstate.Prelude.Result.{Result, ok, raise}
use swarmstate.Text.{Text, text_eq}
use swarmstate.Store.{written}
use swarmstate.Snapshot.{Bytes, Row, SnapshotMeta, copy_snapshot, next}
use swarmstate.Disk.Statements.{Codec}
use swarmstate.Postgres
use swarmstate.Postgres.Statements.{
  Postgresql, IsPostgres, Reliable, Write, insert_row, delete_all, effect, pairs_of,
}
use swarmstate.Postgres.Writes.{effects, Ends, AllFit, run-Ends, executemany-Ends, finish-Ends}

abbrev inserts : List Row → List Write
inserts rows = map (λ r. insert_row r.0 r.1 r.2) rows

insert_effects :
    (rows : List Row) (at : Text → Text → Option Bytes) (n k : Text)
    → effects (inserts rows) at n k ≡ or_else (written rows n k) (at n k)
unfolding written
insert_effects [] at n k = refl
insert_effects ((m, j, v) ∷ rows) at n k =
    insert_effects rows (effect (insert_row m j v) at) n k ∙ ground arith

module _ {A : Type 0} (P : Postgresql) (C : Codec A) (laws : IsPostgres P)
    (reliable : Reliable P) where
  -- The rows that are to be inserted are not there.
  abbrev Absent : List Row → P.Db → Type 0
  Absent rows d = (n k : Text) → contains (n, k) (pairs_of P rows) ≡ true → P.select_v d n k ≡ none

  inserts-AllFit :
      (rows : List Row) (d : P.Db)
      → IsDistinct (pairs_of P rows)
      → Absent rows d
      → AllFit P C laws reliable (inserts rows) d
  unfolding contains
  inserts-AllFit [] d distinct absent = tt
  inserts-AllFit ((m, j, v) ∷ rows) d distinct absent = (
    absent m j (ground (arith, eq_iff m m, eq_iff j j)),
    λ d' e. inserts-AllFit rows d' distinct.1 (λ n k q.
        ap (λ f. f n k) e ∙ ground (arith, absent n k, distinct.0, eq_iff m n, eq_iff j k)),
  )

  and_then-Ends :
      (rows : List Row) (r : Result ℕ × P.Db)
      → IsDistinct (pairs_of P rows)
      → Ends P (λ n k. none) r
      → Ends P
          (λ n k. or_else (written rows n k) none)
          (Postgres.and_then P C r (Postgres.executemany P C (inserts rows)))
  and_then-Ends rows (raise e, d) distinct h = absurd h
  and_then-Ends rows (ok c, d) distinct h =
      rw (← fun_ext λ n. fun_ext λ k. insert_effects rows (λ n k. none) n k, ← h)
        (executemany-Ends P C laws reliable (inserts rows) d
          (inserts-AllFit rows d distinct (λ n k q. ap (λ f. f n k) h)))

  or_else-none : (o : Option Bytes) → or_else o none ≡ o
  or_else-none none = refl
  or_else-none (some b) = refl

  rows_lem : (d : P.Db) → (λ n k. or_else (written (P.select_all d) n k) none) ≡ P.select_v d
  rows_lem d = fun_ext λ n. fun_ext λ k. or_else-none _ ∙ laws.select_all_lem d n k

  -- Over a database on which no statement fails but an insert of a row that is there, `restore` of
  -- a snapshot succeeds, and the table holds what it held when the snapshot was taken, whatever it
  -- held before.
  pub restore-snapshot :
      {Time : Type 0} (taken d : P.Db) (now : Time) (m : SnapshotMeta)
      → Ends P (P.select_v taken) (Postgres.restore P C (Postgres.snapshot P C now m taken).0 d)
  unfolding Postgres.restore Postgres.snapshot Postgres.transaction copy_snapshot next
  restore-snapshot taken d now m = finish-Ends P C laws reliable _ d _ (
      rw (rows_lem taken) at (
        and_then-Ends (P.select_all taken) (Postgres.run P C delete_all d)
          (laws.select_all-IsDistinct taken) (run-Ends P C laws reliable delete_all d tt)))
