-- ===== src/Postgres.antt =====
-- python/swarmstate/backends/postgres.py: `PostgresStore`, over the statements of
-- `Postgres.Statements`. A method that writes returns its result, or the exception, beside the table
-- that it leaves.
pub mod Pools
pub mod Statements
pub mod Writes
pub mod Restore
pub mod Contract
pub mod Async
pub mod Table
use swarmstate.Prelude.{
  ℕ, zero, suc, ◌+◌, Bool, Option, none, some, List, [], ◌∷◌, map, is_some, ltb, ◌==◌, pair_eq,
}
use swarmstate.Prelude.Dict.{Dict, find}
use swarmstate.Prelude.Result.{Result, ok, raise, postgres_error, value_error}
use swarmstate.Text.{Text, text_eq}
use swarmstate.Disk.Statements.{Codec}
use swarmstate.Snapshot.{Bytes, Row, CopySnapshot, SnapshotMeta, copy_snapshot, next, row_dict}
use Statements.{
  Postgresql, Write, upsert, insert_row, delete_row, delete_pairs, delete_ns, delete_all,
}

-- `_unzip`
unfoldable pub unzip : List (Text × Text) → List Text × List Text
unzip pairs = (map (λ (p : Text × Text). p.0) pairs, map (λ (p : Text × Text). p.1) pairs)

module _ {A : Type 0} (P : Postgresql) (C : Codec A) where
  abbrev Db : Type 0
  Db = P.Db

  abbrev pub Exec : Type 0 → Type 0
  Exec B = Db → Result B × Db

  abbrev or_default : Option A → Option Bytes → Option A
  or_default default none = default
  or_default default (some v) = C.unpack v

  -- `_in_order`
  unfoldable pub in_order : List (Text × Text) → List Row → List (Option A)
  in_order pairs rows = map (λ p. or_default none (find p (row_dict rows))) pairs

  abbrev ran : Db → Option (ℕ × Db) → Result ℕ × Db
  ran d none = (raise postgres_error, d)
  ran d (some (count, d')) = (ok count, d')

  -- one statement, in autocommit
  unfoldable pub run : Write → Exec ℕ
  run w d = ran d (P.execute d w)

  abbrev continue : Db → Option (ℕ × Db) → Exec Unit → Result (Unit {0}) × Db
  continue d none rest = (raise postgres_error, d)
  continue d (some (count, d')) rest = rest d'

  -- `cur.executemany`
  unfoldable pub executemany : List Write → Exec Unit
  executemany [] d = (ok tt, d)
  executemany (w ∷ ws) d = continue d (P.execute d w) (executemany ws)

  abbrev finish : {B : Type 0} → Db → Result B × Db → Result B × Db
  finish begin (ok b, d) = (ok b, d)
  finish begin (raise e, d) = (raise e, begin)

  -- `conn.transaction()`: the rollback brings back the table of BEGIN
  unfoldable pub transaction : {B : Type 0} → Exec B → Exec B
  transaction body d = finish d (body d)

  abbrev done : Result ℕ × Db → Result (Unit {0}) × Db
  done (ok n, d) = (ok tt, d)
  done (raise e, d) = (raise e, d)

  -- ------------------------------------------------------------- core API
  unfoldable pub set : Text → Text → Option A → Exec Unit
  set namespace key value d = done (run (upsert namespace key (C.pack value)) d)

  unfoldable pub get : Db → Text → Text → Option A → Option A
  get d namespace key default = or_default default (P.select_v d namespace key)

  unfoldable pub set_many : List (Text × Text × Option A) → Exec Unit
  set_many [] d = (ok tt, d)
  set_many (item ∷ items) d =
      transaction (executemany (map (λ i. upsert i.0 i.1 (C.pack i.2)) (item ∷ items))) d

  unfoldable pub get_many : Db → List (Text × Text) → List (Option A)
  get_many d [] = []
  get_many d (pair ∷ pairs) =
      let arrays = unzip (pair ∷ pairs) in
      in_order (pair ∷ pairs) (P.select_pairs d arrays.0 arrays.1)

  unfoldable pub contains : Db → Text → Text → Bool
  contains d namespace key = is_some (P.select_1 d namespace key)

  abbrev above_zero : Result ℕ × Db → Result Bool × Db
  above_zero (ok count, d) = (ok (ltb 0 count), d)
  above_zero (raise e, d) = (raise e, d)

  unfoldable pub delete : Text → Text → Exec Bool
  delete namespace key d = above_zero (run (delete_row namespace key) d)

  unfoldable pub delete_many : List (Text × Text) → Exec ℕ
  delete_many [] d = (ok 0, d)
  delete_many (pair ∷ pairs) d =
      let arrays = unzip (pair ∷ pairs) in run (delete_pairs arrays.0 arrays.1) d

  unfoldable pub delete_namespace : Text → Exec ℕ
  delete_namespace namespace = run (delete_ns namespace)

  unfoldable pub keys : Db → Text → Option Text → List Text
  keys d namespace none = P.select_k d namespace
  keys d namespace (some prefix) = P.select_k_prefix d namespace prefix

  unfoldable pub max_key : Db → Text → Option Text
  max_key d namespace = P.select_max_k d namespace

  unfoldable pub namespaces : Db → Option Text → List Text
  namespaces d none = P.select_ns d
  namespaces d (some prefix) = P.select_ns_prefix d prefix

  unfoldable pub clear : Exec Unit
  clear d = done (run delete_all d)

  -- `__len__` and `__contains__`
  unfoldable pub len : Db → ℕ
  len d = P.select_count d

  unfoldable pub contains_namespace : Db → Text → Bool
  contains_namespace d namespace = is_some (P.select_ns_1 d namespace)

  -- ------------------------------------------------------------- snapshot
  unfoldable pub snapshot :
      {Time : Type 0} → Time → SnapshotMeta → Db → CopySnapshot Time × SnapshotMeta
  snapshot now m d = let (stamp, m') = next m now in (copy_snapshot (P.select_all d) stamp, m')

  abbrev and_then : Result ℕ × Db → Exec Unit → Result (Unit {0}) × Db
  and_then (ok n, d) rest = rest d
  and_then (raise e, d) rest = (raise e, d)

  unfoldable pub restore : {Time : Type 0} → CopySnapshot Time → Exec Unit
  restore s d =
      transaction
        (λ d'.
          and_then (run delete_all d') (executemany (map (λ r. insert_row r.0 r.1 r.2) s.rows)))
        d
