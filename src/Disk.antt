-- ===== src/Disk.antt =====
-- python/swarmstate/backends/disk.py: `DiskStore`, over the statements of `Disk.Statements`. A method
-- that writes returns its result, or the exception, beside the table that it leaves.
pub mod Statements
pub mod Writes
pub mod Reads
pub mod Contract
pub mod Totals
use swarmstate.Prelude.{
  ℕ, zero, suc, ◌+◌, ◌<◌, ◌≡◌, Bool, Option, none, some, List, [], ◌∷◌, map, length, is_some,
  if◌then◌else◌, ltb, pair_eq,
}
use swarmstate.Prelude.Dict.{Dict, find, insert_all}
use swarmstate.Prelude.Chunks.{chunks}
use swarmstate.Prelude.Group.{group}
use swarmstate.Prelude.Result.{Result, Error, ok, raise, sqlite_error, ◌>>=◌}
use swarmstate.Text.{Text, text_eq}
use swarmstate.Prefix.{prefix_upper_bound}
use swarmstate.Snapshot.{Bytes, Row, CopySnapshot, SnapshotMeta, copy_snapshot, next}
use Statements.{Codec, Sqlite, Write, replace_row, insert_row, delete_row, delete_ns, delete_all}

-- `_MAX_PARAMS`
abbrev pub max_params : ℕ
max_params = 900

-- the size of a chunk of `get_many`, `_MAX_PARAMS - 1`
abbrev pub chunk_size : ℕ
chunk_size = 899

module _ {A : Type 0} (D : Sqlite) (C : Codec A) where
  abbrev Db : Type 0
  Db = D.Db

  abbrev pub Exec : Type 0 → Type 0
  Exec B = Db → Result B × Db

  abbrev ran : Db → Option (ℕ × Db) → Result ℕ × Db
  ran d none = (raise sqlite_error, d)
  ran d (some (count, d')) = (ok count, d')

  -- one statement, in autocommit
  unfoldable pub run : Write → Exec ℕ
  run w d = ran d (D.execute d w)

  abbrev add_count : ℕ → Result ℕ × Db → Result ℕ × Db
  add_count count (ok n, d) = (ok (count + n), d)
  add_count count (raise e, d) = (raise e, d)

  abbrev continue : Db → Option (ℕ × Db) → Exec ℕ → Result ℕ × Db
  continue d none rest = (raise sqlite_error, d)
  continue d (some (count, d')) rest = add_count count (rest d')

  -- `conn.executemany`, which sums the row counts
  unfoldable pub executemany : List Write → Exec ℕ
  executemany [] d = (ok 0, d)
  executemany (w ∷ ws) d = continue d (D.execute d w) (executemany ws)

  abbrev committed : {B : Type 0} → B → Db → Option Db → Result B × Db
  committed b d none = (raise sqlite_error, d)
  committed b d (some d') = (ok b, d')

  abbrev rolled_back : {B : Type 0} → Error → Db → Option Db → Result B × Db
  rolled_back e d none = (raise sqlite_error, d)
  rolled_back e d (some d') = (raise e, d')

  -- ROLLBACK and the exception, or COMMIT, which stands outside the `try`
  abbrev finish : {B : Type 0} → Result B × Db → Result B × Db
  finish (ok b, d) = committed b d (D.commit d)
  finish (raise e, d) = rolled_back e d (D.rollback d)

  abbrev begun : {B : Type 0} → Exec B → Db → Option Db → Result B × Db
  begun body d none = (raise sqlite_error, d)
  begun body d (some d') = finish (body d')

  -- `_transaction`
  unfoldable pub transaction : {B : Type 0} → Exec B → Exec B
  transaction body d = begun body d (D.begin d)

  -- a method with no result
  abbrev done : Result ℕ × Db → Result (Unit {0}) × Db
  done (ok n, d) = (ok tt, d)
  done (raise e, d) = (raise e, d)

  -- ------------------------------------------------------------- core API
  unfoldable pub set : Text → Text → Option A → Exec Unit
  set namespace key value d = done (run (replace_row namespace key (C.pack value)) d)

  abbrev or_default : Option A → Option Bytes → Option A
  or_default default none = default
  or_default default (some v) = C.unpack v

  unfoldable pub get : Db → Text → Text → Option A → Option A
  get d namespace key default = or_default default (D.select_v d namespace key)

  unfoldable pub set_many : List (Text × Text × Option A) → Exec Unit
  set_many [] d = (ok tt, d)
  set_many (item ∷ items) d =
      done
        (transaction (executemany (map (λ i. replace_row i.0 i.1 (C.pack i.2)) (item ∷ items))) d)

  -- the loop over the chunks of one namespace
  unfoldable pub fetch_chunks :
      Db → Dict (Text × Text) Bytes → Text → List (List Text) → Result (Dict (Text × Text) Bytes)
  fetch_chunks d found ns [] = ok found
  fetch_chunks d found ns (chunk ∷ rest) = elim (D.select_in d ns chunk) [
    | none ↦ raise sqlite_error
    | some rows ↦ fetch_chunks d (insert_all found (map (λ r. ((ns, r.0), r.1)) rows)) ns rest
  ]

  -- the loop over `by_ns`
  unfoldable pub fetch :
      Db → Dict (Text × Text) Bytes → Dict Text (List Text) → Result (Dict (Text × Text) Bytes)
  fetch d found [] = ok found
  fetch d found ((ns, keys) ∷ by_ns) =
      fetch_chunks d found ns (chunks (length keys) chunk_size keys) >>= λ f. fetch d f by_ns

  unfoldable pub get_many : Db → List (Text × Text) → Result (List (Option A))
  get_many d [] = ok []
  get_many d (pair ∷ pairs) = do
    found ← fetch d [] (group [] (pair ∷ pairs))
    ok (map (λ p. or_default none (find p found)) (pair ∷ pairs))

  unfoldable pub contains : Db → Text → Text → Bool
  contains d namespace key = is_some (D.select_1 d namespace key)

  abbrev above_zero : Result ℕ × Db → Result Bool × Db
  above_zero (ok count, d) = (ok (ltb 0 count), d)
  above_zero (raise e, d) = (raise e, d)

  unfoldable pub delete : Text → Text → Exec Bool
  delete namespace key d = above_zero (run (delete_row namespace key) d)

  unfoldable pub delete_many : List (Text × Text) → Exec ℕ
  delete_many [] d = (ok 0, d)
  delete_many (pair ∷ pairs) d =
      transaction (executemany (map (λ p. delete_row p.0 p.1) (pair ∷ pairs))) d

  unfoldable pub delete_namespace : Text → Exec ℕ
  delete_namespace namespace = run (delete_ns namespace)

  abbrev keys_between : Db → Text → Text → Option Text → List Text
  keys_between d namespace prefix none = D.select_k_substr d namespace (length prefix) prefix
  keys_between d namespace prefix (some upper) = D.select_k_range d namespace prefix upper

  unfoldable pub keys : Db → Text → Option Text → List Text
  keys d namespace none = D.select_k d namespace
  keys d namespace (some prefix) = keys_between d namespace prefix (prefix_upper_bound prefix)

  unfoldable pub max_key : Db → Text → Option Text
  max_key d namespace = D.select_max_k d namespace

  abbrev namespaces_between : Db → Text → Option Text → List Text
  namespaces_between d prefix none = D.select_ns_substr d (length prefix) prefix
  namespaces_between d prefix (some upper) = D.select_ns_range d prefix upper

  unfoldable pub namespaces : Db → Option Text → List Text
  namespaces d none = D.select_ns d
  namespaces d (some prefix) = namespaces_between d prefix (prefix_upper_bound prefix)

  unfoldable pub clear : Exec Unit
  clear d = done (run delete_all d)

  -- `__contains__`
  unfoldable pub contains_namespace : Db → Text → Bool
  contains_namespace d namespace = is_some (D.select_ns_1 d namespace)

  -- ------------------------------------------------------------- snapshot
  unfoldable pub snapshot :
      {Time : Type 0} → Time → SnapshotMeta → Db → CopySnapshot Time × SnapshotMeta
  snapshot now m d = let (meta, m') = next m now in (copy_snapshot (D.select_all d) meta, m')

  abbrev and_then : Result ℕ × Db → Exec ℕ → Result ℕ × Db
  and_then (ok n, d) next = next d
  and_then (raise e, d) next = (raise e, d)

  unfoldable pub restore : {Time : Type 0} → CopySnapshot Time → Exec Unit
  restore snapshot d = done (
      transaction
        (λ begin.
          and_then (run delete_all begin)
            (executemany (map (λ r. insert_row r.0 r.1 r.2) snapshot.rows)))
        d)
