-- ===== src/Postgres/Async.antt =====
-- The async methods of `PostgresStore`. The async connection reaches the same table; `clear` has no
-- async twin.
pub mod Twins
use swarmstate.Prelude.{
  ℕ, Bool, Option, none, some, List, [], ◌∷◌, map, is_some, if◌then◌else◌, ◌||◌,
}
use swarmstate.Prelude.Result.{Result, Error, ok, raise, runtime_error, ◌>>=◌}
use swarmstate.Text.{Text}
use swarmstate.Disk.Statements.{Codec}
use swarmstate.Postgres
use swarmstate.Postgres.{unzip}
use swarmstate.Postgres.Statements.{Postgresql, upsert, delete_row, delete_pairs, delete_ns}

-- What `_aconnection` finds: whether there is an async pool that was given, an entry of `_apools`
-- for the running loop and a DSN, and the exception of psycopg if it cannot open a pool from it.
pub record Access : Type 0 where
  pub apool : Bool
  pub entry : Bool
  pub dsn : Bool
  pub unreachable : Option Error

abbrev opened : Option Error → Result (Unit {0})
opened none = ok tt
opened (some e) = raise e

-- `_open_async`
unfoldable pub open_async : Access → Result (Unit {0})
open_async a = if a.dsn then opened a.unreachable else raise runtime_error

-- `_aconnection`, up to the body of the `with` statement
unfoldable pub aconnection : Access → Result (Unit {0})
aconnection a = if a.apool then ok tt else if a.entry then ok tt else open_async a

module _ {A : Type 0} (P : Postgresql) (C : Codec A) (a : Access) where
  abbrev Exec : Type 0 → Type 0
  Exec B = Postgres.Exec P C B

  abbrev then_run : {B : Type 0} → Result (Unit {0}) → Exec B → Exec B
  then_run (ok conn) body d = body d
  then_run (raise e) body d = (raise e, d)

  -- a method that runs its statements on `self._aconnection()`
  abbrev on_connection : {B : Type 0} → Exec B → Exec B
  on_connection body = then_run (aconnection a) body

  abbrev ask_connection : {B : Type 0} → B → Result B
  ask_connection b = aconnection a >>= λ conn. ok b

  unfoldable pub aset : Text → Text → Option A → Exec Unit
  aset namespace key value =
      on_connection
        λ d. Postgres.done P C (Postgres.run P C (upsert namespace key (C.pack value)) d)

  unfoldable pub aget : P.Db → Text → Text → Option A → Result (Option A)
  aget d namespace key default =
      ask_connection (Postgres.or_default P C default (P.select_v d namespace key))

  unfoldable pub aset_many : List (Text × Text × Option A) → Exec Unit
  aset_many [] d = (ok tt, d)
  aset_many (item ∷ items) d =
      on_connection
        (Postgres.transaction P C
          (Postgres.executemany P C (map (λ i. upsert i.0 i.1 (C.pack i.2)) (item ∷ items))))
        d

  unfoldable pub aget_many : P.Db → List (Text × Text) → Result (List (Option A))
  aget_many d [] = ok []
  aget_many d (pair ∷ pairs) =
      let arrays = unzip (pair ∷ pairs) in
      ask_connection (Postgres.in_order P C (pair ∷ pairs) (P.select_pairs d arrays.0 arrays.1))

  unfoldable pub acontains : P.Db → Text → Text → Result Bool
  acontains d namespace key = ask_connection (is_some (P.select_1 d namespace key))

  unfoldable pub adelete : Text → Text → Exec Bool
  adelete namespace key =
      on_connection λ d. Postgres.above_zero P C (Postgres.run P C (delete_row namespace key) d)

  unfoldable pub adelete_many : List (Text × Text) → Exec ℕ
  adelete_many [] d = (ok 0, d)
  adelete_many (pair ∷ pairs) d =
      let arrays = unzip (pair ∷ pairs) in
      on_connection (Postgres.run P C (delete_pairs arrays.0 arrays.1)) d

  unfoldable pub adelete_namespace : Text → Exec ℕ
  adelete_namespace namespace = on_connection (Postgres.run P C (delete_ns namespace))

  abbrev akeys_on : P.Db → Text → Option Text → List Text
  akeys_on d namespace none = P.select_k d namespace
  akeys_on d namespace (some prefix) = P.select_k_prefix d namespace prefix

  unfoldable pub akeys : P.Db → Text → Option Text → Result (List Text)
  akeys d namespace prefix = ask_connection (akeys_on d namespace prefix)

  unfoldable pub amax_key : P.Db → Text → Result (Option Text)
  amax_key d namespace = ask_connection (P.select_max_k d namespace)

  abbrev anamespaces_on : P.Db → Option Text → List Text
  anamespaces_on d none = P.select_ns d
  anamespaces_on d (some prefix) = P.select_ns_prefix d prefix

  unfoldable pub anamespaces : P.Db → Option Text → Result (List Text)
  anamespaces d prefix = ask_connection (anamespaces_on d prefix)
