-- ===== src/Examples/Servers.antt =====
-- The theorems about the Postgres and the Redis backend, at concrete inputs.
use swarmstate.Prelude.{
  ℕ, true, List, false, ◌||◌, Option, none, ◌≡◌, refl, ◌++◌, some, [], ◌∷◌, pair_eq,
}
use swarmstate.Prelude.Result.{ok}
use swarmstate.Prelude.Dict.{find}
use swarmstate.Text.{Text, text_eq, starts_with}
use swarmstate.Store.{IsStore}
use swarmstate.Store.Attempt.{attempt, answer, unless_nil, missing}
use swarmstate.Snapshot.{snapshot_meta}
use swarmstate.Postgres
use swarmstate.Postgres.Writes.{Ends}
use swarmstate.Postgres.Contract.{postgres_store, postgres_store-IsStore}
use swarmstate.Postgres.Restore.{restore-snapshot}
use swarmstate.Postgres.Async.{
  Access, aset, aget, aset_many, aget_many, acontains, adelete, adelete_many, adelete_namespace,
  akeys, amax_key, anamespaces,
}
use swarmstate.Postgres.Async.Twins.{refusal, postgres-async-eq-sync}
use swarmstate.Redis
use swarmstate.Redis.{glob_escape}
use swarmstate.Redis.Glob.{matches-glob_escape_star}
use swarmstate.Redis.Contract.{redis_store, redis_store-IsStore}
use swarmstate.Redis.Restore.{restore-redis_snapshot}
use swarmstate.Redis.Async
use swarmstate.Redis.Async.Twins.{redis-async-eq-sync}
use swarmstate.Postgres.Pools.{Event, goes_on, run, start, step}
use swarmstate.Postgres.Pools.Owners.{Sound}
use swarmstate.Postgres.Pools.Runs.{run-Sound}
use swarmstate.Examples.Table.{Table, text_codec, text_pack}
use swarmstate.Examples.PgTable.{pg_table, pg_table-IsPostgres, pg_table-Reliable}
use swarmstate.Examples.RedisTable.{redis_table, glob, redis_table-IsRedis, redis_table-Reliable}

-- "n", "k" and "a*"
abbrev n : Text
n = 110 ∷ []

abbrev k : Text
k = 107 ∷ []

abbrev star : Text
star = 97 ∷ 42 ∷ []

-- a time
abbrev stamp : ℕ
stamp = 5

-- the row of "k" in "n"
abbrev one_row : Table
one_row = ((n, k), text_pack (some k)) ∷ []

-- the same row in the hash "a*:n"
abbrev one_field : Table
one_field = ((97 ∷ 42 ∷ 58 ∷ 110 ∷ [], k), text_pack (some k)) ∷ []

postgres_store-IsStore_example : IsStore (postgres_store pg_table text_codec)
postgres_store-IsStore_example =
    postgres_store-IsStore pg_table text_codec pg_table-IsPostgres pg_table-Reliable

restore-snapshot_example :
    Ends pg_table
      (λ n k. find (n, k) one_row)
      (Postgres.restore pg_table text_codec
        (Postgres.snapshot pg_table text_codec stamp snapshot_meta one_row).0
        [])
restore-snapshot_example =
    restore-snapshot pg_table text_codec pg_table-IsPostgres pg_table-Reliable one_row [] stamp
      snapshot_meta

redis_store-IsStore_example : IsStore (redis_store redis_table text_codec star)
redis_store-IsStore_example =
    redis_store-IsStore redis_table text_codec star redis_table-IsRedis redis_table-Reliable

matches-glob_escape_star_example :
    glob false (glob_escape star ++ (42 ∷ [])) (97 ∷ 98 ∷ []) ≡ starts_with (97 ∷ 98 ∷ []) star
matches-glob_escape_star_example =
    matches-glob_escape_star redis_table redis_table-IsRedis star (97 ∷ 98 ∷ [])

restore-redis_snapshot_example :
    ((Redis.restore redis_table text_codec star
        (Redis.snapshot redis_table text_codec star stamp snapshot_meta one_field).0
        []).0
      ≡ ok tt)
    × ((n k : Text)
        → redis_table.hget
            (Redis.restore redis_table text_codec star
              (Redis.snapshot redis_table text_codec star stamp snapshot_meta one_field).0
              []).1
            (Redis.hkey redis_table text_codec star n)
            k
          ≡ redis_table.hget one_field (Redis.hkey redis_table text_codec star n) k)
restore-redis_snapshot_example =
    restore-redis_snapshot redis_table text_codec star redis_table-IsRedis redis_table-Reliable
      one_field [] stamp snapshot_meta

-- "t1" and "msgpack"
abbrev t1 : Text
t1 = 116 ∷ 49 ∷ []

-- A store that was given a sync connection only.
abbrev given_conn : Access
given_conn = record { apool = false; entry = false; dsn = false; unreachable = none }

postgres-async-eq-sync_example :
    ((n k : Text) (v : Option Text)
      → aset pg_table text_codec given_conn n k v
        ≡ attempt (refusal given_conn) (Postgres.set pg_table text_codec n k v))
    × ((items : List (Text × Text × Option Text))
        → aset_many pg_table text_codec given_conn items
          ≡ attempt
              (unless_nil items (refusal given_conn))
              (Postgres.set_many pg_table text_codec items))
    × ((n k : Text)
        → adelete pg_table text_codec given_conn n k
          ≡ attempt (refusal given_conn) (Postgres.delete pg_table text_codec n k))
    × ((pairs : List (Text × Text))
        → adelete_many pg_table text_codec given_conn pairs
          ≡ attempt
              (unless_nil pairs (refusal given_conn))
              (Postgres.delete_many pg_table text_codec pairs))
    × ((n : Text)
        → adelete_namespace pg_table text_codec given_conn n
          ≡ attempt (refusal given_conn) (Postgres.delete_namespace pg_table text_codec n))
    × ((s : pg_table.Db) (n k : Text) (v : Option Text)
        → aget pg_table text_codec given_conn s n k v
          ≡ answer (refusal given_conn) (Postgres.get pg_table text_codec s n k v))
    × ((s : pg_table.Db) (pairs : List (Text × Text))
        → aget_many pg_table text_codec given_conn s pairs
          ≡ answer
              (unless_nil pairs (refusal given_conn))
              (Postgres.get_many pg_table text_codec s pairs))
    × ((s : pg_table.Db) (n k : Text)
        → acontains pg_table text_codec given_conn s n k
          ≡ answer (refusal given_conn) (Postgres.contains pg_table text_codec s n k))
    × ((s : pg_table.Db) (n : Text) (p : Option Text)
        → akeys pg_table text_codec given_conn s n p
          ≡ answer (refusal given_conn) (Postgres.keys pg_table text_codec s n p))
    × ((s : pg_table.Db) (n : Text)
        → amax_key pg_table text_codec given_conn s n
          ≡ answer (refusal given_conn) (Postgres.max_key pg_table text_codec s n))
    × ((s : pg_table.Db) (p : Option Text)
        → anamespaces pg_table text_codec given_conn s p
          ≡ answer (refusal given_conn) (Postgres.namespaces pg_table text_codec s p))
postgres-async-eq-sync_example = postgres-async-eq-sync pg_table text_codec given_conn

-- A store that was given a sync client only.
redis-async-eq-sync_example :
    ((n k : Text) (v : Option Text)
      → Async.aset redis_table text_codec star false false n k v
        ≡ attempt (missing (false || false)) (Redis.set redis_table text_codec star n k v))
    × ((items : List (Text × Text × Option Text))
        → Async.aset_many redis_table text_codec star false false items
          ≡ attempt
              (unless_nil items (missing (false || false)))
              (Redis.set_many redis_table text_codec star items))
    × ((n k : Text)
        → Async.adelete redis_table text_codec star false false n k
          ≡ attempt (missing (false || false)) (Redis.delete redis_table text_codec star n k))
    × ((pairs : List (Text × Text))
        → Async.adelete_many redis_table text_codec star false false pairs
          ≡ attempt
              (unless_nil pairs (missing (false || false)))
              (Redis.delete_many redis_table text_codec star pairs))
    × ((n : Text)
        → Async.adelete_namespace redis_table text_codec star false false n
          ≡ attempt
              (missing (false || false))
              (Redis.delete_namespace redis_table text_codec star n))
    × ((s : redis_table.Server) (n k : Text) (v : Option Text)
        → Async.aget redis_table text_codec star false false s n k v
          ≡ answer (missing (false || false)) (Redis.get redis_table text_codec star s n k v))
    × ((s : redis_table.Server) (pairs : List (Text × Text))
        → Async.aget_many redis_table text_codec star false false s pairs
          ≡ answer
              (unless_nil pairs (missing (false || false)))
              (Redis.get_many redis_table text_codec star s pairs))
    × ((s : redis_table.Server) (n k : Text)
        → Async.acontains redis_table text_codec star false false s n k
          ≡ answer (missing (false || false)) (Redis.contains redis_table text_codec star s n k))
    × ((s : redis_table.Server) (n : Text) (p : Option Text)
        → Async.akeys redis_table text_codec star false false s n p
          ≡ answer (missing (false || false)) (Redis.keys redis_table text_codec star s n p))
    × ((s : redis_table.Server) (n : Text)
        → Async.amax_key redis_table text_codec star false false s n
          ≡ answer (missing (false || false)) (Redis.max_key redis_table text_codec star s n))
    × ((s : redis_table.Server) (p : Option Text)
        → Async.anamespaces redis_table text_codec star false false s p
          ≡ answer (missing (false || false)) (Redis.namespaces redis_table text_codec star s p))
redis-async-eq-sync_example = redis-async-eq-sync redis_table text_codec star false false

-- Two tasks open a pool at once, one of them is kept, and the other one is closed.
abbrev race : List Event
race = goes_on 0 ∷ goes_on 1 ∷ goes_on 0 ∷ goes_on 1 ∷ goes_on 1 ∷ goes_on 0 ∷ goes_on 0 ∷ []

one_kept : ((run race start).slot ≡ some 1) × ((run race start).closed 0 ≡ true)
unfolding run step swarmstate.Postgres.Pools.advance
one_kept = (refl, refl)

run-Sound_example : Sound (run race start)
run-Sound_example = run-Sound race
