-- ===== src/Redis.antt =====
-- python/swarmstate/backends/redis.py: `RedisStore`, over the commands of `Redis.Commands`. A method
-- that writes returns its result, or the exception, beside the server that it leaves.
pub mod Commands
pub mod Glob
pub mod Keys
pub mod Counting
pub mod Writes
pub mod Contract
pub mod Restore
pub mod Async
use swarmstate.Prelude.{
  ℕ, zero, suc, ◌+◌, Bool, not, Option, none, some, List, [], ◌∷◌, ◌++◌, map, is_some, is_nil, ltb,
  nat_eq, ◌||◌, if◌then◌else◌, drop, length,
}
use swarmstate.Prelude.Dict.{Dict, insert}
use swarmstate.Prelude.Group.{group}
use swarmstate.Prelude.Result.{Result, ok, raise, redis_error, value_error}
use swarmstate.Text.{Text, text_eq}
use swarmstate.Text.Order.{max}
use swarmstate.Disk.Statements.{Codec}
use swarmstate.Snapshot.{Bytes, Row, CopySnapshot, SnapshotMeta, copy_snapshot, next}
use Commands.{Redis, Command, hset, hset_all, hdel, hlen, del}

-- `ch in "\\*?[]^"`
abbrev pub is_escaped : ℕ → Bool
is_escaped c =
    ((nat_eq c 92 || nat_eq c 42) || (nat_eq c 63 || nat_eq c 91)) || (nat_eq c 93 || nat_eq c 94)

-- `_glob_escape`
unfoldable pub glob_escape : Text → Text
glob_escape [] = []
glob_escape (c ∷ text) =
    let rest = glob_escape text in if is_escaped c then 92 ∷ c ∷ rest else c ∷ rest

-- `RedisSnapshot`: the snapshot, and the hashes by namespace
pub record RedisSnapshot (Time : Type 0) : Type 0 where
  pub copy : CopySnapshot Time
  pub data_of : Dict Text (Dict Text Bytes)

abbrev rows_in : Text → Dict Text Bytes → List Row
rows_in ns kv = map (λ (f : Text × Bytes). (ns, f.0, f.1)) kv

-- `[(ns, k, v) for ns, kv in data.items() for k, v in kv.items()]`
unfoldable pub flat_rows : Dict Text (Dict Text Bytes) → List Row
flat_rows [] = []
flat_rows ((ns, kv) ∷ hashes) = rows_in ns kv ++ flat_rows hashes

-- `self._prefix`
module _ {A : Type 0} (R : Redis) (C : Codec A) (prefix : Text) where
  abbrev pub Exec : Type 0 → Type 0
  Exec B = R.Server → Result B × R.Server

  -- ------------------------------------------------------------- helpers
  unfoldable pub hkey : Text → Text
  hkey namespace = prefix ++ (58 ∷ namespace)

  -- the pattern of `_iter_hkeys`; an empty prefix is none
  abbrev pattern_of : Option Text → Text
  pattern_of none = glob_escape prefix ++ (58 ∷ 42 ∷ [])
  pattern_of (some []) = glob_escape prefix ++ (58 ∷ 42 ∷ [])
  pattern_of (some (c ∷ p)) = glob_escape prefix ++ (58 ∷ glob_escape (c ∷ p) ++ (42 ∷ []))

  unfoldable pub iter_hkeys : R.Server → Option Text → List Text
  iter_hkeys s ns_prefix = R.scan s (pattern_of ns_prefix)

  unfoldable pub ns_of : Text → Text
  ns_of h = drop (length prefix + 1) h

  abbrev or_default : Option A → Option Bytes → Option A
  or_default default none = default
  or_default default (some v) = C.unpack v

  abbrev ran : R.Server → Option (ℕ × R.Server) → Result ℕ × R.Server
  ran s none = (raise redis_error, s)
  ran s (some (count, s')) = (ok count, s')

  -- one command
  unfoldable pub run : Command → Exec ℕ
  run c s = ran s (R.command s c)

  abbrev executed : R.Server → Option (List ℕ × R.Server) → Result (List ℕ) × R.Server
  executed s none = (raise redis_error, s)
  executed s (some (replies, s')) = (ok replies, s')

  -- `pipe.execute()` of a pipeline in MULTI/EXEC
  unfoldable pub execute : List Command → Exec (List ℕ)
  execute cs s = executed s (R.exec s cs)

  abbrev done : {B : Type 0} → Result B × R.Server → Result (Unit {0}) × R.Server
  done (ok n, s) = (ok tt, s)
  done (raise e, s) = (raise e, s)

  -- ------------------------------------------------------------- core API
  unfoldable pub set : Text → Text → Option A → Exec Unit
  set namespace key value s = done (run (hset (hkey namespace) key (C.pack value)) s)

  unfoldable pub get : R.Server → Text → Text → Option A → Option A
  get s namespace key default = or_default default (R.hget s (hkey namespace) key)

  unfoldable pub set_many : List (Text × Text × Option A) → Exec Unit
  set_many [] s = (ok tt, s)
  set_many (item ∷ items) s =
      done (execute (map (λ i. hset (hkey i.0) i.1 (C.pack i.2)) (item ∷ items)) s)

  -- the replies of the pipeline come in the order of its commands
  unfoldable pub get_many : R.Server → List (Text × Text) → List (Option A)
  get_many s pairs = map (λ p. or_default none (R.hget s (hkey p.0) p.1)) pairs

  unfoldable pub contains : R.Server → Text → Text → Bool
  contains s namespace key = R.hexists s (hkey namespace) key

  abbrev above_zero : Result ℕ × R.Server → Result Bool × R.Server
  above_zero (ok count, s) = (ok (ltb 0 count), s)
  above_zero (raise e, s) = (raise e, s)

  unfoldable pub delete : Text → Text → Exec Bool
  delete namespace key s = above_zero (run (hdel (hkey namespace) (key ∷ [])) s)

  unfoldable pub sum : List ℕ → ℕ
  sum [] = 0
  sum (n ∷ ns) = n + sum ns

  abbrev summed : Result (List ℕ) × R.Server → Result ℕ × R.Server
  summed (ok replies, s) = (ok (sum replies), s)
  summed (raise e, s) = (raise e, s)

  unfoldable pub hdels : Dict Text (List Text) → List Command
  hdels [] = []
  hdels ((ns, fields) ∷ by_ns) = hdel (hkey ns) fields ∷ hdels by_ns

  unfoldable pub delete_many : List (Text × Text) → Exec ℕ
  delete_many [] s = (ok 0, s)
  delete_many (pair ∷ pairs) s = summed (execute (hdels (group [] (pair ∷ pairs))) s)

  -- `count, _ = pipe.execute()`; another number of replies is a `ValueError`
  abbrev first_of : Result (List ℕ) × R.Server → Result ℕ × R.Server
  first_of (ok (count ∷ n ∷ []), s) = (ok count, s)
  first_of (ok _, s) = (raise value_error, s)
  first_of (raise e, s) = (raise e, s)

  unfoldable pub delete_namespace : Text → Exec ℕ
  delete_namespace namespace s =
      first_of (execute (hlen (hkey namespace) ∷ del (hkey namespace ∷ []) ∷ []) s)

  unfoldable pub keys : R.Server → Text → Option Text → List Text
  keys s namespace none = R.hkeys s (hkey namespace)
  keys s namespace (some p) = R.hscan s (hkey namespace) (glob_escape p ++ (42 ∷ []))

  unfoldable pub max_key : R.Server → Text → Option Text
  max_key s namespace = max (keys s namespace none)

  unfoldable pub namespaces : R.Server → Option Text → List Text
  namespaces s p = map ns_of (iter_hkeys s p)

  abbrev delete_all : List Text → Exec Unit
  delete_all [] s = (ok tt, s)
  delete_all (h ∷ hs) s = done (run (del (h ∷ hs)) s)

  unfoldable pub clear : Exec Unit
  clear s = delete_all (iter_hkeys s none) s

  abbrev lengths : R.Server → List Text → ℕ
  lengths s [] = 0
  lengths s (h ∷ hs) = length (R.hkeys s h) + lengths s hs

  -- `__len__` and `__contains__`
  unfoldable pub len : R.Server → ℕ
  len s = lengths s (iter_hkeys s none)

  unfoldable pub contains_namespace : R.Server → Text → Bool
  contains_namespace s namespace = ltb 0 (R.exists s (hkey namespace))

  -- ------------------------------------------------------------- snapshot
  unfoldable pub hashes :
      R.Server → Dict Text (Dict Text Bytes) → List Text → Dict Text (Dict Text Bytes)
  hashes s found [] = found
  hashes s found (h ∷ hs) = hashes s (insert (ns_of h) (R.hgetall s h) found) hs

  unfoldable pub snapshot :
      {Time : Type 0} → Time → SnapshotMeta → R.Server → RedisSnapshot Time × SnapshotMeta
  snapshot now m s =
      let (stamp, m') = next m now in
      let found = hashes s [] (iter_hkeys s none) in
      (record { copy = copy_snapshot (flat_rows found) stamp; data_of = found }, m')

  -- the HSETs of `restore`
  unfoldable pub refills : Dict Text (Dict Text Bytes) → List Command
  refills [] = []
  refills ((ns, kv) ∷ rest) =
      let more = refills rest in if is_nil kv then more else hset_all (hkey ns) kv ∷ more

  abbrev wiped : List Text → List Command → List Command
  wiped [] cs = cs
  wiped (h ∷ hs) cs = del (h ∷ hs) ∷ cs

  unfoldable pub restore : {Time : Type 0} → RedisSnapshot Time → Exec Unit
  restore snap s = done (execute (wiped (iter_hkeys s none) (refills snap.data_of)) s)
