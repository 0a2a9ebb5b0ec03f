-- ===== src/Redis/Async.antt =====
-- The async methods of `RedisStore`. The async client reaches the same server; `clear` has no async
-- twin. The store may have been given an async client, and may have been built from a URL.
pub mod Twins
use swarmstate.Prelude.{ℕ, Bool, Option, none, some, List, [], ◌∷◌, ◌++◌, map, if◌then◌else◌}
use swarmstate.Prelude.Group.{group}
use swarmstate.Prelude.Result.{Result, ok, raise, runtime_error, ◌>>=◌}
use swarmstate.Text.{Text, text_eq}
use swarmstate.Text.Order.{max}
use swarmstate.Disk.Statements.{Codec}
use swarmstate.Redis
use swarmstate.Redis.{glob_escape, hdels}
use swarmstate.Redis.Commands.{Redis, hset, hdel, hlen, del}

module _ {A : Type 0} (R : Redis) (C : Codec A) (prefix : Text) (aclient url : Bool) where
  abbrev pub Exec : Type 0 → Type 0
  Exec B = Redis.Exec R C prefix B

  abbrev hkey : Text → Text
  hkey = Redis.hkey R C prefix

  -- `_ar`: the client that was given, or one for the running loop, which a URL is needed for
  unfoldable pub ar : Result (Unit {0})
  ar = if aclient then ok tt else if url then ok tt else raise runtime_error

  abbrev then_run : {B : Type 0} → Result (Unit {0}) → Exec B → Exec B
  then_run (ok client) body s = body s
  then_run (raise e) body s = (raise e, s)

  -- a method that runs its commands on `self._ar()`
  abbrev on_client : {B : Type 0} → Exec B → Exec B
  on_client body = then_run ar body

  abbrev ask_client : {B : Type 0} → B → Result B
  ask_client b = ar >>= λ client. ok b

  unfoldable pub aset : Text → Text → Option A → Exec Unit
  aset namespace key value =
      on_client λ s.
        Redis.done R C prefix (Redis.run R C prefix (hset (hkey namespace) key (C.pack value)) s)

  unfoldable pub aget : R.Server → Text → Text → Option A → Result (Option A)
  aget s namespace key default =
      ask_client (Redis.or_default R C prefix default (R.hget s (hkey namespace) key))

  unfoldable pub aset_many : List (Text × Text × Option A) → Exec Unit
  aset_many [] s = (ok tt, s)
  aset_many (item ∷ items) s =
      on_client
        (λ s.
          Redis.done R C prefix (
            Redis.execute R C prefix (map (λ i. hset (hkey i.0) i.1 (C.pack i.2)) (item ∷ items))
              s))
        s

  unfoldable pub aget_many : R.Server → List (Text × Text) → Result (List (Option A))
  aget_many s [] = ok []
  aget_many s (pair ∷ pairs) =
      ask_client
        (map (λ p. Redis.or_default R C prefix none (R.hget s (hkey p.0) p.1)) (pair ∷ pairs))

  unfoldable pub acontains : R.Server → Text → Text → Result Bool
  acontains s namespace key = ask_client (R.hexists s (hkey namespace) key)

  unfoldable pub adelete : Text → Text → Exec Bool
  adelete namespace key =
      on_client
        λ s. Redis.above_zero R C prefix (Redis.run R C prefix (hdel (hkey namespace) (key ∷ [])) s)

  abbrev akeys_on : R.Server → Text → Option Text → List Text
  akeys_on s namespace none = R.hkeys s (hkey namespace)
  akeys_on s namespace (some p) = R.hscan s (hkey namespace) (glob_escape p ++ (42 ∷ []))

  unfoldable pub akeys : R.Server → Text → Option Text → Result (List Text)
  akeys s namespace p = ask_client (akeys_on s namespace p)

  unfoldable pub amax_key : R.Server → Text → Result (Option Text)
  amax_key s namespace = akeys s namespace none >>= λ ks. ok (max ks)

  -- an empty prefix is none
  abbrev apattern : Option Text → Text
  apattern none = 42 ∷ []
  apattern (some []) = 42 ∷ []
  apattern (some (c ∷ p)) = glob_escape (c ∷ p) ++ (42 ∷ [])

  unfoldable pub anamespaces : R.Server → Option Text → Result (List Text)
  anamespaces s p =
      ask_client (map (Redis.ns_of R C prefix) (R.scan s (glob_escape prefix ++ (58 ∷ apattern p))))

  unfoldable pub adelete_many : List (Text × Text) → Exec ℕ
  adelete_many [] s = (ok 0, s)
  adelete_many (pair ∷ pairs) s =
      on_client
        (λ s.
          Redis.summed R C prefix
            (Redis.execute R C prefix (hdels R C prefix (group [] (pair ∷ pairs))) s))
        s

  unfoldable pub adelete_namespace : Text → Exec ℕ
  adelete_namespace namespace = on_client λ s.
      Redis.first_of R C prefix
        (Redis.execute R C prefix (hlen (hkey namespace) ∷ del (hkey namespace ∷ []) ∷ []) s)
