-- ===== src/Redis/Commands.antt =====
-- What backends/redis.py asks of Redis, which stands outside the repository: the commands that it
-- sends, and what their documentation promises. A hash exists while it has a field.
use swarmstate.Prelude.{
  ℕ, ◌≡◌, Bool, true, false, not, ◌&&◌, ◌||◌, Option, none, some, List, [], ◌∷◌, length, contains,
  ◌==◌, is_some, is_nil, if◌then◌else◌, IsDistinct, pair_eq, map, nat_eq, or_else, ltb,
}
use swarmstate.Prelude.Dict.{Dict, find}
use swarmstate.Text.{Text, text_eq}
use swarmstate.Snapshot.{Bytes}
use swarmstate.Store.{existing}

-- HSET of a field, HSET of many, HDEL of some fields, HLEN, and DEL of some keys
pub data Command : Type 0 where
  hset : Text → Text → Bytes → Command
  hset_all : Text → Dict Text Bytes → Command
  hdel : Text → List Text → Command
  hlen : Text → Command
  del : List Text → Command

pub record Redis : Type 1 where
  pub Server : Type 0
  -- the reply; `none` is a `redis.RedisError`
  pub command : Server → Command → Option (ℕ × Server)
  -- a pipeline in MULTI/EXEC
  pub exec : Server → List Command → Option (List ℕ × Server)
  pub hget : Server → Text → Text → Option Bytes
  pub hexists : Server → Text → Text → Bool
  pub hkeys : Server → Text → List Text
  pub hgetall : Server → Text → Dict Text Bytes
  -- `hscan_iter` and `scan_iter` with a pattern; they can give an element twice
  pub hscan : Server → Text → Text → List Text
  pub scan : Server → Text → List Text
  pub exists : Server → Text → ℕ
  -- whether a glob pattern matches a text
  pub matches : Text → Text → Bool

-- The characters with a meaning in a pattern: \ * ? [
abbrev pub is_glob : ℕ → Bool
is_glob c = (nat_eq c 92 || nat_eq c 42) || (nat_eq c 63 || nat_eq c 91)

-- What a command leaves at a field of a key.
abbrev pub effect : Command → (Text → Text → Option Bytes) → Text → Text → Option Bytes
effect (hset h f v) at h' f' = if h == h' && f == f' then some v else at h' f'
effect (hset_all h d) at h' f' = if h == h' then or_else (find f' d) (at h' f') else at h' f'
effect (hdel h fs) at h' f' = if h == h' && contains f' fs then none else at h' f'
effect (hlen h) at h' f' = at h' f'
effect (del hs) at h' f' = if contains h' hs then none else at h' f'

module _ (R : Redis) where
  -- The reply to a command.
  abbrev pub Replies : R.Server → Command → ℕ → Type 0
  Replies s (hdel h fs) c = c ≡ existing (λ h' f. is_some (R.hget s h' f)) (map (λ f. (h, f)) fs)
  Replies s (hlen h) c = c ≡ length (R.hkeys s h)
  Replies s _ c = Unit

  -- The commands of a transaction, one after the other.
  abbrev pub Runs : R.Server → List Command → List ℕ → R.Server → Type 0
  Runs s [] replies s' = (replies ≡ []) × (s' ≡ s)
  Runs s (c ∷ cs) replies s' =
      (n : ℕ) × (ns : List ℕ) × (t : R.Server) × (R.command s c ≡ some (n, t))
      × (replies ≡ n ∷ ns)
      × Runs t cs ns s'

  pub record IsRedis : Type 0 where
    pub command_effect :
        (s : R.Server) (c : Command) (n : ℕ) (s' : R.Server)
        → R.command s c ≡ some (n, s')
        → (h f : Text) → R.hget s' h f ≡ effect c (R.hget s) h f
    pub command_reply :
        (s : R.Server) (c : Command) (n : ℕ) (s' : R.Server)
        → R.command s c ≡ some (n, s')
        → Replies s c n
    -- a transaction that is executed is executed whole
    pub exec_lem :
        (s : R.Server) (cs : List Command) (replies : List ℕ) (s' : R.Server)
        → R.exec s cs ≡ some (replies, s')
        → Runs s cs replies s'
    pub hexists_lem : (s : R.Server) (h f : Text) → R.hexists s h f ≡ is_some (R.hget s h f)
    pub contains-hkeys :
        (s : R.Server) (h f : Text) → contains f (R.hkeys s h) ≡ is_some (R.hget s h f)
    pub hkeys-IsDistinct : (s : R.Server) (h : Text) → IsDistinct (R.hkeys s h)
    pub find-hgetall : (s : R.Server) (h f : Text) → find f (R.hgetall s h) ≡ R.hget s h f
    pub contains-hscan :
        (s : R.Server) (h p f : Text)
        → contains f (R.hscan s h p) ≡ (is_some (R.hget s h f) && R.matches p f)
    -- no key of another type matches the pattern
    pub contains-scan :
        (s : R.Server) (p h : Text)
        → contains h (R.scan s p) ≡ (not (is_nil (R.hkeys s h)) && R.matches p h)
    pub exists_lem : (s : R.Server) (h : Text) → ltb 0 (R.exists s h) ≡ not (is_nil (R.hkeys s h))
    pub matches-star : (s : Text) → R.matches (42 ∷ []) s ≡ true
    pub matches-escaped_nil : (c : ℕ) (p : Text) → R.matches (92 ∷ c ∷ p) [] ≡ false
    pub matches-escaped :
        (c : ℕ) (p : Text) (a : ℕ) (s : Text)
        → R.matches (92 ∷ c ∷ p) (a ∷ s) ≡ (nat_eq a c && R.matches p s)
    pub matches-plain_nil : (c : ℕ) (p : Text) → is_glob c ≡ false → R.matches (c ∷ p) [] ≡ false
    pub matches-plain :
        (c : ℕ) (p : Text) (a : ℕ) (s : Text)
        → is_glob c ≡ false
        → R.matches (c ∷ p) (a ∷ s) ≡ (nat_eq a c && R.matches p s)

  -- The server answers every command.
  pub record Reliable : Type 0 where
    pub command_succeeds :
        (s : R.Server) (c : Command) → (n : ℕ) × (s' : R.Server) × (R.command s c ≡ some (n, s'))
    pub exec_succeeds :
        (s : R.Server) (cs : List Command)
        → (replies : List ℕ) × (s' : R.Server) × (R.exec s cs ≡ some (replies, s'))
