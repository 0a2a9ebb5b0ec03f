-- ===== src/Redis/Restore.antt =====
-- `restore` of what `snapshot` took, on any server.
use swarmstate.Prelude.{
  ℕ, ◌≡◌, refl, ◌∙◌, true, Option, none, some, List, [], ◌∷◌, arith, if◌then◌else◌, or_else,
  contains, IsDistinct, eq_iff,
}
use swarmstate.Prelude.Dict.{
  Dict, find, insert, keys, find-insert, contains-keys, insert-IsDistinct,
}
use swarmstate.Prelude.Result.{ok}
use swarmstate.Text.{Text, text_eq}
use swarmstate.Snapshot.{Bytes, SnapshotMeta, next, copy_snapshot}
use swarmstate.Disk.Statements.{Codec}
use swarmstate.Redis
use swarmstate.Redis.{hashes, refills, wiped}
use swarmstate.Redis.Commands.{Redis, IsRedis, Reliable, Command, Runs, hset_all, del}
use swarmstate.Redis.Keys.{hkey_eq, hkey_of_all, contains-iter_hkeys, nil_none}

-- The field of a hash among hashes by namespace.
abbrev field : Text → Option (Dict Text Bytes) → Option Bytes
field k none = none
field k (some kv) = find k kv

module _ {A : Type 0} (R : Redis) (C : Codec A) (prefix : Text) (laws : IsRedis R) where
  abbrev hkey : Text → Text
  hkey = Redis.hkey R C prefix

  find-hashes :
      (s : R.Server) (hs : List Text) (found : Dict Text (Dict Text Bytes)) (n : Text)
      → ((h : Text) → contains h hs ≡ true → hkey (Redis.ns_of R C prefix h) ≡ h)
      → find n (hashes R C prefix s found hs)
        ≡ (if contains (hkey n) hs then some (R.hgetall s (hkey n)) else find n found)
  unfolding hashes contains
  find-hashes s [] found n q = refl
  find-hashes s (h ∷ hs) found n q =
      let m = Redis.ns_of R C prefix h in
      let e : hkey m ≡ h = q h (ground (arith, eq_iff h h)) in
      find-hashes s hs (insert m (R.hgetall s h) found) n (λ h' c. q h' (ground arith))
      ∙ ground (
        arith,
        find-insert m n (R.hgetall s h) found,
        hkey_eq R C prefix laws m n,
        eq_iff m n,
        eq_iff h (hkey n),
        e,
      )

  hashes-IsDistinct :
      (s : R.Server) (hs : List Text) (found : Dict Text (Dict Text Bytes))
      → IsDistinct (keys found)
      → IsDistinct (keys (hashes R C prefix s found hs))
  unfolding hashes
  hashes-IsDistinct s [] found d = d
  hashes-IsDistinct s (h ∷ hs) found d =
      hashes-IsDistinct s hs _
        (insert-IsDistinct (Redis.ns_of R C prefix h) (R.hgetall s h) found d)

  refills_lem :
      (d : Dict Text (Dict Text Bytes)) (s : R.Server) (replies : List ℕ) (s' : R.Server)
      → IsDistinct (keys d)
      → Runs R s (refills R C prefix d) replies s'
      → (n k : Text) → R.hget s' (hkey n) k ≡ or_else (field k (find n d)) (R.hget s (hkey n) k)
  unfolding refills find
  refills_lem [] s replies s' distinct (e, e') n k = rw e' refl
  refills_lem ((m, []) ∷ d) s replies s' distinct runs n k =
      refills_lem d s replies s' distinct.1 runs n k
      ∙ ground (arith, distinct.0, contains-keys m d, eq_iff m n)
  refills_lem ((m, (f, v) ∷ kv) ∷ d) s replies s' distinct (c, cs, t, e, e', runs) n k =
      refills_lem d t cs s' distinct.1 runs n k
      ∙ ground (
        arith,
        distinct.0,
        contains-keys m d,
        eq_iff m n,
        laws.command_effect s (hset_all (hkey m) ((f, v) ∷ kv)) c t e (hkey n) k,
        hkey_eq R C prefix laws m n,
      )

  wiped_lem :
      (hs : List Text) (cs : List Command) (s : R.Server) (replies : List ℕ) (s' : R.Server)
      → Runs R s (wiped R C prefix hs cs) replies s'
      → (ns : List ℕ) × (t : R.Server) × Runs R t cs ns s'
        × ((h f : Text) → R.hget t h f ≡ (if contains h hs then none else R.hget s h f))
  unfolding contains
  wiped_lem [] cs s replies s' runs = (replies, s, runs, λ h f. refl)
  wiped_lem (h0 ∷ hs) cs s replies s' (c, ns, t, e, e', runs) =
      (ns, t, runs, λ h f. laws.command_effect s (del (h0 ∷ hs)) c t e h f)

  taken_field :
      (s : R.Server) (n k : Text)
      → field k (find n (hashes R C prefix s [] (Redis.iter_hkeys R C prefix s none)))
        ≡ R.hget s (hkey n) k
  unfolding find
  taken_field s n k = ground (
    arith,
    find-hashes s (Redis.iter_hkeys R C prefix s none) [] n (hkey_of_all R C prefix laws s),
    contains-iter_hkeys R C prefix laws s n,
    laws.find-hgetall s (hkey n) k,
    nil_none R C prefix laws s (hkey n) k,
  )

  -- A refill behind a wipe.
  refilled :
      {Time : Type 0} (taken s : R.Server) (now : Time) (m : SnapshotMeta) (ns : List ℕ)
      (s' : R.Server)
      → R.exec s (
          wiped R C prefix
            (Redis.iter_hkeys R C prefix s none)
            (refills R C prefix (Redis.snapshot R C prefix now m taken).0.data_of))
        ≡ some (ns, s')
      → (n k : Text) → R.hget s' (hkey n) k ≡ R.hget taken (hkey n) k
  unfolding Redis.snapshot next copy_snapshot
  refilled taken s now m ns s' e n k =
      let all = Redis.iter_hkeys R C prefix taken none in
      let stale = Redis.iter_hkeys R C prefix s none in
      let found = hashes R C prefix taken [] all in
      let (ns', t, runs, wipe) =
        wiped_lem stale (refills R C prefix found) s ns s' (laws.exec_lem s _ ns s' e) in
      refills_lem found t ns' s' (hashes-IsDistinct taken all [] tt) runs n k
      ∙ ground (
        arith,
        taken_field taken n k,
        wipe (hkey n) k,
        contains-iter_hkeys R C prefix laws s n,
        nil_none R C prefix laws s (hkey n) k,
      )

  -- On a server that answers every command, `restore` of a snapshot succeeds, and every namespace
  -- then holds what it held when the snapshot was taken, whatever the server held before.
  pub restore-redis_snapshot :
      (reliable : Reliable R) {Time : Type 0} (taken s : R.Server) (now : Time) (m : SnapshotMeta)
      → ((Redis.restore R C prefix (Redis.snapshot R C prefix now m taken).0 s).0 ≡ ok tt)
        × ((n k : Text)
            → R.hget
                (Redis.restore R C prefix (Redis.snapshot R C prefix now m taken).0 s).1
                (hkey n)
                k
              ≡ R.hget taken (hkey n) k)
  unfolding Redis.restore Redis.execute
  restore-redis_snapshot reliable taken s now m =
      let cs =
        wiped R C prefix (Redis.iter_hkeys R C prefix s none)
          (refills R C prefix (Redis.snapshot R C prefix now m taken).0.data_of) in
      let (ns, s', e) = reliable.exec_succeeds s cs in rw e (refl, refilled taken s now m ns s' e)
