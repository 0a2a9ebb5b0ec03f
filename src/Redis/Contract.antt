-- ===== src/Redis/Contract.antt =====
-- `RedisStore` keeps the promises of `StoreLike`, over a server that answers every command.
use mathlib.Core.Option
use mathlib.Core.Path.{fun_ext}
use swarmstate.Prelude.{
  ◌≡◌, refl, ap, ◌∙◌, Bool, false, Option, none, some, List, [], ◌∷◌, ◌++◌, map, arith,
  if◌then◌else◌, is_some, length, or_else, get_or, contains, pair_eq,
}
use swarmstate.Prelude.Group.{group}
use swarmstate.Text.{Text, text_eq}
use swarmstate.Store.{StoreLike, IsStore, written, existing}
use swarmstate.Store.Packed.{packed, written-packed, unpacked-or_else}
use swarmstate.Snapshot.{Bytes}
use swarmstate.Disk.Statements.{Codec}
use swarmstate.Disk.Contract.{result_or}
use swarmstate.Redis
use swarmstate.Redis.{sum, hdels, glob_escape}
use swarmstate.Redis.Commands.{Redis, IsRedis, Reliable, hset, hdel, hlen, del, effect}
use swarmstate.Redis.Glob.{matches-glob_escape_star}
use swarmstate.Redis.Keys.{hkey_eq, contains-namespaces, contains-iter_hkeys, nil_none}
use swarmstate.Redis.Writes.{sets_lem, grouped_count, grouped_effect}

module _ {A : Type 0} (R : Redis) (C : Codec A) (prefix : Text) where
  abbrev hkey : Text → Text
  hkey = Redis.hkey R C prefix

  -- The methods as operations on the server; an exception leaves a default result.
  abbrev pub redis_store : StoreLike A
  redis_store = record {
    State = R.Server;
    set = λ s n k v. (Redis.set R C prefix n k v s).1;
    get = Redis.get R C prefix;
    set_many = λ s items. (Redis.set_many R C prefix items s).1;
    get_many = Redis.get_many R C prefix;
    has = Redis.contains R C prefix;
    delete = λ s n k. (let r = Redis.delete R C prefix n k s in (r.1, result_or false r.0));
    delete_many =
        λ s pairs. (let r = Redis.delete_many R C prefix pairs s in (r.1, result_or 0 r.0));
    delete_namespace =
        λ s n. (let r = Redis.delete_namespace R C prefix n s in (r.1, result_or 0 r.0));
    keys = Redis.keys R C prefix;
    max_key = Redis.max_key R C prefix;
    namespaces = Redis.namespaces R C prefix;
    clear = λ s. (Redis.clear R C prefix s).1;
  }

  -- The entry of a pair: the value that its bytes stand for.
  pub entry : R.Server → Text → Text → Option (Option A)
  entry s n k = Option.map C.unpack (R.hget s (hkey n) k)

  default_lem :
      (o : Option Bytes) (v : Option A)
      → Redis.or_default R C prefix v o ≡ get_or (Option.map C.unpack o) v
  default_lem none v = refl
  default_lem (some b) v = refl

  module _ (laws : IsRedis R) (reliable : Reliable R) where
    set_lem :
        (n k : Text) (v : Option A) (s : R.Server) (h f : Text)
        → R.hget (Redis.set R C prefix n k v s).1 h f
          ≡ effect (hset (hkey n) k (C.pack v)) (R.hget s) h f
    unfolding Redis.set Redis.run
    set_lem n k v s h f =
        let (c, s', e) = reliable.command_succeeds s (hset (hkey n) k (C.pack v)) in
        rw e (laws.command_effect s (hset (hkey n) k (C.pack v)) c s' e h f)

    set_many_lem :
        (items : List (Text × Text × Option A)) (s : R.Server) (n k : Text)
        → R.hget (Redis.set_many R C prefix items s).1 (hkey n) k
          ≡ or_else (written (packed C items) n k) (R.hget s (hkey n) k)
    unfolding Redis.set_many Redis.execute written
    set_many_lem [] s n k = refl
    set_many_lem (item ∷ items) s n k =
        let cs =
          map (λ (i : Text × Text × Option A). hset (hkey i.0) i.1 (C.pack i.2)) (item ∷ items) in
        let (replies, s', e) = reliable.exec_succeeds s cs in
        rw e (
          sets_lem R C prefix laws (item ∷ items) s replies s' (laws.exec_lem s cs replies s' e) n
            k)

    delete_effect :
        (n k : Text) (s : R.Server) (h f : Text)
        → R.hget (Redis.delete R C prefix n k s).1 h f
          ≡ effect (hdel (hkey n) (k ∷ [])) (R.hget s) h f
    unfolding Redis.delete Redis.run
    delete_effect n k s h f =
        let (c, s', e) = reliable.command_succeeds s (hdel (hkey n) (k ∷ [])) in
        rw e (laws.command_effect s (hdel (hkey n) (k ∷ [])) c s' e h f)

    deleted_lem :
        (s : R.Server) (n k : Text)
        → result_or false (Redis.delete R C prefix n k s).0 ≡ is_some (R.hget s (hkey n) k)
    unfolding Redis.delete Redis.run existing
    deleted_lem s n k =
        let (c, s', e) = reliable.command_succeeds s (hdel (hkey n) (k ∷ [])) in
        rw e (ground (arith, laws.command_reply s (hdel (hkey n) (k ∷ [])) c s' e))

    delete_many_effect :
        (pairs : List (Text × Text)) (s : R.Server) (n k : Text)
        → R.hget (Redis.delete_many R C prefix pairs s).1 (hkey n) k
          ≡ (if contains (n, k) pairs then none else R.hget s (hkey n) k)
    unfolding Redis.delete_many Redis.execute contains
    delete_many_effect [] s n k = refl
    delete_many_effect (p ∷ pairs) s n k =
        let cs = hdels R C prefix (group [] (p ∷ pairs)) in
        let (replies, s', e) = reliable.exec_succeeds s cs in
        rw e (
          grouped_effect R C prefix laws (p ∷ pairs) s replies s' (laws.exec_lem s cs replies s' e)
            n k)

    delete_many_count :
        (pairs : List (Text × Text)) (s : R.Server)
        → result_or 0 (Redis.delete_many R C prefix pairs s).0
          ≡ existing (λ n k. is_some (R.hget s (hkey n) k)) pairs
    unfolding Redis.delete_many Redis.execute existing
    delete_many_count [] s = refl
    delete_many_count (p ∷ pairs) s =
        let cs = hdels R C prefix (group [] (p ∷ pairs)) in
        let (replies, s', e) = reliable.exec_succeeds s cs in
        rw e
          (grouped_count R C prefix laws (p ∷ pairs) s replies s' (laws.exec_lem s cs replies s' e))

    -- The transaction of `delete_namespace`.
    emptied :
        (n : Text) (s : R.Server)
        → (result_or 0 (Redis.delete_namespace R C prefix n s).0 ≡ length (R.hkeys s (hkey n)))
          × ((h f : Text)
              → R.hget (Redis.delete_namespace R C prefix n s).1 h f
                ≡ effect (del (hkey n ∷ [])) (R.hget s) h f)
    unfolding Redis.delete_namespace Redis.execute
    emptied n s =
        let cs = hlen (hkey n) ∷ del (hkey n ∷ []) ∷ [] in
        let (replies, s', e) = reliable.exec_succeeds s cs in
        let (c, cs', t, e1, r1, (c', cs'', t', e2, r2, (r3, r4))) =
          laws.exec_lem s cs replies s' e in
        rw (e, r1, r2, r3, r4)
          (
            laws.command_reply s (hlen (hkey n)) c t e1,
            λ h f.
                laws.command_effect t (del (hkey n ∷ [])) c' t' e2 h f
                ∙ ground (arith, laws.command_effect s (hlen (hkey n)) c t e1 h f),
          )

    delete_all_effect :
        (hs : List Text) (s : R.Server) (h f : Text)
        → R.hget (Redis.delete_all R C prefix hs s).1 h f
          ≡ (if contains h hs then none else R.hget s h f)
    unfolding Redis.run contains
    delete_all_effect [] s h f = refl
    delete_all_effect (h0 ∷ hs) s h f =
        let (c, s', e) = reliable.command_succeeds s (del (h0 ∷ hs)) in
        rw e (laws.command_effect s (del (h0 ∷ hs)) c s' e h f)

    cleared : (s : R.Server) (n k : Text) → R.hget (Redis.clear R C prefix s).1 (hkey n) k ≡ none
    unfolding Redis.clear
    cleared s n k =
        delete_all_effect (Redis.iter_hkeys R C prefix s none) s (hkey n) k
        ∙ ground
            (arith, contains-iter_hkeys R C prefix laws s n, nil_none R C prefix laws s (hkey n) k)

    present_lem :
        (s : R.Server) (n k : Text) → is_some (entry s n k) ≡ is_some (R.hget s (hkey n) k)
    unfolding entry
    present_lem s n k = ground arith

    is_some_entry :
        (s : R.Server)
        → ◌≡◌ {A = Text → Text → Bool}
            (λ n k. is_some (entry s n k))
            (λ n k. is_some (R.hget s (hkey n) k))
    is_some_entry s = fun_ext λ n. fun_ext λ k. present_lem s n k

    -- Over a server that answers every command, the twelve methods of the store record do, in the
    -- Redis backend, what `IsStore` asks of them, whatever the prefix of its keys. Of `namespaces`,
    -- and of `keys` with a prefix, it asks which names are in the answer, and not in what order or
    -- how often, as SCAN may give a name twice; of the length, of `in` and of snapshots it asks
    -- nothing.
    pub redis_store-IsStore : IsStore redis_store
    unfolding entry Redis.get Redis.get_many Redis.contains Redis.keys Redis.max_key contains
    redis_store-IsStore = record {
      find = entry;
      find-set = λ s n k v n' k'.
          rw (set_lem n k v s (hkey n') k', hkey_eq R C prefix laws n n')
            (ground (arith, C.unpack-pack v));
      get_lem = λ s n k v. default_lem (R.hget s (hkey n) k) v;
      find-set_many =
          λ s items n k. rw (set_many_lem items s n k, unpacked-or_else, written-packed C) refl;
      get_many_lem = λ s pairs.
          ap (λ (f : Text × Text → Option A). map f pairs)
            (fun_ext λ p. default_lem (R.hget s (hkey p.0) p.1) none);
      has_lem = λ s n k. rw laws.hexists_lem (ground arith);
      find-delete = λ s n k n' k'.
          rw (delete_effect n k s (hkey n') k', hkey_eq R C prefix laws n n') (ground arith);
      delete_result = λ s n k. rw deleted_lem (ground arith);
      find-delete_many = λ s pairs n k. rw (delete_many_effect pairs s n k) (ground arith);
      delete_many_result = λ s pairs. rw (is_some_entry s) (delete_many_count pairs s);
      find-delete_namespace =
          λ s n n' k. rw ((emptied n s).1 (hkey n') k, hkey_eq R C prefix laws n n') (ground arith);
      delete_namespace_result = λ s n. (emptied n s).0;
      contains-keys = λ s n k. rw laws.contains-hkeys (ground arith);
      keys-IsDistinct = λ s n. laws.hkeys-IsDistinct s (hkey n);
      contains-keys_prefix = λ s n p k v.
          laws.contains-hscan s (hkey n) (glob_escape p ++ (42 ∷ [])) k
          ∙ ground (arith, matches-glob_escape_star R laws p k);
      max_key_lem = λ s n. refl;
      contains-namespaces = λ s n. contains-namespaces R C prefix laws s none n ∙ ground arith;
      contains-namespaces_prefix = λ s p n v. contains-namespaces R C prefix laws s (some p) n;
      find-clear = λ s n k. rw (cleared s n k) refl;
    }
