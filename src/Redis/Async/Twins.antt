-- ===== src/Redis/Async/Twins.antt =====
-- The async methods of `RedisStore` and the sync ones, method by method.
use swarmstate.Prelude.{◌≡◌, refl, Bool, true, false, ◌||◌, Option, none, some, List, [], ◌∷◌}
use swarmstate.Prelude.Result.{ok, ◌>>=◌}
use swarmstate.Text.{Text}
use swarmstate.Text.Order.{max}
use swarmstate.Disk.Statements.{Codec}
use swarmstate.Store.Attempt.{attempt, answer, unless_nil, missing}
use swarmstate.Redis
use swarmstate.Redis.Commands.{Redis}
use swarmstate.Redis.Async
use swarmstate.Redis.Async.{
  aset, aget, aset_many, aget_many, acontains, adelete, adelete_many, adelete_namespace, akeys,
  amax_key, anamespaces, ar,
}

module _ {A : Type 0} (R : Redis) (C : Codec A) (prefix : Text) where
  on_client_lem :
      (aclient url : Bool) {B : Type 0} (body : Redis.Exec R C prefix B)
      → Async.on_client R C prefix aclient url body ≡ attempt (missing (aclient || url)) body
  unfolding ar
  on_client_lem true url body = refl
  on_client_lem false true body = refl
  on_client_lem false false body = refl

  ask_client_lem :
      (aclient url : Bool) {B : Type 0} (b : B)
      → Async.ask_client R C prefix aclient url b ≡ answer (missing (aclient || url)) b
  unfolding ar
  ask_client_lem true url b = refl
  ask_client_lem false true b = refl
  ask_client_lem false false b = refl

  module _ (aclient url : Bool) where
    aset_many_lem :
        (items : List (Text × Text × Option A))
        → aset_many R C prefix aclient url items
          ≡ attempt (unless_nil items (missing (aclient || url))) (Redis.set_many R C prefix items)
    unfolding aset_many Redis.set_many
    aset_many_lem [] = refl
    aset_many_lem (i ∷ items) = on_client_lem aclient url (Redis.set_many R C prefix (i ∷ items))

    aget_many_lem :
        (s : R.Server) (pairs : List (Text × Text))
        → aget_many R C prefix aclient url s pairs
          ≡ answer (unless_nil pairs (missing (aclient || url))) (Redis.get_many R C prefix s pairs)
    unfolding aget_many Redis.get_many
    aget_many_lem s [] = refl
    aget_many_lem s (p ∷ pairs) = ask_client_lem aclient url _

    adelete_many_lem :
        (pairs : List (Text × Text))
        → adelete_many R C prefix aclient url pairs
          ≡ attempt
              (unless_nil pairs (missing (aclient || url)))
              (Redis.delete_many R C prefix pairs)
    unfolding adelete_many Redis.delete_many
    adelete_many_lem [] = refl
    adelete_many_lem (p ∷ pairs) =
        on_client_lem aclient url (Redis.delete_many R C prefix (p ∷ pairs))

    akeys_lem :
        (s : R.Server) (n : Text) (p : Option Text)
        → akeys R C prefix aclient url s n p
          ≡ answer (missing (aclient || url)) (Redis.keys R C prefix s n p)
    unfolding akeys Redis.keys
    akeys_lem s n none = ask_client_lem aclient url _
    akeys_lem s n (some p) = ask_client_lem aclient url _

    answer-max :
        (supports : Bool) (ks : List Text)
        → (answer (missing supports) ks >>= λ ks. ok (max ks)) ≡ answer (missing supports) (max ks)
    answer-max true ks = refl
    answer-max false ks = refl

    amax_key_lem :
        (s : R.Server) (n : Text)
        → amax_key R C prefix aclient url s n
          ≡ answer (missing (aclient || url)) (Redis.max_key R C prefix s n)
    unfolding amax_key Redis.max_key
    amax_key_lem s n =
        rw (akeys_lem s n none) (answer-max (aclient || url) (Redis.keys R C prefix s n none))

    anamespaces_lem :
        (s : R.Server) (p : Option Text)
        → anamespaces R C prefix aclient url s p
          ≡ answer (missing (aclient || url)) (Redis.namespaces R C prefix s p)
    unfolding anamespaces Redis.namespaces Redis.iter_hkeys
    anamespaces_lem s none = ask_client_lem aclient url _
    anamespaces_lem s (some []) = ask_client_lem aclient url _
    anamespaces_lem s (some (c ∷ p)) = ask_client_lem aclient url _

    -- Each async method of the Redis backend answers and writes what the sync method of that name
    -- does where the store was given an async client or a URL. Else it raises a RuntimeError and
    -- changes nothing; but an empty batch returns without a client.
    pub redis-async-eq-sync :
        ((n k : Text) (v : Option A)
          → aset R C prefix aclient url n k v
            ≡ attempt (missing (aclient || url)) (Redis.set R C prefix n k v))
        × ((items : List (Text × Text × Option A))
            → aset_many R C prefix aclient url items
              ≡ attempt
                  (unless_nil items (missing (aclient || url)))
                  (Redis.set_many R C prefix items))
        × ((n k : Text)
            → adelete R C prefix aclient url n k
              ≡ attempt (missing (aclient || url)) (Redis.delete R C prefix n k))
        × ((pairs : List (Text × Text))
            → adelete_many R C prefix aclient url pairs
              ≡ attempt
                  (unless_nil pairs (missing (aclient || url)))
                  (Redis.delete_many R C prefix pairs))
        × ((n : Text)
            → adelete_namespace R C prefix aclient url n
              ≡ attempt (missing (aclient || url)) (Redis.delete_namespace R C prefix n))
        × ((s : R.Server) (n k : Text) (v : Option A)
            → aget R C prefix aclient url s n k v
              ≡ answer (missing (aclient || url)) (Redis.get R C prefix s n k v))
        × ((s : R.Server) (pairs : List (Text × Text))
            → aget_many R C prefix aclient url s pairs
              ≡ answer
                  (unless_nil pairs (missing (aclient || url)))
                  (Redis.get_many R C prefix s pairs))
        × ((s : R.Server) (n k : Text)
            → acontains R C prefix aclient url s n k
              ≡ answer (missing (aclient || url)) (Redis.contains R C prefix s n k))
        × ((s : R.Server) (n : Text) (p : Option Text)
            → akeys R C prefix aclient url s n p
              ≡ answer (missing (aclient || url)) (Redis.keys R C prefix s n p))
        × ((s : R.Server) (n : Text)
            → amax_key R C prefix aclient url s n
              ≡ answer (missing (aclient || url)) (Redis.max_key R C prefix s n))
        × ((s : R.Server) (p : Option Text)
            → anamespaces R C prefix aclient url s p
              ≡ answer (missing (aclient || url)) (Redis.namespaces R C prefix s p))
    unfolding aset aget acontains adelete adelete_namespace Redis.set Redis.get Redis.contains
        Redis.delete Redis.delete_namespace
    redis-async-eq-sync = (
      λ n k v. on_client_lem aclient url (Redis.set R C prefix n k v),
      aset_many_lem,
      λ n k. on_client_lem aclient url (Redis.delete R C prefix n k),
      adelete_many_lem,
      λ n. on_client_lem aclient url (Redis.delete_namespace R C prefix n),
      λ s n k v. ask_client_lem aclient url (Redis.get R C prefix s n k v),
      aget_many_lem,
      λ s n k. ask_client_lem aclient url (Redis.contains R C prefix s n k),
      akeys_lem,
      amax_key_lem,
      anamespaces_lem,
    )
