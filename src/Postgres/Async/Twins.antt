-- ===== src/Postgres/Async/Twins.antt =====
-- The async methods and the sync ones, method by method.
use swarmstate.Prelude.{
  ◌≡◌, refl, ◌||◌, Option, none, some, List, [], ◌∷◌, if◌then◌else◌, Bool-cases, Option-cases, inl,
  inr,
}
use swarmstate.Prelude.Result.{Error, ok, runtime_error, ◌>>=◌}
use swarmstate.Text.{Text}
use swarmstate.Disk.Statements.{Codec}
use swarmstate.Store.Attempt.{attempt, answer, unless_nil}
use swarmstate.Postgres
use swarmstate.Postgres.Statements.{Postgresql}
use swarmstate.Postgres.Async
use swarmstate.Postgres.Async.{
  Access, open_async, aconnection, aset, aget, aset_many, aget_many, acontains, adelete,
  adelete_many, adelete_namespace, akeys, amax_key, anamespaces,
}

-- The exception of a store that has no async connection and cannot open one.
abbrev pub refusal : Access → Option Error
refusal a = if a.apool || a.entry then none else if a.dsn then a.unreachable else some runtime_error

aconnection_lem : (a : Access) → aconnection a ≡ answer (refusal a) tt
unfolding aconnection open_async
aconnection_lem a = elim (Bool-cases a.apool) [
  | inl e ↦ rw e refl
  | inr e ↦ elim (Bool-cases a.entry) [
    | inl f ↦ rw (e, f) refl
    | inr f ↦ elim (Bool-cases a.dsn) [
      | inr g ↦ rw (e, f, g) refl
      | inl g ↦ elim (Option-cases a.unreachable) [
        | inl h ↦ rw (e, f, g, h) refl
        | inr (x, h) ↦ rw (e, f, g, h) refl
      ]
    ]
  ]
]

module _ {A : Type 0} (P : Postgresql) (C : Codec A) (a : Access) where
  run_answer :
      {B : Type 0} (e : Option Error) (body : Postgres.Exec P C B)
      → Async.then_run P C a (answer e tt) body ≡ attempt e body
  run_answer none body = refl
  run_answer (some e) body = refl

  ask_answer : {B : Type 0} (e : Option Error) (b : B) → (answer e tt >>= λ conn. ok b) ≡ answer e b
  ask_answer none b = refl
  ask_answer (some e) b = refl

  on_connection_lem :
      {B : Type 0} (body : Postgres.Exec P C B)
      → Async.on_connection P C a body ≡ attempt (refusal a) body
  on_connection_lem body = rw (aconnection_lem a) (run_answer (refusal a) body)

  ask_connection_lem : {B : Type 0} (b : B) → Async.ask_connection P C a b ≡ answer (refusal a) b
  ask_connection_lem b = rw (aconnection_lem a) (ask_answer (refusal a) b)

  aset_many_lem :
      (items : List (Text × Text × Option A))
      → aset_many P C a items ≡ attempt (unless_nil items (refusal a)) (Postgres.set_many P C items)
  unfolding aset_many Postgres.set_many
  aset_many_lem [] = refl
  aset_many_lem (i ∷ items) = on_connection_lem (Postgres.set_many P C (i ∷ items))

  aget_many_lem :
      (d : P.Db) (pairs : List (Text × Text))
      → aget_many P C a d pairs
        ≡ answer (unless_nil pairs (refusal a)) (Postgres.get_many P C d pairs)
  unfolding aget_many Postgres.get_many
  aget_many_lem d [] = refl
  aget_many_lem d (p ∷ pairs) = ask_connection_lem _

  adelete_many_lem :
      (pairs : List (Text × Text))
      → adelete_many P C a pairs
        ≡ attempt (unless_nil pairs (refusal a)) (Postgres.delete_many P C pairs)
  unfolding adelete_many Postgres.delete_many
  adelete_many_lem [] = refl
  adelete_many_lem (p ∷ pairs) = on_connection_lem (Postgres.delete_many P C (p ∷ pairs))

  akeys_lem :
      (d : P.Db) (n : Text) (prefix : Option Text)
      → akeys P C a d n prefix ≡ answer (refusal a) (Postgres.keys P C d n prefix)
  unfolding akeys Postgres.keys
  akeys_lem d n none = ask_connection_lem _
  akeys_lem d n (some p) = ask_connection_lem _

  anamespaces_lem :
      (d : P.Db) (prefix : Option Text)
      → anamespaces P C a d prefix ≡ answer (refusal a) (Postgres.namespaces P C d prefix)
  unfolding anamespaces Postgres.namespaces
  anamespaces_lem d none = ask_connection_lem _
  anamespaces_lem d (some p) = ask_connection_lem _

  -- Each async method of the Postgres backend answers and writes what the sync method of that name
  -- does where the store was given an async pool, has one for the running loop or can open one from
  -- its DSN. Else it raises, the RuntimeError without a DSN or the exception of opening, and
  -- changes nothing; but an empty batch returns without a connection.
  pub postgres-async-eq-sync :
      ((n k : Text) (v : Option A)
        → aset P C a n k v ≡ attempt (refusal a) (Postgres.set P C n k v))
      × ((items : List (Text × Text × Option A))
          → aset_many P C a items
            ≡ attempt (unless_nil items (refusal a)) (Postgres.set_many P C items))
      × ((n k : Text) → adelete P C a n k ≡ attempt (refusal a) (Postgres.delete P C n k))
      × ((pairs : List (Text × Text))
          → adelete_many P C a pairs
            ≡ attempt (unless_nil pairs (refusal a)) (Postgres.delete_many P C pairs))
      × ((n : Text)
          → adelete_namespace P C a n ≡ attempt (refusal a) (Postgres.delete_namespace P C n))
      × ((s : P.Db) (n k : Text) (v : Option A)
          → aget P C a s n k v ≡ answer (refusal a) (Postgres.get P C s n k v))
      × ((s : P.Db) (pairs : List (Text × Text))
          → aget_many P C a s pairs
            ≡ answer (unless_nil pairs (refusal a)) (Postgres.get_many P C s pairs))
      × ((s : P.Db) (n k : Text)
          → acontains P C a s n k ≡ answer (refusal a) (Postgres.contains P C s n k))
      × ((s : P.Db) (n : Text) (p : Option Text)
          → akeys P C a s n p ≡ answer (refusal a) (Postgres.keys P C s n p))
      × ((s : P.Db) (n : Text) → amax_key P C a s n ≡ answer (refusal a) (Postgres.max_key P C s n))
      × ((s : P.Db) (p : Option Text)
          → anamespaces P C a s p ≡ answer (refusal a) (Postgres.namespaces P C s p))
  unfolding aset aget acontains adelete adelete_namespace amax_key Postgres.set Postgres.get
      Postgres.contains Postgres.delete Postgres.delete_namespace Postgres.max_key
  postgres-async-eq-sync = (
    λ n k v. on_connection_lem (Postgres.set P C n k v),
    aset_many_lem,
    λ n k. on_connection_lem (Postgres.delete P C n k),
    adelete_many_lem,
    λ n. on_connection_lem (Postgres.delete_namespace P C n),
    λ d n k v. ask_connection_lem (Postgres.get P C d n k v),
    aget_many_lem,
    λ d n k. ask_connection_lem (Postgres.contains P C d n k),
    akeys_lem,
    λ d n. ask_connection_lem (Postgres.max_key P C d n),
    anamespaces_lem,
  )
