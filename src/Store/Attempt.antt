-- ===== src/Store/Attempt.antt =====
-- What a method does that may fail before it reaches its server.
use swarmstate.Prelude.{Bool, Option, none, some, if◌then◌else◌, List, is_nil}
use swarmstate.Prelude.Result.{Result, Error, ok, raise, runtime_error}

-- A method that writes, or the exception, which leaves the state as it is.
abbrev pub attempt : {B S : Type 0} → Option Error → (S → Result B × S) → S → Result B × S
attempt none body s = body s
attempt (some e) body s = (raise e, s)

-- The answer of a method that reads, or the exception.
abbrev pub answer : {B : Type 0} → Option Error → B → Result B
answer none b = ok b
answer (some e) b = raise e

-- A batch that is empty needs no server.
abbrev pub unless_nil : {X : Type 0} → List X → Option Error → Option Error
unless_nil xs e = if is_nil xs then none else e

-- The exception of a store without an async client.
abbrev pub missing : Bool → Option Error
missing supports_async = if supports_async then none else some runtime_error
