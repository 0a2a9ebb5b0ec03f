-- ===== src/Postgres/Pools.antt =====
-- python/swarmstate/backends/postgres.py: the async pools of `PostgresStore` on one event loop.
-- Tasks run between their awaits one at a time, in any order; each event is such a piece of a task.
pub mod Owners
pub mod Runs
use swarmstate.Prelude.{
  ℕ, suc, ◌≡◌, Bool, true, false, Option, none, some, List, [], ◌∷◌, nat_eq, if◌then◌else◌,
}

-- Where a task stands that calls `_aconnection` or `aclose`. An entry of `_apools` is known by the
-- number under which `_open_async` made it.
pub data Phase : Type 0 where
  -- not begun
  waiting : Phase
  -- in `_open_async`
  opening : Phase
  -- `made` is there, and not offered yet
  opened : (made : ℕ) → Phase
  -- in `_close_async(made)`, as another task's entry is kept
  losing : (made entry : ℕ) → Phase
  -- in the body of the `with` statement
  using : (entry : ℕ) → Phase
  -- in `_close_async(entry)` of `aclose`
  closing : (entry : ℕ) → Phase
  ended : Phase

-- `self._apools.get(loop)`, how many entries were made, those that were closed, and the tasks.
pub record Pools : Type 0 where
  pub slot : Option ℕ
  pub made : ℕ
  pub closed : ℕ → Bool
  pub phase : ℕ → Phase

abbrev pub start : Pools
start = record { slot = none; made = 0; closed = λ i. false; phase = λ t. waiting }

-- A function with another value at one number.
abbrev pub put_at {ℓ} : {A : Type ℓ} → ℕ → A → (ℕ → A) → ℕ → A
put_at t a f u = if nat_eq t u then a else f u

abbrev pub to_phase : ℕ → Phase → Pools → Pools
to_phase t p w = record w { phase = put_at t p w.phase }

-- `entry = self._apools.get(loop)`
abbrev pub look : ℕ → Option ℕ → Pools → Pools
look t none w = to_phase t opening w
look t (some e) w = to_phase t (using e) w

-- `entry = self._apools.setdefault(loop, made)`
abbrev pub set_default : ℕ → ℕ → Option ℕ → Pools → Pools
set_default t i none w = record w { slot = some i; phase = put_at t (using i) w.phase }
set_default t i (some e) w = to_phase t (losing i e) w

-- `_close_async`, after which the task goes on
abbrev pub close_entry : ℕ → ℕ → Phase → Pools → Pools
close_entry t i p w = record w { closed = put_at i true w.closed; phase = put_at t p w.phase }

-- The next piece of a task in `_aconnection` or, once it has begun, in `aclose`.
unfoldable pub advance : ℕ → Phase → Pools → Pools
advance t waiting w = look t w.slot w
advance t opening w = record w { made = suc w.made; phase = put_at t (opened w.made) w.phase }
advance t (opened i) w = set_default t i w.slot w
advance t (losing i e) w = close_entry t i (using e) w
advance t (using e) w = to_phase t ended w
advance t (closing e) w = close_entry t e ended w
advance t ended w = w

-- `_open_async` raises.
unfoldable pub fail : ℕ → Phase → Pools → Pools
fail t opening w = to_phase t ended w
fail t _ w = w

-- `entry = self._apools.pop(loop, None)`
abbrev pub pop : ℕ → Option ℕ → Pools → Pools
pop t none w = to_phase t ended w
pop t (some e) w = record w { slot = none; phase = put_at t (closing e) w.phase }

-- `aclose`
unfoldable pub aclose : ℕ → Phase → Pools → Pools
aclose t waiting w = pop t w.slot w
aclose t _ w = w

pub data Event : Type 0 where
  goes_on fails closes : (t : ℕ) → Event

unfoldable pub step : Event → Pools → Pools
step (goes_on t) w = advance t (w.phase t) w
step (fails t) w = fail t (w.phase t) w
step (closes t) w = aclose t (w.phase t) w

unfoldable pub run : List Event → Pools → Pools
run [] w = w
run (e ∷ events) w = run events (step e w)
