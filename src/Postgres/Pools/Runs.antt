-- ===== src/Postgres/Pools/Runs.antt =====
-- Any order of the tasks keeps the accounts of the async pools.
use swarmstate.Prelude.{ℕ, ◌≡◌, refl, ap, sym, Option, none, some, List, [], ◌∷◌}
use swarmstate.Postgres.Pools.{
  Phase, waiting, opening, opened, losing, using, closing, ended, Pools, start, look, set_default,
  advance, fail, pop, aclose, Event, goes_on, fails, closes, step, run,
}
use swarmstate.Postgres.Pools.Owners.{
  owned, Sound, start-Sound, moves, opens, wins, closes_own, pops,
}

-- Each event keeps the accounts.
look-Sound :
    (t : ℕ) (slot : Option ℕ) (w : Pools)
    → Sound w
    → owned (w.phase t) ≡ none
    → Sound (look t slot w)
look-Sound t none w s h = moves w t s opening (sym h)
look-Sound t (some i) w s h = moves w t s (using i) (sym h)

set_default-Sound :
    (t i : ℕ) (slot : Option ℕ) (w : Pools)
    → Sound w
    → owned (w.phase t) ≡ some i
    → w.slot ≡ slot
    → Sound (set_default t i slot w)
set_default-Sound t i none w s h e = wins w t s i h e
set_default-Sound t i (some j) w s h e = moves w t s (losing i j) (sym h)

pop-Sound :
    (t : ℕ) (slot : Option ℕ) (w : Pools)
    → Sound w
    → owned (w.phase t) ≡ none
    → w.slot ≡ slot
    → Sound (pop t slot w)
pop-Sound t none w s h e = moves w t s ended (sym h)
pop-Sound t (some i) w s h e = pops w t s i h e

advance-Sound : (t : ℕ) (p : Phase) (w : Pools) → Sound w → w.phase t ≡ p → Sound (advance t p w)
unfolding advance
advance-Sound t waiting w s e = look-Sound t w.slot w s (ap owned e)
advance-Sound t opening w s e = opens w t s (ap owned e)
advance-Sound t (opened i) w s e = set_default-Sound t i w.slot w s (ap owned e) refl
advance-Sound t (losing i j) w s e = closes_own w t s i (using j) (ap owned e) refl
advance-Sound t (using j) w s e = moves w t s ended (sym (ap owned e))
advance-Sound t (closing j) w s e = closes_own w t s j ended (ap owned e) refl
advance-Sound t ended w s e = s

fail-Sound : (t : ℕ) (p : Phase) (w : Pools) → Sound w → w.phase t ≡ p → Sound (fail t p w)
unfolding fail
fail-Sound t waiting w s e = s
fail-Sound t opening w s e = moves w t s ended (sym (ap owned e))
fail-Sound t (opened i) w s e = s
fail-Sound t (losing i j) w s e = s
fail-Sound t (using j) w s e = s
fail-Sound t (closing j) w s e = s
fail-Sound t ended w s e = s

aclose-Sound : (t : ℕ) (p : Phase) (w : Pools) → Sound w → w.phase t ≡ p → Sound (aclose t p w)
unfolding aclose
aclose-Sound t waiting w s e = pop-Sound t w.slot w s (ap owned e) refl
aclose-Sound t opening w s e = s
aclose-Sound t (opened i) w s e = s
aclose-Sound t (losing i j) w s e = s
aclose-Sound t (using j) w s e = s
aclose-Sound t (closing j) w s e = s
aclose-Sound t ended w s e = s

step-Sound : (e : Event) (w : Pools) → Sound w → Sound (step e w)
unfolding step
step-Sound (goes_on t) w s = advance-Sound t (w.phase t) w s refl
step-Sound (fails t) w s = fail-Sound t (w.phase t) w s refl
step-Sound (closes t) w s = aclose-Sound t (w.phase t) w s refl

runs-Sound : (events : List Event) (w : Pools) → Sound w → Sound (run events w)
unfolding run
runs-Sound [] w s = s
runs-Sound (e ∷ events) w s = runs-Sound events (step e w) (step-Sound e w s)

-- However the tasks of an event loop that call `_aconnection` and `aclose` take turns between their
-- awaits, on a store that was built from a DSN, where no task is cancelled and closing a pool does
-- not raise: each pool that was opened is closed, or is the one that is kept for the loop, or is
-- with exactly one task that is about to keep or close it; and a pool that is kept or with a task
-- was opened and is not closed, so that none is lost and none is closed twice.
pub run-Sound : (events : List Event) → Sound (run events start)
run-Sound events = runs-Sound events start start-Sound
