-- ===== src/Saver/History/Fuel.antt =====
-- The walk of `get_delta_channel_history` ends within its fuel, as ids fall along the parents.
use swarmstate.Prelude.{
  ℕ, zero, suc, ◌≤◌, ◌<◌, ◌≡◌, refl, inl, inr, true, not, Option, none, some, List, [], ◌∷◌, ◌++◌,
  arith, filter, length, contains, eq_iff, Bool-cases,
}
use swarmstate.Prelude.Dict.{insert_all, keys}
use swarmstate.Prelude.Result.{Result, ok, raise}
use swarmstate.Store.{StoreLike, IsStore}
use swarmstate.Text.{Text, text_eq}
use swarmstate.Text.Order.{max, lt, lt_irrefl, lt_trans}
use swarmstate.Saver.{
  Config, ns_of, Saver, truthy, Langgraph, Typed, Stored, saved, pointer, write, blob, empty,
  Options,
}
use swarmstate.Saver.Names.{ckpt_ns, latest_ns, latest_key}
use swarmstate.Saver.Tuple.{channel_values, pending_writes}
use swarmstate.Saver.Trim.{minus}
use swarmstate.Saver.Resolve
use swarmstate.Saver.Resolve.{Resolved, resolve, resolve_latest, read_checkpoint, scan, follow}
use swarmstate.Saver.Tuple.Fuel.{
  HasFuel, bind-HasFuel, pending_writes-HasFuel, channel_values-HasFuel,
}
use swarmstate.Saver.History
use swarmstate.Saver.History.{collect, get_delta_channel_history}

-- How many ids are not above one.
abbrev pub reach : Text → List Text → ℕ
reach c ids = length (filter (λ i. not (lt c i)) ids)

reach-le-length : (c : Text) (ids : List Text) → reach c ids ≤ length ids
reach-le-length c [] = omega arith
reach-le-length c (i ∷ ids) = ground (arith, reach-le-length c ids)

reach_falls : (p c : Text) (ids : List Text) → lt p c ≡ true → reach p ids ≤ reach c ids
reach_falls p c [] h = omega arith
reach_falls p c (i ∷ ids) h = ground (arith, reach_falls p c ids h, lt_trans p c i)

reach_falls_by_one :
    (p c : Text) (ids : List Text)
    → lt p c ≡ true
    → contains c ids ≡ true
    → reach p ids < reach c ids
unfolding contains
reach_falls_by_one p c [] h m = absurd (ground (arith, m))
reach_falls_by_one p c (i ∷ ids) h m = ground (
  arith,
  reach_falls_by_one p c ids h,
  reach_falls p c ids h,
  lt_trans p c i,
  lt_irrefl c,
  eq_iff i c,
)

module _ {V : Type 0} (L : Langgraph V) (S : StoreLike Stored) (o : Options)
    (laws : IsStore S) where
  -- The parent of a stored checkpoint has a smaller id.
  abbrev pub IsDescending : S.State → Text → Type 0
  IsDescending s ns =
      (id : Text) (cp md : Typed) (parent : Option Text) (p : Text)
      → S.get s ns id none ≡ some (saved cp md parent)
      → truthy parent ≡ some p
      → lt p id ≡ true

  abbrev Found : Type 0
  Found = History.Found L S o

  is_key :
      (s : S.State) (ns id : Text) (e : Stored)
      → S.get s ns id none ≡ some e
      → contains id (S.keys s ns none) ≡ true
  is_key s ns id e h = ground (arith, laws.get_lem s ns id none, laws.contains-keys s ns id)

  at_row-HasFuel :
      (row : Option Stored) (found : Found) (next : Typed → Option Text → Result Found)
      → ((cp md : Typed) (parent : Option Text)
          → row ≡ some (saved cp md parent)
          → HasFuel (next cp parent))
      → HasFuel (History.at_row L S o row found next)
  at_row-HasFuel none found next h = tt
  at_row-HasFuel (some (saved cp md parent)) found next h = h cp md parent refl
  at_row-HasFuel (some (pointer i)) found next h = refl
  at_row-HasFuel (some (write i ch v p)) found next h = refl
  at_row-HasFuel (some (blob v)) found next h = refl
  at_row-HasFuel (some empty) found next h = refl

  -- What the fuel has to exceed, for a cursor.
  abbrev Suffices : S.State → Text → Option Text → ℕ → Type 0
  Suffices s ns none fuel = Unit
  Suffices s ns (some c) fuel = reach c (S.keys s ns none) < fuel

  next-Suffices :
      (s : S.State) (ns c : Text) (parent : Option Text) (fuel : ℕ)
      → ((p : Text) → parent ≡ some p → lt p c ≡ true)
      → contains c (S.keys s ns none) ≡ true
      → reach c (S.keys s ns none) < suc fuel
      → Suffices s ns parent fuel
  next-Suffices s ns c none fuel falls m h = tt
  next-Suffices s ns c (some p) fuel falls m h =
      let less = reach_falls_by_one p c (S.keys s ns none) (falls p refl) m in omega arith

  collect-HasFuel :
      (fuel : ℕ) (s : S.State) (t n : Text) (remaining : List Text) (cursor : Option Text)
      (found : Found)
      → ((d : Typed) → HasFuel (L.loads_typed d))
      → IsDescending s (ckpt_ns t n)
      → Suffices s (ckpt_ns t n) cursor fuel
      → HasFuel (collect L S o fuel s t n remaining cursor found)
  unfolding collect
  collect-HasFuel fuel s t n [] cursor found loads falls h = tt
  collect-HasFuel fuel s t n (r ∷ remaining) none found loads falls h = tt
  collect-HasFuel zero s t n (r ∷ remaining) (some c) found loads falls h = absurd (omega arith)
  collect-HasFuel (suc fuel) s t n (r ∷ remaining) (some c) found loads falls h =
      let ns = ckpt_ns t n in
      at_row-HasFuel (S.get s ns c none) found _ (λ cp md parent e.
        bind-HasFuel (pending_writes L S o s t n c (some (r ∷ remaining))) _
          (pending_writes-HasFuel L S o loads s t n c (some (r ∷ remaining)))
          (λ here.
            bind-HasFuel (channel_values L S o s t n cp (r ∷ remaining)) _
              (channel_values-HasFuel L S o loads s t n cp (r ∷ remaining))
              (λ present.
                collect-HasFuel fuel s t n (minus (r ∷ remaining) (keys present)) (truthy parent)
                  (here ++ found.0, insert_all found.1 present) loads falls
                  (next-Suffices s ns c (truthy parent) fuel (λ p q. falls c cp md parent p e q)
                    (is_key s ns c (saved cp md parent) e) h))))

  start-Suffices :
      (s : S.State) (ns : Text) (cursor : Option Text)
      → Suffices s ns cursor (suc (length (S.keys s ns none)))
  start-Suffices s ns none = tt
  start-Suffices s ns (some c) = omega (arith, reach-le-length c (S.keys s ns none))

  read-HasFuel : (t n id : Text) (st : Saver S) → HasFuel (read_checkpoint L S o t n id st).0
  unfolding read_checkpoint
  read-HasFuel t n id st = tt

  scan-HasFuel : (t n : Text) (st : Saver S) → HasFuel (scan L S o t n st).0
  unfolding scan
  scan-HasFuel t n st = newest (max (S.keys st.store (ckpt_ns t n) none))
    where
      newest :
          (m : Option Text)
          → HasFuel
              (elim m as (λ m. Result (Option Resolved) × Saver S) [
                | none ↦ (ok none, st)
                | some newest ↦ read_checkpoint L S o t n newest (record st {
                  store = S.set st.store latest_ns (latest_key t n) (some (pointer newest));
                })
              ]).0
      newest none = tt
      newest (some id) = read-HasFuel t n id _

  found-HasFuel :
      (t n id : Text) (e : Option Stored) (st : Saver S)
      → HasFuel (Resolve.found_or_scan L S o t n id e st).0
  found-HasFuel t n id none st = scan-HasFuel t n st
  found-HasFuel t n id (some e) st = tt

  follow-HasFuel :
      (t n : Text) (r : Result (Option Text)) (st : Saver S)
      → HasFuel r
      → HasFuel (follow L S o t n r st).0
  unfolding follow
  follow-HasFuel t n (raise e) st h = h
  follow-HasFuel t n (ok none) st h = scan-HasFuel t n st
  follow-HasFuel t n (ok (some id)) st h = found-HasFuel t n id _ st

  pointed-HasFuel : (e : Option Stored) → HasFuel (Resolve.pointed L S o e)
  pointed-HasFuel none = tt
  pointed-HasFuel (some (pointer id)) = tt
  pointed-HasFuel (some (saved cp md p)) = refl
  pointed-HasFuel (some (write i ch v p)) = refl
  pointed-HasFuel (some (blob v)) = refl
  pointed-HasFuel (some empty) = refl

  by_max_key-HasFuel :
      (t n : Text) (id : Option Text) (st : Saver S)
      → HasFuel (Resolve.by_max_key L S o t n id st).0
  by_max_key-HasFuel t n none st = tt
  by_max_key-HasFuel t n (some id) st = read-HasFuel t n id st

  resolve_id-HasFuel :
      (t n : Text) (id : Option Text) (st : Saver S)
      → HasFuel (Resolve.resolve_id L S o t n id st).0
  unfolding resolve_latest read_checkpoint follow scan
  resolve_id-HasFuel t n (some id) st = read-HasFuel t n id st
  resolve_id-HasFuel t n none st = elim (Bool-cases o.store_indexes_max_key) [
    | inl e ↦ rw e (by_max_key-HasFuel t n (truthy (S.max_key st.store (ckpt_ns t n))) st)
    | inr e ↦ rw e (
        follow-HasFuel t n (Resolve.pointed L S o (S.get st.store latest_ns (latest_key t n) none))
          st (pointed-HasFuel (S.get st.store latest_ns (latest_key t n) none)))
  ]

  collected-HasFuel :
      (channels : List Text) (r : Result (Option Resolved) × Saver S)
      → ((d : Typed) → HasFuel (L.loads_typed d))
      → ((t n : Text) → IsDescending r.1.store (ckpt_ns t n))
      → HasFuel r.0
      → HasFuel (History.collected L S o channels r)
  collected-HasFuel channels (raise e, st) loads falls h = h
  collected-HasFuel channels (ok none, st) loads falls h = tt
  collected-HasFuel channels (ok (some (t, n, id, saved cp md parent)), st) loads falls h =
      collect-HasFuel (suc (length (S.keys st.store (ckpt_ns t n) none))) st.store t n channels
        (truthy parent) ([], []) loads (falls t n)
        (start-Suffices st.store (ckpt_ns t n) (truthy parent))
  collected-HasFuel channels (ok (some (t, n, id, pointer i)), st) loads falls h = refl
  collected-HasFuel channels (ok (some (t, n, id, write i ch v p)), st) loads falls h = refl
  collected-HasFuel channels (ok (some (t, n, id, blob v)), st) loads falls h = refl
  collected-HasFuel channels (ok (some (t, n, id, empty)), st) loads falls h = refl

  answer-HasFuel :
      (st : Saver S) (channels : List Text) (r : Result Found)
      → HasFuel r
      → HasFuel (History.answer L S o st channels r).0
  answer-HasFuel st channels (raise e) h = h
  answer-HasFuel st channels (ok found) h = tt

  -- The walk of `get_delta_channel_history` up the parents ends within one round more than the
  -- namespace has checkpoints, where the serializer does not raise the error that stands for too
  -- little fuel and where a stored checkpoint's parent has a smaller id: the result is never that
  -- error.
  pub get_delta_channel_history-HasFuel :
      (c : Config) (channels : List Text) (st : Saver S)
      → ((d : Typed) → HasFuel (L.loads_typed d))
      → ((t n : Text) → IsDescending (resolve L S o c st).1.store (ckpt_ns t n))
      → HasFuel (get_delta_channel_history L S o c channels st).0
  unfolding get_delta_channel_history resolve
  get_delta_channel_history-HasFuel c [] st loads falls = tt
  get_delta_channel_history-HasFuel c (ch ∷ channels) st loads falls =
      answer-HasFuel _ (ch ∷ channels) _ (
        collected-HasFuel (ch ∷ channels) _ loads falls
          (resolve_id-HasFuel c.thread_id (ns_of c) (truthy (L.get_checkpoint_id c)) st))
