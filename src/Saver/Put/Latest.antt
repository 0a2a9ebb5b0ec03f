-- ===== src/Saver/Put/Latest.antt =====
-- What the pointer store answers for the latest checkpoint of a thread after a run of puts.
use swarmstate.Prelude.{
  ◌+◌, ◌≡◌, ◌<◌, ◌≤◌, refl, true, false, none, some, List, [], ◌∷◌, ◌++◌, arith, length, is_some,
  eq_iff, eq_refl, pair_eq,
}
use swarmstate.Prelude.Eq.{Eq}
use swarmstate.Prelude.Dict.{Dict, find, insert}
use swarmstate.Prelude.Result.{ok}
use swarmstate.Store.{StoreLike, IsStore}
use swarmstate.Text.{Text, text_eq}
use swarmstate.Text.Order.{lt}
use swarmstate.Saver.{
  Config, ns_of, truthy, Checkpoint, Metadata, Langgraph, Stored, saved, Options, Saver, max_hints,
}
use swarmstate.Saver.Names.{ckpt_ns, latest_ns, latest_key, has_sep}
use swarmstate.Saver.Resolve.{resolve_latest}
use swarmstate.Saver.Put.{put_rows, written_put, put}
use swarmstate.Saver.Put.Roundtrip.{put_lem}
use swarmstate.Saver.Put.Pointer.{Tracks, put-Tracks, find-checkpoint, resolve_latest_pointed}

-- The arguments of one call of `put`.
pub record Call (V : Type 0) : Type 0 where
  pub config : Config
  pub checkpoint : Checkpoint V
  pub metadata : Metadata V
  pub new_versions : List (Text × Text)

-- No thread id contains the separator.
abbrev pub AllPlain : {V : Type 0} → List (Call V) → Type 0
AllPlain [] = Unit
AllPlain (p ∷ ps) = (has_sep p.config.thread_id ≡ false) × AllPlain ps

length-insert :
    {K : Type 0} {A : Type 0}
    → ⦃e : Eq K⦄ → (k : K) (v : A) (d : Dict K A) → length (insert k v d) ≤ length d + 1
unfolding insert
length-insert k v [] = ground arith
length-insert k v ((j, w) ∷ d) = ground (arith, length-insert k v d)

module _ {V : Type 0} (L : Langgraph V) (o : Options) (S : StoreLike Stored) where
  -- one put after the other
  unfoldable pub puts : List (Call V) → Saver S → Saver S
  puts [] st = st
  puts (p ∷ ps) st = puts ps (put L o S p.config p.checkpoint p.metadata p.new_versions st).1

module _ {V : Type 0} (L : Langgraph V) (o : Options) (S : StoreLike Stored) (laws : IsStore S)
    (unlimited : o.max_checkpoints_per_thread ≡ none) (pointers : o.store_indexes_max_key ≡ false)
    (t n : Text) (h : has_sep t ≡ false) where
  abbrev step : Call V → Saver S → Saver S
  step p st = written_put L o S p.config p.checkpoint p.metadata p.new_versions st

  puts-cons :
      (p : Call V) (ps : List (Call V)) (st : Saver S)
      → puts L o S (p ∷ ps) st ≡ puts L o S ps (step p st)
  unfolding puts
  puts-cons p ps st =
      rw (put_lem L o S laws p.config p.checkpoint p.metadata p.new_versions st unlimited) refl

  -- A put adds at most one hint.
  length-step :
      (p : Call V) (st : Saver S)
      → length st.max_seen < max_hints
      → length (step p st).max_seen ≤ length st.max_seen + 1
  unfolding written_put put_rows
  length-step p st room =
      ground (arith, length-insert (p.config.thread_id, ns_of p.config) p.checkpoint.id st.max_seen)

  stays :
      (p : Call V) (st : Saver S) (k : Text)
      → has_sep p.config.thread_id ≡ false
      → is_some (laws.find st.store (ckpt_ns t n) k) ≡ true
      → is_some (laws.find (step p st).store (ckpt_ns t n) k) ≡ true
  stays p st k h' q = ground (
    arith,
    find-checkpoint L o S laws p.config p.checkpoint p.metadata p.new_versions st n k t h h',
  )

  puts-stays :
      (ps : List (Call V)) (st : Saver S) (k : Text)
      → AllPlain ps
      → is_some (laws.find st.store (ckpt_ns t n) k) ≡ true
      → is_some (laws.find (puts L o S ps st).store (ckpt_ns t n) k) ≡ true
  puts-stays [] st k a q = unfold puts in q
  puts-stays (p ∷ ps) st k a q =
      rw (puts-cons p ps st) (puts-stays ps (step p st) k a.1 (stays p st k a.0 q))

  -- A checkpoint that is put is stored after the run.
  puts-stored :
      (before : List (Call V)) (p : Call V) (later : List (Call V)) (st : Saver S)
      → AllPlain (before ++ (p ∷ later))
      → p.config.thread_id ≡ t
      → ns_of p.config ≡ n
      → is_some
          (laws.find (puts L o S (before ++ (p ∷ later)) st).store (ckpt_ns t n) p.checkpoint.id)
        ≡ true
  puts-stored [] p later st a e e' = rw (puts-cons p later st) (
      puts-stays later (step p st) p.checkpoint.id a.1 (
        ground (
          arith,
          find-checkpoint L o S laws p.config p.checkpoint p.metadata p.new_versions st n
              p.checkpoint.id t h a.0,
          eq_refl p.checkpoint.id,
          eq_iff p.config.thread_id t,
          eq_iff (ns_of p.config) n,
        )))
  puts-stored (b ∷ before) p later st a e e' =
      rw (puts-cons b (before ++ (p ∷ later)) st) (puts-stored before p later (step b st) a.1 e e')

  puts-Tracks :
      (ps : List (Call V)) (st : Saver S)
      → AllPlain ps
      → length st.max_seen + length ps ≤ max_hints
      → Tracks L o S laws t n st
      → Tracks L o S laws t n (puts L o S ps st)
  puts-Tracks [] st a room track = unfold puts in track
  puts-Tracks (p ∷ ps) st a room track = rw (puts-cons p ps st) (
      puts-Tracks ps (step p st) a.1 (ground (arith, length-step p st)) (
        put-Tracks L o S laws p.config p.checkpoint p.metadata p.new_versions st t n h a.0 pointers
          (ground arith) track))

  -- What resolving the latest checkpoint answers: a stored checkpoint, with an id that no stored
  -- one exceeds, and nothing changes.
  abbrev pub AnswersGreatest : Saver S → Type 0
  AnswersGreatest st =
      (m : Text) × (entry : Stored) × (resolve_latest L S o t n st
        ≡ (ok (some (t, n, m, entry)), st))
      × (laws.find st.store (ckpt_ns t n) m ≡ some (some entry))
      × ((k : Text) → is_some (laws.find st.store (ckpt_ns t n) k) ≡ true → lt m k ≡ false)

  named_lem : (m k : Text) → lt m k ≡ false → truthy (some k) ≡ some k → truthy (some m) ≡ some m
  unfolding lt
  named_lem m [] a b = absurd (ground arith)
  named_lem [] (c ∷ k) a b = absurd (ground arith)
  named_lem (d ∷ m) (c ∷ k) a b = refl

  Tracks-AnswersGreatest :
      (st : Saver S) (k : Text)
      → truthy (some k) ≡ some k
      → is_some (laws.find st.store (ckpt_ns t n) k) ≡ true
      → Tracks L o S laws t n st
      → AnswersGreatest st
  Tracks-AnswersGreatest st k named q (Tracks.unseen a b p) = absurd (ground (arith, b k))
  Tracks-AnswersGreatest st k named q (Tracks.latest m x y parent a p r le) = (
    m,
    saved x y parent,
    resolve_latest_pointed L o S laws t n m (saved x y parent) st pointers p
        (named_lem m k (le k q) named) r,
    r,
    le,
  )

  -- A fresh saver puts at most 4096 checkpoints, in any order of ids, to a pointer store that has
  -- nothing of a thread, without a limit on the checkpoints of a thread, and no thread id has the
  -- separator in it. If one of the puts was to the thread, with an id that is not empty, then the
  -- checkpoint of that put is stored, and the latest checkpoint of the thread resolves to a stored
  -- one whose id no stored id exceeds, and the saver does not change.
  pub puts-AnswersGreatest :
      (before : List (Call V)) (p : Call V) (later : List (Call V)) (st : Saver S)
      → AllPlain (before ++ (p ∷ later))
      → length (before ++ (p ∷ later)) ≤ max_hints
      → st.max_seen ≡ []
      → ((k : Text) → laws.find st.store (ckpt_ns t n) k ≡ none)
      → laws.find st.store latest_ns (latest_key t n) ≡ none
      → p.config.thread_id ≡ t
      → ns_of p.config ≡ n
      → truthy (some p.checkpoint.id) ≡ some p.checkpoint.id
      → AnswersGreatest (puts L o S (before ++ (p ∷ later)) st)
        × (is_some (
              laws.find (puts L o S (before ++ (p ∷ later)) st).store (ckpt_ns t n) p.checkpoint.id)
            ≡ true)
  puts-AnswersGreatest before p later st a room fresh no_checkpoint no_pointer e e' named = (
    Tracks-AnswersGreatest (puts L o S (before ++ (p ∷ later)) st) p.checkpoint.id named stored (
        puts-Tracks (before ++ (p ∷ later)) st a (rw fresh (ground arith))
          (Tracks.unseen (rw fresh (unfold find in refl)) no_checkpoint no_pointer)),
    stored,
  )
    where
      stored :
          is_some
            (laws.find (puts L o S (before ++ (p ∷ later)) st).store (ckpt_ns t n) p.checkpoint.id)
          ≡ true
      stored = puts-stored before p later st a e e'
