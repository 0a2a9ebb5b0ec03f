-- ===== src/Saver/Put/Stale.antt =====
-- The pointer store when the saver has no hint for the thread: after a restart, in a second
-- process, or when the hints were dropped.
use swarmstate.Prelude.{◌≡◌, refl, true, false, none, some, List, arith, is_some, eq_refl, pair_eq}
use swarmstate.Prelude.Dict.{find}
use swarmstate.Prelude.Result.{ok}
use swarmstate.Store.{StoreLike, IsStore}
use swarmstate.Text.{Text, text_eq}
use swarmstate.Text.Order.{lt}
use swarmstate.Saver.{
  Object, ns_of, truthy, Checkpoint, Metadata, Langgraph, Stored, saved, pointer, Options, Saver,
  Config,
}
use swarmstate.Saver.Names.{ckpt_ns, latest_ns, latest_key, has_sep}
use swarmstate.Saver.Resolve.{resolve_latest}
use swarmstate.Saver.Put.{publishes, checkpoint_row, stripped, written_put, put}
use swarmstate.Saver.Put.Roundtrip.{put_lem}
use swarmstate.Saver.Put.Pointer.{find-checkpoint, find-pointer, resolve_latest_pointed}

module _ {V : Type 0} (L : Langgraph V) (o : Options) (S : StoreLike Stored) (laws : IsStore S)
    (c : Config) (cp : Checkpoint V) (md : Metadata V) (nv : List (Text × Text)) (st : Saver S)
    (unlimited : o.max_checkpoints_per_thread ≡ none) (pointers : o.store_indexes_max_key ≡ false)
    (h : has_sep c.thread_id ≡ false)
    (unhinted : find (c.thread_id, ns_of c) st.max_seen ≡ none) where
  abbrev saver_after : Saver S
  saver_after = written_put L o S c cp md nv st

  publishes_unhinted : publishes L o c cp st.max_seen ≡ true
  unfolding publishes
  publishes_unhinted = rw (pointers, unhinted) refl

  pointer_after :
      laws.find saver_after.store latest_ns (latest_key c.thread_id (ns_of c))
      ≡ some (some (pointer cp.id))
  pointer_after = ground (
    arith,
    find-pointer L o S laws c cp md nv st (ns_of c) c.thread_id h h,
    publishes_unhinted,
    eq_refl c.thread_id,
    eq_refl (ns_of c),
  )

  checkpoint_after :
      laws.find saver_after.store (ckpt_ns c.thread_id (ns_of c)) cp.id
      ≡ some (checkpoint_row L o c cp md).2
  checkpoint_after = ground (
    arith,
    find-checkpoint L o S laws c cp md nv st (ns_of c) cp.id c.thread_id h h,
    eq_refl c.thread_id,
    eq_refl (ns_of c),
    eq_refl cp.id,
  )

  remains :
      (m : Text)
      → is_some (laws.find st.store (ckpt_ns c.thread_id (ns_of c)) m) ≡ true
      → is_some (laws.find saver_after.store (ckpt_ns c.thread_id (ns_of c)) m) ≡ true
  remains m q = ground (arith, find-checkpoint L o S laws c cp md nv st (ns_of c) m c.thread_id h h)

  -- A put, to a pointer store without a limit, by a saver that has no hint for the thread, whose id
  -- has no separator in it, of a checkpoint id that is not empty and is below the id `m` of a
  -- stored checkpoint: afterwards the latest checkpoint resolves to the one that was put, although
  -- `m` is still stored.
  pub put-moves_back :
      (m : Text)
      → truthy (some cp.id) ≡ some cp.id
      → is_some (laws.find st.store (ckpt_ns c.thread_id (ns_of c)) m) ≡ true
      → lt cp.id m ≡ true
      → ((entry : Stored) × (resolve_latest L S o c.thread_id (ns_of c) (put L o S c cp md nv st).1
            ≡ (ok (some (c.thread_id, ns_of c, cp.id, entry)), (put L o S c cp md nv st).1)))
        × (is_some (laws.find (put L o S c cp md nv st).1.store (ckpt_ns c.thread_id (ns_of c)) m)
            ≡ true)
  unfolding checkpoint_row
  put-moves_back m named q older = rw (put_lem L o S laws c cp md nv st unlimited) (
    (
      saved (L.dumps_typed (Object.checkpoint (stripped L o cp)))
          (L.dumps_typed (Object.metadata (L.get_checkpoint_metadata c md))) c.checkpoint_id,
      resolve_latest_pointed L o S laws c.thread_id (ns_of c) cp.id _ saver_after pointers
          pointer_after named checkpoint_after,
    ),
    remains m q,
  )
