-- ===== src/Saver/Put/Roundtrip.antt =====
-- What a checkpoint that was put reads back as.
use swarmstate.Prelude.{
  ◌≡◌, refl, ap, ◌∙◌, false, ◌&&◌, none, some, List, [], ◌∷◌, arith, get_or, or_else, contains,
  ◌==◌, eq_iff, eq_refl,
}
use swarmstate.Prelude.Result.{ok}
use swarmstate.Store.{StoreLike, IsStore, written}
use swarmstate.Text.{Text, text_eq, text_beq}
use swarmstate.Saver.{
  Config, config, ns_of, truthy, Checkpoint, Metadata, Langgraph, checkpoint, metadata, Stored,
  saved, CheckpointTuple, Options, Saver, loads_checkpoint, loads_metadata,
}
use swarmstate.Saver.Names.{ckpt_ns, blobs_ns, writes_ns, latest_ns, latest_key}
use swarmstate.Saver.Access.{get_many, find-set_many}
use swarmstate.Saver.Tuple.{build_tuple, attach_values, sort_if_many, decode_writes}
use swarmstate.Saver.Resolve.{resolve, read_checkpoint, get_tuple}
use swarmstate.Saver.Trim.{prune_thread}
use swarmstate.Saver.Put.{
  checkpoint_row, stripped, blobs_to_store, missing_blobs, put_rows, written_put, put,
}

-- No element is contained only in the empty list.
nil_of_not-contains : (l : List Text) → ((k : Text) → contains k l ≡ false) → l ≡ []
unfolding contains
nil_of_not-contains [] h = refl
nil_of_not-contains (x ∷ l) h = absurd (ground (arith, h x, eq_iff x x))

module _ {V : Type 0} (L : Langgraph V) (o : Options) (S : StoreLike Stored)
    (laws : IsStore S) where
  -- The blobs go into their own namespace.
  written-missing_blobs :
      (s : S.State) (ns : Text) (blobs : List (Text × Stored)) (n k : Text)
      → (ns == n) ≡ false
      → written (missing_blobs L o S s ns blobs) n k ≡ none
  unfolding missing_blobs written
  written-missing_blobs s ns [] n k h = refl
  written-missing_blobs s ns ((j, v) ∷ blobs) n k h =
      ground (arith, written-missing_blobs s ns blobs n k)

  -- Outside the blobs, a put writes the rows of `_put_rows`.
  pub find-written_put :
      (c : Config) (cp : Checkpoint V) (md : Metadata V) (nv : List (Text × Text)) (st : Saver S)
      (n k : Text)
      → (blobs_ns c.thread_id (ns_of c) == n) ≡ false
      → laws.find (written_put L o S c cp md nv st).store n k
        ≡ or_else (written (put_rows L o c cp md st.max_seen).0 n k) (laws.find st.store n k)
  unfolding written_put
  find-written_put c cp md nv st n k h =
      find-set_many S laws _ (put_rows L o c cp md st.max_seen).0 n k
      ∙ ap (or_else (written (put_rows L o c cp md st.max_seen).0 n k)) (
          find-set_many S laws st.store _ n k
          ∙ rw
              (written-missing_blobs st.store (blobs_ns c.thread_id (ns_of c))
                (blobs_to_store L o cp nv) n k h)
              refl)

  -- The row of the checkpoint is there afterwards.
  pub find-put_checkpoint :
      (c : Config) (cp : Checkpoint V) (md : Metadata V) (nv : List (Text × Text)) (st : Saver S)
      → laws.find (written_put L o S c cp md nv st).store (ckpt_ns c.thread_id (ns_of c)) cp.id
        ≡ some (checkpoint_row L o c cp md).2
  unfolding put_rows checkpoint_row written ckpt_ns blobs_ns text_beq
  find-put_checkpoint c cp md nv st =
      find-written_put c cp md nv st _ _ refl
      ∙ ground (arith, eq_refl (ckpt_ns c.thread_id (ns_of c)), eq_refl cp.id)

  -- No other row of a checkpoint and no pending write is touched.
  pub find-put_other :
      (c : Config) (cp : Checkpoint V) (md : Metadata V) (nv : List (Text × Text)) (st : Saver S)
      (n k : Text)
      → (blobs_ns c.thread_id (ns_of c) == n) ≡ false
      → (ckpt_ns c.thread_id (ns_of c) == n && cp.id == k) ≡ false
      → (latest_ns == n && latest_key c.thread_id (ns_of c) == k) ≡ false
      → laws.find (written_put L o S c cp md nv st).store n k ≡ laws.find st.store n k
  unfolding put_rows checkpoint_row written
  find-put_other c cp md nv st n k h h' h'' = find-written_put c cp md nv st n k h ∙ ground arith

  -- Without retention a put is its writes.
  pub put_lem :
      (c : Config) (cp : Checkpoint V) (md : Metadata V) (nv : List (Text × Text)) (st : Saver S)
      → o.max_checkpoints_per_thread ≡ none
      → put L o S c cp md nv st
        ≡ (ok (config c.thread_id (ns_of c) cp.id), written_put L o S c cp md nv st)
  unfolding put prune_thread
  put_lem c cp md nv st e = rw e refl

  pub loads_checkpoint-dumps :
      (cp : Checkpoint V) → loads_checkpoint L (L.dumps_typed (checkpoint cp)) ≡ ok cp
  unfolding loads_checkpoint
  loads_checkpoint-dumps cp = rw L.loads-dumps refl

  pub loads_metadata-dumps : (m : Metadata V) → loads_metadata L (L.dumps_typed (metadata m)) ≡ ok m
  unfolding loads_metadata
  loads_metadata-dumps m = rw L.loads-dumps refl

  pub no_keys :
      (s : S.State) (n : Text) → ((k : Text) → laws.find s n k ≡ none) → S.keys s n none ≡ []
  no_keys s n h = nil_of_not-contains (S.keys s n none) (λ k. rw (laws.contains-keys, h k) refl)

  pub no_values : (s : S.State) (n : Text) → get_many S s n [] ≡ []
  unfolding get_many
  no_values s n = laws.get_many_lem s []

  -- The tuple of a checkpoint with no pending writes.
  abbrev pub fresh_tuple : Config → Checkpoint V → Metadata V → CheckpointTuple V
  fresh_tuple c cp md = record {
    config = config c.thread_id (ns_of c) cp.id;
    checkpoint = cp;
    metadata = L.get_checkpoint_metadata c md;
    parent_config = (elim (truthy c.checkpoint_id) [
      | none ↦ none
      | some id ↦ some (config c.thread_id (ns_of c) id)
    ]);
    pending_writes = [];
  }

  build-checkpoint_row :
      (s : S.State) (c : Config) (cp : Checkpoint V) (md : Metadata V)
      → o.incremental ≡ false
      → ((k : Text) → laws.find s (writes_ns c.thread_id (ns_of c) cp.id) k ≡ none)
      → build_tuple L S o s c.thread_id
          (ns_of c)
          cp.id
          (saved
            (L.dumps_typed (checkpoint (stripped L o cp)))
            (L.dumps_typed (metadata (L.get_checkpoint_metadata c md)))
            c.checkpoint_id)
          none
        ≡ ok (fresh_tuple c cp md)
  unfolding build_tuple attach_values sort_if_many decode_writes stripped
  build-checkpoint_row s c cp md plain no_writes =
      rw
        (
          plain,
          loads_checkpoint-dumps cp,
          loads_metadata-dumps (L.get_checkpoint_metadata c md),
          no_keys s (writes_ns c.thread_id (ns_of c) cp.id) no_writes,
          no_values s (writes_ns c.thread_id (ns_of c) cp.id),
        )
        refl

  pub get-put_checkpoint :
      (c : Config) (cp : Checkpoint V) (md : Metadata V) (nv : List (Text × Text)) (st : Saver S)
      → S.get (written_put L o S c cp md nv st).store (ckpt_ns c.thread_id (ns_of c)) cp.id none
        ≡ (checkpoint_row L o c cp md).2
  get-put_checkpoint c cp md nv st =
      laws.get_lem _ (ckpt_ns c.thread_id (ns_of c)) cp.id none
      ∙ ap (λ e. get_or e none) (find-put_checkpoint c cp md nv st)

  pub no_writes_after :
      (c : Config) (cp : Checkpoint V) (md : Metadata V) (nv : List (Text × Text)) (st : Saver S)
      → ((k : Text) → laws.find st.store (writes_ns c.thread_id (ns_of c) cp.id) k ≡ none)
      → (k : Text)
      → laws.find (written_put L o S c cp md nv st).store (writes_ns c.thread_id (ns_of c) cp.id) k
        ≡ none
  unfolding writes_ns blobs_ns ckpt_ns text_beq
  no_writes_after c cp md nv st h k = find-put_other c cp md nv st _ k refl refl refl ∙ h k

  -- Putting a checkpoint whose id is not empty and that has no pending writes yet, by a saver that
  -- keeps the values inline and has no limit, returns the checkpoint's configuration; and reading
  -- that configuration gives back the checkpoint, its metadata and its parent, and leaves the saver
  -- as it is.
  pub get_tuple-put :
      (c : Config) (cp : Checkpoint V) (md : Metadata V) (nv : List (Text × Text)) (st : Saver S)
      → o.incremental ≡ false
      → o.max_checkpoints_per_thread ≡ none
      → truthy (some cp.id) ≡ some cp.id
      → ((k : Text) → laws.find st.store (writes_ns c.thread_id (ns_of c) cp.id) k ≡ none)
      → ((put L o S c cp md nv st).0 ≡ ok (config c.thread_id (ns_of c) cp.id))
        × (get_tuple L S o (config c.thread_id (ns_of c) cp.id) (put L o S c cp md nv st).1
            ≡ (ok (some (fresh_tuple c cp md)), (put L o S c cp md nv st).1))
  unfolding get_tuple resolve read_checkpoint config checkpoint_row written_put
  get_tuple-put c cp md nv st plain unlimited named no_writes =
      rw (put_lem c cp md nv st unlimited) (
        refl,
        rw
            (
              L.get_checkpoint_id_lem,
              named,
              get-put_checkpoint c cp md nv st,
              build-checkpoint_row _ c cp md plain (no_writes_after c cp md nv st no_writes),
            )
            refl,
      )
