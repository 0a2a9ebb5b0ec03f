-- ===== src/Saver/Put/Pointer.antt =====
-- The pointer to the latest checkpoint, over a store that has no index for `max_key`.
use swarmstate.Prelude.{
  ◌≡◌, ◌<◌, refl, ◌∙◌, inl, inr, true, false, ◌&&◌, Option, none, some, List, arith, length,
  is_some, if◌then◌else◌, ◌==◌, eq_iff, eq_refl, Bool-cases, pair_eq,
}
use swarmstate.Prelude.Dict.{find, find-insert}
use swarmstate.Prelude.Result.{ok}
use swarmstate.Store.{StoreLike, IsStore, written}
use swarmstate.Text.{Text, text_eq, text_beq}
use swarmstate.Text.Order.{lt, lt_asymm, lt_irrefl, le_trans}
use swarmstate.Saver.{
  Object, Config, ns_of, truthy, Checkpoint, Metadata, Langgraph, Typed, Stored, saved, pointer,
  Options, Saver, max_hints,
}
use swarmstate.Saver.Names.{ckpt_ns, blobs_ns, latest_ns, latest_key, has_sep}
use swarmstate.Saver.Names.Distinct.{ckpt_ns_eq, latest_key_eq}
use swarmstate.Saver.Resolve.{resolve_latest, follow}
use swarmstate.Saver.Put.{stripped, checkpoint_row, is_newer, publishes, put_rows, written_put}
use swarmstate.Saver.Put.Roundtrip.{find-written_put}

module _ {V : Type 0} (L : Langgraph V) (o : Options) (S : StoreLike Stored)
    (laws : IsStore S) where
  -- The hint, the pointer and the checkpoints of a thread agree: either there is none of them, or
  -- the hint and the pointer are the greatest id, and the checkpoint with it is stored.
  pub data Tracks (t n : Text) (st : Saver S) : Type 0 where
    unseen :
        find (t, n) st.max_seen ≡ none
        → ((k : Text) → laws.find st.store (ckpt_ns t n) k ≡ none)
        → laws.find st.store latest_ns (latest_key t n) ≡ none
        → Tracks t n st
    latest :
        (m : Text) (cp md : Typed) (parent : Option Text)
        → find (t, n) st.max_seen ≡ some m
        → laws.find st.store latest_ns (latest_key t n) ≡ some (some (pointer m))
        → laws.find st.store (ckpt_ns t n) m ≡ some (some (saved cp md parent))
        → ((k : Text) → is_some (laws.find st.store (ckpt_ns t n) k) ≡ true → lt m k ≡ false)
        → Tracks t n st

  -- Where the pointer is not empty and the checkpoint that it names is stored, the latest
  -- checkpoint resolves to that one.
  pub resolve_latest_pointed :
      (t n m : Text) (entry : Stored) (st : Saver S)
      → o.store_indexes_max_key ≡ false
      → laws.find st.store latest_ns (latest_key t n) ≡ some (some (pointer m))
      → truthy (some m) ≡ some m
      → laws.find st.store (ckpt_ns t n) m ≡ some (some entry)
      → resolve_latest L S o t n st ≡ (ok (some (t, n, m, entry)), st)
  unfolding resolve_latest follow
  resolve_latest_pointed t n m entry st pointers p named r =
      rw
        (
          pointers,
          laws.get_lem st.store latest_ns (latest_key t n) none,
          p,
          named,
          laws.get_lem st.store (ckpt_ns t n) m none,
          r,
        )
        refl

  module _ (c : Config) (cp : Checkpoint V) (md : Metadata V) (nv : List (Text × Text))
      (st : Saver S) where
    abbrev checkpoint_bytes : Typed
    checkpoint_bytes = L.dumps_typed (Object.checkpoint (stripped L o cp))

    abbrev metadata_bytes : Typed
    metadata_bytes = L.dumps_typed (Object.metadata (L.get_checkpoint_metadata c md))

    abbrev after : Saver S
    after = written_put L o S c cp md nv st

    -- The checkpoints of a thread after a put.
    pub find-checkpoint :
        (n k : Text) (t : Text)
        → has_sep t ≡ false
        → has_sep c.thread_id ≡ false
        → laws.find after.store (ckpt_ns t n) k ≡ (
            if (c.thread_id == t && ns_of c == n) && cp.id == k
            then some (checkpoint_row L o c cp md).2
            else laws.find st.store (ckpt_ns t n) k)
    unfolding put_rows checkpoint_row written
    find-checkpoint n k t h h' =
        find-written_put L o S laws c cp md nv st (ckpt_ns t n) k
          (unfold ckpt_ns blobs_ns text_beq in refl)
        ∙ ground (arith, ckpt_ns_eq c.thread_id (ns_of c) t n h' h, other)
      where
        other : (latest_ns == ckpt_ns t n) ≡ false
        other = unfold ckpt_ns text_beq in refl

    -- The pointer of a thread after a put.
    pub find-pointer :
        (n : Text) (t : Text)
        → has_sep t ≡ false
        → has_sep c.thread_id ≡ false
        → laws.find after.store latest_ns (latest_key t n) ≡ (
            if publishes L o c cp st.max_seen && (c.thread_id == t && ns_of c == n)
            then some (some (pointer cp.id))
            else laws.find st.store latest_ns (latest_key t n))
    unfolding put_rows checkpoint_row written
    find-pointer n t h h' =
        find-written_put L o S laws c cp md nv st latest_ns (latest_key t n)
          (unfold blobs_ns text_beq in refl)
        ∙ ground (arith, latest_key_eq c.thread_id (ns_of c) t n h' h, other, eq_refl latest_ns)
      where
        other : (ckpt_ns c.thread_id (ns_of c) == latest_ns) ≡ false
        other = unfold ckpt_ns text_beq in refl

    -- The hint of a thread after a put, as long as the hints are not dropped.
    pub find-hint :
        (n t : Text)
        → length st.max_seen < max_hints
        → find (t, n) after.max_seen ≡ (
            if publishes L o c cp st.max_seen && (c.thread_id == t && ns_of c == n)
            then some cp.id
            else find (t, n) st.max_seen)
    unfolding written_put put_rows
    find-hint n t room = ground (arith, find-insert (c.thread_id, ns_of c) (t, n) cp.id st.max_seen)

    module _ (t n : Text) (h : has_sep t ≡ false) (h' : has_sep c.thread_id ≡ false)
        (pointers : o.store_indexes_max_key ≡ false) (room : length st.max_seen < max_hints) where
      -- A put to another thread.
      other-Tracks : (c.thread_id == t && ns_of c == n) ≡ false → Tracks t n st → Tracks t n after
      other-Tracks e (unseen a b p) =
          unseen (ground (arith, find-hint n t room))
            (λ k. ground (arith, find-checkpoint n k t h h', b k))
            (ground (arith, find-pointer n t h h'))
      other-Tracks e (latest m x y parent a p r le) =
          latest m x y parent (ground (arith, find-hint n t room))
            (ground (arith, find-pointer n t h h')) (ground (arith, find-checkpoint n m t h h'))
            (λ k q. le k (ground (arith, find-checkpoint n k t h h')))

      abbrev Same : Type 0
      Same = (c.thread_id == t && ns_of c == n) ≡ true

      publishes_lem :
          Same → publishes L o c cp st.max_seen ≡ is_newer L o cp.id (find (t, n) st.max_seen)
      unfolding publishes
      publishes_lem e =
          rw (pointers, (eq_iff {A = Text × Text} (c.thread_id, ns_of c) (t, n)).0 e) refl

      -- The first put of a thread.
      first-Tracks :
          Same
          → find (t, n) st.max_seen ≡ none
          → ((k : Text) → laws.find st.store (ckpt_ns t n) k ≡ none)
          → Tracks t n after
      unfolding checkpoint_row
      first-Tracks e a b =
          latest cp.id checkpoint_bytes metadata_bytes c.checkpoint_id
            (ground (arith, find-hint n t room, publishes_lem e))
            (ground (arith, find-pointer n t h h', publishes_lem e))
            (ground (arith, find-checkpoint n cp.id t h h', eq_refl cp.id))
            (λ k q.
              ground (arith, find-checkpoint n k t h h', b k, eq_iff cp.id k, lt_irrefl cp.id))

      -- A put that is newer than the latest one.
      newer-Tracks :
          (m : Text)
          → Same
          → find (t, n) st.max_seen ≡ some m
          → lt m cp.id ≡ true
          → ((k : Text) → is_some (laws.find st.store (ckpt_ns t n) k) ≡ true → lt m k ≡ false)
          → Tracks t n after
      unfolding checkpoint_row
      newer-Tracks m e a newer le =
          latest cp.id checkpoint_bytes metadata_bytes c.checkpoint_id
            (ground (arith, find-hint n t room, publishes_lem e))
            (ground (arith, find-pointer n t h h', publishes_lem e))
            (ground (arith, find-checkpoint n cp.id t h h', eq_refl cp.id))
            (λ k q. ground (
              arith,
              find-checkpoint n k t h h',
              le k,
              eq_iff cp.id k,
              lt_irrefl cp.id,
              lt_asymm m cp.id newer,
              le_trans k m cp.id,
            ))

      -- A put that is not newer.
      older-Tracks :
          (m : Text) (x y : Typed) (parent : Option Text)
          → Same
          → find (t, n) st.max_seen ≡ some m
          → lt m cp.id ≡ false
          → laws.find st.store latest_ns (latest_key t n) ≡ some (some (pointer m))
          → laws.find st.store (ckpt_ns t n) m ≡ some (some (saved x y parent))
          → ((k : Text) → is_some (laws.find st.store (ckpt_ns t n) k) ≡ true → lt m k ≡ false)
          → Tracks t n after
      unfolding checkpoint_row
      older-Tracks m x y parent e a older p r le = elim (Bool-cases (cp.id == m)) [
        | inl i ↦
            latest m checkpoint_bytes metadata_bytes c.checkpoint_id
              (ground (arith, find-hint n t room, publishes_lem e))
              (ground (arith, find-pointer n t h h', publishes_lem e))
              (ground (arith, find-checkpoint n m t h h')) (bound m e older le)
        | inr i ↦
            latest m x y parent (ground (arith, find-hint n t room, publishes_lem e))
              (ground (arith, find-pointer n t h h', publishes_lem e))
              (ground (arith, find-checkpoint n m t h h')) (bound m e older le)
      ]
        where
          bound :
              (m : Text)
              → Same
              → lt m cp.id ≡ false
              → ((k : Text) → is_some (laws.find st.store (ckpt_ns t n) k) ≡ true → lt m k ≡ false)
              → (k : Text) → is_some (laws.find after.store (ckpt_ns t n) k) ≡ true
              → lt m k ≡ false
          bound m e older le k q = ground (arith, find-checkpoint n k t h h', le k, eq_iff cp.id k)

      -- The rows of a put to a pointer store, to this thread or another, keep the pointer, the hint
      -- and the greatest stored id of a thread together, before any retention.
      pub put-Tracks : Tracks t n st → Tracks t n (written_put L o S c cp md nv st)
      put-Tracks tr = elim (Bool-cases (c.thread_id == t && ns_of c == n)) [
        | inr e ↦ other-Tracks e tr
        | inl e ↦ same-Tracks e tr
      ]
        where
          same-Tracks : Same → Tracks t n st → Tracks t n after
          same-Tracks e (unseen a b p) = first-Tracks e a b
          same-Tracks e (latest m x y parent a p r le) = elim (Bool-cases (lt m cp.id)) [
            | inl newer ↦ newer-Tracks m e a newer le
            | inr older ↦ older-Tracks m x y parent e a older p r le
          ]
