-- ===== src/Saver/Put/Incremental.antt =====
-- What a checkpoint reads back as that was put by an incremental saver, which stores the values of
-- the channels as blobs.
use mathlib.Core.Path.{ap₂}
use swarmstate.Prelude.{
  ◌≡◌, refl, ap, ◌∙◌, true, false, not, ◌&&◌, none, some, List, [], ◌∷◌, map, arith, get_or,
  contains, ◌==◌, eq_iff, eq_refl, is_some, if◌then◌else◌, Bool-cases, inl, inr, pair_eq,
}
use swarmstate.Prelude.Dict.{Dict, find, keys}
use swarmstate.Prelude.Result.{ok}
use swarmstate.Store.{StoreLike, IsStore, written}
use swarmstate.Text.{Text, text_eq, text_beq}
use swarmstate.Saver.{
  Config, config, ns_of, truthy, Checkpoint, Metadata, Langgraph, checkpoint, metadata, Stored,
  saved, Options, Saver,
}
use swarmstate.Saver.Names.{ckpt_ns, blobs_ns, writes_ns, has_sep}
use swarmstate.Saver.Names.Distinct.{joined_eq}
use swarmstate.Saver.Access.{get_many, find-set_many}
use swarmstate.Saver.Tuple.{blob_key, build_tuple, attach_values, sort_if_many, decode_writes}
use swarmstate.Saver.Resolve.{resolve, read_checkpoint, get_tuple}
use swarmstate.Saver.Put.{
  new_blobs, checkpoint_row, stripped, blobs_to_store, missing_blobs, put_rows, written_put, put,
}
use swarmstate.Saver.Put.Roundtrip.{
  fresh_tuple, put_lem, loads_checkpoint-dumps, loads_metadata-dumps, no_keys, no_values,
  get-put_checkpoint, no_writes_after,
}
use swarmstate.Saver.Put.Blobs.{PlainChannels, blob_of, read_values, found_values, attach_all-blobs}

module _ {V : Type 0} (L : Langgraph V) where
  module _ (o : Options) (S : StoreLike Stored) (laws : IsStore S) where
    -- A new version is written if its blob is not stored yet.
    written-missing_new :
        (s : S.State) (ns : Text) (values : Dict Text V) (nv : List (Text × Text)) (ch ver : Text)
        → PlainChannels nv
        → has_sep ch ≡ false
        → written (missing_blobs L o S s ns (new_blobs L o values nv)) ns (blob_key (ch, ver)) ≡ (
            if contains (ch, ver) nv && not (is_some (laws.find s ns (blob_key (ch, ver))))
            then some (some (blob_of L (find ch values)))
            else none)
    unfolding missing_blobs new_blobs written contains
    written-missing_new s ns values [] ch ver p h = refl
    written-missing_new s ns values ((ch', ver') ∷ nv) ch ver p h =
        let ih = written-missing_new s ns values nv ch ver p.1 h in
        let key = joined_eq ch' ver' ch ver p.0 h in
        elim (Bool-cases (ch' == ch && ver' == ver)) [
          | inl e ↦
              let c : ch' ≡ ch = (eq_iff ch' ch).0 (ground (arith, e)) in
              let v : ver' ≡ ver = (eq_iff ver' ver).0 (ground (arith, e)) in
              rw (c, v, laws.has_lem)
                (elim (Bool-cases (is_some (laws.find s ns (blob_key (ch, ver))))) [
                  | inl q ↦ rw q (ground (arith, ih, q))
                  | inr q ↦ rw q (
                      ground (
                        arith,
                        ih,
                        q,
                        eq_refl ch,
                        eq_refl ver,
                        eq_refl ns,
                        eq_refl (blob_key (ch, ver)),
                      ))
                ])
          | inr e ↦ elim (Bool-cases (S.has s ns (blob_key (ch', ver')))) [
            | inl q ↦ rw q (rw e ih)
            | inr q ↦ rw q (rw e (ground (arith, ih, key, e)))
          ]
        ]

    -- The other rows of a put are in other namespaces.
    no_row :
        (c : Config) (cp : Checkpoint V) (md : Metadata V) (st : Saver S) (k : Text)
        → written (put_rows L o c cp md st.max_seen).0 (blobs_ns c.thread_id (ns_of c)) k ≡ none
    unfolding put_rows checkpoint_row written ckpt_ns blobs_ns text_beq
    no_row c cp md st k = ground arith

    -- What the blob of a version is after the put, where the version is new, or its blob is stored
    -- already with the channel's value.
    find-put_blob :
        (c : Config) (cp : Checkpoint V) (md : Metadata V) (nv : List (Text × Text)) (st : Saver S)
        (ch ver : Text)
        → o.incremental ≡ true
        → PlainChannels nv
        → has_sep ch ≡ false
        → (contains (ch, ver) nv
                && not (
                    is_some
                      (laws.find st.store (blobs_ns c.thread_id (ns_of c)) (blob_key (ch, ver))))
              ≡ false
            → laws.find st.store (blobs_ns c.thread_id (ns_of c)) (blob_key (ch, ver))
              ≡ some (some (blob_of L (find ch (get_or cp.channel_values [])))))
        → laws.find
            (written_put L o S c cp md nv st).store
            (blobs_ns c.thread_id (ns_of c))
            (blob_key (ch, ver))
          ≡ some (some (blob_of L (find ch (get_or cp.channel_values []))))
    unfolding written_put blobs_to_store
    find-put_blob c cp md nv st ch ver inc p h kept =
        find-set_many S laws _ (put_rows L o c cp md st.max_seen).0 _ _
        ∙ rw (no_row c cp md st (blob_key (ch, ver))) (
            find-set_many S laws st.store _ _ _
            ∙ rw inc (
                ground (
                  arith,
                  kept,
                  written-missing_new st.store (blobs_ns c.thread_id (ns_of c))
                      (get_or cp.channel_values []) nv ch ver p h,
                )))

    blobs_read :
        (s : S.State) (ns : Text) (values : Dict Text V) (versions : List (Text × Text))
        → ((ch ver : Text)
            → contains (ch, ver) versions ≡ true
            → laws.find s ns (blob_key (ch, ver)) ≡ some (some (blob_of L (find ch values))))
        → map
            (λ (p : Text × Text). get_or (laws.find s p.0 p.1) none)
            (map (λ k. (ns, k)) (map blob_key versions))
          ≡ map (λ i. some (blob_of L (find i.0 values))) versions
    unfolding contains
    blobs_read s ns values [] held = refl
    blobs_read s ns values ((ch, ver) ∷ versions) held =
        ap₂ ◌∷◌ (ap (λ e. get_or e none) (held ch ver (ground (arith, eq_refl ch, eq_refl ver))))
          (blobs_read s ns values versions (λ ch' ver' m. held ch' ver' (ground (arith, m))))

    -- The checkpoint with the values that the blobs give.
    abbrev pub with_values : Checkpoint V → Dict Text V → Checkpoint V
    with_values cp d = record cp { channel_values = some d }

    attach-stripped :
        (s : S.State) (c : Config) (cp : Checkpoint V)
        → o.incremental ≡ true
        → ((ch ver : Text)
            → contains (ch, ver) cp.channel_versions ≡ true
            → laws.find s (blobs_ns c.thread_id (ns_of c)) (blob_key (ch, ver))
              ≡ some (some (blob_of L (find ch (get_or cp.channel_values [])))))
        → attach_values L S o s c.thread_id (ns_of c) (stripped L o cp)
          ≡ ok (with_values cp (read_values L (get_or cp.channel_values []) cp.channel_versions []))
    unfolding attach_values stripped get_many
    attach-stripped s c cp inc held =
        rw
          (
            inc,
            laws.get_many_lem,
            blobs_read s (blobs_ns c.thread_id (ns_of c)) (get_or cp.channel_values [])
                cp.channel_versions held,
            attach_all-blobs L (get_or cp.channel_values []) cp.channel_versions [],
          )
          refl

    build-stripped_row :
        (s : S.State) (c : Config) (cp : Checkpoint V) (md : Metadata V)
        → o.incremental ≡ true
        → ((ch ver : Text)
            → contains (ch, ver) cp.channel_versions ≡ true
            → laws.find s (blobs_ns c.thread_id (ns_of c)) (blob_key (ch, ver))
              ≡ some (some (blob_of L (find ch (get_or cp.channel_values [])))))
        → ((k : Text) → laws.find s (writes_ns c.thread_id (ns_of c) cp.id) k ≡ none)
        → build_tuple L S o s c.thread_id
            (ns_of c)
            cp.id
            (saved
              (L.dumps_typed (checkpoint (stripped L o cp)))
              (L.dumps_typed (metadata (L.get_checkpoint_metadata c md)))
              c.checkpoint_id)
            none
          ≡ ok (
              fresh_tuple L o S laws c
                (with_values cp
                  (read_values L (get_or cp.channel_values []) cp.channel_versions []))
                md)
    unfolding build_tuple sort_if_many decode_writes
    build-stripped_row s c cp md inc held no_writes =
        rw
          (
            loads_checkpoint-dumps L o S laws (stripped L o cp),
            attach-stripped s c cp inc held,
            loads_metadata-dumps L o S laws (L.get_checkpoint_metadata c md),
            no_keys L o S laws s (writes_ns c.thread_id (ns_of c) cp.id) no_writes,
            no_values L o S laws s (writes_ns c.thread_id (ns_of c) cp.id),
          )
          refl

    -- An incremental saver without a limit puts a checkpoint whose id is not empty and that has no
    -- pending writes yet, where no channel of the new versions or of the checkpoint has the
    -- separator in its name, and where each version of the checkpoint that is not new, or whose
    -- blob is stored already, is stored with the value that the channel has. The put returns the
    -- checkpoint's configuration, and reading that gives back the checkpoint, its metadata and its
    -- parent and leaves the saver as it is: every channel that has a version has its value in the
    -- checkpoint again, or none if it had none, and no other channel has one.
    pub get_tuple-put_incremental :
        (c : Config) (cp : Checkpoint V) (md : Metadata V) (nv : List (Text × Text)) (st : Saver S)
        → o.incremental ≡ true
        → o.max_checkpoints_per_thread ≡ none
        → truthy (some cp.id) ≡ some cp.id
        → PlainChannels nv
        → ((ch ver : Text) → contains (ch, ver) cp.channel_versions ≡ true → has_sep ch ≡ false)
        → ((ch ver : Text)
            → contains (ch, ver) cp.channel_versions ≡ true
            → contains (ch, ver) nv
                && not (
                    is_some
                      (laws.find st.store (blobs_ns c.thread_id (ns_of c)) (blob_key (ch, ver))))
              ≡ false
            → laws.find st.store (blobs_ns c.thread_id (ns_of c)) (blob_key (ch, ver))
              ≡ some (some (blob_of L (find ch (get_or cp.channel_values [])))))
        → ((k : Text) → laws.find st.store (writes_ns c.thread_id (ns_of c) cp.id) k ≡ none)
        → ((put L o S c cp md nv st).0 ≡ ok (config c.thread_id (ns_of c) cp.id))
          × (values : Dict Text V) × (get_tuple L S o
                (config c.thread_id (ns_of c) cp.id)
                (put L o S c cp md nv st).1
              ≡ (
                ok (some (fresh_tuple L o S laws c (with_values cp values) md)),
                (put L o S c cp md nv st).1,
              ))
          × ((ch : Text)
              → find ch values ≡ (
                  if contains ch (keys cp.channel_versions)
                  then find ch (get_or cp.channel_values [])
                  else none))
    unfolding get_tuple resolve read_checkpoint config checkpoint_row find
    get_tuple-put_incremental c cp md nv st inc unlimited named plain plain' kept no_writes =
        rw (put_lem L o S laws c cp md nv st unlimited) (
          refl,
          read_values L (get_or cp.channel_values []) cp.channel_versions [],
          rw
              (
                L.get_checkpoint_id_lem,
                named,
                get-put_checkpoint L o S laws c cp md nv st,
                build-stripped_row (written_put L o S c cp md nv st).store c cp md inc
                    (λ ch ver m.
                      find-put_blob c cp md nv st ch ver inc plain (plain' ch ver m)
                        (kept ch ver m))
                    (no_writes_after L o S laws c cp md nv st no_writes),
              )
              refl,
          found_values L (get_or cp.channel_values []) cp.channel_versions,
        )
