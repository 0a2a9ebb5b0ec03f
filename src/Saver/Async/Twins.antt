-- ===== src/Saver/Async/Twins.antt =====
-- The async `put` and `get_tuple`, and the sync ones.
use mathlib.Core.Path.{fun_ext}
use swarmstate.Prelude.{
  ℕ, suc, ◌≡◌, refl, ap, sym, ◌∙◌, ◌⊎◌, inl, inr, Bool, true, false, not, ◌&&◌, Option, none, some,
  List, [], ◌∷◌, map, arith, is_nil, is_some, if◌then◌else◌, Bool-cases, Option-cases, ltb, length,
}
use swarmstate.Prelude.Decimal.{ℤ}
use swarmstate.Prelude.Result.{Result, ok, raise, Result-cases, ◌>>=◌}
use swarmstate.Prelude.Sort.{sort}
use swarmstate.Store.{StoreLike, IsStore}
use swarmstate.Text.{Text}
use swarmstate.Text.Order.{max}
use swarmstate.Saver.{
  Config, ns_of, truthy, Checkpoint, Metadata, Langgraph, Typed, Stored, saved, pointer, write,
  blob, empty, Options, Saver, loads_checkpoint,
}
use swarmstate.Saver.Names.{ckpt_ns, writes_ns, blobs_ns, write_order}
use swarmstate.Saver.Access.{get_many, set_many}
use swarmstate.Saver.Tuple
use swarmstate.Saver.Tuple.{
  blob_key, sort_writes, sort_if_many, keyed, attach_values, build_tuple, decode_writes,
}
use swarmstate.Saver.Resolve
use swarmstate.Saver.Resolve.{
  Resolved, resolve, resolve_latest, read_checkpoint, scan, follow, get_tuple,
}
use swarmstate.Saver.Trim.{prune_thread}
use swarmstate.Saver.Put
use swarmstate.Saver.Put.{put, put_rows, written_put, missing_blobs, blobs_to_store, checkpoint_row}
use swarmstate.Saver.Async
use swarmstate.Saver.Async.{
  not_done, aput_blobs, aput, aresolve, decode_checkpoint, aattach, araw, abuild_tuple, aget_tuple,
}

module _ {V : Type 0} (L : Langgraph V) (S : StoreLike Stored) (o : Options) where
  not_done_lem :
      (s : S.State) (ns : Text) (blobs : List (Text × Stored))
      → not_done L S o ns blobs (map (λ (b : Text × Stored). S.has s ns b.0) blobs)
        ≡ missing_blobs L o S s ns blobs
  unfolding not_done missing_blobs
  not_done_lem s ns [] = refl
  not_done_lem s ns ((k, v) ∷ blobs) = rw (not_done_lem s ns blobs) refl

  flush :
      (s : S.State) (rows : List (Text × Text × Option Stored))
      → (if is_nil rows then s else S.set_many s rows) ≡ set_many S s rows
  unfolding set_many
  flush s [] = refl
  flush s (row ∷ rows) = refl

  aput_blobs_lem :
      (s : S.State) (ns : Text) (blobs : List (Text × Stored))
      → aput_blobs L S o s ns blobs ≡ set_many S s (missing_blobs L o S s ns blobs)
  unfolding aput_blobs missing_blobs set_many
  aput_blobs_lem s ns [] = refl
  aput_blobs_lem s ns (b ∷ blobs) =
      flush s
        (not_done L S o ns (b ∷ blobs) (map (λ (b : Text × Stored). S.has s ns b.0) (b ∷ blobs)))
      ∙ ap (set_many S s) (not_done_lem s ns (b ∷ blobs))

  rows_lem :
      (s : S.State) (c : Config) (cp : Checkpoint V) (md : Metadata V) (st : Saver S)
      → S.set_many s (put_rows L o c cp md st.max_seen).0
        ≡ set_many S s (put_rows L o c cp md st.max_seen).0
  unfolding put_rows set_many
  rows_lem s c cp md st = ground arith

  pruned_lem :
      (c : Config) (st : Saver S)
      → (if is_some o.max_checkpoints_per_thread
          then prune_thread L S o c.thread_id (ns_of c) st
          else (ok tt, st))
        ≡ prune_thread L S o c.thread_id (ns_of c) st
  unfolding prune_thread
  pruned_lem c st = elim (Option-cases o.max_checkpoints_per_thread) [
    | inl e ↦ rw e refl
    | inr (limit, e) ↦ rw e refl
  ]

  returns_lem :
      (c : Config) (r : Result Unit × Saver S) → Async.areturns L S o c r ≡ Put.returns L o S c r
  returns_lem c (ok u, st) = refl
  returns_lem c (raise e, st) = refl

  -- The async way to put a checkpoint and the sync one do the same to every saver, and return and
  -- raise the same.
  pub aput-eq-put :
      (c : Config) (cp : Checkpoint V) (md : Metadata V) (new_versions : List (Text × Text))
      (st : Saver S)
      → aput L S o c cp md new_versions st ≡ put L o S c cp md new_versions st
  unfolding aput put written_put
  aput-eq-put c cp md new_versions st =
      rw
        (
          aput_blobs_lem st.store (blobs_ns c.thread_id (ns_of c))
              (blobs_to_store L o cp new_versions),
          rows_lem _ c cp md st,
          pruned_lem c _,
        )
        (returns_lem _ _)

  awith_lem :
      (t n id : Text) (e : Option Stored)
      → Async.awith L S o t n id e ≡ Resolve.resolved L S o t n id e
  awith_lem t n id none = refl
  awith_lem t n id (some entry) = refl

  aread_lem :
      (t n id : Text) (st : Saver S)
      → Async.aread L S o t n id none st ≡ read_checkpoint L S o t n id st
  unfolding read_checkpoint
  aread_lem t n id st =
      ap (λ r. (ok r, st)) (awith_lem t n id (S.get st.store (ckpt_ns t n) id none))

  arescan_lem :
      (t n id : Text) (st : Saver S) → Async.arescan L S o t n id none st ≡ scan L S o t n st
  unfolding scan
  arescan_lem t n id st = elim (Option-cases (max (S.keys st.store (ckpt_ns t n) none))) [
    | inl e ↦ rw (Async.arescan, scan, e) refl
    | inr (newest, e) ↦ rw (Async.arescan, scan, e) (aread_lem t n newest _)
  ]

  found_lem :
      (t n id : Text) (e : Option Stored) (st : Saver S)
      → Async.arescan L S o t n id e st ≡ Resolve.found_or_scan L S o t n id e st
  found_lem t n id none st = arescan_lem t n id st
  found_lem t n id (some entry) st = refl

  afollow_lem :
      (t n : Text) (e : Option Stored) (st : Saver S)
      → Async.afollow L S o t n e st ≡ follow L S o t n (Resolve.pointed L S o e) st
  unfolding follow
  afollow_lem t n none st = arescan_lem t n [] st
  afollow_lem t n (some (pointer [])) st = arescan_lem t n [] st
  afollow_lem t n (some (pointer (a ∷ id))) st = found_lem t n (a ∷ id) _ st
  afollow_lem t n (some (saved cp md p)) st = refl
  afollow_lem t n (some (write i ch v p)) st = refl
  afollow_lem t n (some (blob v)) st = refl
  afollow_lem t n (some empty) st = refl

  aby_max_key_lem :
      (t n : Text) (id : Option Text) (st : Saver S)
      → Async.aby_max_key L S o t n id st ≡ Resolve.by_max_key L S o t n id st
  aby_max_key_lem t n none st = refl
  aby_max_key_lem t n (some id) st = aread_lem t n id st

  aby_id_lem :
      (t n : Text) (id : Option Text) (st : Saver S)
      → Async.aby_id L S o t n id st ≡ Resolve.resolve_id L S o t n id st
  unfolding resolve_latest read_checkpoint follow scan
  aby_id_lem t n (some id) st = aread_lem t n id st
  aby_id_lem t n none st = elim (Bool-cases o.store_indexes_max_key) [
    | inl e ↦ rw e (aby_max_key_lem t n _ st)
    | inr e ↦ rw e (afollow_lem t n _ st)
  ]

  pub aresolve-eq-resolve : (c : Config) (st : Saver S) → aresolve L S o c st ≡ resolve L S o c st
  unfolding aresolve resolve
  aresolve-eq-resolve c st = aby_id_lem c.thread_id (ns_of c) (truthy (L.get_checkpoint_id c)) st

  -- What sets the two ways of building a tuple apart: without values of its own, an incremental
  -- checkpoint has a version, and where there is one pending write its key can be sorted.
  abbrev pub Fits : S.State → Resolved → Type 0
  Fits s (t, n, id, saved cp md parent) =
      ((c : Checkpoint V)
        → loads_checkpoint L cp ≡ ok c
        → (o.incremental && not (is_some c.channel_values)) ≡ true
        → is_nil c.channel_versions ≡ false)
      × ((k : Text)
          → S.keys s (writes_ns t n id) none ≡ k ∷ []
          → (i : Text × ℤ) × (write_order k ≡ ok i))
  Fits s r = Unit

  sort_lem :
      (keys : List Text)
      → ((k : Text) → keys ≡ k ∷ [] → (i : Text × ℤ) × (write_order k ≡ ok i))
      → sort_writes keys ≡ sort_if_many L S o keys
  unfolding sort_if_many sort_writes keyed sort swarmstate.Prelude.Sort.place
  sort_lem [] h = refl
  sort_lem (k ∷ []) h = let (i, e) = h k refl in rw e refl
  sort_lem (k ∷ j ∷ keys) h =
      let many : ltb 1 (suc (suc (length keys))) ≡ true = ground arith in rw many refl

  araw_lem :
      (laws : IsStore S) (s : S.State) (ns : Text) (keys : List Text)
      → araw L S o s ns keys ≡ get_many S s ns keys
  unfolding araw get_many
  araw_lem laws s ns [] = sym (laws.get_many_lem s [])
  araw_lem laws s ns (k ∷ keys) = refl

  blob_pairs :
      (ns : Text) (versions : List (Text × Text))
      → map {B = Text × Text} (λ i. (ns, blob_key i)) versions
        ≡ map (λ k. (ns, k)) (map blob_key versions)
  blob_pairs ns [] = refl
  blob_pairs ns (v ∷ versions) = ap (◌∷◌ (ns, blob_key v)) (blob_pairs ns versions)

  -- The values from the blobs of some versions.
  from_blobs :
      (s : S.State) (t n : Text) (c : Checkpoint V) (versions : List (Text × Text))
      → is_nil versions ≡ false
      → aattach L S o s (blobs_ns t n) c versions ≡ (
          Tuple.attach_all L [] versions (get_many S s (blobs_ns t n) (map blob_key versions))
          >>= λ values. ok (record c { channel_values = some values }))
  unfolding aattach get_many
  from_blobs s t n c [] h = absurd (ground arith)
  from_blobs s t n c (v ∷ versions) h = rw (blob_pairs (blobs_ns t n) (v ∷ versions)) refl

  aattach_lem :
      (s : S.State) (t n : Text) (c : Checkpoint V)
      → ((o.incremental && not (is_some c.channel_values)) ≡ true
          → is_nil c.channel_versions ≡ false)
      → aattach L S o s
          (blobs_ns t n)
          c
          (if o.incremental && not (is_some c.channel_values) then c.channel_versions else [])
        ≡ attach_values L S o s t n c
  unfolding attach_values aattach
  aattach_lem s t n c h = elim (Bool-cases (o.incremental && not (is_some c.channel_values))) [
    | inl e ↦ simp e (from_blobs s t n c c.channel_versions (h e))
    | inr e ↦ simp e refl
  ]

  ametadata_lem :
      (known : Option (Metadata V)) (md : Typed)
      → Async.ametadata L S o known md ≡ Tuple.metadata_of L S o known md
  ametadata_lem none md = refl
  ametadata_lem (some m) md = refl

  pub abuild_tuple-eq-build_tuple :
      (laws : IsStore S) (s : S.State) (t n id : Text) (entry : Stored)
      (known : Option (Metadata V))
      → Fits s (t, n, id, entry)
      → abuild_tuple L S o s t n id entry known ≡ build_tuple L S o s t n id entry known
  unfolding abuild_tuple build_tuple decode_checkpoint
  abuild_tuple-eq-build_tuple laws s t n id (saved cp md parent) known fits =
      elim (Result-cases (loads_checkpoint L cp)) [
        | inl (e, q) ↦ rw q refl
        | inr (c, q) ↦
            rw
              (
                q,
                aattach_lem s t n c (fits.0 c q),
                ametadata_lem known md,
                sort_lem (S.keys s (writes_ns t n id) none) fits.1,
                fun_ext {A = List Text} λ keys. araw_lem laws s (writes_ns t n id) keys,
              )
              refl
      ]
  abuild_tuple-eq-build_tuple laws s t n id (pointer i) known fits = refl
  abuild_tuple-eq-build_tuple laws s t n id (write i ch v p) known fits = refl
  abuild_tuple-eq-build_tuple laws s t n id (blob v) known fits = refl
  abuild_tuple-eq-build_tuple laws s t n id empty known fits = refl

  -- What a resolved checkpoint has to be for the two ways to agree.
  abbrev pub FitsAll : Result (Option Resolved) × Saver S → Type 0
  FitsAll (ok (some r), st) = Fits st.store r
  FitsAll r = Unit

  built_lem :
      (laws : IsStore S) (r : Result (Option Resolved) × Saver S)
      → FitsAll r
      → Async.abuilt L S o r ≡ Resolve.built L S o r
  built_lem laws (raise e, st) fits = refl
  built_lem laws (ok none, st) fits = refl
  built_lem laws (ok (some (t, n, id, entry)), st) fits =
      rw (abuild_tuple-eq-build_tuple laws st.store t n id entry none fits) refl

  -- The async way to read a checkpoint returns, raises and changes what the sync one does, where
  -- the checkpoint that the configuration resolves to, if it was stored without values by an
  -- incremental saver, has a version, and where its pending write, if there is one only, has a key
  -- that can be sorted.
  pub aget_tuple-eq-get_tuple :
      (laws : IsStore S) (c : Config) (st : Saver S)
      → FitsAll (resolve L S o c st)
      → aget_tuple L S o c st ≡ get_tuple L S o c st
  unfolding aget_tuple get_tuple
  aget_tuple-eq-get_tuple laws c st fits =
      rw (aresolve-eq-resolve c st) (built_lem laws (resolve L S o c st) fits)
