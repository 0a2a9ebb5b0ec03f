-- ===== src/Saver/Retention/Drop.antt =====
-- What dropping checkpoints leaves of the rows and of the pointer.
use swarmstate.Prelude.{
  ◌≡◌, refl, sym, ◌∙◌, inl, inr, true, false, not, ◌&&◌, Option, none, some, List, [], ◌∷◌, map,
  filter, arith, contains, ◌==◌, eq_refl, if◌then◌else◌, Bool-cases, Option-cases, pair_eq, is_some,
}
use swarmstate.Prelude.Result.{Result-cases}
use swarmstate.Store.{StoreLike, IsStore}
use swarmstate.Text.{Text, text_eq, text_beq}
use swarmstate.Text.Order.{max, max_lem}
use swarmstate.Saver.{Langgraph, Stored, pointer, Options, Saver}
use swarmstate.Saver.Names.{ckpt_ns, writes_ns, blobs_ns, latest_ns, latest_key}
use swarmstate.Saver.Access.{delete_many, delete_namespace, find-delete_many, contains_pairs}
use swarmstate.Saver.Retention
use swarmstate.Saver.Retention.{
  Records, drop_writes, move_pointer, drop_checkpoints, referenced_blobs,
}

-- The namespaces of a thread's rows are none of its writes or blobs, and not that of the pointers.
pub writes-neq-ckpt : (t n i t' n' : Text) → (writes_ns t n i == ckpt_ns t' n') ≡ false
unfolding writes_ns ckpt_ns text_beq
writes-neq-ckpt t n i t' n' = refl

pub blobs-neq-ckpt : (t n t' n' : Text) → (blobs_ns t n == ckpt_ns t' n') ≡ false
unfolding blobs_ns ckpt_ns text_beq
blobs-neq-ckpt t n t' n' = refl

pub latest-neq-ckpt : (t n : Text) → (latest_ns == ckpt_ns t n) ≡ false
unfolding ckpt_ns text_beq
latest-neq-ckpt t n = refl

writes-neq-latest : (t n i : Text) → (writes_ns t n i == latest_ns) ≡ false
unfolding writes_ns text_beq
writes-neq-latest t n i = refl

blobs-neq-latest : (t n : Text) → (blobs_ns t n == latest_ns) ≡ false
unfolding blobs_ns text_beq
blobs-neq-latest t n = refl

ckpt-neq-latest : (t n : Text) → (ckpt_ns t n == latest_ns) ≡ false
unfolding ckpt_ns text_beq
ckpt-neq-latest t n = refl

module _ {V : Type 0} (L : Langgraph V) (S : StoreLike Stored) (o : Options)
    (laws : IsStore S) where
  find-drop_writes :
      (s : S.State) (t n : Text) (doomed : List Text) (ns k : Text)
      → ((i : Text) → (writes_ns t n i == ns) ≡ false)
      → laws.find (drop_writes L S o s t n doomed) ns k ≡ laws.find s ns k
  unfolding drop_writes delete_namespace
  find-drop_writes s t n [] ns k h = refl
  find-drop_writes s t n (i ∷ doomed) ns k h =
      find-drop_writes (delete_namespace S s (writes_ns t n i)) t n doomed ns k h
      ∙ ground (arith, laws.find-delete_namespace s (writes_ns t n i) ns k, h i)

  find-dropped_blobs :
      (s : S.State) (bl_ns : Text) (keep : List Text) (ns k : Text)
      → (bl_ns == ns) ≡ false
      → laws.find (Retention.dropped_blobs L S o s bl_ns keep) ns k ≡ laws.find s ns k
  find-dropped_blobs s bl_ns keep ns k h =
      find-delete_many S laws s _ ns k
      ∙ ground (
        arith,
        contains_pairs bl_ns ns k (filter (λ b. not (contains b keep)) (S.keys s bl_ns none)),
      )

  -- The store before the pointer is looked at.
  abbrev pub rows_dropped : S.State → Text → Text → List Text → S.State
  rows_dropped s t n doomed =
      delete_many S (drop_writes L S o s t n doomed) (map (λ i. (ckpt_ns t n, i)) doomed)

  pub find-rows_dropped :
      (s : S.State) (t n : Text) (doomed : List Text) (k : Text)
      → laws.find (rows_dropped s t n doomed) (ckpt_ns t n) k
        ≡ (if contains k doomed then none else laws.find s (ckpt_ns t n) k)
  find-rows_dropped s t n doomed k =
      find-delete_many S laws (drop_writes L S o s t n doomed) _ (ckpt_ns t n) k
      ∙ ground (
        arith,
        contains_pairs (ckpt_ns t n) (ckpt_ns t n) k doomed,
        eq_refl (ckpt_ns t n),
        find-drop_writes s t n doomed (ckpt_ns t n) k (λ i. writes-neq-ckpt t n i t n),
      )

  pub find-rows_dropped_latest :
      (s : S.State) (t n : Text) (doomed : List Text) (k : Text)
      → laws.find (rows_dropped s t n doomed) latest_ns k ≡ laws.find s latest_ns k
  find-rows_dropped_latest s t n doomed k =
      find-delete_many S laws (drop_writes L S o s t n doomed) _ latest_ns k
      ∙ ground (
        arith,
        contains_pairs (ckpt_ns t n) latest_ns k doomed,
        ckpt-neq-latest t n,
        find-drop_writes s t n doomed latest_ns k (λ i. writes-neq-latest t n i),
      )

  -- The pointer of a thread, where there is one, names a checkpoint that is stored.
  abbrev pub IsSound : Text → Text → S.State → Type 0
  IsSound t n s =
      (id : Text)
      → laws.find s latest_ns (latest_key t n) ≡ some (some (pointer id))
      → is_some (laws.find s (ckpt_ns t n) id) ≡ true

  -- The rows of some checkpoints, none of which is dropped, are stored.
  abbrev pub AreKept : Text → Text → List Text → S.State → List Text → Type 0
  AreKept t n doomed s kept =
      (id : Text)
      → contains id kept ≡ true
      → (contains id doomed ≡ false) × (is_some (laws.find s (ckpt_ns t n) id) ≡ true)

  repointed-IsSound :
      (s : S.State) (t n : Text) (kept : List Text)
      → ((id : Text) → contains id kept ≡ true → is_some (laws.find s (ckpt_ns t n) id) ≡ true)
      → IsSound t n (Retention.repointed L S o s (latest_key t n) (max kept))
  repointed-IsSound s t n kept stored = elim (Option-cases (max kept)) [
    | inl e ↦ rw e (λ id h. absurd (
        ground (
          arith,
          laws.find-delete s latest_ns (latest_key t n) latest_ns (latest_key t n),
          eq_refl latest_ns,
          eq_refl (latest_key t n),
        )))
    | inr (newest, e) ↦ rw e (λ id h. ground (
      arith,
      laws.find-set s latest_ns (latest_key t n) (some (pointer newest)) latest_ns (latest_key t n),
      laws.find-set s latest_ns (latest_key t n) (some (pointer newest)) (ckpt_ns t n) id,
      eq_refl latest_ns,
      eq_refl (latest_key t n),
      latest-neq-ckpt t n,
      stored newest (max_lem kept newest e).0,
    ))
  ]

  find-repointed :
      (s : S.State) (t n : Text) (to : Option Text) (k : Text)
      → laws.find (Retention.repointed L S o s (latest_key t n) to) (ckpt_ns t n) k
        ≡ laws.find s (ckpt_ns t n) k
  find-repointed s t n none k =
      ground
        (arith, laws.find-delete s latest_ns (latest_key t n) (ckpt_ns t n) k, latest-neq-ckpt t n)
  find-repointed s t n (some newest) k = ground (
    arith,
    laws.find-set s latest_ns (latest_key t n) (some (pointer newest)) (ckpt_ns t n) k,
    latest-neq-ckpt t n,
  )

  -- Moving the pointer does not touch the rows.
  find-move_pointer :
      (t n : Text) (doomed kept : List Text) (st : Saver S) (k : Text)
      → laws.find (move_pointer L S o t n doomed kept st).store (ckpt_ns t n) k
        ≡ laws.find st.store (ckpt_ns t n) k
  unfolding move_pointer
  find-move_pointer t n doomed kept st k = ground (arith, find-repointed st.store t n (max kept) k)

  into_doomed :
      (s : S.State) (t n : Text) (doomed : List Text) (id : Text)
      → laws.find s latest_ns (latest_key t n) ≡ some (some (pointer id))
      → Retention.points_into L S o doomed (S.get s latest_ns (latest_key t n) none)
        ≡ contains id doomed
  into_doomed s t n doomed id h = rw (laws.get_lem s latest_ns (latest_key t n) none, h) refl

  move_pointer-IsSound :
      (t n : Text) (doomed kept : List Text) (st : Saver S)
      → o.store_indexes_max_key ≡ false
      → ((id : Text)
          → laws.find st.store latest_ns (latest_key t n) ≡ some (some (pointer id))
          → contains id doomed ≡ false
          → is_some (laws.find st.store (ckpt_ns t n) id) ≡ true)
      → ((id : Text)
          → contains id kept ≡ true
          → is_some (laws.find st.store (ckpt_ns t n) id) ≡ true)
      → IsSound t n (move_pointer L S o t n doomed kept st).store
  unfolding move_pointer
  move_pointer-IsSound t n doomed kept st plain sound stored =
      elim (Bool-cases (
        not o.store_indexes_max_key
        && Retention.points_into L S o doomed (S.get st.store latest_ns (latest_key t n) none))) [
          | inl e ↦ rw e (repointed-IsSound st.store t n kept stored)
          | inr e ↦ rw e (λ id h. sound id h (ground (arith, into_doomed st.store t n doomed id h)))
        ]

  -- The store before and after agree on the rows that are not dropped; and the pointer stays sound.
  abbrev pub Keeps : Text → Text → List Text → S.State → S.State → Type 0
  Keeps t n doomed s s' =
      ((k : Text)
        → contains k doomed ≡ false
        → laws.find s' (ckpt_ns t n) k ≡ laws.find s (ckpt_ns t n) k)
      × (o.store_indexes_max_key ≡ false → IsSound t n s → IsSound t n s')

  finished-Keeps :
      (t n : Text) (doomed kept : List Text) (st : Saver S) (s : S.State)
      → ((k : Text) → laws.find s (ckpt_ns t n) k ≡ laws.find st.store (ckpt_ns t n) k)
      → (laws.find s latest_ns (latest_key t n) ≡ laws.find st.store latest_ns (latest_key t n))
      → AreKept t n doomed st.store kept
      → Keeps t n doomed st.store
          (move_pointer L S o t n doomed kept
            (record st { store = rows_dropped s t n doomed })).store
  finished-Keeps t n doomed kept st s rows latest stored = (
    λ k h.
        find-move_pointer t n doomed kept (record st { store = rows_dropped s t n doomed }) k
        ∙ ground (arith, find-rows_dropped s t n doomed k, rows k),
    λ plain sound.
        move_pointer-IsSound t n doomed kept (record st { store = rows_dropped s t n doomed }) plain
          (λ id h free. ground (
            arith,
            find-rows_dropped s t n doomed id,
            rows id,
            sound id
                (sym latest ∙ sym (find-rows_dropped_latest s t n doomed (latest_key t n)) ∙ h),
          ))
          (λ id h. ground (arith, find-rows_dropped s t n doomed id, rows id, stored id h)),
  )

  pub drop_checkpoints-Keeps :
      (t n : Text) (doomed kept : List Text) (records : Records) (st : Saver S)
      → AreKept t n doomed st.store kept
      → Keeps t n doomed st.store (drop_checkpoints L S o t n doomed kept records st).1.store
  unfolding drop_checkpoints
  drop_checkpoints-Keeps t n doomed kept records st stored = elim (Bool-cases o.incremental) [
    | inl e ↦ simp e (elim (Result-cases (referenced_blobs L S o st.store t n kept records)) [
      | inl (x, q) ↦ simp q (λ k h. refl, λ plain sound. sound)
      | inr (keep, q) ↦ simp q (
          finished-Keeps t n doomed kept st
            (Retention.dropped_blobs L S o st.store (blobs_ns t n) keep)
            (λ k.
              find-dropped_blobs st.store (blobs_ns t n) keep (ckpt_ns t n) k
                (blobs-neq-ckpt t n t n))
            (find-dropped_blobs st.store (blobs_ns t n) keep latest_ns (latest_key t n)
              (blobs-neq-latest t n))
            stored)
    ])
    | inr e ↦ simp e (finished-Keeps t n doomed kept st st.store (λ k. refl) refl stored)
  ]
