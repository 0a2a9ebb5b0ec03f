-- ===== src/Saver/Trim/Keeps.antt =====
-- What a trim leaves of a thread: the newest checkpoints, and a pointer that does not dangle.
use Prim.Native.Nat.{max}
use swarmstate.Prelude.{
  Option-cases, none, ℕ, zero, suc, ◌+◌, ◌-◌, ◌/◌, ◌≡◌, refl, ◌∙◌, inl, inr, true, false, not, ◌||◌,
  none, some, List, [], ◌∷◌, ◌++◌, arith, contains, contains-filter, contains-append, eq_iff,
  if◌then◌else◌, Bool-cases, pair_eq, get_or, is_nil, leb, length, drop,
}
use swarmstate.Prelude.Dict.{find}
use swarmstate.Prelude.Result.{Result, ok, raise, Result-cases}
use swarmstate.Prelude.Sort.{sort, contains-sort}
use swarmstate.Store.{StoreLike, IsStore}
use swarmstate.Text.{Text, text_eq}
use swarmstate.Text.Order.{lt}
use swarmstate.Saver.{Langgraph, Stored, Options, Saver}
use swarmstate.Saver.Names.{ckpt_ns}
use swarmstate.Saver.Access.{get_many}
use swarmstate.Saver.Retention.{Records, zip_records, drop_checkpoints, prune_slack}
use swarmstate.Saver.Retention.Drop.{IsSound, AreKept, drop_checkpoints-Keeps}
use swarmstate.Saver.Trim
use swarmstate.Saver.Trim.{
  last_of, minus, cached, walk, delta_channels, survivor_needs, delta_ancestors, union, trim,
  prune_to, prune_thread,
}
use swarmstate.Saver.Trim.Rows
use swarmstate.Saver.Trim.Rows.{values_lem, zip_records-IsRead, delta_ancestors-IsGood}

contains-drop :
    (x : Text) (m : ℕ) (xs : List Text) → contains x (drop m xs) ≡ true → contains x xs ≡ true
unfolding contains
contains-drop x zero xs h = h
contains-drop x (suc m) [] h = h
contains-drop x (suc m) (y ∷ xs) h = ground (arith, contains-drop x m xs h)

module _ {V : Type 0} (L : Langgraph V) (S : StoreLike Stored) (o : Options)
    (laws : IsStore S) where
  abbrev AreStored : S.State → Text → List Text → Type 0
  AreStored = Rows.AreStored L S o laws

  abbrev IsRead : S.State → Text → Records → Type 0
  IsRead = Rows.IsRead L S o laws

  abbrev IsGood : S.State → Text → Result (List Text × Records) → Type 0
  IsGood = Rows.IsGood L S o laws

  contains-union :
      (x : Text) (a b : List Text) → contains x (union L S o a b) ≡ (contains x a || contains x b)
  unfolding union contains
  contains-union x a [] = ground arith
  contains-union x a (y ∷ b) =
      contains-union x (if contains y a then a else a ++ y ∷ []) b
      ∙ ground (arith, contains-append x a (y ∷ []), eq_iff y x)

  -- The checkpoints that a trim keeps and those that it drops.
  sorted-AreKept :
      (s : S.State) (t n : Text) (ids survivors needed : List Text)
      → AreStored s (ckpt_ns t n) survivors
      → AreStored s (ckpt_ns t n) needed
      → AreKept L S o laws t n
          (minus ids (union L S o survivors needed))
          s
          (sort lt (union L S o survivors needed))
  sorted-AreKept s t n ids survivors needed h h' id m =
      let kept = union L S o survivors needed in
      (
        ground
            (arith, contains-sort lt id kept, contains-filter (λ x. not (contains x kept)) id ids),
        ground (arith, contains-sort lt id kept, contains-union id survivors needed, h id, h' id),
      )

  -- The newest `keep` rows are as they were, and the pointer does not dangle if it did not.
  abbrev pub KeepsNewest : Text → Text → List Text → ℕ → S.State → S.State → Type 0
  KeepsNewest t n ids keep s s' =
      ((k : Text)
        → contains k (last_of keep ids) ≡ true
        → laws.find s' (ckpt_ns t n) k ≡ laws.find s (ckpt_ns t n) k)
      × (o.store_indexes_max_key ≡ false → IsSound L S o laws t n s → IsSound L S o laws t n s')

  dropped_lem : (c : ℕ) (r : Result Unit × Saver S) → (Trim.dropped L S o c r).1 ≡ r.1
  dropped_lem c (ok u, st) = refl
  dropped_lem c (raise e, st) = refl

  -- The survivors are read from the store.
  zipped-IsRead :
      (s : S.State) (ns : Text) (ids : List Text)
      → IsRead s ns (zip_records [] ids (get_many S s ns ids))
  unfolding find
  zipped-IsRead s ns ids =
      rw (values_lem L S o laws s ns ids)
        (zip_records-IsRead L S o laws s ns ids [] (λ i v e. absurd (ground (arith, e))))

  none-AreStored : (s : S.State) (ns : Text) → AreStored s ns []
  unfolding contains
  none-AreStored s ns i m = absurd (ground (arith, m))

  -- The end of a trim, with the needed ancestors.
  trimmed :
      (t n : Text) (ids : List Text) (keep : ℕ) (st : Saver S) (needed : List Text)
      (records : Records)
      → AreStored st.store (ckpt_ns t n) (last_of keep ids)
      → AreStored st.store (ckpt_ns t n) needed
      → (let kept = union L S o (last_of keep ids) needed in
          KeepsNewest t n ids keep st.store
            (if is_nil (minus ids kept)
              then (ok tt, st)
              else drop_checkpoints L S o t n (minus ids kept) (sort lt kept) records st).1.store)
  trimmed t n ids keep st needed records h h' =
      let kept = union L S o (last_of keep ids) needed in
      let (rows, sound) =
        drop_checkpoints-Keeps L S o laws t n (minus ids kept) (sort lt kept) records st
          (sorted-AreKept st.store t n ids (last_of keep ids) needed h h') in
      elim (Bool-cases (is_nil (minus ids kept))) [
        | inl e ↦ rw e (λ k m. refl, λ plain s. s)
        | inr e ↦ rw e (
          λ k m. rows k (
              ground (
                arith,
                contains-filter (λ x. not (contains x kept)) k ids,
                contains-union k (last_of keep ids) needed,
              )),
          sound,
        )
      ]

  pub trim-KeepsNewest :
      (t n : Text) (ids : List Text) (keep : ℕ) (st : Saver S)
      → AreStored st.store (ckpt_ns t n) ids
      → KeepsNewest t n ids keep st.store (trim L S o t n ids keep st).1.store
  unfolding trim
  trim-KeepsNewest t n ids keep st stored =
      let survivors = last_of keep ids in
      let records = zip_records [] survivors (get_many S st.store (ckpt_ns t n) survivors) in
      let good =
        delta_ancestors-IsGood L S o laws st.store t n survivors [] records
          (none-AreStored st.store (ckpt_ns t n))
          (zipped-IsRead st.store (ckpt_ns t n) survivors) in
      elim (Result-cases (delta_ancestors L S o st.store t n survivors [] records)) [
        | inl (x, q) ↦ rw (KeepsNewest, trim, q) (λ k m. refl, λ plain s. s)
        | inr ((needed, read), q) ↦
            let good' : IsGood st.store (ckpt_ns t n) (ok (needed, read)) = rw q at good in
            rw (KeepsNewest, trim, q, dropped_lem)
              (trimmed t n ids keep st needed read
                (λ i m. stored i (unfold last_of in contains-drop i (length ids - keep) ids m))
                good'.0)
      ]

  remembered_lem :
      (t n : Text) (r : Result ℕ × Saver S) → (Trim.remembered L S o t n r).1.store ≡ r.1.store
  remembered_lem t n (ok kept, st) = refl
  remembered_lem t n (raise e, st) = refl

  sorted-AreStored : (s : S.State) (ns : Text) → AreStored s ns (sort lt (S.keys s ns none))
  sorted-AreStored s ns i m =
      ground (arith, contains-sort lt i (S.keys s ns none), laws.contains-keys s ns i)

  prune_thread-KeepsNewest :
      (t n : Text) (limit : ℕ) (st : Saver S)
      → o.max_checkpoints_per_thread ≡ some limit
      → KeepsNewest t n
          (sort lt (S.keys st.store (ckpt_ns t n) none))
          limit
          st.store
          (prune_thread L S o t n st).1.store
  unfolding prune_thread prune_to
  prune_thread-KeepsNewest t n limit st e =
      let ids = S.keys st.store (ckpt_ns t n) none in
      let floor = max limit (get_or (find (t, n) st.prune_floor) limit) in
      elim (Bool-cases (leb (length ids) (floor + max prune_slack (floor / 4)))) [
        | inl b ↦ rw (prune_thread, e, b) (λ k m. refl, λ plain s. s)
        | inr b ↦
            rw (prune_thread, e, b, remembered_lem)
              (trim-KeepsNewest t n (sort lt ids) limit st
                (sorted-AreStored st.store (ckpt_ns t n)))
      ]

  -- With a limit of checkpoints per thread, `_prune_thread` leaves the rows of the last ids of the
  -- sorted ones, as many as the limit, as they were, whether it returns or raises.
  pub find-prune_thread :
      (t n : Text) (limit : ℕ) (st : Saver S) (id : Text)
      → o.max_checkpoints_per_thread ≡ some limit
      → contains id (last_of limit (sort lt (S.keys st.store (ckpt_ns t n) none))) ≡ true
      → laws.find (prune_thread L S o t n st).1.store (ckpt_ns t n) id
        ≡ laws.find st.store (ckpt_ns t n) id
  find-prune_thread t n limit st id e m = (prune_thread-KeepsNewest t n limit st e).0 id m

  -- In a pointer store where the latest pointer of a thread, if there is one, names a stored
  -- checkpoint, it does so after `_prune_thread` too, whatever the limit and whether it returns or
  -- raises.
  pub prune_thread-IsSound :
      (t n : Text) (st : Saver S)
      → o.store_indexes_max_key ≡ false
      → IsSound L S o laws t n st.store
      → IsSound L S o laws t n (prune_thread L S o t n st).1.store
  unfolding prune_thread
  prune_thread-IsSound t n st plain sound = elim (Option-cases o.max_checkpoints_per_thread) [
    | inl e ↦ rw (prune_thread, e) sound
    | inr (limit, e) ↦ (prune_thread-KeepsNewest t n limit st e).1 plain sound
  ]
