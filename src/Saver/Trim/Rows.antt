-- ===== src/Saver/Trim/Rows.antt =====
-- The rows that a trim reads, and the ancestors that it finds: they are stored.
use swarmstate.Prelude.{
  ℕ, zero, suc, ◌≡◌, refl, ap, ◌∙◌, inl, inr, true, Option, none, some, List, [], ◌∷◌, map, arith,
  contains, eq_iff, Bool-cases, pair_eq, get_or, is_some, is_nil, length,
}
use swarmstate.Prelude.Dict.{find, insert, keys, find-insert}
use swarmstate.Prelude.Result.{Result, ok, raise, ◌>>=◌}
use swarmstate.Store.{StoreLike, IsStore}
use swarmstate.Text.{Text, text_eq}
use swarmstate.Saver.{
  Langgraph, Stored, saved, pointer, write, blob, empty, Options, Typed, truthy, loads_metadata,
}
use swarmstate.Saver.Names.{ckpt_ns}
use swarmstate.Saver.Access.{get_many}
use swarmstate.Saver.Tuple.{channel_values}
use swarmstate.Saver.Retention.{Records, zip_records}
use swarmstate.Saver.Trim
use swarmstate.Saver.Trim.{
  last_of, minus, cached, walk, delta_channels, survivor_needs, delta_ancestors, union, trim,
  prune_to, prune_thread,
}

module _ {V : Type 0} (L : Langgraph V) (S : StoreLike Stored) (o : Options)
    (laws : IsStore S) where
  -- What was read of the rows is what is stored.
  abbrev pub IsRead : S.State → Text → Records → Type 0
  IsRead s ns records =
      (i : Text) (v : Option Stored) → find i records ≡ some v → v ≡ get_or (laws.find s ns i) none

  abbrev pub AreStored : S.State → Text → List Text → Type 0
  AreStored s ns ids = (i : Text) → contains i ids ≡ true → is_some (laws.find s ns i) ≡ true

  insert-IsRead :
      (s : S.State) (ns i : Text) (records : Records)
      → IsRead s ns records
      → IsRead s ns (insert i (get_or (laws.find s ns i) none) records)
  insert-IsRead s ns i records h j v e =
      ground (arith, find-insert i j (get_or (laws.find s ns i) none) records, h j v, eq_iff i j)

  pub zip_records-IsRead :
      (s : S.State) (ns : Text) (ids : List Text) (records : Records)
      → IsRead s ns records
      → IsRead s ns (zip_records records ids (map (λ i. get_or (laws.find s ns i) none) ids))
  unfolding zip_records
  zip_records-IsRead s ns [] records h = h
  zip_records-IsRead s ns (i ∷ ids) records h =
      zip_records-IsRead s ns ids _ (insert-IsRead s ns i records h)

  pub values_lem :
      (s : S.State) (ns : Text) (ids : List Text)
      → get_many S s ns ids ≡ map (λ i. get_or (laws.find s ns i) none) ids
  unfolding get_many
  values_lem s ns ids = laws.get_many_lem s (map (λ k. (ns, k)) ids) ∙ pairs_lem ids
    where
      pairs_lem :
          (ids : List Text)
          → map (λ (p : Text × Text). get_or (laws.find s p.0 p.1) none) (map (λ k. (ns, k)) ids)
            ≡ map (λ i. get_or (laws.find s ns i) none) ids
      pairs_lem [] = refl
      pairs_lem (i ∷ ids) = ap (◌∷◌ (get_or (laws.find s ns i) none)) (pairs_lem ids)

  cached-IsRead :
      (s : S.State) (ns cursor : Text) (records : Records)
      → IsRead s ns records
      → IsRead s ns (cached L S o s ns cursor records)
  unfolding cached
  cached-IsRead s ns cursor records h = elim (Bool-cases (contains cursor (keys records))) [
    | inl e ↦ rw e h
    | inr e ↦ rw (e, laws.get_lem s ns cursor none) (insert-IsRead s ns cursor records h)
  ]

  -- The outcome of the walk: rows that were read, and needed checkpoints that are stored.
  abbrev pub IsGood : S.State → Text → Result (List Text × Records) → Type 0
  IsGood s ns (raise e) = Unit
  IsGood s ns (ok (needed, records)) = AreStored s ns needed × IsRead s ns records

  cons-AreStored :
      (s : S.State) (ns i : Text) (ids : List Text)
      → is_some (laws.find s ns i) ≡ true
      → AreStored s ns ids
      → AreStored s ns (i ∷ ids)
  unfolding contains
  cons-AreStored s ns i ids h rest j m = ground (arith, rest j, eq_iff i j)

  -- A row that was read and is there is stored.
  stored_of_read :
      (s : S.State) (ns i : Text) (records : Records) (e : Stored)
      → IsRead s ns records
      → get_or (find i records) none ≡ some e
      → is_some (laws.find s ns i) ≡ true
  stored_of_read s ns i records e h q = ground (arith, h i (some e))

  at_row-IsGood :
      (s : S.State) (ns : Text) (row : Option Stored) (stop : List Text × Records)
      (next : Typed → Option Text → Result (List Text × Records))
      → IsGood s ns (ok stop)
      → ((e : Stored)
          → row ≡ some e
          → (cp : Typed) (parent : Option Text) → IsGood s ns (next cp parent))
      → IsGood s ns (Trim.at_row L S o row stop next)
  at_row-IsGood s ns none stop next h more = h
  at_row-IsGood s ns (some (saved cp md parent)) stop next h more =
      more (saved cp md parent) refl cp parent
  at_row-IsGood s ns (some (pointer i)) stop next h more = tt
  at_row-IsGood s ns (some (write i ch v p)) stop next h more = tt
  at_row-IsGood s ns (some (blob v)) stop next h more = tt
  at_row-IsGood s ns (some empty) stop next h more = tt

  bind-IsGood :
      {B : Type 0} (s : S.State) (ns : Text) (r : Result B)
      (next : B → Result (List Text × Records))
      → ((b : B) → IsGood s ns (next b))
      → IsGood s ns (r >>= next)
  bind-IsGood s ns (raise e) next h = tt
  bind-IsGood s ns (ok b) next h = h b

  walk-IsGood :
      (fuel : ℕ) (s : S.State) (t n : Text) (missing : List Text) (cursor : Option Text)
      (needed : List Text) (records : Records)
      → AreStored s (ckpt_ns t n) needed
      → IsRead s (ckpt_ns t n) records
      → IsGood s (ckpt_ns t n) (walk L S o fuel s t n missing cursor needed records)
  unfolding walk
  walk-IsGood fuel s t n [] cursor needed records h r = (h, r)
  walk-IsGood fuel s t n (m ∷ missing) none needed records h r = (h, r)
  walk-IsGood zero s t n (m ∷ missing) (some cursor) needed records h r = tt
  walk-IsGood (suc fuel) s t n (m ∷ missing) (some cursor) needed records h r =
      let read = cached L S o s (ckpt_ns t n) cursor records in
      let r' = cached-IsRead s (ckpt_ns t n) cursor records r in
      at_row-IsGood s (ckpt_ns t n) (get_or (find cursor read) none) (needed, read) _ (h, r')
        (λ e q cp parent.
          bind-IsGood s (ckpt_ns t n) (channel_values L S o s t n cp (m ∷ missing)) _ (λ values.
            walk-IsGood fuel s t n (minus (m ∷ missing) (keys values)) (truthy parent)
              (cursor ∷ needed) read
              (cons-AreStored s (ckpt_ns t n) cursor needed
                (stored_of_read s (ckpt_ns t n) cursor read e r' q) h)
              r'))

  survivor_needs-IsGood :
      (s : S.State) (t n : Text) (row : Option Stored) (needed : List Text) (records : Records)
      → AreStored s (ckpt_ns t n) needed
      → IsRead s (ckpt_ns t n) records
      → IsGood s (ckpt_ns t n) (survivor_needs L S o s t n row needed records)
  unfolding survivor_needs
  survivor_needs-IsGood s t n none needed records h r = (h, r)
  survivor_needs-IsGood s t n (some (saved cp md parent)) needed records h r =
      bind-IsGood s (ckpt_ns t n) (loads_metadata L md) _ (λ m.
        elim (Bool-cases (is_nil (delta_channels L S o m))) [
          | inl e ↦ rw e (h, r)
          | inr e ↦ rw e (
              bind-IsGood s (ckpt_ns t n) (channel_values L S o s t n cp (delta_channels L S o m)) _
                (λ values.
                  walk-IsGood (suc (length (S.keys s (ckpt_ns t n) none))) s t n
                    (minus (delta_channels L S o m) (keys values)) (truthy parent) needed records h
                    r))
        ])
  survivor_needs-IsGood s t n (some (pointer i)) needed records h r = tt
  survivor_needs-IsGood s t n (some (write i ch v p)) needed records h r = tt
  survivor_needs-IsGood s t n (some (blob v)) needed records h r = tt
  survivor_needs-IsGood s t n (some empty) needed records h r = tt

  then-IsGood :
      (s : S.State) (ns : Text) (r : Result (List Text × Records))
      (next : List Text × Records → Result (List Text × Records))
      → IsGood s ns r
      → ((needed : List Text) (records : Records)
          → AreStored s ns needed
          → IsRead s ns records
          → IsGood s ns (next (needed, records)))
      → IsGood s ns (r >>= next)
  then-IsGood s ns (raise e) next h more = tt
  then-IsGood s ns (ok (needed, records)) next h more = more needed records h.0 h.1

  pub delta_ancestors-IsGood :
      (s : S.State) (t n : Text) (survivors needed : List Text) (records : Records)
      → AreStored s (ckpt_ns t n) needed
      → IsRead s (ckpt_ns t n) records
      → IsGood s (ckpt_ns t n) (delta_ancestors L S o s t n survivors needed records)
  unfolding delta_ancestors
  delta_ancestors-IsGood s t n [] needed records h r = (h, r)
  delta_ancestors-IsGood s t n (i ∷ survivors) needed records h r =
      then-IsGood s (ckpt_ns t n)
        (survivor_needs L S o s t n (get_or (find i records) none) needed records) _
        (survivor_needs-IsGood s t n (get_or (find i records) none) needed records h r)
        (λ needed' records'. delta_ancestors-IsGood s t n survivors needed' records')
