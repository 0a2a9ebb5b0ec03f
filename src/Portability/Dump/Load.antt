-- ===== src/Portability/Dump/Load.antt =====
-- A dump, loaded into a store.
use swarmstate.Prelude.{
  ℕ, suc, ◌^◌, ◌<◌, ltb, ◌≡◌, refl, ap, ◌∙◌, inl, inr, true, Option, none, List, [], ◌∷◌, ◌++◌,
  arith, length, or_else, if◌then◌else◌,
}
use swarmstate.Prelude.Chunks.{concat}
use swarmstate.Prelude.Result.{ok}
use swarmstate.Prefix.{is_text}
use swarmstate.Snapshot.{Bytes}
use swarmstate.Store.{StoreLike, IsStore, written}
use swarmstate.Text.{Text, text_eq, text_beq}
use swarmstate.Portability.{Entry, entries, batch_limit}
use swarmstate.Portability.Copy.{total, selects, written-entries, length-entries, listed}
use swarmstate.Portability.Dump.{
  EntryCodec, magic, format_version, pack_size, write_frames, write_dump, read_dump, read_frames,
}
use swarmstate.Portability.Dump.Frames.{Result-cases, read_frames-write_frames}

module _ {A : Type 0} (C : EntryCodec A) where
  -- Every entry can be serialized, into less than 4 GiB.
  abbrev pub AllFit : List (Entry A) → Type 0
  AllFit [] = Unit
  AllFit (e ∷ es) = ((frame : Bytes) × (C.dumps e ≡ ok frame) × (length frame < 2 ^ 32)) × AllFit es

  write_frames-AllFit :
      (es : List (Entry A)) → AllFit es → (r : ℕ × Bytes) × (write_frames C es ≡ ok r)
  unfolding write_frames pack_size
  write_frames-AllFit [] fit = ((0, []), refl)
  write_frames-AllFit (e ∷ es) ((frame, d, small), fit) =
      let (r, w) = write_frames-AllFit es fit in
      let low : ltb (length frame) (2 ^ 32) ≡ true = ground arith in rw (d, low, w) (_, refl)

module _ {A : Type 0} (C : EntryCodec A) (S T : StoreLike A) (source : IsStore S)
    (target : IsStore T) where
  abbrev dumped : S.State → Option Text → List (Entry A)
  dumped s prefix = concat (entries S s prefix batch_limit)

  -- A dump is the header and the frames.
  frames_of :
      (s : S.State) (prefix : Option Text) (count : ℕ) (bytes : Bytes)
      → write_dump C S s prefix ≡ ok (count, bytes)
      → (out : Bytes) × (write_frames C (dumped s prefix) ≡ ok (count, out))
        × (bytes ≡ (magic ++ (format_version ∷ [])) ++ out)
  unfolding write_dump
  frames_of s prefix count bytes h = elim (Result-cases (write_frames C (dumped s prefix))) [
    | inr (x, w) ↦ absurd (ground (arith, w))
    | inl (r, w) ↦ (r.1, ground (arith, w), ground (arith, w))
  ]

  read_dump_lem :
      (out : Bytes) (d : T.State)
      → read_dump C T ((magic ++ (format_version ∷ [])) ++ out) d
        ≡ read_frames C T (suc (length out)) out [] d
  unfolding read_dump text_beq
  read_dump_lem out d = refl

  entries_lem :
      (s : S.State) (prefix : Option Text) (n k : Text)
      → is_text n ≡ true
      → written (dumped s prefix) n k ≡ (if selects prefix n then source.find s n k else none)
  unfolding entries
  entries_lem s prefix n k v =
      written-entries S source s batch_limit (omega arith) (S.namespaces s prefix) n k
      ∙ listed S source s prefix n k v

  count_lem :
      (s : S.State) (prefix : Option Text)
      → length (dumped s prefix) ≡ total S s (S.namespaces s prefix)
  unfolding entries
  count_lem s prefix = length-entries S source s batch_limit (omega arith) (S.namespaces s prefix)

  -- What was written reads back.
  read_back :
      (s : S.State) (prefix : Option Text) (count : ℕ) (bytes : Bytes) (d : T.State)
      → write_dump C S s prefix ≡ ok (count, bytes)
      → (count ≡ total S s (S.namespaces s prefix))
        × ((read_dump C T bytes d).0 ≡ ok tt)
        × ((n k : Text)
            → is_text n ≡ true
            → target.find (read_dump C T bytes d).1 n k
              ≡ or_else (if selects prefix n then source.find s n k else none) (target.find d n k))
  read_back s prefix count bytes d h =
      let (out, w, e) = frames_of s prefix count bytes h in
      let (c, (r, f)) =
        read_frames-write_frames C T target (dumped s prefix) (suc (length out)) count out [] d w
          (omega arith) in
      (
        c ∙ count_lem s prefix,
        rw (e, read_dump_lem out d) r,
        λ n k v.
            rw (e, read_dump_lem out d)
              (f n k ∙ ap (λ o. or_else o (target.find d n k)) (entries_lem s prefix n k v)),
      )

  -- Such a dump succeeds.
  write_dump-AllFit :
      (s : S.State) (prefix : Option Text)
      → AllFit C (dumped s prefix)
      → (count : ℕ) × (bytes : Bytes) × (write_dump C S s prefix ≡ ok (count, bytes))
  unfolding write_dump
  write_dump-AllFit s prefix fit =
      let (r, w) = write_frames-AllFit C (dumped s prefix) fit in
      (r.0, (magic ++ (format_version ∷ [])) ++ r.1, rw w refl)

  -- Where every entry can be serialized, into less than 4 GiB, a dump succeeds and counts the
  -- entries of the namespaces that the source lists for the prefix; and loading what it wrote into
  -- any store succeeds, after which the store holds, in every namespace that the prefix selects and
  -- that UTF-8 can store, each entry of the source, and everything else in such a namespace, and
  -- every other such namespace, is as before.
  pub read_dump-write_dump :
      (s : S.State) (prefix : Option Text) (d : T.State)
      → AllFit C (concat (entries S s prefix batch_limit))
      → (count : ℕ) × (bytes : Bytes) × (write_dump C S s prefix ≡ ok (count, bytes))
        × (count ≡ total S s (S.namespaces s prefix))
        × ((read_dump C T bytes d).0 ≡ ok tt)
        × ((n k : Text)
            → is_text n ≡ true
            → target.find (read_dump C T bytes d).1 n k
              ≡ or_else (if selects prefix n then source.find s n k else none) (target.find d n k))
  read_dump-write_dump s prefix d fit =
      let (count, bytes, h) = write_dump-AllFit s prefix fit in
      let (c, r, f) = read_back s prefix count bytes d h in (count, bytes, h, c, r, f)
