-- ===== src/Portability/Dump/Returns.antt =====
-- What `dump_store` returns, on a file system on which no step fails.
use swarmstate.Prelude.{
  ℕ, arith, ◌≡◌, refl, ◌∙◌, inl, inr, Option, List, [], ◌∷◌, ◌++◌, length, ◌+◌, Bool-cases,
}
use swarmstate.Prelude.Chunks.{concat}
use swarmstate.Prelude.Result.{Result, ok, raise, Result-cases, ◌>>=◌}
use swarmstate.Snapshot.{Bytes}
use swarmstate.Store.{StoreLike}
use swarmstate.Text.{Text}
use swarmstate.Portability.{Entry, entries, batch_limit}
use swarmstate.Portability.Dump.{
  EntryCodec, magic, format_version, pack_size, write_frames, write_dump,
}
use swarmstate.Portability.Dump.Files.{Os, IsOs, Works}
use swarmstate.Portability.Dump.Interrupted
use swarmstate.Portability.Dump.Interrupted.{written_file-Saved}
use swarmstate.Portability.Dump.ToPath
use swarmstate.Portability.Dump.ToPath.{tmp_of, write_entries, dump_store}

-- The number of entries, or the exception.
abbrev pub count_of : Result (ℕ × Bytes) → Result ℕ
count_of (raise e) = raise e
count_of (ok r) = ok r.0

module _ {A : Type 0} (C : EntryCodec A) (O : Os) (laws : IsOs O) (works : Works O) where
  counted :
      (size frame : Bytes) (w : Result (ℕ × Bytes)) (r : Result ℕ × O.Fs)
      → r.0 ≡ count_of w
      → (ToPath.count_one C O r).0
        ≡ count_of (w >>= λ rest. ok (rest.0 + 1, size ++ (frame ++ rest.1)))
  counted size frame (raise e) (raise x, fs) h = h
  counted size frame (raise e) (ok n, fs) h = absurd (ground (arith, h))
  counted size frame (ok x) (raise e, fs) h = absurd (ground (arith, h))
  counted size frame (ok x) (ok n, fs) h = ground (arith, h)

  write_entries-count :
      (p : Text) (es : List (Entry A)) (fs : O.Fs)
      → (write_entries C O p es fs).0 ≡ count_of (write_frames C es)
  unfolding write_entries write_frames
  write_entries-count p [] fs = refl
  write_entries-count p (e ∷ es) fs = elim (Result-cases (C.dumps e)) [
    | inl (x, d) ↦ rw d refl
    | inr (frame, d) ↦ elim (Result-cases (pack_size (length frame))) [
      | inl (x, s) ↦ rw (d, s) refl
      | inr (size, s) ↦
          let (fs1, w1) = works.writes p size fs in
          let (fs2, w2) = works.writes p frame fs1 in
          rw (d, s, w1, w2)
            (counted size frame (write_frames C es) (write_entries C O p es fs2)
              (write_entries-count p es fs2))
    ]
  ]

  closing_count : (p : Text) (r : Result ℕ × O.Fs) → (ToPath.closing C O p r).0 ≡ r.0
  closing_count p (r, fs) = let (fs', c) = works.closes p fs in rw c refl

  module _ (S : StoreLike A) where
    write_dump-count :
        (s : S.State) (prefix : Option Text)
        → count_of (write_frames C (concat (entries S s prefix batch_limit)))
          ≡ count_of (write_dump C S s prefix)
    unfolding write_dump
    write_dump-count s prefix =
        elim (Result-cases (write_frames C (concat (entries S s prefix batch_limit)))) [
          | inl (e, w) ↦ rw w refl
          | inr (r, w) ↦ rw w refl
        ]

    written_file-count :
        (s : S.State) (prefix : Option Text) (p : Text) (fs : O.Fs)
        → (ToPath.written_file C O S s prefix p fs).0 ≡ count_of (write_dump C S s prefix)
    written_file-count s prefix p fs =
        let (fs1, o) = works.opens p fs in
        let (fs2, w) = works.writes p (magic ++ (format_version ∷ [])) fs1 in
        rw o (
          closing_count p (ToPath.write_file C O S s prefix p fs1)
          ∙ rw w (
              write_entries-count p (concat (entries S s prefix batch_limit)) fs2
              ∙ write_dump-count s prefix))

    cleaned_count :
        (s : S.State) (prefix : Option Text) (path : Text) (before : O.Fs) (r : Result ℕ × O.Fs)
        → Interrupted.Saved C O laws S s prefix (tmp_of path) before r
        → (ToPath.cleaned C O (tmp_of path) (
            ToPath.and_then C O r λ count fs.
              ToPath.and_then C O (O.replace (tmp_of path) path fs) λ _ fs. (ok count, fs))).0
          ≡ r.0
    cleaned_count s prefix path before (ok n, fs) (f, (bytes, w, c)) =
        let (fs', m) = works.replaces (tmp_of path) path fs bytes c in rw m refl
    cleaned_count s prefix path before (raise e, fs) h =
        elim (Bool-cases (O.exists fs (tmp_of path))) [
          | inl x ↦ let (fs', m) = works.removes (tmp_of path) fs x in rw (x, m) refl
          | inr x ↦ rw x refl
        ]

    -- On a file system on which no step fails, a dump to a path returns the number of entries of
    -- the dump, or raises the exception of the entry that cannot be serialized or framed.
    pub dump_store-count :
        (s : S.State) (prefix : Option Text) (path : Text) (fs : O.Fs)
        → (dump_store C O S s prefix path fs).0 ≡ count_of (write_dump C S s prefix)
    unfolding dump_store
    dump_store-count s prefix path fs =
        cleaned_count s prefix path fs (ToPath.written_file C O S s prefix (tmp_of path) fs)
          (written_file-Saved C O laws S s prefix (tmp_of path) fs)
        ∙ written_file-count s prefix (tmp_of path) fs
