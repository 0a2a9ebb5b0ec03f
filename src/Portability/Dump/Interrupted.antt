-- ===== src/Portability/Dump/Interrupted.antt =====
-- `dump_store` to a path leaves the whole dump there or what was there before, whichever step fails.
use mathlib.Core.List.{append_assoc}
use swarmstate.Prelude.{
  ℕ, ◌≡◌, refl, ap, sym, ◌∙◌, ◌⊎◌, inl, inr, false, Option, none, some, List, [], ◌∷◌, ◌++◌, arith,
  length, ◌==◌, Bool-cases,
}
use swarmstate.Prelude.Chunks.{concat}
use swarmstate.Prelude.Result.{Result, Error, ok, raise, Result-cases}
use swarmstate.Snapshot.{Bytes}
use swarmstate.Store.{StoreLike}
use swarmstate.Text.{Text, text_eq, text_beq}
use swarmstate.Portability.{Entry, entries, batch_limit}
use swarmstate.Portability.Dump.{
  EntryCodec, magic, format_version, pack_size, write_frames, write_dump,
}
use swarmstate.Portability.Dump.Files.{Os, IsOs, Frame}
use swarmstate.Portability.Dump.ToPath
use swarmstate.Portability.Dump.ToPath.{tmp_of, write_entries, dump_store}

-- The temporary file is another one.
tmp_neq : (path : Text) → (tmp_of path == path) ≡ false
unfolding text_beq
tmp_neq [] = refl
tmp_neq (c ∷ path) = ground (arith, tmp_neq path)

append-nil : (b : Bytes) → b ++ [] ≡ b
append-nil [] = refl
append-nil (c ∷ b) = ap (◌∷◌ c) (append-nil b)

module _ {A : Type 0} (C : EntryCodec A) (O : Os) (laws : IsOs O) where
  Frame-trans : (p : Text) {f g h : O.Fs} → Frame O p f g → Frame O p g h → Frame O p f h
  Frame-trans p a b q n = b q n ∙ a q n

  -- A file that had `old` in it has the frames of some entries behind that, or the step raises; no
  -- other file changes.
  abbrev Appended : Text → Bytes → List (Entry A) → O.Fs → Result ℕ × O.Fs → Type 0
  Appended p old es fs (raise e, fs') = Frame O p fs fs'
  Appended p old es fs (ok n, fs') =
      Frame O p fs fs'
      × ((out : Bytes) × (write_frames C es ≡ ok (n, out)) × (O.content fs' p ≡ some (old ++ out)))

  -- One `f.write`.
  write-then :
      (p : Text) (b old : Bytes) (fs : O.Fs) (D : Type 0) (next : ToPath.Step C O D)
      (Q : Result D × O.Fs → Type 0)
      → O.content fs p ≡ some old
      → ((fs' : O.Fs) → Frame O p fs fs' → O.content fs' p ≡ some (old ++ b) → Q (next fs'))
      → ((e : Error) (fs' : O.Fs) → Frame O p fs fs' → Q (raise e, fs'))
      → Q (ToPath.and_then C O (O.write p b fs) λ _ fs. next fs)
  write-then p b old fs D next Q h good bad =
      go (O.write p b fs) (laws.write-Frame p b fs) (laws.write_lem p b old fs h)
    where
      go :
          (r : Result Unit × O.Fs)
          → Frame O p fs r.1
          → (r.0 ≡ ok tt → O.content r.1 p ≡ some (old ++ b))
          → Q (ToPath.and_then C O r λ _ fs. next fs)
      go (raise e, fs') f w = bad e fs' f
      go (ok u, fs') f w = good fs' f (w refl)

  counted :
      (p : Text) (old size frame : Bytes) (e : Entry A) (es : List (Entry A)) (fs fs1 : O.Fs)
      (r : Result ℕ × O.Fs)
      → C.dumps e ≡ ok frame
      → pack_size (length frame) ≡ ok size
      → Frame O p fs fs1
      → Appended p ((old ++ size) ++ frame) es fs1 r
      → Appended p old (e ∷ es) fs (ToPath.count_one C O r)
  unfolding write_frames
  counted p old size frame e es fs fs1 (raise x, fs') d s f h = Frame-trans p f h
  counted p old size frame e es fs fs1 (ok n, fs') d s f (g, (out, w, c)) = (
    Frame-trans p f g,
    (
      size ++ (frame ++ out),
      rw (d, s, w) refl,
      c ∙ ap some (append_assoc (old ++ size) frame out ∙ append_assoc old size (frame ++ out)),
    ),
  )

  write_entries-Appended :
      (p : Text) (es : List (Entry A)) (old : Bytes) (fs : O.Fs)
      → O.content fs p ≡ some old
      → Appended p old es fs (write_entries C O p es fs)
  unfolding write_entries write_frames
  write_entries-Appended p [] old fs h =
      (λ q n. refl, ([], refl, h ∙ ap some (sym (append-nil old))))
  write_entries-Appended p (e ∷ es) old fs h = elim (Result-cases (C.dumps e)) [
    | inl (x, d) ↦ rw d (λ q n. refl)
    | inr (frame, d) ↦ elim (Result-cases (pack_size (length frame))) [
      | inl (x, s) ↦ rw (d, s) (λ q n. refl)
      | inr (size, s) ↦
          rw (d, s)
            (write-then p size old fs ℕ _ (Appended p old (e ∷ es) fs) h
              (λ fs1 f1 h1.
                write-then p frame (old ++ size) fs1 ℕ _ (Appended p old (e ∷ es) fs) h1
                  (λ fs2 f2 h2.
                    counted p old size frame e es fs fs2 (write_entries C O p es fs2) d s
                      (Frame-trans p f1 f2)
                      (write_entries-Appended p es ((old ++ size) ++ frame) fs2 h2))
                  (λ x fs2 f2. Frame-trans p f1 f2))
              (λ x fs1 f1. f1))
    ]
  ]

  module _ (S : StoreLike A) (s : S.State) (prefix : Option Text) where
    -- The whole dump is in a file, or the step raises; no other file changes.
    abbrev pub Saved : Text → O.Fs → Result ℕ × O.Fs → Type 0
    Saved p fs (raise e, fs') = Frame O p fs fs'
    Saved p fs (ok n, fs') =
        Frame O p fs fs'
        × ((bytes : Bytes) × (write_dump C S s prefix ≡ ok (n, bytes))
            × (O.content fs' p ≡ some bytes))

    Saved-of_Appended :
        (p : Text) (fs fs1 : O.Fs) (r : Result ℕ × O.Fs)
        → Frame O p fs fs1
        → Appended p
            (magic ++ (format_version ∷ []))
            (concat (entries S s prefix batch_limit))
            fs1
            r
        → Saved p fs r
    unfolding write_dump
    Saved-of_Appended p fs fs1 (raise e, fs') f h = Frame-trans p f h
    Saved-of_Appended p fs fs1 (ok n, fs') f (g, (out, w, c)) =
        (Frame-trans p f g, ((magic ++ (format_version ∷ [])) ++ out, rw w refl, c))

    Frame-of_Saved : (p : Text) (fs : O.Fs) (r : Result ℕ × O.Fs) → Saved p fs r → Frame O p fs r.1
    Frame-of_Saved p fs (raise e, fs') h = h
    Frame-of_Saved p fs (ok n, fs') h = h.0

    closing-Saved :
        (p : Text) (fs : O.Fs) (r : Result ℕ × O.Fs)
        → Saved p fs r
        → Saved p fs (ToPath.closing C O p r)
    closing-Saved p fs (r, fs1) h =
        go r (O.close p fs1) (laws.close-Frame p fs1) (laws.close_lem p fs1) h
      where
        go :
            (r : Result ℕ) (c : Result Unit × O.Fs)
            → Frame O p fs1 c.1
            → (c.0 ≡ ok tt → O.content c.1 p ≡ O.content fs1 p)
            → Saved p fs (r, fs1)
            → Saved p fs (ToPath.either C O r c)
        go r (raise e, fs2) f k h = Frame-trans p (Frame-of_Saved p fs (r, fs1) h) f
        go (raise e) (ok u, fs2) f k h = Frame-trans p h f
        go (ok n) (ok u, fs2) f k (g, (bytes, w, c)) = (Frame-trans p g f, (bytes, w, k refl ∙ c))

    pub written_file-Saved :
        (p : Text) (fs : O.Fs) → Saved p fs (ToPath.written_file C O S s prefix p fs)
    written_file-Saved p fs = go (O.open_wb p fs) (laws.open_wb-Frame p fs) (laws.open_wb_lem p fs)
      where
        go :
            (r : Result Unit × O.Fs)
            → Frame O p fs r.1
            → (r.0 ≡ ok tt → O.content r.1 p ≡ some [])
            → Saved p fs (
                ToPath.and_then C O r
                  λ _ fs. ToPath.closing C O p (ToPath.write_file C O S s prefix p fs))
        go (raise e, fs1) f h = f
        go (ok u, fs1) f h = closing-Saved p fs (ToPath.write_file C O S s prefix p fs1) (
            write-then p (magic ++ (format_version ∷ [])) [] fs1 ℕ _ (Saved p fs) (h refl)
              (λ fs2 f2 h2. Saved-of_Appended p fs fs2 _ (Frame-trans p f f2) (
                write_entries-Appended p (concat (entries S s prefix batch_limit))
                  (magic ++ (format_version ∷ [])) fs2 h2))
              (λ x fs2 f2. Frame-trans p f f2))

    module _ (path : Text) (fs : O.Fs) where
      -- What a dump to a path leaves.
      abbrev pub Dumped : Result ℕ × O.Fs → Type 0
      Dumped (ok n, fs') =
          ((bytes : Bytes) × (write_dump C S s prefix ≡ ok (n, bytes))
            × (O.content fs' path ≡ some bytes))
          × (O.content fs' (tmp_of path) ≡ none)
          × ((q : Text)
              → (tmp_of path == q) ≡ false
              → (path == q) ≡ false
              → O.content fs' q ≡ O.content fs q)
      Dumped (raise e, fs') =
          Frame O (tmp_of path) fs fs'
          × ((O.content fs' (tmp_of path) ≡ none)
              ⊎ ((f : O.Fs) × (O.remove (tmp_of path) f ≡ (raise e, fs'))))

      cleaned-Dumped :
          (e : Error) (fs1 : O.Fs)
          → Frame O (tmp_of path) fs fs1
          → Dumped (ToPath.cleaned C O (tmp_of path) (raise e, fs1))
      cleaned-Dumped e fs1 f = elim (Bool-cases (O.exists fs1 (tmp_of path))) [
        | inr h ↦ rw h (f, inl (ground (arith, h, laws.exists_lem fs1 (tmp_of path))))
        | inl h ↦ rw h (
            removed (O.remove (tmp_of path) fs1) refl (laws.remove-Frame (tmp_of path) fs1)
              (laws.remove_lem (tmp_of path) fs1))
      ]
        where
          removed :
              (r : Result Unit × O.Fs)
              → O.remove (tmp_of path) fs1 ≡ r
              → Frame O (tmp_of path) fs1 r.1
              → (r.0 ≡ ok tt → O.content r.1 (tmp_of path) ≡ none)
              → Dumped (ToPath.and_then C O r (λ u fs. (raise e, fs)))
          removed (ok u, fs2) h g k = (Frame-trans (tmp_of path) f g, inl (k refl))
          removed (raise x, fs2) h g k = (Frame-trans (tmp_of path) f g, inr (fs1, h))

      replaced :
          (r : Result ℕ × O.Fs)
          → Saved (tmp_of path) fs r
          → Dumped (
              ToPath.cleaned C O (tmp_of path) (
                ToPath.and_then C O r λ count fs.
                  ToPath.and_then C O (O.replace (tmp_of path) path fs) λ _ fs. (ok count, fs)))
      replaced (raise e, fs1) h = cleaned-Dumped e fs1 h
      replaced (ok n, fs1) (f, (bytes, w, c)) =
          go (O.replace (tmp_of path) path fs1)
            (laws.replace_lem (tmp_of path) path fs1 (tmp_neq path))
            (laws.replace-others (tmp_of path) path fs1)
            (λ e q. laws.replace-fails (tmp_of path) path fs1 e q)
        where
          go :
              (r : Result Unit × O.Fs)
              → (r.0 ≡ ok tt
                  → (O.content r.1 path ≡ O.content fs1 (tmp_of path))
                    × (O.content r.1 (tmp_of path) ≡ none))
              → ((q : Text)
                  → (tmp_of path == q) ≡ false
                  → (path == q) ≡ false
                  → O.content r.1 q ≡ O.content fs1 q)
              → ((e : Error) (q : Text) → r.0 ≡ raise e → O.content r.1 q ≡ O.content fs1 q)
              → Dumped (ToPath.cleaned C O (tmp_of path) (ToPath.and_then C O r λ _ fs. (ok n, fs)))
          go (raise e, fs2) m g b =
              cleaned-Dumped e fs2 (Frame-trans (tmp_of path) f (λ q x. b e q refl))
          go (ok u, fs2) m g b = ((bytes, w, (m refl).0 ∙ c), (m refl).1, λ q x y. g q x y ∙ f q x)

      -- Whichever steps fail of opening, writing, closing, moving and removing the temporary file,
      -- a dump to a path that returns has put the whole dump at the path and left no temporary
      -- file; one that raises has left the file at the path, and every other file but the temporary
      -- one, as it was, and there is no temporary file unless the exception is that of removing it.
      pub dump_store_lem : Dumped (dump_store C O S s prefix path fs)
      unfolding dump_store
      dump_store_lem =
          replaced (ToPath.written_file C O S s prefix (tmp_of path) fs)
            (written_file-Saved (tmp_of path) fs)
