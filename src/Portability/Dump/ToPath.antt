-- ===== src/Portability/Dump/ToPath.antt =====
-- python/swarmstate/portability.py: `dump_store` to a path, with the steps of `_write` on the file.
use swarmstate.Prelude.{ℕ, ◌+◌, Option, List, [], ◌∷◌, ◌++◌, if◌then◌else◌, length}
use swarmstate.Prelude.Chunks.{concat}
use swarmstate.Prelude.Result.{Result, ok, raise}
use swarmstate.Store.{StoreLike}
use swarmstate.Text.{Text}
use swarmstate.Portability.{Entry, entries, batch_limit}
use swarmstate.Portability.Dump.{EntryCodec, magic, format_version, pack_size}
use swarmstate.Portability.Dump.Files.{Os}

-- f"{path}.tmp"
abbrev pub tmp_of : Text → Text
tmp_of path = path ++ (46 ∷ 116 ∷ 109 ∷ 112 ∷ [])

module _ {A : Type 0} (C : EntryCodec A) (O : Os) where
  abbrev pub Step : Type 0 → Type 0
  Step B = O.Fs → Result B × O.Fs

  -- a step and, if it returns, the next one
  abbrev pub and_then : {B D : Type 0} → Result B × O.Fs → (B → Step D) → Result D × O.Fs
  and_then (raise e, fs) next = (raise e, fs)
  and_then (ok b, fs) next = next b fs

  -- `count += 1`
  abbrev pub count_one : Result ℕ × O.Fs → Result ℕ × O.Fs
  count_one (raise e, fs) = (raise e, fs)
  count_one (ok n, fs) = (ok (n + 1), fs)

  -- the loops of `_write`, to the file that is open at a path
  unfoldable pub write_entries : Text → List (Entry A) → Step ℕ
  write_entries p [] fs = (ok 0, fs)
  write_entries p (e ∷ es) fs =
      let rest = write_entries p es in
      and_then (C.dumps e, fs)
        λ frame fs.
          and_then (pack_size (length frame), fs)
            λ size fs.
              and_then (O.write p size fs)
                λ _ fs. and_then (O.write p frame fs) λ _ fs. count_one (rest fs)

  -- the end of the `with` statement: an exception of `close` goes before that of the body
  abbrev pub either : {B : Type 0} → Result B → Result (Unit {0}) × O.Fs → Result B × O.Fs
  either r (raise e, fs) = (raise e, fs)
  either r (ok u, fs) = (r, fs)

  abbrev pub closing : {B : Type 0} → Text → Result B × O.Fs → Result B × O.Fs
  closing p (r, fs) = either r (O.close p fs)

  -- the `except` clause: the exception goes on, unless the removal raises one
  abbrev pub cleaned : {B : Type 0} → Text → Result B × O.Fs → Result B × O.Fs
  cleaned p (ok b, fs) = (ok b, fs)
  cleaned p (raise e, fs) =
      if O.exists fs p then and_then (O.remove p fs) (λ u fs. (raise e, fs)) else (raise e, fs)

  module _ (S : StoreLike A) (s : S.State) (prefix : Option Text) where
    -- `_write`
    abbrev pub write_file : Text → Step ℕ
    write_file p fs =
        and_then (O.write p (magic ++ (format_version ∷ [])) fs)
          λ _ fs. write_entries p (concat (entries S s prefix batch_limit)) fs

    -- the `with` statement
    abbrev pub written_file : Text → Step ℕ
    written_file p fs = and_then (O.open_wb p fs) λ _ fs. closing p (write_file p fs)

    -- `dump_store`
    unfoldable pub dump_store : Text → Step ℕ
    dump_store path fs = cleaned (tmp_of path) (
        and_then (written_file (tmp_of path) fs)
          λ count fs. and_then (O.replace (tmp_of path) path fs) λ _ fs. (ok count, fs))
