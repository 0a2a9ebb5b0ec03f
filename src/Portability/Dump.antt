-- ===== src/Portability/Dump.antt =====
-- python/swarmstate/portability.py: `_write` and `_read`. The codec of the entries, `dumps`
-- and `loads` of the core, is a parameter.
pub mod Frames
pub mod Load
pub mod Files
pub mod ToPath
pub mod Interrupted
pub mod Returns
use swarmstate.Prelude.{
  ℕ, zero, suc, ◌+◌, ◌*◌, ◌/◌, ◌%◌, ◌^◌, ◌≡◌, Bool, not, Option, List, [], ◌∷◌, ◌++◌, length, take,
  drop, is_nil, if◌then◌else◌, ltb, leb, nat_eq, ◌==◌,
}
use swarmstate.Prelude.Chunks.{concat}
use swarmstate.Prelude.Result.{
  Result, ok, raise, value_error, index_error, struct_error, out_of_fuel, ◌>>=◌,
}
use swarmstate.Snapshot.{Bytes}
use swarmstate.Store.{StoreLike}
use swarmstate.Text.{Text, text_eq}
use swarmstate.Portability.{Entry, entries, batch_limit}

-- `_MAGIC`, b"SWSTATE", and `_FORMAT_VERSION`
abbrev pub magic : Bytes
magic = 83 ∷ 87 ∷ 83 ∷ 84 ∷ 65 ∷ 84 ∷ 69 ∷ []

abbrev pub format_version : ℕ
format_version = 1

-- `struct.Struct(">I")`: a value that does not fit in 32 bits is an error
unfoldable pub pack_size : ℕ → Result Bytes
pack_size n =
    if ltb n (2 ^ 32)
    then ok (n / 2 ^ 24 ∷ n / 2 ^ 16 % 256 ∷ n / 2 ^ 8 % 256 ∷ n % 256 ∷ [])
    else raise struct_error

unfoldable pub unpack_size : Bytes → Result ℕ
unpack_size (a ∷ b ∷ c ∷ d ∷ []) = ok (a * 2 ^ 24 + b * 2 ^ 16 + c * 2 ^ 8 + d)
unpack_size _ = raise struct_error

-- What `loads` makes of a frame: a list of three items, or anything else.
pub data Loaded (A : Type 0) : Type 0 where
  triple : Entry A → Loaded A
  other : Loaded A

pub record EntryCodec (A : Type 0) : Type 0 where
  pub dumps : Entry A → Result Bytes
  pub loads : Bytes → Result (Loaded A)
  pub loads-dumps : (e : Entry A) (frame : Bytes) → dumps e ≡ ok frame → loads frame ≡ ok (triple e)

module _ {A : Type 0} (C : EntryCodec A) where
  -- the loops of `_write`: the number of frames, and what is written
  unfoldable pub write_frames : List (Entry A) → Result (ℕ × Bytes)
  write_frames [] = ok (0, [])
  write_frames (e ∷ es) = do
    frame ← C.dumps e
    size ← pack_size (length frame)
    rest ← write_frames es
    ok (rest.0 + 1, size ++ (frame ++ rest.1))

  module _ (S : StoreLike A) where
    -- `_write`
    unfoldable pub write_dump : S.State → Option Text → Result (ℕ × Bytes)
    write_dump s prefix = do
      frames ← write_frames (concat (entries S s prefix batch_limit))
      ok (frames.0, (magic ++ (format_version ∷ [])) ++ frames.1)

    abbrev pub Load : Type 0
    Load = S.State → Result (Unit {0}) × S.State

    abbrev raised : swarmstate.Prelude.Result.Error → Load
    raised e s = (raise e, s)

    abbrev flush : List (Entry A) → S.State → S.State
    flush [] s = s
    flush (e ∷ batch) s = S.set_many s (e ∷ batch)

    -- `batch.append(...)`, and the batch that is full
    abbrev grown : List (Entry A) → (List (Entry A) → Load) → Load
    grown batch next s =
        if leb batch_limit (length batch) then next [] (S.set_many s batch) else next batch s

    abbrev entry_of : List (Entry A) → (List (Entry A) → Load) → Result (Loaded A) → Load
    entry_of batch next (raise e) = raised e
    entry_of batch next (ok other) = raised value_error
    entry_of batch next (ok (triple e)) = grown (batch ++ (e ∷ [])) next

    abbrev framed : Bytes → Result ℕ → (Bytes → Bytes → Load) → Load
    framed bytes (raise e) next = raised e
    framed bytes (ok size) next =
        if nat_eq (length (take size bytes)) size
        then next (take size bytes) (drop size bytes)
        else raised value_error

    -- the loop of `_read`; a round reads at least the four bytes of a size
    unfoldable pub read_frames : ℕ → Bytes → List (Entry A) → Load
    read_frames zero bytes batch = raised out_of_fuel
    read_frames (suc fuel) bytes batch =
        let next = λ (rest : Bytes) (b : List (Entry A)). read_frames fuel rest b in
        if is_nil (take 4 bytes)
        then (λ s. (ok tt, flush batch s))
        else (if nat_eq (length (take 4 bytes)) 4
            then framed (drop 4 bytes) (unpack_size (take 4 bytes))
                (λ frame rest. entry_of batch (next rest) (C.loads frame))
            else raised value_error)

    abbrev versioned : List ℕ → Load → Load
    versioned [] next = raised index_error
    versioned (v ∷ header) next = if nat_eq v format_version then next else raised value_error

    -- `_read`
    unfoldable pub read_dump : Bytes → Load
    read_dump bytes =
        if take 7 (take 8 bytes) == magic
        then versioned (drop 7 (take 8 bytes))
            (read_frames (suc (length (drop 8 bytes))) (drop 8 bytes) [])
        else raised value_error
