-- ===== src/Portability.antt =====
-- python/swarmstate/portability.py: copying a store into another.
pub mod Copy
pub mod Dump
use swarmstate.Prelude.{
  ℕ, zero, suc, ◌+◌, ◌*◌, ◌/◌, ◌%◌, ◌^◌, ◌≡◌, Bool, true, false, not, ◌||◌, Option, none, some,
  List, [], ◌∷◌, ◌++◌, map, length, take, drop, is_some, is_nil, if◌then◌else◌, ltb, leb, nat_eq,
  ◌==◌,
}
use swarmstate.Prelude.Chunks.{chunks, concat}
use swarmstate.Prelude.Dict.{Dict, find, insert, remove}
use swarmstate.Prelude.Result.{Result, ok, raise, value_error, index_error, struct_error, ◌>>=◌}
use swarmstate.Text.{Text, text_eq}
use swarmstate.Store.{StoreLike}
use swarmstate.Snapshot.{Bytes}

-- `_BATCH`
abbrev pub batch_limit : ℕ
batch_limit = 1000

-- `(namespace, key, value)`; a value that is `none` is Python's `None`
abbrev pub Entry : Type 0 → Type 0
Entry A = Text × Text × Option A

module _ {A : Type 0} (S : StoreLike A) where
  -- the entries of a chunk: a `None` is kept only if it was stored
  unfoldable pub kept : S.State → Text → List Text → List (Option A) → List (Entry A)
  kept s ns [] values = []
  kept s ns (k ∷ ks) [] = []
  kept s ns (k ∷ ks) (v ∷ values) =
      let rest = kept s ns ks values in
      if is_some v || S.has s ns k then (ns, k, v) ∷ rest else rest

  unfoldable pub chunk_entries : S.State → Text → List Text → List (Entry A)
  chunk_entries s ns chunk = kept s ns chunk (S.get_many s (map (λ k. (ns, k)) chunk))

  -- the batches of one namespace
  unfoldable pub namespace_entries : S.State → ℕ → Text → List (List (Entry A))
  namespace_entries s batch_size ns =
      let keys = S.keys s ns none in map (chunk_entries s ns) (chunks (length keys) batch_size keys)

  -- `_entries`: the batches that the generator yields
  unfoldable pub entries : S.State → Option Text → ℕ → List (List (Entry A))
  entries s prefix batch_size =
      concat (map (namespace_entries s batch_size) (S.namespaces s prefix))

  -- the loop of `copy_store` over the batches, into this store
  unfoldable pub copy_batches : S.State → ℕ → List (List (Entry A)) → ℕ × S.State
  copy_batches s copied [] = (copied, s)
  copy_batches s copied ([] ∷ batches) = copy_batches s copied batches
  copy_batches s copied ((e ∷ es) ∷ batches) =
      copy_batches (S.set_many s (e ∷ es)) (copied + length (e ∷ es)) batches

-- `copy_store`: how many entries were copied, and the destination afterwards
unfoldable pub copy_store :
    {A : Type 0} (S T : StoreLike A) → S.State → T.State → Option Text → ℕ → Result ℕ × T.State
copy_store S T src dst prefix batch_size =
    if ltb batch_size 1
    then (raise value_error, dst)
    else (let r = copy_batches T dst 0 (entries S src prefix batch_size) in (ok r.0, r.1))
