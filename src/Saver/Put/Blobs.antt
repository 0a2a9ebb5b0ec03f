-- ===== src/Saver/Put/Blobs.antt =====
-- The values of channels, from the blobs that hold them.
use swarmstate.Prelude.{
  ◌≡◌, refl, ap, ◌∙◌, false, Option, none, some, List, [], ◌∷◌, map, arith, or_else, contains, ◌==◌,
  eq_iff, if◌then◌else◌, Bool-cases, Option-cases, inl, inr, pair_eq,
}
use swarmstate.Prelude.Dict.{Dict, find, insert, keys, find-insert}
use swarmstate.Prelude.Result.{ok}
use swarmstate.Text.{Text, text_eq}
use swarmstate.Saver.{Langgraph, value, Stored, blob, empty, loads_value}
use swarmstate.Saver.Names.{has_sep}
use swarmstate.Saver.Tuple.{attach, attach_all}

-- No channel has the separator in its name.
abbrev pub PlainChannels : List (Text × Text) → Type 0
PlainChannels [] = Unit
PlainChannels ((ch, ver) ∷ versions) = (has_sep ch ≡ false) × PlainChannels versions

module _ {V : Type 0} (L : Langgraph V) where
  -- The blob of a channel.
  abbrev pub blob_of : Option V → Stored
  blob_of none = empty
  blob_of (some v) = blob (L.dumps_typed (value v))

  abbrev pub with_value : Text → Option V → Dict Text V → Dict Text V
  with_value ch none d = d
  with_value ch (some v) d = insert ch v d

  -- The values that the blobs of some versions give.
  unfoldable pub read_values : Dict Text V → List (Text × Text) → Dict Text V → Dict Text V
  read_values values [] d = d
  read_values values ((ch, ver) ∷ versions) d =
      read_values values versions (with_value ch (find ch values) d)

  find-with_value :
      (ch j : Text) (v : Option V) (d : Dict Text V)
      → find j (with_value ch v d) ≡ (if ch == j then or_else v (find j d) else find j d)
  find-with_value ch j none d = ground arith
  find-with_value ch j (some v) d = find-insert ch j v d ∙ ground arith

  find-read_values :
      (values : Dict Text V) (versions : List (Text × Text)) (d : Dict Text V) (j : Text)
      → find j (read_values values versions d)
        ≡ (if contains j (keys versions) then or_else (find j values) (find j d) else find j d)
  unfolding read_values contains
  find-read_values values [] d j = refl
  find-read_values values ((ch, ver) ∷ versions) d j =
      find-read_values values versions (with_value ch (find ch values) d) j
      ∙ rw (find-with_value ch j (find ch values) d) (elim (Bool-cases (ch == j)) [
        | inl e ↦ rw e (ground (arith, ap (λ t. find t values) ((eq_iff ch j).0 e)))
        | inr e ↦ rw e refl
      ])

  pub found_values :
      (values : Dict Text V) (versions : List (Text × Text)) (j : Text)
      → find j (read_values values versions [])
        ≡ (if contains j (keys versions) then find j values else none)
  unfolding find
  found_values values versions j =
      find-read_values values versions [] j
      ∙ elim (Option-cases (find j values)) [ inl e ↦ rw e refl | inr (v, e) ↦ rw e refl ]

  loads_value-dumps : (v : V) → loads_value L (L.dumps_typed (value v)) ≡ ok v
  unfolding loads_value
  loads_value-dumps v = rw L.loads-dumps refl

  attach-blob_of :
      (ch : Text) (v : Option V) (d : Dict Text V)
      → attach L d ch (some (blob_of v)) ≡ ok (with_value ch v d)
  unfolding attach
  attach-blob_of ch none d = refl
  attach-blob_of ch (some v) d = rw (loads_value-dumps v) refl

  pub attach_all-blobs :
      (values : Dict Text V) (versions : List (Text × Text)) (d : Dict Text V)
      → attach_all L d versions (map (λ i. some (blob_of (find i.0 values))) versions)
        ≡ ok (read_values values versions d)
  unfolding attach_all read_values
  attach_all-blobs values [] d = refl
  attach_all-blobs values ((ch, ver) ∷ versions) d =
      rw (attach-blob_of ch (find ch values) d)
        (attach_all-blobs values versions (with_value ch (find ch values) d))
