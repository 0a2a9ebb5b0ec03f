-- ===== src/Snapshot/Diff.antt =====
-- What `diff` reports, pair by pair.
use swarmstate.Prelude.{
  ◌≡◌, refl, Bool, false, not, ◌&&◌, ◌||◌, Option, none, some, [], List, arith, contains,
  contains-filter, is_some, if◌then◌else◌, eq_iff, ◌==◌, pair_eq, IsDistinct, Option-cases, inl,
  inr,
}
use swarmstate.Prelude.Dict.{
  Dict, keys, test_at, find, contains-keys, contains-keys-filter, insert_all-IsDistinct,
}
use swarmstate.Text.{Text, text_eq}
use swarmstate.Snapshot.{Bytes, CopySnapshot, Row, differs, row_dict, diff}

-- The value that a snapshot holds for a pair.
abbrev pub value_in : {Time : Type 0} → CopySnapshot Time → Text × Text → Option Bytes
value_in s p = find p (row_dict s.rows)

row_dict-IsDistinct : (rows : List Row) → IsDistinct (keys (row_dict rows))
unfolding row_dict
row_dict-IsDistinct rows = insert_all-IsDistinct [] _ tt

-- A pair is in the snapshot and not in the base.
abbrev pub is_new : Option Bytes → Option Bytes → Bool
is_new mine theirs = is_some mine && not (is_some theirs)

-- A pair is in both, with two values.
abbrev pub is_changed : Option Bytes → Option Bytes → Bool
is_changed (some v) (some w) = not (v == w)
is_changed (some v) none = false
is_changed none theirs = false

is_new_comm : (a b : Option Bytes) → (not (is_some b) && is_some a) ≡ is_new a b
is_new_comm none none = refl
is_new_comm none (some w) = refl
is_new_comm (some v) none = refl
is_new_comm (some v) (some w) = refl

is_changed_lem :
    (p : Text × Text) (d : Dict (Text × Text) Bytes) (a : Option Bytes)
    → test_at (λ i. contains i.0 (keys d) && differs i.1 (find i.0 d)) p a ≡ is_changed a (find p d)
is_changed_lem p d none = refl
is_changed_lem p d (some v) = elim (Option-cases (find p d)) [
  | inl e ↦ rw (contains-keys, e) refl
  | inr (w, e) ↦ rw (contains-keys, e) (ground (arith, eq_iff v w, eq_iff w v))
]

patched_lem :
    (a b : Option Bytes)
    → (if is_new b a then none else if is_new a b || is_changed a b then a else b) ≡ a
patched_lem none none = refl
patched_lem none (some w) = refl
patched_lem (some v) none = refl
patched_lem (some v) (some w) = ground (arith, eq_iff v w)

module _ {Time : Type 0} (s base : CopySnapshot Time) (p : Text × Text) where
  abbrev mine : Option Bytes
  mine = value_in s p

  abbrev theirs : Option Bytes
  theirs = value_in base p

  added_lem : contains p (diff s base).added ≡ is_new mine theirs
  unfolding diff
  added_lem = simp (contains-filter, contains-keys) (ground (arith, is_new_comm mine theirs))

  removed_lem : contains p (diff s base).removed ≡ is_new theirs mine
  unfolding diff
  removed_lem = simp (contains-filter, contains-keys) (ground (arith, is_new_comm theirs mine))

  changed_lem : contains p (diff s base).changed ≡ is_changed mine theirs
  unfolding diff
  changed_lem =
      rw (contains-keys-filter, row_dict-IsDistinct s.rows)
        (is_changed_lem p (row_dict base.rows) mine)

  -- The base, with what `diff` reports carried over: the removed pairs dropped, and the added and
  -- the changed ones read from the snapshot.
  pub patched : Option Bytes
  patched =
      if contains p (diff s base).removed
      then none
      else if contains p (diff s base).added || contains p (diff s base).changed
      then mine
      else theirs

  -- `diff` reports a pair as added, removed or changed exactly when it is in the snapshot alone, in
  -- the base alone, or in both with two values; and the base, patched with the three lists, reads
  -- as the snapshot at every pair.
  pub diff_exact :
      (contains p (diff s base).added ≡ is_new mine theirs)
      × (contains p (diff s base).removed ≡ is_new theirs mine)
      × (contains p (diff s base).changed ≡ is_changed mine theirs)
      × (patched ≡ mine)
  unfolding patched
  diff_exact = (
    added_lem,
    removed_lem,
    changed_lem,
    rw (added_lem, removed_lem, changed_lem) (patched_lem mine theirs),
  )
