-- ===== src/Snapshot.antt =====
-- python/swarmstate/backends/_snapshot.py: the snapshots of the backends that copy their rows.
pub mod Diff
use swarmstate.Prelude.{
  ℕ, zero, ◌+◌, Bool, false, not, ◌&&◌, Option, none, some, List, [], ◌∷◌, map, length, filter,
  contains, ◌==◌, is_some, pair_eq,
}
use swarmstate.Prelude.Dict.{Dict, keys, find, insert_all}
use swarmstate.Text.{Text, text_eq}

-- Python's `bytes`, and a row `(namespace, key, value bytes)`.
abbrev pub Bytes : Type 0
Bytes = List ℕ

abbrev pub Row : Type 0
Row = Text × Text × Bytes

-- `SnapshotMeta`
pub record SnapshotMeta : Type 0 where
  pub seq : ℕ
  pub last : Option ℕ

abbrev pub snapshot_meta : SnapshotMeta
snapshot_meta = record { seq = 0; last = none }

-- `next`: the id, the timestamp and the parent; `now` is what `time.time()` returns
unfoldable pub next {ℓ} :
    {Time : Type ℓ} → SnapshotMeta → Time → (ℕ × Time × Option ℕ) × SnapshotMeta
next m now =
    let snapshot_id = m.seq + 1 in
    ((snapshot_id, now, m.last), record { seq = snapshot_id; last = some snapshot_id })

pub record CopySnapshot (Time : Type 0) : Type 0 where
  pub rows : List Row
  pub id : ℕ
  pub timestamp : Time
  pub parent : Option ℕ
  pub size_bytes : ℕ

-- `sum(len(v) for _, _, v in rows)`
unfoldable pub sum_sizes : List Row → ℕ
sum_sizes [] = 0
sum_sizes ((ns, k, v) ∷ rows) = length v + sum_sizes rows

-- `CopySnapshot.__init__`
unfoldable pub copy_snapshot : {Time : Type 0} → List Row → ℕ × Time × Option ℕ → CopySnapshot Time
copy_snapshot rows (id, timestamp, parent) = record {
  rows = rows;
  id = id;
  timestamp = timestamp;
  parent = parent;
  size_bytes = sum_sizes rows;
}

-- the property `keys`
unfoldable pub snapshot_keys : {Time : Type 0} → CopySnapshot Time → List (Text × Text)
snapshot_keys s = map (λ r. (r.0, r.1)) s.rows

pub record Difference : Type 0 where
  pub added : List (Text × Text)
  pub removed : List (Text × Text)
  pub changed : List (Text × Text)

-- `{(ns, k): v for ns, k, v in rows}`
unfoldable pub row_dict : List Row → Dict (Text × Text) Bytes
row_dict rows = insert_all [] (map (λ r. ((r.0, r.1), r.2)) rows)

-- `theirs[p] != v`, where `p in theirs`
abbrev pub differs : Bytes → Option Bytes → Bool
differs v none = false
differs v (some w) = not (w == v)

unfoldable pub diff : {Time : Type 0} → CopySnapshot Time → CopySnapshot Time → Difference
diff s base =
    let mine = row_dict s.rows in
    let theirs = row_dict base.rows in
    record {
      added = filter (λ p. not (contains p (keys theirs))) (keys mine);
      removed = filter (λ p. not (contains p (keys mine))) (keys theirs);
      changed =
          keys (filter (λ i. contains i.0 (keys theirs) && differs i.1 (find i.0 theirs)) mine);
    }
