-- ===== src/Disk/Statements.antt =====
-- What backends/disk.py asks of SQLite and of msgpack, which stand outside the repository: the
-- statements that it sends, and what their documentation promises of the table `kv(ns, k, v)`.
use swarmstate.Prelude.{
  ℕ, ◌<◌, ◌≡◌, Bool, true, false, not, ◌&&◌, Option, none, some, List, length, contains, ◌==◌,
  is_some, is_nil, if◌then◌else◌, IsDistinct, take,
}
use swarmstate.Prelude.Dict.{Dict, keys, find}
use swarmstate.Text.{Text, text_eq}
use swarmstate.Text.Order.{le, lt, max}
use swarmstate.Snapshot.{Bytes, Row}
use swarmstate.Store.{written}

-- `_pack` and `_unpack`, over the values that msgpack carries; `none` is Python's `None`.
pub record Codec (A : Type 0) : Type 0 where
  pub pack : Option A → Bytes
  pub unpack : Bytes → Option A
  pub unpack-pack : (v : Option A) → unpack (pack v) ≡ v

-- INSERT OR REPLACE, INSERT, DELETE of a row, of a namespace and of all
pub data Write : Type 0 where
  replace_row insert_row : Text → Text → Bytes → Write
  delete_row : Text → Text → Write
  delete_ns : Text → Write
  delete_all : Write

pub record Sqlite : Type 1 where
  pub Db : Type 0
  -- the number of rows that the statement touched; `none` is a `sqlite3.Error`
  pub execute : Db → Write → Option (ℕ × Db)
  -- BEGIN IMMEDIATE, COMMIT and ROLLBACK; `none` is a `sqlite3.Error`, which changes nothing
  pub begin : Db → Option Db
  pub commit : Db → Option Db
  pub rollback : Db → Option Db
  -- the table that a ROLLBACK brings back, while a transaction is open
  pub begun_with : Db → Text → Text → Option Bytes
  -- SELECT v ... WHERE ns = ? AND k = ?
  pub select_v : Db → Text → Text → Option Bytes
  -- SELECT 1 ... WHERE ns = ? AND k = ? LIMIT 1
  pub select_1 : Db → Text → Text → Option ℕ
  -- SELECT k, v ... WHERE ns = ? AND k IN (...); `none` if there are too many parameters
  pub select_in : Db → Text → List Text → Option (Dict Text Bytes)
  -- SELECT k ... WHERE ns = ?, with a range of k, with substr(k, 1, ?) = ?
  pub select_k : Db → Text → List Text
  pub select_k_range : Db → Text → Text → Text → List Text
  pub select_k_substr : Db → Text → ℕ → Text → List Text
  -- SELECT max(k) ... WHERE ns = ?
  pub select_max_k : Db → Text → Option Text
  -- SELECT DISTINCT ns, with a range of ns, with substr(ns, 1, ?) = ?
  pub select_ns : Db → List Text
  pub select_ns_range : Db → Text → Text → List Text
  pub select_ns_substr : Db → ℕ → Text → List Text
  -- SELECT 1 ... WHERE ns = ? LIMIT 1
  pub select_ns_1 : Db → Text → Option ℕ
  -- SELECT ns, k, v
  pub select_all : Db → List Row

-- What a write that succeeds leaves at a pair.
abbrev pub effect : Write → (Text → Text → Option Bytes) → Text → Text → Option Bytes
effect (replace_row n k v) at n' k' = if n == n' && k == k' then some v else at n' k'
effect (insert_row n k v) at n' k' = if n == n' && k == k' then some v else at n' k'
effect (delete_row n k) at n' k' = if n == n' && k == k' then none else at n' k'
effect (delete_ns n) at n' k' = if n == n' then none else at n' k'
effect delete_all at n' k' = none

abbrev pub is_insert : Write → Bool
is_insert (insert_row n k v) = true
is_insert _ = false

module _ (D : Sqlite) where
  -- The `rowcount` of a deletion.
  abbrev pub Counts : D.Db → Write → ℕ → Type 0
  Counts d (delete_row n k) c = c ≡ (if is_some (D.select_v d n k) then 1 else 0)
  Counts d (delete_ns n) c = c ≡ length (D.select_k d n)
  Counts d _ c = Unit

  pub record IsSqlite : Type 0 where
    pub execute_effect :
        (d : D.Db) (w : Write) (c : ℕ) (d' : D.Db)
        → D.execute d w ≡ some (c, d')
        → (n k : Text) → D.select_v d' n k ≡ effect w (D.select_v d) n k
    pub execute_count :
        (d : D.Db) (w : Write) (c : ℕ) (d' : D.Db) → D.execute d w ≡ some (c, d') → Counts d w c
    pub execute_begun_with :
        (d : D.Db) (w : Write) (c : ℕ) (d' : D.Db)
        → D.execute d w ≡ some (c, d')
        → D.begun_with d' ≡ D.begun_with d
    pub begin_lem :
        (d d' : D.Db)
        → D.begin d ≡ some d'
        → (D.select_v d' ≡ D.select_v d) × (D.begun_with d' ≡ D.select_v d)
    pub commit_lem : (d d' : D.Db) → D.commit d ≡ some d' → D.select_v d' ≡ D.select_v d
    pub rollback_lem : (d d' : D.Db) → D.rollback d ≡ some d' → D.select_v d' ≡ D.begun_with d
    pub select_1_lem :
        (d : D.Db) (n k : Text) → is_some (D.select_1 d n k) ≡ is_some (D.select_v d n k)
    -- older builds take 999 parameters
    pub select_in_lem :
        (d : D.Db) (n : Text) (ks : List Text)
        → length ks < 999
        → (rows : Dict Text Bytes) × (D.select_in d n ks ≡ some rows)
          × IsDistinct (keys rows)
          × ((k : Text) → find k rows ≡ (if contains k ks then D.select_v d n k else none))
    pub contains-select_k :
        (d : D.Db) (n k : Text) → contains k (D.select_k d n) ≡ is_some (D.select_v d n k)
    pub select_k-IsDistinct : (d : D.Db) (n : Text) → IsDistinct (D.select_k d n)
    -- the collation is BINARY: by code point
    pub contains-select_k_range :
        (d : D.Db) (n lo hi k : Text)
        → contains k (D.select_k_range d n lo hi)
          ≡ (is_some (D.select_v d n k) && (le lo k && lt k hi))
    pub contains-select_k_substr :
        (d : D.Db) (n : Text) (m : ℕ) (p k : Text)
        → contains k (D.select_k_substr d n m p) ≡ (is_some (D.select_v d n k) && take m k == p)
    pub select_max_k_lem : (d : D.Db) (n : Text) → D.select_max_k d n ≡ max (D.select_k d n)
    pub contains-select_ns :
        (d : D.Db) (n : Text) → contains n (D.select_ns d) ≡ not (is_nil (D.select_k d n))
    pub contains-select_ns_range :
        (d : D.Db) (lo hi n : Text)
        → contains n (D.select_ns_range d lo hi)
          ≡ (not (is_nil (D.select_k d n)) && (le lo n && lt n hi))
    pub contains-select_ns_substr :
        (d : D.Db) (m : ℕ) (p n : Text)
        → contains n (D.select_ns_substr d m p) ≡ (not (is_nil (D.select_k d n)) && take m n == p)
    pub select_ns_1_lem :
        (d : D.Db) (n : Text) → is_some (D.select_ns_1 d n) ≡ not (is_nil (D.select_k d n))
    pub select_all_lem : (d : D.Db) (n k : Text) → written (D.select_all d) n k ≡ D.select_v d n k

  -- No statement fails, but for an INSERT, which fails on a row that is there, and a ROLLBACK.
  pub record Reliable : Type 0 where
    pub succeeds :
        (d : D.Db) (w : Write)
        → is_insert w ≡ false
        → (c : ℕ) × (d' : D.Db) × (D.execute d w ≡ some (c, d'))
    pub begins : (d : D.Db) → (d' : D.Db) × (D.begin d ≡ some d')
    pub commits : (d : D.Db) → (d' : D.Db) × (D.commit d ≡ some d')
