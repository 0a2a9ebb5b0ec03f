-- ===== src/Postgres/Statements.antt =====
-- What backends/postgres.py asks of PostgreSQL, which stands outside the repository: the statements
-- of `_Queries`, and what their documentation promises of the table `(ns, k, v)`.
use swarmstate.Prelude.{
  ℕ, ◌≡◌, not, ◌&&◌, Option, none, some, List, [], ◌∷◌, length, contains, ◌==◌, is_some, is_nil,
  if◌then◌else◌, IsDistinct, pair_eq, map,
}
use swarmstate.Text.{Text, text_eq, starts_with}
use swarmstate.Text.Order.{max}
use swarmstate.Snapshot.{Bytes, Row}
use swarmstate.Store.{written, existing}

-- `unnest` of two arrays, side by side.
unfoldable pub unnest : List Text → List Text → List (Text × Text)
unnest [] ks = []
unnest (n ∷ ns) [] = []
unnest (n ∷ ns) (k ∷ ks) = (n, k) ∷ unnest ns ks

-- The statements that write, each with its parameters.
pub data Write : Type 0 where
  upsert insert_row : Text → Text → Bytes → Write
  delete_row : Text → Text → Write
  delete_pairs : List Text → List Text → Write
  delete_ns : Text → Write
  delete_all : Write

pub record Postgresql : Type 1 where
  pub Db : Type 0
  -- the number of rows that the statement touched; `none` is a `psycopg.Error`
  pub execute : Db → Write → Option (ℕ × Db)
  -- `get`, `get_many` and `contains` of `_Queries`
  pub select_v : Db → Text → Text → Option Bytes
  pub select_pairs : Db → List Text → List Text → List Row
  pub select_1 : Db → Text → Text → Option ℕ
  -- `keys`, `keys_prefix` and `max_key`
  pub select_k : Db → Text → List Text
  pub select_k_prefix : Db → Text → Text → List Text
  pub select_max_k : Db → Text → Option Text
  -- `namespaces`, `namespaces_prefix` and `has_namespace`
  pub select_ns : Db → List Text
  pub select_ns_prefix : Db → Text → List Text
  pub select_ns_1 : Db → Text → Option ℕ
  -- `count` and `all_rows`
  pub select_count : Db → ℕ
  pub select_all : Db → List Row

-- What a write that succeeds leaves at a pair.
abbrev pub effect : Write → (Text → Text → Option Bytes) → Text → Text → Option Bytes
effect (upsert n k v) at n' k' = if n == n' && k == k' then some v else at n' k'
effect (insert_row n k v) at n' k' = if n == n' && k == k' then some v else at n' k'
effect (delete_row n k) at n' k' = if n == n' && k == k' then none else at n' k'
effect (delete_pairs ns ks) at n' k' = if contains (n', k') (unnest ns ks) then none else at n' k'
effect (delete_ns n) at n' k' = if n == n' then none else at n' k'
effect delete_all at n' k' = none

module _ (P : Postgresql) where
  -- The `rowcount` of a deletion.
  abbrev pub Counts : P.Db → Write → ℕ → Type 0
  Counts d (delete_row n k) c = c ≡ (if is_some (P.select_v d n k) then 1 else 0)
  Counts d (delete_pairs ns ks) c = c ≡ existing (λ n k. is_some (P.select_v d n k)) (unnest ns ks)
  Counts d (delete_ns n) c = c ≡ length (P.select_k d n)
  Counts d _ c = Unit

  -- The pairs of the rows.
  abbrev pub pairs_of : List Row → List (Text × Text)
  pairs_of rows = map (λ (r : Row). (r.0, r.1)) rows

  pub record IsPostgres : Type 0 where
    pub execute_effect :
        (d : P.Db) (w : Write) (c : ℕ) (d' : P.Db)
        → P.execute d w ≡ some (c, d')
        → (n k : Text) → P.select_v d' n k ≡ effect w (P.select_v d) n k
    pub execute_count :
        (d : P.Db) (w : Write) (c : ℕ) (d' : P.Db) → P.execute d w ≡ some (c, d') → Counts d w c
    -- the join with the unnested arrays
    pub select_pairs_lem :
        (d : P.Db) (ns ks : List Text) (n k : Text)
        → written (P.select_pairs d ns ks) n k
          ≡ (if contains (n, k) (unnest ns ks) then P.select_v d n k else none)
    pub select_1_lem :
        (d : P.Db) (n k : Text) → is_some (P.select_1 d n k) ≡ is_some (P.select_v d n k)
    pub contains-select_k :
        (d : P.Db) (n k : Text) → contains k (P.select_k d n) ≡ is_some (P.select_v d n k)
    pub select_k-IsDistinct : (d : P.Db) (n : Text) → IsDistinct (P.select_k d n)
    pub contains-select_k_prefix :
        (d : P.Db) (n p k : Text)
        → contains k (P.select_k_prefix d n p) ≡ (is_some (P.select_v d n k) && starts_with k p)
    -- the collation is "C": by code point
    pub select_max_k_lem : (d : P.Db) (n : Text) → P.select_max_k d n ≡ max (P.select_k d n)
    pub contains-select_ns :
        (d : P.Db) (n : Text) → contains n (P.select_ns d) ≡ not (is_nil (P.select_k d n))
    pub contains-select_ns_prefix :
        (d : P.Db) (p n : Text)
        → contains n (P.select_ns_prefix d p) ≡ (not (is_nil (P.select_k d n)) && starts_with n p)
    pub select_ns_1_lem :
        (d : P.Db) (n : Text) → is_some (P.select_ns_1 d n) ≡ not (is_nil (P.select_k d n))
    pub select_count_lem : (d : P.Db) → P.select_count d ≡ length (P.select_all d)
    pub select_all_lem : (d : P.Db) (n k : Text) → written (P.select_all d) n k ≡ P.select_v d n k
    -- the primary key
    pub select_all-IsDistinct : (d : P.Db) → IsDistinct (pairs_of (P.select_all d))

  -- Whether the primary key lets a statement through.
  abbrev pub Fits : P.Db → Write → Type 0
  Fits d (insert_row n k v) = P.select_v d n k ≡ none
  Fits d _ = Unit

  -- No statement fails, but for an INSERT of a row that is there.
  pub record Reliable : Type 0 where
    pub succeeds :
        (d : P.Db) (w : Write) → Fits d w → (c : ℕ) × (d' : P.Db) × (P.execute d w ≡ some (c, d'))
