-- ===== src/Examples/PgTable.antt =====
-- The same table as an instance of what `Postgres.Statements` asks of PostgreSQL.
use swarmstate.Prelude.{
  ℕ, ◌≡◌, refl, ap, ◌∙◌, Bool, not, ◌&&◌, Option, none, some, List, [], ◌∷◌, arith, length, filter,
  is_some, is_nil, if◌then◌else◌, ◌==◌, eq_iff, contains, contains-filter, pair_eq, IsDistinct, map,
}
use swarmstate.Prelude.Dict.{find, insert, remove, find-insert, find-remove, keys}
use swarmstate.Text.{Text, text_eq, starts_with}
use swarmstate.Text.Order.{max}
use swarmstate.Snapshot.{Bytes, Row}
use swarmstate.Store.{written, existing}
use swarmstate.Postgres.Statements.{
  Postgresql, IsPostgres, Reliable, Fits, Counts, Write, upsert, insert_row, delete_row,
  delete_pairs, delete_ns, delete_all, effect, unnest,
}
use swarmstate.Examples.Table.{
  Table, keys_of, namespaces_of, without, contains-keys_of, keys_of-IsDistinct,
  contains-namespaces_of, find-without,
}

-- Each pair once.
unfoldable pub unique : Table → Table
unique [] = []
unique ((p, v) ∷ t) = (p, v) ∷ remove p (unique t)

find-unique : (t : Table) (p : Text × Text) → find p (unique t) ≡ find p t
unfolding find unique
find-unique [] p = refl
find-unique ((q, v) ∷ t) p = ground (arith, find-unique t p, find-remove q p (unique t))

contains-keys-remove :
    (q p : Text × Text) (t : Table)
    → contains p (keys (remove q t)) ≡ (not (q == p) && contains p (keys t))
unfolding remove contains
contains-keys-remove q p [] = ground arith
contains-keys-remove q p ((r, v) ∷ t) = ground (
  arith,
  contains-keys-remove q p t,
  eq_iff {A = Text × Text} r q,
  eq_iff {A = Text × Text} r p,
  eq_iff {A = Text × Text} q p,
)

remove-IsDistinct :
    (q : Text × Text) (t : Table) → IsDistinct (keys t) → IsDistinct (keys (remove q t))
unfolding remove
remove-IsDistinct q [] h = tt
remove-IsDistinct q ((r, v) ∷ t) h =
    ground (arith, remove-IsDistinct q t, contains-keys-remove q r t)

unique-IsDistinct : (t : Table) → IsDistinct (keys (unique t))
unfolding unique
unique-IsDistinct [] = tt
unique-IsDistinct ((p, v) ∷ t) = (
  ground (arith, contains-keys-remove p p (unique t), eq_iff {A = Text × Text} p p),
  remove-IsDistinct p (unique t) (unique-IsDistinct t),
)

abbrev pub rows_of : Table → List Row
rows_of [] = []
rows_of (((n, k), v) ∷ t) = (n, k, v) ∷ rows_of t

written-rows_of :
    (t : Table) (n k : Text)
    → written (rows_of t) n k ≡ (if contains (n, k) (keys t) then written (rows_of t) n k else none)
unfolding written contains
written-rows_of [] n k = refl
written-rows_of (((m, j), v) ∷ t) n k = ground (arith, written-rows_of t n k)

written-eq-find :
    (t : Table) (n k : Text) → IsDistinct (keys t) → written (rows_of t) n k ≡ find (n, k) t
unfolding written find
written-eq-find [] n k h = refl
written-eq-find (((m, j), v) ∷ t) n k h =
    ground (arith, written-eq-find t n k h.1, written-rows_of t n k, eq_iff m n, eq_iff j k)

pairs-rows_of : (t : Table) → map (λ (r : Row). (r.0, r.1)) (rows_of t) ≡ keys t
pairs-rows_of [] = refl
pairs-rows_of (((n, k), v) ∷ t) = ap (◌∷◌ (n, k)) (pairs-rows_of t)

abbrev pub cons_pair : Text × Text → Option Bytes → List Row → List Row
cons_pair p none rows = rows
cons_pair p (some v) rows = (p.0, p.1, v) ∷ rows

-- The rows of some pairs.
unfoldable pub found_rows : Table → List (Text × Text) → List Row
found_rows t [] = []
found_rows t (p ∷ pairs) = cons_pair p (find p t) (found_rows t pairs)

written-found_rows :
    (t : Table) (pairs : List (Text × Text)) (n k : Text)
    → written (found_rows t pairs) n k ≡ (if contains (n, k) pairs then find (n, k) t else none)
unfolding written found_rows contains
written-found_rows t [] n k = refl
written-found_rows t ((m, j) ∷ pairs) n k =
    ground (arith, written-found_rows t pairs n k, eq_iff m n, eq_iff j k)

unfoldable pub remove_all : List (Text × Text) → Table → Table
remove_all [] t = t
remove_all (p ∷ pairs) t = remove_all pairs (remove p t)

pub find-remove_all :
    (pairs : List (Text × Text)) (t : Table) (p : Text × Text)
    → find p (remove_all pairs t) ≡ (if contains p pairs then none else find p t)
unfolding remove_all contains
find-remove_all [] t p = refl
find-remove_all (q ∷ pairs) t p =
    ground (arith, find-remove_all pairs (remove q t) p, find-remove q p t)

unfoldable pub pg_write : Table → Write → Option (ℕ × Table)
pg_write t (upsert n k v) = some (1, insert (n, k) v t)
pg_write t (insert_row n k v) =
    if is_some (find (n, k) t) then none else some (1, insert (n, k) v t)
pg_write t (delete_row n k) = some (if is_some (find (n, k) t) then 1 else 0, remove (n, k) t)
pg_write t (delete_pairs ns ks) =
    some (existing (λ n k. is_some (find (n, k) t)) (unnest ns ks), remove_all (unnest ns ks) t)
pg_write t (delete_ns n) = some (length (keys_of n t), without n t)
pg_write t delete_all = some (0, [])

abbrev pub pg_table : Postgresql
pg_table = record {
  Db = Table;
  execute = pg_write;
  select_v = λ t n k. find (n, k) t;
  select_pairs = λ t ns ks. found_rows t (unnest ns ks);
  select_1 = λ t n k. if is_some (find (n, k) t) then some 1 else none;
  select_k = λ t n. keys_of n t;
  select_k_prefix = λ t n p. filter (λ k. starts_with k p) (keys_of n t);
  select_max_k = λ t n. max (keys_of n t);
  select_ns = namespaces_of;
  select_ns_prefix = λ t p. filter (λ n. starts_with n p) (namespaces_of t);
  select_ns_1 = λ t n. if is_nil (keys_of n t) then none else some 1;
  select_count = λ t. length (rows_of (unique t));
  select_all = λ t. rows_of (unique t);
}

pg_write-effect :
    (t : Table) (w : Write) (c : ℕ) (t' : Table)
    → pg_write t w ≡ some (c, t')
    → (n k : Text) → find (n, k) t' ≡ effect w (λ n k. find (n, k) t) n k
unfolding pg_write find
pg_write-effect t (upsert m j v) c t' h n k = ground (arith, find-insert (m, j) (n, k) v t)
pg_write-effect t (insert_row m j v) c t' h n k = ground (arith, find-insert (m, j) (n, k) v t)
pg_write-effect t (delete_row m j) c t' h n k = ground (arith, find-remove (m, j) (n, k) t)
pg_write-effect t (delete_pairs ns ks) c t' h n k =
    ground (arith, find-remove_all (unnest ns ks) t (n, k))
pg_write-effect t (delete_ns m) c t' h n k = ground (arith, find-without m n k t)
pg_write-effect t delete_all c t' h n k = ground arith

pg_write_count :
    (t : Table) (w : Write) (c : ℕ) (t' : Table)
    → pg_write t w ≡ some (c, t')
    → Counts pg_table t w c
unfolding pg_write
pg_write_count t (upsert m j v) c t' h = tt
pg_write_count t (insert_row m j v) c t' h = tt
pg_write_count t (delete_row m j) c t' h = ground arith
pg_write_count t (delete_pairs ns ks) c t' h = ground arith
pg_write_count t (delete_ns m) c t' h = ground arith
pg_write_count t delete_all c t' h = tt

pg_write_succeeds :
    (t : Table) (w : Write)
    → Fits pg_table t w
    → (c : ℕ) × (t' : Table) × (pg_write t w ≡ some (c, t'))
unfolding pg_write
pg_write_succeeds t (upsert m j v) h = (1, insert (m, j) v t, refl)
pg_write_succeeds t (insert_row m j v) h = (1, insert (m, j) v t, rw h refl)
pg_write_succeeds t (delete_row m j) h =
    (if is_some (find (m, j) t) then 1 else 0, remove (m, j) t, refl)
pg_write_succeeds t (delete_pairs ns ks) h =
    (existing (λ n k. is_some (find (n, k) t)) (unnest ns ks), remove_all (unnest ns ks) t, refl)
pg_write_succeeds t (delete_ns m) h = (length (keys_of m t), without m t, refl)
pg_write_succeeds t delete_all h = (0, [], refl)

and_comm : (a b : Bool) → (a && b) ≡ (b && a)
and_comm a b = ground arith

pub pg_table-IsPostgres : IsPostgres pg_table
pg_table-IsPostgres = record {
  execute_effect = pg_write-effect;
  execute_count = pg_write_count;
  select_pairs_lem = λ t ns ks n k. written-found_rows t (unnest ns ks) n k;
  select_1_lem = λ t n k. ground arith;
  contains-select_k = λ t n k. contains-keys_of n k t;
  select_k-IsDistinct = λ t n. keys_of-IsDistinct n t;
  contains-select_k_prefix = λ t n p k.
      rw (contains-filter, contains-keys_of) (and_comm (starts_with k p) (is_some (find (n, k) t)));
  select_max_k_lem = λ t n. refl;
  contains-select_ns = λ t n. contains-namespaces_of n t;
  contains-select_ns_prefix = λ t p n.
      rw (contains-filter, contains-namespaces_of)
        (and_comm (starts_with n p) (not (is_nil (keys_of n t))));
  select_ns_1_lem = λ t n. ground arith;
  select_count_lem = λ t. refl;
  select_all_lem =
      λ t n k. written-eq-find (unique t) n k (unique-IsDistinct t) ∙ find-unique t (n, k);
  select_all-IsDistinct = λ t. rw (pairs-rows_of (unique t)) (unique-IsDistinct t);
}

pub pg_table-Reliable : Reliable pg_table
pg_table-Reliable = record { succeeds = pg_write_succeeds }
