-- ===== src/Examples/Table.antt =====
-- A table as a list of rows: an instance of what `Disk.Statements` asks of SQLite.
use swarmstate.Prelude.{
  ℕ, zero, suc, ◌≡◌, refl, ◌∙◌, Bool, false, not, ◌&&◌, Option, none, some, List, [], ◌∷◌, ◌++◌, ap,
  arith, length, filter, take, is_some, is_nil, if◌then◌else◌, ◌==◌, eq_iff, contains,
  contains-filter, pair_eq, IsDistinct, Bool-cases, Option-cases, inl, inr,
}
use swarmstate.Prelude.Dict.{Dict, find, insert, remove, find-insert, find-remove, keys}
use swarmstate.Text.{Text, text_eq}
use swarmstate.Text.Order.{max, le, lt}
use swarmstate.Snapshot.{Bytes, Row}
use swarmstate.Store.{written, written-append}
use swarmstate.Disk.Statements.{
  Codec, Sqlite, IsSqlite, Reliable, Write, replace_row, insert_row, delete_row, delete_ns,
  delete_all, is_insert, effect, Counts,
}

abbrev pub Table : Type 0
Table = Dict (Text × Text) Bytes

unfoldable pub keys_of : Text → Table → List Text
keys_of n [] = []
keys_of n (((m, k), v) ∷ t) =
    let rest = keys_of n t in if m == n && not (contains k rest) then k ∷ rest else rest

unfoldable pub namespaces_of : Table → List Text
namespaces_of [] = []
namespaces_of (((m, k), v) ∷ t) =
    let rest = namespaces_of t in if contains m rest then rest else m ∷ rest

unfoldable pub without : Text → Table → Table
without n [] = []
without n (((m, k), v) ∷ t) = let rest = without n t in if m == n then rest else ((m, k), v) ∷ rest

abbrev cons_row : Text → Option Bytes → Dict Text Bytes → Dict Text Bytes
cons_row k none rows = rows
cons_row k (some v) rows = (k, v) ∷ rows

-- The rows of some keys of a namespace.
unfoldable pub rows_at : Table → Text → List Text → Dict Text Bytes
rows_at t n [] = []
rows_at t n (k ∷ ks) = cons_row k (find (n, k) t) (rows_at t n ks)

unfoldable pub all_rows : Table → List Row
all_rows [] = []
all_rows (((n, k), v) ∷ t) = all_rows t ++ (n, k, v) ∷ []

unfoldable pub write : Table → Write → Option (ℕ × Table)
write t (replace_row n k v) = some (1, insert (n, k) v t)
write t (insert_row n k v) = if is_some (find (n, k) t) then none else some (1, insert (n, k) v t)
write t (delete_row n k) = some (if is_some (find (n, k) t) then 1 else 0, remove (n, k) t)
write t (delete_ns n) = some (length (keys_of n t), without n t)
write t delete_all = some (0, [])

pub contains-keys_of : (n k : Text) (t : Table) → contains k (keys_of n t) ≡ is_some (find (n, k) t)
unfolding keys_of contains find
contains-keys_of n k [] = refl
contains-keys_of n k (((m, j), v) ∷ t) =
    ground (arith, contains-keys_of n k t, contains-keys_of n j t, eq_iff j k, eq_iff m n)

pub keys_of-IsDistinct : (n : Text) (t : Table) → IsDistinct (keys_of n t)
unfolding keys_of
keys_of-IsDistinct n [] = tt
keys_of-IsDistinct n (((m, j), v) ∷ t) =
    elim (Bool-cases (m == n && not (contains j (keys_of n t)))) [
      | inl e ↦ rw e (ground arith, keys_of-IsDistinct n t)
      | inr e ↦ rw e (keys_of-IsDistinct n t)
    ]

pub contains-namespaces_of :
    (n : Text) (t : Table) → contains n (namespaces_of t) ≡ not (is_nil (keys_of n t))
unfolding namespaces_of keys_of contains
contains-namespaces_of n [] = refl
contains-namespaces_of n (((m, j), v) ∷ t) =
    ground (arith, contains-namespaces_of n t, contains-namespaces_of m t, eq_iff m n)

pub find-without :
    (n m k : Text) (t : Table)
    → find (m, k) (without n t) ≡ (if n == m then none else find (m, k) t)
unfolding find without
find-without n m k [] = ground arith
find-without n m k (((i, j), v) ∷ t) =
    ground (arith, find-without n m k t, eq_iff i n, eq_iff i m, eq_iff n m)

pub find-rows_at :
    (t : Table) (n : Text) (ks : List Text) (k : Text)
    → find k (rows_at t n ks) ≡ (if contains k ks then find (n, k) t else none)
unfolding rows_at find contains
find-rows_at t n [] k = refl
find-rows_at t n (j ∷ ks) k = ground (arith, find-rows_at t n ks k, eq_iff j k)

contains-rows_at :
    (t : Table) (n : Text) (ks : List Text) (k : Text)
    → contains k ks ≡ false
    → contains k (keys (rows_at t n ks)) ≡ false
unfolding rows_at contains
contains-rows_at t n [] k h = refl
contains-rows_at t n (j ∷ ks) k h = ground (arith, contains-rows_at t n ks k)

rows_at-IsDistinct :
    (t : Table) (n : Text) (ks : List Text) → IsDistinct ks → IsDistinct (keys (rows_at t n ks))
unfolding rows_at
rows_at-IsDistinct t n [] h = tt
rows_at-IsDistinct t n (j ∷ ks) h = elim (Option-cases (find (n, j) t)) [
  | inl e ↦ rw e (rows_at-IsDistinct t n ks h.1)
  | inr (v, e) ↦ rw e (contains-rows_at t n ks j h.0, rows_at-IsDistinct t n ks h.1)
]

filter-IsDistinct : (p : Text → Bool) (ks : List Text) → IsDistinct ks → IsDistinct (filter p ks)
filter-IsDistinct p [] h = tt
filter-IsDistinct p (k ∷ ks) h = elim (Bool-cases (p k)) [
  | inl e ↦ rw e (ground (arith, contains-filter p k ks), filter-IsDistinct p ks h.1)
  | inr e ↦ rw e (filter-IsDistinct p ks h.1)
]

written-all_rows : (t : Table) (n k : Text) → written (all_rows t) n k ≡ find (n, k) t
unfolding all_rows written find
written-all_rows [] n k = refl
written-all_rows (((m, j), v) ∷ t) n k =
    written-append (all_rows t) ((m, j, v) ∷ []) n k ∙ ground (arith, written-all_rows t n k)

-- The keys of a namespace that a batch asks for.
abbrev asked : Table → Text → List Text → List Text
asked t n ks = filter (λ k. contains k ks) (keys_of n t)

-- The table, and the one of the last BEGIN.
abbrev pub TableDb : Type 0
TableDb = Table × Table

abbrev pub empty_db : TableDb
empty_db = ([], [])

abbrev at_pair : Table → Text → Text → Option Bytes
at_pair t n k = find (n, k) t

abbrev beside : Table → Option (ℕ × Table) → Option (ℕ × TableDb)
beside b none = none
beside b (some (c, t)) = some (c, (t, b))

abbrev pub table_sqlite : Sqlite
table_sqlite = record {
  Db = TableDb;
  execute = λ d w. beside d.1 (write d.0 w);
  begin = λ d. some (d.0, d.0);
  commit = λ d. some d;
  rollback = λ d. some (d.1, d.1);
  begun_with = λ d. at_pair d.1;
  select_v = λ d. at_pair d.0;
  select_1 = λ d n k. if is_some (find (n, k) d.0) then some 1 else none;
  select_in = λ d n ks. some (rows_at d.0 n (asked d.0 n ks));
  select_k = λ d n. keys_of n d.0;
  select_k_range = λ d n lo hi. filter (λ k. le lo k && lt k hi) (keys_of n d.0);
  select_k_substr = λ d n m p. filter (λ k. take m k == p) (keys_of n d.0);
  select_max_k = λ d n. max (keys_of n d.0);
  select_ns = λ d. namespaces_of d.0;
  select_ns_range = λ d lo hi. filter (λ n. le lo n && lt n hi) (namespaces_of d.0);
  select_ns_substr = λ d m p. filter (λ n. take m n == p) (namespaces_of d.0);
  select_ns_1 = λ d n. if is_nil (keys_of n d.0) then none else some 1;
  select_all = λ d. all_rows d.0;
}

beside_lem :
    (b : Table) (o : Option (ℕ × Table)) (c : ℕ) (d : TableDb)
    → beside b o ≡ some (c, d)
    → (o ≡ some (c, d.0)) × (d.1 ≡ b)
beside_lem b none c d h = absurd (ground arith)
beside_lem b (some (c', t)) c d h = (ground arith, ground arith)

and_comm : (a b : Bool) → (a && b) ≡ (b && a)
and_comm a b = ground arith

write-effect :
    (t : Table) (w : Write) (c : ℕ) (t' : Table)
    → write t w ≡ some (c, t')
    → (n k : Text) → find (n, k) t' ≡ effect w (λ n k. find (n, k) t) n k
unfolding write find
write-effect t (replace_row m j v) c t' h n k = ground (arith, find-insert (m, j) (n, k) v t)
write-effect t (insert_row m j v) c t' h n k = ground (arith, find-insert (m, j) (n, k) v t)
write-effect t (delete_row m j) c t' h n k = ground (arith, find-remove (m, j) (n, k) t)
write-effect t (delete_ns m) c t' h n k = ground (arith, find-without m n k t)
write-effect t delete_all c t' h n k = ground arith

find-asked :
    (t : Table) (n : Text) (ks : List Text) (k : Text)
    → find k (rows_at t n (asked t n ks)) ≡ (if contains k ks then find (n, k) t else none)
find-asked t n ks k =
    find-rows_at t n (asked t n ks) k
    ∙ ground (arith, contains-filter (λ k. contains k ks) k (keys_of n t), contains-keys_of n k t)

same : (d d' : TableDb) → some d ≡ some d' → d' ≡ d
same d d' h = ground arith

counted :
    (d : TableDb) (w : Write) (c : ℕ) (t : Table)
    → write d.0 w ≡ some (c, t)
    → Counts table_sqlite d w c
unfolding write
counted d (replace_row m j v) c t h = tt
counted d (insert_row m j v) c t h = tt
counted d (delete_row m j) c t h = ground arith
counted d (delete_ns m) c t h = ground arith
counted d delete_all c t h = tt

-- The table does what is asked of SQLite.
pub table_sqlite-IsSqlite : IsSqlite table_sqlite
table_sqlite-IsSqlite = record {
  execute_effect = λ d w c d' h. write-effect d.0 w c d'.0 (beside_lem d.1 (write d.0 w) c d' h).0;
  execute_count = λ d w c d' h. counted d w c d'.0 (beside_lem d.1 (write d.0 w) c d' h).0;
  execute_begun_with = λ d w c d' h. ap at_pair (beside_lem d.1 (write d.0 w) c d' h).1;
  begin_lem = λ d d' h. (
    ap (λ (e : TableDb). at_pair e.0) (same (d.0, d.0) d' h),
    ap (λ (e : TableDb). at_pair e.1) (same (d.0, d.0) d' h),
  );
  commit_lem = λ d d' h. ap (λ (e : TableDb). at_pair e.0) (same d d' h);
  rollback_lem = λ d d' h. ap (λ (e : TableDb). at_pair e.0) (same (d.1, d.1) d' h);
  select_1_lem = λ d n k. ground arith;
  select_in_lem = λ d n ks h. (
    rows_at d.0 n (asked d.0 n ks),
    refl,
    rows_at-IsDistinct d.0 n (asked d.0 n ks) (filter-IsDistinct _ _ (keys_of-IsDistinct n d.0)),
    find-asked d.0 n ks,
  );
  contains-select_k = λ d n k. contains-keys_of n k d.0;
  select_k-IsDistinct = λ d n. keys_of-IsDistinct n d.0;
  contains-select_k_range = λ d n lo hi k.
      rw (contains-filter, contains-keys_of)
        (and_comm (le lo k && lt k hi) (is_some (find (n, k) d.0)));
  contains-select_k_substr = λ d n m p k.
      rw (contains-filter, contains-keys_of) (and_comm (take m k == p) (is_some (find (n, k) d.0)));
  select_max_k_lem = λ d n. refl;
  contains-select_ns = λ d n. contains-namespaces_of n d.0;
  contains-select_ns_range = λ d lo hi n.
      rw (contains-filter, contains-namespaces_of)
        (and_comm (le lo n && lt n hi) (not (is_nil (keys_of n d.0))));
  contains-select_ns_substr = λ d m p n.
      rw (contains-filter, contains-namespaces_of)
        (and_comm (take m n == p) (not (is_nil (keys_of n d.0))));
  select_ns_1_lem = λ d n. ground arith;
  select_all_lem = λ d. written-all_rows d.0;
}

write_succeeds :
    (t : Table) (w : Write)
    → is_insert w ≡ false
    → (c : ℕ) × (t' : Table) × (write t w ≡ some (c, t'))
unfolding write
write_succeeds t (replace_row m j v) h = (1, insert (m, j) v t, refl)
write_succeeds t (insert_row m j v) h = absurd (ground arith)
write_succeeds t (delete_row m j) h =
    (if is_some (find (m, j) t) then 1 else 0, remove (m, j) t, refl)
write_succeeds t (delete_ns m) h = (length (keys_of m t), without m t, refl)
write_succeeds t delete_all h = (0, [], refl)

pub table_sqlite-Reliable : Reliable table_sqlite
table_sqlite-Reliable = record {
  succeeds = λ d w h. (let (c, t, e) = write_succeeds d.0 w h in (c, (t, d.1), ap (beside d.1) e));
  begins = λ d. ((d.0, d.0), refl);
  commits = λ d. (d, refl);
}

-- A value is a text; its bytes are its code points behind a mark, and `None` is one byte.
abbrev pub text_pack : Option Text → Bytes
text_pack none = 0 ∷ []
text_pack (some t) = 1 ∷ t

abbrev pub text_unpack : Bytes → Option Text
text_unpack [] = none
text_unpack (zero ∷ t) = none
text_unpack (suc b ∷ t) = some t

pub text_unpack-pack : (v : Option Text) → text_unpack (text_pack v) ≡ v
text_unpack-pack none = refl
text_unpack-pack (some t) = refl

abbrev pub text_codec : Codec Text
text_codec = record { pack = text_pack; unpack = text_unpack; unpack-pack = text_unpack-pack }
