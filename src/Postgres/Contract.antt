-- ===== src/Postgres/Contract.antt =====
-- `PostgresStore` keeps the promises of `StoreLike`, over a database on which the statements succeed.
use mathlib.Core.Option
use mathlib.Core.Path.{fun_ext}
use swarmstate.Prelude.{
  ℕ, ◌≡◌, refl, ap, ◌∙◌, Bool, true, false, Option, none, some, List, [], ◌∷◌, map, arith,
  if◌then◌else◌, is_some, length, or_else, get_or, contains, pair_eq, map_agree,
}
use swarmstate.Prelude.Dict.{Dict, find, insert, insert_all, find-insert}
use swarmstate.Prelude.Result.{Result, ok, raise}
use swarmstate.Text.{Text, text_eq}
use swarmstate.Store.Packed.{packed, written-packed, unpacked-or_else}
use swarmstate.Store.{StoreLike, IsStore, written, existing}
use swarmstate.Snapshot.{Bytes, Row, row_dict}
use swarmstate.Disk.Statements.{Codec}
use swarmstate.Disk.Contract.{result_or}
use swarmstate.Postgres
use swarmstate.Postgres.{unzip}
use swarmstate.Postgres.Statements.{
  Postgresql, IsPostgres, Reliable, Fits, Write, upsert, delete_row, delete_pairs, delete_ns,
  delete_all, effect, unnest,
}
use swarmstate.Postgres.Writes.{Ends, run-Ends, set_many-Ends}

unnest-unzip : (pairs : List (Text × Text)) → unnest (unzip pairs).0 (unzip pairs).1 ≡ pairs
unfolding unnest unzip
unnest-unzip [] = refl
unnest-unzip (p ∷ pairs) = ap (◌∷◌ p) (unnest-unzip pairs)

-- The dictionary of rows keeps the last row of a pair.
find-insert_rows :
    (rows : List Row) (d : Dict (Text × Text) Bytes) (n k : Text)
    → find (n, k) (insert_all d (map (λ (r : Row). ((r.0, r.1), r.2)) rows))
      ≡ or_else (written rows n k) (find (n, k) d)
unfolding insert_all written
find-insert_rows [] d n k = refl
find-insert_rows ((m, j, v) ∷ rows) d n k =
    ground (arith, find-insert_rows rows (insert (m, j) v d) n k, find-insert (m, j) (n, k) v d)

find-row_dict : (rows : List Row) (n k : Text) → find (n, k) (row_dict rows) ≡ written rows n k
unfolding row_dict find
find-row_dict rows n k = find-insert_rows rows [] n k ∙ ground arith

module _ {A : Type 0} (P : Postgresql) (C : Codec A) where
  -- The methods as operations on the table; an exception leaves a default result.
  abbrev pub postgres_store : StoreLike A
  postgres_store = record {
    State = P.Db;
    set = λ d n k v. (Postgres.set P C n k v d).1;
    get = Postgres.get P C;
    set_many = λ d items. (Postgres.set_many P C items d).1;
    get_many = Postgres.get_many P C;
    has = Postgres.contains P C;
    delete = λ d n k. (let r = Postgres.delete P C n k d in (r.1, result_or false r.0));
    delete_many = λ d pairs. (let r = Postgres.delete_many P C pairs d in (r.1, result_or 0 r.0));
    delete_namespace = λ d n. (let r = Postgres.delete_namespace P C n d in (r.1, result_or 0 r.0));
    keys = Postgres.keys P C;
    max_key = Postgres.max_key P C;
    namespaces = Postgres.namespaces P C;
    clear = λ d. (Postgres.clear P C d).1;
  }

  -- The entry of a pair: the value that its bytes stand for.
  pub entry : P.Db → Text → Text → Option (Option A)
  entry d n k = Option.map C.unpack (P.select_v d n k)

  module _ (laws : IsPostgres P) (reliable : Reliable P) where
    select_of_Ends :
        {B : Type 0} (at : Text → Text → Option Bytes) (r : Result B × P.Db)
        → Ends P at r
        → P.select_v r.1 ≡ at
    select_of_Ends at (ok b, d) h = h
    select_of_Ends at (raise e, d) h = absurd h

    run_lem :
        (w : Write) (d : P.Db)
        → Fits P d w
        → P.select_v (Postgres.run P C w d).1 ≡ effect w (P.select_v d)
    run_lem w d fits = select_of_Ends _ (Postgres.run P C w d) (run-Ends P C laws reliable w d fits)

    done_lem : (r : Result ℕ × P.Db) → (Postgres.done P C r).1 ≡ r.1
    done_lem (ok n, d) = refl
    done_lem (raise e, d) = refl

    above_zero_lem : (r : Result ℕ × P.Db) → (Postgres.above_zero P C r).1 ≡ r.1
    above_zero_lem (ok n, d) = refl
    above_zero_lem (raise e, d) = refl

    set_many_lem :
        (items : List (Text × Text × Option A)) (d : P.Db) (n k : Text)
        → P.select_v (Postgres.set_many P C items d).1 n k
          ≡ or_else (written (packed C items) n k) (P.select_v d n k)
    set_many_lem items d n k =
        ap (λ f. f n k)
          (select_of_Ends _ (Postgres.set_many P C items d)
            (set_many-Ends P C laws reliable items d))

    default_lem :
        (o : Option Bytes) (v : Option A)
        → Postgres.or_default P C v o ≡ get_or (Option.map C.unpack o) v
    default_lem none v = refl
    default_lem (some b) v = refl

    -- What the joined rows hold for a pair that was asked for.
    joined :
        (pairs : List (Text × Text)) (d : P.Db) (p : Text × Text)
        → contains p pairs ≡ true
        → find p (row_dict (P.select_pairs d (unzip pairs).0 (unzip pairs).1))
          ≡ P.select_v d p.0 p.1
    joined pairs d p m =
        find-row_dict (P.select_pairs d (unzip pairs).0 (unzip pairs).1) p.0 p.1
        ∙ laws.select_pairs_lem d (unzip pairs).0 (unzip pairs).1 p.0 p.1
        ∙ rw (unnest-unzip pairs, m) refl

    get_many_lem :
        (d : P.Db) (pairs : List (Text × Text))
        → Postgres.get_many P C d pairs ≡ map (λ p. get_or (entry d p.0 p.1) none) pairs
    unfolding Postgres.get_many Postgres.in_order entry
    get_many_lem d [] = refl
    get_many_lem d (p ∷ pairs) = map_agree _ _ (p ∷ pairs) (λ q m.
        ap (Postgres.or_default P C none) (joined (p ∷ pairs) d q m)
        ∙ default_lem (P.select_v d q.0 q.1) none)

    deleted_many :
        (d : P.Db) (pairs : List (Text × Text)) (n k : Text)
        → P.select_v (Postgres.delete_many P C pairs d).1 n k
          ≡ (if contains (n, k) pairs then none else P.select_v d n k)
    unfolding Postgres.delete_many contains
    deleted_many d [] n k = refl
    deleted_many d (p ∷ pairs) n k =
        ap (λ f. f n k) (run_lem (delete_pairs (unzip (p ∷ pairs)).0 (unzip (p ∷ pairs)).1) d tt)
        ∙ rw (unnest-unzip (p ∷ pairs)) refl

    present_lem : (d : P.Db) (n k : Text) → is_some (entry d n k) ≡ is_some (P.select_v d n k)
    unfolding entry
    present_lem d n k = ground arith

    is_some_entry :
        (d : P.Db)
        → ◌≡◌ {A = Text → Text → Bool}
            (λ n k. is_some (entry d n k))
            (λ n k. is_some (P.select_v d n k))
    is_some_entry d = fun_ext λ n. fun_ext λ k. present_lem d n k

    counted_many :
        (d : P.Db) (pairs : List (Text × Text))
        → result_or 0 (Postgres.delete_many P C pairs d).0
          ≡ existing (λ n k. is_some (P.select_v d n k)) pairs
    unfolding Postgres.delete_many Postgres.run existing
    counted_many d [] = refl
    counted_many d (p ∷ pairs) =
        let arrays = unzip (p ∷ pairs) in
        let (c, d', e) = reliable.succeeds d (delete_pairs arrays.0 arrays.1) tt in
        rw e (
          laws.execute_count d (delete_pairs arrays.0 arrays.1) c d' e
          ∙ ap (existing (λ n k. is_some (P.select_v d n k))) (unnest-unzip (p ∷ pairs)))

    deleted_lem :
        (d : P.Db) (n k : Text)
        → result_or false (Postgres.delete P C n k d).0 ≡ is_some (P.select_v d n k)
    unfolding Postgres.delete Postgres.run
    deleted_lem d n k =
        let (c, d', e) = reliable.succeeds d (delete_row n k) tt in
        rw e (ground (arith, laws.execute_count d (delete_row n k) c d' e))

    deleted_namespace_lem :
        (d : P.Db) (n : Text)
        → result_or 0 (Postgres.delete_namespace P C n d).0 ≡ length (Postgres.keys P C d n none)
    unfolding Postgres.delete_namespace Postgres.run Postgres.keys
    deleted_namespace_lem d n =
        let (c, d', e) = reliable.succeeds d (delete_ns n) tt in
        rw e (laws.execute_count d (delete_ns n) c d' e)

    -- Over a database on which no statement fails but an insert of a row that is there, the twelve
    -- methods of the store record do, in the Postgres backend, what `IsStore` asks of them.
    pub postgres_store-IsStore : IsStore postgres_store
    unfolding entry Postgres.set Postgres.get Postgres.delete Postgres.delete_namespace
        Postgres.clear Postgres.contains Postgres.keys Postgres.max_key Postgres.namespaces
    postgres_store-IsStore = record {
      find = entry;
      find-set = λ d n k v n' k'.
          rw (done_lem, run_lem (upsert n k (C.pack v)) d tt) (ground (arith, C.unpack-pack v));
      get_lem = λ d n k v. ground arith;
      find-set_many = λ d items n k. rw (set_many_lem, unpacked-or_else, written-packed C) refl;
      get_many_lem = get_many_lem;
      has_lem = λ d n k. rw (laws.select_1_lem) (ground arith);
      find-delete =
          λ d n k n' k'. rw (above_zero_lem, run_lem (delete_row n k) d tt) (ground arith);
      delete_result = λ d n k. rw deleted_lem (ground arith);
      find-delete_many = λ d pairs n k. rw deleted_many (ground arith);
      delete_many_result = λ d pairs. rw (is_some_entry d) (counted_many d pairs);
      find-delete_namespace = λ d n n' k. rw (run_lem (delete_ns n) d tt) (ground arith);
      delete_namespace_result = λ d n. deleted_namespace_lem d n;
      contains-keys = λ d n k. rw laws.contains-select_k (ground arith);
      keys-IsDistinct = laws.select_k-IsDistinct;
      contains-keys_prefix = λ d n p k v. laws.contains-select_k_prefix d n p k ∙ ground arith;
      max_key_lem = laws.select_max_k_lem;
      contains-namespaces = laws.contains-select_ns;
      contains-namespaces_prefix = λ d p n v. laws.contains-select_ns_prefix d p n ∙ ground arith;
      find-clear = λ d n k. rw (done_lem, run_lem delete_all d tt) refl;
    }
