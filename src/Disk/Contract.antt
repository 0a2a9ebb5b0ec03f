-- ===== src/Disk/Contract.antt =====
-- `DiskStore` keeps the promises of `StoreLike`, over an SQLite whose statements succeed.
use mathlib.Core.Option
use mathlib.Core.Path.{fun_ext}
use swarmstate.Prelude.{
  ℕ, ◌≡◌, refl, ap, Bool, true, false, ◌&&◌, Option, none, some, List, [], map, arith,
  if◌then◌else◌, is_some, length, or_else, get_or, contains, pair_eq,
}
use swarmstate.Prelude.Result.{Result, ok, raise}
use swarmstate.Text.{Text, text_eq, starts_with}
use swarmstate.Prefix.{is_text}
use swarmstate.Store.{StoreLike, IsStore, written}
use swarmstate.Snapshot.{Bytes}
use swarmstate.Disk
use swarmstate.Disk.Statements.{
  Codec, Sqlite, IsSqlite, Reliable, is_insert, Write, delete_row, delete_ns, effect,
}
use swarmstate.Disk.Reads.{get_many-eq-get, contains-keys_prefix, contains-namespaces_prefix}
use swarmstate.Store.Packed.{packed, written-packed, unpacked-or_else}
use swarmstate.Disk.Writes.{run-Atomic, set_many-Atomic, delete_many-Atomic}
use swarmstate.Disk.Totals.{
  IsCount, select_of_Atomic, run-Succeeds, set_many-Succeeds, delete_many-IsCount,
  Succeeds-of_IsCount,
}

-- The result of a method, where it returns.
abbrev pub result_or : {B : Type 0} → B → Result B → B
result_or default (ok b) = b
result_or default (raise e) = default

module _ {A : Type 0} (D : Sqlite) (C : Codec A) where
  -- The methods as operations on the table; an exception leaves a default result.
  abbrev pub disk_store : StoreLike A
  disk_store = record {
    State = D.Db;
    set = λ d n k v. (Disk.set D C n k v d).1;
    get = Disk.get D C;
    set_many = λ d items. (Disk.set_many D C items d).1;
    get_many = λ d pairs. result_or [] (Disk.get_many D C d pairs);
    has = Disk.contains D C;
    delete = λ d n k. (let r = Disk.delete D C n k d in (r.1, result_or false r.0));
    delete_many = λ d pairs. (let r = Disk.delete_many D C pairs d in (r.1, result_or 0 r.0));
    delete_namespace = λ d n. (let r = Disk.delete_namespace D C n d in (r.1, result_or 0 r.0));
    keys = Disk.keys D C;
    max_key = Disk.max_key D C;
    namespaces = Disk.namespaces D C;
    clear = λ d. (Disk.clear D C d).1;
  }

  -- The entry of a pair: the value that its bytes stand for.
  pub entry : D.Db → Text → Text → Option (Option A)
  entry d n k = Option.map C.unpack (D.select_v d n k)

  module _ (laws : IsSqlite D) (reliable : Reliable D) where
    abbrev at : D.Db → Text → Text → Option Bytes
    at d = D.select_v d

    run_lem :
        (w : Write) (d : D.Db) → is_insert w ≡ false → at (Disk.run D C w d).1 ≡ effect w (at d)
    run_lem w d h =
        select_of_Atomic D C laws reliable d (effect w (at d)) (Disk.run D C w d)
          (run-Atomic D C laws w d) (run-Succeeds D C laws reliable w d h)

    done_lem : (r : Result ℕ × D.Db) → (Disk.done D C r).1 ≡ r.1
    done_lem (ok n, d) = refl
    done_lem (raise e, d) = refl

    set_many_lem :
        (items : List (Text × Text × Option A)) (d : D.Db) (n k : Text)
        → at (Disk.set_many D C items d).1 n k ≡ or_else (written (packed C items) n k) (at d n k)
    set_many_lem items d n k =
        ap (λ f. f n k)
          (select_of_Atomic D C laws reliable d _ (Disk.set_many D C items d)
            (set_many-Atomic D C laws items d) (set_many-Succeeds D C laws reliable items d))

    delete_many_lem :
        (pairs : List (Text × Text)) (d : D.Db) (n k : Text)
        → at (Disk.delete_many D C pairs d).1 n k
          ≡ (if contains (n, k) pairs then none else at d n k)
    delete_many_lem pairs d n k =
        ap (λ f. f n k)
          (select_of_Atomic D C laws reliable d _ (Disk.delete_many D C pairs d)
            (delete_many-Atomic D C laws pairs d)
            (Succeeds-of_IsCount D C laws reliable _ _
              (delete_many-IsCount D C laws reliable pairs d)))

    result_of_IsCount :
        (c : ℕ) (r : Result ℕ × D.Db) → IsCount D C laws reliable c r → result_or 0 r.0 ≡ c
    result_of_IsCount c (ok n, d) h = h
    result_of_IsCount c (raise e, d) h = absurd h

    above_zero_lem : (r : Result ℕ × D.Db) → (Disk.above_zero D C r).1 ≡ r.1
    above_zero_lem (ok n, d) = refl
    above_zero_lem (raise e, d) = refl

    deleted_lem :
        (d : D.Db) (n k : Text) → result_or false (Disk.delete D C n k d).0 ≡ is_some (at d n k)
    unfolding Disk.delete Disk.run
    deleted_lem d n k =
        let (c, d', e) = reliable.succeeds d (delete_row n k) refl in
        rw e (ground (arith, laws.execute_count d (delete_row n k) c d' e))

    deleted_namespace_lem :
        (d : D.Db) (n : Text)
        → result_or 0 (Disk.delete_namespace D C n d).0 ≡ length (Disk.keys D C d n none)
    unfolding Disk.delete_namespace Disk.run Disk.keys
    deleted_namespace_lem d n =
        let (c, d', e) = reliable.succeeds d (delete_ns n) refl in
        rw e (laws.execute_count d (delete_ns n) c d' e)

    present_lem : (d : D.Db) (n k : Text) → is_some (entry d n k) ≡ is_some (at d n k)
    unfolding entry
    present_lem d n k = ground arith

    is_some_entry :
        (d : D.Db)
        → ◌≡◌ {A = Text → Text → Bool} (λ n k. is_some (entry d n k)) (λ n k. is_some (at d n k))
    is_some_entry d = fun_ext λ n. fun_ext λ k. present_lem d n k

    default_lem :
        (o : Option Bytes) (v : Option A)
        → Disk.or_default D C v o ≡ get_or (Option.map C.unpack o) v
    default_lem none v = refl
    default_lem (some b) v = refl

    prefix_keys :
        (d : D.Db) (n p k : Text)
        → is_text k ≡ true
        → contains k (Disk.keys D C d n (some p)) ≡ (starts_with k p && is_some (entry d n k))
    prefix_keys d n p k v = rw present_lem (contains-keys_prefix D C laws d n p k v)

    -- Over a database on which no BEGIN, COMMIT or statement but an insert fails, the twelve
    -- methods of the store record do, in the disk backend, what `IsStore` asks of them.
    pub disk_store-IsStore : IsStore disk_store
    unfolding entry Disk.set Disk.get Disk.delete Disk.delete_namespace Disk.clear Disk.contains
        Disk.keys Disk.max_key Disk.namespaces
    disk_store-IsStore = record {
      find = entry;
      find-set = λ d n k v n' k'. rw (done_lem, run_lem) (ground (arith, C.unpack-pack v));
      get_lem = λ d n k v. ground arith;
      find-set_many = λ d items n k. rw (set_many_lem, unpacked-or_else, written-packed C) refl;
      get_many_lem = λ d pairs.
          rw (get_many-eq-get, laws)
            (ap (λ (f : Text × Text → Option A). map f pairs)
              (fun_ext λ p. default_lem (at d p.0 p.1) none));
      has_lem = λ d n k. rw (laws.select_1_lem) (ground arith);
      find-delete = λ d n k n' k'. rw (above_zero_lem, run_lem) (ground arith);
      delete_result = λ d n k. rw deleted_lem (ground arith);
      find-delete_many = λ d pairs n k. rw delete_many_lem (ground arith);
      delete_many_result = λ d pairs. rw (is_some_entry d) (
          result_of_IsCount _ (Disk.delete_many D C pairs d)
            (delete_many-IsCount D C laws reliable pairs d));
      find-delete_namespace = λ d n n' k. rw run_lem (ground arith);
      delete_namespace_result = λ d n. deleted_namespace_lem d n;
      contains-keys = λ d n k. rw laws.contains-select_k (ground arith);
      keys-IsDistinct = laws.select_k-IsDistinct;
      contains-keys_prefix = λ d n p k v. prefix_keys d n p k v;
      max_key_lem = laws.select_max_k_lem;
      contains-namespaces = laws.contains-select_ns;
      contains-namespaces_prefix = λ d p n v. contains-namespaces_prefix D C laws d p n v;
      find-clear = λ d n k. rw (done_lem, run_lem) refl;
    }
