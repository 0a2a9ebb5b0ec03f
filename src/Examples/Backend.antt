-- ===== src/Examples/Backend.antt =====
-- The theorems about prefixes, snapshots, the disk backend and the copy of a store, at concrete
-- inputs.
use swarmstate.Prelude.{
  ℕ, ◌≡◌, refl, true, ◌&&◌, Option, none, some, List, [], ◌∷◌, map, arith, contains, is_some,
  or_else, if◌then◌else◌, pair_eq,
}
use swarmstate.Prelude.Result.{ok}
use swarmstate.Prelude.Dict.{find}
use swarmstate.Text.{Text, text_eq, text_beq, starts_with}
use swarmstate.Text.Order.{le}
use swarmstate.Prefix.{prefix_upper_bound, bump_last, bump, is_text}
use swarmstate.Prefix.Range.{starts_with-range, before, storable}
use swarmstate.Snapshot.{Row, diff, CopySnapshot}
use swarmstate.Snapshot.Diff.{diff_exact, is_new, is_changed, patched, value_in}
use swarmstate.Store.{StoreLike, IsStore}
use swarmstate.Disk
use swarmstate.Disk.Reads.{get_many-eq-get}
use swarmstate.Disk.Contract.{disk_store, disk_store-IsStore}
use swarmstate.Portability.{batch_limit, copy_store}
use swarmstate.Portability.Copy.{copy_store_lem, total, selects}
use swarmstate.Snapshot.{Bytes}
use swarmstate.Prelude.Chunks.{concat, chunks}
use swarmstate.Portability.{entries, namespace_entries, chunk_entries, kept}
use swarmstate.Portability.Dump.{write_dump, read_dump}
use swarmstate.Portability.Dump.Load.{AllFit, read_dump-write_dump}
use swarmstate.Examples.Format.{entry_codec}
use swarmstate.Examples.Table.{
  empty_db, table_sqlite, table_sqlite-IsSqlite, table_sqlite-Reliable, text_codec,
}

-- "ab", "ac" and "b"
abbrev ab : Text
ab = 97 ∷ 98 ∷ []

abbrev ac : Text
ac = 97 ∷ 99 ∷ []

abbrev b : Text
b = 98 ∷ []

-- the last code point, which nothing follows
abbrev last : Text
last = 0x10FFFF ∷ []

ab-bound : prefix_upper_bound ab ≡ some ac
unfolding prefix_upper_bound bump_last bump
ab-bound = refl

last-bound : prefix_upper_bound last ≡ none
unfolding prefix_upper_bound bump_last bump
last-bound = refl

starts_with-range_example :
    (starts_with ab ab ≡ (le ab ab && before ab (prefix_upper_bound ab)))
    × (is_text ab ≡ true → storable (prefix_upper_bound ab) ≡ true)
starts_with-range_example = starts_with-range ab ab (unfold is_text in refl)

-- Two snapshots: (a, b) has changed, (a, ac) is new and (b, b) is gone.
abbrev rows : List Row
rows = (ab, b, 1 ∷ []) ∷ (ab, ac, 2 ∷ []) ∷ []

abbrev base : List Row
base = (ab, b, 3 ∷ []) ∷ (b, b, 4 ∷ []) ∷ []

abbrev s1 : CopySnapshot ℕ
s1 = record { rows = rows; id = 2; timestamp = 20; parent = some 1; size_bytes = 2 }

abbrev s0 : CopySnapshot ℕ
s0 = record { rows = base; id = 1; timestamp = 10; parent = none; size_bytes = 2 }

abbrev p : Text × Text
p = (ab, b)

diff_exact_example :
    (contains p (diff s1 s0).added ≡ is_new (value_in s1 p) (value_in s0 p))
    × (contains p (diff s1 s0).removed ≡ is_new (value_in s0 p) (value_in s1 p))
    × (contains p (diff s1 s0).changed ≡ is_changed (value_in s1 p) (value_in s0 p))
    × (patched s1 s0 p ≡ value_in s1 p)
diff_exact_example = diff_exact s1 s0 p

-- A table with one row, and a batch of two writes.
abbrev pub table : table_sqlite.Db
table = (((ab, b), 1 ∷ 98 ∷ []) ∷ [], [])

abbrev items : List (Text × Text × Option Text)
items = (ab, ac, some b) ∷ (ab, b, none) ∷ []

abbrev pairs : List (Text × Text)
pairs = (ab, b) ∷ (b, ac) ∷ (ab, b) ∷ []

get_many-eq-get_example :
    Disk.get_many table_sqlite text_codec table pairs
    ≡ ok (map (λ (q : Text × Text). Disk.get table_sqlite text_codec table q.0 q.1 none) pairs)
get_many-eq-get_example = get_many-eq-get table_sqlite text_codec table_sqlite-IsSqlite table pairs

abbrev pub disk : StoreLike Text
disk = disk_store table_sqlite text_codec

disk_store-IsStore_example : IsStore disk
disk_store-IsStore_example =
    disk_store-IsStore table_sqlite text_codec table_sqlite-IsSqlite table_sqlite-Reliable

abbrev disk-IsStore : IsStore disk
disk-IsStore =
    disk_store-IsStore table_sqlite text_codec table_sqlite-IsSqlite table_sqlite-Reliable

copy_store_lem_example :
    ((copy_store disk disk table empty_db (some ab) 2).0
      ≡ ok (total disk table (disk.namespaces table (some ab))))
    × ((n k : Text)
        → is_text n ≡ true
        → disk-IsStore.find (copy_store disk disk table empty_db (some ab) 2).1 n k
          ≡ or_else
              (if selects (some ab) n then disk-IsStore.find table n k else none)
              (disk-IsStore.find empty_db n k))
copy_store_lem_example =
    copy_store_lem disk disk disk-IsStore disk-IsStore table empty_db (some ab) 2 (omega arith)

fits : AllFit entry_codec (concat (entries disk table none batch_limit))
unfolding entries namespace_entries chunk_entries kept concat chunks Disk.namespaces
    swarmstate.Examples.Table.namespaces_of contains Disk.keys swarmstate.Examples.Table.keys_of
    text_beq Disk.get_many Disk.fetch swarmstate.Prelude.Group.group
    swarmstate.Prelude.Group.append_at Disk.fetch_chunks find swarmstate.Prelude.Dict.insert_all
    swarmstate.Examples.Table.rows_at swarmstate.Prelude.Dict.insert
    swarmstate.Examples.Format.frame_of swarmstate.Examples.Format.put_text
fits = ((_, refl, omega arith), tt)

read_dump-write_dump_example :
    (count : ℕ) × (bytes : Bytes) × (write_dump entry_codec disk table none ≡ ok (count, bytes))
    × (count ≡ total disk table (disk.namespaces table none))
    × ((read_dump entry_codec disk bytes empty_db).0 ≡ ok tt)
    × ((n k : Text)
        → is_text n ≡ true
        → disk-IsStore.find (read_dump entry_codec disk bytes empty_db).1 n k
          ≡ or_else
              (if selects none n then disk-IsStore.find table n k else none)
              (disk-IsStore.find empty_db n k))
read_dump-write_dump_example =
    read_dump-write_dump entry_codec disk disk disk-IsStore disk-IsStore table none empty_db fits
