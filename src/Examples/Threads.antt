-- ===== src/Examples/Threads.antt =====
-- The theorems about listing, the async methods, the retention and the history of a saver, at
-- concrete inputs: a saver over the disk store of a table.
use Prim.Native.Nat.{max}
use swarmstate.Prelude.{
  List, Option, true, if◌then◌else◌, ◌==◌, ◌≡◌, refl, ◌∙◌, ◌&&◌, false, none, some, [], ◌∷◌, map,
  arith, is_some, ap, get_or, take, ltb, length, contains, eq_iff, zero, suc,
}
use swarmstate.Prelude.Decimal.{ℤ}
use swarmstate.Prelude.Result.{ok}
use swarmstate.Prelude.Sort.{sort}
use swarmstate.Text.{Text, text_eq, text_beq}
use swarmstate.Text.Order.{lt}
use swarmstate.Store.{written, StoreLike, IsStore}
use swarmstate.Disk.Contract.{disk_store, disk_store-IsStore}
use swarmstate.Saver.{Config, config, Checkpoint, Metadata, Stored, Typed, Options, Saver}
use swarmstate.Saver.Names.{latest_ns, latest_key, ckpt_ns, writes_ns, write_order}
use swarmstate.Saver.Resolve.{resolve, read_checkpoint, get_tuple}
use swarmstate.Saver.Put.{put}
use swarmstate.Saver.Listing.{list}
use swarmstate.Saver.Listing.Limit.{list-take}
use swarmstate.Saver.Async.{aput, aget_tuple}
use swarmstate.Saver.Async.Listing.{alist, collected, alist-eq-list}
use swarmstate.Saver.Async.Twins.{Fits, FitsAll, aput-eq-put, aget_tuple-eq-get_tuple}
use swarmstate.Disk
use swarmstate.Saver.Retention.Drop.{IsSound}
use swarmstate.Saver.Trim.{prune_thread, last_of}
use swarmstate.Saver.Trim.Keeps.{find-prune_thread, prune_thread-IsSound}
use swarmstate.Saver.History.{get_delta_channel_history}
use swarmstate.Saver.Tuple.Fuel.{HasFuel}
use swarmstate.Saver.History.Fuel.{IsDescending, get_delta_channel_history-HasFuel}
use swarmstate.Examples.Table.{empty_db, table_sqlite, table_sqlite-IsSqlite, table_sqlite-Reliable}
use swarmstate.Examples.Format.{text_langgraph, stored_codec, get_object}

abbrev store : StoreLike Stored
store = disk_store table_sqlite stored_codec

abbrev laws : IsStore store
laws = disk_store-IsStore table_sqlite stored_codec table_sqlite-IsSqlite table_sqlite-Reliable

abbrev options : Options
options = record {
  incremental = false;
  max_checkpoints_per_thread = some 1;
  store_indexes_max_key = false;
}

-- the thread "t" at the checkpoint "2"
abbrev t : Text
t = 116 ∷ []

abbrev two : Text
two = 50 ∷ []

abbrev at_two : Config
at_two = config t [] two

-- "2" with the parent "1"
abbrev child : Stored
child = Stored.saved ([], []) ([], []) (some (49 ∷ []))

abbrev cp : Checkpoint Text
cp = record { id = 51 ∷ []; channel_versions = []; channel_values = none; others = 7 ∷ [] }

abbrev md : Metadata Text
md = (115 ∷ [], 0 ∷ []) ∷ []

-- A saver over a store with the checkpoint "2".
abbrev one : Saver store
one = record {
  store = store.set (store.clear empty_db) (ckpt_ns t []) two (some child);
  max_seen = [];
  prune_floor = [];
}

-- the id "C"
abbrev greatest : Text
greatest = 67 ∷ []

-- The rows of twelve checkpoints, of which "C" is the greatest, and the pointer to it.
abbrev rows : List (Text × Text × Option Stored)
rows =
    (latest_ns, latest_key t [], some (Stored.pointer greatest))
    ∷ map (λ id. (ckpt_ns t [], id ∷ [], some child))
        (49 ∷ 50 ∷ 51 ∷ 52 ∷ 53 ∷ 54 ∷ 55 ∷ 56 ∷ 57 ∷ 65 ∷ 66 ∷ 67 ∷ [])

abbrev many : Saver store
many = record one { store = store.set_many (store.clear empty_db) rows }

list-take_example :
    ((list text_langgraph store options many.store (some at_two) none none (some 3)).0
      ≡ take
          (max 1 3)
          (list text_langgraph store options many.store (some at_two) none none none).0)
    × ((list text_langgraph store options many.store (some at_two) none none (some 3)).1 ≡ (
        if ltb
          (length (list text_langgraph store options many.store (some at_two) none none none).0)
          (max 1 3)
        then (list text_langgraph store options many.store (some at_two) none none none).1
        else ok none))
list-take_example = list-take text_langgraph store options many.store (some at_two) none none 3

aput-eq-put_example :
    aput text_langgraph store options at_two cp md [] many
    ≡ put text_langgraph options store at_two cp md [] many
aput-eq-put_example = aput-eq-put text_langgraph store options at_two cp md [] many

newest : contains greatest (last_of 1 (sort lt (store.keys many.store (ckpt_ns t []) none))) ≡ true
unfolding contains text_beq lt last_of sort Disk.set_many Disk.transaction Disk.executemany
    Disk.keys Disk.clear Disk.run swarmstate.Examples.Table.write swarmstate.Examples.Table.keys_of
    swarmstate.Prelude.Dict.insert ckpt_ns latest_key
newest = refl

find-prune_thread_example :
    laws.find (prune_thread text_langgraph store options t [] many).1.store (ckpt_ns t []) greatest
    ≡ laws.find many.store (ckpt_ns t []) greatest
find-prune_thread_example =
    find-prune_thread text_langgraph store options laws t [] 1 many greatest refl newest

pointed : written rows latest_ns (latest_key t []) ≡ some (some (Stored.pointer greatest))
unfolding written text_beq ckpt_ns latest_key
pointed = refl

greatest_row : written rows (ckpt_ns t []) greatest ≡ some (some child)
unfolding written text_beq ckpt_ns latest_key
greatest_row = refl

sound : IsSound text_langgraph store options laws t [] many.store
sound id h =
    let named : id ≡ greatest = ground (
      arith,
      h,
      pointed,
      laws.find-set_many (store.clear empty_db) rows latest_ns (latest_key t []),
    ) in
    rw named (
      ground (
        arith,
        greatest_row,
        laws.find-set_many (store.clear empty_db) rows (ckpt_ns t []) greatest,
      ))

prune_thread-IsSound_example :
    IsSound text_langgraph store options laws t []
      (prune_thread text_langgraph store options t [] many).1.store
prune_thread-IsSound_example =
    prune_thread-IsSound text_langgraph store options laws t [] many refl sound

stored_at :
    (n k : Text)
    → laws.find one.store n k ≡ (if ckpt_ns t [] == n && two == k then some (some child) else none)
stored_at n k = ground (
  arith,
  laws.find-set (store.clear empty_db) (ckpt_ns t []) two (some child) n k,
  laws.find-clear empty_db n k,
)

row : store.get one.store (ckpt_ns t []) two none ≡ some child
unfolding text_beq ckpt_ns
row =
    laws.get_lem one.store (ckpt_ns t []) two none
    ∙ ap (λ e. get_or e none) (stored_at (ckpt_ns t []) two)

no_writes : (k : Text) → contains k (store.keys one.store (writes_ns t [] two) none) ≡ false
unfolding text_beq ckpt_ns writes_ns
no_writes k =
    laws.contains-keys one.store (writes_ns t [] two) k
    ∙ ap is_some (stored_at (writes_ns t [] two) k)

no_single_write :
    (k : Text)
    → store.keys one.store (writes_ns t [] two) none ≡ k ∷ []
    → (i : Text × ℤ) × (write_order k ≡ ok i)
unfolding contains
no_single_write k h = absurd (ground (arith, no_writes k, ap (contains k) h, eq_iff k k))

fits : FitsAll text_langgraph store options (resolve text_langgraph store options at_two one)
unfolding resolve read_checkpoint config
fits = rw row (λ c e h. absurd (ground (arith, h)), no_single_write)

aget_tuple-eq-get_tuple_example :
    aget_tuple text_langgraph store options at_two one
    ≡ get_tuple text_langgraph store options at_two one
aget_tuple-eq-get_tuple_example =
    aget_tuple-eq-get_tuple text_langgraph store options laws at_two one fits

loads : (d : Typed) → HasFuel (get_object d)
unfolding get_object
loads ([], xs) = refl
loads (zero ∷ s, xs) = tt
loads (suc zero ∷ s, xs) = tt
loads (suc (suc zero) ∷ s, xs) = tt
loads (suc (suc (suc c)) ∷ s, xs) = refl

descending : (t' n : Text) → IsDescending text_langgraph store options laws one.store (ckpt_ns t' n)
unfolding lt
descending t' n id c m parent p e q = ground (
  arith,
  laws.get_lem one.store (ckpt_ns t' n) id none,
  stored_at (ckpt_ns t' n) id,
  eq_iff two id,
  q,
  e,
)

get_delta_channel_history-HasFuel_example :
    HasFuel (get_delta_channel_history text_langgraph store options at_two (t ∷ []) one).0
get_delta_channel_history-HasFuel_example =
    get_delta_channel_history-HasFuel text_langgraph store options laws at_two (t ∷ []) one loads
      unmoved
  where
    unmoved :
        (t' n : Text)
        → IsDescending text_langgraph store options laws
            (resolve text_langgraph store options at_two one).1.store
            (ckpt_ns t' n)
    unmoved t' n = unfold resolve read_checkpoint config in descending t' n

-- There is no pending write, whatever the checkpoint.
no_write_keys :
    (t' n id k : Text)
    → store.keys one.store (writes_ns t' n id) none ≡ k ∷ []
    → (i : Text × ℤ) × (write_order k ≡ ok i)
unfolding contains text_beq ckpt_ns writes_ns
no_write_keys t' n id k h = absurd (
    ground (
      arith,
      laws.contains-keys one.store (writes_ns t' n id) k,
      stored_at (writes_ns t' n id) k,
      ap (contains k) h,
      eq_iff k k,
    ))

child-Fits : (t' n id : Text) → Fits text_langgraph store options one.store (t', n, id, child)
child-Fits t' n id = (λ c e h. absurd (ground (arith, h)), no_write_keys t' n id)

entry-Fits :
    (t' n ns id : Text) (entry : Stored)
    → store.get one.store ns id none ≡ some entry
    → Fits text_langgraph store options one.store (t', n, id, entry)
entry-Fits t' n ns id entry h =
    let same : child ≡ entry =
      ground (arith, h, laws.get_lem one.store ns id none, stored_at ns id) in
    rw (← same) (child-Fits t' n id)

alist-eq-list_example :
    (alist text_langgraph store options true one.store (some at_two) none none none
      ≡ list text_langgraph store options one.store (some at_two) none none none)
    × (alist text_langgraph store options false one.store (some at_two) none none none
        ≡ collected text_langgraph store options
            (list text_langgraph store options one.store (some at_two) none none none))
alist-eq-list_example =
    alist-eq-list text_langgraph store options laws one.store entry-Fits (some at_two) none none
      none
