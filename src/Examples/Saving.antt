-- ===== src/Examples/Saving.antt =====
-- The theorems about the saver, at concrete inputs: a saver over the disk store of a table.
use swarmstate.Prelude.{
  ◌∙◌, if◌then◌else◌, ◌==◌, ◌≡◌, refl, true, false, none, some, List, [], ◌∷◌, ◌++◌, arith, is_some,
  ap, ◌⊎◌, pair_eq,
}
use swarmstate.Prelude.Dict.{find}
use swarmstate.Prelude.Decimal.{pos, str}
use swarmstate.Prelude.Result.{Error, ok, raise, type_error}
use swarmstate.Text.{Text, text_eq, text_beq}
use swarmstate.Text.Order.{lt}
use swarmstate.Prefix.{is_text}
use swarmstate.Store.{StoreLike, IsStore}
use swarmstate.Disk.Contract.{disk_store, disk_store-IsStore}
use swarmstate.Saver.{Config, config, ns_of, Checkpoint, Metadata, Stored, Options, Saver}
use swarmstate.Saver.Names.{ckpt_ns, writes_ns, latest_ns, latest_key, has_sep}
use swarmstate.Saver.Resolve.{get_tuple, resolve_latest}
use swarmstate.Saver.Put.{put}
use swarmstate.Saver.Put.Roundtrip.{get_tuple-put, fresh_tuple}
use swarmstate.Saver.Put.Latest.{Call, puts, AnswersGreatest, puts-AnswersGreatest}
use swarmstate.Saver.Put.Stale.{put-moves_back}
use swarmstate.Saver.Writes.{write_key, put_writes, aput_writes}
use swarmstate.Saver.Writes.Twins.{first_refused, aput_writes-eq-put_writes}
use swarmstate.Saver.Writes.Once.{put_writes-once}
use swarmstate.Saver.Threads.{delete_thread}
use swarmstate.Saver.Threads.Erase.{belongs, delete_thread-erases}
use swarmstate.Examples.Table.{empty_db, table_sqlite, table_sqlite-IsSqlite, table_sqlite-Reliable}
use swarmstate.Examples.Format.{text_langgraph, stored_codec}

abbrev pub store : StoreLike Stored
store = disk_store table_sqlite stored_codec

abbrev pub laws : IsStore store
laws = disk_store-IsStore table_sqlite stored_codec table_sqlite-IsSqlite table_sqlite-Reliable

abbrev pub options : Options
options = record {
  incremental = false;
  max_checkpoints_per_thread = none;
  store_indexes_max_key = false;
}

-- A saver over a store that was cleared.
abbrev pub fresh : Saver store
fresh = record { store = store.clear empty_db; max_seen = []; prune_floor = [] }

-- the thread "t", and the checkpoints "1" and "2"
abbrev pub thread : Config
thread = record { thread_id = 116 ∷ []; checkpoint_ns = none; checkpoint_id = some (49 ∷ []) }

abbrev pub cp1 : Checkpoint Text
cp1 = record { id = 49 ∷ []; channel_versions = []; channel_values = none; others = 7 ∷ [] }

abbrev pub cp2 : Checkpoint Text
cp2 = record cp1 { id = 50 ∷ [] }

abbrev pub md : Metadata Text
md = (115 ∷ [], 0 ∷ []) ∷ []

pub cleared : (n k : Text) → laws.find fresh.store n k ≡ none
cleared n k = laws.find-clear empty_db n k

get_tuple-put_example :
    ((put text_langgraph options store thread cp2 md [] fresh).0
      ≡ ok (config thread.thread_id (ns_of thread) cp2.id))
    × (get_tuple text_langgraph store options
          (config thread.thread_id (ns_of thread) cp2.id)
          (put text_langgraph options store thread cp2 md [] fresh).1
        ≡ (
          ok (some (fresh_tuple text_langgraph options store laws thread cp2 md)),
          (put text_langgraph options store thread cp2 md [] fresh).1,
        ))
get_tuple-put_example =
    get_tuple-put text_langgraph options store laws thread cp2 md [] fresh refl refl refl
      (cleared (writes_ns thread.thread_id (ns_of thread) cp2.id))

pub plain : has_sep thread.thread_id ≡ false
unfolding has_sep
plain = refl

-- Two puts, the newer one first.
abbrev call1 : Call Text
call1 = record { config = thread; checkpoint = cp1; metadata = md; new_versions = [] }

abbrev call2 : Call Text
call2 = record { config = thread; checkpoint = cp2; metadata = md; new_versions = [] }

abbrev run : List (Call Text)
run = [] ++ (call2 ∷ call1 ∷ [])

puts-AnswersGreatest_example :
    AnswersGreatest text_langgraph options store laws refl refl thread.thread_id [] plain
      (puts text_langgraph options store run fresh)
    × (is_some (
          laws.find
            (puts text_langgraph options store run fresh).store
            (ckpt_ns thread.thread_id [])
            cp2.id)
        ≡ true)
puts-AnswersGreatest_example =
    puts-AnswersGreatest text_langgraph options store laws refl refl thread.thread_id [] plain []
      call2 (call1 ∷ []) fresh (plain, (plain, tt)) (omega arith) refl
      (cleared (ckpt_ns thread.thread_id [])) (cleared latest_ns (latest_key thread.thread_id []))
      refl refl refl

-- The checkpoint "2" is stored, and the saver has no hint.
abbrev restarted : Saver store
restarted = record fresh {
  store =
      store.set fresh.store (ckpt_ns thread.thread_id []) (50 ∷ [])
        (some (Stored.saved ([], []) ([], []) none));
}

newer_stored : is_some (laws.find restarted.store (ckpt_ns thread.thread_id []) (50 ∷ [])) ≡ true
unfolding ckpt_ns text_beq
newer_stored = ap is_some (
    laws.find-set fresh.store (ckpt_ns thread.thread_id []) (50 ∷ []) _
      (ckpt_ns thread.thread_id []) (50 ∷ []))

put-moves_back_example :
    ((entry : Stored) × (resolve_latest text_langgraph store options thread.thread_id
          (ns_of thread)
          (put text_langgraph options store thread cp1 md [] restarted).1
        ≡ (
          ok (some (thread.thread_id, ns_of thread, cp1.id, entry)),
          (put text_langgraph options store thread cp1 md [] restarted).1,
        )))
    × (is_some (
          laws.find
            (put text_langgraph options store thread cp1 md [] restarted).1.store
            (ckpt_ns thread.thread_id (ns_of thread))
            (50 ∷ []))
        ≡ true)
put-moves_back_example =
    put-moves_back text_langgraph options store laws thread cp1 md [] restarted refl refl plain
      (unfold find in refl) (50 ∷ []) refl newer_stored (unfold lt in refl)

-- A positional write and a special one, of the task "k".
abbrev writes : List (Text × Text)
writes = (99 ∷ [], 5 ∷ []) ∷ (33 ∷ [], 6 ∷ []) ∷ []

aput_writes-eq-put_writes_example :
    (aput_writes text_langgraph store thread writes (107 ∷ []) [] fresh
      ≡ put_writes text_langgraph store thread writes (107 ∷ []) [] fresh)
    ⊎ ((e : Error) × (first_refused text_langgraph writes ≡ some e)
        × (aput_writes text_langgraph store thread writes (107 ∷ []) [] fresh ≡ (raise e, fresh)))
aput_writes-eq-put_writes_example =
    aput_writes-eq-put_writes text_langgraph store laws thread writes (107 ∷ []) [] fresh
      (unfold is_text in refl)

-- The first write of the task is stored.
abbrev ns : Text
ns = writes_ns thread.thread_id [] (49 ∷ [])

abbrev key : Text
key = write_key (107 ∷ []) (pos 0)

abbrev stored_write : Saver store
stored_write = record fresh {
  store = store.set fresh.store ns key (some (Stored.write (107 ∷ []) (99 ∷ []) ([], []) []));
}

write_stored : is_some (laws.find stored_write.store ns key) ≡ true
unfolding writes_ns write_key text_beq str
write_stored = ap is_some (laws.find-set fresh.store ns key _ ns key)

-- The task writes "X" there again, which cannot be serialized: the sync way skips the write, and
-- the async way raises.
abbrev unserializable : List (Text × Text)
unserializable = (99 ∷ [], 88 ∷ []) ∷ []

raised :
    (aput_writes text_langgraph store thread unserializable (107 ∷ []) [] stored_write).0
    ≡ raise type_error
unfolding aput_writes swarmstate.Saver.Writes.rows_from text_beq
raised = refl

skipped :
    (put_writes text_langgraph store thread unserializable (107 ∷ []) [] stored_write).0 ≡ ok tt
unfolding put_writes swarmstate.Saver.Writes.batch_from text_beq
skipped = rw (laws.has_lem stored_write.store ns key ∙ write_stored) refl

put_writes-once_example :
    laws.find
      (put_writes text_langgraph store thread writes (107 ∷ []) [] stored_write).1.store
      ns
      key
    ≡ laws.find stored_write.store ns key
put_writes-once_example =
    put_writes-once text_langgraph store laws thread (49 ∷ []) writes (107 ∷ []) [] stored_write 0
      refl write_stored

-- A saver with one put, whose thread is deleted.
abbrev used : Saver store
used = (put text_langgraph options store thread cp1 md [] fresh).1

delete_thread-erases_example :
    ((n k : Text)
      → is_text n ≡ true
      → is_text k ≡ true
      → laws.find (delete_thread store options thread.thread_id used).store n k
        ≡ (if belongs true thread.thread_id n k then none else laws.find used.store n k))
    × ((t' n : Text)
        → find (t', n) (delete_thread store options thread.thread_id used).max_seen
          ≡ (if t' == thread.thread_id then none else find (t', n) used.max_seen))
    × ((t' n : Text)
        → find (t', n) (delete_thread store options thread.thread_id used).prune_floor
          ≡ (if t' == thread.thread_id then none else find (t', n) used.prune_floor))
delete_thread-erases_example = delete_thread-erases store laws options thread.thread_id used plain
