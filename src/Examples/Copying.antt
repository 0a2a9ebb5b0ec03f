-- ===== src/Examples/Copying.antt =====
-- The theorems about incremental savers and about copies of threads, at concrete inputs: a saver
-- over the disk store of a table.
use swarmstate.Prelude.{
  ◌≡◌, refl, ◌∙◌, ap, true, false, not, ◌&&◌, if◌then◌else◌, none, some, Option, List, [], ◌∷◌,
  arith, contains, is_some, get_or, pair_eq, ◌==◌, eq_iff, is_nil,
}
use swarmstate.Prelude.Dict.{Dict, find, keys}
use swarmstate.Prelude.Result.{ok}
use swarmstate.Prefix.{is_text, prefix_upper_bound}
use swarmstate.Text.{Text, text_eq, text_beq}
use swarmstate.Saver.{config, ns_of, Checkpoint, Object, Stored, Options, Saver}
use swarmstate.Saver.Names.{ck, wr, bl, latest_ns, ckpt_ns, writes_ns, blobs_ns, has_sep, split}
use swarmstate.Saver.Access.{thread_namespaces, second_is}
use swarmstate.Saver.Tuple.{blob_key}
use swarmstate.Saver.Resolve.{get_tuple}
use swarmstate.Saver.Put.{put}
use swarmstate.Saver.Put.Roundtrip.{fresh_tuple}
use swarmstate.Saver.Put.Blobs.{PlainChannels, blob_of}
use swarmstate.Saver.Put.Incremental.{with_values, get_tuple-put_incremental}
use swarmstate.Saver.Threads.Manage.{copy_thread, thread_key, retarget, copied_value}
use swarmstate.Saver.Threads.Rows.{Readable, moved}
use swarmstate.Saver.Threads.Copies.{CopiedKind, copy_thread-copies}
use swarmstate.Examples.Format.{text_langgraph}
use swarmstate.Examples.Saving.{store, laws, fresh, thread, md, cleared, plain}

abbrev options : Options
options = record {
  incremental = true;
  max_checkpoints_per_thread = none;
  store_indexes_max_key = false;
}

-- A checkpoint with the channel "c" at the version "1".
abbrev versions : List (Text × Text)
versions = (99 ∷ [], 49 ∷ []) ∷ []

abbrev cp : Checkpoint Text
cp = record {
  id = 49 ∷ [];
  channel_versions = versions;
  channel_values = some ((99 ∷ [], 5 ∷ []) ∷ []);
  others = 7 ∷ [];
}

plain_versions : PlainChannels versions
plain_versions = (unfold has_sep in refl, tt)

plain_channel : (ch ver : Text) → contains (ch, ver) versions ≡ true → has_sep ch ≡ false
unfolding contains text_beq has_sep
plain_channel ch ver h =
    let named : 99 ∷ [] ≡ ch = (eq_iff (99 ∷ []) ch).0 (ground (arith, h)) in rw (← named) refl

unsaved :
    (ch ver : Text)
    → contains (ch, ver) versions ≡ true
    → contains (ch, ver) versions
        && not (
            is_some (
              laws.find fresh.store
                (blobs_ns thread.thread_id (ns_of thread))
                (blob_key (ch, ver))))
      ≡ false
    → laws.find fresh.store (blobs_ns thread.thread_id (ns_of thread)) (blob_key (ch, ver))
      ≡ some (some (blob_of text_langgraph (find ch (get_or cp.channel_values []))))
unsaved ch ver h k =
    absurd (
      ground (arith, h, k, cleared (blobs_ns thread.thread_id (ns_of thread)) (blob_key (ch, ver))))

get_tuple-put_incremental_example :
    ((put text_langgraph options store thread cp md versions fresh).0
      ≡ ok (config thread.thread_id (ns_of thread) cp.id))
    × (values : Dict Text Text) × (get_tuple text_langgraph store options
          (config thread.thread_id (ns_of thread) cp.id)
          (put text_langgraph options store thread cp md versions fresh).1
        ≡ (
          ok (
              some (
                fresh_tuple text_langgraph options store laws thread
                  (with_values text_langgraph options store laws cp values)
                  md)),
          (put text_langgraph options store thread cp md versions fresh).1,
        ))
    × ((ch : Text)
        → find ch values ≡ (
            if contains ch (keys cp.channel_versions)
            then find ch (get_or cp.channel_values [])
            else none))
get_tuple-put_incremental_example =
    get_tuple-put_incremental text_langgraph options store laws thread cp md versions fresh refl
      refl refl plain_versions plain_channel unsaved
      (cleared (writes_ns thread.thread_id (ns_of thread) cp.id))

-- The thread "t" has one checkpoint, whose metadata can be read.
abbrev named : Dict Text Text
named = (thread_key, thread.thread_id) ∷ []

abbrev entry : Stored
entry = Stored.saved ([], []) (text_langgraph.dumps_typed (Object.metadata named)) none

abbrev one : Saver store
one = record fresh {
  store = store.set fresh.store (ckpt_ns thread.thread_id []) (49 ∷ []) (some entry);
}

-- the thread "u"
abbrev target : Text
target = 117 ∷ []

plain_target : has_sep target ≡ false
unfolding has_sep
plain_target = refl

other : (thread.thread_id == target) ≡ false
unfolding text_beq
other = refl

listed : thread_namespaces store one.store ck thread.thread_id ≡ ckpt_ns thread.thread_id [] ∷ []
unfolding thread_namespaces swarmstate.Disk.namespaces prefix_upper_bound
    swarmstate.Prefix.bump_last swarmstate.Prefix.bump swarmstate.Examples.Table.namespaces_of
    swarmstate.Disk.set swarmstate.Disk.run swarmstate.Examples.Table.write
    swarmstate.Prelude.Dict.insert swarmstate.Disk.clear contains swarmstate.Text.Order.lt ckpt_ns
    second_is split text_beq
listed = refl

retargeted :
    copied_value text_langgraph store options true thread.thread_id target entry
    ≡ ok (moved text_langgraph store laws options thread.thread_id target true entry)
unfolding retarget find text_beq
retargeted = rw (text_langgraph.loads-dumps (Object.metadata named)) refl

row_of_t :
    Readable text_langgraph store laws options thread.thread_id target true one.store
      (ckpt_ns thread.thread_id [])
row_of_t k v h =
    let same : entry ≡ v = ground (
      arith,
      h,
      laws.find-set fresh.store (ckpt_ns thread.thread_id []) (49 ∷ []) (some entry)
          (ckpt_ns thread.thread_id []) k,
      cleared (ckpt_ns thread.thread_id []) k,
    ) in
    rw (← same) retargeted

copy_thread-copies_example :
    CopiedKind text_langgraph store laws options thread.thread_id target plain plain_target other ck
      one.store
      (copy_thread text_langgraph store options thread.thread_id target one).1.store
    × CopiedKind text_langgraph store laws options thread.thread_id target plain plain_target other
        wr one.store
        (copy_thread text_langgraph store options thread.thread_id target one).1.store
    × CopiedKind text_langgraph store laws options thread.thread_id target plain plain_target other
        bl one.store
        (copy_thread text_langgraph store options thread.thread_id target one).1.store
    × ((n k : Text)
        → second_is target (split n) ≡ false
        → (latest_ns == n) ≡ false
        → laws.find
            (copy_thread text_langgraph store options thread.thread_id target one).1.store
            n
            k
          ≡ laws.find one.store n k)
copy_thread-copies_example =
    copy_thread-copies text_langgraph store laws options thread.thread_id target plain plain_target
      other one (rw listed (row_of_t, tt))
