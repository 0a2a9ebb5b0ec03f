-- ===== src/Saver/Threads.antt =====
-- python/swarmstate/integrations/langgraph.py: the operations on whole threads.
pub mod Erase
pub mod Manage
pub mod Rows
pub mod Copied
pub mod Copies
use swarmstate.Prelude.{Bool, not, List, [], ◌∷◌, ◌++◌, map, filter, some, ◌==◌, if◌then◌else◌}
use swarmstate.Prelude.Dict.{Dict}
use swarmstate.Store.{StoreLike}
use swarmstate.Text.{Text, text_eq}
use swarmstate.Saver.{Stored, Options, Saver}
use swarmstate.Saver.Names.{sep, ck, wr, bl, latest_ns}
use swarmstate.Saver.Access.{thread_namespaces, delete_many, delete_namespace}

-- the loop that drops the hints of a thread
unfoldable pub without_thread : {B : Type 0} → Text → Dict (Text × Text) B → Dict (Text × Text) B
without_thread thread_id hints = filter (λ i. not (i.0.0 == thread_id)) hints

module _ (S : StoreLike Stored) where
  -- `for ns in ...: self._delete_namespace(ns)`
  unfoldable pub delete_namespaces : S.State → List Text → S.State
  delete_namespaces s [] = s
  delete_namespaces s (ns ∷ nss) = delete_namespaces (delete_namespace S s ns) nss

  -- the round of the loop for a kind
  unfoldable pub delete_kind : Text → S.State → Text → S.State
  delete_kind thread_id s kind = delete_namespaces s (thread_namespaces S s kind thread_id)

  -- the pointers of the thread
  unfoldable pub delete_pointers : Text → S.State → S.State
  delete_pointers thread_id s =
      delete_many S s
        (map (λ k. (latest_ns, k)) (S.keys s latest_ns (some (thread_id ++ (sep ∷ [])))))

  unfoldable pub delete_thread : Options → Text → Saver S → Saver S
  delete_thread o thread_id st =
      let s =
        delete_kind thread_id (delete_kind thread_id (delete_kind thread_id st.store ck) wr) bl in
      record {
        store = (if not o.store_indexes_max_key then delete_pointers thread_id s else s);
        max_seen = without_thread thread_id st.max_seen;
        prune_floor = without_thread thread_id st.prune_floor;
      }
