-- ===== src/Saver/Writes/Once.antt =====
-- A positional write is stored once.
use swarmstate.Prelude.{
  ℕ, ◌+◌, ◌≡◌, refl, true, none, some, List, [], ◌∷◌, arith, is_some, ◌==◌, eq_iff, ◌∙◌, inl, inr,
  Option,
}
use swarmstate.Prelude.Decimal.{ℤ, pos, negsuc}
use swarmstate.Prelude.Result.{ok, Result-cases}
use swarmstate.Store.{StoreLike, IsStore, written}
use swarmstate.Text.{Text, text_eq}
use swarmstate.Saver.{Config, ns_of, Langgraph, Stored, Saver}
use swarmstate.Saver.Names.{writes_ns}
use swarmstate.Saver.Access.{find-set_many}
use swarmstate.Saver.Writes.{write_key, is_positional, batch_from, put_writes}
use swarmstate.Saver.Writes.Keys.{write_key-apart}

-- The key of a positional write is not that of a special one.
positional_of_key :
    (task_id : Text) (i : ℤ) (j : ℕ)
    → (write_key task_id i == write_key task_id (pos j)) ≡ true
    → is_positional i ≡ true
positional_of_key task_id (pos i) j h = refl
positional_of_key task_id (negsuc i) j h = absurd (ground (arith, write_key-apart task_id i j))

module _ {V : Type 0} (L : Langgraph V) (S : StoreLike Stored) (laws : IsStore S) where
  not_rewritten :
      (s : S.State) (ns task_id task_path : Text) (idx : ℕ) (writes : List (Text × V)) (j : ℕ)
      (batch : List (Text × Text × Option Stored))
      → S.has s ns (write_key task_id (pos j)) ≡ true
      → batch_from L S s ns task_id task_path idx writes ≡ ok batch
      → written batch ns (write_key task_id (pos j)) ≡ none
  unfolding batch_from written
  not_rewritten s ns task_id task_path idx [] j batch h b = ground arith
  not_rewritten s ns task_id task_path idx ((channel, v) ∷ writes) j batch h b =
      elim (Result-cases (batch_from L S s ns task_id task_path (idx + 1) writes)) [
        | inl (e, r) ↦ ground (arith, r)
        | inr (rest, r) ↦ ground (
          arith,
          r,
          not_rewritten s ns task_id task_path (idx + 1) writes j rest h r,
          positional_of_key task_id (L.writes_idx channel idx) j,
          eq_iff (write_key task_id (L.writes_idx channel idx)) (write_key task_id (pos j)),
        )
      ]

  -- A positional write of a task that is stored stays as it is, whatever the task writes to the
  -- same checkpoint again.
  pub put_writes-once :
      (c : Config) (id : Text) (writes : List (Text × V)) (task_id task_path : Text) (st : Saver S)
      (j : ℕ)
      → c.checkpoint_id ≡ some id
      → is_some
          (laws.find st.store (writes_ns c.thread_id (ns_of c) id) (write_key task_id (pos j)))
        ≡ true
      → laws.find
          (put_writes L S c writes task_id task_path st).1.store
          (writes_ns c.thread_id (ns_of c) id)
          (write_key task_id (pos j))
        ≡ laws.find st.store (writes_ns c.thread_id (ns_of c) id) (write_key task_id (pos j))
  unfolding put_writes
  put_writes-once c id writes task_id task_path st j e stored =
      elim (Result-cases
        (batch_from L S st.store (writes_ns c.thread_id (ns_of c) id) task_id task_path 0 writes)) [
          | inl (x, r) ↦ rw (e, r) refl
          | inr (batch, r) ↦
              rw (e, r)
                (find-set_many S laws st.store batch (writes_ns c.thread_id (ns_of c) id)
                    (write_key task_id (pos j))
                  ∙ rw
                      (not_rewritten st.store (writes_ns c.thread_id (ns_of c) id) task_id task_path
                        0 writes j batch (laws.has_lem st.store _ _ ∙ stored) r)
                      refl)
        ]
