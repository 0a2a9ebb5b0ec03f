-- ===== src/Saver/Writes/Twins.antt =====
-- The two ways to store pending writes: the sync one asks for each key, the async one reads the
-- keys of the task once.
use swarmstate.Prelude.{
  ℕ, ◌+◌, ◌≡◌, refl, Bool, true, false, Option, some, List, [], ◌∷◌, ◌++◌, arith, contains,
  Bool-cases, Option-cases, ◌⊎◌, inl, inr, or_else, none, if◌then◌else◌, is_nil,
}
use swarmstate.Prelude.Decimal.{ℤ}
use swarmstate.Prelude.Result.{Error, ok, raise}
use swarmstate.Store.{StoreLike, IsStore}
use swarmstate.Prefix.{is_text}
use swarmstate.Text.{Text, text_eq}
use swarmstate.Saver.{Config, ns_of, Langgraph, value, Stored, write, Saver}
use swarmstate.Saver.Names.{sep, writes_ns}
use swarmstate.Saver.Access.{set_many}
use swarmstate.Saver.Writes.{
  is_positional, write_key, rows_from, batch_from, put_writes, any_positional, fresh_rows,
  aput_writes,
}
use swarmstate.Saver.Writes.Keys.{is_text-write_key, starts_with-write_key}

-- The exception of the first write that cannot be serialized.
unfoldable pub first_refused : {V : Type 0} → Langgraph V → List (Text × V) → Option Error
first_refused L [] = none
first_refused L ((channel, v) ∷ writes) = or_else (L.refuses v) (first_refused L writes)

module _ {V : Type 0} (L : Langgraph V) (S : StoreLike Stored) (laws : IsStore S) where
  -- The keys of the task tell which of its writes are stored.
  stored_keys :
      (s : S.State) (ns task_id : Text) (i : ℤ)
      → is_text task_id ≡ true
      → contains (write_key task_id i) (S.keys s ns (some (task_id ++ (sep ∷ []))))
        ≡ S.has s ns (write_key task_id i)
  stored_keys s ns task_id i h = ground (
    arith,
    laws.contains-keys_prefix s ns (task_id ++ (sep ∷ [])) (write_key task_id i)
        (is_text-write_key task_id i h),
    starts_with-write_key task_id i,
    laws.has_lem s ns (write_key task_id i),
  )

  -- What the two ways make of the same writes, if none of them is refused.
  abbrev Same :
      S.State → Text → Text → Text → ℕ → List (Text × V) → List (Text × Stored × Bool) → Type 0
  Same s ns task_id task_path idx writes rows =
      (batch_from L S s ns task_id task_path idx writes
        ≡ ok (fresh_rows L S ns (S.keys s ns (some (task_id ++ (sep ∷ [])))) rows))
      × (any_positional L S rows ≡ false
          → batch_from L S s ns task_id task_path idx writes ≡ ok (fresh_rows L S ns [] rows))

  abbrev row : Text → Text → ℕ → Text → V → Text × Stored × Bool
  row task_id task_path idx channel v = (
    write_key task_id (L.writes_idx channel idx),
    write task_id channel (L.dumps_typed (value v)) task_path,
    is_positional (L.writes_idx channel idx),
  )

  same_rows :
      (s : S.State) (ns task_id task_path : Text) (idx : ℕ) (writes : List (Text × V))
      → is_text task_id ≡ true
      → ((e : Error) × (first_refused L writes ≡ some e)
          × (rows_from L task_id task_path idx writes ≡ raise e))
        ⊎ ((rows : List (Text × Stored × Bool)) × (rows_from L task_id task_path idx writes
              ≡ ok rows)
            × Same s ns task_id task_path idx writes rows)
  unfolding fresh_rows rows_from batch_from any_positional first_refused
  same_rows s ns task_id task_path idx [] h = inr ([], refl, (refl, λ p. refl))
  same_rows s ns task_id task_path idx ((channel, v) ∷ writes) h =
      elim (Option-cases (L.refuses v)) [
        | inr (e, r) ↦ inl (e, rw r refl, rw r refl)
        | inl r ↦ elim (same_rows s ns task_id task_path (idx + 1) writes h) [
          | inl (e, f, w) ↦ inl (e, rw r f, rw (r, w) refl)
          | inr (rows, w, (all, special)) ↦ inr (
            row task_id task_path idx channel v ∷ rows,
            rw (r, w) refl,
            (
              rw (r, all) (ground (arith, stored_keys s ns task_id (L.writes_idx channel idx) h)),
              λ p. rw (r, special (ground arith)) (ground arith),
            ),
          )
        ]
      ]

  same_batch :
      (s : S.State) (ns task_id task_path : Text) (writes : List (Text × V))
      (rows : List (Text × Stored × Bool))
      → Same s ns task_id task_path 0 writes rows
      → batch_from L S s ns task_id task_path 0 writes
        ≡ ok (
            fresh_rows L S ns
              (if any_positional L S rows then S.keys s ns (some (task_id ++ (sep ∷ []))) else [])
              rows)
  same_batch s ns task_id task_path writes rows (all, special) =
      elim (Bool-cases (any_positional L S rows)) [ inl e ↦ rw e all | inr e ↦ rw e (special e) ]

  flush :
      (s : S.State) (rows : List (Text × Text × Option Stored))
      → (if is_nil rows then s else S.set_many s rows) ≡ set_many S s rows
  unfolding set_many
  flush s [] = refl
  flush s (row ∷ rows) = refl

  -- For a task id that UTF-8 can store, the async way to store pending writes and the sync one do
  -- the same to every saver, and return or raise the same; or a write cannot be serialized, and
  -- then the async one raises the exception of the first such write and leaves the saver as it is.
  pub aput_writes-eq-put_writes :
      (c : Config) (writes : List (Text × V)) (task_id task_path : Text) (st : Saver S)
      → is_text task_id ≡ true
      → (aput_writes L S c writes task_id task_path st
          ≡ put_writes L S c writes task_id task_path st)
        ⊎ ((e : Error) × (first_refused L writes ≡ some e)
            × (aput_writes L S c writes task_id task_path st ≡ (raise e, st)))
  unfolding aput_writes put_writes
  aput_writes-eq-put_writes c writes task_id task_path st h = elim (Option-cases c.checkpoint_id) [
    | inl e ↦ inl (rw e refl)
    | inr (id, e) ↦
        elim (same_rows st.store (writes_ns c.thread_id (ns_of c) id) task_id task_path 0 writes
          h) [
            | inl (x, f, w) ↦ inr (x, f, rw (e, w) refl)
            | inr (rows, w, same) ↦ inl (
                rw
                  (
                    e,
                    w,
                    same_batch st.store (writes_ns c.thread_id (ns_of c) id) task_id task_path
                        writes rows same,
                    flush st.store,
                  )
                  refl)
          ]
  ]
