-- ===== src/Disk/Totals.antt =====
-- Where the statements succeed, so do the methods, and their results count the rows.
use mathlib.Core.Path.{fun_ext}
use swarmstate.Prelude.{
  ℕ, ◌+◌, ◌≡◌, refl, Bool, false, not, ◌&&◌, Option, some, List, [], ◌∷◌, map, arith, if◌then◌else◌,
  ◌==◌, is_some,
}
use swarmstate.Prelude.Result.{Result, ok, raise}
use swarmstate.Text.{Text, text_eq}
use swarmstate.Store.{existing}
use swarmstate.Snapshot.{Bytes}
use swarmstate.Disk
use swarmstate.Disk.Writes.{Atomic}
use swarmstate.Disk.Statements.{
  Codec, Sqlite, IsSqlite, Reliable, is_insert, Write, replace_row, delete_row,
}

-- A step that returns.
abbrev pub Succeeds : {B S : Type 0} → Result B × S → Type 0
Succeeds (ok b, d) = Unit
Succeeds (raise e, d) = ⊥

abbrev AllSafe : List Write → Type 0
AllSafe [] = Unit
AllSafe (w ∷ ws) = (is_insert w ≡ false) × AllSafe ws

module _ {A : Type 0} (D : Sqlite) (C : Codec A) (laws : IsSqlite D) (reliable : Reliable D) where
  pub select_of_Atomic :
      {B : Type 0} (d : D.Db) (at : Text → Text → Option Bytes) (r : Result B × D.Db)
      → Atomic D d at r
      → Succeeds r
      → D.select_v r.1 ≡ at
  select_of_Atomic d at (ok b, d') h s = h
  select_of_Atomic d at (raise e, d') h s = absurd s

  pub run-Succeeds : (w : Write) (d : D.Db) → is_insert w ≡ false → Succeeds (Disk.run D C w d)
  unfolding Disk.run
  run-Succeeds w d h = let (c, d', e) = reliable.succeeds d w h in rw e tt

  add_count-Succeeds :
      (c : ℕ) (r : Result ℕ × D.Db) → Succeeds r → Succeeds (Disk.add_count D C c r)
  add_count-Succeeds c (ok n, d) h = tt
  add_count-Succeeds c (raise e, d) h = h

  executemany-Succeeds :
      (ws : List Write) (d : D.Db) → AllSafe ws → Succeeds (Disk.executemany D C ws d)
  unfolding Disk.executemany
  executemany-Succeeds [] d h = tt
  executemany-Succeeds (w ∷ ws) d h =
      let (c, d', e) = reliable.succeeds d w h.0 in
      rw (e, Succeeds) (add_count-Succeeds c _ (executemany-Succeeds ws d' h.1))

  finish-Succeeds : {B : Type 0} (r : Result B × D.Db) → Succeeds r → Succeeds (Disk.finish D C r)
  finish-Succeeds (ok b, d) h = let (d', e) = reliable.commits d in rw e tt
  finish-Succeeds (raise e, d) h = absurd h

  pub done-Succeeds : (r : Result ℕ × D.Db) → Succeeds r → Succeeds (Disk.done D C r)
  done-Succeeds (ok n, d) h = tt
  done-Succeeds (raise e, d) h = h

  replaces-AllSafe :
      (items : List (Text × Text × Option A))
      → AllSafe (map (λ i. replace_row i.0 i.1 (C.pack i.2)) items)
  replaces-AllSafe [] = tt
  replaces-AllSafe (i ∷ items) = (refl, replaces-AllSafe items)

  deletes-AllSafe : (pairs : List (Text × Text)) → AllSafe (map (λ p. delete_row p.0 p.1) pairs)
  deletes-AllSafe [] = tt
  deletes-AllSafe (p ∷ pairs) = (refl, deletes-AllSafe pairs)

  pub set_many-Succeeds :
      (items : List (Text × Text × Option A)) (d : D.Db) → Succeeds (Disk.set_many D C items d)
  unfolding Disk.set_many Disk.transaction
  set_many-Succeeds [] d = tt
  set_many-Succeeds (i ∷ items) d =
      let (d', e) = reliable.begins d in
      rw (e, Succeeds)
        (done-Succeeds _
          (finish-Succeeds _ (executemany-Succeeds _ d' (replaces-AllSafe (i ∷ items)))))

  -- A result that is a number with a given value, if there is one.
  abbrev pub IsCount : ℕ → Result ℕ × D.Db → Type 0
  IsCount c (ok n, d) = n ≡ c
  IsCount c (raise e, d) = ⊥

  add_count-IsCount :
      (a b c : ℕ) (r : Result ℕ × D.Db)
      → a ≡ b
      → IsCount c r
      → IsCount (b + c) (Disk.add_count D C a r)
  add_count-IsCount a b c (ok n, d) e h = omega arith
  add_count-IsCount a b c (raise x, d) e h = h

  abbrev present : D.Db → Text → Text → Bool
  present d n k = is_some (D.select_v d n k)

  present_lem :
      (d d' : D.Db) (c : ℕ) (n k : Text)
      → D.execute d (delete_row n k) ≡ some (c, d')
      → present d' ≡ (λ n' k'. not (n == n' && k == k') && present d n' k')
  present_lem d d' c n k e =
      fun_ext
        λ n'. fun_ext λ k'. ground (arith, laws.execute_effect d (delete_row n k) c d' e n' k')

  deletes-IsCount :
      (pairs : List (Text × Text)) (d : D.Db)
      → IsCount
          (existing (present d) pairs)
          (Disk.executemany D C (map (λ p. delete_row p.0 p.1) pairs) d)
  unfolding Disk.executemany existing
  deletes-IsCount [] d = refl
  deletes-IsCount ((n, k) ∷ pairs) d =
      let (c, d', e) = reliable.succeeds d (delete_row n k) refl in
      rw (e, IsCount)
        (add_count-IsCount c (if present d n k then 1 else 0)
          (existing (λ n' k'. not (n == n' && k == k') && present d n' k') pairs) _
          (laws.execute_count d (delete_row n k) c d' e)
          (rw (present_lem d d' c n k e) at (deletes-IsCount pairs d')))

  finish-IsCount : (c : ℕ) (r : Result ℕ × D.Db) → IsCount c r → IsCount c (Disk.finish D C r)
  finish-IsCount c (ok b, d) h = let (d', e) = reliable.commits d in rw e h
  finish-IsCount c (raise e, d) h = absurd h

  -- On a database on which no statement but an insert fails, `delete_many` returns how many of the
  -- pairs were there, a pair that is listed twice counted once.
  pub delete_many-IsCount :
      (pairs : List (Text × Text)) (d : D.Db)
      → IsCount (existing (present d) pairs) (Disk.delete_many D C pairs d)
  unfolding Disk.delete_many Disk.transaction existing
  delete_many-IsCount [] d = refl
  delete_many-IsCount (p ∷ pairs) d =
      let (d', e) = reliable.begins d in
      rw (e, IsCount)
        (finish-IsCount _ _ (rw (laws.begin_lem d d' e).0 at (deletes-IsCount (p ∷ pairs) d')))

  pub Succeeds-of_IsCount : (c : ℕ) (r : Result ℕ × D.Db) → IsCount c r → Succeeds r
  Succeeds-of_IsCount c (ok n, d) h = tt
  Succeeds-of_IsCount c (raise e, d) h = h
