-- ===== src/Saver/Threads/Rows.antt =====
-- python/swarmstate/integrations/langgraph.py: what a round of `copy_thread` writes.
use swarmstate.Prelude.{
  ◌≡◌, refl, ap, ◌∙◌, Bool, true, false, ◌&&◌, Option, none, some, List, [], ◌∷◌, map, arith,
  get_or, or_else, contains, ◌==◌, eq_iff, if◌then◌else◌, Bool-cases, Option-cases, inl, inr,
}
use swarmstate.Prelude.Result.{Result, ok, raise}
use swarmstate.Store.{StoreLike, IsStore, written}
use swarmstate.Text.{Text, text_eq}
use swarmstate.Saver.{Langgraph, Stored, Options}
use swarmstate.Saver.Names.{split}
use swarmstate.Saver.Names.Parts.{moved_to, second_is-parts}
use swarmstate.Saver.Access.{second_is, get_many, set_many, find-set_many}
use swarmstate.Saver.Threads.Manage.{renamed, copied_value, copied_rows, rows_of_ns, wrote}

or_else-none :
    {A : Type 0} (w : Option A) (b : Bool) (a : Option A)
    → or_else w (if b && false then a else none) ≡ w
or_else-none none true a = refl
or_else-none none false a = refl
or_else-none (some x) b a = refl

module _ {V : Type 0} (L : Langgraph V) (S : StoreLike Stored) (laws : IsStore S) (o : Options)
    (source target : Text) where
  -- The value that is written to the target for one of the source.
  abbrev pub value_of : Result Stored → Stored → Stored
  value_of (raise e) v = v
  value_of (ok w) v = w

  abbrev pub moved : Bool → Stored → Stored
  moved is_ck v = value_of (copied_value L S o is_ck source target v) v

  -- What is written to the target for an entry of the source: nothing for a stored `None`.
  abbrev pub copy_of : Bool → Option (Option Stored) → Option (Option Stored)
  copy_of is_ck none = none
  copy_of is_ck (some none) = none
  copy_of is_ck (some (some v)) = some (some (moved is_ck v))

  -- The metadata of the rows in a namespace can be read.
  abbrev pub Readable : Bool → S.State → Text → Type 0
  Readable is_ck s ns =
      (k : Text) (v : Stored)
      → laws.find s ns k ≡ some (some v)
      → copied_value L S o is_ck source target v ≡ ok (moved is_ck v)

  -- A key with nothing to copy, and one with a value.
  skip :
      (is_ck : Bool) (s : S.State) (ns to j : Text) (ks : List Text) (w : Option (Option Stored))
      (n k : Text)
      → copy_of is_ck (laws.find s ns j) ≡ none
      → w ≡ (if to == n && contains k ks then copy_of is_ck (laws.find s ns k) else none)
      → w ≡ (if to == n && contains k (j ∷ ks) then copy_of is_ck (laws.find s ns k) else none)
  unfolding contains
  skip is_ck s ns to j ks w n k e h = elim (Bool-cases (j == k)) [
    | inl q ↦
        rw q (ground (arith, h, e, ap (λ t. copy_of is_ck (laws.find s ns t)) ((eq_iff j k).0 q)))
    | inr q ↦ rw q h
  ]

  take_in :
      (is_ck : Bool) (s : S.State) (ns to j : Text) (ks : List Text) (v : Stored)
      (w : Option (Option Stored)) (n k : Text)
      → copy_of is_ck (laws.find s ns j) ≡ some (some (moved is_ck v))
      → w ≡ (if to == n && contains k ks then copy_of is_ck (laws.find s ns k) else none)
      → or_else w (if to == n && j == k then some (some (moved is_ck v)) else none)
        ≡ (if to == n && contains k (j ∷ ks) then copy_of is_ck (laws.find s ns k) else none)
  unfolding contains
  take_in is_ck s ns to j ks v w n k e h = elim (Bool-cases (j == k)) [
    | inl q ↦
        rw q (ground (arith, h, e, ap (λ t. copy_of is_ck (laws.find s ns t)) ((eq_iff j k).0 q)))
    | inr q ↦ rw q (or_else-none w (to == n) (some (some (moved is_ck v))) ∙ h)
  ]

  written-copied_rows :
      (is_ck : Bool) (s : S.State) (ns to : Text) (ks : List Text)
      → Readable is_ck s ns
      → (rows : List (Text × Text × Option Stored)) × (copied_rows L S o is_ck source target to ks
            (map (λ k. get_or (laws.find s ns k) none) ks)
          ≡ ok rows)
        × ((n k : Text)
            → written rows n k
              ≡ (if to == n && contains k ks then copy_of is_ck (laws.find s ns k) else none))
  unfolding copied_rows written contains
  written-copied_rows is_ck s ns to [] r = ([], refl, λ n k. ground arith)
  written-copied_rows is_ck s ns to (j ∷ ks) r =
      let (rows, p, w) = written-copied_rows is_ck s ns to ks r in
      elim (Option-cases (laws.find s ns j)) [
        | inl e ↦ (
          rows,
          rw e p,
          λ n k. skip is_ck s ns to j ks (written rows n k) n k (rw e refl) (w n k),
        )
        | inr (none, e) ↦ (
          rows,
          rw e p,
          λ n k. skip is_ck s ns to j ks (written rows n k) n k (rw e refl) (w n k),
        )
        | inr (some v, e) ↦ (
          (to, j, some (moved is_ck v)) ∷ rows,
          rw e (rw (r j v e) (rw p refl)),
          λ n k. take_in is_ck s ns to j ks v (written rows n k) n k (rw e refl) (w n k),
        )
      ]

  values_at :
      (s : S.State) (ns : Text) (ks : List Text)
      → map (λ (p : Text × Text). get_or (laws.find s p.0 p.1) none) (map (λ k. (ns, k)) ks)
        ≡ map (λ k. get_or (laws.find s ns k) none) ks
  values_at s ns [] = refl
  values_at s ns (k ∷ ks) = ap (◌∷◌ (get_or (laws.find s ns k) none)) (values_at s ns ks)

  rows_of_ns_lem :
      (is_ck : Bool) (s : S.State) (ns : Text)
      → second_is source (split ns) ≡ true
      → rows_of_ns L S o s is_ck source target ns
        ≡ copied_rows L S o is_ck source target
            (moved_to target ns)
            (S.keys s ns none)
            (map (λ k. get_or (laws.find s ns k) none) (S.keys s ns none))
  unfolding renamed get_many
  rows_of_ns_lem is_ck s ns q =
      let (p, ps, e) = second_is-parts source (split ns) q in
      rw (e, laws.get_many_lem, values_at s ns (S.keys s ns none)) refl

  -- One round of the loop: the entries of a namespace go to the same name in the target.
  pub find-wrote :
      (is_ck : Bool) (s : S.State) (ns : Text)
      → second_is source (split ns) ≡ true
      → Readable is_ck s ns
      → (s' : S.State) × (wrote L S o s (rows_of_ns L S o s is_ck source target ns) ≡ (ok tt, s'))
        × ((n k : Text)
            → laws.find s' n k ≡ (
                if moved_to target ns == n
                then or_else (copy_of is_ck (laws.find s ns k)) (laws.find s n k)
                else laws.find s n k))
  find-wrote is_ck s ns q r =
      let (rows, c, w) = written-copied_rows is_ck s ns (moved_to target ns) (S.keys s ns none) r in
      (
        set_many S s rows,
        ap (wrote L S o s) (rows_of_ns_lem is_ck s ns q ∙ c),
        λ n k.
            find-set_many S laws s rows n k
            ∙ rw (w n k) (ground (arith, laws.contains-keys s ns k)),
      )
