-- ===== src/Saver/Listing/Limit.antt =====
-- What the limit of `list` leaves of the listing.
use Prim.Native.Nat.{max}
use swarmstate.Prelude.{
  ℕ, zero, suc, ◌+◌, ◌-◌, ◌≤◌, ◌<◌, ◌≡◌, refl, ap, sym, ◌∙◌, inl, inr, Option, none, some, List, [],
  ◌∷◌, ◌++◌, arith, if◌then◌else◌, Bool-cases, length, take, ltb, length-append,
}
use swarmstate.Prelude.Result.{Result, ok, raise}
use swarmstate.Store.{StoreLike}
use swarmstate.Text.{Text}
use swarmstate.Saver.{Config, Metadata, Langgraph, Stored, CheckpointTuple, Options}
use swarmstate.Saver.Listing
use swarmstate.Saver.Listing.{Target, list_ids, list_all, list, metadata_if_matching, list_targets}

module _ {ℓ} {A : Type ℓ} where
  take-append_within :
      (m : ℕ) (xs ys : List A) → length xs ≤ m → take m (xs ++ ys) ≡ xs ++ take (m - length xs) ys
  take-append_within m [] ys h = ap (λ i. take i ys) (omega arith)
  take-append_within zero (x ∷ xs) ys h = absurd (omega arith)
  take-append_within (suc m) (x ∷ xs) ys h =
      ap (◌∷◌ x)
        (take-append_within m xs ys (omega arith) ∙ ap (λ i. xs ++ take i ys) (omega arith))

  take-append_beyond : (m : ℕ) (xs ys : List A) → m ≤ length xs → take m (xs ++ ys) ≡ take m xs
  take-append_beyond zero xs ys h = refl
  take-append_beyond (suc m) [] ys h = absurd (omega arith)
  take-append_beyond (suc m) (x ∷ xs) ys h = ap (◌∷◌ x) (take-append_beyond m xs ys (omega arith))

  take_whole : (m : ℕ) (xs : List A) → length xs ≤ m → take m xs ≡ xs
  take_whole zero [] h = refl
  take_whole zero (x ∷ xs) h = absurd (omega arith)
  take_whole (suc m) [] h = refl
  take_whole (suc m) (x ∷ xs) h = ap (◌∷◌ x) (take_whole m xs (omega arith))

module _ {V : Type 0} (L : Langgraph V) (S : StoreLike Stored) (o : Options) where
  abbrev Yielded : Type 0
  Yielded = Listing.Yielded L S o

  -- A generator that stops behind `m` elements of another one.
  abbrev Limited : ℕ → Yielded → Yielded → Type 0
  Limited m y y' = (y.0 ≡ take m y'.0) × (y.1 ≡ (if ltb (length y'.0) m then y'.1 else ok none))

  -- The counter that the whole listing leaves.
  abbrev Counts : ℕ → Yielded → Type 0
  Counts n (ts, raise e) = Unit
  Counts n (ts, ok none) = Unit
  Counts n (ts, ok (some c)) = c ≡ n + length ts

  module _ (limit : ℕ) where
    yielding-Limited :
        (rest rest' : ℕ → Yielded) (k n : ℕ) (r : Result (CheckpointTuple V))
        → k + n ≡ limit - 1
        → ((j : ℕ) → k ≡ suc j → Limited (suc j) (rest (suc n)) (rest' (suc n)))
        → Limited
            (suc k)
            (Listing.yielding L S o (some limit) rest n r)
            (Listing.yielding L S o none rest' n r)
    yielding-Limited rest rest' k n (raise e) h more = ground arith
    yielding-Limited rest rest' zero n (ok t) h more = ground arith
    yielding-Limited rest rest' (suc k) n (ok t) h more =
        ground (arith, (more k refl).0, (more k refl).1)

    checked-Limited :
        (s : S.State) (target : Target) (id : Text) (rest rest' : ℕ → Yielded) (k n : ℕ)
        (entry : Option Stored) (r : Result (Option (Metadata V)))
        → k + n ≡ limit - 1
        → Limited (suc k) (rest n) (rest' n)
        → ((j : ℕ) → k ≡ suc j → Limited (suc j) (rest (suc n)) (rest' (suc n)))
        → Limited
            (suc k)
            (Listing.checked L S o s target id (some limit) rest n entry r)
            (Listing.checked L S o s target id none rest' n entry r)
    checked-Limited s target id rest rest' k n entry (raise e) h here more = ground arith
    checked-Limited s target id rest rest' k n entry (ok none) h here more = here
    checked-Limited s target id rest rest' k n entry (ok (some m)) h here more =
        yielding-Limited rest rest' k n _ h more

    list_ids-Limited :
        (s : S.State) (target : Target) (filter : Option (Metadata V)) (before : Option Text)
        (ids : List Text) (k n : ℕ)
        → k + n ≡ limit - 1
        → Limited
            (suc k)
            (list_ids L S o s target filter before (some limit) ids n)
            (list_ids L S o s target filter before none ids n)
    unfolding list_ids
    list_ids-Limited s target filter before [] k n h = ground arith
    list_ids-Limited s target filter before (id ∷ ids) k n h =
        elim (Bool-cases (Listing.skips L S o before id)) [
          | inl e ↦ rw e (list_ids-Limited s target filter before ids k n h)
          | inr e ↦ rw e (
              checked-Limited s target id (list_ids L S o s target filter before (some limit) ids)
                (list_ids L S o s target filter before none ids) k n (S.get s target.2 id none)
                (metadata_if_matching L S o (S.get s target.2 id none) filter) h
                (list_ids-Limited s target filter before ids k n h)
                (λ j q. list_ids-Limited s target filter before ids j (suc n) (omega arith)))
        ]

  yielding-Counts :
      (rest : ℕ → Yielded) (n : ℕ) (r : Result (CheckpointTuple V))
      → Counts (suc n) (rest (suc n))
      → Counts n (Listing.yielding L S o none rest n r)
  yielding-Counts rest n (raise e) h = tt
  yielding-Counts rest n (ok t) h = longer (rest (suc n)) h
    where
      longer : (y : Yielded) → Counts (suc n) y → Counts n (t ∷ y.0, y.1)
      longer (ts, raise e) h = tt
      longer (ts, ok none) h = tt
      longer (ts, ok (some c)) h = omega arith

  checked-Counts :
      (s : S.State) (target : Target) (id : Text) (rest : ℕ → Yielded) (n : ℕ)
      (entry : Option Stored) (r : Result (Option (Metadata V)))
      → Counts n (rest n)
      → Counts (suc n) (rest (suc n))
      → Counts n (Listing.checked L S o s target id none rest n entry r)
  checked-Counts s target id rest n entry (raise e) h h' = tt
  checked-Counts s target id rest n entry (ok none) h h' = h
  checked-Counts s target id rest n entry (ok (some m)) h h' = yielding-Counts rest n _ h'

  list_ids-Counts :
      (s : S.State) (target : Target) (filter : Option (Metadata V)) (before : Option Text)
      (ids : List Text) (n : ℕ)
      → Counts n (list_ids L S o s target filter before none ids n)
  unfolding list_ids
  list_ids-Counts s target filter before [] n = omega arith
  list_ids-Counts s target filter before (id ∷ ids) n =
      elim (Bool-cases (Listing.skips L S o before id)) [
        | inl e ↦ rw e (list_ids-Counts s target filter before ids n)
        | inr e ↦ rw e (
            checked-Counts s target id (list_ids L S o s target filter before none ids) n
              (S.get s target.2 id none)
              (metadata_if_matching L S o (S.get s target.2 id none) filter)
              (list_ids-Counts s target filter before ids n)
              (list_ids-Counts s target filter before ids (suc n)))
      ]

  -- What goes on behind a listing that is at its end.
  behind :
      (limit k n c : ℕ) (ts' : List (CheckpointTuple V)) (rest rest' : ℕ → Yielded)
      → k + n ≡ limit - 1
      → c ≡ n + length ts'
      → length ts' < suc k
      → ((j c : ℕ) → j + c ≡ limit - 1 → Limited (suc j) (rest c) (rest' c))
      → Limited (suc k) (ts' ++ (rest c).0, (rest c).1) (ts' ++ (rest' c).0, (rest' c).1)
  behind limit k n c ts' rest rest' h count within more =
      let left : suc (k - length ts') ≡ suc k - length ts' = omega arith in
      let (p, q) = more (k - length ts') c (omega arith) in
      (
        ap (λ ys. ts' ++ ys) p
            ∙ ap (λ i. ts' ++ take i (rest' c).0) left
            ∙ sym (take-append_within (suc k) ts' (rest' c).0 (omega arith)),
        ground (arith, q, length-append ts' (rest' c).0),
      )

  afterwards-Limited :
      (limit : ℕ) (y y' : Yielded) (rest rest' : ℕ → Yielded) (k n : ℕ)
      → k + n ≡ limit - 1
      → Limited (suc k) y y'
      → Counts n y'
      → ((j c : ℕ) → j + c ≡ limit - 1 → Limited (suc j) (rest c) (rest' c))
      → Limited (suc k) (Listing.afterwards L S o y rest) (Listing.afterwards L S o y' rest')
  afterwards-Limited limit (ts, e) (ts', raise e') rest rest' k n h (p, q) count more =
      elim (Bool-cases (ltb (length ts') (suc k))) [
        | inl b ↦ rw (q, b) (p, refl)
        | inr b ↦ rw (q, b) (p, refl)
      ]
  afterwards-Limited limit (ts, e) (ts', ok none) rest rest' k n h (p, q) count more =
      elim (Bool-cases (ltb (length ts') (suc k))) [
        | inl b ↦ rw (q, b) (p, refl)
        | inr b ↦ rw (q, b) (p, refl)
      ]
  afterwards-Limited limit (ts, e) (ts', ok (some c)) rest rest' k n h (p, q) count more =
      elim (Bool-cases (ltb (length ts') (suc k))) [
        | inl b ↦
            rw (q, b, p, take_whole (suc k) ts' (ground arith))
              (behind limit k n c ts' rest rest' h count (ground arith) more)
        | inr b ↦
            rw (q, b)
              (
                p ∙ sym (take-append_beyond (suc k) ts' (rest' c).0 (ground arith)),
                ground (arith, length-append ts' (rest' c).0),
              )
      ]

  list_all-Limited :
      (limit : ℕ) (s : S.State) (want_id : Option Text) (filter : Option (Metadata V))
      (before : Option Text) (targets : List Target) (k n : ℕ)
      → k + n ≡ limit - 1
      → Limited
          (suc k)
          (list_all L S o s want_id filter before (some limit) targets n)
          (list_all L S o s want_id filter before none targets n)
  unfolding list_all
  list_all-Limited limit s want_id filter before [] k n h = ground arith
  list_all-Limited limit s want_id filter before (target ∷ targets) k n h =
      let ids = Listing.ids_of L S o s want_id target.2 in
      afterwards-Limited limit (list_ids L S o s target filter before (some limit) ids n)
        (list_ids L S o s target filter before none ids n)
        (list_all L S o s want_id filter before (some limit) targets)
        (list_all L S o s want_id filter before none targets) k n h
        (list_ids-Limited limit s target filter before ids k n h)
        (list_ids-Counts s target filter before ids n)
        (λ j c q. list_all-Limited limit s want_id filter before targets j c q)

  -- With a limit, `list` yields the first checkpoints that it yields without one, as many as the
  -- limit and at least one: a limit of 0 yields one too. It ends as the whole listing does, with
  -- its exception if it raises, where that is shorter than the limit, and else it returns, whatever
  -- would raise later.
  pub list-take :
      (s : S.State) (config : Option Config) (filter : Option (Metadata V)) (before : Option Config)
      (limit : ℕ)
      → ((list L S o s config filter before (some limit)).0
          ≡ take (max 1 limit) (list L S o s config filter before none).0)
        × ((list L S o s config filter before (some limit)).1 ≡ (
            if ltb (length (list L S o s config filter before none).0) (max 1 limit)
            then (list L S o s config filter before none).1
            else ok none))
  unfolding list
  list-take s config filter before limit =
      let bound : suc (limit - 1) ≡ max 1 limit = omega arith in
      rw (← bound) (
        list_all-Limited limit s (Listing.id_of L S o config) filter (Listing.id_of L S o before)
          (list_targets L S o s config) (limit - 1) 0 (omega arith))
