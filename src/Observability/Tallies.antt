-- ===== src/Observability/Tallies.antt =====
-- python/swarmstate/observability.py: what an `InMemoryMetrics` holds after any use.
use swarmstate.Prelude.{
  ℕ, zero, suc, ◌+◌, ◌<◌, ◌≡◌, ◌∙◌, ap, refl, arith, Bool, false, Option, none, some, List, [], ◌∷◌,
  ◌++◌, length, inl, inr, ◌||◌, get_or, if◌then◌else◌, ◌==◌, is_nil, Bool-cases, Option-cases, ltb,
  contains, IsDistinct,
}
use swarmstate.Prelude.Dict.{Dict, find, keys, find-insert, contains-keys}
use swarmstate.Prelude.Group.{append_at}
use swarmstate.Prelude.Result.{ok}
use swarmstate.Prelude.Sort.{sort, place}
use swarmstate.Text.{Text, text_eq}
use swarmstate.Observability.{Floats, InMemoryMetrics, Stats, fresh, item, measure, reset}

-- One call of `record`, and a use of the sink: such a call, or `reset`.
pub record Call (F : Type 0) : Type 0 where
  pub op : Text
  pub duration_s : F
  pub thread_id : Text
  pub succeeded : Bool

pub data Use (F : Type 0) : Type 0 where
  recorded : Call F → Use F
  cleared : Use F

module _ {F : Type 0} (M : Floats F) where
  -- The sink after some uses.
  unfoldable pub used : List (Use F) → InMemoryMetrics F → InMemoryMetrics F
  used [] m = m
  used (Use.recorded c ∷ uses) m = used uses (measure M c.op c.duration_s c.succeeded m)
  used (Use.cleared ∷ uses) m = used uses (reset M m)

  -- The calls since the last `reset`, after those in `cs`.
  unfoldable pub recent : List (Call F) → List (Use F) → List (Call F)
  recent cs [] = cs
  recent cs (Use.recorded c ∷ uses) = recent (c ∷ cs) uses
  recent cs (Use.cleared ∷ uses) = recent [] uses

-- The calls for an operation, and those of them that failed.
unfoldable pub calls : {F : Type 0} → Text → List (Call F) → ℕ
calls op [] = 0
calls op (c ∷ cs) = (if c.op == op then 1 else 0) + calls op cs

unfoldable pub failures : {F : Type 0} → Text → List (Call F) → ℕ
failures op [] = 0
failures op (c ∷ cs) = (if c.op == op then (if c.succeeded then 0 else 1) else 0) + failures op cs

-- What a summary says of an operation that was called.
abbrev pub reported : {F : Type 0} → Text → List (Call F) → Option (ℕ × ℕ)
reported op cs = if ltb 0 (calls op cs) then some (calls op cs, failures op cs) else none

module _ {F : Type 0} where
  abbrev pub counts : Stats F → ℕ × ℕ
  counts s = (s.count, s.errors)

  abbrev pub sampled : Option (List F) → ℕ
  sampled none = 0
  sampled (some ms) = length ms

  -- What a sink holds after some calls.
  pub record Tallies (m : InMemoryMetrics F) (cs : List (Call F)) : Type 0 where
    pub distinct : IsDistinct (keys m.samples)
    pub nonempty : (op : Text) (ms : List F) → find op m.samples ≡ some ms → is_nil ms ≡ false
    pub tallied : (op : Text) → sampled (find op m.samples) ≡ calls op cs
    pub failed : (op : Text) → get_or (find op m.errors) 0 ≡ failures op cs

module _ {F : Type 0} where
  find-append_at :
      (k j : Text) (v : F) (d : Dict Text (List F))
      → find j (append_at k v d)
        ≡ (if k == j then some (get_or (find k d) [] ++ v ∷ []) else find j d)
  unfolding find append_at
  find-append_at k j v [] = ground (arith, text_eq.beq_iff k j)
  find-append_at k j v ((i, vs) ∷ d) =
      ground (
        arith,
        find-append_at k j v d,
        text_eq.beq_iff i k,
        text_eq.beq_iff i j,
        text_eq.beq_iff k j,
      )

  contains-keys-append_at :
      (k j : Text) (v : F) (d : Dict Text (List F))
      → contains j (keys (append_at k v d)) ≡ (k == j || contains j (keys d))
  contains-keys-append_at k j v d =
      ground (arith, contains-keys j (append_at k v d), contains-keys j d, find-append_at k j v d)

  append_at-IsDistinct :
      (k : Text) (v : F) (d : Dict Text (List F))
      → IsDistinct (keys d)
      → IsDistinct (keys (append_at k v d))
  unfolding append_at contains
  append_at-IsDistinct k v [] h = (refl, tt)
  append_at-IsDistinct k v ((j, vs) ∷ d) h = elim (Bool-cases (j == k)) [
    | inl p ↦ rw p h
    | inr p ↦ rw p (
      ground
          (arith, contains-keys-append_at k j v d, h.0, text_eq.beq_iff j k, text_eq.beq_iff k j),
      append_at-IsDistinct k v d h.1,
    )
  ]

  length-snoc : (xs : List F) (x : F) → length (xs ++ x ∷ []) ≡ suc (length xs)
  length-snoc [] x = refl
  length-snoc (y ∷ xs) x = ap suc (length-snoc xs x)

  is_nil-snoc : (xs : List F) (x : F) → is_nil (xs ++ x ∷ []) ≡ false
  is_nil-snoc [] x = refl
  is_nil-snoc (y ∷ xs) x = refl

  length-place :
      (below : F → F → Bool) (x : F) (xs : List F) → length (place below x xs) ≡ suc (length xs)
  unfolding place
  length-place below x [] = refl
  length-place below x (y ∷ xs) = ground (arith, length-place below x xs)

  pub length-sort : (below : F → F → Bool) (xs : List F) → length (sort below xs) ≡ length xs
  unfolding sort
  length-sort below [] = refl
  length-sort below (x ∷ xs) = length-place below x (sort below xs) ∙ ap suc (length-sort below xs)

  pub item_in : (xs : List F) (i : ℕ) → i < length xs → (x : F) × (item xs i ≡ ok x)
  unfolding item
  item_in [] i h = absurd (omega arith)
  item_in (x ∷ xs) zero h = (x, refl)
  item_in (x ∷ xs) (suc i) h = item_in xs i (omega arith)

module _ {F : Type 0} (M : Floats F) where
  pub fresh-Tallies : Tallies (fresh M) []
  unfolding find calls failures
  fresh-Tallies = record {
    distinct = tt;
    nonempty = λ op ms e. absurd (ground arith);
    tallied = λ op. refl;
    failed = λ op. refl;
  }

  sampled-append_at :
      (op j : Text) (v : F) (d : Dict Text (List F))
      → sampled (find j (append_at op v d)) ≡ (if op == j then 1 else 0) + sampled (find j d)
  sampled-append_at op j v d = elim (Option-cases (find op d)) [
    | inl e ↦
        ground (arith, find-append_at op j v d, text_eq.beq_iff op j, e, ap (λ o. sampled o) e)
    | inr (vs, e) ↦
        ground (arith, find-append_at op j v d, text_eq.beq_iff op j, e, length-snoc vs v)
  ]

  measure-Tallies :
      (m : InMemoryMetrics F) (cs : List (Call F)) (c : Call F)
      → Tallies m cs
      → Tallies (measure M c.op c.duration_s c.succeeded m) (c ∷ cs)
  unfolding measure calls failures
  measure-Tallies m cs c h = record {
    distinct = append_at-IsDistinct c.op (M.milliseconds c.duration_s) m.samples h.distinct;
    nonempty = λ op ms e. ground (
      arith,
      e,
      h.nonempty op ms,
      find-append_at c.op op (M.milliseconds c.duration_s) m.samples,
      is_nil-snoc (get_or (find c.op m.samples) []) (M.milliseconds c.duration_s),
    );
    tallied = λ op.
        ground
          (arith, h.tallied op, sampled-append_at c.op op (M.milliseconds c.duration_s) m.samples);
    failed = λ op. ground (
      arith,
      h.failed op,
      h.failed c.op,
      find-insert c.op op (get_or (find c.op m.errors) 0 + 1) m.errors,
      text_eq.beq_iff c.op op,
    );
  }

  pub used-Tallies :
      (uses : List (Use F)) (m : InMemoryMetrics F) (cs : List (Call F))
      → Tallies m cs
      → Tallies (used M uses m) (recent M cs uses)
  unfolding used recent reset
  used-Tallies [] m cs h = h
  used-Tallies (Use.recorded c ∷ uses) m cs h =
      used-Tallies uses (measure M c.op c.duration_s c.succeeded m) (c ∷ cs)
        (measure-Tallies m cs c h)
  used-Tallies (Use.cleared ∷ uses) m cs h = used-Tallies uses (fresh M) [] fresh-Tallies
