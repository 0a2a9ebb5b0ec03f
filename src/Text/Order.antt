-- ===== src/Text/Order.antt =====
-- The order of Python's `str`: lexicographic by code point.
use swarmstate.Prelude.{
  ◌≡◌, refl, Bool, true, false, not, List, [], ◌∷◌, arith, nat_eq, ltb, if◌then◌else◌, Option, none,
  some, Option-cases, inl, inr, contains, ◌==◌, eq_iff, Bool-cases,
}
use swarmstate.Text.Equality.{Text, text_eq}

-- `s < t`
unfoldable pub lt : Text → Text → Bool
lt s [] = false
lt [] (b ∷ t) = true
lt (a ∷ s) (b ∷ t) = if nat_eq a b then lt s t else ltb a b

-- `s <= t`
abbrev pub le : Text → Text → Bool
le s t = not (lt t s)

pub lt_irrefl : (s : Text) → lt s s ≡ false
unfolding lt
lt_irrefl [] = refl
lt_irrefl (a ∷ s) = ground (arith, lt_irrefl s)

pub lt_trans : (s t u : Text) → lt s t ≡ true → lt t u ≡ true → lt s u ≡ true
unfolding lt
lt_trans [] [] u h k = ground arith
lt_trans [] (b ∷ t) [] h k = ground arith
lt_trans [] (b ∷ t) (c ∷ u) h k = refl
lt_trans (a ∷ s) [] u h k = ground arith
lt_trans (a ∷ s) (b ∷ t) [] h k = ground arith
lt_trans (a ∷ s) (b ∷ t) (c ∷ u) h k = ground (arith, lt_trans s t u)

pub lt_asymm : (s t : Text) → lt s t ≡ true → lt t s ≡ false
unfolding lt
lt_asymm [] [] h = refl
lt_asymm [] (b ∷ t) h = refl
lt_asymm (a ∷ s) [] h = ground arith
lt_asymm (a ∷ s) (b ∷ t) h = ground (arith, lt_asymm s t)

-- Neither is below the other only if they are equal.
pub eq_of_not-lt : (s t : Text) → lt s t ≡ false → lt t s ≡ false → s ≡ t
unfolding lt
eq_of_not-lt [] [] h k = refl
eq_of_not-lt [] (b ∷ t) h k = ground arith
eq_of_not-lt (a ∷ s) [] h k = ground arith
eq_of_not-lt (a ∷ s) (b ∷ t) h k = ground (arith, eq_of_not-lt s t)

pub le_trans : (s t u : Text) → lt t s ≡ false → lt u t ≡ false → lt u s ≡ false
unfolding lt
le_trans [] [] u h k = ground arith
le_trans [] (b ∷ t) [] h k = ground arith
le_trans [] (b ∷ t) (c ∷ u) h k = ground arith
le_trans (a ∷ s) [] u h k = ground arith
le_trans (a ∷ s) (b ∷ t) [] h k = ground arith
le_trans (a ∷ s) (b ∷ t) (c ∷ u) h k = ground (arith, le_trans s t u)

-- The greater of a text and the maximum of the others.
abbrev pick : Text → Option Text → Text
pick t none = t
pick t (some m) = if lt t m then m else t

-- `max(texts, default=None)`
unfoldable pub max : List Text → Option Text
max [] = none
max (t ∷ texts) = some (pick t (max texts))

-- Every text of a list is at most `m`.
abbrev pub AllLe : List Text → Text → Type 0
AllLe [] m = Unit
AllLe (t ∷ texts) m = (lt m t ≡ false) × AllLe texts m

pub AllLe-trans : (texts : List Text) (m n : Text) → AllLe texts m → lt n m ≡ false → AllLe texts n
AllLe-trans [] m n h k = tt
AllLe-trans (t ∷ texts) m n h k = (le_trans t m n h.0 k, AllLe-trans texts m n h.1 k)

max-none : (texts : List Text) → max texts ≡ none → texts ≡ []
unfolding max
max-none [] h = refl
max-none (t ∷ texts) h = absurd (ground arith)

max-AllLe : (texts : List Text) (m : Text) → max texts ≡ some m → AllLe texts m
unfolding max
max-AllLe [] m h = tt
max-AllLe (t ∷ texts) m h = elim (Option-cases (max texts)) [
  | inl e ↦ rw (max-none texts e) (ground (arith, lt_irrefl t), tt)
  | inr (x, e) ↦ (
    ground (arith, lt_irrefl t, lt_asymm t x),
    AllLe-trans texts x m (max-AllLe texts x e) (ground (arith, lt_irrefl x)),
  )
]

contains-max : (texts : List Text) (m : Text) → max texts ≡ some m → contains m texts ≡ true
unfolding max contains
contains-max [] m h = absurd (ground arith)
contains-max (t ∷ texts) m h = elim (Option-cases (max texts)) [
  | inl e ↦ ground (arith, eq_iff t m)
  | inr (x, e) ↦ ground (arith, eq_iff t m, contains-max texts x e)
]

le_of_contains :
    (texts : List Text) (m t : Text) → AllLe texts m → contains t texts ≡ true → lt m t ≡ false
unfolding contains
le_of_contains [] m t h k = absurd (ground arith)
le_of_contains (x ∷ texts) m t h k = elim (Bool-cases (x == t)) [
  | inl e ↦ rw ((eq_iff x t).0 e) at h.0
  | inr e ↦ le_of_contains texts m t h.1 (ground arith)
]

-- `max` is an element of the list that no other exceeds.
pub max_lem :
    (texts : List Text) (m : Text)
    → max texts ≡ some m
    → (contains m texts ≡ true) × ((t : Text) → contains t texts ≡ true → lt m t ≡ false)
max_lem texts m h = (contains-max texts m h, λ t. le_of_contains texts m t (max-AllLe texts m h))
