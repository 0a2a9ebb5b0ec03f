-- ===== src/Prefix/Range.antt =====
-- The range from a prefix up to its upper bound holds exactly the texts with the prefix.
use mathlib.Core.List.{reverse, reverse-append}
use swarmstate.Prelude.{
  Bool, true, ℕ, ◌≡◌, refl, sym, ap, ◌∙◌, true, ◌&&◌, Option, none, some, List, [], ◌∷◌, ◌++◌,
  arith, leb, Bool-cases, if◌then◌else◌, Option-cases, inl, inr,
}
use swarmstate.Text.{Text, starts_with}
use swarmstate.Text.Order.{lt, le}
use swarmstate.Prefix.{max_code_point, bump, bump_last, prefix_upper_bound, is_text}

-- The same bound, from the front.
extend : ℕ → Option Text → Option Text
extend c none = if leb (bump c) max_code_point then some (bump c ∷ []) else none
extend c (some u) = some (c ∷ u)

upper : Text → Option Text
upper [] = none
upper (c ∷ p) = extend c (upper p)

bump_last-append :
    (c : ℕ) (chars : List ℕ) → bump_last (chars ++ c ∷ []) ≡ extend c (bump_last chars)
unfolding bump_last extend
bump_last-append c [] = refl
bump_last-append c (x ∷ chars) = elim (Bool-cases (leb (bump x) max_code_point)) [
  | inl e ↦ rw e (ap some (reverse-append (bump x ∷ chars) (c ∷ [])))
  | inr e ↦ rw e (bump_last-append c chars)
]

bump_last-reverse : (p : Text) → bump_last (reverse p) ≡ upper p
unfolding bump_last upper
bump_last-reverse [] = refl
bump_last-reverse (c ∷ p) =
    ap bump_last (reverse-append (c ∷ []) p)
    ∙ bump_last-append c (reverse p)
    ∙ ap (extend c) (bump_last-reverse p)

-- Where the bound is missing, every text at or above the prefix has it.
starts_with_of_none : (p s : Text) → upper p ≡ none → is_text s ≡ true → starts_with s p ≡ le p s
unfolding upper extend starts_with lt is_text bump
starts_with_of_none [] s h v = ground arith
starts_with_of_none (c ∷ p) [] h v = refl
starts_with_of_none (c ∷ p) (d ∷ s) h v = elim (Option-cases (upper p)) [
  | inl e ↦ ground (arith, starts_with_of_none p s)
  | inr (u, e) ↦ ground arith
]

in_range :
    (p s u : Text) → upper p ≡ some u → is_text s ≡ true → starts_with s p ≡ (le p s && lt s u)
unfolding upper extend starts_with lt is_text bump
in_range [] s u h v = ground arith
in_range (c ∷ p) [] u h v = refl
in_range (c ∷ p) (d ∷ s) u h v = elim (Option-cases (upper p)) [
  | inl e ↦ ground (arith, starts_with_of_none p s)
  | inr (w, e) ↦ ground (arith, in_range p s w)
]

upper-is_text : (p u : Text) → upper p ≡ some u → is_text p ≡ true → is_text u ≡ true
unfolding upper extend is_text bump
upper-is_text [] u h v = ground arith
upper-is_text (c ∷ p) u h v = elim (Option-cases (upper p)) [
  | inl e ↦ ground arith
  | inr (w, e) ↦ ground (arith, upper-is_text p w)
]

upper_of : (p : Text) → prefix_upper_bound p ≡ upper p
unfolding prefix_upper_bound
upper_of p = bump_last-reverse p

-- Where `prefix_upper_bound` gives a bound, a text that UTF-8 can store starts with the prefix
-- exactly when it is at or above the prefix and below the bound; and the bound of a storable prefix
-- is storable.
pub prefix_upper_bound_range :
    (prefix bound : Text)
    → prefix_upper_bound prefix ≡ some bound
    → ((s : Text) → is_text s ≡ true → starts_with s prefix ≡ (le prefix s && lt s bound))
      × (is_text prefix ≡ true → is_text bound ≡ true)
prefix_upper_bound_range p u h =
    let e : upper p ≡ some u = sym (upper_of p) ∙ h in
    (λ s v. in_range p s u e v, upper-is_text p u e)

prefix_upper_bound-none :
    (prefix : Text)
    → prefix_upper_bound prefix ≡ none
    → (s : Text) → is_text s ≡ true
    → starts_with s prefix ≡ le prefix s
prefix_upper_bound-none p h s v = starts_with_of_none p s (sym (upper_of p) ∙ h) v

-- Below a bound, where there is one.
abbrev pub before : Text → Option Text → Bool
before s none = true
before s (some bound) = lt s bound

abbrev pub storable : Option Text → Bool
storable none = true
storable (some bound) = is_text bound

-- A text that UTF-8 can store starts with a prefix exactly when it is at or above the prefix and,
-- where `prefix_upper_bound` gives a bound, below the bound; and the bound of a storable prefix is
-- storable.
pub starts_with-range :
    (prefix s : Text)
    → is_text s ≡ true
    → (starts_with s prefix ≡ (le prefix s && before s (prefix_upper_bound prefix)))
      × (is_text prefix ≡ true → storable (prefix_upper_bound prefix) ≡ true)
starts_with-range p s v = elim (Option-cases (prefix_upper_bound p)) [
  | inl e ↦ rw e (prefix_upper_bound-none p e s v ∙ and_true (le p s), λ t. refl)
  | inr (u, e) ↦ let r = prefix_upper_bound_range p u e in rw e (r.0 s v, r.1)
]
  where
    and_true : (b : Bool) → b ≡ (b && true)
    and_true b = ground arith
