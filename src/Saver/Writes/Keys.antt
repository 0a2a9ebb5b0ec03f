-- ===== src/Saver/Writes/Keys.antt =====
-- The keys of pending writes.
use swarmstate.Prelude.{
  ℕ, suc, zero, ◌+◌, ◌%◌, ◌/◌, ◌≡◌, refl, Bool, true, false, ◌&&◌, [], ◌∷◌, ◌++◌, arith, ltb, ◌==◌,
  Bool-cases, inl, inr,
}
use swarmstate.Prelude.Decimal.{ℤ, pos, negsuc, str, digits}
use swarmstate.Prefix.{is_text}
use swarmstate.Text.{Text, text_eq, text_beq, starts_with}
use swarmstate.Saver.Names.{sep}
use swarmstate.Saver.Writes.{write_key}

is_text-append : (s t : Text) → is_text (s ++ t) ≡ (is_text s && is_text t)
unfolding is_text
is_text-append [] t = refl
is_text-append (c ∷ s) t = ground (arith, is_text-append s t)

is_text-digits : (fuel n : ℕ) → is_text (digits fuel n) ≡ true
unfolding is_text digits
is_text-digits zero n = refl
is_text-digits (suc fuel) n = ground (
  arith,
  is_text-digits fuel (n / 10),
  is_text-append (digits fuel (n / 10)) ((48 + n % 10) ∷ []),
)

is_text-str : (i : ℤ) → is_text (str i) ≡ true
unfolding str is_text
is_text-str (pos n) = is_text-digits (suc n) n
is_text-str (negsuc n) = is_text-digits (suc (suc n)) (suc n)

pub is_text-write_key :
    (task_id : Text) (i : ℤ) → is_text task_id ≡ true → is_text (write_key task_id i) ≡ true
unfolding write_key is_text
is_text-write_key task_id i h = ground (arith, is_text-append task_id (sep ∷ str i), is_text-str i)

extends : (p s : Text) (c : ℕ) → starts_with (p ++ (c ∷ s)) (p ++ (c ∷ [])) ≡ true
unfolding starts_with
extends [] s c = ground arith
extends (b ∷ p) s c = ground (arith, extends p s c)

pub starts_with-write_key :
    (task_id : Text) (i : ℤ) → starts_with (write_key task_id i) (task_id ++ (sep ∷ [])) ≡ true
unfolding write_key
starts_with-write_key task_id i = extends task_id (str i) sep

-- A text of digits does not start with a minus sign.
unfoldable is_unsigned : Text → Bool
is_unsigned [] = true
is_unsigned (c ∷ s) = ltb 45 c

is_unsigned-append :
    (s t : Text) → is_unsigned s ≡ true → is_unsigned t ≡ true → is_unsigned (s ++ t) ≡ true
unfolding is_unsigned
is_unsigned-append [] t h k = k
is_unsigned-append (c ∷ s) t h k = h

is_unsigned-digits : (fuel n : ℕ) → is_unsigned (digits fuel n) ≡ true
unfolding is_unsigned digits
is_unsigned-digits zero n = refl
is_unsigned-digits (suc fuel) n = elim (Bool-cases (ltb n 10)) [
  | inl e ↦ rw e (ground arith)
  | inr e ↦ rw e (
      is_unsigned-append (digits fuel (n / 10)) ((48 + n % 10) ∷ [])
        (is_unsigned-digits fuel (n / 10)) (ground arith))
]

signed_neq : (s t : Text) → is_unsigned t ≡ true → (45 ∷ s == t) ≡ false
unfolding is_unsigned text_beq
signed_neq s [] h = refl
signed_neq s (c ∷ t) h = ground arith

common : (p s t : Text) → (p ++ s == p ++ t) ≡ (s == t)
unfolding text_beq
common [] s t = refl
common (c ∷ p) s t = ground (arith, common p s t)

-- A special write and a positional one never share a key.
pub write_key-apart :
    (task_id : Text) (i j : ℕ) → (write_key task_id (negsuc i) == write_key task_id (pos j)) ≡ false
unfolding write_key str
write_key-apart task_id i j =
    rw (common task_id (sep ∷ 45 ∷ digits (suc (suc i)) (suc i)) (sep ∷ digits (suc j) j)) (
      unfold text_beq in
      signed_neq (digits (suc (suc i)) (suc i)) (digits (suc j) j) (is_unsigned-digits (suc j) j))
