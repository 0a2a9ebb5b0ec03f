-- ===== src/Prelude/Decimal.antt =====
-- `str(i)` and `int(s)` on the integers that the program writes into keys.
use mathlib.Core.Path.{◌≡◌, refl}
use mathlib.Core.List.{List, [], ◌∷◌, ◌++◌}
use mathlib.Core.Bool.{◌&&◌, Bool, true, false}
use Prim.Native.Nat.{ℕ, zero, suc, ◌+◌, ◌-◌, ◌*◌, ◌/◌, ◌%◌}
use swarmstate.Prelude.Tests.{if◌then◌else◌, ltb, leb, nat_eq}
use swarmstate.Prelude.Result.{Result, ok, raise, value_error, ◌>>=◌}

-- `negsuc n` is -(n + 1).
pub data ℤ : Type 0 where
  pos : ℕ → ℤ
  negsuc : ℕ → ℤ

-- `a < b`
abbrev pub ltb_ℤ : ℤ → ℤ → Bool
ltb_ℤ (pos a) (pos b) = ltb a b
ltb_ℤ (pos a) (negsuc b) = false
ltb_ℤ (negsuc a) (pos b) = true
ltb_ℤ (negsuc a) (negsuc b) = ltb b a

-- The decimal digits; `n` has at most `n + 1` of them.
unfoldable pub digits : ℕ → ℕ → List ℕ
digits zero n = []
digits (suc fuel) n =
    let front = digits fuel (n / 10) in
    if ltb n 10 then (48 + n) ∷ [] else front ++ (48 + n % 10) ∷ []

unfoldable pub str : ℤ → List ℕ
unfolding digits
str (pos n) = digits (suc n) n
str (negsuc n) = 45 ∷ digits (suc (suc n)) (suc n)

unfoldable pub read_digits : ℕ → List ℕ → Result ℕ
read_digits acc [] = ok acc
read_digits acc (c ∷ s) =
    let rest = read_digits (acc * 10 + (c - 48)) s in
    if leb 48 c && leb c 57 then rest else raise value_error

abbrev pub negated : ℕ → ℤ
negated zero = pos zero
negated (suc n) = negsuc n

unfoldable pub int : List ℕ → Result ℤ
unfolding read_digits
int [] = raise value_error
int (c ∷ []) = read_digits 0 (c ∷ []) >>= λ n. ok (pos n)
int (c ∷ d ∷ s) =
    if nat_eq c 45
    then (read_digits 0 (d ∷ s) >>= λ n. ok (negated n))
    else (read_digits 0 (c ∷ d ∷ s) >>= λ n. ok (pos n))

int_example : int (str (pos 1024)) ≡ ok (pos 1024)
unfolding int str
int_example = refl

int_example_negative : int (str (negsuc 9)) ≡ ok (negsuc 9)
unfolding int str
int_example_negative = refl
