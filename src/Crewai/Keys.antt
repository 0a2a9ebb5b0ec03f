-- ===== src/Crewai/Keys.antt =====
-- python/swarmstate/integrations/crewai.py: the key that `_next_key` gives is fresh.
use Prim.Native.Nat.{max, ◌/◌, ◌%◌}
use swarmstate.Prelude.{
  ℕ, zero, suc, ◌+◌, ◌-◌, ◌≤◌, ◌<◌, ◌≡◌, refl, ap, ◌∙◌, arith, Bool, true, false, ◌||◌, none, some,
  List, [], ◌∷◌, ◌++◌, length, nat_eq, contains, eq_iff, ◌==◌, Bool-cases, Option-cases, inl, inr,
}
use swarmstate.Prelude.Decimal.{pos, negsuc, str, digits}
use swarmstate.Prelude.Result.{ok, Result-cases}
use swarmstate.Store.{StoreLike, IsStore}
use swarmstate.Text.{Text, text_eq}
use swarmstate.Crewai.{
  Entry, Python, Storage, zeros, padded, before_dash, key_of, raised, highest_from, highest_seq,
  next_seq,
}

unfoldable has_dash : Text → Bool
has_dash [] = false
has_dash (c ∷ s) = nat_eq c 45 || has_dash s

has_dash-append : (s t : Text) → has_dash (s ++ t) ≡ (has_dash s || has_dash t)
unfolding has_dash
has_dash-append [] t = refl
has_dash-append (c ∷ s) t = ground (arith, has_dash-append s t)

has_dash-zeros : (n : ℕ) → has_dash (zeros n) ≡ false
unfolding has_dash zeros
has_dash-zeros zero = refl
has_dash-zeros (suc n) = has_dash-zeros n

has_dash-digits : (fuel n : ℕ) → has_dash (digits fuel n) ≡ false
unfolding has_dash digits
has_dash-digits zero n = refl
has_dash-digits (suc fuel) n = ground (
  arith,
  has_dash-digits fuel (n / 10),
  has_dash-append (digits fuel (n / 10)) ((48 + n % 10) ∷ []),
)

has_dash-padded : (n : ℕ) → has_dash (padded n) ≡ false
unfolding padded str
has_dash-padded n = ground (
  arith,
  has_dash-append (zeros (12 - length (digits (suc n) n))) (digits (suc n) n),
  has_dash-zeros (12 - length (digits (suc n) n)),
  has_dash-digits (suc n) n,
)

before_dash-append : (s t : Text) → has_dash s ≡ false → before_dash (s ++ (45 ∷ t)) ≡ s
unfolding has_dash before_dash
before_dash-append [] t h = refl
before_dash-append (c ∷ s) t h = ground (arith, before_dash-append s t)

-- The number comes back from the key.
pub before_dash-key_of : (n : ℕ) (suffix : Text) → before_dash (key_of n suffix) ≡ padded n
before_dash-key_of n suffix = before_dash-append (padded n) suffix (has_dash-padded n)

module _ {J F : Type 0} (P : Python J F) where
  highest_from-le : (h : ℕ) (ks : List Text) → h ≤ highest_from P h ks
  unfolding highest_from
  highest_from-le h [] = omega arith
  highest_from-le h (k ∷ ks) = elim (Result-cases (P.int (before_dash k))) [
    | inl (e, p) ↦ rw p (highest_from-le h ks)
    | inr (pos n, p) ↦ rw p (omega (arith, highest_from-le (max h n) ks))
    | inr (negsuc n, p) ↦ rw p (highest_from-le h ks)
  ]

  -- No key in the list has a number above it.
  highest_from-bounds :
      (h : ℕ) (ks : List Text) (k : Text) (n : ℕ)
      → contains k ks ≡ true
      → P.int (before_dash k) ≡ ok (pos n)
      → n ≤ highest_from P h ks
  unfolding highest_from contains
  highest_from-bounds h [] k n m p = absurd (ground arith)
  highest_from-bounds h (j ∷ ks) k n m p = elim (Bool-cases (j == k)) [
    | inl e ↦ rw ((eq_iff j k).0 e) (rw p (omega (arith, highest_from-le (max h n) ks)))
    | inr e ↦
        highest_from-bounds (raised P h (P.int (before_dash j))) ks k n (ground (arith, m, e)) p
  ]

  module _ (S : StoreLike (Entry J)) (laws : IsStore S) (namespace : Text) where
    -- No number of a key is above the last one that was given out.
    abbrev pub Bounded : Storage S → Type 0
    Bounded st =
        (k : Text) (n m : ℕ)
        → st.seq ≡ some m
        → contains k (S.keys st.store namespace none) ≡ true
        → P.int (before_dash k) ≡ ok (pos n)
        → n ≤ m

    module _ (int-padded : (n : ℕ) → P.int (padded n) ≡ ok (pos n)) where
      pub int-key_of : (n : ℕ) (suffix : Text) → P.int (before_dash (key_of n suffix)) ≡ ok (pos n)
      int-key_of n suffix = ap P.int (before_dash-key_of n suffix) ∙ int-padded n

      -- The next number is above those of the keys that are there.
      pub next_seq-above :
          (st : Storage S) (k : Text) (n : ℕ)
          → Bounded st
          → contains k (S.keys st.store namespace none) ≡ true
          → P.int (before_dash k) ≡ ok (pos n)
          → n < next_seq P S namespace st
      unfolding next_seq highest_seq
      next_seq-above st k n b m p = elim (Option-cases st.seq) [
        | inl e ↦
            rw e (omega (arith, highest_from-bounds 0 (S.keys st.store namespace none) k n m p))
        | inr (s, e) ↦ rw e (omega (arith, b k n s e m p))
      ]

      pub next_key_fresh :
          (st : Storage S) (suffix : Text)
          → Bounded st
          → contains (key_of (next_seq P S namespace st) suffix) (S.keys st.store namespace none)
            ≡ false
      next_key_fresh st suffix b =
          elim (Bool-cases (
            contains (key_of (next_seq P S namespace st) suffix)
              (S.keys st.store namespace none))) [
                | inl e ↦ absurd (
                    omega (
                      arith,
                      next_seq-above st (key_of (next_seq P S namespace st) suffix)
                          (next_seq P S namespace st) b e
                          (int-key_of (next_seq P S namespace st) suffix),
                    ))
                | inr e ↦ e
              ]
