-- ===== src/Text/Equality.antt =====
-- Equality of texts, `str.startswith`.
use swarmstate.Prelude.{
  ℕ, ◌≡◌, refl, ◌↔◌, Bool, true, false, ◌&&◌, List, [], ◌∷◌, ◌++◌, arith, nat_eq,
}
use swarmstate.Prelude.Eq.{Eq}

abbrev pub Text : Type 0
Text = List ℕ

unfoldable pub text_beq : Text → Text → Bool
text_beq [] [] = true
text_beq [] (b ∷ t) = false
text_beq (a ∷ s) [] = false
text_beq (a ∷ s) (b ∷ t) = nat_eq a b && text_beq s t

pub text_beq_iff : (s t : Text) → (text_beq s t ≡ true) ↔ (s ≡ t)
unfolding text_beq
text_beq_iff [] [] = ground arith
text_beq_iff [] (b ∷ t) = ground arith
text_beq_iff (a ∷ s) [] = ground arith
text_beq_iff (a ∷ s) (b ∷ t) = ground (arith, text_beq_iff s t)

instance abbrev pub text_eq : Eq Text
text_eq = record { beq = text_beq; beq_iff = text_beq_iff }

-- `s.startswith(p)`
unfoldable pub starts_with : Text → Text → Bool
starts_with s [] = true
starts_with [] (b ∷ p) = false
starts_with (a ∷ s) (b ∷ p) = nat_eq a b && starts_with s p

pub starts_with-append : (s p : Text) → starts_with (p ++ s) p ≡ true
unfolding starts_with
starts_with-append s [] = refl
starts_with-append s (b ∷ p) = ground (arith, starts_with-append s p)

-- What follows a prefix.
pub rest_of : (s p : Text) → starts_with s p ≡ true → (u : Text) × (s ≡ p ++ u)
unfolding starts_with
rest_of s [] h = (s, refl)
rest_of [] (b ∷ p) h = absurd (ground arith)
rest_of (a ∷ s) (b ∷ p) h = let (u, e) = rest_of s p (ground arith) in (u, ground arith)
