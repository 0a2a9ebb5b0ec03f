-- ===== src/Prefix.antt =====
-- python/swarmstate/backends/_prefix.py: the upper end of the key range that holds a prefix.
pub mod Range
use mathlib.Core.List.{reverse}
use swarmstate.Prelude.{
  ℕ, ◌+◌, Bool, true, not, ◌&&◌, Option, none, some, List, [], ◌∷◌, leb, ltb, if◌then◌else◌,
}
use swarmstate.Text.{Text}

abbrev pub max_code_point : ℕ
max_code_point = 0x10FFFF

-- `c in _SURROGATES`
abbrev pub is_surrogate : ℕ → Bool
is_surrogate c = leb 0xD800 c && ltb c 0xE000

-- `cp = ord(c) + 1`, moved past the surrogates.
unfoldable pub bump : ℕ → ℕ
bump c = if is_surrogate (c + 1) then 0xE000 else c + 1

-- The loop over `chars`, whose last character comes first here.
unfoldable pub bump_last : List ℕ → Option Text
bump_last [] = none
bump_last (c ∷ chars) =
    if leb (bump c) max_code_point then some (reverse (bump c ∷ chars)) else bump_last chars

unfoldable pub prefix_upper_bound : Text → Option Text
prefix_upper_bound prefix = bump_last (reverse prefix)

-- Text that UTF-8 can store: every code point is a Unicode scalar value.
abbrev pub is_scalar : ℕ → Bool
is_scalar c = leb c max_code_point && not (is_surrogate c)

unfoldable pub is_text : Text → Bool
is_text [] = true
is_text (c ∷ s) = is_scalar c && is_text s
