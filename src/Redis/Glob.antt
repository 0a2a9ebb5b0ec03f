-- ===== src/Redis/Glob.antt =====
-- The patterns of `RedisStore`: an escaped text matches literally.
use mathlib.Core.List.{append_assoc}
use swarmstate.Prelude.{
  ℕ, ◌≡◌, refl, ap, ◌∙◌, Bool, true, false, ◌&&◌, [], ◌∷◌, ◌++◌, arith, if◌then◌else◌, drop, length,
}
use swarmstate.Text.{Text, starts_with}
use swarmstate.Redis.{is_escaped, glob_escape}
use swarmstate.Redis.Commands.{Redis, IsRedis}

module _ (R : Redis) (laws : IsRedis R) where
  -- A literal character of a pattern, escaped or not.
  literal :
      (c : ℕ) (p s : Text)
      → R.matches (if is_escaped c then 92 ∷ c ∷ p else c ∷ p) s
        ≡ (starts_with s (c ∷ []) && R.matches p (drop 1 s))
  unfolding starts_with
  literal c p [] = ground (arith, laws.matches-escaped_nil c p, laws.matches-plain_nil c p)
  literal c p (a ∷ s) = ground (arith, laws.matches-escaped c p a s, laws.matches-plain c p a s)

  if_append :
      (b : Bool) (x y text rest : Text)
      → (if b then x ++ glob_escape text else y ++ glob_escape text) ++ rest
        ≡ (if b then x ++ (glob_escape text ++ rest) else y ++ (glob_escape text ++ rest))
  if_append true x y text rest = append_assoc x (glob_escape text) rest
  if_append false x y text rest = append_assoc y (glob_escape text) rest

  -- An escaped text in front of a pattern matches itself.
  pub matches-glob_escape :
      (text rest s : Text)
      → R.matches (glob_escape text ++ rest) s
        ≡ (starts_with s text && R.matches rest (drop (length text) s))
  unfolding glob_escape starts_with
  matches-glob_escape [] rest s = refl
  matches-glob_escape (c ∷ text) rest [] =
      ap (λ p. R.matches p []) (if_append (is_escaped c) (92 ∷ c ∷ []) (c ∷ []) text rest)
      ∙ literal c (glob_escape text ++ rest) []
  matches-glob_escape (c ∷ text) rest (a ∷ s) =
      ap (λ p. R.matches p (a ∷ s)) (if_append (is_escaped c) (92 ∷ c ∷ []) (c ∷ []) text rest)
      ∙ literal c (glob_escape text ++ rest) (a ∷ s)
      ∙ ground (arith, matches-glob_escape text rest s)

  -- A prefix that `_glob_escape` has escaped, with a star behind it, is a pattern that matches
  -- exactly the texts that start with the prefix, whatever characters the prefix has.
  pub matches-glob_escape_star :
      (p s : Text) → R.matches (glob_escape p ++ (42 ∷ [])) s ≡ starts_with s p
  matches-glob_escape_star p s =
      matches-glob_escape p (42 ∷ []) s ∙ ground (arith, laws.matches-star (drop (length p) s))
