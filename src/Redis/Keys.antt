-- ===== src/Redis/Keys.antt =====
-- The keys of the hashes of `RedisStore`, and the namespaces that they stand for.
use swarmstate.Prelude.{
  ℕ, suc, ◌+◌, ◌≡◌, refl, ap, ◌∙◌, Bool, true, not, ◌&&◌, Option, none, some, List, [], ◌∷◌, ◌++◌,
  arith, drop, length, map, contains, ◌==◌, eq_iff, is_nil,
}
use swarmstate.Text.{Text, text_eq, text_beq, starts_with, starts_with-append, rest_of}
use swarmstate.Disk.Statements.{Codec}
use swarmstate.Redis
use swarmstate.Redis.{glob_escape}
use swarmstate.Redis.Commands.{Redis, IsRedis}
use swarmstate.Redis.Glob.{matches-glob_escape, matches-glob_escape_star}

-- What stands in front is compared first.
pub starts_with-joined : (p s t : Text) → starts_with (p ++ s) (p ++ t) ≡ starts_with s t
unfolding starts_with
starts_with-joined [] s t = refl
starts_with-joined (c ∷ p) s t = ground (arith, starts_with-joined p s t)

eq-joined : (p s t : Text) → (p ++ s == p ++ t) ≡ (s == t)
unfolding text_beq
eq-joined [] s t = refl
eq-joined (c ∷ p) s t = ground (arith, eq-joined p s t)

drop-joined : (p s : Text) → drop (length p) (p ++ s) ≡ s
drop-joined [] s = refl
drop-joined (c ∷ p) s = drop-joined p s

drop_behind : (c : ℕ) (p s : Text) → drop (suc (length p)) (p ++ (c ∷ s)) ≡ s
drop_behind c [] s = refl
drop_behind c (d ∷ p) s = drop_behind c p s

drop-suc : (c : ℕ) (p s : Text) → drop (length p + 1) (p ++ (c ∷ s)) ≡ s
drop-suc c p s = let n : length p + 1 ≡ suc (length p) = omega arith in rw n (drop_behind c p s)

module _ {A : Type 0} (R : Redis) (C : Codec A) (prefix : Text) (laws : IsRedis R) where
  abbrev hkey : Text → Text
  hkey = Redis.hkey R C prefix

  -- Two namespaces have two hashes.
  pub hkey_eq : (n n' : Text) → (hkey n == hkey n') ≡ (n == n')
  unfolding Redis.hkey text_beq
  hkey_eq n n' = eq-joined prefix (58 ∷ n) (58 ∷ n') ∙ ground arith

  pub ns_of-hkey : (n : Text) → Redis.ns_of R C prefix (hkey n) ≡ n
  unfolding Redis.hkey Redis.ns_of
  ns_of-hkey n = drop-suc 58 prefix n

  -- The pattern for a prefix of the namespace.
  abbrev pub selects : Option Text → Text → Bool
  selects none n = true
  selects (some p) n = starts_with n p

  matches_behind :
      (rest n : Text)
      → R.matches (glob_escape prefix ++ (58 ∷ rest)) (prefix ++ (58 ∷ n)) ≡ R.matches rest n
  matches_behind rest n =
      matches-glob_escape R laws prefix (58 ∷ rest) (prefix ++ (58 ∷ n))
      ∙ ground (
        arith,
        starts_with-append (58 ∷ n) prefix,
        drop-joined prefix (58 ∷ n),
        laws.matches-plain 58 rest 58 n refl,
      )

  pub matches-pattern :
      (p : Option Text) (n : Text)
      → R.matches (Redis.pattern_of R C prefix p) (hkey n) ≡ selects p n
  unfolding Redis.hkey starts_with
  matches-pattern none n = matches_behind (42 ∷ []) n ∙ laws.matches-star n
  matches-pattern (some []) n = matches_behind (42 ∷ []) n ∙ laws.matches-star n
  matches-pattern (some (c ∷ p)) n =
      matches_behind (glob_escape (c ∷ p) ++ (42 ∷ [])) n
      ∙ matches-glob_escape_star R laws (c ∷ p) n

  -- A key that a pattern of this form matches is that of a namespace.
  behind_colon : (rest u : Text) → R.matches (58 ∷ rest) u ≡ true → (v : Text) × (u ≡ 58 ∷ v)
  behind_colon rest [] h = absurd (ground (arith, laws.matches-plain_nil 58 rest refl))
  behind_colon rest (a ∷ u) h = (u, ground (arith, laws.matches-plain 58 rest a u refl))

  hkey_of :
      (rest h : Text)
      → R.matches (glob_escape prefix ++ (58 ∷ rest)) h ≡ true
      → hkey (Redis.ns_of R C prefix h) ≡ h
  unfolding Redis.hkey
  hkey_of rest h q =
      let (u, e) =
        rest_of h prefix (ground (arith, matches-glob_escape R laws prefix (58 ∷ rest) h)) in
      let (v, w) =
        behind_colon rest u
          (ground (arith, matches-glob_escape R laws prefix (58 ∷ rest) h, drop-joined prefix u)) in
      rw (e, w) (ap (λ n. prefix ++ (58 ∷ n)) (unfold Redis.ns_of in drop-suc 58 prefix v))

  pub hkey-ns_of :
      (p : Option Text) (h : Text)
      → R.matches (Redis.pattern_of R C prefix p) h ≡ true
      → hkey (Redis.ns_of R C prefix h) ≡ h
  hkey-ns_of none h q = hkey_of (42 ∷ []) h q
  hkey-ns_of (some []) h q = hkey_of (42 ∷ []) h q
  hkey-ns_of (some (c ∷ p)) h q = hkey_of (glob_escape (c ∷ p) ++ (42 ∷ [])) h q

  -- The namespaces of keys that stand for one.
  contains-map-ns_of :
      (n : Text) (hs : List Text)
      → ((h : Text) → contains h hs ≡ true → hkey (Redis.ns_of R C prefix h) ≡ h)
      → contains n (map (Redis.ns_of R C prefix) hs) ≡ contains (hkey n) hs
  unfolding contains
  contains-map-ns_of n [] q = refl
  contains-map-ns_of n (h ∷ hs) q =
      let e : hkey (Redis.ns_of R C prefix h) ≡ h = q h (ground (arith, eq_iff h h)) in
      ground (
        arith,
        contains-map-ns_of n hs (λ h' m. q h' (ground arith)),
        hkey_eq (Redis.ns_of R C prefix h) n,
        e,
      )

  pub contains-namespaces :
      (s : R.Server) (p : Option Text) (n : Text)
      → contains n (Redis.namespaces R C prefix s p)
        ≡ (selects p n && not (is_nil (R.hkeys s (hkey n))))
  unfolding Redis.namespaces Redis.iter_hkeys
  contains-namespaces s p n =
      contains-map-ns_of n (R.scan s (Redis.pattern_of R C prefix p)) (λ h m.
        hkey-ns_of p h (ground (arith, laws.contains-scan s (Redis.pattern_of R C prefix p) h)))
      ∙ ground (
        arith,
        laws.contains-scan s (Redis.pattern_of R C prefix p) (hkey n),
        matches-pattern p n,
      )

  -- The hashes of the store are those of the namespaces that hold a key.
  pub contains-iter_hkeys :
      (s : R.Server) (n : Text)
      → contains (hkey n) (Redis.iter_hkeys R C prefix s none) ≡ not (is_nil (R.hkeys s (hkey n)))
  unfolding Redis.iter_hkeys
  contains-iter_hkeys s n = ground (
    arith,
    laws.contains-scan s (Redis.pattern_of R C prefix none) (hkey n),
    matches-pattern none n,
  )

  pub hkey_of_all :
      (s : R.Server) (h : Text)
      → contains h (Redis.iter_hkeys R C prefix s none) ≡ true
      → hkey (Redis.ns_of R C prefix h) ≡ h
  unfolding Redis.iter_hkeys
  hkey_of_all s h m =
      hkey-ns_of none h (ground (arith, laws.contains-scan s (Redis.pattern_of R C prefix none) h))

  pub nil_none : (s : R.Server) (h f : Text) → R.hkeys s h ≡ [] → R.hget s h f ≡ none
  unfolding contains
  nil_none s h f e = ground (arith, laws.contains-hkeys s h f, ap (contains f) e)
