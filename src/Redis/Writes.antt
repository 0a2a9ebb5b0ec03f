-- ===== src/Redis/Writes.antt =====
-- What the transactions of `RedisStore` leave on the server, and their replies.
use mathlib.Core.Path.{fun_ext}
use swarmstate.Prelude.{
  ℕ, ◌≡◌, refl, ap, sym, ◌∙◌, not, ◌&&◌, Option, none, some, List, [], ◌∷◌, ◌++◌, arith,
  if◌then◌else◌, map, contains, contains-append, ◌==◌, pair_eq, or_else, is_some,
}
use swarmstate.Prelude.Dict.{Dict}
use swarmstate.Prelude.Group.{group, covers, covers-group}
use swarmstate.Text.{Text, text_eq}
use swarmstate.Store.{written, existing}
use swarmstate.Disk.Statements.{Codec}
use swarmstate.Store.Packed.{packed}
use swarmstate.Redis
use swarmstate.Redis.{sum, hdels}
use swarmstate.Redis.Commands.{Redis, hset, hdel, IsRedis, Runs}
use swarmstate.Redis.Counting.{
  Has, flat, existing-append, existing-map, existing_permuted, flat-grouped,
}
use swarmstate.Redis.Keys.{hkey_eq}

module _ {A : Type 0} (R : Redis) (C : Codec A) (prefix : Text) (laws : IsRedis R) where
  abbrev hkey : Text → Text
  hkey = Redis.hkey R C prefix

  pub sets_lem :
      (items : List (Text × Text × Option A)) (s : R.Server) (replies : List ℕ) (s' : R.Server)
      → Runs R s (map (λ i. hset (hkey i.0) i.1 (C.pack i.2)) items) replies s'
      → (n k : Text)
      → R.hget s' (hkey n) k ≡ or_else (written (packed C items) n k) (R.hget s (hkey n) k)
  unfolding written
  sets_lem [] s replies s' (e, e') n k = rw e' refl
  sets_lem ((m, j, v) ∷ items) s replies s' (c, cs, t, e, e', runs) n k =
      sets_lem items t cs s' runs n k
      ∙ ground (
        arith,
        laws.command_effect s (hset (hkey m) j (C.pack v)) c t e (hkey n) k,
        hkey_eq R C prefix laws m n,
      )

  -- The fields that the groups name.
  abbrev fields_of : Text → List Text → List (Text × Text)
  fields_of h fs = map (λ f. (h, f)) fs

  abbrev fields : Dict Text (List Text) → List (Text × Text)
  fields [] = []
  fields ((n, ks) ∷ d) = fields_of (hkey n) ks ++ fields d

  abbrev has : R.Server → Has
  has s h k = is_some (R.hget s h k)

  contains-fields_of :
      (h f h' : Text) (fs : List Text)
      → contains (h', f) (fields_of h fs) ≡ (h == h' && contains f fs)
  unfolding contains
  contains-fields_of h f h' [] = ground arith
  contains-fields_of h f h' (k ∷ fs) = ground (arith, contains-fields_of h f h' fs)

  -- What one HDEL leaves.
  hdel_lem :
      (n : Text) (fs : List Text) (s : R.Server) (c : ℕ) (t : R.Server)
      → R.command s (hdel (hkey n) fs) ≡ some (c, t)
      → (h f : Text)
      → R.hget t h f ≡ (if contains (h, f) (fields_of (hkey n) fs) then none else R.hget s h f)
  hdel_lem n fs s c t e h f =
      rw (contains-fields_of (hkey n) f h fs) (laws.command_effect s (hdel (hkey n) fs) c t e h f)

  has-hdel :
      (n : Text) (fs : List Text) (s : R.Server) (c : ℕ) (t : R.Server)
      → R.command s (hdel (hkey n) fs) ≡ some (c, t)
      → has t ≡ (λ h f. not (contains (h, f) (fields_of (hkey n) fs)) && has s h f)
  has-hdel n fs s c t e = fun_ext λ h. fun_ext λ f. ground (arith, hdel_lem n fs s c t e h f)

  deletes_count :
      (d : Dict Text (List Text)) (s : R.Server) (replies : List ℕ) (s' : R.Server)
      → Runs R s (hdels R C prefix d) replies s'
      → sum R C prefix replies ≡ existing (has s) (fields d)
  unfolding hdels sum existing
  deletes_count [] s replies s' (e, e') = rw e refl
  deletes_count ((n, fs) ∷ d) s replies s' (c, cs, t, e, e', runs) = omega (
    arith,
    ap (sum R C prefix) e',
    laws.command_reply s (hdel (hkey n) fs) c t e,
    deletes_count d t cs s' runs,
    ap (λ h. existing h (fields d)) (has-hdel n fs s c t e),
    existing-append (fields_of (hkey n) fs) (fields d) (has s),
  )

  deletes_effect :
      (d : Dict Text (List Text)) (s : R.Server) (replies : List ℕ) (s' : R.Server)
      → Runs R s (hdels R C prefix d) replies s'
      → (h f : Text) → R.hget s' h f ≡ (if contains (h, f) (fields d) then none else R.hget s h f)
  unfolding hdels contains
  deletes_effect [] s replies s' (e, e') h f = rw e' refl
  deletes_effect ((n, fs) ∷ d) s replies s' (c, cs, t, e, e', runs) h f =
      deletes_effect d t cs s' runs h f
      ∙ ground (
        arith,
        hdel_lem n fs s c t e h f,
        contains-append (h, f) (fields_of (hkey n) fs) (fields d),
      )

  renamed_fields :
      (n : Text) (ks : List Text) (pairs : List (Text × Text))
      → map (λ p. (hkey p.0, p.1)) (map (λ k. (n, k)) ks ++ pairs)
        ≡ fields_of (hkey n) ks ++ map (λ p. (hkey p.0, p.1)) pairs
  renamed_fields n [] pairs = refl
  renamed_fields n (k ∷ ks) pairs = ap (◌∷◌ (hkey n, k)) (renamed_fields n ks pairs)

  fields-eq-map : (d : Dict Text (List Text)) → fields d ≡ map (λ p. (hkey p.0, p.1)) (flat d)
  fields-eq-map [] = refl
  fields-eq-map ((n, ks) ∷ d) =
      ap (λ pairs. fields_of (hkey n) ks ++ pairs) (fields-eq-map d)
      ∙ sym (renamed_fields n ks (flat d))

  contains-fields :
      (d : Dict Text (List Text)) (n k : Text) → contains (hkey n, k) (fields d) ≡ covers d n k
  unfolding contains covers
  contains-fields [] n k = refl
  contains-fields ((m, ks) ∷ d) n k =
      contains-append (hkey n, k) (fields_of (hkey m) ks) (fields d)
      ∙ ground (
        arith,
        contains-fields d n k,
        contains-fields_of (hkey m) k (hkey n) ks,
        hkey_eq R C prefix laws m n,
      )

  -- The transaction of `delete_many`.
  pub grouped_count :
      (pairs : List (Text × Text)) (s : R.Server) (replies : List ℕ) (s' : R.Server)
      → Runs R s (hdels R C prefix (group [] pairs)) replies s'
      → sum R C prefix replies ≡ existing (λ n k. is_some (R.hget s (hkey n) k)) pairs
  grouped_count pairs s replies s' runs =
      deletes_count (group [] pairs) s replies s' runs
      ∙ ap (existing (has s)) (fields-eq-map (group [] pairs))
      ∙ existing-map hkey (has s) (flat (group [] pairs)) (hkey_eq R C prefix laws)
      ∙ existing_permuted (flat-grouped pairs) (λ n k. has s (hkey n) k)

  pub grouped_effect :
      (pairs : List (Text × Text)) (s : R.Server) (replies : List ℕ) (s' : R.Server)
      → Runs R s (hdels R C prefix (group [] pairs)) replies s'
      → (n k : Text)
      → R.hget s' (hkey n) k ≡ (if contains (n, k) pairs then none else R.hget s (hkey n) k)
  unfolding covers
  grouped_effect pairs s replies s' runs n k =
      deletes_effect (group [] pairs) s replies s' runs (hkey n) k
      ∙ ground (arith, contains-fields (group [] pairs) n k, covers-group [] pairs n k)
