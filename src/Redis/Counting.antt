-- ===== src/Redis/Counting.antt =====
-- How many fields `delete_many` of `RedisStore` removes: the grouping by hash keeps the pairs, and
-- their order does not count.
use mathlib.Core.Path.{fun_ext}
use mathlib.Core.List.{append_assoc, map-append, Permᴰ}
use mathlib.Core.List.Permᴰ
use mathlib.Core.List.Permᴰ.{nil, cons, swap, trans}
use swarmstate.Prelude.{
  ◌+◌, ◌≡◌, refl, ap, ◌∙◌, inl, inr, Bool, not, ◌&&◌, List, [], ◌∷◌, ◌++◌, arith, if◌then◌else◌,
  Bool-cases, map, contains, ◌==◌, eq_iff, pair_eq,
}
use swarmstate.Prelude.Dict.{Dict}
use swarmstate.Prelude.Group.{append_at, group}
use swarmstate.Text.{Text, text_eq}
use swarmstate.Store.{existing}

abbrev pub Has : Type 0
Has = Text → Text → Bool

abbrev pub without : Text × Text → Has → Has
without p has n k = not (p.0 == n && p.1 == k) && has n k

without_twice :
    (p q : Text × Text) (has : Has) → without p (without q has) ≡ without q (without p has)
without_twice p q has = fun_ext λ n. fun_ext λ k. ground arith

-- The order of two deletions does not count.
existing_swap :
    (p q : Text × Text) (pairs : List (Text × Text)) (has : Has)
    → existing has (p ∷ q ∷ pairs) ≡ existing has (q ∷ p ∷ pairs)
unfolding existing
existing_swap (n, k) (m, j) pairs has = ground (
  arith,
  ap (λ h. existing h pairs) (without_twice (n, k) (m, j) has),
  eq_iff n m,
  eq_iff m n,
  eq_iff k j,
  eq_iff j k,
)

pub existing_permuted :
    {xs ys : List (Text × Text)} → Permᴰ xs ys → (has : Has) → existing has xs ≡ existing has ys
unfolding existing
existing_permuted nil has = refl
existing_permuted (cons {b = y} e d) has =
    rw e (ap (λ c. (if has y.0 y.1 then 1 else 0) + c) (existing_permuted d (without y has)))
existing_permuted (swap {a = x} {b = y} {l = pairs} e e') has =
    rw (← e, ← e') (existing_swap x y pairs has)
existing_permuted (trans d d') has = existing_permuted d has ∙ existing_permuted d' has

-- The pairs of the groups.
abbrev pub flat : Dict Text (List Text) → List (Text × Text)
flat [] = []
flat ((n, ks) ∷ d) = map (λ k. (n, k)) ks ++ flat d

flat-append_at :
    (n k : Text) (d : Dict Text (List Text)) → Permᴰ (flat (append_at n k d)) ((n, k) ∷ flat d)
unfolding append_at
flat-append_at n k [] = Permᴰ.refl _
flat-append_at n k ((m, ks) ∷ d) = elim (Bool-cases (m == n)) [
  | inl e ↦
      let named : m ≡ n = (eq_iff m n).0 e in
      rw
        (
          e,
          map-append {B = Text × Text} (λ j. (m, j)) ks (k ∷ []),
          append_assoc (map (λ j. (m, j)) ks) ((m, k) ∷ []) (flat d),
          ← named,
        )
        (Permᴰ.middle (m, k) (map (λ j. (m, j)) ks) (flat d))
  | inr e ↦ rw e (
      trans (Permᴰ.append_left (map (λ j. (m, j)) ks) (flat-append_at n k d))
        (Permᴰ.middle (n, k) (map (λ j. (m, j)) ks) (flat d)))
]

flat-group :
    (d : Dict Text (List Text)) (pairs : List (Text × Text))
    → Permᴰ (flat (group d pairs)) (flat d ++ pairs)
unfolding group
flat-group d [] = Permᴰ.symm (Permᴰ.append-nil (flat d))
flat-group d ((n, k) ∷ pairs) = trans (flat-group (append_at n k d) pairs) (
    trans (Permᴰ.append_right pairs (flat-append_at n k d))
      (Permᴰ.symm (Permᴰ.middle (n, k) (flat d) pairs)))

pub existing-append :
    (xs ys : List (Text × Text)) (has : Has)
    → existing has (xs ++ ys)
      ≡ existing has xs + existing (λ n k. not (contains (n, k) xs) && has n k) ys
unfolding existing contains
existing-append [] ys has = omega arith
existing-append (x ∷ xs) ys has =
    let tests : ◌≡◌ {A = Has} (λ n k. not (contains (n, k) xs) && without x has n k)
        (λ n k. not (contains (n, k) (x ∷ xs)) && has n k) =
      fun_ext λ n. fun_ext λ k. ground arith in
    omega (arith, existing-append xs ys (without x has), ap (λ h. existing h ys) tests)

pub flat-grouped : (pairs : List (Text × Text)) → Permᴰ (flat (group [] pairs)) pairs
flat-grouped pairs = flat-group [] pairs

-- The count over names that stand for others.
pub existing-map :
    (f : Text → Text) (has : Has) (pairs : List (Text × Text))
    → ((n n' : Text) → (f n == f n') ≡ (n == n'))
    → existing has (map (λ p. (f p.0, p.1)) pairs) ≡ existing (λ n k. has (f n) k) pairs
unfolding existing
existing-map f has [] inj = refl
existing-map f has ((n, k) ∷ pairs) inj =
    ap (λ c. (if has (f n) k then 1 else 0) + c)
      (existing-map f (without (f n, k) has) pairs inj
        ∙ ap (λ h. existing h pairs) (fun_ext λ m. fun_ext λ j. ground (arith, inj n m)))
