-- ===== src/Crewai/Ranking.antt =====
-- python/swarmstate/integrations/crewai.py: what `search` answers.
use mathlib.Core.List.{Memᴰ}
use mathlib.Core.List.Memᴰ
use mathlib.Core.List.Memᴰ.{head, tail}
use swarmstate.Prelude.{
  ℕ, ◌≤◌, ◌≡◌, refl, ap, ◌∙◌, sym, arith, ◌↔◌, ◌⊎◌, inl, inr, true, false, Option, none, some, List,
  [], ◌∷◌, map, length, length-take-le, contains, eq_iff, ◌==◌, Bool-cases, Option-cases,
}
use swarmstate.Prelude.Sort.{IsSorted, sort, sort-IsSorted}
use swarmstate.Prelude.Best.{mem_of_take, mem-sort, mem_of_sort, take-IsSorted, taken_or_left}
use swarmstate.Prelude.Decimal.{pos}
use swarmstate.Store.{StoreLike, IsStore}
use swarmstate.Text.{Text, text_eq}
use swarmstate.Text.Order.{lt_asymm, le_trans}
use swarmstate.Crewai.{
  Entry, Python, Storage, Hit, above, answer, tokens, score, with_entry, hits, best, search,
}

module _ {J F : Type 0} (P : Python J F) (equal_iff : (a b : F) → (P.equal a b ≡ true) ↔ (a ≡ b))
    (less_asymm : (a b : F) → P.less a b ≡ true → P.less b a ≡ false)
    (less_chain : (a b c : F) → P.less a b ≡ false → P.less b c ≡ false → P.less a c ≡ false)
    (less_total : (a b : F) → P.less a b ≡ false → P.less b a ≡ false → a ≡ b) where
  above-asymm : (x y : Hit P) → above P x y ≡ true → above P y x ≡ false
  above-asymm x y h =
      ground (arith, h, equal_iff x.1 y.1, equal_iff y.1 x.1, lt_asymm y.0 x.0, less_asymm y.1 x.1)

  above-chain : (x y z : Hit P) → above P y x ≡ false → above P z y ≡ false → above P z x ≡ false
  above-chain x y z h k = ground (
    arith,
    h,
    k,
    equal_iff y.1 x.1,
    equal_iff z.1 y.1,
    equal_iff z.1 x.1,
    lt_asymm z.0 x.0,
    le_trans z.0 y.0 x.0,
    less_chain x.1 y.1 z.1,
    less_total x.1 y.1,
    less_total y.1 z.1,
    less_total x.1 z.1,
  )

  module _ (S : StoreLike (Entry J)) (laws : IsStore S) (namespace : Text) where
    -- An entry of the namespace whose score reaches the threshold, with its key and score.
    abbrev pub IsHit : Text → F → Storage S → Hit P → Type 0
    IsHit query threshold st h =
        (laws.find st.store namespace h.0 ≡ some (some h.2))
        × (h.1 ≡ score P (tokens P query) h.2.value)
        × (P.less h.1 threshold ≡ false)

    get_of_found :
        (s : S.State) (k : Text) (e : Entry J)
        → laws.find s namespace k ≡ some (some e)
        → S.get s namespace k none ≡ some e
    get_of_found s k e h = ground (arith, h, laws.get_lem s namespace k none)

    found_of_get :
        (s : S.State) (k : Text) (e : Entry J)
        → S.get s namespace k none ≡ some e
        → laws.find s namespace k ≡ some (some e)
    found_of_get s k e h = elim (Option-cases (laws.find s namespace k)) [
      | inl n ↦ absurd (ground (arith, h, n, laws.get_lem s namespace k none))
      | inr (v, n) ↦ ground (arith, h, n, laws.get_lem s namespace k none)
    ]

    mem_of_hits :
        (q : List Text) (threshold : F) (s : S.State) (ks : List Text) (h : Hit P)
        → Memᴰ h (hits P S namespace q threshold s ks)
        → (S.get s namespace h.0 none ≡ some h.2)
          × (h.1 ≡ score P q h.2.value)
          × (P.less h.1 threshold ≡ false)
    unfolding hits
    mem_of_hits q threshold s [] h m = elim m [ ]
    mem_of_hits q threshold s (k ∷ ks) h m = elim (Option-cases (S.get s namespace k none)) [
      | inl e ↦ mem_of_hits q threshold s ks h (rw e at m)
      | inr (entry, e) ↦ elim (Bool-cases (P.less (score P q entry.value) threshold)) [
        | inl l ↦ mem_of_hits q threshold s ks h (rw (e, l) at m)
        | inr l ↦ elim (Memᴰ.cases_cons (rw (e, l) at m)) [
          | inl here ↦ rw here (e, refl, l)
          | inr later ↦ mem_of_hits q threshold s ks h later
        ]
      ]
    ]

    mem-with_entry :
        (q : List Text) (threshold : F) (k : Text) (found : Option (Entry J)) (rest : List (Hit P))
        (h : Hit P)
        → Memᴰ h rest
        → Memᴰ h (with_entry P S namespace q threshold k found rest)
    mem-with_entry q threshold k none rest h m = m
    mem-with_entry q threshold k (some e) rest h m =
        elim (Bool-cases (P.less (score P q e.value) threshold)) [
          | inl l ↦ rw l m
          | inr l ↦ rw l (tail m)
        ]

    mem-hits :
        (q : List Text) (threshold : F) (s : S.State) (ks : List Text) (h : Hit P)
        → contains h.0 ks ≡ true
        → S.get s namespace h.0 none ≡ some h.2
        → h.1 ≡ score P q h.2.value
        → P.less h.1 threshold ≡ false
        → Memᴰ h (hits P S namespace q threshold s ks)
    unfolding hits contains
    mem-hits q threshold s [] h c e f g = absurd (ground (arith, c))
    mem-hits q threshold s (k ∷ ks) h c e f g = elim (Bool-cases (k == h.0)) [
      | inl p ↦
          let named : h ≡ (k, score P q h.2.value, h.2) = ground (arith, (eq_iff k h.0).0 p, f) in
          rw (ap (λ t. S.get s namespace t none) ((eq_iff k h.0).0 p) ∙ e)
            (rw (ap (λ x. P.less x threshold) (sym f) ∙ g) (head named))
      | inr p ↦
          mem-with_entry q threshold k (S.get s namespace k none)
            (hits P S namespace q threshold s ks) h
            (mem-hits q threshold s ks h (ground (arith, c, p)) e f g)
    ]

    mem_of_ranked :
        (query : Text) (threshold : F) (st : Storage S) (h : Hit P)
        → Memᴰ h (
            hits P S namespace (tokens P query) threshold st.store (S.keys st.store namespace none))
        → IsHit query threshold st h
    mem_of_ranked query threshold st h m =
        let (e, f, g) =
          mem_of_hits (tokens P query) threshold st.store (S.keys st.store namespace none) h m in
        (found_of_get st.store h.0 h.2 e, f, g)

    -- With a limit that is not negative, and scores in a linear order, `search` answers at most as
    -- many entries as the limit, the greatest pair of score and key first; each one is stored in
    -- the namespace with the score that it is ranked by, which reaches the threshold; and a stored
    -- entry that reaches the threshold and is not answered is left out because the limit is reached
    -- by others, none of which it goes before.
    pub search-best :
        (query : Text) (n : ℕ) (threshold : F) (st : Storage S)
        → (search P S namespace query (pos n) threshold st
            ≡ map (answer P) (best P S namespace query (pos n) threshold st))
          × (length (best P S namespace query (pos n) threshold st) ≤ n)
          × IsSorted (above P) (best P S namespace query (pos n) threshold st)
          × ((h : Hit P)
              → Memᴰ h (best P S namespace query (pos n) threshold st)
              → IsHit query threshold st h)
          × ((h : Hit P)
              → IsHit query threshold st h
              → Memᴰ h (best P S namespace query (pos n) threshold st)
                ⊎ ((length (best P S namespace query (pos n) threshold st) ≡ n)
                    × ((y : Hit P)
                        → Memᴰ y (best P S namespace query (pos n) threshold st)
                        → above P h y ≡ false)))
    unfolding search best
    search-best query n threshold st =
        let found =
          hits P S namespace (tokens P query) threshold st.store (S.keys st.store namespace none) in
        let ranked = sort (above P) found in
        let s : IsSorted (above P) ranked = sort-IsSorted (above P) above-asymm above-chain found in
        (
          refl,
          length-take-le n ranked,
          take-IsSorted (above P) n ranked s,
          λ h m.
              mem_of_ranked query threshold st h
                (mem_of_sort (above P) h found (mem_of_take h n ranked m)),
          λ h (e, f, g). taken_or_left (above P) h n ranked s (
              mem-sort (above P) h found (
                mem-hits (tokens P query) threshold st.store (S.keys st.store namespace none) h
                  (ground (arith, e, laws.contains-keys st.store namespace h.0))
                  (get_of_found st.store h.0 h.2 e) f g)),
        )
