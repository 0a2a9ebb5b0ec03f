-- ===== src/Saver/Threads/Copied.antt =====
-- python/swarmstate/integrations/langgraph.py: what one loop of `copy_thread` copies.
use swarmstate.Prelude.{
  ◌≡◌, refl, ap, ◌∙◌, sym, Bool, true, false, Option, none, some, List, [], ◌∷◌, arith, or_else,
  contains, ◌==◌, eq_iff, eq_refl, if◌then◌else◌, Bool-cases, inl, inr,
}
use swarmstate.Prelude.Result.{ok}
use swarmstate.Store.{StoreLike, IsStore}
use swarmstate.Text.{Text, text_eq}
use swarmstate.Saver.{Langgraph, Stored, Options}
use swarmstate.Saver.Names.{split, has_sep}
use swarmstate.Saver.Names.Parts.{
  in_thread, split-in_thread, moved_to, moved_to_eq, second_is-parts, second_is-moved_to,
}
use swarmstate.Saver.Access.{second_is}
use swarmstate.Saver.Threads.Manage.{copy_namespaces}
use swarmstate.Saver.Threads.Rows.{copy_of, Readable, find-wrote}

module _ {V : Type 0} (L : Langgraph V) (S : StoreLike Stored) (laws : IsStore S) (o : Options)
    (source target : Text) where
  abbrev pub AllSecond : List Text → Type 0
  AllSecond [] = Unit
  AllSecond (ns ∷ nss) = (second_is source (split ns) ≡ true) × AllSecond nss

  abbrev pub AllReadable : Bool → S.State → List Text → Type 0
  AllReadable is_ck s [] = Unit
  AllReadable is_ck s (ns ∷ nss) =
      Readable L S laws o source target is_ck s ns × AllReadable is_ck s nss

  -- The store after the loop.
  abbrev pub Copies : Bool → S.State → List Text → S.State → Type 0
  Copies is_ck s nss s' =
      ((kind rest k : Text)
        → has_sep kind ≡ false
        → laws.find s' (in_thread kind target rest) k ≡ (
            if contains (in_thread kind source rest) nss
            then or_else
                (copy_of L S laws o source target is_ck
                  (laws.find s (in_thread kind source rest) k))
                (laws.find s (in_thread kind target rest) k)
            else laws.find s (in_thread kind target rest) k))
      × ((n k : Text) → second_is target (split n) ≡ false → laws.find s' n k ≡ laws.find s n k)

  module _ (h : has_sep source ≡ false) (h' : has_sep target ≡ false)
      (distinct : (source == target) ≡ false) where
    -- A namespace of the source is none of the target.
    pub not_second :
        (n : Text) → second_is source (split n) ≡ true → second_is target (split n) ≡ false
    unfolding second_is
    not_second n q = let (p, ps, e) = second_is-parts source (split n) q in rw e distinct

    pub second_is-in_thread :
        (kind t rest : Text)
        → has_sep kind ≡ false
        → has_sep t ≡ false
        → second_is t (split (in_thread kind t rest)) ≡ true
    unfolding second_is
    second_is-in_thread kind t rest k p = rw (split-in_thread kind t rest k p) (eq_refl t)

    not_moved :
        (ns n : Text)
        → second_is source (split ns) ≡ true
        → second_is target (split n) ≡ false
        → (moved_to target ns == n) ≡ false
    not_moved ns n q p = elim (Bool-cases (moved_to target ns == n)) [
      | inl e ↦ absurd (
          ground (
            arith,
            p,
            second_is-moved_to source target ns h' q,
            ap (λ t. second_is target (split t)) ((eq_iff (moved_to target ns) n).0 e),
          ))
      | inr e ↦ e
    ]

    kept :
        (s s1 : S.State)
        → ((n k : Text) → second_is target (split n) ≡ false → laws.find s1 n k ≡ laws.find s n k)
        → (is_ck : Bool) (nss : List Text) → AllSecond nss
        → AllReadable is_ck s nss
        → AllReadable is_ck s1 nss
    kept s s1 same is_ck [] a r = tt
    kept s s1 same is_ck (ns ∷ nss) a r = (
      λ k v e. r.0 k v (sym (same ns k (not_second ns a.0)) ∙ e),
      kept s s1 same is_ck nss a.1 r.1,
    )

    twice : {A : Type 0} (a b : Option A) → or_else a (or_else a b) ≡ or_else a b
    twice none b = refl
    twice (some x) b = refl

    pub copy_namespaces-Copies :
        (is_ck : Bool) (nss : List Text) (s : S.State)
        → AllSecond nss
        → AllReadable is_ck s nss
        → (s' : S.State) × (copy_namespaces L S o is_ck source target nss s ≡ (ok tt, s'))
          × Copies is_ck s nss s'
    unfolding copy_namespaces contains
    copy_namespaces-Copies is_ck [] s a r = (s, refl, (λ kind rest k p. refl, λ n k p. refl))
    copy_namespaces-Copies is_ck (ns ∷ nss) s a r =
        let (s1, e, w) = find-wrote L S laws o source target is_ck s ns a.0 r.0 in
        let same : (n k : Text)
            → second_is target (split n) ≡ false
            → laws.find s1 n k ≡ laws.find s n k =
          λ n k p. w n k ∙ rw (not_moved ns n a.0 p) refl in
        let (s2, e', c) =
          copy_namespaces-Copies is_ck nss s1 a.1 (kept s s1 same is_ck nss a.1 r.1) in
        (
          s2,
          rw e e',
          (
            λ kind rest k p.
                let from = in_thread kind source rest in
                let to = in_thread kind target rest in
                c.0 kind rest k p
                ∙ rw
                    (
                      same from k (not_second from (second_is-in_thread kind source rest p h)),
                      w to k,
                      moved_to_eq source target ns kind rest h h' p a.0,
                    )
                    (elim (Bool-cases (ns == from)) [
                      | inl q ↦
                          rw (q, (eq_iff ns from).0 q)
                            (ground (
                              arith,
                              twice (copy_of L S laws o source target is_ck (laws.find s from k))
                                  (laws.find s to k),
                            ))
                      | inr q ↦ rw q refl
                    ]),
            λ n k p. c.1 n k p ∙ same n k p,
          ),
        )
