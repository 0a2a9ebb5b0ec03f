-- ===== src/Saver/Names/Parts.antt =====
-- The parts of a namespace: splitting and joining, and the namespace of another thread.
use swarmstate.Prelude.{
  ℕ, ◌≡◌, refl, ap, ◌∙◌, sym, true, false, List, [], ◌∷◌, ◌++◌, arith, nat_eq, ◌==◌, eq_iff,
  eq_refl, Bool-cases, Bool-ext, inl, inr,
}
use swarmstate.Text.{Text, text_eq}
use swarmstate.Saver.Names.{sep, split, has_sep}
use swarmstate.Saver.Names.Distinct.{split-joined}
use swarmstate.Saver.Access.{second_is}

-- `_SEP.join(parts)`
unfoldable pub join : List Text → Text
join [] = []
join (p ∷ []) = p
join (p ∷ q ∷ parts) = p ++ (sep ∷ join (q ∷ parts))

pub split-cases : (s : Text) → (p : Text) × (ps : List Text) × (split s ≡ p ∷ ps)
unfolding split
split-cases [] = ([], [], refl)
split-cases (c ∷ s) = elim (Bool-cases (nat_eq c sep)) [
  | inl e ↦ ([], split s, rw e refl)
  | inr e ↦ let (p, ps, q) = split-cases s in (c ∷ p, ps, rw e (rw q refl))
]

join-cons_head : (c : ℕ) (p : Text) (ps : List Text) → join ((c ∷ p) ∷ ps) ≡ c ∷ join (p ∷ ps)
unfolding join
join-cons_head c p [] = refl
join-cons_head c p (q ∷ ps) = refl

pub join-split : (s : Text) → join (split s) ≡ s
unfolding join split
join-split [] = refl
join-split (c ∷ s) =
    let (p, ps, q) = split-cases s in
    let ih = join-split s in
    elim (Bool-cases (nat_eq c sep)) [
      | inl e ↦
          let c_sep : c ≡ sep = ground (arith, e) in
          rw (e, q) (rw c_sep (ap (◌∷◌ sep) (rw q at ih)))
      | inr e ↦ rw (e, q) (join-cons_head c p ps ∙ ap (◌∷◌ c) (rw q at ih))
    ]

abbrev AllPlain : List Text → Type 0
AllPlain [] = Unit
AllPlain (p ∷ ps) = (has_sep p ≡ false) × AllPlain ps

split-AllPlain : (s : Text) → AllPlain (split s)
unfolding split has_sep
split-AllPlain [] = (refl, tt)
split-AllPlain (c ∷ s) =
    let (p, ps, q) = split-cases s in
    let rest = split-AllPlain s in
    let ih : AllPlain (p ∷ ps) = rw q at rest in
    elim (Bool-cases (nat_eq c sep)) [
      | inl e ↦ rw e (refl, rest)
      | inr e ↦ rw (e, q) (ground (arith, e, ih.0), ih.1)
    ]

split-plain : (p : Text) → has_sep p ≡ false → split p ≡ p ∷ []
unfolding split has_sep
split-plain [] h = refl
split-plain (c ∷ p) h = ground (arith, split-plain p)

split-join : (p : Text) (ps : List Text) → AllPlain (p ∷ ps) → split (join (p ∷ ps)) ≡ p ∷ ps
unfolding join
split-join p [] h = split-plain p h.0
split-join p (q ∷ ps) h = split-joined p (join (q ∷ ps)) h.0 ∙ ap (◌∷◌ p) (split-join q ps h.1)

-- A namespace of a thread.
abbrev pub in_thread : Text → Text → Text → Text
in_thread kind t rest = kind ++ (sep ∷ t ++ (sep ∷ rest))

pub split-in_thread :
    (kind t rest : Text)
    → has_sep kind ≡ false
    → has_sep t ≡ false
    → split (in_thread kind t rest) ≡ kind ∷ t ∷ split rest
split-in_thread kind t rest h h' =
    split-joined kind (t ++ (sep ∷ rest)) h ∙ ap (◌∷◌ kind) (split-joined t rest h')

pub second_is-parts :
    (t : Text) (parts : List Text)
    → second_is t parts ≡ true
    → (p : Text) × (ps : List Text) × (parts ≡ p ∷ t ∷ ps)
unfolding second_is
second_is-parts t [] h = absurd (ground (arith, h))
second_is-parts t (p ∷ []) h = absurd (ground (arith, h))
second_is-parts t (p ∷ q ∷ ps) h = (p, ps, ap (λ x. p ∷ x ∷ ps) ((eq_iff q t).0 h))

-- `parts[1] = target`, where there is such a part
abbrev pub with_second : Text → List Text → List Text
with_second target [] = []
with_second target (p ∷ []) = p ∷ []
with_second target (p ∷ q ∷ parts) = p ∷ target ∷ parts

-- The namespace of the same name in another thread.
abbrev pub moved_to : Text → Text → Text
moved_to target ns = join (with_second target (split ns))

-- Texts that split into the same parts are equal.
split_injective : (s t : Text) → split s ≡ split t → s ≡ t
split_injective s t e = sym (join-split s) ∙ ap join e ∙ join-split t

-- Of the namespaces of a thread, one alone goes to a given namespace of another.
pub moved_to_eq :
    (source target ns kind rest : Text)
    → has_sep source ≡ false
    → has_sep target ≡ false
    → has_sep kind ≡ false
    → second_is source (split ns) ≡ true
    → (moved_to target ns == in_thread kind target rest) ≡ (ns == in_thread kind source rest)
moved_to_eq source target ns kind rest h h' k s =
    let (p, ps, e) = second_is-parts source (split ns) s in
    let all = split-AllPlain ns in
    let plain : AllPlain (p ∷ source ∷ ps) = rw e at all in
    let image : split (moved_to target ns) ≡ p ∷ target ∷ ps =
      ap (λ x. split (join (with_second target x))) e
      ∙ split-join p (target ∷ ps) (plain.0, (h', plain.1.1)) in
    let there = split-in_thread kind target rest k h' in
    let here = split-in_thread kind source rest k h in
    Bool-ext _ _
      (λ x.
        let same : p ∷ target ∷ ps ≡ kind ∷ target ∷ split rest =
          sym image
          ∙ ap split ((eq_iff (moved_to target ns) (in_thread kind target rest)).0 x)
          ∙ there in
        (eq_iff ns (in_thread kind source rest)).1 (
          split_injective ns (in_thread kind source rest)
            (e ∙ swap p kind ps (split rest) same ∙ sym here)))
      (λ x.
        let same : p ∷ source ∷ ps ≡ kind ∷ source ∷ split rest =
          sym e ∙ ap split ((eq_iff ns (in_thread kind source rest)).0 x) ∙ here in
        (eq_iff (moved_to target ns) (in_thread kind target rest)).1 (
          split_injective (moved_to target ns) (in_thread kind target rest)
            (image ∙ swap p kind ps (split rest) same ∙ sym there)))
  where
    swap :
        {t u : Text} (p q : Text) (ps qs : List Text)
        → p ∷ t ∷ ps ≡ q ∷ t ∷ qs
        → p ∷ u ∷ ps ≡ q ∷ u ∷ qs
    swap p q ps qs e = cc

-- Such a namespace is none of a third thread.
pub second_is-moved_to :
    (source target ns : Text)
    → has_sep target ≡ false
    → second_is source (split ns) ≡ true
    → second_is target (split (moved_to target ns)) ≡ true
unfolding second_is
second_is-moved_to source target ns h' s =
    let (p, ps, e) = second_is-parts source (split ns) s in
    let all = split-AllPlain ns in
    let plain : AllPlain (p ∷ source ∷ ps) = rw e at all in
    rw
      (ap (λ x. split (join (with_second target x))) e
        ∙ split-join p (target ∷ ps) (plain.0, (h', plain.1.1)))
      (eq_refl target)
