-- ===== src/Crewai/Growth.antt =====
-- python/swarmstate/integrations/crewai.py: the memory after any number of `save` and `reset`.
use swarmstate.Prelude.{
  ℕ, ◌+◌, ◌≡◌, refl, ap, ◌∙◌, arith, true, false, ◌||◌, ◌&&◌, Option, none, some, List, [], ◌∷◌,
  contains, eq_iff, ◌==◌, if◌then◌else◌, Bool-cases, inl, inr,
}
use swarmstate.Prelude.Dict.{Dict}
use swarmstate.Prelude.Distinct.{length-IsDistinct}
use swarmstate.Prelude.Decimal.{pos}
use swarmstate.Prelude.Result.{ok}
use swarmstate.Store.{StoreLike, IsStore}
use swarmstate.Text.{Text, text_eq}
use swarmstate.Crewai.{
  Entry, Python, Storage, Value, padded, before_dash, key_of, next_seq, save, delete_all, reset,
  len, as_text,
}
use swarmstate.Crewai.Keys.{Bounded, next_key_fresh, next_seq-above, int-key_of}

-- A use of the storage.
pub data Use (J : Type 0) : Type 0 where
  saved : Value J → Option (Dict Text J) → Text → Use J
  wiped : Use J

-- How many entries there are after some uses.
unfoldable pub grown : {J : Type 0} → List (Use J) → ℕ → ℕ
grown [] n = n
grown (saved v m suffix ∷ uses) n = grown uses (n + 1)
grown (wiped ∷ uses) n = grown uses 0

module _ {J F : Type 0} (P : Python J F) (S : StoreLike (Entry J)) (laws : IsStore S)
    (namespace : Text) where
  unfoldable pub used : List (Use J) → Storage S → Storage S
  used [] st = st
  used (saved v m suffix ∷ uses) st = used uses (save P S namespace v m suffix st)
  used (wiped ∷ uses) st = used uses (reset P S namespace st)

  abbrev pub saved_entry : Value J → Option (Dict Text J) → Entry J
  saved_entry v m = record { value = as_text P v; metadata = (elim m [ none ↦ [] | some d ↦ d ]) }

  contains-keys-save :
      (v : Value J) (m : Option (Dict Text J)) (suffix : Text) (st : Storage S) (k : Text)
      → contains k (S.keys (save P S namespace v m suffix st).store namespace none) ≡ (
          key_of (next_seq P S namespace st) suffix == k
          || contains k (S.keys st.store namespace none))
  unfolding save
  contains-keys-save v m suffix st k = ground (
    arith,
    laws.contains-keys (save P S namespace v m suffix st).store namespace k,
    laws.contains-keys st.store namespace k,
    laws.find-set st.store namespace (key_of (next_seq P S namespace st) suffix)
        (some (record { value = as_text P v; metadata = (elim m [ none ↦ [] | some d ↦ d ]) }))
        namespace k,
    eq_iff namespace namespace,
  )

  find-delete_all :
      (s : S.State) (ks : List Text) (n k : Text)
      → laws.find (delete_all P S namespace s ks) n k
        ≡ (if namespace == n && contains k ks then none else laws.find s n k)
  unfolding delete_all contains
  find-delete_all s [] n k = ground arith
  find-delete_all s (j ∷ ks) n k =
      ground (
        arith,
        find-delete_all (S.delete s namespace j).0 ks n k,
        laws.find-delete s namespace j n k,
      )

  contains-keys-reset :
      (st : Storage S) (k : Text)
      → contains k (S.keys (reset P S namespace st).store namespace none) ≡ false
  unfolding reset
  contains-keys-reset st k = ground (
    arith,
    laws.contains-keys (reset P S namespace st).store namespace k,
    find-delete_all st.store (S.keys st.store namespace none) namespace k,
    laws.contains-keys st.store namespace k,
    eq_iff namespace namespace,
  )

  emptied :
      (st : Storage S) (k : Text) → laws.find (reset P S namespace st).store namespace k ≡ none
  emptied st k = ground (
    arith,
    contains-keys-reset st k,
    laws.contains-keys (reset P S namespace st).store namespace k,
  )

  -- `reset` leaves nothing in the namespace, and everything else.
  find-reset :
      (st : Storage S) (n k : Text)
      → laws.find (reset P S namespace st).store n k
        ≡ (if namespace == n then none else laws.find st.store n k)
  unfolding reset
  find-reset st n k = elim (Bool-cases (namespace == n)) [
    | inl e ↦ rw e (let q : namespace ≡ n = (eq_iff namespace n).0 e in rw (← q) (emptied st k))
    | inr e ↦
        rw e (ground (arith, e, find-delete_all st.store (S.keys st.store namespace none) n k))
  ]

  len-reset : (st : Storage S) → len P S namespace (reset P S namespace st) ≡ 0
  unfolding len contains
  len-reset st =
      length-IsDistinct (S.keys (reset P S namespace st).store namespace none) []
        (laws.keys-IsDistinct (reset P S namespace st).store namespace) tt
        (λ k. contains-keys-reset st k)

  module _ (int-padded : (n : ℕ) → P.int (padded n) ≡ ok (pos n)) where
    len-save :
        (v : Value J) (m : Option (Dict Text J)) (suffix : Text) (st : Storage S)
        → Bounded P S laws namespace st
        → len P S namespace (save P S namespace v m suffix st) ≡ len P S namespace st + 1
    unfolding len contains
    len-save v m suffix st b = omega (
      arith,
      length-IsDistinct (S.keys (save P S namespace v m suffix st).store namespace none)
          (key_of (next_seq P S namespace st) suffix ∷ S.keys st.store namespace none)
          (laws.keys-IsDistinct (save P S namespace v m suffix st).store namespace)
          (
            next_key_fresh P S laws namespace int-padded st suffix b,
            laws.keys-IsDistinct st.store namespace,
          )
          (contains-keys-save v m suffix st),
    )

    save-Bounded :
        (v : Value J) (m : Option (Dict Text J)) (suffix : Text) (st : Storage S)
        → Bounded P S laws namespace st
        → Bounded P S laws namespace (save P S namespace v m suffix st)
    unfolding save
    save-Bounded v m suffix st b k n l e c p =
        elim (Bool-cases (key_of (next_seq P S namespace st) suffix == k)) [
          | inl q ↦ ground (
            arith,
            e,
            p,
            int-key_of P S laws namespace int-padded (next_seq P S namespace st) suffix,
            ap (λ t. P.int (before_dash t))
                ((eq_iff (key_of (next_seq P S namespace st) suffix) k).0 q),
          )
          | inr q ↦
              let old : contains k (S.keys st.store namespace none) ≡ true =
                ground (arith, c, q, contains-keys-save v m suffix st k) in
              ground (arith, e, next_seq-above P S laws namespace int-padded st k n b old p)
        ]

    reset-Bounded : (st : Storage S) → Bounded P S laws namespace (reset P S namespace st)
    reset-Bounded st k n l e c p = absurd (ground (arith, c, contains-keys-reset st k))

    used-Bounded :
        (uses : List (Use J)) (st : Storage S)
        → Bounded P S laws namespace st
        → Bounded P S laws namespace (used uses st)
    unfolding used
    used-Bounded [] st b = b
    used-Bounded (saved v m suffix ∷ uses) st b =
        used-Bounded uses (save P S namespace v m suffix st) (save-Bounded v m suffix st b)
    used-Bounded (wiped ∷ uses) st b = used-Bounded uses (reset P S namespace st) (reset-Bounded st)

    len-used :
        (uses : List (Use J)) (st : Storage S)
        → Bounded P S laws namespace st
        → len P S namespace (used uses st) ≡ grown uses (len P S namespace st)
    unfolding used grown
    len-used [] st b = refl
    len-used (saved v m suffix ∷ uses) st b =
        len-used uses (save P S namespace v m suffix st) (save-Bounded v m suffix st b)
        ∙ ap (grown uses) (len-save v m suffix st b)
    len-used (wiped ∷ uses) st b =
        len-used uses (reset P S namespace st) (reset-Bounded st) ∙ ap (grown uses) (len-reset st)

    find-save :
        (v : Value J) (m : Option (Dict Text J)) (suffix : Text) (st : Storage S) (n k : Text)
        → laws.find (save P S namespace v m suffix st).store n k ≡ (
            if namespace == n && key_of (next_seq P S namespace st) suffix == k
            then some (some (saved_entry v m))
            else laws.find st.store n k)
    unfolding save
    find-save v m suffix st n k =
        laws.find-set st.store namespace (key_of (next_seq P S namespace st) suffix)
          (some (saved_entry v m)) n k

    elsewhere :
        (uses : List (Use J)) (st : Storage S) (n k : Text)
        → (namespace == n) ≡ false
        → laws.find (used uses st).store n k ≡ laws.find st.store n k
    unfolding used
    elsewhere [] st n k h = refl
    elsewhere (saved v m suffix ∷ uses) st n k h =
        elsewhere uses (save P S namespace v m suffix st) n k h
        ∙ ground (arith, find-save v m suffix st n k, h)
    elsewhere (wiped ∷ uses) st n k h =
        elsewhere uses (reset P S namespace st) n k h ∙ ground (arith, find-reset st n k, h)

    -- A memory that is opened on a store with any content and used alone, for any sequence of
    -- `save` and `reset`: its length is that at the start, one more for each `save` and 0 after
    -- each `reset`; every other namespace is as before; and a further `save` stores its entry under
    -- a key that had none and changes nothing else, whatever the random suffixes are, where `int`
    -- reads back a padded number.
    pub save-used :
        (s : S.State) (uses : List (Use J)) (v : Value J) (m : Option (Dict Text J)) (suffix : Text)
        → let start : Storage S = record { store = s; seq = none } in
          let st = used uses start in
          (len P S namespace st ≡ grown uses (len P S namespace start))
          × ((n k : Text) → (namespace == n) ≡ false → laws.find st.store n k ≡ laws.find s n k)
          × ((k : Text) × ((n j : Text)
                → laws.find (save P S namespace v m suffix st).store n j ≡ (
                    if namespace == n && k == j
                    then some (some (saved_entry v m))
                    else laws.find st.store n j))
              × (laws.find st.store namespace k ≡ none))
    save-used s uses v m suffix =
        let start : Storage S = record { store = s; seq = none } in
        let b : Bounded P S laws namespace start = λ k n l e c p. absurd (ground (arith, e)) in
        let st = used uses start in
        let key = key_of (next_seq P S namespace st) suffix in
        (
          len-used uses start b,
          elsewhere uses start,
          (
            key,
            find-save v m suffix st,
            ground (
              arith,
              next_key_fresh P S laws namespace int-padded st suffix (used-Bounded uses start b),
              laws.contains-keys st.store namespace key,
            ),
          ),
        )
