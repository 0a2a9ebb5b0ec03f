-- ===== src/Portability/Copy.antt =====
-- What `copy_store` leaves in the destination, and how many entries it counts.
use native.Mathlib.Nat.{zero-add}
use swarmstate.Prelude.{
  ℕ, ◌+◌, ◌<◌, ◌≡◌, refl, ap, sym, ◌∙◌, Bool, true, false, ◌&&◌, Option, none, some, List, [], ◌∷◌,
  map, arith, length, is_some, is_nil, ltb, or_else, or_else_assoc, get_or, if◌then◌else◌, ◌==◌,
  eq_iff, contains, length-append,
}
use swarmstate.Prelude.Chunks.{
  chunks, concat, concat-append, concat-chunks, in_chunks, in_chunks-chunks,
}
use swarmstate.Prelude.Result.{ok}
use swarmstate.Text.{Text, text_eq, starts_with}
use swarmstate.Prefix.{is_text}
use swarmstate.Store.{StoreLike, IsStore, written, written-append}
use swarmstate.Portability.{
  Entry, kept, chunk_entries, namespace_entries, entries, copy_batches, copy_store,
}

-- How many entries some namespaces hold.
unfoldable pub total : {A : Type 0} (S : StoreLike A) → S.State → List Text → ℕ
total S s [] = 0
total S s (ns ∷ nss) = length (S.keys s ns none) + total S s nss

-- Whether `prefix` selects a namespace.
abbrev pub selects : Option Text → Text → Bool
selects none n = true
selects (some p) n = starts_with n p

not-contains_of_nil : (k : Text) (l : List Text) → is_nil l ≡ true → contains k l ≡ false
unfolding contains
not-contains_of_nil k [] h = refl
not-contains_of_nil k (x ∷ l) h = absurd (ground arith)

module _ {A : Type 0} (S : StoreLike A) (laws : IsStore S) (s : S.State) where
  abbrev at : Text → Text → Option (Option A)
  at n k = laws.find s n k

  -- The entries that are stored under some keys of a namespace.
  stored : Text → List Text → List (Entry A)
  stored ns [] = []
  stored ns (k ∷ ks) = elim (at ns k) [ none ↦ stored ns ks | some v ↦ (ns, k, v) ∷ stored ns ks ]

  kept-eq-stored :
      (ns : Text) (ks : List Text)
      → kept S s ns ks (map (λ (p : Text × Text). get_or (at p.0 p.1) none) (map (λ k. (ns, k)) ks))
        ≡ stored ns ks
  unfolding kept stored
  kept-eq-stored ns [] = refl
  kept-eq-stored ns (k ∷ ks) = ground (arith, kept-eq-stored ns ks, laws.has_lem s ns k)

  chunk_entries-eq-stored : (ns : Text) (ks : List Text) → chunk_entries S s ns ks ≡ stored ns ks
  unfolding chunk_entries
  chunk_entries-eq-stored ns ks = rw laws.get_many_lem (kept-eq-stored ns ks)

  written-stored :
      (ns : Text) (ks : List Text) (n k : Text)
      → written (stored ns ks) n k ≡ (if ns == n && contains k ks then at n k else none)
  unfolding stored written contains
  written-stored ns [] n k = ground arith
  written-stored ns (j ∷ ks) n k = ground (arith, written-stored ns ks n k, eq_iff ns n, eq_iff j k)

  length-stored :
      (ns : Text) (ks : List Text)
      → ((k : Text) → contains k ks ≡ true → is_some (at ns k) ≡ true)
      → length (stored ns ks) ≡ length ks
  unfolding stored contains
  length-stored ns [] h = refl
  length-stored ns (k ∷ ks) h =
      ground (arith, h k, length-stored ns ks (λ j m. h j (ground arith)), eq_iff k k)

  -- The batches of a namespace hold its entries.
  written-namespace :
      (ns : Text) (cs : List (List Text)) (n k : Text)
      → written (concat (map (chunk_entries S s ns) cs)) n k
        ≡ (if ns == n && in_chunks k cs then at n k else none)
  unfolding concat written in_chunks
  written-namespace ns [] n k = ground arith
  written-namespace ns (c ∷ cs) n k =
      rw (chunk_entries-eq-stored, written-append)
        (ground (arith, written-stored ns c n k, written-namespace ns cs n k))

  length-namespace :
      (ns : Text) (cs : List (List Text))
      → ((k : Text) → in_chunks k cs ≡ true → is_some (at ns k) ≡ true)
      → length (concat (map (chunk_entries S s ns) cs)) ≡ length (concat cs)
  unfolding concat in_chunks
  length-namespace ns [] h = refl
  length-namespace ns (c ∷ cs) h =
      simp (chunk_entries-eq-stored, length-append)
        (omega (
          arith,
          length-stored ns c (λ k m. h k (ground arith)),
          length-namespace ns cs (λ k m. h k (ground arith)),
        ))

  module _ (size : ℕ) (positive : 0 < size) where
    in_keys :
        (ns k : Text)
        → in_chunks k (chunks (length (S.keys s ns none)) size (S.keys s ns none))
          ≡ is_some (at ns k)
    in_keys ns k =
        in_chunks-chunks k (length (S.keys s ns none)) size (S.keys s ns none) (omega arith)
          positive
        ∙ laws.contains-keys s ns k

    pub written-entries :
        (nss : List Text) (n k : Text)
        → written (concat (concat (map (namespace_entries S s size) nss))) n k
          ≡ (if contains n nss then at n k else none)
    unfolding concat namespace_entries contains written
    written-entries [] n k = refl
    written-entries (ns ∷ nss) n k =
        rw (concat-append, written-append, written-namespace)
          (ground (arith, written-entries nss n k, in_keys ns k, eq_iff ns n))

    pub length-entries :
        (nss : List Text)
        → length (concat (concat (map (namespace_entries S s size) nss))) ≡ total S s nss
    unfolding concat namespace_entries total
    length-entries [] = refl
    length-entries (ns ∷ nss) =
        let keys = S.keys s ns none in
        rw (concat-append, length-append)
          (omega (
            arith,
            length-entries nss,
            length-namespace ns (chunks (length keys) size keys) (λ k m. sym (in_keys ns k) ∙ m),
            ap length (concat-chunks (length keys) size keys (omega arith) positive),
          ))

  -- Of the namespaces that the store lists, only those that are selected hold entries.
  pub listed :
      (prefix : Option Text) (n k : Text)
      → is_text n ≡ true
      → (if contains n (S.namespaces s prefix) then at n k else none)
        ≡ (if selects prefix n then at n k else none)
  listed none n k v = ground (
    arith,
    laws.contains-namespaces s n,
    laws.contains-keys s n k,
    not-contains_of_nil k (S.keys s n none),
  )
  listed (some p) n k v = ground (
    arith,
    laws.contains-namespaces_prefix s p n v,
    laws.contains-keys s n k,
    not-contains_of_nil k (S.keys s n none),
  )

module _ {A : Type 0} (T : StoreLike A) (laws : IsStore T) where
  find-copy_batches :
      (d : T.State) (copied : ℕ) (batches : List (List (Entry A))) (n k : Text)
      → laws.find (copy_batches T d copied batches).1 n k
        ≡ or_else (written (concat batches) n k) (laws.find d n k)
  unfolding copy_batches concat written
  find-copy_batches d copied [] n k = refl
  find-copy_batches d copied ([] ∷ batches) n k = find-copy_batches d copied batches n k
  find-copy_batches d copied ((e ∷ es) ∷ batches) n k =
      find-copy_batches (T.set_many d (e ∷ es)) (copied + length (e ∷ es)) batches n k
      ∙ rw (written-append (e ∷ es) (concat batches) n k, laws.find-set_many)
          (sym
            (or_else_assoc (written (concat batches) n k) (written (e ∷ es) n k) (laws.find d n k)))

  count-copy_batches :
      (d : T.State) (copied : ℕ) (batches : List (List (Entry A)))
      → (copy_batches T d copied batches).0 ≡ copied + length (concat batches)
  unfolding copy_batches concat
  count-copy_batches d copied [] = omega arith
  count-copy_batches d copied ([] ∷ batches) = count-copy_batches d copied batches
  count-copy_batches d copied ((e ∷ es) ∷ batches) = omega (
    arith,
    count-copy_batches (T.set_many d (e ∷ es)) (copied + length (e ∷ es)) batches,
    length-append (e ∷ es) (concat batches),
  )

-- With a batch size of at least 1, `copy_store` succeeds and counts the entries of the namespaces
-- that the source lists for the prefix. Afterwards the destination holds, in every namespace that
-- the prefix selects and that UTF-8 can store, each entry of the source, a stored `None` included;
-- and everything else in such a namespace, and every other such namespace, is as before.
pub copy_store_lem :
    {A : Type 0} (S T : StoreLike A) (source : IsStore S) (target : IsStore T) (src : S.State)
    (dst : T.State) (prefix : Option Text) (size : ℕ)
    → 0 < size
    → ((copy_store S T src dst prefix size).0 ≡ ok (total S src (S.namespaces src prefix)))
      × ((n k : Text)
          → is_text n ≡ true
          → target.find (copy_store S T src dst prefix size).1 n k
            ≡ or_else
                (if selects prefix n then source.find src n k else none)
                (target.find dst n k))
unfolding copy_store entries
copy_store_lem S T source target src dst prefix size positive =
    let low : ltb size 1 ≡ false = ground arith in
    (
      rw low (
          ap ok (
            count-copy_batches T target dst 0 (entries S src prefix size)
            ∙ zero-add _
            ∙ length-entries S source src size positive (S.namespaces src prefix))),
      λ n k v. rw low (
          find-copy_batches T target dst 0 (entries S src prefix size) n k
          ∙ ap (λ o. or_else o (target.find dst n k))
              (written-entries S source src size positive (S.namespaces src prefix) n k
                ∙ listed S source src prefix n k v)),
    )
