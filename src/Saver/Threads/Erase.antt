-- ===== src/Saver/Threads/Erase.antt =====
-- What deleting a thread removes, and what it leaves.
use swarmstate.Prelude.{
  ◌≡◌, refl, ap, inl, inr, Bool, true, false, not, ◌&&◌, ◌||◌, none, some, List, [], ◌∷◌, ◌++◌, map,
  arith, is_nil, contains, contains-filter, ◌==◌, eq_iff, eq_refl, if◌then◌else◌, Bool-cases,
  pair_eq,
}
use swarmstate.Prelude.Dict.{Dict, find}
use swarmstate.Prefix.{is_text}
use swarmstate.Store.{StoreLike, IsStore}
use swarmstate.Text.{Text, text_eq, starts_with, rest_of}
use swarmstate.Saver.{Stored, Options, Saver}
use swarmstate.Saver.Names.{sep, ck, wr, bl, latest_ns, split, has_sep}
use swarmstate.Saver.Names.Distinct.{split-joined}
use swarmstate.Saver.Access.{
  second_is, thread_prefix, thread_namespaces, delete_namespace, contains_pairs, find-delete_many,
}
use swarmstate.Saver.Threads.{
  without_thread, delete_namespaces, delete_kind, delete_pointers, delete_thread,
}

-- The entries of a thread: those in its namespaces of the three kinds, and with `pointers` its
-- pointers.
unfoldable pub belongs : Bool → Text → Text → Text → Bool
belongs pointers t n k =
    (starts_with n (thread_prefix ck t) || starts_with n (thread_prefix wr t))
    || (starts_with n (thread_prefix bl t)
        || (pointers && (latest_ns == n && starts_with k (t ++ (sep ∷ [])))))

move_rest : (t u : Text) → (t ++ (sep ∷ [])) ++ u ≡ t ++ (sep ∷ u)
move_rest [] u = refl
move_rest (c ∷ t) u = ap (◌∷◌ c) (move_rest t u)

move_rest_behind :
    (p t u : Text) → (p ++ (sep ∷ t ++ (sep ∷ []))) ++ u ≡ p ++ (sep ∷ t ++ (sep ∷ u))
move_rest_behind [] t u = ap (◌∷◌ sep) (move_rest t u)
move_rest_behind (c ∷ p) t u = ap (◌∷◌ c) (move_rest_behind p t u)

-- A namespace with the prefix of a thread has the thread's id as its second part.
second_is-prefix :
    (kind t n : Text)
    → has_sep kind ≡ false
    → has_sep t ≡ false
    → starts_with n (thread_prefix kind t) ≡ true
    → second_is t (split n) ≡ true
unfolding second_is
second_is-prefix kind t n h h' q =
    let (u, e) = rest_of n (thread_prefix kind t) q in
    rw (e, move_rest_behind kind t u, split-joined kind (t ++ (sep ∷ u)) h, split-joined t u h')
      (eq_refl t)

contains-nil : (k : Text) (l : List Text) → is_nil l ≡ true → contains k l ≡ false
unfolding contains
contains-nil k [] h = refl
contains-nil k (x ∷ l) h = absurd (ground arith)

find-without_thread :
    {B : Type 0} (t t' n : Text) (d : Dict (Text × Text) B)
    → find (t', n) (without_thread t d) ≡ (if t' == t then none else find (t', n) d)
unfolding without_thread find
find-without_thread t t' n [] = ground arith
find-without_thread t t' n (((m, j), w) ∷ d) =
    ground (arith, find-without_thread t t' n d, eq_iff m t', eq_iff t' t, eq_iff m t)

module _ (S : StoreLike Stored) (laws : IsStore S) where
  find-delete_namespaces :
      (s : S.State) (nss : List Text) (n k : Text)
      → laws.find (delete_namespaces S s nss) n k
        ≡ (if contains n nss then none else laws.find s n k)
  unfolding delete_namespaces delete_namespace contains
  find-delete_namespaces s [] n k = refl
  find-delete_namespaces s (ns ∷ nss) n k = ground (
    arith,
    find-delete_namespaces (S.delete_namespace s ns).0 nss n k,
    laws.find-delete_namespace s ns n k,
  )

  -- A namespace without keys has no entry.
  pub no_entry :
      (s : S.State) (n k : Text) → is_nil (S.keys s n none) ≡ true → laws.find s n k ≡ none
  unfolding contains
  no_entry s n k h = ground (arith, laws.contains-keys s n k, contains-nil k (S.keys s n none))

  pub contains-thread_namespaces :
      (s : S.State) (kind t n : Text)
      → has_sep kind ≡ false
      → has_sep t ≡ false
      → is_text n ≡ true
      → contains n (thread_namespaces S s kind t)
        ≡ (starts_with n (thread_prefix kind t) && not (is_nil (S.keys s n none)))
  unfolding thread_namespaces
  contains-thread_namespaces s kind t n h h' v = ground (
    arith,
    contains-filter (λ ns. second_is t (split ns)) n (S.namespaces s (some (thread_prefix kind t))),
    laws.contains-namespaces_prefix s (thread_prefix kind t) n v,
    second_is-prefix kind t n h h',
  )

  find-delete_kind :
      (s : S.State) (kind t n k : Text)
      → has_sep kind ≡ false
      → has_sep t ≡ false
      → is_text n ≡ true
      → laws.find (delete_kind S t s kind) n k
        ≡ (if starts_with n (thread_prefix kind t) then none else laws.find s n k)
  unfolding delete_kind
  find-delete_kind s kind t n k h h' v = ground (
    arith,
    find-delete_namespaces s (thread_namespaces S s kind t) n k,
    contains-thread_namespaces s kind t n h h' v,
    no_entry s n k,
  )

  find-delete_pointers :
      (s : S.State) (t n k : Text)
      → is_text k ≡ true
      → laws.find (delete_pointers S t s) n k
        ≡ (if latest_ns == n && starts_with k (t ++ (sep ∷ [])) then none else laws.find s n k)
  unfolding delete_pointers
  find-delete_pointers s t n k v = ground (
    arith,
    find-delete_many S laws s
        (map (λ j. (latest_ns, j)) (S.keys s latest_ns (some (t ++ (sep ∷ []))))) n k,
    contains_pairs latest_ns n k (S.keys s latest_ns (some (t ++ (sep ∷ [])))),
    laws.contains-keys_prefix s latest_ns (t ++ (sep ∷ [])) k v,
    eq_iff latest_ns n,
  )

  find-delete_kinds :
      (s : S.State) (t n k : Text)
      → has_sep t ≡ false
      → is_text n ≡ true
      → laws.find (delete_kind S t (delete_kind S t (delete_kind S t s ck) wr) bl) n k
        ≡ (if belongs false t n k then none else laws.find s n k)
  unfolding belongs
  find-delete_kinds s t n k h v = ground (
    arith,
    find-delete_kind (delete_kind S t (delete_kind S t s ck) wr) bl t n k plain_bl h v,
    find-delete_kind (delete_kind S t s ck) wr t n k plain_wr h v,
    find-delete_kind s ck t n k plain_ck h v,
  )
    where
      plain_ck : has_sep ck ≡ false
      plain_ck = unfold has_sep in refl

      plain_wr : has_sep wr ≡ false
      plain_wr = unfold has_sep in refl

      plain_bl : has_sep bl ≡ false
      plain_bl = unfold has_sep in refl

  abbrev kinds : Text → Saver S → S.State
  kinds t st = delete_kind S t (delete_kind S t (delete_kind S t st.store ck) wr) bl

  -- Deleting a thread whose id has no separator in it removes every entry that belongs to the
  -- thread, which are those in its checkpoint, write and blob namespaces and, in a pointer store,
  -- its pointers, and leaves every other entry as it is, among the entries that UTF-8 can store;
  -- and it drops both hints of the thread for every namespace and no other hint.
  pub delete_thread-erases :
      (o : Options) (t : Text) (st : Saver S)
      → has_sep t ≡ false
      → ((n k : Text)
          → is_text n ≡ true
          → is_text k ≡ true
          → laws.find (delete_thread S o t st).store n k ≡ (
              if belongs (not o.store_indexes_max_key) t n k then none else laws.find st.store n k))
        × ((t' n : Text)
            → find (t', n) (delete_thread S o t st).max_seen
              ≡ (if t' == t then none else find (t', n) st.max_seen))
        × ((t' n : Text)
            → find (t', n) (delete_thread S o t st).prune_floor
              ≡ (if t' == t then none else find (t', n) st.prune_floor))
  unfolding delete_thread belongs
  delete_thread-erases o t st h = (
    λ n k v w. entry_lem n k v w,
    λ t' n. find-without_thread t t' n st.max_seen,
    λ t' n. find-without_thread t t' n st.prune_floor,
  )
    where
      entry_lem :
          (n k : Text)
          → is_text n ≡ true
          → is_text k ≡ true
          → laws.find
              (if not o.store_indexes_max_key then delete_pointers S t (kinds t st) else kinds t st)
              n
              k
            ≡ (if belongs (not o.store_indexes_max_key) t n k then none else laws.find st.store n k)
      entry_lem n k v w = elim (Bool-cases o.store_indexes_max_key) [
        | inl e ↦ rw e (find-delete_kinds st.store t n k h v)
        | inr e ↦ rw e (
            ground (
              arith,
              find-delete_pointers (kinds t st) t n k w,
              find-delete_kinds st.store t n k h v,
            ))
      ]
