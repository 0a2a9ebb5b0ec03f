-- ===== src/Saver/Threads/Copies.antt =====
-- python/swarmstate/integrations/langgraph.py: what `copy_thread` leaves in the store.
use swarmstate.Prelude.{
  ◌≡◌, refl, ap, ◌∙◌, true, false, Option, none, some, List, [], ◌∷◌, ◌++◌, filter, or_else, is_nil,
  ◌==◌, eq_refl, Bool-cases, inl, inr,
}
use swarmstate.Prelude.Result.{Result, ok, raise}
use swarmstate.Prefix.{is_text}
use swarmstate.Store.{StoreLike, IsStore}
use swarmstate.Text.{Text, text_eq, text_beq, starts_with}
use swarmstate.Saver.{Langgraph, Stored, Options, Saver, truthy}
use swarmstate.Saver.Names.{split, has_sep, sep, ck, wr, bl, latest_ns}
use swarmstate.Saver.Names.Distinct.{starts_with-joined}
use swarmstate.Saver.Names.Parts.{in_thread}
use swarmstate.Saver.Access.{second_is, thread_prefix, thread_namespaces}
use swarmstate.Saver.Threads.Erase.{contains-thread_namespaces, no_entry}
use swarmstate.Saver.Threads.Manage.{
  third, and_then, copy_kind, pointed_at, point_at, point_all, copy_thread,
}
use swarmstate.Saver.Threads.Rows.{copy_of}
use swarmstate.Saver.Threads.Copied.{
  AllSecond, AllReadable, Copies, copy_namespaces-Copies, not_second, second_is-in_thread,
}

module _ {V : Type 0} (L : Langgraph V) (S : StoreLike Stored) (laws : IsStore S)
    (o : Options) where
  find-pointed_at :
      (target ns newest : Text) (r : Result Text) (st : Saver S) (n k : Text)
      → (latest_ns == n) ≡ false
      → laws.find (pointed_at L S o target ns newest r st).1.store n k ≡ laws.find st.store n k
  find-pointed_at target ns newest (raise e) st n k h = refl
  find-pointed_at target ns newest (ok checkpoint_ns) st n k h =
      laws.find-set st.store latest_ns _ _ n k ∙ rw h refl

  find-point_at :
      (target ns : Text) (newest : Option Text) (st : Saver S) (n k : Text)
      → (latest_ns == n) ≡ false
      → laws.find (point_at L S o target ns newest st).1.store n k ≡ laws.find st.store n k
  find-point_at target ns none st n k h = refl
  find-point_at target ns (some newest) st n k h =
      find-pointed_at target ns newest (third (split ns)) st n k h

  find-and_then :
      (p : Result (Unit {0}) × Saver S) (next : Saver S → Result (Unit {0}) × Saver S) (n k : Text)
      → ((st : Saver S) → laws.find (next st).1.store n k ≡ laws.find st.store n k)
      → laws.find (and_then L S o p next).1.store n k ≡ laws.find p.1.store n k
  find-and_then (raise e, st) next n k h = refl
  find-and_then (ok u, st) next n k h = h st

  -- Only pointers are set.
  find-point_all :
      (target : Text) (nss : List Text) (st : Saver S) (n k : Text)
      → (latest_ns == n) ≡ false
      → laws.find (point_all L S o target nss st).1.store n k ≡ laws.find st.store n k
  unfolding point_all
  find-point_all target [] st n k h = refl
  find-point_all target (ns ∷ nss) st n k h =
      find-and_then (point_at L S o target ns (truthy (S.max_key st.store ns)) st)
        (point_all L S o target nss) n k (λ st'. find-point_all target nss st' n k h)
      ∙ find-point_at target ns (truthy (S.max_key st.store ns)) st n k h

  module _ (source target : Text) (h : has_sep source ≡ false) (h' : has_sep target ≡ false)
      (distinct : (source == target) ≡ false) where
    filter-AllSecond :
        (nss : List Text)
        → AllSecond L S laws o source target (filter (λ ns. second_is source (split ns)) nss)
    filter-AllSecond [] = tt
    filter-AllSecond (ns ∷ nss) = elim (Bool-cases (second_is source (split ns))) [
      | inl e ↦ rw e (e, filter-AllSecond nss)
      | inr e ↦ rw e (filter-AllSecond nss)
    ]

    plain-AllReadable :
        (s : S.State) (nss : List Text) → AllReadable L S laws o source target false s nss
    plain-AllReadable s [] = tt
    plain-AllReadable s (ns ∷ nss) = (λ k v e. refl, plain-AllReadable s nss)

    copy_kind-Copies :
        (kind : Text) (s : S.State)
        → AllReadable L S laws o source target (kind == ck) s (thread_namespaces S s kind source)
        → (s' : S.State) × (copy_kind L S o kind source target s ≡ (ok tt, s'))
          × Copies L S laws o source target (kind == ck) s (thread_namespaces S s kind source) s'
    unfolding copy_kind thread_namespaces
    copy_kind-Copies kind s r =
        copy_namespaces-Copies L S laws o source target h h' distinct (kind == ck)
          (thread_namespaces S s kind source) s
          (filter-AllSecond (S.namespaces s (some (thread_prefix kind source)))) r

    -- A loop over the namespaces of a kind copies those of the kind.
    same_kind :
        (kind rest k : Text) (s s' : S.State)
        → has_sep kind ≡ false
        → is_text (in_thread kind source rest) ≡ true
        → starts_with (in_thread kind source rest) (thread_prefix kind source) ≡ true
        → Copies L S laws o source target (kind == ck) s (thread_namespaces S s kind source) s'
        → laws.find s' (in_thread kind target rest) k
          ≡ or_else
              (copy_of L S laws o source target
                (kind == ck)
                (laws.find s (in_thread kind source rest) k))
              (laws.find s (in_thread kind target rest) k)
    same_kind kind rest k s s' p v q c =
        c.0 kind rest k p
        ∙ rw (contains-thread_namespaces S laws s kind source (in_thread kind source rest) p h v, q)
            (elim (Bool-cases (is_nil (S.keys s (in_thread kind source rest) none))) [
              | inl e ↦ rw (e, no_entry S laws s (in_thread kind source rest) k e) refl
              | inr e ↦ rw e refl
            ])

    other_kind :
        (kind kind' rest k : Text) (s s' : S.State)
        → has_sep kind ≡ false
        → has_sep kind' ≡ false
        → is_text (in_thread kind source rest) ≡ true
        → starts_with (in_thread kind source rest) (thread_prefix kind' source) ≡ false
        → Copies L S laws o source target (kind' == ck) s (thread_namespaces S s kind' source) s'
        → laws.find s' (in_thread kind target rest) k ≡ laws.find s (in_thread kind target rest) k
    other_kind kind kind' rest k s s' p p' v q c =
        c.0 kind rest k p
        ∙ rw
            (
              contains-thread_namespaces S laws s kind' source (in_thread kind source rest) p' h v,
              q,
            )
            refl

    -- The entries of a kind of namespace, afterwards: those of the source have the same names in
    -- the target, and what else the target had is there too.
    abbrev pub CopiedKind : Text → S.State → S.State → Type 0
    CopiedKind kind s s' =
        (rest k : Text)
        → is_text (in_thread kind source rest) ≡ true
        → laws.find s' (in_thread kind target rest) k
          ≡ or_else
              (copy_of L S laws o source target (kind == ck)
                (laws.find s (in_thread kind source rest) k))
              (laws.find s (in_thread kind target rest) k)

    -- The loops over the three kinds.
    kinds-CopiedKind :
        (s : S.State)
        → AllReadable L S laws o source target true s (thread_namespaces S s ck source)
        → (s' : S.State) × (and_then L S o
              (and_then L S o
                (copy_kind L S o ck source target s)
                (copy_kind L S o wr source target))
              (copy_kind L S o bl source target)
            ≡ (ok tt, s'))
          × CopiedKind ck s s'
          × CopiedKind wr s s'
          × CopiedKind bl s s'
          × ((n k : Text) → second_is target (split n) ≡ false → laws.find s' n k ≡ laws.find s n k)
    unfolding has_sep starts_with text_beq
    kinds-CopiedKind s r =
        let (s1, e1, c1) = copy_kind-Copies ck s r in
        let (s2, e2, c2) =
          copy_kind-Copies wr s1 (plain-AllReadable s1 (thread_namespaces S s1 wr source)) in
        let (s3, e3, c3) =
          copy_kind-Copies bl s2 (plain-AllReadable s2 (thread_namespaces S s2 bl source)) in
        let here : (rest : Text)
            → starts_with (source ++ (sep ∷ rest)) (source ++ (sep ∷ [])) ≡ true =
          λ rest. starts_with-joined source rest source h h ∙ eq_refl source in
        let from : (kind rest : Text)
            → has_sep kind ≡ false
            → second_is target (split (in_thread kind source rest)) ≡ false =
          λ kind rest p.
            not_second L S laws o source target h h' distinct (in_thread kind source rest)
              (second_is-in_thread L S laws o source target h h' distinct kind source rest p h) in
        (
          s3,
          rw (e1, e2, e3) refl,
          λ rest k v.
              other_kind ck bl rest k s2 s3 refl refl v refl c3
              ∙ other_kind ck wr rest k s1 s2 refl refl v refl c2
              ∙ same_kind ck rest k s s1 refl v (here rest) c1,
          λ rest k v.
              other_kind wr bl rest k s2 s3 refl refl v refl c3
              ∙ same_kind wr rest k s1 s2 refl v (here rest) c2
              ∙ rw (c1.1 (in_thread wr source rest) k (from wr rest refl)) (
                  ap
                    (or_else (
                      copy_of L S laws o source target false
                        (laws.find s (in_thread wr source rest) k)))
                    (other_kind wr ck rest k s s1 refl refl v refl c1)),
          λ rest k v.
              same_kind bl rest k s2 s3 refl v (here rest) c3
              ∙ rw
                  (
                    c2.1 (in_thread bl source rest) k (from bl rest refl),
                    c1.1 (in_thread bl source rest) k (from bl rest refl),
                  )
                  (ap
                    (or_else (
                      copy_of L S laws o source target false
                        (laws.find s (in_thread bl source rest) k)))
                    (other_kind bl wr rest k s1 s2 refl refl v refl c2
                      ∙ other_kind bl ck rest k s s1 refl refl v refl c1)),
          λ n k p. c3.1 n k p ∙ c2.1 n k p ∙ c1.1 n k p,
        )

    -- The pointers of the target aside, the loops decide what the store holds.
    settled :
        (st : Saver S) (s : S.State)
        → and_then L S o
            (and_then L S o
              (copy_kind L S o ck source target st.store)
              (copy_kind L S o wr source target))
            (copy_kind L S o bl source target)
          ≡ (ok tt, s)
        → (n k : Text) → (latest_ns == n) ≡ false
        → laws.find (copy_thread L S o source target st).1.store n k ≡ laws.find s n k
    unfolding copy_thread point_all
    settled st s e n k q =
        rw (distinct, e)
          (elim (Bool-cases o.store_indexes_max_key) [
            | inl i ↦ rw i refl
            | inr i ↦ rw i (
                find-point_all target (thread_namespaces S s ck target) (record st { store = s }) n
                  k q)
          ])

    -- Copying a thread to another one, neither id with the separator in it, where the metadata of
    -- the source's checkpoints can be read: every entry in a checkpoint, write or blob namespace of
    -- the source that UTF-8 can store is afterwards under the same key in the target's namespace of
    -- that name, the checkpoints with the metadata that `_retarget` gives; a stored `None` is not
    -- copied; what else such a namespace of the target had is still there; and every entry that is
    -- neither in a namespace of the target nor a pointer is as before.
    pub copy_thread-copies :
        (st : Saver S)
        → AllReadable L S laws o source target true st.store
            (thread_namespaces S st.store ck source)
        → CopiedKind ck st.store (copy_thread L S o source target st).1.store
          × CopiedKind wr st.store (copy_thread L S o source target st).1.store
          × CopiedKind bl st.store (copy_thread L S o source target st).1.store
          × ((n k : Text)
              → second_is target (split n) ≡ false
              → (latest_ns == n) ≡ false
              → laws.find (copy_thread L S o source target st).1.store n k ≡ laws.find st.store n k)
    unfolding text_beq
    copy_thread-copies st r =
        let (s, e, c, w, b, other) = kinds-CopiedKind st.store r in
        (
          λ rest k v. settled st s e (in_thread ck target rest) k refl ∙ c rest k v,
          λ rest k v. settled st s e (in_thread wr target rest) k refl ∙ w rest k v,
          λ rest k v. settled st s e (in_thread bl target rest) k refl ∙ b rest k v,
          λ n k p q. settled st s e n k q ∙ other n k p,
        )
