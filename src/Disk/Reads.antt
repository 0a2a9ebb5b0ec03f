-- ===== src/Disk/Reads.antt =====
-- The reads of `DiskStore`: batched reads, and the key ranges that stand for a prefix.
use swarmstate.Prelude.{
  ◌≡◌, refl, ap, ◌∙◌, inl, inr, Bool, true, ◌&&◌, not, Option, none, some, List, [], ◌∷◌, map,
  arith, or_else, is_some, is_nil, if◌then◌else◌, ◌==◌, Option-cases, eq_iff, contains, pair_eq,
  length, IsDistinct, take, map_agree,
}
use swarmstate.Prelude.Result.{ok}
use swarmstate.Prelude.Dict.{Dict, find, insert_all, find-insert_all, keys}
use swarmstate.Prelude.Chunks.{chunks, AllShort, chunks-AllShort, in_chunks, in_chunks-chunks}
use swarmstate.Prelude.Group.{group, covers, covers-group}
use swarmstate.Text.{Text, text_eq, text_beq, starts_with}
use swarmstate.Prefix.{is_text, prefix_upper_bound}
use swarmstate.Prefix.Range.{prefix_upper_bound_range}
use swarmstate.Snapshot.{Bytes}
use swarmstate.Disk
use swarmstate.Disk.{chunk_size}
use swarmstate.Disk.Statements.{Codec, Sqlite, IsSqlite}

-- `for key, value in rows: found[(ns, key)] = value`, read back.
abbrev tagged : Text → Dict Text Bytes → Dict (Text × Text) Bytes
tagged ns rows = map (λ r. ((ns, r.0), r.1)) rows

find-tagged :
    (ns : Text) (rows : Dict Text Bytes) (n k : Text)
    → find (n, k) (tagged ns rows) ≡ (if ns == n then find k rows else none)
unfolding find
find-tagged ns [] n k = ground arith
find-tagged ns ((j, v) ∷ rows) n k = ground (arith, find-tagged ns rows n k)

contains-tagged :
    (ns : Text) (rows : Dict Text Bytes) (n k : Text)
    → contains (n, k) (keys (tagged ns rows)) ≡ (ns == n && contains k (keys rows))
unfolding contains
contains-tagged ns [] n k = ground arith
contains-tagged ns ((j, v) ∷ rows) n k = ground (arith, contains-tagged ns rows n k)

tagged-IsDistinct :
    (ns : Text) (rows : Dict Text Bytes)
    → IsDistinct (keys rows)
    → IsDistinct (keys (tagged ns rows))
tagged-IsDistinct ns [] h = tt
tagged-IsDistinct ns ((j, v) ∷ rows) h =
    (ground (arith, contains-tagged ns rows ns j), tagged-IsDistinct ns rows h.1)

and_comm : (a b : Bool) → (a && b) ≡ (b && a)
and_comm a b = ground arith

-- `starts_with`, as SQL's `substr(k, 1, length(p)) = p`.
take-eq-starts_with : (k p : Text) → (take (length p) k == p) ≡ starts_with k p
unfolding starts_with text_beq
take-eq-starts_with k [] = refl
take-eq-starts_with [] (b ∷ p) = refl
take-eq-starts_with (a ∷ k) (b ∷ p) = ground (arith, take-eq-starts_with k p)

module _ {A : Type 0} (D : Sqlite) (C : Codec A) (laws : IsSqlite D) (d : D.Db) where
  abbrev at : Text → Text → Option Bytes
  at n k = D.select_v d n k

  -- The dictionary `f` holds the pairs that pass `test`, as they are in the table, and `found`.
  abbrev Reads : Dict (Text × Text) Bytes → (Text → Text → Bool) → Dict (Text × Text) Bytes → Type 0
  Reads found test f =
      (n k : Text) → find (n, k) f ≡ or_else (if test n k then at n k else none) (find (n, k) found)

  fetch_chunks-Reads :
      (found : Dict (Text × Text) Bytes) (ns : Text) (cs : List (List Text))
      → AllShort chunk_size cs
      → (f : Dict (Text × Text) Bytes) × (Disk.fetch_chunks D C d found ns cs ≡ ok f)
        × Reads found (λ n k. ns == n && in_chunks k cs) f
  unfolding Disk.fetch_chunks in_chunks
  fetch_chunks-Reads found ns [] h = (found, refl, λ n k. ground arith)
  fetch_chunks-Reads found ns (c ∷ cs) h =
      let (rows, e, distinct, reads) = laws.select_in_lem d ns c (omega arith) in
      let (f, done, more) = fetch_chunks-Reads (insert_all found (tagged ns rows)) ns cs h.1 in
      (
        f,
        rw (e, Disk.fetch_chunks) done,
        λ n k. ground (
          arith,
          more n k,
          find-insert_all (n, k) found (tagged ns rows) (tagged-IsDistinct ns rows distinct),
          find-tagged ns rows n k,
          reads k,
          eq_iff ns n,
        ),
      )

  fetch-Reads :
      (found : Dict (Text × Text) Bytes) (by_ns : Dict Text (List Text))
      → (f : Dict (Text × Text) Bytes) × (Disk.fetch D C d found by_ns ≡ ok f)
        × Reads found (covers by_ns) f
  unfolding Disk.fetch covers
  fetch-Reads found [] = (found, refl, λ n k. ground arith)
  fetch-Reads found ((ns, ks) ∷ by_ns) =
      let (g, first, reads) =
        fetch_chunks-Reads found ns (chunks (length ks) chunk_size ks)
          (chunks-AllShort (length ks) chunk_size ks) in
      let (f, rest, more) = fetch-Reads g by_ns in
      (
        f,
        rw (first, Disk.fetch) rest,
        λ n k. ground (
          arith,
          more n k,
          reads n k,
          in_chunks-chunks k (length ks) chunk_size ks (omega arith) (omega arith),
        ),
      )

  is_covered :
      (q : Text × Text) (pairs : List (Text × Text))
      → contains q pairs ≡ true
      → or_else
          (if covers (group [] pairs) q.0 q.1 then at q.0 q.1 else none)
          (find {V = Bytes} q [])
        ≡ at q.0 q.1
  unfolding find covers
  is_covered q pairs m = ground (arith, covers-group [] pairs q.0 q.1)

  -- Grouping the pairs by namespace and reading them in chunks below the parameter limit never
  -- fails, and gives what `get` gives for each pair, in the order of the pairs.
  pub get_many-eq-get :
      (pairs : List (Text × Text))
      → Disk.get_many D C d pairs ≡ ok (map (λ p. Disk.get D C d p.0 p.1 none) pairs)
  unfolding Disk.get_many Disk.get find
  get_many-eq-get [] = refl
  get_many-eq-get (p ∷ pairs) =
      let (f, done, reads) = fetch-Reads [] (group [] (p ∷ pairs)) in
      rw done (
        ap ok (
          map_agree _ _ (p ∷ pairs)
            (λ q m. ap (Disk.or_default D C none) (reads q.0 q.1 ∙ is_covered q (p ∷ pairs) m))))

  -- With a prefix, `keys` answers, among the keys that UTF-8 can store, exactly the stored ones
  -- that start with it, whether it asks for a range or, where the prefix has no upper bound, for a
  -- substring.
  pub contains-keys_prefix :
      (n p k : Text)
      → is_text k ≡ true
      → contains k (Disk.keys D C d n (some p)) ≡ (starts_with k p && is_some (at n k))
  unfolding Disk.keys
  contains-keys_prefix n p k v = elim (Option-cases (prefix_upper_bound p)) [
    | inl e ↦
        rw (e, laws.contains-select_k_substr, take-eq-starts_with)
          (and_comm (is_some (at n k)) (starts_with k p))
    | inr (u, e) ↦
        rw (e, laws.contains-select_k_range, ← (prefix_upper_bound_range p u e).0 k v)
          (and_comm (is_some (at n k)) (starts_with k p))
  ]

  -- So does `namespaces`.
  pub contains-namespaces_prefix :
      (p n : Text)
      → is_text n ≡ true
      → contains n (Disk.namespaces D C d (some p))
        ≡ (starts_with n p && not (is_nil (Disk.keys D C d n none)))
  unfolding Disk.keys Disk.namespaces
  contains-namespaces_prefix p n v = elim (Option-cases (prefix_upper_bound p)) [
    | inl e ↦
        rw (e, laws.contains-select_ns_substr, take-eq-starts_with)
          (and_comm (not (is_nil (D.select_k d n))) (starts_with n p))
    | inr (u, e) ↦
        rw (e, laws.contains-select_ns_range, ← (prefix_upper_bound_range p u e).0 n v)
          (and_comm (not (is_nil (D.select_k d n))) (starts_with n p))
  ]
