-- ===== src/Portability/Dump/Frames.antt =====
-- The frames of a dump, written and read back.
use swarmstate.Prelude.{
  ℕ, zero, suc, ◌+◌, ◌*◌, ◌/◌, ◌%◌, ◌^◌, ◌≡◌, ◌<◌, refl, ap, sym, ◌∙◌, ◌⊎◌, inl, inr, true, false,
  Option, none, some, List, [], ◌∷◌, ◌++◌, arith, length, length-append, take, drop, or_else, ltb,
  leb, nat_eq, Bool-cases,
}
use swarmstate.Prelude.Result.{Error, Result, ok, raise}
use swarmstate.Snapshot.{Bytes}
use swarmstate.Store.{StoreLike, IsStore, written, written-append}
use swarmstate.Text.{Text}
use swarmstate.Portability.{Entry, batch_limit}
use swarmstate.Portability.Dump.{
  EntryCodec, triple, pack_size, unpack_size, write_frames, flush, grown, read_frames,
}

module _ {B : Type 0} where
  pub Result-cases : (r : Result B) → ((b : B) × (r ≡ ok b)) ⊎ ((e : Error) × (r ≡ raise e))
  Result-cases (raise e) = inr (e, refl)
  Result-cases (ok b) = inl (b, refl)

  take-length : (xs ys : List B) → take (length xs) (xs ++ ys) ≡ xs
  take-length [] ys = refl
  take-length (x ∷ xs) ys = ap (◌∷◌ x) (take-length xs ys)

  drop-length : (xs ys : List B) → drop (length xs) (xs ++ ys) ≡ ys
  drop-length [] ys = refl
  drop-length (x ∷ xs) ys = drop-length xs ys

append-nil : {B : Type 0} (xs : List B) → xs ++ [] ≡ xs
append-nil [] = refl
append-nil (x ∷ xs) = ap (◌∷◌ x) (append-nil xs)

append-cons : {B : Type 0} (xs ys : List B) (y : B) → xs ++ (y ∷ ys) ≡ (xs ++ (y ∷ [])) ++ ys
append-cons [] ys y = refl
append-cons (x ∷ xs) ys y = ap (◌∷◌ x) (append-cons xs ys y)

nat_eq_refl : (n : ℕ) → nat_eq n n ≡ true
nat_eq_refl n = ground arith

-- Four bytes that `unpack` reads as a size.
abbrev pub IsSize : Bytes → ℕ → Type 0
IsSize size n =
    (a : ℕ) × (b : ℕ) × (c : ℕ) × (d : ℕ) × (size ≡ a ∷ b ∷ c ∷ d ∷ [])
    × (unpack_size (a ∷ b ∷ c ∷ d ∷ []) ≡ ok n)

bytes_of :
    (n : ℕ)
    → n / 2 ^ 24 * 2 ^ 24 + n / 2 ^ 16 % 256 * 2 ^ 16 + n / 2 ^ 8 % 256 * 2 ^ 8 + n % 256 ≡ n
bytes_of n = omega arith

pack_size-IsSize : (n : ℕ) (size : Bytes) → pack_size n ≡ ok size → IsSize size n
unfolding pack_size unpack_size
pack_size-IsSize n size h = elim (Bool-cases (ltb n (2 ^ 32))) [
  | inl e ↦
      (n / 2 ^ 24, n / 2 ^ 16 % 256, n / 2 ^ 8 % 256, n % 256, ground arith, ap ok (bytes_of n))
  | inr e ↦ absurd (ground arith)
]

module _ {A : Type 0} (C : EntryCodec A) (S : StoreLike A) (laws : IsStore S) where
  -- What a list of entries that was written begins with.
  pub data Parts (e : Entry A) (es : List (Entry A)) (count : ℕ) (out : Bytes) : Type 0 where
    parts :
        (frame size rest : Bytes) (n : ℕ)
        → C.dumps e ≡ ok frame
        → IsSize size (length frame)
        → write_frames C es ≡ ok (n, rest)
        → out ≡ size ++ (frame ++ rest)
        → count ≡ n + 1
        → Parts e es count out

  write_frames-Parts :
      (e : Entry A) (es : List (Entry A)) (count : ℕ) (out : Bytes)
      → write_frames C (e ∷ es) ≡ ok (count, out)
      → Parts e es count out
  unfolding write_frames
  write_frames-Parts e es count out h = elim (Result-cases (C.dumps e)) [
    | inr (x, d) ↦ absurd (ground (arith, d))
    | inl (frame, d) ↦ elim (Result-cases (pack_size (length frame))) [
      | inr (x, p) ↦ absurd (ground (arith, d, p))
      | inl (size, p) ↦ elim (Result-cases (write_frames C es)) [
        | inr (x, w) ↦ absurd (ground (arith, d, p, w))
        | inl (r, w) ↦
            parts frame size r.1 r.0 d (pack_size-IsSize (length frame) size p) w (ground arith)
              (ground arith)
      ]
    ]
  ]

  -- Reading ends well, with the entries written after those of the batch.
  abbrev Reads : List (Entry A) → S.State → Result (Unit {0}) × S.State → Type 0
  Reads es s r =
      (r.0 ≡ ok tt)
      × ((n k : Text) → laws.find r.1 n k ≡ or_else (written es n k) (laws.find s n k))

  find-flush :
      (batch : List (Entry A)) (s : S.State) (n k : Text)
      → laws.find (flush C S batch s) n k ≡ or_else (written batch n k) (laws.find s n k)
  unfolding written
  find-flush [] s n k = refl
  find-flush (e ∷ batch) s n k = laws.find-set_many s (e ∷ batch) n k

  flush-Reads :
      (batch : List (Entry A)) (s : S.State) → Reads (batch ++ []) s (ok tt, flush C S batch s)
  flush-Reads batch s = (
    refl,
    λ n k.
        find-flush batch s n k
        ∙ ap (λ xs. or_else (written xs n k) (laws.find s n k)) (sym (append-nil batch)),
  )

  grown_full :
      (batch : List (Entry A)) (next : List (Entry A) → S.State → Result (Unit {0}) × S.State)
      (s : S.State)
      → leb batch_limit (length batch) ≡ true
      → grown C S batch next s ≡ next [] (S.set_many s batch)
  grown_full batch next s h = rw h refl

  grown_room :
      (batch : List (Entry A)) (next : List (Entry A) → S.State → Result (Unit {0}) × S.State)
      (s : S.State)
      → leb batch_limit (length batch) ≡ false
      → grown C S batch next s ≡ next batch s
  grown_room batch next s h = rw h refl

  or_else_assoc : (x y z : Option (Option A)) → or_else x (or_else y z) ≡ or_else (or_else x y) z
  or_else_assoc none y z = refl
  or_else_assoc (some v) y z = refl

  written_later :
      (batch es : List (Entry A)) (e : Entry A) (n k : Text) (x : Option (Option A))
      → or_else (written es n k) (or_else (written (batch ++ (e ∷ [])) n k) x)
        ≡ or_else (written (batch ++ (e ∷ es)) n k) x
  written_later batch es e n k x =
      or_else_assoc (written es n k) (written (batch ++ (e ∷ [])) n k) x
      ∙ ap (λ w. or_else w x)
          (sym (written-append (batch ++ (e ∷ [])) es n k)
            ∙ ap (λ xs. written xs n k) (sym (append-cons batch es e)))

  shorter :
      (size frame rest : Bytes) (n fuel : ℕ)
      → IsSize size n
      → length (size ++ (frame ++ rest)) < suc fuel
      → length rest < fuel
  shorter size frame rest n fuel (a, b, c, d, p, u) h =
      ground (arith, p, length-append size (frame ++ rest), length-append frame rest)

  read_frames_step :
      (fuel : ℕ) (e : Entry A) (frame size rest : Bytes) (batch : List (Entry A)) (s : S.State)
      → IsSize size (length frame)
      → C.loads frame ≡ ok (triple e)
      → read_frames C S (suc fuel) (size ++ (frame ++ rest)) batch s
        ≡ grown C S (batch ++ (e ∷ [])) (read_frames C S fuel rest) s
  unfolding read_frames
  read_frames_step fuel e frame size rest batch s (a, b, c, d, p, u) l =
      rw (p, u, take-length frame rest, nat_eq_refl (length frame), drop-length frame rest, l) refl

  -- The first frame, given what holds for the others.
  after_first :
      (e : Entry A) (es : List (Entry A)) (fuel count : ℕ) (out : Bytes) (batch : List (Entry A))
      (s : S.State)
      → Parts e es count out
      → length out < suc fuel
      → ((n : ℕ) (rest : Bytes) (b : List (Entry A)) (s' : S.State)
          → write_frames C es ≡ ok (n, rest)
          → length rest < fuel
          → (n ≡ length es) × Reads (b ++ es) s' (read_frames C S fuel rest b s'))
      → (count ≡ length (e ∷ es))
        × Reads (batch ++ (e ∷ es)) s (read_frames C S (suc fuel) out batch s)
  after_first e es fuel count out batch s (parts frame size rest n d z w p q) enough ih =
      (let e_is = C.loads-dumps e frame d in
        let short = shorter size frame rest (length frame) fuel z (rw p at enough) in
        elim (Bool-cases (leb batch_limit (length (batch ++ (e ∷ []))))) [
          | inl full ↦
              let (c, (r, f)) = ih n rest [] (S.set_many s (batch ++ (e ∷ []))) w short in
              rw
                (
                  p,
                  read_frames_step fuel e frame size rest batch s z e_is,
                  grown_full (batch ++ (e ∷ [])) (read_frames C S fuel rest) s full,
                )
                (
                  ground arith,
                  (
                    r,
                    λ m k.
                        f m k
                        ∙ ap (or_else (written es m k))
                            (laws.find-set_many s (batch ++ (e ∷ [])) m k)
                        ∙ written_later batch es e m k (laws.find s m k),
                  ),
                )
          | inr room ↦
              let (c, (r, f)) = ih n rest (batch ++ (e ∷ [])) s w short in
              rw
                (
                  p,
                  read_frames_step fuel e frame size rest batch s z e_is,
                  grown_room (batch ++ (e ∷ [])) (read_frames C S fuel rest) s room,
                )
                (
                  ground arith,
                  (
                    r,
                    λ m k.
                        f m k
                        ∙ ap (λ xs. or_else (written xs m k) (laws.find s m k))
                            (sym (append-cons batch es e)),
                  ),
                )
        ])

  pub read_frames-write_frames :
      (es : List (Entry A)) (fuel count : ℕ) (out : Bytes) (batch : List (Entry A)) (s : S.State)
      → write_frames C es ≡ ok (count, out)
      → length out < fuel
      → (count ≡ length es) × Reads (batch ++ es) s (read_frames C S fuel out batch s)
  unfolding write_frames
  read_frames-write_frames [] zero count out batch s h enough = absurd (ground arith)
  read_frames-write_frames [] (suc fuel) count out batch s h enough =
      let nothing : out ≡ [] = ground arith in
      (ground arith, rw nothing (unfold read_frames in flush-Reads batch s))
  read_frames-write_frames (e ∷ es) zero count out batch s h enough = absurd (ground arith)
  read_frames-write_frames (e ∷ es) (suc fuel) count out batch s h enough =
      after_first e es fuel count out batch s (write_frames-Parts e es count out h) enough
        (λ n rest b s' w short. read_frames-write_frames es fuel n rest b s' w short)
