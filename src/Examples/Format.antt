-- ===== src/Examples/Format.antt =====
-- A concrete serializer and a concrete byte format, for the examples of the saver.
use swarmstate.Prelude.{
  false, arith, ℕ, zero, suc, ◌≡◌, refl, Option, none, some, List, [], ◌∷◌, ◌++◌, length, ◌==◌,
  if◌then◌else◌,
}
use swarmstate.Prelude.Dict.{Dict}
use swarmstate.Prelude.Decimal.{ℤ, pos, negsuc}
use swarmstate.Prelude.Result.{Result, ok, raise, value_error, type_error}
use swarmstate.Disk.Statements.{Codec}
use swarmstate.Portability.{Entry}
use swarmstate.Portability.Dump.{EntryCodec, Loaded, triple}
use swarmstate.Snapshot.{Bytes}
use swarmstate.Text.{Text, text_eq}
use swarmstate.Saver.{Object, Checkpoint, Langgraph, Stored}

-- A text with its length in front.
unfoldable pub put_text : Text → Bytes → Bytes
put_text s rest = length s ∷ s ++ rest

unfoldable pub cut : ℕ → List ℕ → List ℕ × List ℕ
cut zero xs = ([], xs)
cut (suc n) [] = ([], [])
cut (suc n) (x ∷ xs) = let (front, rest) = cut n xs in (x ∷ front, rest)

unfoldable pub get_text : Bytes → Text × Bytes
get_text [] = ([], [])
get_text (n ∷ xs) = cut n xs

cut-append : (s rest : List ℕ) → cut (length s) (s ++ rest) ≡ (s, rest)
unfolding cut
cut-append [] rest = refl
cut-append (x ∷ s) rest = rw (cut-append s rest) refl

pub get_text-put_text : (s : Text) (rest : Bytes) → get_text (put_text s rest) ≡ (s, rest)
unfolding get_text put_text
get_text-put_text s rest = cut-append s rest

pub put_pairs : Dict Text Text → Bytes → Bytes
put_pairs [] rest = rest
put_pairs ((k, v) ∷ d) rest = put_text k (put_text v (put_pairs d rest))

pub get_pairs : ℕ → Bytes → Dict Text Text × Bytes
get_pairs zero xs = ([], xs)
get_pairs (suc n) xs =
    let (k, after_k) = get_text xs in
    let (v, after_v) = get_text after_k in let (d, rest) = get_pairs n after_v in ((k, v) ∷ d, rest)

get_pairs-put_pairs :
    (d : Dict Text Text) (rest : Bytes) → get_pairs (length d) (put_pairs d rest) ≡ (d, rest)
unfolding get_pairs put_pairs
get_pairs-put_pairs [] rest = refl
get_pairs-put_pairs ((k, v) ∷ d) rest =
    rw
      (
        get_text-put_text k (put_text v (put_pairs d rest)),
        get_text-put_text v (put_pairs d rest),
        get_pairs-put_pairs d rest,
      )
      refl

pub put_dict : Dict Text Text → Bytes → Bytes
put_dict d rest = length d ∷ put_pairs d rest

pub get_dict : Bytes → Dict Text Text × Bytes
get_dict [] = ([], [])
get_dict (n ∷ xs) = get_pairs n xs

pub get_dict-put_dict : (d : Dict Text Text) (rest : Bytes) → get_dict (put_dict d rest) ≡ (d, rest)
unfolding get_dict put_dict
get_dict-put_dict d rest = get_pairs-put_pairs d rest

pub put_values : Option (Dict Text Text) → Bytes
put_values none = 0 ∷ []
put_values (some d) = 1 ∷ put_dict d []

pub get_values : Bytes → Option (Dict Text Text)
get_values ((suc zero) ∷ xs) = some (get_dict xs).0
get_values _ = none

get_values-put_values : (w : Option (Dict Text Text)) → get_values (put_values w) ≡ w
unfolding get_values put_values
get_values-put_values none = refl
get_values-put_values (some d) = rw (get_dict-put_dict d []) refl

pub put_checkpoint : Checkpoint Text → Bytes
put_checkpoint c =
    put_text c.id (put_dict c.channel_versions (put_text c.others (put_values c.channel_values)))

pub get_checkpoint : Bytes → Checkpoint Text
get_checkpoint xs =
    let (i, after_id) = get_text xs in
    let (d, after_versions) = get_dict after_id in
    let (rest, after_rest) = get_text after_versions in
    record { id = i; channel_versions = d; channel_values = get_values after_rest; others = rest }

get_checkpoint-put_checkpoint : (c : Checkpoint Text) → get_checkpoint (put_checkpoint c) ≡ c
unfolding get_checkpoint put_checkpoint
get_checkpoint-put_checkpoint c =
    rw
      (
        get_text-put_text c.id
            (put_dict c.channel_versions (put_text c.others (put_values c.channel_values))),
        get_dict-put_dict c.channel_versions (put_text c.others (put_values c.channel_values)),
        get_text-put_text c.others (put_values c.channel_values),
        get_values-put_values c.channel_values,
      )
      refl

pub put_object : Object Text → Text × Bytes
put_object (Object.checkpoint c) = (0 ∷ [], put_checkpoint c)
put_object (Object.metadata m) = (1 ∷ [], put_dict m [])
put_object (Object.value v) = (2 ∷ [], v)

unfoldable pub get_object : Text × Bytes → Result (Object Text)
get_object (zero ∷ _, xs) = ok (Object.checkpoint (get_checkpoint xs))
get_object ((suc zero) ∷ _, xs) = ok (Object.metadata (get_dict xs).0)
get_object ((suc (suc zero)) ∷ _, xs) = ok (Object.value xs)
get_object _ = raise value_error

pub get_object-put_object : (x : Object Text) → get_object (put_object x) ≡ ok x
unfolding get_object put_object
get_object-put_object (Object.checkpoint c) = rw (get_checkpoint-put_checkpoint c) refl
get_object-put_object (Object.metadata m) = rw (get_dict-put_dict m []) refl
get_object-put_object (Object.value v) = refl

-- A special write has the channel "!" and the index -1.
abbrev pub index_of : Text → ℕ → ℤ
index_of channel idx = if channel == 33 ∷ [] then negsuc 0 else pos idx

abbrev pub text_langgraph : Langgraph Text
text_langgraph = record {
  dumps_typed = put_object;
  loads_typed = get_object;
  loads-dumps = get_object-put_object;
  refuses = λ v. if v == 88 ∷ [] then some type_error else none;
  get_checkpoint_id = λ c. c.checkpoint_id;
  get_checkpoint_id_lem = λ c. refl;
  get_checkpoint_metadata = λ c m. m;
  writes_idx = index_of;
  dict_keys = λ v. [];
  equals = λ a v. (elim a [ none ↦ false | some w ↦ w == v ]);
  text = λ t. t;
}

abbrev pub put_parent : Option Text → Bytes
put_parent none = 0 ∷ []
put_parent (some p) = 1 ∷ p

abbrev pub get_parent : Bytes → Option Text
get_parent ((suc zero) ∷ p) = some p
get_parent _ = none

pub pack_stored : Option Stored → Bytes
pack_stored none = []
pack_stored (some (Stored.saved c m parent)) =
    0 ∷ put_text c.0 (put_text c.1 (put_text m.0 (put_text m.1 (put_parent parent))))
pack_stored (some (Stored.pointer i)) = 1 ∷ i
pack_stored (some (Stored.write task channel v path)) =
    2 ∷ put_text task (put_text channel (put_text v.0 (put_text v.1 path)))
pack_stored (some (Stored.blob v)) = 3 ∷ put_text v.0 v.1
pack_stored (some Stored.empty) = 4 ∷ []

pub four : Bytes → Text × Text × Text × Text × Bytes
four xs =
    let (a, after_a) = get_text xs in
    let (b, after_b) = get_text after_a in
    let (c, after_c) = get_text after_b in
    let (d, after_d) = get_text after_c in (a, b, c, d, after_d)

four-put_text :
    (a b c d : Text) (rest : Bytes)
    → four (put_text a (put_text b (put_text c (put_text d rest)))) ≡ (a, b, c, d, rest)
unfolding four
four-put_text a b c d rest =
    rw
      (
        get_text-put_text a (put_text b (put_text c (put_text d rest))),
        get_text-put_text b (put_text c (put_text d rest)),
        get_text-put_text c (put_text d rest),
        get_text-put_text d rest,
      )
      refl

pub unpack_stored : Bytes → Option Stored
unpack_stored [] = none
unpack_stored (zero ∷ xs) =
    let (a, b, c, d, rest) = four xs in some (Stored.saved (a, b) (c, d) (get_parent rest))
unpack_stored ((suc zero) ∷ i) = some (Stored.pointer i)
unpack_stored ((suc (suc zero)) ∷ xs) =
    let (a, b, c, d, rest) = four xs in some (Stored.write a b (c, d) rest)
unpack_stored ((suc (suc (suc zero))) ∷ xs) = some (Stored.blob (get_text xs))
unpack_stored _ = some Stored.empty

get_parent-put_parent : (p : Option Text) → get_parent (put_parent p) ≡ p
get_parent-put_parent none = refl
get_parent-put_parent (some p) = refl

pub unpack-pack_stored : (v : Option Stored) → unpack_stored (pack_stored v) ≡ v
unfolding unpack_stored pack_stored
unpack-pack_stored none = refl
unpack-pack_stored (some (Stored.saved c m parent)) =
    rw (four-put_text c.0 c.1 m.0 m.1 (put_parent parent), get_parent-put_parent parent) refl
unpack-pack_stored (some (Stored.pointer i)) = refl
unpack-pack_stored (some (Stored.write task channel v path)) =
    rw (four-put_text task channel v.0 v.1 path) refl
unpack-pack_stored (some (Stored.blob v)) = rw (get_text-put_text v.0 v.1) refl
unpack-pack_stored (some Stored.empty) = refl

abbrev pub stored_codec : Codec Stored
stored_codec = record {
  pack = pack_stored;
  unpack = unpack_stored;
  unpack-pack = unpack-pack_stored;
}

-- An entry as a frame.
unfoldable pub frame_of : Entry Text → Result Bytes
frame_of (n, k, v) = ok (put_text n (put_text k (put_parent v)))

pub entry_in : Bytes → Result (Loaded Text)
entry_in xs =
    let (n, after_n) = get_text xs in
    let (k, after_k) = get_text after_n in ok (triple (n, k, get_parent after_k))

pub entry_in-frame_of :
    (e : Entry Text) (frame : Bytes) → frame_of e ≡ ok frame → entry_in frame ≡ ok (triple e)
unfolding entry_in frame_of
entry_in-frame_of (n, k, v) frame h =
    let p : put_text n (put_text k (put_parent v)) ≡ frame = ground arith in
    rw
      (
        ← p,
        get_text-put_text n (put_text k (put_parent v)),
        get_text-put_text k (put_parent v),
        get_parent-put_parent v,
      )
      refl

abbrev pub entry_codec : EntryCodec Text
entry_codec = record { dumps = frame_of; loads = entry_in; loads-dumps = entry_in-frame_of }
