-- ===== src/Saver/Tuple/Fuel.antt =====
-- Decoding what is stored never raises the error that stands for too little fuel.
use swarmstate.Prelude.{
  ℕ, ◌+◌, ◌*◌, ◌-◌, ◌≡◌, refl, Bool, true, false, Option, none, some, List, [], ◌∷◌, map, filter,
  contains, leb, nat_eq, ◌&&◌, if◌then◌else◌,
}
use swarmstate.Prelude.Decimal.{ℤ, pos, negated, int, read_digits}
use swarmstate.Prelude.Dict.{Dict}
use swarmstate.Prelude.Result.{
  Error, value_error, type_error, out_of_fuel, Result, ok, raise, ◌>>=◌,
}
use swarmstate.Store.{StoreLike}
use swarmstate.Text.{Text, text_eq}
use swarmstate.Saver.{
  checkpoint, metadata, value, Langgraph, Object, Typed, Stored, saved, pointer, write, blob, empty,
  Options, loads_checkpoint, loads_value,
}
use swarmstate.Saver.Names.{write_order, rpartition, writes_ns, blobs_ns}
use swarmstate.Saver.Access.{get_many}
use swarmstate.Saver.Tuple
use swarmstate.Saver.Tuple.{
  blob_key, keyed, sort_writes, attach, attach_all, decode_writes, channel_values, pending_writes,
}

abbrev is_out : Error → Bool
is_out out_of_fuel = true
is_out _ = false

-- A result that is not the error of too little fuel.
abbrev pub HasFuel : {B : Type 0} → Result B → Type 0
HasFuel (ok b) = Unit
HasFuel (raise e) = is_out e ≡ false

pub bind-HasFuel :
    {B C : Type 0} (r : Result B) (next : B → Result C)
    → HasFuel r
    → ((b : B) → HasFuel (next b))
    → HasFuel (r >>= next)
bind-HasFuel (raise e) next h more = h
bind-HasFuel (ok b) next h more = more b

if-HasFuel :
    {B : Type 0} (b : Bool) (r r' : Result B)
    → HasFuel r
    → HasFuel r'
    → HasFuel (if b then r else r')
if-HasFuel true r r' h h' = h
if-HasFuel false r r' h h' = h'

read_digits-HasFuel : (acc : ℕ) (s : List ℕ) → HasFuel (read_digits acc s)
unfolding read_digits
read_digits-HasFuel acc [] = tt
read_digits-HasFuel acc (c ∷ s) =
    if-HasFuel (leb 48 c && leb c 57) (read_digits (acc * 10 + (c - 48)) s) (raise value_error)
      (read_digits-HasFuel (acc * 10 + (c - 48)) s) refl

read-HasFuel : (s : List ℕ) (next : ℕ → ℤ) → HasFuel (read_digits 0 s >>= λ n. ok (next n))
read-HasFuel s next = bind-HasFuel (read_digits 0 s) _ (read_digits-HasFuel 0 s) (λ n. tt)

int-HasFuel : (s : List ℕ) → HasFuel (int s)
unfolding int
int-HasFuel [] = refl
int-HasFuel (c ∷ []) = read-HasFuel (c ∷ []) pos
int-HasFuel (c ∷ d ∷ s) =
    if-HasFuel (nat_eq c 45) (read_digits 0 (d ∷ s) >>= λ n. ok (negated n))
      (read_digits 0 (c ∷ d ∷ s) >>= λ n. ok (pos n)) (read-HasFuel (d ∷ s) negated)
      (read-HasFuel (c ∷ d ∷ s) pos)

write_order-HasFuel : (key : Text) → HasFuel (write_order key)
unfolding write_order
write_order-HasFuel key =
    bind-HasFuel (int (rpartition key).1) _ (int-HasFuel (rpartition key).1) (λ i. tt)

keyed-HasFuel : (keys : List Text) → HasFuel (keyed keys)
unfolding keyed
keyed-HasFuel [] = tt
keyed-HasFuel (k ∷ keys) =
    bind-HasFuel (write_order k) _ (write_order-HasFuel k)
      (λ i. bind-HasFuel (keyed keys) _ (keyed-HasFuel keys) (λ rest. tt))

sort_writes-HasFuel : (keys : List Text) → HasFuel (sort_writes keys)
unfolding sort_writes
sort_writes-HasFuel keys = bind-HasFuel (keyed keys) _ (keyed-HasFuel keys) (λ pairs. tt)

module _ {V : Type 0} (L : Langgraph V) (S : StoreLike Stored) (o : Options)
    (loads : (t : Typed) → HasFuel (L.loads_typed t)) where
  loads_value-HasFuel : (t : Typed) → HasFuel (loads_value L t)
  unfolding loads_value
  loads_value-HasFuel t = bind-HasFuel (L.loads_typed t) _ (loads t) kinds
    where
      kinds :
          (ob : Object V)
          → HasFuel (elim ob [
            | checkpoint c ↦ raise type_error
            | metadata m ↦ raise type_error
            | value v ↦ ok v
          ])
      kinds (checkpoint c) = refl
      kinds (metadata m) = refl
      kinds (value v) = tt

  loads_checkpoint-HasFuel : (t : Typed) → HasFuel (loads_checkpoint L t)
  unfolding loads_checkpoint
  loads_checkpoint-HasFuel t = bind-HasFuel (L.loads_typed t) _ (loads t) kinds
    where
      kinds :
          (ob : Object V)
          → HasFuel (elim ob [
            | checkpoint c ↦ ok c
            | metadata m ↦ raise type_error
            | value v ↦ raise type_error
          ])
      kinds (checkpoint c) = tt
      kinds (metadata m) = refl
      kinds (value v) = refl

  attach-HasFuel :
      (values : Dict Text V) (ch : Text) (b : Option Stored) → HasFuel (attach L values ch b)
  unfolding attach
  attach-HasFuel values ch none = tt
  attach-HasFuel values ch (some empty) = tt
  attach-HasFuel values ch (some (blob t)) =
      bind-HasFuel (loads_value L t) _ (loads_value-HasFuel t) (λ v. tt)
  attach-HasFuel values ch (some (saved cp md p)) = refl
  attach-HasFuel values ch (some (pointer i)) = refl
  attach-HasFuel values ch (some (write i c v p)) = refl

  attach_all-HasFuel :
      (values : Dict Text V) (versions : List (Text × Text)) (blobs : List (Option Stored))
      → HasFuel (attach_all L values versions blobs)
  unfolding attach_all
  attach_all-HasFuel values [] blobs = tt
  attach_all-HasFuel values (v ∷ versions) [] = tt
  attach_all-HasFuel values ((ch, ver) ∷ versions) (b ∷ blobs) =
      bind-HasFuel (attach L values ch b) _ (attach-HasFuel values ch b)
        (λ more. attach_all-HasFuel more versions blobs)

  decode_writes-HasFuel :
      (channels : Option (List Text)) (raw : List (Option Stored))
      → HasFuel (decode_writes L channels raw)
  unfolding decode_writes
  decode_writes-HasFuel channels [] = tt
  decode_writes-HasFuel channels (none ∷ raw) = decode_writes-HasFuel channels raw
  decode_writes-HasFuel channels (some (write i ch t p) ∷ raw) =
      if-HasFuel (Tuple.wanted L channels ch)
        (do v ← loads_value L t; more ← decode_writes L channels raw; ok ((i, ch, v) ∷ more))
        (decode_writes L channels raw)
        (bind-HasFuel (loads_value L t) _ (loads_value-HasFuel t) (λ v.
          bind-HasFuel (decode_writes L channels raw) _ (decode_writes-HasFuel channels raw)
            (λ more. tt)))
        (decode_writes-HasFuel channels raw)
  decode_writes-HasFuel channels (some (saved cp md p) ∷ raw) = refl
  decode_writes-HasFuel channels (some (pointer i) ∷ raw) = refl
  decode_writes-HasFuel channels (some (blob v) ∷ raw) = refl
  decode_writes-HasFuel channels (some empty ∷ raw) = refl

  pub pending_writes-HasFuel :
      (s : S.State) (t n id : Text) (channels : Option (List Text))
      → HasFuel (pending_writes L S o s t n id channels)
  unfolding pending_writes
  pending_writes-HasFuel s t n id channels =
      bind-HasFuel (sort_writes (S.keys s (writes_ns t n id) none)) _
        (sort_writes-HasFuel (S.keys s (writes_ns t n id) none))
        (λ keys. decode_writes-HasFuel channels (get_many S s (writes_ns t n id) keys))

  pub channel_values-HasFuel :
      (s : S.State) (t n : Text) (cp : Typed) (channels : List Text)
      → HasFuel (channel_values L S o s t n cp channels)
  unfolding channel_values
  channel_values-HasFuel s t n cp channels =
      bind-HasFuel (loads_checkpoint L cp) _ (loads_checkpoint-HasFuel cp)
        (λ c. chosen c.channel_versions c.channel_values)
    where
      chosen :
          (all : Dict Text Text) (values : Option (Dict Text V))
          → HasFuel (elim values [
            | some stored ↦ ok (filter (λ p. contains p.0 channels) stored)
            | none ↦
                let versions = filter (λ p. contains p.0 channels) all in
                attach_all L [] versions (get_many S s (blobs_ns t n) (map blob_key versions))
          ])
      chosen all (some stored) = tt
      chosen all none = attach_all-HasFuel [] (filter (λ p. contains p.0 channels) all) _
