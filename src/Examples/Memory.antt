-- ===== src/Examples/Memory.antt =====
-- The theorems about the memory for crews, at concrete inputs: a memory over the disk store of a
-- table, with numbers for floats.
use mathlib.Core.List.{Memᴰ}
use swarmstate.Prelude.{
  ℕ, zero, suc, ◌+◌, ◌<◌, ◌≤◌, ◌≡◌, ◌↔◌, refl, ◌∙◌, ap, ◌⊎◌, Bool, true, false, ◌&&◌, Option, none,
  some, List, [], ◌∷◌, ◌++◌, map, arith, length, nat_eq, ltb, if◌then◌else◌, ◌==◌, Bool-cases, inl,
  inr,
}
use Prim.Native.Nat.{◌*◌, ◌/◌, ◌%◌, ◌-◌}
use swarmstate.Prelude.Decimal.{ℤ, pos, str, digits, read_digits}
use swarmstate.Prelude.Result.{Result, ok, ◌>>=◌}
use swarmstate.Prelude.Sort.{IsSorted}
use swarmstate.Text.{Text, text_eq}
use swarmstate.Snapshot.{Bytes}
use swarmstate.Store.{StoreLike, IsStore}
use swarmstate.Disk.Statements.{Codec}
use swarmstate.Disk.Contract.{disk_store, disk_store-IsStore}
use swarmstate.Crewai.{
  Value, Entry, Python, Storage, zeros, padded, Hit, above, answer, save, best, search, len,
}
use swarmstate.Crewai.Growth.{Use, saved, wiped, grown, used, saved_entry, save-used}
use swarmstate.Crewai.Ranking.{IsHit, search-best}
use swarmstate.Examples.Table.{empty_db, table_sqlite, table_sqlite-IsSqlite, table_sqlite-Reliable}
use swarmstate.Examples.Format.{
  put_text, get_text, put_dict, get_dict, get_text-put_text, get_dict-put_dict,
}

-- `int(s)`, on decimal digits
abbrev int : Text → Result ℤ
int s = read_digits 0 s >>= λ n. ok (pos n)

read_digits-append :
    (acc : ℕ) (s t : Text) → read_digits acc (s ++ t) ≡ (read_digits acc s >>= λ n. read_digits n t)
unfolding read_digits
read_digits-append acc [] t = refl
read_digits-append acc (c ∷ s) t = ground (arith, read_digits-append (acc * 10 + (c - 48)) s t)

read_digits-zeros : (n : ℕ) → read_digits 0 (zeros n) ≡ ok 0
unfolding read_digits zeros
read_digits-zeros zero = refl
read_digits-zeros (suc n) = read_digits-zeros n

read_digits-digits : (fuel n : ℕ) → n < fuel → read_digits 0 (digits fuel n) ≡ ok n
unfolding read_digits digits
read_digits-digits zero n h = absurd (omega arith)
read_digits-digits (suc fuel) n h = elim (Bool-cases (ltb n 10)) [
  | inl e ↦ rw e (ground (arith, e))
  | inr e ↦ rw e (
      read_digits-append 0 (digits fuel (n / 10)) ((48 + n % 10) ∷ [])
      ∙ rw (read_digits-digits fuel (n / 10) (ground arith)) (ground (arith, e)))
]

int-padded : (n : ℕ) → int (padded n) ≡ ok (pos n)
unfolding padded str
int-padded n =
    rw
      (
        read_digits-append 0 (zeros (12 - length (digits (suc n) n))) (digits (suc n) n),
        read_digits-zeros (12 - length (digits (suc n) n)),
        read_digits-digits (suc n) n (omega arith),
      )
      refl

abbrev python : Python Text ℕ
python = record {
  show = λ s. s;
  int = int;
  lower = λ s. s;
  ratio = λ a b. a * 10000 / b;
  nought = 0;
  equal = nat_eq;
  less = ltb;
  round4 = λ x. x;
}

equal_iff : (a b : ℕ) → (nat_eq a b ≡ true) ↔ (a ≡ b)
equal_iff a b = ground arith

less_asymm : (a b : ℕ) → ltb a b ≡ true → ltb b a ≡ false
less_asymm a b h = ground (arith, h)

less_chain : (a b c : ℕ) → ltb a b ≡ false → ltb b c ≡ false → ltb a c ≡ false
less_chain a b c h k = ground (arith, h, k)

less_total : (a b : ℕ) → ltb a b ≡ false → ltb b a ≡ false → a ≡ b
less_total a b h k = ground (arith, h, k)

abbrev entry_pack : Option (Entry Text) → Bytes
entry_pack none = []
entry_pack (some e) = 1 ∷ put_text e.value (put_dict e.metadata [])

abbrev entry_unpack : Bytes → Option (Entry Text)
entry_unpack [] = none
entry_unpack (c ∷ xs) =
    let (value, rest) = get_text xs in some (record { value = value; metadata = (get_dict rest).0 })

entry_unpack-pack : (v : Option (Entry Text)) → entry_unpack (entry_pack v) ≡ v
entry_unpack-pack none = refl
entry_unpack-pack (some e) =
    rw (get_text-put_text e.value (put_dict e.metadata []), get_dict-put_dict e.metadata []) refl

abbrev entry_codec : Codec (Entry Text)
entry_codec = record { pack = entry_pack; unpack = entry_unpack; unpack-pack = entry_unpack-pack }

abbrev store : StoreLike (Entry Text)
store = disk_store table_sqlite entry_codec

abbrev laws : IsStore store
laws = disk_store-IsStore table_sqlite entry_codec table_sqlite-IsSqlite table_sqlite-Reliable

-- the namespace "m", and two texts that share the word "a"
abbrev m : Text
m = 109 ∷ []

abbrev ab : Text
ab = 97 ∷ 32 ∷ 98 ∷ []

abbrev ac : Text
ac = 97 ∷ 32 ∷ 99 ∷ []

abbrev uses : List (Use Text)
uses = saved (Value.text ab) none (120 ∷ []) ∷ wiped ∷ saved (Value.text ac) none (121 ∷ []) ∷ []

abbrev start : Storage store
start = record { store = store.clear empty_db; seq = none }

abbrev kept : Storage store
kept = used python store laws m uses start

save-used_example :
    (len python store m kept ≡ grown uses (len python store m start))
    × ((n k : Text)
        → (m == n) ≡ false
        → laws.find kept.store n k ≡ laws.find (store.clear empty_db) n k)
    × ((k : Text) × ((n j : Text)
          → laws.find (save python store m (Value.text ab) none (122 ∷ []) kept).store n j ≡ (
              if m == n && k == j
              then some (some (saved_entry python store laws m (Value.text ab) none))
              else laws.find kept.store n j))
        × (laws.find kept.store m k ≡ none))
save-used_example =
    save-used python store laws m int-padded (store.clear empty_db) uses (Value.text ab) none
      (122 ∷ [])

search-best_example :
    (search python store m ab (pos 1) 0 kept
      ≡ map (answer python) (best python store m ab (pos 1) 0 kept))
    × (length (best python store m ab (pos 1) 0 kept) ≤ 1)
    × IsSorted (above python) (best python store m ab (pos 1) 0 kept)
    × ((h : Hit python)
        → Memᴰ h (best python store m ab (pos 1) 0 kept)
        → IsHit python equal_iff less_asymm less_chain less_total store laws m ab 0 kept h)
    × ((h : Hit python)
        → IsHit python equal_iff less_asymm less_chain less_total store laws m ab 0 kept h
        → Memᴰ h (best python store m ab (pos 1) 0 kept)
          ⊎ ((length (best python store m ab (pos 1) 0 kept) ≡ 1)
              × ((y : Hit python)
                  → Memᴰ y (best python store m ab (pos 1) 0 kept)
                  → above python h y ≡ false)))
search-best_example =
    search-best python equal_iff less_asymm less_chain less_total store laws m ab 1 0 kept

-- A run of `search` on one saved text, which shares a word with the query.
found :
    map
      (λ h. h.1)
      (best python store m ab (pos 1) 1 (save python store m (Value.text ac) none [] start))
    ≡ 5000 ∷ []
unfolding best swarmstate.Prelude.Sort.sort swarmstate.Crewai.hits swarmstate.Disk.keys
    swarmstate.Examples.Table.keys_of save swarmstate.Disk.set swarmstate.Disk.run
    swarmstate.Examples.Table.write swarmstate.Prelude.Dict.insert swarmstate.Disk.clear
    swarmstate.Text.text_beq swarmstate.Prelude.contains swarmstate.Disk.get
    swarmstate.Crewai.as_text swarmstate.Crewai.distinct swarmstate.Crewai.findall
    swarmstate.Crewai.highest_from swarmstate.Crewai.highest_seq swarmstate.Crewai.next_seq padded
    swarmstate.Crewai.score swarmstate.Crewai.tokens zeros digits str swarmstate.Prelude.Dict.find
    swarmstate.Prelude.Sort.place swarmstate.Text.Order.lt swarmstate.Examples.Format.cut
    swarmstate.Examples.Format.get_text put_text
found = refl
