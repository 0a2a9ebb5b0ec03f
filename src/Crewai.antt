-- ===== src/Crewai.antt =====
-- python/swarmstate/integrations/crewai.py: `SwarmStateStorage`, a memory of texts in one namespace
-- of a store, with a search by words.
pub mod Keys
pub mod Growth
pub mod Ranking
use Prim.Native.Nat.{max}
use swarmstate.Prelude.{
  ℕ, zero, suc, ◌+◌, ◌-◌, ◌≡◌, Bool, true, false, not, ◌&&◌, ◌||◌, Option, none, some, List, [],
  ◌∷◌, ◌++◌, map, filter, length, take, leb, nat_eq, contains, ◌==◌, is_nil, if◌then◌else◌,
}
use swarmstate.Prelude.Eq.{Eq}
use swarmstate.Prelude.Dict.{Dict}
use swarmstate.Prelude.Decimal.{ℤ, pos, negsuc, str}
use swarmstate.Prelude.Result.{Result, ok, raise}
use swarmstate.Prelude.Sort.{sort}
use swarmstate.Store.{StoreLike}
use swarmstate.Text.{Text, text_eq}
use swarmstate.Text.Order.{lt}

-- A value to save: a text, a dictionary, or another object.
pub data Value (J : Type 0) : Type 0 where
  text : Text → Value J
  dict : List (J × J) → Value J
  other : J → Value J

-- What is stored under a key. `search` reads `entry.get("value", "")` and `e["value"]`, which are
-- the same on such entries.
pub record Entry (J : Type 0) : Type 0 where
  pub value : Text
  pub metadata : Dict Text J

-- The parts of Python that the storage uses: `str(x)`, `int(s)`, `s.lower()`, and the floats without NaN.
pub record Python (J F : Type 0) : Type 0 where
  pub show : J → Text
  pub int : Text → Result ℤ
  pub lower : Text → Text
  -- `a / b`, 0.0, `a == b`, `a < b` and `round(x, 4)`
  pub ratio : ℕ → ℕ → F
  pub nought : F
  pub equal : F → F → Bool
  pub less : F → F → Bool
  pub round4 : F → F

-- The storage: the store and the last number that was given out, if it was asked for.
pub record Storage {J : Type 0} (S : StoreLike (Entry J)) : Type 0 where
  pub store : S.State
  pub seq : Option ℕ

-- `[a-z0-9]`
abbrev is_word : ℕ → Bool
is_word c = leb 97 c && leb c 122 || leb 48 c && leb c 57

abbrev ended : Text → List Text → List Text
ended [] words = words
ended (c ∷ word) words = (c ∷ word) ∷ words

-- `_TOKEN.findall(s)`, after the part `word` of a word
unfoldable pub findall : Text → Text → List Text
findall word [] = ended word []
findall word (c ∷ s) =
    let longer = findall (word ++ c ∷ []) s in
    let rest = findall [] s in if is_word c then longer else ended word rest

-- The elements of a list once each: the set of them.
unfoldable pub distinct : List Text → List Text
distinct [] = []
distinct (t ∷ ts) = let rest = distinct ts in if contains t rest then rest else t ∷ rest

-- f"{seq:012d}"
unfoldable pub zeros : ℕ → Text
zeros zero = []
zeros (suc n) = 48 ∷ zeros n

unfoldable pub padded : ℕ → Text
padded n = zeros (12 - length (str (pos n))) ++ str (pos n)

-- `key.split("-", 1)[0]`
unfoldable pub before_dash : Text → Text
before_dash [] = []
before_dash (c ∷ s) = let rest = before_dash s in if nat_eq c 45 then [] else c ∷ rest

abbrev pub key_of : ℕ → Text → Text
key_of seq suffix = padded seq ++ (45 ∷ suffix)

-- `xs[:limit]`
abbrev pub slice {ℓ} : {A : Type ℓ} → ℤ → List A → List A
slice (pos n) xs = take n xs
slice (negsuc n) xs = take (length xs - suc n) xs

module _ {J F : Type 0} (P : Python J F) where
  -- `_tokens`
  unfoldable pub tokens : Text → List Text
  tokens s = distinct (findall [] (P.lower s))

  -- " ".join(f"{k}: {v}" for k, v in value.items())
  unfoldable pub joined : List (J × J) → Text
  joined [] = []
  joined ((k, v) ∷ []) = P.show k ++ (58 ∷ 32 ∷ P.show v)
  joined ((k, v) ∷ p ∷ items) = P.show k ++ (58 ∷ 32 ∷ P.show v ++ (32 ∷ joined (p ∷ items)))

  -- `_as_text`
  unfoldable pub as_text : Value J → Text
  as_text (text s) = s
  as_text (dict items) = joined items
  as_text (other v) = P.show v

  abbrev pub raised : ℕ → Result ℤ → ℕ
  raised highest (raise e) = highest
  raised highest (ok (pos n)) = max highest n
  raised highest (ok (negsuc n)) = highest

  -- the loop of `_highest_seq`
  unfoldable pub highest_from : ℕ → List Text → ℕ
  highest_from highest [] = highest
  highest_from highest (k ∷ ks) = highest_from (raised highest (P.int (before_dash k))) ks

  -- the score of a text for the words of a query
  unfoldable pub score : List Text → Text → F
  score q s =
      if is_nil q
      then P.nought
      else P.ratio (length (filter (λ w. contains w (tokens s)) q)) (length q)

  -- a row of the results: the key, the score and the entry
  abbrev pub Hit : Type 0
  Hit = Text × F × Entry J

  -- whether the first goes before the second, by `(score, key)` downwards
  abbrev pub above : Hit → Hit → Bool
  above x y = if P.equal x.1 y.1 then lt y.0 x.0 else P.less y.1 x.1

  pub record Answer : Type 0 where
    pub context : Text
    pub metadata : Dict Text J
    pub score : F

  abbrev pub answer : Hit → Answer
  answer (k, s, e) = record { context = e.value; metadata = e.metadata; score = P.round4 s }

  module _ (S : StoreLike (Entry J)) (namespace : Text) where
    -- `_highest_seq`
    unfoldable pub highest_seq : S.State → ℕ
    highest_seq s = highest_from 0 (S.keys s namespace none)

    -- `_next_key`, with the random suffix: the number of the key, which is the last one then
    unfoldable pub next_seq : Storage S → ℕ
    next_seq st = elim st.seq [ none ↦ highest_seq st.store + 1 | some n ↦ n + 1 ]

    -- `save`, with the metadata `None` or a dictionary
    unfoldable pub save : Value J → Option (Dict Text J) → Text → Storage S → Storage S
    save v metadata suffix st = record {
      store = S.set st.store namespace (key_of (next_seq st) suffix) (
          some
            (record { value = as_text v; metadata = (elim metadata [ none ↦ [] | some m ↦ m ]) }));
      seq = some (next_seq st);
    }

    -- the body of the loop of `search`
    abbrev pub with_entry : List Text → F → Text → Option (Entry J) → List Hit → List Hit
    with_entry q threshold k none rest = rest
    with_entry q threshold k (some e) rest =
        if not (P.less (score q e.value) threshold) then (k, score q e.value, e) ∷ rest else rest

    -- the loop of `search`
    unfoldable pub hits : List Text → F → S.State → List Text → List Hit
    hits q threshold s [] = []
    hits q threshold s (k ∷ ks) =
        with_entry q threshold k (S.get s namespace k none) (hits q threshold s ks)

    -- the rows that `search` answers, before they are turned into dictionaries
    unfoldable pub best : Text → ℤ → F → Storage S → List Hit
    best query limit threshold st =
        slice limit
          (sort above (hits (tokens query) threshold st.store (S.keys st.store namespace none)))

    -- `search`
    unfoldable pub search : Text → ℤ → F → Storage S → List Answer
    search query limit threshold st = map answer (best query limit threshold st)

    unfoldable pub delete_all : S.State → List Text → S.State
    delete_all s [] = s
    delete_all s (k ∷ ks) = delete_all (S.delete s namespace k).0 ks

    -- `reset`
    unfoldable pub reset : Storage S → Storage S
    reset st = record st { store = delete_all st.store (S.keys st.store namespace none) }

    -- `__len__`
    unfoldable pub len : Storage S → ℕ
    len st = length (S.keys st.store namespace none)
