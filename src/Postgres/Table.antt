-- ===== src/Postgres/Table.antt =====
-- backends/postgres.py: the table name, which goes into the statements as it is.
use swarmstate.Prelude.{
  ℕ, ◌≡◌, Bool, true, false, ◌&&◌, ◌||◌, [], ◌∷◌, leb, nat_eq, if◌then◌else◌, ◌==◌, not, is_nil,
}
use swarmstate.Prelude.Result.{Result, ok, raise, value_error}
use swarmstate.Text.{Text, text_eq}

-- [A-Za-z_] and [A-Za-z0-9_]
abbrev is_start : ℕ → Bool
is_start c = (leb 65 c && leb c 90) || (leb 97 c && leb c 122) || nat_eq c 95

abbrev pub is_word : ℕ → Bool
is_word c = is_start c || (leb 48 c && leb c 57)

-- `[A-Za-z0-9_]*$`: Python's `$` is also there before a newline at the end
unfoldable pub word_end : Text → Bool
word_end [] = true
word_end (c ∷ s) = (is_word c && word_end s) || (nat_eq c 10 && is_nil s)

-- `_IDENT.match(table)`
unfoldable pub is_ident : Text → Bool
is_ident [] = false
is_ident (c ∷ s) = is_start c && word_end s

-- "msgpack"
abbrev pub msgpack : Text
msgpack = 109 ∷ 115 ∷ 103 ∷ 112 ∷ 97 ∷ 99 ∷ 107 ∷ []

-- The checks of `PostgresStore.__init__`: the table that the statements name.
unfoldable pub checked_table : Text → Text → Result Text
checked_table codec table =
    if not (codec == msgpack)
    then raise value_error
    else if not (is_ident table)
    then raise value_error
    else ok table

unfoldable pub all_word : Text → Bool
all_word [] = true
all_word (c ∷ s) = is_word c && all_word s

-- A name of one or more letters, digits and underscores, which does not begin with a digit.
abbrev pub IsName : Text → Type 0
IsName u = (is_nil u ≡ false) × (all_word u ≡ true) × (is_ident u ≡ true)
