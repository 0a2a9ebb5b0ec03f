-- ===== src/Examples/RedisTable.antt =====
-- A table of fields by hash as an instance of what `Redis.Commands` asks of Redis.
use swarmstate.Prelude.{
  ℕ, ◌≡◌, refl, ap, sym, ◌∙◌, Bool, true, false, ◌&&◌, ◌||◌, none, some, List, [], ◌∷◌, arith,
  length, filter, is_some, is_nil, or_else, if◌then◌else◌, ◌==◌, contains, contains-filter, pair_eq,
  map, nat_eq,
}
use swarmstate.Prelude.Dict.{Dict, find, insert, find-insert}
use swarmstate.Text.{Text, text_eq}
use swarmstate.Snapshot.{Bytes}
use swarmstate.Store.{existing}
use swarmstate.Redis.Commands.{
  Redis, IsRedis, Reliable, Replies, Runs, Command, hset, hset_all, hdel, hlen, del, effect,
  is_glob,
}
use swarmstate.Examples.Table.{
  Table, keys_of, namespaces_of, without, rows_at, contains-keys_of, keys_of-IsDistinct,
  contains-namespaces_of, find-without, find-rows_at,
}
use swarmstate.Examples.PgTable.{remove_all, find-remove_all}

abbrev first_is : ℕ → (Text → Bool) → Text → Bool
first_is c rest [] = false
first_is c rest (a ∷ s) = nat_eq a c && rest s

abbrev any_suffix : (Text → Bool) → Text → Bool
any_suffix rest [] = rest []
any_suffix rest (a ∷ s) = rest (a ∷ s) || any_suffix rest s

abbrev after_first : (Text → Bool) → Text → Bool
after_first rest [] = false
after_first rest (a ∷ s) = rest s

-- Patterns of characters, escapes, stars and question marks; the flag says whether the next
-- character is escaped.
unfoldable pub glob : Bool → Text → Text → Bool
glob escaped [] s = is_nil s
glob true (c ∷ p) s = first_is c (glob false p) s
glob false (c ∷ p) s =
    if nat_eq c 92
    then glob true p s
    else if nat_eq c 42
    then any_suffix (glob false p) s
    else if nat_eq c 63
    then after_first (glob false p) s
    else first_is c (glob false p) s

any_suffix-glob : (s : Text) → any_suffix (glob false []) s ≡ true
unfolding glob
any_suffix-glob [] = refl
any_suffix-glob (a ∷ s) = ground (arith, any_suffix-glob s)

glob-plain_nil : (c : ℕ) (p : Text) → is_glob c ≡ false → glob false (c ∷ p) [] ≡ false
unfolding glob
glob-plain_nil c p h = ground arith

glob-plain :
    (c : ℕ) (p : Text) (a : ℕ) (s : Text)
    → is_glob c ≡ false
    → glob false (c ∷ p) (a ∷ s) ≡ (nat_eq a c && glob false p s)
unfolding glob
glob-plain c p a s h = ground arith

unfoldable pub put_all : Text → Dict Text Bytes → Table → Table
put_all h [] t = t
put_all h ((f, v) ∷ d) t = insert (h, f) v (put_all h d t)

find-put_all :
    (h : Text) (d : Dict Text Bytes) (t : Table) (h' f : Text)
    → find (h', f) (put_all h d t)
      ≡ (if h == h' then or_else (find f d) (find (h', f) t) else find (h', f) t)
unfolding put_all find
find-put_all h [] t h' f = ground arith
find-put_all h ((g, v) ∷ d) t h' f =
    ground (arith, find-put_all h d t h' f, find-insert (h, g) (h', f) v (put_all h d t))

unfoldable pub without_all : List Text → Table → Table
without_all [] t = t
without_all (h ∷ hs) t = without h (without_all hs t)

find-without_all :
    (hs : List Text) (t : Table) (h f : Text)
    → find (h, f) (without_all hs t) ≡ (if contains h hs then none else find (h, f) t)
unfolding without_all contains
find-without_all [] t h f = refl
find-without_all (g ∷ hs) t h f =
    ground (arith, find-without_all hs t h f, find-without g h f (without_all hs t))

abbrev fields_of : Text → List Text → List (Text × Text)
fields_of h fs = map (λ f. (h, f)) fs

contains-fields_of :
    (h h' f : Text) (fs : List Text)
    → contains (h', f) (fields_of h fs) ≡ (h == h' && contains f fs)
unfolding contains
contains-fields_of h h' f [] = ground arith
contains-fields_of h h' f (k ∷ fs) = ground (arith, contains-fields_of h h' f fs)

unfoldable pub answer : Table → Command → ℕ × Table
answer t (hset h f v) = (1, insert (h, f) v t)
answer t (hset_all h d) = (length d, put_all h d t)
answer t (hdel h fs) =
    (existing (λ h' f. is_some (find (h', f) t)) (fields_of h fs), remove_all (fields_of h fs) t)
answer t (hlen h) = (length (keys_of h t), t)
answer t (del hs) = (length hs, without_all hs t)

unfoldable pub answers : Table → List Command → List ℕ × Table
answers t [] = ([], t)
answers t (c ∷ cs) = let (n, t') = answer t c in let (ns, t'') = answers t' cs in (n ∷ ns, t'')

abbrev pub redis_table : Redis
redis_table = record {
  Server = Table;
  command = λ t c. some (answer t c);
  exec = λ t cs. some (answers t cs);
  hget = λ t h f. find (h, f) t;
  hexists = λ t h f. is_some (find (h, f) t);
  hkeys = λ t h. keys_of h t;
  hgetall = λ t h. rows_at t h (keys_of h t);
  hscan = λ t h p. filter (glob false p) (keys_of h t);
  scan = λ t p. filter (glob false p) (namespaces_of t);
  exists = λ t h. if is_nil (keys_of h t) then 0 else 1;
  matches = glob false;
}

answer-effect :
    (t : Table) (c : Command) (h f : Text)
    → find (h, f) (answer t c).1 ≡ effect c (λ h f. find (h, f) t) h f
unfolding answer find
answer-effect t (hset g k v) h f = find-insert (g, k) (h, f) v t
answer-effect t (hset_all g d) h f = find-put_all g d t h f
answer-effect t (hdel g fs) h f =
    ground (arith, find-remove_all (fields_of g fs) t (h, f), contains-fields_of g h f fs)
answer-effect t (hlen g) h f = refl
answer-effect t (del hs) h f = find-without_all hs t h f

answer-Replies : (t : Table) (c : Command) → Replies redis_table t c (answer t c).0
unfolding answer
answer-Replies t (hset g k v) = tt
answer-Replies t (hset_all g d) = tt
answer-Replies t (hdel g fs) = refl
answer-Replies t (hlen g) = refl
answer-Replies t (del hs) = tt

answers-Runs :
    (t : Table) (cs : List Command) → Runs redis_table t cs (answers t cs).0 (answers t cs).1
unfolding answers
answers-Runs t [] = (refl, refl)
answers-Runs t (c ∷ cs) = (
  (answer t c).0,
  (answers (answer t c).1 cs).0,
  (answer t c).1,
  refl,
  refl,
  answers-Runs (answer t c).1 cs,
)

-- The state of an answered command.
answered :
    (t : Table) (c : Command) (n : ℕ) (t' : Table)
    → some (answer t c) ≡ some (n, t')
    → answer t c ≡ (n, t')
answered t c n t' e = ground (arith, e)

pub redis_table-IsRedis : IsRedis redis_table
unfolding answer glob
redis_table-IsRedis = record {
  command_effect = λ t c n t' e h f.
      ap (λ (r : ℕ × Table). find (h, f) r.1) (sym (answered t c n t' e)) ∙ answer-effect t c h f;
  command_reply =
      λ t c n t' e. rw (ap (λ (r : ℕ × Table). r.0) (answered t c n t' e)) at (answer-Replies t c);
  exec_lem = λ t cs ns t' e.
      (let whole : answers t cs ≡ (ns, t') = ground (arith, e) in
        rw (ap (λ (r : List ℕ × Table). r.0) whole, ap (λ (r : List ℕ × Table). r.1) whole) at
          (answers-Runs t cs));
  hexists_lem = λ t h f. refl;
  contains-hkeys = λ t h f. contains-keys_of h f t;
  hkeys-IsDistinct = λ t h. keys_of-IsDistinct h t;
  find-hgetall = λ t h f. find-rows_at t h (keys_of h t) f ∙ ground (arith, contains-keys_of h f t);
  contains-hscan = λ t h p f. rw (contains-filter, contains-keys_of) (ground arith);
  contains-scan = λ t p h. rw (contains-filter, contains-namespaces_of) (ground arith);
  exists_lem = λ t h. ground arith;
  matches-star = any_suffix-glob;
  matches-escaped_nil = λ c p. refl;
  matches-escaped = λ c p a s. refl;
  matches-plain_nil = glob-plain_nil;
  matches-plain = glob-plain;
}

pub redis_table-Reliable : Reliable redis_table
redis_table-Reliable = record {
  command_succeeds = λ t c. ((answer t c).0, (answer t c).1, refl);
  exec_succeeds = λ t cs. ((answers t cs).0, (answers t cs).1, refl);
}
