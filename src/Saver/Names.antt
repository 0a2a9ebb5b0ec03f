-- ===== src/Saver/Names.antt =====
-- python/swarmstate/integrations/langgraph.py: the namespaces and keys under which a saver stores.
pub mod Distinct
pub mod Parts
use swarmstate.Prelude.{
  ℕ, ◌≡◌, Bool, false, List, [], ◌∷◌, ◌++◌, map, if◌then◌else◌, nat_eq, ltb, ◌&&◌, ◌||◌, ◌==◌,
  Option, none, some,
}
use swarmstate.Prelude.Decimal.{ℤ, int, ltb_ℤ}
use swarmstate.Prelude.Result.{Result, ok, raise, ◌>>=◌}
use swarmstate.Text.{Text, text_eq}
use swarmstate.Text.Order.{lt}

-- `_SEP`
abbrev pub sep : ℕ
sep = 0x1f

-- `_LATEST_NS`, "lt"
abbrev pub latest_ns : Text
latest_ns = 108 ∷ 116 ∷ []

-- "ck", "wr" and "bl"
abbrev pub ck : Text
ck = 99 ∷ 107 ∷ []

abbrev pub wr : Text
wr = 119 ∷ 114 ∷ []

abbrev pub bl : Text
bl = 98 ∷ 108 ∷ []

unfoldable pub ckpt_ns : Text → Text → Text
ckpt_ns thread_id checkpoint_ns = ck ++ (sep ∷ thread_id ++ (sep ∷ checkpoint_ns))

unfoldable pub writes_ns : Text → Text → Text → Text
writes_ns thread_id checkpoint_ns checkpoint_id =
    wr ++ (sep ∷ thread_id ++ (sep ∷ checkpoint_ns ++ (sep ∷ checkpoint_id)))

unfoldable pub blobs_ns : Text → Text → Text
blobs_ns thread_id checkpoint_ns = bl ++ (sep ∷ thread_id ++ (sep ∷ checkpoint_ns))

unfoldable pub latest_key : Text → Text → Text
latest_key thread_id checkpoint_ns = thread_id ++ (sep ∷ checkpoint_ns)

abbrev cons_head : ℕ → List Text → List Text
cons_head c [] = (c ∷ []) ∷ []
cons_head c (part ∷ parts) = (c ∷ part) ∷ parts

-- `text.split(_SEP)`
unfoldable pub split : Text → List Text
split [] = [] ∷ []
split (c ∷ s) = let parts = split s in if nat_eq c sep then [] ∷ parts else cons_head c parts

unfoldable pub has_sep : Text → Bool
has_sep [] = false
has_sep (c ∷ s) = nat_eq c sep || has_sep s

-- `key.rpartition(_SEP)`: the parts before and behind the last separator
unfoldable pub rpartition : Text → Text × Text
rpartition [] = ([], [])
rpartition (c ∷ s) =
    let (before, behind) = rpartition s in
    if has_sep s then (c ∷ before, behind) else if nat_eq c sep then ([], s) else ([], c ∷ s)

-- `_write_order`: the sort key of a pending write
unfoldable pub write_order : Text → Result (Text × ℤ)
write_order key = do let (task_id, idx) = rpartition key; i ← int idx; ok (task_id, i)

-- The order of such sort keys, as tuples.
unfoldable pub below : Text × ℤ → Text × ℤ → Bool
below (s, i) (t, j) = if s == t then ltb_ℤ i j else lt s t
