-- ===== src/Store/Packed.antt =====
-- The bytes that a backend keeps of the values of a batch.
use mathlib.Core.Option
use swarmstate.Prelude.{◌≡◌, refl, Option, none, some, List, [], ◌∷◌, arith, or_else}
use swarmstate.Text.{Text, text_eq}
use swarmstate.Store.{written}
use swarmstate.Snapshot.{Bytes, Row}
use swarmstate.Disk.Statements.{Codec}

module _ {A : Type 0} (C : Codec A) where
  -- The rows that a batch writes, with the bytes of their values.
  abbrev pub packed : List (Text × Text × Option A) → List Row
  packed [] = []
  packed ((n, k, v) ∷ items) = (n, k, C.pack v) ∷ packed items

  pub written-packed :
      (items : List (Text × Text × Option A)) (n k : Text)
      → Option.map C.unpack (written (packed items) n k) ≡ written items n k
  unfolding written
  written-packed [] n k = refl
  written-packed ((m, j, v) ∷ items) n k = ground (arith, written-packed items n k, C.unpack-pack v)

  pub unpacked-or_else :
      (a b : Option Bytes)
      → Option.map C.unpack (or_else a b) ≡ or_else (Option.map C.unpack a) (Option.map C.unpack b)
  unpacked-or_else none b = refl
  unpacked-or_else (some v) b = refl
