-- ===== src/Examples/Disks.antt =====
-- A file system with a quota on the length of each file, and the theorems about `dump_store` on it.
use swarmstate.Prelude.{
  ◌≡◌, refl, ◌∙◌, Bool, true, false, Option, none, some, [], ◌∷◌, ◌++◌, arith, length, is_some, ltb,
  ◌==◌, eq_iff, eq_refl, get_or, pair_eq,
}
use swarmstate.Prelude.Result.{Result, Error, ok, raise, os_error}
use swarmstate.Prelude.Dict.{Dict, find, insert, remove, find-insert, find-remove}
use swarmstate.Snapshot.{Bytes}
use swarmstate.Text.{Text, text_eq}
use swarmstate.Portability.Dump.{write_dump}
use swarmstate.Portability.Dump.Files.{Os, IsOs, Works}
use swarmstate.Portability.Dump.ToPath.{dump_store}
use swarmstate.Portability.Dump.Interrupted.{Dumped, dump_store_lem}
use swarmstate.Portability.Dump.Returns.{count_of, dump_store-count}
use swarmstate.Examples.Backend.{disk, table}
use swarmstate.Examples.Format.{entry_codec}

abbrev Files : Type 0
Files = Dict Text Bytes

abbrev move : Text → Text → Option Bytes → Files → Result (Unit {0}) × Files
move p p' none fs = (raise os_error, fs)
move p p' (some b) fs = (ok tt, insert p' b (remove p fs))

-- A write beyond the quota leaves the file as it is, and raises.
abbrev append : Bool → Text → Bytes → Files → Result (Unit {0}) × Files
append true p b fs = (raise os_error, fs)
append false p b fs = (ok tt, insert p b fs)

abbrev grown : Text → Bytes → Files → Bytes
grown p b fs = get_or (find p fs) [] ++ b

abbrev files_os : (Bytes → Bool) → Os
files_os is_over = record {
  Fs = Files;
  content = λ fs p. find p fs;
  open_wb = λ p fs. (ok tt, insert p [] fs);
  write = λ p b fs. append (is_over (grown p b fs)) p (grown p b fs) fs;
  close = λ p fs. (ok tt, fs);
  replace = λ p p' fs. move p p' (find p fs) fs;
  exists = λ fs p. is_some (find p fs);
  remove = λ p fs. (ok tt, remove p fs);
}

append-others :
    (over : Bool) (p q : Text) (b : Bytes) (fs : Files)
    → (p == q) ≡ false
    → find q (append over p b fs).1 ≡ find q fs
append-others true p q b fs h = refl
append-others false p q b fs h = ground (arith, h, find-insert p q b fs)

append_lem :
    (over : Bool) (p : Text) (b : Bytes) (fs : Files)
    → (append over p b fs).0 ≡ ok tt
    → find p (append over p b fs).1 ≡ some b
append_lem true p b fs h = absurd (ground (arith, h))
append_lem false p b fs h = ground (arith, find-insert p p b fs, eq_refl p)

move-others :
    (p p' q : Text) (o : Option Bytes) (fs : Files)
    → (p == q) ≡ false
    → (p' == q) ≡ false
    → find q (move p p' o fs).1 ≡ find q fs
move-others p p' q none fs h h' = refl
move-others p p' q (some b) fs h h' =
    ground (arith, h, h', find-insert p' q b (remove p fs), find-remove p q fs)

move_lem :
    (p p' : Text) (o : Option Bytes) (fs : Files)
    → (p == p') ≡ false
    → (move p p' o fs).0 ≡ ok tt
    → (find p' (move p p' o fs).1 ≡ o) × (find p (move p p' o fs).1 ≡ none)
move_lem p p' none fs h r = absurd (ground (arith, r))
move_lem p p' (some b) fs h r = (
  ground (arith, find-insert p' p' b (remove p fs), eq_refl p'),
  ground (
    arith,
    h,
    find-insert p' p b (remove p fs),
    find-remove p p fs,
    eq_refl p,
    eq_iff p p',
    eq_iff p' p,
  ),
)

move-fails :
    (p p' q : Text) (o : Option Bytes) (fs : Files) (e : Error)
    → (move p p' o fs).0 ≡ raise e
    → find q (move p p' o fs).1 ≡ find q fs
move-fails p p' q none fs e r = refl
move-fails p p' q (some b) fs e r = absurd (ground (arith, r))

files_os-IsOs : (is_over : Bytes → Bool) → IsOs (files_os is_over)
files_os-IsOs is_over = record {
  open_wb-Frame = λ p fs q h. ground (arith, h, find-insert p q [] fs);
  open_wb_lem = λ p fs h. ground (arith, find-insert p p [] fs, eq_refl p);
  write-Frame = λ p b fs q h. append-others (is_over (grown p b fs)) p q (grown p b fs) fs h;
  write_lem =
      λ p b old fs c h. append_lem (is_over (grown p b fs)) p (grown p b fs) fs h ∙ rw c refl;
  close-Frame = λ p fs q h. refl;
  close_lem = λ p fs h. refl;
  replace_lem = λ p p' fs h r. move_lem p p' (find p fs) fs h r;
  replace-others = λ p p' fs q h h'. move-others p p' q (find p fs) fs h h';
  replace-fails = λ p p' fs e q r. move-fails p p' q (find p fs) fs e r;
  exists_lem = λ fs p. refl;
  remove-Frame = λ p fs q h. ground (arith, h, find-remove p q fs);
  remove_lem = λ p fs h. ground (arith, find-remove p p fs, eq_refl p);
}

-- A file system that is never full, and one on which a file has at most ten bytes.
abbrev roomy : Os
roomy = files_os (λ b. false)

abbrev small : Os
small = files_os (λ b. ltb 10 (length b))

roomy-Works : Works roomy
roomy-Works = record {
  opens = λ p fs. (_, refl);
  writes = λ p b fs. (_, refl);
  closes = λ p fs. (_, refl);
  replaces = λ p p' fs b h. (insert p' b (remove p fs), rw h refl);
  removes = λ p fs h. (_, refl);
}

-- the path "x", and a file that is there
abbrev tx : Text
tx = 120 ∷ []

abbrev old : Files
old = (tx, 1 ∷ []) ∷ []

dump_store_lem_example :
    Dumped entry_codec small
      (files_os-IsOs (λ b. ltb 10 (length b)))
      disk
      table
      none
      tx
      old
      (dump_store entry_codec small disk table none tx old)
dump_store_lem_example =
    dump_store_lem entry_codec small (files_os-IsOs (λ b. ltb 10 (length b))) disk table none tx old

dump_store-count_example :
    (dump_store entry_codec roomy disk table none tx old).0
    ≡ count_of (write_dump entry_codec disk table none)
dump_store-count_example =
    dump_store-count entry_codec roomy (files_os-IsOs (λ b. false)) roomy-Works disk table none tx
      old
