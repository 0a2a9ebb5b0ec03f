-- ===== src/Portability/Dump/Files.antt =====
-- What `dump_store` asks of the file system, which stands outside the repository.
use swarmstate.Prelude.{◌≡◌, Bool, true, false, Option, none, some, [], ◌++◌, is_some, ◌==◌}
use swarmstate.Prelude.Result.{Result, Error, ok, raise}
use swarmstate.Snapshot.{Bytes}
use swarmstate.Text.{Text, text_eq}

pub record Os : Type 1 where
  pub Fs : Type 0
  -- what a file holds, its buffer included; `none` if there is no file at the path
  pub content : Fs → Text → Option Bytes
  -- `open(path, "wb")`, and `f.write` and the end of `with` on the file opened at a path
  pub open_wb : Text → Fs → Result (Unit {0}) × Fs
  pub write : Text → Bytes → Fs → Result (Unit {0}) × Fs
  pub close : Text → Fs → Result (Unit {0}) × Fs
  -- `os.replace`, `os.path.exists`, `os.remove`
  pub replace : Text → Text → Fs → Result (Unit {0}) × Fs
  pub exists : Fs → Text → Bool
  pub remove : Text → Fs → Result (Unit {0}) × Fs

module _ (O : Os) where
  -- Every file but one is as before.
  abbrev pub Frame : Text → O.Fs → O.Fs → Type 0
  Frame p fs fs' = (q : Text) → (p == q) ≡ false → O.content fs' q ≡ O.content fs q

  -- Every step on a file may fail, and may leave that file with any content then; a move that fails
  -- changes nothing.
  pub record IsOs : Type 0 where
    pub open_wb-Frame : (p : Text) (fs : O.Fs) → Frame p fs (O.open_wb p fs).1
    pub open_wb_lem :
        (p : Text) (fs : O.Fs)
        → (O.open_wb p fs).0 ≡ ok tt
        → O.content (O.open_wb p fs).1 p ≡ some []
    pub write-Frame : (p : Text) (b : Bytes) (fs : O.Fs) → Frame p fs (O.write p b fs).1
    pub write_lem :
        (p : Text) (b old : Bytes) (fs : O.Fs)
        → O.content fs p ≡ some old
        → (O.write p b fs).0 ≡ ok tt
        → O.content (O.write p b fs).1 p ≡ some (old ++ b)
    pub close-Frame : (p : Text) (fs : O.Fs) → Frame p fs (O.close p fs).1
    pub close_lem :
        (p : Text) (fs : O.Fs)
        → (O.close p fs).0 ≡ ok tt
        → O.content (O.close p fs).1 p ≡ O.content fs p
    pub replace_lem :
        (p p' : Text) (fs : O.Fs)
        → (p == p') ≡ false
        → (O.replace p p' fs).0 ≡ ok tt
        → (O.content (O.replace p p' fs).1 p' ≡ O.content fs p)
          × (O.content (O.replace p p' fs).1 p ≡ none)
    pub replace-others :
        (p p' : Text) (fs : O.Fs) (q : Text)
        → (p == q) ≡ false
        → (p' == q) ≡ false
        → O.content (O.replace p p' fs).1 q ≡ O.content fs q
    pub replace-fails :
        (p p' : Text) (fs : O.Fs) (e : Error) (q : Text)
        → (O.replace p p' fs).0 ≡ raise e
        → O.content (O.replace p p' fs).1 q ≡ O.content fs q
    pub exists_lem : (fs : O.Fs) (p : Text) → O.exists fs p ≡ is_some (O.content fs p)
    pub remove-Frame : (p : Text) (fs : O.Fs) → Frame p fs (O.remove p fs).1
    pub remove_lem :
        (p : Text) (fs : O.Fs) → (O.remove p fs).0 ≡ ok tt → O.content (O.remove p fs).1 p ≡ none

  -- No step fails; a file that is moved or removed has to be there.
  pub record Works : Type 0 where
    pub opens : (p : Text) (fs : O.Fs) → (fs' : O.Fs) × (O.open_wb p fs ≡ (ok tt, fs'))
    pub writes : (p : Text) (b : Bytes) (fs : O.Fs) → (fs' : O.Fs) × (O.write p b fs ≡ (ok tt, fs'))
    pub closes : (p : Text) (fs : O.Fs) → (fs' : O.Fs) × (O.close p fs ≡ (ok tt, fs'))
    pub replaces :
        (p p' : Text) (fs : O.Fs) (b : Bytes)
        → O.content fs p ≡ some b
        → (fs' : O.Fs) × (O.replace p p' fs ≡ (ok tt, fs'))
    pub removes :
        (p : Text) (fs : O.Fs)
        → O.exists fs p ≡ true
        → (fs' : O.Fs) × (O.remove p fs ≡ (ok tt, fs'))
