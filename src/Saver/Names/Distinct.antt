-- ===== src/Saver/Names/Distinct.antt =====
-- The names of two threads differ, where no thread id holds the separator.
use swarmstate.Prelude.{◌≡◌, refl, false, ◌&&◌, [], ◌∷◌, ◌++◌, arith, ◌==◌}
use swarmstate.Text.{Text, text_eq, text_beq, starts_with}
use swarmstate.Saver.Names.{sep, ckpt_ns, latest_key, has_sep, split}

-- Texts with a separator agree exactly when the parts before their first one and behind it agree.
pub joined_eq :
    (t n t' n' : Text)
    → has_sep t ≡ false
    → has_sep t' ≡ false
    → (t ++ (sep ∷ n) == t' ++ (sep ∷ n')) ≡ (t == t' && n == n')
unfolding has_sep text_beq
joined_eq [] n [] n' h h' = refl
joined_eq [] n (b ∷ t') n' h h' = ground arith
joined_eq (a ∷ t) n [] n' h h' = ground arith
joined_eq (a ∷ t) n (b ∷ t') n' h h' = ground (arith, joined_eq t n t' n')

pub ckpt_ns_eq :
    (t n t' n' : Text)
    → has_sep t ≡ false
    → has_sep t' ≡ false
    → (ckpt_ns t n == ckpt_ns t' n') ≡ (t == t' && n == n')
unfolding ckpt_ns text_beq
ckpt_ns_eq t n t' n' h h' = joined_eq t n t' n' h h'

pub latest_key_eq :
    (t n t' n' : Text)
    → has_sep t ≡ false
    → has_sep t' ≡ false
    → (latest_key t n == latest_key t' n') ≡ (t == t' && n == n')
unfolding latest_key
latest_key_eq t n t' n' h h' = joined_eq t n t' n' h h'

-- A text that starts with the prefix of a thread has the thread's id as its part.
pub starts_with-joined :
    (t n t' : Text)
    → has_sep t ≡ false
    → has_sep t' ≡ false
    → starts_with (t ++ (sep ∷ n)) (t' ++ (sep ∷ [])) ≡ (t == t')
unfolding has_sep text_beq starts_with
starts_with-joined [] n [] h h' = refl
starts_with-joined [] n (b ∷ t') h h' = ground arith
starts_with-joined (a ∷ t) n [] h h' = ground arith
starts_with-joined (a ∷ t) n (b ∷ t') h h' = ground (arith, starts_with-joined t n t')

pub split-joined : (t n : Text) → has_sep t ≡ false → split (t ++ (sep ∷ n)) ≡ t ∷ split n
unfolding has_sep split
split-joined [] n h = refl
split-joined (a ∷ t) n h = ground (arith, split-joined t n)
