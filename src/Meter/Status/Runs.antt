-- ===== src/Meter/Status/Runs.antt =====
-- The letter-run counter of extractStatusMessage (decode.go) against the runs in the text.
use lp_700_server.Prelude.{ℕ, ◌+◌, ◌≤◌, ◌≡◌, true, false, [], ◌∷◌, arith, inl, inr, Bool-cases}
use lp_700_server.Meter.Snapshot.{Bytes}
use lp_700_server.Meter.Status.{is_letter, has_letter_run}

abbrev pub IsLetter : ℕ → Type 0
IsLetter c = is_letter c ≡ true

-- Three letters stand in a row somewhere in the text.
pub data HasRun : Bytes → Type 0 where
  here :
      (a b c : ℕ) (rest : Bytes) → IsLetter a → IsLetter b → IsLetter c → HasRun (a ∷ b ∷ c ∷ rest)
  there : (a : ℕ) {rest : Bytes} → HasRun rest → HasRun (a ∷ rest)

abbrev Sound : Bytes → Type 0
Sound m =
    (has_letter_run 0 m ≡ true → HasRun m)
    × ((a : ℕ) → IsLetter a → has_letter_run 1 m ≡ true → HasRun (a ∷ m))
    × ((a b : ℕ) → IsLetter a → IsLetter b → has_letter_run 2 m ≡ true → HasRun (a ∷ b ∷ m))

-- One more byte, a letter or not.
step_letter :
    (k x : ℕ) (m : Bytes) → k ≤ 1 → IsLetter x → has_letter_run k (x ∷ m) ≡ has_letter_run (k + 1) m
unfolding has_letter_run
step_letter k x m h l = ground arith

step_other :
    (k x : ℕ) (m : Bytes) → is_letter x ≡ false → has_letter_run k (x ∷ m) ≡ has_letter_run 0 m
unfolding has_letter_run
step_other k x m l = ground arith

Sound-cons : (x : ℕ) (m : Bytes) → Sound m → Sound (x ∷ m)
Sound-cons x m (s0, s1, s2) = elim (Bool-cases (is_letter x)) [
  | inl l ↦ (
    (λ h. s1 x l (rw (step_letter 0 x m (omega arith) l) at h)),
    (λ a p h. s2 a x p l (rw (step_letter 1 x m (omega arith) l) at h)),
    (λ a b p q h. here a b x m p q l),
  )
  | inr n ↦ (
    (λ h. there x (s0 (rw (step_other 0 x m n) at h))),
    (λ a p h. there a (there x (s0 (rw (step_other 1 x m n) at h)))),
    (λ a b p q h. there a (there b (there x (s0 (rw (step_other 2 x m n) at h))))),
  )
]

sound : (m : Bytes) → Sound m
unfolding has_letter_run
sound [] = ((λ h. cc), (λ a p h. cc), (λ a b p q h. cc))
sound (x ∷ m) = Sound-cons x m (sound m)

pub has_letter_run-HasRun : (m : Bytes) → has_letter_run 0 m ≡ true → HasRun m
has_letter_run-HasRun m = (sound m).0

pub HasRun-has_letter_run : {m : Bytes} (k : ℕ) → HasRun m → k ≤ 2 → has_letter_run k m ≡ true
unfolding has_letter_run
HasRun-has_letter_run k (here a b c rest p q r) h = ground arith
HasRun-has_letter_run k (there a {rest} t) h =
    ground (arith, HasRun-has_letter_run (k + 1) t, HasRun-has_letter_run 0 t)
