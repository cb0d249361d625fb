-- ===== src/Update/Schedule.antt =====
-- internal/update/update.go, ShouldCheck: when a check is due. Times are in nanoseconds; a time that
-- was never set is `none`.
use lp_700_server.Prelude.{
  ℕ, ◌+◌, ◌-◌, ◌<◌, ◌≤◌, ◌≡◌, refl, ◌↔◌, ◌⊎◌, inl, inr, Bool, true, false, ◌&&◌, Option, none, some,
  Bool-cases, ltb, leb, arith, if◌then◌else◌,
}

abbrev pub minimum_interval : ℕ
minimum_interval = 86400000000000

abbrev pub failure_backoff : ℕ
failure_backoff = 3600000000000

-- The time is set, not in the future, and less than `span` ago.
unfoldable pub holds_back : Option ℕ → ℕ → ℕ → Bool
holds_back none span now = false
holds_back (some t) span now = leb t now && ltb (now - t) span

unfoldable pub should_check : Option ℕ → Option ℕ → ℕ → Bool
should_check last_success last_failure now =
    if holds_back last_success minimum_interval now
    then false
    else if holds_back last_failure failure_backoff now
    then false
    else true

-- `now` lies in the `span` from `t` on.
abbrev pub Within : Option ℕ → ℕ → ℕ → Type 0
Within o span now = (t : ℕ) × (o ≡ some t) × (t ≤ now) × (now < t + span)

pub holds_back_iff :
    (o : Option ℕ) (span now : ℕ) → (holds_back o span now ≡ true) ↔ Within o span now
unfolding holds_back
holds_back_iff none span now = ((λ h. absurd (cc h)), (λ (t, e, a, b). absurd (cc e)))
holds_back_iff (some t) span now =
    ((λ h. (t, refl, ground arith, ground arith)), (λ (u, e, a, b). ground arith))

-- A check is held back exactly in the day after a success and in the hour after a failure; a time in
-- the future holds nothing back.
pub should_check_iff :
    (s f : Option ℕ) (now : ℕ)
    → (should_check s f now ≡ false)
      ↔ (Within s minimum_interval now ⊎ Within f failure_backoff now)
unfolding should_check
should_check_iff s f now = (
  (λ h. elim (Bool-cases (holds_back s minimum_interval now)) [
    | inl e ↦ inl ((holds_back_iff s minimum_interval now).0 e)
    | inr e ↦ elim (Bool-cases (holds_back f failure_backoff now)) [
      | inl k ↦ inr ((holds_back_iff f failure_backoff now).0 k)
      | inr k ↦ absurd (cc (h, due e k))
    ]
  ]),
  (λ w. elim w [
    | inl d ↦ rw ((holds_back_iff s minimum_interval now).1 d)
    | inr d ↦
        rw ((holds_back_iff f failure_backoff now).1 d) (either (holds_back s minimum_interval now))
  ]),
)
  where
    due :
        holds_back s minimum_interval now ≡ false
        → holds_back f failure_backoff now ≡ false
        → should_check s f now ≡ true
    due e k = rw (e, k)

    either : (b : Bool) → (if b then false else if true then false else true) ≡ false
    either b = ground arith
