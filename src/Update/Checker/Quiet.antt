-- ===== src/Update/Checker/Quiet.antt =====
-- The checker's loop over many rounds (update.go, Run): how often it asks, and what it logs.
use lp_700_server.Prelude.{
  ℕ, suc, ◌+◌, ◌<◌, ◌≤◌, ◌≡◌, ◌≢◌, refl, ◌⊎◌, inl, inr, Bool, false, not, List, [], ◌∷◌, Option,
  none, some, arith, Bool-cases, All, All-imp, subst, if◌then◌else◌,
}
use lp_700_server.Prelude.Result.{Result}
use lp_700_server.Meter.Snapshot.{Bytes}
use lp_700_server.Update.Schedule.{
  should_check, should_check_iff, minimum_interval, failure_backoff,
}
use lp_700_server.Update.Checker.Notices.{record_check_notice-cases}
use lp_700_server.Update.Checker.{Checker, Release, Url, FetchError, check_if_due}

-- One wake-up of the loop, and what a request made then would bring.
pub record Round : Type 0 where
  pub now : ℕ
  pub answer : Result FetchError Release
  pub cancelled : Bool
  pub later : ℕ

abbrev add_notice : Option Bytes → List Bytes → List Bytes
add_notice none ts = ts
add_notice (some t) ts = t ∷ ts

module _ (parse : Bytes → Option Url) where
  abbrev round : Checker → Round → Checker × Option Bytes × Bool
  round c r = check_if_due parse c r.now r.answer r.cancelled r.later

  -- The rounds of Run, if the check is on: the checker at the end, the tags of the notices, and the
  -- number of requests.
  unfoldable pub run_rounds : Checker → List Round → Checker × List Bytes × ℕ
  run_rounds c [] = (c, [], 0)
  run_rounds c (r ∷ rs) =
      let (c', notice, asked) = round c r in
      let (c'', tags, n) = run_rounds c' rs in
      (c'', add_notice notice tags, if asked then suc n else n)

  -- `Run` returns at once when the setting is off or the build has no version to compare.
  unfoldable pub run : Checker → List Round → Checker × List Bytes × ℕ
  unfolding run_rounds
  run c rs =
      if not c.enabled then (c, [], 0) else if not c.automatic then (c, [], 0) else run_rounds c rs

  not_due :
      (c : Checker) (r : Round)
      → should_check c.last_success c.last_failure r.now ≡ false
      → round c r ≡ (c, none, false)
  not_due c r h = unfold check_if_due in rw h

  All-held :
      (c : Checker) (rs : List Round)
      → All (λ r. should_check c.last_success c.last_failure r.now ≡ false) rs
      → run_rounds c rs ≡ (c, [], 0)
  unfolding run_rounds
  All-held c [] h = refl
  All-held c (r ∷ rs) (h, hs) = rw (not_due c r h) (rw (All-held c rs hs) refl)

  -- No request is made, nothing is logged and nothing changes in any number of rounds in the day after
  -- a success, nor in the hour after a failure.
  pub quiet :
      (c : Checker) (rs : List Round) (t : ℕ)
      → ((c.last_success ≡ some t) × All (λ r. (t ≤ r.now) × (r.now < t + minimum_interval)) rs)
        ⊎ ((c.last_failure ≡ some t) × All (λ r. (t ≤ r.now) × (r.now < t + failure_backoff)) rs)
      → run c rs ≡ (c, [], 0)
  quiet c rs t h = stays (held h)
    where
      held :
          (((c.last_success ≡ some t) × All (λ r. (t ≤ r.now) × (r.now < t + minimum_interval)) rs)
            ⊎ ((c.last_failure ≡ some t)
                × All (λ r. (t ≤ r.now) × (r.now < t + failure_backoff)) rs))
          → All (λ r. should_check c.last_success c.last_failure r.now ≡ false) rs
      held (inl (e, a)) =
          All-imp
            (λ r (b, d).
              (should_check_iff c.last_success c.last_failure r.now).1 (inl (t, e, b, d)))
            rs a
      held (inr (e, a)) =
          All-imp
            (λ r (b, d).
              (should_check_iff c.last_success c.last_failure r.now).1 (inr (t, e, b, d)))
            rs a

      stays :
          All (λ r. should_check c.last_success c.last_failure r.now ≡ false) rs
          → run c rs ≡ (c, [], 0)
      stays a =
          unfold run in
          elim (Bool-cases c.enabled) [
            | inr e ↦ ground arith
            | inl e ↦ elim (Bool-cases c.automatic) [
              | inr k ↦ ground arith
              | inl k ↦ ground (arith, All-held c rs a)
            ]
          ]

  -- No tag stands twice in a row, nor first if it is the last one logged.
  abbrev pub Alternates : Bytes → List Bytes → Type 0
  Alternates last [] = Unit {0}
  Alternates last (t ∷ ts) = (t ≢ last) × Alternates t ts

  round_notice :
      (c : Checker) (r : Round)
      → ((round c r).1 ≡ none) × ((round c r).0.logged_tag ≡ c.logged_tag)
        ⊎ ((t : Bytes) × ((round c r).1 ≡ some t)
            × (t ≢ c.logged_tag)
            × ((round c r).0.logged_tag ≡ t))
  round_notice c r = elim (Bool-cases (should_check c.last_success c.last_failure r.now)) [
    | inr e ↦ rw (not_due c r e) (inl (refl, refl))
    | inl e ↦ elim (Bool-cases r.cancelled) [
      | inl k ↦ unfold check_if_due in rw e (rw k (inl (refl, refl)))
      | inr k ↦
          unfold check_if_due in rw e (rw k (record_check_notice-cases parse c r.answer r.later))
    ]
  ]

  -- However often the loop runs, the same release is not announced twice in a row, nor first if it
  -- is the one last announced.
  pub run-Alternates : (c : Checker) (rs : List Round) → Alternates c.logged_tag (run_rounds c rs).1
  unfolding run_rounds
  run-Alternates c [] = tt
  run-Alternates c (r ∷ rs) = elim (round_notice c r) [
    | inl (e, k) ↦ rw e (
        subst (λ l. Alternates l (run_rounds (round c r).0 rs).1) k
          (run-Alternates (round c r).0 rs))
    | inr (t, e, o, k) ↦ rw e (
      o,
      subst (λ l. Alternates l (run_rounds (round c r).0 rs).1) k (run-Alternates (round c r).0 rs),
    )
  ]
