-- ===== src/Config/Valid.antt =====
-- Which settings the server accepts (config.go, validate and Load).
use lp_700_server.Prelude.{
  ℕ, ◌≤◌, ◌≡◌, ◌≢◌, refl, sym, subst, ◌∙◌, ◌⊎◌, inl, inr, ◌↔◌, true, false, ◌||◌, Option, none,
  some, [], arith, Bool-cases, Option-cases, codes,
}
use lp_700_server.Prelude.Int.{ℤ, pos, negsuc, ltb_ℤ, leb_ℤ}
use lp_700_server.Prelude.Result.{Result, ok, ok-injective}
use lp_700_server.Meter.Snapshot.{Bytes, bytes_eq}
use lp_700_server.Meter.Snapshot.Deadband.{bytes_eq_iff}
use lp_700_server.Config.{
  Config, ConfigError, ReadOutcome, missing, failed, read, defaults, is_backend_name, validate,
  load, load_outcome, decoded, checked,
}

-- An integer from `low` to `high`.
abbrev pub Between : ℕ → ℕ → ℤ → Type 0
Between low high z = (n : ℕ) × (z ≡ pos n) × (low ≤ n) × (n ≤ high)

abbrev pub AtLeast : ℕ → ℤ → Type 0
AtLeast low z = (n : ℕ) × (z ≡ pos n) × (low ≤ n)

abbrev pub IsValid : Config → Type 0
IsValid c =
    ((c.meter.backend ≡ codes "auto")
      ⊎ (c.meter.backend ≡ codes "hid")
      ⊎ (c.meter.backend ≡ codes "simulator"))
    × Between 10 1000 c.meter.poll_ms
    × (c.server.listen ≢ [])
    × AtLeast 1 c.server.max_clients
    × AtLeast 200 c.server.heartbeat_ms

poll_iff : (z : ℤ) → ((ltb_ℤ z (pos 10) || ltb_ℤ (pos 1000) z) ≡ false) ↔ Between 10 1000 z
poll_iff (pos n) = ((λ h. (n, refl, ground arith, ground arith)), (λ (m, e, a, b). ground arith))
poll_iff (negsuc n) = ((λ h. absurd (cc h)), (λ (m, e, a, b). absurd (cc e)))

AtLeast-1_iff : (z : ℤ) → (leb_ℤ z (pos 0) ≡ false) ↔ AtLeast 1 z
AtLeast-1_iff (pos n) = ((λ h. (n, refl, ground arith)), (λ (m, e, a). ground arith))
AtLeast-1_iff (negsuc n) = ((λ h. absurd (cc h)), (λ (m, e, a). absurd (cc e)))

AtLeast-200_iff : (z : ℤ) → (ltb_ℤ z (pos 200) ≡ false) ↔ AtLeast 200 z
AtLeast-200_iff (pos n) = ((λ h. (n, refl, ground arith)), (λ (m, e, a). ground arith))
AtLeast-200_iff (negsuc n) = ((λ h. absurd (cc h)), (λ (m, e, a). absurd (cc e)))

backend_iff :
    (b : Bytes)
    → (is_backend_name b ≡ true)
      ↔ ((b ≡ codes "auto") ⊎ (b ≡ codes "hid") ⊎ (b ≡ codes "simulator"))
backend_iff b = ground (
  arith,
  bytes_eq_iff b (codes "auto"),
  bytes_eq_iff b (codes "hid"),
  bytes_eq_iff b (codes "simulator"),
)

tests_iff :
    (c : Config)
    → (validate c ≡ none) ↔ (
        (is_backend_name c.meter.backend ≡ true)
        × ((ltb_ℤ c.meter.poll_ms (pos 10) || ltb_ℤ (pos 1000) c.meter.poll_ms) ≡ false)
        × (bytes_eq c.server.listen [] ≡ false)
        × (leb_ℤ c.server.max_clients (pos 0) ≡ false)
        × (ltb_ℤ c.server.heartbeat_ms (pos 200) ≡ false))
unfolding validate
tests_iff c = ground arith

-- The settings are accepted exactly if the backend is one of the three names, the poll interval is
-- from 10 to 1000 ms, an address to listen on is set, there is room for a client, and the heartbeat
-- interval is at least 200 ms.
pub validate_iff : (c : Config) → (validate c ≡ none) ↔ IsValid c
validate_iff c = (
  (λ h.
      let (b, p, l, m, t) = (tests_iff c).0 h in
      (
        (backend_iff c.meter.backend).0 b,
        (poll_iff c.meter.poll_ms).0 p,
        (λ e. cc (l, (bytes_eq_iff c.server.listen []).1 e)),
        (AtLeast-1_iff c.server.max_clients).0 m,
        (AtLeast-200_iff c.server.heartbeat_ms).0 t,
      )),
  (λ (b, p, l, m, t). (tests_iff c).1 (
    (backend_iff c.meter.backend).1 b,
    (poll_iff c.meter.poll_ms).1 p,
    not_empty l,
    (AtLeast-1_iff c.server.max_clients).1 m,
    (AtLeast-200_iff c.server.heartbeat_ms).1 t,
  )),
)
  where
    not_empty : c.server.listen ≢ [] → bytes_eq c.server.listen [] ≡ false
    not_empty l = elim (Bool-cases (bytes_eq c.server.listen [])) [
      | inl e ↦ absurd (l ((bytes_eq_iff c.server.listen []).0 e))
      | inr e ↦ e
    ]

defaults-IsValid : IsValid defaults
defaults-IsValid = (
  inl refl,
  (40, refl, ground arith, ground arith),
  (λ e. cc e),
  (32, refl, ground arith),
  (2000, refl, ground arith),
)

module _ (read_file : Bytes → ReadOutcome) (unmarshal : Bytes → Config → Option Config) where
  checked-IsValid : (d : Config) {c : Config} → checked read_file unmarshal d ≡ ok c → IsValid c
  unfolding checked
  checked-IsValid d {c} h = elim (Option-cases (validate d)) [
    | inl e ↦ (validate_iff c).0 (subst (λ x. validate x ≡ none) (same e) e)
    | inr (x, e) ↦ absurd (refused x e)
  ]
    where
      accepted : validate d ≡ none → checked read_file unmarshal d ≡ ok d
      accepted e = rw (e, checked) refl

      same : validate d ≡ none → d ≡ c
      same e = ok-injective ConfigError (sym (accepted e) ∙ h)

      refused : (x : ConfigError) → validate d ≡ some x → ⊥
      refused x e = ground arith

  outcome-IsValid :
      (o : ReadOutcome) {c : Config} → load_outcome read_file unmarshal o ≡ ok c → IsValid c
  unfolding load_outcome decoded
  outcome-IsValid missing h = subst IsValid (ok-injective ConfigError h) defaults-IsValid
  outcome-IsValid failed h = absurd (cc h)
  outcome-IsValid (read data_) {c} h = elim (Option-cases (unmarshal data_ defaults)) [
    | inl e ↦ absurd (unread e)
    | inr (d, e) ↦ checked-IsValid d (as_checked d e)
  ]
    where
      unread : unmarshal data_ defaults ≡ none → ⊥
      unread e = ground arith

      as_checked :
          (d : Config) → unmarshal data_ defaults ≡ some d → checked read_file unmarshal d ≡ ok c
      as_checked d e = ground arith

  -- Whatever the file holds, the settings that Load returns without an error are valid: a known
  -- backend, a poll interval from 10 to 1000 ms, an address to listen on, room for at least one
  -- client, and a heartbeat interval of at least 200 ms.
  pub load-IsValid : (path : Bytes) {c : Config} → load read_file unmarshal path ≡ ok c → IsValid c
  unfolding load
  load-IsValid path {c} h = elim (Bool-cases (bytes_eq path [])) [
    | inl e ↦ subst IsValid (ok-injective ConfigError (default_taken e)) defaults-IsValid
    | inr e ↦ outcome-IsValid (read_file path) (from_file e)
  ]
    where
      default_taken :
          bytes_eq path [] ≡ true → ◌≡◌ {A = Result ConfigError Config} (ok defaults) (ok c)
      default_taken e = ground arith

      from_file :
          bytes_eq path [] ≡ false → load_outcome read_file unmarshal (read_file path) ≡ ok c
      from_file e = ground arith

  -- With no path, and where there is no file, the defaults are used, and they pass the validation.
  pub load-defaults :
      (path : Bytes)
      → (path ≡ []) ⊎ (read_file path ≡ missing)
      → (load read_file unmarshal path ≡ ok defaults) × IsValid defaults
  unfolding load load_outcome
  load-defaults path (inl e) = (rw e refl, defaults-IsValid)
  load-defaults path (inr e) = (
    elim (Bool-cases (bytes_eq path [])) [ inl p ↦ rw p refl | inr p ↦ rw p (rw e refl) ],
    defaults-IsValid,
  )
