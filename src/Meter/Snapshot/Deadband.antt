-- ===== src/Meter/Snapshot/Deadband.antt =====
-- The broadcast deadband (snapshot.go, CloseEnough).
use lp_700_server.Prelude.{
  ℕ, ◌+◌, ◌<◌, ◌≡◌, ◌↔◌, Bool, true, ◌&&◌, str_eq, eq_iff, List, [], ◌∷◌, bool_eq, All, arith,
}
use lp_700_server.Prelude.Int.{ℤ, int_eq}
use lp_700_server.Meter.Snapshot.{Bytes, bytes_eq, Snapshot, float_near, close_enough}

pub bytes_eq_iff : (a b : Bytes) → (bytes_eq a b ≡ true) ↔ (a ≡ b)
bytes_eq_iff (x ∷ a) (y ∷ b) = ground (arith, bytes_eq_iff a b)
bytes_eq_iff _ _ = ground arith

int_eq_iff : (a b : ℤ) → (int_eq a b ≡ true) ↔ (a ≡ b)
int_eq_iff a b = ground arith

pub bool_eq_iff : (a b : Bool) → (bool_eq a b ≡ true) ↔ (a ≡ b)
bool_eq_iff a b = ground arith

-- Two readings at most `eps` apart, the bound left out.
abbrev pub Near : ℕ → ℕ → ℕ → Type 0
Near a b eps = (a < b + eps) × (b < a + eps)

float_near_iff : (a b eps : ℕ) → (float_near a b eps ≡ true) ↔ Near a b eps
unfolding float_near
float_near_iff a b eps = ground arith

-- The discrete fields agree and each reading lies within its deadband: 0.5 W, or 0.005 of SWR.
pub record IsClose (s o : Snapshot) : Type 0 where
  pub channel_eq : s.channel ≡ o.channel
  pub auto_eq : s.auto_channel ≡ o.auto_channel
  pub avg_near : Near s.power_avg o.power_avg 500
  pub peak_near : Near s.power_peak o.power_peak 500
  pub hold_near : Near s.peak_hold o.peak_hold 500
  pub swr_near : Near s.swr o.swr 5
  pub range_eq : s.range ≡ o.range
  pub peak_mode_eq : s.peak_mode ≡ o.peak_mode
  pub power_mode_eq : s.power_mode ≡ o.power_mode
  pub alarm_eq : s.alarm_enabled ≡ o.alarm_enabled
  pub alarm_power_near : Near s.alarm_power o.alarm_power 500
  pub alarm_swr_near : Near s.alarm_swr o.alarm_swr 5
  pub tripped_eq : s.alarm_tripped ≡ o.alarm_tripped
  pub callsign_eq : s.callsign ≡ o.callsign
  pub coupler_eq : s.coupler ≡ o.coupler
  pub top_mode_eq : s.top_mode ≡ o.top_mode
  pub firmware_eq : s.firmware_rev ≡ o.firmware_rev
  pub status_eq : s.status_message ≡ o.status_message

-- A conjunction of tests, each with its meaning.
abbrev conj_from : Bool → List Bool → Bool
conj_from b [] = b
conj_from b (c ∷ cs) = conj_from (b && c) cs

conj_from-All :
    (b : Bool) (cs : List Bool) → conj_from b cs ≡ true → (b ≡ true) × All (λ c. c ≡ true) cs
conj_from-All b [] h = (h, tt)
conj_from-All b (c ∷ cs) h = ground (arith, conj_from-All (b && c) cs h)

-- The conjuncts of `close_enough` after the first.
tests : Snapshot → Snapshot → List Bool
tests s o =
    (bool_eq s.auto_channel o.auto_channel)
    ∷ (float_near s.power_avg o.power_avg 500)
    ∷ (float_near s.power_peak o.power_peak 500)
    ∷ (float_near s.peak_hold o.peak_hold 500)
    ∷ (float_near s.swr o.swr 5)
    ∷ (str_eq s.range o.range)
    ∷ (str_eq s.peak_mode o.peak_mode)
    ∷ (str_eq s.power_mode o.power_mode)
    ∷ (bool_eq s.alarm_enabled o.alarm_enabled)
    ∷ (float_near s.alarm_power o.alarm_power 500)
    ∷ (float_near s.alarm_swr o.alarm_swr 5)
    ∷ (bool_eq s.alarm_tripped o.alarm_tripped)
    ∷ (str_eq s.callsign o.callsign)
    ∷ (str_eq s.coupler o.coupler)
    ∷ (str_eq s.top_mode o.top_mode)
    ∷ (str_eq s.firmware_rev o.firmware_rev)
    ∷ (bytes_eq s.status_message o.status_message)
    ∷ []

close_enough-tests :
    (s o : Snapshot)
    → close_enough s o ≡ true
    → (int_eq s.channel o.channel ≡ true) × All (λ b. b ≡ true) (tests s o)
unfolding close_enough tests
close_enough-tests s o = conj_from-All (int_eq s.channel o.channel) (tests s o)

tests-IsClose :
    (s o : Snapshot)
    → (int_eq s.channel o.channel ≡ true) × All (λ b. b ≡ true) (tests s o)
    → IsClose s o
unfolding tests
tests-IsClose s o t = record {
  channel_eq = (int_eq_iff s.channel o.channel).0 t.0;
  auto_eq = (bool_eq_iff s.auto_channel o.auto_channel).0 t.1.0;
  avg_near = (float_near_iff s.power_avg o.power_avg 500).0 t.1.1.0;
  peak_near = (float_near_iff s.power_peak o.power_peak 500).0 t.1.1.1.0;
  hold_near = (float_near_iff s.peak_hold o.peak_hold 500).0 t.1.1.1.1.0;
  swr_near = (float_near_iff s.swr o.swr 5).0 t.1.1.1.1.1.0;
  range_eq = (eq_iff s.range o.range).0 t.1.1.1.1.1.1.0;
  peak_mode_eq = (eq_iff s.peak_mode o.peak_mode).0 t.1.1.1.1.1.1.1.0;
  power_mode_eq = (eq_iff s.power_mode o.power_mode).0 t.1.1.1.1.1.1.1.1.0;
  alarm_eq = (bool_eq_iff s.alarm_enabled o.alarm_enabled).0 t.1.1.1.1.1.1.1.1.1.0;
  alarm_power_near = (float_near_iff s.alarm_power o.alarm_power 500).0 t.1.1.1.1.1.1.1.1.1.1.0;
  alarm_swr_near = (float_near_iff s.alarm_swr o.alarm_swr 5).0 t.1.1.1.1.1.1.1.1.1.1.1.0;
  tripped_eq = (bool_eq_iff s.alarm_tripped o.alarm_tripped).0 t.1.1.1.1.1.1.1.1.1.1.1.1.0;
  callsign_eq = (eq_iff s.callsign o.callsign).0 t.1.1.1.1.1.1.1.1.1.1.1.1.1.0;
  coupler_eq = (eq_iff s.coupler o.coupler).0 t.1.1.1.1.1.1.1.1.1.1.1.1.1.1.0;
  top_mode_eq = (eq_iff s.top_mode o.top_mode).0 t.1.1.1.1.1.1.1.1.1.1.1.1.1.1.1.0;
  firmware_eq = (eq_iff s.firmware_rev o.firmware_rev).0 t.1.1.1.1.1.1.1.1.1.1.1.1.1.1.1.1.0;
  status_eq =
      (bytes_eq_iff s.status_message o.status_message).0 t.1.1.1.1.1.1.1.1.1.1.1.1.1.1.1.1.1.0;
}

close_enough-IsClose : (s o : Snapshot) → close_enough s o ≡ true → IsClose s o
close_enough-IsClose s o h = tests-IsClose s o (close_enough-tests s o h)

IsClose-close_enough : (s o : Snapshot) → IsClose s o → close_enough s o ≡ true
unfolding close_enough
IsClose-close_enough s o h = rw (
  (int_eq_iff s.channel o.channel).1 h.channel_eq,
  (bool_eq_iff s.auto_channel o.auto_channel).1 h.auto_eq,
  (float_near_iff s.power_avg o.power_avg 500).1 h.avg_near,
  (float_near_iff s.power_peak o.power_peak 500).1 h.peak_near,
  (float_near_iff s.peak_hold o.peak_hold 500).1 h.hold_near,
  (float_near_iff s.swr o.swr 5).1 h.swr_near,
  (eq_iff s.range o.range).1 h.range_eq,
  (eq_iff s.peak_mode o.peak_mode).1 h.peak_mode_eq,
  (eq_iff s.power_mode o.power_mode).1 h.power_mode_eq,
  (bool_eq_iff s.alarm_enabled o.alarm_enabled).1 h.alarm_eq,
  (float_near_iff s.alarm_power o.alarm_power 500).1 h.alarm_power_near,
  (float_near_iff s.alarm_swr o.alarm_swr 5).1 h.alarm_swr_near,
  (bool_eq_iff s.alarm_tripped o.alarm_tripped).1 h.tripped_eq,
  (eq_iff s.callsign o.callsign).1 h.callsign_eq,
  (eq_iff s.coupler o.coupler).1 h.coupler_eq,
  (eq_iff s.top_mode o.top_mode).1 h.top_mode_eq,
  (eq_iff s.firmware_rev o.firmware_rev).1 h.firmware_eq,
  (bytes_eq_iff s.status_message o.status_message).1 h.status_eq,
)

-- `CloseEnough` holds exactly when every field of the broadcast view is within its deadband.
pub close_enough_iff : (s o : Snapshot) → (close_enough s o ≡ true) ↔ IsClose s o
close_enough_iff s o = (close_enough-IsClose s o, IsClose-close_enough s o)

pub IsClose-refl : (s : Snapshot) → IsClose s s
IsClose-refl s = ground arith

pub IsClose-symm : (s o : Snapshot) → IsClose s o → IsClose o s
IsClose-symm s o h = ground arith
