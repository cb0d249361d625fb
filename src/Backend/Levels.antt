-- ===== src/Backend/Levels.antt =====
-- The names of the log levels (main.go, slogLevelName and parseSlogLevel).
use lp_700_server.Prelude.{◌≡◌, refl, ◌⊎◌, inl, inr, true, false, some, arith, Bool-cases, codes}
use lp_700_server.Prelude.Int.{ℤ, pos, negsuc, leb_ℤ}
use lp_700_server.Meter.Snapshot.{Bytes}
use lp_700_server.Update.Version.{trim_space}
use lp_700_server.Update.Compare.{lower}
use lp_700_server.Backend.{
  level_of, slog_level_name, parse_slog_level, level_debug, level_info, level_warn, level_error,
}

abbrev pub IsLevel : ℤ → Type 0
IsLevel l = (l ≡ level_debug) ⊎ (l ≡ level_info) ⊎ (l ≡ level_warn) ⊎ (l ≡ level_error)

reads :
    (parse_slog_level (codes "debug") ≡ some level_debug)
    × (parse_slog_level (codes "info") ≡ some level_info)
    × (parse_slog_level (codes "warn") ≡ some level_warn)
    × (parse_slog_level (codes "error") ≡ some level_error)
unfolding parse_slog_level lower trim_space
reads = (refl, refl, refl, refl)

below_error : (l n : ℤ) → IsLevel n → leb_ℤ l n ≡ true → leb_ℤ l level_error ≡ true
below_error (pos a) n k le = ground arith
below_error (negsuc a) n k le = ground arith

above_info :
    (l n : ℤ)
    → leb_ℤ l level_debug ≡ false
    → IsLevel n
    → leb_ℤ l n ≡ true
    → leb_ℤ level_info n ≡ true
above_info (pos a) n h k le = ground arith
above_info (negsuc a) n h k le = ground arith

above_warn :
    (l n : ℤ)
    → leb_ℤ l level_info ≡ false
    → IsLevel n
    → leb_ℤ l n ≡ true
    → leb_ℤ level_warn n ≡ true
above_warn (pos a) n h k le = ground arith
above_warn (negsuc a) n h k le = ground arith

above_error :
    (l n : ℤ)
    → leb_ℤ l level_warn ≡ false
    → IsLevel n
    → leb_ℤ l n ≡ true
    → leb_ℤ level_error n ≡ true
above_error (pos a) n h k le = ground arith
above_error (negsuc a) n h k le = ground arith

-- The name of a level reads back as a named level that is not below it, and that is not above any
-- named level `n` that is not below it either; `n` is there for every level up to the error level.
pub parse_slog_level-slog_level_name :
    (l n : ℤ)
    → IsLevel n
    → leb_ℤ l n ≡ true
    → (m : ℤ) × (parse_slog_level (slog_level_name l) ≡ some m)
      × IsLevel m
      × (leb_ℤ l m ≡ true)
      × (leb_ℤ m n ≡ true)
unfolding slog_level_name
parse_slog_level-slog_level_name l n k le = elim (Bool-cases (leb_ℤ l level_debug)) [
  | inl e ↦ (level_debug, rw e (reads.0), inl refl, e, ground arith)
  | inr e ↦ elim (Bool-cases (leb_ℤ l level_info)) [
    | inl f ↦ (level_info, rw e (rw f (reads.1)), inr (inl refl), f, above_info l n e k le)
    | inr f ↦ elim (Bool-cases (leb_ℤ l level_warn)) [
      | inl g ↦
          (level_warn, rw e (rw f (rw g (reads.2))), inr (inr (inl refl)), g, above_warn l n f k le)
      | inr g ↦ (
        level_error,
        rw e (rw f (rw g (reads.3))),
        inr (inr (inr refl)),
        below_error l n k le,
        above_error l n g k le,
      )
    ]
  ]
]

-- Whatever name is given, a level that it stands for is one of the four.
pub parse_slog_level-IsLevel : (s : Bytes) (l : ℤ) → parse_slog_level s ≡ some l → IsLevel l
unfolding parse_slog_level level_of
parse_slog_level-IsLevel s l h = ground arith
