-- ===== src/Server/LogLevel.antt =====
-- The log level over requests to /api/log-level that are handled one after another (main.go).
use lp_700_server.Prelude.{
  ◌≡◌, refl, sym, ◌∙◌, inl, inr, true, false, List, [], ◌∷◌, ◌++◌, Option, none, some, Bool-cases,
  codes, if◌then◌else◌,
}
use lp_700_server.Prelude.Int.{ℤ, ltb_ℤ}
use lp_700_server.Meter.Snapshot.{Bytes, bytes_eq}
use lp_700_server.Backend.{slog_level_name, parse_slog_level, level_error, level_debug}
use lp_700_server.Backend.Levels.{IsLevel, parse_slog_level-IsLevel}
use lp_700_server.Server.{
  Log, Notice, MainFlags, level_notice, first_log, log_level, log_steps, log_step, chosen, answered,
  on_level, on_post, on_request,
}
use lp_700_server.Web.{Request, Response}

-- Each notice takes over from the one before: the first level is `a`, the last one `b`.
abbrev pub Chained : Bytes → List Notice → Bytes → Type 0
Chained a [] b = a ≡ b
Chained a (n ∷ ns) b = (a ≡ n.from) × Chained n.to ns b

Chained-snoc :
    (a : Bytes) (ns : List Notice) (b : Bytes) (n : Notice)
    → Chained a ns b
    → n.from ≡ b
    → Chained a (ns ++ n ∷ []) n.to
Chained-snoc a [] b n h e = (h ∙ sym e, refl)
Chained-snoc a (m ∷ ns) b n (h, hs) e = (h, Chained-snoc m.to ns b n hs e)

-- What the log says of the levels since the level named `first`.
abbrev pub IsConsistent : Bytes → Log → Type 0
IsConsistent first log = IsLevel log.level × Chained first log.notices (slog_level_name log.level)

chosen-IsConsistent :
    (first : Bytes) (log : Log) (remote : Bytes) (l : ℤ)
    → IsLevel l
    → IsConsistent first log
    → IsConsistent first (log_steps 3 log (chosen remote l)).0
unfolding log_steps log_step
chosen-IsConsistent first log remote l k h =
    (k, Chained-snoc first log.notices (slog_level_name log.level) _ h.1 refl)

answered-IsConsistent :
    (first : Bytes) (log : Log) (x : Response Bytes)
    → IsConsistent first log
    → IsConsistent first (log_steps 3 log (answered x)).0
unfolding log_steps log_step
answered-IsConsistent first log x h = h

on_level-IsConsistent :
    (first : Bytes) (log : Log) (remote : Bytes) (r : Option ℤ)
    → ((l : ℤ) → r ≡ some l → IsLevel l)
    → IsConsistent first log
    → IsConsistent first (log_steps 3 log (on_level remote r)).0
unfolding on_level
on_level-IsConsistent first log remote none k h = answered-IsConsistent first log _ h
on_level-IsConsistent first log remote (some l) k h =
    chosen-IsConsistent first log remote l (k l refl) h

on_post-IsConsistent :
    (first : Bytes) (log : Log) (remote : Bytes) (decoded : Option Bytes)
    → IsConsistent first log
    → IsConsistent first (log_steps 3 log (on_post remote decoded)).0
unfolding on_post
on_post-IsConsistent first log remote none h = answered-IsConsistent first log _ h
on_post-IsConsistent first log remote (some name) h =
    on_level-IsConsistent first log remote (parse_slog_level name)
      (λ l e. parse_slog_level-IsLevel name l e) h

log_level-IsConsistent :
    (first : Bytes) (log : Log) (r : Request Bytes)
    → IsConsistent first log
    → IsConsistent first (log_level log r).0
unfolding log_level on_request log_steps log_step
log_level-IsConsistent first log r h = elim (Bool-cases (bytes_eq r.method (codes "GET"))) [
  | inl e ↦ rw e h
  | inr e ↦ elim (Bool-cases (bytes_eq r.method (codes "POST"))) [
    | inl f ↦ rw e (rw f (on_post-IsConsistent first log r.remote r.decoded h))
    | inr f ↦ rw e (rw f h)
  ]
]

-- The log after some requests.
unfoldable pub log_levels : Log → List (Request Bytes) → Log
log_levels log [] = log
log_levels log (r ∷ rs) = log_levels (log_level log r).0 rs

log_levels-IsConsistent :
    (first : Bytes) (log : Log) (rs : List (Request Bytes))
    → IsConsistent first log
    → IsConsistent first (log_levels log rs)
unfolding log_levels
log_levels-IsConsistent first log [] h = h
log_levels-IsConsistent first log (r ∷ rs) h =
    log_levels-IsConsistent first (log_level log r).0 rs (log_level-IsConsistent first log r h)

pub below_notice : (l : ℤ) → IsLevel l → ltb_ℤ l level_notice ≡ true
below_notice l (inl e) = rw e refl
below_notice l (inr (inl e)) = rw e refl
below_notice l (inr (inr (inl e))) = rw e refl
below_notice l (inr (inr (inr e))) = rw e refl

pub first_level : (flags : MainFlags) → IsLevel (first_log flags).level
unfolding first_log
first_level flags = elim flags.verbose as (λ v. IsLevel (if v then level_debug else level_error)) [
  | true ↦ inl refl
  | false ↦ inr (inr (inr refl))
]

-- Where the requests are handled one after another, the notices tell the whole story: the first names
-- the level at the start, each one goes on from the level of the one before, and the last names the
-- level now, which is one of the four named levels.
pub first_log-IsConsistent :
    (flags : MainFlags) (rs : List (Request Bytes))
    → IsConsistent (slog_level_name (first_log flags).level) (log_levels (first_log flags) rs)
first_log-IsConsistent flags rs =
    log_levels-IsConsistent (slog_level_name (first_log flags).level) (first_log flags) rs
      (first_level flags, unfold first_log in refl)
