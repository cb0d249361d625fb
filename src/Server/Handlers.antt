-- ===== src/Server/Handlers.antt =====
-- The handlers of /api/log-level for requests that overlap (main.go).
use lp_700_server.Prelude.{
  ℕ, ◌≡◌, refl, sym, subst, ◌⊎◌, inl, inr, true, List, [], ◌∷◌, Option, none, some, Bool-cases,
  codes, if◌then◌else◌, All, All-append, ◌==◌,
}
use lp_700_server.Prelude.Int.{ℤ, ltb_ℤ}
use lp_700_server.Meter.Snapshot.{Bytes, bytes_eq}
use lp_700_server.Meter.Snapshot.Deadband.{bytes_eq_iff}
use lp_700_server.Backend.{slog_level_name, parse_slog_level}
use lp_700_server.Backend.Levels.{IsLevel, parse_slog_level-IsLevel}
use lp_700_server.Web.{Request}
use lp_700_server.Server.Tracked.{Tracked, log_events-Tracked}
use lp_700_server.Server.LogLevel.{below_notice, first_level}
use lp_700_server.Server.{
  Log, Notice, MainFlags, level_notice, first_log, Phase, absent, arrived, chosen, seen, changed,
  answered, on_level, on_post, on_request, log_step, LogServer, LogEvent, comes, moves_on,
  on_log_event, log_events, come,
}

-- A request that asks, from this address, for this level.
abbrev pub Posts : Request Bytes → Bytes → ℤ → Type 0
Posts r remote l =
    (r.method ≡ codes "POST")
    × (r.remote ≡ remote)
    × ((name : Bytes) × (r.decoded ≡ some name) × (parse_slog_level name ≡ some l))

-- Such a request is among those that come in.
abbrev pub Asked : List LogEvent → Bytes → ℤ → Type 0
Asked [] remote l = ⊥
Asked (comes i r ∷ es) remote l = Posts r remote l ⊎ Asked es remote l
Asked (moves_on i ∷ es) remote l = Asked es remote l

-- `A` says what has been asked for, and `start` is the level at the start.
module _ (A : Bytes → ℤ → Type 0) (start : ℤ) where
  abbrev pub Known : ℤ → Type 0
  Known l = (l ≡ start) ⊎ ((remote : Bytes) × A remote l)

  -- A notice of a level that was asked for from its address, in place of one that is known.
  abbrev pub IsTrue : Notice → Type 0
  IsTrue n =
      ((p : ℤ) × (n.from ≡ slog_level_name p) × Known p)
      × ((l : ℤ) × (n.to ≡ slog_level_name l) × A n.remote l)

  abbrev pub IsTrueLog : Log → Type 0
  IsTrueLog log = Known log.level × All IsTrue log.notices

  abbrev InPhase : Phase → Type 0
  InPhase absent = Unit {0}
  InPhase (arrived r) = (remote : Bytes) (l : ℤ) → Posts r remote l → A remote l
  InPhase (chosen remote l) = A remote l
  InPhase (seen remote l prev) = A remote l × Known prev
  InPhase (changed remote l prev) = A remote l × Known prev
  InPhase (answered x) = Unit {0}

  on_level-InPhase :
      (remote : Bytes) (r : Option ℤ)
      → ((l : ℤ) → r ≡ some l → A remote l)
      → InPhase (on_level remote r)
  unfolding on_level
  on_level-InPhase remote none k = tt
  on_level-InPhase remote (some l) k = k l refl

  on_post-InPhase :
      (r : Request Bytes) (decoded : Option Bytes)
      → r.decoded ≡ decoded
      → r.method ≡ codes "POST"
      → InPhase (arrived r)
      → InPhase (on_post r.remote decoded)
  unfolding on_post
  on_post-InPhase r none e m k = tt
  on_post-InPhase r (some name) e m k =
      on_level-InPhase r.remote (parse_slog_level name)
        (λ l p. k r.remote l (m, refl, (name, e, p)))

  on_request-InPhase :
      (log : Log) (r : Request Bytes) → InPhase (arrived r) → InPhase (on_request log r)
  unfolding on_request
  on_request-InPhase log r k = elim (Bool-cases (bytes_eq r.method (codes "GET"))) [
    | inl e ↦ rw e tt
    | inr e ↦ elim (Bool-cases (bytes_eq r.method (codes "POST"))) [
      | inr f ↦ rw e (rw f tt)
      | inl f ↦
          rw e
            (rw f (on_post-InPhase r r.decoded refl ((bytes_eq_iff r.method (codes "POST")).0 f) k))
    ]
  ]

  log_step-IsTrueLog :
      (log : Log) (p : Phase)
      → IsTrueLog log
      → InPhase p
      → IsTrueLog (log_step log p).0 × InPhase (log_step log p).1
  unfolding log_step
  log_step-IsTrueLog log absent h k = (h, tt)
  log_step-IsTrueLog log (arrived r) h k = (h, on_request-InPhase log r k)
  log_step-IsTrueLog log (chosen remote l) h k = (h, (k, h.0))
  log_step-IsTrueLog log (seen remote l prev) h k = ((inr (remote, k.0), h.1), k)
  log_step-IsTrueLog log (changed remote l prev) h (a, k) =
      ((h.0, All-append _ log.notices _ (((prev, refl, k), (l, refl, a)), tt) h.1), tt)
  log_step-IsTrueLog log (answered x) h k = (h, tt)

  abbrev IsTrueServer : LogServer → Type 0
  IsTrueServer s = IsTrueLog s.log × ((i : ℕ) → InPhase (s.phases i))

  put-InPhase :
      (ps : ℕ → Phase) (i : ℕ) (p : Phase)
      → InPhase p
      → ((j : ℕ) → InPhase (ps j))
      → (j : ℕ) → InPhase (if j == i then p else ps j)
  put-InPhase ps i p k h j = elim (Bool-cases (j == i)) [ inl e ↦ rw e k | inr e ↦ rw e (h j) ]

  come-InPhase :
      (p : Phase) (r : Request Bytes) → InPhase (arrived r) → InPhase p → InPhase (come p r)
  unfolding come
  come-InPhase absent r k h = k
  come-InPhase (arrived x) r k h = h
  come-InPhase (chosen remote l) r k h = h
  come-InPhase (seen remote l prev) r k h = h
  come-InPhase (changed remote l prev) r k h = h
  come-InPhase (answered x) r k h = h

  log_events-IsTrue :
      (s : LogServer) (es : List LogEvent)
      → ((remote : Bytes) (l : ℤ) → Asked es remote l → A remote l)
      → IsTrueServer s
      → IsTrueLog (log_events s es).log
  unfolding log_events on_log_event
  log_events-IsTrue s [] k h = h.0
  log_events-IsTrue s (comes i r ∷ es) k (h, ph) =
      log_events-IsTrue (on_log_event s (comes i r)) es (λ remote l a. k remote l (inr a))
        (
          h,
          put-InPhase s.phases i (come (s.phases i) r)
              (come-InPhase (s.phases i) r (λ remote l p. k remote l (inl p)) (ph i)) ph,
        )
  log_events-IsTrue s (moves_on i ∷ es) k (h, ph) =
      let (h', p') = log_step-IsTrueLog s.log (s.phases i) h (ph i) in
      log_events-IsTrue (on_log_event s (moves_on i)) es k
        (h', put-InPhase s.phases i (log_step s.log (s.phases i)).1 p' ph)

Asked-IsLevel : (es : List LogEvent) (remote : Bytes) (l : ℤ) → Asked es remote l → IsLevel l
Asked-IsLevel [] remote l a = absurd a
Asked-IsLevel (comes i r ∷ es) remote l (inl (m, f, (name, d, p))) =
    parse_slog_level-IsLevel name l p
Asked-IsLevel (comes i r ∷ es) remote l (inr a) = Asked-IsLevel es remote l a
Asked-IsLevel (moves_on i ∷ es) remote l a = Asked-IsLevel es remote l a

-- The server before any request.
abbrev pub first_server : MainFlags → LogServer
first_server flags = record { log = first_log flags; phases = λ i. absent }

-- Whatever requests come in, and however the steps of their handlers interleave: the level is the one of
-- the start or one that a POST request asked for, it is one of the four named levels and stays below
-- that of the notices, so that each notice is printed; and each notice names as the new level one that
-- a POST request from its address asked for, and as the old one the level of the start or one that a
-- POST request asked for. A level that has been set does not go unnoticed: unless it is the one of the
-- start, with no notice yet, a handler that has set it is about to log it, or a notice names it as the
-- new level.
pub log_events-IsTrueLog :
    (flags : MainFlags) (es : List LogEvent)
    → IsTrueLog (Asked es) (first_log flags).level (log_events (first_server flags) es).log
      × IsLevel (log_events (first_server flags) es).log.level
      × (ltb_ℤ (log_events (first_server flags) es).log.level level_notice ≡ true)
      × Tracked (first_log flags).level (log_events (first_server flags) es)
log_events-IsTrueLog flags es =
    let h =
      log_events-IsTrue (Asked es) (first_log flags).level (first_server flags) es (λ remote l a. a)
        ((inl refl, unfold first_log in tt), (λ i. tt)) in
    let l = named h.0 in
    (
      h,
      l,
      below_notice _ l,
      log_events-Tracked (first_log flags).level (first_server flags) es at_start,
    )
  where
    at_start : Tracked (first_log flags).level (first_server flags)
    at_start = inl (refl, unfold first_log in refl, (λ i l o. o))

    named :
        Known (Asked es) (first_log flags).level (log_events (first_server flags) es).log.level
        → IsLevel (log_events (first_server flags) es).log.level
    named (inl e) = subst IsLevel (sym e) (first_level flags)
    named (inr (remote, a)) = Asked-IsLevel es remote _ a
