-- ===== src/Server/Progress.antt =====
-- A handler of /api/log-level that is given its steps (main.go).
use lp_700_server.Prelude.{
  ℕ, suc, ◌≤◌, ◌≡◌, refl, sym, ◌∙◌, ap, subst, ◌⊎◌, inl, inr, true, false, List, [], ◌∷◌, ◌++◌, ◌-◌,
  Bool-cases, ==_iff, ◌==◌, if◌then◌else◌, arith, codes,
}
use lp_700_server.Prelude.Int.{ℤ}
use lp_700_server.Meter.Snapshot.{Bytes, bytes_eq}
use lp_700_server.Backend.{slog_level_name}
use lp_700_server.Web.{Request, encode}
use lp_700_server.Server.Handlers.{Posts}
use lp_700_server.Server.{
  Log, Notice, Phase, absent, arrived, chosen, seen, changed, answered, on_level, on_post,
  on_request, log_step, come, LogServer, LogEvent, comes, moves_on, on_log_event, log_events,
}

-- One of the notices names this level as the new one, asked for from this address.
abbrev pub Noticed : Bytes → Bytes → List Notice → Type 0
Noticed remote b [] = ⊥
Noticed remote b (n ∷ ns) = ((n.remote ≡ remote) × (n.to ≡ b)) ⊎ Noticed remote b ns

Noticed-append :
    (remote b : Bytes) (ns ms : List Notice) → Noticed remote b ns → Noticed remote b (ns ++ ms)
Noticed-append remote b [] ms h = absurd h
Noticed-append remote b (n ∷ ns) ms (inl e) = inl e
Noticed-append remote b (n ∷ ns) ms (inr h) = inr (Noticed-append remote b ns ms h)

Noticed-last :
    (remote b : Bytes) (ns : List Notice) (n : Notice)
    → n.remote ≡ remote
    → n.to ≡ b
    → Noticed remote b (ns ++ n ∷ [])
Noticed-last remote b [] n e f = inl (e, f)
Noticed-last remote b (m ∷ ns) n e f = inr (Noticed-last remote b ns n e f)

-- The steps that handler `i` is given.
abbrev pub steps_of : ℕ → List LogEvent → ℕ
steps_of i [] = 0
steps_of i (comes j r ∷ es) = steps_of i es
steps_of i (moves_on j ∷ es) = let rest = steps_of i es in if j == i then suc rest else rest

-- The handler has answered with the level, and the notice of it is logged.
abbrev pub IsDone : ℕ → Bytes → ℤ → LogServer → Type 0
IsDone i remote l s =
    (s.phases i ≡ answered (encode (slog_level_name l)))
    × Noticed remote (slog_level_name l) s.log.notices

-- The steps that a handler in phase `p` has to go.
data Needs (remote : Bytes) (l : ℤ) (log : Log) (p : Phase) : ℕ → Type 0 where
  nothing :
      p ≡ answered (encode (slog_level_name l))
      → Noticed remote (slog_level_name l) log.notices
      → Needs remote l log p 0
  logging : (prev : ℤ) → p ≡ changed remote l prev → Needs remote l log p 1
  setting : (prev : ℤ) → p ≡ seen remote l prev → Needs remote l log p 2
  reading : p ≡ chosen remote l → Needs remote l log p 3
  starting : (r : Request Bytes) → p ≡ arrived r → Posts r remote l → Needs remote l log p 4

on_request-Posts :
    (log : Log) (r : Request Bytes) (remote : Bytes) (l : ℤ)
    → Posts r remote l
    → on_request log r ≡ chosen remote l
unfolding on_request on_post on_level
on_request-Posts log r remote l (m, f, (name, d, e)) =
    rw (not_get, is_post)
      (ap (on_post r.remote) d ∙ ap (on_level r.remote) e ∙ ap (λ x. chosen x l) f)
  where
    not_get : bytes_eq r.method (codes "GET") ≡ false
    not_get = subst (λ x. bytes_eq x (codes "GET") ≡ false) (sym m) refl

    is_post : bytes_eq r.method (codes "POST") ≡ true
    is_post = subst (λ x. bytes_eq x (codes "POST") ≡ true) (sym m) refl

-- Its own step brings it one further, and a finished handler stays finished.
step_own :
    (remote : Bytes) (l : ℤ) (log : Log) (p : Phase) (k : ℕ)
    → Needs remote l log p k
    → Needs remote l (log_step log p).0 (log_step log p).1 (k - 1)
unfolding log_step
step_own remote l log p _ (nothing e n) =
    subst (λ x. Needs remote l (log_step log x).0 (log_step log x).1 0) (sym e) (nothing refl n)
step_own remote l log p _ (logging prev e) =
    subst (λ x. Needs remote l (log_step log x).0 (log_step log x).1 0) (sym e)
      (nothing refl (Noticed-last remote (slog_level_name l) log.notices _ refl refl))
step_own remote l log p _ (setting prev e) =
    subst (λ x. Needs remote l (log_step log x).0 (log_step log x).1 1) (sym e) (logging prev refl)
step_own remote l log p _ (reading e) =
    subst (λ x. Needs remote l (log_step log x).0 (log_step log x).1 2) (sym e)
      (setting log.level refl)
step_own remote l log p _ (starting r e h) =
    subst (λ x. Needs remote l (log_step log x).0 (log_step log x).1 3) (sym e)
      (reading (on_request-Posts log r remote l h))

log_step-Noticed :
    (remote b : Bytes) (log : Log) (q : Phase)
    → Noticed remote b log.notices
    → Noticed remote b (log_step log q).0.notices
unfolding log_step
log_step-Noticed remote b log absent h = h
log_step-Noticed remote b log (arrived r) h = h
log_step-Noticed remote b log (chosen x l) h = h
log_step-Noticed remote b log (seen x l prev) h = h
log_step-Noticed remote b log (changed x l prev) h = Noticed-append remote b log.notices _ h
log_step-Noticed remote b log (answered x) h = h

-- The step of another handler.
step_other :
    (remote : Bytes) (l : ℤ) (log : Log) (p q : Phase) (k : ℕ)
    → Needs remote l log p k
    → Needs remote l (log_step log q).0 p k
step_other remote l log p q _ (nothing e n) =
    nothing e (log_step-Noticed remote (slog_level_name l) log q n)
step_other remote l log p q _ (logging prev e) = logging prev e
step_other remote l log p q _ (setting prev e) = setting prev e
step_other remote l log p q _ (reading e) = reading e
step_other remote l log p q _ (starting r e h) = starting r e h

-- A handler that runs is not replaced by a new one.
come-stays :
    (remote : Bytes) (l : ℤ) (log : Log) (p : Phase) (r : Request Bytes) (k : ℕ)
    → Needs remote l log p k
    → come p r ≡ p
unfolding come
come-stays remote l log p r _ (nothing e n) = subst (λ x. come x r ≡ x) (sym e) refl
come-stays remote l log p r _ (logging prev e) = subst (λ x. come x r ≡ x) (sym e) refl
come-stays remote l log p r _ (setting prev e) = subst (λ x. come x r ≡ x) (sym e) refl
come-stays remote l log p r _ (reading e) = subst (λ x. come x r ≡ x) (sym e) refl
come-stays remote l log p r _ (starting x e h) = subst (λ y. come y r ≡ y) (sym e) refl

finished :
    (i : ℕ) (remote : Bytes) (l : ℤ) (k : ℕ) (s : LogServer)
    → Needs remote l s.log (s.phases i) k
    → k ≤ 0
    → IsDone i remote l s
finished i remote l _ s (nothing e n) h = (e, n)
finished i remote l _ s (logging prev e) h = absurd (omega (arith, h))
finished i remote l _ s (setting prev e) h = absurd (omega (arith, h))
finished i remote l _ s (reading e) h = absurd (omega (arith, h))
finished i remote l _ s (starting r e p) h = absurd (omega (arith, h))

run_to_end :
    (i : ℕ) (remote : Bytes) (l : ℤ) (es : List LogEvent) (k : ℕ) (s : LogServer)
    → Needs remote l s.log (s.phases i) k
    → k ≤ steps_of i es
    → IsDone i remote l (log_events s es)
unfolding log_events on_log_event
run_to_end i remote l [] k s n h = finished i remote l k s n h
run_to_end i remote l (comes j r ∷ es) k s n h =
    run_to_end i remote l es k (on_log_event s (comes j r)) still h
  where
    same : i ≡ j → come (s.phases j) r ≡ s.phases i
    same e =
        subst (λ x. come (s.phases x) r ≡ s.phases i) e
          (come-stays remote l s.log (s.phases i) r k n)

    still : Needs remote l s.log (if i == j then come (s.phases j) r else s.phases i) k
    still = elim (Bool-cases (i == j)) [
      | inr e ↦ rw e n
      | inl e ↦ rw (e, same ((==_iff i j).0 e)) n
    ]
run_to_end i remote l (moves_on j ∷ es) k s n h = elim (Bool-cases (j == i)) [
  | inl e ↦
      run_to_end i remote l es (k - 1) (on_log_event s (moves_on j)) (own ((==_iff j i).0 e))
        (fewer (steps_of i es) e h)
  | inr e ↦
      run_to_end i remote l es k (on_log_event s (moves_on j)) (other e)
        (as_many (steps_of i es) e h)
]
  where
    Next : ℕ → ℕ → Type 0
    Next x m =
        Needs remote l (log_step s.log (s.phases x)).0
          (if i == x then (log_step s.log (s.phases x)).1 else s.phases i) m

    own : j ≡ i → Next j (k - 1)
    own e =
        subst (λ x. Next x (k - 1)) (sym e)
          (rw ((==_iff i i).1 refl) (step_own remote l s.log (s.phases i) k n))

    turned : (j == i) ≡ false → (i == j) ≡ false
    turned e = ground arith

    other : (j == i) ≡ false → Next j k
    other e = rw (turned e) (step_other remote l s.log (s.phases i) (s.phases j) k n)

    fewer : (m : ℕ) → (j == i) ≡ true → k ≤ (if j == i then suc m else m) → k - 1 ≤ m
    fewer m e g = let g' = rw e at g in omega (arith, g')

    as_many : (m : ℕ) → (j == i) ≡ false → k ≤ (if j == i then suc m else m) → k ≤ m
    as_many m e g = rw e at g

-- A POST request for a level is served: however the steps of the other handlers come between, and
-- whatever other requests come in, once its handler has been given four steps it has answered with
-- status 200 and the name of the level, and a notice with that level as the new one and the request's
-- address is in the log.
pub log_events-IsDone :
    (s : LogServer) (es : List LogEvent) (i : ℕ) (r : Request Bytes) (remote : Bytes) (l : ℤ)
    → s.phases i ≡ arrived r
    → Posts r remote l
    → 4 ≤ steps_of i es
    → IsDone i remote l (log_events s es)
log_events-IsDone s es i r remote l e h n = run_to_end i remote l es 4 s (starting r e h) n
