-- ===== src/Server/Tracked.antt =====
-- The log level and the notices of it, while the handlers of /api/log-level overlap (main.go).
use mathlib.Core.Path.{fun_ext}
use lp_700_server.Prelude.{
  ℕ, ◌≡◌, refl, sym, ap, ◌∙◌, subst, ◌⊎◌, inl, inr, true, false, Bool, List, [], ◌∷◌, ◌++◌,
  Bool-cases, ==_iff, codes, Option, none, some, ◌==◌, if◌then◌else◌,
}
use lp_700_server.Prelude.Int.{ℤ}
use lp_700_server.Meter.Snapshot.{Bytes, bytes_eq}
use lp_700_server.Backend.{slog_level_name, parse_slog_level}
use lp_700_server.Web.{Request, Response}
use lp_700_server.Server.{
  Log, Notice, Phase, absent, arrived, chosen, seen, changed, answered, on_level, on_post,
  on_request, log_step, come, LogServer, LogEvent, comes, moves_on, on_log_event, log_events,
}

-- One of the notices names this level as the new one.
abbrev pub Names : Bytes → List Notice → Type 0
Names b [] = ⊥
Names b (n ∷ ns) = (n.to ≡ b) ⊎ Names b ns

Names-append : (b : Bytes) (ns ms : List Notice) → Names b ns → Names b (ns ++ ms)
Names-append b [] ms h = absurd h
Names-append b (n ∷ ns) ms (inl e) = inl e
Names-append b (n ∷ ns) ms (inr h) = inr (Names-append b ns ms h)

Names-last : (b : Bytes) (ns : List Notice) (n : Notice) → n.to ≡ b → Names b (ns ++ n ∷ [])
Names-last b [] n e = inl e
Names-last b (m ∷ ns) n e = inr (Names-last b ns n e)

-- Whether a handler has set the level and not yet logged it.
abbrev pub Owes : Phase → ℤ → Type 0
Owes (changed remote l prev) level = l ≡ level
Owes absent level = ⊥
Owes (arrived r) level = ⊥
Owes (chosen remote l) level = ⊥
Owes (seen remote l prev) level = ⊥
Owes (answered x) level = ⊥

-- The level is the one of the start, and no notice has been logged; or a handler has set it and is about
-- to log it; or a notice names it as the new level.
abbrev pub Tracked : ℤ → LogServer → Type 0
Tracked start s =
    ((s.log.level ≡ start) × (s.log.notices ≡ []) × ((i : ℕ) (l : ℤ) → ¬ Owes (s.phases i) l))
    ⊎ ((i : ℕ) × Owes (s.phases i) s.log.level)
    ⊎ Names (slog_level_name s.log.level) s.log.notices

module _ (start : ℤ) (s : LogServer) (i : ℕ) where
  -- Handler `i` goes over to phase `q`, the others stay.
  abbrev Put : Log → Phase → LogServer
  Put log q = record { log = log; phases = λ j. if j == i then q else s.phases j }

  at_i : (q : Phase) → (if i == i then q else s.phases i) ≡ q
  at_i q = rw ((==_iff i i).1 refl) refl

  -- A step of a handler that does not owe a notice, before or after.
  idle-Tracked :
      (q : Phase)
      → ((l : ℤ) → ¬ Owes (s.phases i) l)
      → ((l : ℤ) → ¬ Owes q l)
      → Tracked start s
      → Tracked start (Put s.log q)
  idle-Tracked q old new (inl (e, n, k)) = inl (e, n, none_owes)
    where
      none_owes : (j : ℕ) (l : ℤ) → ¬ Owes (if j == i then q else s.phases j) l
      none_owes j l = elim (Bool-cases (j == i)) [ inl h ↦ rw h (new l) | inr h ↦ rw h (k j l) ]
  idle-Tracked q old new (inr (inl (j, o))) = inr (inl (j, still))
    where
      still : Owes (if j == i then q else s.phases j) s.log.level
      still = elim (Bool-cases (j == i)) [
        | inr h ↦ rw h o
        | inl h ↦
            absurd
              (old s.log.level (subst (λ x. Owes (s.phases x) s.log.level) ((==_iff j i).0 h) o))
      ]
  idle-Tracked q old new (inr (inr n)) = inr (inr n)

  -- The step that sets the level.
  set-Tracked :
      (remote : Bytes) (l prev : ℤ)
      → Tracked start (Put (record s.log { level = l }) (changed remote l prev))
  set-Tracked remote l prev =
      inr (inl (i, subst (λ p. Owes p l) (sym (at_i (changed remote l prev))) refl))

  -- The step that logs the notice.
  logged-Tracked :
      (remote : Bytes) (l : ℤ) (n : Notice) (x : Response Bytes)
      → n.to ≡ slog_level_name l
      → ((k : ℤ) → Owes (s.phases i) k → l ≡ k)
      → Owes (s.phases i) l
      → Tracked start s
      → Tracked start (Put (record s.log { notices = s.log.notices ++ n ∷ [] }) (answered x))
  logged-Tracked remote l n x e same own (inl (_, _, k)) = absurd (k i l own)
  logged-Tracked remote l n x e same own (inr (inl (j, o))) = elim (Bool-cases (j == i)) [
    | inr h ↦ inr (inl (j, rw h o))
    | inl h ↦ inr (
        inr (
          Names-last (slog_level_name s.log.level) s.log.notices n (
            e
            ∙ ap slog_level_name (
                same s.log.level
                  (subst (λ y. Owes (s.phases y) s.log.level) ((==_iff j i).0 h) o)))))
  ]
  logged-Tracked remote l n x e same own (inr (inr h)) =
      inr (inr (Names-append (slog_level_name s.log.level) s.log.notices (n ∷ []) h))

  same-Tracked : (q : Phase) → s.phases i ≡ q → Tracked start s → Tracked start (Put s.log q)
  same-Tracked q e h =
      subst (λ ps. Tracked start (record { log = s.log; phases = ps })) (sym (fun_ext same)) h
    where
      same : (j : ℕ) → (if j == i then q else s.phases j) ≡ s.phases j
      same j = elim (Bool-cases (j == i)) [
        | inr h ↦ rw h refl
        | inl h ↦ rw (h, (==_iff j i).0 h) (sym e)
      ]

  old-Owes : (p : Phase) → s.phases i ≡ p → ((l : ℤ) → ¬ Owes p l) → (l : ℤ) → ¬ Owes (s.phases i) l
  old-Owes p e k l = subst (λ x. ¬ Owes x l) (sym e) (k l)

  on_level-Owes : (remote : Bytes) (r : Option ℤ) (l : ℤ) → ¬ Owes (on_level remote r) l
  unfolding on_level
  on_level-Owes remote none l o = o
  on_level-Owes remote (some m) l o = o

  on_post-Owes :
      (remote : Bytes) (decoded : Option Bytes) (l : ℤ) → ¬ Owes (on_post remote decoded) l
  unfolding on_post
  on_post-Owes remote none l o = o
  on_post-Owes remote (some name) l o = on_level-Owes remote (parse_slog_level name) l o

  if-Owes :
      (b : Bool) (p q : Phase) (l : ℤ) → ¬ Owes p l → ¬ Owes q l → ¬ Owes (if b then p else q) l
  if-Owes true p q l h k = h
  if-Owes false p q l h k = k

  on_request-Owes : (r : Request Bytes) (l : ℤ) → ¬ Owes (on_request s.log r) l
  unfolding on_request
  on_request-Owes r l =
      if-Owes (bytes_eq r.method (codes "GET")) _ _ l (λ o. o)
        (if-Owes (bytes_eq r.method (codes "POST")) _ _ l (on_post-Owes r.remote r.decoded l)
          (λ o. o))

  log_step-Tracked :
      (p : Phase)
      → s.phases i ≡ p
      → Tracked start s
      → Tracked start (Put (log_step s.log p).0 (log_step s.log p).1)
  unfolding log_step
  log_step-Tracked absent e h = same-Tracked absent e h
  log_step-Tracked (arrived r) e h =
      idle-Tracked (on_request s.log r) (old-Owes (arrived r) e (λ l o. o)) (on_request-Owes r) h
  log_step-Tracked (chosen remote l) e h =
      idle-Tracked (seen remote l s.log.level) (old-Owes (chosen remote l) e (λ k o. o)) (λ k o. o)
        h
  log_step-Tracked (seen remote l prev) e h = set-Tracked remote l prev
  log_step-Tracked (changed remote l prev) e h =
      logged-Tracked remote l _ _ refl (λ k o. subst (λ x. Owes x k) e o)
        (subst (λ x. Owes x l) (sym e) refl) h
  log_step-Tracked (answered x) e h = same-Tracked (answered x) e h

  come-Tracked :
      (p : Phase) (r : Request Bytes)
      → s.phases i ≡ p
      → Tracked start s
      → Tracked start (Put s.log (come p r))
  unfolding come
  come-Tracked absent r e h = idle-Tracked (arrived r) (old-Owes absent e (λ l o. o)) (λ l o. o) h
  come-Tracked (arrived x) r e h = same-Tracked (arrived x) e h
  come-Tracked (chosen remote l) r e h = same-Tracked (chosen remote l) e h
  come-Tracked (seen remote l prev) r e h = same-Tracked (seen remote l prev) e h
  come-Tracked (changed remote l prev) r e h = same-Tracked (changed remote l prev) e h
  come-Tracked (answered x) r e h = same-Tracked (answered x) e h

pub log_events-Tracked :
    (start : ℤ) (s : LogServer) (es : List LogEvent)
    → Tracked start s
    → Tracked start (log_events s es)
unfolding log_events on_log_event
log_events-Tracked start s [] h = h
log_events-Tracked start s (comes i r ∷ es) h =
    log_events-Tracked start (on_log_event s (comes i r)) es
      (come-Tracked start s i (s.phases i) r refl h)
log_events-Tracked start s (moves_on i ∷ es) h =
    log_events-Tracked start (on_log_event s (moves_on i)) es
      (log_step-Tracked start s i (s.phases i) refl h)
