-- ===== src/Meter/Owner/Retry.antt =====
-- internal/lpmeter/owner.go: Run, which opens the meter again after each session, and its waits.
use lp_700_server.Prelude.{
  ℕ, zero, suc, ◌*◌, ◌≡◌, refl, ap, ◌∙◌, min, ◌^◌, Bool, true, false, List, [], ◌∷◌, ◌++◌, Option,
  none, some, ltb, if◌then◌else◌, arith,
}

-- What the loop meets after a session: the context has ended, it ends during the wait, or the wait runs
-- out.
pub data Next : Type 0 where
  ended stopped waited : Next

-- What `runOnce` returns, `none` for no error, and what comes next. The errors are of any type.
pub data Session (E : Type 0) : Type 0 where
  session : Option E → Next → Session E

-- The waits begun, in seconds, the warnings logged, each with the wait that it announces, and whether
-- Run has returned.
pub record Retries (E : Type 0) : Type 0 where
  pub waits : List ℕ
  pub warnings : List (E × ℕ)
  pub returned : Bool

abbrev warning : {E : Type 0} → Option E → ℕ → List (E × ℕ)
warning none b = []
warning (some e) b = (e, b) ∷ []

-- The next wait after one of `b`.
unfoldable pub next_backoff : ℕ → ℕ
next_backoff b = let d = b * 2 in if ltb 30 d then 30 else d

-- The loop of Run at a wait of `b` seconds, over the sessions that it comes to.
unfoldable pub run_from : {E : Type 0} → ℕ → List (Session E) → Retries E
unfolding next_backoff
run_from b [] = record { waits = []; warnings = []; returned = false }
run_from b (session r ended ∷ ss) = record { waits = []; warnings = []; returned = true }
run_from b (session r stopped ∷ ss) = record {
  waits = b ∷ [];
  warnings = warning r b;
  returned = true;
}
run_from b (session r waited ∷ ss) =
    let rest = run_from (next_backoff b) ss in
    record {
      waits = b ∷ rest.waits;
      warnings = warning r b ++ rest.warnings;
      returned = rest.returned;
    }

unfoldable pub run_owner : {E : Type 0} → List (Session E) → Retries E
unfolding run_from
run_owner ss = run_from 1 ss

-- The number of waits: one for each session before the context has ended.
abbrev pub rounds : {E : Type 0} → List (Session E) → ℕ
rounds [] = 0
rounds (session r ended ∷ ss) = 0
rounds (session r stopped ∷ ss) = 1
rounds (session r waited ∷ ss) = suc (rounds ss)

-- The wait of round `k`: 2 to the power `k`, and thirty at most.
abbrev pub wait_of : ℕ → ℕ
wait_of k = min (2 ^ k) 30

-- The waits of `n` rounds from round `k` on.
abbrev pub waits_of : ℕ → ℕ → List ℕ
waits_of k zero = []
waits_of k (suc n) = wait_of k ∷ waits_of (suc k) n

-- The errors of the sessions in `n` rounds from round `k` on, each with the wait of its round.
abbrev pub errors_of : {E : Type 0} → ℕ → ℕ → List (Session E) → List (E × ℕ)
errors_of k zero ss = []
errors_of k (suc n) [] = []
errors_of k (suc n) (session r _ ∷ ss) = warning r (wait_of k) ++ errors_of (suc k) n ss

next_backoff-wait_of : (k : ℕ) → next_backoff (wait_of k) ≡ wait_of (suc k)
unfolding next_backoff
next_backoff-wait_of k = doubled (2 ^ k) ∙ ap (λ n. min n 30) (step_pow k)
  where
    doubled : (x : ℕ) → (if ltb 30 (min x 30 * 2) then 30 else min x 30 * 2) ≡ min (x * 2) 30
    doubled x = ground arith

    step_pow : (n : ℕ) → 2 ^ n * 2 ≡ 2 ^ suc n
    step_pow n = omega arith

-- The waits and the warnings are those of the rounds from `k` on.
abbrev pub Retried : {E : Type 0} → ℕ → List (Session E) → Retries E → Type 0
Retried k ss r = (r.waits ≡ waits_of k (rounds ss)) × (r.warnings ≡ errors_of k (rounds ss) ss)

warned :
    {E : Type 0} {b c : ℕ} {xs ys : List (E × ℕ)} (r : Option E)
    → b ≡ c
    → xs ≡ ys
    → warning r b ++ xs ≡ warning r c ++ ys
warned none e h = h
warned (some x) e h = cc (e, h)

run_from-Retried :
    {E : Type 0} (k b : ℕ) (ss : List (Session E)) → b ≡ wait_of k → Retried k ss (run_from b ss)
unfolding run_from
run_from-Retried k b [] e = (refl, refl)
run_from-Retried k b (session r ended ∷ ss) e = (refl, refl)
run_from-Retried k b (session none stopped ∷ ss) e = (ap (λ x. x ∷ []) e, refl)
run_from-Retried k b (session (some x) stopped ∷ ss) e =
    (ap (λ w. w ∷ []) e, ap (λ w. (x, w) ∷ []) e)
run_from-Retried k b (session r waited ∷ ss) e =
    let (w, g) =
      run_from-Retried (suc k) (next_backoff b) ss (ap next_backoff e ∙ next_backoff-wait_of k) in
    (cc (e, w), warned r e g)

-- Whatever the sessions come to, errors or none: the waits are 1, 2, 4, 8
-- and 16 seconds and thirty from the sixth on, one for each session until the context ends, and none
-- of them starts again at one second; and the warnings are the errors of these sessions in their order,
-- each with the wait that follows it.
pub run_owner-Retried : {E : Type 0} (ss : List (Session E)) → Retried 0 ss (run_owner ss)
unfolding run_owner
run_owner-Retried ss = run_from-Retried 0 1 ss (omega arith)
