-- ===== src/Meter/Probe/Recording/Exact.antt =====
-- What a capture leaves in its file (probe.go, runCapture).
use lp_700_server.Prelude.{
  ℕ, ◌+◌, ◌*◌, ◌≡◌, ◌≢◌, refl, sym, ap, ◌∙◌, ◌⊎◌, inl, inr, true, false, List, [], ◌∷◌, ◌++◌,
  Option, none, some, ◌==◌, ==_iff, if◌then◌else◌, length, length-append, arith, All, append_assoc,
  append-nil, Bool-cases,
}
use lp_700_server.Prelude.Result.{ok}
use lp_700_server.Meter.Snapshot.{Bytes, bytes_eq}
use lp_700_server.Meter.Frame.{report_size}
use lp_700_server.Meter.Device.{HidDeviceInfo}
use lp_700_server.Meter.Probe.Print.{capturing, wrote}
use lp_700_server.Meter.Probe.Devices.{ProbeOptions}
use lp_700_server.Meter.Probe.Recording.{
  Round, going, ended, Recorded, is_past, capture_round, loop_rounds, deadline_of, run_capture,
}

-- What the device gives in a round, if that is a whole report.
abbrev pub whole : Option Bytes → List Bytes
whole none = []
whole (some buf) = if length buf == report_size then buf ∷ [] else []

-- The whole reports of some rounds, one after the other.
abbrev pub reports : List Round → List Bytes
reports [] = []
reports (r ∷ rs) = whole r.read ++ reports rs

abbrev pub flat : List Bytes → Bytes
flat [] = []
flat (b ∷ bs) = b ++ flat bs

-- A round in which nothing fails and the capture is not over.
pub record IsLive (deadline : Option ℕ) (r : Round) : Type 0 where
  pub running : r.ctx_done ≡ false
  pub polled : r.poll_error ≡ false
  pub in_time : is_past deadline r.now ≡ false
  pub buffer : Bytes
  pub readable : r.read ≡ some buffer
  pub written : r.written ≡ true

-- A round in which the capture is over: interrupted, or past its deadline.
abbrev pub IsOver : Option ℕ → Round → Type 0
IsOver deadline r =
    (r.ctx_done ≡ true)
    ⊎ ((r.ctx_done ≡ false) × (r.poll_error ≡ false) × (is_past deadline r.now ≡ true))

abbrev with_reports : Recorded → List Bytes → Recorded
with_reports c bs = record { file = c.file ++ flat bs; frames = c.frames + length bs }

live_round :
    (deadline : Option ℕ) (r : Round) (c : Recorded)
    → IsLive deadline r
    → capture_round deadline r c ≡ going (with_reports c (whole r.read))
unfolding capture_round
live_round deadline r c live =
    rw (live.running, live.polled, live.in_time, live.readable)
      (elim (Bool-cases (length live.buffer == report_size)) [
        | inl e ↦ rw (e, live.written) (ground (arith, append-nil live.buffer))
        | inr e ↦ rw e (ground (arith, append-nil c.file))
      ])

with_reports-append :
    (c : Recorded) (as' bs : List Bytes)
    → with_reports (with_reports c as') bs ≡ with_reports c (as' ++ bs)
with_reports-append c as' bs =
    ground
      (arith, append_assoc c.file (flat as') (flat bs), flat-append as' bs, length-append as' bs)
  where
    flat-append : (xs ys : List Bytes) → flat (xs ++ ys) ≡ flat xs ++ flat ys
    flat-append [] ys = refl
    flat-append (x ∷ xs) ys =
        ap (◌++◌ x) (flat-append xs ys) ∙ sym (append_assoc x (flat xs) (flat ys))

over_round :
    (deadline : Option ℕ) (r : Round) (c : Recorded)
    → IsOver deadline r
    → capture_round deadline r c ≡ ended c none
unfolding capture_round
over_round deadline r c (inl e) = rw e refl
over_round deadline r c (inr (e, f, g)) = rw (e, f, g) refl

-- Some live rounds and then one in which the capture is over.
loop_exact :
    (deadline : Option ℕ) (live : List Round) (last : Round) (rest : List Round) (c : Recorded)
    → All (IsLive deadline) live
    → IsOver deadline last
    → loop_rounds (capture_round deadline) (live ++ last ∷ rest) c
      ≡ ended (with_reports c (reports live)) none
unfolding loop_rounds
loop_exact deadline [] last rest c all over =
    rw (over_round deadline last c over, loop_rounds) (ground (arith, append-nil c.file))
loop_exact deadline (r ∷ rs) last rest c (live, all) over =
    rw (live_round deadline r c live, loop_rounds)
      (loop_exact deadline rs last rest (with_reports c (whole r.read)) all over
        ∙ ap (λ k. ended k none) (with_reports-append c (whole r.read) (reports rs)))

length-flat-reports : (rs : List Round) → length (flat (reports rs)) ≡ 64 * length (reports rs)
length-flat-reports [] = omega arith
length-flat-reports (r ∷ rs) = elim (whole-cases r.read) [
  | inl e ↦ rw e (length-flat-reports rs)
  | inr (b, e, n) ↦ sized r rs b e n (length-flat-reports rs)
]
  where
    whole-cases :
        (o : Option Bytes) → (whole o ≡ []) ⊎ ((b : Bytes) × (whole o ≡ b ∷ []) × (length b ≡ 64))
    whole-cases none = inl refl
    whole-cases (some buf) = elim (Bool-cases (length buf == report_size)) [
      | inl e ↦ inr (buf, rw e refl, (==_iff (length buf) 64).0 e)
      | inr e ↦ inl (rw e refl)
    ]

    sized :
        (r : Round) (rs : List Round) (b : Bytes)
        → whole r.read ≡ b ∷ []
        → length b ≡ 64
        → length (flat (reports rs)) ≡ 64 * length (reports rs)
        → length (flat (reports (r ∷ rs))) ≡ 64 * length (reports (r ∷ rs))
    sized r rs b e n ih = rw e (omega (arith, length-append b (flat (reports rs))))

-- A capture whose device and file work records, behind the header, exactly the reports of 64 bytes that
-- the device gave until the capture was interrupted or its deadline passed, 64 bytes each and in their
-- order, drops reads of any other length, and prints how many there are.
pub run_capture-exact :
    (header : HidDeviceInfo → Bytes) (start : ℕ) (opts : ProbeOptions) (info : HidDeviceInfo)
    (live : List Round) (last : Round) (rest : List Round)
    → opts.out_path ≢ []
    → All (IsLive (deadline_of start opts.duration)) live
    → IsOver (deadline_of start opts.duration) last
    → (run_capture header
          (record { created = true; header_written = true })
          start
          opts
          (ok info)
          (live ++ last ∷ rest)
        ≡ (
          header info ++ flat (reports live),
          (capturing opts.out_path ∷ wrote (length (reports live)) opts.out_path ∷ [], some none),
        ))
      × (length (flat (reports live)) ≡ 64 * length (reports live))
unfolding run_capture
run_capture-exact header start opts info live last rest path all over = (
  rw (nonempty opts.out_path path) (
      rw
        (loop_exact (deadline_of start opts.duration) live last rest
          (record { file = header info; frames = 0 }) all over)
        (ground arith)),
  length-flat-reports live,
)
  where
    nonempty : (p : Bytes) → p ≢ [] → bytes_eq p [] ≡ false
    nonempty [] h = absurd (h refl)
    nonempty (b ∷ bs) h = refl
