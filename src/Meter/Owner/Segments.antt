-- ===== src/Meter/Owner/Segments.antt =====
-- The five sample segments of a cycle and their place in a buffer (owner.go, runOnce).
use lp_700_server.Prelude.{
  ℕ, ◌+◌, ◌*◌, ◌≡◌, refl, sym, subst, false, [], ◌∷◌, ◌++◌, append_assoc, append-nil, length, drop,
  take-append_left, drop-append, lengths, length-drop, arith,
}
use lp_700_server.Meter.Snapshot.{Bytes}
use lp_700_server.Meter.Frame.{report_size, is_command_echo, is_likely_telemetry}
use lp_700_server.Meter.Owner.{Owner, on_sample, on_frame, copy_at}

-- A frame that is neither an echo nor telemetry.
pub record IsSample (f : Bytes) : Type 0 where
  pub sized : length f ≡ report_size
  pub not_echo : is_command_echo f ≡ false
  pub not_telemetry : is_likely_telemetry f ≡ false

pub on_frame-sample :
    (now : ℕ) (o : Owner) (f : Bytes) → IsSample f → on_frame now o f ≡ on_sample now o f
unfolding on_frame
on_frame-sample now o f h = rw (h.not_echo, h.not_telemetry)

-- Writing a segment behind the ones that are in place.
copy_at-append :
    (pre rest f : Bytes) → copy_at (length pre) (pre ++ rest) f ≡ (pre ++ f) ++ drop (length f) rest
copy_at-append pre rest f =
    rw (take-append_left pre rest, drop-append (length f) pre rest)
      (sym (append_assoc pre f (drop (length f) rest)))

-- One segment more in a 320-byte buffer that holds `k` of them.
segment_fits :
    (k : ℕ) (pre rest f : Bytes)
    → length pre ≡ k * 64
    → length f ≡ 64
    → copy_at (k * 64) (pre ++ rest) f ≡ (pre ++ f) ++ drop 64 rest
segment_fits k pre rest f hp hf =
    subst (λ n. copy_at n (pre ++ rest) f ≡ (pre ++ f) ++ drop 64 rest) hp
      (subst (λ n. copy_at (length pre) (pre ++ rest) f ≡ (pre ++ f) ++ drop n rest) hf
        (copy_at-append pre rest f))

-- The buffer after five segments.
abbrev pub copies : Bytes → Bytes → Bytes → Bytes → Bytes → Bytes → Bytes
copies b f1 f2 f3 f4 f5 =
    copy_at (4 * 64)
      (copy_at (3 * 64) (copy_at (2 * 64) (copy_at (1 * 64) (copy_at (0 * 64) b f1) f2) f3) f4) f5

empty : (xs : Bytes) → length xs ≡ 0 → xs ≡ []
empty [] h = refl
empty (x ∷ xs) h = absurd (omega arith)

length_join :
    (a b : Bytes) (k : ℕ) → length a ≡ k * 64 → length b ≡ 64 → length (a ++ b) ≡ (k + 1) * 64
length_join a b k h hb = grind lengths

used_up :
    (b : Bytes) → length b ≡ 320 → length (drop 64 (drop 64 (drop 64 (drop 64 (drop 64 b))))) ≡ 0
used_up b h = omega (
  arith,
  length-drop 64 b,
  length-drop 64 (drop 64 b),
  length-drop 64 (drop 64 (drop 64 b)),
  length-drop 64 (drop 64 (drop 64 (drop 64 b))),
  length-drop 64 (drop 64 (drop 64 (drop 64 (drop 64 b)))),
)

pub copies-joined :
    (b f1 f2 f3 f4 f5 : Bytes)
    → length b ≡ 320
    → length f1 ≡ 64
    → length f2 ≡ 64
    → length f3 ≡ 64
    → length f4 ≡ 64
    → length f5 ≡ 64
    → copies b f1 f2 f3 f4 f5 ≡ (((f1 ++ f2) ++ f3) ++ f4) ++ f5
copies-joined b f1 f2 f3 f4 f5 hb h1 h2 h3 h4 h5 =
    let w1 : length f1 ≡ 1 * 64 = h1 in
    let w2 = length_join f1 f2 1 w1 h2 in
    let w3 = length_join (f1 ++ f2) f3 2 w2 h3 in
    let w4 = length_join ((f1 ++ f2) ++ f3) f4 3 w3 h4 in
    rw (segment_fits 0 [] b f1 refl h1) (
      rw (segment_fits 1 f1 (drop 64 b) f2 w1 h2) (
        rw (segment_fits 2 (f1 ++ f2) (drop 64 (drop 64 b)) f3 w2 h3) (
          rw (segment_fits 3 ((f1 ++ f2) ++ f3) (drop 64 (drop 64 (drop 64 b))) f4 w3 h4) (
            rw
              (segment_fits 4 (((f1 ++ f2) ++ f3) ++ f4) (drop 64 (drop 64 (drop 64 (drop 64 b))))
                f5 w4 h5)
              (rw (empty _ (used_up b hb)) (append-nil _))))))
