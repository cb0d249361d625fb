-- ===== src/Meter/Owner/Spectrum.antt =====
-- How spectrum frames are put together (owner.go).
use lp_700_server.Prelude.{
  ℕ, ◌+◌, ◌*◌, ◌<◌, ◌≡◌, refl, ap, ◌∙◌, Bool, true, false, str_eq, eq_iff, ◌++◌, some, ◌==◌,
  if◌then◌else◌, length, arith,
}
use lp_700_server.Prelude.Chan.{Chan, offer}
use lp_700_server.Prelude.Int.{ℤ}
use lp_700_server.Meter.Snapshot.{Bytes, SpectrumFrame}
use lp_700_server.Meter.Owner.Segments.{IsSample, on_frame-sample, copies, copies-joined}
use lp_700_server.Meter.Owner.{
  Owner, on_frame, on_sample, on_spectrum, emit_spectrum, copy_at, unlabelled,
}

-- The owner after one more spectrum segment, before it is emitted.
abbrev filled : Owner → ℕ → Bytes → Owner
filled o k f = record o { seg_idx = k + 1; spectrum_buf = copy_at (k * 64) o.spectrum_buf f }

on_sample-spectrum :
    (now : ℕ) (o : Owner) (f : Bytes)
    → o.last_top_mode ≡ "spectrum"
    → o.seg_idx < 5
    → on_sample now o f ≡ (
        if o.seg_idx + 1 == 5
        then emit_spectrum now (filled o o.seg_idx f)
        else filled o o.seg_idx f)
unfolding on_sample on_spectrum
on_sample-spectrum now o f m h =
    rw (other m, (eq_iff o.last_top_mode "spectrum").1 m) (ground arith)
  where
    other : o.last_top_mode ≡ "spectrum" → str_eq o.last_top_mode "waveform" ≡ false
    other e = rw e refl

segment_kept :
    (now : ℕ) (o : Owner) (f : Bytes) (k : ℕ)
    → IsSample f
    → o.last_top_mode ≡ "spectrum"
    → o.seg_idx ≡ k
    → k < 4
    → on_frame now o f ≡ filled o k f
segment_kept now o f k s m e h =
    on_frame-sample now o f s
    ∙ on_sample-spectrum now o f m (omega (arith, e))
    ∙ rw (not_last (omega (arith, e))) (ap (λ n. filled o n f) e)
  where
    not_last : o.seg_idx < 4 → (o.seg_idx + 1 == 5) ≡ false
    not_last lt = ground arith

segment_sent :
    (now : ℕ) (o : Owner) (f : Bytes)
    → IsSample f
    → o.last_top_mode ≡ "spectrum"
    → o.seg_idx ≡ 4
    → on_frame now o f ≡ emit_spectrum now (filled o 4 f)
segment_sent now o f s m e =
    on_frame-sample now o f s
    ∙ on_sample-spectrum now o f m (omega (arith, e))
    ∙ rw (last e) (ap (λ n. emit_spectrum now (filled o n f)) e)
  where
    last : o.seg_idx ≡ 4 → (o.seg_idx + 1 == 5) ≡ true
    last p = ground arith

-- The frame that a full buffer is sent as.
abbrev pub spectrum_frame : ℕ → ℤ → Bool → Bytes → SpectrumFrame
spectrum_frame now ch auto bins = record {
  timestamp = now;
  top_mode = "spectrum";
  channel = ch;
  auto_channel = auto;
  bins = bins;
}

emit_spectrum-offers :
    (now : ℕ) (o : Owner) {c : Chan SpectrumFrame}
    → o.spectrum_out ≡ some c
    → unlabelled o.last_channel o.last_auto ≡ false
    → emit_spectrum now o ≡ record o {
      spectrum_out =
          some (offer c (spectrum_frame now o.last_channel o.last_auto o.spectrum_buf)).0;
    }
unfolding emit_spectrum
emit_spectrum-offers now o l h = rw (l, emit_spectrum) (rw h)

-- The owner after five segments, at the time `t5` of the last.
abbrev five : Owner → ℕ → ℕ → ℕ → ℕ → ℕ → Bytes → Bytes → Bytes → Bytes → Bytes → Owner
five o t1 t2 t3 t4 t5 f1 f2 f3 f4 f5 =
    on_frame t5 (on_frame t4 (on_frame t3 (on_frame t2 (on_frame t1 o f1) f2) f3) f4) f5

five-sent :
    (o : Owner) (t1 t2 t3 t4 t5 : ℕ) (f1 f2 f3 f4 f5 : Bytes)
    → o.last_top_mode ≡ "spectrum"
    → o.seg_idx ≡ 0
    → IsSample f1
    → IsSample f2
    → IsSample f3
    → IsSample f4
    → IsSample f5
    → five o t1 t2 t3 t4 t5 f1 f2 f3 f4 f5
      ≡ emit_spectrum t5
          (record o { seg_idx = 5; spectrum_buf = copies o.spectrum_buf f1 f2 f3 f4 f5 })
five-sent o t1 t2 t3 t4 t5 f1 f2 f3 f4 f5 m z s1 s2 s3 s4 s5 =
    let o1 = filled o 0 f1 in
    let o2 = filled o1 1 f2 in
    let o3 = filled o2 2 f3 in
    let o4 = filled o3 3 f4 in
    rw (segment_kept t1 o f1 0 s1 m z (omega arith)) (
      rw (segment_kept t2 o1 f2 1 s2 m refl (omega arith)) (
        rw (segment_kept t3 o2 f3 2 s3 m refl (omega arith))
          (rw (segment_kept t4 o3 f4 3 s4 m refl (omega arith)) (segment_sent t5 o4 f5 s5 m refl))))

-- Five sample frames that arrive one after the other at the start of a cycle on the spectrum page, on
-- a manual channel, are offered to the hub as one spectrum frame: their bytes joined in the order of
-- arrival, under the channel of the last telemetry. The buffer and the segment counter apart, nothing
-- else of the owner changes.
pub assembles_spectrum :
    (o : Owner) (c : Chan SpectrumFrame) (t1 t2 t3 t4 t5 : ℕ) (f1 f2 f3 f4 f5 : Bytes)
    → o.last_top_mode ≡ "spectrum"
    → o.seg_idx ≡ 0
    → length o.spectrum_buf ≡ 320
    → o.spectrum_out ≡ some c
    → unlabelled o.last_channel o.last_auto ≡ false
    → IsSample f1
    → IsSample f2
    → IsSample f3
    → IsSample f4
    → IsSample f5
    → let bins = (((f1 ++ f2) ++ f3) ++ f4) ++ f5 in
      five o t1 t2 t3 t4 t5 f1 f2 f3 f4 f5 ≡ record o {
        seg_idx = 5;
        spectrum_buf = bins;
        spectrum_out = some (offer c (spectrum_frame t5 o.last_channel o.last_auto bins)).0;
      }
assembles_spectrum o c t1 t2 t3 t4 t5 f1 f2 f3 f4 f5 m z w l h s1 s2 s3 s4 s5 =
    five-sent o t1 t2 t3 t4 t5 f1 f2 f3 f4 f5 m z s1 s2 s3 s4 s5
    ∙ ap (λ b. emit_spectrum t5 (record o { seg_idx = 5; spectrum_buf = b }))
        (copies-joined o.spectrum_buf f1 f2 f3 f4 f5 w s1.sized s2.sized s3.sized s4.sized s5.sized)
    ∙ emit_spectrum-offers t5
        (record o { seg_idx = 5; spectrum_buf = (((f1 ++ f2) ++ f3) ++ f4) ++ f5 }) l h
