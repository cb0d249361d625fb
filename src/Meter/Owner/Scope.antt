-- ===== src/Meter/Owner/Scope.antt =====
-- How scope frames are put together (owner.go).
use lp_700_server.Prelude.{
  ℕ, ◌+◌, ◌*◌, ◌<◌, ◌≡◌, refl, ap, ◌∙◌, Bool, true, false, eq_iff, ◌++◌, some, ◌==◌, if◌then◌else◌,
  length, arith,
}
use lp_700_server.Prelude.Chan.{Chan, offer}
use lp_700_server.Prelude.Int.{ℤ}
use lp_700_server.Meter.Snapshot.{Bytes, ScopeFrame}
use lp_700_server.Meter.Owner.Segments.{IsSample, on_frame-sample, copies, copies-joined}
use lp_700_server.Meter.Owner.{
  Owner, on_frame, on_sample, on_scope, emit_scope, copy_at, unlabelled,
}

-- The owner after one more scope segment, before it is emitted.
abbrev filled : Owner → ℕ → Bytes → Owner
filled o k f = record o { seg_idx = k + 1; scope_buf = copy_at (k * 64) o.scope_buf f }

on_sample-scope :
    (now : ℕ) (o : Owner) (f : Bytes)
    → o.last_top_mode ≡ "waveform"
    → o.seg_idx < 5
    → on_sample now o f
      ≡ (if o.seg_idx + 1 == 5 then emit_scope now (filled o o.seg_idx f) else filled o o.seg_idx f)
unfolding on_sample on_scope
on_sample-scope now o f m h = rw ((eq_iff o.last_top_mode "waveform").1 m) (ground arith)

segment_kept :
    (now : ℕ) (o : Owner) (f : Bytes) (k : ℕ)
    → IsSample f
    → o.last_top_mode ≡ "waveform"
    → o.seg_idx ≡ k
    → k < 4
    → on_frame now o f ≡ filled o k f
segment_kept now o f k s m e h =
    on_frame-sample now o f s
    ∙ on_sample-scope now o f m (omega (arith, e))
    ∙ rw (not_last (omega (arith, e))) (ap (λ n. filled o n f) e)
  where
    not_last : o.seg_idx < 4 → (o.seg_idx + 1 == 5) ≡ false
    not_last lt = ground arith

segment_sent :
    (now : ℕ) (o : Owner) (f : Bytes)
    → IsSample f
    → o.last_top_mode ≡ "waveform"
    → o.seg_idx ≡ 4
    → on_frame now o f ≡ emit_scope now (filled o 4 f)
segment_sent now o f s m e =
    on_frame-sample now o f s
    ∙ on_sample-scope now o f m (omega (arith, e))
    ∙ rw (last e) (ap (λ n. emit_scope now (filled o n f)) e)
  where
    last : o.seg_idx ≡ 4 → (o.seg_idx + 1 == 5) ≡ true
    last p = ground arith

-- The frame that a full buffer is sent as.
abbrev pub scope_frame : ℕ → ℤ → Bool → Bytes → ScopeFrame
scope_frame now ch auto samples = record {
  timestamp = now;
  top_mode = "waveform";
  channel = ch;
  auto_channel = auto;
  samples = samples;
}

emit_scope-offers :
    (now : ℕ) (o : Owner) {c : Chan ScopeFrame}
    → o.scope_out ≡ some c
    → unlabelled o.last_channel o.last_auto ≡ false
    → emit_scope now o ≡ record o {
      scope_out = some (offer c (scope_frame now o.last_channel o.last_auto o.scope_buf)).0;
    }
unfolding emit_scope
emit_scope-offers now o l h = rw (l, emit_scope) (rw h)

-- The owner after five segments, at the time `t5` of the last.
abbrev five : Owner → ℕ → ℕ → ℕ → ℕ → ℕ → Bytes → Bytes → Bytes → Bytes → Bytes → Owner
five o t1 t2 t3 t4 t5 f1 f2 f3 f4 f5 =
    on_frame t5 (on_frame t4 (on_frame t3 (on_frame t2 (on_frame t1 o f1) f2) f3) f4) f5

five-sent :
    (o : Owner) (t1 t2 t3 t4 t5 : ℕ) (f1 f2 f3 f4 f5 : Bytes)
    → o.last_top_mode ≡ "waveform"
    → o.seg_idx ≡ 0
    → IsSample f1
    → IsSample f2
    → IsSample f3
    → IsSample f4
    → IsSample f5
    → five o t1 t2 t3 t4 t5 f1 f2 f3 f4 f5
      ≡ emit_scope t5 (record o { seg_idx = 5; scope_buf = copies o.scope_buf f1 f2 f3 f4 f5 })
five-sent o t1 t2 t3 t4 t5 f1 f2 f3 f4 f5 m z s1 s2 s3 s4 s5 =
    let o1 = filled o 0 f1 in
    let o2 = filled o1 1 f2 in
    let o3 = filled o2 2 f3 in
    let o4 = filled o3 3 f4 in
    rw (segment_kept t1 o f1 0 s1 m z (omega arith)) (
      rw (segment_kept t2 o1 f2 1 s2 m refl (omega arith)) (
        rw (segment_kept t3 o2 f3 2 s3 m refl (omega arith))
          (rw (segment_kept t4 o3 f4 3 s4 m refl (omega arith)) (segment_sent t5 o4 f5 s5 m refl))))

-- Five sample frames that arrive one after the other at the start of a cycle on the waveform page, on
-- a manual channel, are offered to the hub as one scope frame: their bytes joined in the order of
-- arrival, under the channel of the last telemetry. The buffer and the segment counter apart, nothing
-- else of the owner changes.
pub assembles_scope :
    (o : Owner) (c : Chan ScopeFrame) (t1 t2 t3 t4 t5 : ℕ) (f1 f2 f3 f4 f5 : Bytes)
    → o.last_top_mode ≡ "waveform"
    → o.seg_idx ≡ 0
    → length o.scope_buf ≡ 320
    → o.scope_out ≡ some c
    → unlabelled o.last_channel o.last_auto ≡ false
    → IsSample f1
    → IsSample f2
    → IsSample f3
    → IsSample f4
    → IsSample f5
    → let samples = (((f1 ++ f2) ++ f3) ++ f4) ++ f5 in
      five o t1 t2 t3 t4 t5 f1 f2 f3 f4 f5 ≡ record o {
        seg_idx = 5;
        scope_buf = samples;
        scope_out = some (offer c (scope_frame t5 o.last_channel o.last_auto samples)).0;
      }
assembles_scope o c t1 t2 t3 t4 t5 f1 f2 f3 f4 f5 m z w l h s1 s2 s3 s4 s5 =
    five-sent o t1 t2 t3 t4 t5 f1 f2 f3 f4 f5 m z s1 s2 s3 s4 s5
    ∙ ap (λ b. emit_scope t5 (record o { seg_idx = 5; scope_buf = b }))
        (copies-joined o.scope_buf f1 f2 f3 f4 f5 w s1.sized s2.sized s3.sized s4.sized s5.sized)
    ∙ emit_scope-offers t5 (record o { seg_idx = 5; scope_buf = (((f1 ++ f2) ++ f3) ++ f4) ++ f5 })
        l h
