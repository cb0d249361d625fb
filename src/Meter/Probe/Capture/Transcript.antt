-- ===== src/Meter/Probe/Capture/Transcript.antt =====
-- Reading the frames that came back off the lines printed (probe.go, captureOne).
use lp_700_server.Prelude.{
  ℕ, zero, suc, ◌+◌, ◌≡◌, refl, sym, ap, ◌∙◌, subst, Bool, true, false, List, [], ◌∷◌, ◌++◌, Option,
  none, some, arith, ltb, Bool-cases, inl, inr, replicate, append_assoc, append-nil,
}
use lp_700_server.Meter.Snapshot.{Bytes}
use lp_700_server.Meter.Snapshot.Deadband.{bytes_eq_iff}
use lp_700_server.Meter.Frame.{report_of}
use lp_700_server.Meter.Writes.{with_report_id}
use lp_700_server.Meter.Probe.Print.{Line, command_header, full_frame, more_identical, silence}
use lp_700_server.Meter.Probe.Link.{
  Link, Event, packet, broken, timed_out, cancelled, Run, print, wrote_report, send_report, await,
  drain, flush_reads,
}
use lp_700_server.Meter.Probe.Capture.{
  Tally, fresh, is_repeat, flush_dups, on_packet, on_silence, capture_loop, capture_one, Outcome,
  on_event, after_write,
}

-- What one write was answered by: a frame, or nothing in time.
pub data Seen : Type 0 where
  frame : Bytes → Seen
  nothing : Seen

-- A reader of the lines: the last frame shown in full, and the answers read so far.
pub record Replay : Type 0 where
  pub shown : Bytes
  pub answers : List Seen

-- A full frame stands for itself, a count for that many more of the last full one, a timeout for itself.
abbrev pub read_back : Replay → Line → Replay
read_back r (full_frame i buf) = record { shown = buf; answers = r.answers ++ frame buf ∷ [] }
read_back r (more_identical n) = record r { answers = r.answers ++ replicate n (frame r.shown) }
read_back r (silence i) = record r { answers = r.answers ++ nothing ∷ [] }
read_back r _ = r

pub replay : Replay → List Line → Replay
replay r [] = r
replay r (line ∷ lines) = replay (read_back r line) lines

abbrev empty_replay : Replay
empty_replay = record { shown = []; answers = [] }

abbrev pub answers_of : List Line → List Seen
answers_of lines = (replay empty_replay lines).answers

replay-snoc :
    (r : Replay) (lines : List Line) (l : Line)
    → replay r (lines ++ l ∷ []) ≡ read_back (replay r lines) l
unfolding replay
replay-snoc r [] l = refl
replay-snoc r (k ∷ lines) l = replay-snoc (read_back r k) lines l

add_one : (n : ℕ) → n + 1 ≡ suc n
add_one n = omega arith

replicate-snoc : (n : ℕ) (a : Seen) → replicate (suc n) a ≡ replicate n a ++ a ∷ []
replicate-snoc zero a = refl
replicate-snoc (suc n) a = ap (◌∷◌ a) (replicate-snoc n a)

module _ (link : Link) where
  heard : (link.World → List Seen) → link.World → Event → List Seen
  heard next w (packet buf) = frame buf ∷ next (link.sleep 40 w)
  heard next w broken = []
  heard next w timed_out = nothing ∷ next (link.sleep 40 w)
  heard next w cancelled = []

  answered : (link.World → List Seen) → link.World × Bool → List Seen
  unfolding heard
  answered next (w, false) = []
  answered next (w, true) = let (w', event) = await link 150 w in heard next w' event

  -- The answers to `left` writes of a command, from a state of the world on: no tally, nothing left out.
  unfoldable pub history : ℕ → ℕ → link.World → List Seen
  unfolding answered
  history cmd zero w = []
  history cmd (suc left) w =
      answered (history cmd left) (link.write (with_report_id (report_of cmd)) w)

  -- What the lines of a run say.
  abbrev so_far : Run link → Replay
  so_far run = replay empty_replay run.out

  print-so_far :
      (line : Line) (run : Run link) → so_far (print link line run) ≡ read_back (so_far run) line
  print-so_far line run = replay-snoc empty_replay run.out line

  -- The frame that the tally compares with is the last one shown.
  abbrev Last : Option Bytes → Bytes → Type 0
  Last none shown = Unit
  Last (some p) shown = p ≡ shown

  -- The lines printed and the frames counted, but not yet printed, are the answers `h`.
  abbrev Agrees : Tally → Replay → List Seen → Type 0
  Agrees t r h = Last t.prev r.shown × (r.answers ++ replicate t.dups (frame r.shown) ≡ h)

  flush_dups-so_far :
      (t : Tally) (run : Run link) (h : List Seen)
      → Agrees t (so_far run) h
      → so_far (flush_dups link t run) ≡ record { shown = (so_far run).shown; answers = h }
  unfolding flush_dups
  flush_dups-so_far t run h a = elim (Bool-cases (ltb 0 t.dups)) [
    | inl e ↦ rw e (
        print-so_far (more_identical t.dups) run
        ∙ ap (λ x. record { shown = (so_far run).shown; answers = x }) a.1)
    | inr e ↦ rw e (
        ap (λ x. record { shown = (so_far run).shown; answers = x })
          (sym (append-nil _) ∙ none_left e))
  ]
    where
      none_left : ltb 0 t.dups ≡ false → (so_far run).answers ++ [] ≡ h
      none_left e = let z : t.dups ≡ 0 = ground arith in rw z at a.1

  repeat-shown :
      (prev : Option Bytes) (shown buf : Bytes)
      → Last prev shown
      → is_repeat prev buf ≡ true
      → shown ≡ buf
  unfolding is_repeat
  repeat-shown none shown buf l h = cc
  repeat-shown (some p) shown buf l h = sym l ∙ (bytes_eq_iff p buf).0 h

  on_packet-Agrees :
      (i : ℕ) (buf : Bytes) (t : Tally) (run : Run link) (h : List Seen)
      → Agrees t (so_far run) h
      → Agrees
          (on_packet link i buf t run).0
          (so_far (on_packet link i buf t run).1)
          (h ++ frame buf ∷ [])
  unfolding on_packet
  on_packet-Agrees i buf t run h a = elim (Bool-cases (is_repeat t.prev buf)) [
    | inl e ↦ rw e (a.0, one_more (repeat-shown t.prev (so_far run).shown buf a.0 e))
    | inr e ↦ rw e (
        subst (λ r. Agrees (record t { prev = some buf; dups = 0 }) r (h ++ frame buf ∷ []))
          (sym shown) (refl, append-nil _))
  ]
    where
      one_more :
          (so_far run).shown ≡ buf
          → (so_far run).answers ++ replicate (t.dups + 1) (frame (so_far run).shown)
            ≡ h ++ frame buf ∷ []
      one_more s = rw (add_one t.dups) (
          ap (λ x. (so_far run).answers ++ x) (replicate-snoc t.dups (frame (so_far run).shown))
          ∙ sym (append_assoc (so_far run).answers _ _)
          ∙ ap (λ x. x ++ frame (so_far run).shown ∷ []) a.1
          ∙ ap (λ x. h ++ frame x ∷ []) s)

      shown :
          so_far (print link (full_frame i buf) (flush_dups link t run))
          ≡ record { shown = buf; answers = h ++ frame buf ∷ [] }
      shown =
          print-so_far (full_frame i buf) (flush_dups link t run)
          ∙ ap (λ r. read_back r (full_frame i buf)) (flush_dups-so_far t run h a)

  on_silence-Agrees :
      (i : ℕ) (t : Tally) (run : Run link) (h : List Seen)
      → Agrees t (so_far run) h
      → Agrees (on_silence link i t run).0 (so_far (on_silence link i t run).1) (h ++ nothing ∷ [])
  unfolding on_silence
  on_silence-Agrees i t run h a =
      subst (λ r. Agrees (record t { prev = none; dups = 0 }) r (h ++ nothing ∷ [])) (sym shown)
        (tt, append-nil _)
    where
      shown :
          so_far (print link (silence i) (flush_dups link t run))
          ≡ record { shown = (so_far run).shown; answers = h ++ nothing ∷ [] }
      shown =
          print-so_far (silence i) (flush_dups link t run)
          ∙ ap (λ r. read_back r (silence i)) (flush_dups-so_far t run h a)

  -- Going on with `next` from any state prints the answers `rest`.
  abbrev Continues : (Tally → Run link → Outcome link) → (link.World → List Seen) → Type 0
  Continues next rest =
      (t : Tally) (run : Run link) (h : List Seen)
      → Agrees t (so_far run) h
      → answers_of (next t run).0.out ≡ h ++ rest run.world

  stop-answers :
      (t : Tally) (run : Run link) (h : List Seen)
      → Agrees t (so_far run) h
      → answers_of (flush_dups link t run).out ≡ h ++ []
  stop-answers t run h a = ap (λ r. r.answers) (flush_dups-so_far t run h a) ∙ sym (append-nil h)

  flush_dups-world : (t : Tally) (run : Run link) → (flush_dups link t run).world ≡ run.world
  unfolding flush_dups
  flush_dups-world t run = ground arith

  on_packet-world :
      (i : ℕ) (buf : Bytes) (t : Tally) (run : Run link)
      → (on_packet link i buf t run).1.world ≡ run.world
  unfolding on_packet
  on_packet-world i buf t run = elim (Bool-cases (is_repeat t.prev buf)) [
    | inl e ↦ rw e refl
    | inr e ↦ rw e (flush_dups-world t run)
  ]

  on_event-answers :
      (i : ℕ) (next : Tally → Run link → Outcome link) (rest : link.World → List Seen)
      → Continues next rest
      → (t : Tally) (run : Run link) (h : List Seen) (e : Event) → Agrees t (so_far run) h
      → answers_of (on_event link i next t run e).0.out ≡ h ++ heard rest run.world e
  unfolding on_event heard on_silence
  on_event-answers i next rest c t run h (packet buf) a =
      c _ _ _ (on_packet-Agrees i buf t run h a)
      ∙ rw (on_packet-world i buf t run) (append_assoc h (frame buf ∷ []) _)
  on_event-answers i next rest c t run h broken a = stop-answers t run h a
  on_event-answers i next rest c t run h timed_out a =
      c _ _ _ (on_silence-Agrees i t run h a)
      ∙ rw (flush_dups-world t run) (append_assoc h (nothing ∷ []) _)
  on_event-answers i next rest c t run h cancelled a = stop-answers t run h a

  after_write-answers :
      (cmd i : ℕ) (next : Tally → Run link → Outcome link) (rest : link.World → List Seen)
      → Continues next rest
      → (t : Tally) (run : Run link) (h : List Seen) → Agrees t (so_far run) h
      → answers_of (after_write link cmd i next t (send_report link (report_of cmd) run)).0.out
        ≡ h ++ answered rest (link.write (with_report_id (report_of cmd)) run.world)
  unfolding send_report after_write answered
  after_write-answers cmd i next rest c t run h a =
      of_result (link.write (with_report_id (report_of cmd)) run.world)
    where
      of_result :
          (r : link.World × Bool)
          → answers_of
              (after_write link cmd i next t
                (wrote_report link run (with_report_id (report_of cmd)) r)).0.out
            ≡ h ++ answered rest r
      of_result (w, false) = stop-answers t (record run { world = w }) h a
      of_result (w, true) = on_event-answers i next rest c t _ h (await link 150 w).1 a

  capture_loop-answers :
      (cmd left i : ℕ) → Continues (capture_loop link cmd left i) (history cmd left)
  unfolding capture_loop history
  capture_loop-answers cmd zero i t run h a = stop-answers t run h a
  capture_loop-answers cmd (suc left) i t run h a =
      after_write-answers cmd i (capture_loop link cmd left (suc i)) (history cmd left)
        (capture_loop-answers cmd left (suc i)) t run h a

  -- What is printed for a command says exactly how its writes were answered: with each frame shown in
  -- full or counted by the tally behind it, and each timeout, it reads back as all the answers in their
  -- order, behind what was printed before, also where an error or the context ends the loop early.
  pub capture_one-answers :
      (cmd n : ℕ) (run : Run link)
      → answers_of (capture_one link cmd n run).0.out
        ≡ answers_of run.out ++ history cmd n (drain link 20 run.world)
  unfolding capture_one
  capture_one-answers cmd n run =
      capture_loop-answers cmd n 0 fresh (print link (command_header cmd) (flush_reads link 20 run))
        (answers_of run.out)
        (
          tt,
          append-nil _
              ∙ ap (λ r. r.answers) (replay-snoc empty_replay run.out (command_header cmd)),
        )
