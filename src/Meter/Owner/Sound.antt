-- ===== src/Meter/Owner/Sound.antt =====
-- What holds of the owner between two rounds of its loop, and that a sample segment keeps it (owner.go,
-- runOnce and the emitters).
use lp_700_server.Prelude.{
  ℕ, ◌+◌, ◌*◌, ◌≤◌, ◌<◌, ◌≡◌, refl, inl, inr, Bool, true, false, [], ◌∷◌, Option, none, some, ltb,
  ◌==◌, if◌then◌else◌, length, lengths, arith, All, All-append, Bool-cases, Option-cases, subst,
}
use lp_700_server.Prelude.Chan.{Chan, offer}
use lp_700_server.Prelude.Int.{ℤ, pos, negsuc}
use lp_700_server.Meter.Snapshot.{Bytes, ScopeFrame, SpectrumFrame}
use lp_700_server.Meter.Writes.Drain.{AllKnown}
use lp_700_server.Meter.Owner.{
  Owner, copy_at, unlabelled, emit_scope, emit_spectrum, on_scope, on_spectrum,
}

-- A channel from 1 to 4.
abbrev pub IsChannel : ℤ → Type 0
IsChannel ch = (n : ℕ) × (ch ≡ pos n) × (1 ≤ n) × (n ≤ 4)

-- Sample frames that may be shown: complete, and taken on a known channel that was not on Auto.
abbrev pub IsScope : ScopeFrame → Type 0
IsScope f = (length f.samples ≡ 320) × (f.auto_channel ≡ false) × IsChannel f.channel

abbrev pub IsSpectrum : SpectrumFrame → Type 0
IsSpectrum f = (length f.bins ≡ 320) × (f.auto_channel ≡ false) × IsChannel f.channel

abbrev pub ScopesIn : Option (Chan ScopeFrame) → Type 0
ScopesIn none = Unit {0}
ScopesIn (some c) = All IsScope c.items

abbrev pub SpectraIn : Option (Chan SpectrumFrame) → Type 0
SpectraIn none = Unit {0}
SpectraIn (some c) = All IsSpectrum c.items

-- What the channels, which outlive the loop, hold.
abbrev pub HasSoundChannels : Owner → Type 0
HasSoundChannels o = AllKnown o.commands.items × ScopesIn o.scope_out × SpectraIn o.spectrum_out

pub record IsWellFormed (o : Owner) : Type 0 where
  pub scope_sized : length o.scope_buf ≡ 320
  pub spectrum_sized : length o.spectrum_buf ≡ 320
  pub in_cycle : o.seg_idx ≤ 5
  pub known : AllKnown o.commands.items
  pub scopes : ScopesIn o.scope_out
  pub spectra : SpectraIn o.spectrum_out

length-copy_at :
    (k : ℕ) (buf f : Bytes)
    → length buf ≡ 320
    → length f ≡ 64
    → k < 5
    → length (copy_at (k * 64) buf f) ≡ 320
length-copy_at k buf f hb hf hk = grind lengths

unlabelled-IsChannel :
    (ch : ℤ) (auto : Bool) → unlabelled ch auto ≡ false → (auto ≡ false) × IsChannel ch
unfolding unlabelled
unlabelled-IsChannel (pos n) auto h = (ground arith, (n, refl, ground arith, ground arith))
unlabelled-IsChannel (negsuc n) auto h = absurd (ground arith)

offer-All {ℓ} :
    {A : Type ℓ} (P : A → Type 0) (c : Chan A) (x : A)
    → All P c.items
    → P x
    → All P (offer c x).0.items
offer-All P c x h p = elim (Bool-cases (ltb (length c.items) c.cap)) [
  | inl e ↦ rw e (All-append P c.items (x ∷ []) (p, tt) h)
  | inr e ↦ rw e h
]

emit_scope-IsWellFormed : (now : ℕ) (o : Owner) → IsWellFormed o → IsWellFormed (emit_scope now o)
unfolding emit_scope
emit_scope-IsWellFormed now o w = elim (Option-cases o.scope_out) [
  | inl e ↦ rw (e, emit_scope) w
  | inr (c, e) ↦ elim (Bool-cases (unlabelled o.last_channel o.last_auto)) [
    | inl h ↦ rw (e, emit_scope) (rw h w)
    | inr h ↦
        rw (e, emit_scope)
          (rw h (record {
            scope_sized = w.scope_sized;
            spectrum_sized = w.spectrum_sized;
            in_cycle = w.in_cycle;
            known = w.known;
            scopes = offer-All IsScope c _ (subst ScopesIn e w.scopes) (
                let (a, ch) = unlabelled-IsChannel o.last_channel o.last_auto h in
                (w.scope_sized, a, ch));
            spectra = w.spectra;
          }))
  ]
]

emit_spectrum-IsWellFormed :
    (now : ℕ) (o : Owner) → IsWellFormed o → IsWellFormed (emit_spectrum now o)
unfolding emit_spectrum
emit_spectrum-IsWellFormed now o w = elim (Option-cases o.spectrum_out) [
  | inl e ↦ rw (e, emit_spectrum) w
  | inr (c, e) ↦ elim (Bool-cases (unlabelled o.last_channel o.last_auto)) [
    | inl h ↦ rw (e, emit_spectrum) (rw h w)
    | inr h ↦
        rw (e, emit_spectrum)
          (rw h (record {
            scope_sized = w.scope_sized;
            spectrum_sized = w.spectrum_sized;
            in_cycle = w.in_cycle;
            known = w.known;
            scopes = w.scopes;
            spectra = offer-All IsSpectrum c _ (subst SpectraIn e w.spectra) (
                let (a, ch) = unlabelled-IsChannel o.last_channel o.last_auto h in
                (w.spectrum_sized, a, ch));
          }))
  ]
]

pub either {ℓ} :
    {A : Type ℓ} (P : A → Type 0) (b : Bool) (x y : A) → P x → P y → P (if b then x else y)
either P true x y p q = p
either P false x y p q = q

pub on_scope-IsWellFormed :
    (now : ℕ) (o : Owner) (f : Bytes)
    → IsWellFormed o
    → length f ≡ 64
    → o.seg_idx < 5
    → IsWellFormed (on_scope now o f)
unfolding on_scope
on_scope-IsWellFormed now o f w hf hk =
    let stored : IsWellFormed
        (record o { seg_idx = o.seg_idx + 1; scope_buf = copy_at (o.seg_idx * 64) o.scope_buf f }) =
      record {
        scope_sized = length-copy_at o.seg_idx o.scope_buf f w.scope_sized hf hk;
        spectrum_sized = w.spectrum_sized;
        in_cycle = omega (arith, hk);
        known = w.known;
        scopes = w.scopes;
        spectra = w.spectra;
      } in
    either IsWellFormed (o.seg_idx + 1 == 5) _ _ (emit_scope-IsWellFormed now _ stored) stored

pub on_spectrum-IsWellFormed :
    (now : ℕ) (o : Owner) (f : Bytes)
    → IsWellFormed o
    → length f ≡ 64
    → o.seg_idx < 5
    → IsWellFormed (on_spectrum now o f)
unfolding on_spectrum
on_spectrum-IsWellFormed now o f w hf hk =
    let stored : IsWellFormed (record o {
      seg_idx = o.seg_idx + 1;
      spectrum_buf = copy_at (o.seg_idx * 64) o.spectrum_buf f;
    }) =
      record {
        scope_sized = w.scope_sized;
        spectrum_sized = length-copy_at o.seg_idx o.spectrum_buf f w.spectrum_sized hf hk;
        in_cycle = omega (arith, hk);
        known = w.known;
        scopes = w.scopes;
        spectra = w.spectra;
      } in
    either IsWellFormed (o.seg_idx + 1 == 5) _ _ (emit_spectrum-IsWellFormed now _ stored) stored
