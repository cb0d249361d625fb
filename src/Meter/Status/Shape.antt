-- ===== src/Meter/Status/Shape.antt =====
-- What extractStatusMessage (decode.go) lets through.
use mathlib.Core.List.{reverse-reverse, reverse-cons, reverse-append}
use lp_700_server.Prelude.{
  ℕ, ◌<◌, ◌≤◌, ◌≡◌, ◌≢◌, refl, sym, ap, ◌∙◌, ◌⊎◌, true, [], ◌∷◌, ◌++◌, arith, inl, inr, reverse,
  length, All, All-append, subst,
}
use lp_700_server.Meter.Snapshot.{Bytes}
use lp_700_server.Meter.Status.Runs.{HasRun, has_letter_run-HasRun, HasRun-has_letter_run}
use lp_700_server.Meter.Status.{
  printable_prefix, drop_spaces, trim_spaces, contains_space, has_letter_run, accept_message,
  extract_status_message,
}

abbrev pub IsPrintable : ℕ → Type 0
IsPrintable c = (32 ≤ c) × (c < 127)

abbrev pub HasSpace : Bytes → Type 0
HasSpace [] = ⊥
HasSpace (b ∷ bs) = (b ≡ b' ') ⊎ HasSpace bs

-- A status phrase: printable text of four bytes or more, with a space in it but not at its end, and
-- three letters in a row.
pub record IsPhrase (m : Bytes) : Type 0 where
  pub long : 4 ≤ length m
  pub printable : All IsPrintable m
  pub spaced : HasSpace m
  pub trimmed : (xs : Bytes) → m ≢ xs ++ b' ' ∷ []
  pub lettered : HasRun m

printable_prefix-All : (slot : Bytes) → All IsPrintable (printable_prefix slot)
unfolding printable_prefix
printable_prefix-All [] = tt
printable_prefix-All (b ∷ bs) = ground (arith, printable_prefix-All bs)

All-reverse : (xs : Bytes) → All IsPrintable xs → All IsPrintable (reverse xs)
All-reverse [] h = tt
All-reverse (x ∷ xs) h =
    rw (reverse-cons x xs)
      (All-append IsPrintable (reverse xs) (x ∷ []) (h.0, tt) (All-reverse xs h.1))

drop_spaces-All : (xs : Bytes) → All IsPrintable xs → All IsPrintable (drop_spaces xs)
unfolding drop_spaces
drop_spaces-All [] h = tt
drop_spaces-All (x ∷ xs) h = ground (arith, drop_spaces-All xs h.1)

drop_spaces-head : (xs rest : Bytes) → drop_spaces xs ≢ b' ' ∷ rest
unfolding drop_spaces
drop_spaces-head [] rest h = cc
drop_spaces-head (x ∷ xs) rest h = ground (arith, drop_spaces-head xs rest)

trim_spaces-trimmed : (m xs : Bytes) → trim_spaces m ≢ xs ++ b' ' ∷ []
unfolding trim_spaces
trim_spaces-trimmed m xs h =
    drop_spaces-head (reverse m) (reverse xs)
      (sym (reverse-reverse _) ∙ ap reverse h ∙ reverse-append xs (b' ' ∷ []))

trim_spaces-All : (m : Bytes) → All IsPrintable m → All IsPrintable (trim_spaces m)
unfolding trim_spaces
trim_spaces-All m h = All-reverse _ (drop_spaces-All _ (All-reverse m h))

contains_space-HasSpace : (m : Bytes) → contains_space m ≡ true → HasSpace m
unfolding contains_space
contains_space-HasSpace [] h = cc
contains_space-HasSpace (b ∷ bs) h = ground (arith, contains_space-HasSpace bs)

HasSpace-contains_space : (m : Bytes) → HasSpace m → contains_space m ≡ true
unfolding contains_space
HasSpace-contains_space [] h = absurd h
HasSpace-contains_space (b ∷ bs) h = ground (arith, HasSpace-contains_space bs)

accept_message-cases :
    (out : Bytes)
    → (accept_message out ≡ [])
      ⊎ (4 ≤ length out)
        × (contains_space out ≡ true)
        × (has_letter_run 0 out ≡ true)
        × (accept_message out ≡ out)
unfolding accept_message
accept_message-cases out = ground arith

IsPhrase-of :
    (slot : Bytes) (out : Bytes)
    → trim_spaces (printable_prefix slot) ≡ out
    → 4 ≤ length out
    → contains_space out ≡ true
    → has_letter_run 0 out ≡ true
    → IsPhrase out
IsPhrase-of slot out e long space run = record {
  long = long;
  printable =
      subst (All IsPrintable) e
        (trim_spaces-All (printable_prefix slot) (printable_prefix-All slot));
  spaced = contains_space-HasSpace out space;
  trimmed =
      subst (λ m. (xs : Bytes) → m ≢ xs ++ b' ' ∷ []) e
        (trim_spaces-trimmed (printable_prefix slot));
  lettered = has_letter_run-HasRun out run;
}

-- The message is empty, or a phrase: no sample data leaks through in another shape.
pub extract_status-IsPhrase :
    (slot : Bytes) → (extract_status_message slot ≡ []) ⊎ IsPhrase (extract_status_message slot)
unfolding extract_status_message
extract_status-IsPhrase slot = elim (accept_message-cases (trim_spaces (printable_prefix slot))) [
  | inl e ↦ inl e
  | inr (long, space, run, e) ↦ inr (rw e (IsPhrase-of slot _ refl long space run))
]

printable_prefix-printable :
    (m rest : Bytes) → All IsPrintable m → printable_prefix (m ++ 0 ∷ rest) ≡ m
unfolding printable_prefix
printable_prefix-printable [] rest h = refl
printable_prefix-printable (b ∷ m) rest h = ground (arith, printable_prefix-printable m rest h.1)

drop_spaces-trimmed : (r : Bytes) → ((xs : Bytes) → r ≢ b' ' ∷ xs) → drop_spaces r ≡ r
unfolding drop_spaces
drop_spaces-trimmed [] h = refl
drop_spaces-trimmed (x ∷ r) h = ground (arith, h r)

trim_spaces_trimmed : (m : Bytes) → ((xs : Bytes) → m ≢ xs ++ b' ' ∷ []) → trim_spaces m ≡ m
unfolding trim_spaces
trim_spaces_trimmed m h =
    ap reverse (drop_spaces-trimmed (reverse m) (λ xs e. h (reverse xs) (last_of xs e)))
    ∙ reverse-reverse m
  where
    last_of : (xs : Bytes) → reverse m ≡ b' ' ∷ xs → m ≡ reverse xs ++ b' ' ∷ []
    last_of xs e = sym (reverse-reverse m) ∙ ap reverse e ∙ reverse-cons b' ' xs

accept_message-eq :
    (m : Bytes)
    → 4 ≤ length m
    → contains_space m ≡ true
    → has_letter_run 0 m ≡ true
    → accept_message m ≡ m
unfolding accept_message
accept_message-eq m long space run = ground arith

-- Every phrase that the meter puts in the slot, ended by a zero byte, comes out as it is.
pub extract_status_phrase :
    (m rest : Bytes) → IsPhrase m → extract_status_message (m ++ 0 ∷ rest) ≡ m
unfolding extract_status_message
extract_status_phrase m rest p =
    ap (λ out. accept_message (trim_spaces out)) (printable_prefix-printable m rest p.printable)
    ∙ ap accept_message (trim_spaces_trimmed m p.trimmed)
    ∙ accept_message-eq m p.long (HasSpace-contains_space m p.spaced)
        (HasRun-has_letter_run 0 p.lettered (omega arith))
