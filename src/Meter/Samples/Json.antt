-- ===== src/Meter/Samples/Json.antt =====
-- The JSON array of a sample buffer is read back, and fits the space set aside for it (snapshot.go,
-- MarshalJSON).
use lp_700_server.Prelude.{
  ℕ, zero, suc, ◌+◌, ◌-◌, ◌*◌, ◌/◌, ◌%◌, ◌≤◌, ◌<◌, ◌≡◌, refl, ap, ◌∙◌, Bool, true, ◌&&◌, List, [],
  ◌∷◌, ◌++◌, Option, none, some, arith, ltb, leb, ◌==◌, if◌then◌else◌, length, length-append,
  append_assoc, All, All-append, Bool-cases, inl, inr,
}
use lp_700_server.Prelude.Decimal.{print_upto, print_decimal}
use lp_700_server.Meter.Snapshot.{Bytes}
use lp_700_server.Meter.Samples.{append_rest, append_all, marshal_json}

-- A reader of JSON arrays of numbers, independent of the writer: the number being read, if any.
close_number : Option ℕ → List ℕ → List ℕ
close_number none ns = ns
close_number (some n) ns = n ∷ ns

push_digit : Option ℕ → ℕ → ℕ
push_digit none c = c - b'0'
push_digit (some n) c = n * 10 + (c - b'0')

is_decimal : ℕ → Bool
is_decimal c = leb b'0' c && leb c b'9'

at_end : Option ℕ → Bytes → Option (List ℕ)
unfolding close_number
at_end cur [] = some (close_number cur [])
at_end cur (_ ∷ _) = none

with_number : Option ℕ → Option (List ℕ) → Option (List ℕ)
with_number none ns = none
with_number (some n) none = none
with_number (some n) (some ns) = some (n ∷ ns)

read_items : Option ℕ → Bytes → Option (List ℕ)
unfolding at_end with_number push_digit is_decimal
read_items cur [] = none
read_items cur (c ∷ cs) =
    let more = read_items (some (push_digit cur c)) cs in
    let others = read_items none cs in
    if is_decimal c
    then more
    else if c == b','
    then with_number cur others
    else if c == b']'
    then at_end cur cs
    else none

pub read_array : Bytes → Option (List ℕ)
unfolding read_items
read_array [] = none
read_array (c ∷ cs) = if c == b'[' then read_items none cs else none

-- The number has at most `k` digits.
abbrev FitsDecimal : ℕ → ℕ → Type 0
FitsDecimal zero n = n ≡ 0
FitsDecimal (suc k) n = FitsDecimal k (n / 10)

pushed : Option ℕ → Bytes → Option ℕ
unfolding push_digit
pushed cur [] = cur
pushed cur (c ∷ cs) = pushed (some (push_digit cur c)) cs

read_items-digits :
    (cur : Option ℕ) (ds rest : Bytes)
    → All (λ c. is_decimal c ≡ true) ds
    → read_items cur (ds ++ rest) ≡ read_items (pushed cur ds) rest
unfolding read_items pushed
read_items-digits cur [] rest h = refl
read_items-digits cur (d ∷ ds) rest (h, hs) =
    rw h (read_items-digits (some (push_digit cur d)) ds rest hs)

pushed-append : (cur : Option ℕ) (ds es : Bytes) → pushed cur (ds ++ es) ≡ pushed (pushed cur ds) es
unfolding pushed
pushed-append cur [] es = refl
pushed-append cur (d ∷ ds) es = pushed-append (some (push_digit cur d)) ds es

pushed-print_upto : (k n : ℕ) → FitsDecimal (suc k) n → pushed none (print_upto (suc k) n) ≡ some n
unfolding print_upto pushed
pushed-print_upto zero n h =
    let small : ltb n 10 ≡ true = ground arith in rw small (ap some (omega arith))
pushed-print_upto (suc k) n h = elim (Bool-cases (ltb n 10)) [
  | inl small ↦ rw small (ap some (omega arith))
  | inr large ↦ rw large (
      pushed-append none (print_upto (suc k) (n / 10)) ((b'0' + n % 10) ∷ [])
      ∙ ap (λ o. pushed o ((b'0' + n % 10) ∷ [])) (pushed-print_upto k (n / 10) h)
      ∙ ap some (omega arith))
]

abbrev AllDigits : Bytes → Type 0
AllDigits = All (λ c. is_decimal c ≡ true)

print_upto-AllDigits : (k n : ℕ) → AllDigits (print_upto k n)
unfolding print_upto is_decimal
print_upto-AllDigits zero n = tt
print_upto-AllDigits (suc k) n = elim (Bool-cases (ltb n 10)) [
  | inl small ↦ rw small (ground arith, tt)
  | inr large ↦
      rw large (
        All-append _ (print_upto k (n / 10)) _ (ground arith, tt) (print_upto-AllDigits k (n / 10)))
]

-- A byte is printed in at most three digits.
length-print_byte : (b : ℕ) → b < 256 → length (print_decimal b) ≤ 3
unfolding print_upto
length-print_byte b h = elim (Bool-cases (ltb b 10)) [
  | inl small ↦ rw small (omega arith)
  | inr large ↦ elim (Bool-cases (ltb (b / 10) 10)) [
    | inl small ↦ rw large (rw small (omega arith))
    | inr two ↦
        let three : ltb (b / 10 / 10) 10 ≡ true = ground arith in
        rw large (rw two (rw three (omega arith)))
  ]
]

abbrev pub AllBytes : Bytes → Type 0
AllBytes = All (λ b. b < 256)

read_items-number :
    (b : ℕ) (rest : Bytes)
    → b < 256
    → read_items none (print_decimal b ++ rest) ≡ read_items (some b) rest
read_items-number b rest h =
    read_items-digits none (print_decimal b) rest (print_upto-AllDigits 20 b)
    ∙ ap (λ o. read_items o rest) (pushed-print_upto 19 b (omega arith))

read_items-rest :
    (b : ℕ) (s : Bytes)
    → AllBytes s
    → read_items (some b) (append_rest s ++ b']' ∷ []) ≡ some (b ∷ s)
unfolding read_items append_rest
read_items-rest b [] h = refl
read_items-rest b (c ∷ s) (h, hs) = ap (with_number (some b)) (
    ap (read_items none) (append_assoc (print_decimal c) (append_rest s) (b']' ∷ []))
    ∙ read_items-number c (append_rest s ++ b']' ∷ []) h
    ∙ read_items-rest c s hs)

-- The array reads back.
read_array-marshal_json : (s : Bytes) → AllBytes s → read_array (marshal_json (some s)) ≡ some s
unfolding read_array marshal_json append_all
read_array-marshal_json [] h = unfold read_items in refl
read_array-marshal_json (b ∷ s) (h, hs) =
    ap (read_items none) (append_assoc (print_decimal b) (append_rest s) (b']' ∷ []))
    ∙ read_items-number b (append_rest s ++ b']' ∷ []) h
    ∙ read_items-rest b s hs

length-append_rest : (s : Bytes) → AllBytes s → length (append_rest s) ≤ 4 * length s
unfolding append_rest
length-append_rest [] h = omega arith
length-append_rest (b ∷ s) (h, hs) = omega (
  arith,
  length-append (print_decimal b) (append_rest s),
  length-print_byte b h,
  length-append_rest s hs,
)

-- The array fits.
length-marshal_json : (s : Bytes) → AllBytes s → length (marshal_json (some s)) ≤ length s * 4 + 2
unfolding marshal_json append_all
length-marshal_json [] h = omega arith
length-marshal_json (b ∷ s) (h, hs) = omega (
  arith,
  length-append (print_decimal b ++ append_rest s) (b']' ∷ []),
  length-append (print_decimal b) (append_rest s),
  length-print_byte b h,
  length-append_rest s hs,
)

-- A buffer of bytes is written as a JSON array that reads back as the same numbers, and that is never
-- longer than the four bytes for each of them, and two more, that the code sets aside for it.
pub marshal_json_lem :
    (s : Bytes)
    → AllBytes s
    → (read_array (marshal_json (some s)) ≡ some s)
      × (length (marshal_json (some s)) ≤ length s * 4 + 2)
marshal_json_lem s h = (read_array-marshal_json s h, length-marshal_json s h)
