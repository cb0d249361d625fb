-- ===== src/Update/Version.antt =====
-- internal/update/update.go: version strings, as lists of bytes, and how they are parsed.
use lp_700_server.Prelude.{
  ℕ, ◌+◌, ◌*◌, ◌-◌, Bool, true, false, not, ◌&&◌, ◌||◌, List, [], ◌∷◌, Option, none, some, ltb, leb,
  ◌==◌, if◌then◌else◌, length, reverse, codes,
}
use lp_700_server.Meter.Snapshot.{Bytes, bytes_eq}

-- What `strings.TrimSpace` and `unicode.IsSpace` take for space in ASCII.
unfoldable pub is_space : ℕ → Bool
is_space c = c == b' ' || leb 9 c && leb c 13

unfoldable pub trim_left : Bytes → Bytes
unfolding is_space
trim_left [] = []
trim_left (c ∷ cs) = let rest = trim_left cs in if is_space c then rest else c ∷ cs

-- `strings.TrimSpace`
unfoldable pub trim_space : Bytes → Bytes
unfolding trim_left
trim_space v = reverse (trim_left (reverse (trim_left v)))

drop_v : Bytes → Bytes
drop_v [] = []
drop_v (c ∷ cs) = if c == b'v' || c == b'V' then cs else c ∷ cs

unfoldable pub display_version : Bytes → Bytes
unfolding drop_v trim_space
display_version v = drop_v (trim_space v)

-- `core` is empty where the source's is nil, and `pre` likewise: neither is ever empty and not nil.
pub record Version : Type 0 where
  pub core : List ℕ
  pub pre : List Bytes
  pub ahead : ℕ

unfoldable pub is_digit : ℕ → Bool
is_digit c = leb b'0' c && leb c b'9'

unfoldable pub all_digits : Bytes → Bool
unfolding is_digit
all_digits [] = true
all_digits (c ∷ cs) = is_digit c && all_digits cs

abbrev pub max_int : ℕ
max_int = 9223372036854775807

-- The value of a digit string.
unfoldable pub decimal : ℕ → Bytes → ℕ
decimal acc [] = acc
decimal acc (c ∷ cs) = decimal (acc * 10 + (c - b'0')) cs

-- `digits`: `strconv.Atoi` fails on an all-digit string only when it does not fit an int.
unfoldable pub digits : Bytes → Option ℕ
unfolding all_digits decimal
digits [] = none
digits (c ∷ cs) =
    if not (all_digits (c ∷ cs))
    then none
    else let n = decimal 0 (c ∷ cs) in some (if ltb max_int n then max_int else n)

-- `strings.Split(s, ".")`: the first part, and the others.
unfoldable pub split_dots : Bytes → Bytes × List Bytes
split_dots [] = ([], [])
split_dots (c ∷ cs) = let (p, ps) = split_dots cs in if c == b'.' then ([], p ∷ ps) else (c ∷ p, ps)

abbrev pub parts : Bytes → List Bytes
parts s = let (p, ps) = split_dots s in p ∷ ps

-- `strings.Cut(s, "-")`; `none` when there is no dash.
unfoldable pub cut_dash : Bytes → Bytes × Option Bytes
cut_dash [] = ([], none)
cut_dash (c ∷ cs) = let (b, a) = cut_dash cs in if c == b'-' then ([], some cs) else (c ∷ b, a)

unfoldable pub is_hex : ℕ → Bool
is_hex c = leb b'0' c && leb c b'9' || leb b'a' c && leb c b'f' || leb b'A' c && leb c b'F'

unfoldable pub all_hex : Bytes → Bool
unfolding is_hex
all_hex [] = true
all_hex (c ∷ cs) = is_hex c && all_hex cs

-- The end of `describeTail`, after the digits: "-g" and four hex digits or more, up to the end.
hash_tail : Bytes → Bool
unfolding all_hex
hash_tail (a ∷ b ∷ hash) = a == b'-' && b == b'g' && leb 4 (length hash) && all_hex hash
hash_tail _ = false

-- The digits of the tail, if it goes on with "-g<hash>" to the end.
tail_digits : Bytes → Option Bytes
unfolding is_digit hash_tail
tail_digits [] = none
tail_digits (c ∷ cs) =
    let rest = tail_digits cs in
    if is_digit c
    then (if hash_tail cs
        then some (c ∷ [])
        else elim rest [ none ↦ none | some ds ↦ some (c ∷ ds) ])
    else none

match_here : Bytes → Option Bytes
unfolding tail_digits
match_here [] = none
match_here (c ∷ cs) = if c == b'-' then tail_digits cs else none

-- The leftmost match of `-(\d+)-g[0-9a-fA-F]{4,}$`: what stands before it, and its digits.
unfoldable pub describe_tail : Bytes → Option (Bytes × Bytes)
unfolding match_here
describe_tail [] = none
describe_tail (c ∷ cs) =
    let rest = describe_tail cs in
    elim (match_here (c ∷ cs)) [
      | some ds ↦ some ([], ds)
      | none ↦ elim rest [ none ↦ none | some (before, ds) ↦ some (c ∷ before, ds) ]
    ]

-- `strings.TrimSuffix(s, "-dirty")`
unfoldable pub trim_dirty : Bytes → Bytes
trim_dirty [] = []
trim_dirty (c ∷ cs) =
    let rest = trim_dirty cs in if bytes_eq (c ∷ cs) (codes "-dirty") then [] else c ∷ rest

-- The loop over the dotted core; `none` is the early return on a part that is no number.
unfoldable pub parse_core : List Bytes → Option (List ℕ)
unfolding digits
parse_core [] = some []
parse_core (p ∷ ps) = elim (digits p) [
  | none ↦ none
  | some n ↦ elim (parse_core ps) [ none ↦ none | some ns ↦ some (n ∷ ns) ]
]

abbrev no_version : Version
no_version = record { core = []; pre = []; ahead = 0 }

abbrev pre_parts : Option Bytes → List Bytes
pre_parts none = []
pre_parts (some pre) = parts pre

abbrev or_zero : Option ℕ → ℕ
or_zero none = 0
or_zero (some n) = n

-- The part of ParseVersion after the describe tail.
unfoldable pub parse_rest : ℕ → Bytes → Version
unfolding cut_dash split_dots parse_core
parse_rest ahead s =
    let (core, pre) = cut_dash s in
    elim (parse_core (parts core)) [
      | none ↦ no_version
      | some ns ↦ record { core = ns; pre = pre_parts pre; ahead = ahead }
    ]

unfoldable pub parse_version : Bytes → Version
unfolding display_version trim_dirty describe_tail parse_rest digits
parse_version v =
    let s = trim_dirty (display_version v) in
    elim (describe_tail s) [
      | none ↦ parse_rest 0 s
      | some (before, ds) ↦ parse_rest (or_zero (digits ds)) before
    ]
