-- ===== src/Update/Compare.antt =====
-- internal/update/update.go: the order of versions. -1, 0 and 1 are `lt`, `eq` and `gt`.
pub mod Chain
pub mod Parts
pub mod Precedence
use lp_700_server.Prelude.{
  ℕ, zero, suc, ◌+◌, ◌<◌, ◌≤◌, Bool, true, false, not, ◌&&◌, ◌||◌, List, [], ◌∷◌, Option, none,
  some, ltb, ◌==◌, if◌then◌else◌, length, get_or, compare, Ordering, codes,
}
use lp_700_server.Meter.Snapshot.{Bytes, bytes_eq}
use lp_700_server.Update.Version.{Version, digits, parse_version}

-- The first answer unless it is `eq`, else the second: the source's early returns.
abbrev pub lex : Ordering → Ordering → Ordering
lex Ordering.lt o = Ordering.lt
lex Ordering.eq o = o
lex Ordering.gt o = Ordering.gt

-- `xs[i]`, or 0 past the end.
abbrev pub at : List ℕ → ℕ → ℕ
at xs i = get_or xs i 0

-- The loop over the cores, `n` rounds from index `i` on.
unfoldable pub compare_from : ℕ → ℕ → List ℕ → List ℕ → Ordering
compare_from zero i a b = Ordering.eq
compare_from (suc n) i a b = lex (compare (at a i) (at b i)) (compare_from n (suc i) a b)

abbrev pub longer : ℕ → ℕ → ℕ
longer a b = if ltb a b then b else a

unfoldable pub compare_core : List ℕ → List ℕ → Ordering
compare_core a b = compare_from (longer (length a) (length b)) 0 a b

-- `(a.Pre == nil) != (b.Pre == nil)`
unfoldable pub compare_presence : List Bytes → List Bytes → Ordering
compare_presence [] [] = Ordering.eq
compare_presence [] (_ ∷ _) = Ordering.gt
compare_presence (_ ∷ _) [] = Ordering.lt
compare_presence (_ ∷ _) (_ ∷ _) = Ordering.eq

-- `strings.Compare`
unfoldable pub compare_bytes : Bytes → Bytes → Ordering
compare_bytes [] [] = Ordering.eq
compare_bytes [] (_ ∷ _) = Ordering.lt
compare_bytes (_ ∷ _) [] = Ordering.gt
compare_bytes (x ∷ xs) (y ∷ ys) = lex (compare x y) (compare_bytes xs ys)

-- The `switch` of comparePreID, on what `digits` says of the two identifiers.
unfoldable pub compare_ids : Option ℕ → Bytes → Option ℕ → Bytes → Ordering
compare_ids (some n) x (some m) y = compare n m
compare_ids (some n) x none y = Ordering.lt
compare_ids none x (some m) y = Ordering.gt
compare_ids none x none y = compare_bytes x y

unfoldable pub compare_pre_id : Bytes → Bytes → Ordering
compare_pre_id x y = compare_ids (digits x) x (digits y) y

-- The loop over the pre-release identifiers that both have.
unfoldable pub compare_common : List Bytes → List Bytes → Ordering
compare_common (x ∷ xs) (y ∷ ys) = lex (compare_pre_id x y) (compare_common xs ys)
compare_common _ _ = Ordering.eq

unfoldable pub compare_versions : Version → Version → Ordering
compare_versions a b = lex (compare_core a.core b.core) (
    lex (compare_presence a.pre b.pre) (
      lex (compare_common a.pre b.pre)
        (lex (compare (length a.pre) (length b.pre)) (compare a.ahead b.ahead))))

abbrev pub is_gt : Ordering → Bool
is_gt Ordering.gt = true
is_gt _ = false

abbrev pub is_nil : List ℕ → Bool
is_nil [] = true
is_nil (_ ∷ _) = false

unfoldable pub newer_version : Version → Version → Bool
newer_version a b = if is_nil a.core || is_nil b.core then false else is_gt (compare_versions a b)

unfoldable pub is_newer : Bytes → Bytes → Bool
is_newer candidate current = newer_version (parse_version candidate) (parse_version current)

-- `strings.ToLower` on ASCII.
unfoldable pub lower : Bytes → Bytes
lower [] = []
lower (c ∷ cs) = (if not (ltb c b'A') && not (ltb b'Z' c) then c + 32 else c) ∷ lower cs

starts_dev : Bytes → Bool
starts_dev (a ∷ b ∷ c ∷ _) = a == b'd' && b == b'e' && c == b'v'
starts_dev _ = false

contains_dev : Bytes → Bool
unfolding starts_dev
contains_dev [] = false
contains_dev (c ∷ cs) = starts_dev (c ∷ cs) || contains_dev cs

unfoldable pub is_dev_version : Bytes → Bool
unfolding contains_dev lower
is_dev_version v = contains_dev (lower v)
