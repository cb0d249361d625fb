-- ===== src/Update/Compare/Precedence.antt =====
-- What Compare and IsNewer (update.go) make of versions.
use lp_700_server.Prelude.{
  ℕ, zero, suc, ◌+◌, ◌≡◌, ◌≢◌, refl, sym, ap, ◌∙◌, true, false, List, [], ◌∷◌, ◌++◌, compare,
  Ordering, arith, length, lengths, replicate,
}
use lp_700_server.Meter.Snapshot.{Bytes}
use lp_700_server.Update.Version.{Version, parse_version}
use lp_700_server.Update.Compare.Chain.{
  swap, Chains, IsTotal, compare-IsTotal, IsTotal-of, IsTotal-lex,
}
use lp_700_server.Update.Compare.Parts.{
  compare_lists, compare_lists-eq, lists-IsTotal, presence-IsTotal, core-IsTotal, core-rounds,
}
use lp_700_server.Update.Compare.{
  lex, at, compare_from, compare_core, compare_presence, compare_common, compare_versions,
  newer_version, is_newer, is_nil,
}

-- Compare, with the two steps on the pre-release identifiers joined.
joined : Version → Version → Ordering
joined a b =
    lex (compare_core a.core b.core) (
      lex (compare_presence a.pre b.pre)
        (lex (compare_lists a.pre b.pre) (compare a.ahead b.ahead)))

lex_assoc : (o p q : Ordering) → lex o (lex p q) ≡ lex (lex o p) q
lex_assoc Ordering.lt p q = refl
lex_assoc Ordering.eq p q = refl
lex_assoc Ordering.gt p q = refl

compare_versions-joined : (a b : Version) → compare_versions a b ≡ joined a b
unfolding compare_versions joined
compare_versions-joined a b =
    ap (λ o. lex (compare_core a.core b.core) (lex (compare_presence a.pre b.pre) o))
      (lex_assoc (compare_common a.pre b.pre) (compare (length a.pre) (length b.pre))
          (compare a.ahead b.ahead)
        ∙ ap (λ o. lex o (compare a.ahead b.ahead)) (compare_lists-eq a.pre b.pre))

joined-IsTotal : IsTotal joined
unfolding joined
joined-IsTotal = IsTotal-lex _ _ (IsTotal-of (λ (v : Version). v.core) compare_core core-IsTotal) (
    IsTotal-lex _ _ (IsTotal-of (λ (v : Version). v.pre) compare_presence presence-IsTotal) (
      IsTotal-lex _ _ (IsTotal-of (λ (v : Version). v.pre) compare_lists lists-IsTotal)
        (IsTotal-of (λ (v : Version). v.ahead) compare compare-IsTotal)))

-- Compare is a total preorder of all versions: exchanging the arguments exchanges "older" and "newer",
-- and answers chain, strictly when one of them is strict.
pub compare_versions-IsTotal : IsTotal compare_versions
compare_versions-IsTotal = record {
  turns = λ a b.
      compare_versions-joined b a
      ∙ joined-IsTotal.turns a b
      ∙ ap swap (sym (compare_versions-joined a b));
  chains = λ a b c.
      rw (compare_versions-joined a b, compare_versions-joined b c, compare_versions-joined a c)
        (joined-IsTotal.chains a b c);
}

-- A lower core is below, whatever the suffixes say.
pub core_decides :
    (a b : Version) → compare_core a.core b.core ≡ Ordering.lt → compare_versions a b ≡ Ordering.lt
core_decides a b c = compare_versions-joined a b ∙ unfold joined in rw c

-- At equal cores a pre-release is below the release, and below every build made after the release.
pub prerelease_below :
    (a b : Version)
    → compare_core a.core b.core ≡ Ordering.eq
    → a.pre ≢ []
    → b.pre ≡ []
    → compare_versions a b ≡ Ordering.lt
prerelease_below a b c p q =
    compare_versions-joined a b ∙ unfold joined in rw c (rw (presence a.pre b.pre p q))
  where
    presence : (x y : List Bytes) → x ≢ [] → y ≡ [] → compare_presence x y ≡ Ordering.lt
    presence x y p' q' = unfold compare_presence in ground arith

-- Builds of one tag are ordered by the commits past it.
pub ahead_decides :
    (a b : Version)
    → compare_core a.core b.core ≡ Ordering.eq
    → a.pre ≡ b.pre
    → compare_versions a b ≡ compare a.ahead b.ahead
ahead_decides a b c p =
    compare_versions-joined a b ∙ unfold joined in rw (c, p) (same b.pre (compare a.ahead b.ahead))
  where
    self : (o : Ordering) → o ≡ swap o → o ≡ Ordering.eq
    self o h = ground arith

    same :
        (x : List Bytes) (o : Ordering) → lex (compare_presence x x) (lex (compare_lists x x) o) ≡ o
    same x o = rw (self _ (presence-IsTotal.turns x x), self _ (lists-IsTotal.turns x x))

at_zeros : (a : List ℕ) (k i : ℕ) → at (a ++ replicate k 0) i ≡ at a i
at_zeros [] zero i = refl
at_zeros [] (suc k) zero = refl
at_zeros [] (suc k) (suc i) = at_zeros [] k i
at_zeros (x ∷ a) k zero = refl
at_zeros (x ∷ a) k (suc i) = at_zeros a k i

from_same :
    (n i : ℕ) (a b : List ℕ) → ((j : ℕ) → at a j ≡ at b j) → compare_from n i a b ≡ Ordering.eq
unfolding compare_from
from_same zero i a b h = refl
from_same (suc n) i a b h = rw (h i) (rw (self (at b i)) (from_same n (suc i) a b h))
  where
    self : (x : ℕ) → compare x x ≡ Ordering.eq
    self x = ground arith

-- Missing parts of a core count as 0: 1.0 and 1.0.0 are equal.
pub compare_core-zeros : (a : List ℕ) (k : ℕ) → compare_core (a ++ replicate k 0) a ≡ Ordering.eq
compare_core-zeros a k =
    core-rounds (length a + k) (a ++ replicate k 0) a (grind lengths) (omega arith)
    ∙ from_same (length a + k) 0 (a ++ replicate k 0) a (at_zeros a k)

newer_gt :
    (a b : Version)
    → newer_version a b ≡ true
    → (compare_versions a b ≡ Ordering.gt) × (is_nil a.core ≡ false) × (is_nil b.core ≡ false)
unfolding newer_version
newer_gt a b h = ground arith

gt_newer :
    (a b : Version)
    → compare_versions a b ≡ Ordering.gt
    → is_nil a.core ≡ false
    → is_nil b.core ≡ false
    → newer_version a b ≡ true
unfolding newer_version
gt_newer a b h p q = rw (p, q) (rw h)

gt_chain : (o p q : Ordering) → Chains o p q → o ≡ Ordering.gt → p ≡ Ordering.gt → q ≡ Ordering.gt
gt_chain o p q c h k = ground arith

not_newer : (a b : Version) → compare_versions a b ≡ Ordering.lt → newer_version a b ≡ false
unfolding newer_version
not_newer a b h = ground arith

newer-asymm : (a b : Version) → newer_version a b ≡ true → newer_version b a ≡ false
newer-asymm a b h = not_newer b a (compare_versions-IsTotal.turns a b ∙ ap swap (newer_gt a b h).0)

newer_trans :
    (a b c : Version)
    → newer_version a b ≡ true
    → newer_version b c ≡ true
    → newer_version a c ≡ true
newer_trans a b c h k =
    let (p, pa, pb) = newer_gt a b h in
    let (q, qb, qc) = newer_gt b c k in
    gt_newer a c (gt_chain _ _ _ (compare_versions-IsTotal.chains a b c) p q) pa qc

-- "Newer" is asymmetric: no notice leads back to the release that it was shown for.
pub is_newer-asymm : (x y : Bytes) → is_newer x y ≡ true → is_newer y x ≡ false
unfolding is_newer
is_newer-asymm x y = newer-asymm (parse_version x) (parse_version y)

-- "Newer" is transitive on version strings: a chain of updates never leads down.
pub is_newer_trans :
    (x y z : Bytes) → is_newer x y ≡ true → is_newer y z ≡ true → is_newer x z ≡ true
unfolding is_newer
is_newer_trans x y z = newer_trans (parse_version x) (parse_version y) (parse_version z)
