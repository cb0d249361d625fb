-- ===== src/Update/Compare/Parts.antt =====
-- The steps of Compare (update.go) one by one.
use lp_700_server.Prelude.{
  ℕ, zero, suc, ◌+◌, ◌≤◌, ◌≡◌, refl, sym, ap, ◌∙◌, List, [], ◌∷◌, Option, none, some, compare,
  Ordering, arith, length,
}
use lp_700_server.Meter.Snapshot.{Bytes}
use lp_700_server.Update.Version.{digits}
use lp_700_server.Update.Compare.Chain.{
  swap, Chains, IsTotal, compare-turns, compare-Chains, lex-turns, lex-Chains, lt_first, lt_last,
  gt_first, gt_last,
}
use lp_700_server.Update.Compare.{
  lex, at, compare_from, longer, compare_core, compare_presence, compare_bytes, compare_ids,
  compare_pre_id, compare_common,
}

pub bytes-turns : (x y : Bytes) → compare_bytes y x ≡ swap (compare_bytes x y)
unfolding compare_bytes
bytes-turns [] [] = refl
bytes-turns [] (y ∷ ys) = refl
bytes-turns (x ∷ xs) [] = refl
bytes-turns (x ∷ xs) (y ∷ ys) =
    lex-turns (compare x y) (compare y x) (compare_bytes xs ys) (compare_bytes ys xs)
      (compare-turns x y) (bytes-turns xs ys)

bytes-Chains : (x y z : Bytes) → Chains (compare_bytes x y) (compare_bytes y z) (compare_bytes x z)
unfolding compare_bytes
bytes-Chains [] [] [] = refl
bytes-Chains [] [] (z ∷ zs) = refl
bytes-Chains [] (y ∷ ys) [] = tt
bytes-Chains [] (y ∷ ys) (z ∷ zs) = lt_first (lex (compare y z) (compare_bytes ys zs))
bytes-Chains (x ∷ xs) [] [] = refl
bytes-Chains (x ∷ xs) [] (z ∷ zs) = tt
bytes-Chains (x ∷ xs) (y ∷ ys) [] = gt_last (lex (compare x y) (compare_bytes xs ys))
bytes-Chains (x ∷ xs) (y ∷ ys) (z ∷ zs) =
    lex-Chains (compare x y) (compare y z) (compare x z) (compare_bytes xs ys) (compare_bytes ys zs)
      (compare_bytes xs zs) (compare-Chains x y z) (bytes-Chains xs ys zs)

ids-turns :
    (n : Option ℕ) (x : Bytes) (m : Option ℕ) (y : Bytes)
    → compare_ids m y n x ≡ swap (compare_ids n x m y)
unfolding compare_ids
ids-turns (some n) x (some m) y = compare-turns n m
ids-turns (some n) x none y = refl
ids-turns none x (some m) y = refl
ids-turns none x none y = bytes-turns x y

ids-Chains :
    (l : Option ℕ) (x : Bytes) (m : Option ℕ) (y : Bytes) (n : Option ℕ) (z : Bytes)
    → Chains (compare_ids l x m y) (compare_ids m y n z) (compare_ids l x n z)
unfolding compare_ids
ids-Chains (some l) x (some m) y (some n) z = compare-Chains l m n
ids-Chains (some l) x (some m) y none z = lt_last (compare l m)
ids-Chains (some l) x none y (some n) z = tt
ids-Chains (some l) x none y none z = lt_first (compare_bytes y z)
ids-Chains none x (some m) y (some n) z = gt_first (compare m n)
ids-Chains none x (some m) y none z = tt
ids-Chains none x none y (some n) z = gt_last (compare_bytes x y)
ids-Chains none x none y none z = bytes-Chains x y z

pub pre_id-IsTotal : IsTotal compare_pre_id
unfolding compare_pre_id
pre_id-IsTotal = record {
  turns = λ x y. ids-turns (digits x) x (digits y) y;
  chains = λ x y z. ids-Chains (digits x) x (digits y) y (digits z) z;
}

-- The identifiers in common, then the number of identifiers: the order of lists, shorter first.
unfoldable pub compare_lists : List Bytes → List Bytes → Ordering
compare_lists [] [] = Ordering.eq
compare_lists [] (_ ∷ _) = Ordering.lt
compare_lists (_ ∷ _) [] = Ordering.gt
compare_lists (x ∷ xs) (y ∷ ys) = lex (compare_pre_id x y) (compare_lists xs ys)

lex_assoc : (o p q : Ordering) → lex (lex o p) q ≡ lex o (lex p q)
lex_assoc Ordering.lt p q = refl
lex_assoc Ordering.eq p q = refl
lex_assoc Ordering.gt p q = refl

compare-suc : (m n : ℕ) → compare (suc m) (suc n) ≡ compare m n
compare-suc m n = ground arith

pub compare_lists-eq :
    (a b : List Bytes)
    → lex (compare_common a b) (compare (length a) (length b)) ≡ compare_lists a b
unfolding compare_common compare_lists
compare_lists-eq [] [] = refl
compare_lists-eq [] (y ∷ ys) = ground arith
compare_lists-eq (x ∷ xs) [] = ground arith
compare_lists-eq (x ∷ xs) (y ∷ ys) =
    lex_assoc (compare_pre_id x y) (compare_common xs ys) _
    ∙ ap (λ o. lex (compare_pre_id x y) (lex (compare_common xs ys) o))
        (compare-suc (length xs) (length ys))
    ∙ ap (lex (compare_pre_id x y)) (compare_lists-eq xs ys)

lists-turns : (a b : List Bytes) → compare_lists b a ≡ swap (compare_lists a b)
unfolding compare_lists
lists-turns [] [] = refl
lists-turns [] (y ∷ ys) = refl
lists-turns (x ∷ xs) [] = refl
lists-turns (x ∷ xs) (y ∷ ys) =
    lex-turns (compare_pre_id x y) (compare_pre_id y x) (compare_lists xs ys) (compare_lists ys xs)
      (pre_id-IsTotal.turns x y) (lists-turns xs ys)

lists-Chains :
    (a b c : List Bytes) → Chains (compare_lists a b) (compare_lists b c) (compare_lists a c)
unfolding compare_lists
lists-Chains [] [] [] = refl
lists-Chains [] [] (z ∷ zs) = refl
lists-Chains [] (y ∷ ys) [] = tt
lists-Chains [] (y ∷ ys) (z ∷ zs) = lt_first (lex (compare_pre_id y z) (compare_lists ys zs))
lists-Chains (x ∷ xs) [] [] = refl
lists-Chains (x ∷ xs) [] (z ∷ zs) = tt
lists-Chains (x ∷ xs) (y ∷ ys) [] = gt_last (lex (compare_pre_id x y) (compare_lists xs ys))
lists-Chains (x ∷ xs) (y ∷ ys) (z ∷ zs) =
    lex-Chains (compare_pre_id x y) (compare_pre_id y z) (compare_pre_id x z) (compare_lists xs ys)
      (compare_lists ys zs) (compare_lists xs zs) (pre_id-IsTotal.chains x y z)
      (lists-Chains xs ys zs)

pub lists-IsTotal : IsTotal compare_lists
lists-IsTotal = record { turns = lists-turns; chains = lists-Chains }

pub presence-IsTotal : IsTotal compare_presence
unfolding compare_presence
presence-IsTotal = record { turns = λ a b. ground arith; chains = λ a b c. ground arith }

-- The rounds of the core loop from one index on.
from-turns : (n i : ℕ) (a b : List ℕ) → compare_from n i b a ≡ swap (compare_from n i a b)
unfolding compare_from
from-turns zero i a b = refl
from-turns (suc n) i a b =
    lex-turns (compare (at a i) (at b i)) (compare (at b i) (at a i)) (compare_from n (suc i) a b)
      (compare_from n (suc i) b a) (compare-turns (at a i) (at b i)) (from-turns n (suc i) a b)

from-Chains :
    (n i : ℕ) (a b c : List ℕ)
    → Chains (compare_from n i a b) (compare_from n i b c) (compare_from n i a c)
unfolding compare_from
from-Chains zero i a b c = refl
from-Chains (suc n) i a b c =
    lex-Chains (compare (at a i) (at b i)) (compare (at b i) (at c i)) (compare (at a i) (at c i))
      (compare_from n (suc i) a b) (compare_from n (suc i) b c) (compare_from n (suc i) a c)
      (compare-Chains (at a i) (at b i) (at c i)) (from-Chains n (suc i) a b c)

at_past : (a : List ℕ) (i : ℕ) → length a ≤ i → at a i ≡ 0
at_past [] i h = refl
at_past (x ∷ xs) zero h = absurd (omega arith)
at_past (x ∷ xs) (suc i) h = at_past xs i (omega arith)

-- Rounds past the end of both cores find nothing.
from_past :
    (n i : ℕ) (a b : List ℕ) → length a ≤ i → length b ≤ i → compare_from n i a b ≡ Ordering.eq
unfolding compare_from
from_past zero i a b h k = refl
from_past (suc n) i a b h k =
    rw (at_past a i h, at_past b i k) (from_past n (suc i) a b (omega arith) (omega arith))

from_more :
    (m n i : ℕ) (a b : List ℕ)
    → length a ≤ i + m
    → length b ≤ i + m
    → m ≤ n
    → compare_from m i a b ≡ compare_from n i a b
unfolding compare_from
from_more zero n i a b h k l = sym (from_past n i a b (omega arith) (omega arith))
from_more (suc m) zero i a b h k l = absurd (omega arith)
from_more (suc m) (suc n) i a b h k l =
    ap (lex (compare (at a i) (at b i)))
      (from_more m n (suc i) a b (omega arith) (omega arith) (omega arith))

-- So any number of rounds that covers both cores gives Compare's answer.
pub core-rounds :
    (n : ℕ) (a b : List ℕ) → length a ≤ n → length b ≤ n → compare_core a b ≡ compare_from n 0 a b
unfolding compare_core
core-rounds n a b h k =
    from_more (longer (length a) (length b)) n 0 a b (ground arith) (ground arith) (ground arith)

core-turns : (a b : List ℕ) → compare_core b a ≡ swap (compare_core a b)
core-turns a b =
    let n = length a + length b in
    core-rounds n b a (omega arith) (omega arith)
    ∙ from-turns n 0 a b
    ∙ ap swap (sym (core-rounds n a b (omega arith) (omega arith)))

core-Chains : (a b c : List ℕ) → Chains (compare_core a b) (compare_core b c) (compare_core a c)
core-Chains a b c =
    let n = length a + (length b + length c) in
    rw
      (
        core-rounds n a b (omega arith) (omega arith),
        core-rounds n b c (omega arith) (omega arith),
        core-rounds n a c (omega arith) (omega arith),
      )
      (from-Chains n 0 a b c)

pub core-IsTotal : IsTotal compare_core
core-IsTotal = record { turns = core-turns; chains = core-Chains }
