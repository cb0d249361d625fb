-- ===== src/Update/Compare/Chain.antt =====
-- Three-way comparisons that are total preorders, and the ways to build them (update.go, Compare).
use lp_700_server.Prelude.{ℕ, ◌≡◌, refl, compare, Ordering, arith}
use lp_700_server.Update.Compare.{lex}

abbrev pub swap : Ordering → Ordering
swap Ordering.lt = Ordering.gt
swap Ordering.eq = Ordering.eq
swap Ordering.gt = Ordering.lt

-- What two comparisons in a row say of the comparison of the ends.
abbrev pub Chains : Ordering → Ordering → Ordering → Type 0
Chains Ordering.lt Ordering.lt o = o ≡ Ordering.lt
Chains Ordering.lt Ordering.eq o = o ≡ Ordering.lt
Chains Ordering.lt Ordering.gt o = Unit
Chains Ordering.eq p o = o ≡ p
Chains Ordering.gt Ordering.lt o = Unit
Chains Ordering.gt Ordering.eq o = o ≡ Ordering.gt
Chains Ordering.gt Ordering.gt o = o ≡ Ordering.gt

-- `cmp` is a total preorder: turning the arguments round turns the answer round, and answers chain.
pub record IsTotal {ℓ} {A : Type ℓ} (cmp : A → A → Ordering) : Type ℓ where
  pub turns : (a b : A) → cmp b a ≡ swap (cmp a b)
  pub chains : (a b c : A) → Chains (cmp a b) (cmp b c) (cmp a c)

pub compare-turns : (a b : ℕ) → compare b a ≡ swap (compare a b)
compare-turns a b = ground arith

pub compare-Chains : (a b c : ℕ) → Chains (compare a b) (compare b c) (compare a c)
compare-Chains a b c = ground arith

pub lex-turns : (o o' p p' : Ordering) → o' ≡ swap o → p' ≡ swap p → lex o' p' ≡ swap (lex o p)
lex-turns Ordering.lt o' p p' h k = rw h
lex-turns Ordering.eq o' p p' h k = rw (h, k)
lex-turns Ordering.gt o' p p' h k = rw h

-- A strict step is kept by whatever the other step says.
pub lt_first : (o : Ordering) → Chains Ordering.lt o Ordering.lt
lt_first Ordering.lt = refl
lt_first Ordering.eq = refl
lt_first Ordering.gt = tt

pub lt_last : (o : Ordering) → Chains o Ordering.lt Ordering.lt
lt_last Ordering.lt = refl
lt_last Ordering.eq = refl
lt_last Ordering.gt = tt

pub gt_first : (o : Ordering) → Chains Ordering.gt o Ordering.gt
gt_first Ordering.lt = tt
gt_first Ordering.eq = refl
gt_first Ordering.gt = refl

pub gt_last : (o : Ordering) → Chains o Ordering.gt Ordering.gt
gt_last Ordering.lt = tt
gt_last Ordering.eq = refl
gt_last Ordering.gt = refl

pub lex-Chains :
    (o1 o2 o3 p1 p2 p3 : Ordering)
    → Chains o1 o2 o3
    → Chains p1 p2 p3
    → Chains (lex o1 p1) (lex o2 p2) (lex o3 p3)
lex-Chains Ordering.lt Ordering.lt o3 p1 p2 p3 h k = rw h
lex-Chains Ordering.lt Ordering.eq o3 p1 p2 p3 h k = rw h (lt_first p2)
lex-Chains Ordering.lt Ordering.gt o3 p1 p2 p3 h k = tt
lex-Chains Ordering.eq Ordering.lt o3 p1 p2 p3 h k = rw h (lt_last p1)
lex-Chains Ordering.eq Ordering.eq o3 p1 p2 p3 h k = rw h k
lex-Chains Ordering.eq Ordering.gt o3 p1 p2 p3 h k = rw h (gt_last p1)
lex-Chains Ordering.gt Ordering.lt o3 p1 p2 p3 h k = tt
lex-Chains Ordering.gt Ordering.eq o3 p1 p2 p3 h k = rw h (gt_first p2)
lex-Chains Ordering.gt Ordering.gt o3 p1 p2 p3 h k = rw h

-- A comparison that is total stays so when it is taken of a part of the values.
pub IsTotal-of {ℓ κ} :
    {A : Type ℓ} {B : Type κ} (f : A → B) (cmp : B → B → Ordering)
    → IsTotal cmp
    → IsTotal (λ x y. cmp (f x) (f y))
IsTotal-of f cmp t = record {
  turns = λ a b. t.turns (f a) (f b);
  chains = λ a b c. t.chains (f a) (f b) (f c);
}

-- One comparison after the other.
pub IsTotal-lex {ℓ} :
    {A : Type ℓ} (f g : A → A → Ordering)
    → IsTotal f
    → IsTotal g
    → IsTotal (λ x y. lex (f x y) (g x y))
IsTotal-lex f g s t = record {
  turns = λ a b. lex-turns (f a b) (f b a) (g a b) (g b a) (s.turns a b) (t.turns a b);
  chains = λ a b c.
      lex-Chains (f a b) (f b c) (f a c) (g a b) (g b c) (g a c) (s.chains a b c) (t.chains a b c);
}

pub compare-IsTotal : IsTotal compare
compare-IsTotal = record { turns = compare-turns; chains = compare-Chains }
