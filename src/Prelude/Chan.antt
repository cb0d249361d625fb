-- ===== src/Prelude/Chan.antt =====
-- Go's buffered channel: the values waiting in it, oldest first, its capacity, and whether it has
-- been closed. A send on a closed channel, and a second close, panic: `none`.
use lp_700_server.Prelude.{
  ℕ, ◌≤◌, Bool, true, false, Option, none, some, List, [], ◌∷◌, ◌++◌, ltb, length, lengths,
  if◌then◌else◌,
}

pub record Chan {ℓ} (A : Type ℓ) : Type ℓ where
  pub items : List A
  pub cap : ℕ
  pub closed : Bool

module _ {ℓ} {A : Type ℓ} where
  -- `make(chan A, cap)`
  abbrev pub make : ℕ → Chan A
  make cap = record { items = []; cap = cap; closed = false }

  -- `select { case c <- x: default: }` on an open channel, and whether the value went in.
  abbrev pub offer : Chan A → A → Chan A × Bool
  offer c x =
      if ltb (length c.items) c.cap
      then (record c { items = c.items ++ x ∷ [] }, true)
      else (c, false)

  -- The same on a channel that may have been closed.
  abbrev pub try_send : Chan A → A → Option (Chan A × Bool)
  try_send c x = if c.closed then none else some (offer c x)

  abbrev pub close : Chan A → Option (Chan A)
  close c = if c.closed then none else some (record c { closed = true })

  -- A channel never holds more than its capacity.
  pub offer-le_cap :
      (c : Chan A) (x : A) → length c.items ≤ c.cap → length (offer c x).0.items ≤ c.cap
  offer-le_cap c x h = grind lengths
