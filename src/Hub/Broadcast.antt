-- ===== src/Hub/Broadcast.antt =====
-- Sends to the clients' channels (hub.go): what one send, and the fan-out, does to the store.
use mathlib.Core.Path.{fun_ext}
use lp_700_server.Prelude.{
  ℕ, ◌≤◌, ◌≡◌, refl, sym, ap, ◌∙◌, inl, inr, true, false, List, [], ◌∷◌, none, some, ◌==◌,
  if◌then◌else◌, length, length-append, arith, Bool-cases, All, ==_iff,
}
use lp_700_server.Prelude.Chan.{Chan, offer}
use lp_700_server.Hub.{Frame, Store, update, send_buffer, send_to, broadcast, mem, delete}

-- A client's channel as long as the hub has not closed it.
pub record IsOpen (ch : Chan Frame) : Type 0 where
  pub not_closed : ch.closed ≡ false
  pub cap_is : ch.cap ≡ send_buffer
  pub within : length ch.items ≤ send_buffer

abbrev pub AllOpen : Store → List ℕ → Type 0
AllOpen st cs = All (λ c. IsOpen (st c)) cs

abbrev pub Distinct : List ℕ → Type 0
Distinct [] = Unit {0}
Distinct (c ∷ cs) = (mem c cs ≡ false) × Distinct cs

pub offer-IsOpen : (ch : Chan Frame) (f : Frame) → IsOpen ch → IsOpen (offer ch f).0
offer-IsOpen ch f o = ground (arith, length-append ch.items (f ∷ []))

-- The store after a send to one client, and after a send to each of a list.
unfoldable pub delivered : Store → ℕ → Frame → Store
delivered st c f = update st c (offer (st c) f).0

unfoldable pub fan : Store → List ℕ → Frame → Store
fan st cs f = λ d. if mem d cs then (offer (st d) f).0 else st d

pub send_to-delivered :
    (st : Store) (c : ℕ) (f : Frame)
    → (st c).closed ≡ false
    → send_to st c f ≡ some (delivered st c f)
unfolding send_to delivered
send_to-delivered st c f h = rw h

-- A send on a channel that the hub has closed is a panic.
pub send_to-closed : (st : Store) (c : ℕ) (f : Frame) → (st c).closed ≡ true → send_to st c f ≡ none
unfolding send_to
send_to-closed st c f h = rw h

pub delivered-IsOpen :
    (st : Store) (c : ℕ) (f : Frame) (d : ℕ) → IsOpen (st d) → IsOpen (delivered st c f d)
unfolding delivered
delivered-IsOpen st c f d o = elim (Bool-cases (d == c)) [
  | inl e ↦ rw (e, ← (==_iff d c).0 e) (offer-IsOpen (st d) f o)
  | inr e ↦ rw e o
]

delivered-AllOpen :
    (st : Store) (c : ℕ) (f : Frame) (ds : List ℕ) → AllOpen st ds → AllOpen (delivered st c f) ds
delivered-AllOpen st c f [] o = tt
delivered-AllOpen st c f (d ∷ ds) o =
    (delivered-IsOpen st c f d o.0, delivered-AllOpen st c f ds o.1)

fan_cons_at :
    (st : Store) (c : ℕ) (cs : List ℕ) (f : Frame) (d : ℕ)
    → mem c cs ≡ false
    → fan (delivered st c f) cs f d ≡ fan st (c ∷ cs) f d
unfolding fan delivered mem
fan_cons_at st c cs f d h = elim (Bool-cases (d == c)) [
  | inl e ↦ let s = (==_iff d c).0 e in rw (e, s) (rw h)
  | inr e ↦ rw e
]

fan-nil : (st : Store) (f : Frame) → fan st [] f ≡ st
unfolding fan mem
fan-nil st f = refl

-- The fan-out to distinct clients with open channels offers the frame once to each of them, touches
-- no other channel, and does not panic.
pub broadcast-fan :
    (cs : List ℕ) (st : Store) (f : Frame)
    → AllOpen st cs
    → Distinct cs
    → broadcast cs st f ≡ some (fan st cs f)
unfolding broadcast
broadcast-fan [] st f o d = ap some (sym (fan-nil st f))
broadcast-fan (c ∷ cs) st f o d = rw (send_to-delivered st c f o.0.not_closed) (
    broadcast-fan cs (delivered st c f) f (delivered-AllOpen st c f cs o.1) d.1
    ∙ ap some (fun_ext (λ e. fan_cons_at st c cs f e d.0)))

pub fan-IsOpen :
    (st : Store) (cs : List ℕ) (f : Frame) (d : ℕ) → IsOpen (st d) → IsOpen (fan st cs f d)
unfolding fan
fan-IsOpen st cs f d o = elim (Bool-cases (mem d cs)) [
  | inl e ↦ rw e (offer-IsOpen (st d) f o)
  | inr e ↦ rw e o
]

pub AllOpen-map :
    (st st' : Store) (cs : List ℕ)
    → ((d : ℕ) → IsOpen (st d) → IsOpen (st' d))
    → AllOpen st cs
    → AllOpen st' cs
AllOpen-map st st' [] h o = tt
AllOpen-map st st' (c ∷ cs) h o = (h c o.0, AllOpen-map st st' cs h o.1)

pub AllOpen-mem :
    (st : Store) (cs : List ℕ) (c : ℕ) → AllOpen st cs → mem c cs ≡ true → IsOpen (st c)
unfolding mem
AllOpen-mem st [] c o h = cc
AllOpen-mem st (d ∷ ds) c o h = elim (Bool-cases (c == d)) [
  | inl e ↦ rw ((==_iff c d).0 e) o.0
  | inr e ↦ AllOpen-mem st ds c o.1 (rw e at h)
]

-- Without one client: the others are still distinct, no more than before, and their channels open.
pub mem-delete : (c d : ℕ) (cs : List ℕ) → mem d cs ≡ false → mem d (delete c cs) ≡ false
unfolding mem delete
mem-delete c d [] h = refl
mem-delete c d (e ∷ es) h = ground (arith, mem-delete c d es)

pub delete-Distinct : (c : ℕ) (cs : List ℕ) → Distinct cs → Distinct (delete c cs)
unfolding delete mem
delete-Distinct c [] d = tt
delete-Distinct c (e ∷ es) d = ground (arith, delete-Distinct c es d.1, mem-delete c e es d.0)

pub length-delete-le : (c : ℕ) (cs : List ℕ) → length (delete c cs) ≤ length cs
unfolding delete
length-delete-le c [] = omega arith
length-delete-le c (e ∷ es) = ground (arith, length-delete-le c es)

pub mem-delete_self : (c : ℕ) (cs : List ℕ) → mem c (delete c cs) ≡ false
unfolding mem delete
mem-delete_self c [] = refl
mem-delete_self c (e ∷ es) = ground (arith, mem-delete_self c es)

pub delete-AllOpen :
    (st : Store) (c : ℕ) (ch : Chan Frame) (cs : List ℕ)
    → AllOpen st cs
    → AllOpen (update st c ch) (delete c cs)
unfolding delete
delete-AllOpen st c ch [] o = tt
delete-AllOpen st c ch (e ∷ es) o = elim (Bool-cases (c == e)) [
  | inl same ↦ rw same (delete-AllOpen st c ch es o.1)
  | inr other ↦ rw other (rw (apart other) o.0, delete-AllOpen st c ch es o.1)
]
  where
    apart : (c == e) ≡ false → (e == c) ≡ false
    apart h = ground arith
