-- ===== src/Hub/Interleaved/Waiting.antt =====
-- The clients whose registration waits in the hub's channel (hub.go, ServeWS and Run).
use lp_700_server.Prelude.{
  ℕ, ◌≡◌, refl, sym, inl, inr, true, false, List, [], ◌∷◌, ◌++◌, ◌==◌, ltb, length, arith,
  Bool-cases, ==_iff, All, All-imp, All-append, subst, some,
}
use lp_700_server.Prelude.Chan.{Chan, make}
use lp_700_server.Hub.{Hub, Store, Frame, update, mem, delete, send_buffer}
use lp_700_server.Hub.Broadcast.{IsOpen, Distinct, delivered, delivered-IsOpen, mem-delete}
use lp_700_server.Hub.Messages.{serve_ws}
use lp_700_server.Hub.Cases.{shut, added, Holds, Withstands, take_case-Holds}
use lp_700_server.Hub.Invariant.{
  Case, register, unregister, resync, snapshot, scope_in, spectrum_in, heartbeat, take_case,
}

-- None of these clients is in the map, and their channels are open.
abbrev pub AllFresh : List ℕ → Store → List ℕ → Type 0
AllFresh cs st = All (λ d. (mem d cs ≡ false) × IsOpen (st d))

-- The clients in the channel are fresh, each of them once.
abbrev pub Waiting : Hub → Type 0
Waiting h = Distinct h.registers.items × AllFresh h.clients h.sends h.registers.items

pub AllFresh-sends :
    (cs : List ℕ) (st st' : Store) (xs : List ℕ)
    → ((d : ℕ) → IsOpen (st d) → IsOpen (st' d))
    → AllFresh cs st xs
    → AllFresh cs st' xs
AllFresh-sends cs st st' xs k = All-imp (λ d x. (x.0, k d x.1)) xs

mem_apart :
    (d x : ℕ) (xs : List ℕ) → mem d (x ∷ xs) ≡ false → ((x == d) ≡ false) × (mem d xs ≡ false)
unfolding mem
mem_apart d x xs h = (ground arith, ground arith)

pub update-AllFresh :
    (cs : List ℕ) (st : Store) (d : ℕ) (ch : Chan Frame) (xs : List ℕ)
    → mem d xs ≡ false
    → AllFresh cs st xs
    → AllFresh cs (update st d ch) xs
update-AllFresh cs st d ch [] n a = tt
update-AllFresh cs st d ch (x ∷ xs) n ((m, o), a) =
    let (apart, rest) = mem_apart d x xs n in
    ((m, rw apart o), update-AllFresh cs st d ch xs rest a)

added-AllFresh :
    (cs : List ℕ) (st : Store) (d : ℕ) (xs : List ℕ)
    → mem d xs ≡ false
    → AllFresh cs st xs
    → AllFresh (added d cs) st xs
added-AllFresh cs st d [] n a = tt
added-AllFresh cs st d (x ∷ xs) n ((m, o), a) =
    let (apart, rest) = mem_apart d x xs n in
    ((not_added apart m, o), added-AllFresh cs st d xs rest a)
  where
    not_added : (x == d) ≡ false → mem x cs ≡ false → mem x (added d cs) ≡ false
    not_added u v = unfold mem in ground (arith, u, v)

other_than_member : (x d : ℕ) (cs : List ℕ) → mem x cs ≡ false → mem d cs ≡ true → (x == d) ≡ false
other_than_member x d cs u v = elim (Bool-cases (x == d)) [
  | inr e ↦ e
  | inl e ↦ absurd (cc (u, v, (==_iff x d).0 e))
]

gone-AllFresh :
    (cs : List ℕ) (st : Store) (d : ℕ) (xs : List ℕ)
    → mem d cs ≡ true
    → AllFresh cs st xs
    → AllFresh (delete d cs) (shut st d) xs
gone-AllFresh cs st d [] k a = tt
gone-AllFresh cs st d (x ∷ xs) k ((m, o), a) =
    ((mem-delete d x cs m, rw (other_than_member x d cs m k) o), gone-AllFresh cs st d xs k a)

-- The registrations that wait behind the case taken.
abbrev WaitsFor : Chan ℕ → List ℕ → Store → Chan ℕ → Type 0
WaitsFor q cs st rg = (rg ≡ q) × AllFresh cs st q.items

WaitsFor-sent :
    (q : Chan ℕ) (cs : List ℕ) (st : Store) (rg : Chan ℕ) (d : ℕ) (f : Frame)
    → WaitsFor q cs st rg
    → WaitsFor q cs (delivered st d f) rg
WaitsFor-sent q cs st rg d f (e, a) =
    (e, AllFresh-sends cs st _ q.items (delivered-IsOpen st d f) a)

-- A client that is about to be registered is not among those that wait behind it.
abbrev pub IsFirst : Hub → Case → Type 0
IsFirst h (register d) = mem d h.registers.items ≡ false
IsFirst h _ = Unit {0}

WaitsFor-Withstands :
    (h : Hub) (e : Case)
    → AllFresh h.clients h.sends h.registers.items
    → IsFirst h e
    → Withstands (WaitsFor h.registers) (WaitsFor-sent h.registers) h e
WaitsFor-Withstands h (register d) a n = (
  (refl, update-AllFresh h.clients h.sends d _ h.registers.items n a),
  (refl, added-AllFresh h.clients h.sends d h.registers.items n a),
)
WaitsFor-Withstands h (unregister d) a n =
    λ known. (refl, gone-AllFresh h.clients h.sends d h.registers.items known a)
WaitsFor-Withstands h (resync d) a n = tt
WaitsFor-Withstands h (snapshot now s) a n = tt
WaitsFor-Withstands h (scope_in s) a n = tt
WaitsFor-Withstands h (spectrum_in s) a n = tt
WaitsFor-Withstands h (heartbeat now) a n = tt

-- A case leaves the clients that wait as they are.
pub take_case-Waiting :
    (h h' : Hub) (e : Case) → Waiting h → IsFirst h e → take_case h e ≡ some h' → Waiting h'
take_case-Waiting h h' e (d, a) n p = settle (
    subst (Holds (WaitsFor h.registers) (WaitsFor-sent h.registers)) p (
      take_case-Holds (WaitsFor h.registers) (WaitsFor-sent h.registers) h e (refl, a)
        (WaitsFor-Withstands h e a n)))
  where
    settle : WaitsFor h.registers h'.clients h'.sends h'.registers → Waiting h'
    settle w = (
      subst (λ q. Distinct q.items) (sym w.0) d,
      subst (λ q. AllFresh h'.clients h'.sends q.items) (sym w.0) w.1,
    )

mem-snoc :
    (x c : ℕ) (xs : List ℕ) → (x == c) ≡ false → mem x xs ≡ false → mem x (xs ++ c ∷ []) ≡ false
unfolding mem
mem-snoc x c [] n m = ground (arith, n)
mem-snoc x c (y ∷ ys) n m = ground (arith, mem-snoc x c ys n)

Distinct-snoc : (xs : List ℕ) (c : ℕ) → Distinct xs → mem c xs ≡ false → Distinct (xs ++ c ∷ [])
Distinct-snoc [] c d n = (unfold mem in refl, tt)
Distinct-snoc (x ∷ xs) c (m, d) n =
    let (apart, rest) = mem_apart c x xs n in (mem-snoc x c xs apart m, Distinct-snoc xs c d rest)

-- ServeWS puts a new client behind those that wait.
pub served-Waiting :
    (h : Hub) (c : ℕ)
    → Waiting h
    → mem c h.clients ≡ false
    → mem c h.registers.items ≡ false
    → Waiting (serve_ws h c).0
unfolding serve_ws
served-Waiting h c (d, a) out n =
    elim (Bool-cases (ltb (length h.registers.items) h.registers.cap)) [
      | inr full ↦ rw full (d, kept)
      | inl room ↦ rw room (
        Distinct-snoc h.registers.items c d n,
        All-append _ h.registers.items (c ∷ []) ((out, own), tt) kept,
      )
    ]
  where
    kept : AllFresh h.clients (update h.sends c (make send_buffer)) h.registers.items
    kept = update-AllFresh h.clients h.sends c (make send_buffer) h.registers.items n a

    own : IsOpen (update h.sends c (make send_buffer) c)
    own =
        rw ((==_iff c c).1 refl) (record { not_closed = refl; cap_is = refl; within = omega arith })
