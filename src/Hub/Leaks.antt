-- ===== src/Hub/Leaks.antt =====
-- Where the end of a client overtakes its registration (hub.go, Run and readPump): the two go through
-- channels of their own, and `select` takes cases that are ready in any order.
use lp_700_server.Prelude.{
  ℕ, ◌<◌, ◌≡◌, refl, sym, ◌∙◌, Bool, true, false, List, [], ◌∷◌, Option, none, some, leb, ◌==◌,
  length, arith, ==_iff, if◌then◌else◌, subst,
}
use lp_700_server.Prelude.Chan.{Chan}
use lp_700_server.Hub.Broadcast.{IsOpen}
use lp_700_server.Hub.Cases.{Holds, Withstands, added, take_case-Holds, send_last-Holds}
use lp_700_server.Hub.Sound.{IsSound}
use lp_700_server.Hub.Invariant.{
  Case, register, unregister, resync, snapshot, scope_in, spectrum_in, heartbeat, take_case,
  Admissible, take_case-Keeps, some-eq,
}
use lp_700_server.Hub.{Hub, Store, bind, mem, delete, on_register, on_unregister}

-- The hub after some cases of its `select`, one after the other.
unfoldable pub run_cases : Hub → List Case → Option Hub
run_cases h [] = some h
run_cases h (e ∷ es) = bind (take_case h e) λ h'. run_cases h' es

-- Whether a case is the unregister of this client.
unfoldable pub is_unregister : ℕ → Case → Bool
is_unregister c (unregister d) = c == d
is_unregister c _ = false

-- What holds of a result, which has to be there.
abbrev pub After : {A : Type 0} → Option A → (A → Type 0) → Type 0
After none P = ⊥
After (some x) P = P x

-- A run that meets what the hub relies on, and never unregisters the client.
abbrev pub IsRunWithout : ℕ → List Case → Hub → Type 0
IsRunWithout c [] h = Unit {0}
IsRunWithout c (e ∷ es) h =
    Admissible h e × (is_unregister c e ≡ false) × After (take_case h e) (IsRunWithout c es)

-- The client is in the map, where the case did not panic.
abbrev IsIn : ℕ → List ℕ → Store → Chan ℕ → Type 0
IsIn c cs st q = mem c cs ≡ true

abbrev pub StillIn : ℕ → Option Hub → Type 0
StillIn c = Holds (IsIn c) (λ cs st q d f m. m)

mem-added : (c d : ℕ) (cs : List ℕ) → mem c cs ≡ true → mem c (added d cs) ≡ true
unfolding mem
mem-added c d cs m = ground (arith, m)

mem-delete :
    (c d : ℕ) (cs : List ℕ) → (c == d) ≡ false → mem c cs ≡ true → mem c (delete d cs) ≡ true
unfolding mem delete
mem-delete c d [] n m = m
mem-delete c d (x ∷ xs) n m = ground (arith, mem-delete c d xs n)

IsIn-Withstands :
    (h : Hub) (c : ℕ) (e : Case)
    → is_unregister c e ≡ false
    → mem c h.clients ≡ true
    → Withstands (IsIn c) (λ cs st q d f m. m) h e
unfolding is_unregister
IsIn-Withstands h c (register d) n m = (m, mem-added c d h.clients m)
IsIn-Withstands h c (unregister d) n m = λ known. mem-delete c d h.clients n m
IsIn-Withstands h c (resync d) n m = tt
IsIn-Withstands h c (snapshot now s) n m = tt
IsIn-Withstands h c (scope_in s) n m = tt
IsIn-Withstands h c (spectrum_in s) n m = tt
IsIn-Withstands h c (heartbeat now) n m = tt

-- No case but its own unregister takes a client out of the map.
take_case-StillIn :
    (h : Hub) (c : ℕ) (e : Case)
    → is_unregister c e ≡ false
    → mem c h.clients ≡ true
    → StillIn c (take_case h e)
take_case-StillIn h c e n m =
    take_case-Holds (IsIn c) (λ cs st q d f p. p) h e m (IsIn-Withstands h c e n m)

-- The hub is still there and sound, with the client in its map.
abbrev pub Stuck : ℕ → Option Hub → Type 0
Stuck c r = (h' : Hub) × (r ≡ some h') × IsSound h' × (mem c h'.clients ≡ true)

-- A registered client stays, whatever else happens.
stays :
    (c : ℕ) (es : List Case) (h : Hub)
    → IsSound h
    → mem c h.clients ≡ true
    → IsRunWithout c es h
    → Stuck c (run_cases h es)
unfolding run_cases
stays c [] h v m w = (h, refl, v, m)
stays c (e ∷ es) h v m (a, n, w) =
    let (h', p, v') = take_case-Keeps h e v a in
    let m' : StillIn c (some h') = subst (StillIn c) p (take_case-StillIn h c e n m) in
    let w' : After (some h') (IsRunWithout c es) = subst (λ r. After r (IsRunWithout c es)) p w in
    rw p (stays c es h' v' m' w')

-- A registration on a hub with room puts the client in the map.
registered-StillIn :
    (h : Hub) (c : ℕ) → length h.clients < h.options.max_clients → StillIn c (on_register h c)
unfolding on_register
registered-StillIn h c room = rw full (send_last-Holds (IsIn c) (λ cs st q d f p. p) _ c in_map)
  where
    full : leb h.options.max_clients (length h.clients) ≡ false
    full = ground arith

    in_map : mem c (if mem c h.clients then h.clients else c ∷ h.clients) ≡ true
    in_map = unfold mem in ground (arith, ==_iff c c)

-- On a sound hub with room, where the unregister of a fresh client is taken before its registration,
-- the client is in the map for good: after any further cases that the hub can rely on, its own
-- unregister (which readPump sends once) not among them, the hub is sound and still has the client.
pub unregister_first_leaks :
    (h h1 : Hub) (c : ℕ) (es : List Case)
    → IsSound h
    → mem c h.clients ≡ false
    → IsOpen (h.sends c)
    → length h.clients < h.options.max_clients
    → take_case h (register c) ≡ some h1
    → IsRunWithout c es h1
    → Stuck c (run_cases h (unregister c ∷ register c ∷ es))
unfolding run_cases
unregister_first_leaks h h1 c es v fresh o room taken w =
    let (h2, p, v2) = take_case-Keeps h (register c) v (fresh, o) in
    let v1 : IsSound h1 = subst IsSound (some-eq (sym p ∙ taken)) v2 in
    let m1 : StillIn c (some h1) =
      subst (StillIn c) taken (unfold take_case in registered-StillIn h c room) in
    rw passed (rw taken (stays c es h1 v1 m1 w))
  where
    passed : take_case h (unregister c) ≡ some h
    passed = unfold take_case on_unregister in rw fresh refl
