-- ===== src/Hub/Shutdown.antt =====
-- The end of the hub (hub.go, Run and its closeAll).
use mathlib.Core.Path.{fun_ext}
use lp_700_server.Prelude.{
  ℕ, ◌≡◌, refl, sym, ap, ◌∙◌, inl, inr, true, false, List, [], ◌∷◌, some, ◌==◌, if◌then◌else◌,
  Bool-cases, ==_iff,
}
use lp_700_server.Hub.Broadcast.{AllOpen, Distinct}
use lp_700_server.Hub.Sound.{IsSound, close_send-open, update-AllOpen}
use lp_700_server.Hub.{Hub, Store, update, mem, close_all, on_done}

-- One channel closed, and every channel of a list.
unfoldable pub closed : Store → ℕ → Store
closed st c = update st c (record (st c) { closed = true })

unfoldable pub all_closed : Store → List ℕ → Store
all_closed st cs = λ d. if mem d cs then record (st d) { closed = true } else st d

all_closed-nil : (st : Store) → all_closed st [] ≡ st
unfolding all_closed mem
all_closed-nil st = refl

all_closed_cons_at :
    (st : Store) (c : ℕ) (cs : List ℕ) (d : ℕ)
    → mem c cs ≡ false
    → all_closed (closed st c) cs d ≡ all_closed st (c ∷ cs) d
unfolding all_closed closed mem
all_closed_cons_at st c cs d h = elim (Bool-cases (d == c)) [
  | inl e ↦ let s = (==_iff d c).0 e in rw (e, s) (rw h)
  | inr e ↦ rw e
]

close_all-all_closed :
    (cs : List ℕ) (st : Store)
    → AllOpen st cs
    → Distinct cs
    → close_all cs st ≡ some (all_closed st cs)
unfolding close_all
close_all-all_closed [] st o d = ap some (sym (all_closed-nil st))
close_all-all_closed (c ∷ cs) st o d = rw (close_send-open st c o.0) (
    close_all-all_closed cs (update st c (record (st c) { closed = true }))
      (update-AllOpen st c _ cs d.0 o.1) d.1
    ∙ ap some (fun_ext (λ e. all_closed_at e)))
  where
    all_closed_at :
        (e : ℕ)
        → all_closed (update st c (record (st c) { closed = true })) cs e ≡ all_closed st (c ∷ cs) e
    all_closed_at e = unfold closed in all_closed_cons_at st c cs e d.0

-- On a sound hub the end of the context closes the channel of every client, without a panic; what
-- waits in the channels stays there, and no other channel is touched.
pub on_done-all_closed :
    (h : Hub) → IsSound h → on_done h ≡ some (record h { sends = all_closed h.sends h.clients })
unfolding on_done
on_done-all_closed h v = rw (close_all-all_closed h.clients h.sends v.all_open v.distinct)
