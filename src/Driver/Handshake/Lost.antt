-- ===== src/Driver/Handshake/Lost.antt =====
-- A caller whose request another caller has withdrawn.
use haier_controller.Prelude.{◌≡◌, refl, ◌⊎◌, inl, inr, Bool, true, false, arith}
use haier_controller.Driver.Handshake.{
  Caller, outside, has_reset, waits, sends, timed_out, Sniffer, gives, Shared, set_pending,
  set_transmitting, Move, resets, expires, ends, leaves, Turn, sleeps, enters, skips, stores,
  passes, finds, to_first, to_second, keeps, wakes, System, Step, first, second, sniffs, Steps,
  here, then_, Reach,
}
use haier_controller.Driver.Handshake.Exclusion.{InvOf, Reach-Inv}

abbrev pub giving : Sniffer → Bool
giving gives = true
giving _ = false

-- The first caller waits, nothing is pending, and the sniffer is not about to give the semaphore.
pub record IsLost (s : System) : Type 0 where
  pub waits_on : s.one ≡ waits
  pub left : s.two ≡ outside
  pub asked : s.shared.request.pending ≡ false
  pub kept : giving s.sniffer ≡ false

-- No step serves such a caller: it stays lost, or times out, unless the other one calls again.
abbrev pub Unserved : System → Type 0
Unserved t = IsLost t ⊎ ((t.one ≡ timed_out) ⊎ (t.two ≡ has_reset))

abbrev pub joined : Shared → Sniffer → Caller → Caller → System
joined m n a b = record { shared = m; sniffer = n; one = a; two = b }

first-Unserved :
    {s t : Shared} {n : Sniffer} {a b a' b' : Caller}
    → Move s b a t a' b'
    → IsLost (joined s n a b)
    → Unserved (joined t n a' b')
first-Unserved expires l = inr (inl refl)
first-Unserved m l = absurd (ground (arith, l))

second-Unserved :
    {s t : Shared} {n : Sniffer} {a b a' b' : Caller}
    → Move s a b t b' a'
    → IsLost (joined s n a b)
    → Unserved (joined t n a' b')
second-Unserved (resets e) l = inr (inr refl)
second-Unserved m l = absurd (ground (arith, l))

sniffs-Unserved :
    {s t : Shared} {n m : Sniffer} {a b a' b' : Caller}
    → Turn s a b n t m a' b'
    → IsLost (joined s n a b)
    → Unserved (joined t m a' b')
sniffs-Unserved (sleeps e) l = inl (ground (arith, l))
sniffs-Unserved (enters e) l = inl (ground (arith, l))
sniffs-Unserved skips l = inl (ground (arith, l))
sniffs-Unserved stores l = inl (ground (arith, l))
sniffs-Unserved (passes e) l = inl (ground (arith, l))
sniffs-Unserved (finds e) l = absurd (ground (arith, l))
sniffs-Unserved (to_first e) l = absurd (ground (arith, l))
sniffs-Unserved (to_second e) l = absurd (ground (arith, l))
sniffs-Unserved (keeps e) l = absurd (ground (arith, l))
sniffs-Unserved (wakes e) l = inl (ground (arith, l))

pub IsLost-Unserved : {s t : System} → IsLost s → Step s t → Unserved t
IsLost-Unserved l (first m) = first-Unserved m l
IsLost-Unserved l (second m) = second-Unserved m l
IsLost-Unserved l (sniffs t) = sniffs-Unserved t l

-- The end of the other caller's write.
abbrev pub finished : System → System
finished s = joined (set_transmitting false (set_pending false s.shared)) s.sniffer s.one outside

finishes :
    (m : Shared) (n : Sniffer) (a b : Caller)
    → b ≡ sends
    → Steps (joined m n a b) (finished (joined m n a b))
finishes m n a sends e = then_ (then_ here (second ends)) (second leaves)
finishes m n a b e = absurd (ground (arith, e))

finished-IsLost : {s : System} → InvOf s → s.one ≡ waits → s.two ≡ sends → IsLost (finished s)
finished-IsLost {s} i ea eb = ground (arith, i)

-- In every state that can be come to in which the first caller waits while the second one is on
-- the bus, the two steps that end the second one's write leave the first one waiting with nothing
-- pending; after any next step it is still so, or has timed out, unless the second one calls
-- write_pump again.
pub sends-Unserved :
    {s t : System}
    → Reach s
    → s.one ≡ waits
    → s.two ≡ sends
    → Step (finished s) t
    → Steps s (finished s) × IsLost (finished s) × Unserved t
sends-Unserved {s} r ea eb st =
    let lost = finished-IsLost (Reach-Inv r) ea eb in
    (finishes s.shared s.sniffer s.one s.two eb, lost, IsLost-Unserved lost st)
