-- ===== src/Client/Send.antt =====
-- lib/client/dclient/netio.go: how a request is sent again and again. What `arpping.Ping` and
-- `rand.Int63` return, and when the context ends, are arguments.
use psa_dhcp.Base.{
  ℕ, zero, suc, ◌+◌, ◌*◌, ◌%◌, ◌<◌, ◌≤◌, ltb, ◌&&◌, not, Bool, if◌then◌else◌, Option, none, some,
  List, [], ◌∷◌, arith, Bool-cases, inl, inr,
}
use psa_dhcp.Net.{Ip, HardwareAddr, is_nil}
use psa_dhcp.Dhcpmsg.Options.{second}
use psa_dhcp.Rsocks.{Sockaddr, ip_send_sock, unicast_send_sock}

-- The loop of `sendSocket`, over the attempts that are left.
unfoldable pub ping_loop :
    (ping : ℕ → Option HardwareAddr) → (cancelled : ℕ → Bool) → List ℕ → Option HardwareAddr
ping_loop ping cancelled [] = none
ping_loop ping cancelled (i ∷ rest) =
    let later = ping_loop ping cancelled rest in
    if cancelled i then none else elim (ping i) [ some hwaddr ↦ some hwaddr | none ↦ later ]

unfoldable pub send_socket :
    (ifindex : ℕ)
    → (ping : ℕ → Option HardwareAddr) → (cancelled : ℕ → Bool) → (src dst : Ip) → Sockaddr
unfolding ping_loop unicast_send_sock ip_send_sock
send_socket ifindex ping cancelled src dst =
    if not (is_nil src) && not (is_nil dst)
    then elim (ping_loop ping cancelled (0 ∷ 1 ∷ 2 ∷ 3 ∷ 4 ∷ [])) [
      | some hwaddr ↦ unicast_send_sock ifindex hwaddr
      | none ↦ ip_send_sock ifindex
    ]
    else ip_send_sock ifindex

abbrev pub barrier : ℕ
barrier = 100 * second

abbrev pub first_delay : ℕ
first_delay = 700_000_000

-- The delay after a write, in nanoseconds; `r` is `rand.Int63()`.
unfoldable pub next_delay : (r delay : ℕ) → ℕ
next_delay r delay = if ltb delay barrier then delay + r % (1 + delay) else delay

-- The delays of `sendMessage`, one after each write.
unfoldable pub delays : (rand : ℕ → ℕ) → (writes i delay : ℕ) → List ℕ
unfolding next_delay
delays rand zero i delay = []
delays rand (suc writes) i delay =
    let d = next_delay (rand i) delay in d ∷ delays rand writes (i + 1) d

unfoldable pub send_message : (rand : ℕ → ℕ) → (writes : ℕ) → List ℕ
unfolding delays
send_message rand writes = delays rand writes 0 first_delay

-- Each delay is at least the one before it and below twice the barrier.
pub data IsPaced : (last : ℕ) → List ℕ → Type 0 where
  done : {last : ℕ} → IsPaced last []
  wait :
      {last d : ℕ} {later : List ℕ}
      → last ≤ d
      → d < 2 * barrier
      → IsPaced d later
      → IsPaced last (d ∷ later)

next_delay-bounds :
    (r delay : ℕ)
    → delay < 2 * barrier
    → (delay ≤ next_delay r delay) × (next_delay r delay < 2 * barrier)
unfolding next_delay
next_delay-bounds r delay h = elim (Bool-cases (ltb delay barrier)) [
  | inl e ↦ rw e (omega arith, more (ground arith))
  | inr e ↦ rw e (omega arith, h)
]
  where
    more : delay < barrier → delay + r % (1 + delay) < 2 * barrier
    more e = omega arith

delays-IsPaced :
    (rand : ℕ → ℕ) (writes i delay : ℕ)
    → delay < 2 * barrier
    → IsPaced delay (delays rand writes i delay)
unfolding delays
delays-IsPaced rand zero i delay h = done
delays-IsPaced rand (suc writes) i delay h =
    let (lo, hi) = next_delay-bounds (rand i) delay h in
    wait lo hi (delays-IsPaced rand writes (i + 1) (next_delay (rand i) delay) hi)

-- Whatever the random numbers, the delays between the writes of a request never shrink, the first
-- is at least 0.7 seconds, and all are below 200 seconds, so they do not overflow.
pub send_message-IsPaced :
    (rand : ℕ → ℕ) (writes : ℕ) → IsPaced first_delay (send_message rand writes)
unfolding send_message
send_message-IsPaced rand writes = delays-IsPaced rand writes 0 first_delay (omega arith)
