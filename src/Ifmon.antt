-- ===== src/Ifmon.antt =====
-- lib/ifmon/netlink.go: when the interface is said to be up again.
use mathlib.Core.Path.{subst}
use psa_dhcp.Base.{
  ℕ, ◌+◌, ◌*◌, ◌/◌, ◌%◌, ◌==◌, ◌≡◌, refl, sym, ap, ◌&&◌, not, Bool, true, false, if◌then◌else◌,
  List, [], ◌∷◌, Bool-cases, inl, inr, arith,
}

-- `syscall.IFF_RUNNING`.
abbrev pub iff_running : ℕ
iff_running = 0x40

-- `flags & syscall.IFF_RUNNING`.
abbrev pub running_flag : ℕ → ℕ
running_flag flags = flags / iff_running % 2 * iff_running

-- A message of netlink: the flags and the index of an interface.
pub record LinkUpdate : Type 0 where
  pub flags : ℕ
  pub index : ℕ

-- The loop of `MonitorChanges`: how many events it sends for the messages, in the state `old`.
unfoldable pub monitor : (index old : ℕ) → List LinkUpdate → ℕ
monitor index old [] = 0
monitor index old (msg ∷ msgs) =
    let flags = running_flag msg.flags in
    let changed = monitor index flags msgs in
    let same = monitor index old msgs in
    if not (flags == old) && msg.index == index
    then if not (flags == 0) then 1 + changed else changed
    else same

unfoldable pub monitor_changes : (index : ℕ) → List LinkUpdate → ℕ
unfolding monitor
monitor_changes index msgs = monitor index iff_running msgs

-- Whether the interface runs, in each of the messages that are about it.
abbrev pub is_running : ℕ → Bool
is_running flags = not (running_flag flags == 0)

abbrev pub history : (index : ℕ) → List LinkUpdate → List Bool
history index [] = []
history index (msg ∷ msgs) =
    if msg.index == index then is_running msg.flags ∷ history index msgs else history index msgs

-- The changes from not running to running.
abbrev pub rises : Bool → List Bool → ℕ
rises was [] = 0
rises false (true ∷ later) = 1 + rises true later
rises true (true ∷ later) = rises true later
rises was (false ∷ later) = rises false later

-- `oldState` stands for whether the interface was running.
abbrev pub Stands : ℕ → Bool → Type 0
Stands old was = old ≡ (if was then iff_running else 0)

running_flag-Stands : (flags : ℕ) → Stands (running_flag flags) (is_running flags)
running_flag-Stands flags = ground arith

abbrev value : Bool → ℕ
value b = if b then iff_running else 0

-- One message about the interface itself: `f` is its flag, and `old` the state.
module _ (events : ℕ → ℕ) (rest : List Bool)
    (later : (b : Bool) → events (value b) ≡ rises b rest) where
  abbrev Counts : ℕ → ℕ → Bool → Type 0
  Counts f old was =
      (if not (f == old) && true
        then if not (f == 0) then 1 + events f else events f
        else events old)
      ≡ rises was (not (f == 0) ∷ rest)

  Counts-value : (b was : Bool) → Counts (value b) (value was) was
  Counts-value true true = later true
  Counts-value true false = ap (λ n. 1 + n) (later true)
  Counts-value false true = later false
  Counts-value false false = later false

  Counts-running_flag :
      (flags old : ℕ) (was : Bool) → Stands old was → Counts (running_flag flags) old was
  Counts-running_flag flags old was h =
      subst (λ f. Counts f old was) (sym (running_flag-Stands flags))
        (subst (λ o. Counts (value (is_running flags)) o was) (sym h)
          (Counts-value (is_running flags) was))

monitor-rises :
    (index : ℕ) (msgs : List LinkUpdate) (old : ℕ) (was : Bool)
    → Stands old was
    → monitor index old msgs ≡ rises was (history index msgs)
unfolding monitor
monitor-rises index [] old was h = refl
monitor-rises index (msg ∷ msgs) old was h = elim (Bool-cases (msg.index == index)) [
  | inr other ↦ elim (Bool-cases (running_flag msg.flags == old)) [
    | inl e ↦ rw (other, history, e, monitor) (monitor-rises index msgs old was h)
    | inr e ↦ rw (other, history, e, monitor) (monitor-rises index msgs old was h)
  ]
  | inl mine ↦
      rw (mine, history, monitor)
        (Counts-running_flag (λ o. monitor index o msgs) (history index msgs)
          (λ b. monitor-rises index msgs (value b) b refl) msg.flags old was h)
]

-- `MonitorChanges` sends as many events as there are changes from not running to running in what
-- the messages say of its own interface, which is taken to run at first; messages that are about
-- other interfaces change nothing.
pub monitor_changes-rises :
    (index : ℕ) (msgs : List LinkUpdate)
    → monitor_changes index msgs ≡ rises true (history index msgs)
unfolding monitor_changes
monitor_changes-rises index msgs = monitor-rises index msgs iff_running true refl
