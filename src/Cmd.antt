-- ===== src/Cmd.antt =====
-- cmd/psa-dhcpc.go and cmd/psa-dhcpd.go: what the two programs do for their flags. Package `flag`
-- gives the flags; the interfaces of the system and the reader of the configuration are parameters.
use mathlib.Core.Path.{subst}
use psa_dhcp.Base.{
  ℕ, ◌==◌, ◌≡◌, ◌≢◌, refl, ap, ◌∙◌, not, Bool, true, if◌then◌else◌, Option, none, some, List, [],
  ◌∷◌, ◌++◌, Result, ok, err, Bool-cases, Option-cases, inl, inr, All, ◌||◌,
}
use psa_dhcp.Base.Text.{codes, is_alnum}
use psa_dhcp.Net.{Ip, is_nil}
use psa_dhcp.Client.Dclient.{Ifconfig}
use psa_dhcp.Client.Callback.{Command, parse_script_args, cb_handler}
use psa_dhcp.Libif.{Interface}

pub record ClientFlags : Type 0 where
  pub ifname : List ℕ
  pub script : List ℕ
  pub route : Bool
  pub syshook : Bool
  pub resolvconf : Bool

-- What `main` of the client comes to: it ends with an error, it runs the hook of the script, or it
-- runs a client.
pub data ClientAction : Type 0 where
  exclusive_flags no_ifname no_interface : ClientAction
  run_hook : ClientAction
  run_client : Interface → (script : List ℕ) → (croute : Bool) → ClientAction

-- `program` is the name by which the program was started, `os.Args[0]`.
unfoldable pub client_script : (program : List ℕ) → ClientFlags → Option (List ℕ)
client_script program flags =
    if flags.resolvconf
    then if not (is_nil flags.script) then none else some (program ++ codes " -syshook")
    else some flags.script

unfoldable pub client_main :
    (program : List ℕ)
    → (interface_by_name : List ℕ → Option Interface) → ClientFlags
    → ClientAction
unfolding client_script
client_main program interface_by_name flags = elim (client_script program flags) [
  | none ↦ exclusive_flags
  | some script ↦
      if flags.syshook
      then run_hook
      else if is_nil flags.ifname
      then no_ifname
      else elim (interface_by_name flags.ifname) [
        | none ↦ no_interface
        | some iface ↦ run_client iface script flags.route
      ]
]

pub record ServerFlags : Type 0 where
  pub ifname : List ℕ
  pub config : List ℕ

-- The errors with which `main` of the server ends; `E` are those of the system and of the parser,
-- `N` those of `server.New`, and `R` what `Run` returns.
pub data ServerAction {ℓ} (E : Type ℓ) (N : Type ℓ) (S : Type ℓ) : Type ℓ where
  no_ifname no_interface no_config : ServerAction E N S
  bad_config : E → ServerAction E N S
  bad_server : N → ServerAction E N S
  run_server : S → ServerAction E N S

-- `none` for an empty path.
unfoldable pub load_config :
    {E C : Type 0} → (read_config : List ℕ → Result E C) → (path : List ℕ) → Option (Result E C)
load_config read_config path = if is_nil path then none else some (read_config path)

unfoldable pub server_main :
    {E C N S : Type 0}
    → (read_config : List ℕ → Result E C) → (interface_by_name : List ℕ → Option Interface)
    → (new_server : Interface → C → Result N S) → ServerFlags
    → ServerAction E N S
unfolding load_config
server_main read_config interface_by_name new_server flags =
    if is_nil flags.ifname then no_ifname else elim (interface_by_name flags.ifname) [
      | none ↦ no_interface
      | some iface ↦ elim (load_config read_config flags.config) [
        | none ↦ no_config
        | some (err e) ↦ bad_config e
        | some (ok conf) ↦ elim (new_server iface conf) [
          | err e ↦ bad_server e
          | ok s ↦ run_server s
        ]
      ]
    ]

abbrev pub space : ℕ
space = 32

action_script : ClientAction → Option (List ℕ)
action_script (run_client iface script croute) = some script
action_script exclusive_flags = none
action_script no_ifname = none
action_script no_interface = none
action_script run_hook = none

-- The script that a client is run with is that of the flags.
client_main-script :
    (program : List ℕ) (interface_by_name : List ℕ → Option Interface) (flags : ClientFlags)
    {script : List ℕ} {iface : Interface} {croute : Bool}
    → client_main program interface_by_name flags ≡ run_client iface script croute
    → client_script program flags ≡ some script
unfolding client_main action_script
client_main-script program interface_by_name flags {script} h =
    elim (Option-cases (client_script program flags)) [
      | inl e ↦ clash (ap action_script (rw (client_main, e) at h))
      | inr (s, e) ↦ elim (Bool-cases flags.syshook) [
        | inl hook ↦ clash (ap action_script (rw (client_main, e, hook) at h))
        | inr no_hook ↦ elim (Bool-cases (is_nil flags.ifname)) [
          | inl nameless ↦ clash (ap action_script (rw (client_main, e, no_hook, nameless) at h))
          | inr named ↦ elim (Option-cases (interface_by_name flags.ifname)) [
            | inl absent ↦
                clash (ap action_script (rw (client_main, e, no_hook, named, absent) at h))
            | inr (i, found) ↦
                e ∙ ap action_script (rw (client_main, e, no_hook, named, found) at h)
          ]
        ]
      ]
    ]
  where
    clash : none ≡ some script → client_script program flags ≡ some script
    clash e = cc

client_script-resolvconf :
    (program : List ℕ) (flags : ClientFlags) {script : List ℕ}
    → flags.resolvconf ≡ true
    → client_script program flags ≡ some script
    → program ++ codes " -syshook" ≡ script
unfolding client_script
client_script-resolvconf program flags {script} on h = elim (Bool-cases (is_nil flags.script)) [
  | inl e ↦ injected (rw (on, client_script, e) at h)
  | inr e ↦ cc (rw (on, client_script, e) at h)
]
  where
    injected : {a b : List ℕ} → some a ≡ some b → a ≡ b
    injected e = cc

parse_script_args-some :
    (read_csv : List ℕ → Option (List (List ℕ))) (a b : List ℕ)
    → parse_script_args read_csv (a ++ (space ∷ b)) ≡ read_csv (a ++ (space ∷ b))
unfolding parse_script_args
parse_script_args-some read_csv [] b = refl
parse_script_args-some read_csv (x ∷ a) b = refl

-- A word that a command line can hold as it is: letters, digits and a few marks, no quotes, spaces
-- or line breaks among them.
abbrev pub is_word_char : ℕ → Bool
is_word_char c = is_alnum c || c == b'.' || c == b'-' || c == b'_' || c == b'/'

pub record IsWord (w : List ℕ) : Type 0 where
  pub some_char : w ≢ []
  pub chars : All (λ c. is_word_char c ≡ true) w

hook_word : IsWord (codes "-syshook")
hook_word = record {
  some_char = λ e. cc;
  chars = (refl, (refl, (refl, (refl, (refl, (refl, (refl, (refl, tt))))))));
}

-- A client that is run with `-resolvconf`, and whose program's name is a plain word (letters, digits,
-- `.`, `-`, `_` and `/`), runs itself with `-syshook` as the one argument at its hook, if the reader of
-- `encoding/csv`, with the space as its separator, reads two plain words with a space between them as
-- these two fields.
pub client_main-resolvconf :
    (program : List ℕ) (interface_by_name : List ℕ → Option Interface) (flags : ClientFlags)
    (read_csv : List ℕ → Option (List (List ℕ))) (v6 : Ip → List ℕ) (environ : List (List ℕ))
    (c : Option Ifconfig) {iface : Interface} {script : List ℕ} {croute : Bool}
    → ((a b : List ℕ) → IsWord a → IsWord b → read_csv (a ++ (space ∷ b)) ≡ some (a ∷ b ∷ []))
    → IsWord program
    → flags.resolvconf ≡ true
    → client_main program interface_by_name flags ≡ run_client iface script croute
    → (cmd : Command) × (cb_handler read_csv v6 script iface.name environ c ≡ some cmd)
      × (cmd.args ≡ program ∷ codes "-syshook" ∷ [])
unfolding cb_handler
client_main-resolvconf program interface_by_name flags read_csv v6 environ c {iface} {script} splits
      plain on h =
    let same =
      client_script-resolvconf program flags on
        (client_main-script program interface_by_name flags h) in
    let read =
      parse_script_args-some read_csv program (codes "-syshook")
      ∙ splits program (codes "-syshook") plain hook_word in
    subst
      (λ s.
        (cmd : Command) × (cb_handler read_csv v6 s iface.name environ c ≡ some cmd)
        × (cmd.args ≡ program ∷ codes "-syshook" ∷ []))
      same (rw (read, cb_handler) (_, refl, refl))
