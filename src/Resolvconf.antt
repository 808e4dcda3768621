-- ===== src/Resolvconf.antt =====
-- lib/resolvconf/resolvconf.go: the hook that writes /etc/resolv.conf from the environment of the
-- script.
pub mod Lines
use psa_dhcp.Base.{
  ℕ, ◌==◌, ◌&&◌, ◌||◌, not, Bool, true, false, if◌then◌else◌, Option, none, some, List, [], ◌∷◌,
  ◌++◌, length, bytes_eq,
}
use psa_dhcp.Base.Text.{codes, is_alnum, is_digit, split}
use psa_dhcp.Net.{is_nil}

abbrev pub all_of : (ℕ → Bool) → List ℕ → Bool
all_of p [] = true
all_of p (c ∷ s) = p c && all_of p s

abbrev pub is_name_char : ℕ → Bool
is_name_char c = is_alnum c || c == b'.' || c == b'-'

abbrev pub is_num_char : ℕ → Bool
is_num_char c = is_digit c || c == b'.'

-- `reGoodChars.MatchString(s)` and `reGoodNums.MatchString(s)`: the whole of `s`, and not empty.
abbrev pub matches : (ℕ → Bool) → List ℕ → Bool
matches p s = not (is_nil s) && all_of p s

-- `strings.SplitN(e, "=", 2)`: the key and the value; `none` where there is no `=`.
unfoldable pub split_env : List ℕ → Option (List ℕ × List ℕ)
split_env [] = none
split_env (c ∷ e) =
    let rest = split_env e in
    if c == b'=' then some ([], e) else elim rest [ none ↦ none | some (k, v) ↦ some (c ∷ k, v) ]

-- The name servers of a list that are kept.
unfoldable pub good_servers : List (List ℕ) → List (List ℕ)
good_servers [] = []
good_servers (ns ∷ nss) =
    let rest = good_servers nss in if matches is_num_char ns then ns ∷ rest else rest

-- The variables of the loop in `Run`.
pub record Found : Type 0 where
  pub search_domain : List ℕ
  pub nameservers : List (List ℕ)

abbrev pub domain_key : List ℕ
domain_key = codes "PSA_DHCPC_DOMAIN_NAME"

abbrev pub dns_key : List ℕ
dns_key = codes "PSA_DHCPC_DNS_LIST"

-- One round, on a key and a value.
unfoldable pub note_pair : List ℕ → List ℕ → Found → Found
unfolding bytes_eq split good_servers
note_pair key val f =
    let domain =
      if bytes_eq key domain_key && matches is_name_char val then val else f.search_domain in
    let servers =
      if bytes_eq key dns_key && not (is_nil val)
      then f.nameservers ++ good_servers (split b',' val)
      else f.nameservers in
    record { search_domain = domain; nameservers = servers }

unfoldable pub note_entry : List ℕ → Found → Found
unfolding split_env note_pair
note_entry e f = elim (split_env e) [ none ↦ f | some (k, v) ↦ note_pair k v f ]

unfoldable pub note_all : List (List ℕ) → Found → Found
unfolding note_entry
note_all [] f = f
note_all (e ∷ es) f = note_all es (note_entry e f)

abbrev pub newline : ℕ
newline = 10

unfoldable pub nameserver_lines : List (List ℕ) → List ℕ
nameserver_lines [] = []
nameserver_lines (ns ∷ nss) = codes "nameserver " ++ (ns ++ (newline ∷ nameserver_lines nss))

-- The text of the file.
unfoldable pub contents : Found → List ℕ
unfolding nameserver_lines
contents f =
    codes "# written by psa-dhcpc"
    ++ (newline ∷ [])
    ++ (if is_nil f.search_domain then [] else codes "search " ++ f.search_domain ++ (newline ∷ []))
    ++ nameserver_lines f.nameservers

abbrev pub nothing_found : Found
nothing_found = record { search_domain = []; nameservers = [] }

-- What `Run` passes to `update`; `none` where it leaves the file alone.
unfoldable pub run_environ : List (List ℕ) → Option (List ℕ)
unfolding note_all contents
run_environ environ =
    let f = note_all environ nothing_found in
    elim f.nameservers [ [] ↦ none | ns ∷ nss ↦ some (contents f) ]

-- `update`. What the system answers: the name of the temporary file, how many bytes were written
-- and whether with an error, and whether the other calls succeed.
pub record Answers : Type 0 where
  pub temp_name : Option (List ℕ)
  pub written : ℕ
  pub write_ok : Bool
  pub close_ok : Bool
  pub chmod_ok : Bool
  pub rename_ok : Bool

pub data FileCall : Type 0 where
  write_temp : (name buf : List ℕ) → FileCall
  close_temp chmod_temp rename_temp remove_temp : (name : List ℕ) → FileCall

pub data UpdateError : Type 0 where
  no_temp write_failed close_failed short_write chmod_failed rename_failed : UpdateError

-- The error and the calls, in their order; the deferred removal comes last, where there is an error.
unfoldable pub update : Answers → List ℕ → Option UpdateError × List FileCall
update a buf = elim a.temp_name [
  | none ↦ (some no_temp, [])
  | some name ↦
      let opened = write_temp name buf ∷ close_temp name ∷ [] in
      if not a.write_ok
      then (some write_failed, opened ++ (remove_temp name ∷ []))
      else if not a.close_ok
      then (some close_failed, opened ++ (remove_temp name ∷ []))
      else if not (a.written == length buf)
      then (some short_write, opened ++ (remove_temp name ∷ []))
      else if not a.chmod_ok
      then (some chmod_failed, opened ++ (chmod_temp name ∷ remove_temp name ∷ []))
      else if not a.rename_ok
      then (
        some rename_failed,
        opened ++ (chmod_temp name ∷ rename_temp name ∷ remove_temp name ∷ []),
      )
      else (none, opened ++ (chmod_temp name ∷ rename_temp name ∷ []))
]

unfoldable pub run : Answers → List (List ℕ) → Option UpdateError × List FileCall
unfolding run_environ update
run a environ = elim (run_environ environ) [ none ↦ (none, []) | some buf ↦ update a buf ]
