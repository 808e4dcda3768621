-- ===== src/Dhcpmsg/Parse.antt =====
-- lib/dhcpmsg/parse.go: bytes as a message.
use psa_dhcp.Base.{
  ℕ, zero, suc, ◌==◌, ltb, leb, not, if◌then◌else◌, Option, none, some, List, [], ◌∷◌, ◌++◌, length,
  take, drop, Result, ok, err, true, false,
}
use psa_dhcp.Base.Bytes.{copy, at, u16_at, u32_at, zeros}
use psa_dhcp.Net.{ipv4}
use psa_dhcp.Dhcpmsg.{DhcpOpt, Message}

pub data ParseError : Type 0 where
  short_dhcpmsg truncated_options : ParseError

abbrev pub dhcp_min_len : ℕ
dhcp_min_len = 240

-- The loop over `b[c:]`, its length the fuel: each round takes a byte at least. The result is the
-- last option code that was read and the options; `none`: the fuel ran out.
unfoldable pub options_loop : ℕ → List ℕ → ℕ → List DhcpOpt → Option (ℕ × List DhcpOpt)
options_loop fuel [] opt options = some (opt, options)
options_loop zero (b ∷ rest) opt options = none
options_loop (suc fuel) (opt ∷ []) _ options =
    if opt == 0 then options_loop fuel [] opt options else some (opt, options)
options_loop (suc fuel) (opt ∷ olen ∷ rest) _ options = elim (opt == 0) [
  | true ↦ options_loop fuel (olen ∷ rest) opt options
  | false ↦ elim (opt == 0xff) [
    | true ↦ some (opt, options)
    | false ↦ elim (leb olen (length rest)) [
      | false ↦ some (opt, options)
      | true ↦
          options_loop fuel (drop olen rest) opt
            (options ++ (record { option = opt; payload = take olen rest } ∷ []))
    ]
  ]
]

-- The fixed part, and the given options.
abbrev pub fixed_part : List ℕ → List DhcpOpt → Message
fixed_part b options = record {
  op = at b 0;
  htype = at b 1;
  hops = at b 3;
  xid = u32_at b 4;
  secs = u16_at b 8;
  flags = u16_at b 10;
  cookie = u32_at b 236;
  client_ip = ipv4 (at b 12) (at b 13) (at b 14) (at b 15);
  your_ip = ipv4 (at b 16) (at b 17) (at b 18) (at b 19);
  next_ip = ipv4 (at b 20) (at b 21) (at b 22) (at b 23);
  relay_ip = ipv4 (at b 24) (at b 25) (at b 26) (at b 27);
  client_mac = copy (zeros (at b 2)) (drop 28 b);
  server_host_name = copy (zeros 64) (drop 44 b);
  boot_filename = copy (zeros 128) (drop 108 b);
  options = options;
}

unfoldable pub decode : List ℕ → Result ParseError Message
unfolding options_loop
decode b =
    if ltb (length b) dhcp_min_len
    then err short_dhcpmsg
    else elim (options_loop (length b) (drop dhcp_min_len b) 0 []) [
      | none ↦ err truncated_options
      | some (opt, options) ↦
          if not (opt == 0xff) then err truncated_options else ok (fixed_part b options)
    ]
