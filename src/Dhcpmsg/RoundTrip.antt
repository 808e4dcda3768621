-- ===== src/Dhcpmsg/RoundTrip.antt =====
-- What `Decode` makes of the bytes that `Message.Assemble` writes.
use psa_dhcp.Base.{
  ℕ, zero, suc, ◌+◌, ◌%◌, ◌^◌, ◌<◌, ◌≤◌, ◌≡◌, ◌≢◌, refl, ap, ◌∙◌, arith, true, false, some, List,
  [], ◌∷◌, ◌++◌, length, drop, All, append-nil, append_assoc, ltb, leb, ◌==◌, ok, take-append,
  drop-append, length-append, drop_skip, sym, le→not-ltb,
}
use psa_dhcp.Base.Bytes.{copy, u32_at, be16, be32, zeros, u32_at-drop, u32-be32, u16-be16}
use psa_dhcp.Base.Fill.{fit, length-fit, copy-fit_back, copy-zeros_back}
use psa_dhcp.Net.{Ip, v4_in_v6_prefix}
use psa_dhcp.Net.Laws.{ip4, ip4-length, four}
use psa_dhcp.Dhcpmsg.{DhcpOpt, Message}
use psa_dhcp.Dhcpmsg.Assemble.{assemble}
use psa_dhcp.Dhcpmsg.Assemble.Layout.{
  IsShaped, wire_header, header-wire_header, encode_option, encode_options,
  append_options-encode_options,
}
use psa_dhcp.Dhcpmsg.Parse.{options_loop, fixed_part, decode}

-- An option that its encoding shows as it is: neither padding nor the end mark, and no longer than
-- its length byte can say.
pub record IsOption (o : DhcpOpt) : Type 0 where
  pub not_padding : o.option ≢ 0
  pub not_end : o.option ≢ 255
  pub short : length o.payload ≤ 255

pub record IsWire (msg : Message) : Type 0 where
  pub shaped : IsShaped msg
  pub xid : msg.xid < 2 ^ 32
  pub secs : msg.secs < 2 ^ 16
  pub flags : msg.flags < 2 ^ 16
  pub cookie : msg.cookie < 2 ^ 32
  pub mac : length msg.client_mac ≤ 16
  pub opts : All IsOption msg.options

-- The form of 16 bytes in which an address is read back; 0.0.0.0 where there was none.
abbrev pub as_read : Ip → Ip
as_read ip = v4_in_v6_prefix ++ ip4 ip

abbrev pub message_as_read : Message → Message
message_as_read msg = record msg {
  client_ip = as_read msg.client_ip;
  your_ip = as_read msg.your_ip;
  next_ip = as_read msg.next_ip;
  relay_ip = as_read msg.relay_ip;
}

-- One round of the loop on an option.
options_loop_step :
    (fuel : ℕ) (o : DhcpOpt) (rest : List ℕ) (last : ℕ) (acc : List DhcpOpt)
    → IsOption o
    → options_loop (suc fuel) (encode_option o ++ rest) last acc
      ≡ options_loop fuel rest o.option (acc ++ (o ∷ []))
unfolding options_loop
options_loop_step fuel o rest last acc h =
    let e0 : (o.option == 0) ≡ false = ground (arith, h.not_padding) in
    let e255 : (o.option == 255) ≡ false = ground (arith, h.not_end) in
    let el : length o.payload % 256 ≡ length o.payload = omega (arith, h.short) in
    let fits : leb (length o.payload) (length (o.payload ++ rest)) ≡ true =
      ground (arith, length-append o.payload rest) in
    rw (
      e0,
      options_loop,
      e255,
      options_loop,
      el,
      fits,
      options_loop,
      el,
      drop-append _ o.payload rest refl,
      take-append _ o.payload rest refl,
    )

-- Enough fuel, all options and the end mark: the loop collects the options in order.
pub options_loop-encode_options :
    (opts : List DhcpOpt) (fuel last : ℕ) (acc : List DhcpOpt) (padding : List ℕ)
    → All IsOption opts
    → length (encode_options opts) < fuel
    → options_loop fuel (encode_options opts ++ (255 ∷ padding)) last acc ≡ some (255, acc ++ opts)
options_loop-encode_options opts zero last acc padding h enough = absurd (omega arith)
options_loop-encode_options [] (suc fuel) last acc [] h enough =
    unfold options_loop in rw append-nil
options_loop-encode_options [] (suc fuel) last acc (x ∷ padding) h enough =
    unfold options_loop in rw append-nil
options_loop-encode_options (o ∷ opts) (suc fuel) last acc padding (h, hs) enough =
    rw append_assoc (
      options_loop_step fuel o (encode_options opts ++ (255 ∷ padding)) last acc h
      ∙ options_loop-encode_options opts fuel o.option (acc ++ (o ∷ [])) padding hs
          (omega (arith, length-append (encode_option o) (encode_options opts)))
      ∙ ap (λ l. some (255, l)) (append_assoc acc (o ∷ []) opts))

-- What follows the four addresses.
abbrev tail_fields : Message → List ℕ
tail_fields msg =
    fit 16 msg.client_mac ++ (msg.server_host_name ++ (msg.boot_filename ++ be32 msg.cookie))

abbrev with_addresses : Message → (ci yi ni ri : List ℕ) → List ℕ
with_addresses msg ci yi ni ri =
    msg.op ∷ msg.htype ∷ (length msg.client_mac % 256) ∷ msg.hops ∷ be32 msg.xid
    ++ be16 msg.secs
    ++ be16 msg.flags
    ++ (ci ++ (yi ++ (ni ++ (ri ++ tail_fields msg))))

module _ (msg : Message) (w : IsWire msg) (rest : List ℕ) where
  mac_read : copy (zeros (length msg.client_mac % 256)) (tail_fields msg ++ rest) ≡ msg.client_mac
  mac_read =
      let e : length msg.client_mac % 256 ≡ length msg.client_mac = omega (arith, w.mac) in
      rw (e, append_assoc) (copy-fit_back 16 msg.client_mac _ w.mac)

  behind_mac :
      (k : ℕ)
      → drop (16 + k) (tail_fields msg ++ rest)
        ≡ drop k (msg.server_host_name ++ (msg.boot_filename ++ (be32 msg.cookie ++ rest)))
  behind_mac k =
      simp append_assoc
        (drop_skip 16 k (fit 16 msg.client_mac) _ (sym (length-fit 16 msg.client_mac)))

  behind_host_name :
      (k : ℕ)
      → drop (80 + k) (tail_fields msg ++ rest)
        ≡ drop k (msg.boot_filename ++ (be32 msg.cookie ++ rest))
  behind_host_name k =
      let e : 80 + k ≡ 16 + (64 + k) = omega arith in
      rw e (behind_mac (64 + k) ∙ drop_skip 64 k msg.server_host_name _ (sym w.shaped.host_name))

  behind_filename :
      (k : ℕ) → drop (208 + k) (tail_fields msg ++ rest) ≡ drop k (be32 msg.cookie ++ rest)
  behind_filename k =
      let e : 208 + k ≡ 80 + (128 + k) = omega arith in
      rw e
        (behind_host_name (128 + k) ∙ drop_skip 128 k msg.boot_filename _ (sym w.shaped.filename))

  length_tail : length (tail_fields msg) ≡ 212
  length_tail = omega (
    arith,
    length-append (fit 16 msg.client_mac)
        (msg.server_host_name ++ (msg.boot_filename ++ be32 msg.cookie)),
    length-append msg.server_host_name (msg.boot_filename ++ be32 msg.cookie),
    length-append msg.boot_filename (be32 msg.cookie),
    length-fit 16 msg.client_mac,
    w.shaped.host_name,
    w.shaped.filename,
  )

  cookie_read : u32_at (tail_fields msg ++ rest) 208 ≡ msg.cookie
  cookie_read =
      u32_at-drop 208 (tail_fields msg ++ rest)
      ∙ ap (λ b. u32_at b 0) (behind_filename 0)
      ∙ u32-be32 msg.cookie rest w.cookie

  host_name_read : copy (zeros 64) (drop 16 (tail_fields msg ++ rest)) ≡ msg.server_host_name
  host_name_read =
      ap (copy (zeros 64)) (behind_mac 0)
      ∙ copy-zeros_back 64 msg.server_host_name _ w.shaped.host_name

  filename_read : copy (zeros 128) (drop 80 (tail_fields msg ++ rest)) ≡ msg.boot_filename
  filename_read =
      ap (copy (zeros 128)) (behind_host_name 0)
      ∙ copy-zeros_back 128 msg.boot_filename _ w.shaped.filename

  behind_header :
      (ci yi ni ri : List ℕ)
      → length ci ≡ 4
      → length yi ≡ 4
      → length ni ≡ 4
      → length ri ≡ 4
      → (length (with_addresses msg ci yi ni ri ++ rest) ≡ 240 + length rest)
        × (drop 240 (with_addresses msg ci yi ni ri ++ rest) ≡ rest)
        × (fixed_part (with_addresses msg ci yi ni ri ++ rest) msg.options ≡ record msg {
          client_ip = v4_in_v6_prefix ++ ci;
          your_ip = v4_in_v6_prefix ++ yi;
          next_ip = v4_in_v6_prefix ++ ni;
          relay_ip = v4_in_v6_prefix ++ ri;
        })
  behind_header ci yi ni ri hc hy hn hr =
      let (c0, c1, c2, c3, ec) = four ci hc in
      let (y0, y1, y2, y3, ey) = four yi hy in
      let (n0, n1, n2, n3, en) = four ni hn in
      let (r0, r1, r2, r3, er) = four ri hr in
      rw (ec, ey, en, er)
        (
          omega (arith, length-append (tail_fields msg) rest, length_tail),
          behind_filename 4,
          λ i. record {
            op = msg.op;
            htype = msg.htype;
            hops = msg.hops;
            xid = u32-be32 msg.xid [] w.xid i;
            secs = u16-be16 msg.secs [] w.secs i;
            flags = u16-be16 msg.flags [] w.flags i;
            client_ip = v4_in_v6_prefix ++ (c0 ∷ c1 ∷ c2 ∷ c3 ∷ []);
            your_ip = v4_in_v6_prefix ++ (y0 ∷ y1 ∷ y2 ∷ y3 ∷ []);
            next_ip = v4_in_v6_prefix ++ (n0 ∷ n1 ∷ n2 ∷ n3 ∷ []);
            relay_ip = v4_in_v6_prefix ++ (r0 ∷ r1 ∷ r2 ∷ r3 ∷ []);
            client_mac = mac_read i;
            server_host_name = host_name_read i;
            boot_filename = filename_read i;
            cookie = cookie_read i;
            options = msg.options;
          },
        )

assemble-wire_header :
    (msg : Message)
    → IsShaped msg
    → msg.options ≢ []
    → assemble msg ≡ wire_header msg ++ (encode_options msg.options ++ (255 ∷ []))
unfolding assemble
assemble-wire_header msg s some_option =
    let e : ltb 0 (length msg.options) ≡ true = nonempty msg.options some_option in
    rw (e, append_options-encode_options, header-wire_header msg s)
      (append_assoc (wire_header msg) (encode_options msg.options) (255 ∷ []))
  where
    nonempty : (opts : List DhcpOpt) → opts ≢ [] → ltb 0 (length opts) ≡ true
    nonempty [] h = absurd (h refl)
    nonempty (o ∷ opts) h = ground arith

decode-fixed_part :
    (b padding : List ℕ) (opts : List DhcpOpt)
    → All IsOption opts
    → length b ≡ 240 + length (encode_options opts ++ (255 ∷ padding))
    → drop 240 b ≡ encode_options opts ++ (255 ∷ padding)
    → decode b ≡ ok (fixed_part b opts)
unfolding decode
decode-fixed_part b padding opts h len cut =
    let enough : length (encode_options opts) < length b =
      omega (arith, length-append (encode_options opts) (255 ∷ padding)) in
    let long : ltb (length b) 240 ≡ false = le→not-ltb _ _ (omega (arith, len)) in
    rw (long, cut, options_loop-encode_options opts (length b) 0 [] padding h enough)

-- `Decode` reads back what `Assemble` writes of a message that fits the wire (`IsWire`), whatever
-- bytes follow the end mark: the same fields, each address in its form of 16 bytes. A message fits
-- if its two arrays have their lengths, its numbers their widths, its hardware address has at most
-- 16 bytes, and each option has a code other than 0 and 255 and at most 255 bytes; and it must have
-- at least one option.
pub decode-assemble :
    (msg : Message) (padding : List ℕ)
    → IsWire msg
    → msg.options ≢ []
    → decode (assemble msg ++ padding) ≡ ok (message_as_read msg)
decode-assemble msg padding w some_option =
    let rest = encode_options msg.options ++ (255 ∷ padding) in
    let (len, cut, fixed) =
      behind_header msg w rest (ip4 msg.client_ip) (ip4 msg.your_ip) (ip4 msg.next_ip)
        (ip4 msg.relay_ip) (ip4-length msg.client_ip) (ip4-length msg.your_ip)
        (ip4-length msg.next_ip) (ip4-length msg.relay_ip) in
    let bytes : assemble msg ++ padding ≡ wire_header msg ++ rest =
      ap (λ b. b ++ padding) (assemble-wire_header msg w.shaped some_option)
      ∙ append_assoc (wire_header msg) (encode_options msg.options ++ (255 ∷ [])) padding
      ∙ ap (λ l. wire_header msg ++ l)
          (append_assoc (encode_options msg.options) (255 ∷ []) padding) in
    ap decode bytes ∙ decode-fixed_part _ padding msg.options w.opts len cut ∙ ap ok fixed
