-- ===== src/Dhcpmsg/Assemble/Layout.antt =====
-- The bytes that `Message.Assemble` writes, field after field.
use psa_dhcp.Base.{ℕ, ◌%◌, ◌≡◌, refl, ◌∙◌, List, [], ◌∷◌, ◌++◌, length, append-nil, append_assoc}
use psa_dhcp.Base.Bytes.{be16, be32}
use psa_dhcp.Base.Fill.{put, put_fit, start, fit}
use psa_dhcp.Net.Laws.{ip4, put_ip4}
use psa_dhcp.Dhcpmsg.{DhcpOpt, Message}
use psa_dhcp.Dhcpmsg.Assemble.{header, append_options}

-- The two arrays of a message.
pub record IsShaped (msg : Message) : Type 0 where
  pub host_name : length msg.server_host_name ≡ 64
  pub filename : length msg.boot_filename ≡ 128

-- The fixed part, as its fields stand on the wire.
abbrev pub wire_header : Message → List ℕ
wire_header msg =
    msg.op ∷ msg.htype ∷ (length msg.client_mac % 256) ∷ msg.hops ∷ be32 msg.xid
    ++ be16 msg.secs
    ++ be16 msg.flags
    ++ (ip4 msg.client_ip
        ++ (ip4 msg.your_ip
            ++ (ip4 msg.next_ip
                ++ (ip4 msg.relay_ip
                    ++ (fit 16 msg.client_mac
                        ++ (msg.server_host_name ++ (msg.boot_filename ++ be32 msg.cookie)))))))

pub header-wire_header : (msg : Message) → IsShaped msg → header msg ≡ wire_header msg
unfolding header
header-wire_header msg s =
    let f = start 240 in
    let f = put 1 239 (msg.op ∷ []) f refl refl in
    let f = put 1 238 (msg.htype ∷ []) f refl refl in
    let f = put 1 237 ((length msg.client_mac % 256) ∷ []) f refl refl in
    let f = put 1 236 (msg.hops ∷ []) f refl refl in
    let f = put 4 232 (be32 msg.xid) f refl refl in
    let f = put 2 230 (be16 msg.secs) f refl refl in
    let f = put 2 228 (be16 msg.flags) f refl refl in
    let f = put_ip4 224 msg.client_ip f refl in
    let f = put_ip4 220 msg.your_ip f refl in
    let f = put_ip4 216 msg.next_ip f refl in
    let f = put_ip4 212 msg.relay_ip f refl in
    let f = put_fit 16 196 msg.client_mac f refl in
    let f = put 64 132 msg.server_host_name f s.host_name refl in
    let f = put 128 4 msg.boot_filename f s.filename refl in
    let f = put 4 0 (be32 msg.cookie) f refl refl in f.shape ∙ simp (append-nil, append_assoc)

abbrev pub encode_option : DhcpOpt → List ℕ
encode_option o = o.option ∷ (length o.payload % 256) ∷ o.payload

abbrev pub encode_options : List DhcpOpt → List ℕ
encode_options [] = []
encode_options (o ∷ opts) = encode_option o ++ encode_options opts

pub append_options-encode_options :
    (buf : List ℕ) (opts : List DhcpOpt) → append_options buf opts ≡ buf ++ encode_options opts
unfolding append_options
append_options-encode_options buf [] = rw append-nil
append_options-encode_options buf (o ∷ opts) =
    append_options-encode_options (buf ++ encode_option o) opts
    ∙ append_assoc buf (encode_option o) (encode_options opts)
