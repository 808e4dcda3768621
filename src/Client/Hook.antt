-- ===== src/Client/Hook.antt =====
-- The client and its hook: what the script's environment makes of /etc/resolv.conf.
use psa_dhcp.Base.{
  ℕ, ◌≡◌, ◌≢◌, refl, ap, ◌∙◌, arith, true, false, List, [], ◌∷◌, ◌++◌, map, All, All-append,
  Bool-cases, Option, Option-cases, some, inl, inr, bytes_eq,
}
use mathlib.Core.Path.{subst}
use psa_dhcp.Base.Text.{
  codes, decimal, IsDigit, decimal-IsDigit, decimal-not_nil, join, split-join, Lacks,
}
use psa_dhcp.Net.{Ip, is_nil, to4}
use psa_dhcp.Net.Print.{ip_string, dotted}
use psa_dhcp.Client.Dclient.{Ifconfig}
use psa_dhcp.Client.Callback.{env_entry, dump_script_conf, Command, parse_script_args, cb_handler}
use psa_dhcp.Client.Callback.Clean.{IsGood, replace_bad-good}
use psa_dhcp.Resolvconf.{
  matches, all_of, is_name_char, is_num_char, split_env, good_servers, Found, note_pair, note_entry,
  note_all, contents, nothing_found, run_environ,
}
use psa_dhcp.Resolvconf.Lines.{IsServer}

-- An IPv4 address, of which the first byte is `a`.
pub record IsIpv4 (ip : Ip) : Type 0 where
  pub not_nil : is_nil ip ≡ false
  pub first : ℕ
  pub others : List ℕ
  pub bytes : to4 ip ≡ some (first ∷ others)

abbrev IsNum : ℕ → Type 0
IsNum c = is_num_char c ≡ true

digit-IsNum : (c : ℕ) → IsDigit c → IsNum c
digit-IsNum c (h, h') = ground arith

All-map : {P Q : ℕ → Type 0} → ((c : ℕ) → P c → Q c) → (l : List ℕ) → All P l → All Q l
All-map h [] a = tt
All-map h (c ∷ l) (ac, a) = (h c ac, All-map h l a)

dotted-IsNum : (l : List ℕ) → All IsNum (dotted l)
dotted-IsNum [] = tt
dotted-IsNum (b ∷ []) = All-map digit-IsNum (decimal b) (decimal-IsDigit b)
dotted-IsNum (b ∷ c ∷ bs) =
    All-append IsNum (decimal b) (b'.' ∷ dotted (c ∷ bs))
      (All-map digit-IsNum (decimal b) (decimal-IsDigit b)) (refl, dotted-IsNum (c ∷ bs))

all_of-All : (l : List ℕ) → All IsNum l → all_of is_num_char l ≡ true
all_of-All [] h = refl
all_of-All (c ∷ l) (hc, h) = rw (hc, all_of-All l h) refl

not-nil : (l : List ℕ) → l ≢ [] → is_nil l ≡ false
not-nil [] h = absurd (h refl)
not-nil (c ∷ l) h = refl

append-not_nil : (l m : List ℕ) → is_nil l ≡ false → is_nil (l ++ m) ≡ false
append-not_nil [] m h = cc
append-not_nil (c ∷ l) m h = refl

dotted-not_nil : (b : ℕ) (bs : List ℕ) → is_nil (dotted (b ∷ bs)) ≡ false
dotted-not_nil b [] = not-nil (decimal b) (decimal-not_nil b)
dotted-not_nil b (c ∷ bs) =
    append-not_nil (decimal b) (b'.' ∷ dotted (c ∷ bs)) (not-nil (decimal b) (decimal-not_nil b))

num-IsGood : (c : ℕ) → IsNum c → IsGood c
num-IsGood c h = ground arith

num-ne-comma : (c : ℕ) → IsNum c → c ≢ 44
num-ne-comma c h = ground arith

join-IsGood : (ws : List (List ℕ)) → All (All IsNum) ws → All IsGood (join b',' ws)
unfolding join
join-IsGood [] h = tt
join-IsGood (w ∷ []) (h, _) = All-map num-IsGood w h
join-IsGood (w ∷ v ∷ ws) (h, hs) =
    All-append IsGood w (b',' ∷ join b',' (v ∷ ws)) (All-map num-IsGood w h)
      (refl, join-IsGood (v ∷ ws) hs)

join-not_nil :
    (w : List ℕ) (ws : List (List ℕ)) → is_nil w ≡ false → is_nil (join b',' (w ∷ ws)) ≡ false
unfolding join
join-not_nil w [] h = h
join-not_nil w (v ∷ ws) h = append-not_nil w (b',' ∷ join b',' (v ∷ ws)) h

All-Lacks : (ws : List (List ℕ)) → All (All IsNum) ws → All (Lacks 44) ws
All-Lacks [] h = tt
All-Lacks (w ∷ ws) (h, hs) = (All-map num-ne-comma w h, All-Lacks ws hs)

name_char-IsGood : (c : ℕ) → is_name_char c ≡ true → IsGood c
name_char-IsGood c h = ground arith

name-IsGood : (name : List ℕ) → matches is_name_char name ≡ true → All IsGood name
name-IsGood name h = go name (last name h)
  where
    last : (l : List ℕ) → matches is_name_char l ≡ true → all_of is_name_char l ≡ true
    last [] h = refl
    last (c ∷ l) h = h

    go : (l : List ℕ) → all_of is_name_char l ≡ true → All IsGood l
    go [] h = tt
    go (c ∷ l) h = elim (Bool-cases (is_name_char c)) [
      | inl good ↦ (name_char-IsGood c good, go l (rw good at h))
      | inr bad ↦ cc (rw bad at h)
    ]

module _ (v6 : Ip → List ℕ) where
  ip_string-dotted : (ip : Ip) (h : IsIpv4 ip) → ip_string v6 ip ≡ dotted (h.first ∷ h.others)
  unfolding ip_string
  ip_string-dotted ip h = rw (h.not_nil, h.bytes) refl

  ip_string-IsNum : (ip : Ip) → IsIpv4 ip → All IsNum (ip_string v6 ip)
  ip_string-IsNum ip h = rw (ip_string-dotted ip h) (dotted-IsNum (h.first ∷ h.others))

  ip_string-IsServer : (ip : Ip) → IsIpv4 ip → IsServer (ip_string v6 ip)
  ip_string-IsServer ip h =
      rw
        (
          ip_string-dotted ip h,
          dotted-not_nil h.first h.others,
          all_of-All (dotted (h.first ∷ h.others)) (dotted-IsNum (h.first ∷ h.others)),
        )
        refl

  printed : (ips : List Ip) → All IsIpv4 ips → All (All IsNum) (map (ip_string v6) ips)
  printed [] h = tt
  printed (ip ∷ ips) (h, hs) = (ip_string-IsNum ip h, printed ips hs)

  printed-kept :
      (ips : List Ip)
      → All IsIpv4 ips
      → good_servers (map (ip_string v6) ips) ≡ map (ip_string v6) ips
  unfolding good_servers
  printed-kept [] h = refl
  printed-kept (ip ∷ ips) (h, hs) =
      rw (good_servers, ip_string-IsServer ip h)
        (ap (λ l. ip_string v6 ip ∷ l) (printed-kept ips hs))

  note_all-append :
      (es es' : List (List ℕ)) (f : Found) → note_all (es ++ es') f ≡ note_all es' (note_all es f)
  unfolding note_all
  note_all-append [] es' f = refl
  note_all-append (e ∷ es) es' f = note_all-append es es' (note_entry e f)

  note_all-dump :
      (c : Ifconfig) (ip : Ip) (ips : List Ip)
      → c.dns ≡ ip ∷ ips
      → All IsIpv4 (ip ∷ ips)
      → matches is_name_char c.domain_name ≡ true
      → (f : Found)
      → note_all (dump_script_conf v6 c) f ≡ record {
        search_domain = c.domain_name;
        nameservers = f.nameservers ++ map (ip_string v6) (ip ∷ ips);
      }
  unfolding dump_script_conf note_all
  note_all-dump c ip ips e h name f =
      let words = map (ip_string v6) (ip ∷ ips) in
      let nums = printed (ip ∷ ips) h in
      let some_text : is_nil (join b',' words) ≡ false =
        join-not_nil (ip_string v6 ip) (map (ip_string v6) ips)
          (rw (ip_string-dotted ip h.0) (dotted-not_nil h.0.first h.0.others)) in
      rw
        (
          e,
          replace_bad-good c.domain_name (name-IsGood c.domain_name name),
          name,
          replace_bad-good (join b',' words) (join-IsGood words nums),
          some_text,
          split-join b',' _ _ (All-Lacks words nums),
          printed-kept (ip ∷ ips) h,
        )
        refl

  run_environ-found :
      (es : List (List ℕ)) (ns : List ℕ) (nss : List (List ℕ)) {domain : List ℕ}
      → note_all es nothing_found ≡ record { search_domain = domain; nameservers = ns ∷ nss }
      → run_environ es ≡ some (contents (record { search_domain = domain; nameservers = ns ∷ nss }))
  unfolding run_environ
  run_environ-found es ns nss h = rw (run_environ, h) (ap (λ f. some (contents f)) h)

  run_environ-dump :
      (c : Ifconfig) (base : List (List ℕ)) (ip : Ip) (ips : List Ip)
      → c.dns ≡ ip ∷ ips
      → All IsIpv4 (ip ∷ ips)
      → matches is_name_char c.domain_name ≡ true
      → note_all base nothing_found ≡ nothing_found
      → run_environ (base ++ dump_script_conf v6 c)
        ≡ some (
            contents (record {
              search_domain = c.domain_name;
              nameservers = map (ip_string v6) (ip ∷ ips);
            }))
  run_environ-dump c base ip ips e h name b =
      run_environ-found (base ++ dump_script_conf v6 c) (ip_string v6 ip) (map (ip_string v6) ips) (
        note_all-append base (dump_script_conf v6 c) nothing_found
        ∙ ap (note_all (dump_script_conf v6 c)) b
        ∙ note_all-dump c ip ips e h name nothing_found)

  interface_entry :
      (name : List ℕ) (f : Found) → note_all (env_entry (codes "INTERFACE") name ∷ []) f ≡ f
  unfolding note_all note_entry note_pair env_entry split_env bytes_eq
  interface_entry name f = refl

  -- The client runs its hook for a configuration with one or more IPv4 name servers and a domain
  -- name of letters, digits, dots and dashes, in an environment of its own in which the hook would
  -- find nothing. Then the hook writes that domain name and all of those name servers, in order.
  pub run_environ-cb_handler :
      (read_csv : List ℕ → Option (List (List ℕ))) (script name : List ℕ) (environ : List (List ℕ))
      (c : Ifconfig) (ip : Ip) (ips : List Ip) {cmd : Command}
      → cb_handler read_csv v6 script name environ (some c) ≡ some cmd
      → c.dns ≡ ip ∷ ips
      → All IsIpv4 (ip ∷ ips)
      → matches is_name_char c.domain_name ≡ true
      → note_all environ nothing_found ≡ nothing_found
      → run_environ cmd.env
        ≡ some (
            contents (record {
              search_domain = c.domain_name;
              nameservers = map (ip_string v6) (ip ∷ ips);
            }))
  unfolding cb_handler
  run_environ-cb_handler read_csv script name environ c ip ips {cmd} h e v4 dom none_found =
      elim (Option-cases (parse_script_args read_csv script)) [
        | inl p ↦ cc (rw (p, cb_handler) at h)
        | inr ([], p) ↦ cc (rw (p, cb_handler) at h)
        | inr ((arg ∷ more), p) ↦
            let env : base ++ dump_script_conf v6 c ≡ cmd.env = ran (rw (p, cb_handler) at h) in
            subst
              (λ es.
                run_environ es
                ≡ some (
                    contents (record {
                      search_domain = c.domain_name;
                      nameservers = map (ip_string v6) (ip ∷ ips);
                    })))
              env
              (run_environ-dump c base ip ips e v4 dom (
                note_all-append environ (env_entry (codes "INTERFACE") name ∷ []) nothing_found
                ∙ ap (note_all (env_entry (codes "INTERFACE") name ∷ [])) none_found
                ∙ interface_entry name nothing_found))
      ]
    where
      base : List (List ℕ)
      base = environ ++ (env_entry (codes "INTERFACE") name ∷ [])

      ran : {x y : Command} → some x ≡ some y → x.env ≡ y.env
      ran h = cc
