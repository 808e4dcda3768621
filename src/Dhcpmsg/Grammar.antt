-- ===== src/Dhcpmsg/Grammar.antt =====
-- Which bytes `Decode` of lib/dhcpmsg/parse.go takes for a message, and that its loop ends.
use psa_dhcp.Base.{
  ℕ, zero, suc, ◌≤◌, ◌≡◌, ◌≢◌, ◌↔◌, refl, sym, ap, ◌∙◌, arith, false, Bool-cases, inl, inr, Option,
  some, Option-cases, List, [], ◌∷◌, ◌++◌, length, drop, take, append-nil, append_assoc, ltb, leb,
  ◌==◌, ok, Result, length-drop, le→not-ltb, le→leb, ne→not-==, ==_iff,
}
use psa_dhcp.Dhcpmsg.{DhcpOpt, Message}
use psa_dhcp.Dhcpmsg.Parse.{options_loop, ParseError, fixed_part, decode, dhcp_min_len}

-- The grammar of the options: padding anywhere, each option as its code, its length and its bytes,
-- and the end mark, after which anything can follow.
pub data Encodes : List ℕ → List DhcpOpt → Type 0 where
  at_end : {rest : List ℕ} → Encodes (255 ∷ rest) []
  padding : {b : List ℕ} {os : List DhcpOpt} → Encodes b os → Encodes (0 ∷ b) os
  option :
      {code olen : ℕ} {rest : List ℕ} {os : List DhcpOpt}
      → code ≢ 0
      → code ≢ 255
      → olen ≤ length rest
      → Encodes (drop olen rest) os
      → Encodes (code ∷ olen ∷ rest) (record { option = code; payload = take olen rest } ∷ os)

abbrev collected : ℕ → ℕ → List ℕ → List DhcpOpt → List DhcpOpt
collected code olen rest acc = acc ++ (record { option = code; payload = take olen rest } ∷ [])

-- What a round of the loop does on two bytes or more.
data Stepped (code olen : ℕ) (rest : List ℕ) (opt : ℕ) (acc : List DhcpOpt) : Type 0 where
  skips :
      code ≡ 0
      → ((f : ℕ)
          → options_loop (suc f) (code ∷ olen ∷ rest) opt acc
            ≡ options_loop f (olen ∷ rest) code acc)
      → Stepped code olen rest opt acc
  ends :
      code ≡ 255
      → ((f : ℕ) → options_loop (suc f) (code ∷ olen ∷ rest) opt acc ≡ some (code, acc))
      → Stepped code olen rest opt acc
  lacks :
      code ≢ 255
      → ((f : ℕ) → options_loop (suc f) (code ∷ olen ∷ rest) opt acc ≡ some (code, acc))
      → Stepped code olen rest opt acc
  takes :
      code ≢ 0
      → code ≢ 255
      → olen ≤ length rest
      → ((f : ℕ)
          → options_loop (suc f) (code ∷ olen ∷ rest) opt acc
            ≡ options_loop f (drop olen rest) code (collected code olen rest acc))
      → Stepped code olen rest opt acc

step-cases :
    (code olen : ℕ) (rest : List ℕ) (opt : ℕ) (acc : List DhcpOpt) → Stepped code olen rest opt acc
unfolding options_loop
step-cases code olen rest opt acc = elim (Bool-cases (code == 0)) [
  | inl e ↦ skips ((==_iff code 0).0 e) (λ f. rw (e, options_loop) refl)
  | inr n ↦ elim (Bool-cases (code == 255)) [
    | inl e ↦ ends ((==_iff code 255).0 e) (λ f. rw (n, options_loop, e) refl)
    | inr n' ↦ elim (Bool-cases (leb olen (length rest))) [
      | inr l ↦ lacks (λ e. ground arith) (λ f. rw (n, options_loop, n', l) refl)
      | inl l ↦
          takes (λ e. ground arith) (λ e. ground arith) (ground arith)
            (λ f. rw (n, options_loop, n', l) refl)
    ]
  ]
]

-- With as much fuel as bytes the loop of `Decode` ends, and with any more in the same result.
pub options_loop-ends :
    (f f' : ℕ) (b : List ℕ) (opt : ℕ) (acc : List DhcpOpt)
    → length b ≤ f
    → length b ≤ f'
    → (r : ℕ × List DhcpOpt) × (options_loop f b opt acc ≡ some r)
      × (options_loop f' b opt acc ≡ some r)
unfolding options_loop
options_loop-ends f f' [] opt acc h h' = ((opt, acc), refl, refl)
options_loop-ends zero f' (x ∷ b) opt acc h h' = absurd (omega arith)
options_loop-ends (suc f) zero (x ∷ b) opt acc h h' = absurd (omega arith)
options_loop-ends (suc f) (suc f') (x ∷ []) opt acc h h' = elim (Bool-cases (x == 0)) [
  | inl e ↦ ((x, acc), rw (e, options_loop) refl, rw (e, options_loop) refl)
  | inr e ↦ ((x, acc), rw (e, options_loop) refl, rw (e, options_loop) refl)
]
options_loop-ends (suc f) (suc f') (x ∷ olen ∷ rest) opt acc h h' =
    elim (step-cases x olen rest opt acc) [
      | skips z e ↦
          let (r, i, i') = options_loop-ends f f' (olen ∷ rest) x acc (omega arith) (omega arith) in
          (r, e f ∙ i, e f' ∙ i')
      | ends z e ↦ ((x, acc), e f, e f')
      | lacks z e ↦ ((x, acc), e f, e f')
      | takes n1 n2 l e ↦
          let (r, i, i') =
            options_loop-ends f f' (drop olen rest) x (collected x olen rest acc)
              (omega (arith, length-drop olen rest)) (omega (arith, length-drop olen rest)) in
          (r, e f ∙ i, e f' ∙ i')
    ]

step_padding :
    (f : ℕ) (b : List ℕ) (opt : ℕ) (acc : List DhcpOpt)
    → options_loop (suc f) (0 ∷ b) opt acc ≡ options_loop f b 0 acc
unfolding options_loop
step_padding f [] opt acc = refl
step_padding f (x ∷ b) opt acc = refl

step_end :
    (f : ℕ) (b : List ℕ) (opt : ℕ) (acc : List DhcpOpt)
    → options_loop (suc f) (255 ∷ b) opt acc ≡ some (255, acc ++ [])
unfolding options_loop
step_end f [] opt acc = rw append-nil
step_end f (x ∷ b) opt acc = rw append-nil

step_option :
    (f : ℕ) (code olen : ℕ) (rest : List ℕ) (opt : ℕ) (acc : List DhcpOpt)
    → code ≢ 0
    → code ≢ 255
    → olen ≤ length rest
    → options_loop (suc f) (code ∷ olen ∷ rest) opt acc
      ≡ options_loop f (drop olen rest) code (collected code olen rest acc)
unfolding options_loop
step_option f code olen rest opt acc n n' l =
    rw (ne→not-== code 0 n, options_loop, ne→not-== code 255 n', le→leb olen (length rest) l) refl

-- The loop finds the end mark behind the options that the grammar reads.
loop-Encodes :
    {b : List ℕ} {os : List DhcpOpt} (f opt : ℕ) (acc : List DhcpOpt)
    → Encodes b os
    → length b ≤ f
    → options_loop f b opt acc ≡ some (255, acc ++ os)
loop-Encodes (suc f) opt acc (at_end {rest}) h = step_end f rest opt acc
loop-Encodes (suc f) opt acc (padding {b} g) h =
    step_padding f b opt acc ∙ loop-Encodes f 0 acc g (omega arith)
loop-Encodes (suc f) opt acc (option {code} {olen} {rest} {os} n n' l g) h =
    step_option f code olen rest opt acc n n' l
    ∙ loop-Encodes f code (collected code olen rest acc) g (omega (arith, length-drop olen rest))
    ∙ ap (λ r. some (255, r)) (append_assoc acc _ os)
loop-Encodes zero opt acc at_end h = absurd (omega arith)
loop-Encodes zero opt acc (padding g) h = absurd (omega arith)
loop-Encodes zero opt acc (option n n' l g) h = absurd (omega arith)

some-result :
    {a b : ℕ} {r s : List DhcpOpt}
    → ◌≡◌ {A = Option (ℕ × List DhcpOpt)} (some (a, r)) (some (b, s))
    → (a ≡ b) × (r ≡ s)
some-result e = (cc, cc)

not_mark : (x : ℕ) → x ≡ 255 → x ≡ 0 → ⊥
not_mark x m z = omega arith

padded : {x : ℕ} {b : List ℕ} {os : List DhcpOpt} → x ≡ 0 → Encodes b os → Encodes (x ∷ b) os
padded z g = rw z (padding g)

marked :
    (x : ℕ) (rest : List ℕ) (acc : List DhcpOpt) {res : List DhcpOpt}
    → x ≡ 255
    → acc ≡ res
    → (os : List DhcpOpt) × Encodes (x ∷ rest) os × (res ≡ acc ++ os)
marked x rest acc m r = ([], rw m at_end, sym r ∙ sym (append-nil acc))

Encodes-loop :
    (f : ℕ) (b : List ℕ) (opt : ℕ) (acc : List DhcpOpt) {res : List DhcpOpt}
    → opt ≢ 255
    → options_loop f b opt acc ≡ some (255, res)
    → (os : List DhcpOpt) × Encodes b os × (res ≡ acc ++ os)
unfolding options_loop
Encodes-loop f [] opt acc n h = absurd (n (some-result h).0)
Encodes-loop zero (x ∷ b) opt acc n h = cc
Encodes-loop (suc f) (x ∷ []) opt acc n h = elim (Bool-cases (x == 0)) [
  | inl e ↦ absurd (not_mark x (some-result (rw (e, options_loop) at h)).0 ((==_iff x 0).0 e))
  | inr e ↦ let (m, r) = some-result (rw (e, options_loop) at h) in marked x [] acc m r
]
Encodes-loop (suc f) (x ∷ olen ∷ rest) opt acc n h = elim (step-cases x olen rest opt acc) [
  | skips z e ↦
      let (os, g, i) = Encodes-loop f (olen ∷ rest) x acc (λ m. not_mark x m z) (sym (e f) ∙ h) in
      (os, padded z g, i)
  | ends z e ↦ marked x (olen ∷ rest) acc z (some-result (sym (e f) ∙ h)).1
  | lacks z e ↦ absurd (z (some-result (sym (e f) ∙ h)).0)
  | takes n1 n2 l e ↦
      let (os, g, i) =
        Encodes-loop f (drop olen rest) x (collected x olen rest acc) n2 (sym (e f) ∙ h) in
      (_, option n1 n2 l g, i ∙ append_assoc acc _ os)
]

ok-decoded : {m m' : Message} → ◌≡◌ {A = Result ParseError Message} (ok m) (ok m') → m ≡ m'
ok-decoded e = cc

-- `Decode` succeeds on exactly the byte strings that have the fixed part and, behind it, options of
-- the grammar, and gives the message with the fixed part's fields and these options.
pub decode_iff :
    (b : List ℕ) (msg : Message)
    → (decode b ≡ ok msg) ↔ (
        (dhcp_min_len ≤ length b)
        × ((os : List DhcpOpt) × Encodes (drop dhcp_min_len b) os × (msg ≡ fixed_part b os)))
unfolding decode
decode_iff b msg = (
  λ h. elim (Bool-cases (ltb (length b) dhcp_min_len)) [
    | inl e ↦ cc (rw (e, decode) at h)
    | inr long ↦ elim (Option-cases (options_loop (length b) (drop dhcp_min_len b) 0 [])) [
      | inl e ↦ cc (rw (long, decode, e) at h)
      | inr ((opt, res), e) ↦ elim (Bool-cases (opt == 0xff)) [
        | inr m ↦ cc (rw (long, decode, e, m) at h)
        | inl m ↦
            let (os, g, i) =
              Encodes-loop (length b) (drop dhcp_min_len b) 0 [] (λ z. not_mark 0 z refl)
                (e ∙ ap (λ c. some (c, res)) ((==_iff opt 255).0 m)) in
            (
              enough (length b) long,
              (os, g, sym (ok-decoded (rw (long, decode, e, m) at h)) ∙ ap (fixed_part b) i),
            )
      ]
    ]
  ],
  λ (l, (os, g, i)).
      rw
        (
          le→not-ltb (length b) dhcp_min_len l,
          decode,
          loop-Encodes (length b) 0 [] g (omega (arith, length-drop dhcp_min_len b)),
          i,
        )
        refl,
)
  where
    enough : (n : ℕ) → ltb n 240 ≡ false → 240 ≤ n
    enough n h = ground arith
