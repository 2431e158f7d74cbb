-- ===== src/Net/Address/Text.antt =====
-- An address of net/udp.c that is printed is read back.
use asm_os.Prelude.{
  ℕ, ◌+◌, ◌-◌, ◌*◌, ◌/◌, ◌%◌, ◌^◌, ◌≤◌, ◌<◌, bit_or, ◌≡◌, refl, sym, ap, ◌∙◌, inl, inr, true, false,
  ◌&&◌, some, List, [], ◌∷◌, ◌++◌, append-nil, arith, ltb, leb, Bool-cases, length, get_or,
  length-append, take_all,
}
use asm_os.Prelude.Words.{u32}
use asm_os.Prelude.Bits.{bit_or_disjoint, shift}
use asm_os.Net.Address.{
  is_digit, parse_octet, skip_point, join_octets, net_parse_ip, octet_text, ip_text, net_ip_to_str,
}

parse_octet-stops :
    (v : ℕ) (s : List ℕ) → is_digit (get_or s 0 0) ≡ false → parse_octet v s ≡ (v, s)
unfolding parse_octet
parse_octet-stops v [] h = refl
parse_octet-stops v (c ∷ cs) h = rw h refl

parse_octet-digit :
    (v d : ℕ) (s : List ℕ)
    → d < 10
    → v * 10 + d < 2 ^ 32
    → parse_octet v ((b'0' + d) ∷ s) ≡ parse_octet (v * 10 + d) s
unfolding parse_octet is_digit
parse_octet-digit v d s h b =
    let digit : leb b'0' (b'0' + d) && leb (b'0' + d) b'9' ≡ true = ground arith in
    let value : u32 (u32 (v * 10) + (b'0' + d - b'0')) ≡ v * 10 + d = omega arith in
    rw (digit, value) refl

-- An octet is read back from its digits.
parse_octet-text :
    (o : ℕ) (s : List ℕ)
    → o < 256
    → is_digit (get_or s 0 0) ≡ false
    → parse_octet 0 (octet_text o ++ s) ≡ (o, s)
unfolding octet_text
parse_octet-text o s h stop = elim (Bool-cases (leb 100 o)) [
  | inl hundreds ↦
      let tens : leb 10 o ≡ true = ground arith in
      let whole : ((0 * 10 + o / 100) * 10 + o / 10 % 10) * 10 + o % 10 ≡ o = omega arith in
      rw (hundreds, tens)
        (parse_octet-digit 0 (o / 100) ((b'0' + o / 10 % 10) ∷ (b'0' + o % 10) ∷ s) (omega arith)
            (omega arith)
          ∙ parse_octet-digit (0 * 10 + o / 100) (o / 10 % 10) ((b'0' + o % 10) ∷ s) (omega arith)
              (omega arith)
          ∙ parse_octet-digit ((0 * 10 + o / 100) * 10 + o / 10 % 10) (o % 10) s (omega arith)
              (omega arith)
          ∙ parse_octet-stops (((0 * 10 + o / 100) * 10 + o / 10 % 10) * 10 + o % 10) s stop
          ∙ ap (λ v. (v, s)) whole)
  | inr small ↦ elim (Bool-cases (leb 10 o)) [
    | inl tens ↦
        let whole : (0 * 10 + o / 10 % 10) * 10 + o % 10 ≡ o = ground arith in
        rw (small, tens)
          (parse_octet-digit 0 (o / 10 % 10) ((b'0' + o % 10) ∷ s) (omega arith) (omega arith)
            ∙ parse_octet-digit (0 * 10 + o / 10 % 10) (o % 10) s (omega arith) (omega arith)
            ∙ parse_octet-stops ((0 * 10 + o / 10 % 10) * 10 + o % 10) s stop
            ∙ ap (λ v. (v, s)) whole)
    | inr ones ↦
        let whole : 0 * 10 + o % 10 ≡ o = ground arith in
        rw (small, ones)
          (parse_octet-digit 0 (o % 10) s (omega arith) (omega arith)
            ∙ parse_octet-stops (0 * 10 + o % 10) s stop
            ∙ ap (λ v. (v, s)) whole)
  ]
]

join_octets_lem :
    (a b c d : ℕ)
    → a < 256
    → b < 256
    → c < 256
    → d < 256
    → join_octets a b c d ≡ a * 2 ^ 24 + b * 2 ^ 16 + c * 2 ^ 8 + d
unfolding join_octets
join_octets_lem a b c d ha hb hc hd =
    let a' : u32 (a * 2 ^ 24) ≡ shift 24 a = omega arith in
    let b' : u32 (b * 2 ^ 16) ≡ b * 2 ^ 16 = omega arith in
    let c' : u32 (c * 2 ^ 8) ≡ c * 2 ^ 8 = omega arith in
    let ab : shift 24 a + b * 2 ^ 16 ≡ shift 16 (a * 2 ^ 8 + b) = omega arith in
    let abc : shift 16 (a * 2 ^ 8 + b) + c * 2 ^ 8 ≡ shift 8 (a * 2 ^ 16 + b * 2 ^ 8 + c) =
      omega arith in
    ap (λ x. bit_or (bit_or (bit_or x (u32 (b * 2 ^ 16))) (u32 (c * 2 ^ 8))) d) a'
    ∙ ap (λ x. bit_or (bit_or (bit_or (shift 24 a) x) (u32 (c * 2 ^ 8))) d) b'
    ∙ ap (λ x. bit_or (bit_or x (u32 (c * 2 ^ 8))) d)
        (bit_or_disjoint 24 a (b * 2 ^ 16) (omega arith) ∙ ab)
    ∙ ap (λ x. bit_or (bit_or (shift 16 (a * 2 ^ 8 + b)) x) d) c'
    ∙ ap (λ x. bit_or x d) (bit_or_disjoint 16 (a * 2 ^ 8 + b) (c * 2 ^ 8) (omega arith) ∙ abc)
    ∙ bit_or_disjoint 8 (a * 2 ^ 16 + b * 2 ^ 8 + c) d (omega arith)
    ∙ omega arith

net_parse_ip_lem :
    (s at_b at_c at_d : List ℕ) (a b c d : ℕ)
    → parse_octet 0 s ≡ (a, b'.' ∷ at_b)
    → parse_octet 0 at_b ≡ (b, b'.' ∷ at_c)
    → parse_octet 0 at_c ≡ (c, b'.' ∷ at_d)
    → parse_octet 0 at_d ≡ (d, [])
    → net_parse_ip s ≡ some (join_octets a b c d)
unfolding net_parse_ip skip_point
net_parse_ip_lem s at_b at_c at_d a b c d pa pb pc pd =
    rw (net_parse_ip, pa, pb, pc, pd) (λ i. some (join_octets (pa i).0 (pb i).0 (pc i).0 d))

net_parse_ip-ip_text : (ip : ℕ) → ip < 2 ^ 32 → net_parse_ip (ip_text ip) ≡ some ip
unfolding ip_text is_digit
net_parse_ip-ip_text ip h =
    let a = ip / 2 ^ 24 % 256 in
    let b = ip / 2 ^ 16 % 256 in
    let c = ip / 2 ^ 8 % 256 in
    let d = ip % 256 in
    let at_d = octet_text d in
    let at_c = octet_text c ++ (b'.' ∷ at_d) in
    let at_b = octet_text b ++ (b'.' ∷ at_c) in
    net_parse_ip_lem (octet_text a ++ (b'.' ∷ at_b)) at_b at_c at_d a b c d
      (parse_octet-text a (b'.' ∷ at_b) (omega arith) refl)
      (parse_octet-text b (b'.' ∷ at_c) (omega arith) refl)
      (parse_octet-text c (b'.' ∷ at_d) (omega arith) refl)
      (ap (parse_octet 0) (sym (append-nil at_d)) ∙ parse_octet-text d [] (omega arith) refl)
    ∙ ap some (
        join_octets_lem a b c d (omega arith) (omega arith) (omega arith) (omega arith)
        ∙ omega arith)

length-octet_text : (o : ℕ) → length (octet_text o) ≤ 3
unfolding octet_text
length-octet_text o = ground arith

length-ip_text : (ip : ℕ) → length (ip_text ip) ≤ 15
unfolding ip_text
length-ip_text ip =
    let a = octet_text (ip / 2 ^ 24 % 256) in
    let b = octet_text (ip / 2 ^ 16 % 256) in
    let c = octet_text (ip / 2 ^ 8 % 256) in
    let d = octet_text (ip % 256) in
    omega (
      arith,
      length-append a (b'.' ∷ b ++ (b'.' ∷ c ++ (b'.' ∷ d))),
      length-append b (b'.' ∷ c ++ (b'.' ∷ d)),
      length-append c (b'.' ∷ d),
      length-octet_text (ip / 2 ^ 24 % 256),
      length-octet_text (ip / 2 ^ 16 % 256),
      length-octet_text (ip / 2 ^ 8 % 256),
      length-octet_text (ip % 256),
    )

-- Every address that is printed into a buffer of at least sixteen bytes is read back as it was.
pub net_parse_ip-to_str :
    (ip max : ℕ)
    → ip < 2 ^ 32
    → 16 ≤ max
    → (text : List ℕ) × (net_ip_to_str ip max ≡ some text) × (net_parse_ip text ≡ some ip)
unfolding net_ip_to_str
net_parse_ip-to_str ip max h m =
    let large : ltb max 8 ≡ false = ground arith in
    let whole = take_all (max - 1) (ip_text ip) (omega (arith, length-ip_text ip)) in
    (ip_text ip, rw large (ap some whole), net_parse_ip-ip_text ip h)
