-- ===== src/Net/Address.antt =====
-- net/udp.c: addresses as text.
pub mod Text
mod Tests
use asm_os.Prelude.{
  ℕ, ◌+◌, ◌-◌, ◌*◌, ◌/◌, ◌%◌, ◌^◌, bit_or, Bool, ◌&&◌, Option, none, some, List, [], ◌∷◌, ◌++◌, ltb,
  leb, ◌==◌, if◌then◌else◌, take,
}
use asm_os.Prelude.Words.{u32}

pub is_digit : ℕ → Bool
is_digit c = leb b'0' c && leb c b'9'

-- `parse_octet` with `v` read so far: the number, and the text behind its digits.
pub parse_octet : ℕ → List ℕ → ℕ × List ℕ
unfolding is_digit
parse_octet v [] = (v, [])
parse_octet v (c ∷ cs) =
    let more = parse_octet (u32 (u32 (v * 10) + (c - b'0'))) cs in
    if is_digit c then more else (v, c ∷ cs)

-- `if (*p != '.') return -1; p++;`
pub skip_point : List ℕ → Option (List ℕ)
skip_point [] = none
skip_point (c ∷ cs) = if c == b'.' then some cs else none

-- `(a << 24) | (b << 16) | (c << 8) | d`
pub join_octets : ℕ → ℕ → ℕ → ℕ → ℕ
join_octets a b c d =
    bit_or (bit_or (bit_or (u32 (a * 2 ^ 24)) (u32 (b * 2 ^ 16))) (u32 (c * 2 ^ 8))) d

-- The text behind the fourth number is not looked at.
pub net_parse_ip : List ℕ → Option ℕ
unfolding parse_octet skip_point join_octets
net_parse_ip str =
    let (a, after_a) = parse_octet 0 str in
    elim (skip_point after_a) [
      | none ↦ none
      | some at_b ↦
          let (b, after_b) = parse_octet 0 at_b in
          elim (skip_point after_b) [
            | none ↦ none
            | some at_c ↦
                let (c, after_c) = parse_octet 0 at_c in
                elim (skip_point after_c) [
                  | none ↦ none
                  | some at_d ↦ some (join_octets a b c (parse_octet 0 at_d).0)
                ]
          ]
    ]

-- The digits of an octet in `net_ip_to_str`.
pub octet_text : ℕ → List ℕ
octet_text oct =
    (if leb 100 oct then (b'0' + oct / 100) ∷ [] else [])
    ++ (if leb 10 oct then (b'0' + oct / 10 % 10) ∷ [] else [])
    ++ ((b'0' + oct % 10) ∷ [])

-- The text in `tmp`.
pub ip_text : ℕ → List ℕ
unfolding octet_text
ip_text ip =
    octet_text (ip / 2 ^ 24 % 256)
    ++ (b'.' ∷ octet_text (ip / 2 ^ 16 % 256)
        ++ (b'.' ∷ octet_text (ip / 2 ^ 8 % 256) ++ (b'.' ∷ octet_text (ip % 256))))

-- The buffer is not null; nothing is written to one of less than eight bytes.
pub net_ip_to_str : ℕ → ℕ → Option (List ℕ)
unfolding ip_text
net_ip_to_str ip max = if ltb max 8 then none else some (take (max - 1) (ip_text ip))
