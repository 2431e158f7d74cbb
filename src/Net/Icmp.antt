-- ===== src/Net/Icmp.antt =====
-- net/icmp.c: the echo request and its checksum.
pub mod Checksum
mod Tests
use asm_os.Prelude.{
  ℕ, zero, suc, ◌+◌, ◌-◌, ◌*◌, ◌/◌, ◌%◌, ◌^◌, Bool, ◌&&◌, Option, none, some, List, [], ◌∷◌, ◌++◌,
  leb, ◌==◌, if◌then◌else◌, length, get_or, take,
}
use asm_os.Prelude.Words.{u32}
use mathlib.Core.Option

-- The sum of the 16-bit words of the bytes, in 32 bits; an odd last byte is added alone.
pub sum_words : ℕ → List ℕ → ℕ
sum_words sum [] = sum
sum_words sum (x ∷ []) = u32 (sum + x)
sum_words sum (x ∷ y ∷ bytes) = sum_words (u32 (sum + (x + 256 * y))) bytes

-- `while (sum >> 16) sum = (sum & 0xFFFF) + (sum >> 16);`, and `none` when the fuel runs out.
pub fold : ℕ → ℕ → Option ℕ
fold zero sum = none
fold (suc fuel) sum =
    let rest = fold fuel (sum % 2 ^ 16 + sum / 2 ^ 16) in
    if sum / 2 ^ 16 == 0 then some sum else rest

-- The sum of 32 bits is folded in at most three tests.
pub fold_sum : ℕ → ℕ
unfolding fold
fold_sum sum = elim (fold 3 sum) [ none ↦ 0 | some s ↦ s ]

-- `(uint16_t)(~sum)`
pub checksum : List ℕ → ℕ
unfolding sum_words fold_sum
checksum bytes = 0xFFFF - fold_sum (sum_words 0 bytes)

-- The bytes of a word in memory, the low one first.
pub word16 : ℕ → List ℕ
word16 w = w % 256 ∷ w / 256 % 256 ∷ []

pub word32 : ℕ → List ℕ
unfolding word16
word32 w = word16 (w % 2 ^ 16) ++ word16 (w / 2 ^ 16)

-- The fields of the address header that `net_icmp_ping` does not set keep what the memory held.
pub record Unset : Type 0 where
  pub tos : ℕ
  pub id : ℕ
  pub frag : ℕ

-- `ip_hdr_t` as it is sent, with its checksum.
pub ip_header : Unset → ℕ → ℕ → ℕ → List ℕ
unfolding word16 word32
ip_header u src dst sum =
    0x45 ∷ u.tos ∷ word16 28
    ++ (word16 u.id ++ (word16 u.frag ++ (64 ∷ 1 ∷ word16 sum ++ (word32 src ++ word32 dst))))

-- `icmp_hdr_t` of the request.
pub icmp_header : ℕ → List ℕ
unfolding word16
icmp_header sum = 8 ∷ 0 ∷ word16 sum ++ (word16 0x4D4F ++ word16 1)

-- The 28 bytes that `net_icmp_ping` sends.
pub ping_packet : Unset → ℕ → ℕ → List ℕ
unfolding ip_header icmp_header checksum
ping_packet u src dst =
    ip_header u src dst (checksum (ip_header u src dst 0)) ++ icmp_header (checksum (icmp_header 0))

-- The test of a packet in the loop: an echo reply behind the address header.
pub is_reply : List ℕ → Bool
is_reply rx = leb 28 (length rx) && get_or rx 20 0 == 0

-- The loop over what arrives at each try; the result is the number of tries before the reply, each
-- of which waited for a millisecond.
pub await_reply : List (List ℕ) → Option ℕ
unfolding is_reply
await_reply [] = none
await_reply (rx ∷ later) =
    let rest = Option.map suc (await_reply later) in if is_reply (take 128 rx) then some 0 else rest

-- What is sent, and the tries that a reply took; at most 2000 are made.
pub net_icmp_ping : Unset → ℕ → ℕ → List (List ℕ) → List ℕ × Option ℕ
unfolding ping_packet await_reply
net_icmp_ping u own_ip dst_ip arrivals =
    (ping_packet u own_ip dst_ip, await_reply (take 2000 arrivals))
