-- ===== src/Net/Icmp/Tests.antt =====
-- Runs of the echo request in net/icmp.c.
use asm_os.Prelude.{◌≡◌, refl, some, [], ◌∷◌, replicate}
use asm_os.Net.Icmp.{Unset, await_reply, is_reply, net_icmp_ping}

abbrev unset : Unset
unset = record { tos = 3; id = 77; frag = 0 }

replied : (net_icmp_ping unset 1 2 ([] ∷ replicate 28 0 ∷ [])).1 ≡ some 1
unfolding net_icmp_ping await_reply is_reply
replied = refl
