-- ===== src/Net/Tests.antt =====
-- Runs of net/udp.c and net/icmp.c, and their theorems at concrete packets.
use asm_os.Prelude.{ℕ, ◌≡◌, refl, true, some, List, [], ◌∷◌, arith, take, drop, replicate}
use asm_os.Net.{
  rx_slots, net_max_payload, Slot, no_slot, Ring, copy_into, ring_push, ring_pop, Net,
  parse_datagram, push_datagram, read_slot, read_first, net_udp_recv, is_ping, net_udp_send,
  await_ping, net_ping,
}
use asm_os.Net.Queue.{IsRing, push, pop, contents, run_ring, run_queue, run_ring-eq-run_queue}
use asm_os.Net.Address.{net_parse_ip, net_ip_to_str}
use asm_os.Net.Address.Text.{net_parse_ip-to_str}
use asm_os.Net.Icmp.{Unset, ping_packet}
use asm_os.Net.Icmp.Checksum.{Verifies, checksum-ping_packet}

abbrev free_slot : Slot
free_slot = record no_slot { bytes = replicate net_max_payload 0 }

abbrev empty_ring : Ring
empty_ring = record { rx_ring = replicate rx_slots free_slot; rx_head = 6; rx_tail = 6 }

empty-IsRing : IsRing empty_ring
empty-IsRing = record {
  slots = refl;
  head = omega arith;
  tail = omega arith;
  arrays = (refl, (refl, (refl, (refl, (refl, (refl, (refl, (refl, tt))))))));
}

abbrev online : Net
online = record { ring = empty_ring; net_up = true; sent = [] }

run_ring-eq-run_queue_example :
    run_ring (push 1 2 (7 ∷ []) ∷ pop ∷ pop ∷ []) empty_ring
    ≡ run_queue (push 1 2 (7 ∷ []) ∷ pop ∷ pop ∷ []) (contents empty_ring)
run_ring-eq-run_queue_example =
    run_ring-eq-run_queue (push 1 2 (7 ∷ []) ∷ pop ∷ pop ∷ []) empty_ring empty-IsRing

net_parse_ip-to_str_example :
    (text : List ℕ) × (net_ip_to_str 0xC0A8000C 16 ≡ some text)
    × (net_parse_ip text ≡ some 0xC0A8000C)
net_parse_ip-to_str_example = net_parse_ip-to_str 0xC0A8000C 16 (omega arith) (omega arith)

abbrev unset : Unset
unset = record { tos = 3; id = 77; frag = 0 }

checksum-ping_packet_example :
    Verifies (take 20 (ping_packet unset 0x0100007F 0x0200007F))
    × Verifies (drop 20 (ping_packet unset 0x0100007F 0x0200007F))
checksum-ping_packet_example = checksum-ping_packet unset 0x0100007F 0x0200007F (omega arith)

-- A ping of the own address is answered by the own ring.
pinged : (net_ping 5 (some 5) ([] ∷ []) online).0 ≡ true
unfolding net_ping await_ping is_ping net_udp_send net_udp_recv push_datagram parse_datagram
    ring_push ring_pop copy_into read_first read_slot
pinged = refl
