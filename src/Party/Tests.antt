-- ===== src/Party/Tests.antt =====
-- Runs of party.c, and its theorems at concrete parties.
use asm_os.Prelude.{ℕ, ◌≡◌, refl, Bool, true, false, some, List, [], ◌∷◌, arith, replicate}
use asm_os.Prelude.CString.{codes}
use asm_os.Transport.{packet_max, Transport, no_session}
use asm_os.Party.{
  msg_join, empty_room, c_string, add_member_by_ip, party_handle_received, Party, party_create,
  party_join, party_poll,
}
use asm_os.Party.Messages.{party_poll-create, party_poll-join}

abbrev network : List (List ℕ) → List ℕ → Bool
network before p = true

abbrev session : Transport
session = record {
  session = record no_session { connected = true; local_seq = 3 };
  tx_buf = replicate packet_max 0;
  rx_buf = replicate packet_max 0;
  initialized = true;
  transport_ticks = 5;
  next_reconnect_tick = 0;
  reconnect_attempts = 0;
  sent = [];
}

abbrev alone : Party
alone = record { room = empty_room; party_initialized = true; transport = session }

abbrev hosting : Party
hosting = record alone {
  room = record empty_room { member_count = 1; is_host = true; in_room = true };
}

party_poll-create_example :
    (p : List ℕ) × ((party_create network (some (codes "den")) alone).1.transport.sent ≡ p ∷ [])
    × ((party_poll network p alone).room ≡ record empty_room {
      name = codes "den";
      member_count = 1;
      is_host = false;
      in_room = true;
    })
party_poll-create_example =
    party_poll-create network (codes "den") alone alone refl refl refl refl (omega arith) (
      (λ e. absurd (omega arith)),
      ((λ e. absurd (omega arith)), ((λ e. absurd (omega arith)), tt)),
    )

party_poll-join_example :
    (p : List ℕ) × ((party_join network alone).1.transport.sent ≡ p ∷ [])
    × ((party_poll network p hosting).room ≡ hosting.room)
party_poll-join_example = party_poll-join network alone hosting refl refl refl refl (omega arith)

-- An address of sixteen bytes or more would be let in.
joins : (party_handle_received (msg_join ∷ codes "192.168.0.123456") hosting.room).member_count ≡ 2
unfolding party_handle_received add_member_by_ip c_string
joins = refl
