-- ===== src/Party.antt =====
-- party.c: rooms on the local network, over the transport. A C string is the list of its bytes
-- before the terminator; what arrives at a poll is a parameter of it.
pub mod Rooms
pub mod Messages
mod Tests
use asm_os.Prelude.{
  ℕ, zero, suc, ◌+◌, ◌-◌, min, Bool, true, false, not, ◌&&◌, ◌||◌, Option, none, some, List, [],
  ◌∷◌, ◌++◌, ltb, leb, ◌==◌, if◌then◌else◌, length, get_or, set, take, drop, replicate,
}
use asm_os.Prelude.CString.{codes}
use asm_os.Transport.{
  max_payload, type_data, Transport, transport_init, Received, transport_send, transport_receive,
}

abbrev pub room_name_max : ℕ
room_name_max = 32

abbrev pub member_max : ℕ
member_max = 8

abbrev pub ip_str_max : ℕ
ip_str_max = 16

abbrev pub chat_msg_max : ℕ
chat_msg_max = 128

abbrev pub msg_create : ℕ
msg_create = 0x01

abbrev pub msg_invite : ℕ
msg_invite = 0x02

abbrev pub msg_join : ℕ
msg_join = 0x03

abbrev pub msg_leave : ℕ
msg_leave = 0x04

abbrev pub msg_chat : ℕ
msg_chat = 0x05

abbrev pub msg_member_list : ℕ
msg_member_list = 0x06

abbrev pub msg_room_info : ℕ
msg_room_info = 0x07

pub record Member : Type 0 where
  pub ip : List ℕ
  pub active : Bool

pub record Room : Type 0 where
  pub name : List ℕ
  pub members : List Member
  pub member_count : ℕ
  pub is_host : Bool
  pub in_room : Bool

-- `clear_room`.
abbrev pub empty_room : Room
empty_room = record {
  name = [];
  members = replicate member_max (record { ip = []; active = false });
  member_count = 0;
  is_host = false;
  in_room = false;
}

-- The C string at the start of the bytes.
pub c_string : List ℕ → List ℕ
c_string [] = []
c_string (b ∷ bs) = if b == 0 then [] else b ∷ c_string bs

-- The member that a copied address makes.
pub member_of : List ℕ → Member
member_of ip = record { ip = take (ip_str_max - 1) ip; active = true }

pub add_member_by_ip : List ℕ → Room → Room
unfolding member_of
add_member_by_ip ip room = if leb member_max room.member_count then room else record room {
  members = set room.members room.member_count (member_of ip);
  member_count = room.member_count + 1;
}

pub handle_room_info : List ℕ → Room → Room
unfolding c_string
handle_room_info p room =
    let name_len = min (get_or p 0 0) (room_name_max - 1) in
    if ltb (length p) 1 || ltb (length p) (1 + name_len + 1) then room else record room {
      name = c_string (take name_len (drop 1 p));
      member_count = min (get_or p (1 + name_len) 0) member_max;
      is_host = false;
      in_room = true;
    }

-- The loop of `handle_member_list`, from member `i` on: `n` members are left and `rest` is what
-- stands in the message from `off` on.
pub store_members : ℕ → ℕ → List ℕ → List Member → List Member
unfolding c_string
store_members zero i rest members = members
store_members (suc n) i rest members =
    let member : Member = record { ip = c_string (take (ip_str_max - 1) rest); active = true } in
    let later = store_members n (i + 1) (drop ip_str_max rest) (set members i member) in
    if leb ip_str_max (length rest) then later else members

pub handle_member_list : List ℕ → Room → Room
unfolding store_members
handle_member_list p room =
    let count = min (get_or p 0 0) member_max in
    if ltb (length p) 1 then room else record room {
      members = store_members count 0 (drop 1 p) room.members;
      member_count = count;
    }

-- The message without its type.
pub party_handle_received : List ℕ → Room → Room
unfolding handle_room_info handle_member_list add_member_by_ip c_string
party_handle_received [] room = room
party_handle_received (msg_type ∷ p) room =
    if msg_type == msg_room_info
    then handle_room_info p room
    else if msg_type == msg_member_list
    then handle_member_list p room
    else if msg_type == msg_join && room.is_host && leb ip_str_max (length p)
    then add_member_by_ip (c_string p) room
    else room

pub record Party : Type 0 where
  pub room : Room
  pub party_initialized : Bool
  pub transport : Transport

pub party_init : Party → Party
party_init s = if s.party_initialized then s else record {
  room = empty_room;
  party_initialized = true;
  transport = transport_init s.transport;
}

-- What `party_poll` does with what the transport received.
pub poll_received : Option Received → Room → Room
unfolding party_handle_received
poll_received none room = room
poll_received (some r) room =
    let msg_type = get_or r.payload 0 0 in
    if ltb 0 (length r.payload)
      && r.type == type_data
      && leb msg_create msg_type
      && leb msg_type msg_room_info
    then party_handle_received r.payload room
    else room

module _ (net_send : List (List ℕ) → List ℕ → Bool) where
  -- The result of `transport_send` is ignored.
  pub send_party_msg : ℕ → List ℕ → Transport → Transport
  send_party_msg msg_type payload t =
      if ltb (max_payload - 1) (length payload)
      then t
      else (transport_send net_send type_data (some (msg_type ∷ payload)) (length payload + 1) t).1

  pub party_create : Option (List ℕ) → Party → Bool × Party
  unfolding send_party_msg
  party_create name s =
      let text = take (room_name_max - 1) (elim name [ none ↦ [] | some n ↦ n ]) in
      let room : Room = record {
        name = text;
        members = set empty_room.members 0 (record { ip = []; active = true });
        member_count = 1;
        is_host = true;
        in_room = true;
      } in
      if not s.party_initialized then (false, s) else (
        true,
        record s {
          room = room;
          transport = send_party_msg msg_room_info (length text ∷ text ++ (1 ∷ [])) s.transport;
        },
      )

  -- The bytes sent are the address and the byte after what was copied of it.
  pub party_invite : Option (List ℕ) → Party → Bool × Party
  unfolding member_of send_party_msg
  party_invite ip s =
      if not s.party_initialized
        || not s.room.in_room
        || not s.room.is_host
        || leb member_max s.room.member_count
      then (false, s)
      else elim ip [
        | none ↦ (false, s)
        | some a ↦ (
          true,
          record s {
            room = record (s.room) {
              members = set s.room.members s.room.member_count (member_of a);
              member_count = s.room.member_count + 1;
            };
            transport = send_party_msg msg_invite (take ip_str_max (a ++ (0 ∷ []))) s.transport;
          },
        )
      ]

  -- The address to join is ignored.
  pub party_join : Party → Bool × Party
  unfolding send_party_msg
  party_join s =
      let room : Room = record empty_room {
        members = set empty_room.members 0 (record { ip = []; active = true });
        member_count = 1;
        in_room = true;
      } in
      if not s.party_initialized then (false, s) else (
        true,
        record s { room = room; transport = send_party_msg msg_join (codes "0.0.0.0") s.transport },
      )

  pub party_leave : Party → Party
  unfolding send_party_msg
  party_leave s = record s {
    room = empty_room;
    transport = send_party_msg msg_leave [] s.transport;
  }

  pub party_chat : Option (List ℕ) → Party → Bool × Party
  unfolding send_party_msg
  party_chat msg s =
      if not s.party_initialized || not s.room.in_room then (false, s) else elim msg [
        | none ↦ (false, s)
        | some m ↦ (
          true,
          record s {
            transport = send_party_msg msg_chat (take chat_msg_max (m ++ (0 ∷ []))) s.transport;
          },
        )
      ]

  pub party_poll : List ℕ → Party → Party
  unfolding poll_received
  party_poll arrived s =
      let (received, t) = transport_receive net_send arrived true max_payload s.transport in
      if s.party_initialized
      then record s { room = poll_received received s.room; transport = t }
      else s

  pub party_list : List ℕ → Party → Bool × Party
  unfolding party_poll
  party_list arrived s = if s.party_initialized then (true, party_poll arrived s) else (false, s)
