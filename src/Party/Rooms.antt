-- ===== src/Party/Rooms.antt =====
-- The room of party.c stays within its slots, and what a host announces arrives at a guest.
use asm_os.Prelude.{
  ℕ, zero, suc, ◌+◌, ◌-◌, ◌≤◌, min, ◌≡◌, refl, ◌∙◌, inl, inr, Bool, true, not, ◌&&◌, ◌||◌, Option,
  none, some, List, [], ◌∷◌, arith, ltb, leb, ◌==◌, Bool-cases, length, get_or, set, take, drop,
  length-set,
}
use asm_os.Transport.{max_payload, type_data, Received, transport_receive}
use asm_os.Party.{
  room_name_max, member_max, ip_str_max, msg_create, msg_join, msg_member_list, msg_room_info,
  Member, Room, empty_room, c_string, member_of, add_member_by_ip, handle_room_info, store_members,
  handle_member_list, party_handle_received, Party, party_init, party_create, party_invite,
  party_join, party_leave, party_chat, poll_received, party_poll,
}

-- What an operation keeps: the members counted have a slot.
pub record IsSound (room : Room) : Type 0 where
  pub slots : length room.members ≡ member_max
  pub counted : room.member_count ≤ member_max

length-store_members :
    (n i : ℕ) (rest : List ℕ) (members : List Member)
    → length (store_members n i rest members) ≡ length members
unfolding store_members
length-store_members zero i rest members = refl
length-store_members (suc n) i rest members =
    let member : Member = record { ip = c_string (take (ip_str_max - 1) rest); active = true } in
    ground (
      arith,
      length-store_members n (i + 1) (drop ip_str_max rest) (set members i member),
      length-set members i member,
    )

add_member_by_ip-IsSound :
    (ip : List ℕ) (room : Room) → IsSound room → IsSound (add_member_by_ip ip room)
unfolding add_member_by_ip
add_member_by_ip-IsSound ip room h = elim (Bool-cases (leb member_max room.member_count)) [
  | inl full ↦ rw full h
  | inr fits ↦ rw fits (record {
    slots = length-set room.members room.member_count (member_of ip) ∙ h.slots;
    counted = ground arith;
  })
]

handle_room_info-IsSound :
    (p : List ℕ) (room : Room) → IsSound room → IsSound (handle_room_info p room)
unfolding handle_room_info
handle_room_info-IsSound p room h =
    let name_len = min (get_or p 0 0) (room_name_max - 1) in
    elim (Bool-cases (ltb (length p) 1 || ltb (length p) (1 + name_len + 1))) [
      | inl short ↦ rw short h
      | inr long ↦ rw long (record { slots = h.slots; counted = omega arith })
    ]

handle_member_list-IsSound :
    (p : List ℕ) (room : Room) → IsSound room → IsSound (handle_member_list p room)
unfolding handle_member_list
handle_member_list-IsSound p room h =
    let count = min (get_or p 0 0) member_max in
    elim (Bool-cases (ltb (length p) 1)) [
      | inl short ↦ rw short h
      | inr long ↦ rw long (record {
        slots = length-store_members count 0 (drop 1 p) room.members ∙ h.slots;
        counted = omega arith;
      })
    ]

party_handle_received-IsSound :
    (p : List ℕ) (room : Room) → IsSound room → IsSound (party_handle_received p room)
unfolding party_handle_received
party_handle_received-IsSound [] room h = h
party_handle_received-IsSound (msg_type ∷ p) room h =
    elim (Bool-cases (msg_type == msg_room_info)) [
      | inl y ↦ rw y (handle_room_info-IsSound p room h)
      | inr n ↦ elim (Bool-cases (msg_type == msg_member_list)) [
        | inl y ↦ rw (n, y) (handle_member_list-IsSound p room h)
        | inr n2 ↦
            elim (Bool-cases (msg_type == msg_join && room.is_host && leb ip_str_max (length p))) [
              | inl y ↦ rw (n, n2, y) (add_member_by_ip-IsSound (c_string p) room h)
              | inr n3 ↦ rw (n, n2, n3) h
            ]
      ]
    ]

-- The calls of the program and of what it polls.
pub data Call : Type 0 where
  init : Call
  create : Option (List ℕ) → Call
  invite : Option (List ℕ) → Call
  join : Call
  leave : Call
  chat : Option (List ℕ) → Call
  poll : List ℕ → Call

module _ (net_send : List (List ℕ) → List ℕ → Bool) where
  poll_received-IsSound :
      (r : Option Received) (room : Room) → IsSound room → IsSound (poll_received r room)
  unfolding poll_received
  poll_received-IsSound none room h = h
  poll_received-IsSound (some r) room h =
      let msg_type = get_or r.payload 0 0 in
      elim (Bool-cases (
        ltb 0 (length r.payload)
        && r.type == type_data
        && leb msg_create msg_type
        && leb msg_type msg_room_info)) [
          | inl y ↦ rw y (party_handle_received-IsSound r.payload room h)
          | inr n ↦ rw n h
        ]

  pub call : Call → Party → Party
  unfolding party_init party_create party_invite party_join party_leave party_chat party_poll
  call init s = party_init s
  call (create name) s = (party_create net_send name s).1
  call (invite ip) s = (party_invite net_send ip s).1
  call join s = (party_join net_send s).1
  call leave s = party_leave net_send s
  call (chat msg) s = (party_chat net_send msg s).1
  call (poll arrived) s = party_poll net_send arrived s

  pub run_calls : List Call → Party → Party
  unfolding call
  run_calls [] s = s
  run_calls (c ∷ cs) s = run_calls cs (call c s)

  empty-IsSound : IsSound empty_room
  empty-IsSound = record { slots = refl; counted = omega arith }

  party_invite-IsSound :
      (ip : Option (List ℕ)) (s : Party)
      → IsSound s.room
      → IsSound (party_invite net_send ip s).1.room
  unfolding party_invite
  party_invite-IsSound none s h =
      elim (Bool-cases (
        not s.party_initialized
        || not s.room.in_room
        || not s.room.is_host
        || leb member_max s.room.member_count)) [ inl stop ↦ rw stop h | inr go ↦ rw go h ]
  party_invite-IsSound (some a) s h =
      elim (Bool-cases (
        not s.party_initialized
        || not s.room.in_room
        || not s.room.is_host
        || leb member_max s.room.member_count)) [
          | inl stop ↦ rw stop h
          | inr go ↦ rw go (record {
            slots = length-set s.room.members s.room.member_count (member_of a) ∙ h.slots;
            counted = ground arith;
          })
        ]

  party_poll-IsSound :
      (arrived : List ℕ) (s : Party) → IsSound s.room → IsSound (party_poll net_send arrived s).room
  unfolding party_poll
  party_poll-IsSound arrived s h =
      let received = (transport_receive net_send arrived true max_payload s.transport).0 in
      elim (Bool-cases s.party_initialized) [
        | inl y ↦ rw y (poll_received-IsSound received s.room h)
        | inr n ↦ rw n h
      ]

  party_chat_room :
      (msg : Option (List ℕ)) (s : Party) → (party_chat net_send msg s).1.room ≡ s.room
  unfolding party_chat
  party_chat_room none s = ground arith
  party_chat_room (some m) s = ground arith

  call-IsSound : (c : Call) (s : Party) → IsSound s.room → IsSound (call c s).room
  unfolding call party_init party_create party_join party_leave party_chat
  call-IsSound init s h = elim (Bool-cases s.party_initialized) [
    | inl y ↦ rw y h
    | inr n ↦ rw n empty-IsSound
  ]
  call-IsSound (create name) s h = elim (Bool-cases s.party_initialized) [
    | inl y ↦ rw y (record { slots = refl; counted = omega arith })
    | inr n ↦ rw n h
  ]
  call-IsSound (invite ip) s h = party_invite-IsSound ip s h
  call-IsSound join s h = elim (Bool-cases s.party_initialized) [
    | inl y ↦ rw y (record { slots = refl; counted = omega arith })
    | inr n ↦ rw n h
  ]
  call-IsSound leave s h = empty-IsSound
  call-IsSound (chat msg) s h = rw (party_chat_room msg s) h
  call-IsSound (poll arrived) s h = party_poll-IsSound arrived s h

  -- In every run of calls, with any message that arrives, the members counted never exceed the
  -- slots of the room.
  pub run_calls-IsSound :
      (cs : List Call) (s : Party) → IsSound s.room → IsSound (run_calls cs s).room
  unfolding run_calls
  run_calls-IsSound [] s h = h
  run_calls-IsSound (c ∷ cs) s h = run_calls-IsSound cs (call c s) (call-IsSound c s h)
