-- ===== src/Party/Messages.antt =====
-- Messages of party.c on their way over the transport: what a host announces arrives at a guest,
-- and a request to join does not.
use asm_os.Prelude.{
  ℕ, zero, suc, ◌+◌, ◌-◌, ◌^◌, ◌≤◌, ◌<◌, min, ◌≡◌, refl, ◌∙◌, ◌≢◌, Bool, true, false, ◌||◌, some,
  List, [], ◌∷◌, ◌++◌, arith, ltb, length, get_or, take, All, length-append, length-take,
  take-append,
}
use asm_os.Prelude.CString.{codes}
use asm_os.Transport.{max_payload, type_data, Transport}
use asm_os.Party.{
  msg_join, msg_room_info, Room, c_string, handle_room_info, party_handle_received, Party,
  send_party_msg, party_create, party_join, poll_received, party_poll,
}
use asm_os.Transport.Packet.{transport_receive-send}

c_string_whole : (s : List ℕ) (n : ℕ) → All (λ c. c ≢ 0) s → c_string (take n s) ≡ take n s
unfolding c_string
c_string_whole s zero a = refl
c_string_whole [] (suc n) a = refl
c_string_whole (c ∷ s) (suc n) a = let nonzero = a.0 in ground (arith, c_string_whole s n a.1)

positive : (n : ℕ) → ltb 0 (suc n) ≡ true
positive n = ground arith

get_or-last : (xs : List ℕ) (y d : ℕ) → get_or (xs ++ (y ∷ [])) (length xs) d ≡ y
get_or-last [] y d = refl
get_or-last (x ∷ xs) y d = get_or-last xs y d

-- What the receiver makes of an announcement.
announced :
    (text : List ℕ) (room : Room)
    → length text ≤ 31
    → c_string text ≡ text
    → handle_room_info (length text ∷ text ++ (1 ∷ [])) room
      ≡ record room { name = text; member_count = 1; is_host = false; in_room = true }
unfolding handle_room_info
announced text room h c =
    let name_len : min (length text) 31 ≡ length text = omega arith in
    let joined : length (text ++ (1 ∷ [])) ≡ length text + 1 = length-append text (1 ∷ []) in
    let fits : ltb (suc (length text + 1)) 1 || ltb (suc (length text + 1)) (1 + length text + 1)
        ≡ false =
      ground arith in
    let one : 1 + length text ≡ suc (length text) = omega arith in
    let last : get_or (length text ∷ text ++ (1 ∷ [])) (1 + length text) 0 ≡ 1 =
      rw one (get_or-last text 1 0) in
    rw (name_len, joined, fits, take-append text (1 ∷ []) (length text) refl, c, last) refl

module _ (net_send : List (List ℕ) → List ℕ → Bool) where
  -- A message of one party that another one polls.
  poll_message :
      (msg_type : ℕ) (payload : List ℕ) (t : Transport) (g : Party)
      → t.initialized ≡ true
      → g.party_initialized ≡ true
      → g.transport.initialized ≡ true
      → t.session.local_seq < 2 ^ 16
      → length payload < max_payload
      → (p : List ℕ) × ((send_party_msg net_send msg_type payload t).sent ≡ p ∷ t.sent)
        × ((party_poll net_send p g).room
            ≡ poll_received
                (some (record {
                  type = type_data;
                  seq = t.session.local_seq;
                  payload = msg_type ∷ payload;
                }))
                g.room)
  unfolding send_party_msg party_poll
  poll_message msg_type payload t g i j k hs hp =
      let (p, sent, received) =
        transport_receive-send net_send type_data max_payload (msg_type ∷ payload) t g.transport i k
          (omega arith) hs (omega arith) (omega arith) in
      let fits : ltb (max_payload - 1) (length payload) ≡ false = ground arith in
      let one : length payload + 1 ≡ suc (length payload) = omega arith in
      (p, rw (fits, one) sent, rw (j, received) refl)

  -- The guests of a room learn what its host announces: the first 31 characters of the name, and
  -- one member. The host and the guest are set up, and the name has no zero byte.
  pub party_poll-create :
      (name : List ℕ) (h g : Party)
      → h.party_initialized ≡ true
      → h.transport.initialized ≡ true
      → g.party_initialized ≡ true
      → g.transport.initialized ≡ true
      → h.transport.session.local_seq < 2 ^ 16
      → All (λ c. c ≢ 0) name
      → (p : List ℕ) × ((party_create net_send (some name) h).1.transport.sent
          ≡ p ∷ h.transport.sent)
        × ((party_poll net_send p g).room ≡ record (g.room) {
          name = take 31 name;
          member_count = 1;
          is_host = false;
          in_room = true;
        })
  unfolding party_create poll_received party_handle_received
  party_poll-create name h g hi ht gi gt hs a =
      let text = take 31 name in
      let size : length text ≤ 31 = omega (arith, length-take 31 name) in
      let joined : length (text ++ (1 ∷ [])) ≡ length text + 1 = length-append text (1 ∷ []) in
      let (p, sent, polled) =
        poll_message msg_room_info (length text ∷ text ++ (1 ∷ [])) h.transport g ht gi gt hs
          (omega arith) in
      (
        p,
        rw hi sent,
        polled
            ∙ rw (positive (suc (length (text ++ (1 ∷ [])))))
                (announced text g.room size (c_string_whole name 31 a)),
      )

  -- A host ignores every request to join that `party_join` sends: it has seven bytes, and the host
  -- wants sixteen. Both are set up.
  pub party_poll-join :
      (j h : Party)
      → j.party_initialized ≡ true
      → j.transport.initialized ≡ true
      → h.party_initialized ≡ true
      → h.transport.initialized ≡ true
      → j.transport.session.local_seq < 2 ^ 16
      → (p : List ℕ) × ((party_join net_send j).1.transport.sent ≡ p ∷ j.transport.sent)
        × ((party_poll net_send p h).room ≡ h.room)
  unfolding party_join poll_received party_handle_received
  party_poll-join j h ji jt hi ht hs =
      let (p, sent, polled) =
        poll_message msg_join (codes "0.0.0.0") j.transport h jt hi ht hs (omega arith) in
      (p, rw ji sent, polled ∙ ground arith)
