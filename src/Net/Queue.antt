-- ===== src/Net/Queue.antt =====
-- The ring of net/udp.c is a queue.
use asm_os.Prelude.{
  ℕ, zero, suc, ◌+◌, ◌-◌, ◌%◌, ◌≤◌, ◌<◌, min, ◌≡◌, refl, sym, ap, ◌∙◌, ◌≢◌, inl, inr, true, false,
  Option, none, some, List, [], ◌∷◌, ◌++◌, arith, ℕ_discrete, ltb, ◌==◌, if◌then◌else◌, Bool-cases,
  length, get_or, set, take, drop, All, length-append, length-set, length-take, length-drop,
  take-append, get_or-set_self, get_or-set_ne, All-set, All-get_or,
}
use mathlib.Core.Path.{subst}
use mathlib.Core.Option
use asm_os.Net.{net_max_payload, Slot, no_slot, Ring, copy_into, ring_push, ring_pop}

-- What a reader sees of a slot: stale bytes behind the payload do not count.
pub record Item : Type 0 where
  pub from : ℕ
  pub port : ℕ
  pub size : ℕ
  pub bytes : List ℕ

pub item : Slot → Item
item s = record {
  from = s.src_ip;
  port = s.src_port;
  size = s.len;
  bytes = take (min s.len net_max_payload) s.bytes;
}

-- `n` items from slot `h` on, around the end of the array.
pub view : ℕ → ℕ → List Slot → List Item
unfolding item
view zero h ss = []
view (suc n) h ss = item (get_or ss h no_slot) ∷ view n ((h + 1) % 8) ss

-- The ring as a queue: what it holds, the oldest first.
pub contents : Ring → List Item
unfolding view
contents r = view ((r.rx_tail + 8 - r.rx_head) % 8) r.rx_head r.rx_ring

-- The array and its indices, in range.
pub record IsRing (r : Ring) : Type 0 where
  pub slots : length r.rx_ring ≡ 8
  pub head : r.rx_head < 8
  pub tail : r.rx_tail < 8
  pub arrays : All (λ s. length s.bytes ≡ net_max_payload) r.rx_ring

-- A queue of at most seven items that drops what does not fit.
pub enqueue : Item → List Item → List Item
enqueue x xs = if ltb (length xs) 7 then xs ++ (x ∷ []) else xs

-- The item that a payload makes.
pub item_of : ℕ → ℕ → List ℕ → Item
item_of sip sport src = record {
  from = sip;
  port = sport;
  size = length src;
  bytes = take net_max_payload src;
}

length-view : (n h : ℕ) (ss : List Slot) → length (view n h ss) ≡ n
unfolding view
length-view zero h ss = refl
length-view (suc n) h ss = ap suc (length-view n ((h + 1) % 8) ss)

-- A slot behind the items is not among them.
view-set :
    (n k h t : ℕ) (ss : List Slot) (x : Slot)
    → h < 8
    → n + k < 8
    → t ≡ (h + n + k) % 8
    → view n h (set ss t x) ≡ view n h ss
unfolding view
view-set zero k h t ss x l m e = refl
view-set (suc n) k h t ss x l m e =
    let apart : t ≢ h = λ same. absurd (omega arith) in
    let rest = view-set n k ((h + 1) % 8) t ss x (omega arith) (omega arith) (omega arith) in
    ap (λ s. item s ∷ view n ((h + 1) % 8) (set ss t x)) (get_or-set_ne ss t h x no_slot apart)
    ∙ ap (λ r. item (get_or ss h no_slot) ∷ r) rest

view-snoc :
    (n h : ℕ) (ss : List Slot)
    → h < 8
    → view (suc n) h ss ≡ view n h ss ++ (item (get_or ss ((h + n) % 8) no_slot) ∷ [])
unfolding view
view-snoc zero h ss l =
    let here : (h + 0) % 8 ≡ h = omega arith in ap (λ i. item (get_or ss i no_slot) ∷ []) (sym here)
view-snoc (suc n) h ss l =
    let there : ((h + 1) % 8 + n) % 8 ≡ (h + suc n) % 8 = omega arith in
    ap (λ r. item (get_or ss h no_slot) ∷ r)
      (view-snoc n ((h + 1) % 8) ss (omega arith)
        ∙ ap (λ i. view n ((h + 1) % 8) ss ++ (item (get_or ss i no_slot) ∷ [])) there)

-- What a payload leaves in a slot, seen as an item.
item-copy :
    (sip sport : ℕ) (src old : List ℕ)
    → item (record { src_ip = sip; src_port = sport; len = length src; bytes = copy_into old src })
      ≡ item_of sip sport src
unfolding item item_of copy_into
item-copy sip sport src old =
    let new = take net_max_payload src in
    let size : min (length src) net_max_payload ≡ length new =
      omega (arith, length-take net_max_payload src) in
    ap (λ bytes. record { from = sip; port = sport; size = length src; bytes = bytes })
      (ap (λ n. take n (new ++ drop (length new) old)) size
        ∙ take-append new (drop (length new) old) (length new) refl)

-- A slot written behind `n` items is one item more.
view-written :
    (n h t : ℕ) (ss : List Slot) (s : Slot)
    → length ss ≡ 8
    → h < 8
    → n < 7
    → (h + n) % 8 ≡ t
    → view (suc n) h (set ss t s) ≡ view n h ss ++ (item s ∷ [])
view-written n h t ss s l b m e =
    let inside : t < length ss = omega arith in
    view-snoc n h (set ss t s) b
    ∙ ap (λ i. view n h (set ss t s) ++ (item (get_or (set ss t s) i no_slot) ∷ [])) e
    ∙ ap (λ x. view n h (set ss t s) ++ (item x ∷ [])) (get_or-set_self ss t s no_slot inside)
    ∙ ap (λ v. v ++ (item s ∷ [])) (view-set n 0 h t ss s b (omega arith) (omega arith))

pub ring_push-room :
    (sip sport : ℕ) (src : List ℕ) (r : Ring)
    → ((r.rx_tail + 1) % 8 == r.rx_head) ≡ false
    → ring_push sip sport src r ≡ record r {
      rx_ring = set r.rx_ring r.rx_tail (record {
        src_ip = sip;
        src_port = sport;
        len = length src;
        bytes = copy_into (get_or r.rx_ring r.rx_tail no_slot).bytes src;
      });
      rx_tail = (r.rx_tail + 1) % 8;
    }
unfolding ring_push
ring_push-room sip sport src r h = rw h refl

ring_push-full :
    (sip sport : ℕ) (src : List ℕ) (r : Ring)
    → ((r.rx_tail + 1) % 8 == r.rx_head) ≡ true
    → ring_push sip sport src r ≡ r
unfolding ring_push
ring_push-full sip sport src r h = rw h refl

enqueue-room : (x : Item) (xs : List Item) → length xs < 7 → enqueue x xs ≡ xs ++ (x ∷ [])
unfolding enqueue
enqueue-room x xs h = ground arith

enqueue-full : (x : Item) (xs : List Item) → 7 ≤ length xs → enqueue x xs ≡ xs
unfolding enqueue
enqueue-full x xs h = ground arith

contents-push :
    (sip sport : ℕ) (src : List ℕ) (r : Ring)
    → IsRing r
    → contents (ring_push sip sport src r) ≡ enqueue (item_of sip sport src) (contents r)
unfolding contents
contents-push sip sport src r v =
    let t = r.rx_tail in
    let h = r.rx_head in
    let n = (t + 8 - h) % 8 in
    let x = item_of sip sport src in
    let old = (get_or r.rx_ring t no_slot).bytes in
    let s : Slot = record {
      src_ip = sip;
      src_port = sport;
      len = length src;
      bytes = copy_into old src;
    } in
    let size = length-view n h r.rx_ring in
    elim (ℕ_discrete ((t + 1) % 8) h) [
      | yes full ↦
          ap contents (ring_push-full sip sport src r (ground (arith, full)))
          ∙ sym (enqueue-full x (view n h r.rx_ring) (omega (arith, size, full, v.head, v.tail)))
      | no room ↦
          let more : ((t + 1) % 8 + 8 - h) % 8 ≡ suc n = omega (arith, room, v.head, v.tail) in
          let small : n < 7 = omega (arith, room, v.head, v.tail) in
          ap contents (ring_push-room sip sport src r (ground (arith, room)))
          ∙ ap (λ m. view m h (set r.rx_ring t s)) more
          ∙ view-written n h t r.rx_ring s v.slots v.head small (omega (arith, v.head, v.tail))
          ∙ ap (λ y. view n h r.rx_ring ++ (y ∷ [])) (item-copy sip sport src old)
          ∙ sym (enqueue-room x (view n h r.rx_ring) (omega (arith, size)))
    ]

-- The other end of the queue.
pub dequeue : List Item → Option Item × List Item
dequeue [] = (none, [])
dequeue (x ∷ xs) = (some x, xs)

ring_pop-none : (r : Ring) → r.rx_head ≡ r.rx_tail → ring_pop r ≡ (none, r)
unfolding ring_pop
ring_pop-none r h = let same : (r.rx_head == r.rx_tail) ≡ true = ground arith in rw same refl

pub ring_pop-some :
    (r : Ring)
    → r.rx_head ≢ r.rx_tail
    → ring_pop r
      ≡ (some (get_or r.rx_ring r.rx_head no_slot), record r { rx_head = (r.rx_head + 1) % 8 })
unfolding ring_pop
ring_pop-some r h = let differ : (r.rx_head == r.rx_tail) ≡ false = ground arith in rw differ refl

contents-pop :
    (r : Ring)
    → IsRing r
    → (Option.map item (ring_pop r).0, contents (ring_pop r).1) ≡ dequeue (contents r)
unfolding contents dequeue view
contents-pop r v =
    let t = r.rx_tail in
    let h = r.rx_head in
    let n = (t + 8 - h) % 8 in
    elim (ℕ_discrete h t) [
      | yes same ↦
          let none_left : n ≡ 0 = omega (arith, same, v.head, v.tail) in
          ap (λ p. (Option.map item p.0, contents p.1)) (ring_pop-none r same)
          ∙ ap (λ m. (none, view m h r.rx_ring)) none_left
          ∙ sym (ap (λ m. dequeue (view m h r.rx_ring)) none_left)
      | no differ ↦
          let m = (t + 8 - (h + 1) % 8) % 8 in
          let one_more : n ≡ suc m = omega (arith, differ, v.head, v.tail) in
          ap (λ p. (Option.map item p.0, contents p.1)) (ring_pop-some r differ)
          ∙ sym (ap (λ k. dequeue (view k h r.rx_ring)) one_more)
    ]

length-copy_into :
    (old src : List ℕ) → length old ≡ net_max_payload → length (copy_into old src) ≡ net_max_payload
unfolding copy_into
length-copy_into old src h =
    let new = take net_max_payload src in
    omega (
      arith,
      h,
      length-append new (drop (length new) old),
      length-drop (length new) old,
      length-take net_max_payload src,
    )

IsRing-push :
    (sip sport : ℕ) (src : List ℕ) (r : Ring) → IsRing r → IsRing (ring_push sip sport src r)
IsRing-push sip sport src r v = elim (ℕ_discrete ((r.rx_tail + 1) % 8) r.rx_head) [
  | yes full ↦ subst IsRing (sym (ring_push-full sip sport src r (ground (arith, full)))) v
  | no room ↦
      let old = get_or r.rx_ring r.rx_tail no_slot in
      let whole =
        All-get_or (λ s. length s.bytes ≡ net_max_payload) r.rx_ring r.rx_tail no_slot v.arrays
          (omega (arith, v.slots, v.tail)) in
      subst IsRing (sym (ring_push-room sip sport src r (ground (arith, room)))) (record {
        slots = length-set r.rx_ring r.rx_tail _ ∙ v.slots;
        head = v.head;
        tail = omega arith;
        arrays =
            All-set (λ s. length s.bytes ≡ net_max_payload) r.rx_ring r.rx_tail _ v.arrays
              (length-copy_into old.bytes src whole);
      })
]

IsRing-pop : (r : Ring) → IsRing r → IsRing (ring_pop r).1
unfolding ring_pop
IsRing-pop r v = elim (Bool-cases (r.rx_head == r.rx_tail)) [
  | inl empty ↦ rw empty v
  | inr some_item ↦
      rw some_item
        (record { slots = v.slots; head = omega arith; tail = v.tail; arrays = v.arrays })
]

-- The uses of the ring: a payload that arrives, and a call that takes the oldest one.
pub data RingCall : Type 0 where
  push : ℕ → ℕ → List ℕ → RingCall
  pop : RingCall

-- What the calls take out, on the ring of the code.
pub run_ring : List RingCall → Ring → List (Option Item)
run_ring [] r = []
run_ring (push sip sport src ∷ cs) r = run_ring cs (ring_push sip sport src r)
run_ring (pop ∷ cs) r = Option.map item (ring_pop r).0 ∷ run_ring cs (ring_pop r).1

-- The same on a queue of at most seven items.
pub run_queue : List RingCall → List Item → List (Option Item)
unfolding enqueue dequeue item_of
run_queue [] q = []
run_queue (push sip sport src ∷ cs) q = run_queue cs (enqueue (item_of sip sport src) q)
run_queue (pop ∷ cs) q = (dequeue q).0 ∷ run_queue cs (dequeue q).1

-- The ring of received packets refines a queue of at most seven items, which drops what does not
-- fit: every sequence of calls takes out the same items from both.
pub run_ring-eq-run_queue :
    (cs : List RingCall) (r : Ring) → IsRing r → run_ring cs r ≡ run_queue cs (contents r)
unfolding run_ring run_queue
run_ring-eq-run_queue [] r v = refl
run_ring-eq-run_queue (push sip sport src ∷ cs) r v =
    run_ring-eq-run_queue cs (ring_push sip sport src r) (IsRing-push sip sport src r v)
    ∙ ap (run_queue cs) (contents-push sip sport src r v)
run_ring-eq-run_queue (pop ∷ cs) r v =
    ap (λ o. Option.map item (ring_pop r).0 ∷ o)
      (run_ring-eq-run_queue cs (ring_pop r).1 (IsRing-pop r v))
    ∙ ap (λ (p : Option Item × List Item). p.0 ∷ run_queue cs p.1) (contents-pop r v)
