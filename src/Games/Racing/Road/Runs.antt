-- ===== src/Games/Racing/Road/Runs.antt =====
-- Whole games of Racing.
use asm_os.Prelude.{
  ℕ, ◌+◌, ◌-◌, ◌≡◌, refl, sym, ap, ◌∙◌, inl, inr, true, false, ◌&&◌, List, [], ◌∷◌, arith, ltb,
  ◌==◌, if◌then◌else◌, Bool-cases, length,
}
use asm_os.Games.Racing.{obst_max, Race, racing_init, racing_tick, press, press_all, racing_run}
use asm_os.Games.Racing.Road.{Road, tick_road, view}
use asm_os.Games.Racing.Road.Ticks.{IsRace, view-tick}

-- The keys on the list.
pub steer : ℕ → Road → Road
steer sc r =
    if (sc == 0x4B) && ltb 0 r.lane
    then record r { lane = r.lane - 1 }
    else if (sc == 0x4D) && ltb r.lane 2
    then record r { lane = r.lane + 1 }
    else r

pub steer_all : List ℕ → Road → Road
steer_all [] r = r
steer_all (sc ∷ keys) r = elim (sc == 0x01) [
  | true ↦ record r { quit = true }
  | false ↦ steer_all keys (steer sc r)
]

view-press : (sc : ℕ) (s : Race) → (sc == 0x01) ≡ false → view (press sc s) ≡ steer sc (view s)
unfolding view press steer
view-press sc s h = ground arith

view-press_quits :
    (sc : ℕ) (s : Race) → (sc == 0x01) ≡ true → view (press sc s) ≡ record (view s) { quit = true }
unfolding view press
view-press_quits sc s h = ground arith

IsRace-press : (sc : ℕ) (s : Race) → IsRace s → IsRace (press sc s)
unfolding press
IsRace-press sc s w = record { size = ground (arith, w.size); number = ground (arith, w.number) }

press_all-quits :
    (sc : ℕ) (keys : List ℕ) (s : Race) → (sc == 0x01) ≡ true → press_all (sc ∷ keys) s ≡ press sc s
unfolding press_all
press_all-quits sc keys s h = rw (press_all, h) refl

press_all-goes_on :
    (sc : ℕ) (keys : List ℕ) (s : Race)
    → (sc == 0x01) ≡ false
    → press_all (sc ∷ keys) s ≡ press_all keys (press sc s)
unfolding press_all
press_all-goes_on sc keys s h = rw (press_all, h) refl

steer_all-quits :
    (sc : ℕ) (keys : List ℕ) (r : Road)
    → (sc == 0x01) ≡ true
    → steer_all (sc ∷ keys) r ≡ record r { quit = true }
unfolding steer_all
steer_all-quits sc keys r h = rw (steer_all, h) refl

steer_all-goes_on :
    (sc : ℕ) (keys : List ℕ) (r : Road)
    → (sc == 0x01) ≡ false
    → steer_all (sc ∷ keys) r ≡ steer_all keys (steer sc r)
unfolding steer_all
steer_all-goes_on sc keys r h = rw (steer_all, h) refl

press_none :
    (s : Race)
    → IsRace s
    → (view (press_all [] s) ≡ steer_all [] (view s)) × IsRace (press_all [] s)
unfolding press_all steer_all
press_none s w = (refl, w)

view-press_all :
    (keys : List ℕ) (s : Race)
    → IsRace s
    → (view (press_all keys s) ≡ steer_all keys (view s)) × IsRace (press_all keys s)
view-press_all [] s w = press_none s w
view-press_all (sc ∷ keys) s w = elim (Bool-cases (sc == 0x01)) [
  | inl quits ↦
      rw (press_all-quits sc keys s quits, steer_all-quits sc keys (view s) quits)
        (view-press_quits sc s quits, IsRace-press sc s w)
  | inr goes_on ↦
      rw
        (
          press_all-goes_on sc keys s goes_on,
          steer_all-goes_on sc keys (view s) goes_on,
          sym (view-press sc s goes_on),
        )
        (view-press_all keys (press sc s) (IsRace-press sc s w))
]

pub run_road : List (List ℕ) → Road → Road
unfolding tick_road steer_all
run_road [] r = r
run_road (keys ∷ later) r =
    let rest = run_road later (tick_road (steer_all keys r)) in if r.quit then r else rest

run-goes_on :
    (keys : List ℕ) (later : List (List ℕ)) (s : Race)
    → s.quit ≡ false
    → (racing_run (keys ∷ later) s ≡ racing_run later (racing_tick (press_all keys s)))
      × (run_road (keys ∷ later) (view s) ≡ run_road later (tick_road (steer_all keys (view s))))
unfolding racing_run run_road view
run-goes_on keys later s h = (rw h refl, rw h refl)

run-over :
    (keys : List ℕ) (later : List (List ℕ)) (s : Race)
    → s.quit ≡ true
    → (racing_run (keys ∷ later) s ≡ s) × (run_road (keys ∷ later) (view s) ≡ view s)
unfolding racing_run run_road view
run-over keys later s h = (rw h refl, rw h refl)

run_none : (s : Race) → view (racing_run [] s) ≡ run_road [] (view s)
unfolding racing_run run_road
run_none s = refl

run_lem :
    (turns : List (List ℕ)) (s : Race)
    → IsRace s
    → view (racing_run turns s) ≡ run_road turns (view s)
run_lem [] s w = run_none s
run_lem (keys ∷ later) s w = elim (Bool-cases s.quit) [
  | inl over ↦ let r = run-over keys later s over in ap view r.0 ∙ sym r.1
  | inr goes_on ↦
      let r = run-goes_on keys later s goes_on in
      let p = view-press_all keys s w in
      let t = view-tick (press_all keys s) p.1 in
      ap view r.0
      ∙ run_lem later (racing_tick (press_all keys s)) t.1
      ∙ ap (λ v. run_road later v) (t.0 ∙ ap tick_road p.0)
      ∙ sym r.1
]

-- Every game of Racing on its arrays is the game on a list of the obstacles: there a tick lets the
-- obstacles come down, drops those that have left the road for ten points each, in order, and ends
-- the game when one of the others meets the car. So the loop that takes obstacles out of the arrays
-- while it runs over them skips none and moves none twice.
pub racing_run-eq-run_road :
    (turns : List (List ℕ)) (s : Race)
    → length s.obst ≡ obst_max
    → view (racing_run turns (racing_init s))
      ≡ run_road turns (record { lane = 1; obstacles = []; score = 0; quit = false; ticks = 0 })
unfolding racing_init view
racing_run-eq-run_road turns s size =
    run_lem turns (record s { lane = 1; obst_n = 0; score = 0; quit = false; ticks = 0 })
      (record { size = size; number = omega arith })
