-- ===== src/Games/Racing/Road/Ticks.antt =====
-- A tick of Racing on its arrays.
use asm_os.Prelude.{
  ℕ, zero, suc, ◌+◌, ◌-◌, ◌*◌, ◌%◌, ◌≤◌, ◌<◌, ◌≡◌, refl, sym, ap, ◌∙◌, inl, inr, true, false, ◌||◌,
  List, [], ◌∷◌, ◌++◌, arith, ltb, leb, ◌==◌, if◌then◌else◌, Bool-cases, length, set, take,
  length-append, take-append, length-set, drop, length-take, length-drop,
}
use asm_os.Games.Racing.{
  lanes, obst_max, Obstacle, Race, racing_spawn_obstacle, scroll_obstacles, hits, any_hits,
  racing_tick,
}
use asm_os.Games.Racing.Road.{survivors, any_on, spawned, tick_road, view}
use asm_os.Games.Racing.Road.Scroll.{Scrolled, scroll_lem}

-- The arrays in range.
pub record IsRace (s : Race) : Type 0 where
  pub size : length s.obst ≡ obst_max
  pub number : s.obst_n ≤ obst_max

any_hits-take :
    (n lane : ℕ) (obst : List Obstacle) → any_hits n lane obst ≡ any_on lane (take n obst)
unfolding any_hits any_on
any_hits-take zero lane obst = refl
any_hits-take (suc n) lane [] = refl
any_hits-take (suc n) lane (o ∷ obst) = ap (λ b. hits lane o || b) (any_hits-take n lane obst)

take-drop : (n : ℕ) (obst : List Obstacle) → obst ≡ take n obst ++ drop n obst
take-drop zero obst = refl
take-drop (suc n) [] = refl
take-drop (suc n) (o ∷ obst) = ap (λ l. o ∷ l) (take-drop n obst)

take-set :
    (n : ℕ) (obst : List Obstacle) (x : Obstacle)
    → n < length obst
    → take (suc n) (set obst n x) ≡ take n obst ++ (x ∷ [])
take-set n [] x h = absurd (omega arith)
take-set zero (o ∷ obst) x h = refl
take-set (suc n) (o ∷ obst) x h = ap (λ l. o ∷ l) (take-set n obst x (omega arith))

-- The state in which the loop over the obstacles starts.
begin : Race → Race
begin s =
    if (s.ticks + 1) % 20 == 0
    then racing_spawn_obstacle (record s { ticks = s.ticks + 1 })
    else record s { ticks = s.ticks + 1 }

record Begun (s u : Race) : Type 0 where
  pub obstacles : take u.obst_n u.obst ≡ spawned (s.ticks + 1) (take s.obst_n s.obst)
  pub size : length u.obst ≡ obst_max
  pub number : u.obst_n ≤ obst_max
  pub lane : u.lane ≡ s.lane
  pub score : u.score ≡ s.score
  pub quit : u.quit ≡ s.quit
  pub ticks : u.ticks ≡ s.ticks + 1

spawned-quiet : (t : ℕ) (os : List Obstacle) → (t % 20 == 0) ≡ false → spawned t os ≡ os
unfolding spawned
spawned-quiet t os h = rw h refl

spawned-full : (t : ℕ) (os : List Obstacle) → obst_max ≤ length os → spawned t os ≡ os
unfolding spawned
spawned-full t os h = ground arith

spawned-due :
    (t : ℕ) (os : List Obstacle)
    → (t % 20 == 0) ≡ true
    → length os < obst_max
    → spawned t os ≡ os ++ (record { lane = t % lanes; bottom = 0 } ∷ [])
unfolding spawned
spawned-due t os h l =
    let free : ltb (length os) obst_max ≡ true = ground (arith, l) in rw (h, free) refl

begin-Begun : (s : Race) → IsRace s → Begun s (begin s)
unfolding begin racing_spawn_obstacle
begin-Begun s w =
    let x : Obstacle = record { lane = (s.ticks + 1) % lanes; bottom = 0 } in
    let number : length (take s.obst_n s.obst) ≡ s.obst_n =
      omega (arith, length-take s.obst_n s.obst, w.size, w.number) in
    elim (Bool-cases ((s.ticks + 1) % 20 == 0)) [
      | inr quiet ↦ rw quiet (record {
        obstacles = sym (spawned-quiet (s.ticks + 1) (take s.obst_n s.obst) quiet);
        size = w.size;
        number = w.number;
        lane = refl;
        score = refl;
        quit = refl;
        ticks = refl;
      })
      | inl due ↦ elim (Bool-cases (leb obst_max s.obst_n)) [
        | inl full ↦
            rw (due, full)
              (record {
                obstacles =
                    sym
                      (spawned-full (s.ticks + 1) (take s.obst_n s.obst) (ground (arith, number)));
                size = w.size;
                number = w.number;
                lane = refl;
                score = refl;
                quit = refl;
                ticks = refl;
              })
        | inr room ↦
            let inside : s.obst_n < length s.obst = ground (arith, w.size) in
            let one : s.obst_n + 1 ≡ suc s.obst_n = omega arith in
            rw (due, room)
              (record {
                obstacles =
                    ap (λ n. take n (set s.obst s.obst_n x)) one
                    ∙ take-set s.obst_n s.obst x inside
                    ∙ sym (
                        spawned-due (s.ticks + 1) (take s.obst_n s.obst) due
                          (ground (arith, number)));
                size = length-set s.obst s.obst_n x ∙ w.size;
                number = ground arith;
                lane = refl;
                score = refl;
                quit = refl;
                ticks = refl;
              })
      ]
    ]

finish : Race → Race
finish v = record v { quit = v.quit || any_hits v.obst_n v.lane v.obst }

racing_tick_lem :
    (s : Race) → racing_tick s ≡ finish (scroll_obstacles (begin s).obst_n 0 (begin s))
unfolding racing_tick finish begin
racing_tick_lem s = refl

scroll-begun :
    (u : Race)
    → length u.obst ≡ obst_max
    → u.obst_n ≤ obst_max
    → Scrolled []
        (survivors (take u.obst_n u.obst))
        u.obst_n
        (length (drop u.obst_n u.obst))
        u
        (scroll_obstacles u.obst_n 0 u)
scroll-begun u size number =
    let n : length (take u.obst_n u.obst) ≡ u.obst_n =
      omega (arith, length-take u.obst_n u.obst, size, number) in
    let done =
      scroll_lem (take u.obst_n u.obst) [] (drop u.obst_n u.obst) u (take-drop u.obst_n u.obst)
        (omega (arith, n)) in
    rw n at done

scrolled-take :
    (live stale obst : List Obstacle) (n : ℕ)
    → obst ≡ live ++ stale
    → n ≡ length live
    → take n obst ≡ live
scrolled-take live stale obst n e h = ap (take n) e ∙ take-append live stale n h

-- A tick on the arrays is the tick on the list, and keeps the arrays in range.
pub view-tick :
    (s : Race) → IsRace s → (view (racing_tick s) ≡ tick_road (view s)) × IsRace (racing_tick s)
unfolding view tick_road finish
view-tick s w =
    let u = begin s in
    let b = begin-Begun s w in
    let v = scroll_obstacles u.obst_n 0 u in
    let r = scroll-begun u b.size b.number in
    let os = spawned (s.ticks + 1) (take s.obst_n s.obst) in
    let live = survivors (take u.obst_n u.obst) in
    let same : live ≡ survivors os = ap survivors b.obstacles in
    let shown : take v.obst_n v.obst ≡ live =
      scrolled-take live r.stale v.obst v.obst_n r.arrays (omega (arith, r.number)) in
    let many : length os ≡ u.obst_n =
      ap length (sym b.obstacles) ∙ omega (arith, length-take u.obst_n u.obst, b.size, b.number) in
    let size : length live ≡ length (survivors os) = ap length same in
    let lane : v.lane ≡ s.lane = r.lane ∙ b.lane in
    let score : v.score ≡ s.score + 10 * (length os - length (survivors os)) =
      omega (arith, r.score, r.fewer, many, size, b.score) in
    let quit : v.quit || any_hits v.obst_n v.lane v.obst ≡ s.quit || any_on s.lane (survivors os) =
      ap (λ q. q || any_hits v.obst_n v.lane v.obst) (r.quit ∙ b.quit)
      ∙ ap (λ h. s.quit || h) (any_hits-take v.obst_n v.lane v.obst)
      ∙ ap (λ l. s.quit || any_on v.lane l) (shown ∙ same)
      ∙ ap (λ l. s.quit || any_on l (survivors os)) lane in
    let ticks : v.ticks ≡ s.ticks + 1 = r.ticks ∙ b.ticks in
    rw (racing_tick_lem s) (
      λ i. record {
        lane = lane i;
        obstacles = (shown ∙ same) i;
        score = score i;
        quit = quit i;
        ticks = ticks i;
      },
      record {
        size =
            ap length r.arrays
            ∙ omega (
              arith,
              length-append live r.stale,
              r.size,
              length-drop u.obst_n u.obst,
              b.size,
              b.number,
            );
        number = omega (arith, r.number, r.fewer, b.number);
      },
    )
