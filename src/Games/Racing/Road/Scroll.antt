-- ===== src/Games/Racing/Road/Scroll.antt =====
-- The loop of Racing that takes obstacles out of the arrays while it runs over them.
use asm_os.Prelude.{
  ℕ, suc, ◌+◌, ◌-◌, ◌*◌, ◌≤◌, ◌≡◌, refl, sym, ap, ◌∙◌, inl, inr, true, false, List, [], ◌∷◌, ◌++◌,
  arith, Bool-cases, length, get_or, set, length-append, append_assoc,
}
use asm_os.Games.Racing.{
  Obstacle, no_obstacle, Race, close_gap, is_past, move_down, scroll_obstacles,
}
use asm_os.Games.Racing.Road.{survivors}

get_or-mid :
    (pre rest : List Obstacle) (x : Obstacle)
    → get_or (pre ++ (x ∷ rest)) (length pre) no_obstacle ≡ x
get_or-mid [] rest x = refl
get_or-mid (p ∷ pre) rest x = get_or-mid pre rest x

get_or-next :
    (pre rest : List Obstacle) (x y : Obstacle)
    → get_or (pre ++ (x ∷ y ∷ rest)) (length pre + 1) no_obstacle ≡ y
get_or-next [] rest x y = refl
get_or-next (p ∷ pre) rest x y =
    let shifted : suc (length pre) + 1 ≡ suc (length pre + 1) = omega arith in
    rw shifted (get_or-next pre rest x y)

set-mid :
    (pre rest : List Obstacle) (x v : Obstacle)
    → set (pre ++ (x ∷ rest)) (length pre) v ≡ pre ++ (v ∷ rest)
set-mid [] rest x v = refl
set-mid (p ∷ pre) rest x v = ap (λ l. p ∷ l) (set-mid pre rest x v)

length-snoc : (pre : List Obstacle) (x : Obstacle) → length pre + 1 ≡ length (pre ++ (x ∷ []))
length-snoc pre x = omega (arith, length-append pre (x ∷ []))

-- Closing the gap at `x` moves the entries behind it up, and leaves one behind them.
close_gap_lem :
    (mid pre stale : List Obstacle) (x : Obstacle)
    → (left : Obstacle) × (close_gap (length mid) (length pre) (pre ++ (x ∷ (mid ++ stale)))
        ≡ pre ++ (mid ++ (left ∷ stale)))
unfolding close_gap
close_gap_lem [] pre stale x = (x, refl)
close_gap_lem (y ∷ mid) pre stale x =
    let later = close_gap_lem mid (pre ++ (y ∷ [])) stale y in
    (
      later.0,
      ap
            (λ v.
              close_gap (length mid) (length pre + 1)
                (set (pre ++ (x ∷ y ∷ (mid ++ stale))) (length pre) v))
            (get_or-next pre (mid ++ stale) x y)
          ∙ ap (close_gap (length mid) (length pre + 1)) (set-mid pre (y ∷ (mid ++ stale)) x y)
          ∙ ap (λ l. close_gap (length mid) (length pre + 1) l)
              (sym (append_assoc pre (y ∷ []) (y ∷ (mid ++ stale))))
          ∙ ap (λ n. close_gap (length mid) n ((pre ++ (y ∷ [])) ++ (y ∷ (mid ++ stale))))
              (length-snoc pre y)
          ∙ later.1
          ∙ append_assoc pre (y ∷ []) (mid ++ (later.0 ∷ stale)),
    )

-- The state after the loop over `n` obstacles: the first ones stay, then come the live ones, then
-- what no longer counts.
pub record Scrolled (pre live : List Obstacle) (n rest : ℕ) (s s' : Race) : Type 0 where
  pub stale : List Obstacle
  pub arrays : s'.obst ≡ pre ++ (live ++ stale)
  pub number : s'.obst_n ≡ length pre + length live
  pub size : length stale + length live ≡ rest + n
  pub score : s'.score + 10 * length live ≡ s.score + 10 * n
  pub fewer : length live ≤ n
  pub lane : s'.lane ≡ s.lane
  pub quit : s'.quit ≡ s.quit
  pub ticks : s'.ticks ≡ s.ticks

scroll-past :
    (rest i : ℕ) (s : Race)
    → is_past (move_down (get_or s.obst i no_obstacle)) ≡ true
    → scroll_obstacles (suc rest) i s
      ≡ scroll_obstacles rest i (record s {
        obst = close_gap rest i (set s.obst i (move_down (get_or s.obst i no_obstacle)));
        obst_n = s.obst_n - 1;
        score = s.score + 10;
      })
unfolding scroll_obstacles
scroll-past rest i s h = rw (scroll_obstacles, h) refl

scroll-stays :
    (rest i : ℕ) (s : Race)
    → is_past (move_down (get_or s.obst i no_obstacle)) ≡ false
    → scroll_obstacles (suc rest) i s
      ≡ scroll_obstacles rest
          (i + 1)
          (record s { obst = set s.obst i (move_down (get_or s.obst i no_obstacle)) })
unfolding scroll_obstacles
scroll-stays rest i s h = rw (scroll_obstacles, h) refl

survivors-past :
    (o : Obstacle) (os : List Obstacle)
    → is_past (move_down o) ≡ true
    → survivors (o ∷ os) ≡ survivors os
unfolding survivors
survivors-past o os h = rw h refl

survivors-stays :
    (o : Obstacle) (os : List Obstacle)
    → is_past (move_down o) ≡ false
    → survivors (o ∷ os) ≡ move_down o ∷ survivors os
unfolding survivors
survivors-stays o os h = rw h refl

scroll_none : (i : ℕ) (s : Race) → scroll_obstacles 0 i s ≡ s
unfolding scroll_obstacles
scroll_none i s = refl

survivors_none : survivors [] ≡ []
unfolding survivors
survivors_none = refl

-- A round that drops the first obstacle, and one that keeps it.
module _ (o : Obstacle) (obs pre stale : List Obstacle) (s : Race)
    (moved : set s.obst (length pre) (move_down (get_or s.obst (length pre) no_obstacle))
      ≡ pre ++ (move_down o ∷ (obs ++ stale)))
    (n : s.obst_n ≡ length pre + suc (length obs)) where
  dropped : Race
  dropped = record s {
    obst =
        close_gap (length obs) (length pre)
          (set s.obst (length pre) (move_down (get_or s.obst (length pre) no_obstacle)));
    obst_n = s.obst_n - 1;
    score = s.score + 10;
  }

  kept : Race
  kept = record s {
    obst = set s.obst (length pre) (move_down (get_or s.obst (length pre) no_obstacle));
  }

  Scrolled-dropped :
      (left : Obstacle) (s' : Race)
      → Scrolled pre (survivors obs) (length obs) (length (left ∷ stale)) dropped s'
      → Scrolled pre (survivors obs) (suc (length obs)) (length stale) s s'
  unfolding dropped
  Scrolled-dropped left s' r = record {
    stale = r.stale;
    arrays = r.arrays;
    number = r.number;
    size = omega (arith, r.size);
    score = omega (arith, r.score);
    fewer = omega (arith, r.fewer);
    lane = r.lane;
    quit = r.quit;
    ticks = r.ticks;
  }

  Scrolled-kept :
      (s' : Race)
      → Scrolled (pre ++ (move_down o ∷ [])) (survivors obs) (length obs) (length stale) kept s'
      → Scrolled pre (move_down o ∷ survivors obs) (suc (length obs)) (length stale) s s'
  unfolding kept
  Scrolled-kept s' r = record {
    stale = r.stale;
    arrays = r.arrays ∙ append_assoc pre (move_down o ∷ []) (survivors obs ++ r.stale);
    number = omega (arith, r.number, length-snoc pre (move_down o));
    size = omega (arith, r.size);
    score = omega (arith, r.score);
    fewer = omega (arith, r.fewer);
    lane = r.lane;
    quit = r.quit;
    ticks = r.ticks;
  }

pub scroll_lem :
    (obs pre stale : List Obstacle) (s : Race)
    → s.obst ≡ pre ++ (obs ++ stale)
    → s.obst_n ≡ length pre + length obs
    → Scrolled pre
        (survivors obs)
        (length obs)
        (length stale)
        s
        (scroll_obstacles (length obs) (length pre) s)
unfolding dropped kept
scroll_lem [] pre stale s e n =
    rw (scroll_none (length pre) s, survivors_none)
      (record {
        stale = stale;
        arrays = e;
        number = n;
        size = omega arith;
        score = refl;
        fewer = omega arith;
        lane = refl;
        quit = refl;
        ticks = refl;
      })
scroll_lem (o ∷ obs) pre stale s e n =
    let i = length pre in
    let m = move_down o in
    let here : get_or s.obst i no_obstacle ≡ o =
      ap (λ a. get_or a i no_obstacle) e ∙ get_or-mid pre (obs ++ stale) o in
    let moved : set s.obst i (move_down (get_or s.obst i no_obstacle))
        ≡ pre ++ (m ∷ (obs ++ stale)) =
      ap (λ v. set s.obst i (move_down v)) here
      ∙ ap (λ a. set a i m) e
      ∙ set-mid pre (obs ++ stale) o m in
    elim (Bool-cases (is_past m)) [
      | inl past ↦
          let closed = close_gap_lem obs pre stale m in
          let now : is_past (move_down (get_or s.obst i no_obstacle)) ≡ true =
            ap (λ v. is_past (move_down v)) here ∙ past in
          rw (scroll-past (length obs) i s now, survivors-past o obs past)
            (Scrolled-dropped o obs pre stale s moved n closed.0 _ (
              scroll_lem obs pre (closed.0 ∷ stale) (dropped o obs pre stale s moved n)
                (ap (close_gap (length obs) i) moved ∙ closed.1) (omega (arith, n))))
      | inr stays ↦
          let now : is_past (move_down (get_or s.obst i no_obstacle)) ≡ false =
            ap (λ v. is_past (move_down v)) here ∙ stays in
          rw (scroll-stays (length obs) i s now, survivors-stays o obs stays, length-snoc pre m)
            (Scrolled-kept o obs pre stale s moved n _ (
              scroll_lem obs (pre ++ (m ∷ [])) stale (kept o obs pre stale s moved n)
                (moved ∙ sym (append_assoc pre (m ∷ []) (obs ++ stale)))
                (omega (arith, n, length-snoc pre m))))
    ]
