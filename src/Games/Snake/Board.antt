-- ===== src/Games/Snake/Board.antt =====
-- The board of Snake.
pub mod Moves
use asm_os.Prelude.{
  ℕ, zero, suc, ◌+◌, ◌-◌, ◌≤◌, ◌<◌, ◌≡◌, refl, ap, ◌∙◌, ◌≢◌, inl, inr, false, ◌||◌, leb, List, [],
  ◌∷◌, arith, ℕ_discrete, Bool-cases, length, get_or, set, length-set, get_or-set_self,
  get_or-set_ne,
}
use asm_os.Games.Snake.{
  max_len, Cell, corner, Snake, is_on, one_plus_mod, candidate, find_place, snake_place_food,
  shift_segs,
}

pub record InBoard (c : Cell) : Type 0 where
  pub x_pos : 0 < c.x
  pub x_lt : c.x < 15
  pub y_pos : 0 < c.y
  pub y_lt : c.y < 9

-- The snake stays in its arrays and inside the wall, lies on no cell twice, and the food is
-- inside the wall.
pub record Fits (seg : List Cell) (len : ℕ) (food : Cell) : Type 0 where
  pub size : length seg ≡ max_len
  pub len_pos : 0 < len
  pub len_lt : len < max_len
  pub inside : (i : ℕ) → i < len → InBoard (get_or seg i corner)
  pub apart : (i j : ℕ) → i < j → j < len → get_or seg i corner ≢ get_or seg j corner
  pub food_inside : InBoard food

pub IsGame : Snake → Type 0
IsGame s = Fits s.seg s.len s.food

pub length-shift_segs : (n : ℕ) (seg : List Cell) → length (shift_segs n seg) ≡ length seg
unfolding shift_segs
length-shift_segs zero seg = refl
length-shift_segs (suc i) seg =
    let v = get_or seg i corner in
    length-shift_segs i (set seg (suc i) v) ∙ length-set seg (suc i) v

shift_segs-kept :
    (n k : ℕ) (seg : List Cell) → n < k → get_or (shift_segs n seg) k corner ≡ get_or seg k corner
unfolding shift_segs
shift_segs-kept zero k seg h = refl
shift_segs-kept (suc i) k seg h =
    let v = get_or seg i corner in
    shift_segs-kept i k (set seg (suc i) v) (omega arith)
    ∙ get_or-set_ne seg (suc i) k v corner (omega arith)

pub shift_segs-moved :
    (n k : ℕ) (seg : List Cell)
    → k < n
    → n < length seg
    → get_or (shift_segs n seg) (suc k) corner ≡ get_or seg k corner
unfolding shift_segs
shift_segs-moved zero k seg h b = absurd (omega arith)
shift_segs-moved (suc i) k seg h b =
    let v = get_or seg i corner in
    elim (ℕ_discrete k i) [
      | yes e ↦
          let last : get_or (shift_segs i (set seg (suc i) v)) (suc i) corner ≡ v =
            shift_segs-kept i (suc i) (set seg (suc i) v) (omega arith)
            ∙ get_or-set_self seg (suc i) v corner b in
          rw e last
      | no differ ↦
          shift_segs-moved i k (set seg (suc i) v) (omega (arith, differ))
            (omega (arith, length-set seg (suc i) v))
          ∙ get_or-set_ne seg (suc i) k v corner (omega arith)
    ]

pub is_on-false :
    (n : ℕ) (seg : List Cell) (c : Cell)
    → n ≤ length seg
    → is_on n seg c ≡ false
    → (k : ℕ) → k < n
    → get_or seg k corner ≢ c
unfolding is_on
is_on-false zero seg c b h k lt e = absurd (omega arith)
is_on-false (suc n) [] c b h k lt e = absurd (omega arith)
is_on-false (suc n) (s ∷ seg) c b h zero lt e =
    let same_x : s.x ≡ c.x = ap (λ d. d.x) e in
    let same_y : s.y ≡ c.y = ap (λ d. d.y) e in ground (arith, h, same_x, same_y)
is_on-false (suc n) (s ∷ seg) c b h (suc k) lt e =
    is_on-false n seg c (omega arith) (ground arith) k (omega arith) e

-- The score up to which no product of it leaves an `int`.
abbrev pub score_max : ℕ
score_max = 195000000

candidate-InBoard : (score n : ℕ) → score ≤ score_max → n < 200 → InBoard (candidate score n)
unfolding candidate one_plus_mod
candidate-InBoard score n h k = record {
  x_pos = ground arith;
  x_lt = ground arith;
  y_pos = ground arith;
  y_lt = ground arith;
}

-- Wherever the food is placed, it is inside the wall.
find_place-InBoard :
    (tries n : ℕ) (s : Snake)
    → s.score ≤ score_max
    → n + tries ≤ 200
    → InBoard (find_place tries n s)
unfolding find_place
find_place-InBoard zero n s h k = record {
  x_pos = omega arith;
  x_lt = omega arith;
  y_pos = omega arith;
  y_lt = omega arith;
}
find_place-InBoard (suc tries) n s h k =
    let c = candidate s.score n in
    elim (Bool-cases (leb c.x 0 || is_on s.len s.seg c)) [
      | inl taken ↦ rw taken (find_place-InBoard tries (n + 1) s h (omega arith))
      | inr free ↦ rw free (candidate-InBoard s.score n h (omega arith))
    ]

pub place_food-IsGame :
    (s : Snake) (food : Cell)
    → s.score ≤ score_max
    → Fits s.seg s.len food
    → IsGame (snake_place_food s)
unfolding IsGame snake_place_food
place_food-IsGame s food h w = record {
  size = w.size;
  len_pos = w.len_pos;
  len_lt = w.len_lt;
  inside = w.inside;
  apart = w.apart;
  food_inside = find_place-InBoard 200 0 s h (omega arith);
}
