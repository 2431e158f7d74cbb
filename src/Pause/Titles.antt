-- ===== src/Pause/Titles.antt =====
-- Which titles pause_engine.c lets be paused.
use asm_os.Prelude.{
  ℕ, ◌<◌, ◌≡◌, refl, ap, ◌∙◌, inl, inr, true, false, ◌&&◌, ◌||◌, some, List, [], ◌∷◌, ◌++◌, arith,
  leb, Bool-cases, length, take, length-take,
}
use asm_os.Prelude.CString.{str_eq}
use asm_os.Pause.{
  whitelist_max, PauseEngine, str_copy, is_in, pause_is_whitelisted, pause_whitelist_add,
}

is_in-append :
    (game_id w : List ℕ) (ws : List (List ℕ))
    → is_in game_id (ws ++ (w ∷ [])) ≡ is_in game_id ws || str_eq w game_id
unfolding is_in
is_in-append game_id w [] = ground arith
is_in-append game_id w (x ∷ ws) = ground (arith, is_in-append game_id w ws)

added_lem :
    (game_id : List ℕ) (s : PauseEngine)
    → length s.whitelist < whitelist_max
    → pause_whitelist_add (some game_id) s
      ≡ (true, record s { whitelist = s.whitelist ++ (take 15 game_id ∷ []) })
unfolding pause_whitelist_add str_copy
added_lem game_id s h =
    let place : leb whitelist_max (length s.whitelist) ≡ false = ground arith in rw place refl

str_eq-length : (s t : List ℕ) → length s < length t → str_eq s t ≡ false
str_eq-length s [] h = absurd (omega arith)
str_eq-length [] (b ∷ t) h = refl
str_eq-length (a ∷ s) (b ∷ t) h = ground (arith, str_eq-length s t)

fits_lem :
    (game_id other : List ℕ)
    → str_eq (take 15 game_id) other ≡ leb (length other) 15 && str_eq (take 15 game_id) other
fits_lem game_id other = elim (Bool-cases (leb (length other) 15)) [
  | inl short ↦ rw short refl
  | inr long ↦
      let more : 15 < length other = ground arith in
      rw long (str_eq-length (take 15 game_id) other (omega (arith, length-take 15 game_id)))
]

-- While there is a place, adding a title makes exactly the title of its first 15 characters
-- whitelisted, besides those that were. A title of 16 characters or more stays as it was, also where
-- it is the title that is added.
pub pause_is_whitelisted-add :
    (game_id other : List ℕ) (s : PauseEngine)
    → length s.whitelist < whitelist_max
    → pause_is_whitelisted (some other) (pause_whitelist_add (some game_id) s).1
      ≡ pause_is_whitelisted (some other) s
        || (leb (length other) 15 && str_eq (take 15 game_id) other)
unfolding pause_is_whitelisted
pause_is_whitelisted-add game_id other s h =
    ap (λ r. pause_is_whitelisted (some other) r.1) (added_lem game_id s h)
    ∙ is_in-append other (take 15 game_id) s.whitelist
    ∙ ap (λ b. is_in other s.whitelist || b) (fits_lem game_id other)
