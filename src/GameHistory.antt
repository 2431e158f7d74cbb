-- ===== src/GameHistory.antt =====
-- game_history.c: the list of played games and their sessions. The printing of the lists is left
-- out, and what it computes is modelled. A game index is a number, and no game is none.
pub mod Sessions
mod Tests
use asm_os.Prelude.{
  ℕ, suc, ◌+◌, ◌-◌, ◌/◌, ◌%◌, Option, none, some, List, [], ◌∷◌, ◌++◌, ltb, leb, ◌==◌,
  if◌then◌else◌, length, get_or, set, take,
}
use asm_os.Prelude.Words.{u32, sub32}
use asm_os.Prelude.CString.{codes}
use mathlib.Core.Option

abbrev pub max_entries : ℕ
max_entries = 64

abbrev pub name_len : ℕ
name_len = 32

pub record Entry : Type 0 where
  pub game_index : ℕ
  pub name : List ℕ
  pub playtime_sec : ℕ
  pub last_played : List ℕ
  pub launch_count : ℕ
  pub last_session_id : ℕ

-- `entries` holds the first `entry_count` entries; the other ones are never read.
pub record History : Type 0 where
  pub entries : List Entry
  pub current_session_game : Option ℕ
  pub session_start_tick : ℕ
  pub system_tick : ℕ
  pub last_session_id : ℕ

pub game_history_tick : History → History
game_history_tick h = record h { system_tick = u32 (h.system_tick + 1) }

-- The characters that `format_date` writes for a session.
pub format_date : ℕ → List ℕ
format_date id = codes "Ses " ++ ((b'0' + id / 10 % 10) ∷ (b'0' + id % 10) ∷ [])

abbrev pub game_history_init : History
game_history_init = record {
  entries = [];
  current_session_game = none;
  session_start_tick = 0;
  system_tick = 0;
  last_session_id = 0;
}

pub game_history_session_start : ℕ → History → History
game_history_session_start game h = record h {
  current_session_game = some game;
  session_start_tick = h.system_tick;
}

-- The search of `game_history_session_end` and `game_history_get_entry`.
pub find_entry : ℕ → List Entry → Option ℕ
find_entry game [] = none
find_entry game (e ∷ es) =
    let rest = Option.map suc (find_entry game es) in if e.game_index == game then some 0 else rest

-- The entry of a game after one more session.
pub play_again : ℕ → ℕ → Entry → Entry
unfolding format_date
play_again id elapsed e = record e {
  playtime_sec = u32 (e.playtime_sec + elapsed);
  launch_count = u32 (e.launch_count + 1);
  last_session_id = id;
  last_played = format_date id;
}

-- The entry of a game after its first session.
pub first_play : ℕ → ℕ → ℕ → List ℕ → Entry
unfolding format_date
first_play game id elapsed name = record {
  game_index = game;
  name = take (name_len - 1) name;
  playtime_sec = elapsed;
  last_played = format_date id;
  launch_count = 1;
  last_session_id = id;
}

pub no_entry : Entry
no_entry = record {
  game_index = 0;
  name = [];
  playtime_sec = 0;
  last_played = [];
  launch_count = 0;
  last_session_id = 0;
}

-- The ticks that `game_history_session_end` counts the session for, at least one.
pub elapsed : History → ℕ
elapsed h = let span = sub32 h.system_tick h.session_start_tick in if ltb span 1 then 1 else span

-- What `game_history_session_end` does to the list of entries.
pub record_session : ℕ → List ℕ → ℕ → ℕ → List Entry → List Entry
unfolding find_entry play_again first_play
record_session game name id ticks es = elim (find_entry game es) [
  | some i ↦ set es i (play_again id ticks (get_or es i no_entry))
  | none ↦ if leb max_entries (length es) then es else es ++ (first_play game id ticks name ∷ [])
]

pub game_history_session_end : ℕ → List ℕ → History → History
unfolding record_session elapsed
game_history_session_end game name h =
    let id = u32 (h.last_session_id + 1) in
    record h {
      current_session_game = none;
      last_session_id = id;
      entries = record_session game name id (elapsed h) h.entries;
    }

pub game_history_get_entry : ℕ → History → Option Entry
unfolding find_entry
game_history_get_entry game h =
    Option.map (λ i. get_or h.entries i no_entry) (find_entry game h.entries)

-- The sums of `game_history_print_stats`.
pub total_playtime : ℕ → List Entry → ℕ
total_playtime total [] = total
total_playtime total (e ∷ es) = total_playtime (u32 (total + e.playtime_sec)) es

pub total_launches : ℕ → List Entry → ℕ
total_launches total [] = total
total_launches total (e ∷ es) = total_launches (u32 (total + e.launch_count)) es

-- The entry that the loop of `game_history_print_stats` ends with, from `best` on.
pub most_played : Entry → List Entry → Entry
most_played best [] = best
most_played best (e ∷ es) =
    most_played (if ltb best.playtime_sec e.playtime_sec then e else best) es

-- The loop of `game_history_print_last`.
pub last_entry : Entry → List Entry → Entry
last_entry best [] = best
last_entry best (e ∷ es) =
    last_entry (if ltb best.last_session_id e.last_session_id then e else best) es
