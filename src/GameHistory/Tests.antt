-- ===== src/GameHistory/Tests.antt =====
-- A run of game_history.c.
use asm_os.Prelude.{◌≡◌, refl, some}
use asm_os.Prelude.CString.{codes}
use asm_os.GameHistory.{
  History, format_date, game_history_init, find_entry, elapsed, record_session, first_play,
  game_history_session_end, game_history_get_entry, total_playtime, total_launches,
}

abbrev started : History
started = record game_history_init { session_start_tick = 10; system_tick = 25 }

first_session :
    game_history_get_entry 3 (game_history_session_end 3 (codes "pong") started)
    ≡ some (record {
      game_index = 3;
      name = codes "pong";
      playtime_sec = 15;
      last_played = codes "Ses 01";
      launch_count = 1;
      last_session_id = 1;
    })
unfolding game_history_get_entry game_history_session_end record_session first_play elapsed
    format_date find_entry
first_session = refl

stats : total_launches 0 (game_history_session_end 3 (codes "pong") started).entries ≡ 1
unfolding total_launches game_history_session_end record_session first_play elapsed format_date
    find_entry
stats = refl

stats_time : total_playtime 0 (game_history_session_end 3 (codes "pong") started).entries ≡ 15
unfolding total_playtime game_history_session_end record_session first_play elapsed format_date
    find_entry
stats_time = refl
