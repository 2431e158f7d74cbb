-- ===== src/Pause.antt =====
-- pause_engine.c: the whitelist and the compatibility table of the pause engine. Saving and
-- restoring a snapshot is a call of the file storage with a fixed pattern, and is left out.
pub mod Titles
mod Tests
use asm_os.Prelude.{
  ℕ, ◌+◌, ◌-◌, Bool, true, false, Option, none, some, List, [], ◌∷◌, ◌++◌, leb, if◌then◌else◌,
  length, take,
}
use asm_os.Prelude.CString.{str_eq}

abbrev pub id_size : ℕ
id_size = 16

abbrev pub whitelist_max : ℕ
whitelist_max = 64

abbrev pub compat_max : ℕ
compat_max = 32

pub data PauseType : Type 0 where
  no_pause : PauseType
  trigger_addr : PauseType
  checkpoint : PauseType

pub data PauseResult : Type 0 where
  ok : PauseResult
  err_not_whitelisted : PauseResult
  err_io : PauseResult

pub record CompatEntry : Type 0 where
  pub game_id : List ℕ
  pub type : PauseType
  pub trigger_at : ℕ
  pub trigger_value : ℕ

pub record PauseEngine : Type 0 where
  pub whitelist : List (List ℕ)
  pub inited : Bool
  pub compat_db : List CompatEntry

-- What `str_copy` leaves in a field of `size` bytes.
pub str_copy : List ℕ → ℕ → List ℕ
str_copy src size = take (size - 1) src

pub pause_engine_init : PauseEngine → PauseEngine
pause_engine_init s = if s.inited then s else record s { whitelist = []; inited = true }

-- The loop of `pause_is_whitelisted`.
pub is_in : List ℕ → List (List ℕ) → Bool
is_in game_id [] = false
is_in game_id (w ∷ ws) = let rest = is_in game_id ws in if str_eq w game_id then true else rest

pub pause_is_whitelisted : Option (List ℕ) → PauseEngine → Bool
unfolding is_in
pause_is_whitelisted none s = false
pause_is_whitelisted (some game_id) s = is_in game_id s.whitelist

pub pause_whitelist_add : Option (List ℕ) → PauseEngine → Bool × PauseEngine
unfolding str_copy
pause_whitelist_add none s = (false, s)
pause_whitelist_add (some game_id) s =
    if leb whitelist_max (length s.whitelist)
    then (false, s)
    else (true, record s { whitelist = s.whitelist ++ (str_copy game_id id_size ∷ []) })

pub pause_compat_add : Option (List ℕ) → PauseType → ℕ → ℕ → PauseEngine → Bool × PauseEngine
unfolding str_copy
pause_compat_add none type at value s = (false, s)
pause_compat_add (some game_id) type at value s =
    let entry : CompatEntry = record {
      game_id = str_copy game_id id_size;
      type = type;
      trigger_at = at;
      trigger_value = value;
    } in
    if leb compat_max (length s.compat_db)
    then (false, s)
    else (true, record s { compat_db = s.compat_db ++ (entry ∷ []) })

-- The loop of `pause_compat_get`.
pub find_compat : List ℕ → List CompatEntry → Option CompatEntry
find_compat game_id [] = none
find_compat game_id (e ∷ es) =
    let rest = find_compat game_id es in if str_eq e.game_id game_id then some e else rest

-- `out` is not null.
pub pause_compat_get : Option (List ℕ) → PauseEngine → Option CompatEntry
unfolding find_compat
pause_compat_get none s = none
pause_compat_get (some game_id) s = find_compat game_id s.compat_db

pub is_trigger : PauseType → Bool
is_trigger no_pause = false
is_trigger trigger_addr = true
is_trigger checkpoint = false

pub pause_soft_trigger : Option (List ℕ) → PauseEngine → PauseResult
unfolding pause_compat_get is_trigger
pause_soft_trigger game_id s = elim (pause_compat_get game_id s) [
  | none ↦ err_not_whitelisted
  | some e ↦ if is_trigger e.type then ok else err_not_whitelisted
]
