-- ===== src/GameHistory/Sessions.antt =====
-- What sessions leave in the list of game_history.c.
use asm_os.Prelude.{
  ℕ, zero, suc, ◌+◌, ◌<◌, ◌≡◌, refl, sym, ap, ◌∙◌, ◌≢◌, inl, inr, true, false, Option, none, some,
  List, [], ◌∷◌, ◌++◌, arith, ℕ_discrete, leb, ◌==◌, if◌then◌else◌, Bool-cases, Option-cases,
  length, get_or, set, get_or-set_self, get_or-set_ne,
}
use asm_os.Prelude.Words.{u32}
use mathlib.Core.Option
use asm_os.GameHistory.{
  max_entries, Entry, History, find_entry, play_again, elapsed, record_session, first_play,
  no_entry, game_history_session_end, game_history_get_entry,
}

find_entry-some :
    (game : ℕ) (es : List Entry) (i : ℕ)
    → find_entry game es ≡ some i
    → (i < length es) × ((get_or es i no_entry).game_index ≡ game)
unfolding find_entry
find_entry-some game [] i h = absurd (ground arith)
find_entry-some game (e ∷ es) zero h = ground arith
find_entry-some game (e ∷ es) (suc i) h =
    let later : find_entry game es ≡ some i = ground arith in
    ground (arith, find_entry-some game es i later)

find_entry-set :
    (game : ℕ) (es : List Entry) (i : ℕ) (e : Entry)
    → e.game_index ≡ (get_or es i no_entry).game_index
    → find_entry game (set es i e) ≡ find_entry game es
unfolding find_entry
find_entry-set game [] i e h = refl
find_entry-set game (x ∷ es) zero e h = rw h refl
find_entry-set game (x ∷ es) (suc i) e h = rw (find_entry-set game es i e h) refl

find_entry-append :
    (game : ℕ) (es : List Entry) (e : Entry)
    → e.game_index ≢ game
    → find_entry game (es ++ (e ∷ [])) ≡ find_entry game es
unfolding find_entry
find_entry-append game [] e h = ground arith
find_entry-append game (x ∷ es) e h = rw (find_entry-append game es e h) refl

find_entry-append_new :
    (game : ℕ) (es : List Entry) (e : Entry)
    → e.game_index ≡ game
    → find_entry game es ≡ none
    → find_entry game (es ++ (e ∷ [])) ≡ some (length es)
unfolding find_entry
find_entry-append_new game [] e h n = ground arith
find_entry-append_new game (x ∷ es) e h n =
    let missing : find_entry game es ≡ none = ground arith in
    ground (arith, find_entry-append_new game es e h missing)

get_or-append :
    (es : List Entry) (e : Entry) (i : ℕ)
    → i < length es
    → get_or (es ++ (e ∷ [])) i no_entry ≡ get_or es i no_entry
get_or-append [] e i h = absurd (omega arith)
get_or-append (x ∷ es) e zero h = refl
get_or-append (x ∷ es) e (suc i) h = get_or-append es e i (omega arith)

get_or-append_new : (es : List Entry) (e : Entry) → get_or (es ++ (e ∷ [])) (length es) no_entry ≡ e
get_or-append_new [] e = refl
get_or-append_new (x ∷ es) e = get_or-append_new es e

-- The entry of a game in a list.
lookup : ℕ → List Entry → Option Entry
lookup game es = Option.map (λ i. get_or es i no_entry) (find_entry game es)

lookup-set :
    (game other : ℕ) (es : List Entry) (i : ℕ) (e : Entry)
    → find_entry game es ≡ some i
    → e.game_index ≡ game
    → lookup other (set es i e) ≡ (if other == game then some e else lookup other es)
unfolding lookup
lookup-set game other es i e found h =
    let at = find_entry-some game es i found in
    let kept = find_entry-set other es i e (h ∙ sym at.1) in
    elim (ℕ_discrete other game) [
      | yes same ↦
          let found' : find_entry other es ≡ some i = rw same found in
          let hit : other == game ≡ true = ground arith in
          rw (hit, kept, found', get_or-set_self es i e no_entry at.0) refl
      | no differ ↦
          let miss : other == game ≡ false = ground arith in
          elim (Option-cases (find_entry other es)) [
            | inl missing ↦ rw (miss, kept, missing) refl
            | inr (j, there) ↦
                let at' = find_entry-some other es j there in
                let apart : i ≢ j = λ same.
                  differ
                    (sym at'.1 ∙ ap (λ k. (get_or es k no_entry).game_index) (sym same) ∙ at.1) in
                rw (miss, kept, there, get_or-set_ne es i j e no_entry apart) refl
          ]
    ]

lookup-append :
    (game other : ℕ) (es : List Entry) (e : Entry)
    → find_entry game es ≡ none
    → e.game_index ≡ game
    → lookup other (es ++ (e ∷ [])) ≡ (if other == game then some e else lookup other es)
unfolding lookup
lookup-append game other es e missing h = elim (ℕ_discrete other game) [
  | yes same ↦
      let hit : other == game ≡ true = ground arith in
      let new = find_entry-append_new other es e (h ∙ sym same) (rw same missing) in
      rw (hit, new, get_or-append_new es e) refl
  | no differ ↦
      let miss : other == game ≡ false = ground arith in
      let kept = find_entry-append other es e (λ same. differ (sym same ∙ h)) in
      elim (Option-cases (find_entry other es)) [
        | inl nothing ↦ rw (miss, kept, nothing) refl
        | inr (j, there) ↦
            rw (miss, kept, there, get_or-append es e j (find_entry-some other es j there).0) refl
      ]
]

-- What the end of a session leaves for its game: one session more, or the first one, or nothing
-- where the list is full.
pub after_session : ℕ → List ℕ → History → Option Entry
after_session game name h =
    let id = u32 (h.last_session_id + 1) in
    elim (game_history_get_entry game h) [
      | some e ↦ some (play_again id (elapsed h) e)
      | none ↦
          if leb max_entries (length h.entries)
          then none
          else some (first_play game id (elapsed h) name)
    ]

record_session_full :
    (game : ℕ) (name : List ℕ) (id ticks : ℕ) (es : List Entry)
    → find_entry game es ≡ none
    → leb max_entries (length es) ≡ true
    → record_session game name id ticks es ≡ es
unfolding record_session
record_session_full game name id ticks es missing full = rw (record_session, missing, full) refl

record_session_room :
    (game : ℕ) (name : List ℕ) (id ticks : ℕ) (es : List Entry)
    → find_entry game es ≡ none
    → leb max_entries (length es) ≡ false
    → record_session game name id ticks es ≡ es ++ (first_play game id ticks name ∷ [])
unfolding record_session
record_session_room game name id ticks es missing room = rw (record_session, missing, room) refl

record_session_found :
    (game : ℕ) (name : List ℕ) (id ticks : ℕ) (es : List Entry) (i : ℕ)
    → find_entry game es ≡ some i
    → record_session game name id ticks es ≡ set es i (play_again id ticks (get_or es i no_entry))
unfolding record_session
record_session_found game name id ticks es i found = rw (record_session, found) refl

lookup-record_session :
    (game other : ℕ) (name : List ℕ) (id ticks : ℕ) (es : List Entry)
    → lookup other (record_session game name id ticks es) ≡ (
        if other == game
        then elim (lookup game es) [
          | some e ↦ some (play_again id ticks e)
          | none ↦
              if leb max_entries (length es) then none else some (first_play game id ticks name)
        ]
        else lookup other es)
unfolding record_session lookup play_again first_play
lookup-record_session game other name id ticks es = elim (Option-cases (find_entry game es)) [
  | inr (i, found) ↦
      let e = play_again id ticks (get_or es i no_entry) in
      let at = find_entry-some game es i found in
      let changed : record_session game name id ticks es ≡ set es i e =
        record_session_found game name id ticks es i found in
      ap (lookup other) changed ∙ rw found (lookup-set game other es i e found at.1)
  | inl missing ↦ elim (Bool-cases (leb max_entries (length es))) [
    | inr room ↦
        let e = first_play game id ticks name in
        let added : record_session game name id ticks es ≡ es ++ (e ∷ []) =
          record_session_room game name id ticks es missing room in
        ap (lookup other) added ∙ rw (missing, room) (lookup-append game other es e missing refl)
    | inl full ↦
        let kept : record_session game name id ticks es ≡ es =
          record_session_full game name id ticks es missing full in
        elim (ℕ_discrete other game) [
          | yes same ↦
              let hit : other == game ≡ true = ground arith in
              let gone : find_entry other es ≡ none = rw same missing in
              ap (lookup other) kept ∙ rw (hit, missing, full, gone) refl
          | no differ ↦
              let miss : other == game ≡ false = ground arith in
              ap (lookup other) kept ∙ rw miss refl
        ]
  ]
]

-- The end of a session changes the entry of its game in that way, and no other game's entry.
pub get_entry-session_end :
    (game other : ℕ) (name : List ℕ) (h : History)
    → game_history_get_entry other (game_history_session_end game name h)
      ≡ (if other == game then after_session game name h else game_history_get_entry other h)
unfolding game_history_get_entry game_history_session_end after_session lookup
get_entry-session_end game other name h =
    lookup-record_session game other name (u32 (h.last_session_id + 1)) (elapsed h) h.entries
