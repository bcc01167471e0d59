-- ===== src/Commands.antt =====
-- monitoring/CommandConnector.cpp: the commands that the run control sends.
pub mod Settings
use na62_farm.Base.{
  ℕ, ◌+◌, ◌-◌, ◌*◌, ◌%◌, ◌^◌, Bool, true, false, not, ◌||◌, ◌&&◌, List, [], ◌∷◌, map, leb, ◌==◌,
  if◌then◌else◌,
}
use na62_farm.Base.Words.{u64}

-- A string, as the codes of its characters.
abbrev pub Text : Type 0
Text = List ℕ

-- `::tolower`
unfoldable pub tolower : ℕ → ℕ
tolower c = if leb 65 c && leb c 90 then c + 32 else c

unfoldable pub same_text : Text → Text → Bool
same_text [] [] = true
same_text [] (d ∷ b) = false
same_text (c ∷ a) [] = false
same_text (c ∷ a) (d ∷ b) = (c == d) && same_text a b

-- The digits at the start of a text, as a number.
unfoldable pub digits_value : ℕ → Text → ℕ
digits_value acc [] = acc
digits_value acc (c ∷ l) =
    let rest = digits_value (acc * 10 + (c - 48)) l in if leb 48 c && leb c 57 then rest else acc

unfoldable pub signed_value : Text → ℕ
signed_value [] = 0
signed_value (c ∷ l) =
    if c == 45
    then u64 (2 ^ 64 - digits_value 0 l)
    else if c == 43
    then digits_value 0 l
    else digits_value 0 (c ∷ l)

-- `atoi`, converted to 64 bits, for values that an `int` can hold
unfoldable pub atoi : Text → ℕ
atoi [] = 0
atoi (c ∷ l) =
    let rest = atoi l in if (c == 32) || (leb 9 c && leb c 13) then rest else signed_value (c ∷ l)

-- The calls of `BurstIdHandler`.
pub data Setting : Type 0 where
  set_eob_time : ℕ → Setting
  set_sob_time : ℕ → Setting
  set_next_burst_id : ℕ → Setting

-- "eob_timestamp", "updatenextburstid" and "sob_timestamp"
abbrev pub eob_timestamp : Text
eob_timestamp = 101 ∷ 111 ∷ 98 ∷ 95 ∷ 116 ∷ 105 ∷ 109 ∷ 101 ∷ 115 ∷ 116 ∷ 97 ∷ 109 ∷ 112 ∷ []

abbrev pub updatenextburstid : Text
updatenextburstid =
    117 ∷ 112 ∷ 100 ∷ 97 ∷ 116 ∷ 101 ∷ 110 ∷ 101 ∷ 120 ∷ 116 ∷ 98 ∷ 117 ∷ 114 ∷ 115 ∷ 116 ∷ 105
    ∷ 100 ∷ []

abbrev pub sob_timestamp : Text
sob_timestamp = 115 ∷ 111 ∷ 98 ∷ 95 ∷ 116 ∷ 105 ∷ 109 ∷ 101 ∷ 115 ∷ 116 ∷ 97 ∷ 109 ∷ 112 ∷ []

-- `split` is boost::split at the colons, `increment_at_eob` the option INCREMENT_BURST_AT_EOB, and
-- `current_burst_id` what getCurrentBurstId returns.
module _ (split : Text → List Text) (increment_at_eob : Bool) (current_burst_id : ℕ) where
  -- the calls for a command and its argument
  unfoldable pub run_command : Text → Text → List Setting
  run_command command argument =
      if same_text command eob_timestamp
      then (if increment_at_eob
          then set_eob_time (atoi argument) ∷ set_next_burst_id (u64 (current_burst_id + 1)) ∷ []
          else set_eob_time (atoi argument) ∷ [])
      else if same_text command updatenextburstid
      then (if not increment_at_eob then set_next_burst_id (atoi argument) ∷ [] else [])
      else if same_text command sob_timestamp
      then set_sob_time (atoi argument) ∷ []
      else []

  abbrev pub run_parts : List Text → List Setting
  run_parts (command ∷ argument ∷ []) = run_command command argument
  run_parts _ = []

  -- one round of the loop of `thread`
  unfoldable pub handle_message : Text → List Setting
  handle_message [] = []
  handle_message (c ∷ l) = run_parts (split (map tolower (c ∷ l)))
