-- ===== src/Examples/Ordered.antt =====
-- monitoring/CommandConnector.cpp at a command in capital letters.
use na62_farm.Base.{ℕ, ◌≡◌, refl, true, List, [], ◌∷◌, ◌==◌, if◌then◌else◌}
use na62_farm.Commands.{
  Text, set_eob_time, set_next_burst_id, tolower, atoi, digits_value, signed_value, same_text,
  run_command, handle_message,
}
use na62_farm.Commands.Settings.{NextIs, handle_message-NextIs}

abbrev add_to_first : ℕ → List Text → List Text
add_to_first c [] = (c ∷ []) ∷ []
add_to_first c (t ∷ l) = (c ∷ t) ∷ l

-- The parts of a text between its colons.
split : Text → List Text
split [] = [] ∷ []
split (c ∷ l) = let rest = split l in if c == 58 then [] ∷ rest else add_to_first c rest

-- "EOB_Timestamp:70"
abbrev message : Text
message = 69 ∷ 79 ∷ 66 ∷ 95 ∷ 84 ∷ 105 ∷ 109 ∷ 101 ∷ 115 ∷ 116 ∷ 97 ∷ 109 ∷ 112 ∷ 58 ∷ 55 ∷ 48 ∷ []

message_handled : handle_message split true 3 message ≡ set_eob_time 70 ∷ set_next_burst_id 4 ∷ []
unfolding split handle_message tolower run_command same_text atoi signed_value digits_value
message_handled = refl

handle_message-NextIs_example : NextIs 3 (handle_message split true 3 message)
handle_message-NextIs_example = handle_message-NextIs split 3 message
