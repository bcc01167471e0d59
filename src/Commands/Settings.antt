-- ===== src/Commands/Settings.antt =====
-- monitoring/CommandConnector.cpp: what a command can set.
use na62_farm.Base.{
  ℕ, ◌+◌, ◌≡◌, inl, inr, refl, ap, ap₂, Bool, true, List, [], ◌∷◌, map, arith, Bool-cases,
}
use na62_farm.Base.Words.{u64}
use na62_farm.Commands.{
  Text, Setting, set_next_burst_id, tolower, run_command, run_parts, handle_message, same_text,
  eob_timestamp, updatenextburstid, sob_timestamp,
}

tolower-tolower : (c : ℕ) → tolower (tolower c) ≡ tolower c
unfolding tolower
tolower-tolower c = ground arith

lower-lower : (m : Text) → map tolower (map tolower m) ≡ map tolower m
lower-lower [] = refl
lower-lower (c ∷ l) = ap₂ ◌∷◌ (tolower-tolower c) (lower-lower l)

-- A command does the same in capital and in small letters, whatever `split` does.
pub handle_message-tolower :
    (split : Text → List Text) (increment_at_eob : Bool) (current_burst_id : ℕ) (m : Text)
    → handle_message split increment_at_eob current_burst_id (map tolower m)
      ≡ handle_message split increment_at_eob current_burst_id m
unfolding handle_message
handle_message-tolower split inc b [] = refl
handle_message-tolower split inc b (c ∷ l) =
    ap (λ t. run_parts split inc b (split t)) (lower-lower (c ∷ l))

-- The next burst is the current one and one more.
abbrev pub NextIs : ℕ → List Setting → Type 0
NextIs b [] = Unit
NextIs b (set_next_burst_id n ∷ l) = (n ≡ u64 (b + 1)) × NextIs b l
NextIs b (_ ∷ l) = NextIs b l

run_command-NextIs :
    (split : Text → List Text) (b : ℕ) (c a : Text) → NextIs b (run_command split true b c a)
unfolding run_command
run_command-NextIs split b c a = elim (Bool-cases (same_text c eob_timestamp)) [
  | inl e ↦ rw (e, run_command) (refl, tt)
  | inr e ↦ elim (Bool-cases (same_text c updatenextburstid)) [
    | inl f ↦ rw (e, run_command) (rw f tt)
    | inr f ↦ elim (Bool-cases (same_text c sob_timestamp)) [
      | inl g ↦ rw (e, run_command) (rw f (rw g tt))
      | inr g ↦ rw (e, run_command) (rw f (rw g tt))
    ]
  ]
]

run_parts-NextIs :
    (split : Text → List Text) (b : ℕ) (l : List Text) → NextIs b (run_parts split true b l)
run_parts-NextIs split b [] = tt
run_parts-NextIs split b (c ∷ []) = tt
run_parts-NextIs split b (c ∷ a ∷ []) = run_command-NextIs split b c a
run_parts-NextIs split b (c ∷ a ∷ x ∷ l) = tt

-- With INCREMENT_BURST_AT_EOB set, no command, whatever its text and argument, sets the next burst to
-- anything but the current burst plus one.
pub handle_message-NextIs :
    (split : Text → List Text) (current_burst_id : ℕ) (m : Text)
    → NextIs current_burst_id (handle_message split true current_burst_id m)
unfolding handle_message
handle_message-NextIs split b [] = tt
handle_message-NextIs split b (c ∷ l) = run_parts-NextIs split b (split (map tolower (c ∷ l)))
