-- ===== src/Monitoring/Words.antt =====
-- monitoring/MonitorConnector.cpp: what a reader of `L1TriggerData` and `L2TriggerData` gets back.
use na62_farm.Base.{
  ℕ, zero, suc, ◌+◌, ◌≡◌, refl, ap, ◌&&◌, Option, none, some, List, [], ◌∷◌, ◌++◌, ltb, ◌==◌, arith,
  if◌then◌else◌,
}
use na62_farm.Base.Maps.{get}
use na62_farm.Monitoring.{trigger_data}

abbrev or_entry : Option ℕ → ℕ → ℕ → ℕ → Option ℕ
or_entry none j v k = if j == k then some v else none
or_entry (some x) j v k = some x

get-append : (k j v : ℕ) (m : List (ℕ × ℕ)) → get k (m ++ (j, v) ∷ []) ≡ or_entry (get k m) j v k
unfolding get
get-append k j v [] = refl
get-append k j v ((i, w) ∷ m) = ground (arith, get-append k j v m)

same_count : (triggers : ℕ → ℕ) (n word : ℕ) → n ≡ word → triggers n ≡ triggers word
same_count triggers n word e = ap triggers e

get-trigger_data :
    (triggers : ℕ → ℕ) (n word : ℕ)
    → get word (trigger_data triggers n)
      ≡ (if ltb word n && ltb 0 (triggers word) then some (triggers word) else none)
unfolding trigger_data get
get-trigger_data triggers zero word = ground arith
get-trigger_data triggers (suc n) word = ground (
  arith,
  get-trigger_data triggers n word,
  get-append word n (triggers n) (trigger_data triggers n),
  same_count triggers n word,
)

-- Each of the 256 trigger words can be looked up in what is sent, with its count if it is positive,
-- and is not there otherwise; no other word is there.
pub trigger_data-lookup :
    (triggers : ℕ → ℕ) (word : ℕ)
    → get word (trigger_data triggers (0xff + 1))
      ≡ (if ltb word 256 && ltb 0 (triggers word) then some (triggers word) else none)
trigger_data-lookup triggers word = get-trigger_data triggers 256 word
