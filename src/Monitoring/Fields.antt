-- ===== src/Monitoring/Fields.antt =====
-- monitoring/MonitorConnector.cpp: what a reader of `DetectorData` gets back.
use mathlib.Core.List.{append-nil, append_assoc}
use na62_farm.Base.{
  ℕ, zero, suc, ◌/◌, ◌≡◌, refl, sym, ◌∙◌, ap, Bool, true, false, not, ◌&&◌, Option, none, some,
  List, [], ◌∷◌, ◌++◌, ltb, ◌==◌, if◌then◌else◌,
}
use na62_farm.Monitoring.{
  hexadecimal, decimal, Field, Stream, set_base, write, Sources, write_meps, write_source,
  write_sources, detector_data,
}

-- The statistics of one source; `meps` is there if the source is expected to send any.
pub record Entry : Type 0 where
  pub source_id : ℕ
  pub meps : Option ℕ
  pub missing : ℕ
  pub bytes : ℕ

-- The entries from the last source down to the first.
abbrev pub entry_of : Sources → ℕ → Entry
entry_of src num = record {
  source_id = src.source_id num;
  meps =
      if ltb 0 (src.expected_packs num)
      then some (src.received.meps num / src.expected_packs num)
      else none;
  missing = src.missing_events num;
  bytes = src.received.bytes num;
}

abbrev pub entries_of : Sources → ℕ → List Entry
entries_of src zero = []
entries_of src (suc num) = entry_of src num ∷ entries_of src num

-- A reader: an entry begins with a number after `0x`, and goes on up to the next one. It reads
-- decimal numbers and no others in an entry.
abbrev or_else : Bool → Option (List Entry) → Option (List Entry)
or_else true o = o
or_else false o = none

abbrev is_decimal : Field → Bool
is_decimal f = elim f.base [ hexadecimal ↦ false | decimal ↦ not f.is_prefixed ]

abbrev is_hexadecimal : Field → Bool
is_hexadecimal f = elim f.base [ hexadecimal ↦ f.is_prefixed | decimal ↦ false ]

abbrev with_entry : Entry → Option (List Entry) → Option (List Entry)
with_entry e none = none
with_entry e (some es) = some (e ∷ es)

unfoldable pub read_entries : List Field → Option (List Entry)
read_entries [] = some []
read_entries (f ∷ []) = none
read_entries (f ∷ a ∷ []) = none
read_entries (f ∷ a ∷ b ∷ []) =
    or_else (is_hexadecimal f && is_decimal a && is_decimal b)
      (some (record { source_id = f.value; meps = none; missing = a.value; bytes = b.value } ∷ []))
read_entries (f ∷ a ∷ b ∷ c ∷ l) =
    let short = read_entries (c ∷ l) in
    let long = read_entries l in
    or_else (is_hexadecimal f && is_decimal a && is_decimal b) (
      if c.is_prefixed
      then with_entry
          (record { source_id = f.value; meps = none; missing = a.value; bytes = b.value }) short
      else with_entry
          (record { source_id = f.value; meps = some a.value; missing = b.value; bytes = c.value })
          long)

-- The fields of an entry, and of several.
abbrev number : ℕ → Field
number n = record { is_prefixed = false; base = decimal; value = n }

abbrev meps_fields : Option ℕ → List Field
meps_fields none = []
meps_fields (some n) = number n ∷ []

abbrev fields_of : Entry → List Field
fields_of e =
    record { is_prefixed = true; base = hexadecimal; value = e.source_id }
    ∷ (meps_fields e.meps ++ number e.missing ∷ number e.bytes ∷ [])

abbrev all_fields : List Entry → List Field
all_fields [] = []
all_fields (e ∷ es) = fields_of e ++ all_fields es

read_entries-fields :
    (source_id : ℕ) (meps : Option ℕ) (missing bytes : ℕ) (es : List Entry)
    → read_entries (all_fields es) ≡ some es
    → read_entries (
        fields_of (record { source_id = source_id; meps = meps; missing = missing; bytes = bytes })
        ++ all_fields es)
      ≡ some (record { source_id = source_id; meps = meps; missing = missing; bytes = bytes } ∷ es)
unfolding read_entries
read_entries-fields i none m b [] h = refl
read_entries-fields i (some n) m b [] h = refl
read_entries-fields i none m b (e ∷ es) h = ap (with_entry _) h
read_entries-fields i (some n) m b (e ∷ es) h = ap (with_entry _) h

read_entries-all : (es : List Entry) → read_entries (all_fields es) ≡ some es
unfolding read_entries
read_entries-all [] = refl
read_entries-all (e ∷ es) =
    read_entries-fields e.source_id e.meps e.missing e.bytes es (read_entries-all es)

all_fields-append : (xs ys : List Entry) → all_fields (xs ++ ys) ≡ all_fields xs ++ all_fields ys
all_fields-append [] ys = refl
all_fields-append (e ∷ xs) ys =
    ap (λ l. fields_of e ++ l) (all_fields-append xs ys)
    ∙ sym (append_assoc (fields_of e) (all_fields xs) (all_fields ys))

write-if :
    (b : Bool) (n : ℕ) (s : Stream)
    → (if b then write false n (set_base decimal s) else s).out
      ≡ s.out ++ meps_fields (if b then some n else none)
unfolding write set_base
write-if true n s = refl
write-if false n s = sym (append-nil s.out)

three_appended :
    (o m : List Field) (i x y : Field)
    → o ++ i ∷ [] ++ m ++ x ∷ [] ++ y ∷ [] ≡ o ++ (i ∷ (m ++ x ∷ y ∷ []))
three_appended [] m i x y = ap (λ l. i ∷ l) (append_assoc m (x ∷ []) (y ∷ []))
three_appended (f ∷ o) m i x y = ap (λ l. f ∷ l) (three_appended o m i x y)

module _ (src : Sources) where
  write_meps-out :
      (num : ℕ) (s : Stream)
      → (write_meps src num s).out ≡ s.out ++ meps_fields (entry_of src num).meps
  unfolding write_meps
  write_meps-out num s =
      write-if (ltb 0 (src.expected_packs num)) (src.received.meps num / src.expected_packs num) s

  write_source-out :
      (num : ℕ) (s : Stream) → (write_source src num s).out ≡ s.out ++ fields_of (entry_of src num)
  unfolding write_source write set_base
  write_source-out num s =
      ap (λ l. l ++ number (src.missing_events num) ∷ [] ++ number (src.received.bytes num) ∷ [])
        (write_meps-out num _)
      ∙ three_appended s.out (meps_fields (entry_of src num).meps) _ _ _

  write_sources-out :
      (num : ℕ) (s : Stream)
      → (write_sources src num s).out ≡ s.out ++ all_fields (entries_of src num)
  unfolding write_sources
  write_sources-out zero s = sym (append-nil s.out)
  write_sources-out (suc num) s =
      write_sources-out num (write_source src num s)
      ∙ ap (λ l. l ++ all_fields (entries_of src num)) (write_source-out num s)
      ∙ append_assoc s.out (fields_of (entry_of src num)) (all_fields (entries_of src num))

  write_second-out :
      (b : Bool) (s : Stream)
      → (if not b then write_sources src src.number_of_sources s else s).out
        ≡ s.out ++ all_fields (if b then [] else entries_of src src.number_of_sources)
  write_second-out true s = sym (append-nil s.out)
  write_second-out false s = write_sources-out src.number_of_sources s

-- The string of `DetectorData` gives everything back: a reader that starts a new entry at each number
-- after `0x` gets, from the last source number down to the first and for L0 before L1, the id of each
-- source in hexadecimal and, in decimal, its MEPs divided by the packets expected of it, if there are
-- any, its missing events and its bytes. The entries of L1 are there if LKr packets are expected.
pub detector_data-read :
    (expected_l1_packets : ℕ) (l0 l1 : Sources)
    → read_entries (detector_data expected_l1_packets l0 l1)
      ≡ some (
          entries_of l0 l0.number_of_sources
          ++ (if expected_l1_packets == 0 then [] else entries_of l1 l1.number_of_sources))
unfolding detector_data
detector_data-read expected l0 l1 =
    let entries = entries_of l0 l0.number_of_sources in
    let more : List Entry = if expected == 0 then [] else entries_of l1 l1.number_of_sources in
    ap read_entries (
      write_second-out l1 (expected == 0) _
      ∙ ap (λ l. l ++ all_fields more) (write_sources-out l0 l0.number_of_sources _)
      ∙ sym (all_fields-append entries more))
    ∙ read_entries-all (entries ++ more)
