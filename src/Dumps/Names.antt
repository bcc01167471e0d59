-- ===== src/Dumps/Names.antt =====
-- socket/PcapDump.cpp: the names of the files.
use mathlib.Core.List.{append_assoc, tail-eq_of_cons-eq}
use na62_farm.Base.{
  ℕ, zero, suc, ◌+◌, ◌-◌, ◌*◌, ◌/◌, ◌%◌, ◌<◌, ◌≡◌, refl, ◌∙◌, ap, sym, Bool, false, ◌&&◌, [], ◌∷◌,
  ◌++◌, ltb, leb, ◌==◌, if◌then◌else◌, Bool-cases, inl, inr, arith,
}
use na62_farm.Base.Words.{u16}
use na62_farm.Base.Decimal.{digits, to_string}
use na62_farm.Commands.{Text}
use na62_farm.Dumps.{
  short_to_string, extension, filename, task_processor_dump, open_dump, dump_path,
}

abbrev is_digit : ℕ → Bool
is_digit c = leb 48 c && leb c 57

-- The number at the start of a text, after the digits read so far, and the rest.
read_number : ℕ → Text → ℕ × Text
read_number n [] = (n, [])
read_number n (c ∷ l) =
    let rest = read_number (n * 10 + (c - 48)) l in if is_digit c then rest else (n, c ∷ l)

read_number-digit :
    (n d : ℕ) (l : Text) → d < 10 → read_number n ((48 + d) ∷ l) ≡ read_number (n * 10 + d) l
unfolding read_number
read_number-digit n d l h = ground arith

read_number-digits :
    (f n : ℕ) (l : Text) → n < f → read_number 0 (digits f n ++ l) ≡ read_number n l
unfolding digits
read_number-digits zero n l h = absurd (omega arith)
read_number-digits (suc f) n l h = elim (Bool-cases (ltb n 10)) [
  | inl small ↦
      rw (small, digits)
        (read_number-digit 0 n l (ground arith) ∙ ap (λ (m : ℕ). read_number m l) (omega arith))
  | inr large ↦
      rw (large, digits)
        (rw (append_assoc (digits f (n / 10)) ((48 + n % 10) ∷ []) l) (
          rw (read_number-digits f (n / 10) ((48 + n % 10) ∷ l) (ground arith)) (
            rw (read_number-digit (n / 10) (n % 10) l (omega arith))
              (ap (λ (m : ℕ). read_number m l) (omega arith)))))
]

-- A reader of the text gets the number back, as far as no digit follows it.
read_number-to_string :
    (n c : ℕ) (l : Text) → is_digit c ≡ false → read_number 0 (to_string n ++ c ∷ l) ≡ (n, c ∷ l)
unfolding to_string
read_number-to_string n c l h =
    read_number-digits (suc n) n (c ∷ l) (omega arith) ∙ unfold read_number in (ground arith)

-- The id at the start of a text, negative behind a dash.
abbrev after_dash : ℕ × Text → ℕ
after_dash (n, []) = n
after_dash (n, c ∷ l) = if c == 45 then 65536 - (read_number 0 l).0 else n

read_number-dash : (l : Text) → read_number 0 (45 ∷ l) ≡ (0, 45 ∷ l)
unfolding read_number
read_number-dash l = refl

read_id-short_to_string :
    (id : ℕ) → id < 65536 → after_dash (read_number 0 (short_to_string id ++ extension)) ≡ id
unfolding short_to_string
read_id-short_to_string id h = elim (Bool-cases (ltb id 32768)) [
  | inl positive ↦ rw (positive, short_to_string) (rw (read_number-to_string id 46 _ refl) refl)
  | inr negative ↦
      rw (negative, short_to_string)
        (rw (read_number-dash (to_string (65536 - id) ++ extension))
          (rw (read_number-to_string (65536 - id) 46 _ refl) (omega arith)))
]

-- What a reader gets from the part of a name behind the base: the time and the id.
abbrev tail_of : Text → Text
tail_of [] = []
tail_of (c ∷ l) = l

abbrev read_name : Text → ℕ × ℕ
read_name l = ((read_number 0 l).0, after_dash (read_number 0 (tail_of (read_number 0 l).1)))

read_name-name :
    (now id : ℕ)
    → id < 65536
    → read_name (to_string now ++ 45 ∷ (short_to_string id ++ extension)) ≡ (now, id)
read_name-name now id h =
    rw (read_number-to_string now 45 (short_to_string id ++ extension) refl)
      (rw (read_id-short_to_string id h) refl)

drop_base : (base a b : Text) → base ++ a ≡ base ++ b → a ≡ b
drop_base [] a b e = e
drop_base (c ∷ base) a b e = drop_base base a b (tail-eq_of_cons-eq e)

-- The files of two task processors have one name only if they were named in the same second and the
-- ids of the task processors are equal modulo 2^16, however the ids convert to `short`.
pub task_processor_dump-apart :
    (now now' id id' : ℕ)
    → (task_processor_dump now id).filename ≡ (task_processor_dump now' id').filename
    → (now ≡ now') × (u16 id ≡ u16 id')
unfolding task_processor_dump open_dump filename
task_processor_dump-apart now now' id id' e =
    let same = drop_base (dump_path ++ 45 ∷ []) _ _ e in
    let read =
      sym (read_name-name now (u16 id) (omega arith))
      ∙ ap read_name same
      ∙ read_name-name now' (u16 id') (omega arith) in
    (ap (λ (p : ℕ × ℕ). p.0) read, ap (λ (p : ℕ × ℕ). p.1) read)
