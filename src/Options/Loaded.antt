-- ===== src/Options/Loaded.antt =====
-- options/MyOptions.h: `Load`, and what the program may rely on after it.
use Prim.Native.String.{String}
use text.Mathlib.Text.{◌==◌}
use text.Mathlib.TextEquality.{eq_iff}
use na62_farm.Base.{
  subst, ◌≡◌, refl, ◌∙◌, ap, Bool, true, false, not, ◌&&◌, Option, some, List, [], ◌∷◌, map, All,
  if◌then◌else◌, Bool-cases, inl, inr, arith,
}
use na62_farm.Options.{Key, name, Kind, Value, kind_of, Declaration, declarations}
use na62_farm.Options.Reads.{
  main_reads, packet_handler_reads, handle_frame_task_reads, l1_builder_reads,
  storage_handler_reads, command_connector_reads, Read, Part, reads, kind_read,
}

-- What `Options` keeps of the command line and the file: a value for each name.
abbrev pub Variables : Type 0
Variables = String → Option Value

-- A declaration with its name, as `add_options` gets it.
abbrev pub Named : Type 0
Named = String × Declaration

abbrev pub IsFilledIn : Variables → Named → Type 0
IsFilledIn vm d = (v : Value) × (vm d.0 ≡ some v) × (kind_of v ≡ d.1.kind)

abbrev pub unlike : String → List Named → Bool
unlike s [] = true
unlike s (d ∷ l) = not (s == d.0) && unlike s l

abbrev pub distinct : List Named → Bool
distinct [] = true
distinct (d ∷ l) = unlike d.0 l && distinct l

-- What boost::program_options documents of `store` and `notify`: when they return, an option that has
-- a default value or is required has a value, of the type that it was declared with. The names of the
-- options are different.
abbrev pub FillsIn : (List Named → List String → Option Variables) → Type 0
FillsIn initialize =
    (l : List Named) (argv : List String) (vm : Variables)
    → initialize l argv ≡ some vm
    → distinct l ≡ true
    → All (IsFilledIn vm) l

abbrev pub named : String → List Declaration → List Named
named config_name l = map (λ d. (name config_name d.key, d)) l

-- `MyOptions::Load`, with `Options::Initialize`
unfoldable pub load :
    (List Named → List String → Option Variables) → String → List String → Option Variables
load initialize config_name argv = initialize (named config_name declarations) argv

abbrev pub same_kind : Kind → Kind → Bool
same_kind Kind.string Kind.string = true
same_kind Kind.int Kind.int = true
same_kind Kind.double Kind.double = true
same_kind Kind.bool Kind.bool = true
same_kind _ _ = false

-- `timestampSourceID` is declared as a string and read as an int, and two ints are read as bools.
abbrev pub is_mismatched : Key → Bool
is_mismatched Key.ts_sourceid = true
is_mismatched Key.send_mrp_with_zsuppression_flag = true
is_mismatched Key.active_polling = true
is_mismatched _ = false

-- The option that is read has a value, of the type that the getter is meant for or not.
abbrev pub HasValue : String → Variables → Read → Type 0
HasValue config_name vm r =
    (v : Value) × (vm (name config_name r.key) ≡ some v)
    × (same_kind (kind_of v) (kind_read r.getter) ≡ not (is_mismatched r.key))

-- Whether an option is declared, with the type that its getter is meant for or not.
abbrev agrees : Bool → Bool → Bool
agrees true b = b
agrees false b = not b

is_declared : String → List Declaration → Read → Bool
is_declared config_name [] r = false
is_declared config_name (d ∷ l) r =
    if name config_name d.key == name config_name r.key
    then agrees (same_kind d.kind (kind_read r.getter)) (not (is_mismatched r.key))
    else is_declared config_name l r

are_declared : String → List Declaration → List Read → Bool
are_declared config_name l [] = true
are_declared config_name l (r ∷ rs) = is_declared config_name l r && are_declared config_name l rs

-- The name of the configuration file is the only one that the library gives.
abbrev pub others : List Declaration → List Declaration
others [] = []
others (d ∷ l) = l

agrees-eq : (a b : Bool) → agrees a b ≡ true → a ≡ b
agrees-eq true b h = ground arith
agrees-eq false b h = ground arith

module _ (config_name : String) (vm : Variables) where
  stored_under :
      (d : Declaration) (r : Read)
      → IsFilledIn vm (name config_name d.key, d)
      → name config_name d.key ≡ name config_name r.key
      → same_kind d.kind (kind_read r.getter) ≡ not (is_mismatched r.key)
      → HasValue config_name vm r
  stored_under d r (v, stored, typed) same fits = (
    v,
    subst (λ (s : String). vm s ≡ some v) same stored,
    ap (λ (kind : Kind). same_kind kind (kind_read r.getter)) typed ∙ fits,
  )

  declared-HasValue :
      (l : List Declaration) (r : Read)
      → All (IsFilledIn vm) (named config_name l)
      → is_declared config_name l r ≡ true
      → HasValue config_name vm r
  unfolding is_declared
  declared-HasValue [] r h e = absurd (ground arith)
  declared-HasValue (d ∷ l) r h e =
      elim (Bool-cases (name config_name d.key == name config_name r.key)) [
        | inl same ↦ stored_under d r h.0 ((eq_iff _ _).0 same) (agrees-eq _ _ (ground arith))
        | inr different ↦ declared-HasValue l r h.1 (ground arith)
      ]

  reads-HasValue :
      (l : List Declaration) (rs : List Read)
      → All (IsFilledIn vm) (named config_name l)
      → are_declared config_name l rs ≡ true
      → All (HasValue config_name vm) rs
  unfolding are_declared
  reads-HasValue l [] h e = tt
  reads-HasValue l (r ∷ rs) h e =
      (declared-HasValue l r h (ground arith), reads-HasValue l rs h (ground arith))

names-distinct :
    (config_name : String)
    → unlike config_name (named config_name (others declarations)) ≡ true
    → distinct (named config_name declarations) ≡ true
unfolding declarations name
names-distinct config_name own = rw own

all_reads_declared :
    (config_name : String) (part : Part)
    → are_declared config_name (others declarations) (reads part) ≡ true
unfolding are_declared is_declared declarations name reads main_reads packet_handler_reads
    handle_frame_task_reads l1_builder_reads storage_handler_reads command_connector_reads
all_reads_declared config_name Part.main = refl
all_reads_declared config_name Part.packet_handler = refl
all_reads_declared config_name Part.handle_frame_task = refl
all_reads_declared config_name Part.l1_builder = refl
all_reads_declared config_name Part.storage_handler = refl
all_reads_declared config_name Part.command_connector = refl

-- After `Load` has returned, every option that a part of the program reads was declared and has a
-- value, and the value has the type of the getter that reads it, except for `timestampSourceID`, a
-- string that is read as an int, and for `activePolling` and `sendMRPsWithZSuppressionFlag`, ints that
-- are read as bools. `Options::Initialize` is assumed to give a value of the declared type to each
-- option that has a default value or is required, if their names are different, and the name of the
-- configuration file to be none of the others.
pub load-HasValue :
    (initialize : List Named → List String → Option Variables) (config_name : String)
    (argv : List String) (vm : Variables)
    → FillsIn initialize
    → unlike config_name (named config_name (others declarations)) ≡ true
    → load initialize config_name argv ≡ some vm
    → (part : Part) → All (HasValue config_name vm) (reads part)
unfolding load declarations
load-HasValue initialize config_name argv vm fills own loaded part =
    reads-HasValue config_name vm (others declarations) (reads part)
      (fills _ argv vm loaded (names-distinct config_name own)).1
      (all_reads_declared config_name part)
