-- ===== src/Examples/Configured.antt =====
-- options/MyOptions.h with a class `Options` that gives every option its default value.
use Prim.Native.String.{String}
use text.Mathlib.Text.{◌==◌}
use text.Mathlib.TextPositions.{eq_refl}
use na62_farm.Base.{
  ◌≡◌, refl, true, false, Option, none, some, List, [], ◌∷◌, All, if◌then◌else◌, Bool-cases, inl,
  inr, arith, subst, some_inj,
}
use na62_farm.Options.{Kind, Value, kind_of, Presence, name, declarations}
use na62_farm.Options.Reads.{reads, Part}
use na62_farm.Options.Loaded.{
  Variables, Named, IsFilledIn, unlike, distinct, FillsIn, named, load, same_kind, HasValue, others,
  load-HasValue,
}

abbrev blank : Kind → Value
blank Kind.string = Value.text ""
blank Kind.int = Value.number 0
blank Kind.double = Value.decimal 0
blank Kind.bool = Value.flag false

abbrev default_of : Kind → Presence → Value
default_of kind Presence.required = blank kind
default_of kind (Presence.default_value v) = if same_kind (kind_of v) kind then v else blank kind

blank-kind : (kind : Kind) → kind_of (blank kind) ≡ kind
blank-kind Kind.string = refl
blank-kind Kind.int = refl
blank-kind Kind.double = refl
blank-kind Kind.bool = refl

same_kind-eq : (a b : Kind) → same_kind a b ≡ true → a ≡ b
same_kind-eq a b h = ground arith

default_of-kind : (kind : Kind) (p : Presence) → kind_of (default_of kind p) ≡ kind
default_of-kind kind Presence.required = blank-kind kind
default_of-kind kind (Presence.default_value v) =
    ground (arith, blank-kind kind, same_kind-eq (kind_of v) kind)

defaults : List Named → Variables
defaults [] s = none
defaults (d ∷ l) s = if d.0 == s then some (default_of d.1.kind d.1.presence) else defaults l s

-- An option in front of others that have another name hides none of them.
hides_none :
    (d : Named) (l others : List Named)
    → unlike d.0 others ≡ true
    → All (IsFilledIn (defaults l)) others
    → All (IsFilledIn (defaults (d ∷ l))) others
unfolding defaults
hides_none d l [] e h = tt
hides_none d l (x ∷ xs) e h = elim (Bool-cases (d.0 == x.0)) [
  | inl same ↦ absurd (ground arith)
  | inr different ↦ ((h.0.0, rw different h.0.1, h.0.2), hides_none d l xs (ground arith) h.1)
]

defaults-IsFilledIn : (l : List Named) → distinct l ≡ true → All (IsFilledIn (defaults l)) l
unfolding defaults
defaults-IsFilledIn [] e = tt
defaults-IsFilledIn (d ∷ l) e = (
  (default_of d.1.kind d.1.presence, rw (eq_refl d.0), default_of-kind d.1.kind d.1.presence),
  hides_none d l l (ground arith) (defaults-IsFilledIn l (ground arith)),
)

abbrev initialize : List Named → List String → Option Variables
initialize l argv = some (defaults l)

initialize-FillsIn : FillsIn initialize
initialize-FillsIn l argv vm e distinct_names =
    subst (λ (vm : Variables). All (IsFilledIn vm) l) (some_inj e)
      (defaults-IsFilledIn l distinct_names)

own_name : unlike "config" (named "config" (others declarations)) ≡ true
unfolding declarations name
own_name = refl

loaded : load initialize "config" [] ≡ some (defaults (named "config" declarations))
unfolding load
loaded = refl

load-HasValue_example :
    All (HasValue "config" (defaults (named "config" declarations))) (reads Part.main)
load-HasValue_example =
    load-HasValue initialize "config" [] _ initialize-FillsIn own_name loaded Part.main
