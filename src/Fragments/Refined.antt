-- ===== src/Fragments/Refined.antt =====
-- socket/FragmentStore.h: the store implements the table of datagrams that a caller sees.
use native.Mathlib.Decide.{ℕ_discrete}
use na62_farm.Base.{
  ℕ, ◌≡◌, ◌≢◌, refl, sym, subst, ◌∙◌, ap, ap₂, List, [], ◌∷◌, ◌++◌, keep, ==_true, ==_false,
}
use na62_farm.Frame.{Container, Header}
use na62_farm.Fragments.Slots.{Store, slot_of, fragments_at-set_self}
use na62_farm.Fragments.Isolation.{add_fragment-elsewhere}
use na62_farm.Fragments.Add.{frag_id_of, add_fragment}
use na62_farm.Fragments.Invariant.{IsSettled, add_fragment-IsSettled, one_more}
use na62_farm.Fragments.View.{
  view, is_final, decide, receive_fragment, Fits, AllFit, receive_fragments, add_fragments,
}
use mathlib.Core.Path.{fun_ext}
use na62_farm.Fragments.Settled.{settle-Implements}

module _ (header : List ℕ → Header) (f : Container) (s : Store) where
  abbrev own_key : ℕ
  own_key = frag_id_of header f

  abbrev received : List Container
  received = view s own_key ++ f ∷ []

  add_fragment-own :
      IsSettled header s
      → Fits header received
      → ((add_fragment header f s).0 ≡ (decide header received (keep (is_final header) received)).0)
        × (view (add_fragment header f s).1 own_key
            ≡ (decide header received (keep (is_final header) received)).1)
  unfolding add_fragment
  add_fragment-own settled fits =
      settle-Implements header (slot_of own_key) own_key received _
        (fragments_at-set_self (slot_of own_key) own_key _ received) fits
        (one_more header f s settled) (keep (is_final header) received) refl

  view-elsewhere :
      (k : ℕ)
      → own_key ≢ k
      → view (add_fragment header f s).1 k ≡ (receive_fragment header f (view s)).1 k
  unfolding receive_fragment
  view-elsewhere k ne = add_fragment-elsewhere header f s k ne ∙ rw (==_false own_key k ne) refl

  view-own :
      (k : ℕ)
      → own_key ≡ k
      → view (add_fragment header f s).1 own_key
        ≡ (decide header received (keep (is_final header) received)).1
      → view (add_fragment header f s).1 k ≡ (receive_fragment header f (view s)).1 k
  unfolding receive_fragment
  view-own k e h =
      ap (λ j. view (add_fragment header f s).1 j) (sym e) ∙ h ∙ rw (==_true own_key k e) refl

-- One call.
add_fragment-view :
    (header : List ℕ → Header) (f : Container) (s : Store)
    → IsSettled header s
    → Fits header (view s (frag_id_of header f) ++ f ∷ [])
    → ((add_fragment header f s).0 ≡ (receive_fragment header f (view s)).0)
      × (view (add_fragment header f s).1 ≡ (receive_fragment header f (view s)).1)
unfolding receive_fragment
add_fragment-view header f s settled fits =
    let (result, own) = add_fragment-own header f s settled fits in
    (
      result,
      fun_ext λ k. elim (ℕ_discrete (frag_id_of header f) k) [
        | yes e ↦ view-own header f s k e own
        | no ne ↦ view-elsewhere header f s k ne
      ],
    )

-- A sequence of calls of `addFragment` gives, one for one, the results of the same sequence on a table
-- that has one list of fragments for each datagram, and leaves what that leaves: for a caller the 32
-- maps, their locks, the order of the keys and the counters do not matter. The store is settled
-- before, as the empty one is, and the payloads of each datagram fit 32 bits.
pub add_fragments-view :
    (header : List ℕ → Header) (l : List Container) (s : Store)
    → IsSettled header s
    → AllFit header (view s) l
    → ((add_fragments header l s).0 ≡ (receive_fragments header l (view s)).0)
      × (view (add_fragments header l s).1 ≡ (receive_fragments header l (view s)).1)
unfolding add_fragments receive_fragments
add_fragments-view header [] s settled fit = (refl, refl)
add_fragments-view header (f ∷ l) s settled fit =
    let (result, left) = add_fragment-view header f s settled fit.0 in
    let (results, rest) =
      add_fragments-view header l (add_fragment header f s).1
        (add_fragment-IsSettled header f s settled)
        (subst (λ v. AllFit header v l) (sym left) fit.1) in
    (
      ap₂ (λ r rs. r ∷ rs) result (results ∙ ap (λ v. (receive_fragments header l v).0) left),
      rest ∙ ap (λ v. (receive_fragments header l v).1) left,
    )
