-- ===== src/Prelude/Maps.antt =====
-- A Go `map[string]V` as an association list. The program never depends on a map's order.
use Prim.Native.String.{String}
use mathlib.Core.Path.{◌≡◌, refl}
use mathlib.Core.Option.{Option, none, some}
use mathlib.Core.List.{List, [], ◌∷◌}
use native.Mathlib.Omega.{arith}
use text.Mathlib.Text.{◌==◌}
use text.Mathlib.TextEquality.{eq_iff}
use mt5_bridge.Prelude.Tests.{if◌then◌else◌}

abbrev pub Assoc {ℓ} : Type ℓ → Type ℓ
Assoc Value = List (String × Value)

module _ {ℓ} {Value : Type ℓ} where
  -- `v, ok := entries[wanted]`.
  unfoldable pub lookup : String → Assoc Value → Option Value
  lookup wanted [] = none
  lookup wanted ((key, value) ∷ entries) =
      let later = lookup wanted entries in if key == wanted then some value else later

  -- `delete(entries, dropped)`.
  unfoldable pub delete : String → Assoc Value → Assoc Value
  delete dropped [] = []
  delete dropped ((key, value) ∷ entries) =
      let later = delete dropped entries in if key == dropped then later else (key, value) ∷ later

  -- `entries[added] = new`: the first entry of the key is replaced where it stands.
  unfoldable pub insert : String → Value → Assoc Value → Assoc Value
  insert added new [] = (added, new) ∷ []
  insert added new ((key, value) ∷ entries) =
      let later = insert added new entries in
      if key == added then (added, new) ∷ entries else (key, value) ∷ later

  pub lookup-delete :
      (dropped wanted : String) (entries : Assoc Value)
      → lookup wanted (delete dropped entries)
        ≡ (if dropped == wanted then none else lookup wanted entries)
  unfolding delete lookup
  lookup-delete dropped wanted [] = ground arith
  lookup-delete dropped wanted ((key, value) ∷ entries) = ground (
    arith,
    eq_iff dropped wanted,
    eq_iff key wanted,
    eq_iff key dropped,
    lookup-delete dropped wanted entries,
  )

  pub lookup-insert :
      (added wanted : String) (new : Value) (entries : Assoc Value)
      → lookup wanted (insert added new entries)
        ≡ (if added == wanted then some new else lookup wanted entries)
  unfolding insert lookup
  lookup-insert added wanted new [] = refl
  lookup-insert added wanted new ((key, value) ∷ entries) = ground (
    arith,
    eq_iff key wanted,
    eq_iff key added,
    eq_iff added wanted,
    lookup-insert added wanted new entries,
  )
