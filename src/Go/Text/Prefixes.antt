-- ===== src/Go/Text/Prefixes.antt =====
-- Texts that begin differently.
use Prim.Native.Char.{code}
use Prim.Native.String.{String, ◌∷◌, [], ◌++◌}
use text.Mathlib.TextLemmas.{cons-append}
use mt5_bridge.Prelude.{◌≡◌, Bool, true, false, not, ◌||◌, nat_eq, arith}
use mt5_bridge.Go.Text.{has_prefix}

-- The texts differ at some place that both have.
abbrev pub conflicts : String → String → Bool
conflicts [] q = false
conflicts (c ∷ p) [] = false
conflicts (c ∷ p) (d ∷ q) = not (nat_eq (code c) (code d)) || conflicts p q

pub has_prefix-append :
    (p rest q : String) → conflicts p q ≡ true → has_prefix (p ++ rest) q ≡ false
unfolding has_prefix
has_prefix-append [] rest q h = ground arith
has_prefix-append (c ∷ p) rest [] h = ground arith
has_prefix-append (c ∷ p) rest (d ∷ q) h =
    rw cons-append (ground (arith, has_prefix-append p rest q))
