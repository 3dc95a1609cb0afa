-- ===== src/Api/Routes/Substring.antt =====
-- What `containsSubstring` decides.
use Prim.Native.Char.{Char, code}
use Prim.Native.String
use Prim.Native.String.{◌∷◌, []}
use text.Mathlib.TextEquality.{Char-path}
use text.Mathlib.TextLemmas.{nil-append, cons-append}
use mt5_bridge.Prelude.{String, ◌≡◌, refl, sym, ap, ◌↔◌, inl, inr, true, arith, Bool-cases, nat_eq}
use mt5_bridge.Go.Text.{has_prefix}
use mt5_bridge.Api.Routes.{contains_substring}

code_eq : (c d : Char) → nat_eq (code c) (code d) ≡ true → c ≡ d
code_eq c d h = Char-path c d (ground arith)

has_prefix_sound : (s p : String) → has_prefix s p ≡ true → (t : String) × (s ≡ String.◌++◌ p t)
unfolding has_prefix
has_prefix_sound s [] h = (s, sym (nil-append s))
has_prefix_sound [] (d ∷ p) h = cc
has_prefix_sound (c ∷ s) (d ∷ p) h =
    let (t, e) = has_prefix_sound s p (ground arith) in
    (t, rw (cons-append, code_eq c d (ground arith)) (ap (◌∷◌ d) e))

has_prefix-append : (p t : String) → has_prefix (String.◌++◌ p t) p ≡ true
unfolding has_prefix
has_prefix-append [] t = refl
has_prefix-append (d ∷ p) t = rw cons-append (ground (arith, has_prefix-append p t))

contains_substring_sound :
    (s p : String)
    → contains_substring s p ≡ true
    → (before : String) × (rest : String) × (s ≡ String.◌++◌ before (String.◌++◌ p rest))
unfolding contains_substring
contains_substring_sound [] p h =
    let (rest, e) = has_prefix_sound [] p h in ([], rest, rw nil-append e)
contains_substring_sound (c ∷ s) p h = elim (Bool-cases (has_prefix (c ∷ s) p)) [
  | inl here ↦ let (rest, e) = has_prefix_sound (c ∷ s) p here in ([], rest, rw nil-append e)
  | inr later ↦
      let (before, rest, e) = contains_substring_sound s p (ground arith) in
      (c ∷ before, rest, rw cons-append (ap (◌∷◌ c) e))
]

contains_substring_of_prefix :
    (s p : String) → has_prefix s p ≡ true → contains_substring s p ≡ true
unfolding contains_substring
contains_substring_of_prefix [] p h = h
contains_substring_of_prefix (c ∷ s) p h = ground arith

contains_substring-append :
    (before p rest : String) → contains_substring (String.◌++◌ before (String.◌++◌ p rest)) p ≡ true
unfolding contains_substring
contains_substring-append [] p rest =
    rw nil-append (contains_substring_of_prefix _ p (has_prefix-append p rest))
contains_substring-append (c ∷ before) p rest =
    rw cons-append (ground (arith, contains_substring-append before p rest))

-- `containsSubstring` finds exactly the texts that stand somewhere in the path.
pub contains_substring_iff :
    (s p : String)
    → (contains_substring s p ≡ true)
      ↔ ((before : String) × (rest : String) × (s ≡ String.◌++◌ before (String.◌++◌ p rest)))
contains_substring_iff s p = (
  contains_substring_sound s p,
  λ (before, rest, e). rw e (contains_substring-append before p rest),
)
