-- ===== src/Signal/Logger.antt =====
-- signal/logger.go, `tcpLog` of cmd/tcp/main.go and `sent` of cmd/relay/main.go: in which colour a signal
-- is shown, and when a line is written at all. The text and the console are left out.
use mt5_bridge.Prelude.{
  ℕ, String, ◌≡◌, refl, Bool, true, false, ◌||◌, Option, none, some, if◌then◌else◌, ◌==◌, ltb,
  arith, eq_iff, Bool-cases, ◌⊎◌, inl, inr,
}
use mt5_bridge.Go.Text.{has_prefix}

pub data Colour : Type 0 where
  green red magenta yellow blue cyan : Colour

-- The colour, the label and the direction of `Order`; no direction is the question mark.
pub record Style : Type 0 where
  pub colour : Colour
  pub label : String
  pub direction : Option String

abbrev is_buy : String → Bool
is_buy side = side == "BUY" || side == "BUY_STOP" || side == "BUY_LIMIT"

abbrev is_sell : String → Bool
is_sell side = side == "SELL" || side == "SELL_STOP" || side == "SELL_LIMIT"

-- Of the action and the side in upper case.
unfoldable pub order_style : String → String → Style
order_style action side =
    if action == "OPEN"
    then record {
      colour = if is_buy side then green else if is_sell side then red else blue;
      label = side;
      direction = some "OPEN";
    }
    else if action == "CLOSE"
    then record { colour = magenta; label = ""; direction = some "CLOSE" }
    else if action == "EDIT"
    then record { colour = yellow; label = ""; direction = some "EDIT" }
    else record { colour = blue; label = ""; direction = none }

unfoldable pub tcp_colour : String → String → Colour
tcp_colour action side =
    if action == "OPEN"
    then (if has_prefix side "BUY" then green else red)
    else if action == "CLOSE"
    then magenta
    else if action == "EDIT"
    then yellow
    else blue

-- Of the action of the payload.
unfoldable pub sent_colour : String → Colour
sent_colour action =
    if action == "BUY" || action == "BUY_STOP"
    then green
    else if action == "SELL" || action == "SELL_STOP"
    then red
    else if action == "CLOSE" || action == "CLOSE_ALL"
    then magenta
    else if action == "MODIFY"
    then yellow
    else blue

-- `Queue` writes a line, with this size, or none.
unfoldable pub queue_line : ℕ → Option ℕ
queue_line size = if ltb 0 size then some size else none

-- A side has one colour in both.
abbrev IsShownAlike : String → Type 0
IsShownAlike side =
    (if has_prefix side "BUY" then green else red)
    ≡ (if is_buy side then green else if is_sell side then red else blue)

alike_at : (side known : String) → IsShownAlike known → (side == known) ≡ true → IsShownAlike side
alike_at side known alike e = rw ((eq_iff side known).0 e) alike

sides_alike : (side : String) → (is_buy side || is_sell side) ≡ true → IsShownAlike side
unfolding has_prefix
sides_alike side h =
    elim (some_true (side == "BUY") (side == "BUY_STOP") (side == "BUY_LIMIT") (side == "SELL")
      (side == "SELL_STOP") (side == "SELL_LIMIT") h) [
        | inl e ↦ alike_at side "BUY" refl e
        | inr (inl e) ↦ alike_at side "BUY_STOP" refl e
        | inr (inr (inl e)) ↦ alike_at side "BUY_LIMIT" refl e
        | inr (inr (inr (inl e))) ↦ alike_at side "SELL" refl e
        | inr (inr (inr (inr (inl e)))) ↦ alike_at side "SELL_STOP" refl e
        | inr (inr (inr (inr (inr e)))) ↦ alike_at side "SELL_LIMIT" refl e
      ]
  where
    some_true :
        (a b c d e f : Bool)
        → ((a || b || c) || (d || e || f)) ≡ true
        → (a ≡ true) ⊎ ((b ≡ true) ⊎ ((c ≡ true) ⊎ ((d ≡ true) ⊎ ((e ≡ true) ⊎ (f ≡ true)))))
    some_true true b c d e f h = inl refl
    some_true false true c d e f h = inr (inl refl)
    some_true false false true d e f h = inr (inr (inl refl))
    some_true false false false true e f h = inr (inr (inr (inl refl)))
    some_true false false false false true f h = inr (inr (inr (inr (inl refl))))
    some_true false false false false false f h = inr (inr (inr (inr (inr h))))

-- The TCP bridge shows a signal in the colour of the logger, unless it opens a side that the logger
-- does not know.
tcp_colour-order_style :
    (action side : String)
    → (action ≡ "OPEN" → (is_buy side || is_sell side) ≡ true)
    → tcp_colour action side ≡ (order_style action side).colour
unfolding tcp_colour order_style has_prefix
tcp_colour-order_style action side known = elim (Bool-cases (action == "OPEN")) [
  | inl e ↦ rw (e) (sides_alike side (known ((eq_iff action "OPEN").0 e)))
  | inr e ↦ rw (e) ground arith
]
