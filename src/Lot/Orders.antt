-- ===== src/Lot/Orders.antt =====
-- What a follower's order carries over from the master's signal.
use mt5_bridge.Prelude.{String, ◌≡◌, refl, inl, inr, Bool-cases, ◌==◌, eq_iff}
use mt5_bridge.Lot.{reverse_signal_side}

-- Reversing a side twice gives it back, whatever the text.
pub reverse_signal_side-reverse_signal_side :
    (side : String) → reverse_signal_side (reverse_signal_side side) ≡ side
unfolding reverse_signal_side
reverse_signal_side-reverse_signal_side side = elim (Bool-cases (side == "BUY")) [
  | inl e ↦ rw ((eq_iff side "BUY").0 e) refl
  | inr e0 ↦ elim (Bool-cases (side == "SELL")) [
    | inl e ↦ rw ((eq_iff side "SELL").0 e) refl
    | inr e1 ↦ elim (Bool-cases (side == "BUY_STOP")) [
      | inl e ↦ rw ((eq_iff side "BUY_STOP").0 e) refl
      | inr e2 ↦ elim (Bool-cases (side == "SELL_STOP")) [
        | inl e ↦ rw ((eq_iff side "SELL_STOP").0 e) refl
        | inr e3 ↦ elim (Bool-cases (side == "BUY_LIMIT")) [
          | inl e ↦ rw ((eq_iff side "BUY_LIMIT").0 e) refl
          | inr e4 ↦ elim (Bool-cases (side == "SELL_LIMIT")) [
            | inl e ↦ rw ((eq_iff side "SELL_LIMIT").0 e) refl
            | inr e5 ↦ simp (e0, e1, e2, e3, e4, e5)
          ]
        ]
      ]
    ]
  ]
]
