-- ===== src/Go/Channel.antt =====
-- Go's buffered channels, with what a send, a receive and a close do on a closed or full one.
pub mod Laws
use mt5_bridge.Prelude.{
  ℕ, String, Bool, true, false, Option, none, some, List, [], ◌∷◌, ◌++◌, ltb, length, if◌then◌else◌,
}

-- The oldest value first.
pub record Chan (A : Type 0) : Type 0 where
  pub items : List A
  pub closed : Bool

pub data Send (A : Type 0) : Type 0 where
  waits panics : Send A
  stored : Chan A → Send A

pub data Receive (A : Type 0) : Type 0 where
  nothing ended : Receive A
  got : A → Chan A → Receive A

module _ {A : Type 0} where
  abbrev pub new_channel : Chan A
  new_channel = record { items = []; closed = false }

  unfoldable pub send : ℕ → A → Chan A → Send A
  send capacity x ch =
      if ch.closed
      then panics
      else if ltb (length ch.items) capacity
      then stored (record ch { items = ch.items ++ x ∷ [] })
      else waits

  receive_from : List A → Bool → Receive A
  receive_from [] true = ended
  receive_from [] false = nothing
  receive_from (x ∷ xs) closed = got x (record { items = xs; closed = closed })

  unfoldable pub receive : Chan A → Receive A
  unfolding receive_from
  receive ch = receive_from ch.items ch.closed

  -- `none`: close of a closed channel panics.
  unfoldable pub close_channel : Chan A → Option (Chan A)
  close_channel ch = if ch.closed then none else some (record ch { closed = true })
