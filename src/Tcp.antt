-- ===== src/Tcp.antt =====
-- cmd/tcp/main.go: the TCP bridge. Lines come in from a trading terminal; each signal is queued and
-- acknowledged, and work in the background forwards it and distributes it.
pub mod Lines
pub mod Link
pub mod Clients
pub mod Forwarding
use mt5_bridge.Prelude.{
  ℕ, String, Bool, true, false, ◌&&◌, not, Option, none, some, List, [], ◌∷◌, ◌++◌, if◌then◌else◌,
  ◌==◌,
}
use mt5_bridge.Go.Float.{Float64}
use mt5_bridge.Signal.{Signal, Conversions}
use mt5_bridge.Signal.Queue
use mt5_bridge.Signal.Queue.{Queue}
use mt5_bridge.Signal.Parse.{parse_signal}
use mt5_bridge.Signal.Pipe.{Reading, panics, rejected, parsed, parse_pipe}
use mt5_bridge.Cache
use mt5_bridge.Cache.{MasterCache}
use mt5_bridge.Db.{Db, Reply}
use mt5_bridge.Redis.{Redis}
use mt5_bridge.Distribution.{Outcome, distribute_to_followers}

-- The globals that the handling of a line reads and writes. No cache is a nil `masterCache`; no
-- relay is an empty `RELAY_HOST`.
pub record Bridge (F : Type 0) : Type 0 where
  pub queue : Queue (Signal F)
  pub master_cache : Option MasterCache
  pub relay_host : String

-- What is done with a line beside the queue: an acknowledgement with the queue's size and the
-- profit, the start of a goroutine that forwards the line or distributes the signal, a warning.
pub data Effect (F : Type 0) : Type 0 where
  acknowledged : ℕ → F → Effect F
  forwards : String → Effect F
  distributes : Signal F → Effect F
  warned : Effect F

-- `crashed` is a panic, which ends the process.
pub data Handled (F : Type 0) : Type 0 where
  crashed : Handled F
  handled : Bridge F → List (Effect F) → Handled F

unfoldable pub is_master_signal : Option MasterCache → String → Option String
is_master_signal none account_id = none
is_master_signal (some mc) account_id = Cache.get account_id mc

module _ {F : Type 0} where
  unfoldable pub process_signal : Bridge F → Signal F → String → Handled F
  process_signal b sig line =
      let queue = Queue.push b.queue sig in
      handled (record b { queue = queue })
        (acknowledged (Queue.size queue) sig.pnl
          ∷ ((if b.relay_host == "" then [] else forwards line ∷ [])
              ++ (if sig.account_id == "" then [] else distributes sig ∷ [])))

module _ {F : Type 0} ⦃fl : Float64 F⦄ (cv : Conversions F) where
  unfoldable pub process_reading : Bridge F → String → Reading F → Handled F
  process_reading b line panics = crashed
  process_reading b line rejected = handled b (warned ∷ [])
  process_reading b line (parsed sig) = process_signal b sig line

  -- One round of the loop of `handleConn`: JSON first, and the text form if that fails.
  unfoldable pub handle_line : ℕ → Bridge F → String → Handled F
  handle_line now b line = if line == "" then handled b [] else elim (parse_signal cv now line) [
    | none ↦ process_reading b line (parse_pipe cv now line)
    | some sig ↦ process_signal b sig line
  ]

  -- The lines of a connection, until one of them ends the process.
  unfoldable pub handle_lines : ℕ → Bridge F → List String → Option (Bridge F)
  handle_lines now b [] = some b
  handle_lines now b (line ∷ lines) = elim (handle_line now b line) [
    | crashed ↦ none
    | handled b' effects ↦ handle_lines now b' lines
  ]

-- The goroutine of an effect `distributes sig`, with the cache as it is when it runs. `none`: the
-- account is no master's.
unfoldable pub run_distribution :
    {F : Type 0} (R : Redis) ⦃fl : Float64 F⦄
    → Option MasterCache
    → Bool
    → Reply
    → Db F
    → R.State
    → Signal F
    → Option (Outcome F)
run_distribution R cache ready reply db redis sig = elim (is_master_signal cache sig.account_id) [
  | none ↦ none
  | some master_id ↦ some (distribute_to_followers R ready reply db redis master_id sig)
]

-- The link to the relay: `relayConn` and the goroutine `keepRelayConnection`, which dials until it
-- is connected and then waits for the end of the program.
pub data Keeper : Type 0 where
  dialling waiting : Keeper

pub record RelayLink : Type 0 where
  pub connected : Bool
  pub keeper : Keeper

abbrev pub fresh_link : RelayLink
fresh_link = record { connected = false; keeper = dialling }

-- One attempt of `keepRelayConnection`; the Boolean is whether the dial succeeds.
unfoldable pub keeper_step : Bool → RelayLink → RelayLink
keeper_step dialled link = elim link.keeper [
  | waiting ↦ link
  | dialling ↦ if dialled then record { connected = true; keeper = waiting } else link
]

-- `sendToRelay`: whether the line was written, and the link after it. The Boolean is whether the
-- write succeeds.
unfoldable pub send_to_relay : Bool → RelayLink → Bool × RelayLink
send_to_relay written link =
    if link.connected
    then (if written then (true, link) else (false, record link { connected = false }))
    else (false, link)
