-- ===== src/Relay.antt =====
-- cmd/relay/main.go: signals come in over TCP and go out to another TCP server.
pub mod Payload
pub mod Sending
pub mod Shared
pub mod Start
use mt5_bridge.Prelude.{
  ℕ, zero, suc, String, Bool, true, false, ◌&&◌, Option, none, some, List, [], ◌∷◌, ◌++◌,
  if◌then◌else◌, ◌==◌,
}
use mt5_bridge.Go.Int.{ℤ, pos}
use mt5_bridge.Go.Float.{Float64}
use mt5_bridge.Signal.{Conversions}
use mt5_bridge.Signal.Pipe.{pipe_parts, float_at, int_at, text_at}

pub record Signal (F : Type 0) : Type 0 where
  pub action : String
  pub side : String
  pub symbol : String
  pub lot : F
  pub price : F
  pub sl : F
  pub tp : F
  pub magic : ℤ
  pub pnl : F
  pub comment : String

pub record TcpPayload (F : Type 0) : Type 0 where
  pub action : String
  pub symbol : String
  pub lot : F
  pub sl : F
  pub tp : F
  pub magic : ℤ
  pub pnl : F
  pub comment : String

module _ {F : Type 0} where
  unfoldable pub effective_action : Signal F → String
  effective_action s =
      if s.action == "CLOSE"
      then "CLOSE"
      else if s.action == "EDIT"
      then "MODIFY"
      else if s.action == "OPEN"
      then s.side
      else ""

  unfoldable pub signal_to_tcp_payload : Signal F → TcpPayload F
  unfolding effective_action
  signal_to_tcp_payload s = record {
    action = effective_action s;
    symbol = s.symbol;
    lot = s.lot;
    sl = s.sl;
    tp = s.tp;
    magic = s.magic;
    pnl = s.pnl;
    comment = s.comment;
  }

module _ {F : Type 0} ⦃fl : Float64 F⦄ where
  -- `Signal{}`.
  abbrev pub zero_signal : Signal F
  zero_signal = record {
    action = "";
    side = "";
    symbol = "";
    lot = fl.hundredths 0;
    price = fl.hundredths 0;
    sl = fl.hundredths 0;
    tp = fl.hundredths 0;
    magic = pos 0;
    pnl = fl.hundredths 0;
    comment = "";
  }

module _ {F : Type 0} ⦃fl : Float64 F⦄ (cv : Conversions F) where
  unfoldable pub read_parts : List String → Signal F
  unfolding float_at int_at text_at
  read_parts [] = zero_signal
  read_parts (action ∷ []) = zero_signal
  read_parts (action ∷ side ∷ rest) =
      let parts = action ∷ side ∷ rest in
      record {
        action = action;
        side = side;
        symbol = text_at parts 2;
        lot = float_at cv parts 3;
        price = float_at cv parts 4;
        sl = float_at cv parts 5;
        tp = float_at cv parts 6;
        magic = int_at cv parts 7;
        pnl = float_at cv parts 8;
        comment = text_at parts 9;
      }

  unfoldable pub parse_pipe : String → Signal F
  unfolding read_parts pipe_parts
  parse_pipe raw = read_parts (pipe_parts raw)

-- What the network does in one round of `sendToServer`: whether a write to the old connection, a
-- dial, and a write to the new connection would succeed.
pub record Round : Type 0 where
  pub old_write : Bool
  pub dial : Bool
  pub new_write : Bool

pub data Event : Type 0 where
  wrote write_failed closed dialled dial_failed slept : Event

-- `connected`: `serverConn` is not nil.
pub record Sent : Type 0 where
  pub delivered : Bool
  pub connected : Bool
  pub events : List Event

abbrev after : List Event → Sent → Sent
after events sent = record sent { events = events ++ sent.events }

-- From the dial on: the new connection is written to, or the next round is tried.
unfoldable pub redial : Round → Sent → Sent
redial r again =
    if r.dial
    then (if r.new_write
        then record { delivered = true; connected = true; events = dialled ∷ wrote ∷ [] }
        else after (dialled ∷ write_failed ∷ closed ∷ slept ∷ []) again)
    else after (dial_failed ∷ slept ∷ []) again

-- The rounds that are left, the number of this round, and whether there is a connection. No other
-- call runs at the same time.
unfoldable pub send_rounds : ℕ → ℕ → (ℕ → Round) → Bool → Sent
unfolding redial
send_rounds zero i net conn = record { delivered = false; connected = conn; events = [] }
send_rounds (suc left) i net conn =
    let again = send_rounds left (suc i) net false in
    if conn
    then (if (net i).old_write
        then record { delivered = true; connected = true; events = wrote ∷ [] }
        else after (write_failed ∷ closed ∷ []) (redial (net i) again))
    else redial (net i) again

abbrev pub max_attempts : ℕ
max_attempts = 3

unfoldable pub send_to_server : (ℕ → Round) → Bool → Sent
unfolding send_rounds
send_to_server net conn = send_rounds max_attempts 0 net conn

-- The answers to a line.
pub data Answer : Type 0 where
  skipped invalid sent_ok send_failed : Answer

module _ {F : Type 0} ⦃fl : Float64 F⦄ (cv : Conversions F)
    (unmarshal : String → Option (Signal F)) where
  -- `json.Unmarshal`, and the text form where it fails.
  unfoldable pub read_line : String → Signal F
  unfolding parse_pipe
  read_line line = elim (unmarshal line) [ none ↦ parse_pipe cv line | some sig ↦ sig ]

  -- One round of `handleConn`: the answer, the payload that is sent, and what the sending did.
  unfoldable pub handle_line :
      (ℕ → Round) → Bool → String → Answer × Option (TcpPayload F) × Option Sent
  handle_line net conn line =
      if line == ""
      then (skipped, none, none)
      else (let sig = read_line line in
          if sig.action == "" && sig.side == ""
          then (invalid, none, none)
          else (let sent = send_to_server net conn in
              (
                if sent.delivered then sent_ok else send_failed,
                some (signal_to_tcp_payload sig),
                some sent,
              )))
