-- ===== src/Tests/Sender.antt =====
-- Examples for the command-line sender.
use mt5_bridge.Prelude.{
  ℕ, String, ◌≡◌, refl, false, none, some, [], ◌∷◌, ◌++◌, if◌then◌else◌, ◌==◌, arith,
}
use mt5_bridge.Go.Int.{pos}
use mt5_bridge.Go.Text.{trim_space, trim_left, trim_right, has_prefix}
use mt5_bridge.Go.Text.SplitJoin.{join}
use mt5_bridge.Signal.Parse.{parse_signal}
use mt5_bridge.Signal.Queue.{empty}
use mt5_bridge.Http.Server.{read_limited, signal_limit}
use mt5_bridge.Http.{Body}
use mt5_bridge.Sender.{
  SignalPayload, Flags, Texts, Report, http_error, is_error, body_of, send_http,
}
use mt5_bridge.Sender.Command.{send_batch}
use mt5_bridge.Sender.Files.{sent_in, send_batch-lines}
use mt5_bridge.Sender.Answered.{bridge_network, send_http-bridge}
use mt5_bridge.Tests.Fixtures.{cents, conversions, json_line}

abbrev payload : String → SignalPayload ℕ
payload symbol = record {
  action = "CLOSE";
  side = "";
  symbol = symbol;
  lot = 0;
  price = 0;
  sl = 0;
  tp = 0;
  magic = pos 0;
  pnl = 0;
  comment = "";
}

-- The texts of two payloads are known.
abbrev texts : Texts ℕ
texts = record {
  marshal = λ p. if p.symbol == "EURUSD" then some json_line else none;
  unmarshal = λ s.
      if s == "{EURUSD}"
      then some (payload "EURUSD")
      else if s == "{XAUUSD}"
      then some (payload "XAUUSD")
      else none;
  ok_resp = λ s. record { status = "ok"; pnl = 0; queue = pos 1 };
  ack_pnl = λ s. none;
  to_upper = λ s. s;
}

abbrev flags : Flags ℕ
flags = record {
  action = "CLOSE";
  side = "";
  symbol = "";
  lot = 1;
  price = 0;
  sl = 0;
  tp = 0;
  magic = pos 0;
  pnl = 0;
  comment = "";
  host = "localhost:8080";
  http = false;
  tcp = false;
  batch = "";
  symbol_file = "";
  loop = pos 0;
  json = false;
}

-- A network that is down.
abbrev down : SignalPayload ℕ → Unit {0} → Report ℕ × Unit {0}
down p s = (http_error, s)

send_batch-lines_example :
    sent_in (send_batch down texts (some (join "\n" "{XAUUSD}" ("{EURUSD}" ∷ []))) tt).0
    ≡ payload "XAUUSD" ∷ payload "EURUSD" ∷ []
unfolding trim_space trim_left trim_right has_prefix
send_batch-lines_example =
    send_batch-lines texts down (payload "XAUUSD") (payload "EURUSD" ∷ []) "{XAUUSD}"
      ("{EURUSD}" ∷ []) tt
      (
        record { reads = refl; trimmed = refl; kept = refl; one_line = ground arith },
        (record { reads = refl; trimmed = refl; kept = refl; one_line = ground arith }, tt),
      )
      refl

abbrev render : Body ℕ → String
render body = "{}"

send_http-bridge_example :
    let (report, q) =
      send_http
        (bridge_network conversions render 3)
        texts
        flags
        "localhost:8080"
        (payload "EURUSD")
        empty in
    (is_error report ≡ false)
    × (q.signals
        ≡ empty.signals
          ++ elim (parse_signal conversions 3
              (read_limited signal_limit (body_of texts (payload "EURUSD"))).0) [
                | none ↦ []
                | some sig ↦ sig ∷ []
              ])
send_http-bridge_example =
    send_http-bridge conversions render texts flags 3 "localhost:8080" (payload "EURUSD") empty
