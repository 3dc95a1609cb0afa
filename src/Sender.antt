-- ===== src/Sender.antt =====
-- cmd/sender/main.go: the command that sends signals to the HTTP or the TCP bridge.
pub mod Command
pub mod Files
pub mod Answered
use Prim.Native.String
use mt5_bridge.Prelude.{
  ℕ, zero, suc, String, Bool, true, false, not, ◌&&◌, ◌||◌, Option, none, some, List, [], ◌∷◌, leb,
  if◌then◌else◌, ◌==◌,
}
use mt5_bridge.Go.Int.{ℤ, pos, negsuc}
use mt5_bridge.Go.Text.{split, trim_space, has_prefix, contains}
use mt5_bridge.Go.Float.{Float64}

pub record SignalPayload (F : Type 0) : Type 0 where
  pub action : String
  pub side : String
  pub symbol : String
  pub lot : F
  pub price : F
  pub sl : F
  pub tp : F
  pub magic : ℤ
  pub pnl : F
  pub comment : String

pub record OkResp (F : Type 0) : Type 0 where
  pub status : String
  pub pnl : F
  pub queue : ℤ

-- The flags of the command line. An empty `batch` or `symbol_file` is none.
pub record Flags (F : Type 0) : Type 0 where
  pub action : String
  pub side : String
  pub symbol : String
  pub lot : F
  pub price : F
  pub sl : F
  pub tp : F
  pub magic : ℤ
  pub pnl : F
  pub comment : String
  pub host : String
  pub http : Bool
  pub tcp : Bool
  pub batch : String
  pub symbol_file : String
  pub loop : ℤ
  pub json : Bool

-- `json.Marshal` and `json.Unmarshal` of a payload, what `json.Unmarshal` leaves in an `okResp`, the
-- `pnl` of an acknowledgement if it is a JSON object, and `strings.ToUpper`.
pub record Texts (F : Type 0) : Type 0 where
  pub marshal : SignalPayload F → Option String
  pub unmarshal : String → Option (SignalPayload F)
  pub ok_resp : String → OkResp F
  pub ack_pnl : String → Option F
  pub to_upper : String → String

-- The network. `post` gives the status and the body of the answer, `read` what one read returns;
-- `none` and `false` are errors.
pub record Network : Type 1 where
  pub State : Type 0
  pub post : String → String → State → Option (ℕ × String) × State
  pub dial : String → State → Bool × State
  pub write : String → State → Bool × State
  pub read : State → Option String × State

-- What a send comes to: an error, the answer as it is (`-json`), or the line that says `queued`.
pub data Report (F : Type 0) : Type 0 where
  http_error tcp_dial_error tcp_write_error tcp_read_error : Report F
  http_status : ℕ → Report F
  printed : String → Report F
  queued : SignalPayload F → F → Report F
  queued_raw : String → Report F

-- The `error` is not nil.
unfoldable pub is_error : {F : Type 0} → Report F → Bool
is_error http_error = true
is_error tcp_dial_error = true
is_error tcp_write_error = true
is_error tcp_read_error = true
is_error (http_status status) = true
is_error (printed text) = false
is_error (queued p pnl) = false
is_error (queued_raw text) = false

unfoldable pub detect_transport : {F : Type 0} → Flags F → String → String
detect_transport flags host =
    if flags.http
    then "http"
    else if flags.tcp
    then "tcp"
    else if contains host ":8081"
    then "tcp"
    else "http"

infixr 65 ◌<>◌
abbrev ◌<>◌ : String → String → String
a <> b = String.◌++◌ a b

module _ {F : Type 0} (texts : Texts F) where
  -- `body, _ := json.Marshal(p)`: an error leaves an empty body.
  unfoldable pub body_of : SignalPayload F → String
  body_of p = elim (texts.marshal p) [ none ↦ "" | some body ↦ body ]

  unfoldable pub http_report : Flags F → SignalPayload F → Option (ℕ × String) → Report F
  http_report flags p none = http_error
  http_report flags p (some (status, answer)) =
      if leb 400 status
      then http_status status
      else if flags.json
      then printed answer
      else queued p (texts.ok_resp answer).pnl

  unfoldable pub ack_report : Flags F → SignalPayload F → Option String → Report F
  ack_report flags p none = tcp_read_error
  ack_report flags p (some ack) =
      if flags.json
      then printed ack
      else elim (texts.ack_pnl ack) [ none ↦ queued_raw ack | some pnl ↦ queued p pnl ]

module _ (net : Network) {F : Type 0} (texts : Texts F) (flags : Flags F) where
  unfoldable pub send_http : String → SignalPayload F → net.State → Report F × net.State
  unfolding body_of http_report
  send_http host p s =
      let (answer, s') = net.post ("http://" <> host <> "/signal") (body_of texts p) s in
      (http_report texts flags p answer, s')

  unfoldable pub send_tcp : String → String → SignalPayload F → net.State → Report F × net.State
  unfolding ack_report
  send_tcp host body p s =
      let (dialled, s1) = net.dial host s in
      let (written, s2) = net.write (body <> "\n") s1 in
      let (ack, s3) = net.read s2 in
      if not dialled
      then (tcp_dial_error, s1)
      else if not written
      then (tcp_write_error, s2)
      else (ack_report texts flags p ack, s3)

  unfoldable pub send_signal : String → String → SignalPayload F → net.State → Report F × net.State
  unfolding send_http send_tcp body_of
  send_signal transport host p s =
      if transport == "tcp" then send_tcp host (body_of texts p) p s else send_http host p s
