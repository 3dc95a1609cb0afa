-- ===== src/Http.antt =====
-- cmd/http/main.go: the HTTP bridge. Signals are posted, and wait in the queue.
pub mod Answers
pub mod Server
use mt5_bridge.Prelude.{ℕ, String, not, Option, none, some, if◌then◌else◌, ◌==◌}
use mt5_bridge.Go.Float.{Float64}
use mt5_bridge.Signal.{Signal, Conversions}
use mt5_bridge.Signal.Queue
use mt5_bridge.Signal.Queue.{Queue}
use mt5_bridge.Signal.Parse.{parse_signal}
use mt5_bridge.Signal.Pipe.{Reading, panics, rejected, parsed, parse_pipe}

pub data Body (F : Type 0) : Type 0 where
  error_body : String → Body F
  queued : F → ℕ → Body F
  queue_size : ℕ → Body F
  cleared : Body F
  running : ℕ → Body F
  usage : Body F
  no_body : Body F

-- A handler's status is 200 where it sets none.
pub record Response (F : Type 0) : Type 0 where
  pub status : ℕ
  pub body : Body F

-- `none`: the handler panics. The server recovers it, and drops the connection.
abbrev pub Handled : Type 0 → Type 0
Handled F = Option (Response F) × Queue (Signal F)

module _ {F : Type 0} where
  abbrev reply : ℕ → Body F → Queue (Signal F) → Handled F
  reply status body q = (some (record { status = status; body = body }), q)

  abbrev pushed : Queue (Signal F) → Signal F → Handled F
  pushed q sig = let q' = Queue.push q sig in reply 200 (queued sig.pnl (Queue.size q')) q'

  unfoldable pub handle_queue : String → Queue (Signal F) → Handled F
  handle_queue method q =
      if method == "GET"
      then reply 200 (queue_size (Queue.size q)) q
      else if method == "DELETE"
      then reply 200 cleared (Queue.clear q)
      else reply 405 (error_body "GET or DELETE only") q

  unfoldable pub handle_health : Queue (Signal F) → Handled F
  handle_health q = reply 200 (running (Queue.size q)) q

module _ {F : Type 0} ⦃fl : Float64 F⦄ (cv : Conversions F) where
  -- The body is what was read of it, 32 KB at most, or `none` for an error.
  unfoldable pub handle_signal : ℕ → String → Option String → Queue (Signal F) → Handled F
  handle_signal now method body q =
      if not (method == "POST") then reply 405 (error_body "Only POST allowed") q else elim body [
        | none ↦ reply 200 (error_body "Failed to read body") q
        | some text ↦ elim (parse_signal cv now text) [
          | none ↦ reply 200 (error_body "JSON parse error") q
          | some sig ↦ pushed q sig
        ]
      ]

  unfoldable pub raw_reading : Queue (Signal F) → Reading F → Handled F
  raw_reading q panics = (none, q)
  raw_reading q rejected = reply 400 usage q
  raw_reading q (parsed sig) = pushed q sig

  -- The body is what was read of it, 4 KB at most.
  unfoldable pub handle_raw : ℕ → String → String → Queue (Signal F) → Handled F
  handle_raw now method body q =
      if not (method == "POST") then reply 200 no_body q else raw_reading q (parse_pipe cv now body)
