-- ===== src/Market/Tcp.antt =====
-- `TCPReceiver`. What the system's calls return is an argument, and so is every reading of the
-- clock. The handler of the messages is a parameter: its state, and what a message does to it, which
-- is `none` if it throws. Nothing catches that here, and the program ends.
pub mod Lines
pub mod Loop
pub mod Packets
mod Tests
use Prim.Native.String.{String}
use studycpp.Prelude.{
  [], ℕ, zero, suc, ◌+◌, ◌-◌, ◌/◌, Bool, true, false, not, ◌&&◌, Option, none, some, List, ◌∷◌,
  ◌++◌, ltb, ◌==◌, if◌then◌else◌, length,
}
use studycpp.Prelude.Do.{◌>>=◌}
use studycpp.Std.Dict.{Dict}
use studycpp.Std.Text.{Text, codes, to_string}
use studycpp.Market.Alerts.{AlertLevel, warning, critical, Alert, AlertManager, raise_alert}

pub record TcpReceiver (H : Type 0) : Type 0 where
  pub socket_fd : Option ℕ  -- `none` below 0
  pub running : Bool
  pub receiver_thread : Bool  -- whether the thread can be joined
  pub connected : Bool
  pub last_receive_time : ℕ
  pub bytes_received : ℕ
  pub packets_received : ℕ
  pub incomplete_messages : ℕ
  pub alert_manager : AlertManager
  pub message_handler : H

abbrev pub max_buffer_size : ℕ
max_buffer_size = 65536

-- `EINPROGRESS`, `EINTR`, and the two names of one number, `EAGAIN` and `EWOULDBLOCK`
abbrev pub einprogress : ℕ
einprogress = 115

abbrev pub eintr : ℕ
eintr = 4

abbrev pub eagain : ℕ
eagain = 11

-- Two readings of the clock, by who makes an alert and by `raiseAlert`.
pub record Stamp : Type 0 where
  pub made : ℕ
  pub raised : ℕ

-- What the calls of one `connect` return.
pub record ConnectCalls : Type 0 where
  pub socket_result : Option ℕ
  pub address_valid : Bool
  pub connect_done : Bool
  pub errno : ℕ
  pub stamp : Stamp
  pub time : ℕ

-- What one `recv` returns: the first byte and the others, that the peer has closed, or a failure,
-- these two with the value of `errno`.
pub data Received : Type 0 where
  bytes : ℕ → Text → Received
  closed : ℕ → Received
  recv_failed : ℕ → Received

-- What one `poll` returns: a failure, no event in time, or the events of the socket, with what a
-- `recv` for input returns.
pub data Polled : Type 0 where
  poll_failed : ℕ → Polled
  timed_out : Polled
  ready : Option Received → Bool → ℕ → Polled

-- the text before the first newline and the text behind it
unfoldable pub next_line : Text → Option (Text × Text)
next_line [] = none
next_line (c ∷ s) =
    let rest : Option (Text × Text) = elim (next_line s) [
      | none ↦ none
      | some (line, more) ↦ some (c ∷ line, more)
    ] in
    if c == 10 then some ([], s) else rest

module _ {H : Type 0} where
  abbrev pub tcp_alert : TcpReceiver H → Stamp → Text → AlertLevel → Dict Text Text → TcpReceiver H
  tcp_alert r stamp message level info = record r {
    alert_manager = raise_alert r.alert_manager stamp.raised (record {
      message = message;
      level = level;
      timestamp = stamp.made;
      source = codes "TCPReceiver";
      symbol = [];
      additional_info = info;
    });
  }

  -- `stop`, once the thread has come to its end
  unfoldable pub stop : TcpReceiver H → TcpReceiver H
  stop r = record r {
    running = false;
    receiver_thread = false;
    socket_fd = none;
    connected = false;
  }

  unfoldable pub check_connection_health : ℕ → ℕ → TcpReceiver H → TcpReceiver H
  check_connection_health now raised r =
      let silence = (now - r.last_receive_time) / 1_000_000_000 in
      if ltb 5 silence
      then tcp_alert r (record { made = now; raised = raised })
          (codes "No data received for 5 seconds") warning
          ((codes "silence_duration", to_string silence) ∷ [])
      else r

  abbrev pub retried : Option (TcpReceiver H) → Bool × TcpReceiver H → Option (TcpReceiver H)
  retried rest (true, r) = some r
  retried rest (false, r) = rest

module _ {H : Type 0} (strerror : ℕ → Text) where
  unfoldable pub raise_error : TcpReceiver H → Stamp → String → ℕ → TcpReceiver H
  raise_error r stamp message errno =
      tcp_alert r stamp (codes message ++ (codes ": " ++ strerror errno)) critical
        ((codes "errno", to_string errno) ∷ [])

  unfoldable pub connect : ConnectCalls → TcpReceiver H → Bool × TcpReceiver H
  unfolding raise_error
  connect c r =
      let opened = record r { socket_fd = c.socket_result } in
      elim c.socket_result [
        | none ↦ (false, raise_error opened c.stamp "Failed to create socket" c.errno)
        | some fd ↦
            if not c.address_valid
            then (false, raise_error opened c.stamp "Invalid address" c.errno)
            else if not c.connect_done && not (c.errno == einprogress)
            then (false, raise_error opened c.stamp "Connect failed" c.errno)
            else (true, record opened { connected = true; last_receive_time = c.time })
      ]

  -- The thread that starts runs the receive loop.
  unfoldable pub start : ConnectCalls → TcpReceiver H → Bool × TcpReceiver H
  unfolding connect
  start c r =
      if r.running
      then (false, r)
      else (let (done, r') = connect c r in
          if done
          then (true, record r' { running = true; receiver_thread = true })
          else (false, r'))

  -- The rounds of `reconnect`, one for each element: what it does before `connect` returns, and
  -- then. `none` if the rounds end before a connection is made; `running_` stays set meanwhile.
  unfoldable pub reconnect : List (Stamp × ConnectCalls) → TcpReceiver H → Option (TcpReceiver H)
  unfolding connect
  reconnect [] r = if r.running then none else some r
  reconnect ((stamp, c) ∷ cs) r =
      let result = connect c (
        tcp_alert (record r { connected = false }) stamp (codes "Attempting to reconnect") warning
          []) in
      let rest = reconnect cs result.1 in if r.running then retried rest result else some r

module _ {H : Type 0} (on_message : Text → H → Option H) where
  -- The loop over the complete lines of the buffer, on fuel: what is left, and the handler. `none` if
  -- the handler throws or the fuel runs out.
  unfoldable pub process_lines : ℕ → Text → H → Option (Text × H)
  unfolding next_line
  process_lines zero buffer h = none
  process_lines (suc fuel) buffer h = elim (next_line buffer) [
    | none ↦ some (buffer, h)
    | some (line, more) ↦ on_message line h >>= λ h'. process_lines fuel more h'
  ]

-- A line takes one character at least.
abbrev pub line_fuel : Text → ℕ
line_fuel buffer = suc (length buffer)

module _ {H : Type 0} (strerror : ℕ → Text) (on_message : Text → H → Option H) where
  -- Whether to go on, the buffer, and the receiver. `time` is the reading of the clock for the time
  -- of the data.
  unfoldable pub receive_data :
      Received → ℕ → Stamp → Text → TcpReceiver H → Option (Bool × Text × TcpReceiver H)
  unfolding process_lines raise_error
  receive_data (recv_failed errno) time stamp buffer r =
      if errno == eagain
      then some (true, buffer, r)
      else some (false, buffer, raise_error strerror r stamp "Receive failed" errno)
  receive_data (closed errno) time stamp buffer r =
      some (false, buffer, raise_error strerror r stamp "Connection closed by peer" errno)
  receive_data (bytes c s) time stamp buffer r =
      let r₁ = record r {
        last_receive_time = time;
        bytes_received = r.bytes_received + length (c ∷ s);
        packets_received = r.packets_received + 1;
      } in
      let all = buffer ++ (c ∷ s) in
      process_lines on_message (line_fuel all) all r.message_handler >>= λ (left, h).
      let r₂ = record r₁ { message_handler = h } in
      if ltb max_buffer_size (length left)
      then some (
        true,
        [],
        tcp_alert (record r₂ { incomplete_messages = r₂.incomplete_messages + 1 }) stamp
            (codes "Message buffer overflow") warning
            ((codes "buffer_size", to_string (length left)) ∷ []),
      )
      else some (true, left, r₂)
