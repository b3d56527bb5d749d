-- ===== src/Market/Udp.antt =====
-- `UDPReceiverBase` and `UDPReceiver`. What the system's calls return is an argument, and so is
-- every reading of the clock. The handler of the messages is a parameter: its state, and what a message
-- does to it. An exception has a text, and leaves what the handler has done until then.
pub mod Multicast
pub mod Accounts
pub mod Dropped
mod Tests
use Prim.Native.String.{String}
use studycpp.Prelude.{
  ℕ, ◌+◌, ◌*◌, Bool, true, false, not, ◌&&◌, Option, none, some, List, [], ◌∷◌, ◌++◌, ◌==◌,
  if◌then◌else◌, length, set,
}
use studycpp.Std.Dict.{Dict}
use studycpp.Std.Text.{Text, codes, to_string}
use studycpp.Market.Alerts.{AlertLevel, warning, critical, Alert, AlertManager, raise_alert}
use studycpp.Market.Metrics.{MetricsCollector}
use studycpp.Market.Tcp.{Stamp, eagain}

pub record NetworkConfig : Type 0 where
  pub interface_name : Text
  pub multicast_group : Text
  pub port : ℕ
  pub enable_multicast : Bool
  pub rcvbuf_size : ℕ
  pub enable_timestamps : Bool

-- `NetworkConfig{}`
abbrev pub default_config : NetworkConfig
default_config = record {
  interface_name = [];
  multicast_group = [];
  port = 0;
  enable_multicast = false;
  rcvbuf_size = 8 * 1024 * 1024;
  enable_timestamps = true;
}

pub record UdpStats : Type 0 where
  pub packets_received : ℕ
  pub packets_dropped : ℕ
  pub bytes_received : ℕ
  pub message_errors : ℕ
  pub sequence_gaps : ℕ

pub record UdpReceiver (H : Type 0) : Type 0 where
  pub socket_fd : Option ℕ  -- `none` below 0
  pub running : Bool
  pub receiver_thread : Bool  -- whether the thread can be joined
  pub stats : UdpStats
  pub alert_manager : AlertManager
  pub metrics : MetricsCollector
  pub message_handler : H

-- How a call of the handler ends.
pub data Handled (H : Type 0) : Type 0 where
  handled : H → Handled H
  threw : Text → H → Handled H

-- What the two options of the socket's setup return.
pub record SetupCalls : Type 0 where
  pub rcvbuf_done : Bool
  pub rcvbuf_errno : ℕ
  pub rcvbuf_stamp : Stamp
  pub timestamps_done : Bool
  pub timestamps_stamp : Stamp

-- What the calls of one `start` return; the last two are for the one that fails.
pub record StartCalls : Type 0 where
  pub socket_result : Option ℕ
  pub setup : SetupCalls
  pub reuse_done : Bool
  pub device_done : Bool
  pub bind_done : Bool
  pub join_done : Bool
  pub errno : ℕ
  pub stamp : Stamp

-- What one `recvfrom` returns: a packet, or a failure with the value of `errno`. The stamp is for an
-- alert.
pub data Received : Type 0 where
  packet : Text → Stamp → Received
  recv_failed : ℕ → Stamp → Received

module _ {H : Type 0} where
  abbrev pub udp_alert :
      String → UdpReceiver H → Stamp → String → AlertLevel → Dict Text Text → UdpReceiver H
  udp_alert source r stamp message level info = record r {
    alert_manager = raise_alert r.alert_manager stamp.raised (record {
      message = codes message;
      level = level;
      timestamp = stamp.made;
      source = codes source;
      symbol = [];
      additional_info = info;
    });
  }

  -- `stop`, once the thread has come to its end
  unfoldable pub stop : UdpReceiver H → UdpReceiver H
  stop r = record r { running = false; receiver_thread = false; socket_fd = none }

  abbrev pub launch : UdpReceiver H → UdpReceiver H
  launch r = record r { running = true; receiver_thread = true }

  -- The two counters of a packet.
  abbrev pub count_packet : Text → UdpReceiver H → UdpReceiver H
  count_packet text r = record r {
    stats = record r.stats {
      packets_received = r.stats.packets_received + 1;
      bytes_received = r.stats.bytes_received + length text;
    };
  }

  -- What the handler has done with a message, or the `catch` of its exception.
  abbrev pub finish_message : String → String → Stamp → Handled H → UdpReceiver H → UdpReceiver H
  finish_message source message stamp (handled h) r = record r { message_handler = h }
  finish_message source message stamp (threw what h) r =
      udp_alert source
        (record r {
          message_handler = h;
          stats = record r.stats { message_errors = r.stats.message_errors + 1 };
        })
        stamp message warning ((codes "error", what) ∷ [])

module _ {H : Type 0} (strerror : ℕ → Text) where
  unfoldable pub raise_error : UdpReceiver H → Stamp → String → ℕ → UdpReceiver H
  raise_error r stamp message errno = record r {
    alert_manager = raise_alert r.alert_manager stamp.raised (record {
      message = codes message ++ (codes ": " ++ strerror errno);
      level = critical;
      timestamp = stamp.made;
      source = codes "UDPReceiver";
      symbol = [];
      additional_info = (codes "errno", to_string errno) ∷ [];
    });
  }

  unfoldable pub setup_socket_options : NetworkConfig → SetupCalls → UdpReceiver H → UdpReceiver H
  unfolding raise_error
  setup_socket_options config c r =
      let r₁ =
        if c.rcvbuf_done
        then r
        else raise_error r c.rcvbuf_stamp "Failed to set receive buffer size" c.rcvbuf_errno in
      if config.enable_timestamps && not c.timestamps_done
      then udp_alert "UDPReceiver" r₁ c.timestamps_stamp "Hardware timestamps not available" warning
          []
      else r₁

  -- `UDPReceiver::start`; the thread that starts runs the receive loop
  unfoldable pub start : StartCalls → UdpReceiver H → Bool × UdpReceiver H
  unfolding raise_error setup_socket_options
  start c r =
      let opened = record r { socket_fd = c.socket_result } in
      let r₁ = setup_socket_options default_config c.setup opened in
      if r.running then (false, r) else elim c.socket_result [
        | none ↦ (false, raise_error opened c.stamp "Failed to create UDP socket" c.errno)
        | some fd ↦
            if not c.bind_done
            then (false, raise_error r₁ c.stamp "Failed to bind UDP socket" c.errno)
            else (true, launch r₁)
      ]

module _ {H : Type 0} (strerror : ℕ → Text) (on_message : Text → H → Handled H) where
  unfoldable pub process_packet : Text → Stamp → UdpReceiver H → UdpReceiver H
  process_packet text stamp r =
      finish_message "UDPReceiver" "Error processing UDP message" stamp
        (on_message text r.message_handler) (count_packet text r)

  -- A round of the receive loop.
  unfoldable pub receive_one : Received → UdpReceiver H → UdpReceiver H
  unfolding process_packet raise_error
  receive_one (packet text stamp) r = process_packet text stamp r
  receive_one (recv_failed errno stamp) r =
      if errno == eagain then r else raise_error strerror r stamp "UDP receive failed" errno

  -- `runReceiveLoop` over what `recvfrom` returns while `running_` is set
  unfoldable pub receive_loop : List Received → UdpReceiver H → UdpReceiver H
  unfolding receive_one
  receive_loop [] r = r
  receive_loop (x ∷ xs) r = receive_loop xs (receive_one x r)
