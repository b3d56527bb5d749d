-- ===== src/Market/Udp/Multicast.antt =====
-- `MulticastReceiver`.
use studycpp.Prelude.{
  ℕ, ◌+◌, ◌-◌, ◌*◌, ◌/◌, ◌%◌, ◌^◌, Bool, true, false, not, Option, none, some, List, [], ◌∷◌, ltb,
  ◌==◌, if◌then◌else◌,
}
use studycpp.Prelude.Do.{◌>>=◌}
use studycpp.Std.Text.{Text, codes, to_string}
use studycpp.Market.Alerts.{warning}
use studycpp.Market.Metrics.{MetricsCollector, record_latency}
use studycpp.Market.Tcp.{Stamp, eagain}
use studycpp.Market.Udp.{
  UdpReceiver, StartCalls, Handled, udp_alert, launch, count_packet, finish_message, raise_error,
  setup_socket_options, default_config,
}

-- A timestamp of the hardware, with the reading of the clock for the window that records it.
pub record HardwareStamp : Type 0 where
  pub tv_sec : ℕ
  pub tv_nsec : ℕ
  pub time : ℕ

-- What one `recvmsg` returns: a packet, with the timestamp of the hardware if there is one; a packet
-- that was cut off; or a failure with the value of `errno`.
pub data Message : Type 0 where
  packet : Text → Option HardwareStamp → Stamp → Message
  truncated : ℕ → Stamp → Message
  recv_failed : ℕ → Stamp → Message

abbrev word : ℕ
word = 2 ^ 64

abbrev pub ts_ns : HardwareStamp → ℕ
ts_ns t = (t.tv_sec * 1_000_000_000 + t.tv_nsec) % word

-- signed nanoseconds as microseconds, rounded toward 0 and passed on as `uint64_t`
abbrev pub micros_of : ℕ → ℕ
micros_of ns = if ltb ns (2 ^ 63) then ns / 1000 else (word - (word - ns) / 1000) % word

module _ {H : Type 0} (strerror : ℕ → Text) where
  unfoldable pub start : StartCalls → UdpReceiver H → Bool × UdpReceiver H
  unfolding raise_error setup_socket_options
  start c r =
      let opened = record r { socket_fd = c.socket_result } in
      let r₁ = setup_socket_options strerror default_config c.setup opened in
      if r.running then (false, r) else elim c.socket_result [
        | none ↦
            (false, raise_error strerror opened c.stamp "Failed to create multicast socket" c.errno)
        | some fd ↦
            if not c.reuse_done
            then (false, raise_error strerror r₁ c.stamp "Failed to set SO_REUSEADDR" c.errno)
            else if not c.device_done
            then (false, raise_error strerror r₁ c.stamp "Failed to bind to interface" c.errno)
            else if not c.bind_done
            then (false, raise_error strerror r₁ c.stamp "Failed to bind multicast socket" c.errno)
            else if not c.join_done
            then (false, raise_error strerror r₁ c.stamp "Failed to join multicast group" c.errno)
            else (true, launch r₁)
      ]

-- The latency that a timestamp of the hardware gives; `none` if its write is out of bounds.
unfoldable pub record_hardware : Option HardwareStamp → MetricsCollector → Option MetricsCollector
unfolding record_latency
record_hardware none m = some m
record_hardware (some t) m = record_latency t.time (micros_of (ts_ns t)) m

module _ {H : Type 0} (strerror : ℕ → Text) (on_message : Text → H → Handled H) where
  unfoldable pub process_packet :
      Text → Option HardwareStamp → Stamp → UdpReceiver H → Option (UdpReceiver H)
  unfolding record_hardware
  process_packet text hw stamp r = record_hardware hw r.metrics >>= λ m. some (
      finish_message "MulticastReceiver" "Error processing multicast message" stamp
        (on_message text r.message_handler) (count_packet text (record r { metrics = m })))

  -- A round of the receive loop; `none` if it is undefined.
  unfoldable pub receive_one : Message → UdpReceiver H → Option (UdpReceiver H)
  unfolding process_packet raise_error
  receive_one (packet text hw stamp) r = process_packet text hw stamp r
  receive_one (truncated bytes stamp) r = some (
      udp_alert "MulticastReceiver"
        (record r { stats = record r.stats { packets_dropped = r.stats.packets_dropped + 1 } })
        stamp "Truncated multicast packet received" warning ((codes "size", to_string bytes) ∷ []))
  receive_one (recv_failed errno stamp) r =
      some (
        if errno == eagain
        then r
        else raise_error strerror r stamp "Multicast receive failed" errno)

  -- `runReceiveLoop` over what `recvmsg` returns while `running_` is set
  unfoldable pub receive_loop : List Message → UdpReceiver H → Option (UdpReceiver H)
  unfolding receive_one
  receive_loop [] r = some r
  receive_loop (x ∷ xs) r = receive_one x r >>= receive_loop xs
