-- ===== src/Market/Udp/Tests.antt =====
-- Receivers whose handler keeps the texts and throws at an empty one.
use studycpp.Prelude.{ℕ, ◌≡◌, refl, true, none, some, List, [], ◌∷◌, ◌++◌}
use studycpp.Std.Text.{Text, codes}
use studycpp.Market.Metrics.{new_collector}
use studycpp.Market.Tcp.{Stamp}
use studycpp.Market.Udp.{
  UdpReceiver, Handled, handled, threw, Received, packet, recv_failed, receive_loop,
}
use studycpp.Market.Udp.Multicast
use studycpp.Market.Udp.Multicast.{Message, truncated}
use studycpp.Market.Udp.Accounts.{ledger, packets, deliver, errors, bytes_of, receive_loop-account}
use studycpp.Market.Udp.Dropped.{whole, cut_off, receive_loop-dropped}

abbrev no_text : ℕ → Text
no_text errno = []

abbrev keep : Text → List Text → Handled (List Text)
keep [] kept = threw (codes "empty") kept
keep (c ∷ s) kept = handled (kept ++ ((c ∷ s) ∷ []))

abbrev stamp : Stamp
stamp = record { made = 1; raised = 2 }

abbrev at_start : UdpReceiver (List Text)
at_start = record {
  socket_fd = some 3;
  running = true;
  receiver_thread = true;
  stats = record {
    packets_received = 0;
    packets_dropped = 0;
    bytes_received = 0;
    message_errors = 0;
    sequence_gaps = 0;
  };
  alert_manager = record { alert_queue = []; active_alerts = 0; alert_cooldowns = []; logged = [] };
  metrics = new_collector;
  message_handler = [];
}

-- a message, an empty packet and a failure
abbrev three_calls : List Received
three_calls = packet (codes "abc") stamp ∷ packet [] stamp ∷ recv_failed 5 stamp ∷ []

three_calls_account : ledger (receive_loop no_text keep three_calls at_start) ≡ (
  codes "abc" ∷ [],
  record {
    packets_received = 2;
    packets_dropped = 0;
    bytes_received = 3;
    message_errors = 1;
    sequence_gaps = 0;
  },
)
unfolding packets deliver errors bytes_of
three_calls_account = receive_loop-account keep no_text three_calls at_start

-- a message, and a packet that was cut off
abbrev two_packets : List Message
two_packets = Multicast.packet (codes "abc") none stamp ∷ truncated 9000 stamp ∷ []

receive_loop-dropped_example :
    (r : UdpReceiver (List Text)) × ((Multicast.receive_loop no_text keep two_packets at_start
        ≡ some r)
      × (ledger r ≡ (
        codes "abc" ∷ [],
        record {
          packets_received = 1;
          packets_dropped = 1;
          bytes_received = 3;
          message_errors = 0;
          sequence_gaps = 0;
        },
      )))
unfolding whole cut_off deliver errors bytes_of
receive_loop-dropped_example = receive_loop-dropped no_text keep two_packets at_start (refl, tt)
