-- ===== src/Market/Tcp/Tests.antt =====
-- A receiver whose handler keeps the lines.
use studycpp.Prelude.{ℕ, ◌≡◌, refl, true, false, Option, none, some, List, [], ◌∷◌, ◌++◌, arith}
use mathlib.Core.Option
use studycpp.Std.Text.{Text, codes}
use studycpp.Market.Alerts.{warning}
use studycpp.Market.Tcp.{
  TcpReceiver, ConnectCalls, Stamp, bytes, closed, ready, next_line, process_lines, receive_data,
  raise_error, tcp_alert, connect, reconnect,
}
use studycpp.Market.Tcp.Lines.{lines, deliver}
use studycpp.Market.Tcp.Packets.{Packet, joined, receive_all, summary, receive_all_lem}
use studycpp.Market.Tcp.Loop.{
  Round, leave, handle_poll, receive_loop, run_receive_loop, IsBack, run_receive_loop-ends,
}

abbrev no_text : ℕ → Text
no_text errno = []

abbrev keep : Text → List Text → Option (List Text)
keep line kept = some (kept ++ (line ∷ []))

abbrev at_start : TcpReceiver (List Text)
at_start = record {
  socket_fd = some 3;
  running = true;
  receiver_thread = true;
  connected = true;
  last_receive_time = 0;
  bytes_received = 0;
  packets_received = 0;
  incomplete_messages = 0;
  alert_manager = record { alert_queue = []; active_alerts = 0; alert_cooldowns = []; logged = [] };
  message_handler = [];
}

abbrev stamp : Stamp
stamp = record { made = 1; raised = 2 }

-- "ab\nc", "d", "e\nf": the second line comes in three packets.
abbrev three_packets : List Packet
three_packets =
    record { first = b'a'; others = b'b' ∷ 10 ∷ b'c' ∷ []; time = 5; stamp = stamp }
    ∷ record { first = b'd'; others = []; time = 6; stamp = stamp }
    ∷ record { first = b'e'; others = 10 ∷ b'f' ∷ []; time = 7; stamp = stamp }
    ∷ []

receive_all_lem_example :
    Option.map (summary no_text keep) (receive_all no_text keep three_packets [] at_start)
    ≡ some (codes "f", codes "ab" ∷ codes "cde" ∷ [], 8, 3)
unfolding lines deliver joined
receive_all_lem_example =
    receive_all_lem no_text keep three_packets at_start
      (omega arith, (omega arith, (omega arith, tt)))

-- The first attempt gets no socket, the second one is under way when the call returns.
abbrev two_attempts : List (Stamp × ConnectCalls)
two_attempts =
    (
      stamp,
      record {
        socket_result = none;
        address_valid = true;
        connect_done = false;
        errno = 24;
        stamp = stamp;
        time = 9;
      },
    )
    ∷ (
      stamp,
      record {
        socket_result = some 4;
        address_valid = true;
        connect_done = false;
        errno = 115;
        stamp = stamp;
        time = 9;
      },
    )
    ∷ []

-- a packet, and then the peer closes
abbrev two_rounds : List Round
two_rounds =
    record {
      still_running = true;
      polled = ready (some (bytes b'a' (10 ∷ []))) false 0;
      time = 7;
      stamp = stamp;
    }
    ∷ record {
      still_running = true;
      polled = ready (some (closed 0)) false 0;
      time = 8;
      stamp = stamp;
    }
    ∷ []

abbrev left : TcpReceiver (List Text)
left =
    raise_error no_text
      (record at_start {
        last_receive_time = 7;
        bytes_received = 2;
        packets_received = 1;
        message_handler = codes "a" ∷ [];
      })
      stamp "Connection closed by peer" 0

leaves : receive_loop no_text keep two_rounds [] at_start ≡ some (leave left)
unfolding receive_loop handle_poll receive_data process_lines next_line
leaves = refl

abbrev reconnected : TcpReceiver (List Text)
reconnected =
    let no_socket =
      raise_error no_text
        (record (tcp_alert (record left { connected = false }) stamp
          (codes "Attempting to reconnect") warning []) { socket_fd = none })
        stamp "Failed to create socket" 24 in
    record (tcp_alert (record no_socket { connected = false }) stamp
      (codes "Attempting to reconnect") warning []) {
        socket_fd = some 4;
        connected = true;
        last_receive_time = 9;
      }

comes_back : reconnect no_text two_attempts left ≡ some reconnected
unfolding reconnect connect raise_error
comes_back = refl

run_receive_loop-ends_example :
    ((later : List Round)
      → run_receive_loop no_text keep (two_rounds ++ later) two_attempts at_start
        ≡ some (some reconnected))
    × IsBack no_text keep left reconnected
unfolding raise_error
run_receive_loop-ends_example =
    run_receive_loop-ends no_text keep two_rounds two_attempts at_start left reconnected leaves refl
      comes_back
