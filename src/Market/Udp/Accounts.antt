-- ===== src/Market/Udp/Accounts.antt =====
-- What the receivers of UDP pass on and count.
use Prim.Native.String.{String}
use studycpp.Prelude.{
  ℕ, suc, ◌+◌, ◌≡◌, refl, sym, ap, ◌∙◌, inl, inr, List, [], ◌∷◌, arith, ◌==◌, Bool-cases, length,
}
use studycpp.Std.Text.{Text}
use studycpp.Market.Tcp.{Stamp, eagain}
use studycpp.Market.Udp
use studycpp.Market.Udp.{
  UdpReceiver, UdpStats, Handled, handled, threw, Received, count_packet, finish_message,
}

pub stats-eq :
    {s t : UdpStats}
    → s.packets_received ≡ t.packets_received
    → s.packets_dropped ≡ t.packets_dropped
    → s.bytes_received ≡ t.bytes_received
    → s.message_errors ≡ t.message_errors
    → s.sequence_gaps ≡ t.sequence_gaps
    → s ≡ t
stats-eq a b c d e = λ i. record {
  packets_received = a i;
  packets_dropped = b i;
  bytes_received = c i;
  message_errors = d i;
  sequence_gaps = e i;
}

unfoldable pub bytes_of : List Text → ℕ
bytes_of [] = 0
bytes_of (t ∷ ts) = length t + bytes_of ts

-- what a receiver has passed on, and its counters
abbrev pub Ledger : Type 0 → Type 0
Ledger H = H × UdpStats

abbrev pub ledger : {H : Type 0} → UdpReceiver H → Ledger H
ledger r = (r.message_handler, r.stats)

module _ {H : Type 0} (on_message : Text → H → Handled H) where
  abbrev pub state_of : Handled H → H
  state_of (handled h) = h
  state_of (threw what h) = h

  abbrev pub error_of : Handled H → ℕ
  error_of (handled h) = 0
  error_of (threw what h) = 1

  -- the handler after some messages
  unfoldable pub deliver : List Text → H → H
  deliver [] h = h
  deliver (t ∷ ts) h = deliver ts (state_of (on_message t h))

  -- how many of them end with an exception
  unfoldable pub errors : List Text → H → ℕ
  errors [] h = 0
  errors (t ∷ ts) h = error_of (on_message t h) + errors ts (state_of (on_message t h))

  -- The ledger after the packets with these texts, and some packets that were cut off.
  abbrev pub account : List Text → ℕ → Ledger H → Ledger H
  account ts drops (h, s) = (
    deliver ts h,
    record {
      packets_received = s.packets_received + length ts;
      packets_dropped = s.packets_dropped + drops;
      bytes_received = s.bytes_received + bytes_of ts;
      message_errors = s.message_errors + errors ts h;
      sequence_gaps = s.sequence_gaps;
    },
  )

  pub account_none : (l : Ledger H) → account [] 0 l ≡ l
  unfolding deliver errors bytes_of
  account_none (h, s) =
      ap (λ t. (h, t)) (stats-eq (omega arith) (omega arith) (omega arith) (omega arith) refl)

  pub account_more :
      (t : Text) (ts : List Text) (drops : ℕ) (l : Ledger H)
      → account ts drops (account (t ∷ []) 0 l) ≡ account (t ∷ ts) drops l
  unfolding deliver errors bytes_of
  account_more t ts drops (h, s) =
      ap (λ u. (deliver ts (state_of (on_message t h)), u))
        (stats-eq (omega arith) (omega arith) (omega arith) (omega arith) refl)

  pub account_drop :
      (ts : List Text) (drops : ℕ) (l : Ledger H)
      → account ts drops (account [] 1 l) ≡ account ts (suc drops) l
  unfolding deliver errors bytes_of
  account_drop ts drops (h, s) =
      ap (λ u. (deliver ts h, u))
        (stats-eq (omega arith) (omega arith) (omega arith) (omega arith) refl)

  finish_lem :
      (source message : String) (stamp : Stamp) (o : Handled H) (r : UdpReceiver H)
      → ledger (finish_message source message stamp o r)
        ≡ (state_of o, record r.stats { message_errors = r.stats.message_errors + error_of o })
  finish_lem source message stamp (handled h) r =
      ap (λ s. (h, s)) (stats-eq refl refl refl (omega arith) refl)
  finish_lem source message stamp (threw what h) r = refl

  pub packet_lem :
      (source message : String) (text : Text) (stamp : Stamp) (r : UdpReceiver H)
      → ledger (
          finish_message source message stamp
            (on_message text r.message_handler)
            (count_packet text r))
        ≡ account (text ∷ []) 0 (ledger r)
  unfolding deliver errors bytes_of
  packet_lem source message text stamp r =
      finish_lem source message stamp (on_message text r.message_handler) (count_packet text r)
      ∙ ap (λ s. (state_of (on_message text r.message_handler), s))
          (stats-eq (omega arith) (omega arith) (omega arith) (omega arith) refl)

  -- the texts of the packets that were received
  unfoldable pub packets : List Received → List Text
  packets [] = []
  packets (Udp.packet text stamp ∷ xs) = text ∷ packets xs
  packets (Udp.recv_failed errno stamp ∷ xs) = packets xs

  failed_lem :
      (strerror : ℕ → Text) (errno : ℕ) (stamp : Stamp) (r : UdpReceiver H)
      → ledger (Udp.receive_one strerror on_message (Udp.recv_failed errno stamp) r) ≡ ledger r
  unfolding Udp.receive_one Udp.raise_error
  failed_lem strerror errno stamp r = elim (Bool-cases (errno == eagain)) [
    | inl e ↦ rw e refl
    | inr e ↦ rw e refl
  ]

  -- The handler of a receiver for one address gets the texts of all packets, in order, whether it
  -- throws or not; the packets, their bytes and the exceptions are counted, and nothing else is.
  pub receive_loop-account :
      (strerror : ℕ → Text) (xs : List Received) (r : UdpReceiver H)
      → ledger (Udp.receive_loop strerror on_message xs r) ≡ account (packets xs) 0 (ledger r)
  unfolding Udp.receive_loop Udp.receive_one Udp.process_packet packets
  receive_loop-account strerror [] r = sym (account_none (ledger r))
  receive_loop-account strerror (Udp.packet text stamp ∷ xs) r =
      let r' = Udp.process_packet strerror on_message text stamp r in
      receive_loop-account strerror xs r'
      ∙ ap (account (packets xs) 0)
          (packet_lem "UDPReceiver" "Error processing UDP message" text stamp r)
      ∙ account_more text (packets xs) 0 (ledger r)
  receive_loop-account strerror (Udp.recv_failed errno stamp ∷ xs) r =
      receive_loop-account strerror xs
        (Udp.receive_one strerror on_message (Udp.recv_failed errno stamp) r)
      ∙ ap (account (packets xs) 0) (failed_lem strerror errno stamp r)
