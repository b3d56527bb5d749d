-- ===== src/Market/Udp/Dropped.antt =====
-- What a receiver of a multicast group passes on, counts and drops.
use studycpp.Prelude.{
  ℕ, suc, ◌+◌, ◌≡◌, refl, sym, ap, ◌∙◌, inl, inr, Option, none, some, List, [], ◌∷◌, arith, ◌==◌,
  Bool-cases,
}
use studycpp.Prelude.Do.{>>=-some}
use studycpp.Std.Text.{Text, codes, to_string}
use studycpp.Market.Alerts.{warning}
use studycpp.Market.Tcp.{Stamp, eagain}
use studycpp.Market.Udp.{UdpReceiver, Handled, udp_alert, count_packet, finish_message, raise_error}
use studycpp.Market.Udp.Multicast.{
  Message, packet, truncated, recv_failed, HardwareStamp, record_hardware, process_packet,
  receive_one, receive_loop,
}
use studycpp.Market.Udp.Accounts.{
  stats-eq, bytes_of, deliver, errors, ledger, account, account_none, account_more, account_drop,
  packet_lem,
}

-- the texts of the packets that came whole
unfoldable pub whole : List Message → List Text
whole [] = []
whole (packet text hw stamp ∷ xs) = text ∷ whole xs
whole (truncated bytes stamp ∷ xs) = whole xs
whole (recv_failed errno stamp ∷ xs) = whole xs

-- how many packets were cut off
unfoldable pub cut_off : List Message → ℕ
cut_off [] = 0
cut_off (packet text hw stamp ∷ xs) = cut_off xs
cut_off (truncated bytes stamp ∷ xs) = suc (cut_off xs)
cut_off (recv_failed errno stamp ∷ xs) = cut_off xs

-- No packet has a timestamp of the hardware.
abbrev pub Unstamped : List Message → Type 0
Unstamped [] = Unit
Unstamped (packet text hw stamp ∷ xs) = (hw ≡ none) × Unstamped xs
Unstamped (truncated bytes stamp ∷ xs) = Unstamped xs
Unstamped (recv_failed errno stamp ∷ xs) = Unstamped xs

module _ {H : Type 0} (strerror : ℕ → Text) (on_message : Text → H → Handled H) where
  abbrev after_packet : Text → Stamp → UdpReceiver H → UdpReceiver H
  after_packet text stamp r =
      finish_message "MulticastReceiver" "Error processing multicast message" stamp
        (on_message text r.message_handler) (count_packet text r)

  process_packet_lem :
      (text : Text) (hw : Option HardwareStamp) (stamp : Stamp) (r : UdpReceiver H)
      → hw ≡ none
      → process_packet strerror on_message text hw stamp r ≡ some (after_packet text stamp r)
  unfolding process_packet record_hardware
  process_packet_lem text none stamp r e = refl
  process_packet_lem text (some t) stamp r e = cc

  abbrev after_cut : ℕ → Stamp → UdpReceiver H → UdpReceiver H
  after_cut bytes stamp r =
      udp_alert "MulticastReceiver"
        (record r { stats = record r.stats { packets_dropped = r.stats.packets_dropped + 1 } })
        stamp "Truncated multicast packet received" warning ((codes "size", to_string bytes) ∷ [])

  cut_lem :
      (bytes : ℕ) (stamp : Stamp) (r : UdpReceiver H)
      → ledger (after_cut bytes stamp r) ≡ account on_message [] 1 (ledger r)
  unfolding deliver errors bytes_of
  cut_lem bytes stamp r =
      ap (λ s. (r.message_handler, s))
        (stats-eq (omega arith) (omega arith) (omega arith) (omega arith) refl)

  failed_lem :
      (errno : ℕ) (stamp : Stamp) (r : UdpReceiver H)
      → (r' : UdpReceiver H) × ((receive_one strerror on_message (recv_failed errno stamp) r
            ≡ some r')
          × (ledger r' ≡ ledger r))
  unfolding receive_one raise_error
  failed_lem errno stamp r = elim (Bool-cases (errno == eagain)) [
    | inl e ↦ (r, (rw e refl, refl))
    | inr e ↦ (raise_error strerror r stamp "Multicast receive failed" errno, (rw e refl, refl))
  ]

  -- If no packet has a timestamp of the hardware, then no round of a receiver for a group is
  -- undefined. Its handler gets the texts of the packets that came whole, in order, whether it throws
  -- or not; these packets, their bytes and the exceptions are counted, and those that were cut off
  -- are counted as dropped, and nothing else is counted.
  pub receive_loop-dropped :
      (xs : List Message) (r : UdpReceiver H)
      → Unstamped xs
      → (r' : UdpReceiver H) × ((receive_loop strerror on_message xs r ≡ some r')
          × (ledger r' ≡ account on_message (whole xs) (cut_off xs) (ledger r)))
  unfolding receive_loop receive_one whole cut_off
  receive_loop-dropped [] r h = (r, (refl, sym (account_none on_message (ledger r))))
  receive_loop-dropped (packet text hw stamp ∷ xs) r (e, h) =
      let (r₂, (e', k')) = receive_loop-dropped xs (after_packet text stamp r) h in
      (
        r₂,
        (
          >>=-some (receive_loop strerror on_message xs) (process_packet_lem text hw stamp r e)
              ∙ e',
          k'
              ∙ ap (account on_message (whole xs) (cut_off xs)) (
                  packet_lem on_message "MulticastReceiver" "Error processing multicast message"
                    text stamp r)
              ∙ account_more on_message text (whole xs) (cut_off xs) (ledger r),
        ),
      )
  receive_loop-dropped (truncated bytes stamp ∷ xs) r h =
      let (r₂, (e', k')) = receive_loop-dropped xs (after_cut bytes stamp r) h in
      (
        r₂,
        (
          e',
          k'
              ∙ ap (account on_message (whole xs) (cut_off xs)) (cut_lem bytes stamp r)
              ∙ account_drop on_message (whole xs) (cut_off xs) (ledger r),
        ),
      )
  receive_loop-dropped (recv_failed errno stamp ∷ xs) r h =
      let (r₁, (e, k)) = failed_lem errno stamp r in
      let (r₂, (e', k')) = receive_loop-dropped xs r₁ h in
      (
        r₂,
        (
          >>=-some (receive_loop strerror on_message xs) e ∙ e',
          k' ∙ ap (account on_message (whole xs) (cut_off xs)) k,
        ),
      )
