-- ===== src/Market/Tcp/Loop.antt =====
-- The thread of a receiver: its loop, and the reconnection after it.
use studycpp.Prelude.{
  ℕ, ◌≡◌, refl, ap, subst, ◌∙◌, inl, inr, Bool, true, false, not, ◌&&◌, Option, none, some, List,
  [], ◌∷◌, ◌++◌, ◌==◌, if◌then◌else◌, Bool-cases, Option-cases,
}
use studycpp.Prelude.Do.{◌>>=◌, >>=-some}
use studycpp.Std.Text.{Text, codes}
use studycpp.Market.Alerts.{warning}
use studycpp.Market.Tcp.{
  TcpReceiver, Polled, poll_failed, timed_out, ready, eintr, einprogress, Stamp, ConnectCalls,
  tcp_alert, raise_error, connect, check_connection_health, reconnect, retried, receive_data,
}

-- One round of the loop: whether `running_` is still set, what `poll` returns, and readings of the
-- clock.
pub record Round : Type 0 where
  pub still_running : Bool
  pub polled : Polled
  pub time : ℕ
  pub stamp : Stamp

-- After a round: on with the next one and a buffer, or out of the loop.
pub data Next (H : Type 0) : Type 0 where
  go_on : Text → TcpReceiver H → Next H
  leave : TcpReceiver H → Next H

module _ {H : Type 0} (strerror : ℕ → Text) (on_message : Text → H → Option H) where
  abbrev hang_up : Bool → ℕ → Stamp → Text → TcpReceiver H → Next H
  hang_up true errno stamp buffer r =
      leave (raise_error strerror r stamp "Connection error or hangup" errno)
  hang_up false errno stamp buffer r = go_on buffer r

  abbrev after_data : Bool → ℕ → Stamp → Bool × Text × TcpReceiver H → Next H
  after_data hup errno stamp (true, buffer, r) = hang_up hup errno stamp buffer r
  after_data hup errno stamp (false, buffer, r) = leave r

  -- what `poll` has returned, in a round
  unfoldable pub handle_poll : Polled → ℕ → Stamp → Text → TcpReceiver H → Option (Next H)
  unfolding raise_error receive_data check_connection_health
  handle_poll (poll_failed errno) time stamp buffer r = some (
      if errno == eintr
      then go_on buffer r
      else leave (raise_error strerror r stamp "Poll failed" errno))
  handle_poll timed_out time stamp buffer r =
      some (go_on buffer (check_connection_health time stamp.raised r))
  handle_poll (ready none hup errno) time stamp buffer r = some (hang_up hup errno stamp buffer r)
  handle_poll (ready (some input) hup errno) time stamp buffer r =
      receive_data strerror on_message input time stamp buffer r >>= λ result.
      some (after_data hup errno stamp result)

  -- The loop over the rounds that there are; `none` if the handler throws.
  unfoldable pub receive_loop : List Round → Text → TcpReceiver H → Option (Next H)
  unfolding handle_poll
  receive_loop [] buffer r = some (go_on buffer r)
  receive_loop (round ∷ rounds) buffer r =
      if round.still_running
      then (handle_poll round.polled round.time round.stamp buffer r >>= λ next. elim next [
        | go_on buffer' r' ↦ receive_loop rounds buffer' r'
        | leave r' ↦ some (leave r')
      ])
      else some (leave (record r { running = false }))

  -- `runReceiveLoop`: the loop, and then the reconnection, with which the thread ends. `none` in its
  -- place is a thread that has not come to its end.
  unfoldable pub run_receive_loop :
      List Round → List (Stamp × ConnectCalls) → TcpReceiver H → Option (Option (TcpReceiver H))
  unfolding receive_loop reconnect
  run_receive_loop rounds cs r = receive_loop rounds [] r >>= λ next. elim next [
    | go_on buffer r' ↦ some none
    | leave r' ↦ some (reconnect strerror cs r')
  ]

  if_append :
      {A : Type 0} (b : Bool) (x x' y z : A)
      → (x ≡ z → x' ≡ z)
      → (if b then x else y) ≡ z
      → (if b then x' else y) ≡ z
  if_append true x x' y z f e = f e
  if_append false x x' y z f e = e

  next_append :
      (before later : List Round) (o : Option (Next H)) (r' : TcpReceiver H)
      → ((buffer : Text) (r : TcpReceiver H)
          → receive_loop before buffer r ≡ some (leave r')
          → receive_loop (before ++ later) buffer r ≡ some (leave r'))
      → (o >>= λ next. elim next [
        | go_on buffer₁ r₁ ↦ receive_loop before buffer₁ r₁
        | leave r₁ ↦ some (leave r₁)
      ])
        ≡ some (leave r')
      → (o >>= λ next. elim next [
        | go_on buffer₁ r₁ ↦ receive_loop (before ++ later) buffer₁ r₁
        | leave r₁ ↦ some (leave r₁)
      ])
        ≡ some (leave r')
  next_append before later none r' ih e = cc e
  next_append before later (some (go_on buffer r)) r' ih e = ih buffer r e
  next_append before later (some (leave r)) r' ih e = e

  -- More rounds do not matter to a loop that has been left.
  receive_loop-append :
      (before later : List Round) (buffer : Text) (r r' : TcpReceiver H)
      → receive_loop before buffer r ≡ some (leave r')
      → receive_loop (before ++ later) buffer r ≡ some (leave r')
  unfolding receive_loop
  receive_loop-append [] later buffer r r' e = cc e
  receive_loop-append (round ∷ before) later buffer r r' e =
      if_append round.still_running _ _ _ _
        (next_append before later (handle_poll round.polled round.time round.stamp buffer r) r'
          (λ buffer₁ r₁. receive_loop-append before later buffer₁ r₁ r'))
        e

  -- The receiver goes on, with the same handler and counter of packets.
  abbrev GoesOn : TcpReceiver H → TcpReceiver H → Type 0
  GoesOn r r' =
      (r'.running ≡ true)
      × ((r'.message_handler ≡ r.message_handler) × (r'.packets_received ≡ r.packets_received))

  connect-GoesOn :
      (c : ConnectCalls) (r : TcpReceiver H)
      → r.running ≡ true
      → GoesOn r (connect strerror c r).1
        × ((connect strerror c r).0 ≡ true → (connect strerror c r).1.connected ≡ true)
  unfolding connect raise_error
  connect-GoesOn c r h = elim (Option-cases c.socket_result) [
    | inl e ↦ rw (connect, e) ((h, (refl, refl)), λ f. cc f)
    | inr (fd, e) ↦ elim (Bool-cases (not c.address_valid)) [
      | inl f ↦ rw (connect, e, f) ((h, (refl, refl)), λ g. cc g)
      | inr f ↦ elim (Bool-cases (not c.connect_done && not (c.errno == einprogress))) [
        | inl g ↦ rw (connect, e, f, g) ((h, (refl, refl)), λ k. cc k)
        | inr g ↦ rw (connect, e, f, g) ((h, (refl, refl)), λ k. refl)
      ]
    ]
  ]

  -- After a reconnection the receiver goes on and is connected.
  abbrev pub IsBack : TcpReceiver H → TcpReceiver H → Type 0
  IsBack r r' =
      (r'.running ≡ true)
      × ((r'.connected ≡ true)
          × ((r'.message_handler ≡ r.message_handler) × (r'.packets_received ≡ r.packets_received)))

  retried-IsBack :
      (rest : Option (TcpReceiver H)) (p : Bool × TcpReceiver H) (r r' : TcpReceiver H)
      → GoesOn r p.1
      → (p.0 ≡ true → p.1.connected ≡ true)
      → (rest ≡ some r' → IsBack p.1 r')
      → retried rest p ≡ some r'
      → IsBack r r'
  retried-IsBack rest (true, q) r r' (a, (b, c)) h ih e =
      let f : q ≡ r' = cc e in subst (IsBack r) f (a, (h refl, (b, c)))
  retried-IsBack rest (false, q) r r' (a, (b, c)) h ih e =
      let (x, (y, (z, w))) = ih e in (x, (y, (z ∙ b, w ∙ c)))

  when_running : {A : Type 0} (b : Bool) (x y z : A) → b ≡ true → (if b then x else y) ≡ z → x ≡ z
  when_running true x y z h e = e
  when_running false x y z h e = cc h

  reconnect-IsBack :
      (cs : List (Stamp × ConnectCalls)) (r r' : TcpReceiver H)
      → r.running ≡ true
      → reconnect strerror cs r ≡ some r'
      → IsBack r r'
  unfolding reconnect
  reconnect-IsBack [] r r' h e = let f : none ≡ some r' = when_running r.running _ _ _ h e in cc f
  reconnect-IsBack ((stamp, c) ∷ cs) r r' h e =
      let r₀ =
        tcp_alert (record r { connected = false }) stamp (codes "Attempting to reconnect") warning
          [] in
      let (g, k) = connect-GoesOn c r₀ h in
      retried-IsBack (reconnect strerror cs (connect strerror c r₀).1) (connect strerror c r₀) r r'
        g k (reconnect-IsBack cs (connect strerror c r₀).1 r' g.0)
        (when_running r.running _ _ _ h e)

  -- When the thread of a receiver leaves its loop, after any rounds, for another reason than that
  -- `running_` is not set, and one of any number of attempts then makes a connection, the thread has
  -- ended: whatever rounds would follow, it does the same. The receiver is running and connected, and
  -- since the loop was left no message has come to the handler and no packet was counted.
  pub run_receive_loop-ends :
      (before : List Round) (cs : List (Stamp × ConnectCalls)) (r r₁ r' : TcpReceiver H)
      → receive_loop before [] r ≡ some (leave r₁)
      → r₁.running ≡ true
      → reconnect strerror cs r₁ ≡ some r'
      → ((later : List Round) → run_receive_loop (before ++ later) cs r ≡ some (some r'))
        × IsBack r₁ r'
  unfolding run_receive_loop
  run_receive_loop-ends before cs r r₁ r' e h f = (
    λ later. >>=-some _ (receive_loop-append before later [] r r₁ e) ∙ ap some f,
    reconnect-IsBack cs r₁ r' h f,
  )
