-- ===== src/Market/Tcp/Packets.antt =====
-- A run of packets.
use mathlib.Core.Option
use studycpp.Prelude.{
  ℕ, ◌+◌, ◌≤◌, ◌≡◌, refl, sym, ap, ap₂, ◌∙◌, inl, inr, true, false, Option, some, List, [], ◌∷◌,
  ◌++◌, append_assoc, append-nil, arith, ltb, Option-cases, length, length-append,
}
use studycpp.Prelude.Do.{◌>>=◌}
use studycpp.Std.Text.{Text}
use studycpp.Market.Tcp.{line_fuel, TcpReceiver, bytes, receive_data, Stamp, max_buffer_size}
use studycpp.Market.Tcp.Lines.{
  lines, lines-append, lines_left, deliver-append, deliver, process_lines_lem,
}

-- One packet: its first byte, the others, and the readings of the clock.
pub record Packet : Type 0 where
  pub first : ℕ
  pub others : Text
  pub time : ℕ
  pub stamp : Stamp

abbrev pub contents : Packet → Text
contents p = p.first ∷ p.others

unfoldable pub joined : List Packet → Text
joined [] = []
joined (p ∷ ps) = contents p ++ joined ps

-- What is left of the text after each packet is no longer than the buffer may be.
abbrev pub Fits : Text → List Packet → Type 0
Fits left [] = Unit
Fits left (p ∷ ps) =
    let rest = (lines (left ++ contents p)).1 in (length rest ≤ max_buffer_size) × Fits rest ps

module _ {H : Type 0} (strerror : ℕ → Text) (on_message : Text → H → Option H) where
  -- The calls of `receive_data` for the packets.
  unfoldable pub receive_all : List Packet → Text → TcpReceiver H → Option (Text × TcpReceiver H)
  receive_all [] buffer r = some (buffer, r)
  receive_all (p ∷ ps) buffer r =
      receive_data strerror on_message (bytes p.first p.others) p.time p.stamp buffer r
      >>= λ (more, left, r'). receive_all ps left r'

  abbrev pub received : Packet → H → TcpReceiver H → TcpReceiver H
  received p h r = record r {
    last_receive_time = p.time;
    bytes_received = r.bytes_received + length (contents p);
    packets_received = r.packets_received + 1;
    message_handler = h;
  }

  receive_data_lem :
      (p : Packet) (buffer : Text) (r : TcpReceiver H)
      → length (lines (buffer ++ contents p)).1 ≤ max_buffer_size
      → receive_data strerror on_message (bytes p.first p.others) p.time p.stamp buffer r ≡ (
          deliver on_message (lines (buffer ++ contents p)).0 r.message_handler >>= λ h.
          some (true, (lines (buffer ++ contents p)).1, received p h r))
  unfolding receive_data
  receive_data_lem p buffer r h =
      let all = buffer ++ contents p in
      let e = process_lines_lem on_message (line_fuel all) all r.message_handler (omega arith) in
      let t : ltb max_buffer_size (length (lines all).1) ≡ false = ground (arith, h) in
      rw e (elim (Option-cases (deliver on_message (lines all).0 r.message_handler)) [
        | inl f ↦ rw f refl
        | inr (h', f) ↦ rw (f, t) refl
      ])

  -- What a receiver has done: the text that is left, the handler, and the two counters.
  abbrev pub summary : Text × TcpReceiver H → Text × H × ℕ × ℕ
  summary (left, r) = (left, r.message_handler, r.bytes_received, r.packets_received)

  abbrev outcome : List Packet → Text → TcpReceiver H → Option (Text × H × ℕ × ℕ)
  outcome ps buffer r =
      let all = lines (buffer ++ joined ps) in
      Option.map
        (λ h. (all.1, h, r.bytes_received + length (joined ps), r.packets_received + length ps))
        (deliver on_message all.0 r.message_handler)

  outcome-cons :
      (p : Packet) (ps : List Packet) (buffer : Text) (r : TcpReceiver H)
      → outcome (p ∷ ps) buffer r ≡ (
          deliver on_message (lines (buffer ++ contents p)).0 r.message_handler >>= λ h.
          outcome ps (lines (buffer ++ contents p)).1 (received p h r))
  unfolding joined
  outcome-cons p ps buffer r =
      let cut =
        ap lines (sym (append_assoc buffer (contents p) (joined ps)))
        ∙ lines-append (buffer ++ contents p) (joined ps) in
      rw
        (
          cut,
          deliver-append on_message (lines (buffer ++ contents p)).0
              (lines ((lines (buffer ++ contents p)).1 ++ joined ps)).0 r.message_handler,
        )
        (elim (Option-cases
          (deliver on_message (lines (buffer ++ contents p)).0 r.message_handler)) [
            | inl f ↦ rw f refl
            | inr (h, f) ↦
                let left = (lines (buffer ++ contents p)).1 in
                let all = lines (left ++ joined ps) in
                rw f (
                  ap₂
                    (λ (a b : ℕ). Option.map (λ h'. (all.1, h', a, b)) (deliver on_message all.0 h))
                    (omega (arith, length-append (contents p) (joined ps))) (omega arith))
          ])

  from_buffer :
      (ps : List Packet) (r : TcpReceiver H) (buffer : Text)
      → lines buffer ≡ ([], buffer)
      → Fits buffer ps
      → Option.map summary (receive_all ps buffer r) ≡ outcome ps buffer r
  unfolding receive_all joined deliver
  from_buffer [] r buffer e f =
      rw (append-nil buffer, e)
        (ap₂ (λ (a b : ℕ). some (buffer, r.message_handler, a, b)) (omega arith) (omega arith))
  from_buffer (p ∷ ps) r buffer e f =
      rw (receive_data_lem p buffer r f.0, outcome-cons p ps buffer r)
        (elim (Option-cases
          (deliver on_message (lines (buffer ++ contents p)).0 r.message_handler)) [
            | inl g ↦ rw g refl
            | inr (h, g) ↦ rw g (
                from_buffer ps (received p h r) (lines (buffer ++ contents p)).1
                  (lines_left (buffer ++ contents p)) f.1)
          ])

  -- If no packet leaves more of a line than the buffer may hold, then the handler has the complete
  -- lines of all that was received, in order, what is left is what follows the last newline, and the
  -- bytes and the packets are counted; and the run ends only where the handler throws. So it does not
  -- matter how the text is cut into packets.
  pub receive_all_lem :
      (ps : List Packet) (r : TcpReceiver H)
      → Fits [] ps
      → let all = lines (joined ps) in
        Option.map summary (receive_all ps [] r)
        ≡ Option.map
            (λ h. (all.1, h, r.bytes_received + length (joined ps), r.packets_received + length ps))
            (deliver on_message all.0 r.message_handler)
  unfolding lines
  receive_all_lem ps r f = from_buffer ps r [] refl f
