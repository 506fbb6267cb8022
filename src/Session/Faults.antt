-- ===== src/Session/Faults.antt =====
-- When a round of `process_data` reads past the end of the buffer.
use ix_library.Base.{
  ◌+◌, ◌%◌, ◌≤◌, ◌<◌, ◌≡◌, ◌↔◌, inl, inr, refl, true, length, drop, ltb, arith, length-drop,
  Bool-cases, lt→ltb, le→ltb, ltb→lt, ltb→le,
}
use ix_library.Wire.{Bytes, Agreement, header_size, handle_ntohl, load}
use ix_library.Session.{Session, wait, fault, trim_and_get_header, process_packet, process_round}
use ix_library.Session.Reading.{trim_ready}

process_packet-fault :
    (s : Session) (h : Agreement) (buf : Bytes)
    → (process_packet s h buf ≡ fault) ↔ (length buf < h.this_size)
unfolding process_packet
process_packet-fault s h buf =
    (λ e. ground arith, λ less. rw (lt→ltb (length buf) h.this_size less))

process_round-short :
    (s : Session)
    → header_size ≤ length s.recv_buffer
    → ltb
        (length s.recv_buffer)
        (((handle_ntohl (load s.recv_buffer)).this_size + header_size) % 4294967296)
      ≡ true
    → process_round s ≡ wait
unfolding process_round trim_and_get_header
process_round-short s whole short =
    rw (le→ltb (length s.recv_buffer) header_size whole, short, process_round)

-- With a whole header in the buffer, the round faults exactly when the 32-bit sum of the announced
-- size and the header's size passes the length check although the true sum is longer than the
-- buffer, which takes an announced size within twenty of 2 ^ 32.
pub process_round-fault :
    (s : Session)
    → header_size ≤ length s.recv_buffer
    → let h = handle_ntohl (load s.recv_buffer) in
      (process_round s ≡ fault) ↔ (
        ((h.this_size + header_size) % 4294967296 ≤ length s.recv_buffer)
        × (length s.recv_buffer < h.this_size + header_size))
unfolding process_round
process_round-fault s whole =
    elim (Bool-cases (ltb (length s.recv_buffer) ((h.this_size + header_size) % 4294967296))) [
      | inl short ↦ (
        λ e. cc (process_round-short s whole short),
        λ p. absurd (omega (arith, ltb→lt _ _ short)),
      )
      | inr fits ↦
          let ready = trim_ready s.recv_buffer h whole refl (ltb→le _ _ fits) in
          let inner = process_packet-fault s h (drop header_size s.recv_buffer) in
          rw (ready, process_round)
            (
              λ e. (
                ltb→le _ _ fits,
                omega (arith, inner.0 e, length-drop header_size s.recv_buffer),
              ),
              λ p. inner.1 (omega (arith, p.1, length-drop header_size s.recv_buffer)),
            )
    ]
  where
    h : Agreement
    h = handle_ntohl (load s.recv_buffer)
