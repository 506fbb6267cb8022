-- ===== src/Session/Messages.antt =====
-- The messages that go in one fragment: their packets, and what one round of `process_data` makes of
-- them.
use ix_library.Base.{
  ℕ, ◌+◌, ◌≤◌, ◌<◌, ◌≡◌, refl, sym, ap, ◌∙◌, none, some, List, [], ◌∷◌, ◌++◌, length, drop, arith,
  length-append, take_prefix, drop_prefix, le→ltb, append-nil, append_assoc,
}
use ix_library.Wire.{Bytes, Agreement, header_size, handle_htonl, handle_ntohl, load, store}
use ix_library.Wire.Laws.{IsWord, IsPacked, header_round_trip, length-store}
use ix_library.Transmit.{transmit, max_fragment_size}
use ix_library.Transmit.Sizes.{single_header, transmit_small}
use ix_library.Session.{
  Session, Job, wait, packet, touch, erase_segment, trim_and_get_header, process_round, message,
  run_job,
}
use ix_library.Session.Reading.{IsFresh, trim_ready, trim_short, packet_single, load-append}

-- A message as `transmitMessage` is given it: its number, the json text, the data.
pub record Message : Type 0 where
  pub id : ℕ
  pub text : Bytes
  pub context : Bytes

-- It goes in one fragment.
pub record IsShort (m : Message) : Type 0 where
  pub id_in : IsWord m.id
  pub small : length m.text + length m.context < max_fragment_size

abbrev pub AllShort : List Message → Type 0
AllShort [] = Unit {0}
AllShort (m ∷ ms) = IsShort m × AllShort ms

abbrev pub concat : List Bytes → Bytes
concat [] = []
concat (c ∷ cs) = c ++ concat cs

-- All that the sender writes.
abbrev pub stream : List Message → Bytes
stream [] = []
stream (m ∷ ms) = concat (transmit m.id m.text m.context) ++ stream ms

abbrev pub header_of : Message → Agreement
header_of m = single_header m.id (length m.text) (length m.text + length m.context)

abbrev pub packet_of : Message → Bytes
packet_of m = store (handle_htonl (header_of m)) ++ (m.text ++ m.context)

abbrev pub job_of : Message → Job
job_of m = record { fragments = (0, m.text ++ m.context) ∷ []; json_size = length m.text }

pub transmit-packet_of :
    (m : Message) → IsShort m → concat (transmit m.id m.text m.context) ≡ packet_of m
transmit-packet_of m v =
    rw (transmit_small m.id m.text m.context v.id_in v.small) (append-nil (packet_of m))

pub length-packet_of :
    (m : Message) → length (packet_of m) ≡ header_size + (length m.text + length m.context)
length-packet_of m = omega (
  arith,
  length-append (store (handle_htonl (header_of m))) (m.text ++ m.context),
  length-append m.text m.context,
  length-store (handle_htonl (header_of m)),
)

pub header_of-IsPacked : (m : Message) → IsShort m → IsPacked (header_of m)
header_of-IsPacked m v = record {
  message_id_in = v.id_in;
  fragment_id_in = omega arith;
  this_size_in = omega (arith, v.small);
  fragments_count_in = omega arith;
  json_size_in = omega (arith, v.small);
}

-- The message's job gives back its text and its data.
pub run_job-job_of : (m : Message) → run_job (job_of m) ≡ message m.text m.context
unfolding run_job
run_job-job_of m =
    rw
      (
        append-nil (m.text ++ m.context),
        le→ltb (length (m.text ++ m.context)) (length m.text)
            (omega (arith, length-append m.text m.context)),
        take_prefix m.text m.context,
        drop_prefix m.text m.context,
      )
      refl

module _ (m : Message) (v : IsShort m) where
  pub header_read :
      (buf future rest : Bytes)
      → buf ++ future ≡ packet_of m ++ rest
      → header_size ≤ length buf
      → handle_ntohl (load buf) ≡ header_of m
  header_read buf future rest e size =
      rw (← load-append buf future size, e, append_assoc)
        (header_round_trip (header_of m) ((m.text ++ m.context) ++ rest) (header_of-IsPacked m v))

  -- The whole packet is there: it is posted and taken off the buffer.
  pub round_whole :
      (s : Session) (rest : Bytes)
      → IsFresh s.segments
      → s.recv_buffer ≡ packet_of m ++ rest
      → process_round s
        ≡ packet
            (record { recv_buffer = rest; segments = erase_segment m.id (touch m.id s.segments) })
            (some (job_of m))
  unfolding process_round
  round_whole s rest fresh e =
      rw (trimmed, process_round)
        (packet_single s (header_of m) (m.text ++ m.context) rest fresh
          (sym (length-append m.text m.context)) refl)
    where
      size : length s.recv_buffer ≡ length (packet_of m) + length rest
      size = ap length e ∙ length-append (packet_of m) rest

      read : handle_ntohl (load s.recv_buffer) ≡ header_of m
      read =
          header_read s.recv_buffer [] rest (append-nil s.recv_buffer ∙ e)
            (omega (arith, size, length-packet_of m))

      cut : drop header_size (packet_of m ++ rest) ≡ (m.text ++ m.context) ++ rest
      cut =
          rw (append_assoc, ← length-store (handle_htonl (header_of m)))
            (drop_prefix (store (handle_htonl (header_of m))) ((m.text ++ m.context) ++ rest))

      trimmed :
          trim_and_get_header s.recv_buffer ≡ some (header_of m, (m.text ++ m.context) ++ rest)
      trimmed =
          trim_ready s.recv_buffer (header_of m) (omega (arith, size, length-packet_of m)) read
            (omega (arith, size, length-packet_of m, v.small))
          ∙ ap (λ b. some (header_of m, b)) (ap (drop header_size) e ∙ cut)

  -- Only a part of it is there: the loop stops and keeps the buffer.
  pub round_part :
      (s : Session) (future rest : Bytes)
      → s.recv_buffer ++ future ≡ packet_of m ++ rest
      → length s.recv_buffer < length (packet_of m)
      → process_round s ≡ wait
  unfolding process_round
  round_part s future rest e short = rw (trimmed, process_round)
    where
      trimmed : trim_and_get_header s.recv_buffer ≡ none
      trimmed =
          trim_short s.recv_buffer (header_of m) (header_read s.recv_buffer future rest e)
            (omega (arith, v.small)) (omega (arith, short, length-packet_of m))
