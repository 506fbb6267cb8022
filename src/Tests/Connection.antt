-- ===== src/Tests/Connection.antt =====
-- Short messages through `transmitMessage` and `process_data`, and headers made by hand.
use ix_library.Session.Sending
use ix_library.Session.Sending.{run, send, written, goes, Step}
use ix_library.Session.Sending.Kept.{Alone, send_alone, written_alone}
use ix_library.Base.{
  ℕ, false, none, ◌+◌, ◌-◌, ◌%◌, ◌≤◌, ◌<◌, ◌≡◌, ◌≢◌, ◌↔◌, refl, some, List, [], ◌∷◌, ◌++◌, map,
  length, take, drop, replicate, length-replicate, min, arith,
}
use ix_library.Wire.{
  Bytes, Agreement, header_size, htonl, handle_htonl, handle_ntohl, load, store, load_word,
  store_word,
}
use ix_library.Transmit.{transmit, send_to, transmit_loop, fragment}
use ix_library.Transmit.Long.{StartsWith, second_fragment_repeats}
use ix_library.Session.{
  Session, fault, message, process_round, receive_all, idle, starved, run_job, trim_and_get_header,
  process_packet, merge_fragments,
}
use ix_library.Session.Reading.{IsFresh}
use ix_library.Session.Stream.{Message, start, stream, concat, stream_round_trip}
use ix_library.Session.Fragments.{
  AllSingle, receive_all-single, number, bodies, concat_reversed, merge_fragments-number,
}
use ix_library.Session.Faults.{process_round-fault}

abbrev hello : Message
hello = record { id = 7; text = 123 ∷ 125 ∷ []; context = 104 ∷ 105 ∷ [] }

abbrev bye : Message
bye = record { id = 8; text = 123 ∷ 125 ∷ []; context = [] }

-- The stream of the two messages, cut inside the first header and inside the first body.
abbrev pieces : List Bytes
pieces =
    take 9 (stream (hello ∷ bye ∷ []))
    ∷ take 13 (drop 9 (stream (hello ∷ bye ∷ [])))
    ∷ drop 13 (drop 9 (stream (hello ∷ bye ∷ [])))
    ∷ []

pieces_whole : concat pieces ≡ stream (hello ∷ bye ∷ [])
unfolding transmit transmit_loop fragment store store_word handle_htonl htonl
pieces_whole = refl

stream_round_trip_example :
    (map run_job (receive_all start pieces).jobs
      ≡ message (123 ∷ 125 ∷ []) (104 ∷ 105 ∷ []) ∷ message (123 ∷ 125 ∷ []) [] ∷ [])
    × ((receive_all start pieces).ending ≡ idle)
    × ((receive_all start pieces).session.recv_buffer ≡ [])
stream_round_trip_example = stream_round_trip (hello ∷ bye ∷ []) pieces (omega arith) pieces_whole

-- The first of two fragments of a message, with one byte of body.
abbrev half_header : Agreement
half_header = record {
  message_id = 5;
  fragment_id = 0;
  this_size = 1;
  fragments_count = 2;
  json_size = 1;
}

abbrev half_packet : Bytes
half_packet = store (handle_htonl half_header) ++ (65 ∷ [])

receive_all-single_example :
    AllSingle (receive_all start (half_packet ∷ [])).jobs
    × IsFresh (receive_all start (half_packet ∷ [])).session.segments
    × ((receive_all start (half_packet ∷ [])).ending ≢ starved)
receive_all-single_example = receive_all-single (half_packet ∷ []) start tt

merge_fragments-number_example :
    (merge_fragments ((0, 65 ∷ []) ∷ (1, 66 ∷ []) ∷ []) ≡ some (66 ∷ 65 ∷ [])) ↔ (
      ((0, 65 ∷ []) ∷ (1, 66 ∷ []) ∷ [] ≡ number 0 (bodies ((0, 65 ∷ []) ∷ (1, 66 ∷ []) ∷ [])))
      × (66 ∷ 65 ∷ [] ≡ concat_reversed (bodies ((0, 65 ∷ []) ∷ (1, 66 ∷ []) ∷ []))))
merge_fragments-number_example =
    merge_fragments-number ((0, 65 ∷ []) ∷ (1, 66 ∷ []) ∷ []) (66 ∷ 65 ∷ [])

-- An announced size of 2 ^ 32 - 1, whose sum with twenty is 19.
abbrev huge : Session
huge = record {
  recv_buffer =
      0 ∷ 0 ∷ 0 ∷ 1 ∷ 0 ∷ 0 ∷ 0 ∷ 0 ∷ 255 ∷ 255 ∷ 255 ∷ 255 ∷ 0 ∷ 0 ∷ 0 ∷ 1 ∷ 0 ∷ 0 ∷ 0 ∷ 0 ∷ [];
  segments = [];
}

huge_faults : process_round huge ≡ fault
unfolding process_round trim_and_get_header process_packet load load_word handle_ntohl htonl
huge_faults = refl

process_round-fault_example : (process_round huge ≡ fault) ↔ (
    (((handle_ntohl (load huge.recv_buffer)).this_size + header_size) % 4294967296
      ≤ length huge.recv_buffer)
    × (length huge.recv_buffer < (handle_ntohl (load huge.recv_buffer)).this_size + header_size))
process_round-fault_example = process_round-fault huge (omega arith)

-- 5000 bytes: the second fragment should hold the last 904.
long_text : Bytes
long_text = replicate 5000 65

length-long_text : length long_text ≡ 5000
unfolding long_text
length-long_text = length-replicate {A = ℕ} 5000 65

second_fragment_repeats_example :
    StartsWith
      (transmit 7 long_text [])
      (take 4096 (long_text ++ []))
      (take (min (length long_text + 0 - 4076) 4096) (long_text ++ []))
    × StartsWith
        (send_to 7 (length long_text) (long_text ++ []))
        (take 4096 (long_text ++ []))
        (take (min (length (long_text ++ []) - 4096) 4096) (long_text ++ []))
second_fragment_repeats_example =
    second_fragment_repeats 7 long_text [] (omega (arith, length-long_text))
      (omega (arith, length-long_text))

-- Two messages before the first is written: both writes are under way.
-- A write ends between the two halves of a `send`: its handler finds the message in the queue.
abbrev crossing : List Step
crossing = send (65 ∷ []) ∷ goes 0 ∷ written false ∷ goes 1 ∷ goes 1 ∷ goes 0 ∷ goes 0 ∷ []

abbrev one_by_one : List Alone
one_by_one = send_alone (65 ∷ []) ∷ send_alone (66 ∷ []) ∷ written_alone false ∷ []

-- Both halves find the message: one of them takes it, the other asks for `front` of an empty queue.
abbrev both_take : List Step
both_take = send (65 ∷ []) ∷ goes 0 ∷ goes 0 ∷ written false ∷ goes 0 ∷ goes 0 ∷ goes 1 ∷ []

front_of_empty : run both_take Sending.idle ≡ none
unfolding run Sending.take_step Sending.pick Sending.act Sending.take_front
front_of_empty = refl

-- A message is pushed behind one that is taken, and whose write ends, after the queue was looked at: it stays.
abbrev held_back : List Step
held_back =
    send (65 ∷ [])
    ∷ goes 0
    ∷ goes 0
    ∷ send (66 ∷ [])
    ∷ goes 0
    ∷ goes 1
    ∷ goes 0
    ∷ written false
    ∷ goes 0
    ∷ goes 0
    ∷ []

stays_in_queue :
    run held_back Sending.idle
    ≡ some (record {
      send_queue = (66 ∷ []) ∷ [];
      pushed = (65 ∷ []) ∷ (66 ∷ []) ∷ [];
      taken = (65 ∷ []) ∷ [];
      started = (65 ∷ []) ∷ [];
      active = [];
    })
unfolding run Sending.take_step Sending.pick Sending.act Sending.take_front
stays_in_queue = refl
