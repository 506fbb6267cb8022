-- ===== src/Session.antt =====
-- projects/Server/src/Session/Session.cpp: the receiving half of a connection. Bytes from the socket
-- go to `recvBuffer`; `process_data` cuts it into fragments, and posts a job for each message that
-- it takes to be whole; a job merges its fragments and splits off the json text.
-- The posted jobs run on the io threads; the model returns them in the order of posting.
pub mod Deliveries
pub mod Reading
pub mod Messages
pub mod Stream
pub mod Faults
pub mod Fragments
pub mod Sending
use ix_library.Base.{
  ℕ, zero, suc, ◌+◌, ◌%◌, Bool, Option, none, some, List, [], ◌∷◌, ◌++◌, length, take, drop, ltb,
  ◌==◌, if◌then◌else◌,
}
use ix_library.Wire.{Bytes, Agreement, header_size, handle_ntohl, load}

-- `std::map<int, …>`, by increasing key. A key is the `uint32_t` it is converted from; as an `int`
-- it is ordered by `int_rank`.
abbrev pub FragmentMap : Type 0
FragmentMap = List (ℕ × Bytes)

abbrev pub int_rank : ℕ → ℕ
int_rank u = (u + 2147483648) % 4294967296

-- `std::map::emplace`: a key that is there keeps its value.
unfoldable pub emplace : ℕ → Bytes → FragmentMap → FragmentMap
emplace k v [] = (k, v) ∷ []
emplace k v ((j, w) ∷ m) =
    let rest = (j, w) ∷ emplace k v m in
    if j == k
    then (j, w) ∷ m
    else if ltb (int_rank k) (int_rank j)
    then (k, v) ∷ (j, w) ∷ m
    else rest

-- `segments`, an `unordered_map` whose `operator[]` adds an empty buffer for a missing key.
abbrev pub Segments : Type 0
Segments = List (ℕ × FragmentMap)

unfoldable pub fragments_of : ℕ → Segments → FragmentMap
fragments_of k [] = []
fragments_of k ((j, m) ∷ s) = if j == k then m else fragments_of k s

unfoldable pub touch : ℕ → Segments → Segments
touch k [] = (k, []) ∷ []
touch k ((j, m) ∷ s) = if j == k then (j, m) ∷ s else (j, m) ∷ touch k s

unfoldable pub erase_segment : ℕ → Segments → Segments
erase_segment k [] = []
erase_segment k ((j, m) ∷ s) = if j == k then s else (j, m) ∷ erase_segment k s

pub record Session : Type 0 where
  pub recv_buffer : Bytes
  pub segments : Segments

-- What the lambda given to `io.post` captures.
pub record Job : Type 0 where
  pub fragments : FragmentMap
  pub json_size : ℕ

-- The sum `thisSize + headerSize` is one of `uint32_t`.
unfoldable pub trim_and_get_header : Bytes → Option (Agreement × Bytes)
trim_and_get_header buf =
    if ltb (length buf) header_size
    then none
    else (let h = handle_ntohl (load buf) in
        if ltb (length buf) ((h.this_size + header_size) % 4294967296)
        then none
        else some (h, drop header_size buf))

-- One round of the loop of `process_data`. `fault`: an iterator past the end of the buffer.
pub data Round : Type 0 where
  wait : Round
  fault : Round
  packet : Session → Option Job → Round

-- `fragments` is a copy of the stored map, so only `operator[]` and `erase` change `segments`.
unfoldable pub process_packet : Session → Agreement → Bytes → Round
process_packet s h buf =
    let fragments =
      emplace h.fragment_id (take h.this_size buf) (fragments_of h.message_id s.segments) in
    let rest = drop h.this_size buf in
    let touched = touch h.message_id s.segments in
    let job : Job = record { fragments = fragments; json_size = h.json_size } in
    let whole : Session = record {
      recv_buffer = rest;
      segments = erase_segment h.message_id touched;
    } in
    let partial : Session = record { recv_buffer = rest; segments = touched } in
    if ltb (length buf) h.this_size
    then fault
    else if length fragments == h.fragments_count
    then packet whole (some job)
    else packet partial none

unfoldable pub process_round : Session → Round
process_round s = elim (trim_and_get_header s.recv_buffer) [
  | none ↦ wait
  | some (h, rest) ↦ process_packet s h rest
]

-- How the loop ended: `starved` is the model's own, when the fuel ran out.
pub data Ending : Type 0 where
  idle faulted starved : Ending

pub record Outcome : Type 0 where
  pub session : Session
  pub jobs : List Job
  pub ending : Ending

abbrev pub post : Option Job → Outcome → Outcome
post none o = o
post (some j) o = record o { jobs = j ∷ o.jobs }

unfoldable pub drain : ℕ → Session → Outcome
drain zero s = record { session = s; jobs = []; ending = starved }
drain (suc fuel) s = elim (process_round s) [
  | wait ↦ record { session = s; jobs = []; ending = idle }
  | fault ↦ record { session = s; jobs = []; ending = faulted }
  | packet t job ↦ post job (drain fuel t)
]

-- Every round takes a header off the buffer, so its length is fuel enough.
unfoldable pub process_data : Session → Outcome
unfolding drain
process_data s = drain (suc (length s.recv_buffer)) s

-- The handler of `do_read`, with the bytes that one read gave.
unfoldable pub receive : Session → Bytes → Outcome
unfolding process_data
receive s bytes = process_data (record s { recv_buffer = s.recv_buffer ++ bytes })

-- Reads one after the other; each `do_read` is issued when `process_data` is done.
unfoldable pub receive_all : Session → List Bytes → Outcome
receive_all s [] = record { session = s; jobs = []; ending = idle }
receive_all s (c ∷ cs) =
    let o = receive s c in
    let later = receive_all o.session cs in
    elim o.ending [ idle ↦ record later { jobs = o.jobs ++ later.jobs } | _ ↦ o ]

-- `merge_fragments`: each fragment goes in front of what is there.
unfoldable pub merge_from : ℕ → Bytes → FragmentMap → Option Bytes
merge_from n full [] = some full
merge_from n full ((k, d) ∷ m) =
    let rest = merge_from (n + 1) (d ++ full) m in if n == k then rest else none

unfoldable pub merge_fragments : FragmentMap → Option Bytes
unfolding merge_from
merge_fragments m = merge_from 0 [] m

-- What a job hands to the json parser and to `data_handler`. `undefined`: the code dereferences an
-- empty optional, or forms an iterator past the end of the message.
pub data Delivery : Type 0 where
  message : Bytes → Bytes → Delivery
  undefined : Delivery

unfoldable pub run_job : Job → Delivery
unfolding merge_fragments
run_job j = elim (merge_fragments j.fragments) [
  | none ↦ undefined
  | some full ↦
      if ltb (length full) j.json_size
      then undefined
      else message (take j.json_size full) (drop j.json_size full)
]
