-- ===== src/Transmit.antt =====
-- The sending half: `Server::transmitMessage` (projects/Server/src/server/server.cpp) from the
-- computation of the sizes on, and `Client::send_to` (projects/Client/src/client/client.cpp). Both
-- cut a message into fragments of at most `MAX_FRAGMENT_SIZE` bytes; the json text comes in as the
-- bytes that `dump` gave. A fragment is returned where the code calls `Session::send`.
pub mod Sizes
pub mod Long
use ix_library.Base.{ℕ, zero, suc, ◌+◌, ◌-◌, ◌/◌, ◌%◌, min, List, [], ◌∷◌, ◌++◌, length, take}
use ix_library.Wire.{Bytes, Agreement, header_size, handle_htonl, store}

abbrev pub max_fragment_size : ℕ
max_fragment_size = 4096

abbrev pub word : ℕ → ℕ
word x = x % 4294967296

-- `(totalSize+MAX_FRAGMENT_SIZE) / MAX_FRAGMENT_SIZE`, stored in a `uint32_t`.
abbrev pub fragments_count : ℕ → ℕ
fragments_count total = word ((total + max_fragment_size) / max_fragment_size)

-- One message: the header in network order, then bytes from the start of the whole message.
unfoldable pub fragment : Agreement → Bytes → Bytes
fragment a total = store (handle_htonl a) ++ take a.this_size total

-- `size_t` minus the `uint32_t` difference `thisSize - headerSize`.
unfoldable pub remaining_after : ℕ → ℕ → ℕ
remaining_after remaining size =
    (remaining + 18446744073709551616 - (size + 4294967296 - header_size) % 4294967296)
    % 18446744073709551616

-- The `for` loop of `transmitMessage`, with the rounds left; `a` holds the loop's counter.
unfoldable pub transmit_loop : ℕ → Agreement → ℕ → Bytes → List Bytes
transmit_loop zero a remaining total = []
transmit_loop (suc rounds) a remaining total =
    let this : Agreement = record a { this_size = min remaining max_fragment_size } in
    let next : Agreement = record this { fragment_id = word (a.fragment_id + 1) } in
    fragment this total ∷ transmit_loop rounds next (remaining_after remaining this.this_size) total

abbrev pub first_header : ℕ → ℕ → ℕ → Agreement
first_header id json_size total = record {
  message_id = word id;
  fragment_id = 0;
  this_size = 0;
  fragments_count = fragments_count total;
  json_size = word json_size;
}

-- `id` is what `get_id_increment` returned, `text` the dumped json, `context` the message's data.
unfoldable pub transmit : ℕ → Bytes → Bytes → List Bytes
transmit id text context =
    let total = length text + length context in
    transmit_loop (fragments_count total) (first_header id (length text) total) total
      (text ++ context)

-- The `for` loop of `send_to`, which takes the fragment's size off what remains.
unfoldable pub send_loop : ℕ → Agreement → ℕ → Bytes → List Bytes
send_loop zero a remaining msg = []
send_loop (suc rounds) a remaining msg =
    let this : Agreement = record a { this_size = min remaining max_fragment_size } in
    let next : Agreement = record this { fragment_id = word (a.fragment_id + 1) } in
    fragment this msg ∷ send_loop rounds next (remaining - this.this_size) msg

unfoldable pub send_to : ℕ → ℕ → Bytes → List Bytes
send_to id json_size msg =
    send_loop (fragments_count (length msg)) (first_header id json_size (length msg)) (length msg)
      msg
