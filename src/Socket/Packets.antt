-- ===== src/Socket/Packets.antt =====
-- The packets from server to client: `queueSend_new` of socket/Socket/Server_Socket.cpp writes a
-- json header and its data as packets of at most 1004 bytes of body; `receive`, `handle_packet`
-- and `merge_packets` of socket/Socket/Client_Socket.cpp put them together. A call of `handle_data`
-- is a `Delivery`.
pub mod Sent
pub mod Parts
pub mod Received
pub mod Pieces
pub mod Handed
use ix_library.Base.{
  ℕ, zero, suc, ◌+◌, ◌-◌, ◌/◌, ◌%◌, ◌≡◌, Bool, true, false, Option, none, some, List, [], ◌∷◌, ◌++◌,
  length, take, drop, ltb, ◌==◌, if◌then◌else◌, min,
}
use ix_library.Wire.{Bytes, Agreement, header_size, store, load}

-- The packed struct of utility/JsonUtility/JsonUtility.h.
pub record S2CAgreement : Type 0 where
  pub id : ℕ
  pub sub_packet_id : ℕ
  pub residual_byte : ℕ
  pub total_packet_count : ℕ
  pub json_size : ℕ

-- It lies in memory as the server's `S2C_agreement` does: five words, here in host order.
abbrev pub to_memory : S2CAgreement → Bytes
to_memory h = store (record {
  message_id = h.id;
  fragment_id = h.sub_packet_id;
  this_size = h.residual_byte;
  fragments_count = h.total_packet_count;
  json_size = h.json_size;
})

abbrev pub from_layout : Agreement → S2CAgreement
from_layout a = record {
  id = a.message_id;
  sub_packet_id = a.fragment_id;
  residual_byte = a.this_size;
  total_packet_count = a.fragments_count;
  json_size = a.json_size;
}

abbrev pub word : ℕ → ℕ
word x = x % 4294967296

abbrev pub max_packet_size : ℕ
max_packet_size = 1024

-- The loop over `len`: the packets given to `send_to_client`. Each takes a byte or more, so the size
-- of the message is fuel enough.
unfoldable pub send_loop : ℕ → S2CAgreement → ℕ → Bytes → List Bytes
send_loop zero s2c len header = []
send_loop (suc n) s2c len header =
    let cur_len = min (max_packet_size - 20) (length header - len) in
    let sized : S2CAgreement = record s2c { residual_byte = word cur_len } in
    let next : S2CAgreement = record sized { sub_packet_id = word (s2c.sub_packet_id + 1) } in
    let rest = send_loop n next (len + cur_len) header in
    if ltb len (length header)
    then (to_memory sized ++ take cur_len (drop len header)) ∷ rest
    else []

-- `packet_id` is the value of PACKET_ID, which the call increases by one.
unfoldable pub queue_send : ℕ → Bytes → Bytes → List Bytes
queue_send packet_id header text =
    let total_len = length header + length text in
    send_loop total_len
      (record {
        id = word packet_id;
        sub_packet_id = 0;
        residual_byte = word total_len;
        total_packet_count = word ((total_len + max_packet_size) / max_packet_size);
        json_size = word (length header);
      })
      0 (header ++ text)

-- `std::map<uint32_t, …>`, whose `operator[]` is assigned to.
abbrev pub PartMap : Type 0
PartMap = List (ℕ × Bytes)

unfoldable pub assign : ℕ → Bytes → PartMap → PartMap
assign k v [] = (k, v) ∷ []
assign k v ((j, w) ∷ m) =
    let rest = (j, w) ∷ assign k v m in
    if j == k then (k, v) ∷ m else if ltb k j then (k, v) ∷ (j, w) ∷ m else rest

pub record DataStore : Type 0 where
  pub json_size : ℕ
  pub parts : PartMap

-- `receiveDataStores`: an entry that is missing is made with the packet's `jsonSize` and no part.
abbrev pub DataStores : Type 0
DataStores = List (ℕ × DataStore)

unfoldable pub store_of : ℕ → ℕ → DataStores → DataStore
store_of k js [] = record { json_size = js; parts = [] }
store_of k js ((j, d) ∷ s) = if j == k then d else store_of k js s

unfoldable pub put : ℕ → DataStore → DataStores → DataStores
put k v [] = (k, v) ∷ []
put k v ((j, d) ∷ s) = if j == k then (k, v) ∷ s else (j, d) ∷ put k v s

-- The loop of `merge_packets`.
unfoldable pub merge_from : ℕ → Bytes → PartMap → Option Bytes
merge_from n bound [] = some bound
merge_from n bound ((k, d) ∷ m) =
    let rest = merge_from (word (n + 1)) (bound ++ d) m in if n == k then rest else none

unfoldable pub merge_packets : PartMap → Option Bytes
unfolding merge_from
merge_packets m = merge_from 0 [] m

-- `handle_data(jsonSize, data)`.
pub record Delivery : Type 0 where
  pub json_size : ℕ
  pub whole : Bytes

pub record Client : Type 0 where
  pub recv_buffer : Bytes
  pub data_stores : DataStores

abbrev pub delivered : ℕ → Option Bytes → List Delivery
delivered js none = []
delivered js (some b) = (record { json_size = js; whole = b }) ∷ []

-- The stored parts stay, whatever comes of them: the line that erases them is a comment.
unfoldable pub handle_packet : S2CAgreement → Bytes → DataStores → DataStores × List Delivery
unfolding merge_packets
handle_packet s2c part stores =
    let old = store_of s2c.id s2c.json_size stores in
    let parts = assign s2c.sub_packet_id part old.parts in
    let now = put s2c.id (record old { parts = parts }) stores in
    if length parts == s2c.total_packet_count
    then (now, delivered old.json_size (merge_packets parts))
    else (now, [])

pub data Round : Type 0 where
  wait : Round
  packet : Client → List Delivery → Round

-- One turn of the loop in `receive`.
unfoldable pub receive_round : Client → Round
receive_round c =
    let header = from_layout (load c.recv_buffer) in
    let total = header_size + header.residual_byte in
    let body = take header.residual_byte (drop header_size c.recv_buffer) in
    let (stores, out) = handle_packet header body c.data_stores in
    if ltb (length c.recv_buffer) header_size
    then wait
    else if ltb (length c.recv_buffer) total
    then wait
    else packet (record { recv_buffer = drop total c.recv_buffer; data_stores = stores }) out

abbrev pub prepend : List Delivery → Client × List Delivery → Client × List Delivery
prepend out (c, more) = (c, out ++ more)

-- Each turn takes off a header at least, so the buffer's size is fuel enough.
unfoldable pub drain : ℕ → Client → Client × List Delivery
unfolding receive_round
drain zero c = (c, [])
drain (suc n) c = elim (receive_round c) [ wait ↦ (c, []) | packet d out ↦ prepend out (drain n d) ]

-- What `recv` returns: bytes, EINTR, or another error, on which `onOffline` forgets all.
pub data Incoming : Type 0 where
  got : Bytes → Incoming
  interrupted : Incoming
  broken : Incoming

unfoldable pub receive : Client → Incoming → Client × List Delivery
unfolding drain
receive c (got bytes) =
    let buf = c.recv_buffer ++ bytes in drain (length buf) (record c { recv_buffer = buf })
receive c interrupted = (c, [])
receive c broken = (record { recv_buffer = []; data_stores = [] }, [])

-- The calls of `receive` for the pieces that come in.
unfoldable pub receive_all : Client → List Bytes → Client × List Delivery
receive_all c [] = (c, [])
receive_all c (piece ∷ pieces) =
    let (d, out) = receive c (got piece) in prepend out (receive_all d pieces)
