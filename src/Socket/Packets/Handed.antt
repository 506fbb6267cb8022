-- ===== src/Socket/Packets/Handed.antt =====
-- From `queueSend_new` to `handle_data`.
use ix_library.Base.{
  ℕ, zero, suc, ◌+◌, ◌*◌, ◌/◌, ◌<◌, ◌≤◌, ◌≡◌, refl, ap, sym, ◌∙◌, List, [], ◌∷◌, ◌++◌, length, take,
  drop, arith, length-append, length-take, append-nil,
}
use ix_library.Wire.{Bytes}
use ix_library.Wire.Laws.{IsWord}
use ix_library.Session.Stream.{concat}
use ix_library.Socket.Packets.{
  S2CAgreement, word, max_packet_size, queue_send, DataStores, store_of, Client, wait,
  receive_round, prepend, drain, got, receive, receive_all,
}
use ix_library.Socket.Packets.Sent.{chunks, packets, announced, announced-chunks, send_loop-packets}
use ix_library.Socket.Packets.Received.{AllSmall, parts_read, stored}
use ix_library.Socket.Packets.Pieces.{drain-wait, drain-fuel, receive_all-concat}

chunks-AllSmall : (f : ℕ) (xs : Bytes) → AllSmall (chunks f xs)
chunks-AllSmall zero xs = tt
chunks-AllSmall (suc f) [] = tt
chunks-AllSmall (suc f) (x ∷ xs) =
    (omega (arith, length-take 1004 (x ∷ xs)), chunks-AllSmall f (drop 1004 (x ∷ xs)))

length-chunks : (f : ℕ) (xs : Bytes) → length (chunks f xs) ≤ f
length-chunks zero xs = omega arith
length-chunks (suc f) [] = omega arith
length-chunks (suc f) (x ∷ xs) = omega (arith, length-chunks f (drop 1004 (x ∷ xs)))

take_all : (n : ℕ) (xs : Bytes) → length xs ≤ n → take n xs ≡ xs
take_all zero [] h = refl
take_all zero (x ∷ xs) h = absurd (omega arith)
take_all (suc n) [] h = refl
take_all (suc n) (x ∷ xs) h = ap (◌∷◌ x) (take_all n xs (omega arith))

idle_client :
    (stores : DataStores) → receive_round (record { recv_buffer = []; data_stores = stores }) ≡ wait
unfolding receive_round
idle_client stores = refl

-- A message of a json text and data: its packets' count as `queueSend_new` computes it, and the
-- packets it writes.
module _ (id : ℕ) (header text : Bytes) (id_in : IsWord id)
    (small : length header + length text < 4294967296) where
  abbrev size : ℕ
  size = length header + length text

  abbrev count : ℕ
  count = 0 + 1 + size / 1024

  abbrev parts : List Bytes
  parts = chunks size (header ++ text)

  queue_send-packets : queue_send id header text ≡ packets id count (length header) 0 parts
  unfolding queue_send
  queue_send-packets =
      let first : S2CAgreement = record {
        id = word id;
        sub_packet_id = 0;
        residual_byte = word size;
        total_packet_count = word ((size + max_packet_size) / max_packet_size);
        json_size = word (length header);
      } in
      let sent =
        send_loop-packets size first 0 (header ++ text) (header ++ text) refl
          (omega (arith, length-append header text)) (omega arith) in
      let same_id : word id ≡ id = omega arith in
      let same_count : word ((size + max_packet_size) / max_packet_size) ≡ count = omega arith in
      let same_size : word (length header) ≡ length header = omega arith in
      sent ∙ (λ i. packets (same_id i) (same_count i) (same_size i) 0 parts)

  -- A message of one byte or more, fewer than 2 ^ 32, no part of which is stored yet: whatever pieces
  -- its packets come in, `handle_data` is called once, with the size of the json text and the bytes
  -- of the first packets, as many as `totalPacketCount` says: 1 and the size over 1024.
  -- A packet carries 1004 bytes, so these may be fewer than were sent. The buffer ends empty.
  pub queue_send_handed :
      (stores : DataStores) (pieces : List Bytes)
      → 0 < length header + length text
      → store_of id (length header) stores ≡ record { json_size = length header; parts = [] }
      → concat pieces ≡ concat (queue_send id header text)
      → ((receive_all (record { recv_buffer = []; data_stores = stores }) pieces).1
          ≡ (record {
            json_size = length header;
            whole = take (1004 * ((length header + length text) / 1024 + 1)) (header ++ text);
          })
            ∷ [])
        × ((receive_all (record { recv_buffer = []; data_stores = stores }) pieces).0.recv_buffer
            ≡ [])
  unfolding receive
  queue_send_handed stores pieces some_byte fresh same =
      let js = length header in
      let c : Client = record { recv_buffer = []; data_stores = stores } in
      let bytes = concat (packets id count js 0 parts) in
      let total = length bytes in
      let few = length-chunks size (header ++ text) in
      let at_once : receive_all c pieces ≡ receive c (got bytes) =
        receive_all-concat c pieces (idle_client stores)
        ∙ ap (λ b. receive c (got b)) (same ∙ ap concat queue_send-packets) in
      let end : Client = record {
        recv_buffer = [];
        data_stores = stored id count js id_in (omega arith) (omega arith) [] parts stores;
      } in
      let read =
        parts_read id count js id_in (omega arith) (omega arith) [] parts total [] stores
          (omega arith) (chunks-AllSmall size (header ++ text)) fresh in
      let fuel =
        drain-fuel total (length parts + total)
          (record { recv_buffer = bytes; data_stores = stores }) (omega arith) (omega arith) in
      let out =
        announced-chunks js (size / 1024) size [] 0 (header ++ text)
          (omega (arith, length-append header text)) (omega (arith, length-append header text)) in
      let all =
        at_once
        ∙ fuel
        ∙ ap (λ b. drain (length parts + total) (record { recv_buffer = b; data_stores = stores }))
            (sym (append-nil bytes))
        ∙ read
        ∙ ap (prepend (announced js count [] 0 parts))
            (drain-wait total end (idle_client (end.data_stores)))
        ∙ (λ i. prepend (out i) (end, [])) in
      (ap (λ r. r.1) all, ap (λ r. r.0.recv_buffer) all)

  -- When the packets that are counted hold the whole message, it is handed on whole.
  pub queue_send_round_trip :
      (stores : DataStores) (pieces : List Bytes)
      → 0 < length header + length text
      → length header + length text ≤ 1004 * ((length header + length text) / 1024 + 1)
      → store_of id (length header) stores ≡ record { json_size = length header; parts = [] }
      → concat pieces ≡ concat (queue_send id header text)
      → (receive_all (record { recv_buffer = []; data_stores = stores }) pieces).1
        ≡ (record { json_size = length header; whole = header ++ text }) ∷ []
  queue_send_round_trip stores pieces some_byte fits fresh same =
      let covered =
        take_all (1004 * (size / 1024 + 1)) (header ++ text)
          (omega (arith, length-append header text)) in
      (queue_send_handed stores pieces some_byte fresh same).0
      ∙ ap (λ b. (record { json_size = length header; whole = b }) ∷ []) covered
