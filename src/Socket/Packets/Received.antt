-- ===== src/Socket/Packets/Received.antt =====
-- What the client makes of the packets that `queueSend_new` wrote.
use ix_library.Base.{
  ℕ, suc, ◌+◌, ◌<◌, ◌≤◌, ◌≡◌, refl, ap, sym, subst, ◌∙◌, some, List, [], ◌∷◌, ◌++◌, length, take,
  drop, ◌==◌, arith, length-append, append_assoc, take_prefix, drop_prefix, true, false, Bool-cases,
  ◌⊎◌, inl, inr,
}
use ix_library.Wire.{Bytes, Agreement, header_size, store, load}
use ix_library.Wire.Laws.{IsWord, load-store, length-store}
use ix_library.Session.Stream.{concat}
use ix_library.Session.Fragments.{number}
use ix_library.Socket.Packets.{
  S2CAgreement, to_memory, from_layout, assign, DataStore, DataStores, store_of, put, merge_from,
  merge_packets, Client, handle_packet, packet, receive_round, prepend, drain,
}
use ix_library.Socket.Packets.Sent.{part_of, packets, announced}
use ix_library.Socket.Packets.Pieces.{round_ready, drain-packet, prepend-prepend}
use ix_library.Socket.Packets.Parts.{
  assign-number, length-number, merge_from-number, concat-append, store_of-put,
}

-- The size of each part fits a word.
abbrev pub AllSmall : List Bytes → Type 0
AllSmall [] = Unit {0}
AllSmall (d ∷ ds) = IsWord (length d) × AllSmall ds

-- The parts of one message: its id, the count in its headers, and the size of its json text.
module _ (id n js : ℕ) (id_in : IsWord id) (n_in : IsWord n) (js_in : IsWord js) where
  abbrev pub kept : List Bytes → DataStore
  kept done = record { json_size = js; parts = number 0 done }

  handle_part :
      (done : List Bytes) (d : Bytes) (stores : DataStores)
      → length done + 1 < 4294967296
      → store_of id js stores ≡ kept done
      → handle_packet (part_of id n js (length done) (length d)) d stores ≡ (
        put id (kept (done ++ (d ∷ []))) stores,
        announced js n (concat done) (length done) (d ∷ []),
      )
  unfolding handle_packet merge_packets assign put
  handle_part done d stores small e = by_count (Bool-cases ((length done + 1) == n))
    where
      now : DataStores
      now = put id (kept (done ++ (d ∷ []))) stores

      parts : assign (length done) d (number 0 done) ≡ number 0 (done ++ (d ∷ []))
      parts = assign-number (length done) 0 done d (omega arith)

      count : length (number 0 (done ++ (d ∷ []))) ≡ length done + 1
      count = length-number 0 (done ++ (d ∷ [])) ∙ length-append done (d ∷ [])

      merged : merge_from 0 [] (number 0 (done ++ (d ∷ []))) ≡ some (concat done ++ d)
      merged =
          merge_from-number 0 [] (done ++ (d ∷ [])) (omega (arith, length-append done (d ∷ [])))
          ∙ ap some (concat-append done d)

      by_count :
          ((length done + 1) == n ≡ true) ⊎ ((length done + 1) == n ≡ false)
          → handle_packet (part_of id n js (length done) (length d)) d stores
            ≡ (now, announced js n (concat done) (length done) (d ∷ []))
      by_count (inl q) = rw (e, parts, count, q, merged) refl
      by_count (inr q) = rw (e, parts, count, q) refl

  -- The stores after the parts `ds` that follow `done`.
  abbrev pub stored : List Bytes → List Bytes → DataStores → DataStores
  stored done [] stores = stores
  stored done (d ∷ ds) stores =
      stored (done ++ (d ∷ [])) ds (put id (kept (done ++ (d ∷ []))) stores)

  part_round :
      (done : List Bytes) (d : Bytes) (rest : Bytes) (stores : DataStores)
      → length done + 1 < 4294967296
      → IsWord (length d)
      → store_of id js stores ≡ kept done
      → receive_round (record {
        recv_buffer = (to_memory (part_of id n js (length done) (length d)) ++ d) ++ rest;
        data_stores = stores;
      })
        ≡ packet
            (record { recv_buffer = rest; data_stores = put id (kept (done ++ (d ∷ []))) stores })
            (announced js n (concat done) (length done) (d ∷ []))
  part_round done d rest stores small size e =
      round_ready c ready
      ∙ (λ i.
          let result =
            handle_packet (from_layout (read i)) (take (read i).this_size (dropped i)) stores in
          packet
            (record {
              recv_buffer = drop (header_size + (read i).this_size) buf;
              data_stores = result.0;
            })
            result.1)
      ∙ (λ i.
          let result = handle_packet header (take_prefix d rest i) stores in
          packet (record { recv_buffer = beyond i; data_stores = result.0 }) result.1)
      ∙ ap (λ r. packet (record { recv_buffer = rest; data_stores = r.0 }) r.1)
          (handle_part done d stores small e)
    where
      header : S2CAgreement
      header = part_of id n js (length done) (length d)

      a : Agreement
      a = record {
        message_id = id;
        fragment_id = length done;
        this_size = length d;
        fragments_count = n;
        json_size = js;
      }

      buf : Bytes
      buf = (store a ++ d) ++ rest

      c : Client
      c = record { recv_buffer = buf; data_stores = stores }

      sizes : length buf ≡ header_size + length d + length rest
      sizes =
          omega
            (arith, length-append (store a ++ d) rest, length-append (store a) d, length-store a)

      read : load buf ≡ a
      read =
          ap load (append_assoc (store a) d rest)
          ∙ load-store a (d ++ rest) (record {
            message_id_in = id_in;
            fragment_id_in = omega arith;
            this_size_in = size;
            fragments_count_in = n_in;
            json_size_in = js_in;
          })

      dropped : drop header_size buf ≡ d ++ rest
      dropped =
          ap (drop header_size) (append_assoc (store a) d rest)
          ∙ subst (λ k. drop k (store a ++ (d ++ rest)) ≡ d ++ rest) (length-store a)
              (drop_prefix (store a) (d ++ rest))

      beyond : drop (header_size + length d) buf ≡ rest
      beyond =
          subst (λ k. drop k buf ≡ rest)
            (length-append (store a) d ∙ ap (λ k. k + length d) (length-store a))
            (drop_prefix (store a ++ d) rest)

      ready :
          (header_size ≤ length buf)
          × (header_size + (from_layout (load buf)).residual_byte ≤ length buf)
      ready = (omega (arith, sizes), rw read (omega (arith, sizes)))

  part_step :
      (done : List Bytes) (d : Bytes) (ds : List Bytes) (m : ℕ) (rest : Bytes) (stores : DataStores)
      → length done + 1 < 4294967296
      → IsWord (length d)
      → store_of id js stores ≡ kept done
      → drain (length (d ∷ ds) + m) (record {
        recv_buffer = concat (packets id n js (length done) (d ∷ ds)) ++ rest;
        data_stores = stores;
      })
        ≡ prepend (announced js n (concat done) (length done) (d ∷ [])) (
            drain (length ds + m) (record {
              recv_buffer = concat (packets id n js (length (done ++ (d ∷ []))) ds) ++ rest;
              data_stores = put id (kept (done ++ (d ∷ []))) stores;
            }))
  part_step done d ds m rest stores small size e =
      ap (λ k. drain k first) more_fuel
      ∙ ap (λ b. drain (suc (length ds + m)) (record { recv_buffer = b; data_stores = stores }))
          (append_assoc packet_bytes (concat (packets id n js (length done + 1) ds)) rest)
      ∙ drain-packet (length ds + m)
          (record { recv_buffer = packet_bytes ++ later; data_stores = stores }) second
          (announced js n (concat done) (length done) (d ∷ []))
          (part_round done d later stores small size e)
      ∙ ap
          (λ k. prepend (announced js n (concat done) (length done) (d ∷ [])) (
            drain (length ds + m)
              (record { recv_buffer = concat (packets id n js k ds) ++ rest; data_stores = next })))
          (sym one_more)
    where
      packet_bytes : Bytes
      packet_bytes = to_memory (part_of id n js (length done) (length d)) ++ d

      later : Bytes
      later = concat (packets id n js (length done + 1) ds) ++ rest

      next : DataStores
      next = put id (kept (done ++ (d ∷ []))) stores

      first : Client
      first = record {
        recv_buffer = (packet_bytes ++ concat (packets id n js (length done + 1) ds)) ++ rest;
        data_stores = stores;
      }

      second : Client
      second = record { recv_buffer = later; data_stores = next }

      more_fuel : length (d ∷ ds) + m ≡ suc (length ds + m)
      more_fuel = omega arith

      one_more : length (done ++ (d ∷ [])) ≡ length done + 1
      one_more = length-append done (d ∷ [])

  announced-cons :
      (before : Bytes) (k : ℕ) (d : Bytes) (ds : List Bytes)
      → announced js n before k (d ∷ ds)
        ≡ announced js n before k (d ∷ []) ++ announced js n (before ++ d) (k + 1) ds
  announced-cons before k d ds = by_count (Bool-cases ((k + 1) == n))
    where
      by_count :
          ((k + 1) == n ≡ true) ⊎ ((k + 1) == n ≡ false)
          → announced js n before k (d ∷ ds)
            ≡ announced js n before k (d ∷ []) ++ announced js n (before ++ d) (k + 1) ds
      by_count (inl q) = rw q refl
      by_count (inr q) = rw q refl

  -- All parts, one after the other.
  pub parts_read :
      (done ds : List Bytes) (m : ℕ) (rest : Bytes) (stores : DataStores)
      → length done + length ds < 4294967296
      → AllSmall ds
      → store_of id js stores ≡ kept done
      → drain (length ds + m) (record {
        recv_buffer = concat (packets id n js (length done) ds) ++ rest;
        data_stores = stores;
      })
        ≡ prepend
            (announced js n (concat done) (length done) ds)
            (drain m (record { recv_buffer = rest; data_stores = stored done ds stores }))
  parts_read done [] m rest stores small sizes e =
      ap (λ k. drain k (record { recv_buffer = rest; data_stores = stores })) (omega arith)
  parts_read done (d ∷ ds) m rest stores small sizes e =
      let next = put id (kept (done ++ (d ∷ []))) stores in
      let one_more = length-append done (d ∷ []) in
      let ih =
        parts_read (done ++ (d ∷ [])) ds m rest next (omega (arith, one_more)) sizes.1
          (store_of-put id js (kept (done ++ (d ∷ []))) stores) in
      let now = announced js n (concat done) (length done) (d ∷ []) in
      let end =
        drain m (record { recv_buffer = rest; data_stores = stored (done ++ (d ∷ [])) ds next }) in
      part_step done d ds m rest stores (omega arith) sizes.0 e
      ∙ ap (prepend now) ih
      ∙ prepend-prepend now
          (announced js n (concat (done ++ (d ∷ []))) (length (done ++ (d ∷ []))) ds) end
      ∙ (λ i. prepend (now ++ announced js n (concat-append done d i) (one_more i) ds) end)
      ∙ ap (λ out. prepend out end) (sym (announced-cons (concat done) (length done) d ds))
