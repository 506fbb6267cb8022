-- ===== src/Transmit/Sizes.antt =====
-- Which bytes the two senders put into the fragments of a message.
use ix_library.Base.{
  ℕ, ◌+◌, min, ◌≤◌, ◌<◌, ◌≡◌, ap, ◌∙◌, [], ◌∷◌, ◌++◌, length, take, arith, length-append,
  take-length,
}
use ix_library.Wire.{Bytes, Agreement, handle_htonl, store}
use ix_library.Wire.Laws.{IsWord}
use ix_library.Transmit.{
  max_fragment_size, fragments_count, word, fragment, transmit_loop, transmit, send_loop, send_to,
  first_header,
}

-- The header of a message that goes in one fragment.
abbrev pub single_header : ℕ → ℕ → ℕ → Agreement
single_header id json_size total = record {
  message_id = id;
  fragment_id = 0;
  this_size = total;
  fragments_count = 1;
  json_size = json_size;
}

abbrev single_fragment : ℕ → ℕ → Bytes → Bytes
single_fragment id json_size msg =
    store (handle_htonl (single_header id json_size (length msg))) ++ msg

-- Below 4096 bytes there is one fragment, and it holds the whole message.
one_fragment : (total : ℕ) → total < max_fragment_size → fragments_count total ≡ 1
one_fragment total small = omega arith

whole_message :
    (msg : Bytes)
    → length msg < max_fragment_size
    → take (min (length msg) max_fragment_size) msg ≡ msg
whole_message msg small = ap (λ n. take n msg) fits ∙ take-length msg
  where
    fits : min (length msg) max_fragment_size ≡ length msg
    fits = omega arith

transmit_loop_small :
    (id json_size : ℕ) (msg : Bytes)
    → IsWord id
    → json_size ≤ length msg
    → length msg < max_fragment_size
    → transmit_loop
        (fragments_count (length msg))
        (first_header id json_size (length msg))
        (length msg)
        msg
      ≡ single_fragment id json_size msg ∷ []
unfolding transmit_loop fragment
transmit_loop_small id json_size msg w sub small =
    let c = one_fragment (length msg) small in
    let i' : word id ≡ id = omega arith in
    let j : word json_size ≡ json_size = omega arith in
    let m : min (length msg) max_fragment_size ≡ length msg = omega arith in
    let t = whole_message msg small in
    (λ i.
      transmit_loop (c i)
        (record {
          message_id = i' i;
          fragment_id = 0;
          this_size = 0;
          fragments_count = c i;
          json_size = j i;
        })
        (length msg) msg)
    ∙ (λ i. (store (handle_htonl (single_header id json_size (m i))) ++ t i) ∷ [])

send_loop_small :
    (id json_size : ℕ) (msg : Bytes)
    → IsWord id
    → json_size ≤ length msg
    → length msg < max_fragment_size
    → send_loop
        (fragments_count (length msg))
        (first_header id json_size (length msg))
        (length msg)
        msg
      ≡ single_fragment id json_size msg ∷ []
unfolding send_loop fragment
send_loop_small id json_size msg w sub small =
    let c = one_fragment (length msg) small in
    let i' : word id ≡ id = omega arith in
    let j : word json_size ≡ json_size = omega arith in
    let m : min (length msg) max_fragment_size ≡ length msg = omega arith in
    let t = whole_message msg small in
    (λ i.
      send_loop (c i)
        (record {
          message_id = i' i;
          fragment_id = 0;
          this_size = 0;
          fragments_count = c i;
          json_size = j i;
        })
        (length msg) msg)
    ∙ (λ i. (store (handle_htonl (single_header id json_size (m i))) ++ t i) ∷ [])

pub transmit_small :
    (id : ℕ) (text context : Bytes)
    → IsWord id
    → length text + length context < max_fragment_size
    → transmit id text context
      ≡ (store (handle_htonl (single_header id (length text) (length text + length context)))
          ++ (text ++ context))
        ∷ []
unfolding transmit
transmit_small id text context w small = rw (← length-append text context) (
    transmit_loop_small id (length text) (text ++ context) w
      (omega (arith, length-append text context)) (omega (arith, length-append text context)))

-- Below 4096 bytes the client's `send_to` and the server's `transmitMessage` put the same bytes on
-- the wire for the same text and data.
pub send_to-transmit :
    (id : ℕ) (text context : Bytes)
    → IsWord id
    → length text + length context < max_fragment_size
    → send_to id (length text) (text ++ context) ≡ transmit id text context
unfolding send_to
send_to-transmit id text context w small = rw (transmit_small id text context w small) (
    rw (← length-append text context) (
      send_loop_small id (length text) (text ++ context) w
        (omega (arith, length-append text context)) (omega (arith, length-append text context))))
