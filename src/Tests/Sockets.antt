-- ===== src/Tests/Sockets.antt =====
-- The socket library on small messages: a client and a server with one user.
use ix_library.Base.{
  ℕ, ◌+◌, ◌*◌, ◌/◌, ◌≡◌, refl, true, none, some, List, [], ◌∷◌, ◌++◌, length, take, drop, replicate,
  length-replicate, arith,
}
use ix_library.Wire.{Bytes, store, store_word}
use ix_library.Session.Stream.{concat}
use ix_library.Socket.Packets.{
  Client, queue_send, send_loop, store_of, receive_round, wait, got, receive, receive_all,
}
use ix_library.Socket.Packets.Pieces.{receive_all-concat}
use ix_library.Socket.Packets.Handed.{queue_send_handed}
use ix_library.Socket.Server.{
  Json, Peer, live, Server, wait_for_header_descriptor, is_user_online, get_user_fd,
}
use ix_library.Socket.Server.Events.{login}
use ix_library.Base.{◌≢◌}
use ix_library.Socket.Server.Ends.{handle_epoll_event_ends}
use ix_library.Socket.Server.Events.{handle_epoll_event, starved}
use ix_library.Socket.Server.Logins.{login_takes_over}

abbrev idle : Client
idle = record { recv_buffer = []; data_stores = [] }

abbrev braces : Bytes
braces = 123 ∷ 125 ∷ []

abbrev hi : Bytes
hi = 104 ∷ 105 ∷ []

idle_waits : receive_round idle ≡ wait
unfolding receive_round
idle_waits = refl

receive_all-concat_example :
    receive_all idle ((1 ∷ 0 ∷ []) ∷ (0 ∷ []) ∷ [])
    ≡ receive idle (got (concat ((1 ∷ 0 ∷ []) ∷ (0 ∷ []) ∷ [])))
receive_all-concat_example = receive_all-concat idle ((1 ∷ 0 ∷ []) ∷ (0 ∷ []) ∷ []) idle_waits

-- One byte more than a packet holds, with the json text.
long_text : Bytes
long_text = replicate 1003 65

length-long_text : length long_text ≡ 1003
unfolding long_text
length-long_text = length-replicate {A = ℕ} 1003 65

nothing_stored : store_of 3 2 [] ≡ record { json_size = 2; parts = [] }
unfolding store_of
nothing_stored = refl

queue_send_handed_example :
    ((receive_all idle (queue_send 3 braces long_text)).1
      ≡ (record {
        json_size = 2;
        whole = take (1004 * ((length braces + length long_text) / 1024 + 1)) (braces ++ long_text);
      })
        ∷ [])
    × ((receive_all idle (queue_send 3 braces long_text)).0.recv_buffer ≡ [])
queue_send_handed_example =
    queue_send_handed 3 braces long_text (omega arith) (omega (arith, length-long_text)) []
      (queue_send 3 braces long_text) (omega arith) nothing_stored refl

pieces : List Bytes
pieces = take 7 (concat (queue_send 3 braces hi)) ∷ drop 7 (concat (queue_send 3 braces hi)) ∷ []

pieces_sent : concat pieces ≡ concat (queue_send 3 braces hi)
unfolding pieces queue_send send_loop store store_word
pieces_sent = refl

abbrev json : Json
json = record {
  Value = ℕ;
  null = 0;
  parse = λ b. some (length b);
  number_at = λ k v. some v;
  text_at = λ k v. some (105 ∷ 120 ∷ []);
  dump = λ fields. braces;
  is_text = λ b. true;
}

abbrev peers : ℕ → Peer
peers fd = live

abbrev blank : Server ℕ
blank = record {
  recv_buffer = λ fd. [];
  packet_id = 0;
  local_clients = λ name. none;
  clients = λ fd. true;
  fd_name = λ fd. [];
  name_fd = λ name. none;
  clients_data =
      λ fd. record { current_state = wait_for_header_descriptor; next_size = 4; header = 0 };
  sent = [];
}

abbrev ix : Bytes
ix = 105 ∷ 120 ∷ []

-- An empty password, and no such user.
login_takes_over_example :
    (is_user_online ℕ ix (login json peers 5 ix [] hi blank) ≡ true)
    × (get_user_fd ℕ ix (login json peers 5 ix [] hi blank) ≡ some 5)
    × ((login json peers 5 ix [] hi blank).name_fd ix ≡ some 5)
login_takes_over_example = login_takes_over json peers 5 ix [] hi blank

handle_epoll_event_ends_example :
    handle_epoll_event json peers 5 ((0 ∷ 0 ∷ 0 ∷ 2 ∷ []) ∷ braces ∷ []) blank ≢ starved
handle_epoll_event_ends_example =
    handle_epoll_event_ends json peers 5 ((0 ∷ 0 ∷ 0 ∷ 2 ∷ []) ∷ braces ∷ []) blank
