-- ===== src/Tests/Clients.antt =====
-- The chat client, alone and with the server.
use ix_library.Base.{
  ℕ, ◌≡◌, map, ◌≤◌, append-nil, arith, refl, true, some, List, [], ◌∷◌, same, utf8,
}
use ix_library.Wire.{Bytes}
use ix_library.Actions.{ok, crashed}
use ix_library.Server.{no_info}
use ix_library.Server.Dispatcher.{handle_data}
use ix_library.Session.{receive_all, run_job}
use ix_library.Session.Stream.{start}
use ix_library.Session.Deliveries.{deliver_all}
use ix_library.Server.{written}
use ix_library.Client
use ix_library.Client.{started, connected, live, log_out, ping, request_chat_his}
use ix_library.Client.{absent as no_link}
use ix_library.Client.Dispatcher
use ix_library.Client.Links.{Reached, first, returned as after, connecting, step, reached_is_linked}
use ix_library.Client.Sending.{disconnected_crashes}
use ix_library.Client.Received.{logined, roomed}
use ix_library.Client.Replies.{login_reaches_client}
use ix_library.Actions.{◌>>=◌}
use ix_library.Tests.Keyed.{
  keyed, keyed-IsJson, login_of, rooms_to, reply_to, row, one_row, quiet, find_user_right,
}

rooms_back : keyed.parse (keyed.dump (rooms_to 1)) ≡ some (rooms_to 1)
unfolding same
rooms_back = refl

reply_back : keyed.parse (keyed.dump (reply_to 1)) ≡ some (reply_to 1)
unfolding same
reply_back = refl

-- The bytes of both answers, in one piece.
abbrev one_piece : List Bytes
one_piece = written 1 (handle_data keyed one_row (login_of (utf8 "pw")) [] quiet).1.events ∷ []

login_reaches_client_example :
    deliver_all keyed 0
      (Dispatcher.handle_data keyed)
      (map run_job (receive_all start one_piece).jobs)
      (started 0)
    ≡ (ok tt, logined keyed (utf8 "ann") (utf8 "Ann") (roomed keyed [] (started 0)))
login_reaches_client_example =
    login_reaches_client keyed one_row keyed-IsJson 1 (utf8 "ann") (utf8 "pw") (utf8 "Ann") []
      (row ∷ []) 1 (record no_info { id = 1 }) (login_of (utf8 "pw")) quiet 0 one_piece (started 0)
      refl refl refl refl refl find_user_right refl refl refl tt
      (
        record { id_in = omega arith; small = omega arith },
        (record { id_in = omega arith; small = omega arith }, tt),
      )
      rooms_back reply_back (append-nil _)

once : Reached keyed 7 (connected true (started 7)).1
unfolding connected ◌>>=◌ step
once = after (connecting true) first refl (omega arith)

reached_is_linked_example :
    ((connected true (started 7)).1.is_connected ≡ true
      → (connected true (started 7)).1.sessions
          (connected true (started 7)).1.local_user_info.cur_id
        ≡ live)
    × ((i : ℕ)
        → (connected true (started 7)).1.id_increment ≤ i
        → (connected true (started 7)).1.sessions i ≡ no_link)
reached_is_linked_example = reached_is_linked keyed 7 (connected true (started 7)).1 once

disconnected_crashes_example :
    ((Client.disconnect (started 7)).0 ≡ ok tt)
    × (((ping keyed 5 (Client.disconnect (started 7)).1).0 ≡ crashed)
        × ((request_chat_his keyed (utf8 "room") (Client.disconnect (started 7)).1).0 ≡ crashed))
disconnected_crashes_example = disconnected_crashes keyed (started 7) 5 (utf8 "room")
