-- ===== src/Tests/SocketLogin.antt =====
-- A login over the socket library with a concrete json library, which writes fields one after the other.
use ix_library.Base.{
  ℕ, zero, suc, ◌<◌, ◌≤◌, ◌≡◌, refl, ap, true, false, Option, none, some, List, [], ◌∷◌, ◌++◌,
  length, take, drop, ◌==◌, if◌then◌else◌, length-append, take_prefix, drop_prefix, map, same,
  arith,
}
use ix_library.Wire.{Bytes}
use ix_library.Socket.Packets.{queue_send, store_of}
use ix_library.Socket.Server.{
  Json, Key, Field, text, number, size_key, used_to_key, name_size_key, password_size_key,
  user_name_key, password_key, to_key, type_key, login_status_key, from_key, file_name_key, Peer,
  live, Server, wait_for_header_descriptor, is_user_online, check_user_password,
}
use ix_library.Socket.Client.{
  IsJson, is_ascii, send_to, login_fields, field_at, place, undecided, ClientSocket, login,
  receive_all,
}
use ix_library.Socket.Client.Replies.{reply_of, answered, login_round_trip}
use ix_library.Socket.Server.Events.{armed, handle_epoll_event}
use ix_library.Socket.Server.Logins.{to_fd}

abbrev key_at : ℕ → Key
key_at n =
    if n == 0
    then size_key
    else if n == 1
    then used_to_key
    else if n == 2
    then name_size_key
    else if n == 3
    then password_size_key
    else if n == 4
    then user_name_key
    else if n == 5
    then password_key
    else if n == 6
    then to_key
    else if n == 7
    then type_key
    else if n == 8
    then login_status_key
    else if n == 9
    then from_key
    else file_name_key

key_at-place : (k : Key) → key_at (place k) ≡ k
key_at-place size_key = refl
key_at-place used_to_key = refl
key_at-place name_size_key = refl
key_at-place password_size_key = refl
key_at-place user_name_key = refl
key_at-place password_key = refl
key_at-place to_key = refl
key_at-place type_key = refl
key_at-place login_status_key = refl
key_at-place from_key = refl
key_at-place file_name_key = refl

abbrev written : List (Key × Field) → Bytes
written [] = 0 ∷ []
written ((k, text b) ∷ fs) = 1 ∷ place k ∷ length b ∷ (b ++ written fs)
written ((k, number n) ∷ fs) = 2 ∷ place k ∷ n ∷ written fs

abbrev parsed : ℕ → Bytes → List (Key × Field)
parsed zero bytes = []
parsed (suc fuel) (tag ∷ k ∷ n ∷ rest) =
    let texts = (key_at k, text (take n rest)) ∷ parsed fuel (drop n rest) in
    let numbers = (key_at k, number n) ∷ parsed fuel rest in
    if tag == 1 then texts else if tag == 2 then numbers else []
parsed (suc fuel) _ = []

parsed-written :
    (fuel : ℕ) (fs : List (Key × Field)) → length fs < fuel → parsed fuel (written fs) ≡ fs
parsed-written zero fs h = absurd (omega arith)
parsed-written (suc fuel) [] h = refl
parsed-written (suc fuel) ((k, text b) ∷ fs) h =
    rw (take_prefix b (written fs), drop_prefix b (written fs), key_at-place k)
      (ap (λ r. (k, text b) ∷ r) (parsed-written fuel fs (omega arith)))
parsed-written (suc fuel) ((k, number n) ∷ fs) h =
    rw (key_at-place k) (ap (λ r. (k, number n) ∷ r) (parsed-written fuel fs (omega arith)))

written_long : (fs : List (Key × Field)) → length fs < length (written fs)
written_long [] = omega arith
written_long ((k, text b) ∷ fs) = omega (arith, written_long fs, length-append b (written fs))
written_long ((k, number n) ∷ fs) = omega (arith, written_long fs)

abbrev text_in : Option Field → Option Bytes
text_in (some (text b)) = some b
text_in _ = none

abbrev number_in : Option Field → Option ℕ
number_in (some (number n)) = some n
number_in _ = none

abbrev fields : Json
fields = record {
  Value = List (Key × Field);
  null = [];
  parse = λ bytes. some (parsed (length bytes) bytes);
  number_at = λ k v. number_in (field_at k v);
  text_at = λ k v. text_in (field_at k v);
  dump = written;
  is_text = is_ascii;
}

fields-IsJson : IsJson fields
fields-IsJson = record {
  back = λ fs. fs;
  ascii_text = λ b e. e;
  parse_dump = λ fs e. ap some (parsed-written (length (written fs)) fs (written_long fs));
  text_back = λ k b fs e. ap text_in e;
  number_back = λ k n fs h e. ap number_in e;
  some_bytes = λ fs e. omega (arith, written_long fs);
}

abbrev waiting : Server (List (Key × Field))
waiting = record {
  recv_buffer = λ fd. [];
  packet_id = 3;
  local_clients = λ name.
      some (record { user_name = 105 ∷ []; password = 49 ∷ []; is_online = false; fd = none });
  clients = λ fd. true;
  fd_name = λ fd. [];
  name_fd = λ name. none;
  clients_data =
      λ fd. record { current_state = wait_for_header_descriptor; next_size = 4; header = [] };
  sent = [];
}

abbrev peers : ℕ → Peer
peers fd = live

abbrev outside : ClientSocket
outside = record {
  link = record { recv_buffer = []; data_stores = [] };
  account = record { user_name = []; login_status = undecided; printed = [] };
  is_connected = true;
}

abbrev the_reply : Bytes
the_reply = reply_of fields peers (105 ∷ []) (49 ∷ []) waiting

reply_short : length the_reply ≤ 1004
unfolding check_user_password same
reply_short = omega arith

nothing_stored :
    store_of 3 (length the_reply) [] ≡ record { json_size = length the_reply; parts = [] }
unfolding store_of
nothing_stored = refl

login_sends :
    login fields (105 ∷ []) (49 ∷ [])
    ≡ some (send_to (written (login_fields fields (105 ∷ []) (49 ∷ []))) [])
unfolding login
login_sends = refl

login_round_trip_example :
    (t : Server (List (Key × Field))) × ((handle_epoll_event fields peers 5
          (send_to (written (login_fields fields (105 ∷ []) (49 ∷ []))) [])
          waiting
        ≡ armed t)
      × ((t.sent ≡ [] ++ map (to_fd 5) (queue_send 3 the_reply []))
          × ((is_user_online (List (Key × Field)) (105 ∷ []) t ≡ true)
              × ((d : ClientSocket) × ((receive_all fields (queue_send 3 the_reply []) outside
                      ≡ some d)
                    × (d.account
                        ≡ answered fields
                            (check_user_password (List (Key × Field)) (105 ∷ []) (49 ∷ []) waiting)
                            (105 ∷ [])
                            outside.account))))))
login_round_trip_example =
    login_round_trip fields fields-IsJson peers 5 (105 ∷ []) (49 ∷ []) waiting outside []
      (send_to (written (login_fields fields (105 ∷ []) (49 ∷ []))) [])
      (send_to (written (login_fields fields (105 ∷ []) (49 ∷ []))) []) (queue_send 3 the_reply [])
      login_sends (omega arith)
      (record { connected = refl; state_is = refl; size_is = refl; buffer_is = refl }) refl
      (omega arith) refl reply_short nothing_stored refl refl
