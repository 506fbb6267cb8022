-- ===== src/Socket/Client/Replies.antt =====
-- A login over the socket library: what the client sends, the server reads and answers, and the client
-- makes of the answer; socket/Socket/Client_Socket.cpp and Server_Socket.cpp.
use ix_library.Base.{
  ℕ, ◌<◌, ◌≤◌, ◌≡◌, refl, ap, sym, ◌∙◌, Bool, true, false, Option, none, some, List, [], ◌∷◌, ◌++◌,
  length, drop, map, take_prefix, if◌then◌else◌, same, arith, ◌&&◌, Bool-cases, inl, inr,
}
use mathlib.Core.Bool.{false≢true}
use ix_library.Session.Messages.{concat}
use ix_library.Wire.{Bytes}
use ix_library.Socket.Packets.{Delivery, got, queue_send, store_of, DataStores}
use ix_library.Socket.Packets
use ix_library.Socket.Packets.Handed.{queue_send_round_trip}
use ix_library.Socket.Server.{
  Json, Peer, live, Server, wait_for_header_descriptor, is_user_online, check_user_password, Key,
  Field, text, or_default, is_some, type_key, login_status_key, user_name_key, password_key,
  used_to_key, size_key,
}
use ix_library.Socket.Server.Events.{
  Ended, armed, login_text, success_text, failed_text, login_reply, reset, handle_epoll_event,
}
use ix_library.Socket.Server.Events
use ix_library.Socket.Server.Logins.{to_fd, login_takes_over, login_answers}
use ix_library.Socket.Client.{
  IsJson, can_dump, send_to, success, failure, Account, ClientSocket, login, login_fields,
  login_answered, by_type, handle_data, handle_all, with_link, receive, receive_all,
}
use ix_library.Socket.Client.Turns.{IsAt}
use ix_library.Socket.Client.Requests.{login_read}

module _ (json : Json) where
  open json use {null, parse, text_at, dump}

  and_then : List Delivery → Option Account → Option Account
  and_then ds none = none
  and_then ds (some a) = handle_all json ds a

  handle_all-append :
      (xs ys : List Delivery) (a : Account)
      → handle_all json (xs ++ ys) a ≡ and_then ys (handle_all json xs a)
  unfolding handle_all and_then
  handle_all-append [] ys a = refl
  handle_all-append (x ∷ xs) ys a =
      by_answer (handle_data json x a) (λ b. handle_all-append xs ys b)
    where
      go : List Delivery → Option Account → Option Account
      go ds none = none
      go ds (some b) = handle_all json ds b

      by_answer :
          (o : Option Account)
          → ((b : Account) → handle_all json (xs ++ ys) b ≡ and_then ys (handle_all json xs b))
          → go (xs ++ ys) o ≡ and_then ys (go xs o)
      by_answer none h = refl
      by_answer (some b) h = h b

  -- The pieces are put together first and handled after: the messages do not touch the buffers.
  receive_all-handle_all :
      (pieces : List Bytes) (c : ClientSocket)
      → receive_all json pieces c
        ≡ with_link json
            (Packets.receive_all c.link pieces).0
            c
            (handle_all json (Packets.receive_all c.link pieces).1 c.account)
  unfolding receive_all receive Packets.receive_all and_then
  receive_all-handle_all [] c = refl
  receive_all-handle_all (p ∷ ps) c =
      let (l, out) = Packets.receive c.link (got p) in
      let more = Packets.receive_all l ps in
      by_answer (handle_all json out c.account)
        (λ b. receive_all-handle_all ps (record c { link = l; account = b }))
      ∙ ap (with_link json more.0 c) (sym (handle_all-append out more.1 c.account))
    where
      go : Option ClientSocket → Option ClientSocket
      go none = none
      go (some d) = receive_all json ps d

      again :
          (r : Packets.Client) (l : Packets.Client) (b : Account) (o : Option Account)
          → with_link json r (record c { link = l; account = b }) o ≡ with_link json r c o
      again r l b none = refl
      again r l b (some a) = refl

      by_answer :
          (o : Option Account)
          → ((b : Account)
              → receive_all json ps
                  (record c { link = (Packets.receive c.link (got p)).0; account = b })
                ≡ with_link json
                    (Packets.receive_all (Packets.receive c.link (got p)).0 ps).0
                    (record c { link = (Packets.receive c.link (got p)).0; account = b })
                    (handle_all json
                      (Packets.receive_all (Packets.receive c.link (got p)).0 ps).1
                      b))
          → go (with_link json (Packets.receive c.link (got p)).0 c o)
            ≡ with_link json
                (Packets.receive_all (Packets.receive c.link (got p)).0 ps).0
                c
                (and_then (Packets.receive_all (Packets.receive c.link (got p)).0 ps).1 o)
      by_answer none h = refl
      by_answer (some b) h =
          h b
          ∙ again (Packets.receive_all (Packets.receive c.link (got p)).0 ps).0
              (Packets.receive c.link (got p)).0 b
              (handle_all json (Packets.receive_all (Packets.receive c.link (got p)).0 ps).1 b)

  -- What the client makes of the reply to a login.
  abbrev pub answered : Bool → Bytes → Account → Account
  answered true name a = record a { user_name = name; login_status = success }
  answered false name a = record a { login_status = failure }

  abbrev pub status_text : Bool → Bytes
  status_text ok = if ok then success_text else failed_text

  -- The reply of a server whose table is that of `s`.
  abbrev pub reply_of : (ℕ → Peer) → Bytes → Bytes → Server json.Value → Bytes
  reply_of peer name password s =
      login_reply json peer (status_text (check_user_password json.Value name password s)) name

  check-same :
      (name password : Bytes) (s u : Server json.Value)
      → u.local_clients ≡ s.local_clients
      → check_user_password json.Value name password u
        ≡ check_user_password json.Value name password s
  unfolding check_user_password
  check-same name password s u e = rw e refl

  -- The one message of the reply's packets, handled.
  replied :
      (out : List Delivery) (d : Delivery) (a b : Account)
      → out ≡ d ∷ []
      → handle_data json d a ≡ some b
      → handle_all json out a ≡ some b
  unfolding handle_all
  replied out d a b e h = ap (λ ds. handle_all json ds a) e ∙ rw (h, handle_all) refl

  status-ascii : (laws : IsJson json) (ok : Bool) → json.is_text (status_text ok) ≡ true
  status-ascii laws true = laws.ascii_text success_text refl
  status-ascii laws false = laws.ascii_text failed_text refl

  -- The reply can be written if the name can.
  reply-can_dump :
      (laws : IsJson json) (ok : Bool) (name : Bytes)
      → json.is_text name ≡ true
      → can_dump json (
          (type_key, text login_text)
          ∷ (login_status_key, text (status_text ok))
          ∷ (user_name_key, text name)
          ∷ [])
        ≡ true
  reply-can_dump laws ok name e = rw (laws.ascii_text login_text refl, status-ascii laws ok, e) refl

  reply_handled :
      (laws : IsJson json) (peer : ℕ → Peer) (ok : Bool) (name : Bytes) (a : Account)
      → json.is_text name ≡ true
      → handle_data json
          (record {
            json_size = length (login_reply json peer (status_text ok) name);
            whole = login_reply json peer (status_text ok) name ++ [];
          })
          a
        ≡ some (answered ok name a)
  unfolding handle_data by_type same
  reply_handled laws peer ok name a written =
      ap
        (λ o.
          by_type json (text_at type_key (or_default null o)) (or_default null o)
            (drop (length header) (header ++ [])) a)
        (ap parse (take_prefix header [])
          ∙ laws.parse_dump fields (reply-can_dump laws ok name written))
      ∙ ap (λ o. by_type json o value (drop (length header) (header ++ [])) a)
          (laws.text_back type_key login_text fields refl)
      ∙ ap (λ o. login_answered json o (text_at user_name_key value) a)
          (laws.text_back login_status_key (status_text ok) fields refl)
      ∙ ap (λ o. login_answered json (some (status_text ok)) o a)
          (laws.text_back user_name_key name fields refl)
      ∙ taken ok
    where
      fields : List (Key × Field)
      fields =
          (type_key, text login_text)
          ∷ (login_status_key, text (status_text ok))
          ∷ (user_name_key, text name)
          ∷ []

      header : Bytes
      header = dump fields

      value : json.Value
      value = laws.back fields

      taken :
          (b : Bool)
          → login_answered json (some (status_text b)) (some name) a ≡ some (answered b name a)
      taken true = refl
      taken false = refl

  first_of : (a b : Bool) → a && b ≡ true → a ≡ true
  first_of a b e = ground arith

  -- A login that does not throw: its texts are UTF-8.
  login_sends :
      (name password : Bytes) (sending : List Bytes)
      → login json name password ≡ some sending
      → (send_to (dump (login_fields json name password)) [] ≡ sending)
        × ((can_dump json (login_fields json name password) ≡ true) × (json.is_text name ≡ true))
  unfolding login
  login_sends name password sending e =
      elim (Bool-cases (can_dump json (login_fields json name password))) [
        | inl b ↦ (ap (or_default []) (rw b at (e)), (b, first_of (json.is_text name) _ b))
        | inr b ↦ absurd (false≢true (ap is_some (rw b at (e))))
      ]

  -- A login with a name and a password that are UTF-8, so that `login` does not throw, between a client and
  -- a server that waits for a descriptor of it, over a connection that is live and on which nothing is under way, with a header below 2 ^ 32 bytes and a reply of at most
  -- 1004. In whatever pieces the bytes come on either side: the server reads one login, sends the
  -- packets of one reply and has the name online, with any password; and the client, which reads
  -- those packets, has a status of 1 and the name if the server's table held the name with this
  -- password before, else a status of -1.
  pub login_round_trip :
      (laws : IsJson json) (peer : ℕ → Peer) (fd : ℕ) (name password : Bytes)
      (s : Server json.Value) (c : ClientSocket) (stores : DataStores) (sending : List Bytes)
      (to_server to_client : List Bytes)
      → login json name password ≡ some sending
      → length (dump (login_fields json name password)) < 4294967296
      → IsAt fd wait_for_header_descriptor 4 [] s
      → peer fd ≡ live
      → s.packet_id < 4294967296
      → c.link ≡ record { recv_buffer = []; data_stores = stores }
      → length (reply_of peer name password s) ≤ 1004
      → store_of s.packet_id (length (reply_of peer name password s)) stores
        ≡ record { json_size = length (reply_of peer name password s); parts = [] }
      → concat to_server ≡ concat sending
      → concat to_client ≡ concat (queue_send s.packet_id (reply_of peer name password s) [])
      → (t : Server json.Value) × ((handle_epoll_event json peer fd to_server s ≡ armed t)
          × ((t.sent
                ≡ s.sent
                  ++ map (to_fd fd) (queue_send s.packet_id (reply_of peer name password s) []))
              × ((is_user_online json.Value name t ≡ true)
                  × ((d : ClientSocket) × ((receive_all json to_client c ≡ some d)
                        × (d.account
                            ≡ answered
                                (check_user_password json.Value name password s)
                                name
                                c.account))))))
  unfolding login is_user_online
  login_round_trip laws peer fd name password s c stores sending to_server to_client logs_in short
        at l id_in idle few fresh sent came =
      let fields = login_fields json name password in
      let v = laws.back fields in
      let ok = check_user_password json.Value name password s in
      let reply = reply_of peer name password s in
      let can = login_sends name password sending logs_in in
      let (u, (ran, kept)) =
        login_read json peer fd v (dump fields) name password to_server s
          (laws.some_bytes fields can.1.0) short (laws.parse_dump fields can.1.0)
          (laws.number_back size_key 0 fields (omega arith) refl)
          (laws.number_back used_to_key 0 fields (omega arith) refl)
          (laws.text_back user_name_key name fields refl)
          (laws.text_back password_key password fields refl) at (sent ∙ ap concat (sym can.0)) in
      let checked = check-same name password s u kept.users in
      let link = Packets.receive_all c.link to_client in
      let some_byte : 0 < length reply = laws.some_bytes _ (reply-can_dump laws ok name can.1.1) in
      let out =
        ap (λ x. (Packets.receive_all x to_client).1) idle
        ∙ queue_send_round_trip s.packet_id reply [] id_in (omega (arith, few)) stores to_client
            (omega (arith, some_byte)) (omega (arith, few)) fresh came in
      (
        reset json peer fd (Events.login json peer fd name password [] u),
        (
          ran,
          (
            login_answers json peer fd name password [] u
                  (ap (λ f. f fd) kept.connections ∙ at.connected) l
                ∙ (λ i.
                    kept.packets i
                    ++ map (to_fd fd) (
                        queue_send (kept.counter i)
                          (login_reply json peer (status_text (checked i)) name) [])),
            (
              (login_takes_over json peer fd name password [] u).0,
              (
                record c { link = link.0; account = answered ok name c.account },
                (
                  receive_all-handle_all to_client c
                      ∙ ap (with_link json link.0 c) (
                          replied link.1 _ c.account (answered ok name c.account) out
                            (reply_handled laws peer ok name c.account can.1.1)),
                  refl,
                ),
              ),
            ),
          ),
        ),
      )
