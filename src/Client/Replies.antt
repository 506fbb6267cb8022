-- ===== src/Client/Replies.antt =====
-- The client and the server together: what a login that the server accepts does to the client.
use ix_library.Base.{
  String, ℕ, ◌+◌, ◌≡◌, refl, ap, ◌∙◌, true, false, some, List, [], ◌∷◌, ◌++◌, map, eq→==, utf8,
}
use text.Mathlib.Text.{◌==◌}
use ix_library.Wire.{Bytes}
use ix_library.Transmit.{transmit}
use ix_library.Session.{receive_all, run_job}
use ix_library.Session.Stream.{Message, AllShort, concat, stream, start, stream_round_trip}
use ix_library.Session.Deliveries.{deliver_all}
use ix_library.Json.{Json, IsJson}
use ix_library.Actions.{ok, then_ok}
use ix_library.Server
use ix_library.Server.{Database, written}
use ix_library.Server.Dispatcher
use ix_library.Server.Dispatcher.{returned, room_info, confirmed}
use ix_library.Server.Answers.{returned_same, confirmed_same, confirmed_nickname}
use ix_library.Server.Logins.{login_accepted}
use ix_library.Client.{Client}
use ix_library.Client.Dispatcher.{handle_data}
use ix_library.Client.Received.{
  AllWide, roomed, rooms_receive-roomed, logined, login-logined, deliver-parsed,
}

module _ (json : Json) where
  open json use {
    Object, get, put, erase, has, as_text, as_flag, table_or, of_number, of_text, of_flag, of_table,
    dump, parse,
  }

  module _ (database : Database) (laws : IsJson json) where
    -- The two objects that an accepted login is answered with.
    abbrev pub rooms_sent : ℕ → List (List Bytes) → Object
    rooms_sent to rooms = erase "to_id" (room_info json database to rooms)

    abbrev pub reply_sent : ℕ → Bytes → Object → Object
    reply_sent to n j = erase "to_id" (confirmed json database n (returned json database to j))

    rooms_sent_from :
        (to : ℕ) (rooms : List (List Bytes)) → has "from_id" (rooms_sent to rooms) ≡ false
    rooms_sent_from to rooms =
        laws.has_erase_ne "from_id" "to_id" _ refl
        ∙ laws.has_put_ne "from_id" "room_names" _ _ refl
        ∙ laws.has_put_ne "from_id" "to_id" _ _ refl
        ∙ laws.has_put_ne "from_id" "action" _ _ refl
        ∙ laws.has_empty "from_id"

    reply_sent_from : (to : ℕ) (n : Bytes) (j : Object) → has "from_id" (reply_sent to n j) ≡ false
    reply_sent_from to n j =
        laws.has_erase_ne "from_id" "to_id" _ refl
        ∙ laws.has_put_ne "from_id" "confirm" _ _ refl
        ∙ laws.has_put_ne "from_id" "nickname" _ _ refl
        ∙ laws.has_put_ne "from_id" "to_id" _ _ refl
        ∙ laws.has_erase "from_id" j

    rooms_sent-roomed :
        (id to : ℕ) (rooms : List (List Bytes)) (c : Client)
        → AllWide rooms
        → handle_data json (put "from_id" (of_number id) (rooms_sent to rooms)) [] c
          ≡ (ok tt, roomed json rooms c)
    rooms_sent-roomed id to rooms c w =
        rooms_receive-roomed json _ rooms [] c
          (ap as_text (
              laws.get_put_ne "action" "from_id" _ _ refl
              ∙ laws.get_erase_ne "action" "to_id" _ refl
              ∙ laws.get_put_ne "action" "room_names" _ _ refl
              ∙ laws.get_put_ne "action" "to_id" _ _ refl
              ∙ laws.get_put "action" _ _)
            ∙ laws.text_back (utf8 "rooms_receive"))
          (laws.table_or_has "room_names" [] _ (
              laws.has_put_ne "room_names" "from_id" _ _ refl
              ∙ laws.has_erase_ne "room_names" "to_id" _ refl
              ∙ laws.has_put "room_names" _ _)
            ∙ ap json.as_table (
                laws.get_put_ne "room_names" "from_id" _ _ refl
                ∙ laws.get_erase_ne "room_names" "to_id" _ refl
                ∙ laws.get_put "room_names" _ _)
            ∙ laws.table_back rooms)
          w

    reply_sent-get :
        (k : String) (id to : ℕ) (n : Bytes) (j : Object)
        → (k == "from_id") ≡ false
        → (k == "to_id") ≡ false
        → get k (put "from_id" (of_number id) (reply_sent to n j))
          ≡ get k (confirmed json database n (returned json database to j))
    reply_sent-get k id to n j a b =
        laws.get_put_ne k "from_id" _ _ a ∙ laws.get_erase_ne k "to_id" _ b

    reply_sent-logined :
        (id to : ℕ) (u n : Bytes) (j : Object) (c : Client)
        → as_text (get "action" j) ≡ some (utf8 "login")
        → as_text (get "username" j) ≡ some u
        → handle_data json (put "from_id" (of_number id) (reply_sent to n j)) [] c
          ≡ (ok tt, logined json u n c)
    reply_sent-logined id to u n j c a b =
        login-logined json _ u n [] c
          (ap as_text (
              reply_sent-get "action" id to n j refl refl
              ∙ confirmed_same json database laws "action" n _ refl refl
              ∙ returned_same json database laws "action" to j refl refl)
            ∙ a)
          (ap as_flag (reply_sent-get "confirm" id to n j refl refl ∙ laws.get_put "confirm" _ _)
            ∙ laws.flag_back true)
          (ap as_text (reply_sent-get "nickname" id to n j refl refl)
            ∙ confirmed_nickname json database laws n _)
          (ap as_text (
              reply_sent-get "username" id to n j refl refl
              ∙ confirmed_same json database laws "username" n _ refl refl
              ∙ returned_same json database laws "username" to j refl refl)
            ∙ b)

    -- The two answers as `transmitMessage` is given them.
    abbrev pub answers : ℕ → Bytes → Object → Server.Server database.Store → List Message
    answers to n j s =
        record { id = s.id_increment; text = dump (rooms_sent to s.chat_room_list); context = [] }
        ∷ record { id = s.id_increment + 1; text = dump (reply_sent to n j); context = [] }
        ∷ []

    written_answers :
        (to : ℕ) (u : Bytes) (a b : List Bytes)
        → written to (Server.sends to a ∷ Server.user_log u ∷ Server.sends to b ∷ [])
          ≡ concat a ++ (concat b ++ [])
    unfolding written
    written_answers to u a b = rw (eq→== to to refl) refl

    written_from :
        (to : ℕ) (u : Bytes) (a b : List Bytes) (before es : List Server.Event)
        → es ≡ before ++ (Server.sends to a ∷ Server.user_log u ∷ Server.sends to b ∷ [])
        → before ≡ []
        → written to es ≡ concat a ++ (concat b ++ [])
    written_from to u a b before es e none_before =
        ap (written to) (
          e
          ∙ ap (λ xs. xs ++ (Server.sends to a ∷ Server.user_log u ∷ Server.sends to b ∷ []))
              none_before)
        ∙ written_answers to u a b

    -- A login whose name and password a row holds together reaches a server that has sent nothing yet,
    -- by a session that is there, and its status is stored; the two answers are short, their texts are
    -- parsed to the objects that were dumped, and each room has two texts or more. Then, whatever pieces
    -- the bytes of the answers come in, a client that reads them with a new session takes over the
    -- rooms, is logged in under the name and with the nickname of the row, and calls its two callbacks.
    pub login_reaches_client :
        (to : ℕ) (u p n bytes : Bytes) (rows : List (Bytes → Bytes)) (d : database.Store)
        (info : Server.UserInfo) (j : Object) (s : Server.Server database.Store) (id : ℕ)
        (cs : List Bytes) (c : Client)
        → as_text (get "action" j) ≡ some (utf8 "login")
        → json.as_number (get "from_id" j) ≡ some to
        → as_text (get "username" j) ≡ some u
        → as_text (get "password" j) ≡ some p
        → database.query (utf8 "Select username , password ,nickname from local_user_info") s.store
          ≡ some rows
        → Server.find_user json database u p rows ≡ some n
        → database.execute
            (utf8 "update users set status = 'ONLINE' where username = " ++ Server.quoted u)
            s.store
          ≡ some d
        → s.sessions to ≡ Server.held info
        → s.events ≡ []
        → AllWide s.chat_room_list
        → AllShort (answers to n j s)
        → parse (dump (rooms_sent to s.chat_room_list)) ≡ some (rooms_sent to s.chat_room_list)
        → parse (dump (reply_sent to n j)) ≡ some (reply_sent to n j)
        → concat cs ≡ written to (Server.Dispatcher.handle_data json database j bytes s).1.events
        → deliver_all json id (handle_data json) (map run_job (receive_all start cs).jobs) c
          ≡ (ok tt, logined json u n (roomed json s.chat_room_list c))
    unfolding deliver_all
    login_reaches_client to u p n bytes rows d info j s id cs c a f nm w q r e h none_before wide
          short pr pc pieces =
        let accepted =
          login_accepted json database laws to u p n bytes rows d info j s a f nm w q r e h in
        let all : concat cs ≡ stream (answers to n j s) =
          pieces
          ∙ written_from to u (transmit s.id_increment (dump (rooms_sent to s.chat_room_list)) [])
              (transmit (s.id_increment + 1) (dump (reply_sent to n j)) []) s.events _
              accepted.1.answers none_before in
        rw ((stream_round_trip (answers to n j s) cs short all).0) (
          then_ok _ _
            (deliver-parsed json id (rooms_sent to s.chat_room_list) [] c laws pr
              (rooms_sent_from to s.chat_room_list)
              (rooms_sent-roomed id to s.chat_room_list c wide))
            (then_ok _ _
              (deliver-parsed json id (reply_sent to n j) [] (roomed json s.chat_room_list c) laws
                pc (reply_sent_from to n j) (reply_sent-logined id to u n j _ a nm))
              refl))
