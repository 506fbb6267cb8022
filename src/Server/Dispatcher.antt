-- ===== src/Server/Dispatcher.antt =====
-- projects/Server/src/Dispatcher/ServerDispatcher.cpp: what the server does with a message, `j` its json
-- object with the sender's number under "from_id", `bytes` what follows the json text.
use ix_library.Base.{
  ℕ, true, none, some, List, [], ◌∷◌, ◌++◌, length, if◌then◌else◌, same, utf8, String,
}
use ix_library.Wire.{Bytes}
use ix_library.Json.{Json}
use ix_library.Actions.{Done, ◌>>=◌, ◌>>◌, return, gets, need, attempt}
use ix_library.Server.{
  Database, user_log, room_message, object, plain, quoted, Call, emit, query, execute,
  verify_user_info, is_online, get_id, user_login, delete_user, transmit_message,
  handle_user_log_out, uploading_message, sign_in_user,
}

pub data ActionName : Type 0 where
  login disconnect chat chat_to_room log_out request_chat_his sign_in other : ActionName

-- The comparisons of `handle_data`, in their order.
unfoldable pub action_name : Bytes → ActionName
action_name a =
    if same a (utf8 "login")
    then login
    else if same a (utf8 "disconnect")
    then disconnect
    else if same a (utf8 "chat")
    then chat
    else if same a (utf8 "chat_to_room")
    then chat_to_room
    else if same a (utf8 "log_out")
    then log_out
    else if same a (utf8 "request_chat_his_from_client")
    then request_chat_his
    else if same a (utf8 "sign_in")
    then sign_in
    else other

module _ (json : Json) (database : Database) where
  open json use {
    Value, Object, empty, of_text, of_number, of_flag, of_table, get, put, erase, as_text,
    as_number, text_or, dump,
  }

  abbrev text_at : String → Object → Call json database Bytes
  text_at k j = need (as_text (get k j))

  -- The answer goes back under "to_id" to the number that stood under "from_id".
  abbrev pub returned : ℕ → Object → Object
  returned to j = put "to_id" (of_number to) (erase "from_id" j)

  abbrev pub room_info : ℕ → List (List Bytes) → Object
  room_info to rooms =
      put "room_names" (of_table rooms)
        (put "to_id" (of_number to) (put "action" (of_text (utf8 "rooms_receive")) empty))

  -- The answer to a login that succeeded.
  abbrev pub confirmed : Bytes → Object → Object
  confirmed nickname j = put "confirm" (of_flag true) (put "nickname" (of_text nickname) j)

  unfoldable pub handle_confirmed : ℕ → Bytes → Object → Call json database Done
  unfolding user_login execute transmit_message
  handle_confirmed to username j = do
    name ← need (text_or "username" (utf8 "error") j)
    password ← need (text_or "password" (utf8 "error") j)
    nickname ← need (text_or "nickname" (utf8 "unknown") j)
    user_login json database to name password nickname
    execute json database
        (utf8 "update users set status = 'ONLINE' where username = " ++ quoted username)
    rooms ← gets (λ s. s.chat_room_list)
    transmit_message json database (object (room_info to rooms)) []
    emit json database (user_log username)

  unfoldable pub handle_login : Object → Call json database Done
  unfolding verify_user_info handle_confirmed transmit_message
  handle_login j = do
    to ← need (as_number (get "from_id" j))
    username ← text_at "username" (returned to j)
    password ← text_at "password" (returned to j)
    nickname ← verify_user_info json database username password
    elim nickname [
      | none ↦ transmit_message json database (object (returned to j)) []
      | some n ↦ do
        handle_confirmed to username (confirmed n (returned to j))
        transmit_message json database (object (confirmed n (returned to j))) []
    ]

  unfoldable pub handle_disconnect : Object → Call json database Done
  unfolding delete_user execute
  handle_disconnect j = do
    id ← need (as_number (get "id" j))
    delete_user json database id
    username ← text_at "username" j
    attempt (
        execute json database
          (utf8 "update users set status = 'OFFLINE' where username = " ++ quoted username))

  abbrev pub feedback : Value → Object
  feedback to = put "condition" (of_text (utf8 "success")) (
      put "to_id" to
        (put "from" (of_text (utf8 "server")) (put "action" (of_text (utf8 "feedback")) empty)))

  abbrev pub failed : Bytes → Object → Object
  failed error f = put "error" (of_text error) (put "condition" (of_text (utf8 "failed")) f)

  unfoldable pub handle_chat : Object → Bytes → Call json database Done
  unfolding get_id is_online transmit_message
  handle_chat j bytes = do
    target ← text_at "to" j
    target_id ← get_id json database target
    answer ← elim target_id [
      | none ↦ return (failed (utf8 "未知对象") (feedback (get "from_id" j)))
      | some id ↦ do
        online ← is_online json database target
        if online
            then (attempt
                  (transmit_message json database (object (put "to_id" (of_number id) j)) bytes)
                >> return (feedback (get "from_id" j)))
            else return (failed (utf8 "对方未上线") (feedback (get "from_id" j)))
    ]
    transmit_message json database (object answer) []

  -- The answer to a message for a room. Its members are put in the order of the initializer list.
  abbrev pub room_feedback : Value → Object
  room_feedback to = put "condition" (of_text (utf8 "success")) (
      put "to_id" to
        (put "from" (of_text (utf8 "server")) (put "action" (of_text (utf8 "feedback")) empty)))

  unfoldable pub handle_chat_to_room : Object → Bytes → Call json database Done
  unfolding query transmit_message uploading_message
  handle_chat_to_room j bytes = do
    room ← text_at "roomName" j
    rows ← query json database (utf8 "select * from chatRoomList where roomName = " ++ quoted room)
    elim rows [
      | [] ↦ return tt
      | row ∷ more ↦ do
        transmit_message json database (object (room_feedback (get "from_id" j))) []
        uploading_message json database j bytes
        emit json database room_message
    ]

  unfoldable pub handle_log_out : Object → Call json database Done
  unfolding handle_user_log_out
  handle_log_out j = do handle_user_log_out json database (← text_at "username" j)

  -- The history of a room as one text.
  unfoldable pub history : List (Bytes → Bytes) → Bytes
  history [] = []
  history (row ∷ rows) =
      (utf8 "\n["
        ++ (row (utf8 "timestamp")
            ++ (utf8 "]\n"
                ++ (row (utf8 "sender") ++ (utf8 " 说：" ++ (row (utf8 "message") ++ utf8 "\n"))))))
      ++ history rows

  unfoldable pub handle_request_chat_his : Object → Call json database Done
  unfolding query transmit_message history
  handle_request_chat_his j = do
    let asked = put "action" (of_text (utf8 "request_chat_his_from_server")) j
    to ← need (as_number (get "from_id" asked))
    room ← text_at "request_name" (returned to asked)
    rows ← query json database (utf8 "select * from chatMessage where roomName = " ++ quoted room)
    transmit_message json database (object (returned to asked)) (history rows)

  -- The feedback is packed before it is transmitted, so what `transmitMessage` is given is the size of
  -- its text.
  unfoldable pub handle_sign_in : Object → Call json database Done
  unfolding sign_in_user transmit_message
  handle_sign_in j = do
    username ← text_at "username" j
    password ← text_at "password" j
    email ← text_at "email" j
    nickname ← need (text_or "nickname" [] j)
    sign_in_user json database username password email nickname
    let feedback_text =
        dump (put "confirm" (of_flag true) (put "action" (of_text (utf8 "sign_in")) empty))
    transmit_message json database (plain (length feedback_text)) feedback_text

  unfoldable pub by_name : ActionName → Object → Bytes → Call json database Done
  unfolding handle_login handle_disconnect handle_chat handle_chat_to_room handle_log_out
      handle_request_chat_his handle_sign_in
  by_name login j bytes = handle_login j
  by_name disconnect j bytes = handle_disconnect j
  by_name chat j bytes = handle_chat j bytes
  by_name chat_to_room j bytes = handle_chat_to_room j bytes
  by_name log_out j bytes = handle_log_out j
  by_name request_chat_his j bytes = handle_request_chat_his j
  by_name sign_in j bytes = handle_sign_in j
  by_name other j bytes = return tt

  unfoldable pub handle_data : Object → Bytes → Call json database Done
  unfolding action_name by_name
  handle_data j bytes = do by_name (action_name (← text_at "action" j)) j bytes
