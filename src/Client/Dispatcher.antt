-- ===== src/Client/Dispatcher.antt =====
-- projects/Client/src/Dispatcher/ClientDispatcher.cpp: what the client does with a message, `j` its
-- json object and `bytes` what follows the json text. What is only printed changes nothing.
use ix_library.Base.{[], if◌then◌else◌, same, utf8}
use ix_library.Wire.{Bytes}
use ix_library.Json.{Json}
use ix_library.Actions.{Done, ◌>>=◌, ◌>>◌, return, need, when}
use ix_library.Client.{
  Call, emit, login_callback, recv_chat_list_callback, end_ping_callback, recv_chat_his_callback,
  disconnect, set_chat_room_list, login_success, handle_chat,
}

pub data ActionName : Type 0 where
  login chat feedback recv_chat_his rooms_receive chat_his_from_server disconnected ping other :
      ActionName

-- The comparisons of `handle_data`, in their order.
unfoldable pub action_name : Bytes → ActionName
action_name a =
    if same a (utf8 "login")
    then login
    else if same a (utf8 "chat")
    then chat
    else if same a (utf8 "feedback")
    then feedback
    else if same a (utf8 "recv_chat_his")
    then recv_chat_his
    else if same a (utf8 "rooms_receive")
    then rooms_receive
    else if same a (utf8 "request_chat_his_from_server")
    then chat_his_from_server
    else if same a (utf8 "disconnect")
    then disconnected
    else if same a (utf8 "ping")
    then ping
    else other

module _ (json : Json) where
  open json use {Object, get, as_text, as_flag, table_or, number_or_negative}

  unfoldable pub handle_login : Object → Call Done
  unfolding login_success
  handle_login j = do
    confirm ← need (as_flag (get "confirm" j))
    when confirm (login_success json j)
    emit login_callback

  unfoldable pub by_name : ActionName → Object → Bytes → Call Done
  unfolding handle_login handle_chat set_chat_room_list disconnect
  by_name login j bytes = handle_login j
  by_name chat j bytes = handle_chat json j
  by_name feedback j bytes = return tt
  by_name recv_chat_his j bytes = emit (recv_chat_his_callback bytes)
  by_name rooms_receive j bytes = do
    rooms ← need (table_or "room_names" [] j)
    set_chat_room_list rooms
    emit recv_chat_list_callback
  by_name chat_his_from_server j bytes = emit (recv_chat_his_callback bytes)
  by_name disconnected j bytes = disconnect
  by_name ping j bytes = do
    start ← need (number_or_negative "start" j)
    emit (end_ping_callback start)
  by_name other j bytes = return tt

  unfoldable pub handle_data : Object → Bytes → Call Done
  unfolding action_name by_name
  handle_data j bytes = do by_name (action_name (← need (as_text (get "action" j)))) j bytes
