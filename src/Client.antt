-- ===== src/Client.antt =====
-- The chat client, projects/Client/src/client/client.cpp, and what it packs into messages,
-- projects/Client/src/utility/JsonInterpreter/JsonInterpreter.cpp.
pub mod Dispatcher
pub mod Links
pub mod Sending
pub mod Received
pub mod Replies
use ix_library.Base.{
  ℕ, ◌+◌, Bool, true, false, Option, none, some, List, [], ◌∷◌, ◌++◌, length, ◌==◌, if◌then◌else◌,
  utf8,
}
use ix_library.Wire.{Bytes}
use ix_library.Transmit.{send_to}
use ix_library.Json.{Json}
use ix_library.Actions.{Action, Done, ◌>>=◌, ◌>>◌, return, crash, gets, change, need, when}

pub record LocalUserInfo : Type 0 where
  pub nickname : Bytes
  pub username : Bytes
  pub password : Bytes
  pub is_logined : Bool
  pub cur_id : ℕ

-- What `sessions` holds for a number; `null` is the pointer that `operator[]` adds.
pub data Link : Type 0 where
  absent null live : Link

-- What leaves the client: fragments given to its session, and calls of the `on_…_callback`s.
pub data Event : Type 0 where
  sends : List Bytes → Event
  connect_callback login_callback recv_chat_list_callback : Event
  end_ping_callback : Option ℕ → Event
  recv_chat_his_callback : Bytes → Event

pub record Client : Type 0 where
  pub id_increment : ℕ
  pub sessions : ℕ → Link
  pub is_connected : Bool
  pub local_user_info : LocalUserInfo
  pub chat_lists : List (List Bytes)
  pub events : List Event

abbrev pub link_at : ℕ → Link → (ℕ → Link) → ℕ → Link
link_at k v f i = if i == k then v else f i

abbrev pub Call : Type 0 → Type 0
Call A = Action Client A

abbrev pub emit : Event → Call Done
emit e = change (λ s. record s { events = s.events ++ (e ∷ []) })

abbrev pub no_user : ℕ → LocalUserInfo
no_user cur = record {
  nickname = [];
  username = [];
  password = [];
  is_logined = false;
  cur_id = cur;
}

-- `init_local_user_info` leaves `cur_id`.
unfoldable pub init_local_user_info : Call Done
init_local_user_info = change (λ s. record s { local_user_info = no_user s.local_user_info.cur_id })

-- The constructor, with the number that `cur_id` happens to hold.
abbrev pub started : ℕ → Client
started cur = record {
  id_increment = 0;
  sessions = λ i. absent;
  is_connected = false;
  local_user_info = no_user cur;
  chat_lists = [];
  events = [];
}

-- `get_id_increment` of tcp_service.
abbrev pub get_id_increment : Call ℕ
get_id_increment = do
  id ← gets (λ s. s.id_increment)
  change (λ s. record s { id_increment = s.id_increment + 1 })
  return id

-- `emplace`, which leaves what is there.
abbrev pub placed : Link → Link
placed absent = live
placed null = null
placed live = live

-- The calls through `sessions[cur_id]`.
abbrev pub through_link : Link → ℕ → Call Done → Call Done
through_link absent cur m = λ s. crash (record s { sessions = link_at cur null s.sessions })
through_link null cur m = crash
through_link live cur m = m

abbrev pub through : ℕ → Call Done → Call Done
through cur m s = through_link (s.sessions cur) cur m s

-- The handler of `async_connect`, its argument whether there was no error.
unfoldable pub connected : Bool → Call Done
connected false = emit connect_callback
connected true = do
  cur ← get_id_increment
  change (λ s. record s { local_user_info = record (s.local_user_info) { cur_id = cur } })
  change (λ s. record s { sessions = link_at cur (placed (s.sessions cur)) s.sessions })
  through cur (return tt)
  change (λ s. record s { is_connected = true })
  emit connect_callback

-- `send_to`: at least one round of its loop sends.
unfoldable pub post : ℕ → Bytes → Call Done
post json_size msg = do
  id ← get_id_increment
  cur ← gets (λ s. s.local_user_info.cur_id)
  through cur (emit (sends (send_to id json_size msg)))

unfoldable pub disconnect : Call Done
disconnect = do
  change (λ s. record s {
    is_connected = false;
    sessions = link_at s.local_user_info.cur_id absent s.sessions;
  })
  emit connect_callback

-- The loop prints the first two texts of each room; a shorter one is read past its end.
unfoldable pub print_rooms : List (List Bytes) → Call Done
print_rooms [] = return tt
print_rooms ([] ∷ more) = crash
print_rooms ((t ∷ []) ∷ more) = crash
print_rooms ((t ∷ u ∷ ts) ∷ more) = print_rooms more

unfoldable pub set_chat_room_list : List (List Bytes) → Call Done
unfolding print_rooms
set_chat_room_list rooms = do change (λ s. record s { chat_lists = rooms }); print_rooms rooms

abbrev pub is_empty : Bytes → Bool
is_empty [] = true
is_empty (b ∷ bs) = false

module _ (json : Json) where
  open json use {
    Value, Object, empty, of_text, of_number, of_flag, get, put, as_text, text_or, dump,
  }

  -- The size of the json text, and the message; a null context adds nothing.
  unfoldable pub packaging : Object → Option Bytes → ℕ × Bytes
  packaging j none = (length (dump j), dump j)
  packaging j (some context) = (length (dump j), dump j ++ context)

  abbrev pub login_request : Bytes → Bytes → Bytes → Object
  login_request username password time = put "confirm" (of_flag false) (
      put "time" (of_text time) (
        put "nickname" (of_text []) (
          put "password" (of_text password)
            (put "username" (of_text username) (put "action" (of_text (utf8 "login")) empty)))))

  unfoldable pub packaging_login : Bytes → Bytes → Bytes → Option (ℕ × Bytes)
  packaging_login username password time =
      if is_empty username
      then none
      else if is_empty password
      then none
      else some (
        length (dump (login_request username password time)),
        dump (login_request username password time),
      )

  unfoldable pub packaging_recv_chat_his : Bytes → Option (ℕ × Bytes)
  packaging_recv_chat_his room_name =
      let j = put "action" (of_text (utf8 "recv_chat_his")) empty in
      if is_empty room_name then none else some (length (dump j), dump j)

  abbrev pub post_pair : ℕ × Bytes → Call Done
  post_pair (size, msg) = post size msg

  -- `now` is what the clock says, in milliseconds.
  unfoldable pub ping : ℕ → Call Done
  unfolding post
  ping now =
      let j = put "start" (of_number now) (put "action" (of_text (utf8 "ping")) empty) in
      post (length (dump j)) (dump j)

  abbrev pub log_out_of : Bytes → Object
  log_out_of username =
      put "username" (of_text username) (put "action" (of_text (utf8 "log_out")) empty)

  unfoldable pub log_out : Call Done
  unfolding init_local_user_info packaging post
  log_out s =
      let post_it =
        when s.is_connected (post_pair (packaging (log_out_of s.local_user_info.username) none)) in
      when s.local_user_info.is_logined (post_it >> init_local_user_info) s

  unfoldable pub request_chat_his : Bytes → Call Done
  unfolding packaging post
  request_chat_his name = post_pair (
      packaging
        (put "request_name" (of_text name)
          (put "action" (of_text (utf8 "request_chat_his_from_client")) empty))
        none)

  unfoldable pub login_success : Object → Call Done
  login_success j = do
    nickname ← need (as_text (get "nickname" j))
    change (λ s. record s { local_user_info = record (s.local_user_info) { nickname = nickname } })
    username ← need (as_text (get "username" j))
    change (λ s. record s { local_user_info = record (s.local_user_info) { username = username } })
    change (λ s. record s { local_user_info = record (s.local_user_info) { is_logined = true } })

  -- It prints the sender and the message.
  unfoldable pub handle_chat : Object → Call Done
  handle_chat j = do sender ← need (text_or "from" (utf8 "unknown") j); return tt
