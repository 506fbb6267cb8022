-- ===== src/Server.antt =====
-- The chat server, projects/Server/src/server/server.cpp: its sessions, its table of users and its
-- database, and the operations that the dispatcher calls. The driver of the database is outside the
-- repository: a query is the text that the code builds, and its rows are functions of a column.
pub mod Dispatcher
pub mod Sending
pub mod SigningIn
pub mod Answers
pub mod Logins
pub mod Leaving
pub mod Chats
use ix_library.Base.{
  ℕ, ◌+◌, Bool, true, false, ◌&&◌, ◌||◌, Option, none, some, List, [], ◌∷◌, ◌++◌, ◌==◌,
  if◌then◌else◌, same, utf8,
}
use ix_library.Wire.{Bytes}
use ix_library.Transmit.{transmit}
use ix_library.Session.Stream.{concat}
use ix_library.Json.{Json}
use ix_library.Actions.{Action, Done, ◌>>=◌, ◌>>◌, return, throw, crash, gets, change, need}

-- `none` is the exception of the driver.
pub record Database : Type 1 where
  pub Store : Type 0
  pub query : Bytes → Store → Option (List (Bytes → Bytes))
  pub execute : Bytes → Store → Option Store

-- `userInfo` of Session.h.
pub record UserInfo : Type 0 where
  pub id : ℕ
  pub username : Bytes
  pub password : Bytes
  pub nickname : Option Bytes
  pub is_online : Bool

-- What `sessions` holds for a number: nothing, the null pointer that `operator[]` adds, or a session
-- with its `info`.
pub data Slot : Type 0 where
  absent null : Slot
  held : UserInfo → Slot

-- What leaves the server: fragments given to a session's `send`, and calls of the two callbacks.
pub data Event : Type 0 where
  sends : ℕ → List Bytes → Event
  user_log : Bytes → Event
  room_message : Event

pub record Server (Store : Type 0) : Type 0 where
  pub id_increment : ℕ
  pub sessions : ℕ → Slot
  pub local_user_table : Bytes → Option UserInfo
  pub chat_room_list : List (List Bytes)
  pub store : Store
  pub events : List Event

-- The bytes that a server wrote to the session `to`.
unfoldable pub written : ℕ → List Event → Bytes
written to [] = []
written to (sends i packets ∷ es) =
    let rest = written to es in if i == to then concat packets ++ rest else rest
written to (user_log name ∷ es) = written to es
written to (room_message ∷ es) = written to es

-- The value that `operator[]` makes for a missing name.
abbrev pub no_info : UserInfo
no_info = record { id = 0; username = []; password = []; nickname = none; is_online = false }

abbrev pub at_name : {A : Type 0} → Bytes → A → (Bytes → A) → Bytes → A
at_name k v f j = if same j k then v else f j

abbrev pub at_id : {A : Type 0} → ℕ → A → (ℕ → A) → ℕ → A
at_id k v f j = if j == k then v else f j

-- A text as it stands in a statement.
abbrev pub quoted : Bytes → Bytes
quoted b = utf8 "'" ++ (b ++ utf8 "'")

module _ (json : Json) (database : Database) where
  open json use {
    Value, Object, empty, of_text, of_number, of_flag, get, put, erase, as_text, as_number, dump,
  }
  open database use {Store}

  abbrev pub Call : Type 0 → Type 0
  Call A = Action (Server Store) A

  abbrev pub emit : Event → Call Done
  emit e = change (λ s. record s { events = s.events ++ (e ∷ []) })

  -- `Query` and `Execute`, which use the connection that the server keeps.
  unfoldable pub query : Bytes → Call (List (Bytes → Bytes))
  query q s = need (database.query q s.store) s

  unfoldable pub execute : Bytes → Call Done
  execute q s = elim (database.execute q s.store) [
    | none ↦ (throw s)
    | some d ↦ change (λ t. record t { store = d }) s
  ]

  -- The accept handler, for a connection that was made: `emplace` a session, whose `info` is given its
  -- number. It leaves what stands there already.
  unfoldable pub accept : Call Done
  accept s =
      let t = record s { id_increment = s.id_increment + 1 } in
      elim (s.sessions s.id_increment) [
        | absent ↦
            (return tt (record t {
              sessions =
                  at_id s.id_increment (held (record no_info { id = s.id_increment })) s.sessions;
            }))
        | null ↦ (crash t)
        | held info ↦ (return tt t)
      ]

  -- The rows of local_user_info.
  unfoldable pub find_user : Bytes → Bytes → List (Bytes → Bytes) → Option Bytes
  find_user username password [] = none
  find_user username password (row ∷ rows) =
      let rest = find_user username password rows in
      if same (row (utf8 "username")) username && same (row (utf8 "password")) password
      then some (row (utf8 "nickname"))
      else rest

  unfoldable pub verify_user_info : Bytes → Bytes → Call (Option Bytes)
  unfolding query find_user
  verify_user_info username password = do
    rows ← query (utf8 "Select username , password ,nickname from local_user_info")
    return (find_user username password rows)

  -- `operator[]` of a missing name adds it.
  unfoldable pub is_online : Bytes → Call Bool
  is_online target s = elim (s.local_user_table target) [
    | none ↦
        (return false
          (record s { local_user_table = at_name target (some no_info) s.local_user_table }))
    | some u ↦ (return u.is_online s)
  ]

  unfoldable pub get_id : Bytes → Call (Option ℕ)
  get_id target s = elim (s.local_user_table target) [
    | none ↦ return none s
    | some u ↦ return (some u.id) s
  ]

  abbrev pub info_of : Bytes → Server Store → UserInfo
  info_of name s = elim (s.local_user_table name) [ none ↦ no_info | some u ↦ u ]

  -- `Session::update_info`, through `sessions[id]`.
  unfoldable pub update_info : ℕ → Bytes → Bytes → Bytes → Call Done
  update_info id username password nickname s = elim (s.sessions id) [
    | absent ↦ (crash (record s { sessions = at_id id null s.sessions }))
    | null ↦ (crash s)
    | held info ↦
        (return tt (record s {
          sessions =
              at_id id
                (held (record {
                  id = id;
                  username = username;
                  password = password;
                  nickname = some nickname;
                  is_online = true;
                }))
                s.sessions;
        }))
  ]

  unfoldable pub user_login : ℕ → Bytes → Bytes → Bytes → Call Done
  unfolding update_info
  user_login id username password nickname = do
    change (λ s. record s {
      local_user_table =
          at_name username (some (record (info_of username s) { is_online = true; id = id }))
            s.local_user_table;
    })
    update_info id username password nickname

  unfoldable pub delete_user : ℕ → Call Done
  delete_user id = change (λ s. record s { sessions = at_id id absent s.sessions })

  -- What `transmitMessage` is given: an object, or the json number that a `size_t` turns into, on
  -- which `operator[]` throws.
  pub data Message : Type 0 where
    object : Object → Message
    plain : ℕ → Message

  -- The last step of each round, `sessions[to_session_id]->send(message)`. There is at least one round,
  -- for a message below 2 ^ 44 bytes.
  unfoldable pub send_all : ℕ → List Bytes → Call Done
  send_all to packets s = elim (s.sessions to) [
    | absent ↦ (crash (record s { sessions = at_id to null s.sessions }))
    | null ↦ (crash s)
    | held info ↦ (emit (sends to packets) s)
  ]

  unfoldable pub transmit_message : Message → Bytes → Call Done
  unfolding send_all
  transmit_message (plain n) context = throw
  transmit_message (object j) context = do
    to ← need (as_number (get "to_id" j))
    id ← gets (λ s. s.id_increment)
    change (λ s. record s { id_increment = s.id_increment + 1 })
    send_all to (transmit id (dump (erase "to_id" j)) context)

  unfoldable pub handle_user_log_out : Bytes → Call Done
  unfolding query execute
  handle_user_log_out username = do
    query (utf8 "select username from users where username =" ++ quoted username)
    execute (utf8 "update users set status = 'OFFLINE' where username =" ++ quoted username)
    emit (user_log [])

  unfoldable pub uploading_message : Object → Bytes → Call Done
  unfolding execute
  uploading_message j message = do
    room_name ← need (as_text (get "roomName" j))
    sender ← need (as_text (get "nickname" j))
    execute (
        utf8 "insert into chatMessage(roomName,sender,message) values("
        ++ (quoted room_name
            ++ (utf8 "," ++ (quoted sender ++ (utf8 "," ++ (quoted message ++ utf8 ")"))))))

  abbrev pub is_empty : Bytes → Bool
  is_empty [] = true
  is_empty (b ∷ bs) = false

  unfoldable pub sign_in_user : Bytes → Bytes → Bytes → Bytes → Call Done
  unfolding execute
  sign_in_user username password email nickname =
      if is_empty username || (is_empty password || is_empty email)
      then execute (
          utf8 "insert into users(username,password,email,nickname) values("
          ++ (quoted username
              ++ (utf8 ","
                  ++ (quoted password
                      ++ (utf8 ","
                          ++ (quoted email ++ (utf8 "," ++ (quoted nickname ++ utf8 ")"))))))))
      else return tt
