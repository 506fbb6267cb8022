-- ===== src/Socket/Server.antt =====
-- `Server_Socket` of socket/Socket/Server_Socket.cpp: its tables of users and connections, and what
-- one event of epoll does. A map is a function of its key; `sent` are the packets that were given
-- to a socket. JSON is a parameter, and so is the state of the connection that bytes are sent on.
pub mod Events
pub mod Logins
pub mod Calm
pub mod Bodies
pub mod Ends
use ix_library.Base.{
  ℕ, zero, suc, ◌+◌, ◌%◌, Bool, true, false, ◌&&◌, Option, none, some, List, [], ◌∷◌, ◌++◌, length,
  take, drop, ltb, ◌==◌, if◌then◌else◌, same,
}
use ix_library.Wire.{Bytes}
use ix_library.Socket.Packets.{queue_send}

-- The keys that the code reads and writes in its json objects, and the values it writes.
pub data Key : Type 0 where
  size_key used_to_key name_size_key password_size_key user_name_key password_key to_key type_key
        login_status_key from_key file_name_key :
      Key

pub data Field : Type 0 where
  text : Bytes → Field
  number : ℕ → Field

-- nlohmann::json: a value is parsed from bytes (`none`: an exception), looked up with a conversion
-- (`none`: an exception), and written out. `dump` throws on a text that is not UTF-8, so it is asked only
-- for texts of which `is_text` holds: the server writes names that it has parsed, and words of its own.
pub record Json : Type 1 where
  pub Value : Type 0
  pub null : Value
  pub parse : Bytes → Option Value
  pub number_at : Key → Value → Option ℕ
  pub text_at : Key → Value → Option Bytes
  pub dump : List (Key × Field) → Bytes
  pub is_text : Bytes → Bool

-- The connection that `send` writes to: it takes the bytes, it is closed (EPIPE, ECONNRESET), or it
-- fails in another way.
pub data Peer : Type 0 where
  live gone failing : Peer

pub data State : Type 0 where
  wait_for_header_descriptor wait_for_header wait_for_body : State

-- `ClientDataStore`.
pub record ClientDataStore (V : Type 0) : Type 0 where
  pub current_state : State
  pub next_size : ℕ
  pub header : V

-- `ClientInfo`; an `fd` of -1 is `none`.
pub record ClientInfo : Type 0 where
  pub user_name : Bytes
  pub password : Bytes
  pub is_online : Bool
  pub fd : Option ℕ

pub record Server (V : Type 0) : Type 0 where
  pub recv_buffer : ℕ → Bytes
  pub packet_id : ℕ
  pub local_clients : Bytes → Option ClientInfo
  pub clients : ℕ → Bool
  pub fd_name : ℕ → Bytes
  pub name_fd : Bytes → Option ℕ
  pub clients_data : ℕ → ClientDataStore V
  pub sent : List (ℕ × Bytes)

abbrev pub at_fd : {A : Type 0} → ℕ → A → (ℕ → A) → ℕ → A
at_fd k v f j = if j == k then v else f j

abbrev pub at_name : {A : Type 0} → Bytes → A → (Bytes → A) → Bytes → A
at_name k v f j = if same j k then v else f j

abbrev pub unknown_user : ClientInfo
unknown_user = record { user_name = []; password = []; is_online = false; fd = none }

abbrev pub or_default : {A : Type 0} → A → Option A → A
or_default d none = d
or_default d (some a) = a

abbrev pub is_some : {A : Type 0} → Option A → Bool
is_some none = false
is_some (some a) = true

module _ (V : Type 0) where
  -- -1 is `none`.
  unfoldable pub get_user_fd : Bytes → Server V → Option ℕ
  get_user_fd name s = elim (s.local_clients name) [ none ↦ none | some info ↦ info.fd ]

  -- The function returns an `int`, which is 1 or 0.
  unfoldable pub has_user_in_local_table : Bytes → Server V → ℕ
  has_user_in_local_table name s = if is_some (s.local_clients name) then 1 else 0

  unfoldable pub is_user_online : Bytes → Server V → Bool
  is_user_online name s = elim (s.local_clients name) [ none ↦ false | some info ↦ info.is_online ]

  unfoldable pub check_user_password : Bytes → Bytes → Server V → Bool
  check_user_password name password s = elim (s.local_clients name) [
    | none ↦ false
    | some info ↦ same info.password password
  ]

  unfoldable pub check_client_registration_status : ℕ → Server V → Bool
  check_client_registration_status fd s = s.clients fd

  unfoldable pub load_user : ℕ → Bytes → Server V → Server V
  load_user fd name s = record s {
    name_fd = at_name name (some fd) s.name_fd;
    fd_name = at_fd fd name s.fd_name;
  }

  unfoldable pub check_user_name : Bytes → Server V → Bool
  check_user_name name s = elim (s.name_fd name) [ none ↦ true | some fd ↦ false ]

  -- The names of `loadLocalUser` are "ix" and "dreamy", the passwords "123" and "456".
  unfoldable pub load_local_user : Server V → Server V
  load_local_user s =
      let ix : Bytes = 105 ∷ 120 ∷ [] in
      let dreamy : Bytes = 100 ∷ 114 ∷ 101 ∷ 97 ∷ 109 ∷ 121 ∷ [] in
      let add : Bytes → Bytes → (Bytes → Option ClientInfo) → Bytes → Option ClientInfo =
        λ name password f.
          if is_some (f name)
          then f
          else at_name name
              (some
                (record { user_name = name; password = password; is_online = false; fd = none }))
              f in
      record s {
        local_clients = add dreamy (52 ∷ 53 ∷ 54 ∷ []) (add ix (49 ∷ 50 ∷ 51 ∷ []) s.local_clients);
      }

  unfoldable pub close_client : ℕ → Server V → Server V
  close_client fd s = record s { clients = at_fd fd false s.clients }

  -- `accept` gave the descriptor `fd`. The map's insertion in `handle_epoll_event` keeps what is
  -- stored of an older connection with the same descriptor.
  unfoldable pub register_client : ℕ → Server V → Server V
  unfolding close_client
  register_client fd s =
      let t = (if s.clients fd then close_client fd s else s) in
      record t { clients = at_fd fd true t.clients }

  -- The pieces are what `recv` returned before the call that ended the loop: EAGAIN, an error or 0,
  -- after which nothing else happens.
  unfoldable pub recv_to_buffer : ℕ → List Bytes → Server V → Server V
  recv_to_buffer fd [] s = s
  recv_to_buffer fd (piece ∷ pieces) s =
      let t = record s { recv_buffer = at_fd fd (s.recv_buffer fd ++ piece) s.recv_buffer } in
      let rest = recv_to_buffer fd pieces t in if s.clients fd then rest else s

  unfoldable pub handle_data : ℕ → ℕ → Server V → Bytes × Server V
  handle_data fd total s =
      let buf = s.recv_buffer fd in
      if s.clients fd
      then (if ltb (length buf) total
          then ([], s)
          else (take total buf, record s { recv_buffer = at_fd fd (drop total buf) s.recv_buffer }))
      else ([], s)

  module _ (peer : ℕ → Peer) where
    unfoldable pub send_to_client : ℕ → Bytes → Server V → Server V
    unfolding close_client
    send_to_client fd bytes s =
        let told : Server V = elim (peer fd) [
          | live ↦ record s { sent = s.sent ++ ((fd, bytes) ∷ []) }
          | gone ↦ close_client fd s
          | failing ↦ s
        ] in
        if s.clients fd then told else s

    unfoldable pub send_packets : ℕ → List Bytes → Server V → Server V
    send_packets fd [] s = s
    send_packets fd (p ∷ ps) s = send_packets fd ps (send_to_client fd p s)

    -- `queueSend_new`, which counts its messages.
    unfoldable pub queue_send_new : ℕ → Bytes → Bytes → Server V → Server V
    unfolding send_packets
    queue_send_new fd header bytes s =
        send_packets fd (queue_send s.packet_id header bytes)
          (record s { packet_id = (s.packet_id + 1) % 4294967296 })
