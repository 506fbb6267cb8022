-- ===== src/Socket/Server/Events.antt =====
-- `handle_epoll_event`: a new connection, or bytes of a client, which come as a descriptor of four
-- bytes, a json header of the size it names, and a body of the size the header names.
use ix_library.Base.{
  ℕ, zero, suc, ◌+◌, ◌*◌, Bool, true, false, ◌&&◌, not, Option, none, some, List, [], ◌∷◌, length,
  leb, ◌==◌, if◌then◌else◌,
}
use ix_library.Wire.{Bytes, htonl, load_word}
use ix_library.Socket.Server.{
  Json, size_key, used_to_key, user_name_key, password_key, to_key, type_key, login_status_key,
  from_key, file_name_key, text, number, Peer, State, wait_for_header_descriptor, wait_for_header,
  wait_for_body, ClientDataStore, ClientInfo, Server, at_fd, at_name, or_default, unknown_user,
  has_user_in_local_table, is_user_online, check_user_password, check_client_registration_status,
  load_user, close_client, register_client, recv_to_buffer, handle_data, send_to_client,
  queue_send_new,
}

-- What one turn of the loop ends in: the next turn, `break`, `return`, or an exception of the json
-- library, which leaves the function.
pub data Turn (V : Type 0) : Type 0 where
  again : Server V → Turn V
  leave : Server V → Turn V
  vanished : Server V → Turn V
  thrown : Server V → Turn V

-- How the event ended; `starved` is the model's own, when the fuel ran out.
pub data Ended (V : Type 0) : Type 0 where
  armed : Server V → Ended V
  returned : Server V → Ended V
  threw : Server V → Ended V
  starved : Ended V

-- The texts "login", "success", "failed", "text".
abbrev pub login_text : Bytes
login_text = 108 ∷ 111 ∷ 103 ∷ 105 ∷ 110 ∷ []

abbrev pub success_text : Bytes
success_text = 115 ∷ 117 ∷ 99 ∷ 99 ∷ 101 ∷ 115 ∷ 115 ∷ []

abbrev pub failed_text : Bytes
failed_text = 102 ∷ 97 ∷ 105 ∷ 108 ∷ 101 ∷ 100 ∷ []

abbrev pub text_text : Bytes
text_text = 116 ∷ 101 ∷ 120 ∷ 116 ∷ []

-- "查无此人" in UTF-8.
abbrev nobody_text : Bytes
nobody_text = 230 ∷ 159 ∷ 165 ∷ 230 ∷ 151 ∷ 160 ∷ 230 ∷ 173 ∷ 164 ∷ 228 ∷ 186 ∷ 186 ∷ []

-- An `int` is compared with -1, which no result of `has_user_in_local_table` is: `none`.
abbrev pub is_minus_one : Option ℕ → Bool
is_minus_one none = true
is_minus_one (some n) = false

module _ (json : Json) (peer : ℕ → Peer) where
  open json use {Value, null, parse, number_at, text_at, dump}

  abbrev pub set_data : ℕ → ClientDataStore Value → Server Value → Server Value
  set_data fd c s = record s { clients_data = at_fd fd c s.clients_data }

  -- `local_clients[userName].…` for a key that is made when it is missing.
  abbrev pub info_of : Bytes → Server Value → ClientInfo
  info_of name s = or_default unknown_user (s.local_clients name)

  unfoldable pub mark_fd : ℕ → Bytes → Server Value → Server Value
  mark_fd fd name s = record s {
    local_clients = at_name name (some (record (info_of name s) { fd = some fd })) s.local_clients;
  }

  unfoldable pub mark_online : Bytes → Server Value → Server Value
  mark_online name s = record s {
    local_clients =
        at_name name (some (record (info_of name s) { is_online = true })) s.local_clients;
  }

  abbrev pub login_reply : Bytes → Bytes → Bytes
  login_reply status user_name = dump (
      (type_key, text login_text)
      ∷ (login_status_key, text status)
      ∷ (user_name_key, text user_name)
      ∷ [])

  -- The case LOGIN: the reply's status, the tables, and the reply with the body's bytes.
  unfoldable pub login : ℕ → Bytes → Bytes → Bytes → Server Value → Server Value
  unfolding load_user mark_fd mark_online
  login fd user_name password bytes s =
      let status =
        if check_user_password Value user_name password s then success_text else failed_text in
      let t = mark_fd fd user_name (load_user Value fd user_name s) in
      let known = not (is_minus_one (some (has_user_in_local_table Value user_name t))) in
      let u = if known then mark_online user_name t else t in
      let final_status = if known then status else failed_text in
      queue_send_new Value peer fd (login_reply final_status user_name) bytes u

  abbrev pub chat_header : ℕ → Bytes → Bytes → ℕ → Bytes
  chat_header used_to from to size = dump (
      (type_key, text text_text)
      ∷ (used_to_key, number used_to)
      ∷ (from_key, text from)
      ∷ (to_key, text to)
      ∷ (file_name_key, text text_text)
      ∷ (size_key, number size)
      ∷ [])

  -- The case CHAT. `name_fd[to]` is made with 0 when it is missing.
  unfoldable pub chat : ℕ → Bytes → ℕ → Bytes → Server Value → Server Value
  chat fd to used_to bytes s =
      let header = chat_header used_to (s.fd_name fd) to (length bytes) in
      let target = or_default 0 (s.name_fd to) in
      if is_minus_one (some (has_user_in_local_table Value to s))
      then send_to_client Value peer fd nobody_text s
      else if is_user_online Value to s
      then queue_send_new Value peer target header bytes
          (record s { name_fd = at_name to (some target) s.name_fd })
      else s

  abbrev pub reset : ℕ → Server Value → Server Value
  reset fd s =
      set_data fd
        (record (s.clients_data fd) { next_size = 4; current_state = wait_for_header_descriptor }) s

  -- The last branch, with `usedTo` read: LOGIN is 0, CHAT is 1, another number is passed over.
  unfoldable pub serve : ℕ → ℕ → Value → Bytes → Server Value → Turn Value
  unfolding login chat
  serve fd used header bytes s =
      let by_name : Option Bytes → Option Bytes → Turn Value = λ name password. elim name [
        | none ↦ thrown s
        | some n ↦ elim password [
          | none ↦ thrown s
          | some p ↦ again (reset fd (login fd n p bytes s))
        ]
      ] in
      let by_to : Option Bytes → Turn Value =
        λ to. elim to [ none ↦ thrown s | some t ↦ again (reset fd (chat fd t used bytes s)) ] in
      if length bytes == 0 && not (used == 0)
      then again (close_client Value fd s)
      else if used == 0
      then by_name (text_at user_name_key header) (text_at password_key header)
      else if used == 1
      then by_to (text_at to_key header)
      else again (reset fd s)

  unfoldable pub turn_descriptor : ℕ → Bytes → Server Value → Turn Value
  turn_descriptor fd [] s = leave (close_client Value fd s)
  turn_descriptor fd (b ∷ bytes) s = again (
      set_data fd
        (record (s.clients_data fd) {
          next_size = htonl (load_word (b ∷ bytes));
          current_state = wait_for_header;
        })
        s)

  -- `GetJson` answers null when the parser throws.
  unfoldable pub turn_header : ℕ → Bytes → Server Value → Turn Value
  turn_header fd [] s = leave s
  turn_header fd (b ∷ bytes) s =
      let header = or_default null (parse (b ∷ bytes)) in
      elim (number_at size_key header) [
        | none ↦ thrown (set_data fd (record (s.clients_data fd) { header = header }) s)
        | some n ↦ again (
            set_data fd
              (record (s.clients_data fd) {
                header = header;
                next_size = n;
                current_state = wait_for_body;
              })
              s)
      ]

  unfoldable pub turn_body : ℕ → Bytes → Server Value → Turn Value
  unfolding serve
  turn_body fd bytes s =
      let header = (s.clients_data fd).header in
      elim (number_at used_to_key header) [
        | none ↦ thrown s
        | some used ↦ serve fd used header bytes s
      ]

  unfoldable pub by_state : State → ℕ → Bytes → Server Value → Turn Value
  unfolding turn_descriptor turn_header turn_body
  by_state wait_for_header_descriptor fd bytes s = turn_descriptor fd bytes s
  by_state wait_for_header fd bytes s = turn_header fd bytes s
  by_state wait_for_body fd bytes s = turn_body fd bytes s

  -- One turn of the loop, whose condition holds.
  unfoldable pub turn : ℕ → Server Value → Turn Value
  unfolding by_state
  turn fd s =
      let (bytes, t) = handle_data Value fd (s.clients_data fd).next_size s in
      if check_client_registration_status Value fd s
      then by_state (s.clients_data fd).current_state fd bytes t
      else vanished s

  -- The loop.
  unfoldable pub handle_turns : ℕ → ℕ → Server Value → Ended Value
  unfolding turn
  handle_turns zero fd s = starved
  handle_turns (suc n) fd s =
      let next : Ended Value = elim (turn fd s) [
        | again t ↦ handle_turns n fd t
        | leave t ↦ armed t
        | vanished t ↦ returned t
        | thrown t ↦ threw t
      ] in
      if leb (s.clients_data fd).next_size (length (s.recv_buffer fd)) then next else armed s

  abbrev pub fuel_for : ℕ → Server Value → ℕ
  fuel_for fd s = 2 * length (s.recv_buffer fd) + 3

  abbrev pub empty_data : ClientDataStore Value
  empty_data = record { current_state = wait_for_header_descriptor; next_size = 4; header = null }

  -- `first` says that `clientsData` has no entry for the descriptor yet, which `insert` would keep.
  unfoldable pub accept_event : ℕ → Bool → Server Value → Server Value
  accept_event fd first s =
      let t = register_client Value fd s in if first then set_data fd empty_data t else t

  unfoldable pub handle_epoll_event : ℕ → List Bytes → Server Value → Ended Value
  unfolding handle_turns
  handle_epoll_event fd pieces s =
      let t = recv_to_buffer Value fd pieces s in handle_turns (fuel_for fd t) fd t
