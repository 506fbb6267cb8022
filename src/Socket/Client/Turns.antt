-- ===== src/Socket/Client/Turns.antt =====
-- Turns of `handle_epoll_event` of socket/Socket/Server_Socket.cpp over a descriptor, a header and an empty
-- body that are all in the buffer.
use ix_library.Base.{
  ℕ, suc, ◌<◌, ◌≤◌, ◌≡◌, refl, ap, sym, ◌∙◌, true, some, List, [], ◌∷◌, ◌++◌, length, le→ltb,
  le→leb, eq→==, if◌then◌else◌, length-append, append_assoc, append-nil, take_prefix, drop_prefix,
  arith,
}
use ix_library.Session.Messages.{concat}
use ix_library.Wire.{Bytes, htonl, store_word}
use ix_library.Wire.Laws.{load_word-store_word, htonl-htonl, htonl-IsWord}
use ix_library.Socket.Server.{
  Json, Peer, State, wait_for_header_descriptor, wait_for_header, wait_for_body, ClientDataStore,
  Server, at_fd, or_default, check_client_registration_status, recv_to_buffer, load_user,
  check_user_password, size_key, used_to_key, user_name_key, password_key,
}
use ix_library.Socket.Server
use ix_library.Socket.Server.Events.{
  Turn, again, armed, turn, by_state, turn_descriptor, turn_header, turn_body, serve, reset,
  set_data, login, handle_turns,
}

-- Where the server stands with the client `fd`.
pub record IsAt {V : Type 0} (fd : ℕ) (state : State) (size : ℕ) (buf : Bytes) (s : Server V)
    : Type 0 where
  pub connected : s.clients fd ≡ true
  pub state_is : (s.clients_data fd).current_state ≡ state
  pub size_is : (s.clients_data fd).next_size ≡ size
  pub buffer_is : s.recv_buffer fd ≡ buf

-- Only the buffers and the states differ.
pub record SameTables {V : Type 0} (s t : Server V) : Type 0 where
  pub users : t.local_clients ≡ s.local_clients
  pub counter : t.packet_id ≡ s.packet_id
  pub packets : t.sent ≡ s.sent
  pub connections : t.clients ≡ s.clients

SameTables-trans :
    {V : Type 0} (s t u : Server V) → SameTables s t → SameTables t u → SameTables s u
SameTables-trans s t u a b = record {
  users = b.users ∙ a.users;
  counter = b.counter ∙ a.counter;
  packets = b.packets ∙ a.packets;
  connections = b.connections ∙ a.connections;
}

module _ (V : Type 0) (fd : ℕ) where
  -- Reading the pieces.
  pub record Read (bytes : Bytes) (s t : Server V) : Type 0 where
    pub tables : SameTables s t
    pub states : t.clients_data ≡ s.clients_data
    pub buffer : t.recv_buffer fd ≡ s.recv_buffer fd ++ bytes

  pub recv_to_buffer-Read :
      (pieces : List Bytes) (s : Server V)
      → s.clients fd ≡ true
      → Read (concat pieces) s (recv_to_buffer V fd pieces s)
  unfolding recv_to_buffer
  recv_to_buffer-Read [] s c = record {
    tables = record { users = refl; counter = refl; packets = refl; connections = refl };
    states = refl;
    buffer = sym (append-nil (s.recv_buffer fd));
  }
  recv_to_buffer-Read (p ∷ ps) s c =
      let t = record s { recv_buffer = at_fd fd (s.recv_buffer fd ++ p) s.recv_buffer } in
      let r = recv_to_buffer-Read ps t c in
      let here : t.recv_buffer fd ≡ s.recv_buffer fd ++ p = rw (eq→== fd fd refl) refl in
      rw c (record {
        tables = record {
          users = r.tables.users;
          counter = r.tables.counter;
          packets = r.tables.packets;
          connections = r.tables.connections;
        };
        states = r.states;
        buffer =
            r.buffer
            ∙ ap (λ b. b ++ concat ps) here
            ∙ append_assoc (s.recv_buffer fd) p (concat ps);
      })

  -- Bytes that are there are taken off the buffer.
  unfoldable pub taken : Bytes → Server V → Server V
  taken rest s = record s { recv_buffer = at_fd fd rest s.recv_buffer }

  handle_data-taken :
      (front rest : Bytes) (s : Server V)
      → s.clients fd ≡ true
      → s.recv_buffer fd ≡ front ++ rest
      → Server.handle_data V fd (length front) s ≡ (front, taken rest s)
  unfolding Server.handle_data taken
  handle_data-taken front rest s c b =
      rw
        (
          c,
          b,
          le→ltb (length (front ++ rest)) (length front) (omega (arith, length-append front rest)),
          take_prefix front rest,
          drop_prefix front rest,
        )
        refl

module _ (json : Json) (peer : ℕ → Peer) (fd : ℕ) where
  open json use {Value, null, parse, number_at, text_at}

  -- A turn with all its bytes in the buffer.
  turn-taken :
      (state : State) (front rest : Bytes) (s : Server Value)
      → IsAt fd state (length front) (front ++ rest) s
      → turn json peer fd s ≡ by_state json peer state fd front (taken Value fd rest s)
  unfolding turn check_client_registration_status
  turn-taken state front rest s at =
      ap (λ n. by_read (Server.handle_data Value fd n s)) at.size_is
      ∙ ap by_read (handle_data-taken Value fd front rest s at.connected at.buffer_is)
      ∙ rw (at.connected, at.state_is) refl
    where
      by_read : Bytes × Server Value → Turn Value
      by_read (bytes, t) =
          if s.clients fd
          then by_state json peer (s.clients_data fd).current_state fd bytes t
          else Turn.vanished s

  pub next_turn :
      (n : ℕ) (state : State) (size : ℕ) (buf : Bytes) (s u : Server Value)
      → IsAt fd state size buf s
      → size ≤ length buf
      → turn json peer fd s ≡ again u
      → handle_turns json peer (suc n) fd s ≡ handle_turns json peer n fd u
  unfolding handle_turns
  next_turn n state size buf s u at h e =
      rw (e, handle_turns, at.size_is, at.buffer_is, le→leb size (length buf) h) refl

  pub last_turn :
      (n : ℕ) (s : Server Value)
      → (s.clients_data fd).next_size ≡ 4
      → s.recv_buffer fd ≡ []
      → handle_turns json peer (suc n) fd s ≡ armed s
  unfolding handle_turns
  last_turn n s size empty = rw (size, empty) refl

  -- The states after the descriptor and after the header.
  unfoldable pub sized : ℕ → Bytes → Server Value → Server Value
  sized n rest s =
      set_data json peer fd
        (record (s.clients_data fd) { next_size = n; current_state = wait_for_header })
        (taken Value fd rest s)

  unfoldable pub headed : Value → ℕ → Bytes → Server Value → Server Value
  headed v n rest s =
      set_data json peer fd
        (record (s.clients_data fd) { header = v; next_size = n; current_state = wait_for_body })
        (taken Value fd rest s)

  pub sized-IsAt :
      (n : ℕ) (rest : Bytes) (s : Server Value)
      → s.clients fd ≡ true
      → IsAt fd wait_for_header n rest (sized n rest s)
  unfolding sized taken
  sized-IsAt n rest s c = record {
    connected = c;
    state_is = rw (eq→== fd fd refl) refl;
    size_is = rw (eq→== fd fd refl) refl;
    buffer_is = rw (eq→== fd fd refl) refl;
  }

  pub headed-IsAt :
      (v : Value) (n : ℕ) (rest : Bytes) (s : Server Value)
      → s.clients fd ≡ true
      → IsAt fd wait_for_body n rest (headed v n rest s)
  unfolding headed taken
  headed-IsAt v n rest s c = record {
    connected = c;
    state_is = rw (eq→== fd fd refl) refl;
    size_is = rw (eq→== fd fd refl) refl;
    buffer_is = rw (eq→== fd fd refl) refl;
  }

  pub turn-sized :
      (n : ℕ) (rest : Bytes) (s : Server Value)
      → n < 4294967296
      → IsAt fd wait_for_header_descriptor 4 (store_word (htonl n) ++ rest) s
      → turn json peer fd s ≡ again (sized n rest s)
  unfolding sized turn_descriptor by_state store_word taken
  turn-sized n rest s h at =
      turn-taken wait_for_header_descriptor (store_word (htonl n)) rest s at
      ∙ ap
          (λ m. again (
            set_data json peer fd
              (record (s.clients_data fd) { next_size = m; current_state = wait_for_header })
              (taken Value fd rest s)))
          (ap htonl (load_word-store_word (htonl n) [] (htonl-IsWord n)) ∙ htonl-htonl n h)

  pub turn-headed :
      (front rest : Bytes) (v : Value) (n : ℕ) (s : Server Value)
      → 0 < length front
      → parse front ≡ some v
      → number_at size_key v ≡ some n
      → IsAt fd wait_for_header (length front) (front ++ rest) s
      → turn json peer fd s ≡ again (headed v n rest s)
  unfolding headed turn_header by_state taken
  turn-headed [] rest v n s some_byte p e at = absurd (omega arith)
  turn-headed (b ∷ front) rest v n s some_byte p e at =
      let size = ap (λ o. number_at size_key (or_default null o)) p ∙ e in
      turn-taken wait_for_header (b ∷ front) rest s at
      ∙ rw (size, turn_header, by_state) (ap (λ o. again (headed (or_default null o) n rest s)) p)

  serve-login :
      (v : Value) (name password : Bytes) (s : Server Value)
      → text_at user_name_key v ≡ some name
      → text_at password_key v ≡ some password
      → serve json peer fd 0 v [] s
        ≡ again (reset json peer fd (login json peer fd name password [] s))
  unfolding serve
  serve-login v name password s n p = rw (n, p) refl

  pub turn-login :
      (v : Value) (name password rest : Bytes) (s : Server Value)
      → (s.clients_data fd).header ≡ v
      → number_at used_to_key v ≡ some 0
      → text_at user_name_key v ≡ some name
      → text_at password_key v ≡ some password
      → IsAt fd wait_for_body 0 rest s
      → turn json peer fd s
        ≡ again (reset json peer fd (login json peer fd name password [] (taken Value fd rest s)))
  unfolding turn_body by_state taken
  turn-login v name password rest s h u n p at =
      turn-taken wait_for_body [] rest s at
      ∙ rw (ap (number_at used_to_key) h ∙ u, turn_body)
          (ap (λ x. serve json peer fd 0 x [] (taken Value fd rest s)) h
            ∙ serve-login v name password (taken Value fd rest s) n p)
