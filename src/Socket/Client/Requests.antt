-- ===== src/Socket/Client/Requests.antt =====
-- What `login` of socket/Socket/Client_Socket.cpp sends, read by `handle_epoll_event` of Server_Socket.cpp.
use ix_library.Base.{
  ℕ, suc, ◌-◌, ◌*◌, ◌<◌, ◌≤◌, ◌≡◌, refl, ap, ◌∙◌, some, List, [], ◌++◌, length, eq→==,
  if◌then◌else◌, length-append, arith,
}
use ix_library.Session.Messages.{concat}
use ix_library.Wire.{Bytes, htonl, store_word}
use ix_library.Socket.Packets.{word}
use ix_library.Socket.Server.{
  Json, Peer, wait_for_header_descriptor, Server, recv_to_buffer, load_user, check_user_password,
  size_key, used_to_key, user_name_key, password_key,
}
use ix_library.Socket.Server.Events.{
  armed, reset, login, login_reply, mark_fd, mark_online, success_text, failed_text, handle_turns,
  handle_epoll_event,
}
use ix_library.Socket.Server.Calm.{queue_send_new-IsCalm}
use ix_library.Socket.Client.{send_to}
use ix_library.Socket.Client.Turns.{
  IsAt, SameTables, recv_to_buffer-Read, taken, next_turn, last_turn, sized, headed, sized-IsAt,
  headed-IsAt, turn-sized, turn-headed, turn-login,
}

module _ (json : Json) (peer : ℕ → Peer) (fd : ℕ) where
  open json use {Value, null, parse, number_at, text_at}

  login-buffer :
      (name password : Bytes) (s : Server Value)
      → (login json peer fd name password [] s).recv_buffer ≡ s.recv_buffer
  unfolding login mark_fd mark_online load_user
  login-buffer name password s =
      let status =
        if check_user_password Value name password s then success_text else failed_text in
      let t = mark_online json peer name (mark_fd json peer fd name (load_user Value fd name s)) in
      (queue_send_new-IsCalm Value fd peer fd (login_reply json peer status name) [] s t
        (record { buffers = refl; data_kept = refl; seats = omega arith })).buffers

  word_first : (x : ℕ) (rest : Bytes) → 4 ≤ length (store_word x ++ rest)
  unfolding store_word
  word_first x rest = omega arith

  reset-size : (s : Server Value) → ((reset json peer fd s).clients_data fd).next_size ≡ 4
  reset-size s = rw (eq→== fd fd refl) refl

  -- After the login that a client sent, and nothing else: the server has answered it, and waits for the
  -- next descriptor.
  pub login_read :
      (v : Value) (header name password : Bytes) (pieces : List Bytes) (s : Server Value)
      → 0 < length header
      → length header < 4294967296
      → parse header ≡ some v
      → number_at size_key v ≡ some 0
      → number_at used_to_key v ≡ some 0
      → text_at user_name_key v ≡ some name
      → text_at password_key v ≡ some password
      → IsAt fd wait_for_header_descriptor 4 [] s
      → concat pieces ≡ concat (send_to header [])
      → (u : Server Value) × ((handle_epoll_event json peer fd pieces s
            ≡ armed (reset json peer fd (login json peer fd name password [] u)))
          × SameTables s u)
  unfolding handle_epoll_event send_to sized headed taken
  login_read v header name password pieces s some_byte short p size used names w at same =
      let n = length header in
      let sent : concat (send_to header []) ≡ store_word (htonl n) ++ (header ++ []) =
        ap (λ x. store_word (htonl x) ++ (header ++ [])) {x = word n} {y = n} (omega arith) in
      let r = recv_to_buffer-Read Value fd pieces s at.connected in
      let s1 = recv_to_buffer Value fd pieces s in
      let at1 : IsAt fd wait_for_header_descriptor 4 (store_word (htonl n) ++ (header ++ [])) s1 =
        record {
          connected = ap (λ f. f fd) r.tables.connections ∙ at.connected;
          state_is = ap (λ f. (f fd).current_state) r.states ∙ at.state_is;
          size_is = ap (λ f. (f fd).next_size) r.states ∙ at.size_is;
          buffer_is = r.buffer ∙ ap (λ b. b ++ concat pieces) at.buffer_is ∙ same ∙ sent;
        } in
      let s2 = sized json peer fd n (header ++ []) s1 in
      let at2 = sized-IsAt json peer fd n (header ++ []) s1 at1.connected in
      let s3 = headed json peer fd v 0 [] s2 in
      let at3 = headed-IsAt json peer fd v 0 [] s2 at2.connected in
      let u = taken Value fd [] s3 in
      let end = reset json peer fd (login json peer fd name password [] u) in
      let m = 2 * length (s1.recv_buffer fd) - 1 in
      let four : 4 ≤ length (s1.recv_buffer fd) =
        omega (arith, ap length at1.buffer_is, word_first (htonl n) (header ++ [])) in
      let kept : (s3.clients_data fd).header ≡ v = rw (eq→== fd fd refl) refl in
      let empty : end.recv_buffer fd ≡ [] =
        ap (λ f. f fd) (login-buffer name password u) ∙ rw (eq→== fd fd refl) refl in
      (
        u,
        (
          ap (λ f. handle_turns json peer f fd s1) {y = suc (suc (suc (suc m)))}
                (omega (arith, four))
              ∙ next_turn json peer fd (suc (suc (suc m))) _ _ _ s1 s2 at1
                  (word_first (htonl n) (header ++ []))
                  (turn-sized json peer fd n (header ++ []) s1 short at1)
              ∙ next_turn json peer fd (suc (suc m)) _ _ _ s2 s3 at2
                  (omega (arith, length-append header []))
                  (turn-headed json peer fd header [] v 0 s2 some_byte p size at2)
              ∙ next_turn json peer fd (suc m) _ _ _ s3 end at3 (omega arith)
                  (turn-login json peer fd v name password [] s3 kept used names w at3)
              ∙ last_turn json peer fd m end (reset-size (login json peer fd name password [] u))
                  empty,
          record {
            users = r.tables.users;
            counter = r.tables.counter;
            packets = r.tables.packets;
            connections = r.tables.connections;
          },
        ),
      )
