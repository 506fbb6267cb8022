-- ===== src/Socket/Server/Bodies.antt =====
-- What falls with each turn of `handle_epoll_event`, and that it falls when a body is served.
use ix_library.Base.{
  ℕ, ◌+◌, ◌*◌, ◌<◌, ◌≤◌, ◌≡◌, refl, ap, true, false, ◌&&◌, not, Option, none, some, length, ltb,
  ◌==◌, if◌then◌else◌, eq→==, Bool-cases, ◌⊎◌, inl, inr, arith, length-take, length-drop,
}
use ix_library.Wire.{Bytes}
use ix_library.Socket.Server.{
  Json, Peer, State, wait_for_header_descriptor, wait_for_header, wait_for_body, Server,
  used_to_key, user_name_key, password_key, to_key, at_name, check_user_password, or_default,
  close_client, load_user, is_user_online, handle_data,
}
use ix_library.Socket.Server.Events.{
  Turn, again, leave, vanished, thrown, login, chat, mark_fd, mark_online, login_reply, chat_header,
  success_text, failed_text, reset, serve, turn_body,
}
use ix_library.Socket.Server.Calm.{seat, seat_in, IsCalm, IsCalm-refl, queue_send_new-IsCalm}

abbrev pub mark : State → ℕ
mark wait_for_header_descriptor = 0
mark wait_for_header = 0
mark wait_for_body = 1

-- What falls with every turn for the client `fd`.
abbrev pub measure : {V : Type 0} → ℕ → Server V → ℕ
measure fd s =
    2 * length (s.recv_buffer fd) + (mark (s.clients_data fd).current_state + seat (s.clients fd))

abbrev pub Falls : {V : Type 0} → ℕ → ℕ → Turn V → Type 0
Falls fd m (again t) = measure fd t < m
Falls fd m (leave t) = Unit {0}
Falls fd m (vanished t) = Unit {0}
Falls fd m (thrown t) = Unit {0}

-- What `handle_data` did: bytes were moved from the buffer, and nothing else.
pub record IsTaken {V : Type 0} (fd : ℕ) (s : Server V) (r : Bytes × Server V) : Type 0 where
  pub seat_kept : r.1.clients ≡ s.clients
  pub states_kept : r.1.clients_data ≡ s.clients_data
  pub moved : length (r.1.recv_buffer fd) + length r.0 ≤ length (s.recv_buffer fd)

pub handle_data-IsTaken :
    (V : Type 0) (fd total : ℕ) (s : Server V) → IsTaken fd s (handle_data V fd total s)
unfolding handle_data
handle_data-IsTaken V fd total s = by_client (Bool-cases (s.clients fd))
  where
    buf : Bytes
    buf = s.recv_buffer fd

    by_size :
        s.clients fd ≡ true
        → (ltb (length buf) total ≡ true) ⊎ (ltb (length buf) total ≡ false)
        → IsTaken fd s (handle_data V fd total s)
    by_size c (inl e) =
        rw (c, e) (record { seat_kept = refl; states_kept = refl; moved = omega arith })
    by_size c (inr e) =
        rw (c, e)
          (record {
            seat_kept = refl;
            states_kept = refl;
            moved =
                rw (eq→== fd fd refl) (omega (arith, length-take total buf, length-drop total buf));
          })

    by_client :
        (s.clients fd ≡ true) ⊎ (s.clients fd ≡ false) → IsTaken fd s (handle_data V fd total s)
    by_client (inl c) = by_size c (Bool-cases (ltb (length buf) total))
    by_client (inr c) = rw c (record { seat_kept = refl; states_kept = refl; moved = omega arith })

module _ (json : Json) (peer : ℕ → Peer) (fd : ℕ) where
  open json use {Value, null, parse, number_at, text_at}

  login-IsCalm :
      (name password bytes : Bytes) (s : Server Value)
      → IsCalm fd s (login json peer fd name password bytes s)
  unfolding login load_user mark_fd mark_online
  login-IsCalm name password bytes s =
      queue_send_new-IsCalm Value fd peer fd
        (login_reply json peer
          (if check_user_password Value name password s then success_text else failed_text) name)
        bytes s (mark_online json peer name (mark_fd json peer fd name (load_user Value fd name s)))
        (record { buffers = refl; data_kept = refl; seats = omega arith })

  chat-IsCalm :
      (to : Bytes) (used : ℕ) (bytes : Bytes) (s : Server Value)
      → IsCalm fd s (chat json peer fd to used bytes s)
  unfolding chat
  chat-IsCalm to used bytes s = by_online (Bool-cases (is_user_online Value to s))
    where
      by_online :
          (is_user_online Value to s ≡ true) ⊎ (is_user_online Value to s ≡ false)
          → IsCalm fd s (chat json peer fd to used bytes s)
      by_online (inl e) = rw e (
          queue_send_new-IsCalm Value fd peer (or_default 0 (s.name_fd to))
            (chat_header json peer used (s.fd_name fd) to (length bytes)) bytes s
            (record s { name_fd = at_name to (some (or_default 0 (s.name_fd to))) s.name_fd })
            (record { buffers = refl; data_kept = refl; seats = omega arith }))
      by_online (inr e) = rw e (IsCalm-refl Value fd s)

  module _ (s : Server Value) (in_body : (s.clients_data fd).current_state ≡ wait_for_body)
      (there : s.clients fd ≡ true) where
    pub full : measure fd s ≡ 2 * length (s.recv_buffer fd) + 2
    full = rw (in_body, there) refl

    reset-Falls :
        (t : Server Value) → IsCalm fd s t → Falls fd (measure fd s) (again (reset json peer fd t))
    reset-Falls t a =
        let size : length (t.recv_buffer fd) ≡ length (s.recv_buffer fd) =
          ap (λ f. length (f fd)) a.buffers in
        rw (eq→== fd fd refl) (omega (arith, full, size, seat_in (t.clients fd)))

    close_client-Falls : Falls fd (measure fd s) (again (close_client Value fd s))
    unfolding close_client
    close_client-Falls = rw (eq→== fd fd refl) (omega (arith, full, ap mark in_body))

    serve-Falls :
        (used : ℕ) (header : Value) (bytes : Bytes)
        → Falls fd (measure fd s) (serve json peer fd used header bytes s)
    unfolding serve
    serve-Falls used header bytes = by_empty (Bool-cases (length bytes == 0 && not (used == 0)))
      where
        by_password :
            length bytes == 0 && not (used == 0) ≡ false
            → used == 0 ≡ true
            → (name : Bytes) → text_at user_name_key header ≡ some name
            → (o : Option Bytes) → text_at password_key header ≡ o
            → Falls fd (measure fd s) (serve json peer fd used header bytes s)
        by_password e u name n none q = rw (e, u, n, q) tt
        by_password e u name n (some password) q =
            rw (e, u, n, q)
              (reset-Falls (login json peer fd name password bytes s)
                (login-IsCalm name password bytes s))

        by_name :
            length bytes == 0 && not (used == 0) ≡ false
            → used == 0 ≡ true
            → (o : Option Bytes) → text_at user_name_key header ≡ o
            → Falls fd (measure fd s) (serve json peer fd used header bytes s)
        by_name e u none n = rw (e, u, n) tt
        by_name e u (some name) n = by_password e u name n (text_at password_key header) refl

        by_to :
            length bytes == 0 && not (used == 0) ≡ false
            → used == 0 ≡ false
            → used == 1 ≡ true
            → (o : Option Bytes) → text_at to_key header ≡ o
            → Falls fd (measure fd s) (serve json peer fd used header bytes s)
        by_to e u v none n = rw (e, u, v, n) tt
        by_to e u v (some to) n =
            rw (e, u, v, n)
              (reset-Falls (chat json peer fd to used bytes s) (chat-IsCalm to used bytes s))

        by_chat :
            length bytes == 0 && not (used == 0) ≡ false
            → used == 0 ≡ false
            → (used == 1 ≡ true) ⊎ (used == 1 ≡ false)
            → Falls fd (measure fd s) (serve json peer fd used header bytes s)
        by_chat e u (inl v) = by_to e u v (text_at to_key header) refl
        by_chat e u (inr v) = rw (e, u, v) (reset-Falls s (IsCalm-refl Value fd s))

        by_login :
            length bytes == 0 && not (used == 0) ≡ false
            → (used == 0 ≡ true) ⊎ (used == 0 ≡ false)
            → Falls fd (measure fd s) (serve json peer fd used header bytes s)
        by_login e (inl u) = by_name e u (text_at user_name_key header) refl
        by_login e (inr u) = by_chat e u (Bool-cases (used == 1))

        by_empty :
            (length bytes == 0 && not (used == 0) ≡ true)
              ⊎ (length bytes == 0 && not (used == 0) ≡ false)
            → Falls fd (measure fd s) (serve json peer fd used header bytes s)
        by_empty (inl e) = rw e close_client-Falls
        by_empty (inr e) = by_login e (Bool-cases (used == 0))

    pub turn_body-Falls : (bytes : Bytes) → Falls fd (measure fd s) (turn_body json peer fd bytes s)
    unfolding turn_body
    turn_body-Falls bytes = by_used (number_at used_to_key (s.clients_data fd).header) refl
      where
        by_used :
            (o : Option ℕ)
            → number_at used_to_key (s.clients_data fd).header ≡ o
            → Falls fd (measure fd s) (turn_body json peer fd bytes s)
        by_used none e = rw (e, turn_body) tt
        by_used (some used) e =
            rw (e, turn_body) (serve-Falls used (s.clients_data fd).header bytes)
