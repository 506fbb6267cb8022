-- ===== src/Socket/Server/Logins.antt =====
-- What a login and a chat message do to the tables, and whom they answer.
use ix_library.Base.{same_refl}
use ix_library.Base.{
  ℕ, ◌+◌, ◌%◌, ◌≡◌, refl, ap, sym, ◌∙◌, Bool, true, false, some, List, [], ◌∷◌, ◌++◌, map, length,
  if◌then◌else◌, append-nil, append_assoc,
}
use ix_library.Wire.{Bytes}
use ix_library.Socket.Packets.{queue_send}
use ix_library.Socket.Server.{
  Json, Peer, live, gone, failing, Server, ClientInfo, at_name, or_default, unknown_user,
  get_user_fd, is_user_online, check_user_password, load_user, close_client, send_to_client,
  send_packets, queue_send_new,
}
use ix_library.Socket.Server.Events.{
  login, chat, mark_fd, mark_online, success_text, failed_text, login_reply, chat_header,
}

-- Sending leaves the tables of users alone.
abbrev SameUsers : {V : Type 0} → Server V → Server V → Type 0
SameUsers s t = (t.local_clients ≡ s.local_clients) × (t.name_fd ≡ s.name_fd)

abbrev pub to_fd : ℕ → Bytes → ℕ × Bytes
to_fd fd p = (fd, p)

module _ (V : Type 0) (peer : ℕ → Peer) where
  send_to_client-SameUsers :
      (fd : ℕ) (bytes : Bytes) (s : Server V) → SameUsers s (send_to_client V peer fd bytes s)
  unfolding send_to_client close_client
  send_to_client-SameUsers fd bytes s = by_client (s.clients fd) refl
    where
      by_peer :
          (p : Peer)
          → peer fd ≡ p
          → s.clients fd ≡ true
          → SameUsers s (send_to_client V peer fd bytes s)
      by_peer live e c = rw (c, e) (refl, refl)
      by_peer gone e c = rw (c, e) (refl, refl)
      by_peer failing e c = rw (c, e) (refl, refl)

      by_client : (b : Bool) → s.clients fd ≡ b → SameUsers s (send_to_client V peer fd bytes s)
      by_client true c = by_peer (peer fd) refl c
      by_client false c = rw c (refl, refl)

  send_packets-SameUsers :
      (fd : ℕ) (ps : List Bytes) (s : Server V) → SameUsers s (send_packets V peer fd ps s)
  unfolding send_packets
  send_packets-SameUsers fd [] s = (refl, refl)
  send_packets-SameUsers fd (p ∷ ps) s =
      let first = send_to_client-SameUsers fd p s in
      let rest = send_packets-SameUsers fd ps (send_to_client V peer fd p s) in
      (rest.0 ∙ first.0, rest.1 ∙ first.1)

  queue_send_new-SameUsers :
      (fd : ℕ) (header bytes : Bytes) (s : Server V)
      → SameUsers s (queue_send_new V peer fd header bytes s)
  unfolding queue_send_new
  queue_send_new-SameUsers fd header bytes s =
      send_packets-SameUsers fd (queue_send s.packet_id header bytes)
        (record s { packet_id = (s.packet_id + 1) % 4294967296 })

  send_to_client-live :
      (fd : ℕ) (p : Bytes) (s : Server V)
      → s.clients fd ≡ true
      → peer fd ≡ live
      → send_to_client V peer fd p s ≡ record s { sent = s.sent ++ ((fd, p) ∷ []) }
  unfolding send_to_client
  send_to_client-live fd p s c l = rw (c, l) refl

  -- To a connection that is registered and live all packets go, in order.
  send_packets-live :
      (fd : ℕ) (ps : List Bytes) (s : Server V)
      → s.clients fd ≡ true
      → peer fd ≡ live
      → (send_packets V peer fd ps s).sent ≡ s.sent ++ map (to_fd fd) ps
  unfolding send_packets
  send_packets-live fd [] s c l = sym (append-nil s.sent)
  send_packets-live fd (p ∷ ps) s c l =
      let ih = send_packets-live fd ps (record s { sent = s.sent ++ ((fd, p) ∷ []) }) c l in
      ap (λ t. (send_packets V peer fd ps t).sent) (send_to_client-live fd p s c l)
      ∙ ih
      ∙ append_assoc s.sent ((fd, p) ∷ []) (map (to_fd fd) ps)

  queue_send_new-live :
      (fd : ℕ) (header bytes : Bytes) (s : Server V)
      → s.clients fd ≡ true
      → peer fd ≡ live
      → (queue_send_new V peer fd header bytes s).sent
        ≡ s.sent ++ map (to_fd fd) (queue_send s.packet_id header bytes)
  unfolding queue_send_new
  queue_send_new-live fd header bytes s c l =
      send_packets-live fd (queue_send s.packet_id header bytes)
        (record s { packet_id = (s.packet_id + 1) % 4294967296 }) c l

  is_user_online-some :
      (name : Bytes) (info : ClientInfo) (s : Server V)
      → s.local_clients name ≡ some info
      → is_user_online V name s ≡ info.is_online
  unfolding is_user_online
  is_user_online-some name info s e = rw (e, is_user_online) refl

  get_user_fd-some :
      (name : Bytes) (info : ClientInfo) (s : Server V)
      → s.local_clients name ≡ some info
      → get_user_fd V name s ≡ info.fd
  unfolding get_user_fd
  get_user_fd-some name info s e = rw (e, get_user_fd) refl

module _ (json : Json) (peer : ℕ → Peer) where
  open json use {Value, dump}

  -- The tables after a login, before the reply.
  logged_in : ℕ → Bytes → Server Value → Server Value
  logged_in fd name s =
      mark_online json peer name (mark_fd json peer fd name (load_user Value fd name s))

  abbrev status : Bytes → Bytes → Server Value → Bytes
  status name password s =
      if check_user_password Value name password s then success_text else failed_text

  login-queue_send_new :
      (fd : ℕ) (name password bytes : Bytes) (s : Server Value)
      → login json peer fd name password bytes s
        ≡ queue_send_new Value peer fd
            (login_reply json peer (status name password s) name)
            bytes
            (logged_in fd name s)
  unfolding login logged_in
  login-queue_send_new fd name password bytes s = refl

  abbrev old : Bytes → Server Value → ClientInfo
  old name s = or_default unknown_user (s.local_clients name)

  logged_in-entry :
      (fd : ℕ) (name : Bytes) (s : Server Value)
      → (logged_in fd name s).local_clients name
        ≡ some (record (old name s) { is_online = true; fd = some fd })
  unfolding logged_in mark_online mark_fd load_user
  logged_in-entry fd name s = rw (same_refl name) refl

  logged_in-fd :
      (fd : ℕ) (name : Bytes) (s : Server Value) → (logged_in fd name s).name_fd name ≡ some fd
  unfolding logged_in mark_online mark_fd load_user
  logged_in-fd fd name s = rw (same_refl name) refl

  -- Whoever logs in under a name, known or not and with whatever password: the name is online
  -- afterwards, and messages to it go to the connection that logged in last.
  pub login_takes_over :
      (fd : ℕ) (name password bytes : Bytes) (s : Server Value)
      → let t = login json peer fd name password bytes s in
        (is_user_online Value name t ≡ true)
        × (get_user_fd Value name t ≡ some fd)
        × (t.name_fd name ≡ some fd)
  login_takes_over fd name password bytes s =
      let header = login_reply json peer (status name password s) name in
      let kept = queue_send_new-SameUsers Value peer fd header bytes (logged_in fd name s) in
      let t = login json peer fd name password bytes s in
      let same_t = login-queue_send_new fd name password bytes s in
      let info : ClientInfo = record (old name s) { is_online = true; fd = some fd } in
      let entry : t.local_clients name ≡ some info =
        ap (λ u. u.local_clients name) same_t
        ∙ ap (λ f. f name) kept.0
        ∙ logged_in-entry fd name s in
      let place =
        ap (λ u. u.name_fd name) same_t ∙ ap (λ f. f name) kept.1 ∙ logged_in-fd fd name s in
      (
        is_user_online-some Value peer name info t entry,
        get_user_fd-some Value peer name info t entry,
        place,
      )

  -- To a client that is connected, a login sends the packets of one reply, which names the user, says
  -- "success" when the table held the name with this password before, and "failed" otherwise, and
  -- carries the body back.
  pub login_answers :
      (fd : ℕ) (name password bytes : Bytes) (s : Server Value)
      → s.clients fd ≡ true
      → peer fd ≡ live
      → (login json peer fd name password bytes s).sent
        ≡ s.sent
          ++ map (to_fd fd) (
              queue_send s.packet_id
                (login_reply json peer
                  (if check_user_password Value name password s then success_text else failed_text)
                  name)
                bytes)
  unfolding logged_in mark_online mark_fd load_user
  login_answers fd name password bytes s c l =
      ap (λ u. u.sent) (login-queue_send_new fd name password bytes s)
      ∙ queue_send_new-live Value peer fd (login_reply json peer (status name password s) name)
          bytes (logged_in fd name s) c l

  -- A chat message to a name that is not in the table, or not online, changes nothing and sends
  -- nothing, to the sender neither.
  pub chat_dropped :
      (fd : ℕ) (to : Bytes) (used : ℕ) (bytes : Bytes) (s : Server Value)
      → is_user_online Value to s ≡ false
      → chat json peer fd to used bytes s ≡ s
  unfolding chat
  chat_dropped fd to used bytes s e = rw e refl

  -- One to a name that is online goes to the connection that the name's last login came from, when
  -- that is live: the packets of one message with the sender's name in its header.
  pub chat_reaches :
      (fd target : ℕ) (to : Bytes) (used : ℕ) (bytes : Bytes) (s : Server Value)
      → is_user_online Value to s ≡ true
      → s.name_fd to ≡ some target
      → s.clients target ≡ true
      → peer target ≡ live
      → (chat json peer fd to used bytes s).sent
        ≡ s.sent
          ++ map (to_fd target) (
              queue_send s.packet_id
                (chat_header json peer used (s.fd_name fd) to (length bytes))
                bytes)
  unfolding chat
  chat_reaches fd target to used bytes s e n c l =
      rw (e, n)
        (queue_send_new-live Value peer target
          (chat_header json peer used (s.fd_name fd) to (length bytes)) bytes
          (record s { name_fd = at_name to (some target) s.name_fd }) c l)
