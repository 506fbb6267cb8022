-- ===== src/Socket/Server/Ends.antt =====
-- The loop of `handle_epoll_event` ends: each turn takes bytes off the buffer, or closes the client,
-- or leaves the state for a body.
use ix_library.Base.{
  ℕ, zero, suc, ◌+◌, ◌*◌, ◌<◌, ◌≤◌, ◌≡◌, ◌≢◌, refl, ap, ◌∙◌, true, false, Option, none, some, List,
  [], ◌∷◌, length, leb, eq→==, Bool-cases, ◌⊎◌, inl, inr, arith,
}
use ix_library.Wire.{Bytes}
use ix_library.Socket.Server.{
  Json, Peer, State, wait_for_header_descriptor, wait_for_header, wait_for_body, Server, size_key,
  or_default, check_client_registration_status, recv_to_buffer, handle_data,
}
use ix_library.Socket.Server.Events.{
  Turn, again, leave, vanished, thrown, starved, turn_descriptor, turn_header, turn_body, by_state,
  turn, handle_turns, fuel_for, handle_epoll_event,
}
use ix_library.Socket.Server.Calm.{seat_in}
use ix_library.Socket.Server.Bodies.{
  mark, measure, Falls, IsTaken, handle_data-IsTaken, full, turn_body-Falls,
}

module _ (json : Json) (peer : ℕ → Peer) (fd : ℕ) where
  open json use {Value, null, parse, number_at, text_at}

  Falls-mono : (m n : ℕ) (r : Turn Value) → m ≤ n → Falls fd m r → Falls fd n r
  Falls-mono m n (again t) h f = omega arith
  Falls-mono m n (leave t) h f = tt
  Falls-mono m n (vanished t) h f = tt
  Falls-mono m n (thrown t) h f = tt

  -- With a client that is connected, the bytes that were taken off pay for the change of state.
  descriptor-Falls :
      (m : ℕ) (bytes : Bytes) (s : Server Value)
      → s.clients fd ≡ true
      → 2 * (length (s.recv_buffer fd) + length bytes) + 1 ≤ m
      → Falls fd m (turn_descriptor json peer fd bytes s)
  unfolding turn_descriptor
  descriptor-Falls m [] s c h = tt
  descriptor-Falls m (b ∷ bytes) s c h = rw (eq→== fd fd refl, c) (omega arith)

  header-Falls :
      (m : ℕ) (bytes : Bytes) (s : Server Value)
      → s.clients fd ≡ true
      → 2 * (length (s.recv_buffer fd) + length bytes) + 1 ≤ m
      → Falls fd m (turn_header json peer fd bytes s)
  unfolding turn_header
  header-Falls m [] s c h = tt
  header-Falls m (b ∷ bytes) s c h =
      by_size (number_at size_key (or_default null (parse (b ∷ bytes)))) refl
    where
      by_size :
          (o : Option ℕ)
          → number_at size_key (or_default null (parse (b ∷ bytes))) ≡ o
          → Falls fd m (turn_header json peer fd (b ∷ bytes) s)
      by_size none e = rw (e, turn_header) tt
      by_size (some n) e = rw (e, turn_header, eq→== fd fd refl, c) (omega arith)

  by_state-Falls :
      (m : ℕ) (st : State) (bytes : Bytes) (s : Server Value)
      → (s.clients_data fd).current_state ≡ st
      → s.clients fd ≡ true
      → 2 * (length (s.recv_buffer fd) + length bytes) + (mark st + 1) ≤ m
      → Falls fd m (by_state json peer st fd bytes s)
  unfolding by_state
  by_state-Falls m wait_for_header_descriptor bytes s e c h =
      descriptor-Falls m bytes s c (omega arith)
  by_state-Falls m wait_for_header bytes s e c h = header-Falls m bytes s c (omega arith)
  by_state-Falls m wait_for_body bytes s e c h =
      Falls-mono (measure fd s) m (turn_body json peer fd bytes s)
        (omega (arith, full json peer fd s e c)) (turn_body-Falls json peer fd s e c bytes)

  turn-Falls : (s : Server Value) → Falls fd (measure fd s) (turn json peer fd s)
  unfolding turn check_client_registration_status
  turn-Falls s = by_client (Bool-cases (s.clients fd))
    where
      r : Bytes × Server Value
      r = handle_data Value fd (s.clients_data fd).next_size s

      taken : IsTaken fd s r
      taken = handle_data-IsTaken Value fd (s.clients_data fd).next_size s

      by_client :
          (s.clients fd ≡ true) ⊎ (s.clients fd ≡ false)
          → Falls fd (measure fd s) (turn json peer fd s)
      by_client (inl c) =
          rw (c, turn)
            (by_state-Falls
              (2 * length (s.recv_buffer fd) + (mark (s.clients_data fd).current_state + 1))
              (s.clients_data fd).current_state r.0 r.1
              (ap (λ f. (f fd).current_state) taken.states_kept)
              (ap (λ f. f fd) taken.seat_kept ∙ c) (omega (arith, taken.moved)))
      by_client (inr c) = rw (c, turn) tt

  ends : (n : ℕ) (s : Server Value) → measure fd s < n → handle_turns json peer n fd s ≢ starved
  unfolding handle_turns
  ends zero s h = absurd (omega arith)
  ends (suc n) s h =
      by_size (λ t f. ends n t f)
        (Bool-cases (leb (s.clients_data fd).next_size (length (s.recv_buffer fd))))
    where
      by_turn :
          ((t : Server Value) → measure fd t < n → handle_turns json peer n fd t ≢ starved)
          → leb (s.clients_data fd).next_size (length (s.recv_buffer fd)) ≡ true
          → (r : Turn Value) → turn json peer fd s ≡ r
          → Falls fd (measure fd s) r
          → handle_turns json peer (suc n) fd s ≢ starved
      by_turn ih e (again t) q f = rw (e, q, handle_turns) (ih t (omega arith))
      by_turn ih e (leave t) q f = rw (e, q, handle_turns) (λ w. cc)
      by_turn ih e (vanished t) q f = rw (e, q, handle_turns) (λ w. cc)
      by_turn ih e (thrown t) q f = rw (e, q, handle_turns) (λ w. cc)

      by_size :
          ((t : Server Value) → measure fd t < n → handle_turns json peer n fd t ≢ starved)
          → (leb (s.clients_data fd).next_size (length (s.recv_buffer fd)) ≡ true)
            ⊎ (leb (s.clients_data fd).next_size (length (s.recv_buffer fd)) ≡ false)
          → handle_turns json peer (suc n) fd s ≢ starved
      by_size ih (inl e) = by_turn ih e (turn json peer fd s) refl (turn-Falls s)
      by_size ih (inr e) = rw (e, handle_turns) (λ w. cc)

  mark_in : (st : State) → mark st ≤ 1
  mark_in wait_for_header_descriptor = omega arith
  mark_in wait_for_header = omega arith
  mark_in wait_for_body = omega arith

  -- For any server, whatever bytes come, whatever the json library answers and whether or not the
  -- connections take bytes: the loop of `handle_epoll_event` ends, within two turns for each byte in
  -- the buffer and three more.
  pub handle_epoll_event_ends :
      (pieces : List Bytes) (s : Server Value) → handle_epoll_event json peer fd pieces s ≢ starved
  unfolding handle_epoll_event
  handle_epoll_event_ends pieces s =
      let t = recv_to_buffer Value fd pieces s in
      ends (fuel_for json peer fd t) t
        (omega (arith, mark_in (t.clients_data fd).current_state, seat_in (t.clients fd)))
