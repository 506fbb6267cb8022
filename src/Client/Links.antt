-- ===== src/Client/Links.antt =====
-- The client's connection: what `is_connected` promises of the session that it sends through.
use ix_library.Base.{
  ℕ, ◌+◌, ◌≤◌, ◌<◌, ◌≡◌, refl, subst, Bool, true, false, List, [], ◌∷◌, ◌++◌, ◌==◌, eq→==, arith,
  if◌then◌else◌,
}
use ix_library.Wire.{Bytes}
use ix_library.Transmit.{send_to}
use ix_library.Json.{Json}
use ix_library.Actions.{ok, thrown, Done, ◌>>=◌, Holds, Keeps, bind-Keeps, need-Keeps, when-Keeps}
use mathlib.Core.Bool.{false≢true}
use ix_library.Client.{
  Link, absent, null, live, Client, Call, started, Event, sends, connect_callback, link_at,
  get_id_increment, connected, emit, through_link, post, disconnect, init_local_user_info,
  post_pair, log_out, login_success, print_rooms, set_chat_room_list, request_chat_his, handle_chat,
  ping,
}
use ix_library.Client.Dispatcher.{
  login, chat, feedback, recv_chat_his, rooms_receive, chat_his_from_server, disconnected,
  ping as ping_name, other, handle_data, by_name, ActionName, handle_login,
}

-- While the client is connected, `sessions` holds a session at `cur_id`; numbers not given out have none.
pub record Linked (next : ℕ) (sessions : ℕ → Link) (is_connected : Bool) (cur : ℕ) : Type 0 where
  pub link : is_connected ≡ true → sessions cur ≡ live
  pub fresh : (i : ℕ) → next ≤ i → sessions i ≡ absent

abbrev pub IsLinked : Client → Type 0
IsLinked s = Linked s.id_increment s.sessions s.is_connected s.local_user_info.cur_id

started-IsLinked : (cur : ℕ) → IsLinked (started cur)
started-IsLinked cur = record { link = λ h. elim (false≢true h) [ ]; fresh = λ i h. refl }

at_other : (i k next : ℕ) → k + 1 ≤ next → next ≤ i → (i == k) ≡ false
at_other i k next a b = ground arith

-- `emplace` under the number just given out.
connected-link :
    (s : Client)
    → s.sessions s.id_increment ≡ absent
    → connected true s ≡ (
      ok tt,
      record s {
        id_increment = s.id_increment + 1;
        sessions = link_at s.id_increment live s.sessions;
        is_connected = true;
        local_user_info = record (s.local_user_info) { cur_id = s.id_increment };
        events = s.events ++ (connect_callback ∷ []);
      },
    )
unfolding connected ◌>>=◌
connected-link s h = rw (h, eq→== s.id_increment s.id_increment refl) refl

connected-Keeps : (made : Bool) → Keeps IsLinked (connected made)
unfolding connected
connected-Keeps false s h = h
connected-Keeps true s h = rw (connected-link s (h.fresh s.id_increment (omega arith))) (record {
  link = λ c. rw (eq→== s.id_increment s.id_increment refl) refl;
  fresh = λ i b.
      rw (at_other i s.id_increment (s.id_increment + 1) (omega arith) b)
        (h.fresh i (omega (arith, b)));
})

number-Keeps : Keeps IsLinked get_id_increment
unfolding ◌>>=◌
number-Keeps s h = record { link = h.link; fresh = λ i b. h.fresh i (omega (arith, b)) }

emit-Keeps : (e : Event) → Keeps IsLinked (emit e)
emit-Keeps e s h = h

through_link-Keeps :
    (l : Link) (cur : ℕ) (m : Call Done) → Keeps IsLinked m → Keeps IsLinked (through_link l cur m)
through_link-Keeps absent cur m k s h = tt
through_link-Keeps null cur m k s h = tt
through_link-Keeps live cur m k s h = k s h

post-Keeps : (json_size : ℕ) (msg : Bytes) → Keeps IsLinked (post json_size msg)
unfolding post
post-Keeps json_size msg = bind-Keeps IsLinked _ _ number-Keeps (λ id.
    bind-Keeps IsLinked _ _ (λ s h. h)
      (λ cur s h.
        through_link-Keeps (s.sessions cur) cur _ (emit-Keeps (sends (send_to id json_size msg))) s
          h))

disconnect-Keeps : Keeps IsLinked disconnect
unfolding disconnect ◌>>=◌
disconnect-Keeps s h = record {
  link = λ c. elim (false≢true c) [ ];
  fresh = λ i b. by_test (i == s.local_user_info.cur_id) (h.fresh i b);
}
  where
    by_test : {l : Link} (b : Bool) → l ≡ absent → (if b then absent else l) ≡ absent
    by_test false e = e
    by_test true e = refl

init-Keeps : Keeps IsLinked init_local_user_info
unfolding init_local_user_info
init-Keeps s h = h

module _ (json : Json) where
  open json use {Object}

  post_pair-Keeps : (p : ℕ × Bytes) → Keeps IsLinked (post_pair json p)
  post_pair-Keeps (size, msg) = post-Keeps size msg

  log_out-Keeps : Keeps IsLinked (log_out json)
  unfolding log_out
  log_out-Keeps s h =
      when-Keeps IsLinked s.local_user_info.is_logined _
        (bind-Keeps IsLinked _ _ (when-Keeps IsLinked s.is_connected _ (post_pair-Keeps _))
          (λ a. init-Keeps))
        s h

  login_success-Keeps : (j : Object) → Keeps IsLinked (login_success json j)
  unfolding login_success
  login_success-Keeps j = bind-Keeps IsLinked _ _ (need-Keeps IsLinked _) (λ n.
      bind-Keeps IsLinked _ _ (λ s h. h)
        (λ a.
          bind-Keeps IsLinked _ _ (need-Keeps IsLinked _)
            (λ u. bind-Keeps IsLinked _ _ (λ s h. h) (λ b s h. h))))

  print_rooms-Keeps : (rooms : List (List Bytes)) → Keeps IsLinked (print_rooms rooms)
  unfolding print_rooms
  print_rooms-Keeps [] s h = h
  print_rooms-Keeps ([] ∷ more) s h = tt
  print_rooms-Keeps ((t ∷ []) ∷ more) s h = tt
  print_rooms-Keeps ((t ∷ u ∷ ts) ∷ more) s h = print_rooms-Keeps more s h

  by_name-Keeps :
      (a : ActionName) (j : Object) (bytes : Bytes) → Keeps IsLinked (by_name json a j bytes)
  unfolding by_name handle_login handle_chat set_chat_room_list
  by_name-Keeps login j bytes =
      bind-Keeps IsLinked _ _ (need-Keeps IsLinked _) (λ c.
        bind-Keeps IsLinked _ _ (when-Keeps IsLinked c _ (login_success-Keeps j)) (λ a s h. h))
  by_name-Keeps chat j bytes = bind-Keeps IsLinked _ _ (need-Keeps IsLinked _) (λ u s h. h)
  by_name-Keeps feedback j bytes = λ s h. h
  by_name-Keeps recv_chat_his j bytes = λ s h. h
  by_name-Keeps rooms_receive j bytes = bind-Keeps IsLinked _ _ (need-Keeps IsLinked _) (λ r.
      bind-Keeps IsLinked _ _ (bind-Keeps IsLinked _ _ (λ s h. h) (λ a. print_rooms-Keeps r))
        (λ a s h. h))
  by_name-Keeps chat_his_from_server j bytes = λ s h. h
  by_name-Keeps disconnected j bytes = disconnect-Keeps
  by_name-Keeps ping_name j bytes = bind-Keeps IsLinked _ _ (need-Keeps IsLinked _) (λ t s h. h)
  by_name-Keeps other j bytes = λ s h. h

  handle_data-Keeps : (j : Object) (bytes : Bytes) → Keeps IsLinked (handle_data json j bytes)
  unfolding handle_data
  handle_data-Keeps j bytes =
      bind-Keeps IsLinked _ _ (need-Keeps IsLinked _) (λ x. by_name-Keeps _ j bytes)

  -- What the application and the connection call, of all that is public and changes the state; what else the
  -- dispatcher calls is part of `receiving`.
  pub data Op : Type 0 where
    connecting : Bool → Op
    disconnecting logging_out initializing : Op
    requesting_chat_his : Bytes → Op
    sending : ℕ → Bytes → Op
    pinging : ℕ → Op
    receiving : Object → Bytes → Op

  unfoldable pub step : Op → Call Done
  unfolding connected disconnect log_out init_local_user_info request_chat_his post ping handle_data
  step (connecting made) = connected made
  step disconnecting = disconnect
  step logging_out = log_out json
  step initializing = init_local_user_info
  step (requesting_chat_his name) = request_chat_his json name
  step (sending json_size msg) = post json_size msg
  step (pinging now) = ping json now
  step (receiving j bytes) = handle_data json j bytes

  step-Keeps : (op : Op) → Keeps IsLinked (step op)
  unfolding step request_chat_his ping
  step-Keeps (connecting made) = connected-Keeps made
  step-Keeps disconnecting = disconnect-Keeps
  step-Keeps logging_out = log_out-Keeps
  step-Keeps initializing = init-Keeps
  step-Keeps (requesting_chat_his name) = post_pair-Keeps _
  step-Keeps (sending json_size msg) = post-Keeps _ _
  step-Keeps (pinging now) = post-Keeps _ _
  step-Keeps (receiving j bytes) = handle_data-Keeps j bytes

  -- Of `id_increment`, an `int`, that it has not come to its largest value, after which it wraps.
  abbrev pub HasNumbers : Client → Type 0
  HasNumbers s = s.id_increment < 2147483647

  -- The states that a client can be in while it has numbers left: an exception leaves the state as
  -- far as the call came.
  pub data Reached (cur : ℕ) : Client → Type 0 where
    first : Reached cur (started cur)
    returned :
        {s t : Client} (op : Op)
        → Reached cur s
        → step op s ≡ (ok tt, t)
        → HasNumbers t
        → Reached cur t
    raised :
        {s t : Client} (op : Op)
        → Reached cur s
        → step op s ≡ (thrown, t)
        → HasNumbers t
        → Reached cur t

  Reached-IsLinked : {cur : ℕ} {s : Client} → Reached cur s → IsLinked s
  Reached-IsLinked {cur = cur} first = started-IsLinked cur
  Reached-IsLinked (returned {s = s} op r e n) =
      subst (Holds IsLinked) e (step-Keeps op s (Reached-IsLinked r))
  Reached-IsLinked (raised {s = s} op r e n) =
      subst (Holds IsLinked) e (step-Keeps op s (Reached-IsLinked r))

  -- In every state that a client can reach before `id_increment` is at the largest `int`, a connected
  -- client holds a session at the number it sends through, and no number that is still to be given
  -- out has one.
  pub reached_is_linked :
      (cur : ℕ) (s : Client)
      → Reached cur s
      → (s.is_connected ≡ true → s.sessions s.local_user_info.cur_id ≡ live)
        × ((i : ℕ) → s.id_increment ≤ i → s.sessions i ≡ absent)
  reached_is_linked cur s r = (Linked.link (Reached-IsLinked r), Linked.fresh (Reached-IsLinked r))
