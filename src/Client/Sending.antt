-- ===== src/Client/Sending.antt =====
-- What the client sends on, and when there is nothing to send through.
use ix_library.Base.{
  ℕ, ◌+◌, ◌≡◌, refl, true, false, Bool-cases, [], ◌∷◌, ◌++◌, length, eq→==, if◌then◌else◌, inl, inr,
  ◌⊎◌,
}
use ix_library.Wire.{Bytes}
use ix_library.Transmit.{send_to}
use ix_library.Json.{Json}
use ix_library.Actions.{ok, crashed, ◌>>=◌, then_ok, when-true, when-false}
use ix_library.Client.{
  absent, live, Client, sends, connect_callback, link_at, post, disconnect, init_local_user_info,
  no_user, log_out, log_out_of, packaging, request_chat_his, ping,
}
use ix_library.Client.Links.{Reached, reached_is_linked}

post-live :
    (size : ℕ) (msg : Bytes) (s : Client)
    → s.sessions s.local_user_info.cur_id ≡ live
    → post size msg s ≡ (
      ok tt,
      record s {
        id_increment = s.id_increment + 1;
        events = s.events ++ (sends (send_to s.id_increment size msg) ∷ []);
      },
    )
unfolding post ◌>>=◌
post-live size msg s h = rw h refl

post-absent :
    (size : ℕ) (msg : Bytes) (s : Client)
    → s.sessions s.local_user_info.cur_id ≡ absent
    → (post size msg s).0 ≡ crashed
unfolding post ◌>>=◌
post-absent size msg s h = rw h refl

-- The state that `disconnect` leaves.
abbrev left : Client → Client
left s = record s {
  is_connected = false;
  sessions = link_at s.local_user_info.cur_id absent s.sessions;
  events = s.events ++ (connect_callback ∷ []);
}

disconnect-left : (s : Client) → disconnect s ≡ (ok tt, left s)
unfolding disconnect ◌>>=◌
disconnect-left s = refl

left_absent : (s : Client) → (left s).sessions (left s).local_user_info.cur_id ≡ absent
left_absent s = rw (eq→== s.local_user_info.cur_id s.local_user_info.cur_id refl) refl

module _ (json : Json) where
  open json use {Object, dump}

  -- The state after a user that is connected logged out.
  abbrev out_of : Client → Client
  out_of s =
      let o = dump (log_out_of json s.local_user_info.username) in
      record s {
        id_increment = s.id_increment + 1;
        events = s.events ++ (sends (send_to s.id_increment (length o) o) ∷ []);
        local_user_info = no_user s.local_user_info.cur_id;
      }

  log_out-connected :
      (s : Client)
      → s.local_user_info.is_logined ≡ true
      → s.is_connected ≡ true
      → s.sessions s.local_user_info.cur_id ≡ live
      → log_out json s ≡ (ok tt, out_of s)
  unfolding log_out packaging init_local_user_info
  log_out-connected s l c h =
      let o = dump (log_out_of json s.local_user_info.username) in
      when-true _ l (then_ok _ _ (when-true _ c (post-live (length o) o s h)) refl)

  log_out-unconnected :
      (s : Client)
      → s.local_user_info.is_logined ≡ true
      → s.is_connected ≡ false
      → log_out json s ≡ (ok tt, record s { local_user_info = no_user s.local_user_info.cur_id })
  unfolding log_out init_local_user_info
  log_out-unconnected s l c = when-true _ l (then_ok _ _ (when-false _ c) refl)

  log_out-nobody : (s : Client) → s.local_user_info.is_logined ≡ false → log_out json s ≡ (ok tt, s)
  unfolding log_out
  log_out-nobody s l = when-false _ l

  -- In every state that a client can reach, `log_out` returns and nobody is logged in after it; it sends
  -- the message that names the user where one was logged in and the client connected, else nothing.
  pub log_out_returns :
      (cur : ℕ) (s : Client)
      → Reached json cur s
      → (((log_out json s).0 ≡ ok tt) × ((log_out json s).1.local_user_info.is_logined ≡ false))
        × ((log_out json s).1.events
            ≡ (if s.local_user_info.is_logined
                then (if s.is_connected then out_of s else s)
                else s).events)
  log_out_returns cur s r =
      by_case (Bool-cases s.local_user_info.is_logined) (Bool-cases s.is_connected)
    where
      by_case :
          (s.local_user_info.is_logined ≡ true) ⊎ (s.local_user_info.is_logined ≡ false)
          → (s.is_connected ≡ true) ⊎ (s.is_connected ≡ false)
          → (((log_out json s).0 ≡ ok tt) × ((log_out json s).1.local_user_info.is_logined ≡ false))
            × ((log_out json s).1.events
                ≡ (if s.local_user_info.is_logined
                    then (if s.is_connected then out_of s else s)
                    else s).events)
      by_case (inl l) (inl c) =
          rw (log_out-connected s l c ((reached_is_linked json cur s r).0 c), l, c)
            ((refl, refl), refl)
      by_case (inl l) (inr c) = rw (log_out-unconnected s l c, l, c) ((refl, refl), refl)
      by_case (inr l) c = rw (log_out-nobody s l, l) ((refl, refl), refl)

  -- After `disconnect`, whatever the state, `Ping` and `request_chat_his` follow a null pointer: they ask
  -- neither `is_connected` nor `sessions`.
  pub disconnected_crashes :
      (s : Client) (now : ℕ) (name : Bytes)
      → ((disconnect s).0 ≡ ok tt)
        × (((ping json now (disconnect s).1).0 ≡ crashed)
            × ((request_chat_his json name (disconnect s).1).0 ≡ crashed))
  unfolding ping request_chat_his packaging
  disconnected_crashes s now name =
      rw (disconnect-left s)
        (refl, (post-absent _ _ (left s) (left_absent s), post-absent _ _ (left s) (left_absent s)))
