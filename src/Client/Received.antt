-- ===== src/Client/Received.antt =====
-- What the client makes of the messages that answer a login, and of a posted job.
use ix_library.Base.{ℕ, ◌≡◌, refl, true, false, some, List, [], ◌∷◌, ◌++◌, utf8, same}
use ix_library.Wire.{Bytes}
use ix_library.Session.{message}
use ix_library.Session.Deliveries.{hand_over, deliver}
use ix_library.Json.{Json, IsJson}
use ix_library.Actions.{ok, then_ok, need-some, when-true, attempt_ok}
use ix_library.Client.{
  Client, recv_chat_list_callback, login_callback, login_success, print_rooms, set_chat_room_list,
}
use ix_library.Client.Dispatcher.{
  login, rooms_receive, action_name, handle_login, by_name, handle_data,
}

-- Each room has the two texts that are printed.
abbrev pub AllWide : List (List Bytes) → Type 0
AllWide [] = Unit {0}
AllWide ([] ∷ more) = ⊥
AllWide ((t ∷ []) ∷ more) = ⊥
AllWide ((t ∷ u ∷ ts) ∷ more) = AllWide more

print_rooms-wide :
    (rooms : List (List Bytes)) (s : Client) → AllWide rooms → print_rooms rooms s ≡ (ok tt, s)
unfolding print_rooms
print_rooms-wide [] s w = refl
print_rooms-wide ([] ∷ more) s w = elim w [ ]
print_rooms-wide ((t ∷ []) ∷ more) s w = elim w [ ]
print_rooms-wide ((t ∷ u ∷ ts) ∷ more) s w = print_rooms-wide more s w

rooms_name : action_name (utf8 "rooms_receive") ≡ rooms_receive
unfolding action_name utf8 same
rooms_name = refl

login_name : action_name (utf8 "login") ≡ login
unfolding action_name utf8 same
login_name = refl

module _ (json : Json) where
  open json use {
    Object, get, put, erase, has, as_text, as_flag, table_or, of_number, of_text, of_flag, of_table,
    dump, parse,
  }

  -- The rooms as the client has them after the message.
  abbrev pub roomed : List (List Bytes) → Client → Client
  roomed rooms c = record c {
    chat_lists = rooms;
    events = c.events ++ (recv_chat_list_callback ∷ []);
  }

  pub rooms_receive-roomed :
      (o : Object) (rooms : List (List Bytes)) (bytes : Bytes) (c : Client)
      → as_text (get "action" o) ≡ some (utf8 "rooms_receive")
      → table_or "room_names" [] o ≡ some rooms
      → AllWide rooms
      → handle_data json o bytes c ≡ (ok tt, roomed rooms c)
  unfolding handle_data by_name set_chat_room_list
  rooms_receive-roomed o rooms bytes c a r w = then_ok _ _ (need-some a) (
      rw rooms_name (
        then_ok _ _ (need-some r)
          (then_ok _ _ (then_ok _ _ refl (print_rooms-wide rooms _ w)) refl)))

  -- The user as the client has it after a login.
  abbrev pub logined : Bytes → Bytes → Client → Client
  logined u n c = record c {
    local_user_info = record (c.local_user_info) { nickname = n; username = u; is_logined = true };
    events = c.events ++ (login_callback ∷ []);
  }

  login_success-named :
      (o : Object) (u n : Bytes) (c : Client)
      → as_text (get "nickname" o) ≡ some n
      → as_text (get "username" o) ≡ some u
      → login_success json o c ≡ (
        ok tt,
        record c {
          local_user_info = record (c.local_user_info) {
            nickname = n;
            username = u;
            is_logined = true;
          };
        },
      )
  unfolding login_success
  login_success-named o u n c b d =
      then_ok _ _ (need-some b)
        (then_ok _ _ refl (then_ok _ _ (need-some d) (then_ok _ _ refl refl)))

  pub login-logined :
      (o : Object) (u n bytes : Bytes) (c : Client)
      → as_text (get "action" o) ≡ some (utf8 "login")
      → as_flag (get "confirm" o) ≡ some true
      → as_text (get "nickname" o) ≡ some n
      → as_text (get "username" o) ≡ some u
      → handle_data json o bytes c ≡ (ok tt, logined u n c)
  unfolding handle_data by_name handle_login
  login-logined o u n bytes c a f b d = then_ok _ _ (need-some a) (
      rw login_name (
        then_ok _ _ (need-some f) (
          then_ok _ _ (when-true (login_success json o) refl (login_success-named o u n c b d))
            refl)))

  pub deliver-parsed :
      (id : ℕ) (o : Object) (context : Bytes) (c : Client) {t : Client}
      → (laws : IsJson json) → parse (dump o) ≡ some o
      → has "from_id" o ≡ false
      → handle_data json (put "from_id" (of_number id) o) context c ≡ (ok tt, t)
      → deliver json id (handle_data json) (message (dump o) context) c ≡ (ok tt, t)
  unfolding deliver hand_over
  deliver-parsed id o context c laws p h e = attempt_ok _ (
      then_ok _ _ (need-some p)
        (then_ok _ _ (need-some (laws.number_or_missing "from_id" id o h)) e))
