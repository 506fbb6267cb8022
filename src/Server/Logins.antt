-- ===== src/Server/Logins.antt =====
-- A login: who is let in, and what is answered.
use ix_library.Base.{
  ℕ, ◌+◌, ◌≡◌, refl, ap, ◌∙◌, true, false, none, some, List, [], ◌∷◌, ◌++◌, append_assoc, same,
  utf8,
}
use ix_library.Wire.{Bytes}
use ix_library.Transmit.{transmit}
use ix_library.Json.{Json, IsJson}
use ix_library.Actions.{ok, ◌>>=◌, then_ok, need-some}
use ix_library.Server.{
  Database, Server, UserInfo, held, sends, user_log, at_name, at_id, quoted, query, find_user,
  verify_user_info, info_of, update_info, user_login,
}
use ix_library.Server.Dispatcher.{
  action_name, login, returned, room_info, confirmed, handle_confirmed, handle_login, by_name,
  handle_data,
}
use ix_library.Server.Sending.{sent, transmit_message-sent, held_there, named_there, execute-some}
use ix_library.Server.Answers.{
  returned_to, returned_same, confirmed_nickname, confirmed_same, room_info_to,
}

module _ (json : Json) (database : Database) where
  open json use {Value, Object, get, put, erase, as_text, as_number, dump, of_number}
  open database use {Store}

  verify_user_info-rows :
      (u p : Bytes) (rows : List (Bytes → Bytes)) (s : Server Store)
      → database.query (utf8 "Select username , password ,nickname from local_user_info") s.store
        ≡ some rows
      → verify_user_info json database u p s ≡ (ok (find_user json database u p rows), s)
  unfolding verify_user_info query
  verify_user_info-rows u p rows s e = then_ok _ _ (need-some e) refl

  -- `login` is what the dispatcher takes the text for.
  login_name : action_name (utf8 "login") ≡ login
  unfolding action_name utf8 same
  login_name = refl

  -- A login with a name and a password that no row holds together, from a sender whose session is
  -- there: the tables stay, and the request goes back to its sender with the `confirm` that the sender
  -- wrote into it.
  pub login_refused :
      (laws : IsJson json) (to : ℕ) (u p bytes : Bytes) (rows : List (Bytes → Bytes))
      (info : UserInfo) (j : Object) (s : Server Store)
      → as_text (get "action" j) ≡ some (utf8 "login")
      → as_number (get "from_id" j) ≡ some to
      → as_text (get "username" j) ≡ some u
      → as_text (get "password" j) ≡ some p
      → database.query (utf8 "Select username , password ,nickname from local_user_info") s.store
        ≡ some rows
      → find_user json database u p rows ≡ none
      → s.sessions to ≡ held info
      → (handle_data json database j bytes s
          ≡ (ok tt, sent json database to (returned json database to j) [] s))
        × (get "confirm" (erase "to_id" (returned json database to j)) ≡ get "confirm" j)
  unfolding handle_data by_name handle_login
  login_refused laws to u p bytes rows info j s a f n w q r h =
      let user = ap as_text (returned_same json database laws "username" to j refl refl) ∙ n in
      let word = ap as_text (returned_same json database laws "password" to j refl refl) ∙ w in
      let rows_read = verify_user_info-rows u p rows s q in
      (
        then_ok _ _ (need-some a) (
            rw login_name (
              then_ok _ _ (need-some f) (
                then_ok _ _ (need-some user) (
                  then_ok _ _ (need-some word) (
                    then_ok _ _ rows_read (
                      rw r (
                        transmit_message-sent json database to info (returned json database to j) []
                          s (returned_to json database laws to j) h))))))),
        laws.get_erase_ne "confirm" "to_id" (returned json database to j) refl
            ∙ returned_same json database laws "confirm" to j refl refl,
      )

  -- A login that succeeds, step by step: the name is online under the sender's number, the sender's
  -- session knows its user, and the status is stored.
  abbrev let_in : ℕ → Bytes → Bytes → Bytes → Store → Server Store → Server Store
  let_in to u p n d s = record s {
    local_user_table =
        at_name u (some (record (info_of json database u s) { is_online = true; id = to }))
          s.local_user_table;
    sessions =
        at_id to
          (held
            (record { id = to; username = u; password = p; nickname = some n; is_online = true }))
          s.sessions;
    store = d;
  }

  abbrev logged : Bytes → Server Store → Server Store
  logged u s = record s { events = s.events ++ (user_log u ∷ []) }

  user_login-let_in :
      (to : ℕ) (u p n : Bytes) (info : UserInfo) (s : Server Store)
      → s.sessions to ≡ held info
      → user_login json database to u p n s ≡ (ok tt, let_in to u p n s.store s)
  unfolding user_login update_info ◌>>=◌
  user_login-let_in to u p n info s h = rw h refl

  -- The state in which the answer to the login is sent.
  abbrev greeted : ℕ → Bytes → Bytes → Bytes → Store → Server Store → Server Store
  greeted to u p n d s =
      logged u (
        sent json database to (room_info json database to s.chat_room_list) []
          (let_in to u p n d s))

  handle_confirmed-greeted :
      (laws : IsJson json) (to : ℕ) (u p n : Bytes) (d : Store) (info : UserInfo) (o : Object)
      (s : Server Store)
      → as_text (get "username" o) ≡ some u
      → as_text (get "password" o) ≡ some p
      → as_text (get "nickname" o) ≡ some n
      → database.execute
          (utf8 "update users set status = 'ONLINE' where username = " ++ quoted u)
          s.store
        ≡ some d
      → s.sessions to ≡ held info
      → handle_confirmed json database to u o s ≡ (ok tt, greeted to u p n d s)
  unfolding handle_confirmed
  handle_confirmed-greeted laws to u p n d info o s a b c e h =
      then_ok _ _ (need-some (laws.text_or_text "username" u (utf8 "error") o a)) (
        then_ok _ _ (need-some (laws.text_or_text "password" p (utf8 "error") o b)) (
          then_ok _ _ (need-some (laws.text_or_text "nickname" n (utf8 "unknown") o c)) (
            then_ok _ _ (user_login-let_in to u p n info s h) (
              then_ok _ _
                (execute-some json database
                  (utf8 "update users set status = 'ONLINE' where username = " ++ quoted u) d
                  (let_in to u p n s.store s) e)
                (then_ok _ _ refl (
                  then_ok _ _
                    (transmit_message-sent json database to
                      (record {
                        id = to;
                        username = u;
                        password = p;
                        nickname = some n;
                        is_online = true;
                      })
                      (room_info json database to s.chat_room_list) [] (let_in to u p n d s)
                      (room_info_to json database laws to s.chat_room_list)
                      (held_there json database to
                        (held (record {
                          id = to;
                          username = u;
                          password = p;
                          nickname = some n;
                          is_online = true;
                        }))
                        s.sessions))
                    refl))))))

  handle_login-let_in :
      (laws : IsJson json) (to : ℕ) (u p n bytes : Bytes) (rows : List (Bytes → Bytes)) (d : Store)
      (info : UserInfo) (j : Object) (s : Server Store)
      → as_text (get "action" j) ≡ some (utf8 "login")
      → as_number (get "from_id" j) ≡ some to
      → as_text (get "username" j) ≡ some u
      → as_text (get "password" j) ≡ some p
      → database.query (utf8 "Select username , password ,nickname from local_user_info") s.store
        ≡ some rows
      → find_user json database u p rows ≡ some n
      → database.execute
          (utf8 "update users set status = 'ONLINE' where username = " ++ quoted u)
          s.store
        ≡ some d
      → s.sessions to ≡ held info
      → handle_data json database j bytes s ≡ (
        ok tt,
        sent json database to
            (confirmed json database n (returned json database to j))
            []
            (greeted to u p n d s),
      )
  unfolding handle_data by_name handle_login
  handle_login-let_in laws to u p n bytes rows d info j s a f nm w q r e h =
      let user = ap as_text (returned_same json database laws "username" to j refl refl) ∙ nm in
      let word = ap as_text (returned_same json database laws "password" to j refl refl) ∙ w in
      let o = confirmed json database n (returned json database to j) in
      let opened =
        handle_confirmed-greeted laws to u p n d info o s
          (ap as_text (
              confirmed_same json database laws "username" n (returned json database to j) refl
                refl)
            ∙ user)
          (ap as_text (
              confirmed_same json database laws "password" n (returned json database to j) refl
                refl)
            ∙ word)
          (confirmed_nickname json database laws n (returned json database to j)) e h in
      then_ok _ _ (need-some a) (
        rw login_name (
          then_ok _ _ (need-some f) (
            then_ok _ _ (need-some user) (
              then_ok _ _ (need-some word) (
                then_ok _ _ (verify_user_info-rows u p rows s q) (
                  rw r (
                    then_ok _ _ opened (
                      transmit_message-sent json database to
                        (record {
                          id = to;
                          username = u;
                          password = p;
                          nickname = some n;
                          is_online = true;
                        })
                        o [] (greeted to u p n d s)
                        (ap as_number (
                            confirmed_same json database laws "to_id" n
                              (returned json database to j) refl refl)
                          ∙ returned_to json database laws to j)
                        (held_there json database to
                          (held (record {
                            id = to;
                            username = u;
                            password = p;
                            nickname = some n;
                            is_online = true;
                          }))
                          s.sessions)))))))))

  -- What a state says of a name that came in: it is online under `to`, the session `to` is its own,
  -- and what was sent is the rooms, the call of the log, and the request with `confirm` and nickname.
  pub record IsLoggedIn (to : ℕ) (u p n : Bytes) (j : Object) (s t : Server Store) : Type 0 where
    pub online :
        t.local_user_table u
        ≡ some (record (info_of json database u s) { is_online = true; id = to })
    pub session :
        t.sessions to
        ≡ held (record { id = to; username = u; password = p; nickname = some n; is_online = true })
    pub others : (v : Bytes) → same v u ≡ false → t.local_user_table v ≡ s.local_user_table v
    pub answers :
        t.events
        ≡ s.events
          ++ (sends to (
                transmit s.id_increment
                  (dump (erase "to_id" (room_info json database to s.chat_room_list)))
                  [])
              ∷ user_log u
              ∷ sends to (
                  transmit
                    (s.id_increment + 1)
                    (dump (erase "to_id" (confirmed json database n (returned json database to j))))
                    [])
              ∷ [])

  three :
      {A : Type 0} (xs : List A) (a b c : A)
      → ((xs ++ (a ∷ [])) ++ (b ∷ [])) ++ (c ∷ []) ≡ xs ++ (a ∷ b ∷ c ∷ [])
  three xs a b c =
      ap (λ ys. ys ++ (c ∷ [])) (append_assoc xs (a ∷ []) (b ∷ []))
      ∙ append_assoc xs (a ∷ b ∷ []) (c ∷ [])

  -- A login with a name and a password that a row holds together, by a session that is there, returns
  -- once the status is stored: the name is online under the sender's number and no other name is
  -- touched, the session carries the user, and the sender is sent the rooms, then its own request with
  -- `confirm` set and the row's nickname.
  pub login_accepted :
      (laws : IsJson json) (to : ℕ) (u p n bytes : Bytes) (rows : List (Bytes → Bytes)) (d : Store)
      (info : UserInfo) (j : Object) (s : Server Store)
      → as_text (get "action" j) ≡ some (utf8 "login")
      → as_number (get "from_id" j) ≡ some to
      → as_text (get "username" j) ≡ some u
      → as_text (get "password" j) ≡ some p
      → database.query (utf8 "Select username , password ,nickname from local_user_info") s.store
        ≡ some rows
      → find_user json database u p rows ≡ some n
      → database.execute
          (utf8 "update users set status = 'ONLINE' where username = " ++ quoted u)
          s.store
        ≡ some d
      → s.sessions to ≡ held info
      → ((handle_data json database j bytes s).0 ≡ ok tt)
        × IsLoggedIn to u p n j s (handle_data json database j bytes s).1
  login_accepted laws to u p n bytes rows d info j s a f nm w q r e h =
      rw (handle_login-let_in laws to u p n bytes rows d info j s a f nm w q r e h) (
        refl,
        record {
          online = named_there json database u _ s.local_user_table;
          session = held_there json database to _ s.sessions;
          others = λ v o. rw o refl;
          answers = three s.events _ _ _;
        },
      )
