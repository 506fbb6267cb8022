-- ===== src/Server/Leaving.antt =====
-- What is left of a user whose connection ended.
use ix_library.Base.{ℕ, ◌+◌, ◌≡◌, refl, ap, ◌∙◌, true, Option, none, some, [], ◌++◌, same, utf8}
use ix_library.Wire.{Bytes}
use ix_library.Session.Deliveries
use ix_library.Json.{Json, IsJson}
use ix_library.Actions.{
  ok, crashed, then_ok, then_crashed, need-some, attempt, attempt_ok, attempt_thrown,
  attempt_crashed,
}
use ix_library.Server.{
  quoted, null, Database, Server, UserInfo, absent, object, at_id, execute, delete_user,
  transmit_message,
}
use ix_library.Server.Dispatcher.{
  action_name, disconnect, handle_chat, handle_disconnect, by_name, handle_data,
}
use ix_library.Server.Sending.{execute-some, execute-none, transmit_message-crashed, held_there}
use ix_library.Server.Chats.{chat_name, get_id-some, is_online-some}

disconnect_name : action_name (utf8 "disconnect") ≡ disconnect
unfolding action_name utf8 same
disconnect_name = refl

module _ (json : Json) (database : Database) where
  open json use {Value, Object, get, put, erase, as_text, as_number, dump, of_number, of_text}

  -- A chat to a name that is online under a number that no session has.
  chat_crashed :
      (laws : IsJson json) (target bytes : Bytes) (user : UserInfo) (j : Object)
      (s : Server database.Store)
      → as_text (get "action" j) ≡ some (utf8 "chat")
      → as_text (get "to" j) ≡ some target
      → s.local_user_table target ≡ some user
      → user.is_online ≡ true
      → s.sessions user.id ≡ absent
      → (handle_data json database j bytes s).0 ≡ crashed
  unfolding handle_data by_name handle_chat
  chat_crashed laws target bytes user j s a t e o h =
      let message = put "to_id" (of_number user.id) j in
      let goes =
        transmit_message-crashed json database user.id message bytes s
          (ap as_number (laws.get_put "to_id" (of_number user.id) j) ∙ laws.number_back user.id)
          h in
      ap (λ r. r.0)
        {y = (
          crashed,
          record s { id_increment = s.id_increment + 1; sessions = at_id user.id null s.sessions },
        )}
        (then_ok _ _ (need-some a) (
          rw chat_name (
            then_ok _ _ (need-some t) (
              then_ok _ _ (get_id-some json database target user s e) (
                then_crashed _ _ (
                  then_ok _ _ (is_online-some json database target user s e) (
                    rw o (
                      then_crashed _ _ (
                        attempt_crashed (transmit_message json database (object message) bytes)
                          goes)))))))))

  -- The store after a statement whose exception is caught.
  abbrev stored : Option database.Store → database.Store → database.Store
  stored none d = d
  stored (some e) d = e

  attempt_execute :
      (q : Bytes) (s : Server database.Store)
      → attempt (execute json database q) s
        ≡ (ok tt, record s { store = stored (database.execute q s.store) s.store })
  attempt_execute q s = by_case (database.execute q s.store) refl
    where
      by_case :
          (o : Option database.Store)
          → database.execute q s.store ≡ o
          → attempt (execute json database q) s
            ≡ (ok tt, record s { store = stored (database.execute q s.store) s.store })
      by_case none e =
          attempt_thrown (execute json database q) (execute-none json database q s e) ∙ rw e refl
      by_case (some d) e =
          attempt_ok (execute json database q) (execute-some json database q d s e) ∙ rw e refl

  handle_disconnect-left :
      (id : ℕ) (username bytes : Bytes) (j : Object) (s : Server database.Store)
      → as_text (get "action" j) ≡ some (utf8 "disconnect")
      → as_number (get "id" j) ≡ some id
      → as_text (get "username" j) ≡ some username
      → handle_data json database j bytes s ≡ (
        ok tt,
        record s {
          sessions = at_id id absent s.sessions;
          store =
              stored
                (database.execute
                  (utf8 "update users set status = 'OFFLINE' where username = " ++ quoted username)
                  s.store)
                s.store;
        },
      )
  unfolding handle_data by_name handle_disconnect delete_user
  handle_disconnect-left id username bytes j s a n u = then_ok _ _ (need-some a) (
      rw disconnect_name (
        then_ok _ _ (need-some n) (
          then_ok _ _ refl (
            then_ok _ _ (need-some u) (
              attempt_execute
                (utf8 "update users set status = 'OFFLINE' where username = " ++ quoted username)
                (record s { sessions = at_id id absent s.sessions }))))))

  disconnect-left :
      (laws : IsJson json) (id : ℕ) (username : Bytes) (s : Server database.Store)
      → Deliveries.disconnect json id (handle_data json database) username s ≡ (
        ok tt,
        record s {
          sessions = at_id id absent s.sessions;
          store =
              stored
                (database.execute
                  (utf8 "update users set status = 'OFFLINE' where username = " ++ quoted username)
                  s.store)
                s.store;
        },
      )
  unfolding Deliveries.disconnect Deliveries.hand_over
  disconnect-left laws id username s =
      let o =
        put "from_id" (of_number id)
          (Deliveries.farewell json id (handle_data json database) username) in
      attempt_ok _ (
        then_ok _ _
          (need-some (
            laws.number_or_missing "from_id" id _ (
              laws.has_put_ne "from_id" "username" _ _ refl
              ∙ laws.has_put_ne "from_id" "id" _ _ refl
              ∙ laws.has_put_ne "from_id" "action" _ _ refl
              ∙ laws.has_empty "from_id")))
          (handle_disconnect-left id username [] o s
            (ap as_text (
                laws.get_put_ne "action" "from_id" _ _ refl
                ∙ laws.get_put_ne "action" "username" _ _ refl
                ∙ laws.get_put_ne "action" "id" _ _ refl
                ∙ laws.get_put "action" _ _)
              ∙ laws.text_back (utf8 "disconnect"))
            (ap as_number (
                laws.get_put_ne "id" "from_id" _ _ refl
                ∙ laws.get_put_ne "id" "username" _ _ refl
                ∙ laws.get_put "id" _ _)
              ∙ laws.number_back id)
            (ap as_text
                (laws.get_put_ne "username" "from_id" _ _ refl ∙ laws.get_put "username" _ _)
              ∙ laws.text_back username)))

  -- What follows for a chat to the user: after an end of file the process crashes; after another error
  -- the server has not changed.
  abbrev pub Follows :
      Deliveries.ErrorCode → Object → Bytes → Server database.Store → Server database.Store → Type 0
  Follows Deliveries.eof j bytes s t = (handle_data json database j bytes t).0 ≡ crashed
  Follows Deliveries.connection_aborted j bytes s t = t ≡ s
  Follows Deliveries.other_error j bytes s t = t ≡ s

  -- Reading from or writing to the connection of a user that is online fails. Whatever the error, the
  -- name is online in the table with the same number. If it is the end of the file, no session has
  -- that number any more, and a message for the user crashes the process; with another error the
  -- server stays as it was.
  pub disconnect_then_chat_crashed :
      (laws : IsJson json) (code : Deliveries.ErrorCode) (username bytes : Bytes) (user : UserInfo)
      (j : Object) (s t : Server database.Store)
      → t ≡ (Deliveries.handle_error json user.id (handle_data json database) code username s).1
      → as_text (get "action" j) ≡ some (utf8 "chat")
      → as_text (get "to" j) ≡ some username
      → s.local_user_table username ≡ some user
      → user.is_online ≡ true
      → (t.local_user_table username ≡ some user) × Follows code j bytes s t
  unfolding Deliveries.handle_error
  disconnect_then_chat_crashed laws Deliveries.eof username bytes user j s t r b c e o =
      let left = r ∙ ap (λ x. x.1) (disconnect-left laws user.id username s) in
      rw left (
        e,
        chat_crashed laws username bytes user j _ b c e o
            (held_there json database user.id absent s.sessions),
      )
  disconnect_then_chat_crashed laws Deliveries.connection_aborted username bytes user j s t r b c e
        o =
      (ap (λ x. x.local_user_table username) r ∙ e, r)
  disconnect_then_chat_crashed laws Deliveries.other_error username bytes user j s t r b c e o =
      (ap (λ x. x.local_user_table username) r ∙ e, r)
