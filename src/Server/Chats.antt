-- ===== src/Server/Chats.antt =====
-- Chats: where they go, and what their sender is answered.
use ix_library.Base.{ℕ, ◌≡◌, refl, ap, ◌∙◌, false, true, none, some, [], same, utf8}
use ix_library.Wire.{Bytes}
use ix_library.Json.{Json, IsJson}
use ix_library.Actions.{ok, then_ok, need-some, attempt_ok}
use ix_library.Server.{
  Database, Server, UserInfo, held, object, is_online, get_id, transmit_message,
}
use ix_library.Server.Dispatcher.{
  action_name, chat, feedback, failed, handle_chat, by_name, handle_data,
}
use ix_library.Server.Sending.{sent, transmit_message-sent}

pub chat_name : action_name (utf8 "chat") ≡ chat
unfolding action_name utf8 same
chat_name = refl

module _ (json : Json) (database : Database) where
  open json use {Value, Object, get, put, erase, as_text, as_number, dump, of_number, of_text}

  get_id-none :
      (target : Bytes) (s : Server database.Store)
      → s.local_user_table target ≡ none
      → get_id json database target s ≡ (ok none, s)
  unfolding get_id
  get_id-none target s e = rw (e, get_id) refl

  pub get_id-some :
      (target : Bytes) (u : UserInfo) (s : Server database.Store)
      → s.local_user_table target ≡ some u
      → get_id json database target s ≡ (ok (some u.id), s)
  unfolding get_id
  get_id-some target u s e = rw (e, get_id) refl

  pub is_online-some :
      (target : Bytes) (u : UserInfo) (s : Server database.Store)
      → s.local_user_table target ≡ some u
      → is_online json database target s ≡ (ok u.is_online, s)
  unfolding is_online
  is_online-some target u s e = rw (e, is_online) refl

  feedback_to : (laws : IsJson json) (v : Value) → get "to_id" (feedback json database v) ≡ v
  feedback_to laws v = laws.get_put_ne "to_id" "condition" _ _ refl ∙ laws.get_put "to_id" v _

  failed_to :
      (laws : IsJson json) (b : Bytes) (o : Object)
      → get "to_id" (failed json database b o) ≡ get "to_id" o
  failed_to laws b o =
      laws.get_put_ne "to_id" "error" _ _ refl ∙ laws.get_put_ne "to_id" "condition" _ o refl

  -- Where the target of a chat is: its name never came in, it is not online, or it is online under a
  -- number whose session is there.
  pub data Target (target : Bytes) (s : Server database.Store) : Type 0 where
    nowhere : s.local_user_table target ≡ none → Target target s
    offline :
        (user : UserInfo)
        → s.local_user_table target ≡ some user
        → user.is_online ≡ false
        → Target target s
    online :
        (user receiver : UserInfo)
        → s.local_user_table target ≡ some user
        → user.is_online ≡ true
        → s.sessions user.id ≡ held receiver
        → Target target s

  -- The chat is sent on to a target that is online, with that session's number and its bytes.
  abbrev pub passed_on :
      (target bytes : Bytes) (j : Object) (s : Server database.Store)
      → Target target s
      → Server database.Store
  passed_on target bytes j s (nowhere e) = s
  passed_on target bytes j s (offline user e o) = s
  passed_on target bytes j s (online user receiver e o h) =
      sent json database user.id (put "to_id" (of_number user.id) j) bytes s

  -- What the answer says: whether the chat went on, and if not why.
  abbrev pub Says : {target : Bytes} {s : Server database.Store} → Target target s → Object → Type 0
  Says (nowhere e) o =
      (get "condition" o ≡ of_text (utf8 "failed")) × (get "error" o ≡ of_text (utf8 "未知对象"))
  Says (offline user e f) o =
      (get "condition" o ≡ of_text (utf8 "failed")) × (get "error" o ≡ of_text (utf8 "对方未上线"))
  Says (online user receiver e f h) o = get "condition" o ≡ of_text (utf8 "success")

  feedback_says :
      (laws : IsJson json) (v : Value)
      → get "condition" (feedback json database v) ≡ of_text (utf8 "success")
  feedback_says laws v = laws.get_put "condition" _ _

  feedback_action :
      (laws : IsJson json) (v : Value)
      → get "action" (feedback json database v) ≡ of_text (utf8 "feedback")
  feedback_action laws v =
      laws.get_put_ne "action" "condition" _ _ refl
      ∙ laws.get_put_ne "action" "to_id" _ _ refl
      ∙ laws.get_put_ne "action" "from" _ _ refl
      ∙ laws.get_put "action" _ _

  failed_action :
      (laws : IsJson json) (b : Bytes) (v : Value)
      → get "action" (failed json database b (feedback json database v)) ≡ of_text (utf8 "feedback")
  failed_action laws b v =
      laws.get_put_ne "action" "error" _ _ refl
      ∙ laws.get_put_ne "action" "condition" _ _ refl
      ∙ feedback_action laws v

  failed_says :
      (laws : IsJson json) (b : Bytes) (o : Object)
      → (get "condition" (failed json database b o) ≡ of_text (utf8 "failed"))
        × (get "error" (failed json database b o) ≡ of_text b)
  failed_says laws b o = (
    laws.get_put_ne "condition" "error" _ _ refl ∙ laws.get_put "condition" _ o,
    laws.get_put "error" _ _,
  )

  -- A chat from a sender whose session is there, to a name that never came in, that is not online, or
  -- that is online under a number whose session is there. The handler returns; in the last case
  -- alone the message goes on to that session, with its number under "to_id" and its bytes. After that
  -- the sender, and nobody else, is sent one feedback: success in that case, and a failure with its
  -- reason in the others. The table and the sessions stay.
  pub chat_delivered :
      (laws : IsJson json) (from : ℕ) (target bytes : Bytes) (sender : UserInfo) (j : Object)
      (s : Server database.Store) (there : Target target s)
      → as_text (get "action" j) ≡ some (utf8 "chat")
      → as_text (get "to" j) ≡ some target
      → as_number (get "from_id" j) ≡ some from
      → s.sessions from ≡ held sender
      → (answer : Object) × ((handle_data json database j bytes s
            ≡ (ok tt, sent json database from answer [] (passed_on target bytes j s there)))
          × (Says there answer × (get "action" answer ≡ of_text (utf8 "feedback"))))
  unfolding handle_data by_name handle_chat
  chat_delivered laws from target bytes sender j s (nowhere e) a t f g =
      let answer = failed json database (utf8 "未知对象") (feedback json database (get "from_id" j)) in
      let back = failed_to laws (utf8 "未知对象") (feedback json database (get "from_id" j)) in
      (
        answer,
        (
          then_ok _ _ (need-some a) (
              rw chat_name (
                then_ok _ _ (need-some t) (
                  then_ok _ _ (get_id-none target s e) (
                    then_ok _ _ refl (
                      transmit_message-sent json database from sender answer [] s
                        (ap as_number (back ∙ feedback_to laws (get "from_id" j)) ∙ f) g))))),
          (
            failed_says laws (utf8 "未知对象") (feedback json database (get "from_id" j)),
            failed_action laws (utf8 "未知对象") (get "from_id" j),
          ),
        ),
      )
  chat_delivered laws from target bytes sender j s (offline user e o) a t f g =
      let answer = failed json database (utf8 "对方未上线") (feedback json database (get "from_id" j)) in
      let back = failed_to laws (utf8 "对方未上线") (feedback json database (get "from_id" j)) in
      (
        answer,
        (
          then_ok _ _ (need-some a) (
              rw chat_name (
                then_ok _ _ (need-some t) (
                  then_ok _ _ (get_id-some target user s e) (
                    then_ok _ _ (then_ok _ _ (is_online-some target user s e) (rw o refl)) (
                      transmit_message-sent json database from sender answer [] s
                        (ap as_number (back ∙ feedback_to laws (get "from_id" j)) ∙ f) g))))),
          (
            failed_says laws (utf8 "对方未上线") (feedback json database (get "from_id" j)),
            failed_action laws (utf8 "对方未上线") (get "from_id" j),
          ),
        ),
      )
  chat_delivered laws from target bytes sender j s (online user receiver e o h) a t f g =
      let message = put "to_id" (of_number user.id) j in
      let after = sent json database user.id message bytes s in
      let answer = feedback json database (get "from_id" j) in
      let goes =
        transmit_message-sent json database user.id receiver message bytes s
          (ap as_number (laws.get_put "to_id" (of_number user.id) j) ∙ laws.number_back user.id)
          h in
      (
        answer,
        (
          then_ok _ _ (need-some a) (
              rw chat_name (
                then_ok _ _ (need-some t) (
                  then_ok _ _ (get_id-some target user s e) (
                    then_ok _ _
                      (then_ok _ _ (is_online-some target user s e) (
                        rw o (
                          then_ok _ _
                            (attempt_ok (transmit_message json database (object message) bytes)
                              goes)
                            refl)))
                      (transmit_message-sent json database from sender answer [] after
                        (ap as_number (feedback_to laws (get "from_id" j)) ∙ f) g))))),
          (feedback_says laws (get "from_id" j), feedback_action laws (get "from_id" j)),
        ),
      )
