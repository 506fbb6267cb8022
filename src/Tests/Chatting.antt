-- ===== src/Tests/Chatting.antt =====
-- The chat server on single messages.
use ix_library.Base.{
  ℕ, ◌≡◌, refl, true, Option, none, some, [], ◌∷◌, if◌then◌else◌, same, utf8, String,
}
use text.Mathlib.Text.{◌==◌}
use ix_library.Session.Deliveries.{eof, handle_error}
use ix_library.Actions.{ok, thrown}
use ix_library.Server.{Server, UserInfo, no_info, at_name}
use ix_library.Server.Dispatcher.{returned, handle_data}
use ix_library.Server.Sending.{sent}
use ix_library.Server.Logins.{IsLoggedIn, login_refused, login_accepted}
use ix_library.Server.Chats.{Target, online, passed_on, Says, chat_delivered}
use ix_library.Server.SigningIn.{stored_after, sign_in_thrown}
use ix_library.Server.Leaving.{Follows, disconnect_then_chat_crashed}
use ix_library.Tests.Keyed.{
  Entry, word, number, flag, keyed, keyed-IsJson, login_of, row, one_row, quiet, find_user_right,
  find_user_wrong,
}

login_refused_example :
    (handle_data keyed one_row (login_of (utf8 "no")) [] quiet
      ≡ (ok tt, sent keyed one_row 1 (returned keyed one_row 1 (login_of (utf8 "no"))) [] quiet))
    × (flag true ≡ flag true)
login_refused_example =
    login_refused keyed one_row keyed-IsJson 1 (utf8 "ann") (utf8 "no") [] (row ∷ [])
      (record no_info { id = 1 }) (login_of (utf8 "no")) quiet refl refl refl refl refl
      find_user_wrong refl

login_accepted_example :
    ((handle_data keyed one_row (login_of (utf8 "pw")) [] quiet).0 ≡ ok tt)
    × IsLoggedIn keyed one_row 1
        (utf8 "ann")
        (utf8 "pw")
        (utf8 "Ann")
        (login_of (utf8 "pw"))
        quiet
        (handle_data keyed one_row (login_of (utf8 "pw")) [] quiet).1
login_accepted_example =
    login_accepted keyed one_row keyed-IsJson 1 (utf8 "ann") (utf8 "pw") (utf8 "Ann") [] (row ∷ [])
      1 (record no_info { id = 1 }) (login_of (utf8 "pw")) quiet refl refl refl refl refl
      find_user_right refl refl

abbrev chat_of : String → Option Entry
chat_of k =
    if k == "action"
    then some (word (utf8 "chat"))
    else if k == "to"
    then some (word (utf8 "ann"))
    else if k == "from_id"
    then some (number 2)
    else none

abbrev ann : UserInfo
ann = record no_info { id = 1; is_online = true }

abbrev with_ann : Server ℕ
with_ann = record quiet { local_user_table = at_name (utf8 "ann") (some ann) (λ n. none) }

ann_there : with_ann.local_user_table (utf8 "ann") ≡ some ann
unfolding same utf8
ann_there = refl

abbrev ann_online : Target keyed one_row (utf8 "ann") with_ann
ann_online = online ann (record no_info { id = 1 }) ann_there refl refl

chat_delivered_example :
    (answer : (String → Option Entry)) × ((handle_data keyed one_row chat_of (utf8 "hi") with_ann
        ≡ (
          ok tt,
          sent keyed one_row 2 answer []
              (passed_on keyed one_row (utf8 "ann") (utf8 "hi") chat_of with_ann ann_online),
        ))
      × (Says keyed one_row ann_online answer
          × (keyed.get "action" answer ≡ word (utf8 "feedback"))))
chat_delivered_example =
    chat_delivered keyed one_row keyed-IsJson 2 (utf8 "ann") (utf8 "hi") (record no_info { id = 2 })
      chat_of with_ann ann_online refl refl refl refl

abbrev without_ann : Server ℕ
without_ann = (handle_error keyed 1 (handle_data keyed one_row) eof (utf8 "ann") with_ann).1

disconnect_then_chat_crashed_example :
    (without_ann.local_user_table (utf8 "ann") ≡ some ann)
    × Follows keyed one_row eof chat_of (utf8 "hi") with_ann without_ann
disconnect_then_chat_crashed_example =
    disconnect_then_chat_crashed keyed one_row keyed-IsJson eof (utf8 "ann") (utf8 "hi") ann chat_of
      with_ann without_ann refl refl refl ann_there refl

abbrev signing : String → Option Entry
signing k = if k == "action" then some (word (utf8 "sign_in")) else some (word (utf8 "bob"))

sign_in_thrown_example :
    handle_data keyed one_row signing [] quiet
    ≡ (thrown, stored_after keyed one_row (utf8 "bob") (utf8 "bob") (utf8 "bob") (utf8 "bob") quiet)
sign_in_thrown_example =
    sign_in_thrown keyed one_row (utf8 "bob") (utf8 "bob") (utf8 "bob") (utf8 "bob") [] signing
      quiet
      (record { action = refl; username = refl; password = refl; email = refl; nickname = refl })
