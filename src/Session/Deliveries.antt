-- ===== src/Session/Deliveries.antt =====
-- The posted job of `Session::process_data` (projects/Server/src/Session/Session.cpp) after the
-- merge: the text is parsed, the session's number goes in under "from_id" where none stands, and the
-- handler is called; an exception is printed. And what `Session::handle_error` and `disconnect` do.
use ix_library.Base.{ℕ, List, [], ◌∷◌, utf8}
use ix_library.Wire.{Bytes}
use ix_library.Session.{Delivery, message, undefined}
use ix_library.Json.{Json}
use ix_library.Actions.{Action, Done, ◌>>=◌, ◌>>◌, return, need, attempt, crash}

-- What `handle_error` tells apart.
pub data ErrorCode : Type 0 where
  connection_aborted eof other_error : ErrorCode

module _ (json : Json) {S : Type 0} (id : ℕ) (handler : json.Object → Bytes → Action S Done) where
  open json use {Object, of_text, of_number, empty, put, number_or, parse}

  -- With the session's number put in where none stands.
  unfoldable pub hand_over : Object → Bytes → Action S Done
  hand_over j context = do
    from ← need (number_or "from_id" id j)
    handler (put "from_id" (of_number from) j) context

  -- What `run_job` says that the job delivers; reading past the end is undefined.
  unfoldable pub deliver : Delivery → Action S Done
  unfolding hand_over
  deliver (message text context) = attempt (do hand_over (← need (parse text)) context)
  deliver undefined = crash

  unfoldable pub deliver_all : List Delivery → Action S Done
  unfolding deliver
  deliver_all [] = return tt
  deliver_all (d ∷ ds) = do deliver d; deliver_all ds

  -- The object that `disconnect` posts.
  abbrev pub farewell : Bytes → Object
  farewell username =
      put "username" (of_text username)
        (put "id" (of_number id) (put "action" (of_text (utf8 "disconnect")) empty))

  unfoldable pub disconnect : Bytes → Action S Done
  unfolding hand_over
  disconnect username = attempt (hand_over (farewell username) [])

  -- `handle_error`: closing the socket and printing leave the rest as it is.
  unfoldable pub handle_error : ErrorCode → Bytes → Action S Done
  unfolding disconnect
  handle_error connection_aborted username = return tt
  handle_error eof username = disconnect username
  handle_error other_error username = return tt
