-- ===== src/Socket/Client.antt =====
-- `Client_Socket` of socket/Socket/Client_Socket.cpp: logging in, what `handle_data` does with a message,
-- and the loss of the connection; with the headers of utility/JsonUtility/JsonUtility.cpp. How packets
-- become messages is in Socket.Packets.
pub mod Turns
pub mod Requests
pub mod Replies
use ix_library.Base.{
  ℕ, Bool, true, false, Option, none, some, List, [], ◌∷◌, ◌++◌, length, take, drop, ◌≡◌, ◌<◌, ◌==◌,
  ◌&&◌, ltb, if◌then◌else◌, same,
}
use ix_library.Wire.{Bytes, htonl, store_word}
use ix_library.Socket.Packets.{Delivery, Incoming, got, interrupted, broken, word}
use ix_library.Socket.Packets
use ix_library.Socket.Server.{
  Json, Key, Field, text, number, size_key, used_to_key, name_size_key, password_size_key,
  user_name_key, password_key, to_key, file_name_key, type_key, login_status_key, from_key,
  or_default,
}
use ix_library.Socket.Server.Events.{login_text, success_text, text_text}

-- `loginStatus`: 0, 1 and -1.
pub data LoginStatus : Type 0 where
  undecided success failure : LoginStatus

-- `user`, `loginStatus`, and the texts that were printed, each after its sender's name.
pub record Account : Type 0 where
  pub user_name : Bytes
  pub login_status : LoginStatus
  pub printed : List (Option Bytes × Bytes)

-- `link` has the buffer of the socket and `receiveDataStores`.
pub record ClientSocket : Type 0 where
  pub link : Packets.Client
  pub account : Account
  pub is_connected : Bool

-- `onOnline`, given the answer of `connect`.
unfoldable pub on_online : Bool → ClientSocket → ClientSocket
on_online answer c = if c.is_connected then c else record c { is_connected = answer }

abbrev pub no_link : Packets.Client
no_link = record { recv_buffer = []; data_stores = [] }

-- `onOffline`.
unfoldable pub on_offline : ClientSocket → ClientSocket
on_offline c = record {
  link = no_link;
  account = record c.account { user_name = []; login_status = undecided };
  is_connected = false;
}

-- The three calls of `send` that `send_to` makes.
unfoldable pub send_to : Bytes → Bytes → List Bytes
send_to header send_data = store_word (htonl (word (length header))) ∷ header ∷ send_data ∷ []

module _ (json : Json) where
  open json use {null, parse, text_at, dump, is_text}

  -- `Login` of JsonUtility.
  abbrev pub login_fields : Bytes → Bytes → List (Key × Field)
  login_fields name password =
      (used_to_key, number 0)
      ∷ (user_name_key, text name)
      ∷ (name_size_key, number (length name))
      ∷ (password_key, text password)
      ∷ (password_size_key, number (length password))
      ∷ (size_key, number 0)
      ∷ []

  -- Whether `dump` writes an object, or throws.
  abbrev pub can_dump : List (Key × Field) → Bool
  can_dump [] = true
  can_dump ((k, text b) ∷ fs) = is_text b && can_dump fs
  can_dump ((k, number n) ∷ fs) = can_dump fs

  -- What `login` sends before it waits; `none`: `dump` throws.
  unfoldable pub login : Bytes → Bytes → Option (List Bytes)
  unfolding send_to
  login name password =
      let fields = login_fields name password in
      if can_dump fields then some (send_to (dump fields) []) else none

  -- The first branch of `handle_data`. A name that is no text throws: `none`.
  unfoldable pub login_answered : Option Bytes → Option Bytes → Account → Option Account
  login_answered none name a = some (record a { login_status = failure })
  login_answered (some status) name a =
      let taken : Option Account = elim name [
        | none ↦ none
        | some n ↦ some (record a { user_name = n; login_status = success })
      ] in
      if same status success_text then taken else some (record a { login_status = failure })

  unfoldable pub by_type : Option Bytes → json.Value → Bytes → Account → Option Account
  unfolding login_answered
  by_type none header rest a = some a
  by_type (some t) header rest a =
      if same t login_text
      then login_answered (text_at login_status_key header) (text_at user_name_key header) a
      else if same t text_text
      then some (record a { printed = a.printed ++ ((text_at from_key header, rest) ∷ []) })
      else some a

  -- `handle_data`, with `GetJson`, which answers null when the parser throws.
  unfoldable pub handle_data : Delivery → Account → Option Account
  unfolding by_type
  handle_data d a =
      let header = or_default null (parse (take d.json_size d.whole)) in
      by_type (text_at type_key header) header (drop d.json_size d.whole) a

  unfoldable pub handle_all : List Delivery → Account → Option Account
  unfolding handle_data
  handle_all [] a = some a
  handle_all (d ∷ ds) a = elim (handle_data d a) [ none ↦ none | some b ↦ handle_all ds b ]

  abbrev pub with_link : Packets.Client → ClientSocket → Option Account → Option ClientSocket
  with_link l c none = none
  with_link l c (some a) = some (record c { link = l; account = a })

  -- `receive`, with what it calls; `none`: an exception.
  unfoldable pub receive : Incoming → ClientSocket → Option ClientSocket
  unfolding handle_all on_offline
  receive (got bytes) c =
      let (l, out) = Packets.receive c.link (got bytes) in with_link l c (handle_all out c.account)
  receive interrupted c = some c
  receive broken c = some (on_offline c)

  -- The calls of `receive` for the pieces that come in.
  unfoldable pub receive_all : List Bytes → ClientSocket → Option ClientSocket
  unfolding receive
  receive_all [] c = some c
  receive_all (piece ∷ pieces) c = elim (receive (got piece) c) [
    | none ↦ none
    | some d ↦ receive_all pieces d
  ]

-- Equality of keys, by the place of a key among them.
abbrev pub place : Key → ℕ
place size_key = 0
place used_to_key = 1
place name_size_key = 2
place password_size_key = 3
place user_name_key = 4
place password_key = 5
place to_key = 6
place type_key = 7
place login_status_key = 8
place from_key = 9
place file_name_key = 10

abbrev pub same_key : Key → Key → Bool
same_key j k = place j == place k

-- The first value under a key.
abbrev pub field_at : Key → List (Key × Field) → Option Field
field_at k [] = none
field_at k ((j, f) ∷ fs) = if same_key k j then some f else field_at k fs

abbrev pub is_ascii : Bytes → Bool
is_ascii [] = true
is_ascii (c ∷ cs) = ltb c 128 && is_ascii cs

-- What nlohmann::json documents of an object of texts and numbers: if its texts are UTF-8, it is read
-- back from what `dump` wrote, which is not empty; each key gives its value, a number if the `int`
-- that it is converted to can hold it. ASCII is UTF-8.
pub record IsJson (json : Json) : Type 0 where
  pub back : List (Key × Field) → json.Value
  pub ascii_text : (b : Bytes) → is_ascii b ≡ true → json.is_text b ≡ true
  pub parse_dump :
      (fs : List (Key × Field))
      → can_dump json fs ≡ true
      → json.parse (json.dump fs) ≡ some (back fs)
  pub text_back :
      (k : Key) (b : Bytes) (fs : List (Key × Field))
      → field_at k fs ≡ some (text b)
      → json.text_at k (back fs) ≡ some b
  pub number_back :
      (k : Key) (n : ℕ) (fs : List (Key × Field))
      → n < 2147483648
      → field_at k fs ≡ some (number n)
      → json.number_at k (back fs) ≡ some n
  pub some_bytes : (fs : List (Key × Field)) → can_dump json fs ≡ true → 0 < length (json.dump fs)
