-- ===== src/Server/Sending.antt =====
-- Single steps of a handler: a message sent on, a statement, an entry looked up again.
use ix_library.Base.{ℕ, ◌+◌, ◌≡◌, refl, none, some, [], ◌∷◌, ◌++◌, same_refl, eq→==}
use ix_library.Wire.{Bytes}
use ix_library.Transmit.{transmit}
use ix_library.Json.{Json}
use ix_library.Actions.{ok, thrown, crashed, ◌>>=◌}
use ix_library.Server.{
  Database, Server, UserInfo, absent, null, held, sends, at_name, at_id, object, execute,
  transmit_message, send_all,
}

module _ (json : Json) (database : Database) where
  open json use {Value, Object, get, put, erase, as_text, as_number, dump, of_number}
  open database use {Store}

  -- After an object was sent on to the session `to`.
  abbrev pub sent : ℕ → Object → Bytes → Server Store → Server Store
  sent to o context s = record s {
    id_increment = s.id_increment + 1;
    events = s.events ++ (sends to (transmit s.id_increment (dump (erase "to_id" o)) context) ∷ []);
  }

  pub transmit_message-sent :
      (to : ℕ) (info : UserInfo) (o : Object) (context : Bytes) (s : Server Store)
      → as_number (get "to_id" o) ≡ some to
      → s.sessions to ≡ held info
      → transmit_message json database (object o) context s ≡ (ok tt, sent to o context s)
  unfolding transmit_message send_all ◌>>=◌
  transmit_message-sent to info o context s n h = rw (n, h) refl

  -- `operator[]` of a number that no session has adds a null pointer, which is then followed.
  pub transmit_message-crashed :
      (to : ℕ) (o : Object) (context : Bytes) (s : Server Store)
      → as_number (get "to_id" o) ≡ some to
      → s.sessions to ≡ absent
      → transmit_message json database (object o) context s ≡ (
        crashed,
        record s { id_increment = s.id_increment + 1; sessions = at_id to null s.sessions },
      )
  unfolding transmit_message send_all ◌>>=◌
  transmit_message-crashed to o context s n h = rw (n, h) refl

  pub held_there : {A : Type 0} (to : ℕ) (x : A) (f : ℕ → A) → at_id to x f to ≡ x
  held_there to x f = rw (eq→== to to refl) refl

  pub named_there : {A : Type 0} (u : Bytes) (x : A) (f : Bytes → A) → at_name u x f u ≡ x
  named_there u x f = rw (same_refl u) refl

  pub execute-some :
      (q : Bytes) (d : Store) (s : Server Store)
      → database.execute q s.store ≡ some d
      → execute json database q s ≡ (ok tt, record s { store = d })
  unfolding execute
  execute-some q d s e = rw (e, execute) refl

  pub execute-none :
      (q : Bytes) (s : Server Store)
      → database.execute q s.store ≡ none
      → execute json database q s ≡ (thrown, s)
  unfolding execute
  execute-none q s e = rw (e, execute) refl
