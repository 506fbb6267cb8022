-- ===== src/Server/SigningIn.antt =====
-- The action that signs a user in: the inverted test of `sign_in_user`, and the answer that throws.
use ix_library.Base.{
  [], ◌≡◌, ◌⊎◌, inl, inr, refl, Bool-cases, Option, none, some, ◌++◌, ◌||◌, if◌then◌else◌, same,
  utf8,
}
use ix_library.Wire.{Bytes}
use ix_library.Json.{Json}
use ix_library.Actions.{ok, thrown, then_ok, then_thrown, need-some}
use ix_library.Server.{Database, Server, quoted, execute, transmit_message, sign_in_user, is_empty}
use ix_library.Server.Dispatcher.{action_name, sign_in, handle_sign_in, by_name, handle_data}
use ix_library.Server.Sending.{execute-some, execute-none}

sign_in_name : action_name (utf8 "sign_in") ≡ sign_in
unfolding action_name utf8 same
sign_in_name = refl

module _ (json : Json) (database : Database) where
  open json use {Object, get, as_text}

  -- The texts of a request to sign in.
  pub record Form (j : Object) (u p e n : Bytes) : Type 0 where
    pub action : as_text (get "action" j) ≡ some (utf8 "sign_in")
    pub username : as_text (get "username" j) ≡ some u
    pub password : as_text (get "password" j) ≡ some p
    pub email : as_text (get "email" j) ≡ some e
    pub nickname : json.text_or "nickname" [] j ≡ some n

  abbrev pub insertion : (u p e n : Bytes) → Bytes
  insertion u p e n =
      utf8 "insert into users(username,password,email,nickname) values("
      ++ (quoted u
          ++ (utf8 ","
              ++ (quoted p ++ (utf8 "," ++ (quoted e ++ (utf8 "," ++ (quoted n ++ utf8 ")")))))))

  abbrev pub stored_if : Server database.Store → Option database.Store → Server database.Store
  stored_if s none = s
  stored_if s (some d) = record s { store = d }

  -- What the database holds after the request: a row more if a field is empty and the statement runs.
  abbrev pub stored_after : (u p e n : Bytes) (s : Server database.Store) → Server database.Store
  stored_after u p e n s =
      if is_empty json database u || (is_empty json database p || is_empty json database e)
      then stored_if s (database.execute (insertion u p e n) s.store)
      else s

  executed :
      (q : Bytes) (s : Server database.Store)
      → (execute json database q s ≡ (ok tt, stored_if s (database.execute q s.store)))
        ⊎ (execute json database q s ≡ (thrown, stored_if s (database.execute q s.store)))
  executed q s = by_store (database.execute q s.store) refl
    where
      by_store :
          (o : Option database.Store)
          → database.execute q s.store ≡ o
          → (execute json database q s ≡ (ok tt, stored_if s o))
            ⊎ (execute json database q s ≡ (thrown, stored_if s o))
      by_store none e = inr (execute-none json database q s e)
      by_store (some d) e = inl (execute-some json database q d s e)

  signed :
      (u p e n : Bytes) (s : Server database.Store)
      → (sign_in_user json database u p e n s ≡ (ok tt, stored_after u p e n s))
        ⊎ (sign_in_user json database u p e n s ≡ (thrown, stored_after u p e n s))
  unfolding sign_in_user
  signed u p e n s =
      elim (Bool-cases
        (is_empty json database u || (is_empty json database p || is_empty json database e))) [
          | inl b ↦ rw b (executed (insertion u p e n) s)
          | inr b ↦ rw b (inl refl)
        ]

  -- A request to sign in, its texts there, with a nickname or without: an exception leaves the handler
  -- in every case, so the one who asks is never answered. A request whose name, password and e-mail are
  -- filled in is not stored at all; if one of them is empty, the statement is run, and a row is stored
  -- if the database takes it. Nothing else changes.
  pub sign_in_thrown :
      (u p e n bytes : Bytes) (j : Object) (s : Server database.Store)
      → Form j u p e n
      → handle_data json database j bytes s ≡ (thrown, stored_after u p e n s)
  unfolding handle_data by_name handle_sign_in transmit_message
  sign_in_thrown u p e n bytes j s form = then_ok _ _ (need-some form.action) (
      rw sign_in_name (
        then_ok _ _ (need-some form.username) (
          then_ok _ _ (need-some form.password) (
            then_ok _ _ (need-some form.email) (
              then_ok _ _ (need-some form.nickname) (elim (signed u p e n s) [
                | inl done ↦ then_ok _ _ done refl
                | inr failed ↦ then_thrown _ _ failed
              ]))))))
