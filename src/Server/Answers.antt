-- ===== src/Server/Answers.antt =====
-- The objects that a login is answered with, member by member.
use ix_library.Base.{ℕ, ◌≡◌, refl, ap, ◌∙◌, true, false, some, List}
use ix_library.Base.{String}
use text.Mathlib.Text.{◌==◌}
use ix_library.Wire.{Bytes}
use ix_library.Json.{Json, IsJson}
use ix_library.Server.{Database}
use ix_library.Server.Dispatcher.{returned, room_info, confirmed}

module _ (json : Json) (database : Database) where
  open json use {Value, Object, get, put, erase, as_text, as_number, dump, of_number}
  open database use {Store}

  pub returned_to :
      (laws : IsJson json) (to : ℕ) (j : Object)
      → as_number (get "to_id" (returned json database to j)) ≡ some to
  returned_to laws to j =
      ap as_number (laws.get_put "to_id" (of_number to) (erase "from_id" j)) ∙ laws.number_back to

  -- The other members of the request are still there.
  pub returned_same :
      (laws : IsJson json) (k : String) (to : ℕ) (j : Object)
      → (k == "to_id") ≡ false
      → (k == "from_id") ≡ false
      → get k (returned json database to j) ≡ get k j
  returned_same laws k to j a b =
      laws.get_put_ne k "to_id" (of_number to) (erase "from_id" j) a
      ∙ laws.get_erase_ne k "from_id" j b

  -- What the answer's members say.
  pub confirmed_nickname :
      (laws : IsJson json) (n : Bytes) (o : Object)
      → as_text (get "nickname" (confirmed json database n o)) ≡ some n
  confirmed_nickname laws n o =
      ap as_text (
        laws.get_put_ne "nickname" "confirm" (json.of_flag true) (put "nickname" (json.of_text n) o)
          refl
        ∙ laws.get_put "nickname" (json.of_text n) o)
      ∙ laws.text_back n

  pub confirmed_same :
      (laws : IsJson json) (k : String) (n : Bytes) (o : Object)
      → (k == "confirm") ≡ false
      → (k == "nickname") ≡ false
      → get k (confirmed json database n o) ≡ get k o
  confirmed_same laws k n o a b =
      laws.get_put_ne k "confirm" (json.of_flag true) (put "nickname" (json.of_text n) o) a
      ∙ laws.get_put_ne k "nickname" (json.of_text n) o b

  pub room_info_to :
      (laws : IsJson json) (to : ℕ) (rooms : List (List Bytes))
      → as_number (get "to_id" (room_info json database to rooms)) ≡ some to
  room_info_to laws to rooms =
      ap as_number (
        laws.get_put_ne "to_id" "room_names" (json.of_table rooms) _ refl
        ∙ laws.get_put "to_id" (of_number to) _)
      ∙ laws.number_back to
