-- ===== src/SerialPort/Rows.antt =====
-- projects/SerialPort/widget.cpp: the ten prepared texts, saved to a file, loaded from it, and reset.
-- The file is the list of its bytes.
pub mod Saved
use ix_library.Base.{
  ℕ, ◌+◌, ◌≡◌, refl, ap, sym, ◌∙◌, Bool, true, false, Option, none, some, List, [], ◌∷◌, ◌++◌,
  append_assoc, length, ◌&&◌, ◌||◌, not, ◌==◌, map, if◌then◌else◌, Bool-cases, ==→eq, inl, inr,
  utf8, same, arith,
}
use ix_library.Wire.{Bytes}
use ix_library.SerialPort.{Qt, IsQt, contains, Row, Widget}

-- `splitSymbol`, set by the constructor.
abbrev pub split_symbol : ℕ
split_symbol = 44

-- A `bool` goes to the stream as the number it is.
abbrev pub flag_text : Bool → Bytes
flag_text true = utf8 "1"
flag_text false = utf8 "0"

-- A line of the file, and of the copy that a load keeps.
unfoldable pub row_line : Row → Bytes
row_line r = flag_text r.checked ++ (split_symbol ∷ r.text)

-- The loop of `on_btn_save_clicked`.
unfoldable pub save_rows : List Row → Bytes
unfolding row_line
save_rows [] = []
save_rows (r ∷ rs) = row_line r ++ (10 ∷ save_rows rs)

-- The file after `on_btn_save_clicked`, where it could be opened.
unfoldable pub save_clicked : Bool → Widget → Option Bytes
unfolding save_rows
save_clicked opens w = if opens then some (save_rows w.rows) else none

unfoldable pub row_cache : List Row → List Bytes
unfolding row_line
row_cache [] = []
row_cache (r ∷ rs) = row_line r ∷ row_cache rs

abbrev pub row_of : Bytes → Bytes → Row
row_of flag text = record { checked = not (same flag (utf8 "0")); text = text }

-- One round of the loop that puts the kept lines back: `none` where `p[1]` would be out of bounds.
unfoldable pub restore_row : List Bytes → Option Row
restore_row [] = none
restore_row (p ∷ []) = none
restore_row (p ∷ q ∷ ps) = some (row_of p q)

abbrev pub cons_row : Option Row → Option (List Row) → Option (List Row)
cons_row (some r) (some rs) = some (r ∷ rs)
cons_row _ _ = none

-- The rows that a line of the file gives: none if it has not just two parts.
unfoldable pub parts_row : List Bytes → Option Row
parts_row (p ∷ q ∷ []) = some (row_of p q)
parts_row _ = none

module _ (qt : Qt) where
  unfoldable pub restore_rows : List Bytes → Option (List Row)
  unfolding restore_row
  restore_rows [] = some []
  restore_rows (c ∷ cs) =
      let rest = restore_rows cs in cons_row (restore_row (qt.split split_symbol c)) rest

  -- The loop over the lines, a round for each row; `none` at the first line that does not fit.
  unfoldable pub load_rows : List Row → Bytes → Option (List Row)
  unfolding parts_row
  load_rows [] file = some []
  load_rows (r ∷ rs) file =
      let (line, left) = qt.read_line file in
      let rest = load_rows rs left in cons_row (parts_row (qt.split split_symbol line)) rest

  -- `on_btn_load_clicked`, given the file if it could be opened; `none`: an index out of bounds.
  unfoldable pub load_clicked : Option Bytes → Widget → Option Widget
  unfolding row_cache restore_rows load_rows
  load_clicked none w = some w
  load_clicked (some file) w = elim (load_rows w.rows file) [
    | some rows ↦ some (record w { rows = rows })
    | none ↦ elim (restore_rows (row_cache w.rows)) [
      | some rows ↦ some (record w { rows = rows })
      | none ↦ none
    ]
  ]

-- The loop of `on_btn_reset_clicked`.
unfoldable pub reset_rows : List Row → List Row
reset_rows [] = []
reset_rows (r ∷ rs) = record { checked = false; text = [] } ∷ reset_rows rs

unfoldable pub reset_clicked : Bool → Widget → Widget
unfolding reset_rows
reset_clicked sure w = if sure then record w { rows = reset_rows w.rows } else w
