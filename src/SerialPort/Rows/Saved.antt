-- ===== src/SerialPort/Rows/Saved.antt =====
-- A file saved by projects/SerialPort/widget.cpp, loaded again.
use ix_library.Base.{
  ℕ, ◌≡◌, refl, ap, sym, ◌∙◌, Bool, true, false, Option, none, some, List, [], ◌∷◌, ◌++◌, length,
  ◌&&◌, not, ◌==◌, map, if◌then◌else◌, Bool-cases, ==→eq, inl, inr, utf8, same, arith,
}
use ix_library.Wire.{Bytes}
use ix_library.SerialPort.{Qt, IsQt, contains, Row, Widget}
use ix_library.SerialPort.Rows.{
  split_symbol, flag_text, row_line, save_rows, save_clicked, row_cache, row_of, restore_row,
  cons_row, parts_row, restore_rows, load_rows, load_clicked,
}

-- Reference definitions. A text up to its first comma, and whether no row has a comma.
abbrev pub before_comma : Bytes → Bytes
before_comma [] = []
before_comma (x ∷ xs) = if x == split_symbol then [] else x ∷ before_comma xs

abbrev pub cut_row : Row → Row
cut_row r = record r { text = before_comma r.text }

abbrev pub no_commas : List Row → Bool
no_commas [] = true
no_commas (r ∷ rs) = not (contains split_symbol r.text) && no_commas rs

-- A line field holds one line.
abbrev pub AreLines : List Row → Type 0
AreLines [] = Unit
AreLines (r ∷ rs) = (contains 10 r.text ≡ false) × ((contains 13 r.text ≡ false) × AreLines rs)

before_comma_clean : (t : Bytes) → contains split_symbol t ≡ false → before_comma t ≡ t
before_comma_clean [] e = refl
before_comma_clean (x ∷ xs) e = ground (arith, before_comma_clean xs)

clean-before_comma : (t : Bytes) → contains split_symbol (before_comma t) ≡ false
clean-before_comma [] = refl
clean-before_comma (x ∷ xs) = ground (arith, clean-before_comma xs)

comma_splits :
    (t : Bytes)
    → contains split_symbol t ≡ true
    → (rest : Bytes) × (t ≡ before_comma t ++ (split_symbol ∷ rest))
comma_splits [] e = absurd (cc)
comma_splits (x ∷ xs) e = elim (Bool-cases (x == split_symbol)) [
  | inl p ↦ (xs, rw p (ap (λ y. y ∷ xs) (==→eq x split_symbol p)))
  | inr p ↦ let (rest, q) = comma_splits xs (rw p at e) in (rest, rw p (ap (λ ys. x ∷ ys) q))
]

split_exists :
    (qt : Qt) (t : Bytes)
    → IsQt qt
    → (p : Bytes) × ((ps : List Bytes) × (qt.split split_symbol t ≡ p ∷ ps))
split_exists qt t law = elim (Bool-cases (contains split_symbol t)) [
  | inl e ↦
      let (rest, q) = comma_splits t e in
      (
        before_comma t,
        (
          qt.split split_symbol rest,
          ap (qt.split split_symbol) q
              ∙ law.split_more split_symbol (before_comma t) rest (clean-before_comma t),
        ),
      )
  | inr e ↦ (t, ([], law.split_last split_symbol t e))
]

flag_text-contains : (b : Bool) → contains split_symbol (flag_text b) ≡ false
unfolding utf8
flag_text-contains true = refl
flag_text-contains false = refl

row_of-flag_text : (r : Row) → row_of (flag_text r.checked) r.text ≡ r
unfolding utf8 same
row_of-flag_text r = ground arith

-- The parts of a row's line: the flag, the text up to its first comma, and more if there is a comma.
record Split (qt : Qt) (r : Row) : Type 0 where
  more : List Bytes
  parts : qt.split split_symbol (row_line r) ≡ flag_text r.checked ∷ before_comma r.text ∷ more
  fits :
      parts_row (flag_text r.checked ∷ before_comma r.text ∷ more)
      ≡ (if contains split_symbol r.text then none else some r)

row_line-Split : (qt : Qt) (r : Row) → IsQt qt → Split qt r
unfolding row_line parts_row
row_line-Split qt r law = elim (Bool-cases (contains split_symbol r.text)) [
  | inl e ↦
      let (rest, q) = comma_splits r.text e in
      let (p, (ps, s)) = split_exists qt rest law in
      record {
        more = p ∷ ps;
        parts =
            flagged
            ∙ ap (λ t. flag ∷ qt.split split_symbol t) q
            ∙ ap (◌∷◌ flag)
                (law.split_more split_symbol (before_comma r.text) rest (clean-before_comma r.text))
            ∙ ap (λ x. flag ∷ before_comma r.text ∷ x) s;
        fits = rw e refl;
      }
  | inr e ↦ record {
    more = [];
    parts =
        flagged
        ∙ ap (◌∷◌ flag) (law.split_last split_symbol r.text e)
        ∙ ap (λ t. flag ∷ t ∷ []) (sym (before_comma_clean r.text e));
    fits = rw (e, before_comma_clean r.text e) (ap some (row_of-flag_text r));
  }
]
  where
    flag : Bytes
    flag = flag_text r.checked

    flagged : qt.split split_symbol (row_line r) ≡ flag ∷ qt.split split_symbol r.text
    flagged = law.split_more split_symbol flag r.text (flag_text-contains r.checked)

restore_rows-row_cache :
    (qt : Qt) (rs : List Row) → IsQt qt → restore_rows qt (row_cache rs) ≡ some (map cut_row rs)
unfolding restore_rows row_cache restore_row
restore_rows-row_cache qt [] law = refl
restore_rows-row_cache qt (r ∷ rs) law =
    ap (λ s. cons_row (restore_row s) (restore_rows qt (row_cache rs)))
      (row_line-Split qt r law).parts
    ∙ ap (cons_row (some (row_of (flag_text r.checked) (before_comma r.text))))
        (restore_rows-row_cache qt rs law)
    ∙ ap (λ x. some (x ∷ map cut_row rs)) (row_of-flag_text (cut_row r))

row_line-contains :
    (c : ℕ) (r : Row)
    → (c == 44) ≡ false
    → (c == 48) ≡ false
    → (c == 49) ≡ false
    → contains c (row_line r) ≡ contains c r.text
unfolding row_line utf8
row_line-contains c r a b d = ground arith

joined :
    (r : Row) (rs : List Row)
    → cons_row
        (if contains split_symbol r.text then none else some r)
        (if no_commas rs then some rs else none)
      ≡ (if no_commas (r ∷ rs) then some (r ∷ rs) else none)
joined r rs = ground arith

load_rows-save_rows :
    (qt : Qt) (rs saved : List Row)
    → IsQt qt
    → length rs ≡ length saved
    → AreLines saved
    → load_rows qt rs (save_rows saved) ≡ (if no_commas saved then some saved else none)
unfolding load_rows save_rows
load_rows-save_rows qt [] [] law e h = refl
load_rows-save_rows qt [] (s ∷ ss) law e h = absurd (omega (arith, e))
load_rows-save_rows qt (r ∷ rs) [] law e h = absurd (omega (arith, e))
load_rows-save_rows qt (r ∷ rs) (s ∷ ss) law e (nl, (cr, hs)) =
    ap load_line (
      law.read_line_more (row_line s) (save_rows ss) (row_line-contains 10 s refl refl refl ∙ nl)
        (row_line-contains 13 s refl refl refl ∙ cr))
    ∙ ap (λ x. cons_row x (load_rows qt rs (save_rows ss)))
        (ap parts_row (row_line-Split qt s law).parts ∙ (row_line-Split qt s law).fits)
    ∙ ap (cons_row (if contains split_symbol s.text then none else some s))
        (load_rows-save_rows qt rs ss law (omega (arith, e)) hs)
    ∙ joined s ss
  where
    load_line : Bytes × Bytes → Option (List Row)
    load_line (line, left) =
        cons_row (parts_row (qt.split split_symbol line)) (load_rows qt rs left)

-- Saving some rows and loading the file into a window with as many rows, where no text holds a line
-- break: if no saved text has a comma, the window shows the saved rows; if one has, the window keeps
-- its own rows, each text cut at its first comma. No index is out of bounds.
pub load_saved :
    (qt : Qt) (w v : Widget)
    → IsQt qt
    → length w.rows ≡ length v.rows
    → AreLines v.rows
    → load_clicked qt (save_clicked true v) w
      ≡ some (record w { rows = if no_commas v.rows then v.rows else map cut_row w.rows })
unfolding load_clicked save_clicked
load_saved qt w v law e h =
    ap after (load_rows-save_rows qt w.rows v.rows law e h) ∙ by_case (no_commas v.rows)
  where
    put_back : Option (List Row) → Option Widget
    put_back (some rows) = some (record w { rows = rows })
    put_back none = none

    after : Option (List Row) → Option Widget
    after (some rows) = some (record w { rows = rows })
    after none = put_back (restore_rows qt (row_cache w.rows))

    by_case :
        (b : Bool)
        → after (if b then some v.rows else none)
          ≡ some (record w { rows = if b then v.rows else map cut_row w.rows })
    by_case true = refl
    by_case false = ap put_back (restore_rows-row_cache qt w.rows law)
