-- ===== src/Tests/Serial.antt =====
-- The window for the serial port with a concrete Qt, and on small inputs.
use ix_library.Base.{
  ℕ, ◌+◌, ◌*◌, ◌-◌, ◌/◌, ◌%◌, ◌<◌, ◌≡◌, ◌⊎◌, refl, ap, sym, ◌∙◌, true, false, Option, none, some,
  List, [], ◌∷◌, ◌++◌, map, ltb, leb, ◌==◌, ◌&&◌, if◌then◌else◌, length, utf8, replicate, arith,
}
use ix_library.Wire.{Bytes}
use ix_library.SerialPort.{Qt, IsQt, isxdigit, contains, digit, IsBelow, Row, send_ok, Widget}
use ix_library.SerialPort.Hex.{spaced, to_hex, to_ascii, hex_show_changed, hex_shows_back}
use ix_library.SerialPort.Rows.{row_line, save_rows, save_clicked, load_clicked}
use ix_library.SerialPort.Rows.Saved.{load_saved}
use ix_library.SerialPort.Sending.{time_outs}
use ix_library.SerialPort.Periodic.{texts_sent, rounds, time_outs_send}
use ix_library.SerialPort.Switch.{Choice, Panel, start, on_switch, on_timed, click, clicks}
use ix_library.SerialPort.Switch.Clicks.{is_some, Agrees, Closes, clicks_agree}

abbrev hex_bytes : Bytes → Bytes
hex_bytes [] = []
hex_bytes (b ∷ bs) = digit (b / 16) ∷ digit (b % 16) ∷ hex_bytes bs

abbrev value : ℕ → ℕ
value c = if ltb c 58 then c - 48 else if ltb c 71 then c - 55 else c - 87

abbrev digits_of : Bytes → Bytes
digits_of [] = []
digits_of (c ∷ cs) = if isxdigit c then value c ∷ digits_of cs else digits_of cs

abbrev paired : Bytes → Bytes
paired [] = []
paired (a ∷ []) = []
paired (a ∷ b ∷ r) = (a * 16 + b) ∷ paired r

abbrev upper : ℕ → ℕ
upper c = if leb 97 c && leb c 122 then c - 32 else c

abbrev number : Bytes → Option ℕ
number (a ∷ b ∷ []) = some (value a * 16 + value b)
number _ = none

abbrev on_first : ℕ → List Bytes → List Bytes
on_first x [] = (x ∷ []) ∷ []
on_first x (p ∷ ps) = (x ∷ p) ∷ ps

abbrev cut_at : ℕ → Bytes → List Bytes
cut_at c [] = [] ∷ []
cut_at c (x ∷ xs) = let rest = cut_at c xs in if x == c then [] ∷ rest else on_first x rest

abbrev not_empty : List Bytes → List Bytes
not_empty [] = []
not_empty ([] ∷ ps) = not_empty ps
not_empty ((x ∷ p) ∷ ps) = (x ∷ p) ∷ not_empty ps

abbrev first_line : Bytes → Bytes × Bytes
first_line [] = ([], [])
first_line (x ∷ xs) =
    let (line, left) = first_line xs in if x == 10 then ([], xs) else (x ∷ line, left)

abbrev qt : Qt
qt = record {
  to_hex = hex_bytes;
  from_hex = λ cs. paired (digits_of cs);
  to_int = number;
  from_utf8 = λ cs. cs;
  is_utf8 = λ cs. true;
  to_upper = map upper;
  split = cut_at;
  split_skip = λ c xs. not_empty (cut_at c xs);
  read_line = first_line;
  set_text = λ cs. if contains 60 cs then [] else cs;
}

value-digit : (n : ℕ) → n < 16 → (isxdigit (digit n) ≡ true) × (value (digit n) ≡ n)
value-digit n h = ground arith

digits_of-append : (xs ys : Bytes) → digits_of (xs ++ ys) ≡ digits_of xs ++ digits_of ys
digits_of-append [] ys = refl
digits_of-append (x ∷ xs) ys = ground (arith, digits_of-append xs ys)

digits_of-upper : (xs : Bytes) → digits_of (map upper xs) ≡ digits_of xs
digits_of-upper [] = refl
digits_of-upper (x ∷ xs) = ground (arith, digits_of-upper xs)

hex_bytes_back : (bs : Bytes) → IsBelow 256 bs → paired (digits_of (hex_bytes bs)) ≡ bs
hex_bytes_back [] h = refl
hex_bytes_back (b ∷ bs) (h, hs) =
    let (a, p) = value-digit (b / 16) (omega arith) in
    let (c, q) = value-digit (b % 16) (omega arith) in
    rw (a, c, p, q, hex_bytes_back bs hs) (ap (λ x. x ∷ bs) {y = b} (omega arith))

cut_at-none : (c : ℕ) (xs : Bytes) → contains c xs ≡ false → cut_at c xs ≡ xs ∷ []
cut_at-none c [] e = refl
cut_at-none c (x ∷ xs) e = ground (arith, cut_at-none c xs)

cut_at-append :
    (c : ℕ) (xs ys : Bytes) → contains c xs ≡ false → cut_at c (xs ++ (c ∷ ys)) ≡ xs ∷ cut_at c ys
cut_at-append c [] ys e = ground arith
cut_at-append c (x ∷ xs) ys e = ground (arith, cut_at-append c xs ys)

first_line-append :
    (xs ys : Bytes) → contains 10 xs ≡ false → first_line (xs ++ (10 ∷ ys)) ≡ (xs, ys)
first_line-append [] ys e = refl
first_line-append (x ∷ xs) ys e = ground (arith, first_line-append xs ys)

qt-IsQt : IsQt qt
qt-IsQt = record {
  to_hex_nil = refl;
  to_hex_cons = λ b bs h. refl;
  to_int_digits = λ b h.
      let p = (value-digit (b / 16) (omega arith)).1 in
      let q = (value-digit (b % 16) (omega arith)).1 in rw (p, q) (ap some {y = b} (omega arith));
  from_hex_back = hex_bytes_back;
  from_hex_space =
      λ xs ys. ap paired (digits_of-append xs (32 ∷ ys) ∙ sym (digits_of-append xs ys));
  from_hex_upper = λ xs h. ap paired (digits_of-upper xs);
  ascii_back = λ xs h. refl;
  utf8_back = λ xs h. refl;
  split_last = cut_at-none;
  split_more = cut_at-append;
  split_skip_nil = λ c. refl;
  split_skip_more = λ c x xs ys e. ap not_empty (cut_at-append c (x ∷ xs) ys e);
  read_line_more = λ xs ys n r. first_line-append xs ys n;
}

-- Ten texts, one of them marked as hex digits that it is not.
abbrev ten : List Row
ten =
    record { checked = false; text = utf8 "AT" }
    ∷ record { checked = true; text = utf8 "xyz" }
    ∷ record { checked = true; text = utf8 "0aff" }
    ∷ replicate 7 (record { checked = false; text = [] })

abbrev window : Widget
window = record {
  rows = ten;
  line_edit_send = [];
  hex_send = false;
  hex_show = false;
  auto_endl = false;
  send_new_line = false;
  recv_time = false;
  send_status = send_ok;
  write_cnt_total = 0;
  read_cnt_total = 0;
  send_back = [];
  history = [];
  received = 72 ∷ 105 ∷ 10 ∷ [];
  written = [];
  button_index = 0;
}

abbrev two_rows : Widget
two_rows = record window {
  rows = record { checked = true; text = utf8 "a,b" } ∷ record { checked = false; text = [] } ∷ [];
}

digits_of_view : to_hex qt (72 ∷ 105 ∷ 10 ∷ []) ≡ utf8 "48 69 0a "
unfolding to_hex spaced utf8
digits_of_view = refl

digits_plain :
    qt.set_text (qt.to_upper (qt.from_utf8 (to_hex qt window.received)))
    ≡ qt.to_upper (qt.from_utf8 (to_hex qt window.received))
unfolding to_hex spaced
digits_plain = refl

hex_shows_back_example :
    (to_ascii qt (to_hex qt window.received) ≡ window.received)
    × (hex_show_changed qt false (hex_show_changed qt true window) ≡ window)
hex_shows_back_example =
    hex_shows_back qt window qt-IsQt (omega arith, (omega arith, (omega arith, tt))) refl refl
      digits_plain

comma_saved : save_clicked true two_rows ≡ some (utf8 "1,a,b\n0,\n")
unfolding save_clicked save_rows row_line utf8
comma_saved = refl

load_saved_example :
    load_clicked qt (save_clicked true two_rows) two_rows
    ≡ some (record window {
      rows =
          record { checked = true; text = utf8 "a" } ∷ record { checked = false; text = [] } ∷ [];
    })
unfolding utf8
load_saved_example = load_saved qt two_rows two_rows qt-IsQt refl (refl, (refl, (refl, (refl, tt))))

abbrev some_written : Bytes → Option ℕ
some_written bytes = some (length bytes)

time_outs_send_example :
    (v : Widget) × ((time_outs some_written 33 window ≡ some v)
      × ((v.written ≡ rounds 3 (texts_sent ten)) × ((v.rows ≡ ten) × (v.button_index ≡ 0))))
time_outs_send_example = time_outs_send some_written 3 window refl refl

abbrev settings : Choice
settings = record {
  port_text = utf8 "COM1";
  baud_number = 9600;
  parity_index = 1;
  bits_number = 8;
  stop_number = 1;
  flow_is_none = true;
}

abbrev opened : Panel
opened = clicks (on_switch settings true ∷ on_timed 500 ∷ []) start

clicks_agree_example :
    Agrees opened
    × ((is_some opened.port ≡ false) ⊎ Closes opened (click (on_switch settings true) opened) 500)
clicks_agree_example = clicks_agree (on_switch settings true ∷ on_timed 500 ∷ []) settings true 500
