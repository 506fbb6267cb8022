-- ===== src/SerialPort.antt =====
-- projects/SerialPort, a window that talks to a serial port: widget.h and .cpp, and src/utils.cpp.
-- Qt is outside the repository: its text operations are the fields of `Qt`, and what it documents of
-- them is `IsQt`. A text is the list of its UTF-8 bytes.
pub mod Hex
pub mod Rows
pub mod Sending
pub mod Periodic
pub mod Switch
use ix_library.Base.{
  ℕ, ◌+◌, ◌/◌, ◌%◌, ◌<◌, ◌≡◌, Bool, true, false, Option, some, List, [], ◌∷◌, ◌++◌, ltb, leb, ◌==◌,
  ◌&&◌, ◌||◌, if◌then◌else◌,
}
use ix_library.Wire.{Bytes}

-- `to_int` is `toInt(&ok, 16)`, `none` where `ok` is false, a negative `int` by its two's complement;
-- `split_skip` splits with `SkipEmptyParts`;
-- `read_line` gives the line and what is left; `is_utf8` holds of the texts that a `QString` can be;
-- `set_text` is what `toPlainText` of a QTextEdit gives after `setText`, which guesses markup.
pub record Qt : Type 0 where
  pub to_hex : Bytes → Bytes
  pub from_hex : Bytes → Bytes
  pub to_int : Bytes → Option ℕ
  pub from_utf8 : Bytes → Bytes
  pub is_utf8 : Bytes → Bool
  pub to_upper : Bytes → Bytes
  pub split : ℕ → Bytes → List Bytes
  pub split_skip : ℕ → Bytes → List Bytes
  pub read_line : Bytes → Bytes × Bytes
  pub set_text : Bytes → Bytes

abbrev pub contains : ℕ → Bytes → Bool
contains c [] = false
contains c (x ∷ xs) = (x == c) || contains c xs

-- A hex digit as `toHex` writes it.
abbrev pub digit : ℕ → ℕ
digit n = if ltb n 10 then 48 + n else 87 + n

abbrev pub IsBelow : ℕ → Bytes → Type 0
IsBelow n [] = Unit
IsBelow n (x ∷ xs) = (x < n) × IsBelow n xs

pub record IsQt (qt : Qt) : Type 0 where
  pub to_hex_nil : qt.to_hex [] ≡ []
  pub to_hex_cons :
      (b : ℕ) (bs : Bytes)
      → b < 256
      → qt.to_hex (b ∷ bs) ≡ digit (b / 16) ∷ digit (b % 16) ∷ qt.to_hex bs
  pub to_int_digits : (b : ℕ) → b < 256 → qt.to_int (digit (b / 16) ∷ digit (b % 16) ∷ []) ≡ some b
  pub from_hex_back : (bs : Bytes) → IsBelow 256 bs → qt.from_hex (qt.to_hex bs) ≡ bs
  pub from_hex_space : (xs ys : Bytes) → qt.from_hex (xs ++ (32 ∷ ys)) ≡ qt.from_hex (xs ++ ys)
  pub from_hex_upper : (xs : Bytes) → IsBelow 128 xs → qt.from_hex (qt.to_upper xs) ≡ qt.from_hex xs
  pub ascii_back : (xs : Bytes) → IsBelow 128 xs → qt.from_utf8 xs ≡ xs
  pub utf8_back : (xs : Bytes) → qt.is_utf8 xs ≡ true → qt.from_utf8 xs ≡ xs
  pub split_last : (c : ℕ) (xs : Bytes) → contains c xs ≡ false → qt.split c xs ≡ xs ∷ []
  pub split_more :
      (c : ℕ) (xs ys : Bytes)
      → contains c xs ≡ false
      → qt.split c (xs ++ (c ∷ ys)) ≡ xs ∷ qt.split c ys
  pub split_skip_nil : (c : ℕ) → qt.split_skip c [] ≡ []
  pub split_skip_more :
      (c x : ℕ) (xs ys : Bytes)
      → contains c (x ∷ xs) ≡ false
      → qt.split_skip c ((x ∷ xs) ++ (c ∷ ys)) ≡ (x ∷ xs) ∷ qt.split_skip c ys
  pub read_line_more :
      (xs ys : Bytes)
      → contains 10 xs ≡ false
      → contains 13 xs ≡ false
      → qt.read_line (xs ++ (10 ∷ ys)) ≡ (xs, ys)

-- `std::isxdigit`.
abbrev pub isxdigit : ℕ → Bool
isxdigit c = (leb 48 c && leb c 57) || ((leb 65 c && leb c 70) || (leb 97 c && leb c 102))

-- One of the ten pairs of a box and a text, `textsCheckBoxes[i]` and `textsLineEdit[i]`.
pub record Row : Type 0 where
  pub checked : Bool
  pub text : Bytes

-- What `label_sendStatus` says.
pub data Status : Type 0 where
  error_input send_failed send_ok is_open not_open is_close refreshed : Status

-- The boxes, fields and members that the handlers read and write; `written` is what the port was
-- given, in order, and the two totals stay below 2 ^ 31.
pub record Widget : Type 0 where
  pub rows : List Row
  pub line_edit_send : Bytes
  pub hex_send : Bool
  pub hex_show : Bool
  pub auto_endl : Bool
  pub send_new_line : Bool
  pub recv_time : Bool
  pub send_status : Status
  pub write_cnt_total : ℕ
  pub read_cnt_total : ℕ
  pub send_back : Bytes
  pub history : List Bytes
  pub received : Bytes
  pub written : List Bytes
  pub button_index : ℕ
