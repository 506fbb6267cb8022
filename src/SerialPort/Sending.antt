-- ===== src/SerialPort/Sending.antt =====
-- projects/SerialPort/widget.cpp: what is sent, and what is shown of what comes in. `write` is what
-- `QSerialPort::write` answers, `none` for -1.
use ix_library.Base.{
  ℕ, zero, suc, ◌+◌, ◌%◌, ◌≡◌, refl, Bool, true, Option, none, some, List, [], ◌∷◌, ◌++◌, length,
  ltb, ◌==◌, ◌&&◌, not, if◌then◌else◌, utf8, same,
}
use ix_library.Wire.{Bytes}
use ix_library.SerialPort.{Qt, isxdigit, Row, error_input, send_failed, send_ok, Widget}
use ix_library.SerialPort.Hex.{to_hex}

-- The loop over the characters of a text that is to be sent as hex digits.
unfoldable pub all_xdigits : Bytes → Bool
all_xdigits [] = true
all_xdigits (c ∷ cs) = isxdigit c && all_xdigits cs

-- The two tests before a text is sent as hex digits.
unfoldable pub hex_input : Bytes → Bool
unfolding all_xdigits
hex_input send_data = (length send_data % 2 == 0) && all_xdigits send_data

-- The history takes a text that is not the one sent before.
unfoldable pub remember : Bytes → Widget → Widget
remember send_data w =
    if same send_data w.send_back
    then w
    else record w { history = w.history ++ (send_data ∷ []); send_back = send_data }

-- After the write. The text itself is written, as hex digits or not.
unfoldable pub sent : Option ℕ → Bytes → Widget → Widget
unfolding remember
sent none send_data w = record w {
  written = w.written ++ (send_data ∷ []);
  send_status = send_failed;
}
sent (some n) send_data w = remember send_data (record w {
  written = w.written ++ (send_data ∷ []);
  write_cnt_total = w.write_cnt_total + n;
  send_status = send_ok;
})

-- `on_btn_send_clicked`.
unfoldable pub send_clicked : (Bytes → Option ℕ) → Widget → Widget
unfolding hex_input sent
send_clicked write w =
    if w.hex_send && not (hex_input w.line_edit_send)
    then record w { send_status = error_input }
    else sent (write w.line_edit_send) w.line_edit_send w

abbrev pub row_at : ℕ → List Row → Option Row
row_at i [] = none
row_at zero (r ∷ rs) = some r
row_at (suc i) (r ∷ rs) = row_at i rs

-- `on_pushButton_X_clicked`; `none`: an index out of bounds.
unfoldable pub press_clicked : (Bytes → Option ℕ) → ℕ → Widget → Option Widget
unfolding send_clicked
press_clicked write i w = elim (row_at i w.rows) [
  | none ↦ none
  | some r ↦ some (send_clicked write (record w { line_edit_send = r.text; hex_send = r.checked }))
]

-- `textsSize` of `init`.
abbrev pub texts_size : ℕ
texts_size = 10

abbrev pub next_button : Option Widget → Option Widget
next_button none = none
next_button (some w) = some (record w { button_index = suc w.button_index })

-- `buttons_handler`, the slot of `MyThread::ThreadTimeOut`.
unfoldable pub buttons_handler : (Bytes → Option ℕ) → Widget → Option Widget
unfolding press_clicked
buttons_handler write w =
    if ltb w.button_index texts_size
    then next_button (press_clicked write w.button_index w)
    else some (record w { button_index = 0 })

-- The loop of `MyThread::run`, for a number of rounds.
unfoldable pub time_outs : (Bytes → Option ℕ) → ℕ → Widget → Option Widget
unfolding buttons_handler
time_outs write zero w = some w
time_outs write (suc n) w = elim (buttons_handler write w) [
  | none ↦ none
  | some v ↦ time_outs write n v
]

module _ (qt : Qt) where
  -- The text that is put into the view, for a message that is not empty.
  unfoldable pub shown : Bytes → Bytes → Widget → Bytes
  unfolding to_hex
  shown stamp msg w =
      let timed = if w.recv_time then stamp ++ msg else msg in
      let digits = if w.hex_show then to_hex qt timed else timed in
      let ended = if w.auto_endl then digits ++ utf8 "\r\n" else digits in
      if w.send_new_line then utf8 "\r\n" ++ ended else ended

  -- `on_SerialData_ready_to_read`, given the time as text and what `readAll` gave. The cursor stands at
  -- the end of the view.
  unfoldable pub data_ready : Bytes → Bytes → Widget → Widget
  unfolding shown
  data_ready stamp all w =
      let msg = qt.from_utf8 all in
      if length msg == 0 then w else record w {
        received = w.received ++ qt.from_utf8 (shown stamp msg w);
        read_cnt_total = w.read_cnt_total + length msg;
      }

-- A text of hex digits is sent like any other: its characters are written, counted and remembered.
hex_sends_text :
    (write : Bytes → Option ℕ) (w : Widget)
    → w.hex_send ≡ true
    → hex_input w.line_edit_send ≡ true
    → send_clicked write w ≡ sent (write w.line_edit_send) w.line_edit_send w
unfolding send_clicked
hex_sends_text write w h e = rw (h, e) refl
