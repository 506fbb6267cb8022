-- ===== src/SerialPort/Switch.antt =====
-- projects/SerialPort/widget.cpp: the button that opens and closes the port, and the boxes that it
-- enables; timed and periodic sending.
pub mod Clicks
use ix_library.Base.{
  ℕ, zero, suc, ◌≡◌, refl, Bool, true, false, Option, none, some, List, [], ◌∷◌, not, if◌then◌else◌,
}
use ix_library.Wire.{Bytes}

pub data Parity : Type 0 where
  no_parity even_parity mark_parity odd_parity space_parity unknown_parity : Parity

-- What the port is configured with; `flow_set` is false where the box names another control.
pub record Settings : Type 0 where
  pub port_name : Bytes
  pub baud_rate : ℕ
  pub parity : Parity
  pub data_bits : ℕ
  pub stop_bits : ℕ
  pub no_flow_control : Bool

-- What the boxes hold: `parity_index` is that of `comboBox_jiaoyan`.
pub record Choice : Type 0 where
  pub port_text : Bytes
  pub baud_number : ℕ
  pub parity_index : ℕ
  pub bits_number : ℕ
  pub stop_number : ℕ
  pub flow_is_none : Bool

-- What `label_sendStatus` says of the port.
pub data Label : Type 0 where
  is_not_open is_open is_close : Label

pub record Panel : Type 0 where
  pub port : Option Settings
  pub flow_control_off : Bool
  pub switch_checked : Bool
  pub send_enabled : Bool
  pub settings_enabled : Bool
  pub boxes_enabled : Bool
  pub view_boxes_enabled : Bool
  pub label : Label
  pub timed_checked : Bool
  pub timer : Option ℕ
  pub edits_enabled : Bool
  pub periodic_checked : Bool
  pub thread_runs : Bool
  pub delay_enabled : Bool

-- The constructor and `init`. `boxes_enabled` is that of the four boxes that `init` disables, for timed
-- sending, new lines and hex digits; `view_boxes_enabled` that of checkBox_autoEndl and
-- checkBox_recvTime, which it leaves enabled.
abbrev pub start : Panel
start = record {
  port = none;
  flow_control_off = false;
  switch_checked = false;
  send_enabled = false;
  settings_enabled = true;
  boxes_enabled = false;
  view_boxes_enabled = true;
  label = is_not_open;
  timed_checked = false;
  timer = none;
  edits_enabled = true;
  periodic_checked = false;
  thread_runs = false;
  delay_enabled = true;
}

unfoldable pub parity_of : ℕ → Parity
parity_of zero = no_parity
parity_of (suc zero) = even_parity
parity_of (suc (suc zero)) = mark_parity
parity_of (suc (suc (suc zero))) = odd_parity
parity_of (suc (suc (suc (suc zero)))) = space_parity
parity_of _ = unknown_parity

-- The signal `toggled`, with the slots that `setConnect` connects to it.
unfoldable pub switch_toggled : Bool → Panel → Panel
switch_toggled checked p = record p {
  switch_checked = checked;
  boxes_enabled = checked;
  view_boxes_enabled = checked;
}

unfoldable pub configure : Choice → Bool → Settings
unfolding parity_of
configure c off = record {
  port_name = c.port_text;
  baud_rate = c.baud_number;
  parity = parity_of c.parity_index;
  data_bits = c.bits_number;
  stop_bits = c.stop_number;
  no_flow_control = off;
}

-- `on_btn_serialSwitch_clicked`; `opens` is the answer of `open`.
unfoldable pub switch_clicked : Choice → Bool → Bool → Panel → Panel
unfolding switch_toggled configure
switch_clicked c opens true p =
    let off = if c.flow_is_none then true else p.flow_control_off in
    let q = record p { flow_control_off = off } in
    if opens
    then record q {
      port = some (configure c off);
      settings_enabled = false;
      send_enabled = true;
      label = is_open;
    }
    else switch_toggled false q
switch_clicked c opens false p = record p {
  port = none;
  settings_enabled = true;
  send_enabled = false;
  label = is_close;
}

-- `on_checkBox_timedTransmission_clicked`, with the interval in the field.
unfoldable pub timed_clicked : ℕ → Bool → Panel → Panel
timed_clicked interval checked p =
    if checked then record p { timer = some interval } else record p { timer = none }

-- The slot of `toggled` of the same box.
unfoldable pub timed_toggled : Bool → Panel → Panel
timed_toggled checked p = record p { timed_checked = checked; edits_enabled = not checked }

-- `on_checkBox_periodicSend_clicked`.
unfoldable pub periodic_clicked : Bool → Panel → Panel
periodic_clicked checked p =
    if checked
    then record p { periodic_checked = true; delay_enabled = false; thread_runs = true }
    else record p { periodic_checked = false; thread_runs = false; delay_enabled = true }

-- Clicks of the user. A click toggles the button before its handler runs; a disabled box takes none.
pub data Click : Type 0 where
  on_switch : Choice → Bool → Click
  on_timed : ℕ → Click
  on_periodic : Click

unfoldable pub click : Click → Panel → Panel
unfolding switch_toggled switch_clicked timed_toggled timed_clicked periodic_clicked
click (on_switch c opens) p =
    switch_clicked c opens (not p.switch_checked) (switch_toggled (not p.switch_checked) p)
click (on_timed interval) p =
    if p.boxes_enabled
    then timed_clicked interval (not p.timed_checked) (timed_toggled (not p.timed_checked) p)
    else p
click on_periodic p = periodic_clicked (not p.periodic_checked) p

unfoldable pub clicks : List Click → Panel → Panel
unfolding click
clicks [] p = p
clicks (c ∷ cs) p = clicks cs (click c p)
