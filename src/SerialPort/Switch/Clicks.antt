-- ===== src/SerialPort/Switch/Clicks.antt =====
-- What the window of projects/SerialPort shows as on, and what is on.
use ix_library.Base.{
  ℕ, ◌≡◌, refl, Bool, true, false, Option, none, some, List, [], ◌∷◌, not, Bool-cases, ◌⊎◌, inl,
  inr, arith,
}
use ix_library.SerialPort.Switch.{
  Choice, Panel, start, switch_toggled, switch_clicked, timed_clicked, timed_toggled,
  periodic_clicked, Click, on_switch, on_timed, on_periodic, click, clicks, is_not_open,
}

abbrev pub is_some {ℓ} : {A : Type ℓ} → Option A → Bool
is_some none = false
is_some (some a) = true

-- What the boxes show is what is on.
pub record Agrees (p : Panel) : Type 0 where
  pub checked : p.switch_checked ≡ is_some p.port
  pub send : p.send_enabled ≡ is_some p.port
  pub boxes : p.boxes_enabled ≡ is_some p.port
  pub view_boxes :
      (p.view_boxes_enabled ≡ is_some p.port)
      ⊎ ((p.label ≡ is_not_open) × ((p.port ≡ none) × (p.view_boxes_enabled ≡ true)))
  pub settings : p.settings_enabled ≡ not (is_some p.port)
  pub timed : p.timed_checked ≡ is_some p.timer
  pub edits : p.edits_enabled ≡ not (is_some p.timer)
  pub periodic : p.periodic_checked ≡ p.thread_runs
  pub delay : p.delay_enabled ≡ not p.thread_runs

click-Agrees : (c : Click) (p : Panel) → Agrees p → Agrees (click c p)
unfolding click switch_toggled switch_clicked timed_toggled timed_clicked periodic_clicked
click-Agrees (on_switch c opens) p h = ground arith
click-Agrees (on_timed interval) p h = ground arith
click-Agrees on_periodic p h = ground arith

clicks_keep : (cs : List Click) (p : Panel) → Agrees p → Agrees (clicks cs p)
unfolding clicks
clicks_keep [] p h = h
clicks_keep (c ∷ cs) p h = clicks_keep cs (click c p) (click-Agrees c p h)

-- A click on the switch of an open port.
pub record Closes (p q : Panel) (interval : ℕ) : Type 0 where
  port : q.port ≡ none
  view_boxes : q.view_boxes_enabled ≡ false
  timer : q.timer ≡ p.timer
  deaf : click (on_timed interval) q ≡ q

closing :
    (p : Panel) (c : Choice) (opens : Bool) (interval : ℕ)
    → Agrees p
    → is_some p.port ≡ true
    → Closes p (click (on_switch c opens) p) interval
unfolding click switch_toggled switch_clicked
closing p c opens interval h o = record {
  port = rw (h.checked, o) refl;
  view_boxes = rw (h.checked, o) refl;
  timer = rw (h.checked, o) refl;
  deaf = rw (h.checked, o) refl;
}

first-Agrees : Agrees start
first-Agrees = record {
  checked = refl;
  send = refl;
  boxes = refl;
  view_boxes = inr (refl, (refl, refl));
  settings = refl;
  timed = refl;
  edits = refl;
  periodic = refl;
  delay = refl;
}

-- After any clicks, from the start: the switch is checked, and the send button and the boxes for
-- sending and for hex digits are enabled, just when the port is open, and the port's settings just
-- when it is closed. The boxes for line ends and times are too, but for a port that was not opened
-- yet: there they may be enabled. The timed box
-- is checked just when the timer runs, the periodic box just when the thread does, and their fields
-- are enabled just when it does not. Then the port is closed, or a click on the switch closes it and
-- leaves the timer as it was, all the boxes are disabled, and a click on the timed box does
-- nothing.
pub clicks_agree :
    (cs : List Click) (c : Choice) (opens : Bool) (interval : ℕ)
    → let p = clicks cs start in
      Agrees p × ((is_some p.port ≡ false) ⊎ Closes p (click (on_switch c opens) p) interval)
clicks_agree cs c opens interval =
    let p = clicks cs start in
    let h = clicks_keep cs start first-Agrees in
    (
      h,
      elim (Bool-cases (is_some p.port)) [
        | inl o ↦ inr (closing p c opens interval h o)
        | inr o ↦ inl o
      ],
    )
