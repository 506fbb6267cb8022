-- ===== src/SerialPort/Periodic.antt =====
-- The texts that the periodic sending of projects/SerialPort gives to the port.
use ix_library.Base.{
  ℕ, zero, suc, ◌+◌, ◌*◌, ◌≤◌, ◌<◌, ◌≡◌, refl, ap, sym, ◌∙◌, Option, none, some, List, [], ◌∷◌,
  ◌++◌, length, length-append, append_assoc, append-nil, lt→ltb, le→ltb, ◌&&◌, not, Bool-cases, inl,
  inr, if◌then◌else◌, arith,
}
use ix_library.Wire.{Bytes}
use ix_library.SerialPort.{Row, Widget}
use ix_library.SerialPort.Sending.{
  hex_input, remember, sent, send_clicked, row_at, press_clicked, texts_size, next_button,
  buttons_handler, time_outs,
}

-- The texts of a round: a row that is to be sent as hex digits and is not made of them is left out.
abbrev pub texts_sent : List Row → List Bytes
texts_sent [] = []
texts_sent (r ∷ rs) =
    if r.checked && not (hex_input r.text) then texts_sent rs else r.text ∷ texts_sent rs

abbrev pub rounds : ℕ → List Bytes → List Bytes
rounds zero ts = []
rounds (suc k) ts = ts ++ rounds k ts

-- A run that ends, with what it gave to the port.
record Run (write : Bytes → Option ℕ) (n index : ℕ) (texts : List Bytes) (w : Widget) : Type 0 where
  last : Widget
  runs : (later : ℕ) → time_outs write (n + later) w ≡ time_outs write later last
  rows : last.rows ≡ w.rows
  at_button : last.button_index ≡ index
  written : last.written ≡ w.written ++ texts

record Send (r : Row) (w v : Widget) : Type 0 where
  rows : v.rows ≡ w.rows
  at_button : v.button_index ≡ w.button_index
  written :
      v.written ≡ w.written ++ (if r.checked && not (hex_input r.text) then [] else r.text ∷ [])

sent_kept :
    (o : Option ℕ) (t : Bytes) (v : Widget)
    → ((sent o t v).rows ≡ v.rows)
      × (((sent o t v).button_index ≡ v.button_index)
          × ((sent o t v).written ≡ v.written ++ (t ∷ [])))
unfolding sent remember
sent_kept none t v = (refl, (refl, refl))
sent_kept (some n) t v = ground arith

send_clicked-Send :
    (write : Bytes → Option ℕ) (r : Row) (w : Widget)
    → Send r w (send_clicked write (record w { line_edit_send = r.text; hex_send = r.checked }))
unfolding send_clicked
send_clicked-Send write r w = elim (Bool-cases (r.checked && not (hex_input r.text))) [
  | inl e ↦ record {
    rows = rw e refl;
    at_button = rw e refl;
    written = rw e (sym (append-nil w.written));
  }
  | inr e ↦
      let v : Widget = record w { line_edit_send = r.text; hex_send = r.checked } in
      let (a, (b, c)) = sent_kept (write r.text) r.text v in
      record { rows = rw e a; at_button = rw e b; written = rw e c }
]

row_at-append :
    (before rest : List Row) (r : Row) → row_at (length before) (before ++ (r ∷ rest)) ≡ some r
row_at-append [] rest r = refl
row_at-append (x ∷ xs) rest r = row_at-append xs rest r

press_next :
    (write : Bytes → Option ℕ) (w : Widget) (r : Row)
    → w.button_index < texts_size
    → row_at w.button_index w.rows ≡ some r
    → buttons_handler write w
      ≡ next_button
          (some (send_clicked write (record w { line_edit_send = r.text; hex_send = r.checked })))
unfolding buttons_handler press_clicked
press_next write w r h e =
    rw (lt→ltb w.button_index texts_size h) (ap (λ o. next_button (by_row o)) e)
  where
    by_row : Option Row → Option Widget
    by_row none = none
    by_row (some x) =
        some (send_clicked write (record w { line_edit_send = x.text; hex_send = x.checked }))

then_time_outs :
    (write : Bytes → Option ℕ) (n : ℕ) (w v : Widget)
    → buttons_handler write w ≡ some v
    → time_outs write (suc n) w ≡ time_outs write n v
unfolding time_outs
then_time_outs write n w v e = rw (e, time_outs) refl

resized :
    {write : Bytes → Option ℕ} {w : Widget} {m n i j : ℕ} {ts us : List Bytes}
    → m ≡ n
    → i ≡ j
    → ts ≡ us
    → Run write m i ts w
    → Run write n j us w
resized {write} {w} p q e run = record {
  last = run.last;
  runs = λ later. ap (λ x. time_outs write (x + later) w) (sym p) ∙ run.runs later;
  rows = run.rows;
  at_button = run.at_button ∙ q;
  written = run.written ∙ ap (λ x. w.written ++ x) e;
}

-- One run after the other.
joined :
    {write : Bytes → Option ℕ} {w : Widget} {m n i j : ℕ} {ts us : List Bytes}
    → (one : Run write m i ts w) → Run write n j us one.last
    → Run write (m + n) j (ts ++ us) w
joined {write} {w} {m} {n} {ts} {us} one more = record {
  last = more.last;
  runs = λ later.
      ap (λ x. time_outs write x w) {y = m + (n + later)} (omega arith)
      ∙ one.runs (n + later)
      ∙ more.runs later;
  rows = more.rows ∙ one.rows;
  at_button = more.at_button;
  written = more.written ∙ ap (λ x. x ++ us) one.written ∙ append_assoc w.written ts us;
}

press_run :
    (write : Bytes → Option ℕ) (r : Row) (w : Widget)
    → w.button_index < texts_size
    → row_at w.button_index w.rows ≡ some r
    → Run write 1
        (suc w.button_index)
        (if r.checked && not (hex_input r.text) then [] else r.text ∷ [])
        w
press_run write r w h e =
    let v = send_clicked write (record w { line_edit_send = r.text; hex_send = r.checked }) in
    let one = send_clicked-Send write r w in
    record {
      last = record v { button_index = suc v.button_index };
      runs = λ later.
          ap (λ x. time_outs write x w) {y = suc later} (omega arith)
          ∙ then_time_outs write later w (record v { button_index = suc v.button_index })
              (press_next write w r h e);
      rows = one.rows;
      at_button = ap suc one.at_button;
      written = one.written;
    }

row_sent :
    (r : Row) (rest : List Row)
    → (if r.checked && not (hex_input r.text) then [] else r.text ∷ []) ++ texts_sent rest
      ≡ texts_sent (r ∷ rest)
row_sent r rest = ground arith

-- The timeouts that are left of a round, one for each text.
texts_run :
    (write : Bytes → Option ℕ) (before rest : List Row) (w : Widget)
    → w.rows ≡ before ++ rest
    → w.button_index ≡ length before
    → length before + length rest ≤ texts_size
    → Run write (length rest) (length before + length rest) (texts_sent rest) w
texts_run write before [] w e i h = record {
  last = w;
  runs = λ later. ap (λ x. time_outs write x w) (omega arith);
  rows = refl;
  at_button = omega (arith, i);
  written = sym (append-nil w.written);
}
texts_run write before (r ∷ rest) w e i h =
    let one =
      press_run write r w (omega (arith, i, h)) (
        ap (λ n. row_at n w.rows) i
        ∙ ap (row_at (length before)) e
        ∙ row_at-append before rest r) in
    let longer = length-append before (r ∷ []) in
    let more =
      texts_run write (before ++ (r ∷ [])) rest one.last
        (one.rows ∙ e ∙ sym (append_assoc before (r ∷ []) rest))
        (one.at_button ∙ omega (arith, i, longer)) (omega (arith, longer, h)) in
    resized (omega arith) (omega (arith, longer)) (row_sent r rest) (joined one more)

started : (write : Bytes → Option ℕ) (w : Widget) → texts_size ≤ w.button_index → Run write 1 0 [] w
unfolding buttons_handler
started write w h = record {
  last = record w { button_index = 0 };
  runs = λ later.
      ap (λ x. time_outs write x w) {y = suc later} (omega arith)
      ∙ then_time_outs write later w (record w { button_index = 0 })
          (rw (le→ltb w.button_index texts_size h) refl);
  rows = refl;
  at_button = refl;
  written = sym (append-nil w.written);
}

-- A round of eleven timeouts: ten presses and one that starts again.
round_run :
    (write : Bytes → Option ℕ) (w : Widget)
    → length w.rows ≡ texts_size
    → w.button_index ≡ 0
    → Run write 11 0 (texts_sent w.rows) w
round_run write w e i =
    let run = texts_run write [] w.rows w refl i (omega (arith, e)) in
    resized (omega (arith, e)) refl (append-nil (texts_sent w.rows))
      (joined run (started write run.last (omega (arith, e, run.at_button))))

rounds_run :
    (write : Bytes → Option ℕ) (k : ℕ) (w : Widget)
    → length w.rows ≡ texts_size
    → w.button_index ≡ 0
    → Run write (k * 11) 0 (rounds k (texts_sent w.rows)) w
rounds_run write zero w e i = record {
  last = w;
  runs = λ later. ap (λ x. time_outs write x w) (omega arith);
  rows = refl;
  at_button = i;
  written = sym (append-nil w.written);
}
rounds_run write (suc k) w e i =
    let one = round_run write w e i in
    let more = rounds_run write k one.last (ap length one.rows ∙ e) one.at_button in
    resized (omega arith) refl (ap (λ rs. texts_sent w.rows ++ rounds k (texts_sent rs)) one.rows)
      (joined one more)

-- With ten texts, and the first button next: whatever the port answers, every eleven timeouts of the
-- periodic sending give the port each text once, in their order, but for those that are marked as hex
-- digits and are not; no index is out of bounds, and the first button is next again.
pub time_outs_send :
    (write : Bytes → Option ℕ) (k : ℕ) (w : Widget)
    → length w.rows ≡ texts_size
    → w.button_index ≡ 0
    → (v : Widget) × ((time_outs write (k * 11) w ≡ some v)
        × ((v.written ≡ w.written ++ rounds k (texts_sent w.rows))
            × ((v.rows ≡ w.rows) × (v.button_index ≡ 0))))
unfolding time_outs
time_outs_send write k w e i =
    let run = rounds_run write k w e i in
    (
      run.last,
      (
        ap (λ n. time_outs write n w) (omega arith) ∙ run.runs 0,
        (run.written, (run.rows, run.at_button)),
      ),
    )
