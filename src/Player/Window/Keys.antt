-- ===== src/Player/Window/Keys.antt =====
-- The keys of projects/龙卷风播放器/app/MainWindow.cpp: the filter on the application sees a key before
-- `keyPressEvent` does.
use ix_library.Base.{◌≡◌, Bool, true, false, ◌||◌, not, if◌then◌else◌, arith}
use ix_library.Player.Decoder.{Seconds}
use ix_library.Player.Window.{Window, play_clicked}

pub data Key : Type 0 where
  left right space other : Key

module _ (s : Seconds) where
  open s use {T}

  -- `get_isSeek` of the worker.
  unfoldable pub get_is_seek : Window T → Bool
  get_is_seek w = s.less s.zero w.seek_offset || s.less s.zero w.seek_pos

  -- `eventFilter`, for a key that is pressed: whether it is taken, and what it does.
  unfoldable pub event_filter : Key → Window T → Bool × Window T
  event_filter key w = if w.is_decoding then taken key else (false, w)
    where
      toggled : Window T
      toggled = record (play_clicked (not w.play_checked) w) { play_checked = not w.play_checked }

      taken : Key → Bool × Window T
      taken space = (true, toggled)
      taken left = (true, record w { seek_offset = s.minus_one })
      taken right = (true, record w { seek_offset = s.of_int 1 })
      taken other = (false, w)

  -- `keyPressEvent`: two seconds back or on.
  unfoldable pub key_press_event : Key → Window T → Window T
  key_press_event left w =
      if w.is_decoding then record w { seek_offset = s.add s.minus_one s.minus_one } else w
  key_press_event right w = if w.is_decoding then record w { seek_offset = s.of_int 2 } else w
  key_press_event space w = w
  key_press_event other w = w

  abbrev passed : Key → Bool × Window T → Window T
  passed key (true, w) = w
  passed key (false, w) = key_press_event key w

  -- A key that comes to the application.
  unfoldable pub key_pressed : Key → Window T → Window T
  unfolding event_filter key_press_event
  key_pressed key w = passed key (event_filter key w)

  -- `keyPressEvent` is passed the keys that the filter leaves, and changes nothing: it never moves by
  -- two seconds.
  pub key_pressed-event_filter :
      (key : Key) (w : Window T) → key_pressed key w ≡ (event_filter key w).1
  unfolding key_pressed event_filter key_press_event
  key_pressed-event_filter left w = ground arith
  key_pressed-event_filter right w = ground arith
  key_pressed-event_filter space w = ground arith
  key_pressed-event_filter other w = ground arith
