-- ===== src/Player/Window.antt =====
-- projects/龙卷风播放器/app/MainWindow.cpp, the player's window: which file plays, which threads there are,
-- pausing, keys and the slider. `start_pretreatment` and `decode_ready` are signals to the decoder's
-- thread: what was emitted is kept in order. Deleting a thread object is taking it off `alive`.
pub mod Opening
pub mod Twice
pub mod Keys
use ix_library.Base.{
  ℕ, suc, ◌+◌, Bool, true, false, Option, none, some, List, [], ◌∷◌, ◌++◌, ◌==◌, ◌||◌, not,
  if◌then◌else◌, utf8, same,
}
use ix_library.Wire.{Bytes}
use ix_library.Player.Decoder.{DecodeType, video_with_audio, video, audio, unknown, Seconds}

-- The arguments of `decode_ready`, as they were when it was emitted.
pub record Request : Type 0 where
  pub of_type : DecodeType
  pub with_audio : Option ℕ
  pub with_render : Option ℕ

-- What a call leads to, besides the change of members.
pub data Signal : Type 0 where
  start_pretreatment : DecodeType → Bytes → Signal
  decode_ready : Request → Signal
  notify_pause : Signal
  wait_to_finished : Signal

-- `get_current_time`: whose clock it reads, once a file was opened.
pub data Clock : Type 0 where
  no_clock audio_clock render_clock : Clock

-- The members of the window, and the worker's atomics that it reads and writes. `alive` are the thread
-- objects that exist, by the number of their making.
pub record Window (T : Type 0) : Type 0 where
  pub is_decoding : Bool
  pub seek_offset : T
  pub seek_pos : T
  pub is_paused : Bool
  pub is_stopped : Bool
  pub play_checked : Bool
  pub says_stop : Bool
  pub timer_runs : Bool
  pub slider_busy : Bool
  pub audio_thread : Option ℕ
  pub render_thread : Option ℕ
  pub current_time : Clock
  pub alive : List ℕ
  pub made : ℕ
  pub signals : List Signal

-- The branches on the suffix.
unfoldable pub type_of : Bytes → DecodeType
type_of suffix =
    if same suffix (utf8 "mp4")
    then video_with_audio
    else if same suffix (utf8 "mp3")
    then audio
    else unknown

abbrev pub remove : ℕ → List ℕ → List ℕ
remove n [] = []
remove n (m ∷ ms) = if m == n then remove n ms else m ∷ remove n ms

abbrev pub has_sound : DecodeType → Bool
has_sound video = false
has_sound _ = true

abbrev pub has_picture : DecodeType → Bool
has_picture audio = false
has_picture _ = true

abbrev pub is_known : DecodeType → Bool
is_known unknown = false
is_known _ = true

-- `delete` of a pointer that may be null.
unfoldable pub delete : Option ℕ → List ℕ → List ℕ
delete none ms = ms
delete (some n) ms = remove n ms

module _ {T : Type 0} where
  abbrev pub emit : List Signal → Window T → Window T
  emit es w = record w { signals = w.signals ++ es }

  -- `on_btn_play_clicked`.
  unfoldable pub play_clicked : Bool → Window T → Window T
  play_clicked value w =
      if w.is_decoding
      then emit (notify_pause ∷ [])
          (record w { is_paused = not value; timer_runs = value; says_stop = value })
      else record w { says_stop = false; play_checked = false }

  -- `on_treeWidget_files_itemDoubleClicked`. While `wait_to_finished` waits for the worker, the flags are
  -- as they were set before it; when it returns, the worker has reset `isDecoding`.
  unfoldable pub double_clicked : Bytes → Bytes → Window T → Window T
  unfolding type_of
  double_clicked path suffix w =
      let start = start_pretreatment (type_of suffix) path in
      if same suffix []
      then w
      else if w.is_decoding
      then emit (notify_pause ∷ wait_to_finished ∷ start ∷ [])
          (record w { is_decoding = false; is_paused = false; is_stopped = false })
      else emit (start ∷ []) w

  -- `new AudioThread`, `new RenderThread`.
  unfoldable pub make_audio : Window T → Window T
  make_audio w = record w {
    audio_thread = some w.made;
    alive = w.made ∷ w.alive;
    made = suc w.made;
  }

  unfoldable pub make_render : Window T → Window T
  make_render w = record w {
    render_thread = some w.made;
    alive = w.made ∷ w.alive;
    made = suc w.made;
  }

  -- `init_start_video`.
  unfoldable pub init_start_video : DecodeType → Window T → Window T
  unfolding make_audio make_render
  init_start_video t w =
      let started = record w { timer_runs = true; is_stopped = false } in
      let sounding = if has_sound t then make_audio started else started in
      let drawing = if has_picture t then make_render sounding else sounding in
      record drawing { current_time = if has_sound t then audio_clock else render_clock }

  -- `handle_format_ready`.
  unfoldable pub format_ready : DecodeType → Window T → Window T
  unfolding init_start_video
  format_ready t w =
      let v = init_start_video t w in
      if is_known t
      then emit
          (decode_ready
              (record { of_type = t; with_audio = v.audio_thread; with_render = v.render_thread })
            ∷ [])
          (record v { says_stop = true; play_checked = true })
      else v

  -- `handle_video_finished`.
  unfoldable pub video_finished : Window T → Window T
  unfolding play_clicked delete
  video_finished w =
      let v = play_clicked false w in
      record v {
        timer_runs = false;
        render_thread = none;
        audio_thread = none;
        alive = delete v.audio_thread (delete v.render_thread v.alive);
      }

  -- `on_horizontalSlider_video_sliderMoved`, and `sliderReleased` with the offset that it computes.
  unfoldable pub slider_moved : Window T → Window T
  slider_moved w = record w { slider_busy = true }

  unfoldable pub slider_released : T → Window T → Window T
  slider_released offset w = record w {
    seek_offset = if w.is_decoding then offset else w.seek_offset;
    slider_busy = false;
  }
