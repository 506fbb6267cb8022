-- ===== src/Player/Decoder/Open.antt =====
-- `pretreatment`, `pretreatment_video` and `pretreatment_audio`: a file is opened and the streams to
-- decode are chosen. The answers of FFmpeg are the fields of `Media`.
use ix_library.Base.{
  ℕ, ◌+◌, Bool, true, false, Option, none, some, List, [], ◌∷◌, ◌&&◌, not, if◌then◌else◌,
}
use ix_library.Player.Decoder.{DecodeType, video_with_audio, video, audio, unknown}

pub data MediaType : Type 0 where
  is_video is_audio is_other : MediaType

pub record Media : Type 0 where
  pub open_input_ok : Bool
  pub stream_info_ok : Bool
  pub streams : List MediaType
  pub audio_decoder_found : Bool
  pub audio_context_made : Bool
  pub audio_parameters_ok : Bool
  pub audio_open_ok : Bool

-- What `pretreatment` leaves behind: `none` is index -1, and `announced` the type that
-- `format_ready` was emitted with.
pub record Opened : Type 0 where
  pub fmt_type : Option DecodeType
  pub video_stream_idx : Option ℕ
  pub audio_stream_idx : Option ℕ
  pub announced : Option DecodeType

abbrev pub same_type : MediaType → MediaType → Bool
same_type is_video is_video = true
same_type is_audio is_audio = true
same_type is_other is_other = true
same_type _ _ = false

-- The first stream of a type.
unfoldable pub find_stream : MediaType → ℕ → List MediaType → Option ℕ
find_stream t i [] = none
find_stream t i (x ∷ xs) = if same_type x t then some i else find_stream t (i + 1) xs

unfoldable pub pretreatment_video : Media → Opened → Bool × Opened
unfolding find_stream
pretreatment_video m o =
    let idx = find_stream is_video 0 m.streams in
    elim idx [ none ↦ (false, o) | some i ↦ (true, record o { video_stream_idx = some i }) ]

unfoldable pub pretreatment_audio : Media → Opened → Bool × Opened
unfolding find_stream
pretreatment_audio m o =
    let idx = find_stream is_audio 0 m.streams in
    elim idx [
      | none ↦ (false, o)
      | some i ↦ (
        m.audio_decoder_found
            && (m.audio_context_made && (m.audio_parameters_ok && m.audio_open_ok)),
        record o { audio_stream_idx = some i },
      )
    ]

-- `on_finished` has reset the members.
abbrev pub closed : Opened
closed = record {
  fmt_type = none;
  video_stream_idx = none;
  audio_stream_idx = none;
  announced = none;
}

abbrev pub announce : Opened → DecodeType → Opened
announce o t = record o { fmt_type = some t; announced = some t }

unfoldable pub choose : DecodeType → Media → Opened
unfolding pretreatment_video pretreatment_audio
choose video_with_audio m =
    let (has_audio, a) = pretreatment_audio m closed in
    let (has_video, b) = pretreatment_video m a in
    announce b
      (if has_audio && has_video then video_with_audio else if has_audio then audio else video)
choose audio m =
    let (has_audio, a) = pretreatment_audio m closed in
    if has_audio then announce a audio else record a { fmt_type = some audio }
choose video m =
    let (has_video, a) = pretreatment_video m closed in
    if has_video then announce a video else record a { fmt_type = some video }
choose unknown m = closed

abbrev pub known : DecodeType → DecodeType
known unknown = video_with_audio
known video_with_audio = video_with_audio
known video = video
known audio = audio

unfoldable pub pretreatment : DecodeType → Media → Opened
unfolding choose
pretreatment t m =
    if not m.open_input_ok
    then closed
    else if not m.stream_info_ok
    then closed
    else choose (known t) m
