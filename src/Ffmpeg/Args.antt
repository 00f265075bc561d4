-- ===== src/Ffmpeg/Args.antt =====
-- `BuildArgs` and `logoFilterComplex` of internal/ffmpeg/args.go. The arguments are put together from
-- the groups in which the code appends them.
pub mod Outcome
pub mod BuiltIn
use neo_transcoder.Base.{
  ℕ, ℤ, pos, Bool, true, false, not, ◌&&◌, ◌||◌, Option, none, some, List, [], ◌∷◌, ◌++◌, Bytes,
  bytes, ltb_ℤ, ◌==◌, bytes_eq, nat_eq, if◌then◌else◌, Checked, ok, err, ◌>>=◌, ◌>>◌, refuse_if,
  length, ltb,
}
use neo_transcoder.Ffmpeg.Models.{
  Stream, Profile, VideoProfile, AdvancedProfile, LogoOverlay, SystemConfig, itoa_ℤ,
  log_level_or_default,
}
use neo_transcoder.Ffmpeg.Urls.{
  Urls, UrlError, validate_url, validate_input, augment_input_url, augment_output_url,
}
use neo_transcoder.Ffmpeg.Template.{TemplateError, build_template_args}

pub data ArgsError : Type 0 where
  input_url output_url : UrlError → ArgsError
  template : TemplateError → ArgsError
  video_codec_required audio_codec_required logo_path_required : ArgsError

-- fmt.Errorf("…: %w", err)
unfoldable pub wrapped :
    {E : Type 0} {A : Type 0} → (E → ArgsError) → Checked E A → Checked ArgsError A
wrapped wrap (ok value) = ok value
wrapped wrap (err e) = err (wrap e)

-- `if value != "" { args = append(args, name, value) }`
unfoldable pub text_flag : Bytes → Bytes → List Bytes
text_flag name value = if value == [] then [] else name ∷ value ∷ []

-- `if value != nil`
unfoldable pub number_flag : Bytes → Option ℤ → List Bytes
number_flag name none = []
number_flag name (some value) = name ∷ itoa_ℤ value ∷ []

-- `if value > 0`
unfoldable pub positive_flag : Bytes → ℤ → List Bytes
positive_flag name value = if ltb_ℤ (pos 0) value then name ∷ itoa_ℤ value ∷ [] else []

unfoldable pub log_args : Stream → SystemConfig → List Bytes
log_args stream sys =
    bytes "-hide_banner"
    ∷ bytes "-nostdin"
    ∷ ((if stream.keep_stats then [] else bytes "-nostats" ∷ [])
        ++ (bytes "-loglevel"
            ∷ (bytes "level+" ++ log_level_or_default sys.log_level)
            ∷ bytes "-progress"
            ∷ bytes "pipe:1"
            ∷ bytes "-stats_period"
            ∷ bytes "1"
            ∷ []))

unfoldable pub fflags : AdvancedProfile → Bytes
fflags advanced =
    (if advanced.enable_genpts then bytes "+genpts" else [])
    ++ (if advanced.discard_corrupt then bytes "+discardcorrupt" else [])

unfoldable pub probe_args : AdvancedProfile → SystemConfig → List Bytes
probe_args advanced sys =
    text_flag (bytes "-fflags") (fflags advanced)
    ++ ((if advanced.ignore_decode_errors
          then bytes "-err_detect" ∷ bytes "ignore_err" ∷ []
          else [])
        ++ (positive_flag (bytes "-analyzeduration") sys.analyze_duration
            ++ positive_flag (bytes "-probesize") sys.probe_size))

unfoldable pub input_args : Stream → Bytes → List Bytes
input_args stream url =
    (if stream.source_type == bytes "file" then bytes "-re" ∷ [] else []) ++ (bytes "-i" ∷ url ∷ [])

unfoldable pub logo_filter_complex : Bytes → Bytes → LogoOverlay → Bytes
logo_filter_complex video_map scale logo =
    let overlay =
      bytes "[1:v:0]overlay=" ++ (itoa_ℤ logo.x ++ (b':' ∷ (itoa_ℤ logo.y ++ bytes "[v]"))) in
    b'['
    ∷ (video_map
        ++ (if scale == []
            then b']' ∷ overlay
            else bytes "]scale=" ++ (scale ++ (bytes "[scaled];[scaled]" ++ overlay))))

unfoldable pub video_map_args : Stream → Bytes → Bytes → Checked ArgsError (List Bytes)
video_map_args stream video_map scale =
    if not stream.logo.enabled
    then ok (
        bytes "-map"
        ∷ video_map
        ∷ (if scale == [] then [] else bytes "-vf" ∷ (bytes "scale=" ++ scale) ∷ []))
    else if stream.logo.path == []
    then err logo_path_required
    else ok (
        bytes "-i"
        ∷ stream.logo.path
        ∷ bytes "-filter_complex"
        ∷ logo_filter_complex video_map scale stream.logo
        ∷ bytes "-map"
        ∷ bytes "[v]"
        ∷ [])

map_args : List Bytes → List Bytes
map_args [] = []
map_args (item ∷ items) =
    let rest = map_args items in if item == [] then rest else bytes "-map" ∷ item ∷ rest

unfoldable pub audio_map_args : Stream → Bytes → List Bytes
unfolding map_args
audio_map_args stream audio_map =
    if stream.disable_audio
    then []
    else map_args (elim stream.audio_maps [ [] ↦ audio_map ∷ [] | item ∷ items ↦ item ∷ items ])

unfoldable pub encoder_args : VideoProfile → AdvancedProfile → List Bytes
encoder_args video advanced =
    (bytes "-c:v" ∷ video.codec ∷ text_flag (bytes "-preset") video.preset)
    ++ (text_flag (bytes "-tune") video.tune
        ++ (text_flag (bytes "-r") video.fps
            ++ (text_flag (bytes "-b:v") video.bitrate
                ++ (text_flag (bytes "-maxrate") video.maxrate
                    ++ (text_flag (bytes "-bufsize") video.bufsize
                        ++ (text_flag (bytes "-minrate") advanced.minrate
                            ++ (number_flag (bytes "-g") advanced.gop
                                ++ (number_flag (bytes "-keyint_min") advanced.keyint_min
                                    ++ (number_flag (bytes "-sc_threshold") advanced.sc_threshold
                                        ++ (number_flag (bytes "-threads") advanced.video_threads
                                            ++ text_flag (bytes "-x264-params")
                                                advanced.x264_params))))))))))

unfoldable pub audio_args : Stream → Profile → List Bytes
audio_args stream profile =
    if stream.disable_audio
    then []
    else bytes "-c:a"
      ∷ profile.audio.codec
      ∷ (if profile.audio.codec == bytes "copy"
          then []
          else text_flag (bytes "-b:a") profile.audio.bitrate)

abbrev pub or_else : Bytes → Bytes → Bytes
or_else text default = if text == [] then default else text

abbrev pub output_format : Profile → Bytes
output_format profile = or_else profile.format (bytes "mpegts")

-- The arguments in their order, with the URLs and the arguments for the video's source.
unfoldable pub command_line :
    Stream → Profile → SystemConfig → Bytes → Bytes → List Bytes → List Bytes
command_line stream profile sys input output video_maps =
    log_args stream sys
    ++ (probe_args profile.advanced sys
        ++ (input_args stream input
            ++ (video_maps
                ++ (audio_map_args stream (or_else stream.audio_map (bytes "0:a:0?"))
                    ++ (encoder_args profile.video profile.advanced
                        ++ (audio_args stream profile
                            ++ (profile.extra_args
                                ++ (bytes "-f" ∷ output_format profile ∷ output ∷ []))))))))

-- BuildArgs for a profile without a template, once the URLs are checked.
unfoldable pub build_profile_args :
    Urls → Stream → Profile → SystemConfig → Checked ArgsError (List Bytes)
build_profile_args urls stream profile sys = do
  refuse_if (profile.video.codec == []) video_codec_required
  refuse_if (profile.audio.codec == []) audio_codec_required
  input ← wrapped input_url (augment_input_url urls stream.input_url stream.source_type sys)
  output ←
      wrapped output_url (augment_output_url urls stream.output_url (output_format profile) sys)
  video_maps ← video_map_args stream (or_else stream.video_map (bytes "0:v:0")) profile.video.scale
  ok (command_line stream profile sys input output video_maps)

unfoldable pub build_args : Urls → Stream → Profile → SystemConfig → Checked ArgsError (List Bytes)
build_args urls stream profile sys = do
  wrapped input_url (validate_input urls stream)
  wrapped output_url (validate_url urls stream.output_url)
  if length profile.template.args == 0
      then build_profile_args urls stream profile sys
      else wrapped template (build_template_args stream profile.template)
