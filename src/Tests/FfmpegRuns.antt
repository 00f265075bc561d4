-- ===== src/Tests/FfmpegRuns.antt =====
-- A stream from a multicast group to another one, and its command line.
use neo_transcoder.Base.{
  ◌≡◌, refl, pos, true, false, not, ◌&&◌, some, List, [], ◌∷◌, ◌++◌, Bytes, bytes, bytes_beq,
  bytes_eq, ◌==◌, nat_eq, if◌then◌else◌, ok, length, lookup,
}
use neo_transcoder.Ffmpeg.Models.{
  Stream, SystemConfig, h264_very_fast_4m, h264_ultrafast_template_4m,
}
use neo_transcoder.Ffmpeg.Urls.{
  Urls, validate_url, validate_input, check_url, get_value, augment_input_url, augment_output_url,
  augment_parsed, size_packets,
}
use neo_transcoder.Ffmpeg.Template.{template_values}
use neo_transcoder.Ffmpeg.Template.Rendered.{is_ok, is_renderable}
use neo_transcoder.Ffmpeg.Args.{
  build_args, build_profile_args, wrapped, video_map_args, command_line,
}
use neo_transcoder.Ffmpeg.Args.Outcome.{IsReporting, build_args-IsReporting}
use neo_transcoder.Ffmpeg.Args.BuiltIn.{is_complete, build_args-is_ok, build_args-built_in}

-- URLs that are all alike.
abbrev pub urls : Urls
urls = record {
  Url = Bytes;
  parse = λ raw. some raw;
  scheme = λ u. bytes "udp";
  host = λ u. bytes "239.0.0.1:5000";
  query = λ u. (bytes "localaddr", bytes "10.0.0.1") ∷ [];
  text = λ u. u;
  text_with = λ u q. u ++ bytes "?tuned";
}

abbrev pub sys : SystemConfig
sys = record {
  udp_fifo_size = pos 1000000;
  udp_buffer_size = pos 0;
  udp_overrun_nonfatal = true;
  udp_reuse = false;
  pkt_size = pos 1316;
  analyze_duration = pos 0;
  probe_size = pos 0;
  log_level = [];
}

abbrev news : Stream
news = record {
  input_url = bytes "udp://239.0.0.1:5000";
  output_url = bytes "udp://239.0.0.2:5000";
  source_type = bytes "multicast";
  video_map = [];
  audio_map = [];
  audio_maps = [];
  disable_audio = false;
  logo = record { enabled = false; path = []; x = pos 0; y = pos 0 };
  options = [];
  keep_stats = false;
}

build_args-is_ok_example : is_ok (build_args urls news h264_very_fast_4m sys) ≡ (
    is_ok (validate_input urls news)
    && (is_ok (validate_url urls news.output_url)
        && (if length h264_very_fast_4m.template.args == 0
            then is_complete news h264_very_fast_4m
            else is_renderable
                (template_values news h264_very_fast_4m.template)
                h264_very_fast_4m.template.args)))
build_args-is_ok_example = build_args-is_ok urls news h264_very_fast_4m sys

valid_input : validate_input urls news ≡ ok tt
unfolding validate_input validate_url check_url bytes bytes_beq
valid_input = refl

valid_output : validate_url urls news.output_url ≡ ok tt
unfolding validate_url check_url bytes bytes_beq
valid_output = refl

build_args-built_in_example :
    (is_ok (build_args urls news h264_ultrafast_template_4m sys) ≡ true)
    × (is_ok (build_args urls news h264_very_fast_4m sys)
        ≡ not (news.logo.enabled && news.logo.path == []))
build_args-built_in_example = build_args-built_in urls news sys valid_input valid_output

abbrev news_args : List Bytes
news_args =
    command_line news h264_very_fast_4m sys (bytes "udp://239.0.0.1:5000?tuned")
      (bytes "udp://239.0.0.2:5000?tuned") (bytes "-map" ∷ bytes "0:v:0" ∷ [])

built : build_args urls news h264_very_fast_4m sys ≡ ok news_args
unfolding build_args build_profile_args wrapped validate_input validate_url check_url
    augment_input_url augment_parsed augment_output_url size_packets get_value lookup video_map_args
    bytes bytes_beq
built = refl

build_args-IsReporting_example : IsReporting news h264_very_fast_4m.template news_args
build_args-IsReporting_example =
    build_args-IsReporting urls news h264_very_fast_4m sys news_args built
