-- ===== src/Ffmpeg/Models.antt =====
-- The data of internal/ffmpeg/args.go and the profiles that are built in. A text is the list of its
-- bytes; where it comes from a text that is only compared, of its code points, which nothing here tells
-- from bytes.
use neo_transcoder.Base.{
  ℤ, pos, negsuc, suc, Bool, false, Option, none, List, [], ◌∷◌, Bytes, bytes, Table, itoa, ◌==◌,
  bytes_eq, if◌then◌else◌,
}

pub record LogoOverlay : Type 0 where
  pub enabled : Bool
  pub path : Bytes
  pub x : ℤ
  pub y : ℤ

pub record Stream : Type 0 where
  pub input_url : Bytes
  pub output_url : Bytes
  pub source_type : Bytes
  pub video_map : Bytes
  pub audio_map : Bytes
  pub audio_maps : List Bytes
  pub disable_audio : Bool
  pub logo : LogoOverlay
  pub options : Table Bytes Bytes
  pub keep_stats : Bool

pub record VideoProfile : Type 0 where
  pub codec : Bytes
  pub preset : Bytes
  pub bitrate : Bytes
  pub maxrate : Bytes
  pub bufsize : Bytes
  pub tune : Bytes
  pub fps : Bytes
  pub scale : Bytes

pub record AudioProfile : Type 0 where
  pub codec : Bytes
  pub bitrate : Bytes

pub record AdvancedProfile : Type 0 where
  pub enable_genpts : Bool
  pub discard_corrupt : Bool
  pub ignore_decode_errors : Bool
  pub video_threads : Option ℤ
  pub gop : Option ℤ
  pub keyint_min : Option ℤ
  pub sc_threshold : Option ℤ
  pub minrate : Bytes
  pub x264_params : Bytes

pub record TemplateProfile : Type 0 where
  pub args : List Bytes
  pub defaults : Table Bytes Bytes

pub record Profile : Type 0 where
  pub name : Bytes
  pub video : VideoProfile
  pub audio : AudioProfile
  pub format : Bytes
  pub template : TemplateProfile
  pub extra_args : List Bytes
  pub advanced : AdvancedProfile

pub record SystemConfig : Type 0 where
  pub udp_fifo_size : ℤ
  pub udp_buffer_size : ℤ
  pub udp_overrun_nonfatal : Bool
  pub udp_reuse : Bool
  pub pkt_size : ℤ
  pub analyze_duration : ℤ
  pub probe_size : ℤ
  pub log_level : Bytes

-- strconv.Itoa
unfoldable pub itoa_ℤ : ℤ → Bytes
itoa_ℤ (pos n) = itoa n
itoa_ℤ (negsuc n) = b'-' ∷ itoa (suc n)

-- WithLogLevel
unfoldable pub with_log_level : SystemConfig → Bytes → SystemConfig
with_log_level sys override = if override == [] then sys else record sys { log_level = override }

-- logLevelOrDefault
unfoldable pub log_level_or_default : Bytes → Bytes
log_level_or_default level = if level == [] then bytes "info" else level

abbrev no_video : VideoProfile
no_video = record {
  codec = [];
  preset = [];
  bitrate = [];
  maxrate = [];
  bufsize = [];
  tune = [];
  fps = [];
  scale = [];
}

abbrev no_advanced : AdvancedProfile
no_advanced = record {
  enable_genpts = false;
  discard_corrupt = false;
  ignore_decode_errors = false;
  video_threads = none;
  gop = none;
  keyint_min = none;
  sc_threshold = none;
  minrate = [];
  x264_params = [];
}

abbrev pub h264_very_fast_4m : Profile
h264_very_fast_4m = record {
  name = bytes "h264_veryfast_4m";
  video = record no_video {
    codec = bytes "libx264";
    preset = bytes "veryfast";
    bitrate = bytes "4000k";
    maxrate = bytes "4000k";
    bufsize = bytes "8000k";
    tune = bytes "zerolatency";
  };
  audio = record { codec = bytes "aac"; bitrate = bytes "128k" };
  format = bytes "mpegts";
  template = record { args = []; defaults = [] };
  extra_args = [];
  advanced = no_advanced;
}

abbrev pub ultrafast_template : TemplateProfile
ultrafast_template = record {
  args =
      bytes "-y"
      ∷ bytes "-hide_banner"
      ∷ bytes "-nostdin"
      ∷ bytes "-i"
      ∷ bytes "${i}?overrun_nonfatal=1&fifo_size=100000000"
      ∷ bytes "-map"
      ∷ bytes "0:v:0"
      ∷ bytes "-map"
      ∷ bytes "0:a:0"
      ∷ bytes "-c:v"
      ∷ bytes "libx264"
      ∷ bytes "-preset"
      ∷ bytes "${preset}"
      ∷ bytes "-profile:v"
      ∷ bytes "main"
      ∷ bytes "-pix_fmt"
      ∷ bytes "yuv420p"
      ∷ bytes "-vf"
      ∷ bytes "yadif"
      ∷ bytes "-b:v"
      ∷ bytes "${video_bitrate}"
      ∷ bytes "-maxrate"
      ∷ bytes "${video_bitrate}"
      ∷ bytes "-bufsize"
      ∷ bytes "${video_bufsize}"
      ∷ bytes "-c:a"
      ∷ bytes "aac"
      ∷ bytes "-b:a"
      ∷ bytes "${audio_bitrate}"
      ∷ bytes "-ar"
      ∷ bytes "48000"
      ∷ bytes "-ac"
      ∷ bytes "2"
      ∷ bytes "-f"
      ∷ bytes "mpegts"
      ∷ bytes "${o}?pkt_size=1316"
      ∷ [];
  defaults =
      (bytes "preset", bytes "ultrafast")
      ∷ (bytes "video_bitrate", bytes "4M")
      ∷ (bytes "video_bufsize", bytes "8M")
      ∷ (bytes "audio_bitrate", bytes "128k")
      ∷ [];
}

abbrev pub h264_ultrafast_template_4m : Profile
h264_ultrafast_template_4m = record {
  name = bytes "h264_ultrafast_template_4m";
  video = no_video;
  audio = record { codec = []; bitrate = [] };
  format = [];
  template = ultrafast_template;
  extra_args = [];
  advanced = no_advanced;
}
