-- ===== src/Ffmpeg/Args/BuiltIn.antt =====
-- When `BuildArgs` succeeds, and that it does for the profiles that the store always has.
use neo_transcoder.Base.{
  ◌≡◌, refl, ◌∙◌, inl, inr, Bool, true, not, ◌&&◌, some, [], Bytes, bytes, arith, ◌==◌, bytes_eq,
  nat_eq, bytes_beq, if◌then◌else◌, Checked, ok, err, Bool-cases, Option-cases, Checked-cases,
  length,
}
use neo_transcoder.Ffmpeg.Models.{
  Stream, Profile, SystemConfig, h264_very_fast_4m, h264_ultrafast_template_4m,
}
use neo_transcoder.Ffmpeg.Urls.{
  Urls, check_url, validate_url, validate_input, augment_input_url, augment_parsed,
  augment_output_url, size_packets,
}
use neo_transcoder.Ffmpeg.Template.{build_template_args, template_values}
use neo_transcoder.Ffmpeg.Template.Rendered.{
  build_template_args-is_renderable, is_ok, is_renderable,
}
use neo_transcoder.Ffmpeg.Template.Known.{ultrafast-is_renderable}
use neo_transcoder.Ffmpeg.Args.{
  ArgsError, template, wrapped, video_map_args, build_profile_args, build_args, output_format,
  or_else,
}

validate_url-parse :
    (urls : Urls) (raw : Bytes)
    → validate_url urls raw ≡ ok tt
    → (u : urls.Url) × (urls.parse raw ≡ some u)
unfolding validate_url check_url
validate_url-parse urls raw h = elim (Option-cases (urls.parse raw)) [
  | inl unread ↦ absurd (ground (arith, unread))
  | inr found ↦ found
]

augment_input_url-is_ok :
    (urls : Urls) (stream : Stream) (sys : SystemConfig)
    → validate_input urls stream ≡ ok tt
    → is_ok (augment_input_url urls stream.input_url stream.source_type sys) ≡ true
unfolding validate_input augment_input_url augment_parsed
augment_input_url-is_ok urls stream sys h = elim (Bool-cases (stream.source_type == bytes "file")) [
  | inl file ↦ rw file refl
  | inr network ↦
      let (u, found) = validate_url-parse urls stream.input_url (ground (arith, network)) in
      ground (arith, network, found)
]

augment_output_url-is_ok :
    (urls : Urls) (raw format : Bytes) (sys : SystemConfig)
    → validate_url urls raw ≡ ok tt
    → is_ok (augment_output_url urls raw format sys) ≡ true
unfolding augment_output_url size_packets
augment_output_url-is_ok urls raw format sys h =
    let (u, found) = validate_url-parse urls raw h in ground (arith, found)

video_map_args-is_ok :
    (stream : Stream) (video_map scale : Bytes)
    → is_ok (video_map_args stream video_map scale)
      ≡ not (stream.logo.enabled && stream.logo.path == [])
unfolding video_map_args
video_map_args-is_ok stream video_map scale = ground arith

-- What a profile without a template needs.
abbrev pub is_complete : Stream → Profile → Bool
is_complete stream profile =
    not (profile.video.codec == [])
    && (not (profile.audio.codec == []) && not (stream.logo.enabled && stream.logo.path == []))

build_profile_args-is_ok :
    (urls : Urls) (stream : Stream) (profile : Profile) (sys : SystemConfig)
    → validate_input urls stream ≡ ok tt
    → validate_url urls stream.output_url ≡ ok tt
    → is_ok (build_profile_args urls stream profile sys) ≡ is_complete stream profile
unfolding build_profile_args wrapped
build_profile_args-is_ok urls stream profile sys i o =
    let video_map = or_else stream.video_map (bytes "0:v:0") in
    elim (Checked-cases (augment_input_url urls stream.input_url stream.source_type sys)) [
      | inl (e, refused) ↦
          absurd (ground (arith, refused, augment_input_url-is_ok urls stream sys i))
      | inr (input, f) ↦
          elim (Checked-cases
            (augment_output_url urls stream.output_url (output_format profile) sys)) [
              | inl (e, refused) ↦ absurd (
                  ground (
                    arith,
                    refused,
                    augment_output_url-is_ok urls stream.output_url (output_format profile) sys o,
                  ))
              | inr (output, g) ↦
                  elim (Checked-cases (video_map_args stream video_map profile.video.scale)) [
                    | inl (e, refused) ↦ ground (
                      arith,
                      f,
                      g,
                      refused,
                      video_map_args-is_ok stream video_map profile.video.scale,
                    )
                    | inr (video_maps, v) ↦
                        ground (
                          arith,
                          f,
                          g,
                          v,
                          video_map_args-is_ok stream video_map profile.video.scale,
                        )
                  ]
            ]
    ]

is_ok-wrapped :
    {E : Type 0} {A : Type 0} (wrap : E → ArgsError) (check : Checked E A)
    → is_ok (wrapped wrap check) ≡ is_ok check
unfolding wrapped
is_ok-wrapped wrap (ok value) = refl
is_ok-wrapped wrap (err e) = refl

-- `BuildArgs` succeeds exactly if the input and the output URL are valid and, without a template, both
-- codecs are named and an enabled logo has a path, or, with a template, it can be rendered.
pub build_args-is_ok :
    (urls : Urls) (stream : Stream) (profile : Profile) (sys : SystemConfig)
    → is_ok (build_args urls stream profile sys) ≡ (
        is_ok (validate_input urls stream)
        && (is_ok (validate_url urls stream.output_url)
            && (if length profile.template.args == 0
                then is_complete stream profile
                else is_renderable
                    (template_values stream profile.template)
                    profile.template.args)))
unfolding build_args wrapped
build_args-is_ok urls stream profile sys = elim (Checked-cases (validate_input urls stream)) [
  | inl (e, refused) ↦ ground (arith, refused)
  | inr (tt, i) ↦ elim (Checked-cases (validate_url urls stream.output_url)) [
    | inl (e, refused) ↦ ground (arith, i, refused)
    | inr (tt, o) ↦ elim (Bool-cases (length profile.template.args == 0)) [
      | inl plain ↦
          ground (arith, i, o, plain, build_profile_args-is_ok urls stream profile sys i o)
      | inr templated ↦ ground (
        arith,
        i,
        o,
        templated,
        is_ok-wrapped template (build_template_args stream profile.template),
        build_template_args-is_renderable stream profile.template,
      )
    ]
  ]
]

-- With valid URLs, the built-in template always has a command line, whatever the stream's options are,
-- and so has the other built-in profile unless an enabled logo has no path.
pub build_args-built_in :
    (urls : Urls) (stream : Stream) (sys : SystemConfig)
    → validate_input urls stream ≡ ok tt
    → validate_url urls stream.output_url ≡ ok tt
    → (is_ok (build_args urls stream h264_ultrafast_template_4m sys) ≡ true)
      × (is_ok (build_args urls stream h264_very_fast_4m sys)
          ≡ not (stream.logo.enabled && stream.logo.path == []))
unfolding bytes bytes_beq
build_args-built_in urls stream sys i o = (
  build_args-is_ok urls stream h264_ultrafast_template_4m sys
      ∙ rw (i, o, ultrafast-is_renderable stream) refl,
  build_args-is_ok urls stream h264_very_fast_4m sys ∙ rw (i, o) refl,
)
