-- ===== src/Ffmpeg/Args/Outcome.antt =====
-- What `BuildArgs` answers: where a command line reports its progress, and the built-in profiles always
-- have one.
use mathlib.Core.List.{Mem, mem-cons_self, mem-cons_of_mem}
use neo_transcoder.Base.{
  ◌≡◌, ◌⊎◌, refl, ap, ◌∙◌, inl, inr, Bool, true, false, not, ◌&&◌, ◌||◌, List, [], ◌∷◌, ◌++◌, Bytes,
  bytes, arith, ◌==◌, bytes_eq, nat_eq, bytes_beq, bytes_beq_iff, Checked, ok, err, Bool-cases,
  Checked-cases, length,
}
use neo_transcoder.Ffmpeg.Models.{Stream, Profile, TemplateProfile, SystemConfig}
use neo_transcoder.Ffmpeg.Urls.{
  Urls, validate_url, validate_input, augment_input_url, augment_output_url,
}
use neo_transcoder.Ffmpeg.Template.{
  template_values, render_args, has_progress, progress_args, build_template_args,
}
use neo_transcoder.Ffmpeg.Args.{
  ArgsError, template, wrapped, log_args, video_map_args, build_profile_args, build_args,
  command_line, output_format, or_else,
}

-- Whether an argument "-progress" that "pipe:1" follows stands before the first "-i"; `previous` is the
-- argument before.
unfoldable pub reports_after : Bytes → List Bytes → Bool
reports_after previous [] = false
reports_after previous (arg ∷ args) =
    (previous == bytes "-progress" && arg == bytes "pipe:1")
    || (not (arg == bytes "-i") && reports_after arg args)

abbrev pub reports_progress : List Bytes → Bool
reports_progress args = reports_after [] args

log_args-reports_progress :
    (stream : Stream) (sys : SystemConfig) (args : List Bytes)
    → reports_progress (log_args stream sys ++ args) ≡ true
unfolding log_args reports_after bytes bytes_beq
log_args-reports_progress stream sys args = elim (Bool-cases stream.keep_stats) [
  | inl keeps ↦ rw keeps refl
  | inr drops ↦ rw drops refl
]

progress_args-reports_progress :
    (args : List Bytes) → reports_progress (progress_args ++ args) ≡ true
unfolding reports_after bytes bytes_beq
progress_args-reports_progress args = refl

wrapped-eq-ok :
    {E : Type 0} {A : Type 0} (wrap : E → ArgsError) (check : Checked E A) (value : A)
    → wrapped wrap check ≡ ok value
    → check ≡ ok value
unfolding wrapped
wrapped-eq-ok wrap (ok value') value h = ground arith
wrapped-eq-ok wrap (err e) value h = cc

command_line-reports_progress :
    (stream : Stream) (profile : Profile) (sys : SystemConfig) (input output : Bytes)
    (video_maps : List Bytes)
    → reports_progress (command_line stream profile sys input output video_maps) ≡ true
unfolding command_line
command_line-reports_progress stream profile sys input output video_maps =
    log_args-reports_progress stream sys _

has_progress-Mem : (args : List Bytes) → has_progress args ≡ true → Mem (bytes "-progress") args
unfolding has_progress
has_progress-Mem [] h = cc
has_progress-Mem (arg ∷ args) h = elim (Bool-cases (arg == bytes "-progress")) [
  | inl is_flag ↦ rw ((bytes_beq_iff arg (bytes "-progress")).0 is_flag) mem-cons_self
  | inr other ↦ mem-cons_of_mem arg (has_progress-Mem args (ground (arith, other)))
]

-- The progress is reported to the pipe that `captureProgress` reads, or the template has options of its
-- own for it, and its arguments are all there is.
abbrev pub IsReporting : Stream → TemplateProfile → List Bytes → Type 0
IsReporting stream profile args =
    (reports_progress args ≡ true)
    ⊎ (Mem (bytes "-progress") profile.args
        × (render_args (template_values stream profile) profile.args ≡ ok args))

build_template_args-IsReporting :
    (stream : Stream) (profile : TemplateProfile) (args : List Bytes)
    → build_template_args stream profile ≡ ok args
    → IsReporting stream profile args
unfolding build_template_args
build_template_args-IsReporting stream profile args h =
    elim (Checked-cases (render_args (template_values stream profile) profile.args)) [
      | inl (e, refused) ↦ absurd (ground (arith, refused))
      | inr (out, done) ↦ elim (Bool-cases (has_progress profile.args)) [
        | inl asked ↦
            let same : out ≡ args = ground (arith, done, asked) in
            inr (has_progress-Mem profile.args asked, done ∙ ap (λ x. ok x) same)
        | inr silent ↦
            let same : args ≡ progress_args ++ out = ground (arith, done, silent) in
            inl (rw same (progress_args-reports_progress out))
      ]
    ]

-- What a successful `BuildArgs` without a template has checked, and its arguments.
pub record IsBuilt (urls : Urls) (stream : Stream) (profile : Profile) (sys : SystemConfig)
    (args : List Bytes) : Type 0 where
  pub input : Bytes
  pub output : Bytes
  pub video_maps : List Bytes
  pub augmented_input : augment_input_url urls stream.input_url stream.source_type sys ≡ ok input
  pub augmented_output :
      augment_output_url urls stream.output_url (output_format profile) sys ≡ ok output
  pub mapped :
      video_map_args stream (or_else stream.video_map (bytes "0:v:0")) profile.video.scale
      ≡ ok video_maps
  pub video_codec : (profile.video.codec == []) ≡ false
  pub audio_codec : (profile.audio.codec == []) ≡ false
  pub command : args ≡ command_line stream profile sys input output video_maps

build_profile_args-IsBuilt :
    (urls : Urls) (stream : Stream) (profile : Profile) (sys : SystemConfig) (args : List Bytes)
    → build_profile_args urls stream profile sys ≡ ok args
    → IsBuilt urls stream profile sys args
unfolding build_profile_args wrapped
build_profile_args-IsBuilt urls stream profile sys args h =
    elim (Checked-cases (augment_input_url urls stream.input_url stream.source_type sys)) [
      | inl (e, refused) ↦ absurd (ground (arith, refused))
      | inr (input, i) ↦
          elim (Checked-cases
            (augment_output_url urls stream.output_url (output_format profile) sys)) [
              | inl (e, refused) ↦ absurd (ground (arith, i, refused))
              | inr (output, o) ↦
                  elim (Checked-cases (
                    video_map_args stream (or_else stream.video_map (bytes "0:v:0"))
                      profile.video.scale)) [
                        | inl (e, refused) ↦ absurd (ground (arith, i, o, refused))
                        | inr (video_maps, v) ↦ record {
                          input = input;
                          output = output;
                          video_maps = video_maps;
                          augmented_input = i;
                          augmented_output = o;
                          mapped = v;
                          video_codec = ground arith;
                          audio_codec = ground arith;
                          command = ground (arith, i, o, v);
                        }
                      ]
            ]
    ]

-- Every command line that `BuildArgs` returns has ffmpeg report its progress to "pipe:1", by an option
-- before the first input; except where it comes from a template that has "-progress" among its arguments:
-- then it is the template's own arguments, rendered, and nothing else.
pub build_args-IsReporting :
    (urls : Urls) (stream : Stream) (profile : Profile) (sys : SystemConfig) (args : List Bytes)
    → build_args urls stream profile sys ≡ ok args
    → IsReporting stream profile.template args
unfolding build_args wrapped
build_args-IsReporting urls stream profile sys args h =
    elim (Checked-cases (validate_input urls stream)) [
      | inl (e, refused) ↦ absurd (ground (arith, refused))
      | inr (_, i) ↦ elim (Checked-cases (validate_url urls stream.output_url)) [
        | inl (e, refused) ↦ absurd (ground (arith, i, refused))
        | inr (_, o) ↦ elim (Bool-cases (length profile.template.args == 0)) [
          | inl plain ↦
              let b =
                build_profile_args-IsBuilt urls stream profile sys args
                  (ground (arith, i, o, plain)) in
              inl (
                rw (b.command)
                  (command_line-reports_progress stream profile sys b.input b.output b.video_maps))
          | inr templated ↦ build_template_args-IsReporting stream profile.template args (
              wrapped-eq-ok template (build_template_args stream profile.template) args
                (ground (arith, i, o, templated)))
        ]
      ]
    ]
