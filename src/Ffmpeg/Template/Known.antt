-- ===== src/Ffmpeg/Template/Known.antt =====
-- The variables of the built-in template, and that each has a value.
use neo_transcoder.Base.{
  ◌≡◌, refl, sym, ap, ◌∙◌, inl, inr, Bool, true, false, not, ◌&&◌, ◌||◌, List, [], ◌∷◌, Bytes,
  bytes, arith, lookup, insert, lookup-insert, ◌==◌, bytes_eq, nat_eq, bytes_beq, bytes_beq_iff,
  if◌then◌else◌, Bool-cases, Table,
}
use neo_transcoder.Ffmpeg.Models.{Stream, ultrafast_template}
use neo_transcoder.Ffmpeg.Template.{
  template_values, insert_all, match_variable, is_name_start, is_name_rest, read_rest, read_name,
}
use neo_transcoder.Ffmpeg.Template.Rendered.{
  is_defined, is_renderable, all_defined, variables, variables_from,
}

is_defined-insert :
    (key value name : Bytes) (values : Table Bytes Bytes)
    → is_defined (insert key value values) name ≡ (key == name || is_defined values name)
unfolding is_defined
is_defined-insert key value name values = elim (Bool-cases (key == name)) [
  | inl same ↦ ground (arith, lookup-insert key name value values, same)
  | inr other ↦ ground (arith, lookup-insert key name value values, other)
]

is_defined-insert_all :
    (more values : Table Bytes Bytes) (name : Bytes)
    → is_defined values name ≡ true
    → is_defined (insert_all more values) name ≡ true
unfolding insert_all
is_defined-insert_all [] values name h = h
is_defined-insert_all ((key, value) ∷ more) values name h =
    is_defined-insert_all more (insert key value values) name
      (is_defined-insert key value name values ∙ ground arith)

template_values-is_defined :
    (stream : Stream) (name : Bytes)
    → (bytes "i" == name
        || bytes "o" == name
        || is_defined (insert_all ultrafast_template.defaults []) name)
      ≡ true
    → is_defined (template_values stream ultrafast_template) name ≡ true
unfolding template_values
template_values-is_defined stream name h =
    let given = insert_all stream.options (insert_all ultrafast_template.defaults []) in
    let with_i = insert (bytes "i") stream.input_url given in
    let with_o = insert (bytes "o") stream.output_url with_i in
    let with_logo = insert (bytes "logo_path") stream.logo.path with_o in
    let enabled = if stream.disable_audio then bytes "0" else bytes "1" in
    ground (
      arith,
      is_defined-insert (bytes "audio_enabled") enabled name with_logo,
      is_defined-insert (bytes "logo_path") stream.logo.path name with_o,
      is_defined-insert (bytes "o") stream.output_url name with_i,
      is_defined-insert (bytes "i") stream.input_url name given,
      is_defined-insert_all stream.options (insert_all ultrafast_template.defaults []) name,
    )

abbrev among : Bytes → List Bytes → Bool
among name [] = false
among name (k ∷ known) = k == name || among name known

among-is_defined :
    (values : Table Bytes Bytes) (known : List Bytes) (name : Bytes)
    → all_defined values known ≡ true
    → among name known ≡ true
    → is_defined values name ≡ true
unfolding all_defined
among-is_defined values [] name h k = cc
among-is_defined values (n ∷ known) name h k = elim (Bool-cases (n == name)) [
  | inl same ↦
      let e : n ≡ name = (bytes_beq_iff n name).0 same in
      ap (λ m. is_defined values m) (sym e) ∙ ground arith
  | inr other ↦ among-is_defined values known name (ground arith) (ground (arith, other))
]

abbrev all_among : List Bytes → List Bytes → Bool
all_among known [] = true
all_among known (name ∷ names) = among name known && all_among known names

all_among-all_defined :
    (values : Table Bytes Bytes) (known names : List Bytes)
    → all_defined values known ≡ true
    → all_among known names ≡ true
    → all_defined values names ≡ true
unfolding all_defined
all_among-all_defined values known [] h k = refl
all_among-all_defined values known (name ∷ names) h k =
    ground (arith, among-is_defined values known name h, all_among-all_defined values known names h)

-- Whether the arguments have a text and name only variables of a list.
abbrev names_only : List Bytes → List Bytes → Bool
names_only known [] = true
names_only known (arg ∷ args) =
    not (arg == []) && (all_among known (variables arg) && names_only known args)

names_only-is_renderable :
    (values : Table Bytes Bytes) (known args : List Bytes)
    → all_defined values known ≡ true
    → names_only known args ≡ true
    → is_renderable values args ≡ true
names_only-is_renderable values known [] h k = refl
names_only-is_renderable values known (arg ∷ args) h k = ground (
  arith,
  all_among-all_defined values known (variables arg) h,
  names_only-is_renderable values known args h,
)

ultrafast_variables : List Bytes
ultrafast_variables =
    bytes "i"
    ∷ bytes "preset"
    ∷ bytes "video_bitrate"
    ∷ bytes "video_bufsize"
    ∷ bytes "audio_bitrate"
    ∷ bytes "o"
    ∷ []

ultrafast-names_only : names_only ultrafast_variables ultrafast_template.args ≡ true
unfolding ultrafast_variables bytes bytes_beq variables_from match_variable is_name_start
    is_name_rest read_rest read_name
ultrafast-names_only = refl

ultrafast-all_defined :
    (stream : Stream)
    → all_defined (template_values stream ultrafast_template) ultrafast_variables ≡ true
unfolding ultrafast_variables all_defined bytes bytes_beq is_defined insert_all lookup insert
ultrafast-all_defined stream =
    let d : (name : Bytes)
        → (bytes "i" == name
            || bytes "o" == name
            || is_defined (insert_all ultrafast_template.defaults []) name)
          ≡ true
        → is_defined (template_values stream ultrafast_template) name ≡ true =
      λ name. template_values-is_defined stream name in
    rw
      (
        all_defined,
        d (bytes "i") refl,
        d (bytes "o") refl,
        d (bytes "preset") refl,
        d (bytes "video_bitrate") refl,
        d (bytes "video_bufsize") refl,
        d (bytes "audio_bitrate") refl,
      )
      refl

-- The built-in template's arguments are rendered for every stream.
pub ultrafast-is_renderable :
    (stream : Stream)
    → is_renderable (template_values stream ultrafast_template) ultrafast_template.args ≡ true
ultrafast-is_renderable stream =
    names_only-is_renderable (template_values stream ultrafast_template) ultrafast_variables
      ultrafast_template.args (ultrafast-all_defined stream) ultrafast-names_only
