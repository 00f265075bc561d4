-- ===== src/Ffmpeg/Template.antt =====
-- The template path of internal/ffmpeg/args.go: `buildTemplateArgs` and `renderTemplateArg`.
pub mod Rendered
pub mod Known
use neo_transcoder.Base.{
  ℕ, zero, suc, ◌+◌, Bool, true, false, ◌&&◌, ◌||◌, Option, none, some, List, [], ◌∷◌, ◌++◌, Bytes,
  bytes, Table, lookup, insert, leb, ◌==◌, nat_eq, bytes_eq, if◌then◌else◌, Checked, ok, err,
  length,
}
use neo_transcoder.Ffmpeg.Models.{Stream, TemplateProfile}

pub data TemplateError : Type 0 where
  empty_value : TemplateError
  undefined_variable : Bytes → TemplateError

-- The classes of `\$\{([A-Za-z_][A-Za-z0-9_]*)\}`
unfoldable pub is_name_start : ℕ → Bool
is_name_start c = (leb b'A' c && leb c b'Z') || (leb b'a' c && leb c b'z') || c == b'_'

unfoldable pub is_name_rest : ℕ → Bool
is_name_rest c = is_name_start c || (leb b'0' c && leb c b'9')

-- The rest of a name up to the brace.
unfoldable pub read_rest : Bytes → Option Bytes
read_rest [] = none
read_rest (c ∷ s) =
    let more : Option Bytes = elim (read_rest s) [ none ↦ none | some name ↦ some (c ∷ name) ] in
    if c == b'}' then some [] else if is_name_rest c then more else none

unfoldable pub read_name : Bytes → Option Bytes
read_name [] = none
read_name (c ∷ s) =
    if is_name_start c
    then elim (read_rest s) [ none ↦ none | some name ↦ some (c ∷ name) ]
    else none

-- The variable that a text starts with.
unfoldable pub match_variable : Bytes → Option Bytes
unfolding read_name
match_variable [] = none
match_variable (a ∷ []) = none
match_variable (a ∷ b ∷ s) = if a == b'$' && b == b'{' then read_name s else none

-- What stands for a variable, and the variable if it is missing.
unfoldable pub value_of : Table Bytes Bytes → Bytes → Bytes × Bytes
value_of values name = elim (lookup name values) [
  | none ↦ (bytes "${" ++ (name ++ b'}' ∷ []), name)
  | some value ↦ (value, [])
]

unfoldable pub last_missing : Bytes → Bytes → Bytes
last_missing name later = if later == [] then name else later

-- ReplaceAllStringFunc: the rendered text and the last missing variable. The number counts the bytes
-- that are left of a match.
unfoldable pub render : Table Bytes Bytes → ℕ → Bytes → Bytes × Bytes
render values skip [] = ([], [])
render values (suc skip) (c ∷ s) = render values skip s
render values zero (c ∷ s) = elim (match_variable (c ∷ s)) [
  | none ↦ let (out, missing) = render values 0 s in (c ∷ out, missing)
  | some name ↦
      let (value, here) = value_of values name in
      let (out, missing) = render values (length name + 2) s in
      (value ++ out, last_missing here missing)
]

-- renderTemplateArg
unfoldable pub render_template_arg : Table Bytes Bytes → Bytes → Checked TemplateError Bytes
render_template_arg values arg =
    let (out, missing) = render values 0 arg in
    if missing == [] then ok out else err (undefined_variable missing)

-- `for key, value := range … { values[key] = value }`
unfoldable pub insert_all : Table Bytes Bytes → Table Bytes Bytes → Table Bytes Bytes
insert_all [] values = values
insert_all ((key, value) ∷ more) values = insert_all more (insert key value values)

unfoldable pub template_values : Stream → TemplateProfile → Table Bytes Bytes
template_values stream profile =
    insert (bytes "audio_enabled") (if stream.disable_audio then bytes "0" else bytes "1") (
      insert (bytes "logo_path") stream.logo.path (
        insert (bytes "o") stream.output_url (
          insert (bytes "i") stream.input_url
            (insert_all stream.options (insert_all profile.defaults [])))))

-- The loop over the arguments.
unfoldable pub render_args : Table Bytes Bytes → List Bytes → Checked TemplateError (List Bytes)
render_args values [] = ok []
render_args values (arg ∷ args) =
    if arg == [] then err empty_value else elim (render_template_arg values arg) [
      | err e ↦ err e
      | ok rendered ↦ elim (render_args values args) [
        | err e ↦ err e
        | ok more ↦ ok (rendered ∷ more)
      ]
    ]

-- `hasProgress` after the loop
unfoldable pub has_progress : List Bytes → Bool
has_progress [] = false
has_progress (arg ∷ args) = arg == bytes "-progress" || has_progress args

abbrev pub progress_args : List Bytes
progress_args =
    bytes "-nostats"
    ∷ bytes "-loglevel"
    ∷ bytes "level+info"
    ∷ bytes "-progress"
    ∷ bytes "pipe:1"
    ∷ bytes "-stats_period"
    ∷ bytes "1"
    ∷ []

-- buildTemplateArgs
unfoldable pub build_template_args : Stream → TemplateProfile → Checked TemplateError (List Bytes)
build_template_args stream profile =
    elim (render_args (template_values stream profile) profile.args) [
      | err e ↦ err e
      | ok args ↦ ok (if has_progress profile.args then args else progress_args ++ args)
    ]
