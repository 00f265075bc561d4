-- ===== src/Ffmpeg/Template/Rendered.antt =====
-- When a template is rendered.
use neo_transcoder.Base.{
  ℕ, zero, suc, ◌+◌, ◌≡◌, refl, ◌∙◌, inl, inr, Bool, true, false, not, ◌&&◌, none, some, List, [],
  ◌∷◌, Bytes, arith, Table, lookup, ◌==◌, nat_eq, bytes_eq, bytes_beq, Checked, ok, err, length,
  Option-cases, Checked-cases,
}
use neo_transcoder.Ffmpeg.Models.{Stream, TemplateProfile}
use neo_transcoder.Ffmpeg.Template.{
  read_rest, read_name, match_variable, value_of, last_missing, render, render_template_arg,
  template_values, render_args, build_template_args,
}

-- The variables of an argument, in order.
unfoldable pub variables_from : ℕ → Bytes → List Bytes
variables_from skip [] = []
variables_from (suc skip) (c ∷ s) = variables_from skip s
variables_from zero (c ∷ s) = elim (match_variable (c ∷ s)) [
  | none ↦ variables_from 0 s
  | some name ↦ name ∷ variables_from (length name + 2) s
]

abbrev pub variables : Bytes → List Bytes
variables arg = variables_from 0 arg

unfoldable pub is_defined : Table Bytes Bytes → Bytes → Bool
is_defined values name = elim (lookup name values) [ none ↦ false | some value ↦ true ]

unfoldable pub all_defined : Table Bytes Bytes → List Bytes → Bool
all_defined values [] = true
all_defined values (name ∷ names) =
    let rest = all_defined values names in is_defined values name && rest

read_name-name : (s name : Bytes) → read_name s ≡ some name → (name == []) ≡ false
unfolding read_name bytes_beq
read_name-name [] name h = cc
read_name-name (c ∷ s) name h = elim (Option-cases (read_rest s)) [
  | inl ends ↦ ground (arith, ends)
  | inr (rest, e) ↦ ground (arith, e)
]

match_variable-name : (s name : Bytes) → match_variable s ≡ some name → (name == []) ≡ false
unfolding match_variable
match_variable-name [] name h = cc
match_variable-name (a ∷ []) name h = cc
match_variable-name (a ∷ b ∷ s) name h = ground (arith, read_name-name s name)

value_of-defined :
    (values : Table Bytes Bytes) (name : Bytes)
    → (name == []) ≡ false
    → ((value_of values name).1 == []) ≡ is_defined values name
unfolding value_of is_defined bytes_beq
value_of-defined values name h = elim (Option-cases (lookup name values)) [
  | inl missing ↦ rw (missing, value_of, is_defined) h
  | inr (value, found) ↦ rw (found, value_of, is_defined) refl
]

last_missing-empty :
    (here later : Bytes) → (last_missing here later == []) ≡ ((here == []) && (later == []))
unfolding last_missing
last_missing-empty here later = ground arith

-- No variable is missing exactly if all are defined.
render-defined :
    (values : Table Bytes Bytes) (skip : ℕ) (s : Bytes)
    → ((render values skip s).1 == []) ≡ all_defined values (variables_from skip s)
unfolding render variables_from all_defined bytes_beq
render-defined values skip [] = refl
render-defined values (suc skip) (c ∷ s) = render-defined values skip s
render-defined values zero (c ∷ s) = elim (Option-cases (match_variable (c ∷ s))) [
  | inl plain ↦ rw (plain, render, variables_from) (render-defined values 0 s)
  | inr (name, found) ↦
      rw (found, render, variables_from)
        (last_missing-empty (value_of values name).1 (render values (length name + 2) s).1
          ∙ rw
              (
                value_of-defined values name (match_variable-name (c ∷ s) name found),
                render-defined values (length name + 2) s,
              )
              refl)
]

abbrev pub is_ok {ℓ} : {E : Type 0} {A : Type ℓ} → Checked E A → Bool
is_ok (ok value) = true
is_ok (err e) = false

abbrev pub is_renderable : Table Bytes Bytes → List Bytes → Bool
is_renderable values [] = true
is_renderable values (arg ∷ args) =
    not (arg == []) && (all_defined values (variables arg) && is_renderable values args)

render_template_arg-is_ok :
    (values : Table Bytes Bytes) (arg : Bytes)
    → is_ok (render_template_arg values arg) ≡ all_defined values (variables arg)
unfolding render_template_arg
render_template_arg-is_ok values arg = ground (arith, render-defined values 0 arg)

render_args-is_ok :
    (values : Table Bytes Bytes) (args : List Bytes)
    → is_ok (render_args values args) ≡ is_renderable values args
unfolding render_args
render_args-is_ok values [] = refl
render_args-is_ok values (arg ∷ args) = elim (Checked-cases (render_template_arg values arg)) [
  | inl (e, refused) ↦ ground (arith, refused, render_template_arg-is_ok values arg)
  | inr (rendered, done) ↦ elim (Checked-cases (render_args values args)) [
    | inl (e, refused) ↦
        ground (
          arith,
          done,
          refused,
          render_template_arg-is_ok values arg,
          render_args-is_ok values args,
        )
    | inr (more, all) ↦
        ground
          (arith, done, all, render_template_arg-is_ok values arg, render_args-is_ok values args)
  ]
]

-- A template is rendered exactly if each of its arguments has a text and each variable that the
-- arguments name has a value: one of the four that the stream gives, an option or a default.
pub build_template_args-is_renderable :
    (stream : Stream) (profile : TemplateProfile)
    → is_ok (build_template_args stream profile)
      ≡ is_renderable (template_values stream profile) profile.args
unfolding build_template_args
build_template_args-is_renderable stream profile =
    ground (arith, render_args-is_ok (template_values stream profile) profile.args)
