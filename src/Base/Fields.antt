-- ===== src/Base/Fields.antt =====
-- How `cut` and `split` take a text apart that is put together from fields.
use Prim.Native.Nat.{ℕ}
use mathlib.Core.Path.{◌≡◌, refl}
use mathlib.Core.Logic.{inl, inr}
use mathlib.Core.Bool.{Bool, true, false}
use mathlib.Core.Option.{some}
use mathlib.Core.List.{[], ◌∷◌, ◌++◌}
use native.Mathlib.Omega.{arith}
use neo_transcoder.Base.Tests.{Bool-cases, Option-cases, nat_beq, nat_beq_iff, Bytes, if◌then◌else◌}
use neo_transcoder.Base.Lists.{All}
use neo_transcoder.Base.Text.{cut, split, split_fields}

-- No byte of the text is the separator.
abbrev pub Lacks : ℕ → Bytes → Type 0
Lacks sep s = All (λ c. nat_beq c sep ≡ false) s

pub cut-append : (sep : ℕ) (s t : Bytes) → Lacks sep s → cut sep (s ++ sep ∷ t) ≡ some (s, t)
unfolding cut
cut-append sep [] t h = rw ((nat_beq_iff sep sep).1 refl) refl
cut-append sep (c ∷ s) t (plain, h) = rw (plain, cut-append sep s t h) refl

split_fields-append :
    (sep : ℕ) (s t : Bytes)
    → Lacks sep s
    → split_fields sep (s ++ sep ∷ t)
      ≡ (s, (let (field, fields) = split_fields sep t in field ∷ fields))
unfolding split_fields
split_fields-append sep [] t h = rw ((nat_beq_iff sep sep).1 refl) refl
split_fields-append sep (c ∷ s) t (plain, h) = rw (plain, split_fields-append sep s t h) refl

pub split-append :
    (sep : ℕ) (s t : Bytes) → Lacks sep s → split sep (s ++ sep ∷ t) ≡ s ∷ split sep t
unfolding split
split-append sep s t h = rw (split, split_fields-append sep s t h) refl

split_fields-plain : (sep : ℕ) (s : Bytes) → Lacks sep s → split_fields sep s ≡ (s, [])
unfolding split_fields
split_fields-plain sep [] h = refl
split_fields-plain sep (c ∷ s) (plain, h) = rw (plain, split_fields-plain sep s h) refl

pub split-plain : (sep : ℕ) (s : Bytes) → Lacks sep s → split sep s ≡ s ∷ []
unfolding split
split-plain sep s h = rw (split, split_fields-plain sep s h) refl

-- The two sides of a cut and the separator are the whole text.
pub append-cut :
    (sep : ℕ) (s before after : Bytes)
    → cut sep s ≡ some (before, after)
    → s ≡ before ++ sep ∷ after
unfolding cut
append-cut sep [] before after h = cc
append-cut sep (c ∷ s) before after h = elim (Bool-cases (nat_beq c sep)) [
  | inl found ↦ ground (arith, found)
  | inr plain ↦ elim (Option-cases (cut sep s)) [
    | inl missing ↦ ground (arith, plain, missing)
    | inr ((b, a), e) ↦ ground (arith, plain, e, append-cut sep s b a e)
  ]
]

abbrev pub lacks : ℕ → Bytes → Bool
lacks sep [] = true
lacks sep (c ∷ s) = let rest = lacks sep s in if nat_beq c sep then false else rest

pub lacks-Lacks : (sep : ℕ) (s : Bytes) → lacks sep s ≡ true → Lacks sep s
lacks-Lacks sep [] h = tt
lacks-Lacks sep (c ∷ s) h = (ground arith, lacks-Lacks sep s (ground arith))
