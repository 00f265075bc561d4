-- ===== src/Relay/Audit/Order.antt =====
-- The order in which pathsLocked returns the files of the audit log.
use mathlib.Core.List.{Perm}
use mathlib.Core.List.Perm
use neo_transcoder.Base.{ℕ, ◌≤◌, inl, inr, List, [], ◌∷◌, arith, ltb, Bool-cases, All}
use neo_transcoder.Relay.Audit.{Line, Directory, put_newer, newest_files}

-- Every file stands before the files of earlier days.
abbrev pub IsNewestFirst : Directory → Type 0
IsNewestFirst [] = Unit
IsNewestFirst ((day, lines) ∷ files) = All (λ f. f.0 ≤ day) files × IsNewestFirst files

All-of_le :
    (low high : ℕ) (files : Directory)
    → low ≤ high
    → All (λ f. f.0 ≤ low) files
    → All (λ f. f.0 ≤ high) files
All-of_le low high [] h below = tt
All-of_le low high ((day, lines) ∷ files) h (first, below) =
    (omega arith, All-of_le low high files h below)

put_newer-All :
    (bound day : ℕ) (lines : List Line) (files : Directory)
    → day ≤ bound
    → All (λ f. f.0 ≤ bound) files
    → All (λ f. f.0 ≤ bound) (put_newer day lines files)
unfolding put_newer
put_newer-All bound day lines [] h below = (h, tt)
put_newer-All bound day lines ((other, others) ∷ files) h (first, below) =
    let rest = put_newer-All bound day lines files h below in
    elim (Bool-cases (ltb day other)) [
      | inl older ↦ rw older (first, rest)
      | inr newer ↦ rw newer (h, (first, below))
    ]

put_newer-IsNewestFirst :
    (day : ℕ) (lines : List Line) (files : Directory)
    → IsNewestFirst files
    → IsNewestFirst (put_newer day lines files)
unfolding put_newer
put_newer-IsNewestFirst day lines [] h = (tt, tt)
put_newer-IsNewestFirst day lines ((other, others) ∷ files) (below, sorted) =
    elim (Bool-cases (ltb day other)) [
      | inl older ↦ rw older (
        put_newer-All other day lines files (ground (arith, older)) below,
        put_newer-IsNewestFirst day lines files sorted,
      )
      | inr newer ↦
          let first : other ≤ day = ground (arith, newer) in
          rw newer ((first, All-of_le other day files first below), (below, sorted))
    ]

put_newer-perm :
    (day : ℕ) (lines : List Line) (files : Directory)
    → Perm (put_newer day lines files) ((day, lines) ∷ files)
unfolding put_newer
put_newer-perm day lines [] = Perm.rfl
put_newer-perm day lines ((other, others) ∷ files) = elim (Bool-cases (ltb day other)) [
  | inl older ↦ rw older (
      Perm.trans (Perm.cons (other, others) (put_newer-perm day lines files))
        (Perm.swap (day, lines) (other, others) files))
  | inr newer ↦ rw newer Perm.rfl
]

pub newest_files-IsNewestFirst : (dir : Directory) → IsNewestFirst (newest_files dir)
unfolding newest_files
newest_files-IsNewestFirst [] = tt
newest_files-IsNewestFirst ((day, lines) ∷ files) =
    put_newer-IsNewestFirst day lines (newest_files files) (newest_files-IsNewestFirst files)

pub newest_files-perm : (dir : Directory) → Perm (newest_files dir) dir
unfolding newest_files
newest_files-perm [] = Perm.rfl
newest_files-perm ((day, lines) ∷ files) =
    Perm.trans (put_newer-perm day lines (newest_files files))
      (Perm.cons (day, lines) (newest_files-perm files))
