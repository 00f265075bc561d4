-- ===== src/Streams/Lines/Tokens.antt =====
-- The tokens that `scanCRLF` cuts a complete input into.
use neo_transcoder.Base.{
  ℕ, zero, suc, ◌+◌, ◌<◌, ◌≡◌, refl, sym, ap, ◌∙◌, Bool, true, false, not, Option, none, some, List,
  [], ◌∷◌, ◌++◌, Bytes, arith, nat_eq, length, drop, All, keep, keep-append, length-append,
  length-drop, Bool-cases, inl, inr,
}
use mathlib.Core.Path.{subst}
use mathlib.Core.List.{append-nil}
use native.Mathlib.Nat.{zero-add, suc-add}
use neo_transcoder.Streams.Lines.{is_break, before_break, break_width, scan_crlf, scan_all}

abbrev pub joined : List Bytes → Bytes
joined [] = []
joined (b ∷ bs) = b ++ joined bs

abbrev pub IsLine : Bytes → Type 0
IsLine line = All (λ c. is_break c ≡ false) line

-- What `before_break` cuts off is a line, and what follows is empty or begins with a break.
before_break-IsLine : (s : Bytes) → IsLine (before_break s).0
unfolding before_break
before_break-IsLine [] = tt
before_break-IsLine (c ∷ s) = elim (Bool-cases (is_break c)) [
  | inl e ↦ rw e tt
  | inr e ↦ rw e (e, before_break-IsLine s)
]

before_break-append : (s : Bytes) → (before_break s).0 ++ (before_break s).1 ≡ s
unfolding before_break
before_break-append [] = refl
before_break-append (c ∷ s) = elim (Bool-cases (is_break c)) [
  | inl e ↦ rw e
  | inr e ↦ rw e (ap (λ t. c ∷ t) (before_break-append s))
]

abbrev StartsWithBreak : Bytes → Type 0
StartsWithBreak [] = Unit
StartsWithBreak (c ∷ s) = is_break c ≡ true

before_break-StartsWithBreak : (s : Bytes) → StartsWithBreak (before_break s).1
unfolding before_break
before_break-StartsWithBreak [] = tt
before_break-StartsWithBreak (c ∷ s) = elim (Bool-cases (is_break c)) [
  | inl e ↦ rw e e
  | inr e ↦ rw e (before_break-StartsWithBreak s)
]

abbrev pub not_break : ℕ → Bool
not_break c = not (is_break c)

keep_line : (line : Bytes) → IsLine line → keep not_break line ≡ line
keep_line [] h = refl
keep_line (c ∷ s) (e, h) = rw e (ap (λ t. c ∷ t) (keep_line s h))

-- The break that is passed over holds nothing but breaks.
keep_break :
    (rest : Bytes)
    → StartsWithBreak rest
    → keep not_break (drop (break_width rest) rest) ≡ keep not_break rest
unfolding break_width is_break
keep_break [] h = refl
keep_break (c ∷ []) h = ground arith
keep_break (c ∷ d ∷ s) h = ground arith

drop-line : (line rest : Bytes) (n : ℕ) → drop (length line + n) (line ++ rest) ≡ drop n rest
drop-line [] rest n = rw zero-add
drop-line (c ∷ line) rest n = rw suc-add (drop-line line rest n)

-- One call of `scan_crlf` at the end of the input, on a line and what follows it.
record IsToken (input : Bytes) (line rest : Bytes) : Type 0 where
  line_is : IsLine line
  kept : line ++ keep not_break rest ≡ keep not_break input
  shorter : length rest < length input

drop_all {ℓ} : {A : Type ℓ} (xs : List A) → drop (length xs) xs ≡ []
drop_all [] = refl
drop_all (x ∷ xs) = drop_all xs

-- The call on a nonempty input that has no break.
scan-last :
    (c : ℕ) (s : Bytes)
    → (before_break (c ∷ s)).1 ≡ []
    → scan_crlf (c ∷ s) true ≡ (length (c ∷ s), some (c ∷ s))
unfolding scan_crlf
scan-last c s e = rw e (ground arith)

-- The call on an input that has one.
scan-break :
    (c d : ℕ) (s rest : Bytes)
    → (before_break (c ∷ s)).1 ≡ d ∷ rest
    → scan_crlf (c ∷ s) true
      ≡ (length (before_break (c ∷ s)).0 + break_width (d ∷ rest), some (before_break (c ∷ s)).0)
unfolding scan_crlf
scan-break c d s rest e = rw e (ground arith)

break_width-pos : (d : ℕ) (rest : Bytes) → 0 < break_width (d ∷ rest)
unfolding break_width
break_width-pos d [] = omega arith
break_width-pos d (c ∷ s) = ground arith

IsToken-last : (c : ℕ) (s : Bytes) → (before_break (c ∷ s)).1 ≡ [] → IsToken (c ∷ s) (c ∷ s) []
IsToken-last c s e =
    let whole : (before_break (c ∷ s)).0 ≡ c ∷ s =
      sym (append-nil (before_break (c ∷ s)).0)
      ∙ ap (λ t. (before_break (c ∷ s)).0 ++ t) (sym e)
      ∙ before_break-append (c ∷ s) in
    let line : IsLine (c ∷ s) = subst IsLine whole (before_break-IsLine (c ∷ s)) in
    record {
      line_is = line;
      kept = append-nil (c ∷ s) ∙ sym (keep_line (c ∷ s) line);
      shorter = omega arith;
    }

IsToken-break :
    (input line : Bytes) (d : ℕ) (rest : Bytes)
    → IsLine line
    → StartsWithBreak (d ∷ rest)
    → line ++ d ∷ rest ≡ input
    → IsToken input line (drop (length line + break_width (d ∷ rest)) input)
IsToken-break input line d rest is_line starts e =
    subst (λ t. IsToken t line (drop (length line + break_width (d ∷ rest)) t)) e
      (rw (drop-line line (d ∷ rest) (break_width (d ∷ rest))) (record {
        line_is = is_line;
        kept =
            ap (λ t. line ++ t) (keep_break (d ∷ rest) starts)
            ∙ ap (λ t. t ++ keep not_break (d ∷ rest)) (sym (keep_line line is_line))
            ∙ sym (keep-append not_break line (d ∷ rest));
        shorter = omega (
          arith,
          length-drop (break_width (d ∷ rest)) (d ∷ rest),
          length-append line (d ∷ rest),
          break_width-pos d rest,
        );
      }))

rest-IsToken :
    (c : ℕ) (s rest : Bytes)
    → (before_break (c ∷ s)).1 ≡ rest
    → (advance : ℕ) × (line : Bytes) × (scan_crlf (c ∷ s) true ≡ (advance, some line))
      × IsToken (c ∷ s) line (drop advance (c ∷ s))
rest-IsToken c s [] e =
    (length (c ∷ s), c ∷ s, scan-last c s e, rw (drop_all (c ∷ s)) (IsToken-last c s e))
rest-IsToken c s (d ∷ rest) e = (
  length (before_break (c ∷ s)).0 + break_width (d ∷ rest),
  (before_break (c ∷ s)).0,
  scan-break c d s rest e,
  IsToken-break (c ∷ s) (before_break (c ∷ s)).0 d rest (before_break-IsLine (c ∷ s))
      (subst StartsWithBreak e (before_break-StartsWithBreak (c ∷ s)))
      (ap (λ t. (before_break (c ∷ s)).0 ++ t) (sym e) ∙ before_break-append (c ∷ s)),
)

scan-nil : scan_crlf [] true ≡ (0, none)
unfolding scan_crlf before_break
scan-nil = refl

scan_all-nil : (fuel : ℕ) → scan_all (suc fuel) [] ≡ []
unfolding scan_all
scan_all-nil fuel = rw (scan-nil, scan_all)

scan_all-token :
    (fuel advance : ℕ) (input line : Bytes)
    → scan_crlf input true ≡ (advance, some line)
    → scan_all (suc fuel) input ≡ line ∷ scan_all fuel (drop advance input)
unfolding scan_all
scan_all-token fuel advance input line e =
    rw (e, scan_all)
      (ap (λ n. line ∷ scan_all fuel (drop n input)) (ap (λ (p : ℕ × Option Bytes). p.0) e))

-- With fuel for each byte, the scanner over a complete input cuts it into tokens that hold no `\r` and
-- no `\n`; joined, they are the input without those bytes, so no other byte is lost, repeated or moved.
pub scan_all-lines :
    (fuel : ℕ) (input : Bytes)
    → length input < fuel
    → All IsLine (scan_all fuel input) × (joined (scan_all fuel input) ≡ keep not_break input)
scan_all-lines zero input enough = absurd (omega arith)
scan_all-lines (suc fuel) [] enough = rw scan_all-nil (tt, refl)
scan_all-lines (suc fuel) (c ∷ s) enough =
    let (advance, line, e, t) = rest-IsToken c s (before_break (c ∷ s)).1 refl in
    let (lines, whole) = scan_all-lines fuel (drop advance (c ∷ s)) (omega (arith, t.shorter)) in
    rw (scan_all-token fuel advance (c ∷ s) line e)
      ((t.line_is, lines), ap (λ r. line ++ r) whole ∙ t.kept)
