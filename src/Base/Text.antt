-- ===== src/Base/Text.antt =====
-- The functions of Go's package `strings` that the program calls, over byte strings. The two code
-- points outside ASCII whose lower case is an ASCII letter are the Kelvin sign and the dotted capital
-- I; as every pattern that is searched for is ASCII, `to_lower` leaves other bytes above 127 alone.
use Prim.Native.Nat.{ℕ, zero, suc, ◌+◌, ◌/◌, ◌%◌}
use Prim.Native.Char.{code}
use Prim.Native.String.{String}
use mathlib.Core.Bool.{Bool, true, false, ◌&&◌, ◌||◌}
use mathlib.Core.Option.{Option, none, some}
use mathlib.Core.List.{List, [], ◌∷◌, reverse}
use neo_transcoder.Base.Tests.{leb, nat_beq, if◌then◌else◌, Bytes}

-- The bytes of an ASCII literal.
unfoldable pub bytes : String → Bytes
bytes String.[] = []
bytes (String.◌∷◌ c s) = code c ∷ bytes s

-- strings.HasPrefix
unfoldable pub has_prefix : Bytes → Bytes → Bool
has_prefix s [] = true
has_prefix [] (p ∷ ps) = false
has_prefix (c ∷ s) (p ∷ ps) = nat_beq c p && has_prefix s ps

-- strings.TrimPrefix, where the text has the prefix
unfoldable pub drop_prefix : Bytes → Bytes → Bytes
drop_prefix s [] = s
drop_prefix [] (p ∷ ps) = []
drop_prefix (c ∷ s) (p ∷ ps) = drop_prefix s ps

-- strings.Contains
unfoldable pub contains_text : Bytes → Bytes → Bool
unfolding has_prefix
contains_text [] sub = has_prefix [] sub
contains_text (c ∷ s) sub = has_prefix (c ∷ s) sub || contains_text s sub

lower_ascii : ℕ → ℕ
lower_ascii c = if leb b'A' c && leb c b'Z' then c + 32 else c

-- strings.ToLower
unfoldable pub to_lower : Bytes → Bytes
unfolding lower_ascii
to_lower [] = []
to_lower (a ∷ b ∷ c ∷ s) =
    let kelvin = b'k' ∷ to_lower s in
    let dotted = b'i' ∷ to_lower (c ∷ s) in
    let plain = lower_ascii a ∷ to_lower (b ∷ c ∷ s) in
    if nat_beq a 0xE2 && nat_beq b 0x84 && nat_beq c 0xAA
    then kelvin
    else if nat_beq a 0xC4 && nat_beq b 0xB0
    then dotted
    else plain
to_lower (a ∷ b ∷ []) =
    let plain = lower_ascii a ∷ to_lower (b ∷ []) in
    if nat_beq a 0xC4 && nat_beq b 0xB0 then b'i' ∷ [] else plain
to_lower (a ∷ []) = lower_ascii a ∷ []

-- unicode.IsSpace, by the number of bytes of its UTF-8 form
space_one : ℕ → Bool
space_one c = nat_beq c b' ' || (leb 9 c && leb c 13)

space_two : ℕ → ℕ → Bool
space_two a b = nat_beq a 0xC2 && (nat_beq b 0x85 || nat_beq b 0xA0)

general_space : ℕ → ℕ → Bool
general_space b c =
    (nat_beq b 0x80
      && ((leb 0x80 c && leb c 0x8A) || nat_beq c 0xA8 || nat_beq c 0xA9 || nat_beq c 0xAF))
    || (nat_beq b 0x81 && nat_beq c 0x9F)

space_three : ℕ → ℕ → ℕ → Bool
unfolding general_space
space_three a b c =
    (nat_beq a 0xE1 && nat_beq b 0x9A && nat_beq c 0x80)
    || (nat_beq a 0xE2 && general_space b c)
    || (nat_beq a 0xE3 && nat_beq b 0x80 && nat_beq c 0x80)

trim_left : Bytes → Bytes
unfolding space_one space_two space_three
trim_left [] = []
trim_left (a ∷ []) = if space_one a then [] else a ∷ []
trim_left (a ∷ b ∷ []) =
    let one = trim_left (b ∷ []) in
    if space_one a then one else if space_two a b then [] else a ∷ b ∷ []
trim_left (a ∷ b ∷ c ∷ s) =
    let one = trim_left (b ∷ c ∷ s) in
    let two = trim_left (c ∷ s) in
    let three = trim_left s in
    if space_one a
    then one
    else if space_two a b
    then two
    else if space_three a b c
    then three
    else a ∷ b ∷ c ∷ s

-- `trim_left` over a reversed text: the bytes of a space come last byte first.
trim_right_rev : Bytes → Bytes
unfolding space_one space_two space_three
trim_right_rev [] = []
trim_right_rev (a ∷ []) = if space_one a then [] else a ∷ []
trim_right_rev (a ∷ b ∷ []) =
    let one = trim_right_rev (b ∷ []) in
    if space_one a then one else if space_two b a then [] else a ∷ b ∷ []
trim_right_rev (a ∷ b ∷ c ∷ s) =
    let one = trim_right_rev (b ∷ c ∷ s) in
    let two = trim_right_rev (c ∷ s) in
    let three = trim_right_rev s in
    if space_one a
    then one
    else if space_two b a
    then two
    else if space_three c b a
    then three
    else a ∷ b ∷ c ∷ s

-- strings.TrimSpace
unfoldable pub trim_space : Bytes → Bytes
unfolding trim_left trim_right_rev
trim_space s = reverse (trim_right_rev (reverse (trim_left s)))

-- strings.Cut with a separator of one byte: what stands before the first, and after it.
unfoldable pub cut : ℕ → Bytes → Option (Bytes × Bytes)
cut sep [] = none
cut sep (c ∷ s) =
    if nat_beq c sep
    then some ([], s)
    else elim (cut sep s) [ none ↦ none | some (before, after) ↦ some (c ∷ before, after) ]

-- What stands before the first separator, and the fields after it.
unfoldable pub split_fields : ℕ → Bytes → Bytes × List Bytes
split_fields sep [] = ([], [])
split_fields sep (c ∷ s) =
    let (field, fields) = split_fields sep s in
    if nat_beq c sep then ([], field ∷ fields) else (c ∷ field, fields)

-- strings.Split with a separator of one byte
unfoldable pub split : ℕ → Bytes → List Bytes
unfolding split_fields
split sep s = let (field, fields) = split_fields sep s in field ∷ fields

-- strconv.Itoa of a number that is not negative. Each round divides by ten, so as many rounds as the
-- number itself are enough.
itoa_rounds : ℕ → ℕ → Bytes → Bytes
itoa_rounds zero n acc = acc
itoa_rounds (suc f) n acc =
    let more = itoa_rounds f (n / 10) ((b'0' + n % 10) ∷ acc) in
    if nat_beq (n / 10) 0 then (b'0' + n % 10) ∷ acc else more

unfoldable pub itoa : ℕ → Bytes
unfolding itoa_rounds
itoa n = itoa_rounds (suc n) n []
