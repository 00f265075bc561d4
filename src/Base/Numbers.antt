-- ===== src/Base/Numbers.antt =====
-- strconv.Atoi and strconv.ParseInt in base 10 for 64 bits.
use Prim.Native.Nat.{ℕ, zero, suc, ◌+◌, ◌-◌, ◌*◌, ◌^◌}
use mathlib.Core.Bool.{◌&&◌}
use mathlib.Core.Option.{Option, none, some}
use mathlib.Core.List.{[], ◌∷◌}
use neo_transcoder.Base.Tests.{ltb, leb, nat_beq, if◌then◌else◌, Bytes}
use neo_transcoder.Base.Int.{ℤ, pos, negsuc}

-- The digits' value, after those that are read.
read_digits : Bytes → ℕ → Option ℕ
read_digits [] n = some n
read_digits (c ∷ s) n =
    let more = read_digits s (n * 10 + (c - b'0')) in
    if leb b'0' c && leb c b'9' then more else none

read_number : Bytes → Option ℕ
unfolding read_digits
read_number [] = none
read_number (c ∷ s) = read_digits (c ∷ s) 0

positive : Option ℕ → Option ℤ
positive none = none
positive (some n) = if ltb n (2 ^ 63) then some (pos n) else none

negative : Option ℕ → Option ℤ
negative none = none
negative (some zero) = some (pos 0)
negative (some (suc n)) = if ltb n (2 ^ 63) then some (negsuc n) else none

unfoldable pub parse_int : Bytes → Option ℤ
unfolding read_number positive negative
parse_int [] = none
parse_int (c ∷ s) =
    if nat_beq c b'+'
    then positive (read_number s)
    else if nat_beq c b'-'
    then negative (read_number s)
    else positive (read_number (c ∷ s))
