-- ===== src/Base/Int.antt =====
-- Go's signed `int` and `int64` where a negative value changes what the code does. The library's ℤ
-- stands on another ℕ, so this one keeps its names over the native numbers.
use Prim.Native.Nat.{ℕ, suc, ◌-◌, ◌*◌, ◌%◌, ◌^◌, min}
use mathlib.Core.Bool.{Bool, true, false}
use neo_transcoder.Base.Tests.{ltb, leb, nat_beq, if◌then◌else◌}

-- `negsuc n` is -(n + 1).
pub data ℤ : Type 0 where
  pos : ℕ → ℤ
  negsuc : ℕ → ℤ

abbrev pub ltb_ℤ : ℤ → ℤ → Bool
ltb_ℤ (pos a) (pos b) = ltb a b
ltb_ℤ (pos a) (negsuc b) = false
ltb_ℤ (negsuc a) (pos b) = true
ltb_ℤ (negsuc a) (negsuc b) = ltb b a

abbrev pub leb_ℤ : ℤ → ℤ → Bool
leb_ℤ (pos a) (pos b) = leb a b
leb_ℤ (pos a) (negsuc b) = false
leb_ℤ (negsuc a) (pos b) = true
leb_ℤ (negsuc a) (negsuc b) = leb b a

-- `z == k` for a literal k that is not negative.
abbrev pub is_ℕ : ℤ → ℕ → Bool
is_ℕ (pos a) k = nat_beq a k
is_ℕ (negsuc a) k = false

-- The value as a number, where a guard has shown that it is not negative.
abbrev pub to_ℕ : ℤ → ℕ
to_ℕ (pos a) = a
to_ℕ (negsuc a) = 0

-- The int64 with these low 64 bits.
unfoldable pub wrap_i64 : ℕ → ℤ
wrap_i64 n = let m = n % 2 ^ 64 in if ltb m (2 ^ 63) then pos m else negsuc (2 ^ 64 - 1 - m)

-- time.Duration(n) * time.Second, whose int64 product wraps around.
unfoldable pub duration_seconds : ℤ → ℤ
unfolding wrap_i64
duration_seconds (pos n) = wrap_i64 (n * 1000000000)
duration_seconds (negsuc n) = wrap_i64 (2 ^ 64 * 1000000000 - suc n * 1000000000)

-- now.Sub(t), which saturates at the bounds of an int64.
unfoldable pub time_sub : ℕ → ℕ → ℤ
time_sub now t =
    if leb t now then pos (min (now - t) (2 ^ 63 - 1)) else negsuc (min (t - now - 1) (2 ^ 63 - 1))

-- now.Sub(t) > time.Duration(n) * time.Second
unfoldable pub is_longer : ℤ → ℕ → ℕ → Bool
unfolding duration_seconds time_sub
is_longer seconds t now = ltb_ℤ (duration_seconds seconds) (time_sub now t)
