-- ===== src/Auth/Pbkdf2.antt =====
-- `pbkdf2Key` of internal/auth/auth.go. The pseudo-random function is `prf`, HMAC under the password;
-- with SHA-256 its results have 32 bytes.
pub mod Reference
use Prim.Native.Nat.{bit_xor}
use neo_transcoder.Base.{
  ℕ, zero, suc, ◌+◌, ◌-◌, ◌*◌, ◌/◌, ◌%◌, ◌^◌, List, [], ◌∷◌, ◌++◌, Bytes, take,
}

-- prf.Size()
abbrev pub hash_length : ℕ
hash_length = 32

-- binary.BigEndian.PutUint32
unfoldable pub big_endian : ℕ → Bytes
big_endian n = (n / 2 ^ 24 % 256) ∷ (n / 2 ^ 16 % 256) ∷ (n / 2 ^ 8 % 256) ∷ (n % 256) ∷ []

-- The loop `sum[x] ^= u[x]`
unfoldable pub xor_into : Bytes → Bytes → Bytes
xor_into [] u = []
xor_into (s ∷ sum) [] = s ∷ sum
xor_into (s ∷ sum) (x ∷ u) = (bit_xor s x % 256) ∷ xor_into sum u

-- The inner loop, with the rounds that are left: `u` and `sum`.
unfoldable pub stretch : (Bytes → Bytes) → ℕ → Bytes → Bytes → Bytes
stretch prf zero u sum = sum
stretch prf (suc rounds) u sum = stretch prf rounds (prf u) (xor_into sum (prf u))

unfoldable pub block_key : (Bytes → Bytes) → Bytes → ℕ → ℕ → Bytes
block_key prf salt iter block =
    let first = prf (salt ++ big_endian (block % 2 ^ 32)) in stretch prf (iter - 1) first first

-- The outer loop, with the blocks that are left, from a block on.
unfoldable pub append_blocks : (Bytes → Bytes) → Bytes → ℕ → ℕ → ℕ → Bytes → Bytes
append_blocks prf salt iter zero block dk = dk
append_blocks prf salt iter (suc left) block dk =
    append_blocks prf salt iter left (block + 1) (dk ++ block_key prf salt iter block)

unfoldable pub pbkdf2_key : (Bytes → Bytes) → Bytes → ℕ → ℕ → Bytes
pbkdf2_key prf salt iter key_len =
    let blocks = (key_len + hash_length - 1) / hash_length in
    take key_len (append_blocks prf salt iter blocks 1 [])
