-- ===== src/Auth/Pbkdf2/Reference.antt =====
-- The key derivation of RFC 8018, section 5.2, as its formulas say it, and the loops of `pbkdf2Key`.
use mathlib.Core.List.{append-nil, append_assoc}
use neo_transcoder.Base.{
  ℕ, zero, suc, ◌+◌, ◌-◌, ◌*◌, ◌/◌, ◌%◌, ◌^◌, ◌<◌, ◌≡◌, refl, sym, ap, ◌∙◌, arith, [], ◌∷◌, ◌++◌,
  Bytes, take, length, length-append, length-take, All-append,
}
use neo_transcoder.Auth.Base64.{IsBytes}
use neo_transcoder.Auth.Pbkdf2.{
  hash_length, big_endian, xor_into, stretch, block_key, append_blocks, pbkdf2_key,
}

-- U_1 = PRF (P, S || INT (i)) and U_(j+1) = PRF (P, U_j), the latter at j + 1
u_chain : (Bytes → Bytes) → Bytes → ℕ → ℕ → Bytes
u_chain prf salt i zero = prf (salt ++ big_endian (i % 2 ^ 32))
u_chain prf salt i (suc j) = prf (u_chain prf salt i j)

-- F (P, S, c, i) = U_1 xor U_2 xor … xor U_c, at c - 1
f_block : (Bytes → Bytes) → Bytes → ℕ → ℕ → Bytes
f_block prf salt i zero = u_chain prf salt i 0
f_block prf salt i (suc j) = xor_into (f_block prf salt i j) (u_chain prf salt i (suc j))

-- F for so many blocks from a block on, joined
f_blocks : (Bytes → Bytes) → Bytes → ℕ → ℕ → ℕ → Bytes
f_blocks prf salt iter zero i = []
f_blocks prf salt iter (suc left) i =
    f_block prf salt i (iter - 1) ++ f_blocks prf salt iter left (i + 1)

-- DK = the first dkLen octets of T_1 || … || T_l
pub derived_key : (Bytes → Bytes) → Bytes → ℕ → ℕ → Bytes
derived_key prf salt iter key_len =
    take key_len (f_blocks prf salt iter ((key_len + hash_length - 1) / hash_length) 1)

module _ (prf : Bytes → Bytes) (salt : Bytes) where
  stretch_lem :
      (i j rounds : ℕ)
      → stretch prf rounds (u_chain prf salt i j) (f_block prf salt i j)
        ≡ f_block prf salt i (j + rounds)
  unfolding stretch f_block u_chain
  stretch_lem i j zero = let e : j + 0 ≡ j = omega arith in ap (λ n. f_block prf salt i n) (sym e)
  stretch_lem i j (suc rounds) =
      let e : j + suc rounds ≡ suc j + rounds = omega arith in
      stretch_lem i (suc j) rounds ∙ ap (λ n. f_block prf salt i n) (sym e)

  block_key_lem : (iter i : ℕ) → block_key prf salt iter i ≡ f_block prf salt i (iter - 1)
  unfolding block_key u_chain f_block
  block_key_lem iter i =
      stretch_lem i 0 (iter - 1)
      ∙ (let e : 0 + (iter - 1) ≡ iter - 1 = omega arith in ap (λ n. f_block prf salt i n) e)

  append_blocks_lem :
      (iter left i : ℕ) (dk : Bytes)
      → append_blocks prf salt iter left i dk ≡ dk ++ f_blocks prf salt iter left i
  unfolding append_blocks f_blocks
  append_blocks_lem iter zero i dk = sym (append-nil dk)
  append_blocks_lem iter (suc left) i dk =
      append_blocks_lem iter left (i + 1) (dk ++ block_key prf salt iter i)
      ∙ append_assoc dk (block_key prf salt iter i) (f_blocks prf salt iter left (i + 1))
      ∙ ap (λ t. dk ++ (t ++ f_blocks prf salt iter left (i + 1))) (block_key_lem iter i)

  -- The loops compute the key that the formulas of RFC 8018 say, for every pseudo-random function,
  -- salt, number of iterations and length.
  pub pbkdf2_key-derived_key :
      (iter key_len : ℕ) → pbkdf2_key prf salt iter key_len ≡ derived_key prf salt iter key_len
  unfolding pbkdf2_key derived_key
  pbkdf2_key-derived_key iter key_len =
      ap (λ t. take key_len t)
        (append_blocks_lem iter ((key_len + hash_length - 1) / hash_length) 1 [])

length-xor_into : (sum u : Bytes) → length (xor_into sum u) ≡ length sum
unfolding xor_into
length-xor_into [] u = refl
length-xor_into (s ∷ sum) [] = refl
length-xor_into (s ∷ sum) (x ∷ u) = ap suc (length-xor_into sum u)

xor_into-IsBytes : (sum u : Bytes) → IsBytes sum → IsBytes (xor_into sum u)
unfolding xor_into
xor_into-IsBytes [] u h = tt
xor_into-IsBytes (s ∷ sum) [] h = h
xor_into-IsBytes (s ∷ sum) (x ∷ u) (hs, h) = (omega arith, xor_into-IsBytes sum u h)

take-IsBytes : (n : ℕ) (s : Bytes) → IsBytes s → IsBytes (take n s)
take-IsBytes zero s h = tt
take-IsBytes (suc n) [] h = tt
take-IsBytes (suc n) (c ∷ s) (hc, h) = (hc, take-IsBytes n s h)

module _ (prf : Bytes → Bytes) (salt : Bytes) (sized : (m : Bytes) → length (prf m) ≡ hash_length)
    (bounded : (m : Bytes) → IsBytes (prf m)) where
  length-f_block : (i j : ℕ) → length (f_block prf salt i j) ≡ hash_length
  unfolding f_block u_chain
  length-f_block i zero = sized (salt ++ big_endian (i % 2 ^ 32))
  length-f_block i (suc j) =
      length-xor_into (f_block prf salt i j) (u_chain prf salt i (suc j)) ∙ length-f_block i j

  f_block-IsBytes : (i j : ℕ) → IsBytes (f_block prf salt i j)
  unfolding f_block u_chain
  f_block-IsBytes i zero = bounded (salt ++ big_endian (i % 2 ^ 32))
  f_block-IsBytes i (suc j) =
      xor_into-IsBytes (f_block prf salt i j) (u_chain prf salt i (suc j)) (f_block-IsBytes i j)

  length-f_blocks : (iter left i : ℕ) → length (f_blocks prf salt iter left i) ≡ left * hash_length
  unfolding f_blocks
  length-f_blocks iter zero i = omega arith
  length-f_blocks iter (suc left) i = omega (
    arith,
    length-append (f_block prf salt i (iter - 1)) (f_blocks prf salt iter left (i + 1)),
    length-f_block i (iter - 1),
    length-f_blocks iter left (i + 1),
  )

  f_blocks-IsBytes : (iter left i : ℕ) → IsBytes (f_blocks prf salt iter left i)
  unfolding f_blocks
  f_blocks-IsBytes iter zero i = tt
  f_blocks-IsBytes iter (suc left) i =
      All-append (f_block prf salt i (iter - 1)) (f_blocks prf salt iter left (i + 1))
        (λ b. b < 256) (f_block-IsBytes i (iter - 1)) (f_blocks-IsBytes iter left (i + 1))

  -- The key has the length that is asked for.
  pub length-pbkdf2_key : (iter key_len : ℕ) → length (pbkdf2_key prf salt iter key_len) ≡ key_len
  unfolding derived_key
  length-pbkdf2_key iter key_len =
      let blocks = (key_len + hash_length - 1) / hash_length in
      ap (λ t. length t) (pbkdf2_key-derived_key prf salt iter key_len)
      ∙ omega (
        arith,
        length-take key_len (f_blocks prf salt iter blocks 1),
        length-f_blocks iter blocks 1,
      )

  pub pbkdf2_key-IsBytes : (iter key_len : ℕ) → IsBytes (pbkdf2_key prf salt iter key_len)
  unfolding derived_key
  pbkdf2_key-IsBytes iter key_len =
      rw (pbkdf2_key-derived_key prf salt iter key_len) (
        take-IsBytes key_len _
          (f_blocks-IsBytes iter ((key_len + hash_length - 1) / hash_length) 1))
