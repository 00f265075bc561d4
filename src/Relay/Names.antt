-- ===== src/Relay/Names.antt =====
-- The texts that internal/srtrelay/store.go accepts: `idPattern` and `hostnamePattern`, on bytes (both
-- patterns only match ASCII, so that a byte is a character of the match).
use neo_transcoder.Base.{
  ℕ, Bool, false, not, ◌&&◌, ◌||◌, [], ◌∷◌, Bytes, leb, ◌==◌, nat_eq, bytes_eq, if◌then◌else◌,
  length, any, split, reverse,
}

unfoldable pub is_alnum : ℕ → Bool
is_alnum c = (leb b'A' c && leb c b'Z') || (leb b'a' c && leb c b'z') || (leb b'0' c && leb c b'9')

is_id_byte : ℕ → Bool
unfolding is_alnum
is_id_byte c = is_alnum c || c == b'_' || c == b'.' || c == b'-'

unfoldable pub every : (ℕ → Bool) → Bytes → Bool
every p s = not (any (λ c. not (p c)) s)

-- `^[A-Za-z0-9][A-Za-z0-9_.-]{2,63}$`
unfoldable pub is_id : Bytes → Bool
unfolding is_alnum is_id_byte every
is_id [] = false
is_id (c ∷ s) = is_alnum c && every is_id_byte s && leb 2 (length s) && leb (length s) 63

starts_alnum : Bytes → Bool
unfolding is_alnum
starts_alnum [] = false
starts_alnum (c ∷ s) = is_alnum c

-- `[A-Za-z0-9](?:[A-Za-z0-9-]{0,61}[A-Za-z0-9])?`
unfoldable pub is_label : Bytes → Bool
unfolding is_alnum every starts_alnum
is_label s =
    starts_alnum s
    && starts_alnum (reverse s)
    && every (λ c. is_alnum c || c == b'-') s
    && leb (length s) 63

-- strings.TrimSuffix(s, ".")
unfoldable pub trim_dot : Bytes → Bytes
trim_dot [] = []
trim_dot (c ∷ []) = if c == b'.' then [] else c ∷ []
trim_dot (c ∷ d ∷ s) = c ∷ trim_dot (d ∷ s)

-- `hostnamePattern`: labels with dots between them, and perhaps one behind them.
unfoldable pub is_hostname : Bytes → Bool
unfolding is_label trim_dot
is_hostname s = not (any (λ label. not (is_label label)) (split b'.' (trim_dot s)))
