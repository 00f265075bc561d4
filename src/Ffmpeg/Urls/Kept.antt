-- ===== src/Ffmpeg/Urls/Kept.antt =====
-- What of a URL's query is kept.
use neo_transcoder.Base.{
  pos, ◌≡◌, refl, ◌∙◌, inl, inr, Bool, true, false, ◌&&◌, Option, none, some, Bytes, bytes, arith,
  delete, lookup-insert, lookup-delete, ltb_ℤ, ◌==◌, bytes_eq, if◌then◌else◌, Bool-cases,
}
use neo_transcoder.Ffmpeg.Models.{SystemConfig, itoa_ℤ}
use neo_transcoder.Ffmpeg.Urls.{Values, get_value, set_value, tune_input}

get_value-set_value :
    (name key value : Bytes) (q : Values)
    → get_value name (set_value key value q) ≡ (if key == name then value else get_value name q)
unfolding get_value set_value
get_value-set_value name key value q = elim (Bool-cases (key == name)) [
  | inl same ↦ ground (arith, lookup-insert key name value (delete key q), same)
  | inr other ↦
      ground (arith, lookup-insert key name value (delete key q), lookup-delete key name q, other)
]

get_value-set_if :
    (wanted : Bool) (name key value : Bytes) (q : Values)
    → get_value name (if wanted then set_value key value q else q)
      ≡ (if wanted && key == name then value else get_value name q)
get_value-set_if true name key value q = get_value-set_value name key value q
get_value-set_if false name key value q = refl

abbrev pub or_kept : Option Bytes → Bytes → Bytes
or_kept none kept = kept
or_kept (some value) kept = value

-- One choice of the table of tuned parameters.
choose :
    (kept rest : Bytes) (others : Option Bytes) (wanted : Bool) (value : Bytes)
    → rest ≡ or_kept others kept
    → (if wanted then value else rest) ≡ or_kept (if wanted then some value else others) kept
choose kept rest others true value h = refl
choose kept rest others false value h = h

-- The parameters of an input URL that are tuned, and the value that each is given.
pub tuned : SystemConfig → Bytes → Option Bytes
tuned sys name =
    if sys.udp_reuse && bytes "reuse" == name
    then some (bytes "1")
    else if ltb_ℤ (pos 0) sys.udp_buffer_size && bytes "buffer_size" == name
    then some (itoa_ℤ sys.udp_buffer_size)
    else if ltb_ℤ (pos 0) sys.udp_fifo_size && bytes "fifo_size" == name
    then some (itoa_ℤ sys.udp_fifo_size)
    else if sys.udp_overrun_nonfatal && bytes "overrun_nonfatal" == name
    then some (bytes "1")
    else none

-- The tuning of an input URL sets the parameters that the system configuration turns on, each to its
-- value there, and keeps the value of every other parameter, such as localaddr.
pub get_value-tune_input :
    (sys : SystemConfig) (q : Values) (name : Bytes)
    → get_value name (tune_input sys q) ≡ or_kept (tuned sys name) (get_value name q)
unfolding tune_input tuned
get_value-tune_input sys q name =
    let q1 =
      if sys.udp_overrun_nonfatal then set_value (bytes "overrun_nonfatal") (bytes "1") q else q in
    let q2 =
      if ltb_ℤ (pos 0) sys.udp_fifo_size
      then set_value (bytes "fifo_size") (itoa_ℤ sys.udp_fifo_size) q1
      else q1 in
    let q3 =
      if ltb_ℤ (pos 0) sys.udp_buffer_size
      then set_value (bytes "buffer_size") (itoa_ℤ sys.udp_buffer_size) q2
      else q2 in
    get_value-set_if sys.udp_reuse name (bytes "reuse") (bytes "1") q3
    ∙ choose _ _ _ (sys.udp_reuse && bytes "reuse" == name) (bytes "1") (
        get_value-set_if (ltb_ℤ (pos 0) sys.udp_buffer_size) name (bytes "buffer_size")
          (itoa_ℤ sys.udp_buffer_size) q2
        ∙ choose _ _ _ (ltb_ℤ (pos 0) sys.udp_buffer_size && bytes "buffer_size" == name)
            (itoa_ℤ sys.udp_buffer_size)
            (get_value-set_if (ltb_ℤ (pos 0) sys.udp_fifo_size) name (bytes "fifo_size")
                (itoa_ℤ sys.udp_fifo_size) q1
              ∙ choose _ _ _ (ltb_ℤ (pos 0) sys.udp_fifo_size && bytes "fifo_size" == name)
                  (itoa_ℤ sys.udp_fifo_size)
                  (get_value-set_if sys.udp_overrun_nonfatal name (bytes "overrun_nonfatal")
                      (bytes "1") q
                    ∙ choose _ _ _ (sys.udp_overrun_nonfatal && bytes "overrun_nonfatal" == name)
                        (bytes "1") refl)))
