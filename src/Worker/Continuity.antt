-- ===== src/Worker/Continuity.antt =====
-- internal/srtworker/continuity.go: the MPEG-TS continuity counter check. A packet is 188 bytes; the
-- masks and shifts of a byte are written as remainders and quotients by powers of two.
pub mod Errors
use neo_transcoder.Base.{
  ℕ, zero, suc, ◌+◌, ◌*◌, ◌/◌, ◌%◌, ◌≤◌, Bool, true, false, not, ◌&&◌, ◌||◌, Option, none, some,
  List, [], ◌∷◌, Bytes, leb, ltb, ◌==◌, nat_eq, if◌then◌else◌, Table, lookup, insert, length,
  get_or, take, drop,
}

abbrev pub packet_size : ℕ
packet_size = 188

-- The last counter of each PID.
abbrev pub Tracker : Type 0
Tracker = Table ℕ ℕ

-- uint16(packet[1]&0x1f)<<8 | uint16(packet[2])
unfoldable pub pid_of : Bytes → ℕ
pid_of packet = get_or packet 1 0 % 32 * 256 + get_or packet 2 0

-- (packet[3] >> 4) & 0x03
unfoldable pub adaptation_control : Bytes → ℕ
adaptation_control packet = get_or packet 3 0 / 16 % 4

unfoldable pub counter_of : Bytes → ℕ
counter_of packet = get_or packet 3 0 % 16

unfoldable pub has_discontinuity : Bytes → Bool
has_discontinuity packet =
    (adaptation_control packet == 3)
    && ltb 0 (get_or packet 4 0)
    && leb (get_or packet 4 0 + 5) (length packet)
    && leb 128 (get_or packet 5 0 % 256)

-- counter != (previous+1)&0x0f
unfoldable pub jumps : Option ℕ → Bool → ℕ → Bool
jumps none discontinuity counter = false
jumps (some previous) discontinuity counter =
    not discontinuity && not (counter == (previous + 1) % 16)

-- The body of the loop: the tracker after the packet, and the errors that it adds.
unfoldable pub observe_packet : Bytes → Tracker → Tracker × ℕ
observe_packet packet last =
    if not (get_or packet 0 0 == 0x47)
    then (last, 1)
    else if pid_of packet == 0x1fff
    then (last, 0)
    else if adaptation_control packet == 0
    then (last, 1)
    else if not (adaptation_control packet == 1 || adaptation_control packet == 3)
    then (last, 0)
    else (
      insert (pid_of packet) (counter_of packet) last,
      (if jumps (lookup (pid_of packet) last) (has_discontinuity packet) (counter_of packet)
          then 1
          else 0),
    )

-- The loop goes through the whole packets: as many rounds as fit into the data.
unfoldable pub observe_loop : ℕ → Bytes → Tracker → Tracker × ℕ
unfolding observe_packet
observe_loop zero input last = (last, 0)
observe_loop (suc rounds) input last =
    let (last', errors) = observe_packet (take packet_size input) last in
    let (final, more) = observe_loop rounds (drop packet_size input) last' in (final, errors + more)

unfoldable pub observe : Bytes → Tracker → Tracker × ℕ
unfolding observe_loop
observe input last =
    let (final, errors) = observe_loop (length input / packet_size) input last in
    (final, (if length input % packet_size == 0 then 0 else 1) + errors)
