-- ===== src/Worker/Continuity/Errors.antt =====
-- What the continuity check counts.
use neo_transcoder.Base.{
  ◌⊎◌, map, All, ℕ, zero, suc, ◌+◌, ◌*◌, ◌/◌, ◌%◌, ◌≤◌, ◌≡◌, ◌≢◌, refl, ap, false, not, some, List,
  [], ◌∷◌, ◌++◌, Bytes, arith, ◌==◌, nat_eq, nat_beq_iff, lookup, insert, lookup-insert, length,
  get_or, take, drop, length-append, one_if,
}
use neo_transcoder.Worker.Broadcast.Payloads.{joined}
use neo_transcoder.Worker.Continuity.{
  packet_size, Tracker, pid_of, adaptation_control, counter_of, has_discontinuity, jumps,
  observe_packet, observe_loop, observe,
}

one_error : (packet : Bytes) (last : Tracker) → (observe_packet packet last).1 ≤ 1
unfolding observe_packet
one_error packet last = ground arith

loop_errors :
    (rounds : ℕ) (input : Bytes) (last : Tracker) → (observe_loop rounds input last).1 ≤ rounds
unfolding observe_loop
loop_errors zero input last = omega arith
loop_errors (suc n) input last = omega (
  arith,
  one_error (take packet_size input) last,
  loop_errors n (drop packet_size input) (observe_packet (take packet_size input) last).0,
)

-- A datagram adds at most one error for each whole packet, and one for a length that is no multiple of
-- 188.
pub observe-le :
    (input : Bytes) (last : Tracker) → (observe input last).1 ≤ length input / packet_size + 1
unfolding observe
observe-le input last = ground (arith, loop_errors (length input / packet_size) input last)

-- A packet with a payload, on the PID p, that marks no discontinuity.
pub record IsPayload (p : ℕ) (packet : Bytes) : Type 0 where
  pub sized : length packet ≡ packet_size
  pub synced : get_or packet 0 0 ≡ 0x47
  pub on_pid : pid_of packet ≡ p
  pub control : (adaptation_control packet ≡ 1) ⊎ (adaptation_control packet ≡ 3)
  pub continuous : has_discontinuity packet ≡ false

-- An independent description: how many counters of a sequence are not one more, modulo 16, than the
-- counter before them.
abbrev pub breaks : ℕ → List ℕ → ℕ
breaks c [] = 0
breaks c (d ∷ ds) = one_if (not (d == (c + 1) % 16)) + breaks d ds

observe_payload :
    (p c : ℕ) (packet : Bytes) (last : Tracker)
    → p ≢ 0x1fff
    → IsPayload p packet
    → lookup p last ≡ some c
    → observe_packet packet last
      ≡ (insert p (counter_of packet) last, one_if (not (counter_of packet == (c + 1) % 16)))
unfolding observe_packet jumps
observe_payload p c packet last real h before =
    rw (h.synced, h.on_pid, before, h.continuous) (ground (arith, h.control))

take-append_exact {ℓ} :
    {A : Type ℓ} (n : ℕ) (xs ys : List A) → length xs ≡ n → take n (xs ++ ys) ≡ xs
take-append_exact zero [] ys e = refl
take-append_exact zero (x ∷ xs) ys e = absurd (omega arith)
take-append_exact (suc n) [] ys e = absurd (omega arith)
take-append_exact (suc n) (x ∷ xs) ys e = ap (λ t. x ∷ t) (take-append_exact n xs ys (omega arith))

drop-append_exact {ℓ} :
    {A : Type ℓ} (n : ℕ) (xs ys : List A) → length xs ≡ n → drop n (xs ++ ys) ≡ ys
drop-append_exact zero [] ys e = refl
drop-append_exact zero (x ∷ xs) ys e = absurd (omega arith)
drop-append_exact (suc n) [] ys e = absurd (omega arith)
drop-append_exact (suc n) (x ∷ xs) ys e = drop-append_exact n xs ys (omega arith)

lookup-insert_self : (p c : ℕ) (last : Tracker) → lookup p (insert p c last) ≡ some c
lookup-insert_self p c last = ground (arith, lookup-insert p p c last, nat_beq_iff p p)

loop_payloads :
    (p c : ℕ) (packets : List Bytes) (last : Tracker)
    → p ≢ 0x1fff
    → All (IsPayload p) packets
    → lookup p last ≡ some c
    → (observe_loop (length packets) (joined packets) last).1 ≡ breaks c (map counter_of packets)
unfolding observe_loop
loop_payloads p c [] last real h before = refl
loop_payloads p c (x ∷ xs) last real (h, hs) before =
    rw
      (
        take-append_exact packet_size x (joined xs) h.sized,
        drop-append_exact packet_size x (joined xs) h.sized,
        observe_payload p c x last real h before,
      )
      (ap (λ e. one_if (not (counter_of x == (c + 1) % 16)) + e)
        (loop_payloads p (counter_of x) xs (insert p (counter_of x) last) real hs
          (lookup-insert_self p (counter_of x) last)))

length-joined :
    (p : ℕ) (packets : List Bytes)
    → All (IsPayload p) packets
    → length (joined packets) ≡ packet_size * length packets
length-joined p [] h = refl
length-joined p (x ∷ xs) (h, hs) =
    omega (arith, h.sized, length-append x (joined xs), length-joined p xs hs)

-- A datagram of whole packets that all carry payload on one PID, whose last counter is known, and mark
-- no discontinuity, adds exactly as many errors as there are counters that do not follow the one
-- before by one modulo 16.
pub observe-breaks :
    (p c : ℕ) (packets : List Bytes) (last : Tracker)
    → p ≢ 0x1fff
    → All (IsPayload p) packets
    → lookup p last ≡ some c
    → (observe (joined packets) last).1 ≡ breaks c (map counter_of packets)
unfolding observe
observe-breaks p c packets last real h before =
    let rounds : length (joined packets) / packet_size ≡ length packets =
      omega (arith, length-joined p packets h) in
    let aligned : length (joined packets) % packet_size ≡ 0 =
      omega (arith, length-joined p packets h) in
    rw (rounds, aligned) (omega (arith, loop_payloads p c packets last real h before))
