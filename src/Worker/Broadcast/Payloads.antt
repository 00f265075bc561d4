-- ===== src/Worker/Broadcast/Payloads.antt =====
-- The split of the received bytes into payloads loses, repeats and reorders nothing.
use neo_transcoder.Base.{
  ℕ, zero, suc, ◌+◌, ◌/◌, ◌<◌, ◌≡◌, refl, ap, sym, ◌∙◌, Option, none, some, List, [], ◌∷◌, ◌++◌,
  Bytes, arith, leb, leb→le, length, take, drop, All, All-append, take-append-drop, length-take,
  length-drop, length-append, Bool-cases, inl, inr,
}
use mathlib.Core.List.{append_assoc, append-nil}
use neo_transcoder.Worker.Continuity.{observe}
use neo_transcoder.Worker.Broadcast.{Input, split_payloads, receive}

-- The bytes of a list of datagrams or payloads, one after another.
abbrev pub joined : List Bytes → Bytes
joined [] = []
joined (b ∷ bs) = b ++ joined bs

joined-append : (xs ys : List Bytes) → joined (xs ++ ys) ≡ joined xs ++ joined ys
joined-append [] ys = refl
joined-append (x ∷ xs) ys = rw (joined-append xs ys) (sym (append_assoc x (joined xs) (joined ys)))

-- The payloads and the rest of a split: each payload is full, the rest is shorter than one.
pub record IsSplit (payload_size : ℕ) (input : Bytes) (packets : List Bytes) (left : Bytes)
    : Type 0 where
  pub whole : joined packets ++ left ≡ input
  pub full : All (λ p. length p ≡ payload_size) packets
  pub short : length left < payload_size

split_payloads-IsSplit :
    (fuel n : ℕ) (pending : Bytes)
    → 0 < n
    → length pending < fuel
    → (packets : List Bytes) × (left : Bytes) × (split_payloads fuel n pending
        ≡ some (packets, left))
      × IsSplit n pending packets left
unfolding split_payloads
split_payloads-IsSplit zero n pending pos_n enough = absurd (omega arith)
split_payloads-IsSplit (suc fuel) n pending pos_n enough =
    elim (Bool-cases (leb n (length pending))) [
      | inl more ↦
          let le = leb→le n (length pending) more in
          let (packets, left, e, s) =
            split_payloads-IsSplit fuel n (drop n pending) pos_n
              (omega (arith, length-drop n pending)) in
          (
            take n pending ∷ packets,
            left,
            rw (more, e),
            record {
              whole =
                  append_assoc (take n pending) (joined packets) left
                  ∙ ap (λ t. take n pending ++ t) s.whole
                  ∙ take-append-drop n pending;
              full = (omega (arith, length-take n pending), s.full);
              short = s.short;
            },
          )
      | inr done ↦ ([], pending, rw done, record { whole = refl; full = tt; short = ground arith })
    ]

-- The input loop over a list of datagrams: all payloads that it broadcasts, in order.
pub receive_all : ℕ → List Bytes → Input → Option (Input × List Bytes)
receive_all payload_size [] i = some (i, [])
receive_all payload_size (d ∷ ds) i = elim (receive payload_size d i) [
  | none ↦ none
  | some (i', packets) ↦ elim (receive_all payload_size ds i') [
    | none ↦ none
    | some (final, more) ↦ some (final, packets ++ more)
  ]
]

receive-IsSplit :
    (n : ℕ) (d : Bytes) (i : Input)
    → 0 < n
    → (i' : Input) × (packets : List Bytes) × (receive n d i ≡ some (i', packets))
      × IsSplit n (i.pending ++ d) packets i'.pending
      × (i'.input_bytes ≡ i.input_bytes + length d)
unfolding receive
receive-IsSplit n d i pos_n =
    let (packets, left, e, s) =
      split_payloads-IsSplit (suc (length (i.pending ++ d))) n (i.pending ++ d) pos_n
        (omega arith) in
    let (tracker, errors) = observe d i.continuity in
    let i' : Input = record {
      pending = left;
      continuity = tracker;
      input_bytes = i.input_bytes + length d;
      input_packets = i.input_packets + length d / 188;
      continuity_errors = i.continuity_errors + errors;
    } in
    (i', packets, rw (e, receive), s, refl)

-- For a positive payload size the input loop always gets through its datagrams: what it broadcasts,
-- followed by what it still holds, is exactly what it held before and the datagrams' bytes in order;
-- every payload has exactly the payload size, less than one payload is held back, and the byte counter
-- has grown by the length of the datagrams.
pub receive_all_exact :
    (n : ℕ) (ds : List Bytes) (i : Input)
    → 0 < n
    → length i.pending < n
    → (i' : Input) × (packets : List Bytes) × (receive_all n ds i ≡ some (i', packets))
      × IsSplit n (i.pending ++ joined ds) packets i'.pending
      × (i'.input_bytes ≡ i.input_bytes + length (joined ds))
unfolding receive_all
receive_all_exact n [] i pos_n h =
    (i, [], refl, record { whole = sym (append-nil i.pending); full = tt; short = h }, omega arith)
receive_all_exact n (d ∷ ds) i pos_n h =
    let (i', packets, e, s, bytes) = receive-IsSplit n d i pos_n in
    let (final, more, e', s', bytes') = receive_all_exact n ds i' pos_n s.short in
    (
      final,
      packets ++ more,
      rw (e, receive_all, e'),
      record {
        whole = rw (joined-append packets more) (
            append_assoc (joined packets) (joined more) final.pending
            ∙ ap (λ t. joined packets ++ t) s'.whole
            ∙ sym (append_assoc (joined packets) i'.pending (joined ds))
            ∙ ap (λ t. t ++ joined ds) s.whole
            ∙ append_assoc i.pending d (joined ds));
        full = All-append packets more (λ p. length p ≡ n) s.full s'.full;
        short = s'.short;
      },
      omega (arith, bytes, bytes', length-append d (joined ds)),
    )
