-- ===== src/Relay/Audit/Newest.antt =====
-- The ring of `readAuditFile` holds the newest matches.
use Prim.Native.Nat.{min}
use mathlib.Core.List.{reverse-cons, append-nil, append_assoc}
use mathlib.Core.Path.{subst}
use native.Mathlib.Nat.{mod-eq_of_lt, mod-eq-sub-mod}
use neo_transcoder.Base.{
  ℕ, zero, suc, ◌+◌, ◌-◌, ◌%◌, ◌≤◌, ◌<◌, ◌≡◌, refl, sym, ap, ◌∙◌, none, some, List, [], ◌∷◌, ◌++◌,
  reverse, arith, leb, ltb, if◌then◌else◌, Bool-cases, Option-cases, inl, inr, length, set, get_or,
  replicate, take, take-nil, length-set, length-replicate, get_or-set_self, get_or-set_ne,
}
use neo_transcoder.Relay.Sessions.{AuditEvent}
use neo_transcoder.Relay.Audit.{
  AuditFilter, Line, Ring, no_event, matching, put, scan_lines, position, read_ring,
  read_audit_file,
}

mod_once : (a n : ℕ) → a < n + n → a % n ≡ (if leb n a then a - n else a)
mod_once a n h = elim (Bool-cases (leb n a)) [
  | inl wraps ↦ rw wraps (mod-eq-sub-mod (ground arith) ∙ mod-eq_of_lt (ground arith))
  | inr fits ↦ rw fits (mod-eq_of_lt (ground arith))
]

-- The index of an element of the ring, without the remainder.
position_lem :
    (r : Ring) (i : ℕ)
    → i < r.count
    → r.start < r.count
    → position r i ≡ (if leb (i + 1) r.start then r.start - 1 - i else r.start + r.count - 1 - i)
unfolding position
position_lem r i h k = mod_once (r.start + r.count - 1 - i) r.count (omega arith) ∙ ground arith

position-lt : (r : Ring) (i : ℕ) → i < r.count → r.start < r.count → position r i < r.count
position-lt r i h k = ground (arith, position_lem r i)

-- What the ring holds of the matches so far, given newest first.
record IsRing (limit : ℕ) (matches : List AuditEvent) (r : Ring) : Type 0 where
  size : length r.ring ≡ limit
  count : r.count ≡ min limit (length matches)
  start_filling : r.count < limit → r.start ≡ 0
  start_full : r.count ≡ limit → r.start < limit
  holds : (i : ℕ) → i < r.count → get_or r.ring (position r i) no_event ≡ get_or matches i no_event

ring_empty :
    (limit : ℕ)
    → 0 < limit
    → IsRing limit [] (record { ring = replicate limit no_event; count = 0; start = 0 })
ring_empty limit h = record {
  size = length-replicate limit no_event;
  count = omega arith;
  start_filling = λ _. refl;
  start_full = λ e. absurd (omega arith);
  holds = λ i lt. absurd (omega arith);
}

module _ (limit : ℕ) (e : AuditEvent) (matches : List AuditEvent) (r : Ring)
    (h : IsRing limit matches r) where
  put_filling :
      r.count < limit
      → put limit e r ≡ record r { ring = set r.ring r.count e; count = r.count + 1 }
  unfolding put
  put_filling lt = ground arith

  put_full :
      r.count ≡ limit
      → put limit e r ≡ record r { ring = set r.ring r.start e; start = (r.start + 1) % limit }
  unfolding put
  put_full eq = ground arith

  -- While the ring fills, the newest match is its last element.
  filling_holds :
      (i : ℕ)
      → r.count < limit
      → i < r.count + 1
      → get_or
          (set r.ring r.count e)
          (position (record r { ring = set r.ring r.count e; count = r.count + 1 }) i)
          no_event
        ≡ get_or (e ∷ matches) i no_event
  filling_holds zero lt k =
      ap (λ n. get_or (set r.ring r.count e) n no_event)
        (position_lem (record r { ring = set r.ring r.count e; count = r.count + 1 }) 0
            (omega arith) (omega (arith, h.start_filling lt))
          ∙ ground (arith, h.start_filling lt))
      ∙ get_or-set_self r.ring r.count e no_event (omega (arith, h.size))
  filling_holds (suc i) lt k =
      ap (λ n. get_or (set r.ring r.count e) n no_event)
        (position_lem (record r { ring = set r.ring r.count e; count = r.count + 1 }) (suc i)
            (omega arith) (omega (arith, h.start_filling lt))
          ∙ ground (arith, h.start_filling lt, position_lem r i))
      ∙ get_or-set_ne r.ring r.count (position r i) e no_event
          (λ same. omega (arith, position-lt r i (omega arith) (omega (arith, h.start_filling lt))))
      ∙ h.holds i (omega arith)

  filling-IsRing : r.count < limit → IsRing limit (e ∷ matches) (put limit e r)
  filling-IsRing lt = rw (put_filling lt) (record {
    size = length-set r.ring r.count e ∙ h.size;
    count = omega (arith, h.count);
    start_filling = λ k. h.start_filling lt;
    start_full = λ k. omega (arith, h.start_filling lt);
    holds = λ i k. filling_holds i lt k;
  })

  next_start :
      r.count ≡ limit → (r.start + 1) % limit ≡ (if leb limit (r.start + 1) then 0 else r.start + 1)
  next_start eq =
      mod_once (r.start + 1) limit (omega (arith, h.start_full eq))
      ∙ ground (arith, h.start_full eq)

  -- Once it is full, the newest match takes the place of the oldest one.
  full_holds :
      (i : ℕ)
      → r.count ≡ limit
      → i < r.count
      → get_or
          (set r.ring r.start e)
          (position (record r { ring = set r.ring r.start e; start = (r.start + 1) % limit }) i)
          no_event
        ≡ get_or (e ∷ matches) i no_event
  full_holds zero eq k =
      ap (λ n. get_or (set r.ring r.start e) n no_event)
        (position_lem (record r { ring = set r.ring r.start e; start = (r.start + 1) % limit }) 0
            (omega arith) (ground (arith, h.start_full eq, next_start eq))
          ∙ ground (arith, h.start_full eq, next_start eq))
      ∙ get_or-set_self r.ring r.start e no_event (omega (arith, h.size, h.start_full eq))
  full_holds (suc i) eq k =
      ap (λ n. get_or (set r.ring r.start e) n no_event)
        (position_lem (record r { ring = set r.ring r.start e; start = (r.start + 1) % limit })
            (suc i) (omega arith) (ground (arith, h.start_full eq, next_start eq))
          ∙ ground (arith, h.start_full eq, next_start eq, position_lem r i))
      ∙ get_or-set_ne r.ring r.start (position r i) e no_event
          (λ same. ground (arith, h.start_full eq, position_lem r i))
      ∙ h.holds i (omega arith)

  full-IsRing : r.count ≡ limit → IsRing limit (e ∷ matches) (put limit e r)
  full-IsRing eq = rw (put_full eq) (record {
    size = length-set r.ring r.start e ∙ h.size;
    count = omega (arith, h.count);
    start_filling = λ k. absurd (omega arith);
    start_full = λ k. ground (arith, h.start_full eq, next_start eq);
    holds = λ i k. full_holds i eq k;
  })

  put-IsRing : IsRing limit (e ∷ matches) (put limit e r)
  put-IsRing = elim (Bool-cases (ltb r.count limit)) [
    | inl filling ↦ filling-IsRing (ground arith)
    | inr is_full ↦ full-IsRing (ground (arith, h.count))
  ]

-- The matches of a file's lines, oldest first.
unfoldable pub matches_of : AuditFilter → List Line → List AuditEvent
matches_of filter [] = []
matches_of filter (line ∷ lines) =
    let rest = matches_of filter lines in
    elim (matching filter line) [ none ↦ rest | some event ↦ event ∷ rest ]

scan_lines-IsRing :
    (filter : AuditFilter) (limit : ℕ) (lines : List Line) (matches : List AuditEvent) (r : Ring)
    → IsRing limit matches r
    → IsRing limit (reverse (matches_of filter lines) ++ matches) (scan_lines filter limit lines r)
unfolding scan_lines matches_of
scan_lines-IsRing filter limit [] matches r h = h
scan_lines-IsRing filter limit (line ∷ lines) matches r h =
    elim (Option-cases (matching filter line)) [
      | inl skipped ↦
          rw (skipped, matches_of, scan_lines) (scan_lines-IsRing filter limit lines matches r h)
      | inr (event, found) ↦
          rw (found, matches_of, scan_lines)
            (subst (λ ms. IsRing limit ms (scan_lines filter limit lines (put limit event r)))
              (sym (
                ap (λ t. t ++ matches) (reverse-cons event (matches_of filter lines))
                ∙ append_assoc (reverse (matches_of filter lines)) (event ∷ []) matches))
              (scan_lines-IsRing filter limit lines (event ∷ matches) (put limit event r)
                (put-IsRing limit event matches r h)))
    ]

-- The loop over the ring reads what the ring holds.
read_ring_lem :
    (r : Ring) (rounds index : ℕ) (matches : List AuditEvent)
    → rounds ≤ length matches
    → ((j : ℕ)
        → j < rounds
        → get_or r.ring (position r (index + j)) no_event ≡ get_or matches j no_event)
    → read_ring r rounds index ≡ take rounds matches
unfolding read_ring
read_ring_lem r zero index matches enough held = refl
read_ring_lem r (suc rounds) index [] enough held = absurd (omega arith)
read_ring_lem r (suc rounds) index (m ∷ matches) enough held =
    let here : index + 0 ≡ index = omega arith in
    rw (
      sym (ap (λ n. get_or r.ring (position r n) no_event) here) ∙ held 0 (omega arith),
      read_ring_lem r rounds (index + 1) matches (omega arith) (λ j lt.
          let shift : index + 1 + j ≡ index + suc j = omega arith in
          ap (λ n. get_or r.ring (position r n) no_event) shift ∙ held (suc j) (omega arith)),
    )

take-min {ℓ} : {A : Type ℓ} (n : ℕ) (xs : List A) → take (min n (length xs)) xs ≡ take n xs
take-min zero xs = let e : min 0 (length xs) ≡ 0 = omega arith in ap (λ k. take k xs) e
take-min (suc n) [] = take-nil (min (suc n) 0)
take-min (suc n) (x ∷ xs) =
    let e : min (suc n) (suc (length xs)) ≡ suc (min n (length xs)) = omega arith in
    ap (λ k. take k (x ∷ xs)) e ∙ ap (λ t. x ∷ t) (take-min n xs)

-- A file is read as the newest of its matching events, the latest first, and as many as there is room
-- for.
pub read_audit_file-newest :
    (filter : AuditFilter) (limit : ℕ) (lines : List Line)
    → 0 < limit
    → read_audit_file filter limit lines ≡ take limit (reverse (matches_of filter lines))
unfolding read_audit_file
read_audit_file-newest filter limit lines some_room =
    let r =
      scan_lines filter limit lines
        (record { ring = replicate limit no_event; count = 0; start = 0 }) in
    let h : IsRing limit (reverse (matches_of filter lines)) r =
      subst (λ ms. IsRing limit ms r) (append-nil (reverse (matches_of filter lines)))
        (scan_lines-IsRing filter limit lines [] _ (ring_empty limit some_room)) in
    read_ring_lem r r.count 0 (reverse (matches_of filter lines)) (omega (arith, h.count)) (λ j lt.
      let e : 0 + j ≡ j = omega arith in
      ap (λ n. get_or r.ring (position r n) no_event) e ∙ h.holds j lt)
    ∙ ap (λ n. take n (reverse (matches_of filter lines))) h.count
    ∙ take-min limit (reverse (matches_of filter lines))
