-- ===== src/Relay/Texts.antt =====
-- Lists of texts, as internal/srtrelay/store.go sorts and searches them.
use neo_transcoder.Base.{
  ◌≡◌, refl, Bool, true, false, ◌||◌, ◌&&◌, List, [], ◌∷◌, Bytes, arith, ltb, ◌==◌, nat_eq,
  bytes_eq, bytes_beq_iff, if◌then◌else◌,
}

-- `contains`
unfoldable pub contains : List Bytes → Bytes → Bool
contains [] value = false
contains (item ∷ items) value =
    let rest = contains items value in if item == value then true else rest

-- Go's order of texts, by bytes.
unfoldable pub is_before : Bytes → Bytes → Bool
is_before [] [] = false
is_before [] (d ∷ t) = true
is_before (c ∷ s) [] = false
is_before (c ∷ s) (d ∷ t) = ltb c d || (c == d && is_before s t)

put_sorted : Bytes → List Bytes → List Bytes
put_sorted value [] = value ∷ []
put_sorted value (item ∷ items) =
    let rest = put_sorted value items in
    if is_before item value then item ∷ rest else value ∷ item ∷ items

-- sort.Strings
unfoldable pub sort_texts : List Bytes → List Bytes
unfolding put_sorted
sort_texts [] = []
sort_texts (value ∷ more) = put_sorted value (sort_texts more)

-- The keys of the set that a loop over the texts fills, each once.
unfoldable pub distinct : List Bytes → List Bytes
distinct [] = []
distinct (value ∷ more) =
    let rest = distinct more in if contains rest value then rest else value ∷ rest

contains-put_sorted :
    (value : Bytes) (items : List Bytes) (x : Bytes)
    → contains (put_sorted value items) x ≡ contains (value ∷ items) x
unfolding contains put_sorted
contains-put_sorted value [] x = refl
contains-put_sorted value (item ∷ items) x = ground (arith, contains-put_sorted value items x)

pub contains-sort_texts :
    (texts : List Bytes) (x : Bytes) → contains (sort_texts texts) x ≡ contains texts x
unfolding contains sort_texts
contains-sort_texts [] x = refl
contains-sort_texts (value ∷ more) x =
    ground (arith, contains-put_sorted value (sort_texts more) x, contains-sort_texts more x)

pub contains-distinct :
    (texts : List Bytes) (x : Bytes) → contains (distinct texts) x ≡ contains texts x
unfolding contains distinct
contains-distinct [] x = refl
contains-distinct (value ∷ more) x =
    ground (arith, contains-distinct more x, contains-distinct more value, bytes_beq_iff value x)
