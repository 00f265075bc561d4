-- ===== src/Relay/Consistent/OfRelays.antt =====
-- The operations on relays keep a store consistent.
use neo_transcoder.Base.{
  ℤ, ◌≡◌, ◌⊎◌, refl, sym, Bool, true, false, Option, none, some, Bytes, arith, ◌==◌, bytes_eq,
  bytes_beq_iff, Table, lookup, insert, delete, any_value, any_value-lookup, lookup-insert,
  lookup-delete, found-insert, found-delete, ap, ◌∙◌, ok, Option-cases, Bool-cases, inl, inr,
  Checked-cases,
}
use mathlib.Core.Path.{subst}
use neo_transcoder.Relay.Models.{Time, Relay, Client}
use neo_transcoder.Relay.Texts.{contains}
use neo_transcoder.Relay.Normalize.{Net, normalize_relay}
use neo_transcoder.Relay.Store.{
  Store, with_key, check_default, put_relay, store_relay, upsert_relay, rotate_relay_key,
  delete_relay, next_version,
}
use neo_transcoder.Relay.Consistent.{IsConsistent, HasDefault}

check_default-HasDefault :
    (clients : Table Bytes Client) (relay : Relay)
    → check_default clients relay ≡ ok tt
    → relay.allow_missing_stream_id ≡ true
    → HasDefault clients relay
unfolding check_default
check_default-HasDefault clients relay h on =
    elim (Option-cases (lookup relay.default_client_id clients)) [
      | inl missing ↦ ground (arith, missing)
      | inr (c, found) ↦ record {
        client = c;
        known = found;
        enabled = ground (arith, found);
        assigned = ground (arith, found);
      }
    ]

HasDefault-same :
    (clients : Table Bytes Client) (a b : Relay)
    → b.id ≡ a.id
    → b.default_client_id ≡ a.default_client_id
    → HasDefault clients a
    → HasDefault clients b
HasDefault-same clients a b ids defaults h = record {
  client = h.client;
  known = rw defaults h.known;
  enabled = h.enabled;
  assigned = rw ids h.assigned;
}

with_key-same :
    (old : Option Relay) (r : Relay)
    → ((with_key old r).0.id ≡ r.id)
      × ((with_key old r).0.default_client_id ≡ r.default_client_id)
      × ((with_key old r).0.allow_missing_stream_id ≡ r.allow_missing_stream_id)
unfolding with_key
with_key-same none r = (refl, refl, refl)
with_key-same (some old) r = ground arith

-- A relay that has its default client, put under its own ID.
put_relay-IsConsistent :
    (r : Relay) (now : Time) (s : Store)
    → (r.allow_missing_stream_id ≡ true → HasDefault s.clients r)
    → IsConsistent s
    → IsConsistent (put_relay r now s)
unfolding put_relay
put_relay-IsConsistent r now s default h = record {
  relay_keys = λ id r' e. elim (found-insert r.id id r r' s.relays e) [
    | inl (same, new) ↦ sym (ap (λ (x : Relay). x.id) new) ∙ same
    | inr (old, differs) ↦ h.relay_keys id r' old
  ];
  client_keys = h.client_keys;
  defaults = λ id r' e on. elim (found-insert r.id id r r' s.relays e) [
    | inl (same, new) ↦
        subst (HasDefault s.clients) new
          (default (ap (λ (x : Relay). x.allow_missing_stream_id) new ∙ on))
    | inr (old, differs) ↦ h.defaults id r' old on
  ];
  assignments = λ id c e relay_id named. elim (Bool-cases (r.id == relay_id)) [
    | inl same ↦ (r, ground (arith, lookup-insert r.id relay_id r s.relays))
    | inr differs ↦
        let (r', found) = h.assignments id c e relay_id named in
        (r', ground (arith, lookup-insert r.id relay_id r s.relays, found))
  ];
}

store_relay-cases :
    (key : Bytes → ℤ → Bytes) (saved : Bool) (now : Time) (n : Relay) (s : Store)
    → ((store_relay key saved now n s).0 ≡ s)
      ⊎ ((check_default s.clients n ≡ ok tt)
          × ((store_relay key saved now n s).0
              ≡ put_relay (with_key (lookup n.id s.relays) n).0 now s))
unfolding store_relay
store_relay-cases key saved now n s = ground arith

pub store_relay-IsConsistent :
    (key : Bytes → ℤ → Bytes) (saved : Bool) (now : Time) (n : Relay) (s : Store)
    → IsConsistent s
    → IsConsistent (store_relay key saved now n s).0
store_relay-IsConsistent key saved now n s h = elim (store_relay-cases key saved now n s) [
  | inl same ↦ rw same h
  | inr (checked, put) ↦
      let (ids, defaults, allows) = with_key-same (lookup n.id s.relays) n in
      rw put (
        put_relay-IsConsistent (with_key (lookup n.id s.relays) n).0 now s
          (λ on.
            HasDefault-same s.clients n (with_key (lookup n.id s.relays) n).0 ids defaults
              (check_default-HasDefault s.clients n checked (sym allows ∙ on)))
          h)
]

pub upsert_relay-IsConsistent :
    (key : Bytes → ℤ → Bytes) (net : Net) (saved : Bool) (now : Time) (given : Relay) (s : Store)
    → IsConsistent s
    → IsConsistent (upsert_relay key net saved now given s).0
unfolding upsert_relay
upsert_relay-IsConsistent key net saved now given s h =
    elim (Checked-cases (normalize_relay net given)) [
      | inl (e, refused) ↦ rw (refused, upsert_relay) h
      | inr (n, normal) ↦ rw (normal, upsert_relay) (store_relay-IsConsistent key saved now n s h)
    ]

-- A relay with the same ID and default client in the place of another one.
replace_relay-IsConsistent :
    (id : Bytes) (old new : Relay) (s : Store)
    → lookup id s.relays ≡ some old
    → new.id ≡ old.id
    → new.default_client_id ≡ old.default_client_id
    → new.allow_missing_stream_id ≡ old.allow_missing_stream_id
    → IsConsistent s
    → IsConsistent (record s { relays = insert id new s.relays })
replace_relay-IsConsistent id old new s found ids defaults allows h = record {
  relay_keys = λ j r e. elim (found-insert id j new r s.relays e) [
    | inl (same, is_new) ↦
        sym (ap (λ (x : Relay). x.id) is_new) ∙ ids ∙ h.relay_keys id old found ∙ same
    | inr (before, differs) ↦ h.relay_keys j r before
  ];
  client_keys = h.client_keys;
  defaults = λ j r e on. elim (found-insert id j new r s.relays e) [
    | inl (same, is_new) ↦ subst (HasDefault s.clients) is_new (
        HasDefault-same s.clients old new ids defaults (
          h.defaults id old found
            (sym allows ∙ ap (λ (x : Relay). x.allow_missing_stream_id) is_new ∙ on)))
    | inr (before, differs) ↦ h.defaults j r before on
  ];
  assignments = λ j c e relay_id named. elim (Bool-cases (id == relay_id)) [
    | inl same ↦ (new, ground (arith, lookup-insert id relay_id new s.relays))
    | inr differs ↦
        let (r, before) = h.assignments j c e relay_id named in
        (r, ground (arith, lookup-insert id relay_id new s.relays, before))
  ];
}

rotate_relay_key-cases :
    (key : Bytes → ℤ → Bytes) (id : Bytes) (saved : Bool) (now : Time) (relay : Relay) (s : Store)
    → lookup id s.relays ≡ some relay
    → ((rotate_relay_key key id saved now s).0 ≡ s)
      ⊎ ((rotate_relay_key key id saved now s).0 ≡ record s {
        relays = insert id (record relay { key_version = next_version relay.key_version }) s.relays;
      })
unfolding rotate_relay_key
rotate_relay_key-cases key id saved now relay s found = ground (arith, found)

pub rotate_relay_key-IsConsistent :
    (key : Bytes → ℤ → Bytes) (id : Bytes) (saved : Bool) (now : Time) (s : Store)
    → IsConsistent s
    → IsConsistent (rotate_relay_key key id saved now s).0
unfolding rotate_relay_key
rotate_relay_key-IsConsistent key id saved now s h = elim (Option-cases (lookup id s.relays)) [
  | inl missing ↦ rw (missing, rotate_relay_key) h
  | inr (relay, found) ↦ elim (rotate_relay_key-cases key id saved now relay s found) [
    | inl same ↦ rw same h
    | inr rotated ↦ rw rotated (
        replace_relay-IsConsistent id relay
          (record relay { key_version = next_version relay.key_version }) s found refl refl refl h)
  ]
]

delete_relay-cases :
    (id : Bytes) (saved : Bool) (now : Time) (s : Store)
    → ((delete_relay id saved now s).0 ≡ s)
      ⊎ ((any_value (λ client. contains client.allowed_relay_ids id) s.clients ≡ false)
          × ((delete_relay id saved now s).0
              ≡ record s { relays = delete id s.relays; states = delete id s.states }))
unfolding delete_relay
delete_relay-cases id saved now s = ground arith

pub delete_relay-IsConsistent :
    (id : Bytes) (saved : Bool) (now : Time) (s : Store)
    → IsConsistent s
    → IsConsistent (delete_relay id saved now s).0
delete_relay-IsConsistent id saved now s h = elim (delete_relay-cases id saved now s) [
  | inl same ↦ rw same h
  | inr (unassigned, deleted) ↦ rw deleted (record {
    relay_keys = λ j r e. h.relay_keys j r (found-delete id j r s.relays e).0;
    client_keys = h.client_keys;
    defaults = λ j r e on. h.defaults j r (found-delete id j r s.relays e).0 on;
    assignments = λ j c e relay_id named.
        let (r, before) = h.assignments j c e relay_id named in
        (
          r,
          ground (
            arith,
            lookup-delete id relay_id s.relays,
            bytes_beq_iff id relay_id,
            before,
            named,
            any_value-lookup (λ client. contains client.allowed_relay_ids id) s.clients j c
                unassigned e,
          ),
        );
  })
]
