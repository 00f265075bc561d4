-- ===== src/Relay/Consistent/OfKeys.antt =====
-- The rotation of a client's key, and the deletion of a client, keep a store consistent.
use neo_transcoder.Base.{
  ℤ, ◌≡◌, ◌⊎◌, refl, sym, ap, ◌∙◌, Bool, false, ◌&&◌, some, List, Bytes, arith, ◌==◌, bytes_eq,
  nat_eq, bytes_beq_iff, lookup, insert, delete, any_value, any_value-lookup, lookup-insert,
  lookup-delete, found-insert, found-delete, Option-cases, Bool-cases, inl, inr,
}
use neo_transcoder.Relay.Models.{Time, Client}
use neo_transcoder.Relay.Texts.{contains}
use neo_transcoder.Relay.Store.{Store, next_version}
use neo_transcoder.Relay.Credentials.{rotate_client_key, delete_client}
use neo_transcoder.Relay.Consistent.{IsConsistent}

-- A client with the same ID, relays and state in the place of another one.
replace_client-IsConsistent :
    (id : Bytes) (old new : Client) (s : Store)
    → lookup id s.clients ≡ some old
    → new.id ≡ old.id
    → new.enabled ≡ old.enabled
    → new.allowed_relay_ids ≡ old.allowed_relay_ids
    → IsConsistent s
    → IsConsistent (record s { clients = insert id new s.clients })
replace_client-IsConsistent id old new s found ids enabled allowed h = record {
  relay_keys = h.relay_keys;
  client_keys = λ j c e. elim (found-insert id j new c s.clients e) [
    | inl (same, is_new) ↦
        sym (ap (λ (x : Client). x.id) is_new) ∙ ids ∙ h.client_keys id old found ∙ same
    | inr (before, differs) ↦ h.client_keys j c before
  ];
  defaults = λ j r e on.
      let d = h.defaults j r e on in
      elim (Bool-cases (id == r.default_client_id)) [
        | inl same ↦ record {
          client = new;
          known = ground (arith, lookup-insert id r.default_client_id new s.clients);
          enabled = ground (arith, bytes_beq_iff id r.default_client_id, d.known, d.enabled, found);
          assigned =
              ground (arith, bytes_beq_iff id r.default_client_id, d.known, d.assigned, found);
        }
        | inr differs ↦ record {
          client = d.client;
          known = ground (arith, lookup-insert id r.default_client_id new s.clients, d.known);
          enabled = d.enabled;
          assigned = d.assigned;
        }
      ];
  assignments = λ j c e relay_id named. elim (found-insert id j new c s.clients e) [
    | inl (same, is_new) ↦ h.assignments id old found relay_id (
        ap (λ (a : List Bytes). contains a relay_id)
          (sym allowed ∙ ap (λ (x : Client). x.allowed_relay_ids) is_new)
        ∙ named)
    | inr (before, differs) ↦ h.assignments j c before relay_id named
  ];
}

rotate_client_key-cases :
    (key : Bytes → ℤ → Bytes) (id : Bytes) (saved : Bool) (now : Time) (c : Client) (s : Store)
    → lookup id s.clients ≡ some c
    → ((rotate_client_key key id saved now s).0 ≡ s)
      ⊎ ((rotate_client_key key id saved now s).0 ≡ record s {
        clients =
            insert id
              (record c { key_version = next_version c.key_version; updated_at = now })
              s.clients;
      })
unfolding rotate_client_key
rotate_client_key-cases key id saved now c s found = ground (arith, found)

pub rotate_client_key-IsConsistent :
    (key : Bytes → ℤ → Bytes) (id : Bytes) (saved : Bool) (now : Time) (s : Store)
    → IsConsistent s
    → IsConsistent (rotate_client_key key id saved now s).0
unfolding rotate_client_key
rotate_client_key-IsConsistent key id saved now s h = elim (Option-cases (lookup id s.clients)) [
  | inl missing ↦ rw (missing, rotate_client_key) h
  | inr (c, found) ↦ elim (rotate_client_key-cases key id saved now c s found) [
    | inl same ↦ rw same h
    | inr rotated ↦ rw rotated (
        replace_client-IsConsistent id c
          (record c { key_version = next_version c.key_version; updated_at = now }) s found refl
          refl refl h)
  ]
]

delete_client-cases :
    (id : Bytes) (saved : Bool) (s : Store)
    → ((delete_client id saved s).0 ≡ s)
      ⊎ ((any_value
              (λ relay. relay.allow_missing_stream_id && relay.default_client_id == id)
              s.relays
            ≡ false)
          × ((delete_client id saved s).0 ≡ record s { clients = delete id s.clients }))
unfolding delete_client
delete_client-cases id saved s = ground arith

pub delete_client-IsConsistent :
    (id : Bytes) (saved : Bool) (s : Store)
    → IsConsistent s
    → IsConsistent (delete_client id saved s).0
delete_client-IsConsistent id saved s h = elim (delete_client-cases id saved s) [
  | inl same ↦ rw same h
  | inr (no_default, deleted) ↦ rw deleted (record {
    relay_keys = h.relay_keys;
    client_keys = λ j c e. h.client_keys j c (found-delete id j c s.clients e).0;
    defaults = λ j r e on.
        let d = h.defaults j r e on in
        record {
          client = d.client;
          known = ground (
            arith,
            lookup-delete id r.default_client_id s.clients,
            bytes_beq_iff id r.default_client_id,
            bytes_beq_iff r.default_client_id id,
            d.known,
            on,
            any_value-lookup
                (λ relay. relay.allow_missing_stream_id && relay.default_client_id == id) s.relays j
                r no_default e,
          );
          enabled = d.enabled;
          assigned = d.assigned;
        };
    assignments = λ j c e relay_id named.
        h.assignments j c (found-delete id j c s.clients e).0 relay_id named;
  })
]
