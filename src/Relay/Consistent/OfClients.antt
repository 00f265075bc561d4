-- ===== src/Relay/Consistent/OfClients.antt =====
-- The operations on clients keep a store consistent.
use neo_transcoder.Base.{
  ℤ, ◌≡◌, ◌⊎◌, refl, sym, ap, ◌∙◌, Bool, true, false, ◌&&◌, Option, none, some, List, [], ◌∷◌,
  Bytes, arith, ◌==◌, bytes_eq, nat_eq, bytes_beq_iff, Table, lookup, insert, any_value,
  any_value-lookup, lookup-insert, found-insert, ok, Option-cases, Bool-cases, inl, inr,
  Checked-cases,
}
use neo_transcoder.Relay.Models.{Time, Relay, Client}
use neo_transcoder.Relay.Texts.{
  contains, sort_texts, distinct, contains-sort_texts, contains-distinct,
}
use neo_transcoder.Relay.Normalize.{Net}
use neo_transcoder.Relay.Clients.{normalize_client, check_relays, fill_client}
use neo_transcoder.Relay.Store.{Store}
use neo_transcoder.Relay.Credentials.{
  loses_default, with_client_key, store_client, upsert_client, stamped,
}
use neo_transcoder.Relay.Consistent.{IsConsistent, HasDefault}

-- The loop over the relays of a client has found each of them.
check_relays-lookup :
    (relays : Table Bytes Relay) (ids : List Bytes) (id : Bytes)
    → check_relays relays ids ≡ ok tt
    → contains ids id ≡ true
    → (r : Relay) × (lookup id relays ≡ some r)
unfolding check_relays contains
check_relays-lookup relays [] id h named = cc
check_relays-lookup relays (first ∷ ids) id h named = elim (Option-cases (lookup first relays)) [
  | inl missing ↦ ground (arith, missing)
  | inr (r, found) ↦ elim (Bool-cases (first == id)) [
    | inl same ↦ (r, ground (arith, bytes_beq_iff first id, found))
    | inr differs ↦
        check_relays-lookup relays ids id (ground (arith, found)) (ground (arith, differs))
  ]
]

normalize_client-inv :
    (net : Net) (relays : Table Bytes Relay) (given n : Client)
    → normalize_client net relays given ≡ ok n
    → (check_relays relays given.allowed_relay_ids ≡ ok tt)
      × (n.id ≡ given.id)
      × (n.allowed_relay_ids ≡ sort_texts (distinct given.allowed_relay_ids))
unfolding normalize_client fill_client
normalize_client-inv net relays given n h = ground arith

keeps_default-HasDefault :
    (c : Client) (s : Store) (id : Bytes) (r : Relay)
    → loses_default c r ≡ false
    → r.allow_missing_stream_id ≡ true
    → HasDefault s.clients r
    → HasDefault (insert c.id c s.clients) r
unfolding loses_default
keeps_default-HasDefault c s id r kept on h = elim (Bool-cases (c.id == r.default_client_id)) [
  | inl same ↦ record {
    client = c;
    known = ground (arith, lookup-insert c.id r.default_client_id c s.clients);
    enabled =
        ground
          (arith, bytes_beq_iff c.id r.default_client_id, bytes_beq_iff r.default_client_id c.id);
    assigned =
        ground
          (arith, bytes_beq_iff c.id r.default_client_id, bytes_beq_iff r.default_client_id c.id);
  }
  | inr differs ↦ record {
    client = h.client;
    known = ground (arith, lookup-insert c.id r.default_client_id c s.clients, h.known);
    enabled = h.enabled;
    assigned = h.assigned;
  }
]

-- A client whose relays are there, and that no relay loses as its default, put under its own ID.
put_client-IsConsistent :
    (c : Client) (s : Store)
    → ((relay_id : Bytes)
        → contains c.allowed_relay_ids relay_id ≡ true
        → (r : Relay) × (lookup relay_id s.relays ≡ some r))
    → ((id : Bytes) (r : Relay) → lookup id s.relays ≡ some r → loses_default c r ≡ false)
    → IsConsistent s
    → IsConsistent (record s { clients = insert c.id c s.clients })
put_client-IsConsistent c s assigned kept h = record {
  relay_keys = h.relay_keys;
  client_keys = λ id d e. elim (found-insert c.id id c d s.clients e) [
    | inl (same, new) ↦ sym (ap (λ (x : Client). x.id) new) ∙ same
    | inr (old, differs) ↦ h.client_keys id d old
  ];
  defaults = λ id r e on. keeps_default-HasDefault c s id r (kept id r e) on (h.defaults id r e on);
  assignments = λ id d e relay_id named. elim (found-insert c.id id c d s.clients e) [
    | inl (same, new) ↦
        assigned relay_id (ap (λ (x : Client). contains x.allowed_relay_ids relay_id) new ∙ named)
    | inr (old, differs) ↦ h.assignments id d old relay_id named
  ];
}

with_client_key-same :
    (old : Option Client) (c : Client)
    → ((with_client_key old c).0.id ≡ c.id)
      × ((with_client_key old c).0.enabled ≡ c.enabled)
      × ((with_client_key old c).0.allowed_relay_ids ≡ c.allowed_relay_ids)
unfolding with_client_key
with_client_key-same none c = (refl, refl, refl)
with_client_key-same (some old) c = ground arith

loses_default-same :
    (a b : Client) (r : Relay)
    → b.id ≡ a.id
    → b.enabled ≡ a.enabled
    → b.allowed_relay_ids ≡ a.allowed_relay_ids
    → loses_default b r ≡ loses_default a r
unfolding loses_default
loses_default-same a b r ids enabled allowed = rw (ids, enabled, allowed)

store_client-cases :
    (key : Bytes → ℤ → Bytes) (saved : Bool) (old : Option Client) (n : Client) (s : Store)
    → ((store_client key saved old n s).0 ≡ s)
      ⊎ ((any_value (loses_default n) s.relays ≡ false)
          × ((store_client key saved old n s).0 ≡ record s {
            clients = insert (with_client_key old n).0.id (with_client_key old n).0 s.clients;
          }))
unfolding store_client
store_client-cases key saved old n s = ground arith

pub store_client-IsConsistent :
    (key : Bytes → ℤ → Bytes) (saved : Bool) (old : Option Client) (n : Client) (s : Store)
    → ((relay_id : Bytes)
        → contains n.allowed_relay_ids relay_id ≡ true
        → (r : Relay) × (lookup relay_id s.relays ≡ some r))
    → IsConsistent s
    → IsConsistent (store_client key saved old n s).0
store_client-IsConsistent key saved old n s assigned h =
    elim (store_client-cases key saved old n s) [
      | inl same ↦ rw same h
      | inr (kept, put) ↦
          let (ids, enabled, allowed) = with_client_key-same old n in
          rw put (
            put_client-IsConsistent (with_client_key old n).0 s
              (λ relay_id named.
                assigned relay_id
                  (sym (ap (λ (a : List Bytes). contains a relay_id) allowed) ∙ named))
              (λ id r e.
                loses_default-same n (with_client_key old n).0 r ids enabled allowed
                ∙ any_value-lookup (loses_default n) s.relays id r kept e)
              h)
    ]

pub upsert_client-IsConsistent :
    (key : Bytes → ℤ → Bytes) (net : Net) (saved create_only : Bool) (now : Time) (given : Client)
    (s : Store)
    → IsConsistent s
    → IsConsistent (upsert_client key net saved create_only now given s).0
unfolding upsert_client stamped
upsert_client-IsConsistent key net saved create_only now given s h =
    elim (Bool-cases
      (create_only && elim (lookup given.id s.clients) [ none ↦ false | some client ↦ true ])) [
        | inl present ↦ rw (present, upsert_client) h
        | inr absent ↦
            elim (Checked-cases
              (normalize_client net s.relays (stamped (lookup given.id s.clients) now given))) [
                | inl (e, refused) ↦ rw (absent, refused, upsert_client) h
                | inr (n, normal) ↦
                    let (checked, ids, allowed) =
                      normalize_client-inv net s.relays
                        (stamped (lookup given.id s.clients) now given) n normal in
                    rw (absent, normal, upsert_client)
                      (store_client-IsConsistent key saved (lookup given.id s.clients) n s
                        (λ relay_id named.
                          check_relays-lookup s.relays
                            (stamped (lookup given.id s.clients) now given).allowed_relay_ids
                            relay_id checked
                            (sym (
                                contains-distinct
                                  (stamped (lookup given.id s.clients) now given).allowed_relay_ids
                                  relay_id)
                              ∙ sym (
                                  contains-sort_texts
                                    (distinct
                                      (stamped (lookup given.id s.clients) now
                                        given).allowed_relay_ids)
                                    relay_id)
                              ∙ sym (ap (λ (a : List Bytes). contains a relay_id) allowed)
                              ∙ named))
                        h)
              ]
      ]
