-- ===== src/Relay/Credentials/Handed.antt =====
-- Which clients `WorkerClients` hands to a relay's worker.
use neo_transcoder.Base.{
  ◌≡◌, refl, ap, ◌∙◌, inl, inr, ℤ, Bool, false, not, ◌&&◌, ◌||◌, none, some, List, [], ◌∷◌, Bytes,
  arith, ◌==◌, bytes_eq, bytes_beq_iff, if◌then◌else◌, Table, lookup, All, Bool-cases, Option-cases,
}
use neo_transcoder.Relay.Models.{Client, WorkerClient, encryption_aes256}
use neo_transcoder.Relay.Texts.{contains, sort_texts, contains-sort_texts}
use neo_transcoder.Relay.Store.{Store}
use neo_transcoder.Relay.Consistent.{IsConsistent}
use neo_transcoder.Relay.Credentials.{keys, worker_client, collect, worker_clients}

-- Whether this is a client of the store that is enabled and assigned to the relay.
pub may_receive : Bytes → Bytes → Table Bytes Client → Bool
may_receive relay_id id clients = elim (lookup id clients) [
  | none ↦ false
  | some client ↦ client.enabled && contains client.allowed_relay_ids relay_id
]

pub is_listed : Bytes → List WorkerClient → Bool
is_listed id [] = false
is_listed id (w ∷ ws) = let rest = is_listed id ws in w.id == id || rest

lookup-keys :
    (id : Bytes) (clients : Table Bytes Client)
    → contains (keys clients) id ≡ false
    → lookup id clients ≡ none
unfolding contains keys lookup
lookup-keys id [] absent = refl
lookup-keys id ((other, client) ∷ clients) absent = ground (arith, absent, lookup-keys id clients)

contains-may_receive :
    (relay_id id : Bytes) (clients : Table Bytes Client)
    → (contains (keys clients) id && may_receive relay_id id clients)
      ≡ may_receive relay_id id clients
unfolding may_receive
contains-may_receive relay_id id clients = elim (Bool-cases (contains (keys clients) id)) [
  | inl known ↦ rw known refl
  | inr absent ↦ rw (absent, may_receive, lookup-keys id clients absent) refl
]

module _ (client_key : Bytes → ℤ → Bytes) (relay_id : Bytes) (clients : Table Bytes Client)
    (own_ids : (id : Bytes) (c : Client) → lookup id clients ≡ some c → c.id ≡ id) where
  is_listed-collect :
      (id : Bytes) (ids : List Bytes)
      → is_listed id (collect client_key relay_id clients ids)
        ≡ (contains ids id && may_receive relay_id id clients)
  unfolding is_listed collect contains may_receive worker_client
  is_listed-collect id [] = refl
  is_listed-collect id (first ∷ ids) =
      let again = is_listed-collect id ids in
      elim (Option-cases (lookup first clients)) [
        | inl missing ↦ ground (arith, again, missing, bytes_beq_iff first id)
        | inr (client, found) ↦
            let own = own_ids first client found in
            ground (arith, again, found, own, bytes_beq_iff first id, bytes_beq_iff client.id id)
      ]

-- What the worker is told of a client.
pub record IsHanded (client_key : Bytes → ℤ → Bytes) (relay_id : Bytes) (s : Store)
    (w : WorkerClient) : Type 0 where
  pub client : Client
  pub known : lookup w.id s.clients ≡ some client
  pub mode : w.encryption_mode ≡ client.encryption_mode
  pub passphrase : w.passphrase ≡ (
      if client.encryption_mode == encryption_aes256
      then client_key w.id client.key_version
      else [])
  pub networks : w.allowed_cidrs ≡ client.allowed_cidrs
  pub sessions : w.max_sessions ≡ client.max_sessions

collect-IsHanded :
    (client_key : Bytes → ℤ → Bytes) (relay_id : Bytes) (s : Store)
    → IsConsistent s
    → (ids : List Bytes)
    → All (IsHanded client_key relay_id s) (collect client_key relay_id s.clients ids)
unfolding collect worker_client
collect-IsHanded client_key relay_id s h [] = tt
collect-IsHanded client_key relay_id s h (id ∷ ids) =
    let again = collect-IsHanded client_key relay_id s h ids in
    elim (Option-cases (lookup id s.clients)) [
      | inl missing ↦ rw (missing, collect) again
      | inr (client, found) ↦
          elim (Bool-cases
            (not client.enabled || not (contains client.allowed_relay_ids relay_id))) [
              | inl skipped ↦ rw (found, collect, skipped) again
              | inr chosen ↦
                  rw (found, collect, chosen)
                    (
                      record {
                        client = client;
                        known =
                            ap (λ k. lookup k s.clients) (h.client_keys id client found) ∙ found;
                        mode = refl;
                        passphrase = refl;
                        networks = refl;
                        sessions = refl;
                      },
                      again,
                    )
            ]
    ]

-- What a worker is given in a consistent store: exactly the clients that are enabled and assigned to its
-- relay, each with the encryption, the networks and the session limit of the store, and with the passphrase
-- of its present key version where it is encrypted.
pub worker_clients-IsHanded :
    (client_key : Bytes → ℤ → Bytes) (relay_id id : Bytes) (s : Store)
    → IsConsistent s
    → (is_listed id (worker_clients client_key relay_id s) ≡ may_receive relay_id id s.clients)
      × All (IsHanded client_key relay_id s) (worker_clients client_key relay_id s)
unfolding worker_clients
worker_clients-IsHanded client_key relay_id id s h =
    let ids = sort_texts (keys s.clients) in
    (
      is_listed-collect client_key relay_id s.clients h.client_keys id ids
          ∙ ap (λ b. b && may_receive relay_id id s.clients)
              (contains-sort_texts (keys s.clients) id)
          ∙ contains-may_receive relay_id id s.clients,
      collect-IsHanded client_key relay_id s h ids,
    )
