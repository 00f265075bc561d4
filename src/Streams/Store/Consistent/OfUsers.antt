-- ===== src/Streams/Store/Consistent/OfUsers.antt =====
-- The operations on users keep the store consistent, and what a new password does.
use neo_transcoder.Base.{
  ◌≡◌, refl, sym, ap, ◌∙◌, inl, inr, Bool, true, false, not, ◌&&◌, Option, some, Bytes, bytes,
  arith, ◌==◌, nat_eq, bytes_eq, Table, lookup, insert, delete, found-insert, found-delete,
  Bool-cases, Option-cases, Checked-cases,
}
use neo_transcoder.Auth.{
  User, Crypto, Time, new_user, hash_password, verify_password, validate_password,
}
use neo_transcoder.Streams.Store.{Store, has}
use neo_transcoder.Streams.Store.Users.{
  create_user, delete_user, with_password, change_known, change_password,
}
use neo_transcoder.Streams.Store.Consistent.{IsConsistent, has-insert, has-delete}

-- A store with other users.
with_users-IsConsistent :
    (users : Table Bytes User) (s : Store)
    → has (bytes "admin") users ≡ true
    → ((name : Bytes) (u : User) → lookup name users ≡ some u → u.username ≡ name)
    → IsConsistent s
    → IsConsistent (record s { users = users })
with_users-IsConsistent users s admin names h = record {
  linked = h.linked;
  defaults = h.defaults;
  admin = admin;
  user_names = names;
}

insert_user-IsConsistent :
    (name : Bytes) (user : User) (s : Store)
    → user.username ≡ name
    → IsConsistent s
    → IsConsistent (record s { users = insert name user s.users })
insert_user-IsConsistent name user s named h =
    with_users-IsConsistent (insert name user s.users) s
      (ground (arith, has-insert name (bytes "admin") user s.users, h.admin))
      (λ n u found. elim (found-insert name n user u s.users found) [
        | inl (e, f) ↦ ap (λ r. r.username) (sym f) ∙ named ∙ e
        | inr (old, _) ↦ h.user_names n u old
      ])
      h

pub create_user-IsConsistent :
    (crypto : Crypto) (salt : Option Bytes) (username password : Bytes) (now : Time) (saved : Bool)
    (s : Store)
    → IsConsistent s
    → IsConsistent (create_user crypto salt username password now saved s).0
unfolding create_user
create_user-IsConsistent crypto salt username password now saved s h =
    elim (Checked-cases (new_user crypto salt username password false now)) [
      | inl (e, refused) ↦ rw (refused, create_user) h
      | inr (user, made) ↦ elim (Bool-cases (has user.username s.users)) [
        | inl exists ↦ rw (made, create_user, exists) h
        | inr fresh ↦
            rw (made, create_user, fresh) (insert_user-IsConsistent user.username user s refl h)
      ]
    ]

pub delete_user-IsConsistent :
    (username : Bytes) (saved : Bool) (s : Store)
    → IsConsistent s
    → IsConsistent (delete_user username saved s).0
unfolding delete_user
delete_user-IsConsistent username saved s h = elim (Bool-cases (has username s.users)) [
  | inr missing ↦ rw missing h
  | inl found ↦ elim (Bool-cases (username == bytes "admin")) [
    | inl is_admin ↦ rw (found, is_admin) h
    | inr other ↦
        rw (found, other)
          (with_users-IsConsistent (delete username s.users) s
            (ground (arith, has-delete username (bytes "admin") s.users, h.admin))
            (λ n u e. let (old, _) = found-delete username n u s.users e in h.user_names n u old) h)
  ]
]

change_known-IsConsistent :
    (crypto : Crypto) (salt : Option Bytes) (username password : Bytes) (now : Time) (saved : Bool)
    (user : User) (s : Store)
    → user.username ≡ username
    → IsConsistent s
    → IsConsistent (change_known crypto salt username password now saved user s).0
unfolding change_known
change_known-IsConsistent crypto salt username password now saved user s named h =
    elim (Checked-cases (hash_password crypto salt password)) [
      | inl (e, refused) ↦ rw (refused, change_known) h
      | inr (hash, made) ↦
          rw (made, change_known)
            (insert_user-IsConsistent username (with_password hash now user) s named h)
    ]

pub change_password-IsConsistent :
    (crypto : Crypto) (salt : Option Bytes) (username current password : Bytes)
    (require_current : Bool) (now : Time) (saved : Bool) (s : Store)
    → IsConsistent s
    → IsConsistent
        (change_password crypto salt username current password require_current now saved s).0
unfolding change_password
change_password-IsConsistent crypto salt username current password require_current now saved s h =
    elim (Checked-cases (validate_password password)) [
      | inl (e, refused) ↦ rw (refused, change_password) h
      | inr (_, valid) ↦ elim (Option-cases (lookup username s.users)) [
        | inl missing ↦ rw (valid, change_password, missing) h
        | inr (user, found) ↦
            elim (Bool-cases
              (require_current && not (verify_password crypto user.password_hash current))) [
                | inl wrong ↦ rw (valid, change_password, found, wrong) h
                | inr right ↦
                    rw (valid, change_password, found, right)
                      (change_known-IsConsistent crypto salt username password now saved user s
                        (h.user_names username user found) h)
              ]
      ]
    ]
