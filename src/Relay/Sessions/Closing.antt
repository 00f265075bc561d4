-- ===== src/Relay/Sessions/Closing.antt =====
-- What the closing of a relay's sessions leaves behind.
use neo_transcoder.Base.{
  ◌≤◌, ◌≡◌, refl, Bool, List, [], ◌∷◌, Bytes, arith, nat_eq, ◌==◌, bytes_eq, if◌then◌else◌, Table,
  values, delete, tally, tally-delete-le, length, keep, drop,
}
use neo_transcoder.Relay.Models.{Time, Session}
use neo_transcoder.Relay.Store.{Store}
use neo_transcoder.Relay.Sessions.{
  is_completed, is_open_on, delete_sessions, prune_sessions, close_open, audit_of_closed,
  close_relay_sessions, newest_first, max_completed_sessions,
}

delete_sessions-le :
    (p : Session → Bool) (gone : List Session) (t : Table Bytes Session)
    → tally p (delete_sessions gone t) ≤ tally p t
unfolding delete_sessions
delete_sessions-le p [] t = omega arith
delete_sessions-le p (s ∷ gone) t =
    omega (arith, delete_sessions-le p gone (delete s.id t), tally-delete-le p s.id t)

prune_sessions-le :
    (p : Session → Bool) (t : Table Bytes Session) → tally p (prune_sessions t) ≤ tally p t
unfolding prune_sessions
prune_sessions-le p t = ground (
  arith,
  delete_sessions-le p (drop max_completed_sessions (newest_first (keep is_completed (values t))))
      t,
)

module _ (relay_id reason : Bytes) (at : Time) where
  close_open-none :
      (t : Table Bytes Session)
      → tally (is_open_on relay_id) (close_open relay_id reason at t).0 ≡ 0
  unfolding close_open is_open_on tally
  close_open-none [] = refl
  close_open-none ((id, s) ∷ t) = ground (arith, close_open-none t)

  length-close_open :
      (t : Table Bytes Session)
      → length (close_open relay_id reason at t).1 ≡ tally (is_open_on relay_id) t
  unfolding close_open tally
  length-close_open [] = refl
  length-close_open ((id, s) ∷ t) = ground (arith, length-close_open t)

  length-audit_of_closed :
      (closed : List Session) → length (audit_of_closed relay_id reason at closed) ≡ length closed
  unfolding audit_of_closed
  length-audit_of_closed [] = refl
  length-audit_of_closed (s ∷ closed) = omega (arith, length-audit_of_closed closed)

-- After `CloseRelaySessions` no session of the relay is open, and it has recorded as many audit events
-- as sessions of the relay were open before.
pub close_relay_sessions-all :
    (relay_id reason : Bytes) (given clock : Time) (s : Store)
    → (tally (is_open_on relay_id) (close_relay_sessions relay_id reason given clock s).0.sessions
        ≡ 0)
      × (length (close_relay_sessions relay_id reason given clock s).1
          ≡ tally (is_open_on relay_id) s.sessions)
unfolding close_relay_sessions
close_relay_sessions-all relay_id reason given clock s =
    let at : Time = if given == 0 then clock else given in
    (
      omega (
        arith,
        prune_sessions-le (is_open_on relay_id) (close_open relay_id reason at s.sessions).0,
        close_open-none relay_id reason at s.sessions,
      ),
      omega (
        arith,
        length-audit_of_closed relay_id reason at (close_open relay_id reason at s.sessions).1,
        length-close_open relay_id reason at s.sessions,
      ),
    )
