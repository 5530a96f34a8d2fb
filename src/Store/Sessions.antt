-- ===== src/Store/Sessions.antt =====
-- internal/store/postgres/seed.go and rc1.go: the sessions that callers act under.
use bruiser_gateway.Prelude.{
  ℕ, ◌+◌, Option, none, some, Bool, true, false, ◌&&◌, not, [], ◌∷◌, ◌++◌, if◌then◌else◌, ltb, Text,
  text_eq, update_where, any_where,
}
use bruiser_gateway.Lease.{not_found, unavailable, Result, ok, err}
use bruiser_gateway.Store.{Db, Session, session}

-- InsertSession: session_id is the primary key. `RevokedAt` and `Version` take their defaults.
unfoldable pub insert_session : Session → Db → Result Db
insert_session sess db =
    if any_where (λ s. text_eq s.id sess.id) db.sessions
    then err unavailable
    else ok (record db {
      sessions = db.sessions ++ record sess { revoked_at = none; version = 1 } ∷ [];
    })

abbrev pub is_none {ℓ} : {A : Type ℓ} → Option A → Bool
is_none none = true
is_none (some a) = false

-- The row that RevokeSession updates.
unfoldable pub is_revocable : Text → Text → Session → Bool
is_revocable m x s = text_eq s.id x && text_eq s.merchant_id m && is_none s.revoked_at

unfoldable pub revoke_session : ℕ → Text → Text → Db → Result Db
revoke_session now m x db =
    if any_where (is_revocable m x) db.sessions
    then ok (record db {
      sessions =
          update_where (is_revocable m x)
            (λ s. record s { revoked_at = some now; version = s.version + 1 }) db.sessions;
    })
    else err not_found

-- What LiveSession answers: pgx.ErrNoRows, ErrForbidden, ErrSessionRevoked or the session.
pub data SessionResult : Type 0 where
  no_rows wrong_merchant session_revoked : SessionResult
  live : Session → SessionResult

unfoldable pub live_session : ℕ → Text → Text → Db → SessionResult
live_session now m x db = elim (session x db) [
  | none ↦ no_rows
  | some sess ↦
      if not (text_eq sess.merchant_id m)
      then wrong_merchant
      else if not (is_none sess.revoked_at)
      then session_revoked
      else if not (ltb now sess.expires_at)
      then session_revoked
      else live sess
]
