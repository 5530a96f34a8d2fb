-- ===== src/Gateway/Safe.antt =====
-- What the services of the running gateway keep of the lease tables: each is a transaction of the store
-- or leaves them alone, through the cache of internal/lease/cache.go.
use bruiser_gateway.Prelude.{
  ℕ, ◌≤◌, ◌≡◌, subst, sym, arith, Text, ℤ, inl, inr, Bool-cases, Option-cases,
}
use bruiser_gateway.Lease.{AcquireRequest, HandoffRequest, Result, ok, err}
use bruiser_gateway.Store.{Db, Session}
use bruiser_gateway.Store.Acquire
use bruiser_gateway.Store.Sessions
use bruiser_gateway.Cache
use bruiser_gateway.Cache.{
  Inner, Cache, CacheItem, increment, lookup, answers, refreshes, ask, consult, settle,
}
use bruiser_gateway.Refinement.Capacities.{slots, Result-cases}
use bruiser_gateway.System.{
  acquires, renews, releases, revokes, hands_off, inserts_session, revokes_session, committed,
  committed_db, step,
}
use bruiser_gateway.System.Safety.{Ready, step-Ready}
use bruiser_gateway.Shadow.{ShadowDb, ShadowRequest}
use bruiser_gateway.Shadow
use bruiser_gateway.Gateway.Backend.{Tables, FreshIds, postgres, stored, shadowed, services}

module _ (cap : Text → Text → ℕ) (now : ℕ) where
  abbrev pub Good : Tables → Type 0
  Good t = Ready cap now t.db

  stored-Good :
      (t : Tables) (r : Result Db) → Ready cap now (committed_db t.db r) → Good (stored t r).0
  stored-Good t (ok db) h = h
  stored-Good t (err e) h = h

  shadowed-Good {ℓ} :
      {A : Type ℓ} (t : Tables) (r : Result (ShadowDb × A)) → Good t → Good (shadowed t r).0
  shadowed-Good t (ok (db, a)) h = h
  shadowed-Good t (err e) h = h

  module _ (fresh : FreshIds) where
    settle-Ready {κ} :
        {A : Type κ} (r : Result (Db × A)) (f : A → Cache → Cache) (c : Cache) (db : Db)
        → Ready cap now (committed db r)
        → Ready cap now (settle (postgres fresh) r f c db).1
    unfolding settle
    settle-Ready (ok (db', a)) f c db h = h
    settle-Ready (err e) f c db h = h

    ask-committed :
        (req : AcquireRequest) (c : Cache) (db : Db)
        → (ask (postgres fresh) now req c db).1
          ≡ committed db (Acquire.acquire now fresh.execution req db)
    unfolding ask
    ask-committed req c db = elim (Result-cases (Acquire.acquire now fresh.execution req db)) [
      | inl (r, e) ↦ ground arith
      | inr (x, e) ↦ ground arith
    ]

    ask-Ready :
        (req : AcquireRequest) (c : Cache) (db : Db)
        → slots req.max_active ≤ cap req.merchant_id req.domain_key
        → Ready cap now db
        → Ready cap now (ask (postgres fresh) now req c db).1
    unfolding step
    ask-Ready req c db fits h =
        subst (Ready cap now) (sym (ask-committed req c db))
          (step-Ready cap now (acquires fresh.execution req) db fits h)

    consult-Ready :
        (req : AcquireRequest) (c : Cache) (db : Db)
        → slots req.max_active ≤ cap req.merchant_id req.domain_key
        → Ready cap now db
        → Ready cap now (consult (postgres fresh) now req c db).1
    unfolding consult
    consult-Ready req c db fits h =
        let (c₁, found) = lookup now req.merchant_id req.domain_key c in
        elim (Option-cases (lookup now req.merchant_id req.domain_key c).1) [
          | inl absent ↦
              let asked = ask-Ready req (record c₁ { miss = increment c₁.miss }) db fits h in
              rw (absent, consult) asked
          | inr (it, there) ↦ elim (Bool-cases (answers req it)) [
            | inl full ↦ rw (there, full, consult) h
            | inr room ↦ rw (there, room, consult) (ask-Ready req c₁ db fits h)
          ]
        ]

    acquire-Ready :
        (req : AcquireRequest) (c : Cache) (db : Db)
        → slots req.max_active ≤ cap req.merchant_id req.domain_key
        → Ready cap now db
        → Ready cap now (Cache.acquire (postgres fresh) now req c db).1
    unfolding Cache.acquire
    acquire-Ready req c₀ db fits h =
        let c = record c₀ { n = increment c₀.n } in
        elim (Bool-cases (refreshes req c)) [
          | inl refresh ↦ rw (refresh, Cache.acquire) (ask-Ready req c db fits h)
          | inr keeps ↦ rw (keeps, Cache.acquire) (consult-Ready req c db fits h)
        ]

  module _ (fresh : FreshIds) (t : Tables) (h : Good t) where
    pub Good-acquire :
        (req : AcquireRequest)
        → slots req.max_active ≤ cap req.merchant_id req.domain_key
        → Good ((services fresh).acquire now req t).0
    unfolding services
    Good-acquire req fits = acquire-Ready fresh req t.cache t.db fits h

    pub Good-renew :
        (m x session_id rid : Text) (ttl : ℤ)
        → Good ((services fresh).renew now m x session_id rid ttl t).0
    unfolding services Cache.renew step
    Good-renew m x session_id rid ttl =
        settle-Ready fresh _ _ t.cache t.db
          (step-Ready cap now (renews m x session_id rid ttl) t.db tt h)

    pub Good-release :
        (m x session_id rid : Text) → Good ((services fresh).release now m x session_id rid t).0
    unfolding services Cache.release step
    Good-release m x session_id rid =
        settle-Ready fresh _ _ t.cache t.db
          (step-Ready cap now (releases m x session_id rid) t.db tt h)

    pub Good-revoke :
        (m x session_id rid reason : Text)
        → Good ((services fresh).revoke now m x session_id rid reason t).0
    unfolding services Cache.revoke step
    Good-revoke m x session_id rid reason =
        settle-Ready fresh _ _ t.cache t.db
          (step-Ready cap now (revokes m x session_id rid reason) t.db tt h)

    pub Good-handoff : (req : HandoffRequest) → Good ((services fresh).handoff now req t).0
    unfolding services Cache.handoff step
    Good-handoff req =
        settle-Ready fresh _ _ t.cache t.db
          (step-Ready cap now (hands_off fresh.execution fresh.session req) t.db tt h)

    pub Good-insert_session : (sess : Session) → Good ((services fresh).insert_session now sess t).0
    unfolding services step
    Good-insert_session sess =
        stored-Good t (Sessions.insert_session sess t.db)
          (step-Ready cap now (inserts_session sess) t.db tt h)

    pub Good-revoke_session : (m x : Text) → Good ((services fresh).revoke_session now m x t).0
    unfolding services step
    Good-revoke_session m x =
        stored-Good t (Sessions.revoke_session now m x t.db)
          (step-Ready cap now (revokes_session m x) t.db tt h)

    pub Good-shadow_decide :
        (req : ShadowRequest) → Good ((services fresh).shadow_decide now req t).0
    unfolding services
    Good-shadow_decide req = shadowed-Good t (Shadow.shadow_decide now fresh.hold req t.shadow) h
