-- ===== src/Payments/Claims/Leases.antt =====
-- Who holds the lease of a create request (domains/payments/service.py).
use livepeer_open_clearingho.Base.{
  ℕ, ◌≡◌, inl, inr, refl, sym, subst, String, Option, none, some, [], ◌∷◌, ◌++◌, true, not, str_eq,
  is_some, Bool-cases,
}
use livepeer_open_clearingho.Base.Time.{Datetime, add_seconds}
use livepeer_open_clearingho.Base.Result.{Result, ok}
use livepeer_open_clearingho.Base.Action.{lift, lift-eq-ok, returned-eq}
use livepeer_open_clearingho.Payments.Rows.{PaymentIdempotencyKey, Db, Error, find_key, put_key}
use livepeer_open_clearingho.Payments.Claims.{
  CreateRequestClaim, ClaimRequest, recorded, is_settled, claim_from_existing, fenced,
  is_reclaimable_status, may_reclaim, leased, taken, reclaim, new_key, insert_claim, claim_from,
}

recorded_replays :
    (row : PaymentIdempotencyKey) (o : Option ℕ) (c : CreateRequestClaim)
    → recorded row o ≡ ok c
    → is_some c.replay_status ≡ true
recorded_replays row none c h = cc
recorded_replays row (some s) c h =
    subst (λ (c : CreateRequestClaim). is_some c.replay_status ≡ true) (ok_eq h) refl
  where
    ok_eq : {A : Type 0} {a b : A} → ◌≡◌ {A = Result Error A} (ok a) (ok b) → a ≡ b
    ok_eq h = cc

-- What an existing row answers is a replay of the recorded response.
existing_replays :
    (row : PaymentIdempotencyKey) (fingerprint : String) (c : CreateRequestClaim)
    → claim_from_existing row fingerprint ≡ ok c
    → is_some c.replay_status ≡ true
unfolding claim_from_existing
existing_replays row fingerprint c h =
    elim (Bool-cases (not (str_eq row.request_fingerprint fingerprint))) [
      | inl other ↦ cc (rw other at h)
      | inr same ↦ elim (Bool-cases (str_eq row.status "in_flight")) [
        | inl live ↦ cc (rw (same, live) at h)
        | inr ended ↦ elim (Bool-cases (str_eq row.status "expired")) [
          | inl old ↦ cc (rw (same, ended, old) at h)
          | inr kept ↦ elim (Bool-cases (not (is_settled row.status))) [
            | inl unknown ↦ cc (rw (same, ended, kept, unknown) at h)
            | inr settled ↦
                recorded_replays row row.http_status c (rw (same, ended, kept, settled) at h)
          ]
        ]
      ]
    ]

-- A replay, which changes nothing.
abbrev pub IsReplay : Db → CreateRequestClaim → Db → Type 0
IsReplay db claim db' = (is_some claim.replay_status ≡ true) × (db' ≡ db)

-- The lease of a row that was not there.
abbrev pub IsInserted : ClaimRequest → Datetime → Db → CreateRequestClaim → Db → Type 0
IsInserted request expires_at db claim db' =
    (find_key request.key db.keys ≡ none)
    × (claim ≡ leased request.broker_request_id expires_at)
    × (db' ≡ record db { keys = db.keys ++ new_key request expires_at ∷ [] })

-- The lease of the row that is in the table, which has the expiry that was read.
abbrev pub IsReclaimed :
    PaymentIdempotencyKey
    → ClaimRequest
    → Datetime
    → Datetime
    → Db
    → CreateRequestClaim
    → Db
    → Type 0
IsReclaimed row request expires_at now db claim db' =
    (current : PaymentIdempotencyKey) × (find_key request.key db.keys ≡ some current)
    × (may_reclaim current row.expires_at now ≡ true)
    × (claim ≡ leased row.broker_request_id expires_at)
    × (db' ≡ put_key (taken current expires_at) db)

-- The three ways of a claim to return.
pub data Claimed (request : ClaimRequest) (first second : Datetime) (db : Db)
    (claim : CreateRequestClaim) (db' : Db) : Type 0 where
  replayed : IsReplay db claim db' → Claimed request first second db claim db'
  inserted :
      IsInserted request (add_seconds first request.inflight_timeout_seconds) db claim db'
      → Claimed request first second db claim db'
  reclaimed :
      (row : PaymentIdempotencyKey)
      → IsReclaimed row request
          (fenced request.key.operation row.expires_at
            (add_seconds first request.inflight_timeout_seconds))
          second
          db
          claim
          db'
      → Claimed request first second db claim db'

lifted :
    (row : PaymentIdempotencyKey) (request : ClaimRequest) (first second : Datetime) (db : Db)
    (claim : CreateRequestClaim) (db' : Db)
    → lift (claim_from_existing row request.request_fingerprint) db ≡ (ok claim, db')
    → Claimed request first second db claim db'
lifted row request first second db claim db' h =
    let (answered, same) =
      lift-eq-ok (claim_from_existing row request.request_fingerprint) db db' h in
    replayed (existing_replays row request.request_fingerprint claim answered, same)

insert_claim-cases :
    (current : Option PaymentIdempotencyKey) (request : ClaimRequest) (first second : Datetime)
    (db : Db) (claim : CreateRequestClaim) (db' : Db)
    → find_key request.key db.keys ≡ current
    → insert_claim current request (add_seconds first request.inflight_timeout_seconds) db
      ≡ (ok claim, db')
    → Claimed request first second db claim db'
unfolding insert_claim
insert_claim-cases (some winner) request first second db claim db' found h =
    lifted winner request first second db claim db' h
insert_claim-cases none request first second db claim db' found h =
    let done = returned-eq h in inserted (found, sym (done.0), sym (done.1))

reclaim-cases :
    (current : Option PaymentIdempotencyKey) (row : PaymentIdempotencyKey) (request : ClaimRequest)
    (first second : Datetime) (db : Db) (claim : CreateRequestClaim) (db' : Db)
    → find_key request.key db.keys ≡ current
    → reclaim current row request
        (fenced request.key.operation row.expires_at
          (add_seconds first request.inflight_timeout_seconds))
        second
        db
      ≡ (ok claim, db')
    → Claimed request first second db claim db'
unfolding reclaim
reclaim-cases none row request first second db claim db' found h = cc
reclaim-cases (some current) row request first second db claim db' found h =
    elim (Bool-cases (may_reclaim current row.expires_at second)) [
      | inl may ↦
          let done = returned-eq (rw may at h) in
          reclaimed row (current, found, may, sym (done.0), sym (done.1))
      | inr may_not ↦ lifted current request first second db claim db' (rw may_not at h)
    ]

-- A claim that returns replays a recorded response, or it leases a new row, or it leases the row that
-- is in the table now.
pub claim_from-cases :
    (read : Option PaymentIdempotencyKey) (request : ClaimRequest) (first second : Datetime)
    (db : Db) (claim : CreateRequestClaim) (db' : Db)
    → claim_from read request first second db ≡ (ok claim, db')
    → Claimed request first second db claim db'
unfolding claim_from
claim_from-cases none request first second db claim db' h =
    insert_claim-cases (find_key request.key db.keys) request first second db claim db' refl h
claim_from-cases (some row) request first second db claim db' h =
    elim (Bool-cases (not (str_eq row.request_fingerprint request.request_fingerprint))) [
      | inl other ↦ lifted row request first second db claim db' (rw other at h)
      | inr same ↦ elim (Bool-cases (is_reclaimable_status row.status)) [
        | inl waiting ↦
            reclaim-cases (find_key request.key db.keys) row request first second db claim db' refl
              (rw (same, waiting) at h)
        | inr over ↦ lifted row request first second db claim db' (rw (same, over) at h)
      ]
    ]
