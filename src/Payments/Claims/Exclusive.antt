-- ===== src/Payments/Claims/Exclusive.antt =====
-- A lease excludes every other one until it expires (domains/payments/service.py).
use livepeer_open_clearingho.Base.{
  ◌≤◌, ◌≡◌, ◌⊎◌, inl, inr, refl, sym, ap, subst, ◌∙◌, Option, none, some, List, [], ◌∷◌, ◌++◌, Bool,
  true, false, ◌&&◌, ◌||◌, ◌==◌, str_eq, eq_iff, leb, arith, Bool-cases,
}
use livepeer_open_clearingho.Base.Time.{Datetime, add_seconds}
use livepeer_open_clearingho.Base.Result.{ok}
use livepeer_open_clearingho.Payments.Rows.{
  Key, PaymentIdempotencyKey, Db, is_key, find_key, write_key,
}
use livepeer_open_clearingho.Payments.Claims.{
  CreateRequestClaim, ClaimRequest, fenced, is_reclaimable_status, may_reclaim, taken, new_key,
  claim_from,
}
use livepeer_open_clearingho.Payments.Claims.Leases.{
  Claimed, replayed, inserted, reclaimed, IsReplay, claim_from-cases,
}

is_key_refl : (k : Key) → is_key k k ≡ true
is_key_refl k =
    ground (arith, eq_iff k.operation k.operation, eq_iff k.idempotency_key k.idempotency_key)

pub is_key-eq : (k l : Key) → is_key k l ≡ true → k ≡ l
is_key-eq k l h =
    ground (arith, eq_iff k.operation l.operation, eq_iff k.idempotency_key l.idempotency_key)

pub find_key-key :
    (k : Key) (xs : List PaymentIdempotencyKey) (row : PaymentIdempotencyKey)
    → find_key k xs ≡ some row
    → row.key ≡ k
find_key-key k [] row h = cc
find_key-key k (x ∷ xs) row h = elim (Bool-cases (is_key k x.key)) [
  | inl own ↦ same_row x row (rw own at h) ∙ sym (is_key-eq k x.key own)
  | inr other ↦ find_key-key k xs row (rw other at h)
]
  where
    same_row : (x row : PaymentIdempotencyKey) → some x ≡ some row → row.key ≡ x.key
    same_row x row h = cc

pub find_key-write :
    (row : PaymentIdempotencyKey) (xs : List PaymentIdempotencyKey) (old : PaymentIdempotencyKey)
    → find_key row.key xs ≡ some old
    → find_key row.key (write_key row xs) ≡ some row
find_key-write row [] old h = cc
find_key-write row (x ∷ xs) old h = elim (Bool-cases (is_key row.key x.key)) [
  | inl own ↦ rw (own, is_key_refl row.key)
  | inr other ↦ rw (other, other) (find_key-write row xs old (rw other at h))
]

pub find_key-append :
    (k : Key) (xs : List PaymentIdempotencyKey) (row : PaymentIdempotencyKey)
    → find_key k xs ≡ none
    → is_key k row.key ≡ true
    → find_key k (xs ++ row ∷ []) ≡ some row
find_key-append k [] row h own = rw own
find_key-append k (x ∷ xs) row h own = elim (Bool-cases (is_key k x.key)) [
  | inl taken ↦ absurd (cc (rw taken at h))
  | inr other ↦ rw other (find_key-append k xs row (rw other at h) own)
]

-- The lease of a claim is in the table.
abbrev pub IsLive : Key → CreateRequestClaim → Db → Type 0
IsLive k claim db =
    (row : PaymentIdempotencyKey) × (find_key k db.keys ≡ some row)
    × (row.status ≡ "in_flight")
    × (claim.lease_expires_at ≡ some row.expires_at)

lease-IsLive :
    (request : ClaimRequest) (first second : Datetime) (db : Db) (claim : CreateRequestClaim)
    (db' : Db)
    → Claimed request first second db claim db'
    → claim.replay_status ≡ none
    → IsLive request.key claim db'
lease-IsLive request first second db claim db' (replayed (answered, same)) fresh =
    absurd (cc (rw fresh at answered))
lease-IsLive request first second db claim db' (inserted (absent, claim_is, db'_is)) fresh =
    let e = add_seconds first request.inflight_timeout_seconds in
    (
      new_key request e,
      ap (λ d. find_key request.key d.keys) db'_is
          ∙ find_key-append request.key db.keys (new_key request e) absent
              (is_key_refl request.key),
      refl,
      ap (λ (c : CreateRequestClaim). c.lease_expires_at) claim_is,
    )
lease-IsLive request first second db claim db'
      (reclaimed row (current, found, may, claim_is, db'_is)) fresh =
    let e =
      fenced request.key.operation row.expires_at
        (add_seconds first request.inflight_timeout_seconds) in
    let own = find_key-key request.key db.keys current found in
    (
      taken current e,
      ap (λ d. find_key request.key d.keys) db'_is
          ∙ subst (λ k. find_key k (write_key (taken current e) db.keys) ≡ some (taken current e))
              own
              (find_key-write (taken current e) db.keys current
                (ap (λ k. find_key k db.keys) own ∙ found)),
      refl,
      ap (λ (c : CreateRequestClaim). c.lease_expires_at) claim_is,
    )

-- A row that is in flight is only leased again once it has expired.
held_until :
    (row current : PaymentIdempotencyKey) (expires_at now : Datetime)
    → row ≡ current
    → row.status ≡ "in_flight"
    → may_reclaim current expires_at now ≡ true
    → row.expires_at.micros ≤ now.micros
held_until row current expires_at now same live may =
    passed (str_eq row.status "expired") (is_reclaimable_status row.status)
      (row.expires_at.micros == expires_at.micros) (str_eq row.key.operation "sessions.prepare")
      (leb row.expires_at.micros now.micros) not_expired
      (ap (λ r. may_reclaim r expires_at now) same ∙ may) refl
  where
    not_expired : str_eq row.status "expired" ≡ false
    not_expired = rw live

    passed :
        (x a b c d : Bool)
        → x ≡ false
        → a && b && (d || c && x) ≡ true
        → leb row.expires_at.micros now.micros ≡ d
        → row.expires_at.micros ≤ now.micros
    passed x a b c d h g e = ground (arith, h, g, e)

same_key : {A : Type 0} {o : Option A} {a b : A} → o ≡ some a → o ≡ some b → a ≡ b
same_key h g = cc

again :
    (other : ClaimRequest) (first second : Datetime) (db : Db) (claim : CreateRequestClaim)
    (db' : Db) (row : PaymentIdempotencyKey)
    → find_key other.key db.keys ≡ some row
    → row.status ≡ "in_flight"
    → Claimed other first second db claim db'
    → IsReplay db claim db' ⊎ (row.expires_at.micros ≤ second.micros)
again other first second db claim db' row live in_flight (replayed answer) = inl answer
again other first second db claim db' row live in_flight (inserted (absent, claim_is, db'_is)) =
    absurd (cc (sym absent ∙ live))
again other first second db claim db' row live in_flight
      (reclaimed read (current, found, may, claim_is, db'_is)) =
    inr (held_until row current read.expires_at second (same_key live found) in_flight may)

-- After a claim that was leased, another claim of the same key, whatever row it read before and
-- whenever it reads the clock, returns a replay that changes nothing, or it returns after the expiry
-- of the lease.
pub one_live_lease :
    (read read' : Option PaymentIdempotencyKey) (request other : ClaimRequest)
    (first second first' second' : Datetime) (db : Db) (claim : CreateRequestClaim) (db' : Db)
    (claim' : CreateRequestClaim) (db'' : Db)
    → claim_from read request first second db ≡ (ok claim, db')
    → claim.replay_status ≡ none
    → other.key ≡ request.key
    → claim_from read' other first' second' db' ≡ (ok claim', db'')
    → (expires_at : Datetime) × (claim.lease_expires_at ≡ some expires_at)
      × (IsReplay db' claim' db'' ⊎ (expires_at.micros ≤ second'.micros))
one_live_lease read read' request other first second first' second' db claim db' claim' db''
      leased_ok fresh same answered =
    let (row, live, in_flight, expiry) =
      lease-IsLive request first second db claim db'
        (claim_from-cases read request first second db claim db' leased_ok) fresh in
    (
      row.expires_at,
      expiry,
      again other first' second' db' claim' db'' row (ap (λ k. find_key k db'.keys) same ∙ live)
          in_flight (claim_from-cases read' other first' second' db' claim' db'' answered),
    )
