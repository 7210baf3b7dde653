-- ===== src/Payments/Tombstones.antt =====
-- An unknown outcome is kept for ever (domains/payments/service.py): no claim, release or expiry
-- takes or deletes its row.
use livepeer_open_clearingho.Base.{
  ℕ, ◌≡◌, ◌⊎◌, inl, inr, refl, sym, ap, subst, ◌∙◌, String, Option, none, some, List, [], ◌∷◌, ◌++◌,
  true, false, not, str_eq, arith, Bool-cases,
}
use livepeer_open_clearingho.Base.Time.{Datetime, add_seconds}
use livepeer_open_clearingho.Payments.Rows.{
  Key, PaymentIdempotencyKey, Db, is_key, find_key, write_key,
}
use livepeer_open_clearingho.Payments.Claims.{
  CreateRequestClaim, ClaimRequest, is_reclaimable_status, may_reclaim, taken, reclaim, new_key,
  insert_claim, claim_from,
}
use livepeer_open_clearingho.Payments.Claims.Exclusive.{find_key-key, is_key-eq}
use livepeer_open_clearingho.Payments.Upkeep.{
  release_keys, is_unpaid_lease, release_session_preparation_claim, is_stale, is_over, expire_keys,
  expire_stale_idempotency_keys, release_failed_session_preparation, release_lease, prepare_key,
}

-- The row of a request whose outcome is unknown.
abbrev pub IsTombstone : Key → PaymentIdempotencyKey → Db → Type 0
IsTombstone k row db = (find_key k db.keys ≡ some row) × (row.status ≡ "outcome_unknown")

append_keeps :
    (k : Key) (xs : List PaymentIdempotencyKey) (row new : PaymentIdempotencyKey)
    → find_key k xs ≡ some row
    → find_key k (xs ++ new ∷ []) ≡ some row
append_keeps k [] row new h = cc
append_keeps k (x ∷ xs) row new h = elim (Bool-cases (is_key k x.key)) [
  | inl own ↦ rw own (rw own at h)
  | inr other ↦ rw other (append_keeps k xs row new (rw other at h))
]

write_keeps :
    (k : Key) (xs : List PaymentIdempotencyKey) (row new : PaymentIdempotencyKey)
    → is_key k new.key ≡ false
    → find_key k xs ≡ some row
    → find_key k (write_key new xs) ≡ some row
write_keeps k [] row new apart h = cc
write_keeps k (x ∷ xs) row new apart h = elim (Bool-cases (is_key new.key x.key)) [
  | inl own ↦
      let at_x : is_key k x.key ≡ false =
        subst (λ l. is_key k l ≡ false) (is_key-eq new.key x.key own) apart in
      rw (own, apart) (rw at_x at h)
  | inr other ↦ elim (Bool-cases (is_key k x.key)) [
    | inl mine ↦ rw (other, mine) (rw mine at h)
    | inr further ↦ rw (other, further) (write_keeps k xs row new apart (rw further at h))
  ]
]

insert_keeps :
    (k : Key) (row : PaymentIdempotencyKey) (current : Option PaymentIdempotencyKey)
    (request : ClaimRequest) (expires_at : Datetime) (db : Db)
    → IsTombstone k row db
    → IsTombstone k row (insert_claim current request expires_at db).1
unfolding insert_claim
insert_keeps k row (some winner) request expires_at db h = h
insert_keeps k row none request expires_at db (found, unknown) =
    (append_keeps k db.keys row (new_key request expires_at) found, unknown)

reclaim_keeps :
    (k : Key) (row : PaymentIdempotencyKey) (current : Option PaymentIdempotencyKey)
    (read : PaymentIdempotencyKey) (request : ClaimRequest) (expires_at now : Datetime) (db : Db)
    → find_key request.key db.keys ≡ current
    → IsTombstone k row db
    → IsTombstone k row (reclaim current read request expires_at now db).1
unfolding reclaim
reclaim_keeps k row none read request expires_at now db at h = h
reclaim_keeps k row (some current) read request expires_at now db at (found, unknown) =
    elim (Bool-cases (may_reclaim current read.expires_at now)) [
      | inr may_not ↦ rw may_not (found, unknown)
      | inl may ↦ rw may (
        write_keeps k db.keys row (taken current expires_at)
            (elsewhere (Bool-cases (is_key k current.key)) may) found,
        unknown,
      )
    ]
  where
    elsewhere :
        (is_key k current.key ≡ true) ⊎ (is_key k current.key ≡ false)
        → may_reclaim current read.expires_at now ≡ true
        → is_key k current.key ≡ false
    elsewhere (inr other) may = other
    elsewhere (inl own) may =
        let k_is : k ≡ request.key =
          is_key-eq k current.key own ∙ find_key-key request.key db.keys current at in
        let same : row ≡ current = one found (ap (λ l. find_key l db.keys) k_is ∙ at) in
        absurd (dead (ap (λ (r : PaymentIdempotencyKey). r.status) (sym same) ∙ unknown) may)
      where
        one : {A : Type 0} {o : Option A} {a b : A} → o ≡ some a → o ≡ some b → a ≡ b
        one h g = cc

        dead :
            current.status ≡ "outcome_unknown" → ¬ (may_reclaim current read.expires_at now ≡ true)
        dead status may = cc (rw status at may)

claim_keeps :
    (k : Key) (row : PaymentIdempotencyKey) (read : Option PaymentIdempotencyKey)
    (request : ClaimRequest) (first second : Datetime) (db : Db)
    → IsTombstone k row db
    → IsTombstone k row (claim_from read request first second db).1
unfolding claim_from
claim_keeps k row none request first second db h =
    insert_keeps k row (find_key request.key db.keys) request
      (add_seconds first request.inflight_timeout_seconds) db h
claim_keeps k row (some read) request first second db h =
    elim (Bool-cases (not (str_eq read.request_fingerprint request.request_fingerprint))) [
      | inl other ↦ rw other h
      | inr same ↦ elim (Bool-cases (is_reclaimable_status read.status)) [
        | inl waiting ↦
            rw (same, waiting)
              (reclaim_keeps k row (find_key request.key db.keys) read request _ second db refl h)
        | inr over ↦ rw (same, over) h
      ]
    ]

-- The first row with the key is the tombstone, and no condition takes it.
first_unknown :
    (k : Key) (x row : PaymentIdempotencyKey) (xs : List PaymentIdempotencyKey)
    → is_key k x.key ≡ true
    → find_key k (x ∷ xs) ≡ some row
    → row.status ≡ "outcome_unknown"
    → x.status ≡ "outcome_unknown"
first_unknown k x row xs own h unknown = ap status_of (one (rw own at h)) ∙ unknown
  where
    status_of : PaymentIdempotencyKey → String
    status_of r = r.status

    one : some x ≡ some row → x ≡ row
    one g = cc

is_unpaid_lease_unknown :
    (l : Key) (broker : String) (lease : Datetime) (x : PaymentIdempotencyKey)
    → x.status ≡ "outcome_unknown"
    → ¬ (is_unpaid_lease l broker lease x ≡ true)
is_unpaid_lease_unknown l broker lease x unknown h =
    let idle : str_eq x.status "in_flight" ≡ false = rw unknown in ground (arith, idle, h)

is_stale_unknown :
    (now : Datetime) (x : PaymentIdempotencyKey)
    → x.status ≡ "outcome_unknown"
    → ¬ (is_stale now x ≡ true)
is_stale_unknown now x unknown h = cc (rw unknown at h)

is_over_unknown :
    (now : Datetime) (x : PaymentIdempotencyKey)
    → x.status ≡ "outcome_unknown"
    → ¬ (is_over now x ≡ true)
is_over_unknown now x unknown h = cc (rw unknown at h)

release_keeps :
    (k l : Key) (broker : String) (lease : Datetime) (xs : List PaymentIdempotencyKey)
    (row : PaymentIdempotencyKey)
    → find_key k xs ≡ some row
    → row.status ≡ "outcome_unknown"
    → find_key k (release_keys l broker lease xs) ≡ some row
release_keeps k l broker lease [] row h unknown = cc
release_keeps k l broker lease (x ∷ xs) row h unknown = elim (Bool-cases (is_key k x.key)) [
  | inl own ↦ elim (Bool-cases (is_unpaid_lease l broker lease x)) [
    | inl unpaid ↦
        absurd
          (is_unpaid_lease_unknown l broker lease x (first_unknown k x row xs own h unknown) unpaid)
    | inr kept ↦ rw (kept, own) (rw own at h)
  ]
  | inr other ↦ elim (Bool-cases (is_unpaid_lease l broker lease x)) [
    | inl unpaid ↦
        rw (unpaid, other) (release_keeps k l broker lease xs row (rw other at h) unknown)
    | inr kept ↦ rw (kept, other) (release_keeps k l broker lease xs row (rw other at h) unknown)
  ]
]

expire_keeps :
    (k : Key) (now : Datetime) (xs : List PaymentIdempotencyKey) (row : PaymentIdempotencyKey)
    → find_key k xs ≡ some row
    → row.status ≡ "outcome_unknown"
    → find_key k (expire_keys now xs).1 ≡ some row
expire_keeps k now [] row h unknown = cc
expire_keeps k now (x ∷ xs) row h unknown = elim (Bool-cases (is_stale now x)) [
  | inl stale ↦ elim (Bool-cases (is_key k x.key)) [
    | inl own ↦ absurd (is_stale_unknown now x (first_unknown k x row xs own h unknown) stale)
    | inr other ↦ rw (stale, other) (expire_keeps k now xs row (rw other at h) unknown)
  ]
  | inr fresh ↦ elim (Bool-cases (is_over now x)) [
    | inl over ↦ elim (Bool-cases (is_key k x.key)) [
      | inl own ↦ absurd (is_over_unknown now x (first_unknown k x row xs own h unknown) over)
      | inr other ↦ rw (fresh, over) (expire_keeps k now xs row (rw other at h) unknown)
    ]
    | inr kept ↦ elim (Bool-cases (is_key k x.key)) [
      | inl own ↦ rw (fresh, kept, own) (rw own at h)
      | inr other ↦ rw (fresh, kept, other) (expire_keeps k now xs row (rw other at h) unknown)
    ]
  ]
]

-- What other requests and the scheduler may do meanwhile.
pub data Op : Type 0 where
  claim : Option PaymentIdempotencyKey → ClaimRequest → Datetime → Datetime → Op
  release : ℕ → String → CreateRequestClaim → Op
  expire : Datetime → Op

abbrev pub perform : Op → Db → Db
perform (claim read request first second) db = (claim_from read request first second db).1
perform (release user_id idempotency_key lease) db =
    (release_failed_session_preparation user_id idempotency_key lease db).1
perform (expire now) db = (expire_stale_idempotency_keys now db).1

abbrev pub serve : List Op → Db → Db
serve [] db = db
serve (op ∷ ops) db = serve ops (perform op db)

perform_keeps :
    (k : Key) (row : PaymentIdempotencyKey) (op : Op) (db : Db)
    → IsTombstone k row db
    → IsTombstone k row (perform op db)
unfolding release_failed_session_preparation release_session_preparation_claim
    expire_stale_idempotency_keys
perform_keeps k row (claim read request first second) db h =
    claim_keeps k row read request first second db h
perform_keeps k row (release u key lease) db (found, unknown) = lease_of lease.lease_expires_at
  where
    lease_of :
        (o : Option Datetime)
        → IsTombstone k row (release_lease u key lease.broker_request_id o db).1
    lease_of none = (found, unknown)
    lease_of (some t) = (
      release_keeps k (prepare_key u key) lease.broker_request_id t db.keys row found unknown,
      unknown,
    )
perform_keeps k row (expire now) db (found, unknown) =
    (expire_keeps k now db.keys row found unknown, unknown)

-- The row of a request whose outcome is unknown is found unchanged after any sequence of claims, of
-- whatever rows they read, of releases and of expiries.
pub tombstone_stays :
    (k : Key) (row : PaymentIdempotencyKey) (ops : List Op) (db : Db)
    → find_key k db.keys ≡ some row
    → row.status ≡ "outcome_unknown"
    → find_key k (serve ops db).keys ≡ some row
tombstone_stays k row ops db found unknown = (stays ops db (found, unknown)).0
  where
    stays : (ops : List Op) (db : Db) → IsTombstone k row db → IsTombstone k row (serve ops db)
    stays [] db h = h
    stays (op ∷ ops) db h = stays ops (perform op db) (perform_keeps k row op db h)
