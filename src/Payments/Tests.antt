-- ===== src/Payments/Tests.antt =====
-- The theorems of payments at concrete requests.
use livepeer_open_clearingho.Base.{◌≤◌, ◌<◌, ◌≡◌, ◌≢◌, ◌⊎◌, refl, none, some, List, [], ◌∷◌, arith}
use livepeer_open_clearingho.Base.Json.{end}
use livepeer_open_clearingho.Base.Time.{Datetime, from_seconds, add_seconds}
use livepeer_open_clearingho.Base.Result.{ok}
use livepeer_open_clearingho.Payments.Rows.{Key, PaymentIdempotencyKey, Db, find_key, put_key}
use livepeer_open_clearingho.Payments.Claims.{
  ClaimRequest, leased, taken, new_key, reclaim, insert_claim, claim_from, claim_create_request,
  finished, complete_create_request,
}
use livepeer_open_clearingho.Payments.Claims.Leases.{IsReplay}
use livepeer_open_clearingho.Payments.Claims.Exclusive.{one_live_lease}
use livepeer_open_clearingho.Payments.Claims.Replays.{
  answer, complete_then_claim, expired_claim_is_leased,
}
use livepeer_open_clearingho.Payments.Tombstones.{Op, serve, tombstone_stays}

abbrev key : Key
key = record { user_id = 1; operation = "sessions.prepare"; idempotency_key = "order" }

abbrev request : ClaimRequest
request = record {
  key = key;
  api_key_id = 2;
  request_fingerprint = "digest";
  inflight_timeout_seconds = 60;
  broker_request_id = "broker-1";
}

abbrev noon : Datetime
noon = from_seconds 43200

abbrev lease_end : Datetime
lease_end = add_seconds noon 60

abbrev late : Datetime
late = from_seconds 50000

abbrev claimed_db : Db
claimed_db = record { keys = new_key request lease_end ∷ [] }

leased_first :
    claim_from none request noon noon (record { keys = [] })
    ≡ (ok (leased "broker-1" lease_end), claimed_db)
unfolding claim_from insert_claim
leased_first = refl

-- A second process read the row before it expired, and claims it late.
abbrev retaken : PaymentIdempotencyKey
retaken = taken (new_key request lease_end) (add_seconds late 60)

leased_again :
    claim_from (some (new_key request lease_end)) request late late claimed_db
    ≡ (ok (leased "broker-1" (add_seconds late 60)), record { keys = retaken ∷ [] })
unfolding claim_from reclaim
leased_again = refl

one_live_lease_example :
    (expires_at : Datetime) × (some lease_end ≡ some expires_at)
    × (IsReplay claimed_db
          (leased "broker-1" (add_seconds late 60))
          (record { keys = retaken ∷ [] })
        ⊎ (expires_at.micros ≤ late.micros))
one_live_lease_example =
    one_live_lease none (some (new_key request lease_end)) request request noon noon late late
      (record { keys = [] }) (leased "broker-1" lease_end) claimed_db
      (leased "broker-1" (add_seconds late 60)) (record { keys = retaken ∷ [] }) leased_first refl
      refl leased_again

abbrev completed : PaymentIdempotencyKey
completed =
    finished (new_key request lease_end) "completed" 201 end (some 9) (add_seconds noon 3600)

done :
    complete_create_request key 201 end noon 3600 (some 9) claimed_db
    ≡ (ok tt, record { keys = completed ∷ [] })
unfolding complete_create_request
done = refl

complete_then_claim_example :
    claim_create_request request late late (record { keys = completed ∷ [] })
    ≡ (ok (answer "broker-1" 201 end), record { keys = completed ∷ [] })
complete_then_claim_example =
    complete_then_claim request 201 end noon 3600 (some 9) late late claimed_db
      (record { keys = completed ∷ [] }) (new_key request lease_end) refl refl done

expired_claim_is_leased_example :
    (expires_at : Datetime) × (claim_create_request request late late claimed_db ≡ (
      ok (leased "broker-1" expires_at),
      put_key (taken (new_key request lease_end) expires_at) claimed_db,
    ))
    × ((add_seconds late 60).micros ≤ expires_at.micros)
    × ((request.key.operation ≡ "sessions.prepare" × lease_end.micros < expires_at.micros)
        ⊎ (request.key.operation ≢ "sessions.prepare" × (expires_at ≡ add_seconds late 60)))
expired_claim_is_leased_example =
    expired_claim_is_leased request late late claimed_db (new_key request lease_end) refl refl refl
      (omega arith)

abbrev tombstone : PaymentIdempotencyKey
tombstone = finished (new_key request lease_end) "outcome_unknown" 502 end none noon

abbrev meanwhile : List Op
meanwhile =
    Op.expire late
    ∷ Op.claim (some (new_key request lease_end)) request late late
    ∷ Op.release 1 "order" (leased "broker-1" noon)
    ∷ []

tombstone_stays_example :
    find_key key (serve meanwhile (record { keys = tombstone ∷ [] })).keys ≡ some tombstone
tombstone_stays_example =
    tombstone_stays key tombstone meanwhile (record { keys = tombstone ∷ [] }) refl refl
