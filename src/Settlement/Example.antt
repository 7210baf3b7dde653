-- ===== src/Settlement/Example.antt =====
-- A concrete signed envelope, for the tests.
use livepeer_open_clearingho.Base.{String, Option, none, some, List, [], ◌∷◌, str_eq, if◌then◌else◌}
use livepeer_open_clearingho.Base.Json.{Fields, string, object, end, field}
use livepeer_open_clearingho.Base.Time.{Datetime, from_seconds}
use livepeer_open_clearingho.Settlement.Records.{SettlementRecord, QuoteRef, exact}
use livepeer_open_clearingho.Settlement.Keys.{Delegation}
use livepeer_open_clearingho.Settlement.Envelope.{Codec}

abbrev pub quote : QuoteRef
quote = record {
  quote_id = "quote";
  quote_version = 1;
  constraint_fingerprint = 1 ∷ [];
  route_fingerprint = 2 ∷ [];
}

-- A closed session under an authorization of 300 wei, 7 units at 100 wei for 3 units.
abbrev pub signed : SettlementRecord
signed = record {
  wholesale_account_id = "acct";
  settlement_domain_id = "domain";
  accepted_quote_ref = quote;
  request_id = "request";
  job_id = "job";
  work_id = "auth";
  predecessor_work_id = "";
  work_unit_name = "unit";
  gateway_session_id = "gateway";
  session_id = "session";
  authorization_id = "auth";
  rotation_generation = 0;
  settlement_seq = 4;
  state = "closed";
  actual_units = 7;
  billed_units = 7;
  claimed_units = 9;
  debited_units = 7;
  generation_debited_units = 7;
  payment_cumulative_units = 0;
  per_units = 3;
  amount_wei = 100 ∷ [];
  billed_value_wei = 234 ∷ [];
  funded_value_wei = 1 ∷ 0 ∷ [];
  generation_billed_value_wei = 234 ∷ [];
  authorized_value_wei = 1 ∷ 44 ∷ [];
  reserved_value_wei = [];
  released_value_wei = 66 ∷ [];
  outcome = exact;
  breakdown = ("termination_reason", "authorization_exhausted") ∷ [];
}

abbrev pub session_record : SettlementRecord
session_record = record signed { job_id = ""; request_id = "" }

abbrev pub noon : Datetime
noon = from_seconds 43200

abbrev pub day : String → Option Datetime
day text =
    if str_eq text "start"
    then some (from_seconds 0)
    else if str_eq text "noon"
    then some noon
    else some (from_seconds 86400)

-- A concrete function in the place of each piece of third-party code. Every payload is that record.
abbrev pub codec : Codec
codec = record {
  dumps = λ payload. some (1 ∷ 2 ∷ []);
  recover_from_keccak = λ message signature. some [];
  parse_dict = λ payload. some signed;
  fromisoformat = day;
}

abbrev pub envelope : Fields
envelope =
    field "payload"
      (object (field "issued_at" (string "noon") (field "authorization_id" (string "auth") end)))
      (field "signature"
        (object (
          field "algorithm" (string "secp256k1") (
            field "canonicalization" (string "jcs") (
              field "value"
                (string
                  "0x000000000000000000000000000000000000000000000000000000000000000000000000000000000000000000000000000000000000000000000000000000001b")
                end))))
        end)

abbrev pub keys : List Delegation
keys =
    record { public_key = some "0x05"; not_before = none; expires_at = none }
    ∷ record { public_key = some "0x04"; not_before = some "start"; expires_at = some "end" }
    ∷ []
