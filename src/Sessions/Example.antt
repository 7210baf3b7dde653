-- ===== src/Sessions/Example.antt =====
-- A concrete engagement, for the tests: a job of 7 units under a hold of 400 wei.
use livepeer_open_clearingho.Base.{none, some, [], ◌∷◌}
use livepeer_open_clearingho.Base.Int.{pos}
use livepeer_open_clearingho.Base.Time.{Datetime, from_seconds}
use livepeer_open_clearingho.Settlement.Example.{quote, noon, keys}
use livepeer_open_clearingho.Sessions.Rows.{Snapshot, PaymentSession, SpendAuthorizationGrant, Db}
use livepeer_open_clearingho.Sessions.Engagement.{Claim, new_session}

abbrev pub later : Datetime
later = from_seconds 50000

abbrev pub route : Snapshot
route = record {
  broker_url = "https://broker";
  eth_address = "0x0a";
  capability = "capability";
  offering = "offering";
  protocol = "job";
  work_unit = "unit";
  price_per_work_unit_wei = 100;
  units_per_price = 3;
  quote = quote;
  settlement_domain_id = "domain";
  settlement_keys = keys;
  declaration = "";
}

abbrev pub claim : Claim
claim = record {
  user_id = 1;
  api_key_id = 2;
  route = route;
  broker_request_id = "request";
  estimated_units = 8;
  max_total_units = 10;
  max_debit_wei = 400;
  gateway_session_id = none;
}

-- A user with 1000 wei.
abbrev pub funded : Db
funded = record {
  billing = record {
    balances = record { user_id = 1; amount_wei = pos 1000; version = 1 } ∷ [];
    ledger = [];
    topups = [];
    windows = [];
    configs = [];
    next_id = 4;
  };
  sessions = [];
  grants = [];
  settlements = [];
  next_session_id = 5;
}

abbrev pub grant : SpendAuthorizationGrant
grant = record {
  session_id = 5;
  authorization_id = "auth";
  revision = 0;
  predecessor_authorization_id = none;
  request_id = "request";
  request_digest = "";
  caller_public_key = "";
  authorization_bytes = [];
  protocol = "job";
  route_snapshot = route;
  payer_eth_address = "0x0b";
  chain_id = 1;
  wholesale_account_id = "acct";
  settlement_domain_id = "domain";
  denomination = "wei";
  max_debit_wei = 300;
  max_total_units = 10;
  not_before = noon;
  expires_at = later;
  state = "issued";
  retired_at = none;
}

-- The claimed engagement once an authorization was granted.
abbrev pub authorized : PaymentSession
authorized = record (new_session 5 claim noon) { authorization_id = some "auth"; work_id = "auth" }
