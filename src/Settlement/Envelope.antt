-- ===== src/Settlement/Envelope.antt =====
-- `_verify_envelope`, `_canonicalize`, `_recover_public_key` and `_parse_record` of
-- settlement_verification.py.
pub mod Sound
use livepeer_open_clearingho.Base.{
  ℕ, ◌+◌, ◌-◌, String, Option, none, some, List, [], ◌∷◌, ◌++◌, Bool, true, false, not, ◌&&◌, ◌||◌,
  ◌==◌, str_eq, length, if◌then◌else◌,
}
use livepeer_open_clearingho.Base.Json.{Json, Fields, get, as_text, as_object}
use livepeer_open_clearingho.Base.Time.{Datetime}
use livepeer_open_clearingho.Base.Result.{Result, ok, err, refuse, ◌>>=◌, ◌>>◌}
use livepeer_open_clearingho.Settlement.Records.{Checked, rejected, SettlementRecord}
use livepeer_open_clearingho.Settlement.Diagnostics.{codes, joined, parse_timestamp}
use livepeer_open_clearingho.Settlement.Hex.{from_hex, to_hex, decimal}
use livepeer_open_clearingho.Settlement.Keys.{Delegation, authorize_key}

-- The third-party code: `rfc8785.dumps`, the recovery of a public key by eth_keys from a 65-byte
-- signature and the keccak hash of a message, `json_format.ParseDict`, and
-- `datetime.fromisoformat(text.replace("Z", "+00:00"))`. None is where these raise.
pub record Codec : Type 0 where
  pub dumps : Fields → Option (List ℕ)
  pub recover_from_keccak : List ℕ → List ℕ → Option (List ℕ)
  pub parse_dict : Fields → Option SettlementRecord
  pub fromisoformat : String → Option Datetime

abbrev pub or_reject : {A : Type 0} → Option A → String → Checked A
or_reject none code = err (rejected code)
or_reject (some a) code = ok a

-- `value.startswith("0x")`, and then the rest.
abbrev pub without_0x : List ℕ → Option (List ℕ)
without_0x [] = none
without_0x (c ∷ []) = none
without_0x (c ∷ d ∷ rest) = if c == 48 && d == 120 then some rest else none

abbrev pub prefixed_hex : Option String → Option (List ℕ)
prefixed_hex none = none
prefixed_hex (some value) = without_0x (codes value)

-- The bytes before the last one, and that one.
abbrev pub recovery_byte : List ℕ → ℕ
recovery_byte [] = 0
recovery_byte (b ∷ []) = b
recovery_byte (b ∷ c ∷ bytes) = recovery_byte (c ∷ bytes)

abbrev pub lower_last : List ℕ → List ℕ
lower_last [] = []
lower_last (b ∷ []) = (b - 27) ∷ []
lower_last (b ∷ c ∷ bytes) = b ∷ lower_last (c ∷ bytes)

-- `f"\x19Ethereum Signed Message:\n{len(canonical)}".encode()`
abbrev pub signed_prefix : List ℕ → List ℕ
signed_prefix canonical =
    (25 ∷ []) ++ codes "Ethereum Signed Message:" ++ (10 ∷ []) ++ decimal (length canonical)

unfoldable pub recover_public_key : Codec → List ℕ → Option String → Checked String
recover_public_key codec canonical value = do
  digits ← or_reject (prefixed_hex value) "malformed_signature"
  raw ← or_reject (from_hex digits) "malformed_signature"
  refuse (not (length raw == 65) || not (recovery_byte raw == 27 || recovery_byte raw == 28))
      (rejected "malformed_signature")
  recovered ←
      or_reject (codec.recover_from_keccak (signed_prefix canonical ++ canonical) (lower_last raw))
        "invalid_signature"
  ok (joined "0x04" (to_hex recovered))

abbrev pub is_text : Option Json → String → Bool
is_text value expected = is_expected (as_text value)
  where
    is_expected : Option String → Bool
    is_expected none = false
    is_expected (some s) = str_eq s expected

-- The checks up to the public key, which both kinds of envelope share: the payload and the key.
unfoldable pub signed_payload : Codec → Fields → Checked (Fields × String)
signed_payload codec envelope = do
  payload ← or_reject (as_object (get "payload" envelope)) "malformed_envelope"
  signature ← or_reject (as_object (get "signature" envelope)) "malformed_envelope"
  refuse
      (not (is_text (get "algorithm" signature) "secp256k1")
        || not (is_text (get "canonicalization" signature) "jcs"))
      (rejected "unsupported_signature")
  canonical ← or_reject (codec.dumps payload) "invalid_canonical_payload"
  public_key ← recover_public_key codec canonical (as_text (get "value" signature))
  ok (payload, public_key)

unfoldable pub verify_envelope :
    Codec → Fields → List Delegation → Checked (SettlementRecord × Datetime × String)
verify_envelope codec envelope settlement_keys = do
  signed ← signed_payload codec envelope
  let payload = signed.0
  let public_key = signed.1
  issued_at ← parse_timestamp codec.fromisoformat (as_text (get "issued_at" payload)) "issued_at"
  authorize_key codec.fromisoformat public_key issued_at settlement_keys
  record' ← or_reject (codec.parse_dict payload) "malformed_payload"
  ok (record', issued_at, public_key)
