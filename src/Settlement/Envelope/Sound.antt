-- ===== src/Settlement/Envelope/Sound.antt =====
-- What `_verify_envelope` of settlement_verification.py accepts.
use livepeer_open_clearingho.Base.{
  ℕ, ◌≡◌, inl, inr, refl, subst, String, Option, none, some, List, Bool, true, false, not, ◌||◌,
  str_eq, Bool-cases, if◌then◌else◌,
}
use livepeer_open_clearingho.Base.Json.{Fields, get, as_text, as_object}
use livepeer_open_clearingho.Base.Time.{Datetime}
use livepeer_open_clearingho.Base.Result.{
  ok, err, >>=-eq-ok, >>-eq-ok, refuse->>-eq-ok, ok-injective,
}
use livepeer_open_clearingho.Settlement.Records.{SettlementRecord, rejected}
use livepeer_open_clearingho.Settlement.Keys.{Delegation, authorize_key}
use livepeer_open_clearingho.Settlement.Keys.Sound.{AnyDelegates, authorize_key-AnyDelegates}
use livepeer_open_clearingho.Settlement.Diagnostics.{parse_timestamp, require_aware, joined}
use livepeer_open_clearingho.Settlement.Envelope.{
  Codec, or_reject, is_text, recover_public_key, signed_payload, verify_envelope,
}

pub or_reject-eq-ok :
    {A : Type 0} (o : Option A) (code : String) {a : A} → or_reject o code ≡ ok a → o ≡ some a
or_reject-eq-ok none code h = cc
or_reject-eq-ok (some b) code h = cc

require_aware-aware :
    (codec : Codec) (field : String) (o : Option Datetime) (t : Datetime)
    → require_aware codec.fromisoformat field o ≡ ok t
    → t.aware ≡ true
require_aware-aware codec field none t h = cc
require_aware-aware codec field (some parsed) t h = aware_only parsed.aware parsed t refl h
  where
    aware_only :
        (b : Bool) (parsed t : Datetime)
        → parsed.aware ≡ b
        → (if b then ok parsed else err (rejected (joined "invalid_" field))) ≡ ok t
        → t.aware ≡ true
    aware_only true parsed t e h = rw (← ok-injective h) e
    aware_only false parsed t e h = cc

pub parse_timestamp-aware :
    (codec : Codec) (value : Option String) (field : String) (t : Datetime)
    → parse_timestamp codec.fromisoformat value field ≡ ok t
    → t.aware ≡ true
parse_timestamp-aware codec none field t h = cc
parse_timestamp-aware codec (some value) field t h = elim (Bool-cases (str_eq value "")) [
  | inl missing ↦ absurd (cc (rw missing at h))
  | inr given ↦ require_aware-aware codec field (codec.fromisoformat value) t (rw given at h)
]

-- The payload of a signed payload is the envelope's, and the key was recovered from the signature
-- over its canonical form.
abbrev pub IsSigned : Codec → Fields → Fields × String → Type 0
IsSigned codec envelope (payload, key) =
    (as_object (get "payload" envelope) ≡ some payload)
    × (signature : Fields) × (canonical : List ℕ) × (as_object (get "signature" envelope)
        ≡ some signature)
    × (codec.dumps payload ≡ some canonical)
    × (recover_public_key codec canonical (as_text (get "value" signature)) ≡ ok key)

pub signed_payload-IsSigned :
    (codec : Codec) (envelope : Fields) (s : Fields × String)
    → signed_payload codec envelope ≡ ok s
    → IsSigned codec envelope s
unfolding signed_payload
signed_payload-IsSigned codec envelope s h =
    let (payload, has_payload, h₁) =
      >>=-eq-ok (or_reject (as_object (get "payload" envelope)) "malformed_envelope") _ h in
    let (signature, has_signature, h₂) =
      >>=-eq-ok (or_reject (as_object (get "signature" envelope)) "malformed_envelope") _ h₁ in
    let scheme =
      refuse->>-eq-ok
        (not (is_text (get "algorithm" signature) "secp256k1")
          || not (is_text (get "canonicalization" signature) "jcs"))
        _ _ h₂ in
    let (canonical, dumped, h₃) =
      >>=-eq-ok (or_reject (codec.dumps payload) "invalid_canonical_payload") _ scheme.1 in
    let (key, recovered, h₄) =
      >>=-eq-ok (recover_public_key codec canonical (as_text (get "value" signature))) _ h₃ in
    subst (IsSigned codec envelope) (ok-injective h₄) (
      or_reject-eq-ok _ _ has_payload,
      signature,
      canonical,
      or_reject-eq-ok _ _ has_signature,
      or_reject-eq-ok _ _ dumped,
      recovered,
    )

-- The result of an accepted envelope.
abbrev pub IsVerified :
    Codec → Fields → List Delegation → SettlementRecord × Datetime × String → Type 0
IsVerified codec envelope keys (r, issued_at, key) =
    (payload : Fields) × IsSigned codec envelope (payload, key)
    × (codec.parse_dict payload ≡ some r)
    × (issued_at.aware ≡ true)
    × AnyDelegates codec.fromisoformat key issued_at keys

-- An envelope that is accepted has a payload and a signature over its canonical form, from which
-- the returned key was recovered; the returned time has a time zone; a pinned delegation of that
-- key encloses it; and the record is the payload, decoded.
pub verify_envelope_sound :
    (codec : Codec) (envelope : Fields) (keys : List Delegation)
    (result : SettlementRecord × Datetime × String)
    → verify_envelope codec envelope keys ≡ ok result
    → IsVerified codec envelope keys result
unfolding verify_envelope
verify_envelope_sound codec envelope keys result h =
    let (signed, has_signed, h₁) = >>=-eq-ok (signed_payload codec envelope) _ h in
    let (time, timed, h₂) =
      >>=-eq-ok
        (parse_timestamp codec.fromisoformat (as_text (get "issued_at" (signed.0))) "issued_at") _
        h₁ in
    let authorized = >>-eq-ok (authorize_key codec.fromisoformat (signed.1) time keys) _ h₂ in
    let (r, decoded, h₃) =
      >>=-eq-ok (or_reject (codec.parse_dict (signed.0)) "malformed_payload") _ authorized.1 in
    subst (IsVerified codec envelope keys) (ok-injective h₃) (
      signed.0,
      signed_payload-IsSigned codec envelope signed has_signed,
      or_reject-eq-ok _ _ decoded,
      parse_timestamp-aware codec (as_text (get "issued_at" (signed.0))) "issued_at" time timed,
      authorize_key-AnyDelegates codec.fromisoformat (signed.1) time keys authorized.0.1,
    )
