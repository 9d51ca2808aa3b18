-- ===== src/Evidence/Trust.antt =====
-- foresee/evidence_auth.py: the trust policy, and the authentication of an envelope under it.
use project_f.Base.{
  ℕ, ◌-◌, leb, ltb, String, Bool, true, false, not, ◌&&◌, Option, none, some, List, [], ◌∷◌, ◌==◌,
  contains, if◌then◌else◌,
}
use project_f.Base.Result.{Result, ok, value_error, guard, or_raise, ◌>>=◌, ◌>>◌}
use project_f.Evidence.{
  Bytes, Doc, text, list, Docs, empty, item, Entries, find, has_fields, doc_count, Codec, read_json,
}
use project_f.Evidence.Format.{
  Statement, Inspection, max_time, entries_of, is_one, is_text, time_in, label_pattern, label_in,
  read_base64, key_id, inspect_envelope, read_statement, signing_bytes, pae, payload_type,
  encode_envelope,
}

abbrev pub max_policy : ℕ
max_policy = 65536

abbrev pub max_keys : ℕ
max_keys = 64

abbrev pub max_audiences : ℕ
max_audiences = 32

abbrev pub key_fields : List String
key_fields =
    "keyid" ∷ "public_key" ∷ "issuer" ∷ "audiences" ∷ "not_before" ∷ "not_after" ∷ "status" ∷ []

-- `_TrustedKey`
pub record TrustedKey : Type 0 where
  pub keyid : String
  pub public_key : Bytes
  pub issuer : String
  pub audiences : List String
  pub not_before : ℕ
  pub not_after : ℕ
  pub active : Bool

-- `AuthenticatedEnvelope`
pub record Authenticated : Type 0 where
  pub statement : Statement
  pub verified_at : ℕ

abbrev pub docs_in : Option Doc → Option Docs
docs_in (some (list ds)) = some ds
docs_in _ = none

-- status in ("active", "revoked")
abbrev pub status_in : Option Doc → Option Bool
status_in (some (text s)) =
    if s == "active" then some true else if s == "revoked" then some false else none
status_in _ = none

-- keys.get(keyid)
abbrev pub find_key : String → List TrustedKey → Option TrustedKey
find_key keyid [] = none
find_key keyid (key ∷ keys) = if key.keyid == keyid then some key else find_key keyid keys

abbrev pub is_known_key : String → List TrustedKey → Bool
is_known_key keyid keys = elim (find_key keyid keys) [ none ↦ false | some key ↦ true ]

-- len(set(audiences)) == len(audiences)
abbrev pub distinct_texts : List String → Bool
distinct_texts [] = true
distinct_texts (s ∷ ss) = not (contains ss s) && distinct_texts ss

module _ (codec : Codec) where
  -- for audience in audiences: _label(audience)
  unfoldable pub labels : Docs → Result (List String)
  labels empty = ok []
  labels (item d ds) = do
    s ← or_raise (label_in codec (some d)) (value_error "invalid identity label")
    rest ← labels ds
    ok (s ∷ rest)

  -- The tests of `_policy` on the fields of a key
  unfoldable pub read_key : List TrustedKey → Entries → Result TrustedKey
  read_key keys es = do
    guard (has_fields key_fields es) (value_error "invalid trusted key fields")
    public_key ← read_base64 codec 32 (find "public_key" es)
    fingerprint ← key_id codec public_key
    guard (is_text fingerprint (find "keyid" es) && not (is_known_key fingerprint keys))
        (value_error "mismatched or duplicate trusted key fingerprint")
    issuer ← or_raise (label_in codec (find "issuer" es)) (value_error "invalid identity label")
    ds ← or_raise (docs_in (find "audiences" es)) (value_error "invalid trusted audiences")
    guard (leb 1 (doc_count ds) && leb (doc_count ds) max_audiences)
        (value_error "invalid trusted audiences")
    audiences ← labels ds
    guard (distinct_texts audiences) (value_error "duplicate trusted audience")
    not_before ← or_raise (time_in (find "not_before" es)) (value_error "invalid integer timestamp")
    not_after ← or_raise (time_in (find "not_after" es)) (value_error "invalid integer timestamp")
    guard (ltb not_before not_after) (value_error "invalid trusted key validity or status")
    active ←
        or_raise (status_in (find "status" es))
          (value_error "invalid trusted key validity or status")
    ok (record {
      keyid = fingerprint;
      public_key = public_key;
      issuer = issuer;
      audiences = audiences;
      not_before = not_before;
      not_after = not_after;
      active = active;
    })

  -- The loop of `_policy`
  unfoldable pub read_keys : List TrustedKey → Docs → Result (List TrustedKey)
  read_keys keys empty = ok keys
  read_keys keys (item d ds) = do
    es ← or_raise (entries_of d) (value_error "invalid trusted key fields")
    key ← read_key keys es
    read_keys (key ∷ keys) ds

  -- `_policy`
  unfoldable pub read_policy : Bytes → Result (List TrustedKey)
  read_policy raw = do
    d ← read_json codec max_policy raw
    es ← or_raise (entries_of d) (value_error "invalid trust policy")
    guard (has_fields ("version" ∷ "keys" ∷ []) es && is_one (find "version" es))
        (value_error "invalid trust policy")
    ds ← or_raise (docs_in (find "keys" es)) (value_error "invalid trust policy")
    guard (leb (doc_count ds) max_keys) (value_error "invalid trust policy")
    read_keys [] ds

  -- The tests of `authenticate_envelope` on a key of the policy
  unfoldable pub check_key :
      TrustedKey → Inspection → String → String → (now max_lifetime : ℕ) → Result Authenticated
  check_key key i issuer audience now max_lifetime = do
    guard key.active (value_error "unknown or revoked signing key")
    guard (i.statement.issuer == issuer && key.issuer == issuer)
        (value_error "issuer not authorized")
    guard (i.statement.audience == audience && contains key.audiences audience)
        (value_error "audience not authorized")
    guard
        (leb key.not_before i.statement.issued_at
          && ltb i.statement.issued_at i.statement.expires_at
          && leb i.statement.expires_at key.not_after)
        (value_error "attestation outside key validity")
    guard
        ((leb key.not_before now && ltb now key.not_after)
          && (leb i.statement.issued_at now && ltb now i.statement.expires_at))
        (value_error "attestation or key not currently valid")
    guard (leb (i.statement.expires_at - i.statement.issued_at) max_lifetime)
        (value_error "attestation lifetime exceeds policy")
    guard (codec.verify key.public_key i.signature (signing_bytes codec i))
        (value_error "invalid attestation signature")
    ok (record { statement = i.statement; verified_at = now })

  -- `authenticate_envelope`
  unfoldable pub authenticate_envelope :
      Bytes → Bytes → (issuer audience : String) → (now max_lifetime : ℕ) → Result Authenticated
  authenticate_envelope raw policy issuer audience now max_lifetime = do
    guard (codec.fullmatch label_pattern issuer) (value_error "invalid identity label")
    guard (codec.fullmatch label_pattern audience) (value_error "invalid identity label")
    guard (leb now max_time) (value_error "invalid integer timestamp")
    guard (leb 1 max_lifetime && leb max_lifetime max_time)
        (value_error "max_lifetime must be a positive bounded integer")
    keys ← read_policy policy
    i ← inspect_envelope codec raw
    key ← or_raise (find_key i.statement.keyid keys) (value_error "unknown or revoked signing key")
    check_key key i issuer audience now max_lifetime

  -- `sign_statement`, with the public key of the signer and its `sign`
  unfoldable pub sign_statement : Bytes → (public_key : Bytes) → (Bytes → Bytes) → Result Bytes
  sign_statement payload public_key sign = do
    s ← read_statement codec payload
    fingerprint ← key_id codec public_key
    guard (s.keyid == fingerprint) (value_error "signing key does not match statement fingerprint")
    encode_envelope codec payload (sign (pae codec payload_type payload))
