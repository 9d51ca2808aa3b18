-- ===== src/Evidence/Format.antt =====
-- foresee/evidence_format.py: statements, envelopes and the bytes that are signed.
use project_f.Base.{
  ℕ, ◌+◌, ◌*◌, ◌/◌, leb, ltb, nat_eq, String, Bool, true, false, not, ◌&&◌, Option, none, some,
  List, [], ◌∷◌, ◌++◌, ◌==◌, length, if◌then◌else◌,
}
use Prim.Native.String.{count, ◌++◌ as append_text}
use project_f.Base.Int.{pos}
use project_f.Base.Result.{Result, ok, value_error, guard, or_raise, ◌>>=◌, ◌>>◌}
use project_f.Evidence.{
  Bytes, Doc, text, whole, truth, list, dict, empty, item, Entries, no_entry, entry, find, without,
  has_fields, Codec, read_json,
}

abbrev pub payload_type : String
payload_type = "application/vnd.foresee.report-attestation.v1+json"

abbrev pub label_pattern : String
label_pattern = "[A-Za-z0-9][A-Za-z0-9._:/@-]{0,199}\\Z"

abbrev pub key_id_pattern : String
key_id_pattern = "sha256:[0-9a-f]{64}\\Z"

abbrev pub max_time : ℕ
max_time = 253402300799

abbrev pub max_report : ℕ
max_report = 8000000

abbrev pub max_payload : ℕ
max_payload = 11000000

abbrev pub max_envelope : ℕ
max_envelope = 15000000

abbrev pub fields : List String
fields =
    "version" ∷ "issuer" ∷ "audience" ∷ "keyid" ∷ "issued_at" ∷ "expires_at" ∷ "report"
    ∷ "report_sha256" ∷ []

-- What a statement says, with the bytes of its report.
pub record Statement : Type 0 where
  pub issuer : String
  pub audience : String
  pub keyid : String
  pub issued_at : ℕ
  pub expires_at : ℕ
  pub report : Bytes

-- `EnvelopeInspection`
pub record Inspection : Type 0 where
  pub payload : Bytes
  pub statement : Statement
  pub signature : Bytes

abbrev pub text_in : Option Doc → Option String
text_in (some (text s)) = some s
text_in _ = none

abbrev pub entries_of : Doc → Option Entries
entries_of (dict es) = some es
entries_of _ = none

abbrev pub entries_in : Option Doc → Option Entries
entries_in (some d) = entries_of d
entries_in none = none

-- type(value) is int and value == 1
abbrev pub is_one : Option Doc → Bool
is_one (some (whole (pos n))) = nat_eq n 1
is_one _ = false

abbrev pub is_text : String → Option Doc → Bool
is_text s (some (text t)) = t == s
is_text s _ = false

abbrev pub is_true : Option Doc → Bool
is_true (some (truth b)) = b
is_true _ = false

-- evidence.get("redacted", False) is not False
abbrev pub is_redacted : Option Doc → Bool
is_redacted none = false
is_redacted (some (truth b)) = b
is_redacted (some _) = true

-- type(value) is int and 0 <= value <= 253402300799
abbrev pub time_in : Option Doc → Option ℕ
time_in (some (whole (pos n))) = if leb n max_time then some n else none
time_in _ = none

-- The only element of a list.
abbrev pub only_in : Option Doc → Option Doc
only_in (some (list (item d empty))) = some d
only_in _ = none

-- b'DSSEv1 '
abbrev pub prefix : Bytes
prefix = 68 ∷ 83 ∷ 83 ∷ 69 ∷ 118 ∷ 49 ∷ 32 ∷ []

module _ (codec : Codec) where
  -- `_unb64`
  unfoldable pub read_base64 : ℕ → Option Doc → Result Bytes
  read_base64 maximum value = do
    s ← or_raise (text_in value) (value_error "invalid base64 length")
    guard (leb (count s) (4 * ((maximum + 2) / 3))) (value_error "invalid base64 length")
    raw ← or_raise (codec.decode_base64 s) (value_error "invalid base64")
    guard (leb (length raw) maximum && codec.encode_base64 raw == s)
        (value_error "noncanonical or oversized base64")
    ok raw

  -- `key_id`
  unfoldable pub key_id : Bytes → Result String
  key_id public_key = do
    guard (nat_eq (length public_key) 32) (value_error "public key must be 32 raw bytes")
    ok (append_text "sha256:" (codec.sha256 public_key))

  -- `pae`
  unfoldable pub pae : String → Bytes → Bytes
  pae kind payload =
      prefix
      ++ (codec.decimal (length (codec.utf8 kind))
          ++ (32 ∷ (codec.utf8 kind ++ (32 ∷ (codec.decimal (length payload) ++ (32 ∷ payload))))))

  -- claimed != stable_digest(report)
  abbrev pub digest_holds : Entries → Bool
  digest_holds es =
      is_text (codec.stable_digest (without "report_digest" es)) (find "report_digest" es)

  -- `_report`
  unfoldable pub check_report : Bytes → Result (Unit {0})
  check_report raw = do
    d ← read_json codec max_report raw
    es ← or_raise (entries_of d) (value_error "attestation requires report version 0.0.2")
    guard (is_text "0.0.2" (find "report_version" es))
        (value_error "attestation requires report version 0.0.2")
    evidence ←
        or_raise (entries_in (find "evidence" es))
          (value_error "attestation requires explicitly complete, unredacted evidence")
    guard
        (is_one (find "version" evidence)
          && is_true (find "complete" evidence)
          && not (is_redacted (find "redacted" evidence)))
        (value_error "attestation requires explicitly complete, unredacted evidence")
    guard (digest_holds es) (value_error "report checksum mismatch")

  abbrev pub label_in : Option Doc → Option String
  label_in d = elim (text_in d) [
    | none ↦ none
    | some s ↦ if codec.fullmatch label_pattern s then some s else none
  ]

  abbrev pub key_id_in : Option Doc → Option String
  key_id_in d = elim (text_in d) [
    | none ↦ none
    | some s ↦ if codec.fullmatch key_id_pattern s then some s else none
  ]

  -- The tests of `_statement` on the fields
  unfoldable pub check_statement : Entries → Result Statement
  check_statement es = do
    guard (has_fields fields es && is_one (find "version" es))
        (value_error "invalid attestation statement fields or version")
    issuer ← or_raise (label_in (find "issuer" es)) (value_error "invalid issuer or audience label")
    audience ←
        or_raise (label_in (find "audience" es)) (value_error "invalid issuer or audience label")
    keyid ← or_raise (key_id_in (find "keyid" es)) (value_error "invalid key fingerprint")
    issued_at ←
        or_raise (time_in (find "issued_at" es))
          (value_error "timestamps must be integer Unix seconds within year 9999")
    expires_at ←
        or_raise (time_in (find "expires_at" es))
          (value_error "timestamps must be integer Unix seconds within year 9999")
    guard (ltb issued_at expires_at) (value_error "expiration must follow issuance")
    report ← read_base64 max_report (find "report" es)
    guard (is_text (codec.sha256 report) (find "report_sha256" es))
        (value_error "report byte digest mismatch")
    check_report report
    ok (record {
      issuer = issuer;
      audience = audience;
      keyid = keyid;
      issued_at = issued_at;
      expires_at = expires_at;
      report = report;
    })

  -- `_statement`
  unfoldable pub read_statement : Bytes → Result Statement
  read_statement payload = do
    d ← read_json codec max_payload payload
    es ← or_raise (entries_of d) (value_error "invalid attestation statement fields or version")
    check_statement es

  -- What `prepare_statement` writes; `_encode` sorts the keys.
  abbrev pub statement_doc : Doc → Doc → Doc → Doc → Doc → Bytes → Doc
  statement_doc issuer audience keyid issued_at expires_at report = dict (
      entry "audience" audience (
        entry "expires_at" expires_at (
          entry "issued_at" issued_at (
            entry "issuer" issuer (
              entry "keyid" keyid (
                entry "report" (text (codec.encode_base64 report)) (
                  entry "report_sha256" (text (codec.sha256 report))
                    (entry "version" (whole (pos 1)) no_entry))))))))

  -- `prepare_statement`
  unfoldable pub prepare_statement :
      Bytes → (issuer audience keyid issued_at expires_at : Doc) → Result Bytes
  prepare_statement report issuer audience keyid issued_at expires_at = do
    guard (leb (length report) max_report) (value_error "invalid report bytes or size")
    s ←
        read_statement
          (codec.write (statement_doc issuer audience keyid issued_at expires_at report))
    ok (codec.write (statement_doc issuer audience keyid issued_at expires_at report))

  -- What `encode_envelope` writes, its keys sorted
  abbrev pub envelope_doc : Bytes → String → Bytes → Doc
  envelope_doc payload keyid signature = dict (
      entry "payload" (text (codec.encode_base64 payload)) (
        entry "payloadType" (text payload_type) (
          entry "signatures"
            (list (
              item
                (dict (
                  entry "keyid" (text keyid)
                    (entry "sig" (text (codec.encode_base64 signature)) no_entry)))
                empty))
            no_entry)))

  -- `encode_envelope`
  unfoldable pub encode_envelope : Bytes → Bytes → Result Bytes
  encode_envelope payload signature = do
    s ← read_statement payload
    guard (nat_eq (length signature) 64) (value_error "Ed25519 signature must be 64 raw bytes")
    ok (codec.write (envelope_doc payload s.keyid signature))

  -- What `inspect_envelope` does with the fields of the envelope and of its signature
  unfoldable pub inspect_fields : Entries → Entries → Result Inspection
  inspect_fields es sig = do
    guard (has_fields ("keyid" ∷ "sig" ∷ []) sig) (value_error "invalid signature entry")
    payload ← read_base64 max_payload (find "payload" es)
    s ← read_statement payload
    guard (is_text s.keyid (find "keyid" sig)) (value_error "outer and signed key IDs differ")
    signature ← read_base64 64 (find "sig" sig)
    guard (nat_eq (length signature) 64) (value_error "invalid signature length")
    ok (record { payload = payload; statement = s; signature = signature })

  -- `inspect_envelope`
  unfoldable pub inspect_envelope : Bytes → Result Inspection
  inspect_envelope raw = do
    d ← read_json codec max_envelope raw
    es ←
        or_raise (entries_of d) (value_error "invalid envelope or unsupported signature count/type")
    guard
        (has_fields ("payloadType" ∷ "payload" ∷ "signatures" ∷ []) es
          && is_text payload_type (find "payloadType" es))
        (value_error "invalid envelope or unsupported signature count/type")
    only ←
        or_raise (only_in (find "signatures" es))
          (value_error "invalid envelope or unsupported signature count/type")
    sig ← or_raise (entries_of only) (value_error "invalid signature entry")
    inspect_fields es sig

  -- `EnvelopeInspection.signing_bytes`
  abbrev pub signing_bytes : Inspection → Bytes
  signing_bytes i = pae payload_type i.payload
