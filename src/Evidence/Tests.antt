-- ===== src/Evidence/Tests.antt =====
-- An envelope that is authenticated under a policy of one key, and the theorems at concrete inputs.
use project_f.Base.{
  ℕ, zero, suc, String, ◌≡◌, refl, ap, sym, ◌∙◌, length, true, Option, none, some, List, [], ◌∷◌,
  ◌==◌, nat_eq, if◌then◌else◌,
}
use project_f.Base.Int.{pos}
use project_f.Base.Result.{ok, err, value_error}
use project_f.Evidence.{
  Bytes, Doc, text, whole, truth, list, dict, empty, item, entry, no_entry, Codec, scan, accepts,
  read_json,
}
use project_f.Evidence.Format.{
  Inspection, payload_type, inspect_envelope, inspect_fields, read_statement, check_statement,
  check_report, read_base64, key_id,
}
use project_f.Evidence.Trust.{
  Authenticated, TrustedKey, find_key, read_policy, read_keys, read_key, labels, check_key,
  authenticate_envelope,
}
use project_f.Evidence.Authentic.{Authorizes, authenticate_envelope-Authorizes}
use project_f.Evidence.Signed.{pae_injective, NoSpace}

abbrev pub repeat : ℕ → ℕ → Bytes
repeat zero b = []
repeat (suc n) b = b ∷ repeat n b

-- 1: the policy, 2: the envelope, 3: its payload, 4: the report, 7: a public key, 9: a signature
abbrev policy_doc : Doc
policy_doc = dict (
    entry "version" (whole (pos 1)) (
      entry "keys"
        (list (
          item
            (dict (
              entry "keyid" (text "sha256:hash") (
                entry "public_key" (text "7") (
                  entry "issuer" (text "ci") (
                    entry "audiences" (list (item (text "shop") empty)) (
                      entry "not_before" (whole (pos 10)) (
                        entry "not_after" (whole (pos 90))
                          (entry "status" (text "active") no_entry))))))))
            empty))
        no_entry))

abbrev envelope : Doc
envelope = dict (
    entry "payloadType" (text payload_type) (
      entry "payload" (text "3") (
        entry "signatures"
          (list (
            item (dict (entry "keyid" (text "sha256:hash") (entry "sig" (text "9") no_entry)))
              empty))
          no_entry)))

abbrev statement : Doc
statement = dict (
    entry "version" (whole (pos 1)) (
      entry "issuer" (text "ci") (
        entry "audience" (text "shop") (
          entry "keyid" (text "sha256:hash") (
            entry "issued_at" (whole (pos 20)) (
              entry "expires_at" (whole (pos 40))
                (entry "report" (text "4") (entry "report_sha256" (text "hash") no_entry))))))))

abbrev pub report : Doc
report = dict (
    entry "report_version" (text "0.0.2") (
      entry "evidence"
        (dict (entry "version" (whole (pos 1)) (entry "complete" (truth true) no_entry)))
        (entry "report_digest" (text "digest") no_entry)))

abbrev pub first : Bytes → ℕ
first [] = 0
first (b ∷ bytes) = b

abbrev read_demo : Bytes → Option Doc
read_demo bytes =
    if nat_eq (first bytes) 1
    then some policy_doc
    else if nat_eq (first bytes) 2
    then some envelope
    else if nat_eq (first bytes) 3
    then some statement
    else if nat_eq (first bytes) 4
    then some report
    else none

abbrev encode_demo : Bytes → String
encode_demo bytes =
    if nat_eq (first bytes) 3
    then "3"
    else if nat_eq (first bytes) 4
    then "4"
    else if nat_eq (first bytes) 7
    then "7"
    else "9"

abbrev decode_demo : String → Option Bytes
decode_demo s =
    if s == "3"
    then some (3 ∷ [])
    else if s == "4"
    then some (4 ∷ [])
    else if s == "7"
    then some (repeat 32 7)
    else if s == "9"
    then some (repeat 64 9)
    else none

abbrev pub codec : Codec
codec = record {
  read = read_demo;
  write = λ d. [];
  finite = λ s. true;
  encode_base64 = encode_demo;
  decode_base64 = decode_demo;
  sha256 = λ b. "hash";
  utf8 = λ s. [];
  decimal = λ n. repeat n 49;
  fullmatch = λ pattern s. true;
  stable_digest = λ es. "digest";
  verify = λ key signature message. true;
}

abbrev pub authenticated : Authenticated
authenticated = record {
  statement = record {
    issuer = "ci";
    audience = "shop";
    keyid = "sha256:hash";
    issued_at = 20;
    expires_at = 40;
    report = 4 ∷ [];
  };
  verified_at = 30;
}

pub accepted : authenticate_envelope codec (2 ∷ []) (1 ∷ []) "ci" "shop" 30 60 ≡ ok authenticated
unfolding authenticate_envelope check_key read_policy read_keys read_key labels inspect_envelope
    inspect_fields read_statement check_statement check_report read_base64 key_id read_json scan
    accepts
accepted = refl

-- After the statement has expired
expired :
    authenticate_envelope codec (2 ∷ []) (1 ∷ []) "ci" "shop" 40 60
    ≡ err (value_error "attestation or key not currently valid")
unfolding authenticate_envelope check_key read_policy read_keys read_key labels inspect_envelope
    inspect_fields read_statement check_statement check_report read_base64 key_id read_json scan
    accepts
expired = refl

authenticate_envelope-Authorizes_example :
    (keys : List TrustedKey) × (key : TrustedKey) × (i : Inspection) × (read_policy codec (1 ∷ [])
      ≡ ok keys)
    × (find_key i.statement.keyid keys ≡ some key)
    × (inspect_envelope codec (2 ∷ []) ≡ ok i)
    × (key_id codec key.public_key ≡ ok i.statement.keyid)
    × (read_statement codec i.payload ≡ ok authenticated.statement)
    × Authorizes codec key i "ci" "shop" 30 60
authenticate_envelope-Authorizes_example =
    authenticate_envelope-Authorizes codec (2 ∷ []) (1 ∷ []) "ci" "shop" 30 60 authenticated
      accepted

repeat-NoSpace : (n : ℕ) → NoSpace (repeat n 49)
repeat-NoSpace zero = tt
repeat-NoSpace (suc n) = (refl, repeat-NoSpace n)

length-repeat : (n b : ℕ) → length (repeat n b) ≡ n
length-repeat zero b = refl
length-repeat (suc n) b = ap suc (length-repeat n b)

repeat_injective : (m n : ℕ) → repeat m 49 ≡ repeat n 49 → m ≡ n
repeat_injective m n e = sym (length-repeat m 49) ∙ ap length e ∙ length-repeat n 49

pae_injective_example : (payload_type ≡ payload_type) × (◌≡◌ {A = Bytes} (3 ∷ []) (3 ∷ []))
pae_injective_example =
    pae_injective codec payload_type payload_type (3 ∷ []) (3 ∷ []) repeat-NoSpace repeat_injective
      (λ _. refl) refl
