-- ===== src/Evidence/RoundTests.antt =====
-- An envelope that is encoded and inspected, and a report that is signed and verified.
use mathlib.Core.Path.{subst}
use project_f.Base.{
  arith, String, ◌≡◌, refl, true, false, none, some, [], ◌∷◌, ◌==◌, nat_eq, map, if◌then◌else◌,
}
use project_f.Base.Int.{pos}
use project_f.Base.Result.{ok_injective, ok}
use project_f.Evidence.{
  Bytes, Doc, text, whole, list, dict, empty, item, entry, no_entry, has_entry, Codec, mark_of,
  scan, accepts, read_json,
}
use project_f.Evidence.Format.{
  statement_doc, Statement, payload_type, encode_envelope, prepare_statement, inspect_envelope,
  read_statement, check_statement, check_report, read_base64, key_id,
}
use project_f.Evidence.Trust.{authenticate_envelope, sign_statement}
use project_f.Evidence.Envelope.{inspect_envelope-encode_envelope}
use project_f.Evidence.Workflow.{
  budget_or_default, Worker, answer, success, reproduced, replay_failed, worker_protocol,
  verification, replay_bounded, sign_report, verify_report,
}
use project_f.Evidence.Workflow.Verified.{
  IsReproduced, verify_report-IsReproduced, sign_report-IsReproduced,
}
use project_f.Evidence.Tests.{repeat, report, first, codec, authenticated, accepted}

-- A codec whose texts have the length of base64
abbrev signature_text : String
signature_text =
    "0123456789012345678901234567890123456789012345678901234567890123456789012345678901234567"

abbrev signature : Bytes
signature = repeat 64 9

abbrev round_statement : Doc
round_statement = dict (
    entry "audience" (text "shop") (
      entry "expires_at" (whole (pos 40)) (
        entry "issued_at" (whole (pos 20)) (
          entry "issuer" (text "ci") (
            entry "keyid" (text "sha256:hash") (
              entry "report" (text "AAAA") (
                entry "report_sha256" (text "hash")
                  (entry "version" (whole (pos 1)) no_entry))))))))

abbrev round_envelope : Doc
round_envelope = dict (
    entry "payload" (text "BBBB") (
      entry "payloadType" (text payload_type) (
        entry "signatures"
          (list (
            item
              (dict
                (entry "keyid" (text "sha256:hash") (entry "sig" (text signature_text) no_entry)))
              empty))
          no_entry)))

abbrev round_write : Doc → Bytes
round_write (dict es) = if has_entry "payloadType" es then 2 ∷ [] else 3 ∷ []
round_write _ = []

abbrev round_codec : Codec
round_codec = record {
  read = λ bytes.
      if nat_eq (first bytes) 2
      then some round_envelope
      else if nat_eq (first bytes) 3
      then some round_statement
      else some report;
  write = round_write;
  finite = λ s. true;
  encode_base64 = λ bytes.
      if nat_eq (first bytes) 3
      then "BBBB"
      else if nat_eq (first bytes) 4
      then "AAAA"
      else signature_text;
  decode_base64 = λ s.
      if s == "BBBB" then some (3 ∷ []) else if s == "AAAA" then some (4 ∷ []) else some signature;
  sha256 = λ b. "hash";
  utf8 = λ s. [];
  decimal = λ n. repeat n 49;
  fullmatch = λ pattern s. true;
  stable_digest = λ es. "digest";
  verify = λ key signature message. true;
}

abbrev said : Statement
said = record {
  issuer = "ci";
  audience = "shop";
  keyid = "sha256:hash";
  issued_at = 20;
  expires_at = 40;
  report = 4 ∷ [];
}

read_statement-said : read_statement round_codec (3 ∷ []) ≡ ok said
unfolding read_statement check_statement check_report read_base64 read_json scan accepts
read_statement-said = refl

encode_envelope-said : encode_envelope round_codec (3 ∷ []) signature ≡ ok (2 ∷ [])
unfolding encode_envelope read_statement check_statement check_report read_base64 read_json scan
    accepts
encode_envelope-said = refl

scan-envelope : scan (map mark_of (2 ∷ [])) (pos 0) false false ≡ true
unfolding scan
scan-envelope = refl

inspect_envelope-encode_envelope_example :
    inspect_envelope round_codec (2 ∷ [])
    ≡ ok (record { payload = 3 ∷ []; statement = said; signature = signature })
inspect_envelope-encode_envelope_example =
    inspect_envelope-encode_envelope round_codec (3 ∷ []) signature (2 ∷ []) said (refl, refl)
      (refl, refl) read_statement-said encode_envelope-said (omega arith) scan-envelope refl

-- Workers that answer that the report is reproduced, and with other bytes
abbrev reproduces : Worker
reproduces budget raw = answer success

abbrev mumbles : Worker
mumbles budget raw = answer "done"

verify_report-accepted :
    verify_report codec true reproduces (2 ∷ []) (1 ∷ []) "ci" "shop" 30 60 none
    ≡ ok (verification authenticated reproduced)
unfolding verify_report replay_bounded
verify_report-accepted = rw accepted refl

-- The envelope is authenticated also when the replay fails.
verify_report-failed :
    verify_report codec true mumbles (2 ∷ []) (1 ∷ []) "ci" "shop" 30 60 none
    ≡ ok (verification authenticated (replay_failed worker_protocol))
unfolding verify_report replay_bounded
verify_report-failed = rw accepted refl

verify_report-IsReproduced_example :
    (authenticate_envelope codec (2 ∷ []) (1 ∷ []) "ci" "shop" 30 60 ≡ ok authenticated)
    × IsReproduced true reproduces (4 ∷ []) (budget_or_default none)
verify_report-IsReproduced_example =
    verify_report-IsReproduced codec true reproduces (2 ∷ []) (1 ∷ []) "ci" "shop" 30 60 none
      (verification authenticated reproduced) verify_report-accepted refl

prepare_statement-said :
    prepare_statement round_codec
      (4 ∷ [])
      (text "ci")
      (text "shop")
      (text "sha256:hash")
      (whole (pos 20))
      (whole (pos 40))
    ≡ ok (3 ∷ [])
unfolding prepare_statement read_statement check_statement check_report read_base64 read_json scan
    accepts
prepare_statement-said = refl

sign_report-said :
    sign_report round_codec true reproduces
      (4 ∷ [])
      (repeat 32 7)
      (λ _. signature)
      (text "ci")
      (text "shop")
      (whole (pos 20))
      (whole (pos 40))
      none
    ≡ ok (2 ∷ [])
unfolding sign_report sign_statement key_id replay_bounded
sign_report-said = rw (prepare_statement-said, read_statement-said, encode_envelope-said) refl

read_back :
    (keyid : String)
    → key_id round_codec (repeat 32 7) ≡ ok keyid
    → round_codec.read (
        round_codec.write (
          statement_doc round_codec
            (text "ci")
            (text "shop")
            (text keyid)
            (whole (pos 20))
            (whole (pos 40))
            (4 ∷ [])))
      ≡ some (
          statement_doc round_codec
            (text "ci")
            (text "shop")
            (text keyid)
            (whole (pos 20))
            (whole (pos 40))
            (4 ∷ []))
unfolding key_id
read_back keyid h =
    subst
      (λ k.
        round_codec.read (3 ∷ [])
        ≡ some (
            statement_doc round_codec (text "ci") (text "shop") (text k) (whole (pos 20))
              (whole (pos 40)) (4 ∷ [])))
      (ok_injective h) refl

sign_report-IsReproduced_example :
    (payload : Bytes) × (s : Statement) × (read_statement round_codec payload ≡ ok s)
    × (key_id round_codec (repeat 32 7) ≡ ok s.keyid)
    × (s.report ≡ 4 ∷ [])
    × (round_codec.write (
          statement_doc round_codec
            (text "ci")
            (text "shop")
            (text s.keyid)
            (whole (pos 20))
            (whole (pos 40))
            (4 ∷ []))
        ≡ payload)
    × (encode_envelope round_codec payload signature ≡ ok (2 ∷ []))
    × IsReproduced true reproduces (4 ∷ []) (budget_or_default none)
sign_report-IsReproduced_example =
    sign_report-IsReproduced round_codec true reproduces (4 ∷ []) (repeat 32 7) (λ _. signature)
      (text "ci") (text "shop") (whole (pos 20)) (whole (pos 40)) none (2 ∷ []) read_back refl
      sign_report-said
