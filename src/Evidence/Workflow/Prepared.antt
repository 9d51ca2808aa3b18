-- ===== src/Evidence/Workflow/Prepared.antt =====
-- foresee/evidence_format.py: the payload that is prepared for a report, and the report in its
-- statement.
use Prim.Native.String.{count}
use mathlib.Core.Path.{subst}
use project_f.Base.{
  ℕ, ◌+◌, ◌*◌, ◌/◌, leb, ltb, String, ◌≡◌, refl, sym, ◌∙◌, ◌&&◌, some, length, ◌==◌, map, false,
}
use project_f.Base.Int.{pos}
use project_f.Base.Result.{
  Result, ok, value_error, ◌>>=◌, Post-weaken, or_raise, or_raise-some, Post, Post->>=, Post-guard,
  Post-ok,
}
use project_f.Evidence.{
  Bytes, Doc, text, Entries, find, has_fields, Codec, scan, mark_of, accepts, read_json,
}
use project_f.Evidence.Format.{
  Statement, max_report, max_payload, fields, entries_of, is_one, is_text, label_in, key_id_in,
  time_in, read_base64, check_report, check_statement, read_statement, statement_doc,
  prepare_statement,
}

module _ (codec : Codec) where
  read_json-read :
      (maximum : ℕ) (raw : Bytes)
      → Post (λ d. codec.read raw ≡ some d) (read_json codec maximum raw)
  unfolding read_json
  read_json-read maximum raw = Post-guard Good (leb (length raw) maximum) _ _ λ _.
      Post-guard Good (scan (map mark_of raw) (pos 0) false false) _ _ λ _.
        Post->>= Good (or_raise (codec.read raw) _) _ λ d found.
          Post-guard Good (accepts codec d) _ _ λ _. or_raise-some (codec.read raw) _ found
    where
      Good : Doc → Type 0
      Good d = codec.read raw ≡ some d

  read_base64-decoded :
      (maximum : ℕ) (s : String)
      → Post (λ b. codec.decode_base64 s ≡ some b) (read_base64 codec maximum (some (text s)))
  unfolding read_base64
  read_base64-decoded maximum s = Post-guard Good (leb (count s) (4 * ((maximum + 2) / 3))) _ _ λ _.
      Post->>= Good (or_raise (codec.decode_base64 s) _) _ λ raw found.
        Post-guard Good (leb (length raw) maximum && codec.encode_base64 raw == s) _ _
          λ _. or_raise-some (codec.decode_base64 s) _ found
    where
      Good : Bytes → Type 0
      Good b = codec.decode_base64 s ≡ some b

  -- The report of a statement is what its field has in base64.
  check_statement-report :
      (es : Entries)
      → Post
          (λ s. read_base64 codec max_report (find "report" es) ≡ ok s.report)
          (check_statement codec es)
  unfolding check_statement
  check_statement-report es =
      Post-guard Good (has_fields fields es && is_one (find "version" es)) _ _ λ _.
        Post->>= Good (or_raise (label_in codec (find "issuer" es)) _) _ λ issuer _.
          Post->>= Good (or_raise (label_in codec (find "audience" es)) _) _ λ audience _.
            Post->>= Good (or_raise (key_id_in codec (find "keyid" es)) _) _ λ keyid _.
              Post->>= Good (or_raise (time_in (find "issued_at" es)) _) _ λ issued_at _.
                Post->>= Good (or_raise (time_in (find "expires_at" es)) _) _ λ expires_at _.
                  Post-guard Good (ltb issued_at expires_at) _ _ λ _.
                    Post->>= Good (read_base64 codec max_report (find "report" es)) _
                      λ report found.
                        Post-guard Good (is_text (codec.sha256 report) (find "report_sha256" es)) _
                          _ λ _. Post->>= Good (check_report codec report) _ λ _ _. found
    where
      Good : Statement → Type 0
      Good s = read_base64 codec max_report (find "report" es) ≡ ok s.report

  -- What is prepared is what is written for the arguments.
  pub prepare_statement-written :
      (report : Bytes) (issuer audience keyid issued_at expires_at : Doc) (payload : Bytes)
      → prepare_statement codec report issuer audience keyid issued_at expires_at ≡ ok payload
      → codec.write (statement_doc codec issuer audience keyid issued_at expires_at report)
        ≡ payload
  unfolding prepare_statement
  prepare_statement-written report issuer audience keyid issued_at expires_at payload h =
      Post-ok Good _
        (Post-guard Good (leb (length report) max_report) _ _
          λ _. Post->>= Good (read_statement codec written) _ λ _ _. refl)
        h
    where
      written : Bytes
      written = codec.write (statement_doc codec issuer audience keyid issued_at expires_at report)

      Good : Bytes → Type 0
      Good p = written ≡ p

  -- If the document and the base64 of the report are read back, so is the report.
  pub read_statement-report :
      (report : Bytes) (issuer audience keyid issued_at expires_at : Doc) (payload : Bytes)
      (s : Statement)
      → codec.read payload
        ≡ some (statement_doc codec issuer audience keyid issued_at expires_at report)
      → codec.decode_base64 (codec.encode_base64 report) ≡ some report
      → read_statement codec payload ≡ ok s
      → s.report ≡ report
  unfolding read_statement
  read_statement-report report issuer audience keyid issued_at expires_at payload s reads decodes
        h =
      Post-ok Good _
        (Post->>= Good (read_json codec max_payload payload) _ λ d e. of_doc d (
          some_injective (
            sym
              (Post-ok (λ d. codec.read payload ≡ some d) _ (read_json-read max_payload payload) e)
            ∙ reads)))
        h
    where
      Good : Statement → Type 0
      Good s = s.report ≡ report

      some_injective : {A : Type 0} {x y : A} → some x ≡ some y → x ≡ y
      some_injective e = cc

      doc : Doc
      doc = statement_doc codec issuer audience keyid issued_at expires_at report

      of_field :
          (s : Statement)
          → read_base64 codec max_report (some (text (codec.encode_base64 report))) ≡ ok s.report
          → s.report ≡ report
      of_field s e = some_injective (
          sym (
            Post-ok (λ b. codec.decode_base64 (codec.encode_base64 report) ≡ some b) _
              (read_base64-decoded max_report (codec.encode_base64 report)) e)
          ∙ decodes)

      checked : Doc → Result Statement
      checked d =
          or_raise (entries_of d) (value_error "invalid attestation statement fields or version")
          >>= check_statement codec

      of_doc : (d : Doc) → d ≡ doc → Post Good (checked d)
      of_doc d same =
          subst (λ d. Post Good (checked d)) (sym same)
            (Post-weaken _ Good (checked doc) of_field (check_statement-report _))
