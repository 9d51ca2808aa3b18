-- ===== src/Evidence/Envelope.antt =====
-- foresee/evidence_format.py: an envelope that is written is inspected as what it was written from.
use Prim.Native.String.{count}
use mathlib.Core.Path.{subst}
use project_f.Base.{
  ℕ, ◌+◌, ◌*◌, ◌/◌, ◌≤◌, leb, nat_eq, map, ◌≡◌, refl, sym, ◌∙◌, true, false, some, ==_refl, length,
  arith,
}
use project_f.Base.Int.{pos}
use project_f.Base.Result.{ok, value_error, guard, ◌>>◌, guard->>-eq-ok, >>=-eq-ok, ok_injective}
use project_f.Evidence.{Bytes, Doc, text, Codec, accepts, scan, mark_of, read_json}
use project_f.Evidence.Format.{
  Statement, max_payload, max_envelope, read_base64, read_statement, envelope_doc, encode_envelope,
  inspect_fields, inspect_envelope,
}

leb-true : (m n : ℕ) → m ≤ n → leb m n ≡ true
leb-true m n h = ground arith

-- The base64 of these bytes is read back, and has four characters for three bytes.
abbrev pub Encoded : Codec → Bytes → Type 0
Encoded codec b =
    (codec.decode_base64 (codec.encode_base64 b) ≡ some b)
    × (count (codec.encode_base64 b) ≡ 4 * ((length b + 2) / 3))

module _ (codec : Codec) where
  read_base64_lem :
      (maximum : ℕ) (b : Bytes)
      → Encoded codec b
      → length b ≤ maximum
      → read_base64 codec maximum (some (text (codec.encode_base64 b))) ≡ ok b
  unfolding read_base64
  read_base64_lem maximum b (decodes, sized) h =
      rw
        (
          leb-true (count (codec.encode_base64 b)) (4 * ((maximum + 2) / 3))
              (omega (arith, sized, h)),
          decodes,
          leb-true (length b) maximum h,
          ==_refl (codec.encode_base64 b),
        )
        refl

  read_json_bound :
      (maximum : ℕ) (raw : Bytes) {d : Doc}
      → read_json codec maximum raw ≡ ok d
      → length raw ≤ maximum
  unfolding read_json
  read_json_bound maximum raw h =
      let (few, _) = guard->>-eq-ok (leb (length raw) maximum) _ _ h in ground (arith, few)

  -- A payload that is read is within the limit.
  read_statement_bound :
      (payload : Bytes) {s : Statement}
      → read_statement codec payload ≡ ok s
      → length payload ≤ max_payload
  unfolding read_statement
  read_statement_bound payload h =
      let (d, e, _) = >>=-eq-ok (read_json codec max_payload payload) _ h in
      read_json_bound max_payload payload e

  read_json_lem :
      (maximum : ℕ) (d : Doc)
      → length (codec.write d) ≤ maximum
      → scan (map mark_of (codec.write d)) (pos 0) false false ≡ true
      → codec.read (codec.write d) ≡ some d
      → accepts codec d ≡ true
      → read_json codec maximum (codec.write d) ≡ ok d
  unfolding read_json
  read_json_lem maximum d few shallow reads accepted =
      rw (leb-true (length (codec.write d)) maximum few, shallow, reads, accepted) refl

  encode_envelope_lem :
      (payload signature : Bytes) (s : Statement)
      → read_statement codec payload ≡ ok s
      → encode_envelope codec payload signature ≡ (
          guard
            (nat_eq (length signature) 64)
            (value_error "Ed25519 signature must be 64 raw bytes")
          >> ok (codec.write (envelope_doc codec payload s.keyid signature)))
  unfolding encode_envelope
  encode_envelope_lem payload signature s said = rw said refl

  written :
      (payload signature : Bytes) (s : Statement) {raw : Bytes}
      → read_statement codec payload ≡ ok s
      → encode_envelope codec payload signature ≡ ok raw
      → (nat_eq (length signature) 64 ≡ true)
        × (codec.write (envelope_doc codec payload s.keyid signature) ≡ raw)
  written payload signature s said encoded =
      let (long, e) =
        guard->>-eq-ok (nat_eq (length signature) 64) _ _
          (sym (encode_envelope_lem payload signature s said) ∙ encoded) in
      (long, ok_injective e)

  inspected :
      (payload signature : Bytes) (s : Statement)
      → Encoded codec payload
      → Encoded codec signature
      → read_statement codec payload ≡ ok s
      → nat_eq (length signature) 64 ≡ true
      → length (codec.write (envelope_doc codec payload s.keyid signature)) ≤ max_envelope
      → scan
          (map mark_of (codec.write (envelope_doc codec payload s.keyid signature)))
          (pos 0)
          false
          false
        ≡ true
      → codec.read (codec.write (envelope_doc codec payload s.keyid signature))
        ≡ some (envelope_doc codec payload s.keyid signature)
      → inspect_envelope codec (codec.write (envelope_doc codec payload s.keyid signature))
        ≡ ok (record { payload = payload; statement = s; signature = signature })
  unfolding inspect_envelope inspect_fields accepts
  inspected payload signature s coded signed said long few shallow reads =
      rw
        (
          read_json_lem max_envelope (envelope_doc codec payload s.keyid signature) few shallow
              reads refl,
          read_base64_lem max_payload payload coded (read_statement_bound payload said),
          said,
          ==_refl s.keyid,
          read_base64_lem 64 signature signed (ground (arith, long)),
          long,
        )
        refl

  -- If the base64 of the payload and of the signature is read back and takes four characters for
  -- three bytes, the payload is read as a statement, and the JSON of the envelope is read back and within the limits of size and nesting, then the envelope that is encoded from
  -- a payload and a signature is inspected as that payload, its statement and that signature.
  pub inspect_envelope-encode_envelope :
      (payload signature raw : Bytes) (s : Statement)
      → Encoded codec payload
      → Encoded codec signature
      → read_statement codec payload ≡ ok s
      → encode_envelope codec payload signature ≡ ok raw
      → length raw ≤ max_envelope
      → scan (map mark_of raw) (pos 0) false false ≡ true
      → codec.read (codec.write (envelope_doc codec payload s.keyid signature))
        ≡ some (envelope_doc codec payload s.keyid signature)
      → inspect_envelope codec raw
        ≡ ok (record { payload = payload; statement = s; signature = signature })
  inspect_envelope-encode_envelope payload signature raw s coded signed said encoded few shallow
        reads =
      let (long, same) = written payload signature s said encoded in
      subst
        (λ bytes.
          inspect_envelope codec bytes
          ≡ ok (record { payload = payload; statement = s; signature = signature }))
        same
        (inspected payload signature s coded signed said long
          (subst (λ bytes. length bytes ≤ max_envelope) (sym same) few)
          (subst (λ bytes. scan (map mark_of bytes) (pos 0) false false ≡ true) (sym same) shallow)
          reads)
