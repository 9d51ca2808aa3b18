-- ===== src/Evidence/Authentic.antt =====
-- foresee/evidence_auth.py: what is true of an envelope that is authenticated.
use mathlib.Core.Path.{subst}
use project_f.Base.{
  ℕ, ◌+◌, ◌-◌, ◌≤◌, ◌<◌, leb, ltb, nat_eq, String, ◌≡◌, refl, sym, ◌∙◌, ap, Bool, true, false, not,
  ◌&&◌, some, List, [], ◌∷◌, ◌==◌, ==_true, contains, length, if◌then◌else◌, arith, Bool-cases, inl,
  inr,
}
use project_f.Base.Result.{
  ok, or_raise, or_raise-some, Post, Post->>=, Post-guard, Post-ok, Post-weaken,
}
use project_f.Evidence.{
  Bytes, Docs, empty, item, doc_count, Entries, find, has_fields, Codec, read_json,
}
use project_f.Evidence.Format.{
  Inspection, max_time, entries_of, is_text, read_base64, key_id, inspect_envelope, inspect_fields,
  read_statement, signing_bytes, pae, payload_type, max_payload, max_envelope, only_in, is_one,
  label_pattern, label_in, time_in,
}
use project_f.Evidence.Trust.{
  TrustedKey, Authenticated, find_key, read_key, read_keys, read_policy, check_key,
  authenticate_envelope, key_fields, is_known_key, docs_in, labels, distinct_texts, status_in,
  max_audiences, max_policy, max_keys,
}

and_true : (a b : Bool) → a && b ≡ true → (a ≡ true) × (b ≡ true)
and_true true true h = (refl, refl)
and_true true false h = cc
and_true false b h = cc

module _ (codec : Codec) where
  -- Each key is named by the fingerprint of its bytes.
  abbrev pub AreNamed : List TrustedKey → Type 0
  AreNamed [] = Unit
  AreNamed (key ∷ keys) = (key_id codec key.public_key ≡ ok key.keyid) × AreNamed keys

  read_key-named :
      (keys : List TrustedKey) (es : Entries)
      → Post (λ key. key_id codec key.public_key ≡ ok key.keyid) (read_key codec keys es)
  unfolding read_key
  read_key-named keys es = Post-guard Named (has_fields key_fields es) _ _ λ _.
      Post->>= Named (read_base64 codec 32 (find "public_key" es)) _ λ public_key _.
        Post->>= Named (key_id codec public_key) _ λ fingerprint named.
          Post-guard Named
            (is_text fingerprint (find "keyid" es) && not (is_known_key fingerprint keys)) _ _
            λ _. Post->>= Named (or_raise (label_in codec (find "issuer" es)) _) _ λ issuer _.
              Post->>= Named (or_raise (docs_in (find "audiences" es)) _) _ λ ds _.
                Post-guard Named (leb 1 (doc_count ds) && leb (doc_count ds) max_audiences) _ _ λ _.
                  Post->>= Named (labels codec ds) _ λ audiences _.
                    Post-guard Named (distinct_texts audiences) _ _ λ _.
                      Post->>= Named (or_raise (time_in (find "not_before" es)) _) _ λ not_before _.
                        Post->>= Named (or_raise (time_in (find "not_after" es)) _) _ λ not_after _.
                          Post-guard Named (ltb not_before not_after) _ _ λ _.
                            Post->>= Named (or_raise (status_in (find "status" es)) _) _
                              λ active _. named
    where
      Named : TrustedKey → Type 0
      Named key = key_id codec key.public_key ≡ ok key.keyid

  read_keys-AreNamed :
      (keys : List TrustedKey) (ds : Docs) → AreNamed keys → Post AreNamed (read_keys codec keys ds)
  unfolding read_keys
  read_keys-AreNamed keys empty named = named
  read_keys-AreNamed keys (item d ds) named =
      Post->>= AreNamed (or_raise (entries_of d) _) _ λ es _.
        Post->>= AreNamed (read_key codec keys es) _ λ key e. read_keys-AreNamed (key ∷ keys) ds (
          Post-ok (λ k. key_id codec k.public_key ≡ ok k.keyid) _ (read_key-named keys es) e,
          named,
        )

  read_policy-AreNamed : (raw : Bytes) → Post AreNamed (read_policy codec raw)
  unfolding read_policy
  read_policy-AreNamed raw = Post->>= AreNamed (read_json codec max_policy raw) _ λ d _.
      Post->>= AreNamed (or_raise (entries_of d) _) _ λ es _.
        Post-guard AreNamed (has_fields ("version" ∷ "keys" ∷ []) es && is_one (find "version" es))
          _ _
          λ _. Post->>= AreNamed (or_raise (docs_in (find "keys" es)) _) _ λ ds _.
            Post-guard AreNamed (leb (doc_count ds) max_keys) _ _ λ _. read_keys-AreNamed [] ds tt

  find_key-AreNamed :
      (keyid : String) (keys : List TrustedKey) (key : TrustedKey)
      → AreNamed keys
      → find_key keyid keys ≡ some key
      → (key.keyid ≡ keyid) × (key_id codec key.public_key ≡ ok keyid)
  find_key-AreNamed keyid [] key named e = cc
  find_key-AreNamed keyid (k ∷ keys) key named e = elim (Bool-cases (k.keyid == keyid)) [
    | inl y ↦
        first (==_true k.keyid keyid y)
          (subst (λ b. (if b then some k else find_key keyid keys) ≡ some key) y e)
    | inr n ↦
        find_key-AreNamed keyid keys key named.1
          (subst (λ b. (if b then some k else find_key keyid keys) ≡ some key) n e)
  ]
    where
      same_key : some k ≡ some key → k ≡ key
      same_key h = cc

      first :
          k.keyid ≡ keyid
          → some k ≡ some key
          → (key.keyid ≡ keyid) × (key_id codec key.public_key ≡ ok keyid)
      first same h =
          subst (λ (x : TrustedKey). (x.keyid ≡ keyid) × (key_id codec x.public_key ≡ ok keyid))
            (same_key h) (same, named.0 ∙ ap ok same)

  -- The statement is read from the bytes that are signed.
  abbrev pub FromPayload : Inspection → Type 0
  FromPayload i = (read_statement codec i.payload ≡ ok i.statement) × (length i.signature ≡ 64)

  inspect_fields-FromPayload : (es sig : Entries) → Post FromPayload (inspect_fields codec es sig)
  unfolding inspect_fields
  inspect_fields-FromPayload es sig =
      Post-guard FromPayload (has_fields ("keyid" ∷ "sig" ∷ []) sig) _ _ λ _.
        Post->>= FromPayload (read_base64 codec max_payload (find "payload" es)) _ λ payload _.
          Post->>= FromPayload (read_statement codec payload) _ λ s said.
            Post-guard FromPayload (is_text s.keyid (find "keyid" sig)) _ _ λ _.
              Post->>= FromPayload (read_base64 codec 64 (find "sig" sig)) _ λ signature _.
                Post-guard FromPayload (nat_eq (length signature) 64) _ _
                  λ long. (said, ground (arith, long))

  inspect_envelope-FromPayload : (raw : Bytes) → Post FromPayload (inspect_envelope codec raw)
  unfolding inspect_envelope
  inspect_envelope-FromPayload raw =
      Post->>= FromPayload (read_json codec max_envelope raw) _ λ d _.
        Post->>= FromPayload (or_raise (entries_of d) _) _ λ es _.
          Post-guard FromPayload
            (has_fields ("payloadType" ∷ "payload" ∷ "signatures" ∷ []) es
              && is_text payload_type (find "payloadType" es))
            _ _
            λ _. Post->>= FromPayload (or_raise (only_in (find "signatures" es)) _) _ λ only _.
              Post->>= FromPayload (or_raise (entries_of only) _) _
                λ sig _. inspect_fields-FromPayload es sig

  -- The key is active, is of this issuer and for this audience, both it and the statement are valid
  -- now, the statement within the key's time and for no longer than this, and the
  -- signature verifies over the payload.
  abbrev pub Authorizes :
      TrustedKey → Inspection → String → String → (now max_lifetime : ℕ) → Type 0
  Authorizes key i issuer audience now max_lifetime =
      (key.active ≡ true)
      × ((i.statement.issuer ≡ issuer) × (key.issuer ≡ issuer))
      × ((i.statement.audience ≡ audience) × (contains key.audiences audience ≡ true))
      × ((key.not_before ≤ i.statement.issued_at) × (i.statement.expires_at ≤ key.not_after))
      × ((i.statement.issued_at ≤ now) × (now < i.statement.expires_at))
      × (i.statement.expires_at ≤ i.statement.issued_at + max_lifetime)
      × (codec.verify key.public_key i.signature (pae codec payload_type i.payload) ≡ true)

  check_key-Authorizes :
      (key : TrustedKey) (i : Inspection) (issuer audience : String) (now max_lifetime : ℕ)
      → Post
          (λ a.
            (a.statement ≡ i.statement)
            × (a.verified_at ≡ now)
            × Authorizes key i issuer audience now max_lifetime)
          (check_key codec key i issuer audience now max_lifetime)
  unfolding check_key
  check_key-Authorizes key i issuer audience now max_lifetime =
      Post-guard Good key.active _ _ λ active.
        Post-guard Good (i.statement.issuer == issuer && key.issuer == issuer) _ _ λ issued.
          Post-guard Good (i.statement.audience == audience && contains key.audiences audience) _ _
            λ heard.
              Post-guard Good
                (leb key.not_before i.statement.issued_at
                  && ltb i.statement.issued_at i.statement.expires_at
                  && leb i.statement.expires_at key.not_after)
                _ _
                λ within.
                  Post-guard Good
                    ((leb key.not_before now && ltb now key.not_after)
                      && (leb i.statement.issued_at now && ltb now i.statement.expires_at))
                    _ _
                    λ current.
                      Post-guard Good
                        (leb (i.statement.expires_at - i.statement.issued_at) max_lifetime) _ _
                        λ short.
                          Post-guard Good
                            (codec.verify key.public_key i.signature (signing_bytes codec i)) _ _
                            λ signed. (
                              refl,
                              refl,
                              (
                                active,
                                texts _ _ _ _ issued,
                                hears _ _ _ heard,
                                ground (arith, within),
                                ground (arith, current),
                                ground (arith, short),
                                signed,
                              ),
                            )
    where
      Good : Authenticated → Type 0
      Good a =
          (a.statement ≡ i.statement)
          × (a.verified_at ≡ now)
          × Authorizes key i issuer audience now max_lifetime

      texts : (s t u v : String) → (s == t) && (u == v) ≡ true → (s ≡ t) × (u ≡ v)
      texts s t u v h = let (a, b) = and_true (s == t) (u == v) h in (==_true s t a, ==_true u v b)

      hears : (s t : String) (b : Bool) → (s == t) && b ≡ true → (s ≡ t) × (b ≡ true)
      hears s t b h = let (a, c) = and_true (s == t) b h in (==_true s t a, c)

  -- An envelope that is authenticated has a key in the policy: the statement names the key, whose
  -- name is the fingerprint of its bytes; the statement is read from the payload that the signature
  -- verifies over, and the key authorizes it for the expected issuer and audience, now.
  pub authenticate_envelope-Authorizes :
      (raw policy : Bytes) (issuer audience : String) (now max_lifetime : ℕ) (a : Authenticated)
      → authenticate_envelope codec raw policy issuer audience now max_lifetime ≡ ok a
      → (keys : List TrustedKey) × (key : TrustedKey) × (i : Inspection) × (read_policy codec policy
          ≡ ok keys)
        × (find_key i.statement.keyid keys ≡ some key)
        × (inspect_envelope codec raw ≡ ok i)
        × (key_id codec key.public_key ≡ ok i.statement.keyid)
        × (read_statement codec i.payload ≡ ok a.statement)
        × Authorizes key i issuer audience now max_lifetime
  unfolding authenticate_envelope
  authenticate_envelope-Authorizes raw policy issuer audience now max_lifetime a h =
      Post-ok Good _
        (Post-guard Good (codec.fullmatch label_pattern issuer) _ _ λ _.
          Post-guard Good (codec.fullmatch label_pattern audience) _ _ λ _.
            Post-guard Good (leb now max_time) _ _ λ _.
              Post-guard Good (leb 1 max_lifetime && leb max_lifetime max_time) _ _ λ _.
                Post->>= Good (read_policy codec policy) _ λ keys trusted.
                  Post->>= Good (inspect_envelope codec raw) _ λ i seen.
                    Post->>= Good (or_raise (find_key i.statement.keyid keys) _) _ λ key found.
                      Post-weaken _ Good (check_key codec key i issuer audience now max_lifetime)
                        (λ b (same, at, allowed).
                          authorized keys key i b trusted seen
                            (or_raise-some (find_key i.statement.keyid keys) _ found) same allowed)
                        (check_key-Authorizes key i issuer audience now max_lifetime))
        h
    where
      Good : Authenticated → Type 0
      Good b =
          (keys : List TrustedKey) × (key : TrustedKey) × (i : Inspection) × (read_policy codec
              policy
            ≡ ok keys)
          × (find_key i.statement.keyid keys ≡ some key)
          × (inspect_envelope codec raw ≡ ok i)
          × (key_id codec key.public_key ≡ ok i.statement.keyid)
          × (read_statement codec i.payload ≡ ok b.statement)
          × Authorizes key i issuer audience now max_lifetime

      authorized :
          (keys : List TrustedKey) (key : TrustedKey) (i : Inspection) (b : Authenticated)
          → read_policy codec policy ≡ ok keys
          → inspect_envelope codec raw ≡ ok i
          → find_key i.statement.keyid keys ≡ some key
          → b.statement ≡ i.statement
          → Authorizes key i issuer audience now max_lifetime
          → Good b
      authorized keys key i b trusted seen found same allowed = (
        keys,
        key,
        i,
        trusted,
        found,
        seen,
        (find_key-AreNamed i.statement.keyid keys key
            (Post-ok AreNamed (read_policy codec policy) (read_policy-AreNamed policy) trusted)
            found).1,
        (Post-ok FromPayload (inspect_envelope codec raw) (inspect_envelope-FromPayload raw) seen).0
            ∙ ap ok (sym same),
        allowed,
      )
