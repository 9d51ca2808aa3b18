-- ===== src/Evidence/Signed.antt =====
-- foresee/evidence_format.py: the bytes that are signed tell their type and their payload.
use project_f.Base.{ℕ, String, ◌≡◌, refl, ap, [], ◌∷◌, ◌++◌, length, arith, false, nat_eq}
use project_f.Evidence.{Bytes, Codec}
use project_f.Evidence.Format.{pae, prefix}

-- No byte is a space.
abbrev pub NoSpace : Bytes → Type 0
NoSpace [] = Unit
NoSpace (b ∷ bs) = (nat_eq b 32 ≡ false) × NoSpace bs

tail_of : Bytes → Bytes
tail_of [] = []
tail_of (b ∷ bs) = bs

head_of : Bytes → ℕ
head_of [] = 0
head_of (b ∷ bs) = b

joined : {x y : ℕ} {xs ys : Bytes} → x ≡ y → xs ≡ ys → ◌≡◌ {A = Bytes} (x ∷ xs) (y ∷ ys)
joined e same = cc

-- What stands before the first space, and after it.
split_space :
    (xs ys rest more : Bytes)
    → NoSpace xs
    → NoSpace ys
    → xs ++ (32 ∷ rest) ≡ ys ++ (32 ∷ more)
    → (xs ≡ ys) × (rest ≡ more)
unfolding tail_of head_of
split_space [] [] rest more nx ny e = (refl, ap tail_of e)
split_space [] (y ∷ ys) rest more nx ny e = absurd (space (ap head_of e) ny.0)
  where
    space : 32 ≡ y → nat_eq y 32 ≡ false → ⊥
    space same n = ground arith
split_space (x ∷ xs) [] rest more nx ny e = absurd (space (ap head_of e) nx.0)
  where
    space : x ≡ 32 → nat_eq x 32 ≡ false → ⊥
    space same n = ground arith
split_space (x ∷ xs) (y ∷ ys) rest more nx ny e =
    let (same, after) = split_space xs ys rest more nx.1 ny.1 (ap tail_of e) in
    (joined (ap head_of e) same, after)

split_length :
    (xs ys rest more : Bytes)
    → length xs ≡ length ys
    → xs ++ rest ≡ ys ++ more
    → (xs ≡ ys) × (rest ≡ more)
unfolding tail_of head_of
split_length [] [] rest more l e = (refl, e)
split_length [] (y ∷ ys) rest more l e = absurd (omega (arith, l))
split_length (x ∷ xs) [] rest more l e = absurd (omega (arith, l))
split_length (x ∷ xs) (y ∷ ys) rest more l e =
    let (same, after) = split_length xs ys rest more (omega (arith, l)) (ap tail_of e) in
    (joined (ap head_of e) same, after)

-- If Python's text of a number has no space and tells numbers apart, and UTF-8 tells these two types apart,
-- then two pairs of a type and a payload with the same signed bytes are the same pair.
pub pae_injective :
    (codec : Codec) (kind other : String) (payload more : Bytes)
    → ((n : ℕ) → NoSpace (codec.decimal n))
    → ((m n : ℕ) → codec.decimal m ≡ codec.decimal n → m ≡ n)
    → (codec.utf8 kind ≡ codec.utf8 other → kind ≡ other)
    → pae codec kind payload ≡ pae codec other more
    → (kind ≡ other) × (payload ≡ more)
unfolding pae tail_of
pae_injective codec kind other payload more spaceless apart texts e =
    let (count, e1) =
      split_space (codec.decimal (length (codec.utf8 kind)))
        (codec.decimal (length (codec.utf8 other))) _ _ (spaceless _) (spaceless _)
        (split_length prefix prefix _ _ refl e).1 in
    let (named, e2) = split_length (codec.utf8 kind) (codec.utf8 other) _ _ (apart _ _ count) e1 in
    let (size, e3) =
      split_space (codec.decimal (length payload)) (codec.decimal (length more)) _ _ (spaceless _)
        (spaceless _) (ap tail_of e2) in
    (texts named, e3)
