-- ===== src/Journal/Header/RoundTrip.antt =====
-- The header of a journal is read back.
use disk_edit.Prelude.{
  ℕ, ◌+◌, ◌^◌, ◌<◌, ◌≡◌, refl, ◌∙◌, sym, ap, true, false, Option, none, some, List, [], ◌∷◌, ◌++◌,
  length, take, ok, arith, ltb, ◌==◌, u32_mod, u64_mod, length-append, if◌then◌else◌,
}
use disk_edit.Bytes.{to_le, drop, number_at, fields, widths}
use disk_edit.Bytes.Slices.{
  append_assoc, to_le-length, take-length, drop-length, drop-past, number_at-here, number_at-past,
  number_at-field, number_at-behind, fields-append,
}
use disk_edit.Table.Guid.{guid_eq, guid_eq_iff}
use disk_edit.Identity.{
  TargetFingerprint, LiveProof, device_id, inode, unavailable as no_proof, live, tag, from_tag,
  LiveScene,
}
use disk_edit.Identity.Compare.{from_tag_iff}
use disk_edit.Journal.{DiskGuidState, unavailable, generated_this_operation, present}
use disk_edit.Journal.Header.{
  magic, header_len, encode_credential, decode_credential, map_flag, map_numbers, identity_bytes,
  header, parse_fields, parse_header,
}

abbrev pub FingerprintFits : TargetFingerprint → Type 0
FingerprintFits fp =
    (fp.dev < u64_mod) × (fp.ino < u64_mod) × (fp.size < u64_mod) × (fp.id < u64_mod)

abbrev pub MapFits : Option (ℕ × ℕ) → Type 0
MapFits none = Unit
MapFits (some (off, limit)) = (off < u64_mod) × (limit < u64_mod)

abbrev pub CredentialFits : DiskGuidState → Type 0
CredentialFits (present g) = length g ≡ 16
CredentialFits _ = Unit

encode_credential-length :
    (c : DiskGuidState) → CredentialFits c → length (encode_credential c) ≡ 17
unfolding encode_credential
encode_credential-length unavailable _ = refl
encode_credential-length generated_this_operation _ = refl
encode_credential-length (present g) h = rw h refl

decode_credential-encode : (c : DiskGuidState) → decode_credential (encode_credential c) ≡ ok c
unfolding encode_credential decode_credential
decode_credential-encode unavailable = refl
decode_credential-encode generated_this_operation = refl
decode_credential-encode (present g) = refl

from_tag-tag : (p : LiveProof) → from_tag (tag p) ≡ some p
from_tag-tag p = (from_tag_iff (tag p) p).1 refl

abbrev fields_of : LiveScene → List (ℕ × ℕ)
fields_of s =
    (8, s.fp.dev)
    ∷ (8, s.fp.ino)
    ∷ (8, s.fp.size)
    ∷ (8, s.fp.id)
    ∷ (1, map_flag s.map)
    ∷ (8, (map_numbers s.map).0)
    ∷ (8, (map_numbers s.map).1)
    ∷ (1, tag s.proof)
    ∷ []

identity_bytes-append :
    (s : LiveScene) (rest : List ℕ) → identity_bytes s ++ rest ≡ magic ++ fields (fields_of s) rest
unfolding identity_bytes
identity_bytes-append s rest = ap (λ t. magic ++ t) (fields-append (fields_of s) [] rest)

identity_bytes-length : (s : LiveScene) → length (identity_bytes s) ≡ 55
unfolding identity_bytes fields to_le
identity_bytes-length s = refl

-- A field of the identity, behind the magic.
identity_field :
    (s : LiveScene) (rest : List ℕ) (before : List (ℕ × ℕ)) (k n : ℕ) (after : List (ℕ × ℕ))
    → fields_of s ≡ before ++ (k, n) ∷ after
    → n < 256 ^ k
    → number_at (5 + widths before) k (identity_bytes s ++ rest) ≡ n
identity_field s rest before k n after split fits =
    rw (identity_bytes-append s rest, split)
      (number_at-behind magic (fields (before ++ (k, n) ∷ after) rest) (widths before) k
        ∙ number_at-field before k n after rest fits)

map_flag-word : (m : Option (ℕ × ℕ)) → map_flag m < 256
map_flag-word none = omega arith
map_flag-word (some _) = omega arith

map_numbers-word :
    (m : Option (ℕ × ℕ)) → MapFits m → ((map_numbers m).0 < u64_mod) × ((map_numbers m).1 < u64_mod)
map_numbers-word none _ = (omega arith, omega arith)
map_numbers-word (some (off, limit)) fits = fits

tag-word : (p : LiveProof) → tag p < 256
unfolding tag
tag-word device_id = omega arith
tag-word inode = omega arith
tag-word no_proof = omega arith

map_back :
    (m : Option (ℕ × ℕ))
    → if◌then◌else◌ {A = Option (ℕ × ℕ)} (map_flag m == 0) none (some (map_numbers m)) ≡ m
map_back none = refl
map_back (some (a, b)) = refl

module _ (crc32 : List ℕ → ℕ) (crc_word : (b : List ℕ) → crc32 b < u32_mod) where
  -- What follows the identity.
  abbrev behind : LiveScene → DiskGuidState → List ℕ → List ℕ
  behind s c rest =
      let d : List ℕ = encode_credential c in
      to_le 4 (crc32 (identity_bytes s)) ++ (d ++ (to_le 4 (crc32 d) ++ rest))

  header-append :
      (s : LiveScene) (c : DiskGuidState) (rest : List ℕ)
      → header crc32 s c ++ rest ≡ identity_bytes s ++ behind s c rest
  unfolding header
  header-append s c rest =
      let i : List ℕ = identity_bytes s in
      let d : List ℕ = encode_credential c in
      append_assoc i (to_le 4 (crc32 i) ++ (d ++ to_le 4 (crc32 d))) rest
      ∙ ap (λ t. i ++ t)
          (append_assoc (to_le 4 (crc32 i)) (d ++ to_le 4 (crc32 d)) rest
            ∙ ap (λ t. to_le 4 (crc32 i) ++ t) (append_assoc d (to_le 4 (crc32 d)) rest))

  pub header-length :
      (s : LiveScene) (c : DiskGuidState)
      → CredentialFits c
      → length (header crc32 s c) ≡ header_len
  unfolding header
  header-length s c fits =
      let i : List ℕ = identity_bytes s in
      let d : List ℕ = encode_credential c in
      rw
        (
          length-append i (to_le 4 (crc32 i) ++ (d ++ to_le 4 (crc32 d))),
          length-append (to_le 4 (crc32 i)) (d ++ to_le 4 (crc32 d)),
          length-append d (to_le 4 (crc32 d)),
          identity_bytes-length s,
          to_le-length 4 (crc32 i),
          encode_credential-length c fits,
          to_le-length 4 (crc32 d),
        )
        refl

  -- The CRCs and the credential.
  header_slices :
      (s : LiveScene) (c : DiskGuidState) (rest : List ℕ)
      → CredentialFits c
      → let b : List ℕ = identity_bytes s ++ behind s c rest in
        let d : List ℕ = encode_credential c in
        (take 55 b ≡ identity_bytes s)
        × (number_at 55 4 b ≡ crc32 (identity_bytes s))
        × (take 17 (drop 59 b) ≡ d)
        × (number_at 76 4 b ≡ crc32 d)
  header_slices s c rest fits =
      let i : List ℕ = identity_bytes s in
      let d : List ℕ = encode_credential c in
      let size : length i ≡ 55 = identity_bytes-length s in
      let wide : length d ≡ 17 = encode_credential-length c fits in
      let after : List ℕ = to_le 4 (crc32 d) ++ rest in
      let first : number_at (55 + 0) 4 (i ++ behind s c rest) ≡ number_at 0 4 (behind s c rest) =
        rw size at (number_at-behind i (behind s c rest) 0 4) in
      let skip : drop (55 + 4) (i ++ behind s c rest) ≡ drop 4 (behind s c rest) =
        rw size at (drop-past i (behind s c rest) 4) in
      let skip_crc : drop 4 (behind s c rest) ≡ d ++ after =
        rw (to_le-length 4 (crc32 i)) at (drop-length (to_le 4 (crc32 i)) (d ++ after)) in
      let second : number_at (55 + 21) 4 (i ++ behind s c rest) ≡ number_at 21 4 (behind s c rest) =
        rw size at (number_at-behind i (behind s c rest) 21 4) in
      let last : number_at (17 + 0) 4 (d ++ after) ≡ number_at 0 4 after =
        rw wide at (number_at-behind d after 0 4) in
      (
        rw size at (take-length i (behind s c rest)),
        first ∙ number_at-here 4 (crc32 i) (d ++ after) (crc_word i),
        rw (skip, skip_crc) (rw wide at (take-length d after)),
        second
            ∙ (number_at-past 4 (crc32 i) 17 4 (d ++ after)
                ∙ (last ∙ number_at-here 4 (crc32 d) rest (crc_word d))),
      )

  parse_fields-header :
      (s : LiveScene) (c : DiskGuidState) (rest : List ℕ)
      → FingerprintFits s.fp
      → MapFits s.map
      → CredentialFits c
      → parse_fields crc32 (identity_bytes s ++ behind s c rest)
        ≡ ok (record {
          scene = record { fp = s.fp; map = s.map; proof = live s.proof };
          credential = c;
        })
  unfolding parse_fields
  parse_fields-header s c rest (fd, fi, fs, fid) fm fc =
      let r : List ℕ = behind s c rest in
      let b : List ℕ = identity_bytes s ++ r in
      let (whole, crc, cred, crc') = header_slices s c rest fc in
      let (low, high) = map_numbers-word s.map fm in
      let dev : number_at 5 8 b ≡ s.fp.dev = identity_field s r [] 8 s.fp.dev _ refl fd in
      let ino : number_at 13 8 b ≡ s.fp.ino =
        identity_field s r ((8, s.fp.dev) ∷ []) 8 s.fp.ino _ refl fi in
      let size : number_at 21 8 b ≡ s.fp.size =
        identity_field s r ((8, s.fp.dev) ∷ (8, s.fp.ino) ∷ []) 8 s.fp.size _ refl fs in
      let id : number_at 29 8 b ≡ s.fp.id =
        identity_field s r ((8, s.fp.dev) ∷ (8, s.fp.ino) ∷ (8, s.fp.size) ∷ []) 8 s.fp.id _ refl
          fid in
      let four : List (ℕ × ℕ) =
        (8, s.fp.dev) ∷ (8, s.fp.ino) ∷ (8, s.fp.size) ∷ (8, s.fp.id) ∷ [] in
      let flag : number_at 37 1 b ≡ map_flag s.map =
        identity_field s r four 1 (map_flag s.map) _ refl (map_flag-word s.map) in
      let off : number_at 38 8 b ≡ (map_numbers s.map).0 =
        identity_field s r (four ++ (1, map_flag s.map) ∷ []) 8 (map_numbers s.map).0 _ refl low in
      let limit : number_at 46 8 b ≡ (map_numbers s.map).1 =
        identity_field s r (four ++ (1, map_flag s.map) ∷ (8, (map_numbers s.map).0) ∷ []) 8
          (map_numbers s.map).1 _ refl high in
      let kind : number_at 54 1 b ≡ tag s.proof =
        identity_field s r
          (four
            ++ (1, map_flag s.map) ∷ (8, (map_numbers s.map).0) ∷ (8, (map_numbers s.map).1) ∷ [])
          1 (tag s.proof) [] refl (tag-word s.proof) in
      let same : (crc32 (identity_bytes s) == crc32 (identity_bytes s)) ≡ true = ground arith in
      let same' : (crc32 (encode_credential c) == crc32 (encode_credential c)) ≡ true =
        ground arith in
      rw
        (
          whole,
          crc,
          cred,
          crc',
          same,
          same',
          kind,
          from_tag-tag s.proof,
          decode_credential-encode c,
          dev,
          ino,
          size,
          id,
          flag,
          off,
          limit,
          map_back s.map,
        )
        refl

  -- A header that was written for a scene and a credential reads back as these, whatever follows
  -- it, when the numbers are 64-bit and a GUID has 16 bytes.
  pub parse_header-header :
      (s : LiveScene) (c : DiskGuidState) (rest : List ℕ)
      → FingerprintFits s.fp
      → MapFits s.map
      → CredentialFits c
      → parse_header crc32 (header crc32 s c ++ rest)
        ≡ ok (record {
          scene = record { fp = s.fp; map = s.map; proof = live s.proof };
          credential = c;
        })
  unfolding parse_header
  parse_header-header s c rest ff fm fc =
      let b : List ℕ = identity_bytes s ++ behind s c rest in
      let size : length b ≡ 80 + length rest =
        ap length (sym (header-append s c rest))
        ∙ (length-append (header crc32 s c) rest
            ∙ ap (λ n. n + length rest) (header-length s c fc)) in
      let long : ltb (80 + length rest) 5 ≡ false = ground arith in
      let longer : ltb (80 + length rest) 80 ≡ false = ground arith in
      let start : take 5 b ≡ magic =
        ap (λ t. take 5 t) (identity_bytes-append s (behind s c rest))
        ∙ take-length magic (fields (fields_of s) (behind s c rest)) in
      let own : guid_eq magic magic ≡ true = (guid_eq_iff magic magic).1 refl in
      rw (header-append s c rest, size, long, start, own, longer)
        (parse_fields-header s c rest ff fm fc)
