-- ===== src/Journal/Coding.antt =====
-- The coding of a record of src/dev/journal.rs is read back.
use disk_edit.Prelude.{
  ℕ, suc, ◌+◌, ◌<◌, ◌≡◌, refl, ◌∙◌, ap, false, List, ◌∷◌, ◌++◌, length, ok, arith, ltb, u64_mod,
  u32_mod, length-append,
}
use native.Mathlib.Nat.{mod-eq_of_lt}
use disk_edit.Bytes.{to_le, drop, number_at}
use disk_edit.Bytes.Slices.{
  append_assoc, to_le-length, take-length, drop-length, drop-past, number_at-here, number_at-past,
}
use disk_edit.Journal.{
  Mutation, partition_table, external_fs_tool, mkfs, relocate_partition, copy_partition,
  RecoveryData, pre_image, barrier, JournalRecord, mutation_tag, write_meta, read_reloc,
  read_mutation, encode_recovery, encode_record, decode_pre_image, decode_recovery, decode_record,
}

-- The numbers have the width of their fields.
abbrev pub MutationFits : Mutation → Type 0
MutationFits (relocate_partition p from to) = (p < u32_mod) × (from < u64_mod) × (to < u64_mod)
MutationFits (copy_partition p from to) = (p < u32_mod) × (from < u64_mod) × (to < u64_mod)
MutationFits _ = Unit

abbrev pub RecoveryFits : RecoveryData → Type 0
RecoveryFits (pre_image off bytes after) = (off < u64_mod) × (length bytes < u32_mod)
RecoveryFits barrier = Unit

abbrev pub RecordFits : JournalRecord → Type 0
RecordFits r = MutationFits r.mutation × RecoveryFits r.recovery

abbrev meta_of : ℕ → ℕ → ℕ → List ℕ
meta_of p from to = to_le 4 p ++ (to_le 8 from ++ to_le 8 to)

meta_of-length : (p from to : ℕ) → length (meta_of p from to) ≡ 20
meta_of-length p from to =
    rw
      (
        length-append (to_le 4 p) (to_le 8 from ++ to_le 8 to),
        length-append (to_le 8 from) (to_le 8 to),
        to_le-length 4 p,
        to_le-length 8 from,
        to_le-length 8 to,
      )
      refl

-- The three numbers of a move.
read_reloc-meta :
    (p from to : ℕ) (rest : List ℕ)
    → (p < u32_mod) × (from < u64_mod) × (to < u64_mod)
    → (number_at 0 4 (meta_of p from to ++ rest) ≡ p)
      × (number_at 4 8 (meta_of p from to ++ rest) ≡ from)
      × (number_at 12 8 (meta_of p from to ++ rest) ≡ to)
      × (ltb (length (meta_of p from to ++ rest)) 20 ≡ false)
read_reloc-meta p from to rest (hp, hf, ht) =
    let flat : meta_of p from to ++ rest ≡ to_le 4 p ++ (to_le 8 from ++ (to_le 8 to ++ rest)) =
      append_assoc (to_le 4 p) (to_le 8 from ++ to_le 8 to) rest
      ∙ ap (λ t. to_le 4 p ++ t) (append_assoc (to_le 8 from) (to_le 8 to) rest) in
    let long : length (meta_of p from to ++ rest) ≡ 20 + length rest =
      length-append (meta_of p from to) rest
      ∙ ap (λ n. n + length rest) (meta_of-length p from to) in
    (
      rw flat (number_at-here 4 p (to_le 8 from ++ (to_le 8 to ++ rest)) hp),
      rw flat (
          number_at-past 4 p 0 8 (to_le 8 from ++ (to_le 8 to ++ rest))
          ∙ number_at-here 8 from (to_le 8 to ++ rest) hf),
      rw flat (
          number_at-past 4 p 8 8 (to_le 8 from ++ (to_le 8 to ++ rest))
          ∙ (number_at-past 8 from 0 8 (to_le 8 to ++ rest) ∙ number_at-here 8 to rest ht)),
      rw long (ground arith),
    )

read_mutation-write_meta :
    (m : Mutation) (rest : List ℕ)
    → MutationFits m
    → read_mutation (mutation_tag m) (write_meta m ++ rest) ≡ ok (m, length (write_meta m))
unfolding read_mutation mutation_tag write_meta read_reloc
read_mutation-write_meta partition_table rest fits = refl
read_mutation-write_meta external_fs_tool rest fits = refl
read_mutation-write_meta mkfs rest fits = refl
read_mutation-write_meta (relocate_partition p from to) rest fits =
    let (a, b, c, d) = read_reloc-meta p from to rest fits in
    rw (a, b, c, d, meta_of-length p from to) refl
read_mutation-write_meta (copy_partition p from to) rest fits =
    let (a, b, c, d) = read_reloc-meta p from to rest fits in
    rw (a, b, c, d, meta_of-length p from to) refl

-- A tag byte before the fields.
skip_byte :
    (b : ℕ) (xs : List ℕ)
    → (number_at 1 8 (b ∷ xs) ≡ number_at 0 8 xs)
      × (number_at 9 4 (b ∷ xs) ≡ number_at 8 4 xs)
      × (drop 13 (b ∷ xs) ≡ drop 12 xs)
unfolding number_at drop
skip_byte b xs = (refl, refl, refl)

drop-two_numbers : (a b : ℕ) (rest : List ℕ) → drop 12 (to_le 8 a ++ (to_le 4 b ++ rest)) ≡ rest
drop-two_numbers a b rest =
    let outer : drop (8 + 4) (to_le 8 a ++ (to_le 4 b ++ rest)) ≡ drop 4 (to_le 4 b ++ rest) =
      rw (to_le-length 8 a) at (drop-past (to_le 8 a) (to_le 4 b ++ rest) 4) in
    let inner : drop 4 (to_le 4 b ++ rest) ≡ rest =
      rw (to_le-length 4 b) at (drop-length (to_le 4 b) rest) in
    outer ∙ inner

fields-length :
    (a b : ℕ) (rest : List ℕ) → length (to_le 8 a ++ (to_le 4 b ++ rest)) ≡ 12 + length rest
fields-length a b rest =
    rw
      (
        length-append (to_le 8 a) (to_le 4 b ++ rest),
        length-append (to_le 4 b) rest,
        to_le-length 8 a,
        to_le-length 4 b,
      )
      (omega arith)

decode_recovery-encode :
    (d : RecoveryData) → RecoveryFits d → decode_recovery (encode_recovery d) ≡ ok d
unfolding decode_recovery encode_recovery decode_pre_image
decode_recovery-encode barrier fits = refl
decode_recovery-encode (pre_image off bytes after) (hoff, hlen) =
    let n : ℕ = length bytes in
    let xs : List ℕ = to_le 8 off ++ (to_le 4 n ++ (bytes ++ after)) in
    let (a, b, c) = skip_byte 0 xs in
    let full : length (0 ∷ xs) ≡ 13 + length (bytes ++ after) =
      ap suc (fields-length off n (bytes ++ after)) ∙ omega arith in
    let long : ltb (length (0 ∷ xs)) 13 ≡ false = rw full (ground arith) in
    let enough : ltb (length (bytes ++ after)) n ≡ false =
      rw (length-append bytes after) (ground arith) in
    rw
      (
        mod-eq_of_lt hlen,
        long,
        a,
        number_at-here 8 off (to_le 4 n ++ (bytes ++ after)) hoff,
        b,
        number_at-past 8 off 0 4 (to_le 4 n ++ (bytes ++ after)),
        number_at-here 4 n (bytes ++ after) hlen,
        c,
        drop-two_numbers off n (bytes ++ after),
        enough,
        take-length bytes after,
        drop-length bytes after,
      )
      refl

-- A record that is written reads back as it was, when its numbers have the width of their fields.
pub decode-encode_record :
    (r : JournalRecord) → RecordFits r → decode_record (encode_record r) ≡ ok r
unfolding decode_record encode_record
decode-encode_record r (hm, hr) =
    rw
      (
        read_mutation-write_meta r.mutation (encode_recovery r.recovery) hm,
        drop-length (write_meta r.mutation) (encode_recovery r.recovery),
        decode_recovery-encode r.recovery hr,
      )
      refl
