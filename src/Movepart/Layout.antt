-- ===== src/Movepart/Layout.antt =====
-- The chunks of a move: `relocation_overlaps` and `move_chunk_layout` of src/movepart/plan.rs, and
-- the loop of `execute_apply` in src/movepart/shift.rs that copies them, the last one first.
pub mod Size
pub mod Copy
use disk_edit.Prelude.{
  ℕ, zero, suc, ◌+◌, ◌-◌, ◌*◌, ◌/◌, min, Bool, true, false, not, ◌&&◌, Option, none, some, List, [],
  ◌∷◌, ltb, leb, ◌==◌, if◌then◌else◌, Result, ok, err, ◌>>=◌, ok_or, checked_add, checked_mul,
}
use disk_edit.Memory.{Memory}
use disk_edit.Outcome.{Message, plain}

-- `?` on an `Option`.
infixl 5 ◌>>?◌
abbrev ◌>>?◌ {ℓ κ} : {A : Type ℓ} {B : Type κ} → Option A → (A → Option B) → Option B
none >>? f = none
some a >>? f = f a

unfoldable pub relocation_overlaps : ℕ → ℕ → Bool
relocation_overlaps shift_lba src_len_lba = not (shift_lba == 0) && ltb shift_lba src_len_lba

unfoldable pub effective_chunk : ℕ → ℕ → ℕ → ℕ → Option ℕ
unfolding relocation_overlaps
effective_chunk ss shift_lba src_len_lba chunk_bytes =
    if relocation_overlaps shift_lba src_len_lba
    then (checked_mul shift_lba ss >>? λ s. some (min chunk_bytes s))
    else some chunk_bytes

unfoldable pub chunk_count : ℕ → ℕ → ℕ → Option (ℕ × ℕ)
chunk_count copy_lba ss chunk =
    if chunk == 0
    then none
    else (checked_mul copy_lba ss >>? λ total.
        checked_add total (chunk - 1) >>? λ padded. some (chunk, padded / chunk))

unfoldable pub move_chunk_layout : ℕ → ℕ → ℕ → ℕ → ℕ → Option (ℕ × ℕ)
move_chunk_layout copy_lba ss shift_lba src_len_lba chunk_bytes =
    effective_chunk ss shift_lba src_len_lba chunk_bytes >>? λ chunk. chunk_count copy_lba ss chunk

-- `chunk_from_tail`: (offset within, length) from the tail to the head. The loop ends since every
-- chunk is at least 1; as many rounds as there are bytes are enough.
unfoldable pub chunks_from_tail : ℕ → ℕ → ℕ → List (ℕ × ℕ)
chunks_from_tail zero chunk pos = []
chunks_from_tail (suc rounds) chunk zero = []
chunks_from_tail (suc rounds) chunk (suc p) =
    (suc p - min chunk (suc p), min chunk (suc p))
    ∷ chunks_from_tail rounds chunk (suc p - min chunk (suc p))

-- `read_at` into the buffer, then `write_data_at`.
unfoldable pub copy_bytes : ℕ → ℕ → ℕ → Memory → Memory
copy_bytes src_pos dst_pos len mem x =
    if leb dst_pos x && ltb x (dst_pos + len) then mem (src_pos + (x - dst_pos)) else mem x

offset_overflow : Message
offset_overflow = plain "relocation byte offset overflows - refusing"

unfoldable pub copy_chunk : ℕ → ℕ → ℕ × ℕ → Memory → Result Message Memory
unfolding copy_bytes offset_overflow
copy_chunk src_off dst_off (within, len) mem = do
  src_pos ← ok_or (checked_add src_off within) offset_overflow
  dst_pos ← ok_or (checked_add dst_off within) offset_overflow
  ok (copy_bytes src_pos dst_pos len mem)

-- The loop at the chunk of index `i`: the chunks below the resume point are skipped.
unfoldable pub copy_chunks : ℕ → ℕ → ℕ → ℕ → List (ℕ × ℕ) → Memory → Result Message Memory
copy_chunks src_off dst_off resume i [] mem = ok mem
copy_chunks src_off dst_off resume i (c ∷ cs) mem = elim (ltb i resume) [
  | true ↦ copy_chunks src_off dst_off resume (suc i) cs mem
  | false ↦ copy_chunk src_off dst_off c mem >>= copy_chunks src_off dst_off resume (suc i) cs
]
