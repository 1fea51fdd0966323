-- ===== src/Movepart/Serialize.antt =====
-- `Checkpoint::serialize` of src/movepart/checkpoint.rs: the bytes of the checkpoint of a relocation.
-- `crc32` is that of the crate `crc`, and `as_bytes` and `from_utf8` are those of the standard library.
use disk_edit.Prelude.{
  ℕ, Bool, true, false, Option, none, some, List, [], ◌∷◌, ◌++◌, String, length, ◌%◌, u32_mod,
}
use disk_edit.Bytes.{to_le, fields}
use disk_edit.Identity.{kind_of, tag}
use disk_edit.Movepart.Types.{PlanEntry, PlanKind, tail_packed, shift}
use disk_edit.Movepart.Checkpoint.{LvmPostFacts, Checkpoint}
use disk_edit.Movepart.LvmFacts.{encode}
use disk_edit.Movepart.Parse.{ckpt_magic, ckpt_version}

abbrev kind_number : PlanKind → ℕ
kind_number tail_packed = 0
kind_number shift = 1

abbrev swap_number : Bool → ℕ
swap_number true = 1
swap_number false = 0

abbrev move_fields : List PlanEntry → List (ℕ × ℕ)
move_fields [] = []
move_fields (m ∷ moves) =
    (4, m.part_num)
    ∷ (8, m.first_lba)
    ∷ (8, m.len_lba)
    ∷ (8, m.delta_lba)
    ∷ (1, swap_number m.is_swap)
    ∷ move_fields moves

abbrev map_fields : Option (ℕ × ℕ) → List (ℕ × ℕ)
map_fields none = (1, 0) ∷ []
map_fields (some (off, limit)) = (1, 1) ∷ (8, off) ∷ (8, limit) ∷ []

module _ (crc32 : List ℕ → ℕ) (as_bytes : String → List ℕ)
    (from_utf8 : List ℕ → Option String) where
  -- `serialize` up to the CRC. A live kind of identity is written, and `push` of a byte is a number
  -- of width 1.
  abbrev lvm_bytes : Option LvmPostFacts → List ℕ
  lvm_bytes none = 0 ∷ []
  lvm_bytes (some f) = encode as_bytes from_utf8 f

  unfoldable pub serialize_body : Checkpoint → List ℕ
  serialize_body c =
      ckpt_magic
      ++ (to_le 4 ckpt_version
          ++ (lvm_bytes c.lvm
              ++ fields
                  ((8, c.disk_size)
                    ∷ (8, c.ss)
                    ∷ (4, c.grow_part)
                    ∷ (8, c.last_usable_lba)
                    ∷ (4, length c.moves % u32_mod)
                    ∷ move_fields c.moves)
                  (fields
                    ((4, c.cur_index)
                      ∷ (8, c.chunks_done)
                      ∷ (8, c.chunk_bytes)
                      ∷ (1, kind_number c.kind)
                      ∷ (8, c.fp.dev)
                      ∷ (8, c.fp.ino)
                      ∷ (8, c.fp.size)
                      ∷ (8, c.fp.id)
                      ∷ map_fields c.map)
                    (fields ((1, tag (kind_of c.proof)) ∷ []) []))))

  unfoldable pub serialize : Checkpoint → List ℕ
  serialize c = let b = serialize_body c in b ++ to_le 4 (crc32 b)
