-- ===== src/Tests/Parse.antt =====
-- A checkpoint of one move, written and parsed.
use disk_edit.Prelude.{
  ℕ, ◌%◌, ◌≡◌, refl, false, Option, none, some, List, [], ◌∷◌, String, ok, u32_mod,
}
use disk_edit.Bytes.{to_le, from_le, drop, number_at, fields}
use disk_edit.Table.Guid.{guid_eq}
use disk_edit.Geometry.{GeometryLimits}
use disk_edit.Identity.{inode, live, tag, from_tag}
use disk_edit.Movepart.Types.{tail_packed}
use disk_edit.Movepart.Layout.{relocation_overlaps, effective_chunk, chunk_count, move_chunk_layout}
use disk_edit.Movepart.Checkpoint.{Checkpoint}
use disk_edit.Movepart.LvmFacts.{read_bytes, read_number, decode}
use disk_edit.Movepart.Parse.{
  read_head, check_head, read_move, check_move, parse_moves, read_moves, read_progress, read_map,
  read_scene, chunks_limit, check_progress, check_crc, check_start, parse,
}
use disk_edit.Movepart.Serialize.{serialize_body, serialize}
use disk_edit.Movepart.Parse.Sound.{IsPlausible, parse-IsPlausible}

unfoldable checksum : List ℕ → ℕ
unfolding from_le
checksum b = from_le b % u32_mod

abbrev no_bytes_of : String → List ℕ
no_bytes_of s = []

abbrev no_text : List ℕ → Option String
no_text b = none

abbrev table_limits : GeometryLimits
table_limits = record {
  sector_size = 512;
  entry_count = 128;
  first_usable_lba = 34;
  last_usable_lba = 2014;
  file_last_lba = 2047;
}

abbrev pub half_moved : Checkpoint
half_moved = record {
  disk_size = 1048576;
  ss = 512;
  grow_part = 1;
  last_usable_lba = 2014;
  moves =
      record { part_num = 2; first_lba = 100; len_lba = 20; delta_lba = 300; is_swap = false } ∷ [];
  kind = tail_packed;
  cur_index = 0;
  chunks_done = 1;
  chunk_bytes = 4096;
  fp = record { dev = 2049; ino = 77; size = 1048576; id = 0 };
  map = none;
  proof = live inode;
  lvm = none;
}

half_moved-parsed :
    parse checksum no_bytes_of no_text
      (serialize checksum no_bytes_of no_text half_moved)
      (some table_limits)
    ≡ ok half_moved
unfolding parse check_start decode read_head check_head read_moves parse_moves read_move check_move
    read_progress read_scene read_map check_crc check_progress chunks_limit serialize serialize_body
    read_number read_bytes to_le from_le drop number_at fields guid_eq tag from_tag checksum
    move_chunk_layout effective_chunk chunk_count relocation_overlaps
half_moved-parsed = refl

parse-IsPlausible_example : IsPlausible table_limits half_moved
parse-IsPlausible_example =
    parse-IsPlausible checksum no_bytes_of no_text
      (serialize checksum no_bytes_of no_text half_moved) table_limits half_moved half_moved-parsed
