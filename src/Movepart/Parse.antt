-- ===== src/Movepart/Parse.antt =====
-- `Checkpoint::parse` of src/movepart/checkpoint.rs: the only reader of the checkpoint of a
-- relocation. The offset that it advances is the rest of the bytes here. `crc32` is that of the crate
-- `crc`, and `as_bytes` and `from_utf8` are those of the standard library.
pub mod Sound
use disk_edit.Prelude.{
  ℕ, zero, suc, ◌+◌, ◌-◌, ◌*◌, Bool, true, false, not, ◌||◌, ◌&&◌, Option, none, some, List, [],
  ◌∷◌, ◌++◌, String, ltb, leb, ◌==◌, if◌then◌else◌, length, take, any, get_elem?, Result, ok, err,
  ◌>>=◌, ◌>>◌, refuse_if, ok_or, checked_add, checked_sub, checked_mul, ◌%◌, u32_mod,
}
use disk_edit.Bytes.{to_le, drop, number_at, fields}
use disk_edit.Outcome.{Message, plain, note}
use disk_edit.Table.Guid.{guid_eq as bytes_eq}
use disk_edit.Geometry.{GeometryLimits}
use disk_edit.Identity.{TargetFingerprint, IdentityProof, live, kind_of, tag, from_tag}
use disk_edit.Movepart.Types.{PlanEntry, PlanKind, tail_packed, shift}
use disk_edit.Movepart.Layout.{move_chunk_layout}
use disk_edit.Movepart.Checkpoint.{LvmPostFacts, Checkpoint}
use disk_edit.Movepart.LvmFacts.{read_number, encode, decode}

-- `DKECKPT1`
abbrev pub ckpt_magic : List ℕ
ckpt_magic = 0x44 ∷ 0x4B ∷ 0x45 ∷ 0x43 ∷ 0x4B ∷ 0x50 ∷ 0x54 ∷ 0x31 ∷ []

abbrev pub ckpt_version : ℕ
ckpt_version = 7

-- The bytes of one move.
abbrev move_len : ℕ
move_len = 29

-- The fields before the moves, those behind them, and the scene.
pub record Head : Type 0 where
  pub disk_size : ℕ
  pub ss : ℕ
  pub grow_part : ℕ
  pub last_usable_lba : ℕ

pub record Progress : Type 0 where
  pub cur_index : ℕ
  pub chunks_done : ℕ
  pub chunk_bytes : ℕ
  pub kind : PlanKind

pub record Scene : Type 0 where
  pub fp : TargetFingerprint
  pub map : Option (ℕ × ℕ)
  pub proof : IdentityProof

unfoldable pub read_head : List ℕ → Result Message (Head × List ℕ)
read_head b₀ = do
  (disk_size, b₁) ← read_number 8 b₀
  (ss, b₂) ← read_number 8 b₁
  (grow_part, b₃) ← read_number 4 b₂
  (last_usable_lba, b₄) ← read_number 8 b₃
  ok (
    record {
      disk_size = disk_size;
      ss = ss;
      grow_part = grow_part;
      last_usable_lba = last_usable_lba;
    },
    b₄,
  )

abbrev outside : ℕ → ℕ → Bool
outside part count = ltb part 1 || ltb count part

unfoldable pub check_head : GeometryLimits → Head → Result Message (Unit {0})
check_head lim h = do
  refuse_if (not (h.ss == lim.sector_size))
      (plain "checkpoint sector size differs from target geometry")
  refuse_if (outside h.grow_part lim.entry_count) (plain "implausible checkpoint grow_part")
  refuse_if (ltb lim.last_usable_lba h.last_usable_lba)
      (plain "checkpoint last_usable_lba beyond usable area")

unfoldable pub read_move : List ℕ → Result Message (PlanEntry × List ℕ)
read_move b₀ = do
  (part_num, b₁) ← read_number 4 b₀
  (first_lba, b₂) ← read_number 8 b₁
  (len_lba, b₃) ← read_number 8 b₂
  (delta_lba, b₄) ← read_number 8 b₃
  (swap, b₅) ← read_number 1 b₄
  ok (
    record {
      part_num = part_num;
      first_lba = first_lba;
      len_lba = len_lba;
      delta_lba = delta_lba;
      is_swap = not (swap == 0);
    },
    b₅,
  )

-- The last sector of a range.
abbrev pub end_of : ℕ → ℕ → String → Result Message ℕ
end_of first len why =
    ok_or (checked_add first len) (plain why) >>= λ v. ok_or (checked_sub v 1) (plain why)

-- The tests on one move, behind those that are parsed already.
unfoldable pub check_move :
    GeometryLimits → ℕ → List PlanEntry → PlanEntry → Result Message (Unit {0})
check_move lim grow_part moves m = do
  refuse_if (outside m.part_num lim.entry_count) (plain "implausible checkpoint partition number")
  end ← end_of m.first_lba m.len_lba "checkpoint entry range overflow"
  new_first ← ok_or (checked_add m.first_lba m.delta_lba) (plain "checkpoint entry target overflow")
  new_end ← end_of new_first m.len_lba "checkpoint entry target overflow"
  refuse_if
      (m.len_lba == 0
        || (ltb m.first_lba lim.first_usable_lba
            || (ltb lim.last_usable_lba end || ltb lim.last_usable_lba new_end)))
      (plain "checkpoint entry outside usable range")
  refuse_if (m.part_num == grow_part) (plain "implausible checkpoint move of the grow partition")
  refuse_if (any (λ o. o.part_num == m.part_num) moves)
      (plain "implausible checkpoint duplicate move partition number")

-- The loop over the moves; `moves` are those before.
unfoldable pub parse_moves :
    GeometryLimits → ℕ → ℕ → List PlanEntry → List ℕ → Result Message (List PlanEntry × List ℕ)
parse_moves lim grow_part zero moves b = ok (moves, b)
parse_moves lim grow_part (suc n) moves b = read_move b >>= λ (m, rest).
    check_move lim grow_part moves m >> parse_moves lim grow_part n (moves ++ m ∷ []) rest

-- The number of moves and the moves; for the identity alone they are passed over.
unfoldable pub read_moves :
    Option GeometryLimits → ℕ → List ℕ → Result Message (List PlanEntry × List ℕ)
read_moves lim grow_part b₀ = do
  (count, b) ← read_number 4 b₀
  span ← ok_or (checked_mul count move_len) (plain "checkpoint truncated")
  refuse_if (ltb (length b) span) (plain "checkpoint truncated")
  elim lim [
    | none ↦ ok ([], drop span b)
    | some l ↦
        refuse_if (ltb l.entry_count count) (plain "implausible checkpoint move count")
        >> parse_moves l grow_part count [] b
  ]

abbrev plan_kind_of : ℕ → Option PlanKind
plan_kind_of n = if n == 0 then some tail_packed else if n == 1 then some shift else none

unfoldable pub read_progress : List ℕ → Result Message (Progress × List ℕ)
read_progress b₀ = do
  (cur_index, b₁) ← read_number 4 b₀
  (chunks_done, b₂) ← read_number 8 b₁
  (chunk_bytes, b₃) ← read_number 8 b₂
  (k, b₄) ← read_number 1 b₃
  kind ← ok_or (plan_kind_of k) (plain "implausible checkpoint plan kind")
  ok (
    record {
      cur_index = cur_index;
      chunks_done = chunks_done;
      chunk_bytes = chunk_bytes;
      kind = kind;
    },
    b₄,
  )

unfoldable pub read_map : List ℕ → Result Message (Option (ℕ × ℕ) × List ℕ)
read_map b₀ = do
  (flag, b₁) ← read_number 1 b₀
  if flag == 0
      then ok (none, b₁)
      else if flag == 1
      then (read_number 8 b₁ >>= λ (off, b₂).
          read_number 8 b₂ >>= λ (limit, b₃). ok (some (off, limit), b₃))
      else err (plain "implausible checkpoint mapping flag")

unfoldable pub read_scene : List ℕ → Result Message (Scene × List ℕ)
read_scene b₀ = do
  (dev, b₁) ← read_number 8 b₀
  (ino, b₂) ← read_number 8 b₁
  (size, b₃) ← read_number 8 b₂
  (id, b₄) ← read_number 8 b₃
  (map, b₅) ← read_map b₄
  (tag, b₆) ← read_number 1 b₅
  proof ← ok_or (from_tag tag) (plain "implausible checkpoint identity kind")
  ok (
    record {
      fp = record { dev = dev; ino = ino; size = size; id = id };
      map = map;
      proof = live proof;
    },
    b₆,
  )

-- The number of chunks of the move that is under way.
unfoldable pub chunks_limit : Head → List PlanEntry → Progress → Result Message ℕ
chunks_limit h moves p = elim (get_elem? moves p.cur_index) [
  | none ↦ ok 0
  | some m ↦
      ok_or (move_chunk_layout m.len_lba h.ss m.delta_lba m.len_lba p.chunk_bytes)
        (plain "checkpoint chunk count overflow")
      >>= λ (_, count). ok count
]

unfoldable pub check_progress : Head → List PlanEntry → Progress → Result Message (Unit {0})
check_progress h moves p = do
  refuse_if (p.chunk_bytes == 0) (plain "checkpoint chunk_bytes invalid")
  refuse_if (ltb (length moves) p.cur_index) (plain "implausible checkpoint entry index")
  limit ← chunks_limit h moves p
  refuse_if (ltb limit p.chunks_done) (plain "implausible checkpoint chunk progress")

abbrev pub checkpoint_of :
    Option LvmPostFacts → Head → List PlanEntry → Progress → Scene → Checkpoint
checkpoint_of lvm h moves p s = record {
  disk_size = h.disk_size;
  ss = h.ss;
  grow_part = h.grow_part;
  last_usable_lba = h.last_usable_lba;
  moves = moves;
  kind = p.kind;
  cur_index = p.cur_index;
  chunks_done = p.chunks_done;
  chunk_bytes = p.chunk_bytes;
  fp = s.fp;
  map = s.map;
  proof = s.proof;
  lvm = lvm;
}

abbrev when_some :
    Option GeometryLimits → (GeometryLimits → Result Message (Unit {0})) → Result Message (Unit {0})
when_some none check = ok tt
when_some (some l) check = check l

module _ (crc32 : List ℕ → ℕ) (as_bytes : String → List ℕ)
    (from_utf8 : List ℕ → Option String) where
  -- The stored CRC is that of everything before it.
  unfoldable pub check_crc : List ℕ → List ℕ → Result Message (Unit {0})
  check_crc b rest = read_number 4 rest >>= λ (stored, _).
      refuse_if (not (crc32 (take (length b - length rest) b) == stored))
        (plain "checkpoint CRC mismatch")

  unfoldable pub check_start : List ℕ → Result Message (Unit {0})
  check_start b = do
    refuse_if (ltb (length b) 12) (plain "checkpoint truncated")
    refuse_if (not (bytes_eq (take 8 b) ckpt_magic)) (plain "checkpoint magic mismatch")
    refuse_if (not (number_at 8 4 b == ckpt_version))
        (note "unsupported checkpoint version {}" (number_at 8 4 b ∷ []))

  unfoldable pub parse : List ℕ → Option GeometryLimits → Result Message Checkpoint
  parse b lim = do
    check_start b
    (lvm, b₁) ← decode as_bytes from_utf8 (drop 12 b)
    (h, b₂) ← read_head b₁
    when_some lim (λ l. check_head l h)
    (moves, b₃) ← read_moves lim h.grow_part b₂
    (p, b₄) ← read_progress b₃
    (s, b₅) ← read_scene b₄
    check_crc b b₅
    when_some lim (λ l. check_progress h moves p)
    ok (checkpoint_of lvm h moves p s)
