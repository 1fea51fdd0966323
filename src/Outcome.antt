-- ===== src/Outcome.antt =====
-- src/outcome.rs: the contract between an operation and its exit code. `Fail` classifies a failure,
-- `Outcome` is what a command ends with, and `PostWrite` is the session after the first write.
-- A message is a template with its formatted numbers; texts are kept only as far as they tell the
-- causes apart. `&'static str` labels and hints are texts.
pub mod Codes
use disk_edit.Prelude.{
  ℕ, String, Bool, true, false, List, [], ◌∷◌, ◌++◌, ◌&&◌, ◌||◌, if◌then◌else◌, length,
}

-- A `String` built by `format!`: the template and its arguments, or a context before a message.
pub data Message : Type 0 where
  plain : String → Message
  note : String → List ℕ → Message
  within : String → Message → Message

pub data PendingKind : Type 0 where
  fs swap runtime_initialization : PendingKind
  other : String → PendingKind

pub record Pending : Type 0 where
  pub part : ℕ
  pub kind : PendingKind
  pub detail : Message
  pub hint : Message

pub data KernelSync : Type 0 where
  synchronized stale : KernelSync

pub data Outcome : Type 0 where
  refused : Message → Outcome
  infra : Message → Outcome
  failed : Message → List Pending → Outcome
  applied : List Pending → KernelSync → Outcome

pub data Fail : Type 0 where
  refused infra failed : Message → Fail

pub data FsError : Type 0 where
  unsupported_fs tool_missing command_failed invalid_argument io : Message → FsError

abbrev pub exit_ok : ℕ
exit_ok = 0

abbrev pub exit_refused : ℕ
exit_refused = 10

abbrev pub exit_partial : ℕ
exit_partial = 20

abbrev pub exit_infra : ℕ
exit_infra = 30

abbrev pub is_empty {ℓ} : {A : Type ℓ} → List A → Bool
is_empty [] = true
is_empty (_ ∷ _) = false

abbrev pub is_stale : KernelSync → Bool
is_stale stale = true
is_stale synchronized = false

abbrev is_synchronized : KernelSync → Bool
is_synchronized synchronized = true
is_synchronized stale = false

-- `Outcome::failed_with`, `applied_with`, `applied_stale_kernel`
unfoldable pub failed_with : Message → List Pending → Outcome
failed_with cause pending = Outcome.failed cause pending

unfoldable pub applied_with : List Pending → Outcome
applied_with pending = Outcome.applied pending synchronized

unfoldable pub applied_stale_kernel : Outcome
applied_stale_kernel = Outcome.applied [] stale

unfoldable pub mark_kernel_stale : Outcome → Outcome
mark_kernel_stale (Outcome.applied pending _) = Outcome.applied pending stale
mark_kernel_stale o = o

unfoldable pub has_layout_write : Outcome → Bool
has_layout_write (Outcome.applied _ _) = true
has_layout_write _ = false

unfoldable pub merge_applied : Outcome → Outcome → Outcome
unfolding has_layout_write
merge_applied (Outcome.applied mine a) (Outcome.applied theirs b) =
    Outcome.applied (mine ++ theirs) (if is_stale a || is_stale b then stale else synchronized)
merge_applied mine theirs = if has_layout_write theirs then mine else theirs

unfoldable pub is_complete : Outcome → Bool
is_complete (Outcome.applied pending kernel_sync) = is_empty pending && is_synchronized kernel_sync
is_complete _ = false

unfoldable pub exit_code : Outcome → ℕ
unfolding is_complete
exit_code (Outcome.refused _) = exit_refused
exit_code (Outcome.infra _) = exit_infra
exit_code (Outcome.failed _ _) = exit_infra
exit_code (Outcome.applied pending k) =
    if is_complete (Outcome.applied pending k) then exit_ok else exit_partial

-- `impl From<FsError> for Fail`
unfoldable pub fail_of_fs_error : FsError → Fail
fail_of_fs_error (FsError.unsupported_fs m) = Fail.refused m
fail_of_fs_error (FsError.invalid_argument m) = Fail.refused m
fail_of_fs_error (FsError.tool_missing m) = Fail.infra m
fail_of_fs_error (FsError.io e) = Fail.infra e
fail_of_fs_error (FsError.command_failed m) = Fail.failed m

-- `impl From<io::Error> for Fail`, and `outcome::into_io_error`: an I/O error is its message.
unfoldable pub fail_of_io : Message → Fail
fail_of_io e = Fail.failed e

unfoldable pub into_io_error : Fail → Message
into_io_error (Fail.refused m) = m
into_io_error (Fail.infra m) = m
into_io_error (Fail.failed m) = m

unfoldable pub context : Fail → String → Fail
context (Fail.refused m) what = Fail.refused (within what m)
context (Fail.infra m) what = Fail.infra (within what m)
context (Fail.failed m) what = Fail.failed (within what m)

unfoldable pub into_outcome : Fail → Outcome
into_outcome (Fail.refused m) = Outcome.refused m
into_outcome (Fail.infra m) = Outcome.infra m
into_outcome (Fail.failed m) = Outcome.failed m []

-- The session after the durable boundary: what is still to be done.
pub record PostWrite : Type 0 where
  pub todo : List Pending

abbrev pub new_session : PostWrite
new_session = record { todo = [] }

-- `PostWrite::pending`
unfoldable pub record_pending : PostWrite → Pending → PostWrite
record_pending s p = record { todo = s.todo ++ (p ∷ []) }

abbrev pub session_len : PostWrite → ℕ
session_len s = length s.todo

-- `PostWrite::applied` and `PostWrite::failed`
unfoldable pub finish_applied : PostWrite → Outcome
unfolding applied_with
finish_applied s = applied_with s.todo

unfoldable pub finish_failed : PostWrite → Message → Outcome
unfolding failed_with
finish_failed s cause = failed_with cause s.todo
