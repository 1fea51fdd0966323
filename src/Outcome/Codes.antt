-- ===== src/Outcome/Codes.antt =====
-- What the exit codes of src/outcome.rs tell: completeness, merging, and the durable boundary.
use disk_edit.Prelude.{
  String, ◌≡◌, refl, ◌↔◌, List, [], ◌∷◌, ◌++◌, ◌&&◌, arith, sym, ◌∙◌, if◌then◌else◌,
}
use mathlib.Core.List.{append-nil, append_assoc}
use disk_edit.Outcome.{
  Message, Pending, Outcome, FsError, PostWrite, synchronized, exit_ok, exit_refused, exit_partial,
  exit_infra, is_complete, exit_code, merge_applied, has_layout_write, fail_of_fs_error, fail_of_io,
  into_io_error, context, into_outcome, record_pending, finish_applied, finish_failed, new_session,
  is_empty,
}

-- The pending steps that an outcome names.
abbrev pub pending_of : Outcome → List Pending
pending_of (Outcome.failed _ ps) = ps
pending_of (Outcome.applied ps _) = ps
pending_of _ = []

-- The causes that lie in the request.
abbrev pub IsRequestError : FsError → Type 0
IsRequestError (FsError.unsupported_fs _) = Unit
IsRequestError (FsError.invalid_argument _) = Unit
IsRequestError _ = ⊥

abbrev pub message_of : FsError → Message
message_of (FsError.unsupported_fs m) = m
message_of (FsError.tool_missing m) = m
message_of (FsError.command_failed m) = m
message_of (FsError.invalid_argument m) = m
message_of (FsError.io m) = m

unfoldable pub record_all : List Pending → PostWrite → PostWrite
record_all [] s = s
record_all (p ∷ ps) s = record_all ps (record_pending s p)

record_all-todo : (ps : List Pending) (s : PostWrite) → (record_all ps s).todo ≡ s.todo ++ ps
unfolding record_all record_pending
record_all-todo [] s = sym (append-nil s.todo)
record_all-todo (p ∷ ps) s =
    record_all-todo ps (record_pending s p) ∙ append_assoc s.todo (p ∷ []) ps

-- The exit code is 0 exactly for an outcome with nothing pending and a synchronized kernel view.
exit_code-zero_iff : (o : Outcome) → (exit_code o ≡ exit_ok) ↔ (o ≡ Outcome.applied [] synchronized)
unfolding exit_code
exit_code-zero_iff o = ground arith

-- A merge is complete exactly when both sides are; it keeps every pending step of two applied
-- outcomes, and two outcomes of which one is not applied merge to one that is not applied.
merge_applied_lem :
    (a b : Outcome)
    → (is_complete (merge_applied a b) ≡ (is_complete a && is_complete b))
      × (has_layout_write (merge_applied a b) ≡ (has_layout_write a && has_layout_write b))
      × (pending_of (merge_applied a b) ≡ (
          if has_layout_write a && has_layout_write b
          then pending_of a ++ pending_of b
          else pending_of (if has_layout_write b then a else b)))
unfolding merge_applied is_complete
merge_applied_lem (Outcome.refused m) b = ground arith
merge_applied_lem (Outcome.infra m) b = ground arith
merge_applied_lem (Outcome.failed m p) b = ground arith
merge_applied_lem (Outcome.applied p k) b = ground arith

-- A tool or file-system error before the first write is reported with 10 exactly when it lies in
-- the request (a kind with no wiring, an argument that does not fit), and a context keeps the code.
-- Once flattened to an I/O error it always ends as `failed` with 30, whatever it was before.
fs_error_codes :
    (e : FsError) (what : String)
    → ((exit_code (into_outcome (fail_of_fs_error e)) ≡ exit_refused) ↔ IsRequestError e)
      × (exit_code (into_outcome (context (fail_of_fs_error e) what))
          ≡ exit_code (into_outcome (fail_of_fs_error e)))
      × (into_outcome (fail_of_io (into_io_error (fail_of_fs_error e)))
          ≡ Outcome.failed (message_of e) [])
unfolding exit_code into_outcome fail_of_fs_error context fail_of_io into_io_error
fs_error_codes (FsError.unsupported_fs m) what = ground arith
fs_error_codes (FsError.tool_missing m) what = ground arith
fs_error_codes (FsError.command_failed m) what = ground arith
fs_error_codes (FsError.invalid_argument m) what = ground arith
fs_error_codes (FsError.io m) what = ground arith

-- A write session that has recorded any list of pending steps ends with 0 exactly when the list is
-- empty and with 20 otherwise; if it fails it ends with 30, and both reports name every step.
session_codes :
    (ps : List Pending) (cause : Message)
    → let s = record_all ps new_session in
      (exit_code (finish_applied s) ≡ (if is_empty ps then exit_ok else exit_partial))
      × (exit_code (finish_failed s cause) ≡ exit_infra)
      × (pending_of (finish_applied s) ≡ ps)
      × (pending_of (finish_failed s cause) ≡ ps)
unfolding exit_code finish_applied finish_failed
session_codes [] cause = unfold record_all in (refl, refl, refl, refl)
session_codes (p ∷ ps) cause = rw (record_all-todo (p ∷ ps) new_session) (refl, refl, refl, refl)
