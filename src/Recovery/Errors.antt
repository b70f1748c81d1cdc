-- ===== src/Recovery/Errors.antt =====
-- The error types and the strategies of src/recovery.rs. A backoff multiplier is written in tenths:
-- the program uses 2.0 and 1.5, for which the product with a whole number of milliseconds is exact.
use snp.Prelude.{ℕ, Bool, true, false, String}

pub data ErrorType : Type 0 where
  network_timeout network_connection_refused network_dns_resolution : ErrorType
  file_locked file_permission_denied file_not_found disk_space_exhausted : ErrorType
  git_repository_corrupted git_remote_unavailable git_authentication_failed : ErrorType
  git_merge_conflict language_environment_missing language_version_incompatible : ErrorType
  dependency_installation_failed process_timeout process_killed : ErrorType
  process_resource_exhausted configuration_invalid configuration_missing : ErrorType
  unrecoverable_error : ErrorType

pub record RecoverableError : Type 0 where
  pub error_type : ErrorType
  pub message : String

-- `is_error_recoverable`.
unfoldable pub is_error_recoverable : RecoverableError → Bool
is_error_recoverable e = elim e.error_type [
  | unrecoverable_error ↦ false
  | configuration_invalid ↦ false
  | _ ↦ true
]

-- The strategies that the engine carries out; the others end in one failure.
pub data RecoveryStrategy : Type 0 where
  retry : (max_attempts initial_delay max_delay backoff_tenths : ℕ) → RecoveryStrategy
  skip : (user_notification : Bool) → RecoveryStrategy
  abort : (cleanup_required : Bool) → RecoveryStrategy
  unimplemented : RecoveryStrategy
