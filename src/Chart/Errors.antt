-- ===== src/Chart/Errors.antt =====
-- internal/helm/chart/errors.go: why a build failed. The wrapped error is one of those that the
-- builders name, or the text of another package's.
use flux_build.Base.{Bool, true, false, ◌++◌, if◌then◌else◌}
use flux_build.Base.Text.{Text, codes, is_empty}
use flux_build.Chart.Metadata.{MetadataError}
use flux_build.Chart.Reference.{ReferenceError}

-- The eight reasons of the file's `var` block
pub data BuildErrorReason : Type 0 where
  chart_reference chart_pull metadata_patch values_files_merge : BuildErrorReason
  dependency_build chart_package chart_verification unknown : BuildErrorReason

abbrev pub reason_text : BuildErrorReason → Text
reason_text chart_reference = codes "InvalidChartReference"
reason_text chart_pull = codes "ChartPullError"
reason_text metadata_patch = codes "MetadataPatchError"
reason_text values_files_merge = codes "ValuesFilesError"
reason_text dependency_build = codes "DependencyBuildError"
reason_text chart_package = codes "ChartPackageError"
reason_text chart_verification = codes "ChartVerificationError"
reason_text unknown = codes "Unknown"

-- `BuildErrorReason.Error`
abbrev pub summary : BuildErrorReason → Text
summary chart_reference = codes "invalid chart reference"
summary chart_pull = codes "chart pull error"
summary metadata_patch = codes "chart metadata patch error"
summary values_files_merge = codes "values files merge error"
summary dependency_build = codes "dependency build error"
summary chart_package = codes "chart package error"
summary chart_verification = codes "chart verification error"
summary unknown = codes "unknown build error"

pub data Cause : Type 0 where
  wrong_reference : Cause
  invalid_reference : ReferenceError → Cause
  bad_metadata : MetadataError → Cause
  other : Text → Cause

pub record BuildError : Type 0 where
  pub reason : BuildErrorReason
  pub cause : Cause

abbrev pub failed : BuildErrorReason → Text → BuildError
failed r what = record { reason = r; cause = other what }

-- `BuildError.Error`, for the text of the wrapped error
unfoldable pub error_text : BuildError → Text → Text
error_text e wrapped =
    let s = summary e.reason in if is_empty s then wrapped else (s ++ codes ": " ++ wrapped)

-- `IsPersistentBuildErrorReason`
unfoldable pub is_persistent_build_error_reason : BuildErrorReason → Bool
is_persistent_build_error_reason chart_reference = true
is_persistent_build_error_reason metadata_patch = true
is_persistent_build_error_reason values_files_merge = true
is_persistent_build_error_reason _ = false
