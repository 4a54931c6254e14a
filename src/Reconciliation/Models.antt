-- ===== src/Reconciliation/Models.antt =====
-- apps/reconciliation/models.py
use kusanya.Base.{ℕ, String, Option}
use kusanya.Tenants.Models.{Tenant}

pub data ReconciliationRunStatus : Type 0 where
  running completed : ReconciliationRunStatus

pub record ReconciliationRun : Type 0 where
  pub id : ℕ
  pub tenant : Tenant
  pub status : ReconciliationRunStatus
  pub triggered_by : Option ℕ
  pub completed_at : Option ℕ
  pub total_checked : ℕ
  pub matched_count : ℕ
  pub exception_count : ℕ
  pub resolved_unknown_count : ℕ

pub data ExceptionType : Type 0 where
  stuck_unknown status_mismatch missing_at_provider : ExceptionType

pub data ExceptionStatus : Type 0 where
  open_status resolved : ExceptionStatus

pub record ReconciliationException : Type 0 where
  pub id : ℕ
  pub tenant : Tenant
  pub run : ℕ
  pub payment : ℕ
  pub exception_type : ExceptionType
  pub status : ExceptionStatus
  pub resolved_at : Option ℕ
  pub resolved_by : Option ℕ
  pub resolution_notes : String
