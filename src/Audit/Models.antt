-- ===== src/Audit/Models.antt =====
-- apps/audit/models.py: what the services hand to `record_audit_event`. The events are kept newest
-- first.
use kusanya.Base.{ℕ, String, Option, List, ◌∷◌}
use kusanya.Core.Objects.{Object}

pub record AuditEvent : Type 0 where
  pub action : String
  pub actor : Option ℕ
  pub tenant : Option ℕ
  pub target : Option Object

-- `record_audit_event`, on a list of events.
abbrev pub with_event :
    String → Option ℕ → Option ℕ → Option Object → List AuditEvent → List AuditEvent
with_event action actor tenant target events =
    record { action = action; actor = actor; tenant = tenant; target = target } ∷ events
