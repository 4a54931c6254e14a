-- ===== src/Tests/Audit.antt =====
-- The theorems about the audit log at work.
use kusanya.Base.{true, false, none, some, List, [], ◌∷◌, ◌≡◌, refl, arith}
use kusanya.Audit.Chain.{
  AuditLog, Digests, sealed, save, in_order, put_in_order, first_broken, hash_of, payload_of,
  latest, verify_chain,
}
use kusanya.Audit.Verified.{IsOrdered, IsLater, IsSavedIntact, save-IsIntact}
use kusanya.Audit.Tampering.{IsCollisionFree, covered, verify_chain-same}
use Prim.Native.String.{◌++◌}

-- A digest that keeps the text, so that no two texts collide.
abbrev digests : Digests
digests = record {
  dumps = λ p. p.action;
  sha256 = λ t. "<" ++ (t ++ ">");
  user_text = λ u. "admin@example.com";
}

-- One that shows nothing of the text but has one length.
abbrev short_digests : Digests
short_digests = record digests { sha256 = λ t. "5f" }

abbrev entry : AuditLog
entry = record {
  id = 4;
  created_at = 10;
  actor = some 1;
  actor_label = "";
  tenant = none;
  action = "tenant.approved";
  target = none;
  before = none;
  after = none;
  metadata = [];
  ip_address = none;
  user_agent = "";
  correlation_id = "";
  previous_hash = "";
  record_hash = "";
}

abbrev later_entry : AuditLog
later_entry = record entry { id = 2; created_at = 11; action = "tenant.suspended" }

abbrev log : List AuditLog
log = sealed digests entry [] ∷ []

-- Two records are accepted; with the older one altered, the check stops at it.
two_records : verify_chain digests (sealed digests later_entry log ∷ log) ≡ (true, none)
unfolding verify_chain first_broken in_order put_in_order sealed latest hash_of payload_of
two_records = refl

abbrev altered : AuditLog
altered = record (sealed digests entry []) { action = "tenant.rejected" }

altered_record :
    verify_chain digests (sealed digests later_entry log ∷ altered ∷ []) ≡ (false, some altered)
unfolding verify_chain first_broken in_order put_in_order sealed latest hash_of payload_of
altered_record = refl

save-IsIntact_example : IsSavedIntact digests (save digests true later_entry log)
unfolding IsOrdered IsLater verify_chain first_broken in_order put_in_order sealed latest hash_of
    payload_of
save-IsIntact_example = save-IsIntact digests later_entry log ((tt, tt), refl) (omega arith, tt)

verify_chain-same_example :
    covered short_digests (in_order (sealed short_digests entry [] ∷ []))
    ≡ covered short_digests (in_order (sealed short_digests entry [] ∷ []))
unfolding IsCollisionFree in_order put_in_order verify_chain first_broken sealed latest hash_of
verify_chain-same_example =
    verify_chain-same short_digests (sealed short_digests entry [] ∷ [])
      (sealed short_digests entry [] ∷ []) (λ t u. refl) refl ((λ e. refl), tt) refl refl refl
