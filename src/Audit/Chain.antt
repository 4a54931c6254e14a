-- ===== src/Audit/Chain.antt =====
-- apps/audit/models.py, the hash chain of `AuditLog`. `json.dumps` of a payload, SHA-256 and `str`
-- of a user are the libraries' and parameters. The rows of the table are kept newest first.
use kusanya.Base.{
  ℕ, String, Bool, true, false, not, ◌&&◌, ◌||◌, ◌==◌, ltb, Option, none, some, List, [], ◌∷◌,
  str_eq, if◌then◌else◌,
}
use Prim.Native.String.{◌++◌}
use kusanya.Core.Objects.{Object, Value}

abbrev pub Json : Type 0
Json = List (String × Value)

pub record AuditLog : Type 0 where
  pub id : ℕ
  pub created_at : ℕ
  pub actor : Option ℕ
  pub actor_label : String
  pub tenant : Option ℕ
  pub action : String
  pub target : Option Object
  pub before : Option Json
  pub after : Option Json
  pub metadata : Json
  pub ip_address : Option String
  pub user_agent : String
  pub correlation_id : String
  pub previous_hash : String
  pub record_hash : String

-- The fields that the hash covers. A target is its content type and its `object_id`.
pub record Payload : Type 0 where
  pub action : String
  pub actor_label : Option String
  pub tenant_id : Option ℕ
  pub target : Option Object
  pub before : Option Json
  pub after : Option Json
  pub metadata : Json
  pub correlation_id : String
  pub created_at : ℕ

pub record Digests : Type 0 where
  pub dumps : Payload → String
  pub sha256 : String → String
  pub user_text : ℕ → String

abbrev pub genesis_hash : String
genesis_hash = "0000000000000000000000000000000000000000000000000000000000000000"

-- `self.actor_label or None`
abbrev pub or_none : String → Option String
or_none t = if str_eq t "" then none else some t

unfoldable pub payload_of : AuditLog → Payload
payload_of r = record {
  action = r.action;
  actor_label = or_none r.actor_label;
  tenant_id = r.tenant;
  target = r.target;
  before = r.before;
  after = r.after;
  metadata = r.metadata;
  correlation_id = r.correlation_id;
  created_at = r.created_at;
}

-- The order by `created_at` and then `id`.
abbrev pub comes_before : AuditLog → AuditLog → Bool
comes_before a b =
    ltb a.created_at b.created_at || ((a.created_at == b.created_at) && ltb a.id b.id)

-- `.order_by("created_at", "id")`
unfoldable pub put_in_order : AuditLog → List AuditLog → List AuditLog
put_in_order r [] = r ∷ []
put_in_order r (x ∷ xs) =
    let rest = put_in_order r xs in if comes_before r x then r ∷ x ∷ xs else x ∷ rest

unfoldable pub in_order : List AuditLog → List AuditLog
in_order [] = []
in_order (r ∷ rows) = put_in_order r (in_order rows)

abbrev pub later_of : AuditLog → Option AuditLog → AuditLog
later_of r none = r
later_of r (some x) = if comes_before r x then x else r

-- `.order_by("-created_at", "-id").first()`
unfoldable pub latest : List AuditLog → Option AuditLog
latest [] = none
latest (r ∷ rows) = some (later_of r (latest rows))

abbrev pub hash_or_genesis : Option AuditLog → String
hash_or_genesis none = genesis_hash
hash_or_genesis (some r) = r.record_hash

-- `actor_label` is filled from the actor where it is empty.
abbrev pub label_of : (ℕ → String) → Option ℕ → String → String
label_of user_text none label = label
label_of user_text (some u) label = if str_eq label "" then user_text u else label

-- What a call that `AuditLogImmutableError` may end gives.
pub data Saved : Type 0 where
  saved : List AuditLog → Saved
  immutable : Saved

module _ (digests : Digests) where
  unfoldable pub hash_of : String → AuditLog → String
  hash_of previous r = digests.sha256 (previous ++ (":" ++ digests.dumps (payload_of r)))

  -- The record as `save` writes it after the rows that are there.
  unfoldable pub sealed : AuditLog → List AuditLog → AuditLog
  sealed r rows =
      let named = record r { actor_label = label_of digests.user_text r.actor r.actor_label } in
      let previous = hash_or_genesis (latest rows) in
      record named { previous_hash = previous; record_hash = hash_of previous named }

  -- `save`, of a record that is being added or of one that is there already.
  unfoldable pub save : Bool → AuditLog → List AuditLog → Saved
  save false r rows = immutable
  save true r rows = saved (sealed r rows ∷ rows)

  -- The loop of `verify_chain`: the first broken record, if there is one.
  unfoldable pub first_broken : String → List AuditLog → Option AuditLog
  first_broken expected_previous [] = none
  first_broken expected_previous (r ∷ rest) =
      let later = first_broken r.record_hash rest in
      if not (str_eq r.previous_hash expected_previous)
      then some r
      else if not (str_eq (hash_of r.previous_hash r) r.record_hash)
      then some r
      else later

  abbrev is_none : Option AuditLog → Bool
  is_none none = true
  is_none (some r) = false

  unfoldable pub verify_chain : List AuditLog → Bool × Option AuditLog
  verify_chain rows =
      let broken = first_broken genesis_hash (in_order rows) in (is_none broken, broken)

unfoldable pub delete : AuditLog → List AuditLog → Saved
delete r rows = immutable
