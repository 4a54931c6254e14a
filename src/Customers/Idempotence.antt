-- ===== src/Customers/Idempotence.antt =====
-- Asking for a customer again.
use kusanya.Base.{
  ℕ, String, Bool, true, false, Option, none, ==_iff, ◌≡◌, refl, inl, inr, str_eq, eq_iff,
  Option-cases,
}
use kusanya.Base.Table.{first, exists-first}
use kusanya.Core.Result.{ok}
use kusanya.Tenants.Models.{Tenant}
use kusanya.Customers.Models.{Customer}
use kusanya.Customers.Services.{
  Directory, is_customer, refused, new_customer, create_customer, get_or_create_customer,
}

-- A request for a customer, with an external reference, a name, an e-mail address and a number that
-- fit their columns, is answered with a customer, created or found; and a request with that
-- reference later, whatever else it says, even texts that do not fit, is answered with the same
-- customer, not created again, and changes nothing.
pub get_or_create_customer-again :
    (tenant : Tenant) (full_name full_name' external_reference email email' phone phone' : String)
    (actor actor' : Option ℕ) (d : Directory)
    → str_eq external_reference "" ≡ false
    → refused full_name external_reference email phone ≡ none
    → (c : Customer) × (created : Bool) × ((get_or_create_customer tenant full_name
          external_reference email phone actor d).0
        ≡ ok (c, created))
      × (let d' =
            (get_or_create_customer tenant full_name external_reference email phone actor d).1 in
          get_or_create_customer tenant full_name' external_reference email' phone' actor' d'
          ≡ (ok (c, false), d'))
unfolding get_or_create_customer create_customer first
get_or_create_customer-again tenant full_name full_name' ref email email' phone phone' actor actor'
      d given fits =
    elim (Option-cases (first (is_customer tenant.id ref) d.customers.rows)) [
      | inr (c, found) ↦ rw (given, found, found) (c, false, refl, refl)
      | inl fresh ↦
          let absent = exists-first (is_customer tenant.id ref) d.customers.rows fresh in
          let own_id = (==_iff tenant.id tenant.id).1 refl in
          let own_reference = (eq_iff ref ref).1 refl in
          rw (given, fresh, fits, absent, own_id, own_reference)
            (new_customer tenant full_name ref email phone d.customers.next, true, refl, refl)
    ]
