-- ===== src/Customers/Services.antt =====
-- apps/customers/services.py. Both functions look a row up by the tenant and the external reference
-- and create it where there is none; the optional fields of a row are arguments.
use kusanya.Base.{
  ℕ, String, Bool, true, false, not, Option, none, some, List, ◌&&◌, ◌||◌, ltb, ◌==◌, str_eq,
  if◌then◌else◌,
}
use Prim.Native.String.{count}
use kusanya.Base.Table.{Table, first, exists, insert}
use kusanya.Core.Result.{Result, Error, ok, err, unless, integrity, value_error, data_error}
use kusanya.Core.Objects.{customer, customer_account}
use kusanya.Tenants.Models.{Tenant}
use kusanya.Audit.Models.{AuditEvent, with_event}
use kusanya.Customers.Models.{Customer, CustomerAccount}

-- The tables of the customers, and the audit records of these services.
pub record Directory : Type 0 where
  pub customers : Table Customer
  pub accounts : Table CustomerAccount
  pub audit : List AuditEvent

abbrev pub is_customer : ℕ → String → Customer → Bool
is_customer tenant_id external_reference c =
    (c.tenant.id == tenant_id) && str_eq c.external_reference external_reference

abbrev pub is_account : ℕ → String → CustomerAccount → Bool
is_account tenant_id external_reference a =
    (a.tenant.id == tenant_id) && str_eq a.external_reference external_reference

-- `if external_reference: ....first()`
abbrev pub known {ℓ} : {A : Type ℓ} → String → Option A → Option A
known external_reference found = if str_eq external_reference "" then none else found

abbrev pub new_customer : Tenant → String → String → String → String → ℕ → Customer
new_customer tenant full_name external_reference email phone_number id = record {
  id = id;
  full_name = full_name;
  email = email;
  phone_number = phone_number;
  tenant = tenant;
  external_reference = external_reference;
  is_active = true;
}

abbrev pub new_account : Tenant → Customer → String → String → ℕ → CustomerAccount
new_account tenant c name external_reference id = record {
  id = id;
  customer = c;
  name = name;
  tenant = tenant;
  external_reference = external_reference;
  is_active = true;
}

-- What the columns of a customer refuse: the `EncryptedCharField` columns before the row is sent, by
-- their `max_length`, and the external reference in the database.
unfoldable pub refused : String → String → String → String → Option Error
refused full_name external_reference email phone_number =
    if ltb 255 (count full_name) || (ltb 254 (count email) || ltb 32 (count phone_number))
    then some value_error
    else if ltb 100 (count external_reference)
    then some data_error
    else none

-- What the columns of an account refuse, in the database.
unfoldable pub account_refused : String → String → Option Error
account_refused name external_reference =
    if ltb 255 (count name) || ltb 100 (count external_reference) then some data_error else none

-- `Customer.objects.create`: the texts are prepared for their columns before the row is sent, with
-- the unique external reference of a tenant. And the audit record.
unfoldable pub create_customer :
    Tenant
    → String
    → String
    → String
    → String
    → Option ℕ
    → Directory
    → Result (Customer × Bool) × Directory
create_customer tenant full_name external_reference email phone_number actor d =
    let id = d.customers.next in
    let row = new_customer tenant full_name external_reference email phone_number in
    unless (refused full_name external_reference email phone_number)
      (if not (str_eq external_reference "")
          && exists (is_customer tenant.id external_reference) d.customers.rows
        then (err integrity, d)
        else (
          ok (row id, true),
          record d {
            customers = insert d.customers row;
            audit =
                with_event "customer.created" actor (some tenant.id) (some (customer id)) d.audit;
          },
        ))
      d

abbrev answer_customer :
    Option Customer
    → Result (Customer × Bool) × Directory
    → Directory
    → Result (Customer × Bool) × Directory
answer_customer (some existing) created d = (ok (existing, false), d)
answer_customer none created d = created

unfoldable pub get_or_create_customer :
    Tenant
    → String
    → String
    → String
    → String
    → Option ℕ
    → Directory
    → Result (Customer × Bool) × Directory
get_or_create_customer tenant full_name external_reference email phone_number actor d =
    answer_customer
      (known external_reference (first (is_customer tenant.id external_reference) d.customers.rows))
      (create_customer tenant full_name external_reference email phone_number actor d) d

unfoldable pub create_account :
    Tenant
    → Customer
    → String
    → String
    → Option ℕ
    → Directory
    → Result (CustomerAccount × Bool) × Directory
create_account tenant c name external_reference actor d =
    let id = d.accounts.next in
    let row = new_account tenant c name external_reference in
    unless (account_refused name external_reference)
      (if not (str_eq external_reference "")
          && exists (is_account tenant.id external_reference) d.accounts.rows
        then (err integrity, d)
        else (
          ok (row id, true),
          record d {
            accounts = insert d.accounts row;
            audit =
                with_event "customer_account.created" actor (some tenant.id)
                  (some (customer_account id)) d.audit;
          },
        ))
      d

abbrev answer_account :
    Option CustomerAccount
    → Result (CustomerAccount × Bool) × Directory
    → Directory
    → Result (CustomerAccount × Bool) × Directory
answer_account (some existing) created d = (ok (existing, false), d)
answer_account none created d = created

unfoldable pub get_or_create_customer_account :
    Tenant
    → Customer
    → String
    → String
    → Option ℕ
    → Directory
    → Result (CustomerAccount × Bool) × Directory
get_or_create_customer_account tenant c name external_reference actor d =
    answer_account
      (known external_reference (first (is_account tenant.id external_reference) d.accounts.rows))
      (create_account tenant c name external_reference actor d) d
