-- ===== src/Lib.antt =====
-- KUSANYA: billing and payment collection for institutions. An institution (a tenant) bills its
-- customers, a bill or an account has a control number, and a payment against that number is
-- collected through a provider. This library models the financial core of the Django project,
-- written in Python: the payment orchestrator (apps/payments/services.py), which starts, queries,
-- settles, refunds and reverses payments and takes in the providers' callbacks, and everything that
-- it calls; the workers that deliver what it sends out; and the guards around it: the login with
-- its second factor, API credentials, roles, rate limits, the audit log and encrypted columns.
--
-- Which file models which part, with the paths from the repository's root:
--   Store, Store.Action      the database as one record of tables, and the actions on it: a call
--                            takes the store and returns, or raises, with the store that it leaves.
--                            `transaction.atomic()` and ATOMIC_REQUESTS (config/settings/base.py)
--                            are `atomic`, which rolls back on a raise
--   Core                     apps/core/money.py, apps/core/signing.py, the exceptions and the
--                            generic foreign keys
--   Core.Cache, .RateLimit   Django's cache as an interface with the laws that its documentation
--                            promises, and apps/core/ratelimit.py over it
--   Core.Encrypted           apps/core/encrypted_fields.py, what a column stores and reads
--   Core.Tasks               how a run of a Celery task ends
--   Tenants.Models           the fields of a tenant that the services read
--   Customers                apps/customers: the records, and their idempotent creation
--   Tenants.Permissions      apps/tenants/permissions.py and middleware.py
--   Tenants.Team             the page of a tenant's team (apps/tenants/views.py)
--   Accounts                 apps/accounts: the lockout (throttle.py), the codes of totp.py, the
--                            devices and backup codes of mfa_services.py, and in Login the two
--                            steps of a login (views.py) with the session, beside the login of
--                            the admin site (config/urls.py) and of a new institution's user
--   Api                      apps/api: the credentials and their authentication
--   ControlNumbers           apps/control_numbers: issue, cancellation and expiry. The two functions
--                            for a bill and for an account are one function of the owner
--   Billing                  apps/billing: the life cycle of a bill, its total and balance, its
--                            creation and cancellation
--   Providers                apps/providers: the adapter interface, the registry's shape, and the
--                            sandbox adapter of mock.py
--   Ledger, Revenue          apps/ledger, apps/revenue: the two books, and the fees
--   Receipts, Notifications, Webhooks
--                            what a payment sends out; the Delivery of the last two is the task
--                            of tasks.py that delivers their rows
--   Payments.Models, .Status apps/payments/models.py
--   Payments.Outcome         `_apply_outcome` and all that it sets off
--   Payments.Services        `initiate_payment` and `query_payment`
--   Payments.Callbacks       `process_callback`
--   Payments.Refunds         `refund_payment` and `reverse_payment`
--   Payments.Messages        `_dispatch`, `_notify`, `_notify_payment_successful`
--   Payments.Requests        the views that call these (apps/payments/views.py), as data
--   Settlement               apps/settlement: batches, and their completion
--   Reconciliation           apps/reconciliation: a run, and the resolution of an exception
--   Audit.Models, .Chain     what apps/audit/services.py is handed, and the hash chain of models.py
--   Payments.Books           the abstract view: payments, ledger and revenue events alone, and the
--                            steps they may go through; its children show that the services
--                            refine it
--   Payments.Fees, .Races, .Repeats, .Timeouts, .Duplicates, .Allocations, .Unresolved;
--   Billing.Idempotence, .Totals; ControlNumbers.Unique, .Fees; Settlement.Claims;
--   Reconciliation.Checks; Webhooks.Reach, .Attempts, .Received; Notifications.Total, .Once;
--   Audit.Verified, .Tampering; Core.RateLimit.Window; Accounts.Lockout, .Window, .Entry,
--   .SecondFactor, .BackupCodes; Tenants.Isolation, .Removal, .Administrators;
--   Customers.Idempotence; Api.Admitted, .Revoked, .Rotated
--                            properties of these parts
--   Tests                    a small store, and the theorems at work on it
--
-- How the model stands to the code. An object that a service holds and changes is a value that the
-- service returns; `save(update_fields=...)` writes those fields of its row, so an object in memory
-- may differ from its row as it may in Django. Rows are kept newest first, the order of each
-- model's `Meta.ordering`; primary keys are drawn from a counter per table. Amounts are whole
-- cents, as integers (`DecimalField` with two places). `timezone.now()` does not move within a
-- request, and the texts of `uuid.uuid4()` are a stream in the store. A provider's adapter is a
-- parameter: it reads and writes its own side only, and returns or raises. The HMAC and
-- `json.loads` are parameters too. A task that is enqueued when the transaction commits is the
-- pending row that it will read, and a run of the task is a function of that row and of what the
-- network answers. What a library does (HTTP, mail, hashes, ciphers, the cache, the check of a
-- password) is a parameter, and where a result depends on it the parameter has its documented laws
-- as fields. Two of them stand in the store, beside the clock: `str.format_map`, which may raise,
-- and the rounding of a column of two decimal places. Nothing here runs on fuel: the loops of the
-- code are over lists, or over a number of attempts (five for a control number, three for a bill),
-- and structurally recursive. A roll-back puts the database back and not the random texts drawn.
--
-- Not modelled: correlation ids, free JSON columns and raw provider responses, lookup hashes of
-- columns, and texts of `ValidationError`; forms, pages, the REST API's views, reports and
-- configuration, which are input and output around these services; the registration and approval of
-- tenants and the creation of user accounts; the otpauth URI and its QR code; which columns are
-- encrypted; the lengths and digits that columns refuse, but for the texts of a customer, an
-- account, a payment and a notification as they are created; and what the admin site can edit. The
-- table of audit records that the services write (Store) and the chain that `save` makes of them
-- (Audit.Chain) are two models: the chain stands alone.
pub mod Base
pub mod Core
pub mod Tenants
pub mod Customers
pub mod ControlNumbers
pub mod Billing
pub mod Providers
pub mod Payments
pub mod Ledger
pub mod Revenue
pub mod Receipts
pub mod Notifications
pub mod Webhooks
pub mod Settlement
pub mod Reconciliation
pub mod Accounts
pub mod Api
pub mod Audit
pub mod Store
pub mod Tests
