-- ===== src/Store/Action.antt =====
-- Actions on the store, and the rules for what they keep.
use kusanya.Base.{ℕ, String, ◌+◌, ◌∷◌, Option, none, some}
use kusanya.Core.Result.{Error, Result, ok, err}
use kusanya.Core.Objects.{Object}
use kusanya.Providers.Interface.{ProviderCall}
use kusanya.Store.{Store}

abbrev pub ⊤ : Type 0
⊤ = Unit

abbrev pub Action : Type 0 → Type 0
Action A = Store → Result A × Store

unfoldable pub pure : {A : Type 0} → A → Action A
pure a s = (ok a, s)

unfoldable pub raise : {A : Type 0} → Error → Action A
raise e s = (err e, s)

unfoldable pub gets : {A : Type 0} → (Store → A) → Action A
gets f s = (ok (f s), s)

unfoldable pub modify : (Store → Store) → Action ⊤
modify f s = (ok tt, f s)

-- `.get(...)`, which raises where there is no row.
unfoldable pub or_raise : {A : Type 0} → Option A → Error → Action A
or_raise none e s = (err e, s)
or_raise (some a) e s = (ok a, s)

-- The rest of a block after a call, by how the call ended.
abbrev pub continue : {A B : Type 0} → Result A → (A → Action B) → Action B
continue (ok a) f s = f a s
continue (err e) f s = (err e, s)

infixl 5 ◌>>=◌ ◌>>◌
-- Opening this opens the five actions above too.
unfoldable pub ◌>>=◌ : {A B : Type 0} → Action A → (A → Action B) → Action B
unfolding pure raise gets modify or_raise
◌>>=◌ m f s = let (r, s') = m s in continue r f s'

abbrev pub ◌>>◌ : {A B : Type 0} → Action A → Action B → Action B
m >> k = m >>= λ _. k

-- `transaction.atomic()`, and the request under `ATOMIC_REQUESTS`: a raise rolls the database back.
-- The random texts that were drawn stay drawn.
abbrev pub rollback : {A : Type 0} → Store → Result A → Store → Result A × Store
rollback s (ok a) s' = (ok a, s')
rollback s (err e) s' = (err e, record s { uuids = s'.uuids })

unfoldable pub atomic : {A : Type 0} → Action A → Action A
atomic m s = let (r, s') = m s in rollback s r s'

-- A call of the provider changes its side alone.
unfoldable pub ask : {A : Type 0} → ProviderCall A → Action A
ask call s = let (r, w) = call s.sandbox in (r, record s { sandbox = w })

-- The text that one `uuid.uuid4()` gives.
unfoldable pub draw : Action String
draw s = (ok (s.uuids 0), record s { uuids = λ n. s.uuids (n + 1) })

-- `record_audit_event` (apps/audit/services.py), without the request's context.
unfoldable pub record_audit_event : String → Option ℕ → Option ℕ → Option Object → Action ⊤
record_audit_event action actor tenant target s = (
  ok tt,
  record s {
    audit = record { action = action; actor = actor; tenant = tenant; target = target } ∷ s.audit;
  },
)
