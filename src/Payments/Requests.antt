-- ===== src/Payments/Requests.antt =====
-- The requests that reach the orchestrator: each loads its payment, calls one entry point, and
-- leaves nothing behind if that raises (`ATOMIC_REQUESTS`, config/settings/base.py).
use kusanya.Base.{ℕ, String, Option, List, [], ◌∷◌}
use kusanya.Base.Int.{ℤ}
use kusanya.Base.Table.{first}
use kusanya.Core.Result.{does_not_exist}
use kusanya.Providers.Models.{PaymentProvider}
use kusanya.Providers.Interface.{Registry, Metadata}
use kusanya.Payments.Models.{Payment}
use kusanya.Payments.Status.{has_id}
use kusanya.Payments.Services.{Initiation, initiate_payment, query_payment}
use kusanya.Payments.Callbacks.{process_callback}
use kusanya.Payments.Refunds.{refund_payment, reverse_payment}
use kusanya.Store.{Store}
use kusanya.Store.Action.{Action, ⊤, pure, gets, or_raise, atomic, ◌>>=◌, ◌>>◌}

pub data Request : Type 0 where
  initiate : Initiation → Request
  query : ℕ → Option ℕ → Request
  callback : PaymentProvider → String → Metadata → Request
  refund : ℕ → Option ℤ → Option ℕ → Request
  reverse : ℕ → Option ℕ → Request

-- `get_object_or_404(Payment, pk=pk)`
unfoldable pub load : ℕ → Action Payment
load i = do found ← gets (λ s. first (has_id i) s.payments.rows); or_raise found does_not_exist

module _ (registry : Registry) where
  -- The view that a request runs (apps/payments/views.py). The views of a refund and a reversal
  -- catch `ValidationError`, and their request commits; here it raises and is rolled back, which
  -- leaves the same rows, since both services raise it before they write any.
  unfoldable pub perform : Request → Action ⊤
  unfolding load
  perform (initiate r) = do initiate_payment registry r; pure tt
  perform (query i actor) = do p ← load i; query_payment registry p actor; pure tt
  perform (callback provider raw headers) = do
    process_callback registry provider raw headers Option.none
    pure tt
  perform (refund i amount actor) = do p ← load i; refund_payment registry p amount actor; pure tt
  perform (reverse i actor) = do p ← load i; reverse_payment registry p actor; pure tt

  unfoldable pub serve : Request → Store → Store
  unfolding perform atomic
  serve r s = (atomic (perform r) s).1

  -- Requests one after another.
  unfoldable pub serve_all : List Request → Store → Store
  unfolding serve
  serve_all [] s = s
  serve_all (r ∷ rs) s = serve_all rs (serve r s)
