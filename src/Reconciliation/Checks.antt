-- ===== src/Reconciliation/Checks.antt =====
-- What a reconciliation run may do to the books, and what its counters say.
use kusanya.Base.{
  ℕ, ◌+◌, Bool, true, false, Option, List, [], ◌∷◌, ◌≡◌, refl, subst, arith, if◌then◌else◌,
}
use kusanya.Core.Result.{Result, ok, err}
use kusanya.Tenants.Models.{Tenant}
use kusanya.Providers.Models.{ProviderOutcome}
use kusanya.Providers.Interface.{Registry}
use kusanya.Payments.Models.{Payment}
use kusanya.Payments.Books.{books}
use kusanya.Payments.Books.Frames.{Frames, frame_rules}
use kusanya.Reconciliation.Models.{ReconciliationRun, ExceptionType, missing_at_provider}
use kusanya.Reconciliation.Services.{
  create_run, save_run, open_exception, report, note_unknown, compare_outcome, query_all, check_all,
  count_matched, count_resolved, resolve_unknown_payments, check_settled_payments,
  run_reconciliation,
}
use kusanya.Store.{Store}
use kusanya.Store.Action.{Action, pure, gets, modify, continue, ◌>>=◌}

Frames-save_run : (run : ReconciliationRun) → Frames (save_run run)
unfolding save_run modify
Frames-save_run run = record { at = λ s. refl }

Frames-open_exception :
    (run : ReconciliationRun) (p : Payment) (ty : ExceptionType) → Frames (open_exception run p ty)
unfolding open_exception modify
Frames-open_exception run p ty = record { at = λ s. refl }

Frames-report :
    (run : ReconciliationRun) (p : Payment) (ty : ExceptionType) → Frames (report run p ty)
unfolding report
Frames-report run p ty = search (frame_rules, Frames-open_exception)

Frames-compare :
    (run : ReconciliationRun) (p : Payment) (o : ProviderOutcome) → Frames (compare_outcome run p o)
unfolding compare_outcome
Frames-compare run p ProviderOutcome.unknown = Frames-report run p missing_at_provider
Frames-compare run p ProviderOutcome.successful = search (frame_rules, Frames-report)
Frames-compare run p ProviderOutcome.failed = search (frame_rules, Frames-report)
Frames-compare run p ProviderOutcome.pending = search (frame_rules, Frames-report)

Frames-check_all :
    (registry : Registry) (ps : List Payment) (run : ReconciliationRun)
    → Frames (check_all registry ps run)
unfolding check_all
Frames-check_all registry [] run = search frame_rules
Frames-check_all registry (p ∷ ps) run =
    let rest = Frames-check_all registry ps in search (frame_rules, Frames-compare, rest) depth 12

-- Whatever a provider says of the settled payments, comparing with it changes no payment, no ledger
-- entry and no revenue event, also where the comparison raises half way.
pub check_settled_payments-books :
    (registry : Registry) (run : ReconciliationRun) (s : Store)
    → books (check_settled_payments registry run s).1 ≡ books s
unfolding check_settled_payments
check_settled_payments-books registry run =
    let all : Frames (check_settled_payments registry run) =
      search (frame_rules, Frames-check_all, Frames-save_run) depth 12 in
    all.at

-- Every payment that was checked is counted as matched, resolved or an exception.
abbrev IsBalanced : ReconciliationRun → Type 0
IsBalanced run =
    run.total_checked ≡ run.matched_count + run.exception_count + run.resolved_unknown_count

abbrev Balanced : Result ReconciliationRun → Type 0
Balanced (ok run) = IsBalanced run
Balanced (err e) = Unit

record Balances (m : Action ReconciliationRun) : Type 0 where
  at : (s : Store) → Balanced (m s).0

Balances-pure : (run : ReconciliationRun) → IsBalanced run → Balances (pure run)
unfolding pure
Balances-pure run h = record { at = λ s. h }

Balances-gets :
    (f : Store → ReconciliationRun) → ((s : Store) → IsBalanced (f s)) → Balances (gets f)
unfolding gets
Balances-gets f h = record { at = λ s. h s }

module _ {A : Type 0} where
  Balances-any :
      (m : Action A) (f : A → Action ReconciliationRun)
      → ((a : A) → Balances (f a))
      → Balances (m >>= f)
  unfolding ◌>>=◌
  Balances-any m f k = record { at = λ s. ended (m s).0 (m s).1 }
    where
      ended : (r : Result A) (u : Store) → Balanced (continue r f u).0
      ended (ok a) u = (k a).at u
      ended (err e) u = tt

Balances-bind :
    (m : Action ReconciliationRun) (f : ReconciliationRun → Action ReconciliationRun)
    → Balances m
    → ((run : ReconciliationRun) → IsBalanced run → Balances (f run))
    → Balances (m >>= f)
unfolding ◌>>=◌
Balances-bind m f h k = record { at = λ s. ended (m s).0 (m s).1 (h.at s) }
  where
    ended : (r : Result ReconciliationRun) (u : Store) → Balanced r → Balanced (continue r f u).0
    ended (ok run) u b = (k run b).at u
    ended (err e) u b = tt

Balances-report :
    (run : ReconciliationRun) (p : Payment) (ty : ExceptionType)
    → IsBalanced run
    → Balances (report run p ty)
unfolding report
Balances-report run p ty h = Balances-any _ _ (λ x. Balances-pure _ (omega (arith, h)))

Balances-if :
    (b : Bool) (m n : Action ReconciliationRun)
    → Balances m
    → Balances n
    → Balances (if b then m else n)
Balances-if true m n h k = h
Balances-if false m n h k = k

Balances-note :
    (run : ReconciliationRun) (p : Payment) → IsBalanced run → Balances (note_unknown run p)
unfolding note_unknown
Balances-note run p h =
    Balances-if _ _ _ (Balances-report run p _ h)
      (Balances-pure (count_resolved run) (omega (arith, h)))

Balances-compare :
    (run : ReconciliationRun) (p : Payment) (o : ProviderOutcome)
    → IsBalanced run
    → Balances (compare_outcome run p o)
unfolding compare_outcome
Balances-compare run p ProviderOutcome.unknown h = Balances-report run p missing_at_provider h
Balances-compare run p ProviderOutcome.successful h =
    Balances-if _ _ _ (Balances-pure (count_matched run) (omega (arith, h)))
      (Balances-report run p _ h)
Balances-compare run p ProviderOutcome.failed h =
    Balances-if _ _ _ (Balances-pure (count_matched run) (omega (arith, h)))
      (Balances-report run p _ h)
Balances-compare run p ProviderOutcome.pending h =
    Balances-if _ _ _ (Balances-pure (count_matched run) (omega (arith, h)))
      (Balances-report run p _ h)

Balances-query_all :
    (registry : Registry) (actor : Option ℕ) (ps : List Payment) (run : ReconciliationRun)
    → IsBalanced run
    → Balances (query_all registry actor ps run)
unfolding query_all
Balances-query_all registry actor [] run h = Balances-pure run h
Balances-query_all registry actor (p ∷ ps) run h =
    Balances-any _ _
      (λ p'. Balances-bind _ _ (Balances-note run p' h) (Balances-query_all registry actor ps))

Balances-check_all :
    (registry : Registry) (ps : List Payment) (run : ReconciliationRun)
    → IsBalanced run
    → Balances (check_all registry ps run)
unfolding check_all
Balances-check_all registry [] run h = Balances-pure run h
Balances-check_all registry (p ∷ ps) run h = Balances-any _ _ (λ adapter.
    Balances-any _ _ (λ result.
      Balances-bind _ _ (Balances-compare run p result.outcome h) (Balances-check_all registry ps)))

Balances-run :
    (registry : Registry) (tenant : Tenant) (actor : Option ℕ)
    → Balances (run_reconciliation registry tenant actor)
unfolding run_reconciliation resolve_unknown_payments check_settled_payments
Balances-run registry tenant actor =
    Balances-bind _ _ (unfold create_run in record { at = λ s. refl }) (λ run h.
      Balances-bind _ _
        (Balances-any _ _ (λ ps.
          Balances-bind _ _ (Balances-query_all registry actor ps run h)
            (λ run' h'. Balances-any _ _ (λ x. Balances-pure run' h'))))
        (λ queried h'.
          Balances-bind _ _
            (Balances-any _ _ (λ ps.
              Balances-bind _ _ (Balances-check_all registry ps queried h')
                (λ run' k. Balances-any _ _ (λ x. Balances-pure run' k))))
            (λ checked k.
              Balances-bind _ _ (Balances-gets _ (λ s. k))
                (λ run' k'. Balances-any _ _ (λ x. Balances-pure run' k')))))

-- Where a reconciliation run answers, the payments that it checked are those that it counted as
-- matched, as exceptions and as resolved, each once.
pub run_reconciliation-counts :
    (registry : Registry) (tenant : Tenant) (actor : Option ℕ) (s : Store) {run : ReconciliationRun}
    {t : Store}
    → run_reconciliation registry tenant actor s ≡ (ok run, t)
    → run.total_checked ≡ run.matched_count + run.exception_count + run.resolved_unknown_count
run_reconciliation-counts registry tenant actor s h =
    subst (λ (x : Result ReconciliationRun × Store). Balanced x.0) h
      ((Balances-run registry tenant actor).at s)
