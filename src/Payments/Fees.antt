-- ===== src/Payments/Fees.antt =====
-- What the abstract steps give for the store itself: fees, and the two books that only grow.
use kusanya.Base.{◌≡◌, refl, ap, ◌∙◌, sym, List, [], ◌∷◌, ◌++◌}
use mathlib.Core.List.{append_assoc}
use kusanya.Ledger.Models.{LedgerEntry}
use kusanya.Revenue.Models.{RevenueEvent}
use kusanya.Providers.Interface.{Registry}
use kusanya.Payments.Requests.{Request, serve_all}
use kusanya.Payments.Books.{
  Books, books, Step, Evolves, done, next, open_payment, learn, move, succeed, note, charged_ledger,
  fee_event,
}
use kusanya.Base.Table.{put_rows}
use kusanya.Payments.Books.Charges.{IsCharged, Evolves-IsCharged}
use kusanya.Payments.Books.Keys.{KeyedBooks, Evolves-IsKeyed}
use kusanya.Payments.Books.Requests.{serve_all-Evolves}
use kusanya.Store.{Store}

-- Take a store with unique payment keys in which every payment that has succeeded was charged one
-- fee and every other one none. After any sequence of initiations, queries, callbacks, refunds and
-- reversals, and for any registry of adapters, whatever they answer, both still hold: a payment
-- that has succeeded has exactly one fee event, refunded or reversed or not, and any other none.
pub serve_all-IsCharged :
    (registry : Registry) (rs : List Request) (s : Store)
    → KeyedBooks (books s)
    → IsCharged (books s)
    → KeyedBooks (books (serve_all registry rs s)) × IsCharged (books (serve_all registry rs s))
serve_all-IsCharged registry rs s k h =
    let run = serve_all-Evolves registry rs s k in
    (Evolves-IsKeyed run k, Evolves-IsCharged run k h)

-- Both books of `c` are those of `b` with rows added in front.
pub record Grows (b c : Books) : Type 0 where
  pub new_entries : List LedgerEntry
  pub new_events : List RevenueEvent
  pub ledger_grows : c.ledger.rows ≡ new_entries ++ b.ledger.rows
  pub revenue_grows : c.revenue.rows ≡ new_events ++ b.revenue.rows

Grows-Step : {a b c : Books} → Grows a b → Step b c → Grows a c
Grows-Step g (open_payment row ids fresh) = record {
  new_entries = g.new_entries;
  new_events = g.new_events;
  ledger_grows = g.ledger_grows;
  revenue_grows = g.revenue_grows;
}
Grows-Step g (learn p) = record {
  new_entries = g.new_entries;
  new_events = g.new_events;
  ledger_grows = g.ledger_grows;
  revenue_grows = g.revenue_grows;
}
Grows-Step g (move p p' held same go fair) = record {
  new_entries = g.new_entries;
  new_events = g.new_events;
  ledger_grows = g.ledger_grows;
  revenue_grows = g.revenue_grows;
}
Grows-Step {b = b} g (succeed p p' held same paid go) = record {
  new_entries = (charged_ledger p' (put_rows b.ledger g.new_entries)).rows;
  new_events = fee_event p' b.ledger b.revenue.next ∷ g.new_events;
  ledger_grows = ap (λ l. (charged_ledger p' (put_rows b.ledger l)).rows) g.ledger_grows;
  revenue_grows = ap (λ l. fee_event p' b.ledger b.revenue.next ∷ l) g.revenue_grows;
}
Grows-Step {a} {b} g (note event entries new added e) = record {
  new_entries = added ++ g.new_entries;
  new_events = event b.revenue.next ∷ g.new_events;
  ledger_grows =
      e
      ∙ ap (λ l. added ++ l) g.ledger_grows
      ∙ sym (append_assoc added g.new_entries a.ledger.rows);
  revenue_grows = ap (λ l. event b.revenue.next ∷ l) g.revenue_grows;
}

Evolves-Grows : {b c : Books} → Evolves b c → Grows b c
Evolves-Grows done = record {
  new_entries = [];
  new_events = [];
  ledger_grows = refl;
  revenue_grows = refl;
}
Evolves-Grows (next r st) = Grows-Step (Evolves-Grows r) st

-- From a store with unique payment keys, no sequence of requests changes or removes a ledger entry
-- or a revenue event: the rows that were there stay, in their order, behind the new ones.
pub serve_all-Grows :
    (registry : Registry) (rs : List Request) (s : Store)
    → KeyedBooks (books s)
    → Grows (books s) (books (serve_all registry rs s))
serve_all-Grows registry rs s k = Evolves-Grows (serve_all-Evolves registry rs s k)
