-- ===== src/Notifications/Once.antt =====
-- A notification is sent at most once, and never lost in silence.
use kusanya.Base.{
  ℕ, String, false, Option, some, List, [], ◌∷◌, ◌++◌, ◌≡◌, refl, sym, ap, ◌∙◌, subst, arith,
}
use mathlib.Core.List.{append-nil}
use kusanya.Base.Table.{first, update, first-passes, first-replaced}
use kusanya.Core.Result.{ok}
use kusanya.Core.Tasks.{TaskEnd, returns, retries}
use kusanya.Notifications.Models.{Notification, NotificationStatus, NotificationChannel, email}
use kusanya.Notifications.Delivery.{
  Mail, Handled, no_handler, handled, raises, is_sent, has_id, save_notification, run_handler,
  deliver_email, mail_of, after_handler, deliver_found, deliver_notification, run_notifications,
}
use kusanya.Store.{Store}
use kusanya.Store.Action.{pure, ◌>>=◌}

abbrev pub row_of : ℕ → Store → Option Notification
row_of i s = first (has_id i) s.notifications.rows

save-row :
    (i : ℕ) (s : Store) (n n' : Notification)
    → row_of i s ≡ some n
    → n'.id ≡ n.id
    → row_of i (save_notification n' s).1 ≡ some n'
unfolding ◌>>=◌
save-row i s n n' h e =
    subst (λ k. first (has_id i) (update (has_id k) (λ _. n') s.notifications.rows) ≡ some n')
      (sym same) (first-replaced (has_id i) s.notifications.rows n n' h (ground (arith, same)))
  where
    same : n'.id ≡ i
    same = ground (arith, first-passes (has_id i) s.notifications.rows n h)

-- The status and the end of a run, by what its handler did.
abbrev pub status_after : Handled → NotificationStatus
status_after handled = NotificationStatus.sent
status_after _ = NotificationStatus.failed

abbrev pub end_after : Handled → TaskEnd
end_after (raises _) = retries 30
end_after _ = returns

after_handler-status :
    (i : ℕ) (s : Store) (n : Notification) (h : Handled)
    → row_of i s ≡ some n
    → ((after_handler h n s).0 ≡ ok (end_after h))
      × ((n' : Notification) × (row_of i (after_handler h n s).1 ≡ some n')
          × (n'.status ≡ status_after h))
unfolding after_handler ◌>>=◌
after_handler-status i s n no_handler found = (refl, (_, save-row i s n _ found refl, refl))
after_handler-status i s n (raises text) found = (refl, (_, save-row i s n _ found refl, refl))
after_handler-status i s n handled found = (refl, (_, save-row i s n _ found refl, refl))

-- A run for a notification that is not sent leaves it sent or failed, never pending, by what the
-- handler of its channel did; it asks for another run only after the handler raised, and it calls
-- `send_mail` with the handler's messages.
deliver_notification-status :
    (send_mail : Mail → Option String) (i : ℕ) (s : Store) (n : Notification)
    → row_of i s ≡ some n
    → is_sent n.status ≡ false
    → ((deliver_notification send_mail i s).0
        ≡ ok (end_after (run_handler send_mail n).0, (run_handler send_mail n).1))
      × ((n' : Notification) × (row_of i (deliver_notification send_mail i s).1 ≡ some n')
          × (n'.status ≡ status_after (run_handler send_mail n).0))
unfolding deliver_notification deliver_found pure ◌>>=◌
deliver_notification-status send_mail i s n found unsent =
    let (ended, kept) = after_handler-status i s n (run_handler send_mail n).0 found in
    rw (found, unsent, ended) (refl, kept)

deliver_notification-sent :
    (send_mail : Mail → Option String) (i : ℕ) (s : Store) (n : Notification)
    → row_of i s ≡ some n
    → n.status ≡ NotificationStatus.sent
    → deliver_notification send_mail i s ≡ (ok (returns, []), s)
unfolding deliver_notification deliver_found pure ◌>>=◌
deliver_notification-sent send_mail i s n found sent = rw (found, sent) refl

run_notifications-sent :
    (i : ℕ) (later : List (Mail → Option String)) (s : Store) (n : Notification)
    → row_of i s ≡ some n
    → n.status ≡ NotificationStatus.sent
    → run_notifications i later s ≡ ([], s)
unfolding run_notifications
run_notifications-sent i [] s n found sent = refl
run_notifications-sent i (send_mail ∷ later) s n found sent =
    rw (deliver_notification-sent send_mail i s n found sent)
      (run_notifications-sent i later s n found sent)

-- The messages that a notification calls for: one to its recipient by e-mail, none by SMS.
abbrev pub messages_for : NotificationChannel → Notification → List Mail
messages_for email n = mail_of n ∷ []
messages_for _ n = []

run_handler-messages :
    (send_mail : Mail → Option String) (n : Notification)
    → (run_handler send_mail n).1 ≡ messages_for n.channel n
unfolding run_handler deliver_email
run_handler-messages send_mail n = ground arith

-- A notification that is not sent, and a run whose handler raises nothing: however often the queue
-- hands the task out again, whatever the mail server does then, all the runs together call
-- `send_mail` just once for an e-mail, with its message, and never for an SMS; and the later ones
-- change nothing.
pub run_notifications-once :
    (send_mail : Mail → Option String) (i : ℕ) (later : List (Mail → Option String)) (s : Store)
    (n : Notification)
    → row_of i s ≡ some n
    → is_sent n.status ≡ false
    → (run_handler send_mail n).0 ≡ handled
    → run_notifications i (send_mail ∷ later) s
      ≡ (messages_for n.channel n, (deliver_notification send_mail i s).1)
unfolding run_notifications
run_notifications-once send_mail i later s n found unsent done =
    let (answer, (n', found', status)) = deliver_notification-status send_mail i s n found unsent in
    let quiet =
      run_notifications-sent i later (deliver_notification send_mail i s).1 n' found'
        (status ∙ ap status_after done) in
    rw (answer, quiet, run_handler-messages send_mail n) (one_list (messages_for n.channel n) _)
  where
    one_list : (ms : List Mail) (t : Store) → ◌≡◌ {A = List Mail × Store} (ms ++ [], t) (ms, t)
    one_list ms t = ap {B = List Mail × Store} (λ x. (x, t)) (append-nil ms)
