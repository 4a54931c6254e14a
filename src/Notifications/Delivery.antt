-- ===== src/Notifications/Delivery.antt =====
-- apps/notifications/tasks.py. Django's `send_mail` is a parameter: the text of the exception that
-- it raises, if it does.
use kusanya.Base.{
  ℕ, String, Bool, true, false, Option, none, some, List, [], ◌∷◌, ◌++◌, ◌==◌, if◌then◌else◌,
}
use Prim.Native.String.{◌++◌ as ◌<+>◌}
use kusanya.Base.Table.{first, update, put_rows}
use kusanya.Base.Text.{take_chars}
use kusanya.Core.Result.{Result, ok, err}
use kusanya.Core.Tasks.{TaskEnd, returns, retries}
use kusanya.Notifications.Models.{
  Notification, NotificationChannel, NotificationStatus, email, sms, whatsapp, push,
}
use kusanya.Store.{Store}
use kusanya.Store.Action.{Action, ⊤, pure, gets, modify, ◌>>=◌, ◌>>◌}

-- A message that is handed to the mail server: subject, body and recipient.
pub record Mail : Type 0 where
  pub subject : String
  pub body : String
  pub recipient : String

abbrev pub is_sent : NotificationStatus → Bool
is_sent NotificationStatus.sent = true
is_sent _ = false

abbrev pub has_id : ℕ → Notification → Bool
has_id i n = n.id == i

-- `notification.save(...)`
abbrev pub save_notification : Notification → Action ⊤
save_notification n = modify (λ s. record s {
  notifications = put_rows s.notifications (update (has_id n.id) (λ _. n) s.notifications.rows);
})

abbrev pub channel_text : NotificationChannel → String
channel_text email = "email"
channel_text sms = "sms"
channel_text whatsapp = "whatsapp"
channel_text push = "push"

-- `_DELIVERY_HANDLERS`: what the handler of a channel raises, or no handler.
pub data Handled : Type 0 where
  no_handler handled : Handled
  raises : String → Handled

abbrev mailed : Option String → Handled
mailed none = handled
mailed (some text) = raises text

abbrev pub mail_of : Notification → Mail
mail_of n = record { subject = n.subject; body = n.body; recipient = n.recipient }

-- With the outcome, the messages that `send_mail` was called with.
module _ (send_mail : Mail → Option String) where
  unfoldable pub deliver_email : Notification → Handled × List Mail
  deliver_email n = (mailed (send_mail (mail_of n)), mail_of n ∷ [])

  unfoldable pub run_handler : Notification → Handled × List Mail
  run_handler n = elim n.channel [
    | email ↦ deliver_email n
    | sms ↦ (handled, [])
    | whatsapp ↦ (no_handler, [])
    | push ↦ (no_handler, [])
  ]

-- What the task makes of the row, and how it ends. A retry without a countdown takes the default.
unfoldable pub after_handler : Handled → Notification → Action TaskEnd
after_handler no_handler n =
    save_notification (record n {
      status = NotificationStatus.failed;
      error_message =
          "No delivery handler implemented for channel '" <+> (channel_text n.channel <+> "'.");
    })
    >> pure returns
after_handler (raises text) n =
    save_notification
      (record n { status = NotificationStatus.failed; error_message = take_chars 500 text })
    >> pure (retries 30)
after_handler handled n = do
  now ← gets (λ s. s.now)
  save_notification (record n { status = NotificationStatus.sent; sent_at = some now })
  pure returns

-- The task: how it ends, and the messages that it called `send_mail` with.
unfoldable pub deliver_found :
    (Mail → Option String) → Option Notification → Action (TaskEnd × List Mail)
unfolding after_handler
deliver_found send_mail none = pure (returns, [])
deliver_found send_mail (some n) = if is_sent n.status then pure (returns, []) else (do
  (outcome, mails) ← pure (run_handler send_mail n)
  end ← after_handler outcome n
  pure (end, mails))

unfoldable pub deliver_notification : (Mail → Option String) → ℕ → Action (TaskEnd × List Mail)
unfolding deliver_found
deliver_notification send_mail notification_id = do
  found ← gets (λ s. first (has_id notification_id) s.notifications.rows)
  deliver_found send_mail found

abbrev pub mails_of : Result (TaskEnd × List Mail) → List Mail
mails_of (ok (end, mails)) = mails
mails_of (err e) = []

-- Runs of the task for one notification, one for each state of the mail server: its retries, and
-- the same message from the queue again. With the store that is left, all calls of `send_mail`.
unfoldable pub run_notifications : ℕ → List (Mail → Option String) → Store → List Mail × Store
unfolding deliver_notification
run_notifications i [] s = ([], s)
run_notifications i (send_mail ∷ later) s =
    let (result, t) = deliver_notification send_mail i s in
    let (mails, u) = run_notifications i later t in (mails_of result ++ mails, u)
