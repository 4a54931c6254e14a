-- ===== src/Notifications/Total.antt =====
-- A notification never fails for want of a template.
use kusanya.Base.{String, Bool, true, false, Option, List, ◌≡◌, refl, arith, is_some}
use kusanya.Base.Table.{Table}
use kusanya.Core.Result.{Result, err, key_error}
use kusanya.Tenants.Models.{Tenant}
use kusanya.Notifications.Models.{
  Notification, NotificationTemplate, NotificationEventType, NotificationChannel, email, sms,
  whatsapp, push, Context,
}
use kusanya.Notifications.Defaults.{default_templates}
use kusanya.Notifications.Services.{
  create_notification, render_template, send_one, send_both, send_notification,
}
use kusanya.Store.{Store}

-- The channels that are sent to.
abbrev is_sent : NotificationChannel → Bool
is_sent email = true
is_sent sms = true
is_sent _ = false

default-exists :
    (ev : NotificationEventType) (ch : NotificationChannel)
    → is_sent ch ≡ true
    → is_some (default_templates ev ch) ≡ true
unfolding default_templates
default-exists ev email h = ground arith
default-exists ev sms h = ground arith
default-exists ev whatsapp h = cc
default-exists ev push h = cc

-- The call does not end in a `KeyError`.
abbrev pub has_text : {A : Type 0} → Result A → Bool
has_text (err key_error) = false
has_text _ = true

module _ (format_map : String → Context → Option String) (templates : List NotificationTemplate)
    (tenant : Tenant) (ev : NotificationEventType) (ch : NotificationChannel) (context : Context)
    (sent : is_sent ch ≡ true) where
  render-has_text : has_text (render_template format_map templates tenant ev ch context) ≡ true
  unfolding render_template
  render-has_text = ground (arith, default-exists ev ch sent)

  send_one-has_text :
      (recipient : String) (t : Table Notification)
      → has_text (send_one format_map templates tenant ev ch context recipient t).0 ≡ true
  unfolding send_one create_notification
  send_one-has_text recipient t = ground (arith, render-has_text)

-- Sending a notification never raises `KeyError` for want of a template: whatever templates a
-- tenant has, every event has a text for e-mail and for SMS. It may still raise at a template that
-- `format_map` cannot read, or at a text that is too long.
pub send_notification-has_text :
    (tenant : Tenant) (ev : NotificationEventType) (context : Context)
    (recipient_email recipient_phone : String) (s : Store)
    → has_text (send_notification tenant ev context recipient_email recipient_phone s).0 ≡ true
unfolding send_notification send_both
send_notification-has_text tenant ev context recipient_email recipient_phone s =
    let one = send_one-has_text s.format_map s.templates tenant ev in
    let first_one = one email context refl recipient_email s.notifications in
    let t =
      (send_one s.format_map s.templates tenant ev email context recipient_email
        s.notifications).1 in
    ground (arith, first_one, one sms context refl recipient_phone t)
