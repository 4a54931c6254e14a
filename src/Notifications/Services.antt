-- ===== src/Notifications/Services.antt =====
-- apps/notifications/services.py. The enqueueing of the delivery, when the transaction commits, is
-- the pending row itself.
use kusanya.Base.{
  ℕ, String, Bool, Option, none, some, List, [], ◌∷◌, ◌++◌, ◌&&◌, ◌==◌, str_eq, ltb, if◌then◌else◌,
}
use Prim.Native.String.{count}
use kusanya.Base.Table.{Table, insert, first}
use kusanya.Core.Result.{Result, Error, ok, err, key_error, value_error, data_error}
use kusanya.Tenants.Models.{Tenant}
use kusanya.Notifications.Models.{
  Notification, NotificationTemplate, NotificationEventType, NotificationChannel, email, sms,
  Context, event_tag, channel_tag, NotificationStatus,
}
use kusanya.Notifications.Defaults.{Copy, default_templates}
use kusanya.Store.Action.{Action}

abbrev pub overrides :
    Tenant → NotificationEventType → NotificationChannel → NotificationTemplate → Bool
overrides tenant ev ch t =
    (t.tenant.id == tenant.id)
    && ((event_tag t.event_type == event_tag ev)
        && ((channel_tag t.channel == channel_tag ch) && t.is_active))

abbrev copy_or_default : Option NotificationTemplate → Option Copy → Result Copy
copy_or_default (some t) d = ok (record { subject = t.subject; body = t.body })
copy_or_default none (some c) = ok c
copy_or_default none none = err key_error

abbrev both_or_raise : Option String → Option String → Result (String × String)
both_or_raise (some subject) (some body) = ok (subject, body)
both_or_raise _ _ = err value_error

-- `render_template`: the tenant's own template, or else the default; `KeyError` without either, and
-- what `format_map` raises at a template that it cannot read.
unfoldable pub render_template :
    (String → Context → Option String)
    → List NotificationTemplate
    → Tenant
    → NotificationEventType
    → NotificationChannel
    → Context
    → Result (String × String)
render_template format_map templates tenant ev ch context =
    elim (copy_or_default (first (overrides tenant ev ch) templates) (default_templates ev ch)) [
      | ok c ↦ both_or_raise (format_map c.subject context) (format_map c.body context)
      | err e ↦ err e
    ]

-- What the columns of a notification refuse: the recipient before the row is sent, by its
-- `max_length`, and the subject in the database.
abbrev pub refused : String → String → Option Error
refused recipient subject =
    if ltb 255 (count recipient)
    then some value_error
    else if ltb 255 (count subject)
    then some data_error
    else none

-- `Notification.objects.create(...)`
unfoldable pub create_notification :
    (ℕ → Notification) → Table Notification → Result (List Notification) × Table Notification
create_notification row t = elim (refused (row t.next).recipient (row t.next).subject) [
  | some e ↦ (err e, t)
  | none ↦ (ok (row t.next ∷ []), insert t row)
]

module _ (format_map : String → Context → Option String) (templates : List NotificationTemplate)
    (tenant : Tenant) (ev : NotificationEventType) where
  -- One channel of `send_notification`: nothing without a recipient.
  unfoldable pub send_one :
      NotificationChannel
      → Context
      → String
      → Table Notification
      → Result (List Notification) × Table Notification
  send_one ch context recipient t =
      if str_eq recipient ""
      then (ok [], t)
      else elim (render_template format_map templates tenant ev ch context) [
        | ok (subject, body) ↦
            let row : ℕ → Notification = λ id. record {
              id = id;
              tenant = tenant;
              event_type = ev;
              channel = ch;
              recipient = recipient;
              subject = elim ch [ sms ↦ "" | _ ↦ subject ];
              body = body;
              status = NotificationStatus.pending;
              sent_at = none;
              error_message = "";
            } in
            create_notification row t
        | err e ↦ (err e, t)
      ]

  -- `send_notification`, on the table that it writes: e-mail first, then SMS.
  unfoldable pub send_both :
      Context
      → String
      → String
      → Table Notification
      → Result (List Notification) × Table Notification
  unfolding send_one
  send_both context recipient_email recipient_phone t =
      let (r, t') = send_one email context recipient_email t in
      elim r [
        | err e ↦ (err e, t')
        | ok sent ↦
            let (r', t'') = send_one sms context recipient_phone t' in
            elim r' [ err e ↦ (err e, t'') | ok more ↦ (ok (sent ++ more), t'') ]
      ]

unfoldable pub send_notification :
    Tenant → NotificationEventType → Context → String → String → Action (List Notification)
send_notification tenant ev context recipient_email recipient_phone s =
    let (r, t) =
      send_both s.format_map s.templates tenant ev context recipient_email recipient_phone
        s.notifications in
    (r, record s { notifications = t })
