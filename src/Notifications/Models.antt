-- ===== src/Notifications/Models.antt =====
-- apps/notifications/models.py
use kusanya.Base.{ℕ, String, Bool, List, Option}
use kusanya.Core.Objects.{Value}
use kusanya.Tenants.Models.{Tenant}

pub data NotificationChannel : Type 0 where
  email sms whatsapp push : NotificationChannel

abbrev pub channel_tag : NotificationChannel → ℕ
channel_tag email = 0
channel_tag sms = 1
channel_tag whatsapp = 2
channel_tag push = 3

pub data NotificationEventType : Type 0 where
  bill_created control_number_generated payment_pending payment_successful : NotificationEventType
  payment_failed payment_partial bill_fully_paid balance_reminder : NotificationEventType
  payment_reversed payment_refunded : NotificationEventType

abbrev pub event_tag : NotificationEventType → ℕ
event_tag bill_created = 0
event_tag control_number_generated = 1
event_tag payment_pending = 2
event_tag payment_successful = 3
event_tag payment_failed = 4
event_tag payment_partial = 5
event_tag bill_fully_paid = 6
event_tag balance_reminder = 7
event_tag payment_reversed = 8
event_tag payment_refunded = 9

pub data NotificationStatus : Type 0 where
  pending sent failed : NotificationStatus

pub record NotificationTemplate : Type 0 where
  pub id : ℕ
  pub tenant : Tenant
  pub event_type : NotificationEventType
  pub channel : NotificationChannel
  pub subject : String
  pub body : String
  pub is_active : Bool

abbrev pub Context : Type 0
Context = List (String × Value)

pub record Notification : Type 0 where
  pub id : ℕ
  pub tenant : Tenant
  pub event_type : NotificationEventType
  pub channel : NotificationChannel
  pub recipient : String
  pub subject : String
  pub body : String
  pub status : NotificationStatus
  pub sent_at : Option ℕ
  pub error_message : String
