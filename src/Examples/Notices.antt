-- ===== src/Examples/Notices.antt =====
-- Notifications at concrete inputs: two rules, and the same message twice.
use open_vault.Common.{true, ℕ, String, none, some, [], ◌∷◌}
use open_vault.Common.Map
use open_vault.Common.Map.{is_some}
use open_vault.Notification.{
  NotificationRule, NotificationSvc, Sending, Round, in_app, email, webhook, critical, warning,
  backup_failed,
}

abbrev by_mail : NotificationRule
by_mail = record {
  rule_id = "mail";
  name = "Failures";
  notification_types = backup_failed ∷ [];
  min_severity = warning;
  channels = email ∷ webhook ∷ [];
  dedup_minutes = 1;
  enabled = true;
  webhook_url = none;
}

abbrev in_history : NotificationRule
in_history = record by_mail { rule_id = "log"; channels = in_app ∷ []; dedup_minutes = 5 }

abbrev service : NotificationSvc
service = record { rules = by_mail ∷ in_history ∷ []; history = []; dedup = [] }

abbrev failure : Sending
failure = record {
  ntype = backup_failed;
  severity = critical;
  title = "Backup";
  message = "disk full";
  tenant_id = some "t1";
  metadata = [];
}

abbrev same : String → String
same s = s

abbrev rounds : ℕ → Round
rounds i = record { readings = record { checked = 20; stamped = 20; recorded = 20 }; uuid = "n" }

abbrev sent_before : NotificationSvc
sent_before = record service { dedup = ("Backup:BackupFailed:t1", 15) ∷ [] }
