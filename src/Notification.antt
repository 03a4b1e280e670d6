-- ===== src/Notification.antt =====
-- crates/openvault-core/src/notification.rs: rules, sending with deduplication, and the history.
-- The clock, fresh UUIDs and the spelling of `{:?}` on a text are parameters.
pub mod Window
pub mod Rules
use open_vault.Common.{
  ℕ, ◌+◌, ◌*◌, String, Bool, true, false, not, ◌&&◌, ◌||◌, Option, none, some, List, [], ◌∷◌, ◌++◌,
  if◌then◌else◌, ltb, ◌==◌, string_eq, PartialEq, derived_eq, String-discrete, contains, is_empty,
  filter, length, concat, any,
}
use open_vault.Common.Map
use open_vault.Common.Map.{Map}
use open_vault.Vault.{Time, VaultResult, ok}

pub data NotificationType : Type 0 where
  backup_completed backup_failed restore_completed restore_failed self_heal_triggered
        self_heal_completed risk_warning compliance_violation quota_warning :
      NotificationType
  custom : String → NotificationType

unfoldable pub type_name : NotificationType → String
type_name backup_completed = "BackupCompleted"
type_name backup_failed = "BackupFailed"
type_name restore_completed = "RestoreCompleted"
type_name restore_failed = "RestoreFailed"
type_name self_heal_triggered = "SelfHealTriggered"
type_name self_heal_completed = "SelfHealCompleted"
type_name risk_warning = "RiskWarning"
type_name compliance_violation = "ComplianceViolation"
type_name quota_warning = "QuotaWarning"
type_name (custom s) = concat "custom:" s

abbrev pub NotificationType-discrete : Discrete NotificationType
NotificationType-discrete = hlevel String-discrete

instance abbrev pub type_eq : PartialEq NotificationType
type_eq = derived_eq NotificationType-discrete

pub data Severity : Type 0 where
  info warning error critical : Severity

-- The derived order.
unfoldable pub rank : Severity → ℕ
rank info = 0
rank warning = 1
rank error = 2
rank critical = 3

pub data Channel : Type 0 where
  webhook email in_app : Channel

abbrev pub Channel-discrete : Discrete Channel
Channel-discrete = hlevel

instance abbrev pub channel_eq : PartialEq Channel
channel_eq = derived_eq Channel-discrete

pub record Notification : Type 0 where
  pub id : String
  pub notification_type : NotificationType
  pub severity : Severity
  pub title : String
  pub message : String
  pub timestamp : Time
  pub tenant_id : Option String
  pub metadata : Map String
  pub read : Bool

pub record NotificationRule : Type 0 where
  pub rule_id : String
  pub name : String
  pub notification_types : List NotificationType
  pub min_severity : Severity
  pub channels : List Channel
  pub dedup_minutes : ℕ
  pub enabled : Bool
  pub webhook_url : Option String

pub default : NotificationRule
default = record {
  rule_id = "default";
  name = "Default Rule";
  notification_types = [];
  min_severity = info;
  channels = in_app ∷ [];
  dedup_minutes = 5;
  enabled = true;
  webhook_url = none;
}

unfoldable pub rule_matches : NotificationRule → NotificationType → Severity → Bool
unfolding rank
rule_matches rule ntype severity =
    if not rule.enabled
    then false
    else if ltb (rank severity) (rank rule.min_severity)
    then false
    else if is_empty rule.notification_types
    then true
    else contains ntype rule.notification_types

pub record NotificationSvc : Type 0 where
  pub rules : List NotificationRule
  pub history : List Notification
  pub dedup : Map Time

pub new : NotificationSvc
unfolding default
new = record { rules = default ∷ []; history = []; dedup = [] }

-- The first rule of the id is replaced.
pub replace_rule : NotificationRule → List NotificationRule → List NotificationRule
replace_rule rule [] = []
replace_rule rule (r ∷ rs) =
    if r.rule_id == rule.rule_id then rule ∷ rs else r ∷ replace_rule rule rs

pub set_rule : NotificationRule → NotificationSvc → NotificationSvc
unfolding replace_rule
set_rule rule svc =
    if any (λ (r : NotificationRule). r.rule_id == rule.rule_id) svc.rules
    then record svc { rules = replace_rule rule svc.rules }
    else record svc { rules = svc.rules ++ rule ∷ [] }

pub remove_rule : String → NotificationSvc → Bool × NotificationSvc
remove_rule id svc =
    let kept = filter (λ (r : NotificationRule). not (r.rule_id == id)) svc.rules in
    (ltb (length kept) (length svc.rules), record svc { rules = kept })

-- The three readings of the clock in one round of the loop of `send`.
pub record Readings : Type 0 where
  pub checked : Time
  pub stamped : Time
  pub recorded : Time

-- `Duration::minutes`, in nanoseconds.
abbrev pub minutes : ℕ → ℕ
minutes n = n * 60000000000

-- What is sent, and what the environment gives to each round.
pub record Sending : Type 0 where
  pub ntype : NotificationType
  pub severity : Severity
  pub title : String
  pub message : String
  pub tenant_id : Option String
  pub metadata : Map String

pub record Round : Type 0 where
  pub readings : Readings
  pub uuid : String

abbrev or_global : Option String → String
or_global none = "global"
or_global (some t) = t

unfoldable pub dedup_key : (String → String) → Sending → String
unfolding type_name
dedup_key debug s =
    concat s.title
      (concat ":" (concat (type_name s.ntype) (concat ":" (debug (or_global s.tenant_id)))))

-- Whether the time since the last sending is below the window of the rule.
abbrev pub within : NotificationRule → Option Time → Time → Bool
within rule none now = false
within rule (some last) now =
    ltb 0 rule.dedup_minutes && ltb now (last + minutes rule.dedup_minutes)

-- The channels that are not in the list yet are put behind it.
unfoldable pub add_channels : List Channel → List Channel → List Channel
add_channels sent [] = sent
add_channels sent (ch ∷ chs) = add_channels (if contains ch sent then sent else sent ++ ch ∷ []) chs

-- The variables of the loop.
pub record Progress : Type 0 where
  pub history : List Notification
  pub dedup : Map Time
  pub sent_channels : List Channel

module _ (debug : String → String) (s : Sending) where
  pub send_rule : NotificationRule → Round → Progress → Progress
  unfolding rule_matches add_channels
  send_rule rule round p =
      if not (rule_matches rule s.ntype s.severity)
      then p
      else if within rule (Map.get (dedup_key debug s) p.dedup) round.readings.checked
      then p
      else record {
        history =
            p.history
            ++ record {
              id = round.uuid;
              notification_type = s.ntype;
              severity = s.severity;
              title = s.title;
              message = s.message;
              timestamp = round.readings.stamped;
              tenant_id = s.tenant_id;
              metadata = s.metadata;
              read = false;
            }
              ∷ [];
        dedup = Map.insert (dedup_key debug s) round.readings.recorded p.dedup;
        sent_channels = add_channels p.sent_channels rule.channels;
      }

  -- The loop over the rules; `rounds` gives what the environment gives to each.
  pub send_rules : List NotificationRule → (ℕ → Round) → ℕ → Progress → Progress
  unfolding send_rule
  send_rules [] rounds i p = p
  send_rules (rule ∷ rules) rounds i p =
      send_rules rules rounds (i + 1) (send_rule rule (rounds i) p)

  pub send : (ℕ → Round) → NotificationSvc → VaultResult (List Channel) × NotificationSvc
  unfolding send_rules
  send rounds svc =
      let p =
        send_rules svc.rules rounds 0
          (record { history = svc.history; dedup = svc.dedup; sent_channels = [] }) in
      (ok p.sent_channels, record svc { history = p.history; dedup = p.dedup })

pub unread : NotificationSvc → List Notification
unread svc = filter (λ (n : Notification). not n.read) svc.history

mark_first : String → List Notification → List Notification
mark_first id [] = []
mark_first id (n ∷ ns) = if n.id == id then record n { read = true } ∷ ns else n ∷ mark_first id ns

pub mark_read : String → NotificationSvc → Bool × NotificationSvc
unfolding mark_first
mark_read id svc = (
  any (λ (n : Notification). n.id == id) svc.history,
  record svc { history = mark_first id svc.history },
)

mark_all : List Notification → List Notification
mark_all [] = []
mark_all (n ∷ ns) = record n { read = true } ∷ mark_all ns

pub mark_all_read : NotificationSvc → NotificationSvc
unfolding mark_all
mark_all_read svc = record svc { history = mark_all svc.history }

pub clear_history : NotificationSvc → NotificationSvc
clear_history svc = record svc { history = []; dedup = [] }

pub count_by_type : NotificationType → NotificationSvc → ℕ
count_by_type ntype svc =
    length (filter (λ (n : Notification). n.notification_type == ntype) svc.history)
