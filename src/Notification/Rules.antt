-- ===== src/Notification/Rules.antt =====
-- The rules of the service, seen as a map from their ids.
use open_vault.Common.{
  ◌≤◌, ◌≡◌, refl, String, true, false, not, Option, none, some, List, [], ◌∷◌, ◌++◌, arith, length,
  ltb, if◌then◌else◌, eq_iff, ◌==◌, string_eq, filter, any,
}
use open_vault.Common.Map.{is_some}
use open_vault.Notification.{NotificationRule, NotificationSvc, replace_rule, set_rule, remove_rule}

-- The first rule of an id.
abbrev pub rule_of : String → List NotificationRule → Option NotificationRule
rule_of id [] = none
rule_of id (r ∷ rs) = if r.rule_id == id then some r else rule_of id rs

any-rule_of :
    (id : String) (rules : List NotificationRule)
    → any (λ (r : NotificationRule). r.rule_id == id) rules ≡ is_some (rule_of id rules)
any-rule_of id [] = refl
any-rule_of id (r ∷ rs) = ground (arith, any-rule_of id rs)

rule_of-replace :
    (rule : NotificationRule) (id : String) (rules : List NotificationRule)
    → is_some (rule_of rule.rule_id rules) ≡ true
    → rule_of id (replace_rule rule rules)
      ≡ (if rule.rule_id == id then some rule else rule_of id rules)
unfolding replace_rule
rule_of-replace rule id [] known = ground arith
rule_of-replace rule id (r ∷ rs) known = ground (
  arith,
  eq_iff r.rule_id rule.rule_id,
  eq_iff r.rule_id id,
  eq_iff rule.rule_id id,
  rule_of-replace rule id rs,
)

rule_of-append :
    (rule : NotificationRule) (id : String) (rules : List NotificationRule)
    → is_some (rule_of rule.rule_id rules) ≡ false
    → rule_of id (rules ++ rule ∷ []) ≡ (if rule.rule_id == id then some rule else rule_of id rules)
rule_of-append rule id [] new = refl
rule_of-append rule id (r ∷ rs) new = ground (
  arith,
  eq_iff r.rule_id rule.rule_id,
  eq_iff r.rule_id id,
  eq_iff rule.rule_id id,
  rule_of-append rule id rs,
)

rule_of-filter :
    (gone id : String) (rules : List NotificationRule)
    → rule_of id (filter (λ (r : NotificationRule). not (r.rule_id == gone)) rules)
      ≡ (if gone == id then none else rule_of id rules)
rule_of-filter gone id [] = ground arith
rule_of-filter gone id (r ∷ rs) =
    ground
      (arith, eq_iff r.rule_id gone, eq_iff r.rule_id id, eq_iff gone id, rule_of-filter gone id rs)

kept-length :
    (gone : String) (rules : List NotificationRule)
    → let kept = filter (λ (r : NotificationRule). not (r.rule_id == gone)) rules in
      (length kept ≤ length rules)
      × (ltb (length kept) (length rules) ≡ is_some (rule_of gone rules))
kept-length gone [] = ground arith
kept-length gone (r ∷ rs) = ground (arith, kept-length gone rs)

set_rule-rule_of :
    (rule : NotificationRule) (svc : NotificationSvc) (id : String)
    → rule_of id (set_rule rule svc).rules
      ≡ (if rule.rule_id == id then some rule else rule_of id svc.rules)
unfolding set_rule
set_rule-rule_of rule svc id = ground (
  arith,
  any-rule_of rule.rule_id svc.rules,
  rule_of-replace rule id svc.rules,
  rule_of-append rule id svc.rules,
)

-- The rules are a map from ids: after `set_rule` the id of the rule has the rule and every other id
-- what it had; after `remove_rule` the id has none, every other id has what it had, and the answer
-- says whether the id had a rule.
pub rules-rule_of :
    (svc : NotificationSvc) (rule : NotificationRule) (gone id : String)
    → (rule_of id (set_rule rule svc).rules
        ≡ (if rule.rule_id == id then some rule else rule_of id svc.rules))
      × (rule_of id (remove_rule gone svc).1.rules
          ≡ (if gone == id then none else rule_of id svc.rules))
      × ((remove_rule gone svc).0 ≡ is_some (rule_of gone svc.rules))
unfolding remove_rule
rules-rule_of svc rule gone id =
    (set_rule-rule_of rule svc id, rule_of-filter gone id svc.rules, (kept-length gone svc.rules).1)
