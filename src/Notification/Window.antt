-- ===== src/Notification/Window.antt =====
-- Deduplication within the window of the rules.
use open_vault.Common.{
  ℕ, ◌+◌, ◌<◌, ◌≤◌, ◌≡◌, refl, ap, String, Bool, true, false, not, some, List, [], ◌∷◌, arith,
  length, All, if◌then◌else◌, string_eq,
}
use open_vault.Common.Map
use open_vault.Common.Map.{Map}
use open_vault.Vault.{Time, ok}
use open_vault.Notification.{
  NotificationRule, NotificationSvc, Channel, Sending, Round, Progress, minutes, within, dedup_key,
  send_rule, send_rules, send, rule_matches, add_channels,
}

if-same : {A : Type 0} → (b : Bool) (x : A) → (if b then x else x) ≡ x
if-same true x = refl
if-same false x = refl

within-true :
    (rule : NotificationRule) (last now from until : Time)
    → from ≤ until
    → until < from + minutes rule.dedup_minutes
    → from ≤ last
    → now ≤ until
    → within rule (some last) now ≡ true
within-true rule last now from until ordered long recent soon = ground arith

-- The channels of the first rule that matches, each once.
abbrev pub first_channels : Sending → List NotificationRule → List Channel
first_channels s [] = []
first_channels s (r ∷ rs) =
    if rule_matches r s.ntype s.severity then add_channels [] r.channels else first_channels s rs

-- One if a rule matches.
abbrev pub first_count : Sending → List NotificationRule → ℕ
first_count s [] = 0
first_count s (r ∷ rs) = if rule_matches r s.ntype s.severity then 1 else first_count s rs

module _ (debug : String → String) (s : Sending) (rounds : ℕ → Round) (from until : Time)
    (ordered : from ≤ until) (early : (i : ℕ) → from ≤ (rounds i).readings.recorded)
    (late : (i : ℕ) → (rounds i).readings.checked ≤ until) where
  -- The windows of the rules are longer than the time that the call takes.
  abbrev Long : List NotificationRule → Type 0
  Long = All (λ (r : NotificationRule). until < from + minutes r.dedup_minutes)

  send_rule-within :
      (rule : NotificationRule) (i : ℕ) (last : Time) (p : Progress)
      → until < from + minutes rule.dedup_minutes
      → from ≤ last
      → Map.get (dedup_key debug s) p.dedup ≡ some last
      → send_rule debug s rule (rounds i) p ≡ p
  unfolding send_rule
  send_rule-within rule i last p long recent found = rw found (
      rw (within-true rule last (rounds i).readings.checked from until ordered long recent (late i))
        (if-same (not (rule_matches rule s.ntype s.severity)) p))

  -- After a sending of the same key in this time nothing is sent.
  send_rules-within :
      (rules : List NotificationRule) (i : ℕ) (last : Time) (p : Progress)
      → Long rules
      → from ≤ last
      → Map.get (dedup_key debug s) p.dedup ≡ some last
      → send_rules debug s rules rounds i p ≡ p
  unfolding send_rules
  send_rules-within [] i last p long recent found = refl
  send_rules-within (r ∷ rs) i last p long recent found =
      rw (send_rule-within r i last p long.0 recent found)
        (send_rules-within rs (i + 1) last p long.1 recent found)

  -- A notification of which the same title, type and tenant was sent last at `last`, and not before
  -- `from`, is not sent again: no channel is returned, and the service is left as it was.
  pub send-within :
      (svc : NotificationSvc) (last : Time)
      → Long svc.rules
      → from ≤ last
      → Map.get (dedup_key debug s) svc.dedup ≡ some last
      → send debug s rounds svc ≡ (ok [], svc)
  unfolding send
  send-within svc last long recent found =
      let p : Progress = record { history = svc.history; dedup = svc.dedup; sent_channels = [] } in
      ap
        (λ (q : Progress).
          (ok q.sent_channels, record svc { history = q.history; dedup = q.dedup }))
        (send_rules-within svc.rules 0 last p long recent found)

  abbrev Sends : List NotificationRule → Progress → Progress → Type 0
  Sends rules p q =
      (q.sent_channels ≡ first_channels s rules)
      × (length q.history ≡ length p.history + first_count s rules)
