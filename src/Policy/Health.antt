-- ===== src/Policy/Health.antt =====
-- When a report is healthy, and what it suggests.
use open_vault.Common.{
  ◌<◌, ◌≤◌, ◌^◌, ◌≡◌, refl, sym, ap, subst, ◌∙◌, ◌↔◌, inl, inr, String, Bool, true, false, not,
  ◌||◌, Option, none, some, List, [], ◌∷◌, ◌++◌, arith, length, filter, any, All, is_empty, find,
  if◌then◌else◌, contains, string_eq, Bool-cases,
}
use open_vault.Vault.{ok, ok-injective, VaultStorage, Message}
use open_vault.Policy.{
  Policy321, PolicyHealth, RemediationAction, Survey, passed, failed, ViolationType,
  RemediationType, check_copies, check_media, check_offsite, media_types, health_of, survey,
  check_health,
}
use open_vault.Policy.Surveyed.{
  start, few_copies, survey-Surveyed, has_copy, has_backend, is_offsite, backends, length-backends,
}

health_of-healthy :
    (policy : Policy321) (source : String) (sv : Survey)
    → ((health_of policy source sv).healthy ≡ true) ↔ (
        (policy.min_copies ≤ sv.total_copies)
        × (policy.min_media_types ≤ media_types sv)
        × ((not policy.require_offsite || sv.has_offsite) ≡ true))
unfolding health_of check_copies check_media check_offsite
health_of-healthy policy source sv = ground arith

health_of-remediation :
    (policy : Policy321) (source : String) (sv : Survey)
    → length (health_of policy source sv).remediation
      ≡ length (health_of policy source sv).violations
unfolding health_of check_copies check_media check_offsite
health_of-remediation policy source sv = ground arith

-- A backend that is suggested, if there is one, is not one of the names.
Fresh : List String → Option String → Type 0
Fresh names none = Unit
Fresh names (some b) = contains b names ≡ false

find-Fresh :
    (names suggested : List String) → Fresh names (find (λ c. not (contains c names)) suggested)
unfolding Fresh
find-Fresh names [] = tt
find-Fresh names (c ∷ cs) = elim (Bool-cases (contains c names)) [
  | inl used ↦ rw used (find-Fresh names cs)
  | inr free ↦ rw free free
]

Suggests : List String → List RemediationAction → Type 0
Suggests names = All (λ (a : RemediationAction). Fresh names a.target_backend)

All-append :
    (names : List String) (xs ys : List RemediationAction)
    → Suggests names xs
    → Suggests names ys
    → Suggests names (xs ++ ys)
unfolding Suggests
All-append names [] ys p q = q
All-append names (x ∷ xs) ys (p, ps) q = (p, All-append names xs ys ps q)

Suggests-failed :
    (names : List String) (wrong : Bool) (what : ViolationType) (why : Message)
    (action : RemediationType) (how : Message) (target : Option String)
    → Fresh names target
    → Suggests names (if wrong then failed what why action how target else passed).remediation
unfolding Suggests
Suggests-failed names true what why action how target p = (p, tt)
Suggests-failed names false what why action how target p = tt

health_of-Suggests :
    (policy : Policy321) (source : String) (sv : Survey)
    → Suggests sv.backend_names (health_of policy source sv).remediation
unfolding health_of Suggests Fresh
health_of-Suggests policy source sv =
    let names = sv.backend_names in
    All-append names _ (check_offsite policy sv).remediation
      (All-append names (check_copies policy sv).remediation (check_media policy sv).remediation
        (Suggests-failed names _ _ _ _ _ none tt)
        (Suggests-failed names _ _ _ _ _ _ (find-Fresh names ("s3" ∷ "r2" ∷ "local" ∷ []))))
      (Suggests-failed names _ _ _ _ _ _ (find-Fresh names policy.offsite_backends))

module _ {S : Type 0} (ops : VaultStorage S) (policy : Policy321) (source : String) where
  abbrev pub Unused : List S → Option String → Type 0
  Unused storages none = Unit
  Unused storages (some b) = has_backend ops policy source b storages ≡ false

  Fresh-Unused :
      (storages : List S) (names : List String) (target : Option String)
      → ((b : String) → contains b names ≡ has_backend ops policy source b storages)
      → Fresh names target
      → Unused storages target
  unfolding Fresh
  Fresh-Unused storages names none same p = tt
  Fresh-Unused storages names (some b) same p = sym (same b) ∙ p

  -- No backend that an action suggests holds a copy among the storages.
  pub Suggested : List S → List RemediationAction → Type 0
  Suggested storages = All (λ (a : RemediationAction). Unused storages a.target_backend)

  Suggests-Suggested :
      (storages : List S) (names : List String) (actions : List RemediationAction)
      → ((b : String) → contains b names ≡ has_backend ops policy source b storages)
      → Suggests names actions
      → Suggested storages actions
  unfolding Suggests Suggested
  Suggests-Suggested storages names [] same p = tt
  Suggests-Suggested storages names (a ∷ more) same (p, ps) = (
    Fresh-Unused storages names a.target_backend same p,
    Suggests-Suggested storages names more same ps,
  )

  judged :
      (storages : List S) (sv : Survey)
      → sv.total_copies ≡ length (filter (has_copy ops policy source) storages)
      → length sv.backend_names < 2 ^ 32
      → length sv.backend_names ≡ length (backends ops policy source storages)
      → sv.has_offsite ≡ any (is_offsite ops policy source) storages
      → let h = health_of policy source sv in
        (h.healthy ≡ true) ↔ (
          (policy.min_copies ≤ length (filter (has_copy ops policy source) storages))
          × (policy.min_media_types ≤ length (backends ops policy source storages))
          × ((not policy.require_offsite || any (is_offsite ops policy source) storages) ≡ true))
  unfolding health_of media_types
  judged storages sv copies few media offsite =
      let (there, back) = health_of-healthy policy source sv in
      (
        (λ healthy.
            let (a, b, c) = there healthy in
            (
              omega (arith, a, copies),
              omega (arith, b, media),
              ap (λ o. not policy.require_offsite || o) (sym offsite) ∙ c,
            )),
        (λ (a, b, c). back (
          omega (arith, a, copies),
          omega (arith, b, media),
          ap (λ o. not policy.require_offsite || o) offsite ∙ c,
        )),
      )

  -- The report on fewer than 2^32 storages is healthy exactly where there are at least `min_copies`
  -- storages with a snapshot of the source and `min_media_types` different backends among them,
  -- each counted once, and an offsite backend among them where the policy requires it. There is one
  -- action for each violation, and the report is healthy exactly where there is none; no backend
  -- that an action suggests has a copy already.
  pub check_health-healthy :
      (storages : List S) (h : PolicyHealth)
      → length storages < 2 ^ 32
      → check_health ops policy source storages ≡ ok h
      → ((h.healthy ≡ true) ↔ (
          (policy.min_copies ≤ length (filter (has_copy ops policy source) storages))
          × (policy.min_media_types ≤ length (backends ops policy source storages))
          × ((not policy.require_offsite || any (is_offsite ops policy source) storages) ≡ true)))
        × (length h.remediation ≡ length h.violations)
        × (h.healthy ≡ is_empty h.violations)
        × Suggested storages h.remediation
  unfolding check_health health_of media_types
  check_health-healthy storages h few e =
      let sv = survey ops policy source start storages in
      let s = survey-Surveyed ops policy source storages start in
      subst
        (λ (h : PolicyHealth).
          ((h.healthy ≡ true) ↔ (
            (policy.min_copies ≤ length (filter (has_copy ops policy source) storages))
            × (policy.min_media_types ≤ length (backends ops policy source storages))
            × ((not policy.require_offsite || any (is_offsite ops policy source) storages) ≡ true)))
          × (length h.remediation ≡ length h.violations)
          × (h.healthy ≡ is_empty h.violations)
          × Suggested storages h.remediation)
        (ok-injective e)
        (
          judged storages sv
              (omega (arith, s.copies (omega (arith, few_copies ops policy source storages))))
              (omega (arith, s.at_most))
              (length-backends ops policy source storages sv.backend_names (s.distinct tt) s.names)
              s.offsite,
          health_of-remediation policy source sv,
          refl,
          Suggests-Suggested storages sv.backend_names _ s.names
              (health_of-Suggests policy source sv),
        )
