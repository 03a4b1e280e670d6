-- ===== src/Tenant/Access.antt =====
-- Access control: what a check answers after grants and revocations.
use open_vault.Common.{
  ◌≡◌, refl, ap, ◌∙◌, String, Bool, false, ◌&&◌, Option, none, some, List, [], ◌∷◌, arith,
  if◌then◌else◌, ◌==◌, string_eq,
}
use open_vault.Common.Map
use open_vault.Common.Map.{get-insert, get-remove}
use open_vault.Tenant.{
  Permission, UserAccess, AccessControl, has_permission, can_access_path, grant, revoke, check,
}

abbrev pub empty_control : AccessControl
empty_control = record { entries = [] }

-- A history of grants and revocations.
pub data Action : Type 0 where
  granted : UserAccess → Action
  revoked : String → Action

abbrev pub act : Action → AccessControl → AccessControl
act (granted access) ac = grant access ac
act (revoked user) ac = (revoke user ac).1

abbrev pub run : List Action → AccessControl → AccessControl
run [] ac = ac
run (a ∷ as_) ac = run as_ (act a ac)

-- The last word of a history on a user: the access that holds, if there is one.
abbrev pub last_word : List Action → String → Option UserAccess → Option UserAccess
last_word [] user now = now
last_word (granted access ∷ rest) user now =
    last_word rest user (if access.user_id == user then some access else now)
last_word (revoked name ∷ rest) user now = last_word rest user (if name == user then none else now)

-- What an access allows.
abbrev pub allows : Option UserAccess → Permission → String → String → Bool
allows none perm path tenant = false
allows (some access) perm path tenant =
    access.tenant_id == tenant && has_permission access perm && can_access_path access path

get-run :
    (actions : List Action) (ac : AccessControl) (user : String)
    → Map.get user (run actions ac).entries ≡ last_word actions user (Map.get user ac.entries)
unfolding grant revoke
get-run [] ac user = refl
get-run (granted access ∷ rest) ac user =
    get-run rest (grant access ac) user
    ∙ ap (last_word rest user) (get-insert access.user_id user access ac.entries)
get-run (revoked name ∷ rest) ac user =
    get-run rest (revoke name ac).1 user
    ∙ ap (last_word rest user) (get-remove name user ac.entries)

check-allows :
    (ac : AccessControl) (user : String) (perm : Permission) (path tenant : String)
    → check ac user perm path tenant ≡ allows (Map.get user ac.entries) perm path tenant
unfolding check
check-allows ac user perm path tenant = ground arith

-- After any grants and revocations a check answers by the last word on the user alone: the access
-- granted last and not revoked since, if it is for this tenant, its role has the permission and its
-- path restriction admits the path; a user without one is refused. So a grant in one tenant takes
-- away the access that the user had in another.
pub check-run :
    (actions : List Action) (user : String) (perm : Permission) (path tenant : String)
    → check (run actions empty_control) user perm path tenant
      ≡ allows (last_word actions user none) perm path tenant
unfolding Map.get
check-run actions user perm path tenant =
    check-allows (run actions empty_control) user perm path tenant
    ∙ ap (λ o. allows o perm path tenant) (get-run actions empty_control user)
