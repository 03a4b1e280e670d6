-- ===== src/Policy/Surveyed.antt =====
-- What `check_health` reports, against the storages that it has looked at.
use open_vault.Common.{
  ◌+◌, ◌<◌, ◌≤◌, ◌^◌, ◌≡◌, ◌≢◌, refl, sym, ap, ◌∙◌, inl, inr, map, true, if◌then◌else◌, Bool-cases,
  String, Bool, false, ◌&&◌, ◌||◌, List, [], ◌∷◌, ◌++◌, arith, length, length-append, filter,
  length-filter-le, any, contains, contains-append, string_eq, ◌==◌, eq_iff,
}
use open_vault.Vault.{ok, VaultStorage}
use open_vault.Policy.{
  Policy321, PolicyHealth, Survey, media_types, health_of, holds, observe, survey, check_health,
}

abbrev pub start : Survey
start = record { backend_names = []; total_copies = 0; has_offsite = false }

-- No text occurs twice.
abbrev pub Distinct : List String → Type 0
Distinct [] = Unit
Distinct (b ∷ bs) = (contains b bs ≡ false) × Distinct bs

Distinct-append :
    (bs : List String) (b : String) → Distinct bs → contains b bs ≡ false → Distinct (bs ++ b ∷ [])
Distinct-append [] b d n = ground arith
Distinct-append (c ∷ bs) b d n =
    ground (arith, Distinct-append bs b, contains-append c bs (b ∷ []), eq_iff b c, eq_iff c b)

-- A list without the occurrences of a text before others of it: each text once.
unfoldable pub different : List String → List String
different [] = []
different (b ∷ bs) = if contains b bs then different bs else b ∷ different bs

contains-different : (c : String) (bs : List String) → contains c (different bs) ≡ contains c bs
unfolding different
contains-different c [] = refl
contains-different c (b ∷ bs) = ground (arith, contains-different c bs, eq_iff b c)

different-Distinct : (bs : List String) → Distinct (different bs)
unfolding different
different-Distinct [] = tt
different-Distinct (b ∷ bs) = elim (Bool-cases (contains b bs)) [
  | inl again ↦ rw again (different-Distinct bs)
  | inr once ↦ rw once (contains-different b bs ∙ once, different-Distinct bs)
]

without : String → List String → List String
without b [] = []
without b (c ∷ cs) = if b == c then cs else c ∷ without b cs

length-without :
    (b : String) (cs : List String) → contains b cs ≡ true → length cs ≡ length (without b cs) + 1
unfolding without
length-without b [] h = absurd (ground arith)
length-without b (c ∷ cs) h = ground (arith, length-without b cs, eq_iff b c, eq_iff c b)

contains-without :
    (a b : String) (cs : List String)
    → a ≢ b
    → contains a cs ≡ true
    → contains a (without b cs) ≡ true
unfolding without
contains-without a b [] n h = absurd (ground arith)
contains-without a b (c ∷ cs) n h =
    ground (arith, contains-without a b cs n, eq_iff b c, eq_iff c a, eq_iff a c)

-- Texts that are different and all in a list are at most as many as it has.
Distinct-length :
    (bs cs : List String)
    → Distinct bs
    → ((b : String) → contains b bs ≡ true → contains b cs ≡ true)
    → length bs ≤ length cs
Distinct-length [] cs d h = omega arith
Distinct-length (b ∷ bs) cs d h =
    let here : contains b cs ≡ true = h b (ground (arith, eq_iff b b)) in
    let rest = Distinct-length bs (without b cs) d.1 (λ a there.
      contains-without a b cs (λ e. cc (there, d.0, ap (λ x. contains x bs) e))
        (h a (ground arith))) in
    omega (arith, rest, length-without b cs here)

pub same-length :
    (bs cs : List String)
    → Distinct bs
    → ((b : String) → contains b bs ≡ contains b (different cs))
    → length bs ≡ length (different cs)
same-length bs cs d same = omega (
  arith,
  Distinct-length bs (different cs) d (λ b h. sym (same b) ∙ h),
  Distinct-length (different cs) bs (different-Distinct cs) (λ b h. same b ∙ h),
)

module _ {S : Type 0} (ops : VaultStorage S) (policy : Policy321) (source : String) where
  -- A storage with a snapshot of the source.
  abbrev pub has_copy : S → Bool
  has_copy s = holds ops (ops.latest_snapshot s source)

  abbrev pub has_backend : String → List S → Bool
  has_backend b storages = any (λ s. has_copy s && (ops.backend_name s == b)) storages

  abbrev pub is_offsite : S → Bool
  is_offsite s = has_copy s && contains (ops.backend_name s) policy.offsite_backends

  -- The different backends of the storages that have a copy.
  abbrev pub backends : List S → List String
  backends storages = different (map ops.backend_name (filter has_copy storages))

  contains-backends :
      (b : String) (storages : List S)
      → contains b (map ops.backend_name (filter has_copy storages)) ≡ has_backend b storages
  contains-backends b [] = refl
  contains-backends b (s ∷ ss) =
      ground (arith, contains-backends b ss, eq_iff b (ops.backend_name s))

  pub length-backends :
      (storages : List S) (names : List String)
      → Distinct names
      → ((b : String) → contains b names ≡ has_backend b storages)
      → length names ≡ length (backends storages)
  length-backends storages names d same =
      same-length names (map ops.backend_name (filter has_copy storages)) d λ b.
        same b
        ∙ sym (contains-backends b storages)
        ∙ sym (contains-different b (map ops.backend_name (filter has_copy storages)))

  -- What the loop has found behind `sv`.
  pub record Surveyed (storages : List S) (sv sv' : Survey) : Type 0 where
    pub copies :
        sv.total_copies + length (filter has_copy storages) < 2 ^ 32
        → sv'.total_copies ≡ sv.total_copies + length (filter has_copy storages)
    pub at_most : length sv'.backend_names ≤ length sv.backend_names + length storages
    pub distinct : Distinct sv.backend_names → Distinct sv'.backend_names
    pub names :
        (b : String)
        → contains b sv'.backend_names ≡ contains b sv.backend_names || has_backend b storages
    pub offsite : sv'.has_offsite ≡ sv.has_offsite || any is_offsite storages

  observe-Surveyed : (sv : Survey) (s : S) → Surveyed (s ∷ []) sv (observe ops policy source sv s)
  unfolding observe
  observe-Surveyed sv s =
      let b = ops.backend_name s in
      record {
        copies = λ h. ground arith;
        at_most = ground (arith, length-append sv.backend_names (b ∷ []));
        distinct = λ d. ground (arith, Distinct-append sv.backend_names b);
        names = λ c. ground (arith, contains-append c sv.backend_names (b ∷ []), eq_iff b c);
        offsite = ground arith;
      }

  pub survey-Surveyed :
      (storages : List S) (sv : Survey)
      → Surveyed storages sv (survey ops policy source sv storages)
  unfolding survey
  survey-Surveyed [] sv = record {
    copies = λ h. omega arith;
    at_most = omega arith;
    distinct = λ d. d;
    names = λ b. ground arith;
    offsite = ground arith;
  }
  survey-Surveyed (s ∷ ss) sv =
      let one = observe-Surveyed sv s in
      let rest = survey-Surveyed ss (observe ops policy source sv s) in
      record {
        copies = λ h. ground (arith, one.copies, rest.copies);
        at_most = omega (arith, one.at_most, rest.at_most);
        distinct = λ d. rest.distinct (one.distinct d);
        names = λ b. ground (arith, one.names b, rest.names b);
        offsite = ground (arith, one.offsite, rest.offsite);
      }

  pub few_copies : (storages : List S) → length (filter has_copy storages) ≤ length storages
  few_copies storages = length-filter-le has_copy storages

  -- The report on fewer than 2^32 storages, which is always given: the copies are the storages that
  -- have a snapshot of the source (those that fail are passed over), the backend names are theirs,
  -- each once, and as many as the media types, and there is an offsite copy where one of these is
  -- an offsite backend.
  pub check_health-Surveyed :
      (storages : List S)
      → length storages < 2 ^ 32
      → (h : PolicyHealth) × (check_health ops policy source storages ≡ ok h)
        × (h.copies ≡ length (filter has_copy storages))
        × (h.media_types ≡ length h.backend_names)
        × Distinct h.backend_names
        × ((b : String) → contains b h.backend_names ≡ has_backend b storages)
        × (h.has_offsite ≡ any is_offsite storages)
  unfolding check_health health_of media_types
  check_health-Surveyed storages few =
      let s = survey-Surveyed storages start in
      (
        health_of policy source (survey ops policy source start storages),
        refl,
        omega (arith, s.copies (omega (arith, few_copies storages))),
        omega (arith, s.at_most),
        s.distinct tt,
        s.names,
        s.offsite,
      )
