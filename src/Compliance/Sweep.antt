-- ===== src/Compliance/Sweep.antt =====
-- Which records a sweep lets go.
use mathlib.Core.List.{append_assoc, append-nil}
use open_vault.Common.{
  ℕ, ◌+◌, ◌*◌, ◌≤◌, leb, none, some, All, ◌<◌, ◌^◌, ◌≡◌, refl, sym, ap, ◌∙◌, String, Bool, true,
  false, not, ◌&&◌, ◌||◌, Option, List, [], ◌∷◌, ◌++◌, if◌then◌else◌, any, all, filter, length, map,
  is_empty, arith, inl, inr, Bool-cases, length-append, map-append, subst,
}
use open_vault.Vault.{Time, Message}
use open_vault.Compliance.{
  ComplianceRule, RetentionPolicy, keep_all, keep_years, keep_until, custom, day,
}
use open_vault.Compliance.Retention.{
  RetentionRecord, RetentionSweepResult, result_of, after_test, Sweep, applies, releases,
  all_release, is_expired, describe, sweep_record, sweep_records, sweep,
}

-- Whether a rule lets a record of this age go: KeepAll and Custom never.
abbrev pub lets_go : (String → Option ℕ) → Time → Time → RetentionPolicy → Bool
lets_go parse_date now created keep_all = false
lets_go parse_date now created (keep_years years) = leb (created + years * 365 * day) now
lets_go parse_date now created (keep_until date) = elim (parse_date date) [
  | none ↦ true
  | some until ↦ leb (until * day + 86399000000000) now
]
lets_go parse_date now created (custom expression) = false

-- The years of the rule end before the last instant that chrono represents.
abbrev pub YearsFit : Time → Time → RetentionPolicy → Type 0
YearsFit last created (keep_years years) = created + years * 365 * day ≤ last
YearsFit last created keep_all = Unit
YearsFit last created (keep_until date) = Unit
YearsFit last created (custom expression) = Unit

module _ (parse_date : String → Option ℕ) (print_date : Time → String) (last : Time)
    (rules : List ComplianceRule) (now : Time) where
  -- Some rule applies to the record, and every one that does lets it go.
  abbrev pub lapsed : RetentionRecord → Bool
  lapsed r =
      any (applies parse_date print_date last r) rules
      && all
          (λ (rule : ComplianceRule).
            not (applies parse_date print_date last r rule)
            || lets_go parse_date now r.created_at rule.retention)
          rules

  abbrev pub RecordFits : RetentionRecord → Type 0
  RecordFits r = All (λ (rule : ComplianceRule). YearsFit last r.created_at rule.retention) rules

  releases-lets_go :
      (created : Time) (policy : RetentionPolicy)
      → YearsFit last created policy
      → releases parse_date print_date last now created policy
        ≡ some (lets_go parse_date now created policy)
  releases-lets_go created keep_all fit = refl
  releases-lets_go created (keep_years years) fit = ground arith
  releases-lets_go created (keep_until date) fit = ground arith
  releases-lets_go created (custom expression) fit = refl

  is_empty-any :
      (p : ComplianceRule → Bool) (rs : List ComplianceRule)
      → not (is_empty (filter p rs)) ≡ any p rs
  is_empty-any p [] = refl
  is_empty-any p (r ∷ rs) = ground (arith, is_empty-any p rs)

  all_release-all :
      (r : RetentionRecord) (p : ComplianceRule → Bool) (rs : List ComplianceRule)
      → All (λ (rule : ComplianceRule). YearsFit last r.created_at rule.retention) rs
      → all_release parse_date print_date last now r (filter p rs)
        ≡ some (
            all
              (λ (rule : ComplianceRule).
                not (p rule) || lets_go parse_date now r.created_at rule.retention)
              rs)
  unfolding all_release
  all_release-all r p [] fit = refl
  all_release-all r p (rule ∷ rs) fit =
      ground
        (arith, releases-lets_go r.created_at rule.retention fit.0, all_release-all r p rs fit.1)

  is_expired-lapsed :
      (r : RetentionRecord)
      → RecordFits r
      → is_expired parse_date print_date last rules now r ≡ some (lapsed r)
  unfolding is_expired
  is_expired-lapsed r fit = ground (
    arith,
    is_empty-any (applies parse_date print_date last r) rules,
    all_release-all r (applies parse_date print_date last r) rules fit,
  )

  abbrev pub total_size : List RetentionRecord → ℕ
  total_size [] = 0
  total_size (r ∷ rs) = r.size_bytes + total_size rs

  total_size-one :
      (gone : Bool) (r : RetentionRecord)
      → total_size (if gone then r ∷ [] else []) ≡ (if gone then r.size_bytes else 0)
  total_size-one true r = omega arith
  total_size-one false r = refl

  total_size-filter :
      (r : RetentionRecord) (rs : List RetentionRecord)
      → total_size (filter lapsed (r ∷ rs))
        ≡ (if lapsed r then r.size_bytes else 0) + total_size (filter lapsed rs)
  total_size-filter r rs = elim (Bool-cases (lapsed r)) [
    | inl gone ↦ rw gone refl
    | inr kept ↦ rw kept (omega arith)
  ]

  -- What a sweep has found behind some records.
  abbrev Swept :
      List RetentionRecord
      → ℕ
      → Sweep parse_date print_date last
      → Sweep parse_date print_date last
      → Type 0
  Swept gone n s s' =
      (length s'.ids ≡ length s.ids + length gone)
      × (length s'.ids + s'.kept ≡ length s.ids + s.kept + n)
      × (s'.freed ≡ s.freed + total_size gone)
      × (s'.details ≡ s.details ++ map (describe parse_date print_date last) gone)

  after_test-Swept :
      (r : RetentionRecord) (s : Sweep parse_date print_date last) (gone : Bool)
      → s.kept + 1 < 2 ^ 32
      → s.freed + (if gone then r.size_bytes else 0) < 2 ^ 64
      → (s' : Sweep parse_date print_date last) × (after_test parse_date print_date last r s
            (some gone)
          ≡ some s')
        × Swept (if gone then r ∷ [] else []) 1 s s'
  after_test-Swept r s true few small = (
    _,
    refl,
    (
      length-append s.ids (r.id ∷ []),
      omega (arith, length-append s.ids (r.id ∷ [])),
      omega (arith, small),
      refl,
    ),
  )
  after_test-Swept r s false few small =
      (_, refl, (omega arith, omega arith, omega arith, sym (append-nil s.details)))

  sweep_record-Swept :
      (r : RetentionRecord) (s : Sweep parse_date print_date last)
      → RecordFits r
      → s.kept + 1 < 2 ^ 32
      → s.freed + (if lapsed r then r.size_bytes else 0) < 2 ^ 64
      → (s' : Sweep parse_date print_date last) × (sweep_record parse_date print_date last rules now
            r s
          ≡ some s')
        × Swept (if lapsed r then r ∷ [] else []) 1 s s'
  unfolding sweep_record
  sweep_record-Swept r s fit few small =
      let (s', e, swept) = after_test-Swept r s (lapsed r) few small in
      (s', ap (after_test parse_date print_date last r s) (is_expired-lapsed r fit) ∙ e, swept)

  total_size_add :
      (g g' : List RetentionRecord) → total_size (g ++ g') ≡ total_size g + total_size g'
  total_size_add [] g' = omega arith
  total_size_add (r ∷ g) g' = omega (arith, total_size_add g g')

  Swept-append :
      (g g' : List RetentionRecord) (n m : ℕ) (s t u : Sweep parse_date print_date last)
      → Swept g n s t
      → Swept g' m t u
      → Swept (g ++ g') (n + m) s u
  Swept-append g g' n m s t u (a, b, c, d) (a', b', c', d') = (
    omega (arith, a, a', length-append g g'),
    omega (arith, a, a', b, b'),
    omega (arith, c, c', total_size_add g g'),
    d'
        ∙ ap (λ (l : List Message). l ++ map (describe parse_date print_date last) g') d
        ∙ append_assoc s.details (map (describe parse_date print_date last) g)
            (map (describe parse_date print_date last) g')
        ∙ ap (λ (l : List Message). s.details ++ l)
            (sym (map-append (describe parse_date print_date last) g g')),
  )

  if-append :
      (b : Bool) (r : RetentionRecord) (rs : List RetentionRecord)
      → (if b then r ∷ [] else []) ++ rs ≡ (if b then r ∷ rs else rs)
  if-append true r rs = refl
  if-append false r rs = refl

  sweep_records-cons :
      (r : RetentionRecord) (rs : List RetentionRecord) (s s' : Sweep parse_date print_date last)
      → sweep_record parse_date print_date last rules now r s ≡ some s'
      → sweep_records parse_date print_date last rules now (r ∷ rs) s
        ≡ sweep_records parse_date print_date last rules now rs s'
  unfolding sweep_records
  sweep_records-cons r rs s s' e = ground arith

  abbrev nothing : Sweep parse_date print_date last
  nothing = record { ids = []; kept = 0; freed = 0; details = [] }

  sweep-some :
      (records : List RetentionRecord) (s : Sweep parse_date print_date last)
      → sweep_records parse_date print_date last rules now records nothing ≡ some s
      → sweep parse_date print_date last rules now records
        ≡ some (result_of parse_date print_date last records s)
  unfolding sweep
  sweep-some records s e = ground arith

  sweep_records-Swept :
      (rs : List RetentionRecord) (s : Sweep parse_date print_date last)
      → All RecordFits rs
      → s.kept + length rs < 2 ^ 32
      → s.freed + total_size (filter lapsed rs) < 2 ^ 64
      → (s' : Sweep parse_date print_date last) × (sweep_records parse_date print_date last rules
            now rs s
          ≡ some s')
        × Swept (filter lapsed rs) (length rs) s s'
  unfolding sweep_records
  sweep_records-Swept [] s fit few small =
      (s, refl, (omega arith, omega arith, omega arith, sym (append-nil s.details)))
  sweep_records-Swept (r ∷ rs) s fit few small =
      let (s', one, here) =
        sweep_record-Swept r s fit.0 (omega arith) (omega (arith, total_size-filter r rs)) in
      let (s'', more, later) =
        sweep_records-Swept rs s' fit.1 (omega (arith, here.0, here.1))
          (omega (arith, here.2, total_size-filter r rs, total_size-one (lapsed r) r)) in
      (
        s'',
        sweep_records-cons r rs s s' one ∙ more,
        subst (λ (n : ℕ). Swept (filter lapsed (r ∷ rs)) n s s'') (omega arith)
            (subst (λ (g : List RetentionRecord). Swept g (1 + length rs) s s'')
              (if-append (lapsed r) r (filter lapsed rs))
              (Swept-append (if lapsed r then r ∷ [] else []) (filter lapsed rs) 1 (length rs) s s'
                s'' here later)),
      )

  -- A sweep over fewer than 2^32 records, for which the years of every rule end before the last
  -- instant that chrono represents, and where the records that are let go have together fewer than
  -- 2^64 bytes, does not panic. It lets go exactly the records to which some enabled rule with a
  -- matching pattern applies and which every such rule lets go, KeepAll and Custom rules never and
  -- a rule with a date that cannot be read always: it counts and describes them in order, adds up
  -- their sizes, and counts every other record as retained.
  pub sweep-lapsed :
      (records : List RetentionRecord)
      → All RecordFits records
      → length records < 2 ^ 32
      → total_size (filter lapsed records) < 2 ^ 64
      → let gone = filter lapsed records in
        (result : RetentionSweepResult) × (sweep parse_date print_date last rules now records
          ≡ some result)
        × (result.scanned ≡ length records)
        × (result.expired ≡ length gone)
        × (result.expired + result.retained ≡ result.scanned)
        × (result.freed_bytes ≡ total_size gone)
        × (result.details ≡ map (describe parse_date print_date last) gone)
  sweep-lapsed records fit few small =
      let (s, done, (a, b, c, d)) =
        sweep_records-Swept records nothing fit (omega (arith, few)) (omega (arith, small)) in
      (
        result_of parse_date print_date last records s,
        sweep-some records s done,
        omega arith,
        omega (arith, a, b),
        omega (arith, a, b),
        omega (arith, c),
        d,
      )
