-- ===== src/Audit/Pages.antt =====
-- The pages of a query.
use mathlib.Core.List.{reverse}
use open_vault.Common.{
  ℕ, zero, suc, ◌+◌, ◌*◌, ◌-◌, ◌≡◌, refl, sym, ap, ◌∙◌, some, List, [], ◌++◌, arith, length, take,
  drop, filter, drop-length, length-drop, if◌then◌else◌, ltb, leb, Bool-cases, inl, inr, ltb→le,
  take_add, take-length, take-nil,
}
use open_vault.Audit.{AuditEntry, AuditLog, AuditQuery, min, matches, query}

-- The entries that a query selects, newest first.
pub selected : AuditLog → AuditQuery → List AuditEntry
selected log q = filter (matches q) (reverse log.entries)

page_slice :
    (start n : ℕ) (xs : List AuditEntry)
    → (if ltb start (length xs)
        then take (min (start + n) (length xs) - start) (drop start xs)
        else [])
      ≡ take n (drop start xs)
page_slice start n xs = elim (Bool-cases (ltb start (length xs))) [
  | inr beyond ↦
      let none_left = drop-length start xs (ltb→le _ _ beyond) in
      rw (beyond, none_left) (sym (take-nil n))
  | inl within ↦ elim (Bool-cases (leb (start + n) (length xs))) [
    | inl whole ↦ rw (within, whole) (ap (λ k. take k (drop start xs)) (omega arith))
    | inr cut ↦
        rw (within, cut)
          (take-length (length xs - start) (drop start xs) (omega (arith, length-drop start xs))
            ∙ sym (take-length n (drop start xs) (ground (arith, length-drop start xs))))
  ]
]

-- The items of one page.
abbrev pub page_items : AuditLog → AuditQuery → ℕ → ℕ → List AuditEntry
page_items log q page per_page =
    (query log (record q { page = some page; per_page = some per_page })).items

-- The items of the first `n` pages.
abbrev pub first_pages : AuditLog → AuditQuery → ℕ → ℕ → List AuditEntry
first_pages log q zero per_page = []
first_pages log q (suc n) per_page = first_pages log q n per_page ++ page_items log q n per_page

page_items-slice :
    (log : AuditLog) (q : AuditQuery) (page per_page : ℕ)
    → page_items log q page per_page ≡ take per_page (drop (page * per_page) (selected log q))
unfolding query selected matches
page_items-slice log q page per_page = page_slice (page * per_page) per_page (selected log q)

-- The first `n` pages of a query, one after another, are the first `n * per_page` entries that it
-- selects, newest first: no page repeats or leaves out an entry; and each page reports the number
-- of all selected entries.
pub first_pages_lem :
    (log : AuditLog) (q : AuditQuery) (n per_page : ℕ)
    → (first_pages log q n per_page ≡ take (n * per_page) (selected log q))
      × ((query log q).total ≡ length (selected log q))
unfolding query selected
first_pages_lem log q zero per_page =
    (ap (λ k. take k (selected log q)) {x = 0} (omega arith), refl)
first_pages_lem log q (suc n) per_page =
    let before = (first_pages_lem log q n per_page).0 in
    (
      rw (before, page_items-slice log q n per_page)
          (take_add (n * per_page) per_page (selected log q)
            ∙ ap (λ k. take k (selected log q)) {x = n * per_page + per_page} (omega arith)),
      refl,
    )
