-- ===== src/Strategy/Stored.antt =====
-- What a backup has stored where it succeeds.
use open_vault.Common.{
  ◌≡◌, ◌≢◌, ◌⊎◌, refl, sym, ap, ◌∙◌, subst, inl, inr, String, Bool, true, false, List, [], ◌∷◌,
  ◌++◌, arith, Bool-cases, All, All-imp, Any,
}
use open_vault.Vault.{
  Bytes, VaultError, VaultResult, VaultResult-cases, ok, err, ok-injective, VaultStorage,
  StorageLaws, Snapshot, FileEntry,
}
use open_vault.Vault.Snapshots.{add_entry}
use open_vault.Strategy.Source.{SourceFile}
use open_vault.Strategy.{entry_of, backup_files, after_files, after_collect}

-- No two files have one path.
abbrev pub Distinct : List SourceFile → Type 0
Distinct [] = Unit
Distinct (f ∷ fs) = All (λ (g : SourceFile). f.rel ≢ g.rel) fs × Distinct fs

-- What holds of a result that is no error.
abbrev pub OnOk : {S : Type 0} → (Snapshot → S → Type 0) → VaultResult Snapshot × S → Type 0
OnOk P (ok out, s) = P out s
OnOk P (err e, s) = Unit

OnOk-imp :
    {S : Type 0} (P Q : Snapshot → S → Type 0) (r : VaultResult Snapshot × S)
    → ((out : Snapshot) → P out r.1 → Q out r.1)
    → OnOk P r
    → OnOk Q r
OnOk-imp P Q (ok out, s) f h = f out h
OnOk-imp P Q (err e, s) f h = tt

OnOk-both :
    {S : Type 0} (P Q : Snapshot → S → Type 0) (r : VaultResult Snapshot × S)
    → OnOk P r
    → OnOk Q r
    → OnOk (λ out s. P out s × Q out s) r
OnOk-both P Q (ok out, s) p q = (p, q)
OnOk-both P Q (err e, s) p q = tt

Any-append_left : {A : Type 0} (P : A → Type 0) (xs ys : List A) → Any P xs → Any P (xs ++ ys)
Any-append_left P [] ys h = elim h [ ]
Any-append_left P (x ∷ xs) ys (inl h) = inl h
Any-append_left P (x ∷ xs) ys (inr h) = inr (Any-append_left P xs ys h)

Any-last : {A : Type 0} (xs : List A) (a : A) → Any (λ (x : A). x ≡ a) (xs ++ a ∷ [])
Any-last [] a = inl refl
Any-last (x ∷ xs) a = inr (Any-last xs a)

module _ {S : Type 0} (sha256 : Bytes → String) (ops : VaultStorage S) where
  -- The storage has what the file held, and the snapshot lists it with its checksum.
  abbrev pub Backed : String → SourceFile → Snapshot → S → Type 0
  Backed id f out s =
      (bytes : Bytes) × (f.contents ≡ ok bytes)
      × (ops.retrieve_file s id f.rel ≡ ok bytes)
      × Any (λ (e : FileEntry). e ≡ entry_of sha256 f bytes) out.entries

module _ {S : Type 0} (sha256 : Bytes → String) (ops : VaultStorage S)
    (changed : SourceFile → Bool) where
  module _ (f : SourceFile) (rest : List SourceFile) (snapshot : Snapshot) (s : S) where
    step-skipped :
        changed f ≡ false
        → backup_files sha256 ops changed (f ∷ rest) snapshot s
          ≡ backup_files sha256 ops changed rest snapshot s
    unfolding backup_files
    step-skipped same = rw same refl

    step-broken :
        (e : VaultError)
        → changed f ≡ true
        → f.contents ≡ err e
        → backup_files sha256 ops changed (f ∷ rest) snapshot s ≡ (err e, s)
    unfolding backup_files
    step-broken e new broken = ground arith

    step-refused :
        (bytes : Bytes) (e : VaultError)
        → changed f ≡ true
        → f.contents ≡ ok bytes
        → (ops.store_file s snapshot.id f.rel bytes).0 ≡ err e
        → backup_files sha256 ops changed (f ∷ rest) snapshot s
          ≡ (err e, (ops.store_file s snapshot.id f.rel bytes).1)
    unfolding backup_files
    step-refused bytes e new there refused = ground arith

    step-stored :
        (bytes : Bytes)
        → changed f ≡ true
        → f.contents ≡ ok bytes
        → (ops.store_file s snapshot.id f.rel bytes).0 ≡ ok tt
        → backup_files sha256 ops changed (f ∷ rest) snapshot s
          ≡ backup_files sha256 ops changed rest
              (add_entry snapshot (entry_of sha256 f bytes))
              (ops.store_file s snapshot.id f.rel bytes).1
    unfolding backup_files
    step-stored bytes new there done = ground arith

    -- The four ways of a round, for a claim about its result.
    step-elim :
        (P : VaultResult Snapshot × S → Type 0)
        → (changed f ≡ false → P (backup_files sha256 ops changed rest snapshot s))
        → ((e : VaultError) → P (err e, s))
        → ((bytes : Bytes) (e : VaultError)
            → P (err e, (ops.store_file s snapshot.id f.rel bytes).1))
        → ((bytes : Bytes)
            → f.contents ≡ ok bytes
            → (ops.store_file s snapshot.id f.rel bytes).0 ≡ ok tt
            → P (
                backup_files sha256 ops changed rest
                  (add_entry snapshot (entry_of sha256 f bytes))
                  (ops.store_file s snapshot.id f.rel bytes).1))
        → P (backup_files sha256 ops changed (f ∷ rest) snapshot s)
    step-elim P skipped broken refused stored = elim (Bool-cases (changed f)) [
      | inr same ↦ subst P (sym (step-skipped same)) (skipped same)
      | inl new ↦ elim (VaultResult-cases f.contents) [
        | inr (e, at) ↦ subst P (sym (step-broken e new at)) (broken e)
        | inl (bytes, at) ↦ elim (VaultResult-cases (ops.store_file s snapshot.id f.rel bytes).0) [
          | inr (e, no_) ↦ subst P (sym (step-refused bytes e new at no_)) (refused bytes e)
          | inl (u, done) ↦ subst P (sym (step-stored bytes new at done)) (stored bytes at done)
        ]
      ]
    ]

  module _ (laws : StorageLaws ops) where
    -- Other paths of the snapshot are read as before.
    backup_files-keeps :
        (path : String) (files : List SourceFile) (snapshot : Snapshot) (s : S)
        → All (λ (g : SourceFile). path ≢ g.rel) files
        → ops.retrieve_file (backup_files sha256 ops changed files snapshot s).1 snapshot.id path
          ≡ ops.retrieve_file s snapshot.id path
    unfolding backup_files add_entry
    backup_files-keeps path [] snapshot s apart = refl
    backup_files-keeps path (f ∷ rest) snapshot s apart =
        let wrote = λ (bytes : Bytes).
          laws.retrieve-store_path s snapshot.id f.rel bytes path (λ e. apart.0 (sym e)) in
        step-elim f rest snapshot s
          (λ (r : VaultResult Snapshot × S).
            ops.retrieve_file r.1 snapshot.id path ≡ ops.retrieve_file s snapshot.id path)
          (λ same. backup_files-keeps path rest snapshot s apart.1) (λ e. refl)
          (λ bytes e. wrote bytes)
          (λ bytes there done.
            backup_files-keeps path rest (add_entry snapshot (entry_of sha256 f bytes)) _ apart.1
            ∙ wrote bytes)

    -- Entries stay in the snapshot.
    backup_files-lists :
        (entry : FileEntry) (files : List SourceFile) (snapshot : Snapshot) (s : S)
        → Any (λ (e : FileEntry). e ≡ entry) snapshot.entries
        → OnOk
            (λ out _. Any (λ (e : FileEntry). e ≡ entry) out.entries)
            (backup_files sha256 ops changed files snapshot s)
    unfolding backup_files add_entry
    backup_files-lists entry [] snapshot s there = there
    backup_files-lists entry (f ∷ rest) snapshot s there =
        step-elim f rest snapshot s (OnOk (λ out _. Any (λ (e : FileEntry). e ≡ entry) out.entries))
          (λ same. backup_files-lists entry rest snapshot s there) (λ e. tt) (λ bytes e. tt)
          (λ bytes at done.
            backup_files-lists entry rest (add_entry snapshot (entry_of sha256 f bytes)) _
              (Any-append_left _ snapshot.entries _ there))

    backup_files-id :
        (files : List SourceFile) (snapshot : Snapshot) (s : S)
        → OnOk (λ out _. out.id ≡ snapshot.id) (backup_files sha256 ops changed files snapshot s)
    unfolding backup_files add_entry
    backup_files-id [] snapshot s = refl
    backup_files-id (f ∷ rest) snapshot s =
        step-elim f rest snapshot s (OnOk (λ out _. out.id ≡ snapshot.id))
          (λ same. backup_files-id rest snapshot s) (λ e. tt) (λ bytes e. tt)
          (λ bytes at done. backup_files-id rest (add_entry snapshot (entry_of sha256 f bytes)) _)

    abbrev AllBacked : String → List SourceFile → Snapshot → S → Type 0
    AllBacked id files out s =
        All (λ (f : SourceFile). (changed f ≡ false) ⊎ Backed sha256 ops id f out s) files

    backup_files-AllBacked :
        (files : List SourceFile) (snapshot : Snapshot) (s : S)
        → Distinct files
        → OnOk (AllBacked snapshot.id files) (backup_files sha256 ops changed files snapshot s)
    unfolding backup_files add_entry
    backup_files-AllBacked [] snapshot s distinct = tt
    backup_files-AllBacked (f ∷ rest) snapshot s distinct =
        step-elim f rest snapshot s (OnOk (AllBacked snapshot.id (f ∷ rest)))
          (λ same.
            OnOk-imp (AllBacked snapshot.id rest) (AllBacked snapshot.id (f ∷ rest)) _
              (λ out h. (inl same, h)) (backup_files-AllBacked rest snapshot s distinct.1))
          (λ e. tt) (λ bytes e. tt)
          (λ bytes at done.
            let snapshot' = add_entry snapshot (entry_of sha256 f bytes) in
            let s' = (ops.store_file s snapshot.id f.rel bytes).1 in
            let stored =
              backup_files-keeps f.rel rest snapshot' s' distinct.0
              ∙ laws.retrieve-store_self s snapshot.id f.rel bytes done in
            OnOk-imp
              (λ out s2.
                Any (λ (e : FileEntry). e ≡ entry_of sha256 f bytes) out.entries
                × AllBacked snapshot.id rest out s2)
              (AllBacked snapshot.id (f ∷ rest)) _ (λ out h. (inr (bytes, at, stored, h.0), h.1))
              (OnOk-both _ _ _
                (backup_files-lists (entry_of sha256 f bytes) rest snapshot' s'
                  (Any-last snapshot.entries _))
                (backup_files-AllBacked rest snapshot' s' distinct.1)))

    kept :
        (out : Snapshot) (s : S) (f : SourceFile) (id : String)
        → (changed f ≡ false) ⊎ Backed sha256 ops id f out s
        → (changed f ≡ false) ⊎ Backed sha256 ops id f out (ops.store_snapshot s out).1
    kept out s f id (inl same) = inl same
    kept out s f id (inr (bytes, at, there, listed)) =
        inr (bytes, at, laws.retrieve-store_snapshot s out id f.rel ∙ there, listed)

    after_files-refused :
        (out : Snapshot) (s : S) (e : VaultError)
        → (ops.store_snapshot s out).0 ≡ err e
        → after_files sha256 ops (ok out, s) ≡ (err e, (ops.store_snapshot s out).1)
    after_files-refused out s e no_ = ground arith

    after_files-done :
        (out : Snapshot) (s : S)
        → (ops.store_snapshot s out).0 ≡ ok tt
        → after_files sha256 ops (ok out, s) ≡ (ok out, (ops.store_snapshot s out).1)
    after_files-done out s done = ground arith

    -- Behind the loop the snapshot itself is stored, which leaves the files alone.
    unfoldable pub Finished : String → List SourceFile → Snapshot → S → Type 0
    Finished id files out s =
        (out.id ≡ id) × AllBacked id files out s × (ops.load_snapshot s id ≡ ok out)

    after_files-Finished :
        (id : String) (files : List SourceFile) (r : VaultResult Snapshot × S)
        → OnOk (λ out _. out.id ≡ id) r
        → OnOk (AllBacked id files) r
        → OnOk (Finished id files) (after_files sha256 ops r)
    unfolding Finished
    after_files-Finished id files (err e, s) same backed = tt
    after_files-Finished id files (ok out, s) same backed =
        elim (VaultResult-cases (ops.store_snapshot s out).0) [
          | inr (e, no_) ↦
              subst (OnOk (Finished id files)) (sym (after_files-refused out s e no_)) tt
          | inl (u, done) ↦ subst (OnOk (Finished id files)) (sym (after_files-done out s done)) (
            same,
            All-imp (λ f h. kept out s f id h) files backed,
            ap (ops.load_snapshot (ops.store_snapshot s out).1) (sym same)
                ∙ laws.load-store_snapshot s out done,
          )
        ]

    pub after_collect-Finished :
        (snapshot : Snapshot) (s : S) (files : List SourceFile)
        → Distinct files
        → OnOk (Finished snapshot.id files) (after_collect sha256 ops changed snapshot s (ok files))
    after_collect-Finished snapshot s files distinct =
        after_files-Finished snapshot.id files (backup_files sha256 ops changed files snapshot s)
          (backup_files-id files snapshot s) (backup_files-AllBacked files snapshot s distinct)

pub OnOk-out :
    {S : Type 0} (P : Snapshot → S → Type 0) (r : VaultResult Snapshot × S) (out : Snapshot)
    → r.0 ≡ ok out
    → OnOk P r
    → P out r.1
OnOk-out P (ok x, s) out e h = subst (λ (y : Snapshot). P y s) (ok-injective e) h
OnOk-out P (err x, s) out e h = absurd (ground arith)
