-- ===== src/Strategy/Chain.antt =====
-- What an incremental backup compares the files with.
use open_vault.Common.{
  ℕ, zero, suc, ◌<◌, ◌≡◌, refl, sym, ap, ◌∙◌, String, Bool, some, none, Option, List, [], ◌∷◌,
  arith, if◌then◌else◌, ◌==◌, string_eq, length,
}
use open_vault.Common.Map
use open_vault.Common.Map.{Map, get-insert}
use open_vault.Vault.{Bytes, Time, ok, VaultStorage, Snapshot, FileEntry}
use open_vault.Strategy.Source.{SourceFile}
use open_vault.Strategy.{BackupConfig, insert_all, differs, is_changed, file_map, previous_files}

abbrev or_else : Option FileEntry → Option FileEntry → Option FileEntry
or_else none b = b
or_else (some a) b = some a

-- The last entry of a path in a list, and the one of the oldest snapshot that lists the path, where
-- the snapshots stand newest first.
abbrev pub last_entry : String → List FileEntry → Option FileEntry
last_entry path [] = none
last_entry path (e ∷ es) = or_else (last_entry path es) (if e.path == path then some e else none)

abbrev pub oldest : String → List Snapshot → Option FileEntry
oldest path [] = none
oldest path (s ∷ rest) = or_else (oldest path rest) (last_entry path s.entries)

or_else_assoc : (a b c : Option FileEntry) → or_else (or_else a b) c ≡ or_else a (or_else b c)
or_else_assoc none b c = refl
or_else_assoc (some a) b c = refl

as_else :
    (b : Bool) (e : FileEntry) (o : Option FileEntry)
    → (if b then some e else o) ≡ or_else (if b then some e else none) o
as_else b e o = ground arith

or_else-none : (a : Option FileEntry) → or_else a none ≡ a
or_else-none none = refl
or_else-none (some a) = refl

get-insert_all :
    (path : String) (es : List FileEntry) (m : Map FileEntry)
    → Map.get path (insert_all es m) ≡ or_else (last_entry path es) (Map.get path m)
unfolding insert_all
get-insert_all path [] m = refl
get-insert_all path (e ∷ es) m =
    get-insert_all path es (Map.insert e.path e m)
    ∙ ap (or_else (last_entry path es))
        (get-insert e.path path e m ∙ as_else (e.path == path) e (Map.get path m))
    ∙ sym (
        or_else_assoc (last_entry path es) (if e.path == path then some e else none)
          (Map.get path m))

insert_snaps : List Snapshot → Map FileEntry → Map FileEntry
insert_snaps [] m = m
insert_snaps (s ∷ rest) m = insert_snaps rest (insert_all s.entries m)

get-insert_snaps :
    (path : String) (snaps : List Snapshot) (m : Map FileEntry)
    → Map.get path (insert_snaps snaps m) ≡ or_else (oldest path snaps) (Map.get path m)
unfolding insert_snaps
get-insert_snaps path [] m = refl
get-insert_snaps path (s ∷ rest) m =
    get-insert_snaps path rest (insert_all s.entries m)
    ∙ ap (or_else (oldest path rest)) (get-insert_all path s.entries m)
    ∙ sym (or_else_assoc (oldest path rest) (last_entry path s.entries) (Map.get path m))

module _ {S : Type 0} (sha256 : Bytes → String) (ops : VaultStorage S) (s : S) where
  -- The snapshots that the parent ids lead to, up to one without a parent.
  abbrev pub Parents : Snapshot → List Snapshot → Type 0
  Parents snap [] = snap.parent_id ≡ none
  Parents snap (o ∷ os) =
      (id : String) × (snap.parent_id ≡ some id) × (ops.load_snapshot s id ≡ ok o) × Parents o os

  file_map-last :
      (fuel : ℕ) (snap : Snapshot) (m : Map FileEntry)
      → snap.parent_id ≡ none
      → file_map sha256 ops (suc fuel) s snap m ≡ some (ok (insert_all snap.entries m))
  unfolding file_map
  file_map-last fuel snap m root = ground arith

  file_map-next :
      (fuel : ℕ) (snap o : Snapshot) (m : Map FileEntry) (id : String)
      → snap.parent_id ≡ some id
      → ops.load_snapshot s id ≡ ok o
      → file_map sha256 ops (suc fuel) s snap m
        ≡ file_map sha256 ops fuel s o (insert_all snap.entries m)
  unfolding file_map
  file_map-next fuel snap o m id at loaded = ground arith

  file_map-Parents :
      (fuel : ℕ) (snap : Snapshot) (older : List Snapshot) (m : Map FileEntry)
      → length older < fuel
      → Parents snap older
      → file_map sha256 ops fuel s snap m ≡ some (ok (insert_snaps (snap ∷ older) m))
  unfolding insert_snaps
  file_map-Parents zero snap older m enough chain = absurd (omega arith)
  file_map-Parents (suc fuel) snap [] m enough chain = file_map-last fuel snap m chain
  file_map-Parents (suc fuel) snap (o ∷ os) m enough (id, at, loaded, chain) =
      file_map-next fuel snap o m id at loaded
      ∙ file_map-Parents fuel o os (insert_all snap.entries m) (omega arith) chain

  -- Let the parent ids lead from the latest snapshot to one without a parent. The incremental
  -- backup reads the chain in as many rounds as it has snapshots, and takes a file as changed where
  -- its size or time is not that of its entry in the oldest snapshot of the chain that lists it,
  -- whatever the newer snapshots say of it.
  pub previous_files-oldest :
      (format_id : Time → ℕ → String) (config : BackupConfig) (fuel : ℕ) (latest : Snapshot)
      (older : List Snapshot)
      → length older < fuel
      → Parents latest older
      → (previous : Map FileEntry) × (previous_files sha256 ops format_id config fuel s
            (some latest)
          ≡ some (ok previous))
        × ((f : SourceFile) → is_changed previous f ≡ differs (oldest f.rel (latest ∷ older)) f)
  unfolding previous_files is_changed Map.get
  previous_files-oldest format_id config fuel latest older enough chain = (
    insert_snaps (latest ∷ older) [],
    file_map-Parents fuel latest older [] enough chain,
    λ f.
        ap (λ (e : Option FileEntry). differs e f)
          (get-insert_snaps f.rel (latest ∷ older) []
            ∙ or_else-none (oldest f.rel (latest ∷ older))),
  )
