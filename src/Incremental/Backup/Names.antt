-- ===== src/Incremental/Backup/Names.antt =====
-- The names under which the manifest keeps the files of a tree.
use open_vault.Common.{
  ◌≡◌, refl, sym, ap, ◌∙◌, inl, inr, String, Option, none, some, eq_iff, string_eq, ◌==◌,
  if◌then◌else◌, Bool-cases, arith, List,
}
use open_vault.Common.Map
use open_vault.Common.Map.{get-insert}
use open_vault.Vault.{Bytes, ok, VaultStorage}
use open_vault.Incremental.Chunker.{Chunk, Chunker, chunk_data}
use open_vault.Incremental.ChunkStore.{ChunkStore}
use open_vault.Incremental.Manifest.{BackupManifest, from_chunks, add_file, get_file_chunks}
use open_vault.Incremental.Backup.{
  Node, Nodes, file, unreadable_file, directory, unreadable_directory, special, bad_entry, nil,
  cons, Codecs, pure, chunked, stored, stored_size, backup_file, backup_nodes, backup_node,
}
use open_vault.Incremental.Backup.Success.{bind-eq-ok}

abbrev or_else : Option Bytes → Option Bytes → Option Bytes
or_else (some bytes) other = some bytes
or_else none other = other

-- The last file of a name that the walk comes to, in whatever directory.
unfoldable mutual
  pub last_file : String → Nodes → Option Bytes
  last_file name nil = none
  last_file name (cons node rest) = or_else (last_file name rest) (last_in name node)

  pub last_in : String → Node → Option Bytes
  last_in name (file n bytes) = if n == name then some bytes else none
  last_in name (directory n nodes) = last_file name nodes
  last_in name (unreadable_file n e) = none
  last_in name (unreadable_directory n e) = none
  last_in name (special n) = none
  last_in name (bad_entry e) = none

pure-ok :
    {S : Type 0} (m m' : BackupManifest) (cs cs' : ChunkStore S)
    → pure m cs ≡ some (ok m', cs')
    → m ≡ m'
pure-ok m m' cs cs' e = ground arith

module _ {S : Type 0} (ops : VaultStorage S) (codecs : Codecs) (chunker : Chunker)
    (snapshot_id : String) where
  open codecs use {sha256}

  -- What the manifest has under a name, behind a walk that came last to `found` under it.
  abbrev pub Kept : String → Option Bytes → BackupManifest → BackupManifest → Type 0
  Kept name none m m' = get_file_chunks m' name ≡ get_file_chunks m name
  Kept name (some bytes) m m' =
      (chunks : List Chunk) × (chunk_data sha256 chunker bytes ≡ some chunks)
      × (get_file_chunks m' name ≡ some (from_chunks sha256 name bytes chunks))

  Kept-or_else :
      (name : String) (found later : Option Bytes) (m m1 m2 : BackupManifest)
      → Kept name found m m1
      → Kept name later m1 m2
      → Kept name (or_else later found) m m2
  Kept-or_else name none none m m1 m2 p q = q ∙ p
  Kept-or_else name (some bytes) none m m1 m2 (ks, cut, p) q = (ks, cut, q ∙ p)
  Kept-or_else name found (some bytes) m m1 m2 p q = q

  Filed : String → Bytes → BackupManifest → BackupManifest → Type 0
  Filed n bytes m m' =
      (chunks : List Chunk) × (chunk_data sha256 chunker bytes ≡ some chunks)
      × (m'.files ≡ Map.insert n (from_chunks sha256 n bytes chunks) m.files)

  chunked-some :
      (bytes : Bytes) (cs cs' : ChunkStore S) (chunks : List Chunk)
      → chunked ops codecs chunker bytes cs ≡ some (ok chunks, cs')
      → chunk_data sha256 chunker bytes ≡ some chunks
  unfolding chunked
  chunked-some bytes cs cs' chunks e = ground arith

  backup_file-Filed :
      (n : String) (bytes : Bytes) (m m' : BackupManifest) (cs cs' : ChunkStore S)
      → backup_file ops codecs chunker snapshot_id n bytes m cs ≡ some (ok m', cs')
      → Filed n bytes m m'
  unfolding backup_file add_file from_chunks Filed
  backup_file-Filed n bytes m m' cs cs' e =
      bind-eq-ok (chunked ops codecs chunker bytes) _ cs e λ chunks cs1 p q.
        bind-eq-ok (stored ops codecs snapshot_id chunks) _ cs1 q λ counts cs2 r t.
          bind-eq-ok (stored_size ops codecs chunks) _ cs2 t
            λ size cs3 u v. (chunks, chunked-some bytes cs cs1 chunks p, ground arith)

  Filed-Kept :
      (name n : String) (bytes : Bytes) (m m' : BackupManifest)
      → Filed n bytes m m'
      → Kept name (if n == name then some bytes else none) m m'
  unfolding get_file_chunks Filed
  Filed-Kept name n bytes m m' (chunks, cut, filed) =
      let entry = from_chunks sha256 n bytes chunks in
      let got : Map.get name m'.files ≡ (if n == name then some entry else Map.get name m.files) =
        ap (Map.get name) filed ∙ get-insert n name entry m.files in
      elim (Bool-cases (n == name)) [
        | inl same ↦
            let e = (eq_iff n name).0 same in
            rw same (
              chunks,
              cut,
              got ∙ rw same (ap (λ (x : String). some (from_chunks sha256 x bytes chunks)) e),
            )
        | inr differs ↦ rw differs (got ∙ rw differs refl)
      ]

  mutual
    unfolding backup_nodes backup_node last_file last_in

    nodes-Kept :
        (name dir : String) (nodes : Nodes) (m m' : BackupManifest) (cs cs' : ChunkStore S)
        → backup_nodes ops codecs chunker snapshot_id dir nodes m cs ≡ some (ok m', cs')
        → Kept name (last_file name nodes) m m'
    nodes-Kept name dir nil m m' cs cs' e =
        ap (λ (x : BackupManifest). get_file_chunks x name) (sym (pure-ok m m' cs cs' e))
    nodes-Kept name dir (cons node rest) m m' cs cs' e =
        bind-eq-ok (backup_node ops codecs chunker snapshot_id dir node m) _ cs e λ m1 cs1 p q.
          Kept-or_else name (last_in name node) (last_file name rest) m m1 m'
            (backup_node-Kept name dir node m m1 cs cs1 p)
            (nodes-Kept name dir rest m1 m' cs1 cs' q)

    backup_node-Kept :
        (name dir : String) (node : Node) (m m' : BackupManifest) (cs cs' : ChunkStore S)
        → backup_node ops codecs chunker snapshot_id dir node m cs ≡ some (ok m', cs')
        → Kept name (last_in name node) m m'
    backup_node-Kept name dir (file n bytes) m m' cs cs' e =
        Filed-Kept name n bytes m m' (backup_file-Filed n bytes m m' cs cs' e)
    backup_node-Kept name dir (directory n nodes) m m' cs cs' e =
        nodes-Kept name _ nodes m m' cs cs' e
    backup_node-Kept name dir (special n) m m' cs cs' e =
        ap (λ (x : BackupManifest). get_file_chunks x name) (sym (pure-ok m m' cs cs' e))
    backup_node-Kept name dir (unreadable_file n x) m m' cs cs' e = absurd (ground arith)
    backup_node-Kept name dir (unreadable_directory n x) m m' cs cs' e = absurd (ground arith)
    backup_node-Kept name dir (bad_entry x) m m' cs cs' e = absurd (ground arith)

  -- Behind a backup that succeeds, whatever tree it walks, the manifest has under each name the
  -- entry of the last file of this name that the walk came to, in whatever directory: its bytes as
  -- they are chunked; under a name of no file it has what it had before. Of several files of one
  -- name all but the last are in no entry.
  pub backup_nodes-collision :
      (name dir : String) (nodes : Nodes) (m m' : BackupManifest) (cs cs' : ChunkStore S)
      → backup_nodes ops codecs chunker snapshot_id dir nodes m cs ≡ some (ok m', cs')
      → Kept name (last_file name nodes) m m'
  backup_nodes-collision = nodes-Kept
