-- ===== src/Incremental/Backup/Accounting.antt =====
-- The figures of a manifest after a backup that succeeds.
use open_vault.Common.{
  ℕ, ◌+◌, ◌≡◌, refl, ap, sym, ◌∙◌, subst, String, true, none, some, some-injective, List, [], ◌∷◌,
  arith, length, All, contains, concat, string_eq,
}
use open_vault.Common.Map
use open_vault.Fs.{join}
use open_vault.Vault.{Bytes, Time, VaultResult, ok, VaultStorage}
use open_vault.Incremental.Chunker.{Chunk, Chunker, chunk_data}
use open_vault.Incremental.ChunkStore.{ChunkStore, store_chunks, save_meta}
use open_vault.Incremental.ChunkStore.Batches.{store_chunks-counts}
use open_vault.Incremental.Manifest
use open_vault.Incremental.Manifest.{BackupManifest, add_file, from_chunks, file_count}
use open_vault.Incremental.Backup.{
  Node, file, unreadable_file, directory, unreadable_directory, special, bad_entry, Nodes, nil,
  cons, BackupReport, Codecs, pure, sum_unknown, chunked, stored, stored_size, backup_file,
  backup_nodes, backup_node, backup_directory, put_file, lift_store, save_manifest, report_of,
  backup_full,
}
use open_vault.Incremental.Backup.Success.{bind-eq-ok}

-- The sizes of the files of a directory and of those below it.
mutual
  pub size_nodes : Nodes → ℕ
  size_nodes nil = 0
  size_nodes (cons n ns) = size_node n + size_nodes ns

  pub size_node : Node → ℕ
  size_node (file name bytes) = length bytes
  size_node (unreadable_file name e) = 0
  size_node (directory name ns) = size_nodes ns
  size_node (unreadable_directory name e) = 0
  size_node (special name) = 0
  size_node (bad_entry e) = 0

sum_unknown-zero :
    (chunks : List Chunk) (known : List String)
    → All (λ (k : Chunk). contains k.hash known ≡ true) chunks
    → sum_unknown chunks known ≡ 0
sum_unknown-zero [] known h = refl
sum_unknown-zero (k ∷ ks) known h = ground (arith, sum_unknown-zero ks known)

module _ {S : Type 0} (ops : VaultStorage S) (codecs : Codecs) where
  open codecs use {sha256}

  -- What a part of a backup adds to the manifest, and to the store.
  pub record Adds (size : ℕ) (m m' : BackupManifest) (cs cs' : ChunkStore S) : Type 0 where
    pub original : m'.total_original_size ≡ m.total_original_size + size
    pub unsized : m'.total_stored_size ≡ m.total_stored_size
    pub fresh :
        m'.new_chunk_count + cs.meta.total_chunks ≡ m.new_chunk_count + cs'.meta.total_chunks
    pub again :
        m'.duplicate_chunk_count + cs.meta.duplicates_detected
        ≡ m.duplicate_chunk_count + cs'.meta.duplicates_detected

  chunked-eq-ok :
      (chunker : Chunker) (bytes : Bytes) (cs cs' : ChunkStore S) (chunks : List Chunk)
      → chunked ops codecs chunker bytes cs ≡ some (ok chunks, cs')
      → (chunk_data sha256 chunker bytes ≡ some chunks) × (cs' ≡ cs)
  unfolding chunked
  chunked-eq-ok chunker bytes cs cs' chunks e = ground arith

  stored-eq-ok :
      (snapshot_id : String) (chunks : List Chunk) (cs cs' : ChunkStore S) (n d : ℕ)
      → stored ops codecs snapshot_id chunks cs ≡ some (ok (n, d), cs')
      → (cs'.meta.total_chunks ≡ cs.meta.total_chunks + n)
        × (cs'.meta.duplicates_detected ≡ cs.meta.duplicates_detected + d)
        × (sum_unknown chunks cs'.meta.stored_hashes ≡ 0)
  unfolding stored
  stored-eq-ok snapshot_id chunks cs cs' n d e =
      let same = some-injective _ _ e in
      subst
        (λ (r : VaultResult (ℕ × ℕ) × ChunkStore S).
          (r.1.meta.total_chunks ≡ cs.meta.total_chunks + n)
          × (r.1.meta.duplicates_detected ≡ cs.meta.duplicates_detected + d)
          × (sum_unknown chunks r.1.meta.stored_hashes ≡ 0))
        same
        (let counts = store_chunks-counts ops snapshot_id cs chunks n d (ap (λ r. r.0) same) in
          (
            counts.1,
            counts.2,
            sum_unknown-zero chunks (store_chunks ops cs snapshot_id chunks).1.meta.stored_hashes
                counts.3,
          ))

  filed :
      (name : String) (bytes : Bytes) (m m' : BackupManifest) (cs cs' : ChunkStore S)
      (chunks : List Chunk) (cs1 cs2 cs3 : ChunkStore S) (n d size : ℕ)
      → cs1 ≡ cs
      → (cs2.meta.total_chunks ≡ cs1.meta.total_chunks + n)
        × (cs2.meta.duplicates_detected ≡ cs1.meta.duplicates_detected + d)
        × (sum_unknown chunks cs2.meta.stored_hashes ≡ 0)
      → stored_size ops codecs chunks cs2 ≡ some (ok size, cs3)
      → pure
          (record m {
            total_original_size = m.total_original_size + length bytes;
            new_chunk_count = m.new_chunk_count + n;
            duplicate_chunk_count = m.duplicate_chunk_count + d;
            files = Map.insert name (from_chunks sha256 name bytes chunks) m.files;
            total_stored_size = m.total_stored_size + size;
          })
          cs3
        ≡ some (ok m', cs')
      → Adds (length bytes) m m' cs cs'
  unfolding stored_size add_file from_chunks
  filed name bytes m m' cs cs' chunks cs1 cs2 cs3 n d size same (a, b, c) u v = ground arith

  pub backup_file-Adds :
      (chunker : Chunker) (snapshot_id name : String) (bytes : Bytes) (m m' : BackupManifest)
      (cs cs' : ChunkStore S)
      → backup_file ops codecs chunker snapshot_id name bytes m cs ≡ some (ok m', cs')
      → Adds (length bytes) m m' cs cs'
  unfolding backup_file add_file Map.insert from_chunks
  backup_file-Adds chunker snapshot_id name bytes m m' cs cs' e =
      bind-eq-ok (chunked ops codecs chunker bytes) _ cs e λ chunks cs1 p q.
        let (found, same) = chunked-eq-ok chunker bytes cs cs1 chunks p in
        bind-eq-ok (stored ops codecs snapshot_id chunks) _ cs1 q λ (n, d) cs2 r t.
          bind-eq-ok (stored_size ops codecs chunks) _ cs2 t λ size cs3 u v.
            filed name bytes m m' cs cs' chunks cs1 cs2 cs3 n d size same
              (stored-eq-ok snapshot_id chunks cs1 cs2 n d r) u v

  Adds-trans :
      {a b : ℕ} {m m' m'' : BackupManifest} {cs cs' cs'' : ChunkStore S}
      → Adds a m m' cs cs'
      → Adds b m' m'' cs' cs''
      → Adds (a + b) m m'' cs cs''
  Adds-trans f g = record {
    original = omega (arith, f.original, g.original);
    unsized = omega (arith, f.unsized, g.unsized);
    fresh = omega (arith, f.fresh, g.fresh);
    again = omega (arith, f.again, g.again);
  }

  pure-Adds :
      (m m' : BackupManifest) (cs cs' : ChunkStore S)
      → pure m cs ≡ some (ok m', cs')
      → Adds 0 m m' cs cs'
  pure-Adds m m' cs cs' e = ground arith

  mutual
    unfolding backup_nodes backup_node size_nodes size_node

    backup_nodes-Adds :
        (chunker : Chunker) (snapshot_id dir : String) (nodes : Nodes) (m m' : BackupManifest)
        (cs cs' : ChunkStore S)
        → backup_nodes ops codecs chunker snapshot_id dir nodes m cs ≡ some (ok m', cs')
        → Adds (size_nodes nodes) m m' cs cs'
    backup_nodes-Adds chunker snapshot_id dir nil m m' cs cs' e = pure-Adds m m' cs cs' e
    backup_nodes-Adds chunker snapshot_id dir (cons n ns) m m' cs cs' e =
        bind-eq-ok (backup_node ops codecs chunker snapshot_id dir n m) _ cs e λ m1 cs1 p q.
          Adds-trans (backup_node-Adds chunker snapshot_id dir n m m1 cs cs1 p)
            (backup_nodes-Adds chunker snapshot_id dir ns m1 m' cs1 cs' q)

    backup_node-Adds :
        (chunker : Chunker) (snapshot_id dir : String) (node : Node) (m m' : BackupManifest)
        (cs cs' : ChunkStore S)
        → backup_node ops codecs chunker snapshot_id dir node m cs ≡ some (ok m', cs')
        → Adds (size_node node) m m' cs cs'
    backup_node-Adds chunker snapshot_id dir (file name bytes) m m' cs cs' e =
        backup_file-Adds chunker snapshot_id name bytes m m' cs cs' e
    backup_node-Adds chunker snapshot_id dir (unreadable_file name x) m m' cs cs' e =
        absurd (ground arith)
    backup_node-Adds chunker snapshot_id dir (directory name ns) m m' cs cs' e =
        backup_nodes-Adds chunker snapshot_id (join dir name) ns m m' cs cs' e
    backup_node-Adds chunker snapshot_id dir (unreadable_directory name x) m m' cs cs' e =
        absurd (ground arith)
    backup_node-Adds chunker snapshot_id dir (special name) m m' cs cs' e = pure-Adds m m' cs cs' e
    backup_node-Adds chunker snapshot_id dir (bad_entry x) m m' cs cs' e = absurd (ground arith)

  backup_directory-Adds :
      (chunker : Chunker) (snapshot_id source : String) (node : Node) (m m' : BackupManifest)
      (cs cs' : ChunkStore S)
      → backup_directory ops codecs chunker snapshot_id source node m cs ≡ some (ok m', cs')
      → Adds (size_node node) m m' cs cs'
  unfolding backup_directory size_node
  backup_directory-Adds chunker snapshot_id source (directory name ns) m m' cs cs' e =
      backup_nodes-Adds chunker snapshot_id source ns m m' cs cs' e
  backup_directory-Adds chunker snapshot_id source (unreadable_directory name x) m m' cs cs' e =
      absurd (ground arith)
  backup_directory-Adds chunker snapshot_id source (file name bytes) m m' cs cs' e =
      absurd (ground arith)
  backup_directory-Adds chunker snapshot_id source (unreadable_file name x) m m' cs cs' e =
      absurd (ground arith)
  backup_directory-Adds chunker snapshot_id source (special name) m m' cs cs' e =
      absurd (ground arith)
  backup_directory-Adds chunker snapshot_id source (bad_entry x) m m' cs cs' e =
      absurd (ground arith)

  meta-put_file :
      (snapshot_id key : String) (bytes : Bytes) (cs : ChunkStore S)
      → (put_file ops codecs snapshot_id key bytes cs).1.meta ≡ cs.meta
  unfolding put_file
  meta-put_file snapshot_id key bytes cs = refl

  meta-save_meta :
      (snapshot_id : String) (cs : ChunkStore S)
      → (save_meta ops codecs.json cs snapshot_id).1.meta ≡ cs.meta
  unfolding save_meta
  meta-save_meta snapshot_id cs = ground arith

  lift_store-eq-ok :
      (f : ChunkStore S → VaultResult (Unit {0}) × ChunkStore S) (cs cs' : ChunkStore S)
      {u : Unit {0}}
      → lift_store ops codecs f cs ≡ some (ok u, cs')
      → cs'.meta ≡ (f cs).1.meta
  unfolding lift_store
  lift_store-eq-ok f cs cs' e = sym (ap (λ r. r.1.meta) (some-injective _ _ e))

  -- Writing the manifest and the metadata leaves the counters of the store alone.
  meta-save_manifest :
      (snapshot_id : String) (m : BackupManifest) (cs cs' : ChunkStore S)
      → save_manifest ops codecs snapshot_id m cs ≡ some (ok tt, cs')
      → cs'.meta ≡ cs.meta
  unfolding save_manifest
  meta-save_manifest snapshot_id m cs cs' e =
      bind-eq-ok (λ cs. some (codecs.to_bytes m, cs)) _ cs e
        λ bytes cs1 p q.
          let put = put_file ops codecs snapshot_id (concat "__manifests__/" m.id) bytes in
          bind-eq-ok (lift_store ops codecs put) _ cs1 q λ u cs2 r t.
            lift_store-eq-ok (λ c. save_meta ops codecs.json c snapshot_id) cs2 cs' t
            ∙ meta-save_meta snapshot_id cs2
            ∙ lift_store-eq-ok put cs1 cs2 r
            ∙ meta-put_file snapshot_id (concat "__manifests__/" m.id) bytes cs1
            ∙ ap (λ r. r.1.meta) (sym (some-injective _ _ p))

  reported :
      (m0 m m1 : BackupManifest) (cs cs1 cs2 cs' : ChunkStore S) (duration size : ℕ)
      (report : BackupReport)
      → m0.total_original_size ≡ 0
      → m0.total_stored_size ≡ 0
      → m0.new_chunk_count ≡ 0
      → m0.duplicate_chunk_count ≡ 0
      → Adds size m0 m1 cs cs1
      → cs2.meta ≡ cs1.meta
      → pure {A = BackupManifest × BackupReport} (m1, report_of ops codecs m1 duration) cs2
        ≡ some (ok (m, report), cs')
      → (report.total_original_size ≡ size)
        × (report.total_stored_size ≡ 0)
        × (cs'.meta.total_chunks ≡ cs.meta.total_chunks + report.new_chunks)
        × (cs'.meta.duplicates_detected ≡ cs.meta.duplicates_detected + report.duplicate_chunks)
  unfolding report_of
  reported m0 m m1 cs cs1 cs2 cs' duration size report a b c d f q e =
      ground (arith, f.original, f.unsized, f.fresh, f.again)

  -- A full backup that succeeds reports the sizes of all the files of the tree, as new and as
  -- duplicate chunks exactly what the counters of the store have grown by, and zero bytes stored,
  -- whatever it stored.
  pub backup_full-Adds :
      (chunker : Chunker) (now : Time) (duration : ℕ) (snapshot_id source : String) (node : Node)
      (cs cs' : ChunkStore S) (m : BackupManifest) (report : BackupReport)
      → backup_full ops codecs chunker now duration snapshot_id source node cs
        ≡ some (ok (m, report), cs')
      → (report.total_original_size ≡ size_node node)
        × (report.total_stored_size ≡ 0)
        × (cs'.meta.total_chunks ≡ cs.meta.total_chunks + report.new_chunks)
        × (cs'.meta.duplicates_detected ≡ cs.meta.duplicates_detected + report.duplicate_chunks)
  unfolding backup_full Manifest.new
  backup_full-Adds chunker now duration snapshot_id source node cs cs' m report e =
      let empty = Manifest.new codecs.format_id now source none in
      bind-eq-ok (backup_directory ops codecs chunker snapshot_id source node empty) _ cs e
        λ m1 cs1 p q. bind-eq-ok (save_manifest ops codecs snapshot_id m1) _ cs1 q λ u cs2 r t.
          let adds = backup_directory-Adds chunker snapshot_id source node empty m1 cs cs1 p in
          reported empty m m1 cs cs1 cs2 cs' duration (size_node node) report refl refl refl refl
            adds (meta-save_manifest snapshot_id m1 cs1 cs2 r) t
