-- ===== src/Local/Places.antt =====
-- Where the local backend keeps files and metadata, and that plain names keep them apart.
use open_vault.Common.{
  ◌≡◌, ◌≢◌, refl, sym, ap, ◌∙◌, String, true, false, none, concat, concat_cancel,
  concat_cancel_right, concat_assoc, strip_prefix, strip_prefix-concat, strip_prefix-differ,
  strip_prefix_self, arith,
}
use open_vault.Common.Map.{is_some}
use open_vault.Fs.{join, is_under, is_child}
use open_vault.Local.Paths.{path_join, plain_from, real, real-plain}
use open_vault.Local.Plain.{PlainPath, PlainName}
use open_vault.Local.{data_dir, snapshot_path}

-- Where a file and the metadata of a snapshot stand.
abbrev pub data_path : String → String → String → String
data_path root id path = real (path_join (data_dir root id) path)

abbrev pub snapshots_dir : String → String
snapshots_dir root = real (path_join root "snapshots")

abbrev pub snap_path : String → String → String
snap_path root id = real (snapshot_path root id)

-- The same for plain names below a root that is resolved.
abbrev data_text : String → String → String → String
data_text root id path = join (join (join root "data") id) path

abbrev snap_text : String → String → String
snap_text root id = join (join root "snapshots") (concat id ".json")

plain_word : (plain_from "" "data" ≡ true) × (plain_from "" "snapshots" ≡ true)
unfolding plain_from concat
plain_word = (refl, refl)

data_path-data_text :
    (root id path : String)
    → PlainName id
    → PlainPath path
    → data_path root id path ≡ data_text (real root) id path
unfolding data_dir
data_path-data_text root id path i p =
    real-plain (path_join (path_join root "data") id) path p
    ∙ ap (λ b. join b path)
        (real-plain (path_join root "data") id i.directory
          ∙ ap (λ b. join b id) (real-plain root "data" plain_word.0))

snapshots_dir-text : (root : String) → snapshots_dir root ≡ join (real root) "snapshots"
snapshots_dir-text root = real-plain root "snapshots" plain_word.1

snap_path-snap_text :
    (root id : String) → PlainName id → snap_path root id ≡ snap_text (real root) id
unfolding snapshot_path
snap_path-snap_text root id i =
    real-plain (path_join root "snapshots") (concat id ".json") i.metadata
    ∙ ap (λ b. join b (concat id ".json")) (snapshots_dir-text root)

data-differs : (s : String) → strip_prefix (concat "snapshots" "/") (concat "data" s) ≡ none
unfolding concat
data-differs s = strip_prefix-differ "s" "d" "napshots/" "ata" s refl

abbrev below : String → String → String
below id path = concat (concat "/" id) (concat "/" path)

data_text-is_under :
    (root id path : String) → is_under (join root "snapshots") (data_text root id path) ≡ false
unfolding is_under join
data_text-is_under root id path = ap is_some (
    ap (λ (p : String). strip_prefix p (data_text root id path))
      (concat_assoc root (concat "/" "snapshots") "/")
    ∙ ap (strip_prefix (concat root (concat (concat "/" "snapshots") "/"))) (
        concat_assoc (concat root (concat "/" "data")) (concat "/" id) (concat "/" path)
        ∙ concat_assoc root (concat "/" "data") (below id path))
    ∙ strip_prefix-concat root _ _
    ∙ ap (λ (p : String). strip_prefix p (concat (concat "/" "data") (below id path)))
        (concat_assoc "/" "snapshots" "/")
    ∙ ap (strip_prefix (concat "/" (concat "snapshots" "/")))
        (concat_assoc "/" "data" (below id path))
    ∙ strip_prefix-concat "/" _ _
    ∙ data-differs (below id path))

snap_text-is_under :
    (root id : String) → is_under (join root "snapshots") (snap_text root id) ≡ true
unfolding is_under join
snap_text-is_under root id =
    ap is_some (
      strip_prefix-concat (join root "snapshots") "/" _ ∙ strip_prefix_self "/" (concat id ".json"))

pub data-is_under :
    (root id path : String)
    → PlainName id
    → PlainPath path
    → is_under (snapshots_dir root) (data_path root id path) ≡ false
data-is_under root id path i p =
    rw (snapshots_dir-text root, data_path-data_text root id path i p)
      (data_text-is_under (real root) id path)

snapshot-is_under :
    (root id : String) → PlainName id → is_under (snapshots_dir root) (snap_path root id) ≡ true
snapshot-is_under root id i =
    rw (snapshots_dir-text root, snap_path-snap_text root id i) (snap_text-is_under (real root) id)

pub is_child-is_under : (dir path : String) → is_under dir path ≡ false → is_child dir path ≡ false
unfolding is_under is_child
is_child-is_under dir path e = ground arith

pub data-ne-snapshot :
    (root id path name : String)
    → PlainName id
    → PlainPath path
    → PlainName name
    → data_path root id path ≢ snap_path root name
data-ne-snapshot root id path name i p n e = cc (
  data-is_under root id path i p,
  snapshot-is_under root name n,
  ap (is_under (snapshots_dir root)) e,
)

data_text-ne_path : (root id p q : String) → p ≢ q → data_text root id p ≢ data_text root id q
unfolding join
data_text-ne_path root id p q n e = n (concat_cancel _ p q (concat_cancel _ _ _ e))

data_text-ne_id : (root i j path : String) → i ≢ j → data_text root i path ≢ data_text root j path
unfolding join
data_text-ne_id root i j path n e =
    n (concat_cancel _ i j (concat_cancel _ _ _ (concat_cancel_right _ _ _ e)))

pub data_path-ne_path :
    (root id p q : String)
    → PlainName id
    → PlainPath p
    → PlainPath q
    → p ≢ q
    → data_path root id p ≢ data_path root id q
data_path-ne_path root id p q i h k n e =
    data_text-ne_path (real root) id p q n
      (sym (data_path-data_text root id p i h) ∙ e ∙ data_path-data_text root id q i k)

pub data_path-ne_id :
    (root i j path : String)
    → PlainName i
    → PlainName j
    → PlainPath path
    → i ≢ j
    → data_path root i path ≢ data_path root j path
data_path-ne_id root i j path h k p n e =
    data_text-ne_id (real root) i j path n
      (sym (data_path-data_text root i path h p) ∙ e ∙ data_path-data_text root j path k p)
