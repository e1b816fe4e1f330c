-- ===== src/Runtime.antt =====
-- internal/runtime/plan.go: which generated files change, what is applied to the disk, and the
-- manifest of what was generated. `sha` is the hexadecimal SHA-256 of the bytes and `hash_yaml` the
-- hash of a value that yaml.v3 writes. Modes are left out. The manifest file is kept decoded, and a
-- file that cannot be read is `unreadable` with the cause. An operation of the disk may fail: `fault`
-- gives the error of writing, removing or changing a path, and a failed one changes nothing, since
-- writeFileAtomic renames a finished file.
pub mod Diff
pub mod Apply
pub mod Converges
pub mod UsersOnly
use proxystack_go.Prelude.{
  ℕ, Text, Text_eq, codes, text_lt, is_empty, has_infix, strip_prefix, if◌then◌else◌, Bool, true,
  false, not, ◌||◌, ◌==◌, keep, contains, add, lookup, put, map, List, [], ◌∷◌, ◌++◌, Option, none,
  some, Map, Answer, ok, error,
}
use proxystack_go.Prelude.Sort.{sort_by}
use proxystack_go.Domain.{Stack, GlobalConfig, StackSet}
use proxystack_go.Graph.Plan.{TargetScope}

pub record GeneratedFile : Type 0 where
  pub path : Text
  pub relative_path : Text
  pub service : Text
  pub content : Text

pub data Action : Type 0 where
  create : Action
  update : Action
  delete : Action
  no_change : Action

-- The text of an action, which the changes are sorted by.
unfoldable pub action_text : Action → Text
action_text create = codes "create"
action_text update = codes "update"
action_text delete = codes "delete"
action_text no_change = codes "no-change"

pub record FileChange : Type 0 where
  pub action : Action
  pub path : Text
  pub relative_path : Text
  pub service : Text
  pub old_sha256 : Text
  pub new_sha256 : Text
  pub content : Text

pub record ManifestFile : Type 0 where
  pub path : Text
  pub relative_path : Text
  pub sha256 : Text
  pub service : Text

pub record Manifest : Type 0 where
  pub manifest_version : ℕ
  pub config_hash : Text
  pub stack_hashes : Map Text Text
  pub generated_at : Text
  pub files : List ManifestFile

abbrev pub manifest_version : ℕ
manifest_version = 1

pub data File : Type 0 where
  readable : Text → File
  unreadable : Text → File

pub record Disk : Type 0 where
  pub files : Map Text File
  pub manifest : Option Manifest

unfoldable pub first_file : Text → List ManifestFile → Option ManifestFile
first_file relative_path [] = none
first_file relative_path (file ∷ files) =
    let rest = first_file relative_path files in
    if file.relative_path == relative_path then some file else rest

unfoldable pub file_by_relative_path : Manifest → Text → Option ManifestFile
file_by_relative_path m relative_path = first_file relative_path m.files

unfoldable pub manifest_file_matches_target : ManifestFile → TargetScope → Bool
manifest_file_matches_target file scope =
    if is_empty scope.raw then true else elim (strip_prefix (codes "xray/") scope.raw) [
      | some stack ↦ file.service == codes "proxystack-xray@" ++ stack ++ codes ".service"
      | none ↦ elim (strip_prefix (codes "clash/") scope.raw) [
        | some stack ↦ file.service == codes "proxystack-clash@" ++ stack ++ codes ".service"
        | none ↦ has_infix file.service (codes "@" ++ scope.raw ++ codes ".service")
      ]
    ]

unfoldable pub is_content_change : FileChange → Bool
is_content_change change = elim change.action [ no_change ↦ false | _ ↦ true ]

unfoldable pub has_content_change : List FileChange → Bool
has_content_change [] = false
has_content_change (change ∷ changes) = is_content_change change || has_content_change changes

unfoldable pub change_less : FileChange → FileChange → Bool
change_less a b =
    if not (a.relative_path == b.relative_path)
    then text_lt a.relative_path b.relative_path
    else text_lt (action_text a.action) (action_text b.action)

-- The hash that the old manifest has for a path, "" if it has none.
unfoldable pub old_sha : Option Manifest → Text → Text
old_sha none relative_path = []
old_sha (some m) relative_path = elim (file_by_relative_path m relative_path) [
  | none ↦ []
  | some file ↦ file.sha256
]

module _ (sha : Text → Text) where
  unfoldable pub change_with : Option Manifest → GeneratedFile → Action → FileChange
  change_with old file action = record {
    action = action;
    path = file.path;
    relative_path = file.relative_path;
    service = file.service;
    old_sha256 = old_sha old file.relative_path;
    new_sha256 = sha file.content;
    content = file.content;
  }

  -- The action for one generated file.
  unfoldable pub action_for : Map Text File → GeneratedFile → Answer Action
  action_for disk file = elim (lookup disk file.path) [
    | none ↦ ok create
    | some (unreadable cause) ↦ error (
        codes "generated file could not be read: " ++ file.path ++ codes " (" ++ cause ++ codes ")")
    | some (readable current) ↦ ok (if sha current == sha file.content then no_change else update)
  ]

  -- The loop over the generated files.
  unfoldable pub file_changes :
      Map Text File → Option Manifest → List GeneratedFile → Answer (List FileChange)
  file_changes disk old [] = ok []
  file_changes disk old (file ∷ files) =
      let rest = file_changes disk old files in
      elim (action_for disk file) [
        | error e ↦ error e
        | ok action ↦ elim rest [
          | error e ↦ error e
          | ok changes ↦ ok (change_with old file action ∷ changes)
        ]
      ]

  unfoldable pub deletion : ManifestFile → FileChange
  deletion file = record {
    action = delete;
    path = file.path;
    relative_path = file.relative_path;
    service = file.service;
    old_sha256 = file.sha256;
    new_sha256 = [];
    content = [];
  }

  -- The loop over the files of the old manifest; `expected` are the relative paths of the files.
  unfoldable pub deletions : TargetScope → List Text → List ManifestFile → List FileChange
  deletions scope expected [] = []
  deletions scope expected (file ∷ files) =
      let rest = deletions scope expected files in
      if not (manifest_file_matches_target file scope)
      then rest
      else if contains expected file.relative_path
      then rest
      else deletion file ∷ rest

  unfoldable pub old_files : Option Manifest → List ManifestFile
  old_files none = []
  old_files (some m) = m.files

  unfoldable pub diff_generated_files :
      Map Text File → List GeneratedFile → Option Manifest → TargetScope → Answer (List FileChange)
  diff_generated_files disk files old scope = elim (file_changes disk old files) [
    | error e ↦ error e
    | ok changes ↦ ok (
        sort_by change_less
          (changes ++ deletions scope (map (λ f. f.relative_path) files) (old_files old)))
  ]

  unfoldable pub manifest_file : GeneratedFile → ManifestFile
  manifest_file file = record {
    path = file.path;
    relative_path = file.relative_path;
    sha256 = sha file.content;
    service = file.service;
  }

  -- The files of the new manifest: those of the old one out of scope, and the generated ones.
  unfoldable pub manifest_files :
      TargetScope → List GeneratedFile → Option Manifest → List ManifestFile
  manifest_files scope files old =
      sort_by (λ a b. text_lt a.relative_path b.relative_path)
        (keep (λ f. not (manifest_file_matches_target f scope)) (old_files old)
          ++ map manifest_file files)

  unfoldable pub generated_at : Option Manifest → List FileChange → Text → Text
  generated_at none changes now = now
  generated_at (some m) changes now = if has_content_change changes then now else m.generated_at

  module _ (hash_config : GlobalConfig → Text) (hash_stack : Stack → Text) where
    unfoldable pub stack_hashes : List Stack → Map Text Text → Map Text Text
    stack_hashes [] hashes = hashes
    stack_hashes (stack ∷ stacks) hashes =
        stack_hashes stacks (put stack.name (hash_stack stack) hashes)

    unfoldable pub build_manifest :
        StackSet
        → TargetScope
        → List GeneratedFile
        → Option Manifest
        → List FileChange
        → Text
        → Manifest
    build_manifest set scope files old changes now = record {
      manifest_version = manifest_version;
      config_hash = hash_config set.config;
      stack_hashes = stack_hashes set.stacks [];
      generated_at = generated_at old changes now;
      files = manifest_files scope files old;
    }

-- `delete(files, path)`
unfoldable pub remove : Text → Map Text File → Map Text File
remove path [] = []
remove path ((p, file) ∷ files) =
    let rest = remove path files in if p == path then rest else (p, file) ∷ rest

unfoldable pub apply_change : FileChange → Map Text File → Map Text File
apply_change change files = elim change.action [
  | create ↦ put change.path (readable change.content) files
  | update ↦ put change.path (readable change.content) files
  | delete ↦ remove change.path files
  | no_change ↦ files
]

-- The loop of ApplyPlan: the files, and the error that ended it.
unfoldable pub apply_changes :
    (Text → Option Text) → List FileChange → Map Text File → Map Text File × Option Text
apply_changes fault [] files = (files, none)
apply_changes fault (change ∷ changes) files = elim (fault change.path) [
  | some e ↦ (files, some e)
  | none ↦ apply_changes fault changes (apply_change change files)
]

-- ApplyPlan for a plan's changes and manifest, `manifest_path` being ManifestPath.
unfoldable pub apply_plan :
    (Text → Option Text) → Text → List FileChange → Manifest → Disk → Disk × Option Text
apply_plan fault manifest_path changes manifest disk =
    let (files, failed) = apply_changes fault changes disk.files in
    elim failed [
      | some e ↦ (record { files = files; manifest = disk.manifest }, some e)
      | none ↦ elim (fault manifest_path) [
        | some e ↦ (record { files = files; manifest = disk.manifest }, some e)
        | none ↦ (record { files = files; manifest = some manifest }, none)
      ]
    ]

-- The loop of ChangedServices, with `seen`: the services in the order of the changes.
unfoldable pub services_of : List Text → List FileChange → List Text
services_of seen [] = []
services_of seen (change ∷ changes) =
    let rest = services_of seen changes in
    let next = services_of (add change.service seen) changes in
    if not (is_content_change change) || is_empty change.service || contains seen change.service
    then rest
    else change.service ∷ next

unfoldable pub changed_services : List FileChange → List Text
changed_services changes = sort_by text_lt (services_of [] changes)
