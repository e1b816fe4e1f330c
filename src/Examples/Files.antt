-- ===== src/Examples/Files.antt =====
-- internal/runtime: the theorems on plans, applied to a disk with one file to write and one to delete.
use proxystack_go.Prelude.{
  ◌≡◌, ◌≢◌, refl, Text, Text_eq, text_eq_iff, codes, false, ◌==◌, if◌then◌else◌, contains, lookup,
  List, [], ◌∷◌, Option, none, some, ok, arith, ◌⊎◌,
}
use proxystack_go.Domain.{Stack, GlobalConfig}
use proxystack_go.Graph.Plan.{TargetScope}
use proxystack_go.Runtime.{
  GeneratedFile, FileChange, update, delete, ManifestFile, Manifest, readable, Disk,
  diff_generated_files, apply_plan, build_manifest, has_content_change, old_files,
}
use proxystack_go.Runtime.Converges.{diff-apply_plan, apply_plan-atomic}
use proxystack_go.Examples.Samples.{two_stacks}

abbrev as_it_is : Text → Text
as_it_is s = s

abbrev hash_config : GlobalConfig → Text
hash_config c = []

abbrev hash_stack : Stack → Text
hash_stack s = s.name

abbrev no_fault : Text → Option Text
no_fault path = none

-- The disk refuses to write `/m`.
abbrev full_disk : Text → Option Text
full_disk path = if path == codes "/m" then some (codes "full") else none

abbrev everything : TargetScope
everything = record { raw = []; nodes = [] }

abbrev new_file : GeneratedFile
new_file = record {
  path = codes "/x";
  relative_path = codes "x";
  service = codes "s";
  content = codes "new";
}

abbrev stale_file : ManifestFile
stale_file = record {
  path = codes "/y";
  relative_path = codes "y";
  sha256 = codes "gone";
  service = codes "t";
}

abbrev old_manifest : Manifest
old_manifest = record {
  manifest_version = 1;
  config_hash = [];
  stack_hashes = [];
  generated_at = codes "then";
  files = stale_file ∷ [];
}

abbrev old_disk : Disk
old_disk = record {
  files = (codes "/x", readable (codes "old")) ∷ (codes "/y", readable (codes "gone")) ∷ [];
  manifest = some old_manifest;
}

abbrev write_x : FileChange
write_x = record {
  action = update;
  path = codes "/x";
  relative_path = codes "x";
  service = codes "s";
  old_sha256 = [];
  new_sha256 = codes "new";
  content = codes "new";
}

abbrev delete_y : FileChange
delete_y = record {
  action = delete;
  path = codes "/y";
  relative_path = codes "y";
  service = codes "t";
  old_sha256 = codes "gone";
  new_sha256 = [];
  content = [];
}

diff_example :
    diff_generated_files as_it_is old_disk.files (new_file ∷ []) (some old_manifest) everything
    ≡ ok (write_x ∷ delete_y ∷ [])
unfolding proxystack_go.Prelude.contains proxystack_go.Prelude.add proxystack_go.Prelude.lookup
    proxystack_go.Prelude.put proxystack_go.Prelude.text_eq proxystack_go.Prelude.text_lt
    proxystack_go.Prelude.strip_prefix proxystack_go.Prelude.has_prefix
    proxystack_go.Prelude.has_infix proxystack_go.Prelude.decimal
    proxystack_go.Prelude.Sort.insert_by proxystack_go.Prelude.Sort.sort_by
    proxystack_go.Runtime.action_text proxystack_go.Runtime.first_file
    proxystack_go.Runtime.file_by_relative_path proxystack_go.Runtime.manifest_file_matches_target
    proxystack_go.Runtime.is_content_change proxystack_go.Runtime.has_content_change
    proxystack_go.Runtime.change_less proxystack_go.Runtime.old_sha
    proxystack_go.Runtime.change_with proxystack_go.Runtime.action_for
    proxystack_go.Runtime.file_changes proxystack_go.Runtime.deletion
    proxystack_go.Runtime.deletions proxystack_go.Runtime.old_files
    proxystack_go.Runtime.diff_generated_files proxystack_go.Runtime.manifest_file
    proxystack_go.Runtime.manifest_files proxystack_go.Runtime.generated_at
    proxystack_go.Runtime.stack_hashes proxystack_go.Runtime.build_manifest
    proxystack_go.Runtime.remove proxystack_go.Runtime.apply_change
    proxystack_go.Runtime.apply_changes proxystack_go.Runtime.apply_plan
    proxystack_go.Runtime.services_of proxystack_go.Runtime.changed_services
diff_example = refl

diff-apply_plan_example :
    (after : Disk) × (apply_plan no_fault
        (codes "/m")
        (write_x ∷ delete_y ∷ [])
        (build_manifest as_it_is hash_config hash_stack two_stacks everything
          (new_file ∷ [])
          (some old_manifest)
          (write_x ∷ delete_y ∷ [])
          (codes "now"))
        old_disk
      ≡ (after, none))
    × (again : List FileChange) × (diff_generated_files as_it_is after.files
          (new_file ∷ [])
          after.manifest
          everything
        ≡ ok again)
    × (has_content_change again ≡ false)
unfolding contains proxystack_go.Prelude.text_eq old_files
diff-apply_plan_example =
    diff-apply_plan as_it_is hash_config hash_stack no_fault (codes "/m") old_disk two_stacks
      everything (new_file ∷ []) (codes "now") (write_x ∷ delete_y ∷ []) (λ path. refl) (refl, tt)
      (λ path m. ground (arith, text_eq_iff (codes "/y") path, text_eq_iff (codes "/x") path))
      diff_example

apply_plan-atomic_example :
    (((apply_plan full_disk (codes "/m") (write_x ∷ []) old_manifest old_disk).1 ≡ none)
      × ((apply_plan full_disk (codes "/m") (write_x ∷ []) old_manifest old_disk).0.manifest
          ≡ some old_manifest))
    ⊎ (((apply_plan full_disk (codes "/m") (write_x ∷ []) old_manifest old_disk).1 ≢ none)
        × ((apply_plan full_disk (codes "/m") (write_x ∷ []) old_manifest old_disk).0.manifest
            ≡ some old_manifest))
apply_plan-atomic_example =
    apply_plan-atomic full_disk (codes "/m") (write_x ∷ []) old_manifest old_disk
