-- ===== src/Runtime/Converges.antt =====
-- internal/runtime/plan.go: a plan that is applied leaves nothing to change, and a failed one leaves
-- the manifest.
use proxystack_go.Prelude.{
  ◌≡◌, ◌≢◌, refl, ◌∙◌, ap, Text, Text_eq, Bool, false, not, ◌&&◌, ◌==◌, ◌⊎◌, inl, inr, Option-cases,
  contains, ◌∈◌, IsNodup, map, List, [], ◌∷◌, ◌++◌, Option, none, some, Map, Answer, ok, error,
  arith,
}
use proxystack_go.Prelude.Sort.{any, any-sort_by, any-append, sort_by}
use proxystack_go.Domain.{Stack, GlobalConfig, StackSet}
use proxystack_go.Graph.Plan.{TargetScope}
use proxystack_go.Runtime.{
  GeneratedFile, FileChange, ManifestFile, Manifest, File, Disk, is_content_change,
  has_content_change, change_less, file_changes, deletion, deletions, old_files,
  diff_generated_files, apply_changes, apply_plan, build_manifest, manifest_files,
}
use proxystack_go.Runtime.Apply.{touches, NoFault, apply_changes-ends}
use proxystack_go.Runtime.Diff.{
  paths, file_changes-AllSettled, file_changes-applied, deletions-manifest_files,
  has_content_change-any,
}

-- A file of the old manifest at the path, with a relative path that is not expected.
abbrev pub is_foreign : List Text → Text → ManifestFile → Bool
is_foreign expected path file = file.path == path && not (contains expected file.relative_path)

-- The two ends of ApplyPlan.
apply_plan-cases :
    (fault : Text → Option Text) (manifest_path : Text) (changes : List FileChange)
    (manifest : Manifest) (disk : Disk)
    → (r : Disk × Option Text) × (apply_plan fault manifest_path changes manifest disk ≡ r)
      × (r.0.files ≡ (apply_changes fault changes disk.files).0)
      × (((r.1 ≡ none) × (r.0.manifest ≡ some manifest))
          ⊎ ((r.1 ≢ none) × (r.0.manifest ≡ disk.manifest)))
unfolding apply_plan
apply_plan-cases fault manifest_path changes manifest disk =
    elim (Option-cases (apply_changes fault changes disk.files).1) [
      | inr (e, failed) ↦ (
        (
          record { files = (apply_changes fault changes disk.files).0; manifest = disk.manifest },
          some e,
        ),
        ground (arith, failed),
        refl,
        inr (λ x. ground arith, refl),
      )
      | inl fine ↦ elim (Option-cases (fault manifest_path)) [
        | inr (e, failed) ↦ (
          (
            record { files = (apply_changes fault changes disk.files).0; manifest = disk.manifest },
            some e,
          ),
          ground (arith, fine, failed),
          refl,
          inr (λ x. ground arith, refl),
        )
        | inl written ↦ (
          (
            record { files = (apply_changes fault changes disk.files).0; manifest = some manifest },
            none,
          ),
          ground (arith, fine, written),
          refl,
          inl (refl, refl),
        )
      ]
    ]

-- Whatever fails, ApplyPlan writes the manifest if it reports no error, and keeps the old one if it
-- reports an error.
pub apply_plan-atomic :
    (fault : Text → Option Text) (manifest_path : Text) (changes : List FileChange)
    (manifest : Manifest) (disk : Disk)
    → (((apply_plan fault manifest_path changes manifest disk).1 ≡ none)
        × ((apply_plan fault manifest_path changes manifest disk).0.manifest ≡ some manifest))
      ⊎ (((apply_plan fault manifest_path changes manifest disk).1 ≢ none)
          × ((apply_plan fault manifest_path changes manifest disk).0.manifest ≡ disk.manifest))
apply_plan-atomic fault manifest_path changes manifest disk =
    let (r, e, files, ends) = apply_plan-cases fault manifest_path changes manifest disk in
    rw e ends

-- The files and the manifest that a plan without faults leaves.
apply_plan-fine :
    (fault : Text → Option Text) (manifest_path : Text) (changes : List FileChange)
    (manifest : Manifest) (disk : Disk)
    → NoFault fault
    → apply_plan fault manifest_path changes manifest disk ≡ (
      record { files = (apply_changes fault changes disk.files).0; manifest = some manifest },
      none,
    )
unfolding apply_plan
apply_plan-fine fault manifest_path changes manifest disk fine =
    ground (arith, apply_changes-ends fault fine changes disk.files, fine manifest_path)

module _ (sha : Text → Text) where
  deletions-touches :
      (scope : TargetScope) (expected : List Text) (path : Text) (files : List ManifestFile)
      → any (is_foreign expected path) files ≡ false
      → any (touches path) (deletions sha scope expected files) ≡ false
  unfolding deletions deletion
  deletions-touches scope expected path [] h = refl
  deletions-touches scope expected path (file ∷ files) h =
      ground (arith, deletions-touches scope expected path files)

  diff-changes :
      (disk : Map Text File) (files : List GeneratedFile) (old : Option Manifest)
      (scope : TargetScope) (changes : List FileChange)
      → diff_generated_files sha disk files old scope ≡ ok changes
      → (own : List FileChange) × (file_changes sha disk old files ≡ ok own)
        × (changes
            ≡ sort_by change_less
                (own ++ deletions sha scope (map (λ f. f.relative_path) files) (old_files sha old)))
  unfolding diff_generated_files
  diff-changes disk files old scope changes e = go (file_changes sha disk old files) refl e
    where
      go :
          (r : Answer (List FileChange))
          → file_changes sha disk old files ≡ r
          → (elim r as (λ _. Answer (List FileChange)) [
            | error t ↦ error t
            | ok own ↦ ok (
                sort_by change_less (
                  own
                  ++ deletions sha scope (map (λ f. f.relative_path) files) (old_files sha old)))
          ])
            ≡ ok changes
          → (own : List FileChange) × (file_changes sha disk old files ≡ ok own)
            × (changes
                ≡ sort_by change_less (
                    own
                    ++ deletions sha scope (map (λ f. f.relative_path) files) (old_files sha old)))
      go (error t) er e = absurd (ground arith)
      go (ok own) er e = (own, er, ground arith)

  diff-of :
      (disk : Map Text File) (files : List GeneratedFile) (old : Option Manifest)
      (scope : TargetScope) (own : List FileChange)
      → file_changes sha disk old files ≡ ok own
      → diff_generated_files sha disk files old scope
        ≡ ok (
            sort_by change_less
              (own ++ deletions sha scope (map (λ f. f.relative_path) files) (old_files sha old)))
  unfolding diff_generated_files
  diff-of disk files old scope own e = ground (arith, e)

  module _ (hash_config : GlobalConfig → Text) (hash_stack : Stack → Text) where
    -- Applying a plan without a fault of the disk reports no error, and on what it leaves, for the
    -- same generated files and target, DiffGeneratedFiles answers and finds nothing to change. The
    -- generated files have different paths, and what the old manifest lists at such a path has the
    -- relative path of a generated file.
    pub diff-apply_plan :
        (fault : Text → Option Text) (manifest_path : Text) (disk : Disk) (set : StackSet)
        (scope : TargetScope) (files : List GeneratedFile) (now : Text) (changes : List FileChange)
        → NoFault fault
        → IsNodup (paths sha files)
        → ((path : Text)
            → path ∈ paths sha files
            → any (is_foreign (map (λ f. f.relative_path) files) path) (old_files sha disk.manifest)
              ≡ false)
        → diff_generated_files sha disk.files files disk.manifest scope ≡ ok changes
        → (after : Disk) × (apply_plan fault manifest_path changes
              (build_manifest sha hash_config hash_stack set scope files disk.manifest changes now)
              disk
            ≡ (after, none))
          × (again : List FileChange) × (diff_generated_files sha after.files files after.manifest
                scope
              ≡ ok again)
          × (has_content_change again ≡ false)
    unfolding build_manifest old_files
    diff-apply_plan fault manifest_path disk set scope files now changes fine distinct apart e =
        let manifest =
          build_manifest sha hash_config hash_stack set scope files disk.manifest changes now in
        let expected = map (λ f. f.relative_path) files in
        let (own, e_own, e_changes) = diff-changes disk.files files disk.manifest scope changes e in
        let gone = deletions sha scope expected (old_files sha disk.manifest) in
        let settled =
          file_changes-AllSettled sha disk.files disk.manifest files own gone changes e_own
            (λ p.
              ap (any p) e_changes
              ∙ any-sort_by change_less p (own ++ gone)
              ∙ any-append p own gone)
            distinct
            (λ path m.
              deletions-touches scope expected path (old_files sha disk.manifest) (apart path m)) in
        let (again, e_again, calm) =
          file_changes-applied sha fault fine disk.files (some manifest) changes files settled in
        (
          record { files = (apply_changes fault changes disk.files).0; manifest = some manifest },
          apply_plan-fine fault manifest_path changes manifest disk fine,
          sort_by change_less (
              again ++ deletions sha scope expected (manifest_files sha scope files disk.manifest)),
          diff-of (apply_changes fault changes disk.files).0 files (some manifest) scope again
              e_again,
          calm_after scope files disk again calm,
        )
      where
        calm_after :
            (scope : TargetScope) (files : List GeneratedFile) (disk : Disk)
            (again : List FileChange)
            → any is_content_change again ≡ false
            → has_content_change (
                sort_by change_less (
                  again
                  ++ deletions sha scope
                      (map (λ f. f.relative_path) files)
                      (manifest_files sha scope files disk.manifest)))
              ≡ false
        calm_after scope files disk again calm =
            let gone =
              deletions sha scope (map (λ f. f.relative_path) files)
                (manifest_files sha scope files disk.manifest) in
            has_content_change-any (sort_by change_less (again ++ gone))
            ∙ any-sort_by change_less is_content_change (again ++ gone)
            ∙ ground (
              arith,
              any-append is_content_change again gone,
              calm,
              ap (any is_content_change) (deletions-manifest_files sha scope files disk.manifest),
            )
