-- ===== src/Runtime/Diff.antt =====
-- internal/runtime/plan.go: what DiffGeneratedFiles finds once a plan is applied.
use proxystack_go.Prelude.{
  ◌≡◌, refl, ◌∙◌, ap, codes, Text, Text_eq, text_eq_iff, text_lt, if◌then◌else◌, Bool, true, false,
  not, ◌&&◌, ◌||◌, ◌==◌, ◌⊎◌, inl, inr, Option-cases, contains, ◌∈◌, IsNodup, keep, lookup, map,
  List, [], ◌∷◌, ◌++◌, Option, none, some, Map, Answer, ok, error, arith,
}
use proxystack_go.Prelude.Sort.{any, any-sort_by, any-append}
use proxystack_go.Graph.Plan.{TargetScope}
use proxystack_go.Runtime.{
  GeneratedFile, Action, create, update, delete, no_change, FileChange, ManifestFile, Manifest,
  File, readable, unreadable, is_content_change, has_content_change, change_with, action_for,
  file_changes, deletions, old_files, manifest_file, manifest_files, manifest_file_matches_target,
  apply_changes,
}
use proxystack_go.Runtime.Apply.{
  touches, alters, differs, NoFault, apply_changes-other, apply_changes-write,
}

pub has_content_change-any :
    (changes : List FileChange) → has_content_change changes ≡ any is_content_change changes
unfolding has_content_change
has_content_change-any [] = refl
has_content_change-any (change ∷ changes) = ground (arith, has_content_change-any changes)

any-le :
    {A : Type 0} (p q : A → Bool) (xs : List A)
    → ((x : A) → q x ≡ false → p x ≡ false)
    → any q xs ≡ false
    → any p xs ≡ false
any-le p q [] le h = refl
any-le p q (x ∷ xs) le h = ground (arith, le x, any-le p q xs le)

module _ (sha : Text → Text) where
  -- What a change of a generated file is like, in view of the disk.
  abbrev pub Settled : Map Text File → List FileChange → GeneratedFile → Type 0
  Settled disk changes file =
      ((any (alters file.path) changes ≡ false) × (action_for sha disk file ≡ ok no_change))
      ⊎ ((any (touches file.path) changes ≡ true)
          × (any (differs file.path file.content) changes ≡ false))

  abbrev pub AllSettled : Map Text File → List FileChange → List GeneratedFile → Type 0
  AllSettled disk changes [] = Unit
  AllSettled disk changes (file ∷ files) = Settled disk changes file × AllSettled disk changes files

  abbrev pub paths : List GeneratedFile → List Text
  paths files = map (λ f. f.path) files

  -- The parts of a result of file_changes.
  file_changes-cons :
      (disk : Map Text File) (old : Option Manifest) (file : GeneratedFile)
      (files : List GeneratedFile) (changes : List FileChange)
      → file_changes sha disk old (file ∷ files) ≡ ok changes
      → (action : Action) × (rest : List FileChange) × (action_for sha disk file ≡ ok action)
        × (file_changes sha disk old files ≡ ok rest)
        × (changes ≡ change_with sha old file action ∷ rest)
  unfolding file_changes
  file_changes-cons disk old file files changes e =
      go (action_for sha disk file) (file_changes sha disk old files) refl refl e
    where
      go :
          (a : Answer Action) (r : Answer (List FileChange))
          → action_for sha disk file ≡ a
          → file_changes sha disk old files ≡ r
          → (elim a as (λ _. Answer (List FileChange)) [
            | error e ↦ error e
            | ok action ↦ elim r as (λ _. Answer (List FileChange)) [
              | error e ↦ error e
              | ok changes ↦ ok (change_with sha old file action ∷ changes)
            ]
          ])
            ≡ ok changes
          → (action : Action) × (rest : List FileChange) × (action_for sha disk file ≡ ok action)
            × (file_changes sha disk old files ≡ ok rest)
            × (changes ≡ change_with sha old file action ∷ rest)
      go (error t) r ea er e = absurd (ground arith)
      go (ok action) (error t) ea er e = absurd (ground arith)
      go (ok action) (ok rest) ea er e = (action, rest, ea, er, ground arith)

  -- A change of one file is one at its path.
  file_changes-touches :
      (disk : Map Text File) (old : Option Manifest) (files : List GeneratedFile)
      (changes : List FileChange) (path : Text)
      → file_changes sha disk old files ≡ ok changes
      → any (touches path) changes ≡ contains (paths files) path
  unfolding contains change_with
  file_changes-touches disk old [] changes path e = unfold file_changes in ground arith
  file_changes-touches disk old (file ∷ files) changes path e =
      let (action, rest, _, er, ec) = file_changes-cons disk old file files changes e in
      rw ec (ground (arith, file_changes-touches disk old files rest path er))

  action_for-delete :
      (disk : Map Text File) (file : GeneratedFile) → action_for sha disk file ≡ ok delete → ⊥
  unfolding action_for
  action_for-delete disk file e = go (lookup disk file.path) e
    where
      go :
          (found : Option File)
          → (elim found as (λ _. Answer Action) [
            | none ↦ ok create
            | some (unreadable cause) ↦ error (
                codes "generated file could not be read: "
                ++ file.path
                ++ codes " ("
                ++ cause
                ++ codes ")")
            | some (readable current) ↦
                ok (if sha current == sha file.content then no_change else update)
          ])
            ≡ ok delete
          → ⊥
      go none e = ground arith
      go (some (unreadable cause)) e = ground arith
      go (some (readable current)) e = ground arith

  -- A file is settled by the change that is made for it, if no other change touches its path.
  Settled-own :
      (disk : Map Text File) (old : Option Manifest) (file : GeneratedFile) (action : Action)
      (changes others : List FileChange)
      → action_for sha disk file ≡ ok action
      → ((p : FileChange → Bool)
          → any p changes ≡ (p (change_with sha old file action) || any p others))
      → any (touches file.path) others ≡ false
      → Settled disk changes file
  unfolding change_with is_content_change
  Settled-own disk old file delete changes others ea made alone =
      absurd (action_for-delete disk file ea)
  Settled-own disk old file no_change changes others ea made alone = inl (
    ground (
      arith,
      made (alters file.path),
      any-le (alters file.path) (touches file.path) others (λ c h. ground arith) alone,
    ),
    ea,
  )
  Settled-own disk old file create changes others ea made alone = inr (
    ground (arith, made (touches file.path), text_eq_iff file.path file.path),
    ground (
      arith,
      made (differs file.path file.content),
      text_eq_iff file.content file.content,
      any-le (differs file.path file.content) (touches file.path) others (λ c h. ground arith)
          alone,
    ),
  )
  Settled-own disk old file update changes others ea made alone = inr (
    ground (arith, made (touches file.path), text_eq_iff file.path file.path),
    ground (
      arith,
      made (differs file.path file.content),
      text_eq_iff file.content file.content,
      any-le (differs file.path file.content) (touches file.path) others (λ c h. ground arith)
          alone,
    ),
  )

  pub file_changes-AllSettled :
      (disk : Map Text File) (old : Option Manifest) (files : List GeneratedFile)
      (own others changes : List FileChange)
      → file_changes sha disk old files ≡ ok own
      → ((p : FileChange → Bool) → any p changes ≡ (any p own || any p others))
      → IsNodup (paths files)
      → ((path : Text) → path ∈ paths files → any (touches path) others ≡ false)
      → AllSettled disk changes files
  unfolding contains
  file_changes-AllSettled disk old [] own others changes e made distinct apart = tt
  file_changes-AllSettled disk old (file ∷ files) own others changes e made distinct apart =
      let (action, rest, ea, er, ec) = file_changes-cons disk old file files own e in
      let c = change_with sha old file action in
      (
        Settled-own disk old file action changes (rest ++ others) ea
            (λ p. ground (arith, made p, ap (any p) ec, any-append p rest others))
            (ground (
              arith,
              any-append (touches file.path) rest others,
              file_changes-touches disk old files rest file.path er,
              apart file.path,
              text_eq_iff file.path file.path,
            )),
        file_changes-AllSettled disk old files rest (c ∷ others) changes er
            (λ p. ground (arith, made p, ap (any p) ec)) distinct.1
            (λ path m.
              unfold change_with in
              ground (arith, apart path, distinct.0, text_eq_iff file.path path)),
      )

  action_for-same :
      (disk other : Map Text File) (file : GeneratedFile)
      → lookup disk file.path ≡ lookup other file.path
      → action_for sha disk file ≡ action_for sha other file
  unfolding action_for
  action_for-same disk other file e = elim (Option-cases (lookup other file.path)) [
    | inl missing ↦ ground (arith, e, missing)
    | inr (readable content, found) ↦ ground (arith, e, found)
    | inr (unreadable cause, found) ↦ ground (arith, e, found)
  ]

  action_for-written :
      (disk : Map Text File) (file : GeneratedFile)
      → lookup disk file.path ≡ some (readable file.content)
      → action_for sha disk file ≡ ok no_change
  unfolding action_for
  action_for-written disk file e =
      ground (arith, e, text_eq_iff (sha file.content) (sha file.content))

  -- A settled file is found as it should be once the changes are applied.
  action_for-applied :
      (fault : Text → Option Text) (fine : NoFault fault) (disk : Map Text File)
      (changes : List FileChange) (file : GeneratedFile)
      → Settled disk changes file
      → action_for sha (apply_changes fault changes disk).0 file ≡ ok no_change
  action_for-applied fault fine disk changes file (inl (same, before)) =
      action_for-same (apply_changes fault changes disk).0 disk file
        (apply_changes-other fault fine changes disk file.path same)
      ∙ before
  action_for-applied fault fine disk changes file (inr (here, only)) =
      action_for-written (apply_changes fault changes disk).0 file
        (apply_changes-write fault fine changes disk file.path file.content only (inl here))

  pub file_changes-applied :
      (fault : Text → Option Text) (fine : NoFault fault) (disk : Map Text File)
      (old : Option Manifest) (changes : List FileChange) (files : List GeneratedFile)
      → AllSettled disk changes files
      → (again : List FileChange) × (file_changes sha (apply_changes fault changes disk).0 old files
          ≡ ok again)
        × (any is_content_change again ≡ false)
  unfolding file_changes change_with is_content_change
  file_changes-applied fault fine disk old changes [] settled = ([], refl, refl)
  file_changes-applied fault fine disk old changes (file ∷ files) settled =
      let (again, e, calm) = file_changes-applied fault fine disk old changes files settled.1 in
      (
        change_with sha old file no_change ∷ again,
        ground (arith, action_for-applied fault fine disk changes file settled.0),
        calm,
      )

  -- The condition of a deletion.
  abbrev is_stale : TargetScope → List Text → ManifestFile → Bool
  is_stale scope expected file =
      manifest_file_matches_target file scope && not (contains expected file.relative_path)

  deletions-none :
      (scope : TargetScope) (expected : List Text) (files : List ManifestFile)
      → any (is_stale scope expected) files ≡ false
      → deletions sha scope expected files ≡ []
  unfolding deletions
  deletions-none scope expected [] h = refl
  deletions-none scope expected (file ∷ files) h =
      ground (arith, deletions-none scope expected files)

  -- A file of the old manifest that is in scope and is not expected leaves its deletion.
  any-keep :
      (scope : TargetScope) (expected : List Text) (files : List ManifestFile)
      → any (is_stale scope expected) (keep (λ f. not (manifest_file_matches_target f scope)) files)
        ≡ false
  any-keep scope expected [] = refl
  any-keep scope expected (file ∷ files) = ground (arith, any-keep scope expected files)

  any-manifest_file :
      (scope : TargetScope) (expected : List Text) (files : List GeneratedFile)
      → ((path : Text) → path ∈ map (λ f. f.relative_path) files → path ∈ expected)
      → any (is_stale scope expected) (map (manifest_file sha) files) ≡ false
  unfolding manifest_file contains
  any-manifest_file scope expected [] known = refl
  any-manifest_file scope expected (file ∷ files) known = ground (
    arith,
    known file.relative_path,
    text_eq_iff file.relative_path file.relative_path,
    any-manifest_file scope expected files (λ path m. known path (ground arith)),
  )

  -- The new manifest has nothing that is in scope and not expected.
  pub deletions-manifest_files :
      (scope : TargetScope) (files : List GeneratedFile) (old : Option Manifest)
      → deletions sha scope (map (λ f. f.relative_path) files) (manifest_files sha scope files old)
        ≡ []
  unfolding manifest_files
  deletions-manifest_files scope files old =
      let expected = map (λ f. f.relative_path) files in
      let kept = keep (λ f. not (manifest_file_matches_target f scope)) (old_files sha old) in
      deletions-none scope expected _ (
        ground (
          arith,
          any-sort_by (λ a b. text_lt a.relative_path b.relative_path) (is_stale scope expected)
              (kept ++ map (manifest_file sha) files),
          any-append (is_stale scope expected) kept (map (manifest_file sha) files),
          any-keep scope expected (old_files sha old),
          any-manifest_file scope expected files (λ path m. m),
        ))
