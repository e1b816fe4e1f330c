-- ===== src/Runtime/Apply.antt =====
-- internal/runtime/plan.go: what ApplyPlan leaves at a path.
use proxystack_go.Prelude.{
  ◌≡◌, refl, Text, Text_eq, text_eq_iff, Bool, true, false, not, ◌&&◌, ◌==◌, ◌⊎◌, inl, inr,
  Bool-cases, lookup, lookup-put, put, List, [], ◌∷◌, Option, none, some, Map, arith,
}
use proxystack_go.Prelude.Sort.{any}
use proxystack_go.Runtime.{
  Action, create, update, delete, no_change, FileChange, File, readable, is_content_change, remove,
  apply_change, apply_changes,
}

abbrev pub touches : Text → FileChange → Bool
touches path change = change.path == path

abbrev pub is_write : Action → Bool
is_write create = true
is_write update = true
is_write delete = false
is_write no_change = false

-- The change is one of the path's content.
abbrev pub alters : Text → FileChange → Bool
alters path change = change.path == path && is_content_change change

-- The change is at the path and does not write `content`.
abbrev pub differs : Text → Text → FileChange → Bool
differs path content change =
    change.path == path && not (is_write change.action && change.content == content)

abbrev pub NoFault : (Text → Option Text) → Type 0
NoFault fault = (path : Text) → fault path ≡ none

lookup-remove :
    (path : Text) (files : Map Text File) (other : Text)
    → path == other ≡ false
    → lookup (remove path files) other ≡ lookup files other
unfolding remove lookup
lookup-remove path [] other ne = refl
lookup-remove path ((p, file) ∷ files) other ne = ground (
  arith,
  lookup-remove path files other ne,
  text_eq_iff p path,
  text_eq_iff p other,
  text_eq_iff path other,
)

pub apply_change-other :
    (change : FileChange) (files : Map Text File) (path : Text)
    → alters path change ≡ false
    → lookup (apply_change change files) path ≡ lookup files path
unfolding apply_change is_content_change
apply_change-other change files path same = go change.action same
  where
    go :
        (action : Action)
        → (change.path == path && elim action [ no_change ↦ false | _ ↦ true ]) ≡ false
        → lookup
            (elim action as (λ _. Map Text File) [
              | create ↦ put change.path (readable change.content) files
              | update ↦ put change.path (readable change.content) files
              | delete ↦ remove change.path files
              | no_change ↦ files
            ])
            path
          ≡ lookup files path
    go create same = ground (arith, lookup-put change.path (readable change.content) files path)
    go update same = ground (arith, lookup-put change.path (readable change.content) files path)
    go delete same = lookup-remove change.path files path (ground arith)
    go no_change same = refl

apply_change-write :
    (change : FileChange) (files : Map Text File) (path content : Text)
    → touches path change ≡ true
    → differs path content change ≡ false
    → lookup (apply_change change files) path ≡ some (readable content)
unfolding apply_change
apply_change-write change files path content here same = go change.action same
  where
    go :
        (action : Action)
        → (change.path == path && not (is_write action && change.content == content)) ≡ false
        → lookup
            (elim action as (λ _. Map Text File) [
              | create ↦ put change.path (readable change.content) files
              | update ↦ put change.path (readable change.content) files
              | delete ↦ remove change.path files
              | no_change ↦ files
            ])
            path
          ≡ some (readable content)
    go create same = ground (
      arith,
      lookup-put change.path (readable change.content) files path,
      text_eq_iff change.content content,
    )
    go update same = ground (
      arith,
      lookup-put change.path (readable change.content) files path,
      text_eq_iff change.content content,
    )
    go delete same = absurd (ground arith)
    go no_change same = absurd (ground arith)

module _ (fault : Text → Option Text) (fine : NoFault fault) where
  apply_changes-step :
      (change : FileChange) (changes : List FileChange) (files : Map Text File)
      → apply_changes fault (change ∷ changes) files
        ≡ apply_changes fault changes (apply_change change files)
  unfolding apply_changes
  apply_changes-step change changes files = ground (arith, fine change.path)

  pub apply_changes-ends :
      (changes : List FileChange) (files : Map Text File)
      → (apply_changes fault changes files).1 ≡ none
  unfolding apply_changes
  apply_changes-ends [] files = refl
  apply_changes-ends (change ∷ changes) files =
      rw (apply_changes-step change changes files)
        (apply_changes-ends changes (apply_change change files))

  -- A path that no change alters keeps its file.
  pub apply_changes-other :
      (changes : List FileChange) (files : Map Text File) (path : Text)
      → any (alters path) changes ≡ false
      → lookup (apply_changes fault changes files).0 path ≡ lookup files path
  unfolding apply_changes
  apply_changes-other [] files path same = refl
  apply_changes-other (change ∷ changes) files path same =
      rw (apply_changes-step change changes files) (
        ground (
          arith,
          apply_changes-other changes (apply_change change files) path,
          apply_change-other change files path,
        ))

  -- A path that is written, and only with the content, holds the content.
  pub apply_changes-write :
      (changes : List FileChange) (files : Map Text File) (path content : Text)
      → any (differs path content) changes ≡ false
      → (any (touches path) changes ≡ true) ⊎ (lookup files path ≡ some (readable content))
      → lookup (apply_changes fault changes files).0 path ≡ some (readable content)
  unfolding apply_changes
  apply_changes-write [] files path content same (inl none_there) = absurd (ground arith)
  apply_changes-write [] files path content same (inr there) = there
  apply_changes-write (change ∷ changes) files path content same start =
      rw (apply_changes-step change changes files) (
        apply_changes-write changes (apply_change change files) path content (ground arith)
          (elim (Bool-cases (touches path change)) [
            | inl here ↦ inr (apply_change-write change files path content here (ground arith))
            | inr elsewhere ↦ elim start [
              | inl later ↦ inl (ground arith)
              | inr there ↦ inr (ground (arith, apply_change-other change files path))
            ]
          ]))
