-- ===== src/SubServer/Snapshots.antt =====
-- internal/subserver/watcher.go: what sameSnapshot decides of two snapshots of a directory.
use proxystack_go.Prelude.{
  ◌≡◌, refl, sym, ap, ◌∙◌, inl, inr, ◌↔◌, ℕ, suc, ◌≤◌, Text, Text_eq, text_eq_iff, is_some, length,
  length-le_of_subset, if◌then◌else◌, true, not, ◌||◌, ◌==◌, ◌∈◌, contains, lookup, lookup-put, put,
  IsNodup, map, List, [], ◌∷◌, Option, none, some, Bool-cases, Option-cases, arith,
}
use proxystack_go.SubServer.Watcher.{
  is_input_change, FileEntry, Snapshot, scan_entries, scan_snapshot, times_agree, same_snapshot,
}

abbrev names_of : Snapshot → List Text
names_of s = map (λ entry. entry.0) s

length-names_of : (s : Snapshot) → length (names_of s) ≡ length s
length-names_of [] = refl
length-names_of (entry ∷ s) = ap suc (length-names_of s)

contains-names_of :
    (s : Snapshot) (name : Text) → contains (names_of s) name ≡ is_some (lookup s name)
unfolding contains lookup
contains-names_of [] name = refl
contains-names_of ((other, time) ∷ s) name = ground (arith, contains-names_of s name)

contains-put :
    (name : Text) (time : ℕ) (s : Snapshot) (other : Text)
    → contains (names_of (put name time s)) other ≡ (name == other || contains (names_of s) other)
contains-put name time s other =
    contains-names_of (put name time s) other
    ∙ ground (arith, lookup-put name time s other, contains-names_of s other)

put-IsNodup :
    (name : Text) (time : ℕ) (s : Snapshot)
    → IsNodup (names_of s)
    → IsNodup (names_of (put name time s))
unfolding put contains
put-IsNodup name time [] h = (refl, tt)
put-IsNodup name time ((other, old) ∷ s) h = elim (Bool-cases (other == name)) [
  | inl same ↦ ground (arith, h, same, text_eq_iff other name)
  | inr different ↦ ground (
    arith,
    h,
    different,
    put-IsNodup name time s,
    contains-put name time s other,
    text_eq_iff other name,
    text_eq_iff name other,
  )
]

scan_entries-IsNodup :
    (entries : List FileEntry) (s : Snapshot)
    → IsNodup (names_of s)
    → IsNodup (names_of (scan_entries entries s))
unfolding scan_entries
scan_entries-IsNodup [] s h = h
scan_entries-IsNodup (entry ∷ entries) s h = scan_entries-IsNodup entries _ (next entry.mod_time)
  where
    next :
        (mod_time : Option ℕ)
        → IsNodup (
            names_of (
              if entry.is_dir || not (is_input_change entry.name)
              then s
              else (elim mod_time as (λ _. Snapshot) [
                | none ↦ s
                | some time ↦ put entry.name time s
              ])))
    next none = ground (arith, h)
    next (some time) = ground (arith, h, put-IsNodup entry.name time s h)

scan_snapshot-IsNodup :
    (entries : Option (List FileEntry)) → IsNodup (names_of (scan_snapshot entries))
unfolding scan_snapshot
scan_snapshot-IsNodup none = tt
scan_snapshot-IsNodup (some entries) = scan_entries-IsNodup entries [] tt

times_agree-lookup :
    (left right : Snapshot) (name : Text) (time : ℕ)
    → times_agree left right ≡ true
    → lookup left name ≡ some time
    → lookup right name ≡ some time
unfolding times_agree lookup
times_agree-lookup [] right name time h e = absurd (ground arith)
times_agree-lookup ((other, t) ∷ left) right name time h e =
    elim (Option-cases (lookup right other)) [
      | inl missing ↦ absurd (ground (arith, h, missing))
      | inr (u, found) ↦
          ground
            (arith, h, e, found, text_eq_iff other name, times_agree-lookup left right name time)
    ]

times_agree_complete :
    (left right : Snapshot)
    → IsNodup (names_of left)
    → ((name : Text) → is_some (lookup left name) ≡ true → lookup right name ≡ lookup left name)
    → times_agree left right ≡ true
unfolding times_agree lookup
times_agree_complete [] right n h = refl
times_agree_complete ((name, time) ∷ left) right n h =
    let rest = times_agree_complete left right n.1 λ other e.
      ground (arith, h other, e, n.0, contains-names_of left other, text_eq_iff name other) in
    ground (arith, h name, text_eq_iff name name, rest)

-- The names of one snapshot all stand in another, if the first is looked up there.
names_of-subset :
    (left right : Snapshot)
    → IsNodup (names_of left)
    → ((name : Text) → is_some (lookup left name) ≡ true → is_some (lookup right name) ≡ true)
    → length left ≤ length right
names_of-subset left right n sub =
    let shorter =
      length-le_of_subset (names_of left) (names_of right) n
        λ name m. contains-names_of right name ∙ sub name (sym (contains-names_of left name) ∙ m) in
    omega (arith, shorter, length-names_of left, length-names_of right)

same_times :
    (left right : Snapshot)
    → IsNodup (names_of left)
    → length left ≡ length right
    → times_agree left right ≡ true
    → (name : Text) → lookup left name ≡ lookup right name
unfolding contains
same_times left right n lengths agree name = elim (Option-cases (lookup left name)) [
  | inr (time, found) ↦ found ∙ sym (times_agree-lookup left right name time agree found)
  | inl missing ↦ elim (Option-cases (lookup right name)) [
    | inl absent ↦ missing ∙ sym absent
    | inr (time, found) ↦ absurd (too_many missing found)
  ]
]
  where
    too_many : {time : ℕ} → lookup left name ≡ none → lookup right name ≡ some time → ⊥
    too_many missing found =
        let longer =
          length-le_of_subset (name ∷ names_of left) (names_of right)
            (contains-names_of left name ∙ ap is_some missing, n) λ other m. inside other m in
        omega (arith, longer, length-names_of left, length-names_of right, lengths)
      where
        inside : (other : Text) → other ∈ (name ∷ names_of left) → other ∈ names_of right
        inside other m = elim (Option-cases (lookup left other)) [
          | inr (t, e) ↦
              contains-names_of right other
              ∙ ap is_some (times_agree-lookup left right other t agree e)
          | inl absent ↦ ground (
            arith,
            m,
            absent,
            found,
            contains-names_of left other,
            contains-names_of right other,
            text_eq_iff name other,
          )
        ]

-- sameSnapshot of two snapshots that scanSnapshot takes says exactly whether they have the same
-- files with the same modification times.
pub same_snapshot_lem :
    (before after : Option (List FileEntry))
    → (same_snapshot (scan_snapshot before) (scan_snapshot after) ≡ true)
      ↔ ((name : Text) → lookup (scan_snapshot before) name ≡ lookup (scan_snapshot after) name)
unfolding same_snapshot
same_snapshot_lem before after =
    let left = scan_snapshot before in
    let right = scan_snapshot after in
    let n = scan_snapshot-IsNodup before in
    let m = scan_snapshot-IsNodup after in
    (
      λ e. same_times left right n (ground (arith, e)) (ground (arith, e)),
      λ same.
          let shorter = names_of-subset left right n λ name e. sym (ap is_some (same name)) ∙ e in
          let longer = names_of-subset right left m λ name e. ap is_some (same name) ∙ e in
          ground
            (arith, shorter, longer, times_agree_complete left right n λ name e. sym (same name)),
    )
