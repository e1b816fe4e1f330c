-- ===== src/Config/Users.antt =====
-- internal/domain/models.go: user profiles and references to them, and internal/domain/user_refs.go:
-- their merge. A method on a pointer that normalises the profile in place gives the normalised value.
use proxystack_go.Prelude.{
  Text, Text_eq, codes, is_empty, if◌then◌else◌, not, ◌&&◌, ◌==◌, contains, add, lookup, put, List,
  [], ◌∷◌, ◌++◌, Option, none, some, Map, Answer, ok, error,
}
use proxystack_go.Domain.{UserProfile, InboundUser, InboundUserRef, Inbound}
use proxystack_go.Config.Values.{
  ◌then◌, refuse_if, validate_identifier, matches_uuid, ensure_unique,
}

abbrev pub default_user_profile : Text
default_user_profile = codes "default"

unfoldable pub normalize_user_profile : Text → Text
normalize_user_profile profile = if is_empty profile then default_user_profile else profile

-- The two names with a zero byte between them.
unfoldable pub user_profile_key : Text → Text → Text
user_profile_key user profile = user ++ 0 ∷ normalize_user_profile profile

unfoldable pub normalized_profile : UserProfile → UserProfile
normalized_profile u = record {
  user = u.user;
  profile = normalize_user_profile u.profile;
  uuid = u.uuid;
  password = u.password;
  method = u.method;
  cipher = u.cipher;
  email = u.email;
  remark = u.remark;
  display_template = u.display_template;
  tag = u.tag;
}

-- Validate, on the profile that is normalised first.
unfoldable pub validate_profile : UserProfile → Option Text
validate_profile u =
    validate_identifier u.user (codes "config user")
    then validate_identifier (normalize_user_profile u.profile) (codes "user profile")
    then refuse_if (not (is_empty u.uuid) && not (matches_uuid u.uuid))
        (codes "uuid must be a valid UUID")

-- The loop of normalizeAndValidateUserProfiles, with `seen`: the normalised users, or the error.
unfoldable pub normalize_profiles : List Text → List UserProfile → Answer (List UserProfile)
normalize_profiles seen [] = ok []
normalize_profiles seen (user ∷ users) =
    let key = user_profile_key user.user user.profile in
    let rest = normalize_profiles (add key seen) users in
    elim (validate_profile user) [
      | some e ↦ error e
      | none ↦
          if contains seen key
          then error (
              codes "duplicate config user profile: user="
              ++ user.user
              ++ codes " profile="
              ++ normalize_user_profile user.profile)
          else elim rest [ error e ↦ error e | ok others ↦ ok (normalized_profile user ∷ others) ]
    ]

unfoldable pub normalize_and_validate_user_profiles : List UserProfile → Answer (List UserProfile)
normalize_and_validate_user_profiles users = normalize_profiles [] users

unfoldable pub validate_user_ref : InboundUserRef → Option Text
validate_user_ref r =
    validate_identifier r.user (codes "user ref")
    then validate_identifier (normalize_user_profile r.profile) (codes "user ref profile")
    then refuse_if (not (is_empty r.uuid) && not (matches_uuid r.uuid))
        (codes "uuid must be a valid UUID")

unfoldable pub ref_key : InboundUserRef → Text
ref_key r = user_profile_key r.user r.profile

-- The loop of validateInboundUserRefs: the keys so far, then ensureUnique.
unfoldable pub validate_refs : List Text → List InboundUserRef → Option Text
validate_refs keys [] = ensure_unique keys (codes "duplicate user_ref")
validate_refs keys (ref ∷ refs) =
    validate_user_ref ref then validate_refs (keys ++ ref_key ref ∷ []) refs

unfoldable pub validate_inbound_user_refs : List InboundUserRef → Option Text
validate_inbound_user_refs refs = validate_refs [] refs

unfoldable pub email_or_user : InboundUser → Text
email_or_user u = if is_empty u.email then u.user else u.email

unfoldable pub profile_or_default : InboundUser → Text
profile_or_default u = normalize_user_profile u.profile

unfoldable pub first_non_empty : Text → Text → Text
first_non_empty a b = if is_empty a then b else a

unfoldable pub index_profiles : List UserProfile → Map Text UserProfile → Map Text UserProfile
index_profiles [] profiles = profiles
index_profiles (user ∷ users) profiles =
    index_profiles users
      (put (user_profile_key user.user user.profile) (normalized_profile user) profiles)

unfoldable pub user_profile_index : List UserProfile → Map Text UserProfile
user_profile_index users = index_profiles users []

unfoldable pub merge_user_ref : UserProfile → InboundUserRef → InboundUser
merge_user_ref profile ref = record {
  user = ref.user;
  profile = normalize_user_profile ref.profile;
  uuid = first_non_empty ref.uuid profile.uuid;
  password = first_non_empty ref.password profile.password;
  method = first_non_empty ref.method profile.method;
  cipher = first_non_empty ref.cipher profile.cipher;
  email = first_non_empty ref.email profile.email;
  remark = first_non_empty ref.remark profile.remark;
  display_template = first_non_empty ref.display_template profile.display_template;
  tag = first_non_empty ref.tag profile.tag;
}

unfoldable pub validate_resolved_inbound_user : Text → InboundUser → Option Text
validate_resolved_inbound_user protocol user =
    let named =
      codes " user_ref: user=" ++ user.user ++ codes " profile=" ++ profile_or_default user in
    if protocol == codes "vmess"
    then refuse_if (is_empty user.uuid) (codes "uuid is required for vmess" ++ named)
    else if protocol == codes "shadowsocks"
    then refuse_if (is_empty user.password) (codes "password is required for shadowsocks" ++ named)
    else none

unfoldable pub resolve_refs :
    Map Text UserProfile → Text → List InboundUserRef → Answer (List InboundUser)
resolve_refs profiles protocol [] = ok []
resolve_refs profiles protocol (ref ∷ refs) =
    let rest = resolve_refs profiles protocol refs in
    elim (lookup profiles (ref_key ref)) [
      | none ↦ error (
          codes "config user profile does not exist: user="
          ++ ref.user
          ++ codes " profile="
          ++ normalize_user_profile ref.profile)
      | some profile ↦ elim (validate_resolved_inbound_user protocol (merge_user_ref profile ref)) [
        | some e ↦ error e
        | none ↦ elim rest [
          | error e ↦ error e
          | ok users ↦ ok (merge_user_ref profile ref ∷ users)
        ]
      ]
    ]

unfoldable pub resolve_inbound_user_refs :
    Map Text UserProfile → Inbound → Answer (List InboundUser)
resolve_inbound_user_refs profiles inbound =
    resolve_refs profiles inbound.protocol inbound.user_refs
