-- ===== src/SubServer/Requests.antt =====
-- internal/subserver/server.go: how a request for a subscription is answered. The renderers of
-- internal/generator/sub and net/url.PathEscape are parameters.
use proxystack_go.Prelude.{
  ℕ, Text, Text_eq, codes, is_empty, is_some, if◌then◌else◌, Bool, not, ◌&&◌, ◌||◌, ◌==◌, List, [],
  ◌∷◌, ◌++◌, Option, none, some, Answer, ok, error,
}
use proxystack_go.Prelude.Paths.{split_on, trim_both, trim_right}
use proxystack_go.Sub.{Index}
use proxystack_go.Sub.Merge.{nodes_of}
use proxystack_go.SubServer.{State, snapshot}
use proxystack_go.SubServer.Settings.{AccessConfig, SubServerConfig, enabled_value}

-- The kinds of subscription that NewRouter registers, each under a prefix.
pub data Kind : Type 0 where
  clash : Kind
  premium : Kind
  surge : Kind

unfoldable pub route_prefix : Kind → Text
route_prefix clash = codes "/sub"
route_prefix premium = codes "/premium_sub"
route_prefix surge = codes "/surge_sub"

-- What the handlers read of a request.
pub record Request : Type 0 where
  pub rest : Text
  pub forwarded_proto : Text
  pub has_tls : Bool
  pub host : Text
  pub request_uri : Text

-- The status and the code of an error, the text of a subscription, or the status of the server.
pub data Response : Type 0 where
  failure : ℕ → Text → Text → Response
  body : Text → Response
  health : Text → Bool → Response

-- The token, empty where there is none, and the user.
unfoldable pub path_of_parts : List Text → Option (Text × Text)
path_of_parts [] = none
path_of_parts (user ∷ []) = some ([], user)
path_of_parts (token ∷ user ∷ []) =
    if not (is_empty token) && not (is_empty user) then some (token, user) else none
path_of_parts (token ∷ user ∷ other ∷ parts) = none

unfoldable pub parse_subscription_path : Text → Option (Text × Text)
parse_subscription_path rest =
    let trimmed = trim_both b'/' rest in
    if is_empty trimmed then none else path_of_parts (split_on b'/' trimmed)

-- The response of a request that is refused.
unfoldable pub authorize : AccessConfig → Text → Option Response
authorize access path_token =
    if is_empty access.type || access.type == codes "none"
    then none
    else if is_empty path_token
    then some (failure 401 (codes "unauthorized") (codes "subscription token required"))
    else if not (path_token == access.token)
    then some (failure 403 (codes "forbidden") (codes "subscription token invalid"))
    else none

unfoldable pub not_found : Response
not_found = failure 404 (codes "not_found") (codes "subscription not found")

unfoldable pub scheme_of : Request → Text
scheme_of request =
    if not (is_empty request.forwarded_proto)
    then request.forwarded_proto
    else if request.has_tls
    then codes "https"
    else codes "http"

unfoldable pub managed_config_url : (Text → Text) → SubServerConfig → Request → Text → Text
managed_config_url path_escape config request user =
    let base_url = trim_right b'/' config.managed_config.public_base_url in
    if not (is_empty base_url)
    then (if config.access.type == codes "token"
        then base_url
          ++ codes "/surge_sub/"
          ++ path_escape config.access.token
          ++ codes "/"
          ++ path_escape user
        else base_url ++ codes "/surge_sub/" ++ path_escape user)
    else scheme_of request ++ codes "://" ++ request.host ++ request.request_uri

unfoldable pub health_handler : State → Response
health_handler s =
    let (index, users, last_error) = snapshot s in
    health (if is_empty last_error then codes "ok" else codes "error") (is_some index)

-- The renderers of the index for a user; the last text is the URL of a managed config.
pub record Renderers : Type 0 where
  pub render : Kind → SubServerConfig → Index → Text → Text → Answer Text

module _ (renderers : Renderers) (path_escape : Text → Text) where
  unfoldable pub managed_url : SubServerConfig → Kind → Request → Text → Text
  managed_url config clash request user = []
  managed_url config premium request user = []
  managed_url config surge request user =
      if enabled_value config.managed_config
      then managed_config_url path_escape config request user
      else []

  unfoldable pub rendered_response : Answer Text → Response
  rendered_response (error e) =
      failure 503 (codes "template_error") (codes "subscription template unavailable")
  rendered_response (ok text) = body text

  -- The handler behind authorize.
  unfoldable pub answer_user : Option Index → SubServerConfig → Kind → Request → Text → Response
  answer_user none config kind request user =
      failure 503 (codes "index_unavailable") (codes "subscription index unavailable")
  answer_user (some index) config kind request user =
      if is_empty (nodes_of index.users user)
      then not_found
      else rendered_response
          (renderers.render kind config index user (managed_url config kind request user))

  unfoldable pub subscription_handler : State → SubServerConfig → Kind → Request → Response
  subscription_handler s config kind request = elim (parse_subscription_path request.rest) [
    | none ↦ not_found
    | some (token, user) ↦ elim (authorize config.access token) [
      | some refusal ↦ refusal
      | none ↦ answer_user (snapshot s).0 config kind request user
    ]
  ]

  -- subscriptionLogUser: what the log names of a request.
  unfoldable pub subscription_log_user : Request → Text
  subscription_log_user request = elim (parse_subscription_path request.rest) [
    | none ↦ []
    | some (token, user) ↦ user
  ]
