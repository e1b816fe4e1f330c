-- ===== src/SubServer/Served.antt =====
-- internal/subserver: what the server answers, and which index it holds while it runs.
use proxystack_go.Prelude.{
  ◌≡◌, refl, sym, ap, ◌∙◌, ◌⊎◌, inl, inr, Text, Text_eq, text_eq_iff, codes, is_empty, Bool, true,
  false, ◌||◌, ◌==◌, keep, map, Option, none, some, Bool-cases, Option-cases, Answer, ok, error,
  IsNodup, >>=-ok, arith, ℕ,
}
use mathlib.Core.Path.{subst}
use proxystack_go.Config.Listen.{Net, parse_listen, is_loopback_host}
use proxystack_go.Config.Checks.{then-none, refuse_if-none, second}
use proxystack_go.Sub.{Access, Index, proxy_name_key, normalized_access}
use proxystack_go.Sub.Merge.{nodes_of}
use proxystack_go.Sub.Merge.Users.{of_user}
use proxystack_go.Sub.Merge.Laws.{merge_inputs_lem}
use proxystack_go.Sub.Load.{Disk, Decoders, load_inputs, merge_input_files}
use proxystack_go.SubServer.{
  State, new_state, failed, replaced, stored, merged_index, load, reload, snapshot,
}
use proxystack_go.SubServer.Settings.{
  AccessConfig, SubServerConfig, Url, validate_access_config, validate_settings,
  validate_sub_server,
}
use proxystack_go.SubServer.Requests.{
  Kind, Request, Response, body, Renderers, parse_subscription_path, authorize, not_found,
  managed_url, rendered_response, answer_user, subscription_handler,
}

-- Whether the access lets everybody in.
abbrev pub is_open : AccessConfig → Bool
is_open access = is_empty access.type || access.type == codes "none"

authorize-none :
    (access : AccessConfig) (token : Text)
    → authorize access token ≡ none
    → (is_open access ≡ true) ⊎ ((token ≡ access.token) × (is_empty token ≡ false))
unfolding authorize
authorize-none access token h = elim (Bool-cases (is_open access)) [
  | inl open_access ↦ inl open_access
  | inr closed ↦
      inr (ground (arith, h, closed, text_eq_iff token access.token), ground (arith, h, closed))
]

authorize-refuses :
    (access : AccessConfig) (token : Text) {refusal : Response} {text : Text}
    → authorize access token ≡ some refusal
    → refusal ≡ body text
    → ⊥
unfolding authorize
authorize-refuses access token refused sent = ground (arith, refused, sent)

snapshot-index : (s : State) → (snapshot s).0 ≡ s.index
unfolding snapshot
snapshot-index s = elim (Option-cases s.index) [
  | inl empty ↦ ground (arith, empty)
  | inr (i, held) ↦ ground (arith, held)
]

module _ (renderers : Renderers) (path_escape : Text → Text) where
  answer_user-body :
      (index : Option Index) (config : SubServerConfig) (kind : Kind) (request : Request)
      (user : Text) {text : Text}
      → answer_user renderers path_escape index config kind request user ≡ body text
      → (i : Index) × (index ≡ some i)
        × (is_empty (nodes_of i.users user) ≡ false)
        × (renderers.render kind config i user
              (managed_url renderers path_escape config kind request user)
            ≡ ok text)
  unfolding answer_user rendered_response not_found
  answer_user-body none config kind request user h = absurd (ground arith)
  answer_user-body (some i) config kind request user h =
      elim (Bool-cases (is_empty (nodes_of i.users user))) [
        | inl absent ↦ absurd (ground (arith, h, absent))
        | inr present ↦ (
          i,
          refl,
          present,
          rendered-body
              (renderers.render kind config i user
                (managed_url renderers path_escape config kind request user))
              (ground (arith, h, present)),
        )
      ]
    where
      rendered-body :
          (answer : Answer Text) {text : Text}
          → rendered_response renderers path_escape answer ≡ body text
          → answer ≡ ok text
      rendered-body (ok t) e = ap ok (ground (arith, e))
      rendered-body (error t) e = absurd (ground (arith, e))

  -- A subscription is sent only for a path that names a user, to a server that is open or for the
  -- token of its configuration, and it is what the renderer makes of the index that the server holds
  -- for a user that has nodes in it.
  pub subscription_handler_lem :
      (s : State) (config : SubServerConfig) (kind : Kind) (request : Request) {text : Text}
      → subscription_handler renderers path_escape s config kind request ≡ body text
      → (token : Text) × (user : Text) × (i : Index) × (parse_subscription_path request.rest
          ≡ some (token, user))
        × ((is_open config.access ≡ true)
            ⊎ ((token ≡ config.access.token) × (is_empty token ≡ false)))
        × (s.index ≡ some i)
        × (is_empty (nodes_of i.users user) ≡ false)
        × (renderers.render kind config i user
              (managed_url renderers path_escape config kind request user)
            ≡ ok text)
  unfolding subscription_handler
  subscription_handler_lem s config kind request {text = text} h =
      elim (Option-cases (parse_subscription_path request.rest)) [
        | inl unparsed ↦ absurd (unfold not_found in ground (arith, h, unparsed))
        | inr ((token, user), parsed) ↦ elim (Option-cases (authorize config.access token)) [
          | inr (refusal, refused) ↦ absurd (
              authorize-refuses config.access token {text = text} refused
                (ground (arith, h, parsed, refused)))
          | inl allowed ↦
              let (i, held, present, rendered) =
                answer_user-body (snapshot s).0 config kind request user
                  (ground (arith, h, parsed, allowed)) in
              (
                token,
                user,
                i,
                parsed,
                authorize-none config.access token allowed,
                sym (snapshot-index s) ∙ held,
                present,
                rendered,
              )
        ]
      ]

  -- A server whose configuration Validate accepts and whose listen address is not loopback sends a
  -- subscription only for a path with the token of the configuration, which is not empty.
  pub subscription_handler-token :
      (parse_url : Text → Answer Url) (net : Net) (s : State) (config : SubServerConfig)
      (kind : Kind) (request : Request) {host : Text} {port : ℕ} {text : Text}
      → validate_sub_server parse_url net config ≡ none
      → parse_listen net config.listen ≡ ok (host, port)
      → is_loopback_host net host ≡ false
      → subscription_handler renderers path_escape s config kind request ≡ body text
      → (user : Text) × (parse_subscription_path request.rest ≡ some (config.access.token, user))
        × (is_empty config.access.token ≡ false)
  unfolding validate_sub_server validate_settings validate_access_config
  subscription_handler-token parse_url net s config kind request {host = host} valid address outside
        h =
      let (token, user, i, parsed, allowed, held, some_nodes, rendered) =
        subscription_handler_lem s config kind request h in
      let settings : validate_settings parse_url net host config ≡ none =
        ground (arith, valid, address) in
      let access = (then-none _ _).0 (second _ _ (second _ _ settings)) in
      let guarded = (refuse_if-none _ _).0 ((then-none _ _).0 access.1).0 in
      elim allowed [
        | inl open_access ↦ absurd (
            ground (
              arith,
              access.0,
              guarded,
              outside,
              open_access,
              text_eq_iff config.access.type (codes "token"),
            ))
        | inr (same, present) ↦
            (user, parsed ∙ ap (λ t. some (t, user)) same, ap is_empty (sym same) ∙ present)
      ]

-- What MergeInputs guarantees of an index.
abbrev pub IsMerged : Access → Index → Type 0
IsMerged access i =
    IsNodup (map (λ n. n.id) i.nodes)
    × IsNodup (map proxy_name_key i.nodes)
    × (i.access ≡ normalized_access access)
    × ((user : Text) → nodes_of i.users user ≡ keep (of_user user) i.nodes)

module _ (decoders : Decoders) (data_dir : Text) (access : Access) where
  -- The states of a server that has started: Start returns if Load fails, and later only the watcher
  -- reloads, each time from the disk as it is then.
  pub data Serves : State → Type 0 where
    loaded :
        (disk : Disk) (now : Text)
        → (load disk decoders now (new_state data_dir access)).1 ≡ none
        → Serves (load disk decoders now (new_state data_dir access)).0
    reloaded :
        (s : State) (disk : Disk) (now : Text) → Serves s → Serves (reload disk decoders now s).0

  merged_index-IsMerged :
      (disk : Disk) (now : Text) (s : State) {i : Index}
      → merged_index disk decoders now s ≡ ok i
      → IsMerged s.access i
  unfolding merged_index merge_input_files
  merged_index-IsMerged disk now s e =
      let (files, read, merged) = >>=-ok (load_inputs disk decoders _) _ e in
      let (valid, nodes, ids, names, sources, same, users) =
        merge_inputs_lem files s.access now merged in
      (ids, names, same, users)

  abbrev Holds : State → Type 0
  Holds s = (s.access ≡ access) × (i : Index) × (s.index ≡ some i) × IsMerged access i

  load-Holds :
      (s : State) (answer : Answer Index)
      → s.access ≡ access
      → ((i : Index) → answer ≡ ok i → IsMerged s.access i)
      → (stored s answer).1 ≡ none
      → Holds (stored s answer).0
  unfolding stored replaced
  load-Holds s (error e) same right h = absurd (ground arith)
  load-Holds s (ok i) same right h = (same, i, refl, subst (λ a. IsMerged a i) same (right i refl))

  reload-Holds :
      (s : State) (answer : Answer Index)
      → Holds s
      → ((i : Index) → answer ≡ ok i → IsMerged s.access i)
      → Holds (stored s answer).0
  unfolding stored replaced failed
  reload-Holds s (error e) holds right = holds
  reload-Holds s (ok i) holds right =
      (holds.0, i, refl, subst (λ a. IsMerged a i) holds.0 (right i refl))

  -- Whatever the reloads meet on the disk, a server that has started holds an index, and one that
  -- MergeInputs has made: its ids and its pairs of user and remark are different, its access is the
  -- configured one, and each user has exactly the nodes that name it.
  pub Serves-IsMerged :
      (s : State)
      → Serves s
      → (s.access ≡ access) × (i : Index) × (s.index ≡ some i) × IsMerged access i
  unfolding load reload new_state
  Serves-IsMerged _ (loaded disk now h) =
      let start = new_state data_dir access in
      load-Holds start (merged_index disk decoders now start) refl
        (λ i e. merged_index-IsMerged disk now start e) h
  Serves-IsMerged _ (reloaded s disk now served) =
      reload-Holds s (merged_index disk decoders now s) (Serves-IsMerged s served)
        (λ i e. merged_index-IsMerged disk now s e)
