-- ===== src/Lib.antt =====
-- proxystack-go describes proxies as stacks, each with an Xray and a Clash (mihomo) service. The agent
-- loads config.yaml and stacks/*.yaml, checks them, compiles the references between stacks into a
-- graph of services, generates one file for each service and applies what changed. A runtime file
-- lists users that are disabled for the time being.
--
-- Which file models which part:
--   Domain         internal/domain/models.go, the structs of the configuration
--   Config.Values  models.go: ValidateIdentifier, ValidatePort, ValidateRef, ensureUnique, patterns
--   Config.Listen  models.go: ParseListen, IsLoopbackHost, validateAPIConfig, ResolveXrayAPIConfig
--   Config.Ports   models.go: PortRange.Validate, PortRange.Allocate
--   Config.Users   models.go and internal/domain/user_refs.go: profiles, references and their merge
--   Config.Inbounds, Config.Credentials  models.go: Validate of inbounds, outbounds, XrayConfig
--   Config.Resolve internal/domain/user_refs.go: ResolveStackSetUserRefs
--   Config.Stacks  internal/domain/validation/validation.go: ValidateStackSet and its checks
--   Config.Names   validation.go: ValidateSubscriptionProxyNames
--   Config.Clash   models.go: Validate of ClashConfig and its parts, and of Stack
--   Config.Merge   models.go: ResolveXrayLogLevel, ResolveXrayStatsConfig, ResolveXrayPolicyConfig
--   Config.Global  models.go: Validate of GlobalConfig
--   Graph          internal/graph: references.go (References), dependencies.go (the others)
--   UserState      internal/userstate/disabled.go, and DisabledUserSet of models.go
--   XrayUsers      internal/generator/xray/users.go: SupportsUserToggle, enabledInboundUsers,
--                  applyDisabledUsers
--   XrayConfig     internal/generator/xray/config.go: RenderConfig
--   Mihomo         internal/generator/mihomo/config.go: RenderConfigNode
--   Runtime.UsersOnly  internal/runtime/usersdiff.go: UsersOnlyPlan
--   Runtime        internal/runtime/plan.go: DiffGeneratedFiles, BuildManifest, ApplyPlan,
--                  ChangedServices
--   Json           decoded values of encoding/json
--   Yaml           the trees of gopkg.in/yaml.v3 that the generators build
--   Sub            internal/generator/sub/types.go: Node, Input, Access, Index and their Validate
--   Sub.Load       internal/generator/sub/input.go: ScanInputFiles, LoadInputs, MergeInputFiles
--   Sub.Nodes      input.go: RenderStackInputAt, RenderSingleStackInputAt and what they call
--   Sub.Merge      input.go: MergeInputs, BuildIndex
--   Sub.Encode     types.go: InputToYAML, as the YAML tree it encodes
--   Sub.ClashProxy internal/generator/sub/render.go: RenderClashProxy, RenderClashProxyGroups
--   Sub.Surge      render.go: the lines of Surge; children of Sub: SurgeFields (the parts of a line),
--                  Regions (RenderSurgeRegionGroups)
--   Sub.Grouped, Sub.RegionOrder, Sub.SurgeContext  lemmas on the groups and on the context of Surge
--   SubServer      internal/subserver/state.go; children: Requests (server.go), Watcher (watcher.go),
--                  Settings (internal/config/transport.go, the configuration of the server)
--   Prelude        shared lists, sets, maps, bytes, sorting;  Examples  the theorems at small inputs
--
-- How they interact: Config.Stacks runs the checks over a stack set and asks Graph for the issues of
-- the references; Graph.Plan gives the target scope that Runtime diffs and applies; UserState gives
-- the set of disabled users, by which XrayUsers filters the users of an inbound. XrayConfig and Mihomo
-- render a stack against the graph; UsersOnly decides whether a plan needs no restart. Sub.Nodes renders
-- the nodes of the agent's stacks; the subscription server merges the inputs of all agents by
-- Sub.Merge, holds the index in its state, reloads it when Watcher notices a change, and answers
-- requests from it.
--
-- Conventions. A Go string is the list of its bytes. A set or a map is a list of its keys or of its
-- pairs, in the order of a `range` loop. An error is `Option Text`, a pair of a result and an error
-- is `Answer`. sort.Slice is an insertion sort by the same `less`. A port is a natural number;
-- the intervals of Clash groups and of the managed configuration are integers (ℤ), those of the watcher
-- in the settings are float64 as multiples of the least positive one.
-- Recursion over the graph takes fuel: FindCycle and TopologicalOrder the number of nodes, since
-- a path of nodes that are being visited has no repetition, and CollectDependencyClosure the number
-- of targets and edges, since each edge is pushed once.
-- Parameters stand for the libraries: SHA-256, the encoded YAML that is hashed, base64,
-- strings.ToLower, the network library (Net), the port checker, text/template, the decoders of YAML
-- and JSON, the disk, net/url, and fsnotify's events.
--
-- Not modelled: decoding of YAML and JSON, file modes, the templates of subscriptions (the server takes
-- the rendering as a parameter), bundles and backups, the loading and editing of configuration files,
-- the command lines, installation and system services, and diagnostics: they read and write files, run
-- other programs or print. The manifest is kept decoded; the encoding of disabled.json by
-- encoding/json is a parameter.
pub mod Prelude
pub mod Yaml
pub mod Json
pub mod Domain
pub mod Graph
pub mod Config
pub mod Runtime
pub mod UserState
pub mod Sub
pub mod SubServer
pub mod XrayUsers
pub mod XrayConfig
pub mod Mihomo
pub mod Examples
