-- ===== src/Graph/References.antt =====
-- internal/graph/references.go: refs between stacks and the index of the endpoints they name.
use proxystack_go.Prelude.{
  ℕ, zero, suc, ◌+◌, Text, codes, decimal, nat_eq, is_empty, length, if◌then◌else◌, not, Bool,
  false, ◌||◌, List, [], ◌∷◌, ◌++◌, map, Option, Map, lookup, put, Text_eq,
}
use proxystack_go.Domain.{Stack, Inbound, ClashListener, ClashListenerUser}
use proxystack_go.Graph.Nodes.{xray, clash}

pub record RefFormatError : Type 0 where
  pub path : Text
  pub message : Text

pub data RefResult (A : Type 0) : Type 0 where
  parsed : A → RefResult A
  refused : RefFormatError → RefResult A

pub record ParsedRef : Type 0 where
  pub raw : Text
  pub stack : Text
  pub component : Text
  pub kind : Text
  pub name : Text

abbrev dot : ℕ
dot = b'.'

-- A byte in front of the first part.
unfoldable pub onto_first : ℕ → List Text → List Text
onto_first c [] = (c ∷ []) ∷ []
onto_first c (p ∷ ps) = (c ∷ p) ∷ ps

-- strings.Split(value, ".")
unfoldable pub split_dots : Text → List Text
split_dots [] = [] ∷ []
split_dots (c ∷ s) =
    let rest = split_dots s in if nat_eq c dot then [] ∷ rest else onto_first c rest

unfoldable pub has_empty : List Text → Bool
has_empty [] = false
has_empty (p ∷ ps) = is_empty p || has_empty ps

unfoldable pub split_ref : Text → ℕ → Text → RefResult (List Text)
split_ref value segment_count path =
    if is_empty value
    then refused (record { path = path; message = codes "ref is required" })
    else (let parts = split_dots value in
        if not (nat_eq (length parts) segment_count)
        then refused (record {
          path = path;
          message =
              codes "ref must contain " ++ decimal segment_count ++ codes " dot-separated segments";
        })
        else if has_empty parts
        then refused (record { path = path; message = codes "ref must not contain empty segments" })
        else parsed parts)

-- `parts[i]`: the callers read only what split_ref has counted.
unfoldable pub part : List Text → ℕ → Text
part [] i = []
part (p ∷ ps) zero = p
part (p ∷ ps) (suc i) = part ps i

unfoldable pub parse_xray_inbound_ref : Text → Text → RefResult ParsedRef
parse_xray_inbound_ref value path = elim (split_ref value 2 path) [
  | refused e ↦ refused e
  | parsed parts ↦ parsed (record {
    raw = value;
    stack = part parts 0;
    component = xray;
    kind = [];
    name = part parts 1;
  })
]

unfoldable pub parse_component_ref : Text → Text → RefResult ParsedRef
parse_component_ref value path = elim (split_ref value 3 path) [
  | refused e ↦ refused e
  | parsed parts ↦ parsed (record {
    raw = value;
    stack = part parts 0;
    component = part parts 1;
    kind = part parts 2;
    name = [];
  })
]

pub record EndpointUser : Type 0 where
  pub username : Text
  pub password : Text

pub record Endpoint : Type 0 where
  pub ref : Text
  pub stack : Text
  pub component : Text
  pub kind : Text
  pub name : Text
  pub listen : Text
  pub port : ℕ
  pub path : Text
  pub users : List EndpointUser

pub record ReferenceIndex : Type 0 where
  pub xray_inbounds : Map Text Endpoint
  pub clash_listeners : Map Text Endpoint

unfoldable pub endpoint_users : List ClashListenerUser → List EndpointUser
endpoint_users users = map (λ u. record { username = u.username; password = u.password }) users

unfoldable pub inbound_endpoint : Stack → ℕ → Inbound → Endpoint
inbound_endpoint stack index inbound = record {
  ref = stack.name ++ codes "." ++ inbound.name;
  stack = stack.name;
  component = xray;
  kind = inbound.protocol;
  name = inbound.name;
  listen = inbound.listen;
  port = inbound.port;
  path = codes "stacks." ++ stack.name ++ codes ".xray.inbounds[" ++ decimal index ++ codes "]";
  users = [];
}

-- The loop of IndexXrayInbounds from `index` on.
unfoldable pub index_inbounds : Stack → ℕ → List Inbound → Map Text Endpoint → Map Text Endpoint
index_inbounds stack index [] endpoints = endpoints
index_inbounds stack index (inbound ∷ inbounds) endpoints =
    let endpoint = inbound_endpoint stack index inbound in
    index_inbounds stack (index + 1) inbounds (put endpoint.ref endpoint endpoints)

unfoldable pub index_xray_inbounds : Stack → Map Text Endpoint
index_xray_inbounds stack = index_inbounds stack 0 stack.xray.inbounds []

unfoldable pub listener_endpoint : Stack → Text → ℕ → ClashListener → Endpoint
listener_endpoint stack kind index listener = record {
  ref = stack.name ++ codes ".clash." ++ kind;
  stack = stack.name;
  component = clash;
  kind = kind;
  name = listener.name;
  listen = listener.listen;
  port = listener.port;
  path =
      codes "stacks."
      ++ stack.name
      ++ codes ".clash.listeners."
      ++ kind
      ++ codes "["
      ++ decimal index
      ++ codes "]";
  users = endpoint_users listener.users;
}

-- One loop of IndexClashListeners, for `kind` socks or http, from `index` on.
unfoldable pub index_listeners :
    Stack → Text → ℕ → List ClashListener → Map Text Endpoint → Map Text Endpoint
index_listeners stack kind index [] endpoints = endpoints
index_listeners stack kind index (listener ∷ listeners) endpoints =
    let endpoint = listener_endpoint stack kind index listener in
    index_listeners stack kind (index + 1) listeners (put endpoint.ref endpoint endpoints)

abbrev pub socks : Text
socks = codes "socks"

abbrev pub http : Text
http = codes "http"

unfoldable pub index_clash_listeners : Stack → Map Text Endpoint
index_clash_listeners stack =
    index_listeners stack http 0 stack.clash.listeners.http
      (index_listeners stack socks 0 stack.clash.listeners.socks [])

-- `for ref, endpoint := range from { into[ref] = endpoint }`
unfoldable pub put_all : Map Text Endpoint → Map Text Endpoint → Map Text Endpoint
put_all [] into = into
put_all ((ref, endpoint) ∷ from) into = put_all from (put ref endpoint into)

unfoldable pub add_stack_endpoints : Stack → ReferenceIndex → ReferenceIndex
add_stack_endpoints stack index = if not stack.enabled then index else record {
  xray_inbounds =
      if stack.xray.enabled
      then put_all (index_xray_inbounds stack) index.xray_inbounds
      else index.xray_inbounds;
  clash_listeners =
      if stack.clash.enabled
      then put_all (index_clash_listeners stack) index.clash_listeners
      else index.clash_listeners;
}

-- The loop of NewReferenceIndex over the stacks.
unfoldable pub add_endpoints : List Stack → ReferenceIndex → ReferenceIndex
add_endpoints [] index = index
add_endpoints (stack ∷ stacks) index = add_endpoints stacks (add_stack_endpoints stack index)

unfoldable pub new_reference_index : List Stack → ReferenceIndex
new_reference_index stacks =
    add_endpoints stacks (record { xray_inbounds = []; clash_listeners = [] })

unfoldable pub resolve_xray_inbound : ReferenceIndex → Text → Option Endpoint
resolve_xray_inbound index ref = lookup index.xray_inbounds ref

unfoldable pub resolve_clash_listener : ReferenceIndex → Text → Option Endpoint
resolve_clash_listener index ref = lookup index.clash_listeners ref
