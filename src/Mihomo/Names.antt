-- ===== src/Mihomo/Names.antt =====
-- internal/generator/mihomo/config.go: the search for free listener names ends, and RenderConfigNode
-- answers.
use proxystack_go.Prelude.{
  ◌≡◌, refl, ap, ◌∙◌, inl, inr, ℕ, Text, Text_eq, text_eq, text_eq_iff, codes, Bool, true, false,
  not, ◌==◌, contains, [], ◌∷◌, ◌++◌, Option, none, some, Bool-cases, Answer, ok, error, arith,
}
use proxystack_go.Yaml.{Yaml, sequence_of}
use proxystack_go.Domain.{ClashListener, Stack, StackSet}
use proxystack_go.Graph.Compile.{BuildResult}
use proxystack_go.XrayConfig.Clients.{build_reference_graph-some}
use proxystack_go.Config.Listen.{Net}
use proxystack_go.Mihomo.{
  unique_listener_name, listener_names, listener_node, http_nodes, config_node, render_listeners,
  Parts, parts_of, node_of, enabled_clash_stack, render_clash_stack, render_config_node,
}

-- A text with something behind it is another text.
longer_differs : (t rest : Text) (c : ℕ) → text_eq t ((t ++ c ∷ []) ++ rest) ≡ false
unfolding text_eq
longer_differs [] rest c = refl
longer_differs (a ∷ t) rest c = ground (arith, longer_differs t rest c)

-- The second listener, where there is one, has another name.
abbrev pub differs : Text → Option Text → Bool
differs name none = true
differs name (some other) = not (other == name)

listener_names-differs :
    (socks : ClashListener) (http : Option ClashListener)
    → (second : Option Text) × (listener_names socks http ≡ some (socks.name, second))
      × (differs socks.name second ≡ true)
unfolding listener_names unique_listener_name contains
listener_names-differs socks none = (none, refl, refl)
listener_names-differs socks (some http) = elim (Bool-cases (socks.name == http.name)) [
  | inr free ↦ (
    some http.name,
    ground (arith, free),
    ground (arith, free, text_eq_iff http.name socks.name, text_eq_iff socks.name http.name),
  )
  | inl taken ↦
      let longer = http.name ++ codes "-" ++ codes "http" in
      let other : text_eq socks.name (http.name ++ codes "-" ++ codes "http") ≡ false = ground (
        arith,
        taken,
        text_eq_iff socks.name http.name,
        longer_differs http.name (codes "http") b'-',
      ) in
      (
        some longer,
        ground (arith, taken, other),
        ground (arith, other, text_eq_iff longer socks.name, text_eq_iff socks.name longer),
      )
]

render_listeners-some :
    (socks : ClashListener) (http : Option ClashListener)
    → (listeners : Yaml) × (render_listeners socks http ≡ some listeners)
unfolding render_listeners
render_listeners-some socks http =
    let (second, found, other) = listener_names-differs socks http in
    (
      _,
      ap
          (λ (o : Option (Text × Option Text)). elim o as (λ _. Option Yaml) [
            | none ↦ none
            | some (name, rest) ↦
                some (sequence_of (listener_node (codes "socks") name socks ∷ http_nodes http rest))
          ])
          found,
    )

-- RenderConfigNode and the search for the names of the two listeners answer for every input: no
-- search that they make runs out of fuel. The first listener keeps its name, and the second one gets
-- another name than the first.
pub render_config_node-some :
    (net : Net) (set : StackSet) (stack_name : Text) (socks : ClashListener)
    (http : Option ClashListener)
    → ((answer : Answer Yaml) × (render_config_node net set stack_name ≡ some answer))
      × ((second : Option Text) × (listener_names socks http ≡ some (socks.name, second))
          × (differs socks.name second ≡ true))
unfolding render_config_node render_clash_stack node_of
render_config_node-some net set stack_name socks http =
    (chosen (enabled_clash_stack set stack_name), listener_names-differs socks http)
  where
    parted : (parts : Answer Parts) → (answer : Answer Yaml) × (node_of net set parts ≡ some answer)
    parted (error e) = (error e, refl)
    parted (ok parts) =
        let (listeners, rendered) = render_listeners-some parts.socks parts.http in
        (
          _,
          ap
              (λ (o : Option Yaml). elim o as (λ _. Option (Answer Yaml)) [
                | none ↦ none
                | some node ↦
                    some (
                      ok
                        (config_node net set parts.stack parts.socks parts.http node parts.proxies))
              ])
              rendered,
        )

    chosen :
        (stack : Answer Stack)
        → (answer : Answer Yaml) × (render_clash_stack net set stack ≡ some answer)
    chosen (error e) = (error e, refl)
    chosen (ok stack) =
        let (result, built) = build_reference_graph-some set in
        let (answer, noded) = parted (parts_of set stack result) in
        (
          answer,
          ap
                (λ (o : Option BuildResult). elim o as (λ _. Option (Answer Yaml)) [
                  | none ↦ none
                  | some r ↦ node_of net set (parts_of set stack r)
                ])
                built
              ∙ noded,
        )
