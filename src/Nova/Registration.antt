-- ===== src/Nova/Registration.antt =====
-- libs/provider-llamactl/src/llamactl-provider.module.ts: the nodes of the configuration, and their
-- registration.
use sirius_gateway.Base.{String, List, [], ◌∷◌, Option, if◌then◌else◌, is_blank, trim, ◌&◌}
use sirius_gateway.Base.Dict.{Dict}
use sirius_gateway.Core.ProviderRegistry

pub record LlamactlNodeConfig : Type 0 where
  pub name : String
  pub base_url : String
  pub api_key : String
  pub display_name : Option String

-- An element of the list: an object with a text as name, as base URL and as key, or anything else.
pub data NodeElement : Type 0 where
  node : LlamactlNodeConfig → NodeElement
  other : NodeElement

-- What JSON.parse makes of the setting: it throws, or there is no list, or there is.
pub data NodesJson : Type 0 where
  malformed no_list : NodesJson
  elements : List NodeElement → NodesJson

nodes_only : List NodeElement → List LlamactlNodeConfig
nodes_only [] = []
nodes_only (node n ∷ es) = n ∷ nodes_only es
nodes_only (other ∷ es) = nodes_only es

nodes_in : NodesJson → List LlamactlNodeConfig
unfolding nodes_only
nodes_in malformed = []
nodes_in no_list = []
nodes_in (elements es) = nodes_only es

-- `raw` is the setting LLAMACTL_NODES, or the empty text.
pub node_configs : (parse : String → NodesJson) → (raw : String) → List LlamactlNodeConfig
unfolding nodes_in
node_configs parse raw = if is_blank (trim raw) then [] else nodes_in (parse raw)

module _ {P : Type 0} (adapter_of : (name : String) → LlamactlNodeConfig → P) where
  -- Each node is registered as `llamactl-<name>`.
  pub register_nodes : List LlamactlNodeConfig → Dict P → Dict P
  register_nodes [] registry = registry
  register_nodes (n ∷ nodes) registry =
      let name = "llamactl-" & n.name in
      register_nodes nodes (ProviderRegistry.register name (adapter_of name n) registry)
