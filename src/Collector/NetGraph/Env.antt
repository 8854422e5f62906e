-- ===== src/Collector/NetGraph/Env.antt =====
-- What `NetGraph` is given: the topology (p4utils and networkx), the arithmetic of floats, the
-- digest of hashlib, and the Thrift client of a switch. They are parameters of the model.
use smoothie.Base.{ℕ, String, Bool, Option, List, nat_eq, string_eq, pair_eq}
use smoothie.Base.Dict.{Dict}
use smoothie.Base.Error.{Result}
use smoothie.Collector.PathInfos.{PathInfos}

-- `None` stands on a path where the report named no switch.
abbrev pub Node : Type 0
Node = Option String

abbrev pub Route : Type 0
Route = List Node

-- One entry of the table `srv6_transit`: the destination that it matches, with prefix length 128,
-- and the segments of its action; the action is `srv6_t_insert_` and the number of segments.
pub record Entry : Type 0 where
  pub match_key : ℕ
  pub action_size : ℕ
  pub segments : List ℕ

pub record Env : Type 1 where
  -- floats: `div` raises where the divisor is 0
  pub Weight : Type 0
  pub zero_weight : Weight
  pub of_ℕ : ℕ → Weight
  pub add : Weight → Weight → Weight
  pub div : Weight → Weight → Option Weight
  pub lt : Weight → Weight → Bool
  pub delta : Weight
  -- the topology: `load_topo('topology.json')`
  pub nodes : List String
  pub edges : List (String × String)
  pub is_host : String → Bool
  pub is_p4switch : String → Bool
  pub interface_bw : String → String → Weight
  pub host_name : ℕ → Result String
  pub host_mac : String → String
  pub node_to_node_mac : String → String → String
  pub p4switch_id : String → Result ℕ
  pub thrift_port : String → Result ℕ
  pub shortest_path_length : String → String → Result ℕ
  pub all_simple_paths : String → String → ℕ → List (List String)
  -- the digest of a text
  pub md5 : String → String
  -- str() of an IPv6 address, and of a number
  pub ip_text : ℕ → String
  pub str : ℕ → String
  -- `SimpleSwitchThriftAPI(port, "192.168.0.1")`; `none` is `UIn_Error`
  pub Client : Type 0
  pub connect : ℕ → Client
  pub table_modify_match : Client → Entry → Option Client
  pub table_add : Client → Entry → Result Client

pub record NetGraph (env : Env) : Type 0 where
  pub max_bw : env.Weight
  pub detour : ℕ
  pub flows : Dict String String
  pub paths : Dict String (List Route)
  pub path_infos : Dict String (PathInfos env.Weight)
  pub hosts : List String
  pub switches : List String
  pub thrift_switches : List (Option env.Client)
  -- under `(a, b)`: the attribute `b + "weight"` of the edge between `a` and `b`
  pub weights : Dict (String × String) env.Weight
