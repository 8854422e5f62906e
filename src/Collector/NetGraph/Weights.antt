-- ===== src/Collector/NetGraph/Weights.antt =====
-- src/int_collector_influx.py, `NetGraph`: digests of lists, the links' weights and a path's weight.
pub mod Frame
pub mod Digest
use Prim.Native.String.{◌++◌ as append}
use smoothie.Base.{
  ℕ, String, Bool, none, some, List, [], ◌∷◌, map, arith, if◌then◌else◌, nat_eq, string_eq, pair_eq,
  length, replicate,
}
use smoothie.Base.Dict.{Dict, get, put}
use smoothie.Base.Error.{index_error, Result, ok, err, ◌>>=◌, ◌>>◌}
use smoothie.Collector.NetGraph.Env.{Env, NetGraph, Node, Route}
use smoothie.Collector.Report.Flow.{Address, ipv4, ipv6, FlowId}

-- queue_size
abbrev pub queue_size : ℕ
queue_size = 256

-- "".join(texts)
unfoldable pub join : List String → String
join [] = ""
join (s ∷ ss) = append s (join ss)

-- str(None) is "None"
unfoldable pub node_text : Node → String
node_text none = "None"
node_text (some n) = n

module _ (env : Env) where
  open env use {Weight, zero_weight, of_ℕ, add, div, lt, md5, ip_text, str}

  -- `ip2str` for an address of IPv4
  unfoldable pub address_text : Address → String
  address_text (ipv4 a b c d) = join (str a ∷ "." ∷ str b ∷ "." ∷ str c ∷ "." ∷ str d ∷ [])
  address_text (ipv6 ip) = ip_text ip

  -- report.flow_id.values(), as texts
  unfoldable pub flow_values : FlowId → List String
  unfolding address_text
  flow_values f =
      address_text f.srcip ∷ address_text f.dstip ∷ str f.scrp ∷ str f.dstp ∷ str f.protocol ∷ []

  -- `hash_list`
  unfoldable pub hash_list : List String → String
  unfolding join
  hash_list flow = md5 (join flow)

  unfoldable pub hash_nodes : Route → String
  unfolding hash_list
  hash_nodes p = hash_list (map node_text p)

  -- `store_flow_path`
  unfoldable pub store_flow_path : FlowId → Route → NetGraph env → NetGraph env
  store_flow_path flow path g = record g {
    flows = put g.flows (hash_list (flow_values flow)) (hash_nodes path);
  }

  -- `get_path_digest`
  unfoldable pub get_path_digest : FlowId → NetGraph env → String
  get_path_digest flow g = elim (get g.flows (hash_list (flow_values flow))) [
    | none ↦ ""
    | some v ↦ v
  ]

  -- the loop of `weight_path`; where the lookup raises, nothing is added
  unfoldable pub add_edge : NetGraph env → Weight → Node → Node → Weight
  add_edge g w none n = w
  add_edge g w (some a) none = w
  add_edge g w (some a) (some b) = elim (get g.weights (a, b)) [ none ↦ w | some v ↦ add w v ]

  unfoldable pub weight_loop : NetGraph env → Weight → Node → Route → Weight
  weight_loop g w src [] = w
  weight_loop g w src (n ∷ p) = weight_loop g (add_edge g w src n) n p

  -- `weight_path`: `p[0]` of an empty path raises.
  unfoldable pub weight_path : NetGraph env → Route → Result Weight
  weight_path g [] = err index_error
  weight_path g (src ∷ p) = ok (weight_loop g zero_weight src p)

  -- `compare_paths`
  unfoldable pub compare_paths : NetGraph env → Route → Route → Result Route
  compare_paths g p1 p2 = do
    w1 ← weight_path g p1
    w2 ← weight_path g p2
    ok (if lt w1 w2 then p1 else p2)

  -- `__init__`: every edge gets a weight of 0 in both directions, and `max_bw` is the widest.
  widest : Weight → List (String × String) → Weight
  widest w [] = w
  widest w ((a, b) ∷ es) =
      widest (if lt w (env.interface_bw a b) then env.interface_bw a b else w) es

  zero_weights :
      Dict (String × String) Weight → List (String × String) → Dict (String × String) Weight
  zero_weights ws [] = ws
  zero_weights ws ((a, b) ∷ es) =
      zero_weights (put (put ws (b, a) zero_weight) (a, b) zero_weight) es

  keep : (String → Bool) → List String → List String
  keep p [] = []
  keep p (x ∷ xs) = let rest = keep p xs in if p x then x ∷ rest else rest

  unfoldable pub init : NetGraph env
  unfolding widest zero_weights keep
  init =
      let switches = keep env.is_p4switch env.nodes in
      record {
        max_bw = widest zero_weight env.edges;
        detour = 0;
        flows = [];
        paths = [];
        path_infos = [];
        hosts = keep env.is_host env.nodes;
        switches = switches;
        thrift_switches = replicate (length switches) none;
        weights = zero_weights [] env.edges;
      }
