-- ===== src/Collector/NetGraph/Weights/Digest.antt =====
-- The digests that stand for flows and paths.
use smoothie.Base.{String, ◌≡◌, arith, if◌then◌else◌, ◌==◌, nat_eq, string_eq, pair_eq}
use smoothie.Base.Dict.{get-put}
use Prim.Native.String.{◌++◌ as append}
use text.Mathlib.TextLemmas.{append_assoc as text_append_assoc}
use smoothie.Collector.NetGraph.Env.{Env, NetGraph, Route}
use smoothie.Collector.NetGraph.Weights.{
  join, hash_list, hash_nodes, flow_values, store_flow_path, get_path_digest,
}
use smoothie.Collector.Report.Flow.{FlowId}

module _ (env : Env) where
  open env use {str}

  -- After a path was stored for a flow, the digest of that flow is the digest of that path; the
  -- digest of a flow with another digest is as it was.
  pub get_path_digest-store_flow_path :
      (f h : FlowId) (p : Route) (g : NetGraph env)
      → get_path_digest env h (store_flow_path env f p g) ≡ (
          if hash_list env (flow_values env f) == hash_list env (flow_values env h)
          then hash_nodes env p
          else get_path_digest env h g)
  unfolding get_path_digest store_flow_path
  get_path_digest-store_flow_path f h p g = ground (
    arith,
    get-put g.flows (hash_list env (flow_values env f)) (hash_list env (flow_values env h))
        (hash_nodes env p),
  )

  -- No separator stands between the parts of a flow: two flows that agree in addresses and
  -- protocol, and whose ports read `a`, `b c` and `a b`, `c` as texts, have the same digest.
  pub hash_list_ports :
      (f h : FlowId) (a b c : String)
      → f.srcip ≡ h.srcip
      → f.dstip ≡ h.dstip
      → f.protocol ≡ h.protocol
      → str f.scrp ≡ a
      → str f.dstp ≡ append b c
      → str h.scrp ≡ append a b
      → str h.dstp ≡ c
      → hash_list env (flow_values env f) ≡ hash_list env (flow_values env h)
  unfolding hash_list flow_values join
  hash_list_ports f h a b c src dst prot e1 e2 e3 e4 = cc (
    text_append_assoc b c (append (str f.protocol) ""),
    text_append_assoc a b (append c (append (str f.protocol) "")),
  )
