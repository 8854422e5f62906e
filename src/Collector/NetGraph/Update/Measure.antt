-- ===== src/Collector/NetGraph/Update/Measure.antt =====
-- src/int_collector_influx.py, `NetGraph.update_infos`: the link that a hop is about, and its weight.
use smoothie.Base.{
  ℕ, zero, suc, String, none, some, List, [], ◌∷◌, nat_eq, string_eq, pair_eq, length, get_elem?,
}
use smoothie.Base.Error.{
  attribute_error, index_error, value_error, zero_division_error, Result, ok, err, or_raise, ◌>>=◌,
}
use smoothie.Collector.Hop.{HopMetadata}
use smoothie.Collector.Report.Flow.{Address, ipv4, ipv6}
use smoothie.Helper.{ipv6_to_v4}
use smoothie.Collector.NetGraph.Env.{Env, NetGraph}
use smoothie.Collector.NetGraph.Weights.{queue_size}

-- `src`, `src_node` and `dst_node` of a round of the loop
pub record Link : Type 0 where
  pub src : ℕ
  pub src_node : String
  pub dst_node : String

-- xs[i - 1]: Python counts from the end for -1.
unfoldable pub before_index : List String → ℕ → Result String
before_index [] i = err index_error
before_index (x ∷ xs) zero = or_raise index_error (get_elem? (x ∷ xs) (length xs))
before_index (x ∷ xs) (suc i) = or_raise index_error (get_elem? (x ∷ xs) i)

-- `IPv6Address` refuses the text of an IPv4 address.
unfoldable pub text_to_v4 : Address → Result ℕ
text_to_v4 (ipv4 a b c d) = err value_error
text_to_v4 (ipv6 ip) = ok (ipv6_to_v4 ip)

module _ (env : Env) where
  open env use {Weight, of_ℕ, div}

  -- (queue_load/queue_size) / (bw / self.max_bw)
  unfoldable pub load : NetGraph env → ℕ → String → String → Result Weight
  load g queue_load src dst = elim (div (of_ℕ queue_load) (of_ℕ queue_size)) [
    | none ↦ err zero_division_error
    | some used ↦ elim (div (env.interface_bw src dst) g.max_bw) [
      | none ↦ err zero_division_error
      | some share ↦ or_raise zero_division_error (div used share)
    ]
  ]

  -- the link from the switch of `hop` to the switch `dst`, and what it weighs now
  unfoldable pub measure : NetGraph env → ℕ → HopMetadata → Result (Link × Weight)
  measure g dst hop = do
    queue_load ← or_raise attribute_error hop.queue_occupancy
    src ← or_raise attribute_error hop.switch_id
    src_node ← before_index g.switches src
    dst_node ← before_index g.switches dst
    w ← load g queue_load src_node dst_node
    ok (record { src = src; src_node = src_node; dst_node = dst_node }, w)
