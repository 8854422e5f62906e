-- ===== src/Collector/NetGraph/Update/Reads.antt =====
-- What a round of the loop over the hops has read, where it does not raise.
use smoothie.Base.{ℕ, ◌≡◌, some, nat_eq, string_eq, pair_eq}
use smoothie.Base.Error.{attribute_error, ok, or_raise, >>=-eq-ok, or_raise-eq-ok}
use mathlib.Core.Path.{subst}
use smoothie.Collector.Hop.{HopMetadata}
use smoothie.Collector.NetGraph.Env.{Env, NetGraph}
use smoothie.Collector.NetGraph.Update.{Link, before_index, load, measure}

module _ (env : Env) where
  pub record Reads (g : NetGraph env) (dst : ℕ) (hop : HopMetadata) (r : Link) (w : env.Weight)
      : Type 0 where
    pub queue_load : ℕ
    pub queue_hop : hop.queue_occupancy ≡ some queue_load
    pub id_hop : hop.switch_id ≡ some r.src
    pub name_src : before_index g.switches r.src ≡ ok r.src_node
    pub name_dst : before_index g.switches dst ≡ ok r.dst_node
    pub load_link : load env g queue_load r.src_node r.dst_node ≡ ok w

  pub measure-Reads :
      (g : NetGraph env) (dst : ℕ) (hop : HopMetadata) (r : Link) (w : env.Weight)
      → measure env g dst hop ≡ ok (r, w)
      → Reads g dst hop r w
  unfolding measure
  measure-Reads g dst hop r w e =
      let (q, e1, k1) = >>=-eq-ok (or_raise attribute_error hop.queue_occupancy) _ e in
      let (src, e2, k2) = >>=-eq-ok (or_raise attribute_error hop.switch_id) _ k1 in
      let (a, e3, k3) = >>=-eq-ok (before_index g.switches src) _ k2 in
      let (b, e4, k4) = >>=-eq-ok (before_index g.switches dst) _ k3 in
      let (v, e5, k5) = >>=-eq-ok (load env g q a b) _ k4 in
      let same : ◌≡◌ {A = Link × env.Weight} (record { src = src; src_node = a; dst_node = b }, v)
          (r, w) =
        cc k5 in
      subst (λ (p : Link × env.Weight). Reads g dst hop p.0 p.1) same
        (record {
          queue_load = q;
          queue_hop = or_raise-eq-ok attribute_error _ e1;
          id_hop = or_raise-eq-ok attribute_error _ e2;
          name_src = e3;
          name_dst = e4;
          load_link = e5;
        })
