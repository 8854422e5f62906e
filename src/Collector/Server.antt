-- ===== src/Collector/Server.antt =====
-- src/int_collector_influx.py, `unpack_int_report` and the loop of `start_udp_server`: what the
-- collector does with the messages that it receives. The socket is outside of the model.
pub mod Kept
use smoothie.Base.{ℕ, List, [], ◌∷◌, arith, nat_eq, string_eq, pair_eq}
use smoothie.Base.Error.{ok, err}
use smoothie.Base.Bytes.{Bytes}
use smoothie.Collector.Report.{parse_report}
use smoothie.Collector.NetGraph.Env.{Env, NetGraph}
use smoothie.Collector.NetGraph.Weights
use smoothie.Collector.NetGraph.Update.{update_infos}

-- a message, the time at which it is handled, and what `random.sample` will give
pub record Message : Type 0 where
  pub bytes : Bytes
  pub now : ℕ
  pub draw : ℕ → ℕ × ℕ

module _ (env : Env) where
  -- One round of the loop: any exception is logged, and what was changed before it stays.
  unfoldable pub handle : Message → NetGraph env → NetGraph env
  handle m g = elim (parse_report m.bytes) [
    | err x ↦ g
    | ok report ↦ (update_infos env m.now m.draw report g).1
  ]

  -- the rounds of the loop
  unfoldable pub serve : List Message → NetGraph env → NetGraph env
  serve [] g = g
  serve (m ∷ ms) g = serve ms (handle m g)

  -- the graph after these messages
  unfoldable pub start_udp_server : List Message → NetGraph env
  start_udp_server ms = serve ms (Weights.init env)
