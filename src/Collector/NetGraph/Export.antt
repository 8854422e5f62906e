-- ===== src/Collector/NetGraph/Export.antt =====
-- src/int_collector_influx.py, `NetGraph`: the segments of a path, and the switch that is told them.
pub mod Slots
use smoothie.Base.{
  ℕ, String, Option, none, some, List, [], ◌∷◌, arith, if◌then◌else◌, nat_eq, string_eq, pair_eq,
  length, get_elem?, set, drop,
}
use smoothie.Base.Error.{index_error, key_error, Result, ok, err, ◌>>=◌, ◌>>◌}
use smoothie.Base.Exec.{Exec}
use smoothie.Helper.{mac_to_v4, mac_to_ipv6_linklocal, converttov6}
use smoothie.Collector.NetGraph.Env.{Env, NetGraph, Route, Entry}

module _ (env : Env) where
  -- The loop of `path_to_ips`; `src` stays where `n` is a host. For `None` the topology raises.
  unfoldable pub ips_from : String → Route → Result (List ℕ)
  ips_from src [] = ok []
  ips_from src (none ∷ p) = err key_error
  ips_from src (some n ∷ p) = do
    let stay = ips_from src p
    let move = ips_from n p
    ip ←
        (if env.is_host n
          then (do v4 ← mac_to_v4 (env.host_mac n); ok (converttov6 v4))
          else mac_to_ipv6_linklocal (env.node_to_node_mac n src))
    rest ← (if env.is_host n then stay else move)
    ok (ip ∷ rest)

  -- `path_to_ips`
  unfoldable pub path_to_ips : Route → Result (List ℕ)
  unfolding ips_from
  path_to_ips [] = err index_error
  path_to_ips (none ∷ p) = err key_error
  path_to_ips (some src ∷ p) = ips_from src p

  -- p[-1]
  unfoldable pub last : List ℕ → Result ℕ
  last [] = err index_error
  last (x ∷ []) = ok x
  last (x ∷ y ∷ xs) = last (y ∷ xs)

  -- what is written for a path, the switch itself left out
  unfoldable pub entry_for : List ℕ → Result Entry
  unfolding last
  entry_for p = do
    dst ← last p
    ok (record { match_key = dst; action_size = length p; segments = p })

  -- an entry is changed, or added where the client says that it is not there
  unfoldable pub install : env.Client → Entry → Result env.Client
  install c e = elim (env.table_modify_match c e) [ some c' ↦ ok c' | none ↦ env.table_add c e ]

  unfoldable pub client_for : Option env.Client → ℕ → env.Client
  client_for none port = env.connect port
  client_for (some c) port = c

  -- `export_path`: the client is kept once it is there, whatever happens to the entry.
  unfoldable pub export_path : List ℕ → ℕ → ℕ → Exec (NetGraph env) (Unit {0})
  unfolding client_for
  export_path p id_s port g = elim (get_elem? g.thrift_switches id_s) [
    | none ↦ (err index_error, g)
    | some kept ↦
        let c = client_for kept port in
        let g' = record g { thrift_switches = set g.thrift_switches id_s (some c) } in
        elim (entry_for (drop 1 p)) [
          | err x ↦ (err x, g')
          | ok e ↦ elim (install c e) [
            | err x ↦ (err x, g')
            | ok c' ↦ (ok tt, record g { thrift_switches = set g.thrift_switches id_s (some c') })
          ]
        ]
  ]
