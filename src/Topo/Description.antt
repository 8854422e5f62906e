-- ===== src/Topo/Description.antt =====
-- src/topos/TopoGenerator.py: the JSON description of a generated topology.
pub mod Hosts
pub mod Ends
use Prim.Native.String.{◌++◌ as append}
use smoothie.Base.{
  ℕ, zero, suc, ◌+◌, ◌-◌, ◌*◌, ◌/◌, ◌%◌, String, true, false, List, [], ◌∷◌, ◌++◌, map, arith,
  if◌then◌else◌, nat_eq, string_eq, pair_eq,
}
use smoothie.Base.Error.{◌>>=◌, Result, ok}
use smoothie.Topo.{range, spine_num}
use smoothie.Topo.Commands.{Texts, host_ip, id_to_mac, starts_with2}

-- a link of the generator: a pair, or a pair with the addresses of its ends
pub data Row : Type 0 where
  bare : String → String → Row
  full : String → String → String → String → Row

-- a link of the description: its nodes, `addr1` and `addr2`
pub record LinkRow : Type 0 where
  pub node1 : String
  pub node2 : String
  pub addr1 : String
  pub addr2 : String

-- what is written to the file, but for the fixed options
pub record Description : Type 0 where
  pub bw : String
  pub links : List LinkRow
  pub hosts : List String
  -- each switch, and its `cli_input`
  pub switches : List (String × String)

module _ (t : Texts) where
  -- the switches and the links of `genSpineLeaf`
  pub leaf_name : ℕ → String
  leaf_name i = append "LE" (t.str (i + 1))

  pub spine_name : ℕ → String
  spine_name j = append "SP" (t.str (j + 1))

  unfoldable pub switch_names : ℕ → List String
  unfolding leaf_name spine_name
  switch_names max_s_num =
      let l2 = spine_num max_s_num in
      let l1 = l2 * 2 in map leaf_name (range 0 l1) ++ map spine_name (range l1 l2)

  links_of : List ℕ → ℕ → List Row
  links_of js i = map (λ j. bare (leaf_name i) (spine_name j)) js

  links_from : List ℕ → List ℕ → List Row
  links_from js [] = []
  links_from js (i ∷ is) = links_of js i ++ links_from js is

  unfoldable pub switch_links : ℕ → List Row
  unfolding leaf_name spine_name links_of links_from
  switch_links max_s_num =
      let l2 = spine_num max_s_num in let l1 = l2 * 2 in links_from (range l1 l2) (range 0 l1)

  module _ (hosts_per_leaf : ℕ) where
    -- the hosts of one leaf, with their addresses, and their links
    unfoldable pub leaf_rows : String → ℕ → ℕ → List ℕ → List ((String × String) × Row)
    leaf_rows n id_s id_h [] = []
    leaf_rows n id_s id_h (x ∷ xs) =
        let ip = host_ip t id_s ((id_h - 1) % hosts_per_leaf + 1) in
        let h = append "H" (t.str id_h) in
        ((h, ip), full n h (t.mac_of ip 1) (t.mac_of ip 0)) ∷ leaf_rows n id_s (id_h + 1) xs

    -- the first loop of `write_to_file`
    unfoldable pub host_rows : ℕ → ℕ → List String → List ((String × String) × Row)
    host_rows id_s id_h [] = []
    host_rows id_s id_h (n ∷ ns) =
        let leaf = starts_with2 n "LE" in
        let rows = if leaf then leaf_rows n id_s id_h (range 1 hosts_per_leaf) else [] in
        rows ++ host_rows (id_s + 1) (if leaf then id_h + hosts_per_leaf else id_h) ns

  -- x[2:]
  unfoldable pub from2 : String → String
  from2 (String.◌∷◌ a (String.◌∷◌ b s)) = s
  from2 s = ""

  -- a pair gets the addresses of its ends
  unfoldable pub with_macs : Row → Result LinkRow
  unfolding from2
  with_macs (full a b m n) = ok (record { node1 = a; node2 = b; addr1 = m; addr2 = n })
  with_macs (bare a b) = do
    sp ← t.int_of (from2 b)
    le ← t.int_of (from2 a)
    ok (record {
      node1 = a;
      node2 = b;
      addr1 = id_to_mac sp le false;
      addr2 = id_to_mac sp le true;
    })

  all_with_macs : List Row → Result (List LinkRow)
  all_with_macs [] = ok []
  all_with_macs (r ∷ rs) = do l ← with_macs r; ls ← all_with_macs rs; ok (l ∷ ls)

  -- `write_to_file`
  unfoldable pub write_to_file : ℕ → String → List String → List Row → Result Description
  unfolding all_with_macs
  write_to_file hosts_per_leaf default_bw switches links = do
    let rows = host_rows hosts_per_leaf 1 1 switches
    ls ← all_with_macs (links ++ map (λ r. r.1) rows)
    ok (record {
      bw = default_bw;
      links = ls;
      hosts = map (λ r. r.0.0) rows;
      switches = map (λ s. (s, append "topos/" (append s ".txt"))) switches;
    })
