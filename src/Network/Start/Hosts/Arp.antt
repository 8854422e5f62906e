-- ===== src/Network/Start/Hosts/Arp.antt =====
-- src/Network_API_l.py: which entries the automatic ARP tables of a host get.
use mathlib.Core.List.{Memᴰ}
use smoothie.Base.{String, ◌≡◌, ap, ◌≢◌, List, nat_eq, string_eq, pair_eq}
use smoothie.Base.Error.{Result, ok}
use smoothie.Base.Exec.{lift}
use smoothie.Network.Value.{Attrs}
use smoothie.Network.Mininet.{Mininet}
use smoothie.Network.Ids.{hosts}
use smoothie.Network.Nodes.{ask}
use smoothie.Network.Start.{Boot, World, Intf, Running, Action, sets_arp, running, on_api}
use smoothie.Network.Start.Texts.{shown}
use smoothie.Network.Start.Hosts.{network, same_network_entry, other_host, arp_tables}
use smoothie.Network.Start.Writes.{
  Writes, act-Writes, for_each-Writes, unless_same-Writes, where_same-Writes, reads-Writes,
}

module _ (mn : Mininet) (w : World) (host : String) (b : Boot) (hs : List (String × Attrs))
    (node_of : String → Running) (net_of : Intf → String) where
  -- the entry for an interface
  abbrev pub entry : Intf → Action
  entry i = sets_arp host (shown i.ip) i.mac

  -- an entry for an interface of the node that is in the network
  abbrev pub OfNode : String → String → Action → Type 0
  OfNode net n a =
      (i : Intf) × Memᴰ i (node_of n).intfs × ((i.name ≢ "lo") × ((net ≡ net_of i) × (a ≡ entry i)))

  -- what the tables of `host` get for one network: an entry for each interface of another host
  -- that is in it, but for loopbacks
  abbrev pub InNetwork : String → Action → Type 0
  InNetwork net a = (h : String × Attrs) × Memᴰ h hs × ((host ≢ h.0) × OfNode net h.0 a)

  -- what the tables of `host` get for all its networks
  abbrev pub InReach : Action → Type 0
  InReach a = (i : Intf) × Memᴰ i (node_of host).intfs × ((i.name ≢ "lo") × InNetwork (net_of i) a)

  -- every address of a node can be read
  abbrev pub Readable : String → Type 0
  Readable n = (i : Intf) → Memᴰ i (node_of n).intfs → i.name ≢ "lo" → network w i ≡ ok (net_of i)

  module _ (net : String) (h : String × Attrs) (up : (running h.0 b).0 ≡ ok (node_of h.0))
      (reads : Readable h.0) where
    other_host-Writes : Writes b (other_host mn w host net h) (λ a. (host ≢ h.0) × OfNode net h.0 a)
    unfolding other_host same_network_entry running
    other_host-Writes = unless_same-Writes b _ _ host h.0 (λ apart.
        reads-Writes b (running h.0) _ _
          (λ l. ap (λ (r : Result Running). (r, record b { log = l })) up)
          (for_each-Writes b (same_network_entry mn w host net) _ (node_of h.0).intfs (λ i m.
            unless_same-Writes b _ _ i.name "lo" (λ real.
              reads-Writes b (lift (network w i)) _ _
                (λ l. ap (λ (r : Result String). (r, record b { log = l })) (reads i m real))
                (where_same-Writes b _ _ net (net_of i) (act-Writes b (entry i)))))))

  -- The automatic ARP tables of a host get, without an exception, an entry for each interface of
  -- another host that is in the network of one of the host's own interfaces, loopbacks left out, and
  -- no other entry; nothing else is done or changed. The hosts are running, and the addresses of
  -- their interfaces can be read.
  pub arp_tables-InReach :
      hosts mn b.api.g ≡ ok hs
      → ((h : String × Attrs) → Memᴰ h hs → (running h.0 b).0 ≡ ok (node_of h.0))
      → ((h : String × Attrs) → Memᴰ h hs → Readable h.0)
      → Readable host
      → Writes b (arp_tables mn w host (node_of host)) InReach
  unfolding arp_tables
  arp_tables-InReach all up reads own = for_each-Writes b _ _ (node_of host).intfs (λ i m.
      unless_same-Writes b _ _ i.name "lo" (λ real.
        reads-Writes b (lift (network w i)) _ _
          (λ l. ap (λ (r : Result String). (r, record b { log = l })) (own i m real))
          (reads-Writes b (on_api (ask mn (hosts mn))) _ _
            (λ l. ap (λ (r : Result (List (String × Attrs))). (r, record b { log = l })) all)
            (for_each-Writes b _ _ hs
              (λ h n. other_host-Writes (net_of i) h (up h n) (reads h n))))))
