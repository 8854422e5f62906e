-- ===== src/Tests/Dicts.antt =====
-- Networks that dictionaries hold.
use smoothie.Base.{
  ℕ, ◌+◌, ◌≤◌, String, ◌≡◌, refl, ◌∙◌, true, false, none, some, List, [], ◌∷◌, arith, ltb,
  if◌then◌else◌, nat_eq, string_eq, pair_eq, is_some, contains,
}
use smoothie.Base.Dict.{Dict, get, put, has, get-put, keys}
use smoothie.Network.Value.{
  is_params, real, params, nothing, Value, number, text, cls, flag, Attrs, value_eq,
}
use smoothie.Network.Mininet.{Graph, Net, Mininet, node_flag}

-- a graph library that keeps the nodes in a dictionary
abbrev merge : Attrs → Attrs → Attrs
merge a [] = a
merge a ((k, v) ∷ b) = put (merge a b) k v

get-merge : (a b : Attrs) (k : String) → get (merge a b) k ≡ (if has b k then get b k else get a k)
unfolding has get is_some
get-merge a [] k = refl
get-merge a ((j, v) ∷ b) k = ground (arith, get-put (merge a b) j k v, get-merge a b k)

pub merge_new :
    (a b : Attrs) (k : String) (v : Value)
    → get b k ≡ some v
    → is_params v ≡ false
    → get (merge a b) k ≡ some v
unfolding has is_some
merge_new a b k v e p = get-merge a b k ∙ rw e refl

pub merge_old : (a b : Attrs) (k : String) → get b k ≡ none → get (merge a b) k ≡ get a k
unfolding has is_some
merge_old a b k e = get-merge a b k ∙ rw e refl

abbrev above : List Value → ℕ → ℕ
above [] m = m
above (number n ∷ vs) m = if ltb (above vs m) (n + 1) then n + 1 else above vs m
above (text s ∷ vs) m = above vs m
above (flag b ∷ vs) m = above vs m
above (cls s ∷ vs) m = above vs m
above (real s ∷ vs) m = above vs m
above (params s ∷ vs) m = above vs m
above (nothing ∷ vs) m = above vs m

pub above_min : (vs : List Value) (m : ℕ) → m ≤ above vs m
above_min [] m = omega arith
above_min (number n ∷ vs) m = ground (arith, above_min vs m)
above_min (text s ∷ vs) m = above_min vs m
above_min (flag b ∷ vs) m = above_min vs m
above_min (cls s ∷ vs) m = above_min vs m
above_min (real s ∷ vs) m = above_min vs m
above_min (params s ∷ vs) m = above_min vs m
above_min (nothing ∷ vs) m = above_min vs m

pub above_fresh : (vs : List Value) (m k : ℕ) → above vs m ≤ k → contains (number k) vs ≡ false
above_fresh [] m k h = refl
above_fresh (number n ∷ vs) m k h = ground (arith, above_fresh vs m k)
above_fresh (text s ∷ vs) m k h = ground (arith, above_fresh vs m k)
above_fresh (flag b ∷ vs) m k h = ground (arith, above_fresh vs m k)
above_fresh (cls s ∷ vs) m k h = ground (arith, above_fresh vs m k)
above_fresh (real s ∷ vs) m k h = ground (arith, above_fresh vs m k)
above_fresh (params s ∷ vs) m k h = ground (arith, above_fresh vs m k)
above_fresh (nothing ∷ vs) m k h = ground (arith, above_fresh vs m k)

pub contains-keys : (d : Dict String Attrs) (n : String) → contains n (keys d) ≡ has d n
unfolding has get is_some
contains-keys [] n = refl
contains-keys ((j, v) ∷ d) n =
    ground (arith, contains-keys d n, string_eq.beq_iff n j, string_eq.beq_iff j n)

abbrev with_node : Graph → String → Attrs → Graph
with_node g n a = record g { node = put g.node n a }

abbrev pub dict_mininet : Mininet
dict_mininet = record {
  add_node = with_node;
  add_host = with_node;
  is_switch = λ g n. node_flag g n "isSwitch";
  node_names = λ g. keys g.node;
  natural = λ ns. ns;
  merge_dict = merge;
  next_element = above;
  get-add_node = λ g n m a. get-put g.node n m a;
  edge-add_node = λ g n a. refl;
  add_host_lem = λ g n a h. refl;
  is_switch_lem = λ g n. refl;
  contains-node_names = λ g n. contains-keys g.node n;
  contains-natural = λ ns n. refl;
  merge_dict_new = merge_new;
  merge_dict_old = merge_old;
  next_element_min = above_min;
  next_element_fresh = λ vs m. above_fresh vs m (above vs m) (omega arith);
}

abbrev pub switch_at : ℕ → Attrs
switch_at i =
    ("isP4Switch", flag true)
    ∷ ("isSwitch", flag true)
    ∷ ("device_id", number i)
    ∷ ("thrift_port", number (9089 + i))
    ∷ []

-- two P4 switches
abbrev pub two_switches : Net
two_switches = record {
  g = record { node = ("s1", switch_at 1) ∷ ("s2", switch_at 2) ∷ []; edge = [] };
  sopts = [];
  tasks = [];
  auto_gw_arp = true;
  auto_arp_tables = true;
  cli_enabled = true;
  topo_file = "./topology.json";
  scripts = [];
  lopts = [];
  cpu_bridge = none;
}
