-- ===== src/Tests/Setup.antt =====
-- A topology of three switches between two hosts, with whole numbers for floats.
use smoothie.Base.{
  ℕ, zero, suc, ◌+◌, ◌/◌, String, ◌||◌, Option, none, some, List, [], ◌∷◌, ltb, if◌then◌else◌, ◌==◌,
  nat_eq, string_eq, pair_eq,
}
use smoothie.Base.Error.{value_error, ok, err}
use smoothie.Collector.NetGraph.Env.{Env, Route, Entry, NetGraph}

abbrev whole_div : ℕ → ℕ → Option ℕ
whole_div a zero = none
whole_div a (suc b) = some (a / suc b)

-- str() for the ports of the tests
abbrev port_text : ℕ → String
port_text n =
    if n == 1
    then "1"
    else if n == 3
    then "3"
    else if n == 12
    then "12"
    else if n == 23
    then "23"
    else "17"

-- a client that keeps the entries that it was given
abbrev pub example_env : Env
example_env = record {
  Weight = ℕ;
  zero_weight = 0;
  of_ℕ = λ n. n;
  add = λ a b. a + b;
  div = whole_div;
  lt = ltb;
  delta = 1;
  nodes = "h1" ∷ "s1" ∷ "s2" ∷ "s3" ∷ "h2" ∷ [];
  edges = ("h1", "s1") ∷ ("s1", "s2") ∷ ("s1", "s3") ∷ ("s3", "s2") ∷ ("s2", "h2") ∷ [];
  is_host = λ n. n == "h1" || n == "h2";
  is_p4switch = λ n. n == "s1" || n == "s2" || n == "s3";
  interface_bw = λ a b. 4;
  host_name = λ a. if a == 1 then ok "h1" else if a == 2 then ok "h2" else err value_error;
  host_mac = λ n. "00:00:0a:00:00:02";
  node_to_node_mac = λ a b. "00:01:0a:00:00:02";
  p4switch_id = λ n. if n == "s1" then ok 1 else if n == "s2" then ok 2 else ok 3;
  thrift_port = λ n. ok 9090;
  shortest_path_length = λ a b. ok 3;
  all_simple_paths = λ a b n. ("h1" ∷ "s1" ∷ "s3" ∷ "s2" ∷ "h2" ∷ []) ∷ [];
  md5 = λ s. s;
  ip_text = λ a. "::";
  str = port_text;
  Client = List Entry;
  connect = λ port. [];
  table_modify_match = λ c e. none;
  table_add = λ c e. ok (e ∷ c);
}

abbrev pub network : NetGraph example_env
network = record {
  max_bw = 4;
  detour = 1;
  flows = [];
  paths = [];
  path_infos = [];
  hosts = "h1" ∷ "h2" ∷ [];
  switches = "s1" ∷ "s2" ∷ "s3" ∷ [];
  thrift_switches = none ∷ none ∷ none ∷ [];
  weights = (("s1", "s2"), 9) ∷ (("s1", "s3"), 0) ∷ (("s3", "s2"), 0) ∷ [];
}

abbrev pub direct : Route
direct = some "h1" ∷ some "s1" ∷ some "s2" ∷ some "h2" ∷ []

abbrev pub detour : Route
detour = some "h1" ∷ some "s1" ∷ some "s3" ∷ some "s2" ∷ some "h2" ∷ []
