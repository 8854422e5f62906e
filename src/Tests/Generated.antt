-- ===== src/Tests/Generated.antt =====
-- src/topos/TopoGenerator.py, src/networking.py and src/AppRunner.py at small inputs.
use mathlib.Core.List.{Memᴰ}
use smoothie.Base.{
  false, ℕ, ◌+◌, ◌*◌, ◌/◌, ◌<◌, String, ◌≡◌, refl, ◌≢◌, ◌↔◌, true, false, Option, some, List, [],
  ◌∷◌, arith, ltb, if◌then◌else◌, ◌==◌, nat_eq, string_eq, pair_eq,
}
use smoothie.Base.Dict.{get}
use smoothie.Base.Error.{Result, ok, err, value_error}
use smoothie.Helper.{converttov6, mac_to_ipv6_linklocal}
use smoothie.Network.Value.{Value, text, flag, cls, Attrs, value_eq}
use smoothie.Network.Start.{Boot, set_module, set_switch_client, module_of}
use smoothie.Topo.{range}
use smoothie.Topo.Commands.{
  Texts, Command, ipv6_leaf, id_to_mac, spine_lines, leaf_lines, host_ip, then_lines, spine_hops,
  leaf_hops, leaf_hosts,
}
use smoothie.Topo.Commands.NextHop.{Forwards}
use smoothie.Topo.Commands.Prefix.{leaf_prefix, host_v4, leaf_prefix-covers}
use smoothie.Topo.Description.{LinkRow, bare, leaf_name, spine_name, with_macs, host_rows}
use smoothie.Topo.Description.Ends.{spine_lines-addr1, leaf_lines-addr2}
use smoothie.Topo.Description.Hosts.{plain_rows, host_rows-plain}
use smoothie.Networking.{dp_mac, decimal}
use smoothie.Networking.Mac.{is_mac, is_mac-dp_mac}
use smoothie.Runner.{Loader}
use smoothie.Runner.Settings.{Files, ModuleConf, module_class, read_client}
use smoothie.Runner.Settings.Client.{read_client-options}
use smoothie.Tests.Start.{client, client_there}
use smoothie.Tests.World.{fresh}

is_mac-dp_mac_example : is_mac (dp_mac 11) ≡ ltb 11 10
is_mac-dp_mac_example = is_mac-dp_mac 11

abbrev texts : Texts
texts = record {
  str = decimal;
  int_of = λ s. if s == "1" then ok 1 else if s == "3" then ok 3 else err value_error;
  v4_of = λ s. ok 5;
  mac_of = λ s n. "00:00:0a:00:01:01";
}

-- two leaves and a spine
abbrev neighbours : ℕ → List ℕ
neighbours i = if i == 2 then 0 ∷ 1 ∷ [] else 2 ∷ []

abbrev commands : Result (List Command) → List Command
commands (ok cs) = cs
commands (err x) = []

abbrev of_spine : List Command
of_spine = commands (spine_lines texts neighbours 2)

spine_runs : spine_lines texts neighbours 2 ≡ ok of_spine
unfolding spine_lines spine_hops then_lines id_to_mac mac_to_ipv6_linklocal
spine_runs = refl

reads_one : texts.int_of (texts.str (0 + 1)) ≡ ok (0 + 1)
unfolding decimal
reads_one = refl

reads_three : texts.int_of (texts.str (2 + 1)) ≡ ok (2 + 1)
unfolding decimal
reads_three = refl

leaf_prefix-covers_example :
    Memᴰ (ipv6_leaf (1 + 1) (id_to_mac (2 + 1) (1 + 1) false) (1 + 1)) of_spine
    × ((converttov6 (host_v4 (1 + 1) 7) / 256 ≡ leaf_prefix (1 + 1) / 256) ↔ (1 + 1 < 10))
leaf_prefix-covers_example =
    leaf_prefix-covers texts neighbours 2 1 1 7 of_spine refl spine_runs (omega arith) (omega arith)

spine_lines-addr1_example :
    (row : LinkRow) × (with_macs texts (bare (leaf_name texts 0) (spine_name texts 2)) ≡ ok row)
    × Forwards row.addr1 (0 + 1) of_spine
spine_lines-addr1_example =
    spine_lines-addr1 texts neighbours 0 2 reads_one reads_three 0 of_spine refl spine_runs

abbrev of_leaf : List Command
of_leaf = commands (leaf_lines texts neighbours 0 2 2 "100" "5")

leaf_runs : leaf_lines texts neighbours 0 2 2 "100" "5" ≡ ok of_leaf
unfolding leaf_lines leaf_hops leaf_hosts then_lines id_to_mac mac_to_ipv6_linklocal host_ip range
leaf_runs = refl

leaf_lines-addr2_example :
    (row : LinkRow) × (with_macs texts (bare (leaf_name texts 0) (spine_name texts 2)) ≡ ok row)
    × Forwards row.addr2 (0 + 2 + 1) of_leaf
leaf_lines-addr2_example =
    leaf_lines-addr2 texts neighbours 0 2 reads_one reads_three 0 2 "100" "5" of_leaf refl leaf_runs

abbrev names : List String
names = "LE1" ∷ "LE2" ∷ "SP3" ∷ []

host_rows-plain_example : host_rows texts 2 1 (0 * 2 + 1) names ≡ plain_rows texts 2 1 0 names
host_rows-plain_example = host_rows-plain texts 2 1 0 names (omega arith)

abbrev pub no_dirs : Files
no_dirs = record { is_dir = λ d. false; exists = λ d. false }

abbrev pub loads : Loader
loads = record { load_custom_object = λ v. ok v; issubclass = λ c n. ok true }

-- a client module with an option
abbrev module_conf : Option ModuleConf
module_conf = some (record {
  object_name = some "MyClient";
  spec = cls "MyClient";
  options = some (("retries", text "3") ∷ []);
})

abbrev with_client : Boot
with_client = (read_client no_dirs loads (flag true) (some "./log") module_conf fresh).1

client_runs :
    read_client no_dirs loads (flag true) (some "./log") module_conf fresh ≡ (ok tt, with_client)
unfolding read_client module_class set_switch_client set_module get
client_runs = refl

log_enabled_retries : ◌≢◌ {A = String} "log_enabled" "retries"
log_enabled_retries = ground (arith, string_eq.beq_iff "log_enabled" "retries")

log_dir_retries : ◌≢◌ {A = String} "log_dir" "retries"
log_dir_retries = ground (arith, string_eq.beq_iff "log_dir" "retries")

read_client-options_example :
    (c : Value) × (a : Attrs) × ((module_of "sw_cli" [] with_client).0 ≡ ok (c, a))
    × (get a "retries" ≡ get client.kwargs "retries")
read_client-options_example =
    read_client-options no_dirs loads (flag true) (some "./log") module_conf "retries" client fresh
      with_client log_enabled_retries log_dir_retries client_there client_runs
