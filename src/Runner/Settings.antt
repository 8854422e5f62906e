-- ===== src/Runner/Settings.antt =====
-- src/AppRunner.py: the constructor, which turns the JSON configuration into settings and calls.
pub mod Client
pub mod InOrder
pub mod Kept
use smoothie.Base.{
  false, ℕ, zero, suc, String, Bool, Option, none, some, List, [], ◌∷◌, arith, if◌then◌else◌, ◌==◌,
  nat_eq, string_eq, pair_eq,
}
use smoothie.Base.Dict.{Dict}
use smoothie.Base.Error.{Result, ok, error, file_error, type_error}
use smoothie.Base.Exec.{◌>>=◌, ◌>>◌, Exec, pure, raise, lift}
use smoothie.Network.Value.{flag, Value, text, cls, truthy, Attrs}
use smoothie.Network.Mininet.{Mininet, Task}
use smoothie.Network.Links.Library.{LinkLib}
use smoothie.Network.Strategies.{Plan}
use smoothie.Network.Settings.TaskFile.{add_task_file}
use smoothie.Network.Start.{
  Boot, makes_dir, sets_log_dir, on_api, act, set_compiler, set_net, set_switch_client,
}
use smoothie.Runner.{Loader, Conf, JsonScript, JsonLink, load_topology}

-- 'compiler_module' and 'client_module': the object, which `load_custom_object` reads, and options
pub record ModuleConf : Type 0 where
  pub object_name : Option String
  pub spec : Value
  pub options : Option Attrs

-- 'topology'
pub record Topology : Type 0 where
  pub hosts : Option (Dict String Attrs)
  pub switches : Option (Dict String Attrs)
  pub routers : Option (Dict String Attrs)
  pub links : Option (List JsonLink)
  pub default_opts : Attrs
  pub strategy : Option String

-- the configuration; a missing 'cli', 'enable_log' or 'pcap_dump' is false.
pub record FileConf : Type 0 where
  pub cli : Value
  pub enable_log : Value
  pub pcap_dump : Value
  pub p4_src : Value
  pub router_node : Option Value
  pub switch_node : Option Value
  pub host_node : Option Value
  pub compiler_module : Option ModuleConf
  pub client_module : Option ModuleConf
  pub mininet_module : Option Value
  pub topology : Option Topology
  pub exec_scripts : List JsonScript
  -- the lines of the file that 'tasks_file' names
  pub tasks_file : Option (List String)

-- os.path
pub record Files : Type 0 where
  pub is_dir : String → Bool
  pub exists : String → Bool

-- a text, or None
abbrev pub text_or_none : Option String → Value
text_or_none none = Value.nothing
text_or_none (some t) = text t

abbrev or_empty : Option Attrs → Attrs
or_empty none = []
or_empty (some a) = a

module _ (files : Files) (load : Loader) where
  -- A directory that is missing is made; os.path.isdir(None) raises.
  unfoldable pub ensure_dir : Option String → Exec Boot (Unit {0})
  ensure_dir none = raise type_error
  ensure_dir (some d) =
      if files.is_dir d
      then pure tt
      else if files.exists d
      then raise file_error
      else act (makes_dir d)

  -- os.environ[…] = None raises.
  unfoldable pub set_log_dir : Option String → Exec Boot (Unit {0})
  set_log_dir none = raise type_error
  set_log_dir (some d) = act (sets_log_dir d)

  -- the class of the configuration, or the default one
  unfoldable pub class_or : Value → Option Value → Result Value
  class_or default none = ok default
  class_or default (some spec) = load.load_custom_object spec

  -- the class of a module: the default one where it has no name
  unfoldable pub module_class : Value → ModuleConf → Result Value
  module_class default m = elim m.object_name [
    | none ↦ ok default
    | some name ↦ if name == "" then ok default else load.load_custom_object m.spec
  ]

  unfoldable pub read_compiler : Option ModuleConf → Exec Boot (Unit {0})
  read_compiler none =
      set_compiler (some (cls "P4C"))
        (("opts", text "--target bmv2 --arch v1model --std p4-16") ∷ ("p4rt", flag false) ∷ [])
  read_compiler (some m) = do
    c ← lift (module_class (cls "P4C") m)
    set_compiler (some c) (or_empty m.options)

  -- The options of a client module go into a variable that is not read again.
  unfoldable pub read_client : Value → Option String → Option ModuleConf → Exec Boot (Unit {0})
  read_client log_enabled log_dir client_module = do
    c ← lift (elim client_module [
      | none ↦ ok (cls "ThriftClient")
      | some m ↦ module_class (cls "ThriftClient") m
    ])
    set_switch_client (some c)
        (("log_enabled", log_enabled) ∷ ("log_dir", text_or_none log_dir) ∷ [])

  -- the constructor, up to the topology; the option `cli_enabled` that it is given is not read.
  unfoldable pub read_settings :
      FileConf → Option String → Option String → Exec Boot (Value × (Value × Value))
  unfolding set_log_dir
  read_settings fc log_dir pcap_dir = do
    (if truthy fc.enable_log then ensure_dir log_dir else pure tt)
    set_log_dir log_dir
    (if truthy fc.pcap_dump then ensure_dir pcap_dir else pure tt)
    router ← lift (class_or (cls "FRRouter") fc.router_node)
    switch ← lift (class_or (cls "P4Switch") fc.switch_node)
    host ← lift (class_or (cls "SRv6Host") fc.host_node)
    read_compiler fc.compiler_module
    read_client fc.enable_log log_dir fc.client_module
    net ← lift (class_or (cls "P4Mininet") fc.mininet_module)
    set_net (some net) []
    pure (host, (switch, router))

  -- what the methods that read the topology are given
  unfoldable pub conf_of :
      FileConf → Topology → Option String → Option String → Value × (Value × Value) → Conf
  conf_of fc t log_dir pcap_dir classes = record {
    hosts = t.hosts;
    switches = t.switches;
    routers = t.routers;
    links = t.links;
    default_opts = t.default_opts;
    strategy = t.strategy;
    exec_scripts = fc.exec_scripts;
    cli_enabled = truthy fc.cli;
    p4_src = fc.p4_src;
    host_node = classes.0;
    switch_node = classes.1.0;
    router_node = classes.1.1;
    log_enabled = fc.enable_log;
    log_dir = text_or_none log_dir;
    pcap_dump = fc.pcap_dump;
    pcap_dir = text_or_none pcap_dir;
  }

  module _ (mn : Mininet) (lib : LinkLib) (plan : Plan)
      (parse_task_line : String → Result (String × (Task × Bool))) where
    -- The topology is read once the settings are; then come the tasks.
    unfoldable pub read_topology :
        FileConf → Option String → Option String → Value × (Value × Value) → Exec Boot (Unit {0})
    read_topology fc log_dir pcap_dir classes = elim fc.topology [
      | none ↦ raise error
      | some t ↦ on_api (load_topology mn lib plan load (conf_of fc t log_dir pcap_dir classes))
    ]

    -- `AppRunner(conf, log_dir, pcap_dir)`
    unfoldable pub app_runner : FileConf → Option String → Option String → Exec Boot (Unit {0})
    unfolding read_topology
    app_runner fc log_dir pcap_dir = do
      classes ← read_settings fc log_dir pcap_dir
      read_topology fc log_dir pcap_dir classes
      elim fc.tasks_file [
        | none ↦ pure tt
        | some lines ↦ on_api (add_task_file mn parse_task_line lines)
      ]
