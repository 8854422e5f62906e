-- ===== src/Lib.antt =====
-- Smoothie steers traffic with in-band telemetry. This library models the parts of the
-- repository that decide: the collector of telemetry reports, which weighs links and chooses
-- segment routes; the description of a network, whose nodes, links and options the emulation
-- starts from; and the topologies that are generated for it.
--
-- Helper.antt models src/helper.py: addresses that are made of MAC addresses. An address stands
-- as its number, and the texts of MAC addresses are read digit by digit.
--
-- Collector.antt and its modules model src/int_collector_influx.py:
--   Collector/PathInfos.antt       class path_infos; PathInfos/Regression.antt has linreg
--   Collector/Hop.antt             class HopMetadata: one parser for each bit of the instructions;
--                                  Hop/Sent.antt has what a switch writes for them, by the actions
--                                  of p4_src/include/int_transit.p4
--   Collector/Report.antt          class IntReport: fixed header, flow, shim, INT header, hops; the
--                                  parts are in Report/Flow.antt and Report/Loop.antt
--   Collector/NetGraph/*.antt      class NetGraph: Weights (digests, weights, __init__), Paths
--                                  (select_path), Export (path_to_ips, export_path), Update
--                                  (update_infos, in steps)
--   Collector/Server.antt          unpack_int_report and the loop of start_udp_server
--   Collector/Influx.antt          class IntCollector; Influx/Send.antt has __send_reports
-- A report is a list of bytes. Methods that change an object and may raise are functions from
-- the state to a result and a state (Base/Exec.antt): what was changed before an exception
-- stays. The topology, the floats, hashlib, the random sample, the clock, the Thrift client and
-- the data base are parameters (NetGraph/Env.antt, Influx.antt, PathInfos/Regression.antt),
-- since their code is not in the repository.
--
-- Network.antt and its modules model the class NetworkAPI of src/Network_API_l.py:
--   Network/Mininet.antt           the state, and what mininet and p4utils give: a record of
--                                  operations with the laws that the proofs use
--   Network/Ids.antt               lists of nodes, ids and ports in use, and the next free ones
--   Network/Nodes.antt             addNode to addRouter, getNode, updateNode, deleteNode, popNode
--   Network/Settings.antt          the setters of a node; Settings/Every.antt those of all nodes,
--                                  Settings/Tasks.antt the scheduler's tasks
--   Network/Flags.antt             the options of the whole network
--   Network/Links/Library.antt     what Topo and MultiGraph give for links, with the laws that the
--                                  proofs use
--   Network/Links/Rows.antt        node_ports, node_intfs, mac_addresses, ip_addresses, auto_port_num
--   Network/Links/Store.antt       addLink, getLink, updateLink, deleteLink, popLink; Store/*.antt are
--                                  proofs, and Store/Invariant.antt says when links are in order
--   Network/Links/Ends.antt        the options of a link, seen from its other end
--   Network/Links/Setters.antt     setBw to setMaxQueueSizeAll
--   Network/Links/Auto.antt        auto_assignment, the free addresses, the default interfaces
--   Network/Strategies.antt        what the strategies share; Strategies/L2.antt, Mixed.antt and
--                                  L3.antt have l2, mixed and l3
--   Network/Cpu.antt               enableCpuPort to disableCpuPortAll
--   Network/Links/Reachable.antt   the states that calls of these methods lead to
--   Network/Settings/TaskFile.antt addTaskFile
--   Network/Start.antt             the constructor, module, setCompiler, setNet, setSwitchClient
--   Network/Start/Compile.antt     compile
--   Network/Start/Hosts.antt       program_hosts, with the ARP tables and the gateways' entries
--   Network/Start/Switches.antt    program_switches
--   Network/Start/Tasks.antt       start_scheduler, start_schedulers, distribute_tasks
--   Network/Start/Run.antt         exec_scripts, startNetwork, stop_exec_scripts, stopNetwork
-- Options are texts, numbers, flags, classes, floats, dictionaries of texts, and None. The
-- keys of links in a description are numbers, and True is not the port 1. The
-- object that edge[a][b] and edge[b][a] share is written in both places. The keys of links in a
-- description are numbers, and no port is True or False. What the start of a
-- network does outside of the program is an entry of a log; the classes of p4utils, the
-- operating system and the clock are the parameter World of Network/Start.antt. Log lines of
-- the program are left out, and so is the share of the CPU that each host gets.
--
-- Networking.antt models src/networking.py: the commands that join the switches to the
-- collector.
--
-- Runner.antt models the topology of a JSON description, as src/AppRunner.py makes it into
-- calls: its parse_hosts, parse_switches, parse_routers, parse_links and execute_scripts.
-- Runner/Settings.antt models the rest of its constructor: directories, classes, modules and
-- the file of tasks. app.py makes an AppRunner and calls its startNetwork; Runner/Settings/
-- InOrder.antt is about the two together.
--
-- Topo.antt models the matrices of topos/TopoGenerator.py; Topo/Joined.antt says which switches
-- they link. Topo/Commands.antt has the commands of each generated switch, as values with the
-- numbers and addresses that stand in a line, and Topo/Description.antt the JSON description.
-- Topo/Degrees.antt models calOddNum.
--
-- Base.antt has the shared names, tests, lists, dictionaries, exceptions, bytes and integers.
-- The files under Tests/ apply the theorems to concrete inputs.
--
-- Every loop is structural, over the hops, the bytes, the nodes, the links or the messages, and
-- none has fuel, but for the printing of a number: its rounds are the number itself, which is
-- enough since each round divides it by the base. A loop over random draws or over the
-- addresses of a network goes over a list. An empty list raises StopIteration, as the generator
-- of addresses does; the draws of a MAC address are as many as the caller needs. The number of
-- rounds of the hop loop is the number that the report announces. Fields of w bits are numbers
-- below 2 ^ w where a theorem needs it; the program's own masks and shifts are written out.
--
-- Not modelled: saving the topology, the benchmarks, the command line, the host tools, sockets
-- and plots, which are I/O; the P4 and C code, which is another language, but for
-- the fields that a switch writes for the bits of the instructions; and
-- empirical-traffic-gen, which is a copy of another project.
pub mod Base
pub mod Helper
pub mod Collector
pub mod Network
pub mod Networking
pub mod Runner
pub mod Topo
pub mod Tests
