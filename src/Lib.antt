-- ===== src/Lib.antt =====
-- PyMesh, an encrypted private mesh network: a library of models and theorems about its controller,
-- its DNS servers, its relay, its discovery of addresses, the daemon of a node and
-- its command line.
--
-- The program. A controller (pymesh/controller) keeps networks, nodes, subnet routes, access rules,
-- join tokens, published top-level domains and federated controllers in tables
-- (pymesh/storage/models.py) behind HTTP handlers (pymesh/controller/api.py). A node registers and
-- gets an IPv4 and an IPv6 address of the network's pool, sends heartbeats, and fetches its peers
-- and routes. DNS servers answer names of nodes and of published domains: one beside the controller
-- (pymesh/dns/server.py), one in each daemon (pymesh/networking/dns.py). A relay sends datagrams on
-- between nodes that cannot reach each other (pymesh/relay), and the daemon finds its public
-- address
-- and the kind of its NAT by STUN (pymesh/discovery).
--
-- The files.
--   Base: shared types, Boolean tests, lists, texts as lists of code points, decimal numbers,
--     dictionaries in order of insertion, bytes, and the exceptions as a result type.
--   Ipv4: what the program uses of Python's `ipaddress` for IPv4: addresses, networks with prefix
--     lengths, netmasks and hostmasks, and the range of `hosts()`.
--   Allocator: pymesh/controller/allocator.py. `allocator` is the constructor of IPAllocator,
--     `next_free` the loop of `allocate`, `derive_v6` the rest of it.
--   Acl: pymesh/controller/acl.py, with the dicts of a node and a rule as records.
--   Controller: the tables (Models), a handler as a function from the tables to a result and the
--     tables it leaves (Action), and the handlers of pymesh/controller/api.py with the
--     managers they
--     call: Auth (auth.py), Nodes (nodes.py), Peers (peers.py), Rules, Routes, Subnet, and Registry
--     (the domain and federation handlers, with federation.py), and Views (what is shown of rows).
--     Requests has all the requests that change tables, served one after another.
--   Tld: pymesh/dns/tld.py. The regular expression of a name is the function `matches_pattern`.
--   Dns: the packets of pymesh/dns/server.py; Dns/Server, its cache and resolution,
--     with its datagrams (Udp), the query to the upstream server (Upstream) and the ports of both
--     servers (Sockets); Dns/Magic, the resolver of pymesh/networking/dns.py.
--   Relay: pymesh/relay/protocol.py and the datagram handler of pymesh/relay/server.py;
--     Relay/Client is pymesh/relay/client.py.
--   Networking: pymesh/networking/wireguard.py, firewall.py, routes.py and interfaces.py as the
--     commands that are run and the answers given; what the system answers is a function of the
--     command, and pyroute2 is the record Netlink.
--     Networking/Hosts is pymesh/networking/hosts.py, its section of /etc/hosts.
--   Identity: pymesh/identity/node.py, and the search for the identity by the daemon;
--     Identity/Keys is keys.py and certificates.py.
--   Daemon: pymesh/daemon/lifecycle.py and state.py. `sync_with_controller` is one round; it
--   returns
--     the daemon and a report of what it does outside. Life has the loop as a step relation, where
--     a stop may come in the middle of a round, which it cancels; Stopping and Recovery are about its runs. Daemon/Endpoints is pymesh/discovery/endpoints.py.
--   Cli: pymesh/cli. A handler of commands.py returns what it does in order (Effect), how it
--   ends and
--     the file of the identity; Output has the tables of output.py, Main the commands of main.py.
--     Forward/Streams is the copying of bytes of the port forwarding, as a step relation.
--   Services: the processes, controller/app.py, relay/app.py, pymesh/daemon/main.py and the DNS
--     server on its own, with what they print and where they listen.
--   Console: the sessions of pymesh/controller/web.py; Console/Dashboard is the script of its
--     dashboard as what the page holds and what its buttons do, with what it draws in Canvas and
--     Carousel. App: the requests of controller/app.py; Tld/Page is the page
--     that it shows.
--   Stun: the parser of pymesh/discovery/stun.py and the classification of pymesh/discovery/nat.py,
--     with the request (Request) and the hole punching of pymesh/discovery/peers.py (Punch).
-- A module Laws, or one named for what it proves, stands below the model it is about; witnesses and
-- runs at concrete inputs stand in modules named Tests.
--
-- State and effects. A table is the list of its rows in the order of insertion. A SELECT by a key
-- takes the first row that meets it. An INSERT is refused, as by the database, if the new row has
-- the primary key or a unique column of a row that is there; the change of the addresses of all
-- nodes is
-- checked at each UPDATE, in the order of the ids, over the table as it is then. What is committed before an exception stays.
-- The time, random ids and tokens, and the answers of other servers are arguments. Requests run one
-- after another.
--
-- Texts. `lower` and `strip` are those of ASCII texts. The decoding of bytes as ASCII drops bytes
-- from 128 on, as the code asks for.
--
-- Parameters. The reading and printing of IPv6 texts are the record Ipv6 of Allocator, with the law
-- that different addresses have different texts. Base64 and SHA-256 are fields of Env in
-- Controller/Nodes, without laws. The package `cryptography` is the record Crypto of Identity/Keys:
-- a key and a base64 text are read back, and a signature is valid for the public key of its key.
-- Witnesses instantiate all of them. The machine of a daemon is the record World of Daemon; `expand` in it is what `re.sub` makes of
-- a replacement text, which is the text itself where that has no backslash. A round reads the
-- identity when it begins, and nothing comes between its begin and its end but `stop`, after which the process ends.
--
-- Fuel. The loops over the labels of a name (`labels_from`) and the loop over the attributes of a
-- response (`read_attributes`) move forward in every round, so one round more than there are bytes
-- is enough for each. Other loops are structural.
--
-- Not modelled: the reading of arguments by typer, the layout and the styles of the pages of
-- pymesh/controller/web.py, the operations of sockets, and the database engine.
pub mod Acl
pub mod Allocator
pub mod App
pub mod Base
pub mod Cli
pub mod Console
pub mod Controller
pub mod Daemon
pub mod Dns
pub mod Identity
pub mod Ipv4
pub mod Networking
pub mod Relay
pub mod Services
pub mod Stun
pub mod Tld
