-- ===== src/Lib.antt =====
-- psa-dhcp: a DHCP server (psa-dhcpd) and a DHCP client (psa-dhcpc). Every packet is a DHCP message
-- in a UDP segment in an IPv4 packet; the server keeps a database of leases and answers, the client
-- asks and configures an interface.
--
-- The files, and the code that each is about:
--   Base         names that the others share; lists of bytes, big-endian numbers, results
--   Net          package net of Go: addresses are lists of bytes, `nil` is the empty list
--   Dhcpmsg      lib/dhcpmsg: `Message`, `DHCPOpt`, `Assemble`, `Decode`, `DecodeOptions`
--   Layer        lib/layer: `IPv4`, `UDP`, `ARP`, their `Assemble` and `Decode`, the checksums
--   Ipdb         lib/server/ipdb: `Uip`, `Duid`, `Clients` and `IPDB`
--   Server       lib/server: `New` (Config), the packets of lib/server/replies, and the options and
--                handlers of server.go, netio.go, utils.go and run.go
--   Leaseopts    lib/server/leaseopts: the options of a lease, from the configuration
--   Client       lib/client: the messages (msgtmpl), the check of replies (verify), the state
--                machine (dclient, filter.go), the script (callback), how requests are sent
--                (Send, of dclient/netio.go) and the main loop (Mclient)
--   Resolvconf   lib/resolvconf: the hook that writes /etc/resolv.conf; Client/Hook joins it to the
--                script's environment
--   Libif        lib/libif: the calls of netlink; Arpping, Ifmon, Rsocks, Oui (with lib/server/ylog)
--                are the packages of the same names
--   Cmd          cmd: what the two programs do for their flags
--   Client/Accepted and Client/Dclient/Leases join the server's packets to the client's machine,
--                Client/Heard the client's requests to the server's handlers;
--                Dhcpmsg/Grammar describes the bytes that `Decode` accepts without its loop
--   Tests        the definitions at concrete inputs
--
-- Correspondence. A Go function `f` is a definition of the same name in lower case with
-- underscores; a field keeps its name, but `Data` is `payload`. A byte and an unsigned integer of
-- w bits is a natural number, with `% 2 ^ w` where the code wraps around. The map of clients holds
-- pointers; a pointer is a number, and `cell` is what it points to. A method that changes the
-- database takes it and returns it; each holds the lock of the database, so a call is one step.
--
-- Parameters: the clock (each call reads its own), `rand.Perm`, whether the context is done, the
-- answers of ARP pings and of the rate limiter. Loops are structural over lists, but for the loop over the options of a
-- message, whose fuel is the length of the buffer (each round moves on by a byte at least), and the
-- folding of a checksum, whose fuel is 2: two rounds bring a sum below 2 ^ 32 below 2 ^ 16.
--
-- A handler of the server takes a `World`: the clock, what other handlers do to the database between
-- its calls, ARP answers. A run of a client's state takes an `Event`: the clock, the packets that are
-- read until the deadline, the answers of ARP and of the system, and what the rate limiter of
-- golang.org/x/time/rate answers after the run. `Client.Dclient.run` is the `switch` of `Run`, and
-- `round` is the whole round, with the panic of a client that the limiter refuses.
--
-- The view of the database as a table of leases is Ipdb/Table. `Calls` (Ipdb/Db/Reserved) is any
-- sequence of calls of the database's methods, at any times and by any handlers.
--
-- What calls the system returns the calls that it makes, in their order, for the answers that it
-- gets: `Resolvconf.update`, `Libif.set_iface`. `encoding/csv`, `sort.Ints`, package `flag`, the
-- printed form of an address that is not IPv4 and the table of vendors are parameters.
--
-- Not modelled: the text of the log but for its prefix, the sockets' system calls, signals, sleeps,
-- the tokens of the rate limiter, and the channel between the monitor and the main loop, as they are
-- I/O and timing; the code of the configuration that protoc generates; the 30,466 lines of
-- the table of vendors, which are generated data.
pub mod Base
pub mod Net
pub mod Dhcpmsg
pub mod Layer
pub mod Ipdb
pub mod Leaseopts
pub mod Server
pub mod Client
pub mod Resolvconf
pub mod Libif
pub mod Arpping
pub mod Ifmon
pub mod Rsocks
pub mod Oui
pub mod Cmd
pub mod Tests
