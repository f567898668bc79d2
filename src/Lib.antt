-- ===== src/Lib.antt =====
-- Verification of sing-tun: the parts that translate, split, check and answer packets, and the
-- configuration that they work with.
--
-- The parts of the program and the files that model them (paths from the repository's root):
--   Nat: stack_system_nat.go. TCPNat gives each TCP flow, a pair of source and destination, a local
--     port, and LookupBack finds the flow of a port. TcpNat is the struct; a *TCPSession is a number
--     that the heap maps to the session. touch is (*TCPSession).refresh; lookup is Lookup,
--     lookup_resume what it does after its first read, lookup_locked the part under the write locks;
--     collect and sweep are the two halves of checkTimeout; allocate is the loop of
--     allocatePortLocked. Nat.Threads runs callers and the expiry loop together: a step is what one
--     thread does between taking locks and releasing them, so that every interleaving is a path.
--   Checksum: internal/gtcpip/checksum (calculateChecksum, Combine), internal/tschecksum
--     (checksumGeneric64, checksumGeneric64Alternate) and internal/gtcpip/header/checksum.go.
--     Checksum.Ones has the independent description: canon of the sum of the big-endian words.
--   Gso: GSOSplit of tun_offload.go. gso_split makes the checks, split_loop is the loop, segment one
--     round of it. It uses Checksum for the headers that it writes.
--   Gro: tun_offload_linux.go, the receive offload. Buf is an element of bufs; encode and decode are
--     the virtio header; Gro.Udp is the UDP table and coalescing, Gro.Udp.Run is udpGRO. The table
--     is a function from flow keys; its pool of slices is a count. lookupOrInsert is in evaluate.
--   Tcp: ParseSynOptions, ParseTCPOptions and the option encoders of internal/gtcpip/header/tcp.go.
--   Seqnum: internal/gtcpip/seqnum and Acceptable of internal/gtcpip/header/tcp.go.
--   Header: the fields, checksums and Encode of internal/gtcpip/header (ipv4.go, tcp.go, udp.go,
--     icmpv4.go); Header.Ipv6 is ipv6.go and icmpv6.go. The other child modules have lemmas.
--   System: stack_system.go. System.Process is processPacket, which calls System.Tcp, System.Udp and
--     System.Icmp for IPv4 and those of System.Six for IPv6; these use Nat and Header. System.Udp and
--     System.Six.Udp also have WritePacket of the UDP writers, which the handler calls later.
--     System.Loops is tunLoop and batchLoopLinux between two reads. The calls out of the stack, to
--     the device, the handler and direct routes, are a list of effects, and what comes back is an
--     argument. directNat is a library's cache and not part of System: each Lookup, which may change
--     the cache, is an effect, and its answer an argument. In System.Loops the calls and the writes
--     are one list.
--   Ping: ping/source_rewriter.go and ping/destination_rewriter.go, for both IP versions.
--   Options: the addresses, DNS servers and gateways of tun.go, HasNextAddress and BroadcastAddr of
--     stack.go, and the checks of NewSystem.
--   Monitor: defaultInterfaceMonitor of monitor_shared.go.
--   Packages: packages_android.go.
--   Base: lists, byte buffers with Go's copy and slicing, and addresses.
--
-- Conventions. Numbers are natural numbers; a w-bit operation has its wrap-around written out.
-- A panic is none, and so is running out of fuel in the option parsers, which get one unit of fuel
-- more than there are bytes; every round takes a byte at least. The other loops are by recursion on
-- a list or on the counter of the source. A shift or a bit mask is a division or a remainder. The
-- byte order of the host and the address of a buffer are arguments of the checksums.
-- An IP packet is three slices that do not overlap: header, payload and what follows the total
-- length. PacketOffset is 0, as on all systems but Darwin, and the head room in front of a packet is
-- left out. An address is its 32 or 128 bits in System and Options, its bytes in Ping.
--
-- Not modelled: the clock (times are arguments), locks other than by the steps of Nat.Threads, and
-- input of GSOSplit that overlaps its first buffer. A slice's capacity is taken to be its length.
-- Logging is left out, and so are the errors that are only logged. The sockets, the devices, the TCP
-- side of the receive offload and its accounting, the IPv4 options, IPv6 extension headers, routes
-- and firewall rules, and the stacks of other projects are left out.
pub mod Base
pub mod Checksum
pub mod Nat
pub mod Seqnum
pub mod Tcp
pub mod Gso
pub mod Header
pub mod System
pub mod Ping
pub mod Monitor
pub mod Options
pub mod Packages
pub mod Gro
