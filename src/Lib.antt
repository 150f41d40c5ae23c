-- ===== src/Lib.antt =====
-- LiteEth: the Ethernet cores of liteeth/, gateware that Migen generates from Python. The MAC
-- (liteeth/mac/) frames packets for a PHY: padding, CRC, preamble and gap on the way out, and the
-- checks of these on the way in. The protocol cores (liteeth/core/) stand on it: ARP, IP, ICMP and
-- UDP. All are modules with a sink and a source, streams of beats under a valid/ready handshake,
-- and a finite state machine in between.
--
-- A module is modelled as a function from its registers, the signals of its sink and the `ready` of
-- its source to its next registers and the signals that it drives (Stream.antt). An FSM's state is
-- a data type, `NextState` and `NextValue` are the next registers, statements outside the FSM are
-- part of every state's clause. A state of the FSM whose name is a word of the model's language or
-- stands for another thing has a longer name: `waiting` is GAP, `hunt` is PREAMBLE of the checker.
-- A register of w bits wraps at 2 ^ w where the source adds to it; the widths that Migen works out
-- from `max=` are parameters, with the bound that the source's `max=` gives as a hypothesis. The
-- endpoints' `first` is left out, since no module here reads it.
--
-- A run (Stream.run) puts a module between an upstream that has a list of beats and a downstream,
-- on a schedule: on each cycle the upstream offers its next beat or not, and the downstream is
-- ready or not. A beat that is offered and not taken stays, as the handshake asks.
-- Stream/Contract.antt has what it takes to show that a module computes a function of its input
-- under every schedule: a state's remaining output, and the work that a cycle on which both are
-- willing makes less. Stream/Packets.antt has packets, the runs of beats that `last` ends.
--
-- Mac/Crc/Engine.antt is `LiteEthMACCRCEngine` of liteeth/mac/crc.py: `_optimize_eq` is
-- `optimize_eq`, the loops over `i` and `j` are `round` and `mix`, and `next` the equations they
-- leave. Mac/Crc/Engine/Serial.antt has the shift register that takes one bit at a time, as their
-- reference. Mac/Crc/Crc32.antt is `LiteEthMACCRC32`; Mac/Crc/Residue.antt and Mac/Crc/Crc32/ are
-- about the constant that the checker compares with. Mac/Crc/Inserter.antt is
-- `LiteEthMACCRCInserter` and Mac/Crc/Checker.antt `LiteEthMACCRCChecker`. The checker's queue is a
-- `SyncFIFO` of LiteX: Stream/Fifo.antt has its signals as an interface, the laws of a queue with
-- the oldest beat at its source, and the list that obeys them. Mac/Receive/ is about the preamble
-- checker with the CRC checker behind it, first the two alone and in Mac/Receive/Buffered.antt with
-- the buffer between them, a `Buffer` of LiteX (Stream/Buffer.antt has its laws and an instance).
-- The buffer lets the checker lose a beat under stalls of the downstream, and so the two are shown
-- right towards one that is ready. In Mac/RoundTrip.antt are the stages of liteeth/mac/core.py in
-- their order: on the way out each stage takes the beats that the one before has sent, so that the
-- buffer before the CRC inserter makes no difference, and on the way in the checkers are connected.
-- Mac/Preamble.antt, Mac/Padding.antt, Mac/Gap.antt and Mac/LastBe.antt are the modules of the
-- files of those names.
--
-- Core/Arp/Table.antt is `LiteEthARPTable` of liteeth/core/arp.py: `act` is the FSM's state,
-- `latch` the registers around it. The statements of an FSM come after those of the module, so that
-- they win: `counter_reset` is an option. Core/Arp/Packet.antt has `LiteEthARPTX` and
-- `LiteEthARPRX`. Core/Ip/Checksum.antt, Core/Ip/Tx.antt and Core/Ip/Rx.antt are the classes of
-- liteeth/core/ip.py; Core/Ip/Tx/Unreachable.antt has the transmitter and the table together, as
-- liteeth/core/__init__.py connects them. The receivers of IP and ICMP have the same FSM,
-- Core/Gate.antt, and the transmitters of ICMP and UDP have the same, Core/Send.antt.
-- Core/Icmp.antt is liteeth/core/icmp.py and Core/Udp.antt is liteeth/core/udp.py.
--
-- Mac/Sram.antt is liteeth/mac/sram.py: Mac/Sram/Writer.antt is `LiteEthMACSRAMWriter`, a machine
-- whose sink is always ready (Machine.antt has the runs of such machines), and Mac/Sram/Reader.antt
-- is `LiteEthMACSRAMReader`, a module with the FIFO of commands as its upstream. A memory is a
-- function of slot and address; an address has the bits of a memory's port.
--
-- Phy/Pcs.antt is liteeth/phy/pcs_1000basex.py. Phy/Pcs/Transmit.antt is `TransmitPath` and
-- Phy/Pcs/Receive.antt `ReceivePath` with the source of `PCS`; the symbol at the encoder's `k` and
-- `d` is the output of the one and the input of the other. Phy/Pcs/Frame.antt and
-- Phy/Pcs/Config.antt put the two together. Phy/Pcs/Ability.antt has the registers of `PCS` in the
-- receiver's clock domain, Phy/Pcs/Autoneg.antt the checker and the FSM in the transmitter's; the
-- pulse synchronizers between the two are inputs.
--
-- Frontend/Etherbone.antt is liteeth/frontend/etherbone.py. Frontend/Etherbone/Receiver.antt and
-- Frontend/Etherbone/Sender.antt are `LiteEthEtherboneRecordReceiver` and
-- `LiteEthEtherboneRecordSender` behind their packet FIFOs, Frontend/Etherbone/Master.antt is
-- `LiteEthEtherboneWishboneMaster` with any Wishbone slave behind it (an interface, `Bus`),
-- Frontend/Etherbone/Slave.antt is `LiteEthEtherboneWishboneSlave`, and
-- Frontend/Etherbone/Packet.antt has the transmitter and receiver of packets and the probe.
-- Frontend/Etherbone/RoundTrip.antt has the stages of a master in the order of `LiteEthEtherbone`,
-- Frontend/Etherbone/Remote.antt a slave on one side and a master on the other.
--
-- Frontend/UdpStream.antt is liteeth/frontend/stream.py: `tx_step` and `rx_step` are a clock cycle
-- of `LiteEthStream2UDPTX` and `LiteEthUDP2StreamRX` on any FIFO with the laws of Stream/Fifo.antt.
-- Frontend/UdpStream/Datagrams.antt and Frontend/UdpStream/Order.antt have what is sent,
-- Frontend/UdpStream/Ready.antt when, and Frontend/UdpStream/Through.antt the two connected by a
-- network that keeps the order.
--
-- Crossbar.antt is liteeth/crossbar.py with the `get_port` of the crossbars of
-- liteeth/mac/common.py, liteeth/core/ip.py and liteeth/core/udp.py; Crossbar/Dispatch.antt is
-- about the user that a packet goes to. The protocol cores above are users of these.
--
-- There is no fuel: a run ends with its schedule, and that a module gets its work done is a
-- theorem, for schedules with enough willing cycles. These are counted per beat and per packet, so
-- any schedule that goes on with willing cycles comes to it.
--
-- Not modelled: the packetizers, depacketizers, FIFOs, converters, arbiters and timers of LiteX and
-- Migen, which are inputs of the model where a module uses them; the buffer that
-- liteeth/mac/core.py puts before the CRC inserter; the wiring of the crossbars; in the SRAM the
-- time stamps, interrupts and bus registers; in Etherbone the byte order, the saved IP address and
-- the arbiter; in the PCS the choice of the speed; the PHYs, which are instances of vendor
-- primitives; the generator, the scripts and the tests.
pub mod Prelude
pub mod Stream
pub mod Machine
pub mod Mac
pub mod Core
pub mod Phy
pub mod Crossbar
pub mod Frontend
pub mod Tests
