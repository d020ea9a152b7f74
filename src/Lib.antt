-- ===== src/Lib.antt =====
-- sacn: sending and receiving of DMX data over a network by ANSI E1.31 (streaming ACN). This
-- development models the packets of src/packet.rs, the receiver of src/receive.rs, the source of
-- src/source.rs, and the demo programs examples/demo_src and examples/demo_rcv.
--
-- The program's parts. A packet is four layers, one inside the other, each with `parse`, `pack`
-- and `len`: the ACN packet (`AcnRootLayerProtocol`), the root layer with the UUID of the source
-- (`E131RootLayer`), a framing layer (data, synchronisation or universe discovery), and in it the
-- DMP layer with the values or the list of universes. The receiver reads a packet from its socket,
-- parses it and gives the payload to one of three handlers. The handler of data checks the
-- sequence number of the packet, and hands its data on at once or keeps it until a synchronisation
-- packet comes; the handler of synchronisation packets releases that data; the handler of universe
-- discovery packets puts the pages of a source together.
--
-- The files.
--   Common       Boolean tests, lists, outcomes, state passing and hash maps that all parts share.
--   Error        The errors of src/error.rs and src/sacn_parse_pack_error.rs.
--   External     The crates byteorder and uuid: interfaces with the laws that they document.
--   Packet       src/packet.rs. Constants, Universe (ranges and multicast addresses, with theorems
--                in Addresses), Buffer (slices of a mutable buffer), Pdu (`pdu_info` and the
--                fields of a header), Name (source names), then a module for each layer: Dmp,
--                DataFraming, Sync, DiscoveryLayer, DiscoveryFraming, Root and Acn. The module
--                RoundTrip below a layer says what its `pack` writes and that its `parse` reads it
--                back.
--   Receive      src/receive.rs. Sequence (`SequenceNumbering`, `check_seq_number`,
--                `check_timeouts`, `remove_source_universe_seq`), Merge (the merge functions),
--                Discovery (`DiscoveredSacnSource`), Network (`SacnNetworkReceiver` on Unix),
--                Windows (what differs there), Ordering (the order of `DMXData`), Receiver (the
--                state and the methods that handle no packet), Handlers (`handle_data_packet`,
--                `handle_sync_packet`, `handle_universe_discovery_packet` and what they call);
--                Recv has the loop of `recv`, and below it what ends it; Creation makes, sets up
--                and drops a receiver; Listening, Waiting, Delivery and Handing have the theorems
--                on the receiver, Growing what `recv` does with its universes, and Lifetime what
--                holds from its creation on.
--   Source       src/source.rs. Source has `SacnSourceInternal`, its registered universes and the
--                packets it builds, Sending the methods that send them, Creation how it is made
--                and its settings; Handle is `SacnSource` with its mutex, and Threads below it the
--                user and the update thread as a step relation: Calls says what the calls keep,
--                Safety what holds in every state, Ending when `drop` can join the thread.
--                Universes, Checks, Keeping, Parts and Behaviour have the theorems on its
--                universes, on what `send` checks and leaves alone, on how data and universes are
--                cut, and on what is sent with which number.
--   Session      A source and a receiver on a link that loses nothing: data in InOrder, the pages
--                of universe discovery in Pages and Discovery, and in Sources the discovered
--                sources that they are put into.
--   DemoSrc      examples/demo_src/src/main.rs. Input parses the words of a line, Program has the
--                state of the program, its clock and its loops, Presets and Acceptance what the
--                loops send, Commands and Loops the commands, Dispatch `handle_input` and the loop
--                of `main`; Ending, Total, Handled and Lines have the theorem that they end, with
--                what a line returns or with its panic.
--   DemoRcv      examples/demo_rcv/src/main.rs. Printing is what is printed and written to a file,
--                Program the state and the calls, Commands and Dispatch the commands,
--                `handle_input` and the loop of `main`; Sorted says in which order data is
--                printed.
--   Tests        Concrete packets, receivers and sources, and the theorems applied to them.
--
-- How the code corresponds. A call that can fail is an `Outcome`: `ok`, `err` with an error of the
-- library, or `panic` where the code indexes or slices out of bounds. A method on `&mut self`
-- takes the state and returns the outcome with the state that it leaves, also when it fails. A
-- buffer that is packed into is a list of bytes that each write returns anew. Numbers are natural
-- numbers; the subtraction of sequence numbers keeps its wrap-around, and the cast to a signed
-- byte is written out. A hash map is an association list; theorems speak of what a key maps to, or
-- of the order of iteration where the code depends on it. An `Instant` is a number of
-- milliseconds, and a call that reads the clock takes it as its argument `now`, and `later` for a
-- second reading. The text that a source adds to an error of its socket is left out. A `String` or
-- `str` is the list of its bytes.
--
-- Only the loop of `recv` and the timed loops of the demo source run on fuel, one unit for each
-- turn: a number of reads in each unit of time that the socket does not exceed gives fuel that is
-- enough for a timeout, and the sleep in each turn of a timed loop gives fuel for its time. Every
-- other loop runs over a list, or counts down the pages or the universes that are left.
--
-- Not modelled: debugging, cloning, hashing and the comparisons that are derived; the small
-- examples and the test drivers. Of the demo programs, their creation is left out, and what the
-- demo source prints; the arithmetic of `f64`, the clock, files and the texts of IPv6 addresses
-- are parameters.
pub mod Common
pub mod DemoRcv
pub mod DemoSrc
pub mod Error
pub mod External
pub mod Packet
pub mod Receive
pub mod Session
pub mod Source
pub mod Tests
