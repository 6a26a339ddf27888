-- ===== src/Lib.antt =====
-- A verification library for obfs, carrier-agnostic traffic shaping for Go byte streams.
--
-- The root package (obfs.go, conn.go, morph.go, fill.go) wraps a net.Conn and re-frames its bytes
-- into cells: of one size, or in morpher mode of sampled sizes. packet.go does the like for
-- datagrams. reality/ tells probes from clients by the SNI of a peeked ClientHello and a token.
-- xreality/ does so by a token that is sealed in the ClientHello's session ID, and xrayreality/ is a
-- client for servers of the REALITY protocol. tlscamo/ dials TLS with the ClientHello of a browser,
-- webrtc/ carries a connection over a data channel, and hop/ chooses an address by the time.
--
-- Files and what they model:
--   Base            names, lists, bytes, Go's calls as outcomes (value, error, panic), slices.
--   Gate            a listener in front of another: the accept loop, the channel without a buffer, Accept
--                   and Close as steps in any order; Keeps is what they keep.
--   Splice          the two copying goroutines behind passthrough and reverseProxy, with closeBoth;
--                   Transparent is what they keep.
--   Wire            the base connection: a stream of bytes that ends in an error, a sink that may
--                   fail, io.ReadFull.
--   Fill            fill.go: ZeroFill, RandomFill, PrintableFill, over math/rand as a parameter.
--   Shaper          obfs.go and newShapedConn of conn.go: Policy, the defaults, shapedConn's fields.
--   Shaper.Frame    the wire format of both modes, by itself.
--   Shaper.Framing  what the reader needs of a framing; filled by Fixed.Decode and Morph.Decode.
--   Shaper.Fixed    fixedCells, coverCell and the round of Read, with Cells, Decode and Oversize.
--   Shaper.Morph    morphCells, morphCoverCell and the round of readMorph, with Cells and Decode.
--   Shaper.Mode     the two modes as one, chosen by the policy's SizeSampler.
--   Shaper.Read     Read and readMorph: the loop over cover cells and the pending bytes.
--   Shaper.Write    Write, writeMorph, applyDelay, applyJitter, a tick of coverLoop and a timer of
--                   frontLoop; Effects is what they leave on the wire.
--   Shaper.Pacer    the queue of writePaced, the rounds of pacingLoop, flushQueue and Close; Writing
--                   is writePaced itself, with Order, Carried, RoundTrip and Completes; Interval is
--                   currentInterval.
--   Shaper.Wraps    Wrap, Dialer, Listener and Accept of obfs.go; Peers is what two ends make of them.
--   Shaper.Close    Close of conn.go with its closeOnce, beside the loops and other calls of Close.
--   Shaper.Front    frontLoop: the Schedule of its cover cells, and what it Emits.
--   Shaper.Samplers UniformSize, SampledSize and PoissonDelay of morph.go.
--   Shaper.Session  writes, ticks and cover cells of frontLoop on one side, reads on the other.
--   Packet          packet.go: WrapPacket, WriteTo and ReadFrom; KeyStream is the cipher.
--   Hello           well-formed ClientHello messages, as a description to measure parsers by.
--   Act             Go functions that change a state: fallible steps, clean-up on errors.
--   Link            a connection that a client dials, with its deadline, and who closes it.
--   Tlscamo         tlscamo/tlscamo.go: Client and Dialer.
--   Reality         reality/reality.go: Sni is the parser of the SNI, Peek the recording reader,
--                   Listener the way of one connection through handle, with Loop, the listener by
--                   Gate, Splices and Replay; Dialer is the client.
--   Xreality        the package xreality, with these children:
--     Parse         clienthello.go, with Total, Finds and Record.
--     Crypto        the standard library's cryptography, as an interface with its laws.
--     Auth          auth.go: seal and open, ClientSessionID and ServerAuthenticate.
--     Server        server.go: Authenticate.
--     Peek          peekRecord and prefixConn of listener.go; Whole is a peek of a whole record.
--     Channel       the channel proofs of client.go and listener.go.
--     Listener      handle and acceptShortID of listener.go; Loop is the listener by Gate, Passthrough
--                   the splice to Dest, Served the way of a client.
--     Client        Client and Dialer of client.go.
--   Xrayreality     xrayreality/client.go: the session ID, verify, Client and Dialer; Server is the
--                   configuration that server.go hands to the library.
--   Webrtc          webrtc/webrtc.go: Dial and answer; Loop is the listener by Gate, Conn the net.Conn.
--   Hop             hop/hop.go: Dialer, the choice of an address by the time; Multi is MultiListener,
--                   and Fan its accept loops with Accept.
--   Fullstack       examples/fullstack/main.go: the policy, the echo, and what the client reads of it,
--                   with the cover cells of both sides.
--
-- State is passed explicitly. The samplers, fill functions, the clock and the random sources are
-- functions on a state W, which stands for all that they depend on. What a base write will do is a
-- list of results in the sink; one that fails may have written a part of its bytes. A mutex makes
-- what it guards one step.
--
-- Loops run on fuel, and an outcome `stuck` shows that it ran out: a Read has one unit more than
-- bytes on the wire, since each cell takes a byte at least, and the parsers one more than bytes left.
-- morphCells has one unit for each byte.
--
-- Go's int is a natural number where the code never goes below zero, and ℤ for sampled sizes and
-- durations; it is taken to be wide enough for lengths of slices in memory. float64 is a parameter
-- with its comparisons. Crypto is a parameter: a keystream for AES-CTR, and Xreality.Crypto.
--
-- A dialer's state is a Link, with the one connection that it makes: closing the TLS connection over it
-- closes it. webrtc's peer connection is likewise one per call, and the callback of its data channel may
-- run between any two calls of the library, once. uTLS, crypto/tls, x509, Pion, net and the Signaler are
-- functions on the state W, and a select takes the case that a function on W names.
--
-- Goroutines are step relations: Shaper.Pacer.Writing, Shaper.Close, Hop.Multi.Fan, Gate and Splice. A
-- step is what one of them does next, and an unbuffered channel is the list of those that wait to send.
-- A handler is taken to its end in one step, which is what handle or answer comes to when Accept takes
-- its connection; the wait at the select is a state of Gate, and Late compares handle before and behind
-- Close. The splice reads and writes in chunks of any size, and a write that fails may have written a
-- part.
--
-- Not modelled: the deadlines that handle and the net.Conns of the root package pass on, and what
-- Addr, LocalAddr and RemoteAddr return; the default of HandshakeTimeout in the listeners, which only
-- sets such a deadline; OnError, but for the error that passthrough of xreality hands to it; the choice
-- of a uTLS fingerprint in xreality and xrayreality; the example's dialing and its certificate.
pub mod Base
pub mod Wire
pub mod Shaper
pub mod Fill
pub mod Packet
pub mod Gate
pub mod Splice
pub mod Hello
pub mod Reality
pub mod Xreality
pub mod Hop
pub mod Act
pub mod Link
pub mod Xrayreality
pub mod Tlscamo
pub mod Webrtc
pub mod Fullstack
mod Tests
