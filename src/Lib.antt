-- ===== src/Lib.antt =====
-- Verification of the binary formats, buffers and encryption layers of the library, in TypeScript. The
-- other files name paths below src/.
--
-- The program's parts and their files here:
-- - src/core/encoding/buffer-utils.ts: StreamBuffer is Buffers/Stream (state, append, consume, peek,
--   reset), with its laws in Buffers/Stream/Laws, Buffers/Stream/Room and
--   Buffers/Stream/Reading. A buffer is a list of bytes, the memory behind the
--   unread part included, and what consume returns is a view (start and size) of that memory, since
--   compact may move bytes under it: Buffers/Stream/Views. BufferReader is Buffers/Reader, an offset
--   and the bytes from there on. BufferWriter, with its growth, is Buffers/Writer; BufferPool, and
--   BufferWriter on a pool, are Buffers/Pool, with Buffers/Pool/Sound, Buffers/Pool/Writes and
--   Buffers/Pool/Growth on pools whose buffers have the size of their bucket and Buffers/Pool/Short on
--   others. Memory that was allocated and not written is a parameter.
-- - src/core/encoding/tlv8.ts: TLV8 and TlvBuilder are Tlv8. Tlv8/Items describes the encoding of items
--   independently of the code; Tlv8/Encode and Tlv8/Decode relate the two to it, Tlv8/Object treats the
--   joining of fragments, Tlv8/RoundTrip, Tlv8/Size and Tlv8/Builder the whole.
-- - src/protocols/companion/layers/HapFrameHandler.ts: HapFrameHandler and HapFrameUtils are HapFrames, on
--   the memory of Buffers/Stream; parsing one frame is HapFrames/Parse and HapFrames/Frames, a whole
--   run of process HapFrames/Streams, and two frames of which the first fills more than half of the
--   memory HapFrames/Overlap. A frame is delivered to its listeners after process has returned.
-- - src/core/encoding/opack.ts: the values are Opack/Value, OPACK.encode is Opack/Pooled, on the
--   pool opackPool, which is handed on from call to call; OPACK.decode is Opack/Unpack. Opack/Pack
--   has the packing of atoms and references and describes the packing without a pool; Opack/Texts,
--   Opack/Pooling and Opack/Refines relate the two where every element takes at most 256 bytes, so
--   that a writer only doubles. Opack/Atoms treats strings and buffers, Opack/Objects the two lists
--   of objects and the references into them, Opack/Groups, Opack/Elements and Opack/Entries arrays
--   and objects, Opack/Plain the values without larger integers, Opack/RoundTrip whole messages,
--   and Opack/Divergence messages with a larger integer.
-- - src/core/encoding/ntp.ts: NTP is Ntp, with Ntp/Time and Ntp/Packets.
-- - src/protocols/raop/packets: PacketFifo.ts is Raop/Fifo, with Raop/Fifo/Backlog; RtpPacket.ts and
--   SyncPacket.ts are Raop, with Raop/Packets.
-- - src/protocols/shared/layers/ChaCha20EncryptionLayer.ts and src/protocols/airplay/layers/HapFrameLayer.ts are
--   Encryption, the cipher of @noble/ciphers being a parameter; Encryption/Channel and
--   Encryption/Frames are about two layers that share a key, Encryption/Failure about the calls after
--   a failure, Encryption/Nonces about createNonce of src/core/encoding/buffer-utils.ts.
-- - src/protocols/airplay/layers/DataStreamChannel.ts is DataStream: DataStream/Varint and
--   DataStream/Protobufs are the protobufs with their lengths, DataStream/Messages the messages with their
--   header, DataStream/Channel the channel, on the layers and buffers above. DataStream/RoundTrip and
--   DataStream/Header are about the formats, DataStream/Handle about a message in a channel, and
--   DataStream/Exchange about two channels. The property lists are a parameter.
-- - src/protocols/companion/layers/HapFramedChannel.ts is Companion, on HapFrames, Encryption and Opack;
--   Companion/Sealing is about one message, Companion/Delivery about many, Companion/Cleartext about
--   frames while encryption is not enabled.
-- - src/core/encoding/daap.ts is Daap: the tags in Daap and Daap/Tags, decodeToObject in Daap/Objects, track
--   metadata and playback status in Daap/Track. Daap/Slots, Daap/RoundTrip and Daap/Fields are about
--   lists of tags of which some are left out, Daap/Metadata about a track's, Daap/Termination about any
--   buffer. Durations and their conversions are parameters, of which
--   nothing is assumed.
-- - src/protocols/mrp/MRPPlayerState.ts: PlayerState is Mrp, with Mrp/Player and
--   Mrp/Updates; ClientState and MRPPlayerState are
--   Mrp/Clients, where a handler is a function of the message and the state. Mrp/Consistent and
--   Mrp/Steps are about single operations, Mrp/Reachable about all states that messages lead to. Time
--   stamps, payloads of protobuf messages and Plist.decode are parameters.
-- - src/core/utils/RecoveryManager.ts is Recovery, with Recovery/Attempts. Which calls of the function succeed is
--   a parameter.
-- Prelude holds what these share: Boolean tests, lists, results with errors, integers as bytes, packet
-- layouts, maps. A thrown exception is a value of Result. Tests holds runs.
--
-- Loops are recursion on their data, except: the loops over the bytes of a buffer in Tlv8 and
-- HapFrames, and OPACK's unpackValue, run on fuel. The fuel of each is computed from the length of the
-- input, of which every step takes at least a byte; unpackValue and its loops take turns, so its
-- fuel is twice the length and one. The frames of Encryption have the length of the text or of the
-- bytes as fuel. The rounds of DataStream are the bytes that are available, and for the protobufs one
-- more than their bytes, which is enough while no length is negative. In Daap the
-- rounds and the depth are one more than the bytes. The rounds of Recovery are any number: two for each
-- call of the function are enough.
--
-- Parameters: what JavaScript makes of ill-formed UTF-8, of values as property keys and of the bits
-- of floating-point numbers (Runtime of Opack/Value), and fresh memory. Strings are their UTF-8 bytes.
--
-- Not modelled: sockets, timers, logging, the command line and generated protobuf code (input and
-- output only); cryptography (wrappers of libraries); the names and texts of TLV8.stringify; what
-- an exception leaves of OPACK's pool; OPACK's pairing messages; that the metadata of the item announced
-- last by MRPPlayerState.ts is the object that updates write to (only its identifier is compared). The session and protocol layers above these formats
-- (authentication, connection state, discovery, storage, HTTP framing) have
-- no model here.
pub mod Prelude
pub mod Buffers
pub mod Tlv8
pub mod HapFrames
pub mod Opack
pub mod Ntp
pub mod Raop
pub mod Encryption
pub mod DataStream
pub mod Companion
pub mod Daap
pub mod Mrp
pub mod Recovery
mod Tests
