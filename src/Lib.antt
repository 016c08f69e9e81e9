-- ===== src/Lib.antt =====
-- charo-torrent, a BitTorrent client library in Go: the parts that decide what is sent, stored and
-- believed, as functions on records, and theorems about them.
--
-- The program. A Client holds Torrents. A Torrent runs one goroutine that owns its connections
-- (connInfo), its pieces and its storage; each connection has a goroutine of its own (conn) that
-- speaks the peer protocol of peer_wire with one peer and shares the pieces under a mutex. Trackers
-- give it peers; without an info dictionary it first downloads one from the peers (utMetadata).
--
-- The files, and the source that each is about:
--   Wire/BitField, Wire/Reserved, Wire/Message, Wire/Handshake: peer_wire/bitfield.go, reserved.go,
--     message.go and handshake.go. A reader is the list of bytes that are left.
--   Piece, Pieces: torrent/piece.go, the types Piece and pieces.
--   Conn: torrent/conn.go, the requests in flight, received blocks and uploads, and the messages
--     that name a block. Conn/Reader is readPeerMsgs, Conn/Session is onPeerMsg.
--   Choker: torrent/choker.go, with the connections as a store from numbers to connInfo.
--   Bencode: bencode/encode.go, decode.go and get_dict.go, over a tree of Go values in place of
--     reflection. Bencode/Number is what they use of the package strconv.
--   ConnInfo: torrent/conn_info.go, conn_state.go, conn_stats.go.
--   Swarm: torrent/torrent.go, connections, the hashing queue and the sizes of pieces and blocks;
--     Swarm/Dial the peers and the dialing, Swarm/Ban the bans, Swarm/Broadcast the loops over the
--     connections, Swarm/Dispatch the messages of connections and of the hasher.
--   Client: torrent/client.go, the registry, the black list and their mutex.
--   Exported: torrent/torrent_xported.go and tlocker.go, the calls of a user and the locks they take.
--   Selector: torrent/piece_selector.go. FreqMap: torrent/freqmap.go.
--   Metadata: torrent/metadata.go, with onExtended and requestMetadata of torrent/conn.go in
--     Metadata/Sizes and metadataCompleted of torrent/torrent.go in Metadata/Completion.
--   Storage/Blocks: torrent/storage/piece.go. Storage/Spread, Storage/ReadAt, Storage/Files:
--     torrent/storage/filestorage.go, writes and reads over the files, and FileStorage.
--   MetaInfo: metainfo/info.go.
--   UdpTracker: tracker/udp.go. Tracker: tracker/tracker.go, compact peers and ScrapeURL.
--   Misc: torrent/misc.go, torrent/conv.go.
--   Prelude and Bitmap are shared; Tests applies the theorems to concrete inputs.
-- A Go method is a function of the same name in snake case on its receiver; where a name would be
-- taken twice it has the receiver's part before it (conn_choke). A pointer to a piece is its index, a
-- pointer to a connection a number. A method that holds a mutex is one step. A panic is `none` or
-- `panic`, an error value `err`.
--
-- Code outside the repository is an argument. The bitmap package is the interface Bitmap, with the
-- laws that its documentation gives, and Bitmap/Bits computes; the operating system's files are
-- FileSystem and FileReader, SHA-1 and io.Copy are Hashing. The names that fileInfoName joins are not
-- modelled: FileSystem says which entries of an info dictionary are one file, and what is said of
-- the bytes is for entries that are different files. Random choices and sort.Slice are functions that
-- make up no element; the payloads of extended messages are Extension.
--
-- Numbers are natural. Lengths and offsets of the protocol are 32-bit and the program's int has 64
-- bits, so their sums do not wrap; where a 32-bit field takes a length the wrap is written out. Time
-- is a number of the clock. The loops are over lists or count down, except for those of bencode, which
-- go over what a call leaves of the bytes: there each call takes a unit of fuel. Decode gets three
-- units for each byte and three more, since an element is entered by way of its interface, its type and
-- the loop of the list around it, and each of these leads to a byte that is read. The reader of Get
-- gets two for each byte and one more, its loop over the keys one for each byte.
--
-- A message to a connection whose goroutine has ended makes sendMsgToConn call droppedConn, in the
-- middle of what the torrent is doing. ConnInfo and Choker keep only that it was called; Swarm/Dropped
-- is what droppedConn does before its deferred calls, Swarm/Broadcast what a loop over the connections
-- then does. readExtension and writeExtension of peer_wire/message.go are not modelled either: they are
-- the argument Extension, about which nothing is assumed.
--
-- Not modelled: the goroutines' loops over channels, structs and pointers in bencode, rates of
-- transfer, announces, the set-up of a client, the announcer, HTTP requests to trackers and the tracker
-- server, and input and output.
pub mod Prelude
pub mod Misc
pub mod Client
pub mod Exported
pub mod Bitmap
pub mod Wire
pub mod Piece
pub mod Pieces
pub mod MetaInfo
pub mod Storage
pub mod Bencode
pub mod Selector
pub mod FreqMap
pub mod Tracker
pub mod UdpTracker
pub mod Swarm
pub mod Choker
pub mod Conn
pub mod Metadata
pub mod ConnInfo
mod Tests
