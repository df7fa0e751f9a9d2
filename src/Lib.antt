-- ===== src/Lib.antt =====
-- A model of this repository's 9P2000 library: the wire format of package p9, the server, the client,
-- the example server in memory, and the namespace.
--
-- The parts and how they interact. A message (fcall.go) is encoded and framed (encode.go, stat.go,
-- framing.go), read off a connection and decoded (framing.go, decode.go). A server connection
-- (server/conn.go) negotiates a version and hands each request to its handler
-- (server/dispatch.go), which calls a backend (server/server.go) and keeps a table of fids. A
-- backend answers the read of a directory with the helper of server/dir.go. A client allocates a tag
-- for each call and routes the replies by tag (client/mux.go); fids (client/fid.go) and files
-- (client/file.go) are built on its calls, after the handshake of client/client.go and the Attach of
-- client/session.go. A backend is the file system in memory (examples/memfs/memfs.go), the export
-- of a directory of the host (examples/dirfs/dirfs.go), or a namespace (ns/), which grafts the files
-- of other backends on a tree of its own.
--
-- The modules.
--   Common: tests on numbers, lists, little-endian bytes, strings and their order, and Go maps as
--     lists of entries.
--   Wire: package p9. Types has p9.go, errors.go, mode.go, qid.go and the structs; Encode and Decode
--     are encode.go and decode.go, a method of decoder being a function on its state; Errors has the
--     texts of the errors; Stat is stat.go; Fcall is fcall.go, with put and get functions for the loops and the counted fields;
--     Framing is framing.go. Forward and Backward have the lemmas on single reads and writes.
--   Server: Backend has the interfaces of server/server.go as a record of functions on the
--     backend's own state, a parameter of all that follows; Conn has the state and the fid table of
--     server/conn.go and tVersion (t_version); Dispatch has the handlers of server/dispatch.go under
--     their names (tWalk is t_walk); Dir is MarshalDirVersion of server/dir.go; Schedule has the
--     goroutines of server/conn.go (serve, dispatchOne, handle), with tFlush, as a step relation.
--   Client: Mux is client/mux.go, its methods being steps on a state, and its channels numbers; Link
--     has the goroutines of client/client.go (rpc, call, flush, readLoop) as a step relation on it; Rpc
--     is Client.rpc as its callers see it, a parameter of these; Fid and Walk are client/fid.go; Io
--     and ReadDir are client/file.go; Session has NewClient, AttachContext, and the calls of
--     client/file.go that take a path.
--   EndToEnd: client and server. Wire has a call of the client over the bytes of the connection
--     (Client.rpc, call and readLoop; serve, handle and writeReply), and Session the calls that begin a
--     session over it. Listing has the server's dispatch for the connection.
--   Memfs: examples/memfs/memfs.go, with the store of nodes; Methods has a function on the store for
--     each method of *file, and `memfs`, the record of Backend for them.
--   Namespace: the types of ns/, and layer.root; Files has the methods of ns/file.go, ns/rofile.go,
--     ns/subtree.go and ns/dev.go, a function for each method with a clause for each type of file;
--     Read has their Read, with listings; Paths and Bind have the binds of ns/ns.go and the log of
--     ns/bindlog.go; Resolve is that of ns/binds.go; Remote is ns/fid.go, over the calls of Client;
--     Subtree is the Attach of ns/subtree.go. The file systems that are bound, hashPath and the clock
--     are parameters.
--   Dirfs: examples/dirfs/dirfs.go, with a store of its files, over an os.Root that is a parameter;
--     Paths has the functions of path/filepath, Attributes has Stat, WStat and Clone, Reading has Read
--     and readDir, and Methods the other methods and `dirfs`, the record of Backend for them.
--
-- Numbers. A uint8 to uint64 is a natural number; where Go converts and wraps, `% 2 ^ w` is written
-- out, and where a field must fit, a hypothesis says so. An int64 offset is the number with its bits
-- in requests and in Seek, and is signed in MarshalDirVersion. Offsets of File.Read, File.Write and
-- readAt are taken not to be negative.
--
-- Loops. Those over a list are structural. The loops of readAt, writeAt, WalkContext and of
-- ReadDirContext over one reply have fuel, a round for each byte or name, which is enough since each
-- round uses one up. The outer loop of ReadDirContext has its fuel as an argument; one round more
-- than there are entries is enough, since each round but the last brings an entry. The loop of
-- NewClient goes round twice at most. A walk in the namespace uses up a unit of fuel for each file
-- that it passes through, and `none` says that this ran out: a layer may lead back into the tree, so
-- that no fuel is enough for every namespace.
--
-- What is not modelled: Dial of client/client.go; steps of other goroutines within a handler of
-- Dispatch, which runs alone, and, but for Link, within a call of the client, which is answered at
-- once; the handshake in conn.serve, and the cancelling of a connection's base context; contexts
-- otherwise, but for the cancel functions that Tflush calls, the end of a call's context in Link, and
-- the flag for 9P2000.u; network I/O, the failures of a writer but in Link, and those of a reader but
-- for the end of its input and in Link; Binds of ns/binds.go, ns/clone.go, ns/hostpath.go and the hook
-- of the bind log; what other goroutines do during a call on a namespace or on a file of dirfs or of
-- ns/fid.go; the New of dirfs; what a process does after a panic; the commands.
-- The texts of errors are kept where the protocol carries them. EndToEnd.Wire has one call at a time,
-- and leaves out what a server does after its connection has ended.
pub mod Common
pub mod Wire
pub mod Server
pub mod Client
pub mod EndToEnd
pub mod Memfs
pub mod Namespace
pub mod Dirfs
