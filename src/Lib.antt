-- ===== src/Lib.antt =====
-- httplock, a proxy that records the responses to HTTP requests in a content-addressed tree and
-- replays them. A root is a tree of directories and files; it is read and written through a
-- storage, and it is saved under a hash of all that it holds. A request that comes to the proxy is
-- filtered, given a key, and looked up in the root that its token opens; if it is not there and the
-- root may be written to, it is sent on, and the response is recorded while the client reads it.
--
-- The program's parts and their modules:
--
--   hasher/hasher.go                  Hasher          NewReader, NewWriter, Read, Write, FromBytes
--   internal/storage/storage.go       Storage.Errors, Storage.Backend
--   internal/storage/blobwriter.go    Storage.Blob    newBlobWriter, Write, Close, Hash
--   internal/storage/root.go          Storage.Kind    the text form of EntryKind
--                                     Storage.Tree    Dir, DirEntry, File
--                                     Storage.Root    newRoot, getDir (walk, get_dir), loadDir, Link,
--                                                     List, Read, Write, Save
--                                     Storage.Root.Hash       hashDir, hashFile
--                                     Storage.Root.Walking    EntryHash, Walk, ListHashes
--                                     Storage.Root.Report     Report
--                                     Storage.Diff    DiffRoots, diffIter, cmpPaths
--   internal/storage/memory.go        Storage.Memory  MemStorage; Storage.Memory.Blobs its blobs
--   internal/storage/filesystem.go    Storage.Filesystem         the roots and the index in its file
--                                     Storage.Filesystem.Blobs   the blobs in their files
--   internal/storage/import.go        Storage.Import  importDir, importFile
--                                     Storage.Import.Archive     Import
--   internal/storage/export.go        Storage.Export  Export, tarAdd, tarAddReader
--   internal/cert/cert.go             Cert            NewCert, CAGen, CASet, CAGetPEM, LeafCert
--   internal/config/config.go         Config          cfAction, New, LoadReader, LoadFile
--   internal/proxy/proxy.go           Proxy.Header    delHopHeaders, copyHeader and others
--                                     Proxy.Filter    filterReq
--                                     Proxy.Serve     serveWithCache
--                                     Proxy.Auth      checkAuthBasic, getAuth, ServeHTTP
--                                     Proxy.Connect   handleConnect; Proxy.Connect.Listener
--                                                     connWait and listenList
--   internal/proxy/storage.go, reader.go
--                                     Proxy.Request   the records; Proxy.Store the recording
--   internal/api/api.go               Api.Tokens, Api.Roots, Api.Archives
--                                                     the handlers; Api.Reply what they answer
--
-- Base has what they share. Each module that models code has child modules for what is proved of
-- it. Tests has runs on concrete inputs, and each theorem at an input.
--
-- How the code is modelled. A method that changes something takes the state and returns it: a root
-- is a value beside the state of its storage, and Storage.Backend.Backend is the interface between
-- the two, which Storage.Memory.Blobs and Storage.Filesystem.Blobs implement. An error is a value of
-- Result. A `*Dir` is reached from one entry only, so the tree itself is the heap, and a pointer
-- that a method follows is a continuation that is run at that place of the tree. A `*Root` is shared
-- between names and callers, so in the storages it is a number in a list. A string is the list of
-- its bytes. A map is the list of its entries in the order of a `range`. Numbers are unbounded: they
-- count bytes, entries, seconds and status codes. Locks guard single methods, and a step is one call
-- of a method.
--
-- Parameters: SHA-256 (sha256, and digest where only the text of a hash matters), encoding/json
-- (Codec, Formats, IndexCodec, Encoders, decode), net/url (Formats, parse), encoding/base64
-- (decode64, encode64), archive/tar and compress/gzip (Readers, TarWriter), crypto/* and its
-- random source (Crypto), crypto/tls (Hello) and the servers that requests are sent to (Client).
-- What is relied on of them is a hypothesis of the theorems that need it:
-- Storage.Backend.IsReliable of a storage, Storage.Backend.IsFaithful of the JSON of a directory
-- and Cert.Authority.IsHonest of crypto/x509. The disk is modelled: Storage.Filesystem.Os has the
-- calls of package os that the code makes, over a tree of files in which any call may be made to
-- fail, and Storage.Filesystem.Paths has what it calls of path/filepath. The random names that
-- os.CreateTemp draws are part of the disk.
--
-- Bounds. Some loops run on turns that are given to them. The loop of `next` goes down into
-- directories that are loaded by their hashes, and the loop of DiffRoots and the recursion of Walk
-- go through what it loads, so that their length depends on the storage. `next` needs a turn for
-- each file and two for each directory of its tree, and the loop one more than there are files in
-- both; a walk, a report, an export and an import are given the depth of the tree. A run that is
-- given too few ends in the error out_of_turns. The server on a listenList needs one turn more
-- than there are connections. os.CreateTemp tries 10000 names, as package os does.
--
-- A stream that is copied is read and written in one piece, and a body that cannot be read to its
-- end, or closed, gives no bytes; opening a blob and reading it are one operation. After a failed copy the model
-- leaves the request as it was. What is logged is not modelled, nor the text that an error shows
-- beyond the names in it.
--
-- Not modelled: starting the servers and the table of the routes of the API (Start of internal/api
-- and of internal/proxy), and the Reset of a hashReadCloser, which nothing calls; the templates,
-- the version, the embedded user interface, the generated documentation of the API and the
-- commands at the root of the repository.
pub mod Base
pub mod Hasher
pub mod Storage
pub mod Cert
pub mod Api
pub mod Config
pub mod Proxy
mod Tests
