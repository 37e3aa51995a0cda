-- ===== src/Lib.antt =====
-- interactsh: a server that collects out-of-band interactions (DNS, HTTP, SMTP, LDAP, FTP) and a
-- client that registers a session with it and polls what was collected.
--
-- The parts, and the files that model them. Prelude holds the shared names: native numbers and
-- their Boolean tests, lists, Go strings as lists of bytes, and string-keyed maps.
--
-- Storage (pkg/storage) keeps the sessions. StorageDb (storagedb.go) is the cache, whose values
-- are pointers into a heap, the optional database on disk, and the random source.
-- Storage/Sessions has New, SetIDPublicKey, SetID, AddInteraction, AddInteractionWithId, RemoveID
-- and GetCacheItem; Storage/Polling has GetInteractions, GetInteractionsWithId,
-- GetInteractionsWithIdForConsumer and RemoveConsumer; Storage/Buffer has what enforces
-- EvictionTTL and MaxSharedInteractions; Storage/Cipher and Storage/Base64 have util.go;
-- Storage/Lines has the records on disk. Each operation takes a state, and the time where the
-- source reads the clock, and returns its results with the new state. The locks are not modelled:
-- a call is one step, as Storage/Isolation/Steps puts them together with the cache's own
-- removals. Storage/Spec says what a shared buffer promises, with no cache and no disk;
-- Storage/Refine proves that both forms of storage keep it, over single calls and over runs.
--
-- Storage/Libraries has the parameters: goburrow/cache, leveldb, x509, RSA-OAEP and AES-CTR.
-- Their laws are those of a map, and the inverse of the encryption, with byte texts. So is
-- strings.EqualFold, whose folding of Unicode is a table. Server/Options has those of the servers:
-- projectdiscovery/utils, govalidator, xid and jsoniter.
--
-- Server (pkg/server) has the protocol servers. Server/Dns is dns_server.go, Server/Http is
-- http_server.go, Server/Smtp, Server/Ldap and Server/Ftp are the files of those names,
-- Server/Acme is acme/records_store.go, and Server/Ids is the search for correlation ids
-- (server.go, util.go). A handler gives its answer, the counters, and the list of the calls of
-- the storage that it makes, in order; the session endpoints of Server/Http call the storage
-- itself. A run-time panic is `none`. Server/Targets says which ids a server writes to. What a
-- handler does in order is a list of acts in Server/Ldap/Handlers, among which serve_ldap puts what
-- the LDAP library logs through handleLog, and of effects on the http.ResponseWriter in
-- Server/Http/Dynamic. For the pages that is the httptest.ResponseRecorder of logger, which
-- Server/Http/Recorder has, with what logger sends and dumps of it.
--
-- Server/Watching has the watched log files: filewatcher.go (pkg/filewatcher) and the loops of
-- smb_server.go and responder_server.go.
--
-- Client is pkg/client/client.go. Client/Registration has parseServerURLs, Client/Settings,
-- Client/Keys and Client/Creation have New and SaveSessionTo, Client/Lifecycle has the client's
-- state, its channels, the polling loop and the keep-alive routine, one step for each call or
-- turn, and Client/Messages has getInteractions and decryptMessage. What servers answer is a
-- parameter: of each request, given those before it. EndToEnd puts the client's key and its
-- decryption together with the storage and the session endpoints of the server, and
-- EndToEnd/Shared those endpoints with the buffer of the server's token.
--
-- Commands has the two programs: Commands/Flags and Commands/Server the options (pkg/options) and
-- the start of cmd/interactsh-server/main.go with the servers that it starts,
-- Commands/Certificates its certificates with pkg/server/acme/acme_certbot.go and the FTP server
-- that they go to (Server/Ftp/Setup), Commands/Alive its reports on the services, and
-- Commands/Client the start, the output and the interrupt of cmd/interactsh-client/main.go. The
-- result of a start is what makes the program exit, or what the servers or the client go on with.
--
-- All functions are structurally recursive but two, which follow a goto of the source on fuel:
-- make_req (Client/Registration) ends in two rounds, and retry_cert (Commands/Certificates) in
-- three, as Client/Registration/Attempts and Commands/Certificates/Retries prove. Tests evaluates
-- the theorems at small states. Not modelled: listeners and TLS, the figures of the operating
-- system, the parsing of flags, and the programs that the SMB and Responder servers start.
pub mod Prelude
pub mod Storage
pub mod Server
pub mod Client
pub mod EndToEnd
pub mod Commands
pub mod Tests
