-- ===== src/Lib.antt =====
-- A verification library for the SSH implementation in the root directory of the repository: the
-- wire format, the negotiation of algorithms, the packet cipher, the transport with its keys, the
-- handshake, the connection protocol with its channels, windows and buffers, the database of known
-- hosts, the checks of certificates, the server's user authentication, the agent's keyring and the
-- line editor of the terminal.
--
-- The parts and how they interact. Packets arrive through a packet cipher, which frames, encrypts
-- and authenticates them; connectionState counts them and changes to new keys at a newKeys
-- message. The handshake transport above it runs the key exchanges, holds back what is written
-- meanwhile, and passes on the rest. `mux.loop` takes the packets one by one and hands each to the
-- mux itself or to the channel that it names. A channel puts incoming data in one of its two
-- buffers, where readers take it, and gives the peer window back for what was read. A writer waits
-- for window that the peer grants, and cuts its data in packets. All messages go through Marshal and
-- Unmarshal.
--
-- Wire        messages.go (Marshal, Unmarshal, the parse functions, intLength, marshalInt) and the
--             append functions of common.go. A Go struct, which the code walks by reflection, is the
--             list of its fields' values; its type is its message tags and its fields' kinds.
-- Messages    the message structs of messages.go; Messages/Decode has decode.
-- Negotiate   findCommon, findAgreedAlgorithms, rekeyBytes and Config.SetDefaults of common.go,
--             with the names of cipherModes in cipher.go.
-- Version     exchangeVersions and readVersion of transport.go.
-- Cipher      streamPacketCipher of cipher.go with readPacket and writePacket. Go's cipher.Stream
--             and hash.Hash are parameters with the laws that their documentation states.
-- Transport   connectionState and transport.readPacket of transport.go, over any packet cipher;
--             Transport/Ciphers makes Cipher one. Transport/Keys has generateKeyMaterial,
--             generateKeys, newPacketCipher's choice and prepareKeyChange, with the tables of
--             cipher.go and mac.go.
-- Handshake   handshake.go: the thresholds, sendKexInit and writePacket. Handshake/Exchange has
--             enterKeyExchange, Handshake/Rounds a round of kexLoop and readOnePacket. A key
--             exchange algorithm is what it sends and the hash or the error that it comes to.
-- Hosts       knownhosts/knownhosts.go: wildcardMatch and the matching of host patterns;
--             Hosts/Addresses has addr.String, Normalize and newHostnameMatcher, Hosts/Lines the
--             parsing of lines and files, Hosts/Hashes the hashed host names, Hosts/Database the
--             checks. Public keys, HMAC and base64 are the record HostKeys.
-- Certs       CertChecker of certs.go: CheckCert, CheckHostKey and Authenticate; Certs/Hosts has
--             the checker that `New` of knownhosts/knownhosts.go sets up over the database.
-- Server      server.go: the configuration of serverAuthenticate, the cache of public keys and
--             checkSourceAddress. Server/Attempts has the methods with Challenge, parseSignature of
--             certs.go and buildDataSignedForAuth of common.go, Server/Rounds the loop. Keys, IP
--             addresses and the callbacks are the record Server; a keyboard-interactive callback is
--             the questions that it asks and what it makes of the answers.
-- Agent       the keyring of agent/keyring.go with all its methods; the array under its slice is
--             written out, as two loops change it while they run over it.
-- Terminal    terminal/terminal.go: the state and the drawing functions. Terminal/Keys has
--             bytesToKey and handleKey, Terminal/Lines Write, ReadLine, ReadPassword, SetSize,
--             SetPrompt and readPasswordLine, Terminal/History stRingBuffer.
-- Signals     what a goroutine that blocks can receive: a timeout of idle.go or a request to stop.
-- Window      window of common.go: add, close, reserveShouldReturn and reserve. A call that waits is
--             a state; what wakes it and what others do meanwhile are events of a schedule.
-- Buffer      buffer.go: newBuffer, write, eof and Read.
-- ChanList    chanList of mux.go: add, getChan, remove and dropAll.
-- Channel     channel.go: writePacket, sendMessage, WriteExtended and Write. Channel/Receive has
--             handleData, adjustWindow, ReadExtended, Read, responseMessageReceived, close and
--             handlePacket; Channel/Control has newChannel, Accept, Reject, CloseWrite, Close,
--             SendRequest and ackRequest. Channel/WriteLaws, Channel/Silence and Channel/Decided
--             have the theorems on writing, on a closed channel and on one that is decided on.
-- Mux         mux.go: newMux, onePacket with its handlers, loop, openChannel, SendRequest, ackRequest
--             and Close.
-- Errors      the errors of these parts, a constructor for each text.
-- Prelude     what all parts share: Boolean tests, lists, byte strings, results and integers.
-- Tests       the theorems at concrete inputs.
--
-- Conventions. Bytes are natural numbers; a w-bit sum or difference has its `% 2 ^ w` written out. A
-- function that changes state returns the new state. The connection below the mux is the list of
-- the packets written so far, with the error that a write runs into, if any. The end of a select
-- (the value is queued, or a stop comes first) is an argument. A Go channel is the list of what is
-- queued in it. Locks are not modelled: what runs under one is one function.
--
-- Fuel. The loop of Buffer's Read runs on `rounds`, twice the number of elements and two more: each
-- round copies from the first element or drops it. The digits of a big integer run on its value,
-- as each round divides it. transport.readPacket runs on the length of its input and one more, as
-- each packet takes at least a byte; generateKeyMaterial on the length that it fills, as each digest
-- has at least a byte. serverAuthenticate runs on the number of packets and one more, as each round
-- reads one. writeLine and writeWithCRLF run on the length of what they write, and the keys of a
-- read on its length and one more: each round takes a rune, or a byte, at least. Loops that wait for input are recursions on the list of what arrives.
--
-- Not modelled: the key exchange algorithms, keys and signatures, the format of certificates, client
-- authentication, sessions, forwarding, the agent's protocol; timers, deadlines, logging and the
-- accessors of a channel; the primitives of Go's crypto packages. Of the handshake, what a stop or a
-- closed connection interrupts, and the end of its loops; of the known hosts, the opening of files
-- and the texts of errors. White space in a known_hosts file is ASCII's. The callbacks of a server
-- answer alike whenever they are asked alike; the clock of the keyring stands still within a call; a
-- string of the terminal is the list of its runes, and its colours are left out.
pub mod Prelude
pub mod Errors
pub mod Wire
pub mod Messages
pub mod Negotiate
pub mod Signals
pub mod Window
pub mod Buffer
pub mod ChanList
pub mod Channel
pub mod Mux
pub mod Version
pub mod Cipher
pub mod Transport
pub mod Handshake
pub mod Hosts
pub mod Certs
pub mod Server
pub mod Agent
pub mod Terminal
pub mod Tests
