-- ===== src/Lib.antt =====
-- openSIMP: a chat server with encrypted packets, its C++ client and a test client.
--
-- The server (src/server) accepts clients, takes each through a login and a key exchange, and then
-- relays chat lines, name changes and commands. One object, `ServerNetwork`, holds the clients in
-- parallel vectors; one thread accepts clients, another receives from each in turn.
--
-- Which file models which part (paths from the repository's root):
--   Lexer                      src/server/src/commands/lexer.cpp
--   Command                    src/server/src/commands/command.cpp and executor.cpp: a closure is a
--                              value that an argument `run` carries out
--   Cryptography               src/server/src/cryptography/cryptography.cpp; Interface holds Botan's
--                              operations and laws, Sizes the lengths of packets
--   Server                     the fields of ServerNetwork, and the SFML and yaml-cpp operations
--   Server/Wire, Clients, Names, Userdata, Login, Chat, Commands, Receive
--                              src/server/src/servernetwork/servernetwork.cpp: sending,
--                              connectClients and disconnectClient, nick, registerUser, the branches
--                              of receive by the client's status, handleSend and the relay, the
--                              commands of init, and receive with the loop of manage
--   Server/Receive/Pass, Threads
--                              the loops of manage and of connectClients
--   Server/Room                an abstract room of members and their turns; View reads it off the
--                              server's vectors, Turns and Run relate the handlers to it, Honest
--                              reads names off statuses
--   Server/Wire/Growth, Server/Secrecy
--                              what each handler appends to the wire, and to whom it goes
--   Server/Userdata/Users      the users behind userdata.yml, and the laws asked of yaml-cpp
--   Server/Unused              sendQueuedMessage, isOp and convertToString, which nothing relies on
--   Client                     src/clients/cpp/src/ClientNetwork.cpp: handshake, send, the lines of
--                              run and what receive prints
--   Client/Conversation        lines typed, sent, relayed and printed, one after another
--   Client/Utils               src/clients/cpp/src/Utils.hpp
--   Client/Crypt               src/clients/cpp/src/cryptography.cpp, with the keys in a vector
--   Client/Session             the whole login, the client and the server answering each other, and
--                              the lines typed after it
--   TestClient                 util/encrypt-test-client/src/main.cpp; Packets and Lines are what it
--                              and the server send each other
--   TestClient/Crypt           util/encrypt-test-client/src/cryptography.cpp, a copy of the client's
--   Server/Invariant           the well-formedness of the server's state
--   Examples                   runs over toy platforms that meet every law asked of the libraries
--
-- How state and effects are modelled. A handler takes the server's state and returns a `Result`:
-- the new state, an exception, or a fault, which is what C++ leaves undefined here (an access
-- outside an array, a write past a buffer, a use after free) or a failed assert. Every read,
-- write and erase by position is checked. Bytes handed to a socket are appended to the field
-- `wire`; whether SFML takes them is a function of the platform. A text is a list of bytes, and
-- `c_str` cuts it at its first NUL where the source passes a C string. Random draws are counted,
-- so each encryption draws its own nonce. A socket pointer is a number, with the remote end of
-- its connection, which is taken to stay fixed. TCP keeps no packets apart: a read finds some
-- bytes, and where a packet is said to be read by itself, the read finds just that packet. A
-- handler runs at one instant. The two threads are interleaved by whole handlers: the data races
-- of the source are outside the model.
--
-- Bounds and fuel: one pass of `manage` takes as fuel the number of rounds that are left, and as
-- many as there are clients are enough, since nobody comes by a round; the other loops recur on
-- lists. The buffers that sockets are read into have 4096 bytes, of which an encryption takes 28,
-- the relay buffer 256, the arrays of words 512 in the server and 100 in the client, as in the
-- source.
--
-- Not modelled: log lines, the reading of the keyboard, how a socket connects, what the thread of
-- queued messages would send (nothing fills its queue), functions with an empty body, the Rust
-- client and the build.
pub mod Prelude
pub mod Lexer
pub mod Command
pub mod Cryptography
pub mod Server
pub mod Client
pub mod TestClient
pub mod Examples
