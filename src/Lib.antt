-- ===== src/Lib.antt =====
-- A model of gsup-map-proxy, which passes the requests of SGSNs (GSUP messages in IPA frames) on to an HLR
-- (MAP messages in TCAP) and the answers back, and its proofs.
--
-- The program's parts and the files that model them:
-- - Buffer models common/Buffer.hpp: a reader is the list of its unread bytes, a writer the bytes written.
--   Buffer.Cursor has the reader with its position. Buffer.Loop has the loops `while (!r.empty())`.
-- - Ber models map/BerCodec.cpp: lengths, TLVs and integers. Bcd has the packed digits of both codecs.
-- - Framing has what the two stream decoders share: a buffer, the read loop over it, and the connection
--   that cuts a stream into pieces. Framing.Delivery states what a decoder promises as a record of laws.
-- - Ipa models ipa/IpaCodec.cpp and ipa/IpaFrame.hpp: the encoder of frames and the stream decoder.
-- - M3ua models transport/M3uaTypes.hpp and transport/M3uaCodec.cpp (M3ua.Encode, M3ua.Decode).
-- - Sccp models transport/ScccpTypes.hpp and transport/ScccpCodec.cpp (Sccp.Encode, Sccp.Decode).
-- - IpaSession models transport/IpaSession.cpp, the connection to one SGSN: the CCM handshake, the read loop
--   over Ipa and the write queue. IpaSession.Run has the histories of its handlers.
-- - IpaServer models transport/IpaServer.cpp, the tables of the sessions, over IpaSession and Assoc.
-- - MapTransport models transport/MapTransport.cpp, the connection to the HLR's signalling gateway: connecting,
--   the ASP states, and the wrapping of MAP payloads in Sccp and M3ua. MapTransport.Receive has the read
--   handler, MapTransport.Run the histories.
-- - Gsup models gsup/GsupMessage.hpp, gsup/GsupTypes.hpp (Gsup.MessageType, Gsup.IeTag) and gsup/GsupCodec.cpp
--   (Gsup.Decode, Gsup.Encode).
-- - Map models map/MapMessage.hpp, map/MapTypes.hpp (Map.MapOperation, Map.Tag) and map/MapCodec.cpp
--   (Map.Decode, Map.Encode).
-- - Converter models proxy/Converter.cpp, between GSUP and MAP messages.
-- - Transactions models proxy/TransactionManager.cpp: the MAP transactions of the SGSNs' requests. Assoc
--   stands for `std::unordered_map`.
-- - Proxy models proxy/Proxy.cpp: the handlers, which call all of the above, and the timer of main.cpp.
-- - Base has what they share, Examples concrete runs. All the sources are under src/.
--
-- A function of the code is the definition of its name in lower case with underscores. A member function
-- takes the object's state and returns the new one; what a handler sends is the list of `Sent` that it
-- returns. An exception is `err`. A clock's value is an argument. Log output is left out.
--
-- Of Boost.Asio the model takes what its documentation says of the calls: an asynchronous call returns at once
-- and its handler runs later, with or without an error. A call is an `Output` of the function that makes
-- it; its handler is a function of its own, with the error, the received bytes or the outcome as arguments. A
-- history is a sequence of handlers in any order, but for the handlers of a session's writes: one runs
-- for each write that was started. Undefined behaviour of C++ is an outcome, `undefined`.
--
-- Integers are natural numbers with the wrap-around of their width written out; an `int64_t` is its 64-bit
-- pattern. An `enum class` over a byte is the byte. The handlers run one after another, as the one thread of
-- main.cpp runs them.
--
-- Loops over a reader run on fuel, one round for each unread byte, and end with `stuck` without fuel; each
-- round reads a byte at least. The byte loops of `encodeInt` run for eight and nine rounds, which empty
-- 64 bits. An `unordered_map` is a list of pairs; its order is the order in which a loop meets the keys,
-- which the library leaves open.
--
-- The read loops of Framing, IpaSession and MapTransport run on fuel too: one round for each byte of the buffer
-- and one more, and each frame takes a byte at least.
--
-- Not modelled: main.cpp but for its timer, and the read-only members and constants that nothing uses. For the proxy, `ITransport::send` is taken to deliver what it is given.
pub mod Base
pub mod Assoc
pub mod Buffer
pub mod Ber
pub mod Bcd
pub mod Framing
pub mod Ipa
pub mod M3ua
pub mod Sccp
pub mod IpaSession
pub mod IpaServer
pub mod MapTransport
pub mod Gsup
pub mod Map
pub mod Transactions
pub mod Converter
pub mod Proxy
pub mod Examples
