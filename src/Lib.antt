-- ===== src/Lib.antt =====
-- KD Soap, a SOAP library on Qt: a model of its server side, of its messages and of how they are
-- written and read, of its qualified names and of the names its code generator escapes, and what is
-- proved of them.
--
-- A connection of a client is a KDSoapServerSocket. Its slotReadyRead collects the bytes that
-- arrive, finds the end of the headers, parses them, collects a sized or a chunked body, and hands a
-- complete request to handleRequest, which answers it by a call of the server object or by a file.
-- A file request goes through handleFileDownload, which works out the ranges of a Range header and
-- writes the headers and the bytes of the file. KDSoapServer accepts connections, and has their
-- sockets in a list of its own or hands them to a KDSoapThreadPool, whose threads have a list for
-- each server. A call is read by KDSoapMessageReader into a KDSoapMessage, which is a KDSoapValue with
-- a few fields more; the server object answers it, with a fault if it set one, and the reply is
-- written by KDSoapMessageWriter, at once or when the server object sends it. The client writes its
-- calls and reads its replies by the same two classes.
--
-- Files, with the code each is about (src/KDSoapServer/KDSoapServerSocket.cpp where none is named):
--   Prelude    names of the libraries, lists, integers and texts with their laws
--   Platform   what the code calls in Qt beyond plain queries: an interface, taken as a parameter
--   Examples   an instance of that interface, for the tests
--   Headers    the QMap of HTTP headers (HeadersMap), as an association list
--   Http       parseHeaders, splitHeadersAndData, stripQuotes, additionalHttpHeaders,
--              httpResponseHeaders, isPathSecure; Http/Splitting and Http/Parsing are about them
--   Ranges     determineFileRanges; Ranges/Sorting and Ranges/Coalescing are about its second half,
--              Ranges/Specs about its loop over the specs, Ranges/Deciding about its last part,
--              Ranges/Outcome about its answer
--   Download   writeFileRanges and handleFileDownload; Download/Copying is about the loops that
--              copy, Download/Multipart about the length of several parts, Download/Answer about
--              the whole answer
--   Socket     slotReadyRead and setSocketEnabled, on the members of KDSoapServerSocket
--              (src/KDSoapServer/KDSoapServerSocket_p.h); Socket/Chunks, Socket/Scans and
--              Socket/Fuel are about the loop over the chunks, Socket/Fragments and
--              Socket/Independence about requests in several deliveries, Socket/Negative about chunk
--              sizes with a minus sign, Socket/Sizes about which requests have plain chunk sizes
--   Auth       parseAuthLine and handleHttpAuth of
--              src/KDSoapServer/KDSoapServerAuthInterface.cpp; Auth/Access is about who gets access
--   Request    handleRequest up to the call of the server object, handleWsdlDownload and makeCall;
--              Request/Guards is about the checks before it
--   Pool       src/KDSoapServer/KDSoapThreadPool.cpp, KDSoapServerThread.cpp and
--              KDSoapSocketList.cpp; Pool/Choosing is about the choice of a thread, Pool/Counting
--              about the counts of connections
--   Server     incomingConnection, the counts, suspend and resume of
--              src/KDSoapServer/KDSoapServer.cpp; Server/Limits is about the limit on connections,
--              Server/Suspension about suspend and resume
--   QName      src/KDSoapClient/KDQName.cpp; QName/Parsing is about names printed and read back
--   Xml        the calls of QXmlStreamWriter, the tokens of QXmlStreamReader and the trees that both
--              stand for; Xml/WellFormed is about trees that are read as they were written,
--              Xml/Transport has a pair of writer and reader as Qt documents them
--   Namespaces src/KDSoapClient/KDSoapNamespaceManager.cpp and KDSoapNamespacePrefixes.cpp
--   Value      src/KDSoapClient/KDSoapValue.cpp; Value/Writing is what a value writes, Value/Trees
--              the tree of it, Value/Contents what a value says, Value/Samples is for tests
--   Addressing src/KDSoapClient/KDSoapMessageAddressingProperties.cpp and
--              KDSoapEndpointReference.cpp; Addressing/Elements is the tree of what is written
--   Security   src/KDSoapClient/KDSoapAuthentication.cpp
--   Message    src/KDSoapClient/KDSoapMessage.cpp; Message/Faults is about the text of a fault
--   Writer     src/KDSoapClient/KDSoapMessageWriter.cpp; Writer/Trees is about the tree of a message
--   Reader     parseElement of src/KDSoapClient/KDSoapMessageReader.cpp; Reader/Envelope is
--              xmlToMessage, Reader/Elements is about the loop over the tokens of an element,
--              Reader/Reading about what a value says that was read, Reader/Retry about the
--              attempts after an invalid character
--   RoundTrip  a message written and read; RoundTrip/Declared is about the namespaces that every
--              message declares, RoundTrip/Sent about the tree that a value writes,
--              RoundTrip/Erased about trees without declarations, RoundTrip/Printable about what
--              can be written as XML, RoundTrip/Shapes about the envelope with a body and how
--              xmlToMessage goes through it, RoundTrip/Messages about messages
--   Replies    src/KDSoapServer/KDSoapServerObjectInterface.cpp, makeCall and sendReply;
--              Replies/Faults is about faults, Replies/Delayed about delayed replies
--              (src/KDSoapServer/KDSoapDelayedResponseHandle.cpp)
--   Calls      parseReply of src/KDSoapClient/KDSoapPendingCall.cpp and
--              src/KDSoapClient/KDSoapFaultException.cpp; Calls/Reply is about the document of a
--              fault, Calls/Faults about a fault on its way from a server object to the client
--   Dates      src/KDSoapClient/KDDateTime.cpp; Dates/Zones is about the time zone of a date
--   NameMapper kdwsdl2cpp/src/namemapper.cpp; NameMapper/Escaping is about what it escapes
--
-- A QByteArray is the list of its bytes. A call that leaves the socket (an answer written, a request
-- handed on, a raw XML callback) is an entry of the socket's trace. handleRequest, and newRequest
-- of a raw XML interface, are parameters of slotReadyRead's definitions.
--
-- Loops: those over texts, specs, ranges and headers are structural. The loop over the chunks and
-- the loops that copy a file run on fuel. One more than the bytes ahead is enough for the former
-- where the chunk sizes are plain, that is neither negative nor too large for 32 bits; the length of the range, or of the file, is passed for the latter
-- and is enough for a device that reads a byte at least before its end. The loops of the message
-- reader over tokens run on fuel too, of which the definitions give one more than there are tokens;
-- each of their rounds takes one. The attempts at a document that is not well-formed have a number
-- that the caller gives; the length of the document is enough.
--
-- Numbers: an `int` is an integer without bounds, except where the bytes of a request or of a file can
-- bring it beyond its 32 bits: the size of a file, the sum that decides about coalescing of ranges, the
-- length of a multipart answer and m_chunkStart are wrapped as the source wraps them.
--
-- What a server object does (its interfaces, validateAuthentication, processRequest) is a parameter:
-- fields of Request.Site, or arguments. So are QVariant, as Value.Variants, and what
-- QXmlStreamReader makes of some bytes, as a list of tokens with an error behind it. Where a theorem
-- has a document written and read, what Qt documents of the pair is the hypothesis
-- Xml.WellFormed.IsFaithful, on trees that can be read as they were written. QString::fromUtf8 is a
-- parameter where credentials go through it.
--
-- Not modelled: the client's calls over the network, jobs and threads; the arithmetic of dates;
-- the code generator kdwsdl2cpp but for its escaping of names; logging, TLS, and the tests and
-- examples. A comparison of values is one of pointers to shared data, and is left out.
pub mod Prelude
pub mod Platform
pub mod Examples
pub mod Headers
pub mod Http
pub mod Ranges
pub mod Download
pub mod Socket
pub mod Pool
pub mod Server
pub mod Auth
pub mod Request
pub mod NameMapper
pub mod QName
pub mod Namespaces
pub mod Xml
pub mod Value
pub mod Reader
pub mod Addressing
pub mod Security
pub mod Message
pub mod Writer
pub mod RoundTrip
pub mod Replies
pub mod Calls
pub mod Dates
