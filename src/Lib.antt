-- ===== src/Lib.antt =====
-- The Jaeger client for C++: the tracer's data model and the formats in which a span context
-- travels between processes. A tracer injects the context of a span into a carrier (a text map,
-- HTTP headers or a byte stream), and another process extracts it from there.
--
-- Base holds the shared names: tests on numbers and byte strings (a std::string is the list of its
-- bytes), lists over the native numbers, bit operations as arithmetic, and association lists,
-- which stand for std::unordered_map and keep one entry per key.
-- - Hex: jaegertracing/utils/HexParsing.h. A stream is good with the bytes that are left, or
--   failed; readSegment is read_segment and decodeHex is decode_hex, with the width of its result
--   as a parameter. Hex.Parser threads a stream through a reader that returns early.
-- - TraceId: jaegertracing/TraceID.h and .cpp (print, from_stream, trace_eq).
-- - SpanContext: jaegertracing/SpanContext.h and .cpp. The record has the seven data members; the
--   mutex guards one call at a time, so that each call is one function. SpanContext.Colons counts
--   the colons that a text needs.
-- - Uri: jaegertracing/net/URI.h and .cpp: queryEscape, queryUnescape and parseQueryValues, each
--   loop with its state machine.
-- - Propagation.Carrier: jaegertracing/propagation/HeadersConfig.h and the Propagator class of
--   Propagator.h. A reader is the list of the pairs that ForeachKey presents, a writer the list of
--   the pairs that were set; the virtual functions are a record Codec. DebugId is about the debug
--   header.
-- - Propagation.Jaeger: jaegertracing/propagation/JaegerPropagator.h; Propagation.W3c:
--   W3CPropagator.h; Propagation.Binary: BinaryPropagator of Propagator.h with platform/Endian.h,
--   over both byte orders. doExtract returns the context and the decoding errors that it counts.
-- - Tag: jaegertracing/Tag.h, LogRecord.h, Reference.h and their .cpp files. Metrics: the counters
--   of metrics/Metrics.h.
-- - Baggage: jaegertracing/baggage/BaggageSetter.h, Restriction.h and RestrictionManager.h;
--   Baggage.Remote: RemoteRestrictionManager.cpp, where an Outcome is how one request ends. A
--   restriction manager is the function getRestriction.
-- - Span: jaegertracing/Span.h and Span.cpp. The span's own state is a record, and what it shares
--   with the tracer, its metrics and its reporter, is passed on as World. Op is a call, and run
--   performs a sequence of calls. Span.Thrift is the conversion to the Thrift span.
-- - Tracer: jaegertracing/Tracer.h and Tracer.cpp: analyzeReferences and randomID; Tracer.Start:
--   StartSpanWithOptions over any sampler, which is a function that passes its state on.
-- - Sender: jaegertracing/ThriftSender.h and ThriftSender.cpp. An Outcome is the count that a call
--   returns or the number of failures that it throws; emitted records the batches given to the
--   transport. The size of the buffer is an int; an overflow, which C++ leaves undefined, wraps
--   around. Sender.Process is about the first call, which sets the process, and Sender.Counting
--   about the size of the buffer.
-- - Reporter: jaegertracing/reporters/RemoteReporter.h and .cpp: a step relation on the queue, in
--   which the threads' critical sections and the atomic increment come in any order.
--   Reporter.Others: InMemoryReporter.h and CompositeReporter.h.
-- - Samplers: jaegertracing/utils/RateLimiter.h and the samplers of jaegertracing/samplers but the
--   remotely controlled one. Doubles are a type with the operations of Arithmetic, and
--   Samplers.Limits.IsOrdered has the laws of order and sign of IEEE 754, where a predicate tells
--   the finite numbers.
-- - Reporter.Sending: the rounds of sweepQueue with sendSpan and flush over the model of the
--   Thrift sender, and close. The actions of a run are explicit sequences.
-- - Decimal: the numbers that std::to_string, << and >> print and read, with at most the 10 digits
--   of an int.
-- - Uri.Parts: the parts of a URI; Http: jaegertracing/net/http. A loop on headers has fuel, one
--   more than the length of the text, and Http.Lines shows that it is enough.
-- - Samplers.Remote: jaegertracing/samplers/RemotelyControlledSampler.h and .cpp, over the
--   samplers of Samplers. Json: RemoteSamplingJSON.h and RemoteRestrictionJSON.h, over a record of
--   the JSON library's operations.
-- - Config: jaegertracing/Config.h and Config.cpp, with Config.Sampler, Config.Reporter and
--   Config.Sources for samplers/Config.h, reporters/Config.h, utils/EnvVariable.h and
--   utils/YAML.h. A YAML node and the environment are parameters.
-- - Tracer.Facade: make, Inject and Extract of jaegertracing/Tracer.h.
-- - Baggage.Polling: poll and the constructor of
--   jaegertracing/baggage/RemoteRestrictionManager.cpp over the model of the HTTP client. The
--   turns of the loop, with the times of the clock, are an explicit list.
-- - Metrics.Names, Metrics.Stats and Metrics.Members: jaegertracing/metrics, up to the reporter in
--   memory.
-- - Transport: emitBatch of jaegertracing/utils/UDPTransporter.h and HTTPTransporter.h;
--   Transport.Making: their constructors, makeReporter of reporters/Config.cpp, and
--   versionFromString of net/IPAddress.cpp, where a Network has the calls of the operating system.
-- - Tracer.Factory: MakeTracer of jaegertracing/TracerFactory.cpp.
-- - Span.Copies: the copies, the assignment and the destructor of jaegertracing/Span.h;
--   Tracer.Closing: Close of Tracer.h.
--
-- Every loop is structural recursion on what is left to read or write; hex_loop has sixteen
-- rounds, as many as the digits of a 64-bit word. Strings are bytes below 256, and char is signed
-- where the code widens it, as on x86-64. The order in which std::unordered_map iterates is the
-- order of its association list.
--
-- Not modelled: the wire format of Thrift, system calls, threads beyond the orders that are
-- written out, logging, and the parsing of YAML and JSON, which third-party libraries do. The
-- names under opentracing are such a library too.
pub mod Base
pub mod Hex
pub mod TraceId
pub mod SpanContext
pub mod Uri
pub mod Propagation
pub mod Tag
pub mod Metrics
pub mod Baggage
pub mod Span
pub mod Tracer
pub mod Sender
pub mod Reporter
pub mod Samplers
pub mod Decimal
pub mod Http
pub mod Config
pub mod Json
pub mod Transport
