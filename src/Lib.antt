-- ===== src/Lib.antt =====
-- The verification library of inkwell, a C library for device applications.
--
-- Codec/Mqtt is src/codec/mqtt.c: the packets of MQTT 3.1.1 as a client writes and reads them.
--   Varint is mqtt_read_varint, mqtt_write_varint and mqtt_varint_width; Packet the types of
--   include/inkwell/codec/mqtt.h and the strings and 16-bit words; Decode the decoders of a header,
--   a PUBLISH, a CONNACK and a SUBACK; Encode the encoders. The client reads the stream by
--   decode_header and hands a whole body to the decoder that its type names.
-- Codec/EspRom is src/codec/esp_rom.c: the requests to the ROM loader of an ESP chip, escaped by
--   SLIP (Request), and the reader that takes responses from a serial line, fed byte runs of any
--   size (Reader); Answers compares a digest and names a chip.
-- Codec/EspImage is src/codec/esp_image.c.
-- Codec/Http is src/codec/http.c: Head is the lines and fields of a response and what they say of its
--   body, Response the parser that is fed runs of bytes, Url the URLs and their resolution, and
--   Url/Request the request that is sent, of which Url/Lines says the lines.
-- Codec/Json is src/codec/json.c: a document is the text from the cursor to the end; Strings has the
-- strings, Skipping and Values the walks that skip them.
-- Codec/Zip is src/codec/zip.c: Record is about the record at the end of an archive, Member about the
--   search of its directory.
-- Codec/Base64 is src/codec/base64.c and Codec/Uf2 is src/codec/uf2.c.
-- Base/Text is the UTF-8 decoder of src/base/text.c, with its bounded copies
--   in Copy, the lengths and offsets of a text in Measure, and texts by their pieces in Pieces.
-- Base/Version is src/base/version.c: the parser of a version string and the comparison, with the
--   order in Order and what the parser refuses in Refusals.
-- Net/Mqtt/Inbound is the inbound buffer of src/net/mqtt.c, mqtt_consume, over the handlers that the
--   client calls with a header of Codec/Mqtt and its body; they are a parameter.
-- Net/Mqtt/Client is the rest of src/net/mqtt.c, on the state of struct inkwell_mqtt_client: Failing is
--   mqtt_set_state, mqtt_close, mqtt_back_off and the three mqtt_fail functions; Sending is mqtt_arm,
--   mqtt_flush, mqtt_queue and mqtt_pump_subscribes, over Net/Mqtt/Queue; Packets is mqtt_handle and the
--   handlers below it, over the decoders of Codec/Mqtt; Reading is mqtt_read_ready with mqtt_consume,
--   which is Net/Mqtt/Inbound with the handlers of Packets for its parameter; Connecting is mqtt_attempt,
--   mqtt_open, mqtt_finish_connect, mqtt_secure, mqtt_send_connect and mqtt_fd_callback; Calls is the
--   public calls, and the events of the resolver's own descriptor, by which a lookup completes outside
--   of a tick. Releasing is about the end of an attempt, Recovery about a
--   late tick and a stray SUBACK. Sockets, the event loop, TLS and the resolver are a record of
--   operations on a state of their own, the two callbacks are functions on the whole client: they may call back into it.
-- Net/Reason is src/net/reason.c, and Net/Mqtt/Address is src/net/mqtt_address.c, which a start of the
--   client calls.
-- Net/Mqtt/Queue is the write queue of src/net/mqtt.c, mqtt_compact_out, mqtt_flush and mqtt_queue,
--   over a transport that is a parameter with the laws that send() and mbedtls_ssl_write() document.
-- Prelude has the lists, words and results that they share.
--
-- How the C is read. A pointer with a length is the list of its bytes; a pointer that may be NULL
-- is an Option, none for NULL. A buffer to write to is its capacity, and what is written at the
-- front of it is the result; an out-parameter is part of the result, and its own NULL check is not
-- modelled. A C string is its bytes before the NUL. A negative errno is err, a length or 0 is ok.
-- A machine word is a natural number, with its wrap written by u8, u16 and u32; x & (2^k - 1) is
-- x % 2^k, x >> k is x / 2^k, and | of words that share no bit is a sum.
--
-- Loops are recursion on the bytes, or on the value where it is divided (write_varint,
-- varint_width); read_varint_loop has the four steps that the source's bound allows. The loop of
-- mqtt_flush has one unit of fuel for each byte in the buffer, enough since a write that returns a
-- count has sent a byte; that of mqtt_consume has one more than the bytes buffered, enough since a
-- round that goes on takes a byte; mqtt_pump_subscribes calls itself for each filter that cannot be
-- encoded, and has one for each filter that is left; those of inkwell_text_sanitise and
-- inkwell_text_utf8_length have one for each byte of the text, of which a round takes one at least.
--
-- Not modelled: input and output, the operating system interfaces, the vendored decoders and TLS,
-- and the state machines of Bluetooth and the runtime.
pub mod Base
pub mod Codec
pub mod Net
pub mod Prelude
