-- ===== src/Lib.antt =====
-- protowire-cpp: protobuf wire codecs, frames, and the PXF text format, in C++.
--
-- The parts and how they interact. The wire primitives read and write the fields of a message in
-- a span of bytes. The frame codecs put a length in front of a message on a stream, in the
-- protobuf form (a varint) and in the form of the SBE codec (a header of six bytes). Text is
-- checked as UTF-8, and bytes, durations and timestamps have a text form of their own, which the
-- lexer of PXF checks as it meets it. Big integers, decimals and big floats are magnitudes of
-- bytes, with decimal text and nested messages that use the wire primitives.
--
-- Where each part is modelled:
--   Wire        include/protowire/detail/wire.h: Append… and Consume…, EncodeZigZag and
--               DecodeZigZag, one function each.
--   Wire.Skip   ConsumeFieldValue of the same file. Its loop is `group_loop` over `round`.
--   Stream      include/protowire/detail/stream.h: ReadFull, over a record for std::istream, and
--               std::ostream::write.
--   Framing     src/pb/stream.cc and the stream classes of include/protowire/pb.h: ReadUvarint,
--               Encoder::WriteFrame and Decoder::ReadFrame on a record of the decoder's fields.
--   Sofh        src/sbe/stream.cc: Encoder::Encode and Decoder::Decode.
--   Big         include/protowire/pb_big.h and src/pb/big.cc, with
--               include/protowire/detail/bigprec.h: the operations on a magnitude in Big, decimal
--               text in Big.Text, Reduce in Big.Reduce, the Marshal functions in Big.Marshal, and
--               ReadFields with the Unmarshal functions in Big.Unmarshal. Big.Magnitudes and
--               Big.Digits are about the number that a magnitude stands for, Big.Shifts,
--               Big.Widening, Big.Rounding and Big.Bits about its bits.
--   Utf8        include/protowire/detail/utf8.h (IsValidUTF8), and EncodeRune and IsValidRune of
--               src/pxf/lexer.cc.
--   Base64      src/detail/base64.cc: Base64EncodeStd and Base64DecodeStd; Base64.Go has DecodeGo
--               and its two callers.
--   Duration    ParseDuration of src/detail/duration.cc, with the arithmetic of
--               include/protowire/detail/checked_arith.h; Duration.Segments is about its loop,
--               and Duration.Format has FormatDuration, with what ParseDuration reads of it
--               below.
--   Rfc3339     src/detail/rfc3339.cc: ParseRFC3339, and FormatRFC3339Nano in Rfc3339.Format,
--               with the calendar and the text below it.
--   GoQuote     src/detail/go_quote.cc, over any table of printable runes; GoQuote.Runes is about
--               DecodeRune, and GoQuote.Unquote has a reader of quoted text, which is no code of
--               the repository but what the text is read with.
--   GoStrconv   src/detail/go_strconv.cc: the integers, UnderscoreOK and GoDurationError;
--               GoStrconv.Floats has GoParseFloat over any strtod and strtof, and GoStrconv.Times
--               GoTimestampError.
--   Lexer       src/pxf/lexer.cc with include/protowire/pxf/lexer.h and token.h: the cursor in
--               Lexer, strings in Lexer.Strings, triple-quoted strings and bytes literals in
--               Lexer.Literals, numbers, timestamps and durations in Lexer.Numbers, and Next
--               with the rest in Lexer.Next. Each Lex… function takes the lexer and gives the
--               lexer behind the token, and the token. Lexer.Kept and the Kept modules below
--               are about the steps that a token takes; Lexer.Positions has the position of the
--               lexer in its document and Lexer.Progress the loop over the tokens.
--   Ast         include/protowire/pxf/ast.h and src/pxf/ast.cc; Ast.Measures counts the bad values of
--               a tree and how deep it nests.
--   Parser      src/pxf/parser.cc: the class Parser is a record, and each function takes it and gives
--               a result with the next one, or a refusal with its position. Parser.Values has
--               ParseValue, ParseList and ParseBlockVal, Parser.Entries the entries and the
--               recursion over the levels, Parser.Directives the directives, Parser.Braces
--               FindMatchingBrace, Parser.Columns ColumnPathError of src/pxf/dataset_paths.cc,
--               Parser.Documents ParseDocument, Parse and ParseTolerant, Parser.Rows
--               ParseDatasetAt and ParseDatasetRow. Parser.Moved is about what is left to read,
--               and the Sound modules about what each function returns.
--   Common      names of the libraries, lists and tests over native numbers, and bit operations.
--
-- Conventions. A byte is a number below 256, a string or span is a list of bytes, and a word of w
-- bits is its value, with `% 2 ^ w` wherever the source narrows or wraps. The functions of Wire
-- count bytes in an `int`: ConsumeBytes and ConsumeFieldValue, and what is built on them, are
-- modelled for spans shorter than 2 ^ 31 bytes, where the cast of a length to `int` keeps its
-- value. ShiftRightRounded is modelled for a count below the bit length, as its comment asks. An
-- error code or a missing optional is `none`; a Status is an Option of an error, `none` for OK,
-- and in Big a StatusOr, which has the source's cases. The std::stable_sort of TakeErrors is an
-- insertion sort, which gives the same list. A function that changes an object takes its record
-- and returns the new one.
--
-- Fuel. A loop over a span runs on its length, since a round takes a byte at least: the loop of
-- IsValidUTF8, DecodeGo, ParseDuration and the lexer on the length of the rest, and that of
-- ConsumeFieldValue on one more than the length of the span. ReadUvarint and AppendVarint count
-- the bytes of the source's own bound, ten.
-- FormatMagnitude runs three rounds for each byte, which has fewer than three decimal digits more;
-- Reduce runs a round for each unit of the scale, and ReadFields one for each byte of the message.
-- The loops of the parser run on one more than the bytes and the token left, since a round takes a
-- token; ParseValue and ParseBody on two units for each level of nesting below the limit.
--
-- Not modelled: CheckColumnPaths; strtod and strtof, which are arguments of GoParseFloat; the
-- text of a big float (src/pxf/bigfloat.cc); Marshal and Unmarshal of the two codecs, which are
-- arguments of the frame functions; the PXF encoder, decoder and dataset reader, and the SBE
-- codec, which work on messages of the protobuf library; the PXF rewriter, for its size; the
-- table of printable runes, which is generated; memory, and the failure of an allocation. A
-- stream's device is a list of bytes that ends or breaks.
pub mod Common
pub mod Wire
pub mod Stream
pub mod Framing
pub mod Big
pub mod Utf8
pub mod Base64
pub mod Sofh
pub mod Duration
pub mod Rfc3339
pub mod GoQuote
pub mod Lexer
pub mod GoStrconv
pub mod Ast
pub mod Parser
