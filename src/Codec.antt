-- ===== src/Codec.antt =====
-- writer.h and reader.h over the payload of a packet: what one side writes the other side reads.
pub mod Roundtrip
use libremo.Error.{Result, ok, ◌>>=◌}
use libremo.Prelude.{List, ℕ}
use libremo.Types.{TypedValue}
use libremo.Packet.{Packet}
use libremo.Writer.{Writer, writer, Arg, write_call, write_result}
use libremo.Reader.{Reader, reader, and_then, read_call, read_result}

-- BinaryWriter(packet->get_payload())
abbrev pub payload_writer : Packet → Writer
payload_writer p = writer p.memory p.payload

-- BinaryReader(packet->get_payload())
abbrev pub payload_reader : Packet → Reader
payload_reader p = reader p.memory p.payload

-- The packet behind what was written to its payload.
abbrev pub written : Packet → Writer → Packet
written p w = record p { memory = w.memory; payload = w.buffer }
