-- ===== src/Examples/Logs.antt =====
-- The texts of packets at concrete inputs.
use libremo.Prelude.{
  ℕ, ◌≡◌, refl, List, [], ◌∷◌, map, arith, ◌++◌, ◌<◌, ◌↔◌, true, false, if◌then◌else◌, length, none,
  some, codes, decimal,
}
use libremo.Error.{ok}
use libremo.Types.{BaseId, get_type_name}
use libremo.Writer.{Writer, write_call, write_result}
use libremo.Writer.WireSize.{significant}
use libremo.Writer.{is_zero}
use libremo.Writer.Encoding.{encode_call}
use libremo.Writer.Results.{void, typed_of, typed_of_arg, encode_result}
use libremo.Buffer.{right}
use libremo.Reader.{Reader, reader}
use libremo.Reader.Safety.{IsSafe}
use libremo.Codec.{payload_writer, written}
use libremo.Dump.{packet_text, to_string, type_label, value_text, signed_text, to_hex}
use libremo.Dump.Packets.{call_text, result_text, packet_text-write_call, packet_text-write_result}
use libremo.Dump.Ending.{Ends, to_string-Ends}
use libremo.Colors.Visible.{IsPlain, visible, IsPlain-append, decimal-IsPlain}
use libremo.Logger.{
  Logger, LogState, Entry, new_logger, log, noted, level_enabled, get_thread_number, log_info,
  log_verb, value,
}
use libremo.Logger.Lines.{log_lem, plain_line}
use libremo.Logger.Levels.{IsLogged}
use libremo.Logger.Numbers.{number_all, number_all_lem}
use libremo.Examples.Wire.{fresh, fresh-IsFresh, add_name, add_args, sent_args}

-- No test prints a float or double.
abbrev no_floats : BaseId → List ℕ → List ℕ
no_floats b bytes = []

packet_text-write_call_example :
    (w : Writer) × (r : Reader) × (write_call add_name add_args (payload_writer fresh) ≡ ok w)
    × (packet_text no_floats (written fresh w) ≡ ok (call_text no_floats add_name add_args, r))
unfolding encode_call significant is_zero
packet_text-write_call_example =
    packet_text-write_call no_floats 128 fresh add_name add_args fresh-IsFresh (omega arith)
      ((refl, refl, refl), ((omega arith, (omega arith, tt)), ((refl, refl), tt))) (omega arith)

packet_text-write_result_example :
    (w : Writer) × (r : Reader) × (write_result
        (typed_of void)
        (map typed_of_arg sent_args)
        (payload_writer fresh)
      ≡ ok w)
    × (packet_text no_floats (written fresh w) ≡ ok (result_text no_floats void sent_args, r))
unfolding encode_result significant is_zero
packet_text-write_result_example =
    packet_text-write_result no_floats 128 fresh void sent_args fresh-IsFresh tt
      ((refl, refl, refl), ((omega arith, (omega arith, tt)), ((refl, refl), tt))) (omega arith)

-- A call of "a" whose argument breaks off after its header.
abbrev broken : Reader
broken =
    reader (0x3E ∷ 0x0C ∷ 0x61 ∷ 0 ∷ 0x22 ∷ 5 ∷ [])
      (record { side = right; start = 0; size = 6; capacity = 6 })

broken-IsSafe : IsSafe broken
broken-IsSafe = record { inside = omega arith; small = omega arith; within = omega arith }

to_string-Ends_example : Ends 0 broken (to_string no_floats broken)
to_string-Ends_example = to_string-Ends no_floats broken broken-IsSafe

add_text :
    call_text no_floats add_name add_args ≡ codes "call: add((uint16_t)261, \"hi\", (int32_t*)7)"
unfolding type_label value_text get_type_name signed_text decimal
add_text = refl

-- The bytes 0x61 and 0x0A: an `a` and a line feed, not their codes.
not_hex : to_hex (0x61 ∷ 0x0A ∷ []) ≡ b'0' ∷ b'a' ∷ b' ' ∷ b'0' ∷ 0x0A ∷ []
unfolding to_hex
not_hex = refl

-- A transport logs that it starts, on a terminal with colours, at ten seconds past the epoch.
abbrev transport_logger : Logger
transport_logger = new_logger (codes "Tcp") true

abbrev starting : Entry
starting = record {
  level = log_info;
  log_name = codes "#4";
  formatted = codes "starting";
  time = 10000042;
  thread = 7001;
  unwinding = false;
}

abbrev first_entry : LogState
first_entry = record { last_ts = 0; invert = false; threads = []; global_level = log_verb }

abbrev in_seconds : ℕ → List ℕ
in_seconds n = decimal n ++ codes "."

in_seconds-IsPlain : (n : ℕ) → IsPlain (in_seconds n)
in_seconds-IsPlain n = IsPlain-append (decimal n) (codes ".") (decimal-IsPlain n) (omega arith)

log_lem_example :
    ((level_enabled starting.level first_entry.global_level ≡ true)
      ↔ IsLogged starting.level first_entry.global_level)
    × (text : List ℕ) × (log in_seconds transport_logger starting first_entry ≡ (
        if level_enabled starting.level first_entry.global_level
        then (noted in_seconds transport_logger starting first_entry, some text)
        else (first_entry, none)))
    × (visible text
        ≡ plain_line in_seconds transport_logger.name starting
            (get_thread_number starting.thread first_entry.threads).0)
log_lem_example = log_lem in_seconds transport_logger starting first_entry (record {
  time = in_seconds-IsPlain;
  name = omega arith;
  object = omega arith;
  message = omega arith;
})

starting_line :
    plain_line in_seconds transport_logger.name starting
      (get_thread_number starting.thread first_entry.threads).0
    ≡ codes "libremo: [10.000042] [info ] [T0] [Tcp:#4] starting" ++ (0x0A ∷ [])
unfolding decimal get_thread_number
starting_line = refl

-- The first and the third entry of three are of one thread.
number_all_lem_example :
    ((◌≡◌ {A = ℕ} 0 0) ↔ (◌≡◌ {A = ℕ} 7001 7001))
    × (0 < length (number_all (7001 ∷ 7002 ∷ 7001 ∷ []) []).1)
unfolding number_all get_thread_number
number_all_lem_example =
    number_all_lem (7001 ∷ 7002 ∷ 7001 ∷ []) 0 2 7001 7001 0 0 refl refl refl refl

-- A level without a name.
custom_line :
    plain_line in_seconds transport_logger.name (record starting { level = value 99 }) 0
    ≡ codes "libremo: [10.000042] [L99] [T0] [Tcp:#4] starting" ++ (0x0A ∷ [])
unfolding decimal
custom_line = refl
