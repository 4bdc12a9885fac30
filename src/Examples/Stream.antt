-- ===== src/Examples/Stream.antt =====
-- Packets over a stream of bytes at concrete inputs.
use libremo.Prelude.{
  ℕ, ◌+◌, ◌≡◌, refl, true, false, List, [], ◌∷◌, ◌++◌, replicate, length, length-replicate,
  length-append, map, arith, none, some,
}
use libremo.Error.{ok}
use libremo.Packet.{Packet}
use libremo.Channel.{
  uint32_at, new_channel, on_state_changed, opened, opening, closed_by_peer, transport_closed,
  state_changed, is_closed,
}
use libremo.Channel.States.{
  IsTold, connects, closes, ends, receives, do_calls, do_calls-IsTold, start,
}
use libremo.Socket.{got, sent, send_blocked}
use libremo.Rpc.Remote.{Owned}
use libremo.Rpc.Remote.Kept.{count_of}
use libremo.TcpChannel.{Turn, TcpChannel, receive_chunk, send_packet, send_loop, uint32_bytes}
use libremo.TcpChannel.Frames.{frame, split_frame}
use libremo.TcpChannel.Rx.{Waiting, AllFresh}
use libremo.TcpChannel.Chunk.{Took, receive_chunk_lem}
use libremo.TcpChannel.Send.{takes, waits, Delivers, done, next, IsSendable, send_loop_lem}
use libremo.TcpChannel.Pieces.{
  Piece, joined, IsReceiving, Received, receive_pieces, heard, receive_chunk-two_frames,
}
use libremo.TcpChannel.Delivery.{Message, pieces_of, receive_pieces_lem, send_packet-receive_pieces}
use libremo.TcpChannel.Shutdown.{receive_chunk-shutdown}
use libremo.Examples.Wire.{fresh, fresh-IsFresh}

-- A packet whose payload is 7, 9.
abbrev filled : Packet
filled = record fresh {
  memory = replicate 128 0 ++ (7 ∷ 9 ∷ replicate 894 0);
  payload = record fresh.payload { size = 2 };
}

filled-IsSendable : IsSendable filled
filled-IsSendable = record {
  readable = record {
    memory_size = omega (
      arith,
      length-replicate {A = ℕ} 128 0,
      length-replicate {A = ℕ} 894 0,
      length-append {A = ℕ} (replicate 128 0) (7 ∷ 9 ∷ replicate 894 0),
    );
    header_left = refl;
    payload_right = refl;
    header_end = refl;
    border = omega arith;
    payload_end = omega arith;
    payload_full = omega arith;
    payload_cap = omega arith;
  };
  header_empty = refl;
  header_room = omega arith;
  header_at_payload = refl;
}

-- Four bytes are taken, then the socket is not ready, then the other two bytes are taken.
abbrev first_turn : Turn
first_turn = record { sending = λ size. sent 4; polling = true }

abbrev blocked_turn : Turn
blocked_turn = record { sending = λ size. send_blocked; polling = true }

abbrev last_turn : Turn
last_turn = record { sending = λ size. sent size; polling = true }

abbrev three_turns : List Turn
three_turns = first_turn ∷ blocked_turn ∷ last_turn ∷ []

three_turns-Delivers : Delivers 6 three_turns
three_turns-Delivers = next 5 4 first_turn _ (takes first_turn 4 (omega arith) (omega arith) refl) (
    next 1 0 blocked_turn _ (waits blocked_turn refl refl)
      (next 1 2 last_turn [] (takes last_turn 2 (omega arith) (omega arith) refl) (done [])))

abbrev pooled_packet : Owned
pooled_packet = record { object = fresh; pooled = false }

-- An open channel with two packets and a handler.
abbrev open_channel : TcpChannel
open_channel = record {
  base = record { state = opened; receive_handler = true; state_handler = true; events = [] };
  rx_packet = none;
  pool = pooled_packet ∷ pooled_packet ∷ [];
}

open_channel-IsReceiving : IsReceiving [] open_channel
unfolding is_closed
open_channel-IsReceiving = record {
  is_open = refl;
  waiting = refl;
  fresh = (fresh-IsFresh, (fresh-IsFresh, tt));
  packets = omega arith;
}

-- The frame of 7, 9 in three pieces.
abbrev three_pieces : List Piece
three_pieces = (2, 0 ∷ []) ∷ (0, 0 ∷ 7 ∷ []) ∷ (9, []) ∷ []

send_packet-receive_pieces_example :
    (q : Packet) × (c' : TcpChannel) × (send_packet three_turns filled
      ≡ ok (q, joined three_pieces))
    × (receive_pieces three_pieces open_channel ≡ ok c')
    × IsReceiving [] c'
    × (heard c'.base.events ≡ heard open_channel.base.events ++ (7 ∷ 9 ∷ []) ∷ [])
unfolding frame uint32_bytes
send_packet-receive_pieces_example =
    send_packet-receive_pieces filled three_turns three_pieces open_channel filled-IsSendable
      three_turns-Delivers open_channel-IsReceiving refl refl

abbrev two_messages : List Message
two_messages =
    record { payload = 7 ∷ 9 ∷ []; pieces = three_pieces }
    ∷ record { payload = 8 ∷ []; pieces = (1, 0 ∷ 0 ∷ 0 ∷ 8 ∷ []) ∷ [] }
    ∷ []

receive_pieces_lem_example :
    (c' : TcpChannel) × (receive_pieces (pieces_of two_messages) open_channel ≡ ok c')
    × IsReceiving [] c'
    × (heard c'.base.events ≡ heard open_channel.base.events ++ map (λ m. m.payload) two_messages)
unfolding frame uint32_bytes
receive_pieces_lem_example =
    receive_pieces_lem two_messages open_channel ((refl, omega arith), ((refl, omega arith), tt))
      open_channel-IsReceiving refl

send_loop_lem_example :
    send_loop three_turns (2 ∷ 0 ∷ 0 ∷ 0 ∷ 7 ∷ 9 ∷ []) [] ≡ ok (2 ∷ 0 ∷ 0 ∷ 0 ∷ 7 ∷ 9 ∷ [])
send_loop_lem_example =
    send_loop_lem three_turns (2 ∷ 0 ∷ 0 ∷ 0 ∷ 7 ∷ 9 ∷ []) [] three_turns-Delivers

receive_chunk_lem_example :
    (c' : TcpChannel) × (receive_chunk (λ size. got (1 ∷ 0 ∷ 0 ∷ 0 ∷ 8 ∷ 2 ∷ [])) open_channel
      ≡ ok c')
    × Took open_channel c' (1 ∷ 0 ∷ 0 ∷ 0 ∷ 8 ∷ 2 ∷ []) (some (8 ∷ [], 2 ∷ []))
    × AllFresh c'.pool
    × (length c'.pool + count_of c'.rx_packet
        ≡ length open_channel.pool + count_of open_channel.rx_packet)
unfolding split_frame uint32_at
receive_chunk_lem_example =
    receive_chunk_lem [] (0 ∷ 0 ∷ 0 ∷ 8 ∷ 2 ∷ []) 1 (λ size. got (1 ∷ 0 ∷ 0 ∷ 0 ∷ 8 ∷ 2 ∷ []))
      open_channel open_channel-IsReceiving.is_open refl open_channel-IsReceiving.fresh
      (omega arith) refl (omega arith)

receive_chunk-two_frames_example :
    (c' : TcpChannel) × (receive_chunk
        (λ size. got (frame (8 ∷ []) ++ frame (7 ∷ 9 ∷ [])))
        open_channel
      ≡ ok c')
    × IsReceiving (frame (7 ∷ 9 ∷ [])) c'
    × Received (8 ∷ []) open_channel c'
unfolding frame uint32_bytes
receive_chunk-two_frames_example =
    receive_chunk-two_frames (8 ∷ []) (7 ∷ 9 ∷ []) open_channel open_channel-IsReceiving
      (omega arith)

receive_chunk-shutdown_example :
    (c' : TcpChannel) × (receive_chunk (λ size. got []) open_channel ≡ ok c')
    × Waiting c'.rx_packet []
    × (c'.base.state ≡ closed_by_peer)
    × (c'.base.events ≡ state_changed closed_by_peer ∷ transport_closed ∷ [])
    × AllFresh c'.pool
    × (length c'.pool + count_of c'.rx_packet
        ≡ length open_channel.pool + count_of open_channel.rx_packet)
receive_chunk-shutdown_example =
    receive_chunk-shutdown [] (λ size. got []) open_channel open_channel-IsReceiving.is_open refl
      open_channel-IsReceiving.fresh (omega arith) refl

do_calls-IsTold_example :
    IsTold opening
      (do_calls (connects ∷ receives fresh ∷ closes ∷ ends ∷ []) (on_state_changed new_channel))
do_calls-IsTold_example =
    do_calls-IsTold (connects ∷ receives fresh ∷ closes ∷ ends ∷ []) opening
      (on_state_changed new_channel) (record { observed = refl; told = start opening })
