-- ===== src/Channel.antt =====
-- src/l1_transport/channel.h and channel.cpp: the states of a channel, what it tells its observers,
-- and the size of the packet that a stream begins with.
pub mod States
use Prim.Native.String.{String}
use libremo.Prelude.{
  ℕ, ◌+◌, ◌*◌, Bool, true, false, ◌||◌, List, [], ◌∷◌, ◌++◌, leb, if◌then◌else◌, drop,
}
use libremo.Error.{Result, remo_assert}
use libremo.Packet.{Packet, get_size, get_data}

-- Channel::State
pub data State : Type 0 where
  opening : State
  opened : State
  closing : State
  closed : State
  closed_by_peer : State

unfoldable pub same_state : State → State → Bool
same_state opening opening = true
same_state opened opened = true
same_state closing closing = true
same_state closed closed = true
same_state closed_by_peer closed_by_peer = true
same_state _ _ = false

-- A call of a handler, or of the transport.
pub data Event : Type 0 where
  state_changed : State → Event
  received : Packet → Event
  transport_closed : Event

-- A channel, with the handlers that are registered and the calls that it made, in order. A handler
-- does not call back into the channel.
pub record Channel : Type 0 where
  pub state : State
  pub receive_handler : Bool
  pub state_handler : Bool
  pub events : List Event

-- Channel(a_transport, a_log_name)
abbrev pub new_channel : Channel
new_channel = record {
  state = opening;
  receive_handler = false;
  state_handler = false;
  events = [];
}

abbrev pub on_receive : Channel → Channel
on_receive c = record c { receive_handler = true }

abbrev pub on_state_changed : Channel → Channel
on_state_changed c = record c { state_handler = true }

abbrev pub tell : Bool → Event → Channel → Channel
tell observed e c = if observed then record c { events = c.events ++ (e ∷ []) } else c

unfoldable pub is_closed : Channel → Bool
unfolding same_state
is_closed c = same_state c.state closed || same_state c.state closed_by_peer

-- Channel::~Channel
unfoldable pub destroy_channel : Channel → Result (Unit {0})
unfolding is_closed
destroy_channel c = remo_assert (is_closed c)

unfoldable pub enter_state : State → Channel → Channel
unfolding same_state
enter_state new_state c =
    if same_state new_state c.state
    then c
    else tell c.state_handler (state_changed new_state) (record c { state = new_state })

-- Channel::closed
unfoldable pub handle_closed : Channel → Channel
unfolding enter_state
handle_closed c =
    tell true transport_closed
      (enter_state (if same_state c.state closing then closed else closed_by_peer) c)

-- The second half of Channel::receive
unfoldable pub notify_receive : Packet → Channel → Channel
notify_receive p c = tell c.receive_handler (received p) c

-- PACKET_INCOMPLETE
abbrev pub packet_incomplete : ℕ
packet_incomplete = 0

-- A uint32_t that begins here, lowest byte first.
unfoldable pub uint32_at : List ℕ → ℕ
uint32_at (a ∷ b ∷ c ∷ d ∷ rest) = a + b * 256 + c * 65536 + d * 16777216
uint32_at _ = 0

-- The size of the packet with its header, once it is there.
unfoldable pub complete_size : ℕ → ℕ → ℕ
complete_size payload_size size =
    let actual_packet_size = payload_size + 4 in
    if leb actual_packet_size size then actual_packet_size else packet_incomplete

unfoldable pub determine_packet_size : Packet → ℕ
unfolding complete_size uint32_at get_size get_data
determine_packet_size p =
    if leb 4 (get_size p)
    then complete_size (uint32_at (drop (get_data p) p.memory)) (get_size p)
    else packet_incomplete

unfoldable pub get_state_str : State → String
get_state_str closed = "closed"
get_state_str opening = "opening"
get_state_str opened = "open"
get_state_str closing = "closing"
get_state_str closed_by_peer = "closed_by_peer"
