-- ===== src/Program.antt =====
-- main.c: the packets of the peer go through an event list of the program's own to the channel, and the lines of
-- the terminal become requests. What is logged and printed is not modelled. An event of the list, a pointer
-- there, is the number of its packet, and memory for packets is taken to be left. `none` is a fault.
pub mod Order
pub mod Passed
pub mod Reached
pub mod Commands
mod Tests
use mathlib.Core.Option
use lib_uart_comm_protocol_l.Prelude.{
  ◌&&◌, ℕ, ◌-◌, Bool, true, false, Option, none, some, List, [], ◌∷◌, ◌++◌, length, get_elem?, take,
  ◌==◌, if◌then◌else◌, leb, bind,
}
use lib_uart_comm_protocol_l.Prelude.Int.{ℤ, pos, negsuc}
use lib_uart_comm_protocol_l.NetHelper.Messages.{Message}
use lib_uart_comm_protocol_l.EventList.{
  EventListItem, EventList, Level, event_list_create, event_list_add, priority_medium, consume_one,
  queue_of,
}
use lib_uart_comm_protocol_l.Channel.Queue.{Channel, chnl_init, chnl_receive, worker_round}

-- The copies of the packets so far, the oldest first, `g_event_list`, and the channel behind it.
pub record Program : Type 0 where
  pub packets : List Message
  pub event_list : EventList
  pub channel : Channel

-- The event list and the channel of `main`, before the first packet
unfoldable pub start : Option Program
unfolding event_list_create
start = bind (event_list_create true true true) λ list.
    bind chnl_init λ channel. some (record { packets = []; event_list = list; channel = channel })

-- `_comm_recv_packet_handler`
unfoldable pub comm_recv_packet_handler : Message → Program → Program
unfolding event_list_add
comm_recv_packet_handler packet p = record p {
  packets = p.packets ++ (packet ∷ []);
  event_list = (event_list_add true (length p.packets) priority_medium p.event_list).1;
}

-- `__event_list_event_handler`
unfoldable pub event_handler : ℕ → Program → Option Program
unfolding chnl_receive
event_handler event p = elim (get_elem? p.packets event) [
  | none ↦ none
  | some packet ↦ some (record p { channel = chnl_receive packet p.channel })
]

-- The call of the event handler in a round that takes the first of these items from the list, while the list
-- runs
unfoldable pub handle_first : List EventListItem → Program → Option Program
unfolding event_handler
handle_first [] p = some p
handle_first (item ∷ rest) p =
    if p.event_list.handles && p.event_list.running then event_handler item.event p else some p

-- One round of a loop of the list's worker
unfoldable pub list_round : Level → Program → Option Program
unfolding consume_one handle_first queue_of
list_round level p =
    elim (consume_one level p.event_list.handles p.event_list.interrupts p.event_list) [
      | none ↦ some p
      | some list ↦
          Option.map {A = Program} (λ p'. record p' { event_list = list })
            (handle_first (queue_of level p.event_list).items p)
    ]

-- A packet arrives, or one of the two workers makes a round.
pub data Turn : Type 0 where
  arrive : Message → Turn
  list_work channel_work : Level → Turn

unfoldable pub turn : Turn → Program → Option Program
unfolding comm_recv_packet_handler list_round worker_round
turn (arrive packet) p = some (comm_recv_packet_handler packet p)
turn (list_work level) p = list_round level p
turn (channel_work level) p = some (record p { channel = worker_round level p.channel })

unfoldable pub turns : List Turn → Program → Option Program
unfolding turn
turns [] p = some p
turns (t ∷ rest) p = bind (turn t p) (turns rest)
