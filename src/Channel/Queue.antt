-- ===== src/Channel/Queue.antt =====
-- channel/uni_channel.c: the packets that have arrived wait in an event list of utils/uni_event_list.c, whose
-- worker hands them on. An event, a pointer there, is the number of its packet. Memory is taken to be left.
use mathlib.Core.Option
use lib_uart_comm_protocol_l.Prelude.{true, Option, none, some, List, [], ◌∷◌, ◌++◌, length}
use lib_uart_comm_protocol_l.NetHelper.Messages.{Message}
use lib_uart_comm_protocol_l.EventList.{
  EventList, Level, event_list_create, event_list_add, priority_highest, consume_one,
}

-- The packets that have been copied so far, the oldest first, and `g_channel.event_handle`.
pub record Channel : Type 0 where
  pub packets : List Message
  pub event_handle : EventList

-- `ChnlInit`, `_event_list_create`
unfoldable pub chnl_init : Option Channel
unfolding event_list_create
chnl_init =
    Option.map (λ list. record { packets = []; event_handle = list })
      (event_list_create true true true)

-- `ChnlReceiveCommProtocolPacket`
unfoldable pub chnl_receive : Message → Channel → Channel
unfolding event_list_add
chnl_receive packet c = record {
  packets = c.packets ++ (packet ∷ []);
  event_handle = (event_list_add true (length c.packets) priority_highest c.event_handle).1;
}

-- One round of a loop of the worker; a loop that ends changes nothing.
unfoldable pub worker_round : Level → Channel → Channel
unfolding consume_one
worker_round level c =
    elim (consume_one level c.event_handle.handles c.event_handle.interrupts c.event_handle) [
      | none ↦ c
      | some list ↦ record c { event_handle = list }
    ]
