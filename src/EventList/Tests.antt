-- ===== src/EventList/Tests.antt =====
-- Runs of utils/uni_event_list.c.
use mathlib.Core.List.{Perm}
use lib_uart_comm_protocol_l.Prelude.{◌≡◌, ◌⊎◌, refl, true, false, some, List, [], ◌∷◌}
use lib_uart_comm_protocol_l.EventList.{
  EventListItem, EventList, Level, highest, medium, lowest, event_handler, free_handler, free_item,
  take_one, consume_one, consume_all, free_all, event_list_create, queue_of, with_queue,
  is_interrupted, dispose,
}
use lib_uart_comm_protocol_l.EventList.Drain.{IsCounted, empty, consume_all_lem, free_all_lem}
use lib_uart_comm_protocol_l.EventList.Order.{
  Step, add, consume, clear, finish, at_start, run, added, IsOrdered,
}
use lib_uart_comm_protocol_l.EventList.Order.Hands.{history, let_go}
use lib_uart_comm_protocol_l.EventList.Order.Fifo.{history-run, consume_one-priority}

abbrev first : EventListItem
first = record { priority = 4; event = 10 }

abbrev urgent : EventListItem
urgent = record { priority = 1; event = 20 }

-- A lowest event waits, and a highest one.
abbrev two_events : EventList
two_events = record {
  highest = record { items = urgent ∷ []; count = 1 };
  medium = empty;
  lowest = record { items = first ∷ []; count = 1 };
  handles = true;
  frees = true;
  interrupts = true;
  running = true;
  effects = [];
}

abbrev two_counted : IsCounted two_events
two_counted = record { highest_count = refl; medium_count = refl; lowest_count = refl }

abbrev one_event : EventList
one_event = record two_events { highest = empty }

abbrev one_ordered : IsOrdered one_event
one_ordered = record {
  counted = record { highest_count = refl; medium_count = refl; lowest_count = refl };
  of_highest = tt;
  of_medium = tt;
  of_lowest = (refl, tt);
}

consume_all_lem_example : consume_all true true two_events ≡ record one_event {
  lowest = empty;
  effects =
      event_handler 20
      ∷ free_handler 20
      ∷ free_item urgent
      ∷ event_handler 10
      ∷ free_handler 10
      ∷ free_item first
      ∷ [];
}
consume_all_lem_example = consume_all_lem true true two_events two_counted

free_all_lem_example : free_all two_events ≡ record one_event {
  handles = false;
  interrupts = false;
  lowest = empty;
  effects = free_handler 20 ∷ free_item urgent ∷ free_handler 10 ∷ free_item first ∷ [];
}
free_all_lem_example = free_all_lem two_events two_counted

-- The worker takes the first item, the clearing thread takes the second one and frees it first.
abbrev overtaken : List Step
overtaken = add true 10 4 ∷ add true 11 4 ∷ consume lowest ∷ clear lowest ∷ finish 1 ∷ []

history-run_example :
    (list : EventList) × (event_list_create true true true ≡ some list)
    × ((level : Level) → history level (run overtaken (at_start list)) ≡ added level overtaken)
    × Perm (let_go (run overtaken (at_start list))) (run overtaken (at_start list)).taken
history-run_example = history-run true true overtaken

taken :
    consume_one lowest true true (run [] (at_start one_event)).list
    ≡ some (dispose true first (with_queue lowest empty one_event))
unfolding consume_one take_one run queue_of is_interrupted with_queue
taken = refl

consume_one-priority_example :
    (lowest ≡ highest)
    ⊎ (((run [] (at_start one_event)).list.highest.items ≡ [])
        × ((lowest ≡ medium) ⊎ ((run [] (at_start one_event)).list.medium.items ≡ [])))
consume_one-priority_example =
    consume_one-priority [] (at_start one_event)
      (dispose true first (with_queue lowest empty one_event)) true lowest one_ordered taken
