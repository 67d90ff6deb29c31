-- ===== src/EventList.antt =====
-- utils/uni_event_list.c: three queues of events, by priority, that a worker thread consumes.
-- A round of a consuming loop has two parts: under the mutex it takes an item, and without it the item
-- is handled and freed. `consume_one` is a round whose parts no other thread comes between. An event's
-- two handlers are calls out, in order.
pub mod Drain
pub mod Order
mod Tests
use lib_uart_comm_protocol_l.Prelude.{
  ℕ, zero, suc, ◌+◌, ◌-◌, Bool, true, false, not, ◌&&◌, ◌||◌, Option, none, some, List, [], ◌∷◌,
  ◌++◌, ltb, ◌==◌, if◌then◌else◌, length,
}
use lib_uart_comm_protocol_l.Prelude.Int.{ℤ, pos, negsuc}

-- `EventListItem`, less its link: the list is a sequence of items.
pub record EventListItem : Type 0 where
  pub priority : ℕ
  pub event : ℕ

-- A call of the event handler or of the free handler, and the release of an item.
pub data Effect : Type 0 where
  event_handler free_handler : ℕ → Effect
  free_item : EventListItem → Effect

-- A list with its counter.
pub record Queue : Type 0 where
  pub items : List EventListItem
  pub count : ℕ

-- `EventList`: whether each handler is registered, and `effects`, the calls out so far.
pub record EventList : Type 0 where
  pub highest : Queue
  pub medium : Queue
  pub lowest : Queue
  pub handles : Bool
  pub frees : Bool
  pub interrupts : Bool
  pub running : Bool
  pub effects : List Effect

-- `EVENT_LIST_PRIORITY_HIGHEST` and so on
abbrev pub priority_highest : ℕ
priority_highest = 1

abbrev pub priority_medium : ℕ
priority_medium = 2

abbrev pub priority_lowest : ℕ
priority_lowest = 4

-- Which of the three lists a consuming loop works on.
pub data Level : Type 0 where
  highest medium lowest : Level

unfoldable pub queue_of : Level → EventList → Queue
queue_of highest s = s.highest
queue_of medium s = s.medium
queue_of lowest s = s.lowest

unfoldable pub with_queue : Level → Queue → EventList → EventList
with_queue highest q s = record s { highest = q }
with_queue medium q s = record s { medium = q }
with_queue lowest q s = record s { lowest = q }

-- `_highest_interruptable_handler`, `_medium_interruptable_handler`, `_lowest_interruptable_handler`
unfoldable pub is_interrupted : Level → EventList → Bool
is_interrupted highest s = false
is_interrupted medium s = ltb 0 s.highest.count
is_interrupted lowest s = ltb 0 s.highest.count || ltb 0 s.medium.count

-- The part of a round under the mutex: the item taken and the list without it; `none` when the loop ends.
unfoldable pub take_one : Level → Bool → EventList → Option (EventListItem × EventList)
unfolding queue_of with_queue is_interrupted
take_one level interrupts s =
    if interrupts && is_interrupted level s then none else elim (queue_of level s).items [
      | [] ↦ none
      | item ∷ rest ↦
          some (
            item,
            with_queue level (record { items = rest; count = (queue_of level s).count - 1 }) s,
          )
    ]

-- What is done, without the mutex, with an item that was taken: handled while the list runs, and freed.
unfoldable pub dispose : Bool → EventListItem → EventList → EventList
dispose handles item s =
    let handled = if handles && s.running then event_handler item.event ∷ [] else [] in
    let freed = if s.frees then free_handler item.event ∷ [] else [] in
    record s { effects = s.effects ++ (handled ++ (freed ++ (free_item item ∷ []))) }

-- One round of `_consume_one_list`; `none` when the loop ends.
unfoldable pub consume_one : Level → Bool → Bool → EventList → Option EventList
unfolding take_one dispose
consume_one level handles interrupts s = elim (take_one level interrupts s) [
  | none ↦ none
  | some (item, s') ↦ some (dispose handles item s')
]

-- `_consume_one_list`, with fuel for the rounds.
pub consume_one_list : ℕ → Level → Bool → Bool → EventList → EventList
unfolding consume_one
consume_one_list zero level handles interrupts s = s
consume_one_list (suc n) level handles interrupts s =
    elim (consume_one level handles interrupts s) [
      | none ↦ s
      | some s' ↦ consume_one_list n level handles interrupts s'
    ]

-- The rounds that a list takes: one for each item, with no other thread adding.
pub rounds : Level → EventList → ℕ
unfolding queue_of
rounds level s = length (queue_of level s).items

-- `_consume_event_list` undisturbed, and the three loops of `EventListClear`.
pub consume_all : Bool → Bool → EventList → EventList
unfolding consume_one_list rounds
consume_all handles interrupts s =
    let a = consume_one_list (rounds highest s) highest handles interrupts s in
    let b = consume_one_list (rounds medium a) medium handles interrupts a in
    consume_one_list (rounds lowest b) lowest handles interrupts b

pub consume_event_list : EventList → EventList
unfolding consume_all
consume_event_list s = consume_all s.handles s.interrupts s

pub event_list_clear : EventList → EventList
unfolding consume_all
event_list_clear s = consume_all false false s

-- `_reset_event_handler`, `_reset_interrupt_handler` and `_free_all`, up to the release of the list
pub free_all : EventList → EventList
unfolding consume_event_list
free_all s = consume_event_list (record s { handles = false; interrupts = false })

-- `_all_list_empty`
pub all_list_empty : EventList → Bool
all_list_empty s = s.highest.count == 0 && (s.medium.count == 0 && s.lowest.count == 0)

-- `EventListCreate`: `none` if no memory is left.
unfoldable pub event_list_create : Bool → Bool → Bool → Option EventList
event_list_create allocated handles frees =
    let empty : Queue = record { items = []; count = 0 } in
    if allocated
    then some (record {
      highest = empty;
      medium = empty;
      lowest = empty;
      handles = handles;
      frees = frees;
      interrupts = true;
      running = true;
      effects = [];
    })
    else none

-- `EventListDestroy`
pub event_list_destroy : EventList → EventList
event_list_destroy s = record s { running = false }

unfoldable pub add_tail : EventListItem → Queue → Queue
add_tail item q = record { items = q.items ++ (item ∷ []); count = q.count + 1 }

-- `EventListAdd`. An unknown priority is answered with 0 as well, and its item is in no list.
unfoldable pub event_list_add : Bool → ℕ → ℕ → EventList → ℤ × EventList
unfolding add_tail
event_list_add allocated event priority s =
    let item : EventListItem = record { priority = priority; event = event } in
    if not allocated
    then (negsuc 0, s)
    else if priority == priority_highest
    then (pos 0, record s { highest = add_tail item s.highest })
    else if priority == priority_medium
    then (pos 0, record s { medium = add_tail item s.medium })
    else if priority == priority_lowest
    then (pos 0, record s { lowest = add_tail item s.lowest })
    else (pos 0, s)
