-- ===== src/EventList/Order.antt =====
-- The turns that threads take at a list of utils/uni_event_list.c, in any order: adders, the worker and clearing
-- threads, one `EventListAdd` or one of the two parts of a round at a time.
pub mod Take
pub mod Add
pub mod Hands
pub mod Fifo
use lib_uart_comm_protocol_l.Prelude.{
  ℕ, suc, ◌+◌, ◌-◌, ◌≡◌, refl, sym, ap, ◌∙◌, arith, Bool, true, false, not, ◌&&◌, ◌||◌, Option,
  zero, none, some, List, [], ◌∷◌, ◌++◌, append_assoc, append-nil, if◌then◌else◌, length,
  length-append, ltb, ◌==◌, Bool-cases, inl, inr, Option-cases,
}
use lib_uart_comm_protocol_l.EventList.{
  EventListItem, Effect, event_handler, free_handler, free_item, Queue, EventList, Level, highest,
  medium, lowest, queue_of, with_queue, is_interrupted, dispose, take_one, event_list_add,
  event_list_destroy, event_list_create, add_tail,
}
use mathlib.Core.Option
use lib_uart_comm_protocol_l.EventList.Drain.{IsCounted}

-- A turn of a thread: `add` with what its allocation gives; `consume` by the worker and `clear` by `EventListClear`
-- take an item under the mutex; `finish n` handles and frees the item number `n` of those in the threads'
-- hands; `destroy`; `reset`, by which `_free_all` of the worker begins its last rounds.
pub data Step : Type 0 where
  add : Bool → ℕ → ℕ → Step
  consume clear : Level → Step
  finish : ℕ → Step
  destroy reset : Step

-- The list and the items that threads have taken and not finished, each with whether its thread calls the event
-- handler. `taken` notes all that were taken, in order.
pub record Threads : Type 0 where
  pub list : EventList
  pub held : List (Bool × EventListItem)
  pub taken : List EventListItem

-- No thread has an item.
abbrev pub at_start : EventList → Threads
at_start list = record { list = list; held = []; taken = [] }

-- A loop that ends changes nothing.
unfoldable pub take_up : Bool → Option (EventListItem × EventList) → Threads → Threads
take_up handles none s = s
take_up handles (some (item, list)) s = record {
  list = list;
  held = s.held ++ ((handles, item) ∷ []);
  taken = s.taken ++ (item ∷ []);
}

-- An element, and the others
unfoldable pub pick : {A : Type 0} → ℕ → List A → Option (A × List A)
pick n [] = none
pick zero (x ∷ rest) = some (x, rest)
pick (suc n) (x ∷ rest) = Option.map (λ (y, others). (y, x ∷ others)) (pick n rest)

unfoldable pub put_down :
    Option ((Bool × EventListItem) × List (Bool × EventListItem)) → Threads → Threads
put_down none s = s
put_down (some ((handles, item), rest)) s = record s {
  list = dispose handles item s.list;
  held = rest;
}

unfoldable pub step : Step → Threads → Threads
unfolding take_up pick put_down
step (add allocated event priority) s = record s {
  list = (event_list_add allocated event priority s.list).1;
}
step (consume level) s = take_up s.list.handles (take_one level s.list.interrupts s.list) s
step (clear level) s = take_up false (take_one level false s.list) s
step (finish n) s = put_down (pick n s.held) s
step destroy s = record s { list = event_list_destroy s.list }
step reset s = record s { list = record s.list { handles = false; interrupts = false } }

unfoldable pub run : List Step → Threads → Threads
unfolding step
run [] s = s
run (t ∷ rest) s = run rest (step t s)

-- The priority that a list is for.
unfoldable pub code : Level → ℕ
code highest = 1
code medium = 2
code lowest = 4

-- The items that wait in a list, and those of a list's priority among others
abbrev pub waiting : Level → EventList → List EventListItem
waiting level s = (queue_of level s).items

unfoldable pub of_level : Level → List EventListItem → List EventListItem
unfolding code
of_level level [] = []
of_level level (item ∷ rest) =
    if item.priority == code level then item ∷ of_level level rest else of_level level rest

-- The items of a priority that are added, in order.
unfoldable pub added : Level → List Step → List EventListItem
unfolding code
added level [] = []
added level (add allocated event priority ∷ rest) =
    if allocated && priority == code level
    then record { priority = priority; event = event } ∷ added level rest
    else added level rest
added level (consume l ∷ rest) = added level rest
added level (clear l ∷ rest) = added level rest
added level (finish n ∷ rest) = added level rest
added level (destroy ∷ rest) = added level rest
added level (reset ∷ rest) = added level rest

-- The items that were freed, in order, and those in the threads' hands
unfoldable pub freed : List Effect → List EventListItem
freed [] = []
freed (free_item item ∷ rest) = item ∷ freed rest
freed (event_handler e ∷ rest) = freed rest
freed (free_handler e ∷ rest) = freed rest

unfoldable pub in_hand : List (Bool × EventListItem) → List EventListItem
in_hand [] = []
in_hand ((handles, item) ∷ rest) = item ∷ in_hand rest

-- Every item in a list has the list's priority.
abbrev pub AllOf : ℕ → List EventListItem → Type 0
AllOf n [] = Unit
AllOf n (item ∷ rest) = (item.priority ≡ n) × AllOf n rest

pub record IsOrdered (s : EventList) : Type 0 where
  pub counted : IsCounted s
  pub of_highest : AllOf 1 s.highest.items
  pub of_medium : AllOf 2 s.medium.items
  pub of_lowest : AllOf 4 s.lowest.items

pub of_level-append :
    (level : Level) (xs ys : List EventListItem)
    → of_level level (xs ++ ys) ≡ of_level level xs ++ of_level level ys
unfolding of_level
of_level-append level [] ys = refl
of_level-append level (item ∷ xs) ys = elim (Bool-cases (item.priority == code level)) [
  | inl e ↦ rw (e, of_level-append level xs ys)
  | inr e ↦ rw (e, of_level-append level xs ys)
]

pub AllOf-add_tail :
    (n event : ℕ) (xs : List EventListItem)
    → AllOf n xs
    → AllOf n (xs ++ (record { priority = n; event = event } ∷ []))
AllOf-add_tail n event [] h = (refl, tt)
AllOf-add_tail n event (x ∷ xs) h = (h.0, AllOf-add_tail n event xs h.1)
