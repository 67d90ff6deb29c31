-- ===== src/EventList/Order/Take.antt =====
-- The part of a round of `_consume_one_list`, utils/uni_event_list.c, under the mutex, and what is left in each list.
use lib_uart_comm_protocol_l.Prelude.{
  ℕ, ◌-◌, ◌≡◌, ◌⊎◌, refl, sym, ap, arith, Bool, true, false, ◌&&◌, none, some, List, [], ◌∷◌, ◌++◌,
  length, ◌==◌, Bool-cases, inl, inr,
}
use lib_uart_comm_protocol_l.EventList.{
  EventListItem, Queue, EventList, Level, highest, medium, lowest, queue_of, with_queue,
  is_interrupted, take_one,
}
use lib_uart_comm_protocol_l.EventList.Order.{code, of_level, waiting, AllOf, IsOrdered}

pub list_cases :
    (xs : List EventListItem)
    → (xs ≡ []) ⊎ ((item : EventListItem) × (rest : List EventListItem) × (xs ≡ item ∷ rest))
list_cases [] = inl refl
list_cases (x ∷ xs) = inr (x, xs, refl)

-- A list without the item that was first in one of its queues
abbrev pub IsTaken : EventListItem → EventList → EventList → Type 0
IsTaken item s s' =
    IsOrdered s'
    × (s'.effects ≡ s.effects)
    × ((level : Level) → of_level level (item ∷ []) ++ waiting level s' ≡ waiting level s)

module _ (item : EventListItem) (rest : List EventListItem) (s : EventList) (o : IsOrdered s) where
  abbrev shorter : Queue → Queue
  shorter q = record { items = rest; count = q.count - 1 }

  count_rest :
      (q : Queue) → q.count ≡ length q.items → q.items ≡ item ∷ rest → q.count - 1 ≡ length rest
  count_rest q c e = omega (arith, c, ap (λ l. length l) e)

  first_of :
      (n : ℕ) (items : List EventListItem)
      → AllOf n items
      → items ≡ item ∷ rest
      → AllOf n (item ∷ rest)
  first_of n items h e = rw e at h

  takes_highest :
      s.highest.items ≡ item ∷ rest → IsTaken item s (with_queue highest (shorter s.highest) s)
  unfolding queue_of with_queue of_level code
  takes_highest e =
      let all = first_of 1 s.highest.items o.of_highest e in
      let t = record s { highest = shorter s.highest } in
      let is_highest : (item.priority == 1) ≡ true = ground (arith, all.0) in
      let is_medium : (item.priority == 2) ≡ false = ground (arith, all.0) in
      let is_lowest : (item.priority == 4) ≡ false = ground (arith, all.0) in
      (
        record {
          counted = record {
            highest_count = count_rest s.highest o.counted.highest_count e;
            medium_count = o.counted.medium_count;
            lowest_count = o.counted.lowest_count;
          };
          of_highest = all.1;
          of_medium = o.of_medium;
          of_lowest = o.of_lowest;
        },
        refl,
        λ level. elim level as (λ k. of_level k (item ∷ []) ++ waiting k t ≡ waiting k s) [
          | highest ↦ rw is_highest (sym e)
          | medium ↦ rw is_medium refl
          | lowest ↦ rw is_lowest refl
        ],
      )

  takes_medium :
      s.medium.items ≡ item ∷ rest → IsTaken item s (with_queue medium (shorter s.medium) s)
  unfolding queue_of with_queue of_level code
  takes_medium e =
      let all = first_of 2 s.medium.items o.of_medium e in
      let t = record s { medium = shorter s.medium } in
      let is_highest : (item.priority == 1) ≡ false = ground (arith, all.0) in
      let is_medium : (item.priority == 2) ≡ true = ground (arith, all.0) in
      let is_lowest : (item.priority == 4) ≡ false = ground (arith, all.0) in
      (
        record {
          counted = record {
            highest_count = o.counted.highest_count;
            medium_count = count_rest s.medium o.counted.medium_count e;
            lowest_count = o.counted.lowest_count;
          };
          of_highest = o.of_highest;
          of_medium = all.1;
          of_lowest = o.of_lowest;
        },
        refl,
        λ level. elim level as (λ k. of_level k (item ∷ []) ++ waiting k t ≡ waiting k s) [
          | highest ↦ rw is_highest refl
          | medium ↦ rw is_medium (sym e)
          | lowest ↦ rw is_lowest refl
        ],
      )

  takes_lowest :
      s.lowest.items ≡ item ∷ rest → IsTaken item s (with_queue lowest (shorter s.lowest) s)
  unfolding queue_of with_queue of_level code
  takes_lowest e =
      let all = first_of 4 s.lowest.items o.of_lowest e in
      let t = record s { lowest = shorter s.lowest } in
      let is_highest : (item.priority == 1) ≡ false = ground (arith, all.0) in
      let is_medium : (item.priority == 2) ≡ false = ground (arith, all.0) in
      let is_lowest : (item.priority == 4) ≡ true = ground (arith, all.0) in
      (
        record {
          counted = record {
            highest_count = o.counted.highest_count;
            medium_count = o.counted.medium_count;
            lowest_count = count_rest s.lowest o.counted.lowest_count e;
          };
          of_highest = o.of_highest;
          of_medium = o.of_medium;
          of_lowest = all.1;
        },
        refl,
        λ level. elim level as (λ k. of_level k (item ∷ []) ++ waiting k t ≡ waiting k s) [
          | highest ↦ rw is_highest refl
          | medium ↦ rw is_medium refl
          | lowest ↦ rw is_lowest (sym e)
        ],
      )

  takes :
      (level : Level)
      → (queue_of level s).items ≡ item ∷ rest
      → IsTaken item s (with_queue level (shorter (queue_of level s)) s)
  unfolding queue_of
  takes highest e = takes_highest e
  takes medium e = takes_medium e
  takes lowest e = takes_lowest e

module _ (level : Level) (interrupts : Bool) (s : EventList) where
  pub ends_interrupted :
      (interrupts && is_interrupted level s) ≡ true → take_one level interrupts s ≡ none
  unfolding take_one
  ends_interrupted h = rw h

  -- A round of any loop takes nothing, or the first item of its list.
  pub take_one-cases :
      IsOrdered s
      → (take_one level interrupts s ≡ none)
        ⊎ ((item : EventListItem) × (s' : EventList) × (take_one level interrupts s
              ≡ some (item, s'))
            × IsTaken item s s')
  unfolding take_one
  take_one-cases o = elim (Bool-cases (interrupts && is_interrupted level s)) [
    | inl h ↦ inl (ends_interrupted h)
    | inr h ↦ elim (list_cases (waiting level s)) [
      | inl e ↦ inl (rw (h, e))
      | inr (item, rest, e) ↦ inr (item, _, rw (h, e), takes item rest s o level e)
    ]
  ]
