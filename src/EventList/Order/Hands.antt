-- ===== src/EventList/Order/Hands.antt =====
-- A turn of a thread at a list of utils/uni_event_list.c: what it does to the items that wait, that threads
-- have in their hands, and that were freed.
use lib_uart_comm_protocol_l.Prelude.{
  ◌≡◌, refl, sym, ap, ◌∙◌, Bool, false, ◌&&◌, none, some, Option, List, [], ◌∷◌, ◌++◌, append_assoc,
  append-nil, Bool-cases, inl, inr, zero, suc, ℕ,
}
use mathlib.Core.Option
use mathlib.Core.List.Perm
use mathlib.Core.List.{Perm}
use mathlib.Core.Path.{subst}
use lib_uart_comm_protocol_l.EventList.{
  EventListItem, Effect, event_handler, free_handler, free_item, EventList, Level, highest, medium,
  lowest, queue_of, take_one, dispose, event_list_destroy,
}
use lib_uart_comm_protocol_l.EventList.Order.{
  Step, add, consume, clear, finish, destroy, reset, Threads, take_up, pick, put_down, step,
  waiting, of_level, of_level-append, added, freed, in_hand, IsOrdered,
}
use lib_uart_comm_protocol_l.EventList.Order.Take.{IsTaken, take_one-cases}
use lib_uart_comm_protocol_l.EventList.Order.Add.{Grows-add}

-- The items of a priority that were taken, and then those that wait.
abbrev pub history : Level → Threads → List EventListItem
history level s = of_level level s.taken ++ waiting level s.list

-- The items that were freed, and those in the threads' hands
abbrev pub let_go : Threads → List EventListItem
let_go s = freed s.list.effects ++ in_hand s.held

abbrev pub Follows : Step → Threads → Threads → Type 0
Follows t s s' =
    IsOrdered s'.list
    × (Perm (let_go s) s.taken → Perm (let_go s') s'.taken)
    × ((level : Level) → history level s' ≡ history level s ++ added level (t ∷ []))

freed-append : (xs ys : List Effect) → freed (xs ++ ys) ≡ freed xs ++ freed ys
unfolding freed
freed-append [] ys = refl
freed-append (event_handler e ∷ xs) ys = freed-append xs ys
freed-append (free_handler e ∷ xs) ys = freed-append xs ys
freed-append (free_item item ∷ xs) ys = ap (λ l. item ∷ l) (freed-append xs ys)

in_hand-append :
    (xs ys : List (Bool × EventListItem)) → in_hand (xs ++ ys) ≡ in_hand xs ++ in_hand ys
unfolding in_hand
in_hand-append [] ys = refl
in_hand-append ((handles, item) ∷ xs) ys = ap (λ l. item ∷ l) (in_hand-append xs ys)

-- Disposing of an item frees it, once.
freed-dispose :
    (handles : Bool) (item : EventListItem) (s : EventList)
    → freed (dispose handles item s).effects ≡ freed s.effects ++ (item ∷ [])
unfolding dispose freed
freed-dispose handles item s = elim (Bool-cases (handles && s.running)) [
  | inl h ↦ elim (Bool-cases s.frees) [
    | inl f ↦ rw (h, f) (freed-append s.effects _)
    | inr f ↦ rw (h, f) (freed-append s.effects _)
  ]
  | inr h ↦ elim (Bool-cases s.frees) [
    | inl f ↦ rw (h, f) (freed-append s.effects _)
    | inr f ↦ rw (h, f) (freed-append s.effects _)
  ]
]

-- What `pick` gives are the item and the others.
Picked :
    Option ((Bool × EventListItem) × List (Bool × EventListItem))
    → List (Bool × EventListItem)
    → Type 0
Picked none held = Unit
Picked (some ((handles, item), rest)) held = Perm (in_hand held) (item ∷ in_hand rest)

pick_behind :
    (first : Bool × EventListItem) (held : List (Bool × EventListItem))
    (picked : Option ((Bool × EventListItem) × List (Bool × EventListItem)))
    → Picked picked held
    → Picked (Option.map (λ (y, others). (y, first ∷ others)) picked) (first ∷ held)
unfolding Picked in_hand
pick_behind first held none p = tt
pick_behind first held (some ((handles, item), rest)) p =
    Perm.trans (Perm.cons first.1 p) (Perm.swap item first.1 (in_hand rest))

pick-Picked : (n : ℕ) (held : List (Bool × EventListItem)) → Picked (pick n held) held
unfolding pick Picked in_hand
pick-Picked n [] = tt
pick-Picked zero ((handles, item) ∷ rest) = Perm.rfl
pick-Picked (suc n) ((handles, item) ∷ rest) =
    pick_behind (handles, item) rest (pick n rest) (pick-Picked n rest)

module _ (s : Threads) (o : IsOrdered s.list) where
  stays : (t : Step) → ((level : Level) → added level (t ∷ []) ≡ []) → Follows t s s
  stays t none_added = (
    o,
    λ p. p,
    λ level.
        sym (append-nil (history level s))
        ∙ ap (λ l. history level s ++ l) (sym (none_added level)),
  )

  -- A thread takes an item: it waits no longer, and it is in the thread's hand.
  takes :
      (t : Step) (handles : Bool) (item : EventListItem) (list : EventList)
      → ((level : Level) → added level (t ∷ []) ≡ [])
      → IsTaken item s.list list
      → Follows t s (take_up handles (some (item, list)) s)
  unfolding take_up in_hand
  takes t handles item list none_added (ordered, same, shorter) =
      let past = freed s.list.effects in
      let gone : freed list.effects ++ in_hand (s.held ++ ((handles, item) ∷ []))
          ≡ let_go s ++ (item ∷ []) =
        ap (λ es. freed es ++ in_hand (s.held ++ ((handles, item) ∷ []))) same
        ∙ ap (λ l. past ++ l) (in_hand-append s.held ((handles, item) ∷ []))
        ∙ sym (append_assoc past (in_hand s.held) (item ∷ [])) in
      (
        ordered,
        λ p.
            subst (λ l. Perm l (s.taken ++ (item ∷ []))) (sym gone)
              (Perm.append_right (item ∷ []) p),
        λ level.
            ap (λ l. l ++ waiting level list) (of_level-append level s.taken (item ∷ []))
            ∙ append_assoc (of_level level s.taken) (of_level level (item ∷ []))
                (waiting level list)
            ∙ ap (λ l. of_level level s.taken ++ l) (shorter level)
            ∙ sym (append-nil (history level s))
            ∙ ap (λ l. history level s ++ l) (sym (none_added level)),
      )

  takes_up :
      (t : Step) (handles : Bool) (level : Level) (interrupts : Bool)
      → ((level : Level) → added level (t ∷ []) ≡ [])
      → Follows t s (take_up handles (take_one level interrupts s.list) s)
  unfolding take_up
  takes_up t handles level interrupts none_added = elim (take_one-cases level interrupts s.list o) [
    | inl e ↦ rw (e, take_up) (stays t none_added)
    | inr (item, list, e, took) ↦ rw (e, take_up) (takes t handles item list none_added took)
  ]

  -- A thread frees an item that it has.
  finishes_with :
      (n : ℕ) (picked : Option ((Bool × EventListItem) × List (Bool × EventListItem)))
      → Picked picked s.held
      → Follows (finish n) s (put_down picked s)
  unfolding put_down dispose Picked added queue_of
  finishes_with n none q = stays (finish n) (λ l. refl)
  finishes_with n (some ((handles, item), rest)) q =
      let past = freed s.list.effects in
      let gone : freed (dispose handles item s.list).effects ++ in_hand rest
          ≡ past ++ (item ∷ in_hand rest) =
        ap (λ l. l ++ in_hand rest) (freed-dispose handles item s.list)
        ∙ append_assoc past (item ∷ []) (in_hand rest) in
      let s' = record s { list = dispose handles item s.list; held = rest } in
      (
        record {
          counted = record {
            highest_count = o.counted.highest_count;
            medium_count = o.counted.medium_count;
            lowest_count = o.counted.lowest_count;
          };
          of_highest = o.of_highest;
          of_medium = o.of_medium;
          of_lowest = o.of_lowest;
        },
        λ p.
            subst (λ l. Perm l s.taken) (sym gone)
              (Perm.trans (Perm.append_left past (Perm.symm q)) p),
        λ level. elim level as (λ k. history k s' ≡ history k s ++ []) [
          | highest ↦ sym (append-nil (history highest s))
          | medium ↦ sym (append-nil (history medium s))
          | lowest ↦ sym (append-nil (history lowest s))
        ],
      )

  finishes : (n : ℕ) → Follows (finish n) s (put_down (pick n s.held) s)
  finishes n = finishes_with n (pick n s.held) (pick-Picked n s.held)

  pub Follows-step : (t : Step) → Follows t s (step t s)
  unfolding step added event_list_destroy queue_of
  Follows-step (add allocated event priority) =
      let (ordered, same, longer) = Grows-add event s.list o allocated priority in
      (
        ordered,
        λ p. subst (λ es. Perm (freed es ++ in_hand s.held) s.taken) (sym same) p,
        λ level.
            ap (λ l. of_level level s.taken ++ l) (longer level)
            ∙ sym (
                append_assoc (of_level level s.taken) (waiting level s.list)
                  (added level (add allocated event priority ∷ []))),
      )
  Follows-step (consume level) =
      takes_up (consume level) s.list.handles level s.list.interrupts (λ l. refl)
  Follows-step (clear level) = takes_up (clear level) false level false (λ l. refl)
  Follows-step (finish n) = finishes n
  Follows-step destroy = (
    record {
      counted = record {
        highest_count = o.counted.highest_count;
        medium_count = o.counted.medium_count;
        lowest_count = o.counted.lowest_count;
      };
      of_highest = o.of_highest;
      of_medium = o.of_medium;
      of_lowest = o.of_lowest;
    },
    λ p. p,
    λ level. elim level as (λ k. history k (step destroy s) ≡ history k s ++ []) [
      | highest ↦ sym (append-nil (history highest s))
      | medium ↦ sym (append-nil (history medium s))
      | lowest ↦ sym (append-nil (history lowest s))
    ],
  )
  Follows-step reset = (
    record {
      counted = record {
        highest_count = o.counted.highest_count;
        medium_count = o.counted.medium_count;
        lowest_count = o.counted.lowest_count;
      };
      of_highest = o.of_highest;
      of_medium = o.of_medium;
      of_lowest = o.of_lowest;
    },
    λ p. p,
    λ level. elim level as (λ k. history k (step reset s) ≡ history k s ++ []) [
      | highest ↦ sym (append-nil (history highest s))
      | medium ↦ sym (append-nil (history medium s))
      | lowest ↦ sym (append-nil (history lowest s))
    ],
  )
