-- ===== src/EventList/Order/Fifo.antt =====
-- First in, first out: utils/uni_event_list.c under any interleaving of its threads.
use lib_uart_comm_protocol_l.Prelude.{
  ◌≡◌, ◌⊎◌, refl, sym, ap, ◌∙◌, arith, Bool, true, false, ◌&&◌, none, some, List, [], ◌∷◌, ◌++◌,
  append_assoc, append-nil, length, ltb, ◌==◌, Bool-cases, inl, inr,
}
use mathlib.Core.List.Perm
use mathlib.Core.List.{Perm}
use lib_uart_comm_protocol_l.EventList.{
  Queue, EventList, Level, highest, medium, lowest, queue_of, is_interrupted, consume_one,
  event_list_create,
}
use lib_uart_comm_protocol_l.EventList.Drain.{IsCounted, empty}
use lib_uart_comm_protocol_l.EventList.Order.{
  Step, add, consume, clear, finish, destroy, reset, Threads, at_start, step, run, code, of_level,
  added, freed, in_hand, IsOrdered,
}
use lib_uart_comm_protocol_l.EventList.Order.Take.{list_cases, ends_interrupted}
use lib_uart_comm_protocol_l.EventList.Order.Hands.{history, let_go, Follows-step}

added-step :
    (level : Level) (t : Step) (rest : List Step)
    → added level (t ∷ rest) ≡ added level (t ∷ []) ++ added level rest
unfolding added
added-step level (add allocated event priority) rest =
    elim (Bool-cases (allocated && priority == code level)) [ inl e ↦ rw e | inr e ↦ rw e ]
added-step level (consume l) rest = refl
added-step level (clear l) rest = refl
added-step level (finish n) rest = refl
added-step level destroy rest = refl
added-step level reset rest = refl

run_lem :
    (steps : List Step) (s : Threads)
    → IsOrdered s.list
    → IsOrdered (run steps s).list
      × (Perm (let_go s) s.taken → Perm (let_go (run steps s)) (run steps s).taken)
      × ((level : Level) → history level (run steps s) ≡ history level s ++ added level steps)
unfolding run added
run_lem [] s o = (o, λ p. p, λ level. sym (append-nil (history level s)))
run_lem (t ∷ rest) s o =
    let (o', p, h) = Follows-step s o t in
    let (o'', q, g) = run_lem rest (step t s) o' in
    (
      o'',
      λ start. q (p start),
      λ level.
          g level
          ∙ ap (λ l. l ++ added level rest) (h level)
          ∙ append_assoc (history level s) (added level (t ∷ [])) (added level rest)
          ∙ ap (λ l. history level s ++ l) (sym (added-step level t rest)),
    )

-- What `event_list_create` gives.
abbrev fresh : Bool → Bool → EventList
fresh handles frees = record {
  highest = empty;
  medium = empty;
  lowest = empty;
  handles = handles;
  frees = frees;
  interrupts = true;
  running = true;
  effects = [];
}

fresh-IsOrdered : (handles frees : Bool) → IsOrdered (fresh handles frees)
fresh-IsOrdered handles frees = record {
  counted = record { highest_count = refl; medium_count = refl; lowest_count = refl };
  of_highest = tt;
  of_medium = tt;
  of_lowest = tt;
}

-- From a created list, whatever the threads do and in any order, a thread handling and freeing an
-- item at any time after it has taken it: the items of each priority taken so far and then those
-- still in the list are exactly the items added, in order, first in, first out; and the items
-- freed together with those in the threads' hands are the items taken, in some order, none lost,
-- none twice.
pub history-run :
    (handles frees : Bool) (steps : List Step)
    → (list : EventList) × (event_list_create true handles frees ≡ some list)
      × ((level : Level) → history level (run steps (at_start list)) ≡ added level steps)
      × Perm (let_go (run steps (at_start list))) (run steps (at_start list)).taken
unfolding event_list_create of_level freed in_hand queue_of
history-run handles frees steps =
    let (o, p, h) =
      run_lem steps (at_start (fresh handles frees)) (fresh-IsOrdered handles frees) in
    (
      fresh handles frees,
      refl,
      λ level.
          elim level
            as (λ k. history k (run steps (at_start (fresh handles frees))) ≡ added k steps) [
              | highest ↦ h highest
              | medium ↦ h medium
              | lowest ↦ h lowest
            ],
      p Perm.rfl,
    )

no_items : (q : Queue) → q.count ≡ length q.items → ltb 0 q.count ≡ false → q.items ≡ []
no_items q c h = elim (list_cases q.items) [
  | inl e ↦ e
  | inr (item, rest, e) ↦ absurd (ground (arith, c, ap (λ l. length l) e))
]

interrupted :
    (level : Level) (handles : Bool) (s : EventList)
    → is_interrupted level s ≡ true
    → consume_one level handles true s ≡ none
unfolding consume_one
interrupted level handles s h = rw (ends_interrupted level true s h, consume_one) refl

-- What no interrupt says.
quiet :
    (level : Level) (t : EventList)
    → IsCounted t
    → is_interrupted level t ≡ false
    → (level ≡ highest) ⊎ ((t.highest.items ≡ []) × ((level ≡ medium) ⊎ (t.medium.items ≡ [])))
unfolding is_interrupted
quiet highest t c h = inl refl
quiet medium t c h = inr (no_items t.highest c.highest_count h, inl refl)
quiet lowest t c h =
    let none_highest : ltb 0 t.highest.count ≡ false = ground arith in
    let none_medium : ltb 0 t.medium.count ≡ false = ground arith in
    inr (
      no_items t.highest c.highest_count none_highest,
      inr (no_items t.medium c.medium_count none_medium),
    )

-- After any turns of the threads from a list in order, a round of the worker that takes an item
-- from the medium list finds the highest list empty, and one from the lowest list finds both
-- others empty.
pub consume_one-priority :
    (steps : List Step) (s : Threads) (s' : EventList) (handles : Bool) (level : Level)
    → IsOrdered s.list
    → consume_one level handles true (run steps s).list ≡ some s'
    → (level ≡ highest)
      ⊎ (((run steps s).list.highest.items ≡ [])
          × ((level ≡ medium) ⊎ ((run steps s).list.medium.items ≡ [])))
consume_one-priority steps s s' handles level o e =
    elim (Bool-cases (is_interrupted level (run steps s).list)) [
      | inl h ↦ absurd (ground (arith, interrupted level handles (run steps s).list h, e))
      | inr h ↦ quiet level (run steps s).list (run_lem steps s o).0.counted h
    ]
