-- ===== src/EventList/Order/Add.antt =====
-- `EventListAdd`, utils/uni_event_list.c, and what each list holds after it.
use lib_uart_comm_protocol_l.Prelude.{
  ℕ, ◌+◌, ◌≡◌, refl, sym, arith, Bool, true, false, [], ◌∷◌, ◌++◌, append-nil, length-append, ◌==◌,
  ==_iff, Bool-cases, inl, inr,
}
use mathlib.Core.Path.{subst}
use lib_uart_comm_protocol_l.EventList.{
  EventListItem, EventList, Level, highest, medium, lowest, queue_of, event_list_add, add_tail,
}
use lib_uart_comm_protocol_l.EventList.Order.{
  Step, add, code, added, waiting, IsOrdered, AllOf-add_tail,
}

abbrev pub Grows : Step → EventList → EventList → Type 0
Grows t s s' =
    IsOrdered s'
    × (s'.effects ≡ s.effects)
    × ((level : Level) → waiting level s' ≡ waiting level s ++ added level (t ∷ []))

module _ (event : ℕ) (s : EventList) (o : IsOrdered s) where
  adds_highest : Grows (add true event 1) s (event_list_add true event 1 s).1
  unfolding event_list_add add_tail added code queue_of
  adds_highest =
      let item : EventListItem = record { priority = 1; event = event } in
      let s' = record s {
        highest = record { items = s.highest.items ++ (item ∷ []); count = s.highest.count + 1 };
      } in
      (
        record {
          counted = record {
            highest_count =
                omega (arith, o.counted.highest_count, length-append s.highest.items (item ∷ []));
            medium_count = o.counted.medium_count;
            lowest_count = o.counted.lowest_count;
          };
          of_highest = AllOf-add_tail 1 event s.highest.items o.of_highest;
          of_medium = o.of_medium;
          of_lowest = o.of_lowest;
        },
        refl,
        λ level.
            elim level as (λ k. waiting k s' ≡ waiting k s ++ added k (add true event 1 ∷ [])) [
              | highest ↦ refl
              | medium ↦ sym (append-nil (waiting medium s))
              | lowest ↦ sym (append-nil (waiting lowest s))
            ],
      )

  adds_medium : Grows (add true event 2) s (event_list_add true event 2 s).1
  unfolding event_list_add add_tail added code queue_of
  adds_medium =
      let item : EventListItem = record { priority = 2; event = event } in
      let s' = record s {
        medium = record { items = s.medium.items ++ (item ∷ []); count = s.medium.count + 1 };
      } in
      (
        record {
          counted = record {
            highest_count = o.counted.highest_count;
            medium_count =
                omega (arith, o.counted.medium_count, length-append s.medium.items (item ∷ []));
            lowest_count = o.counted.lowest_count;
          };
          of_highest = o.of_highest;
          of_medium = AllOf-add_tail 2 event s.medium.items o.of_medium;
          of_lowest = o.of_lowest;
        },
        refl,
        λ level.
            elim level as (λ k. waiting k s' ≡ waiting k s ++ added k (add true event 2 ∷ [])) [
              | highest ↦ sym (append-nil (waiting highest s))
              | medium ↦ refl
              | lowest ↦ sym (append-nil (waiting lowest s))
            ],
      )

  adds_lowest : Grows (add true event 4) s (event_list_add true event 4 s).1
  unfolding event_list_add add_tail added code queue_of
  adds_lowest =
      let item : EventListItem = record { priority = 4; event = event } in
      let s' = record s {
        lowest = record { items = s.lowest.items ++ (item ∷ []); count = s.lowest.count + 1 };
      } in
      (
        record {
          counted = record {
            highest_count = o.counted.highest_count;
            medium_count = o.counted.medium_count;
            lowest_count =
                omega (arith, o.counted.lowest_count, length-append s.lowest.items (item ∷ []));
          };
          of_highest = o.of_highest;
          of_medium = o.of_medium;
          of_lowest = AllOf-add_tail 4 event s.lowest.items o.of_lowest;
        },
        refl,
        λ level.
            elim level as (λ k. waiting k s' ≡ waiting k s ++ added k (add true event 4 ∷ [])) [
              | highest ↦ sym (append-nil (waiting highest s))
              | medium ↦ sym (append-nil (waiting medium s))
              | lowest ↦ refl
            ],
      )

  -- An item of an unknown priority is in no list.
  adds_nowhere :
      (priority : ℕ)
      → (priority == 1) ≡ false
      → (priority == 2) ≡ false
      → (priority == 4) ≡ false
      → Grows (add true event priority) s (event_list_add true event priority s).1
  unfolding event_list_add added code
  adds_nowhere priority h m l =
      let same : (event_list_add true event priority s).1 ≡ s = rw (h, m, l) in
      subst (λ t. Grows (add true event priority) s t) (sym same)
        (
          o,
          refl,
          λ level.
              elim level
                as (λ k. waiting k s ≡ waiting k s ++ added k (add true event priority ∷ [])) [
                  | highest ↦ rw h (sym (append-nil (waiting highest s)))
                  | medium ↦ rw m (sym (append-nil (waiting medium s)))
                  | lowest ↦ rw l (sym (append-nil (waiting lowest s)))
                ],
        )

  pub Grows-add :
      (allocated : Bool) (priority : ℕ)
      → Grows (add allocated event priority) s (event_list_add allocated event priority s).1
  unfolding event_list_add added
  Grows-add false priority = (o, refl, λ level. sym (append-nil (waiting level s)))
  Grows-add true priority =
      let result = λ (p : ℕ). Grows (add true event p) s (event_list_add true event p s).1 in
      elim (Bool-cases (priority == 1)) [
        | inl h ↦ subst result (sym ((==_iff priority 1).0 h)) adds_highest
        | inr h ↦ elim (Bool-cases (priority == 2)) [
          | inl m ↦ subst result (sym ((==_iff priority 2).0 m)) adds_medium
          | inr m ↦ elim (Bool-cases (priority == 4)) [
            | inl l ↦ subst result (sym ((==_iff priority 4).0 l)) adds_lowest
            | inr l ↦ adds_nowhere priority h m l
          ]
        ]
      ]
