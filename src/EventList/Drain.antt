-- ===== src/EventList/Drain.antt =====
-- What the consuming loops of utils/uni_event_list.c do when no other thread disturbs them.
use lib_uart_comm_protocol_l.Prelude.{
  zero, suc, ◌-◌, ◌≡◌, refl, sym, ap, ◌∙◌, arith, Bool, true, false, ◌&&◌, none, some, List, [],
  ◌∷◌, ◌++◌, append_assoc, append-nil, if◌then◌else◌, length,
}
use lib_uart_comm_protocol_l.EventList.{
  EventListItem, Effect, event_handler, free_handler, free_item, Queue, EventList, Level, highest,
  medium, lowest, queue_of, with_queue, is_interrupted, dispose, consume_one, take_one,
  consume_one_list, rounds, consume_all, consume_event_list, free_all,
}

-- Every counter is the length of its list.
pub record IsCounted (s : EventList) : Type 0 where
  pub highest_count : s.highest.count ≡ length s.highest.items
  pub medium_count : s.medium.count ≡ length s.medium.items
  pub lowest_count : s.lowest.count ≡ length s.lowest.items

abbrev pub empty : Queue
empty = record { items = []; count = 0 }

-- The calls for an item: the event handler if it is to be called, the free handler if there is one,
-- the release.
abbrev pub disposal : Bool → Bool → EventListItem → List Effect
disposal handles frees item =
    (if handles then event_handler item.event ∷ [] else [])
    ++ ((if frees then free_handler item.event ∷ [] else []) ++ (free_item item ∷ []))

-- The calls for these items, one item after the other.
abbrev pub disposals : Bool → Bool → List EventListItem → List Effect
disposals handles frees [] = []
disposals handles frees (item ∷ rest) = disposal handles frees item ++ disposals handles frees rest

abbrev full : List EventListItem → Queue
full items = record { items = items; count = length items }

abbrev emitted : List Effect → EventList → EventList
emitted es s = record s { effects = s.effects ++ es }

-- A loop is not interrupted if its handler is not registered or says no.
abbrev IsFree : Level → Bool → EventList → Type 0
IsFree level interrupts s = (interrupts && is_interrupted level s) ≡ false

IsFree-emitted :
    (level : Level) (interrupts : Bool) (s : EventList) (es : List Effect)
    → IsFree level interrupts s
    → IsFree level interrupts (emitted es s)
unfolding is_interrupted
IsFree-emitted highest interrupts s es h = h
IsFree-emitted medium interrupts s es h = h
IsFree-emitted lowest interrupts s es h = h

module _ (handles interrupts : Bool) where
  takes_one :
      (level : Level) (item : EventListItem) (rest : List EventListItem) (s : EventList)
      → IsFree level interrupts s
      → consume_one level handles interrupts (with_queue level (full (item ∷ rest)) s)
        ≡ some (
            with_queue level (full rest) (emitted (disposal (handles && s.running) s.frees item) s))
  unfolding consume_one take_one queue_of with_queue is_interrupted dispose
  takes_one highest item rest s h =
      let n : suc (length rest) - 1 ≡ length rest = omega arith in rw (h, n, consume_one)
  takes_one medium item rest s h =
      let n : suc (length rest) - 1 ≡ length rest = omega arith in rw (h, n, consume_one)
  takes_one lowest item rest s h =
      let n : suc (length rest) - 1 ≡ length rest = omega arith in rw (h, n, consume_one)

  ends : (level : Level) (s : EventList) → consume_one_list zero level handles interrupts s ≡ s
  unfolding consume_one_list
  ends level s = refl

  -- A loop that nothing interrupts disposes of the items of its list, in order.
  drains :
      (level : Level) (items : List EventListItem) (s : EventList)
      → IsFree level interrupts s
      → consume_one_list (length items) level handles interrupts (with_queue level (full items) s)
        ≡ with_queue level empty (emitted (disposals (handles && s.running) s.frees items) s)
  unfolding consume_one_list
  drains level [] s h =
      ap (λ es. with_queue level empty (record s { effects = es })) (sym (append-nil s.effects))
  drains level (item ∷ rest) s h =
      let es = disposal (handles && s.running) s.frees item in
      ap
        (λ t. elim t [
          | none ↦ with_queue level (full (item ∷ rest)) s
          | some s' ↦ consume_one_list (length rest) level handles interrupts s'
        ])
        (takes_one level item rest s h)
      ∙ drains level rest (emitted es s) (IsFree-emitted level interrupts s es h)
      ∙ ap (λ e. with_queue level empty (record s { effects = e }))
          (append_assoc s.effects es (disposals (handles && s.running) s.frees rest))

  loop :
      (level : Level) (s : EventList)
      → queue_of level s ≡ full (queue_of level s).items
      → IsFree level interrupts s
      → consume_one_list (rounds level s) level handles interrupts s
        ≡ with_queue level empty
            (emitted (disposals (handles && s.running) s.frees (queue_of level s).items) s)
  unfolding rounds queue_of with_queue
  loop highest s e h =
      ap
        (λ q.
          consume_one_list (length q.items) highest handles interrupts (record s { highest = q }))
        e
      ∙ drains highest s.highest.items s h
  loop medium s e h =
      ap
        (λ q. consume_one_list (length q.items) medium handles interrupts (record s { medium = q }))
        e
      ∙ drains medium s.medium.items s h
  loop lowest s e h =
      ap
        (λ q. consume_one_list (length q.items) lowest handles interrupts (record s { lowest = q }))
        e
      ∙ drains lowest s.lowest.items s h

restored : (q : Queue) → q.count ≡ length q.items → q ≡ full q.items
restored q e = ap (λ n. record q { count = n }) e

disposals_append :
    (handles frees : Bool) (xs ys : List EventListItem)
    → disposals handles frees (xs ++ ys) ≡ disposals handles frees xs ++ disposals handles frees ys
disposals_append handles frees [] ys = refl
disposals_append handles frees (x ∷ xs) ys =
    ap (λ es. disposal handles frees x ++ es) (disposals_append handles frees xs ys)
    ∙ sym (
        append_assoc (disposal handles frees x) (disposals handles frees xs)
          (disposals handles frees ys))

never : (interrupts : Bool) → (interrupts && false) ≡ false
never true = refl
never false = refl

module _ (handles interrupts : Bool) (s : EventList) (c : IsCounted s) where
  -- With right counters and no other thread adding, the three loops dispose of every item, the
  -- highest list first and each list in its order, leave the lists empty and change nothing else;
  -- a loop is given as many rounds as its list has items.
  pub consume_all_lem : consume_all handles interrupts s ≡ record s {
    highest = empty;
    medium = empty;
    lowest = empty;
    effects =
        s.effects
        ++ disposals
            (handles && s.running)
            s.frees
            (s.highest.items ++ (s.medium.items ++ s.lowest.items));
  }
  unfolding consume_all queue_of with_queue is_interrupted
  consume_all_lem =
      let running = handles && s.running in
      let one = disposals running s.frees s.highest.items in
      let two = disposals running s.frees s.medium.items in
      let three = disposals running s.frees s.lowest.items in
      let a = record s { highest = empty; effects = s.effects ++ one } in
      let b = record a { medium = empty; effects = s.effects ++ (one ++ two) } in
      let after_a =
        λ (t : EventList). consume_one_list (rounds medium t) medium handles interrupts t in
      let after_b =
        λ (t : EventList). consume_one_list (rounds lowest t) lowest handles interrupts t in
      ap (λ t. after_b (after_a t))
        (loop handles interrupts highest s (restored s.highest c.highest_count) (never interrupts))
      ∙ ap after_b (
          loop handles interrupts medium a (restored s.medium c.medium_count) (never interrupts)
          ∙ ap (λ es. record b { effects = es }) (append_assoc s.effects one two))
      ∙ loop handles interrupts lowest b (restored s.lowest c.lowest_count) (never interrupts)
      ∙ ap (λ es. record s { highest = empty; medium = empty; lowest = empty; effects = es })
          (append_assoc s.effects (one ++ two) three
            ∙ ap (λ es. s.effects ++ es)
                (append_assoc one two three
                  ∙ ap (λ es. one ++ es)
                      (sym (disposals_append running s.frees s.medium.items s.lowest.items))
                  ∙ sym (
                      disposals_append running s.frees s.highest.items
                        (s.medium.items ++ s.lowest.items))))

module _ (s : EventList) (c : IsCounted s) where
  -- With right counters, the worker's last act gives each event still in a list to the free
  -- handler, the highest list first and each list in its order, calls no event handler, releases
  -- each item once and leaves the lists empty.
  pub free_all_lem : free_all s ≡ record s {
    handles = false;
    interrupts = false;
    highest = empty;
    medium = empty;
    lowest = empty;
    effects =
        s.effects
        ++ disposals false s.frees (s.highest.items ++ (s.medium.items ++ s.lowest.items));
  }
  unfolding free_all consume_event_list
  free_all_lem =
      consume_all_lem false false (record s { handles = false; interrupts = false })
        (record {
          highest_count = c.highest_count;
          medium_count = c.medium_count;
          lowest_count = c.lowest_count;
        })
