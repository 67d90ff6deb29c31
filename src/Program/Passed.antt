-- ===== src/Program/Passed.antt =====
-- The packets that arrive at main.c go to the channel in order, whatever the turns of the receiving thread and of
-- the two workers.
use mathlib.Core.Path.{subst}
use mathlib.Core.Option
use lib_uart_comm_protocol_l.Prelude.{
  if◌then◌else◌, ◌&&◌, ℕ, suc, ◌-◌, ◌≤◌, ◌<◌, ◌≡◌, refl, sym, ap, ◌∙◌, arith, Bool, true, false,
  some, List, [], ◌∷◌, ◌++◌, append_assoc, append-nil, length, length-append, get_elem?, take, ltb,
  Bool-cases, inl, inr,
}
use lib_uart_comm_protocol_l.Prelude.Slices.{take_within}
use lib_uart_comm_protocol_l.NetHelper.Messages.{Message}
use lib_uart_comm_protocol_l.EventList.{
  EventListItem, Effect, EventList, Level, highest, medium, lowest, event_list_create,
  event_list_add, add_tail, consume_one, take_one, queue_of, with_queue, is_interrupted, dispose,
}
use lib_uart_comm_protocol_l.EventList as Events
use lib_uart_comm_protocol_l.Channel.Queue.{chnl_init, chnl_receive, worker_round}
use lib_uart_comm_protocol_l.Channel.Queued.{
  handed, waiting, numbers, InOrder, handed-append, waiting-append, no_items, arrive-InOrder,
  work-InOrder, chnl_init-InOrder,
}
use lib_uart_comm_protocol_l.Channel.Handed.{length-numbers}
use lib_uart_comm_protocol_l.Program.{
  Program, start, comm_recv_packet_handler, event_handler, handle_first, list_round, Turn, arrive,
  list_work, channel_work, turn, turns,
}
use lib_uart_comm_protocol_l.Program.Order.{take-get_elem?, numbers_next}

-- The packets that arrive.
abbrev pub arrivals : List Turn → List Message
arrivals [] = []
arrivals (arrive packet ∷ rest) = packet ∷ arrivals rest
arrivals (list_work level ∷ rest) = arrivals rest
arrivals (channel_work level ∷ rest) = arrivals rest

-- The list of the program hands its packets on under their numbers.
pub record InStep (list : EventList) (count : ℕ) : Type 0 where
  pub order : handed list.effects ++ waiting list.medium.items ≡ numbers count
  pub no_highest : (list.highest.items ≡ []) × (list.highest.count ≡ 0)
  pub no_lowest : list.lowest.items ≡ []
  pub runs : (list.handles ≡ true) × ((list.running ≡ true) × (list.frees ≡ true))

-- What holds of the program in every state.
pub record IsPassing (p : Program) (arrived : List Message) : Type 0 where
  pub kept : p.packets ≡ arrived
  pub list : InStep p.event_list (length p.packets)
  pub passed : p.channel.packets ≡ take (length (handed p.event_list.effects)) p.packets
  pub behind : InOrder p.channel p.channel.packets

pub handed-few :
    (list : EventList) (count : ℕ) → InStep list count → length (handed list.effects) ≤ count
handed-few list count h = omega (
  arith,
  ap length h.order,
  length-append (handed list.effects) (waiting list.medium.items),
  length-numbers count,
)

arrive-IsPassing :
    (p : Program) (arrived : List Message) (packet : Message)
    → IsPassing p arrived
    → IsPassing (comm_recv_packet_handler packet p) (arrived ++ (packet ∷ []))
unfolding comm_recv_packet_handler event_list_add add_tail
arrive-IsPassing p arrived packet h =
    let list = p.event_list in
    let n = length p.packets in
    let item : EventListItem = record { priority = 2; event = n } in
    let longer : length (p.packets ++ (packet ∷ [])) ≡ suc n =
      omega (arith, length-append p.packets (packet ∷ [])) in
    record {
      kept = ap (λ l. l ++ (packet ∷ [])) h.kept;
      list = record {
        order =
            ap (λ l. handed list.effects ++ l) (waiting-append list.medium.items (item ∷ []))
            ∙ sym (append_assoc (handed list.effects) (waiting list.medium.items) (n ∷ []))
            ∙ ap (λ l. l ++ (n ∷ [])) h.list.order
            ∙ ap numbers (sym longer);
        no_highest = h.list.no_highest;
        no_lowest = h.list.no_lowest;
        runs = h.list.runs;
      };
      passed =
          h.passed
          ∙ sym (
              take_within (length (handed list.effects)) p.packets (packet ∷ [])
                (handed-few list n h.list));
      behind = h.behind;
    }

-- A round that takes an item from the medium list
one_medium :
    (handles interrupts : Bool) (s : EventList) (item : EventListItem) (rest : List EventListItem)
    → s.highest.count ≡ 0
    → s.medium.items ≡ item ∷ rest
    → consume_one medium handles interrupts s
      ≡ some (
          dispose handles item
            (record s { medium = record { items = rest; count = s.medium.count - 1 } }))
unfolding consume_one take_one queue_of with_queue is_interrupted
one_medium handles true s item rest c e =
    let calm : ltb 0 s.highest.count ≡ false = ground (arith, c) in rw (calm, e, consume_one) refl
one_medium handles false s item rest c e = rw e refl

handed-dispose :
    (s : EventList) (item : EventListItem)
    → s.running ≡ true
    → handed (dispose true item s).effects ≡ handed s.effects ++ (item.event ∷ [])
unfolding dispose
handed-dispose s item on = elim (Bool-cases s.frees) [
  | inl frees ↦
      rw (on, frees)
        (handed-append s.effects (
          Events.event_handler item.event
          ∷ Events.free_handler item.event
          ∷ Events.free_item item
          ∷ []))
  | inr keeps ↦
      rw (on, keeps)
        (handed-append s.effects (Events.event_handler item.event ∷ Events.free_item item ∷ []))
]

-- Rounds of a loop whose list is empty.
idle_round :
    (level : Level) (p : Program)
    → (queue_of level p.event_list).items ≡ []
    → list_round level p ≡ some p
unfolding list_round
idle_round level p e =
    rw (no_items level p.event_list.handles p.event_list.interrupts p.event_list e, list_round) refl

handled :
    (p : Program) (item : EventListItem) (rest : List EventListItem) (packet : Message)
    → p.event_list.handles ≡ true
    → p.event_list.running ≡ true
    → get_elem? p.packets item.event ≡ some packet
    → handle_first (item ∷ rest) p ≡ some (record p { channel = chnl_receive packet p.channel })
unfolding handle_first event_handler
handled p item rest packet handles on found =
    ap (λ b. if b && p.event_list.running then event_handler item.event p else some p) handles
    ∙ ap (λ b. if b then event_handler item.event p else some p) on
    ∙ rw (found, event_handler) refl

module _ (p : Program) (arrived : List Message) (h : IsPassing p arrived) (item : EventListItem)
    (rest : List EventListItem) (e : p.event_list.medium.items ≡ item ∷ rest) where
  open p use {event_list}

  -- The list once the item is out, and disposed of.
  abbrev left : EventList
  left = record event_list { medium = record { items = rest; count = event_list.medium.count - 1 } }

  abbrev out : Bool → Program → Program
  out handles p' = record p' { event_list = dispose handles item left }

  next :
      (item.event ≡ length (handed event_list.effects))
      × (length (handed event_list.effects) < length p.packets)
  next =
      numbers_next (length p.packets) (handed event_list.effects) (waiting rest) item.event
        (ap (λ items. handed event_list.effects ++ waiting items) (sym e) ∙ h.list.order)

  taken-IsPassing :
      (p' : Program) × (list_round medium p ≡ some p')
      × IsPassing p' arrived
      × (p'.event_list.medium.items ≡ rest)
  unfolding list_round chnl_receive queue_of dispose
  taken-IsPassing =
      let (number, below) = next in
      let (packet, found, taken) =
        take-get_elem? p.packets item.event (omega (arith, number, below)) in
      let more : handed (dispose true item left).effects
          ≡ handed event_list.effects ++ (item.event ∷ []) =
        handed-dispose left item h.list.runs.1.0 in
      let longer : suc item.event ≡ length (handed (dispose true item left).effects) = omega (
        arith,
        number,
        ap length more,
        length-append (handed event_list.effects) (item.event ∷ []),
      ) in
      (
        record p { event_list = dispose true item left; channel = chnl_receive packet p.channel },
        rw
            (
              one_medium event_list.handles event_list.interrupts event_list item rest
                  h.list.no_highest.1 e,
              list_round,
            )
            (ap (λ items. Option.map (out event_list.handles) (handle_first items p)) e
              ∙ ap (Option.map (out event_list.handles))
                  (handled p item rest packet h.list.runs.0 h.list.runs.1.0 found)
              ∙ ap (λ b. some (out b (record p { channel = chnl_receive packet p.channel })))
                  h.list.runs.0),
        record {
          kept = h.kept;
          list = record {
            order =
                ap (λ l. l ++ waiting rest) more
                ∙ append_assoc (handed event_list.effects) (item.event ∷ []) (waiting rest)
                ∙ ap (λ items. handed event_list.effects ++ waiting items) (sym e)
                ∙ h.list.order;
            no_highest = h.list.no_highest;
            no_lowest = h.list.no_lowest;
            runs = h.list.runs;
          };
          passed =
              ap (λ l. l ++ (packet ∷ [])) (h.passed ∙ ap (λ n. take n p.packets) (sym number))
              ∙ sym taken
              ∙ ap (λ n. take n p.packets) longer;
          behind = arrive-InOrder p.channel p.channel.packets packet h.behind;
        },
        refl,
      )

-- A round of the medium list's loop leaves one item less, if there is any.
abbrev pub Works : Program → List Message → Type 0
Works p arrived =
    (p' : Program) × (list_round medium p ≡ some p')
    × IsPassing p' arrived
    × (length p'.event_list.medium.items ≤ length p.event_list.medium.items - 1)

pub medium-IsPassing :
    (p : Program) (arrived : List Message) → IsPassing p arrived → Works p arrived
unfolding queue_of dispose
medium-IsPassing p arrived h = by_items p.event_list.medium.items refl
  where
    by_items : (items : List EventListItem) → p.event_list.medium.items ≡ items → Works p arrived
    by_items [] e = (p, idle_round medium p e, h, omega (arith, ap length e))
    by_items (item ∷ rest) e =
        let (p', round, after, less) = taken-IsPassing p arrived h item rest e in
        (p', round, after, omega (arith, ap length e, ap length less))

work-IsPassing :
    (level : Level) (p : Program) (arrived : List Message)
    → IsPassing p arrived
    → (p' : Program) × (list_round level p ≡ some p') × IsPassing p' arrived
unfolding queue_of
work-IsPassing highest p arrived h = (p, idle_round highest p h.list.no_highest.0, h)
work-IsPassing medium p arrived h =
    let (p', round, after, less) = medium-IsPassing p arrived h in (p', round, after)
work-IsPassing lowest p arrived h = (p, idle_round lowest p h.list.no_lowest, h)

channel-IsPassing :
    (level : Level) (p : Program) (arrived : List Message)
    → IsPassing p arrived
    → IsPassing (record p { channel = worker_round level p.channel }) arrived
channel-IsPassing level p arrived h =
    let after = work-InOrder level p.channel p.channel.packets h.behind in
    record {
      kept = h.kept;
      list = h.list;
      passed = after.kept ∙ h.passed;
      behind = subst (InOrder (worker_round level p.channel)) (sym after.kept) after;
    }

pub turns-IsPassing :
    (ts : List Turn) (p : Program) (arrived : List Message)
    → IsPassing p arrived
    → (p' : Program) × (turns ts p ≡ some p') × IsPassing p' (arrived ++ arrivals ts)
unfolding turns turn
turns-IsPassing [] p arrived h = (p, refl, subst (IsPassing p) (sym (append-nil arrived)) h)
turns-IsPassing (arrive packet ∷ rest) p arrived h =
    let (p', run, after) =
      turns-IsPassing rest (comm_recv_packet_handler packet p) (arrived ++ (packet ∷ []))
        (arrive-IsPassing p arrived packet h) in
    (p', run, subst (IsPassing p') (append_assoc arrived (packet ∷ []) (arrivals rest)) after)
turns-IsPassing (list_work level ∷ rest) p arrived h =
    let (p1, round, after) = work-IsPassing level p arrived h in
    let (p', run, later) = turns-IsPassing rest p1 arrived after in (p', rw round run, later)
turns-IsPassing (channel_work level ∷ rest) p arrived h =
    turns-IsPassing rest (record p { channel = worker_round level p.channel }) arrived
      (channel-IsPassing level p arrived h)

pub start-IsPassing : (p : Program) × (start ≡ some p) × IsPassing p []
unfolding start event_list_create chnl_init
start-IsPassing = (
  _,
  refl,
  record {
    kept = refl;
    list = record {
      order = refl;
      no_highest = (refl, refl);
      no_lowest = refl;
      runs = (refl, (refl, refl));
    };
    passed = refl;
    behind = chnl_init-InOrder _ refl;
  },
)
