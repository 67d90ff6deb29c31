-- ===== src/Channel/Queued.antt =====
-- The packets that arrive at channel/uni_channel.c are handed on in order, whatever the turns of the receiving
-- thread and of the worker.
use mathlib.Core.Path.{subst}
use lib_uart_comm_protocol_l.Prelude.{
  ℕ, zero, suc, ◌-◌, ◌≡◌, refl, sym, ap, ◌∙◌, arith, Bool, true, false, ◌&&◌, none, some, List, [],
  Bool-cases, inl, inr, ◌∷◌, ◌++◌, append_assoc, append-nil, length, length-append,
}
use lib_uart_comm_protocol_l.NetHelper.Messages.{Message}
use lib_uart_comm_protocol_l.EventList.{
  EventListItem, Effect, event_handler, free_handler, free_item, EventList, Level, highest, medium,
  lowest, event_list_create, event_list_add, add_tail, take_one, consume_one, queue_of, with_queue,
  is_interrupted, dispose,
}
use lib_uart_comm_protocol_l.Channel.Queue.{Channel, chnl_init, chnl_receive, worker_round}

-- A packet arrives, or the worker makes a round of one of its loops.
pub data Turn : Type 0 where
  arrive : Message → Turn
  work : Level → Turn

abbrev pub turn : Turn → Channel → Channel
turn (arrive packet) c = chnl_receive packet c
turn (work level) c = worker_round level c

abbrev pub turns : List Turn → Channel → Channel
turns [] c = c
turns (t ∷ rest) c = turns rest (turn t c)

-- The packets that arrive.
abbrev pub arrivals : List Turn → List Message
arrivals [] = []
arrivals (arrive packet ∷ rest) = packet ∷ arrivals rest
arrivals (work level ∷ rest) = arrivals rest

-- The events given to the event handler so far, and those that wait.
abbrev pub handed : List Effect → List ℕ
handed [] = []
handed (event_handler e ∷ rest) = e ∷ handed rest
handed (free_handler e ∷ rest) = handed rest
handed (free_item item ∷ rest) = handed rest

abbrev pub waiting : List EventListItem → List ℕ
waiting [] = []
waiting (item ∷ rest) = item.event ∷ waiting rest

-- 0, 1 and so on, less than `n`
abbrev pub numbers : ℕ → List ℕ
numbers zero = []
numbers (suc n) = numbers n ++ (n ∷ [])

-- What holds of a channel in every state.
pub record InOrder (c : Channel) (arrived : List Message) : Type 0 where
  pub kept : c.packets ≡ arrived
  pub order :
      handed c.event_handle.effects ++ waiting c.event_handle.highest.items
      ≡ numbers (length c.packets)
  pub no_medium : c.event_handle.medium.items ≡ []
  pub no_lowest : c.event_handle.lowest.items ≡ []
  pub runs :
      (c.event_handle.handles ≡ true)
      × ((c.event_handle.running ≡ true) × (c.event_handle.frees ≡ true))

pub handed-append : (a b : List Effect) → handed (a ++ b) ≡ handed a ++ handed b
handed-append [] b = refl
handed-append (event_handler e ∷ rest) b = ap (λ l. e ∷ l) (handed-append rest b)
handed-append (free_handler e ∷ rest) b = handed-append rest b
handed-append (free_item item ∷ rest) b = handed-append rest b

pub waiting-append : (a b : List EventListItem) → waiting (a ++ b) ≡ waiting a ++ waiting b
waiting-append [] b = refl
waiting-append (item ∷ rest) b = ap (λ l. item.event ∷ l) (waiting-append rest b)

pub arrive-InOrder :
    (c : Channel) (arrived : List Message) (packet : Message)
    → InOrder c arrived
    → InOrder (chnl_receive packet c) (arrived ++ (packet ∷ []))
unfolding chnl_receive event_list_add add_tail
arrive-InOrder c arrived packet h =
    let list = c.event_handle in
    let n = length c.packets in
    let item : EventListItem = record { priority = 1; event = n } in
    let longer : length (c.packets ++ (packet ∷ [])) ≡ suc n =
      omega (arith, length-append c.packets (packet ∷ [])) in
    record {
      kept = ap (λ l. l ++ (packet ∷ [])) h.kept;
      order =
          ap (λ l. handed list.effects ++ l) (waiting-append list.highest.items (item ∷ []))
          ∙ sym (append_assoc (handed list.effects) (waiting list.highest.items) (n ∷ []))
          ∙ ap (λ l. l ++ (n ∷ [])) h.order
          ∙ ap numbers (sym longer);
      no_medium = h.no_medium;
      no_lowest = h.no_lowest;
      runs = h.runs;
    }

pub no_items :
    (level : Level) (handles interrupts : Bool) (s : EventList)
    → (queue_of level s).items ≡ []
    → consume_one level handles interrupts s ≡ none
unfolding consume_one take_one
no_items level handles interrupts s e = elim (Bool-cases (interrupts && is_interrupted level s)) [
  | inl stops ↦ rw (stops, consume_one) refl
  | inr goes_on ↦ rw (goes_on, e, consume_one) refl
]

pub one_item :
    (handles interrupts : Bool) (s : EventList) (item : EventListItem) (rest : List EventListItem)
    → s.highest.items ≡ item ∷ rest
    → consume_one highest handles interrupts s
      ≡ some (
          dispose handles item
            (record s { highest = record { items = rest; count = s.highest.count - 1 } }))
unfolding consume_one take_one queue_of with_queue is_interrupted
one_item handles true s item rest e = rw e refl
one_item handles false s item rest e = rw e refl

pub idle_round :
    (level : Level) (c : Channel)
    → (queue_of level c.event_handle).items ≡ []
    → worker_round level c ≡ c
unfolding worker_round
idle_round level c e =
    rw
      (
        no_items level c.event_handle.handles c.event_handle.interrupts c.event_handle e,
        worker_round,
      )
      refl

taken-InOrder :
    (c : Channel) (arrived : List Message) (items : List EventListItem)
    → c.event_handle.highest.items ≡ items
    → InOrder c arrived
    → InOrder (worker_round highest c) arrived
unfolding worker_round dispose queue_of
taken-InOrder c arrived [] e h = subst (λ t. InOrder t arrived) (sym (idle_round highest c e)) h
taken-InOrder c arrived (item ∷ rest) e h =
    let s = c.event_handle in
    let t =
      dispose true item
        (record s { highest = record { items = rest; count = s.highest.count - 1 } }) in
    let taken : worker_round highest c ≡ record c { event_handle = t } =
      rw (one_item s.handles s.interrupts s item rest e, worker_round) (rw h.runs.0 refl) in
    subst (λ t. InOrder t arrived) (sym taken)
      (record {
        kept = h.kept;
        order = rw h.runs.1.0 (
            rw h.runs.1.1 (
              ap (λ l. l ++ waiting rest)
                (handed-append s.effects
                  (event_handler item.event ∷ free_handler item.event ∷ free_item item ∷ []))
              ∙ append_assoc (handed s.effects) (item.event ∷ []) (waiting rest)
              ∙ ap (λ l. handed s.effects ++ waiting l) (sym e)
              ∙ h.order));
        no_medium = h.no_medium;
        no_lowest = h.no_lowest;
        runs = h.runs;
      })

pub work-InOrder :
    (level : Level) (c : Channel) (arrived : List Message)
    → InOrder c arrived
    → InOrder (worker_round level c) arrived
unfolding queue_of
work-InOrder highest c arrived h = taken-InOrder c arrived c.event_handle.highest.items refl h
work-InOrder medium c arrived h =
    subst (λ t. InOrder t arrived) (sym (idle_round medium c h.no_medium)) h
work-InOrder lowest c arrived h =
    subst (λ t. InOrder t arrived) (sym (idle_round lowest c h.no_lowest)) h

pub turns-InOrder :
    (ts : List Turn) (c : Channel) (arrived : List Message)
    → InOrder c arrived
    → InOrder (turns ts c) (arrived ++ arrivals ts)
turns-InOrder [] c arrived h = subst (InOrder c) (sym (append-nil arrived)) h
turns-InOrder (arrive packet ∷ rest) c arrived h =
    subst (InOrder (turns rest (chnl_receive packet c)))
      (append_assoc arrived (packet ∷ []) (arrivals rest))
      (turns-InOrder rest (chnl_receive packet c) (arrived ++ (packet ∷ []))
        (arrive-InOrder c arrived packet h))
turns-InOrder (work level ∷ rest) c arrived h =
    turns-InOrder rest (worker_round level c) arrived (work-InOrder level c arrived h)

pub chnl_init-InOrder : (c : Channel) → chnl_init ≡ some c → InOrder c []
unfolding chnl_init event_list_create
chnl_init-InOrder c e =
    subst (λ c. InOrder c []) (some_inj e)
      (record {
        kept = refl;
        order = refl;
        no_medium = refl;
        no_lowest = refl;
        runs = (refl, (refl, refl));
      })
  where
    some_inj : {a b : Channel} → some a ≡ some b → a ≡ b
    some_inj e = cc

-- From the start, whatever the turns of the receiving thread and of the worker: the numbers of the
-- packets that the event handler has got, followed by those that wait in the highest list, are 0,
-- 1 and so on in the order of arrival, one for each packet that has arrived, and the packets kept
-- under these numbers are those that arrived.
pub arrivals-handed :
    (ts : List Turn) (c : Channel)
    → chnl_init ≡ some c
    → let t = turns ts c in
      (t.packets ≡ arrivals ts)
      × (handed t.event_handle.effects ++ waiting t.event_handle.highest.items
          ≡ numbers (length (arrivals ts)))
arrivals-handed ts c e =
    let h = turns-InOrder ts c [] (chnl_init-InOrder c e) in
    (h.kept, h.order ∙ ap (λ l. numbers (length l)) h.kept)
