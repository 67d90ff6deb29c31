-- ===== src/Channel/Handed.antt =====
-- The worker of the channel, channel/uni_channel.c, hands on every packet that has arrived.
use lib_uart_comm_protocol_l.Prelude.{
  ℕ, zero, suc, ◌≤◌, ◌≡◌, refl, sym, ap, ◌∙◌, arith, some, List, [], ◌∷◌, ◌++◌, append-nil, length,
  length-append, replicate,
}
use lib_uart_comm_protocol_l.NetHelper.Messages.{Message}
use lib_uart_comm_protocol_l.EventList.{EventListItem, highest, dispose, queue_of}
use lib_uart_comm_protocol_l.Channel.Queue.{Channel, chnl_init, worker_round}
use lib_uart_comm_protocol_l.Channel.Queued.{
  Turn, work, turn, turns, arrivals, handed, waiting, numbers, InOrder, one_item, idle_round,
  work-InOrder, turns-InOrder, chnl_init-InOrder,
}

round_items :
    (c : Channel) (item : EventListItem) (rest : List EventListItem)
    → c.event_handle.highest.items ≡ item ∷ rest
    → (worker_round highest c).event_handle.highest.items ≡ rest
unfolding worker_round dispose
round_items c item rest e =
    let s = c.event_handle in rw (one_item s.handles s.interrupts s item rest e, worker_round) refl

-- As many rounds as packets wait
pub drained :
    (n : ℕ) (c : Channel) (arrived : List Message) (items : List EventListItem)
    → c.event_handle.highest.items ≡ items
    → length items ≤ n
    → InOrder c arrived
    → (turns (replicate n (work highest)) c).event_handle.highest.items ≡ []
unfolding queue_of
drained zero c arrived [] e le h = e
drained zero c arrived (item ∷ rest) e le h = absurd (omega (arith, le))
drained (suc n) c arrived [] e le h =
    drained n (worker_round highest c) arrived []
      (ap (λ c. c.event_handle.highest.items) (idle_round highest c e) ∙ e) (omega arith)
      (work-InOrder highest c arrived h)
drained (suc n) c arrived (item ∷ rest) e le h =
    drained n (worker_round highest c) arrived rest (round_items c item rest e) (omega (arith, le))
      (work-InOrder highest c arrived h)

turns-append : (a b : List Turn) (c : Channel) → turns (a ++ b) c ≡ turns b (turns a c)
turns-append [] b c = refl
turns-append (t ∷ rest) b c = turns-append rest b (turn t c)

arrivals-append : (a b : List Turn) → arrivals (a ++ b) ≡ arrivals a ++ arrivals b
arrivals-append [] b = refl
arrivals-append (Turn.arrive packet ∷ rest) b = ap (λ l. packet ∷ l) (arrivals-append rest b)
arrivals-append (Turn.work level ∷ rest) b = arrivals-append rest b

pub arrivals-work : (n : ℕ) → arrivals (replicate n (work highest)) ≡ []
arrivals-work zero = refl
arrivals-work (suc n) = arrivals-work n

pub length-numbers : (n : ℕ) → length (numbers n) ≡ n
length-numbers zero = refl
length-numbers (suc n) = omega (arith, length-append (numbers n) (n ∷ []), length-numbers n)

pub length-waiting : (items : List EventListItem) → length (waiting items) ≡ length items
length-waiting [] = refl
length-waiting (item ∷ rest) = ap suc (length-waiting rest)

pub few_wait :
    (c : Channel) (arrived : List Message)
    → InOrder c arrived
    → length c.event_handle.highest.items ≤ length arrived
few_wait c arrived h = omega (
  arith,
  ap length h.order,
  length-append (handed c.event_handle.effects) (waiting c.event_handle.highest.items),
  length-numbers (length c.packets),
  length-waiting c.event_handle.highest.items,
  ap length h.kept,
)

-- From the start and after any turns of the receiving thread and of the worker, as many further
-- rounds of the worker's highest loop as packets have arrived leave every packet handed to the
-- event handler, once and in the order of arrival.
pub all_handed :
    (ts : List Turn) (c : Channel)
    → chnl_init ≡ some c
    → handed (turns (ts ++ replicate (length (arrivals ts)) (work highest)) c).event_handle.effects
      ≡ numbers (length (arrivals ts))
all_handed ts c e =
    let n = length (arrivals ts) in
    let work_off = replicate n (work highest) in
    let h = turns-InOrder ts c [] (chnl_init-InOrder c e) in
    let t = turns work_off (turns ts c) in
    let none_waits =
      drained n (turns ts c) (arrivals ts) _ refl (few_wait (turns ts c) (arrivals ts) h) h in
    let after = turns-InOrder work_off (turns ts c) (arrivals ts) h in
    ap (λ t. handed t.event_handle.effects) (turns-append ts work_off c)
    ∙ sym (append-nil (handed t.event_handle.effects))
    ∙ ap (λ l. handed t.event_handle.effects ++ waiting l) (sym none_waits)
    ∙ after.order
    ∙ ap (λ l. numbers (length l))
        (after.kept ∙ ap (λ l. arrivals ts ++ l) (arrivals-work n) ∙ append-nil (arrivals ts))
