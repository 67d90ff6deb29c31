-- ===== src/Program/Reached.antt =====
-- Every packet that arrives at main.c reaches the handler of the channel.
use lib_uart_comm_protocol_l.Prelude.{
  ℕ, zero, suc, ◌≤◌, ◌≡◌, refl, sym, ap, ◌∙◌, arith, some, List, [], ◌∷◌, ◌++◌, append-nil, length,
  length-append, take_ge, replicate, bind,
}
use lib_uart_comm_protocol_l.Prelude.Binds.{bind_assoc, bind_ext}
use lib_uart_comm_protocol_l.NetHelper.Messages.{Message}
use lib_uart_comm_protocol_l.EventList.{highest, medium}
use lib_uart_comm_protocol_l.Channel.Queue.{Channel, worker_round}
use lib_uart_comm_protocol_l.Channel.Queued as Queued
use lib_uart_comm_protocol_l.Channel.Queued.{handed, waiting, numbers, InOrder, turns-InOrder}
use lib_uart_comm_protocol_l.Channel.Handed.{
  drained, few_wait, arrivals-work, length-numbers, length-waiting,
}
use lib_uart_comm_protocol_l.Program.{Program, start, Turn, list_work, channel_work, turn, turns}
use lib_uart_comm_protocol_l.Program.Passed.{
  arrivals, IsPassing, medium-IsPassing, turns-IsPassing, start-IsPassing,
}

turns-append : (a b : List Turn) (p : Program) → turns (a ++ b) p ≡ bind (turns a p) (turns b)
unfolding turns
turns-append [] b p = refl
turns-append (t ∷ rest) b p =
    bind_ext (turn t p) (turns (rest ++ b)) (λ q. bind (turns rest q) (turns b))
      (turns-append rest b)
    ∙ sym (bind_assoc (turn t p) (turns rest) (turns b))

-- As many rounds of the medium list's loop as it has items
list-drained :
    (n : ℕ) (p : Program) (arrived : List Message)
    → length p.event_list.medium.items ≤ n
    → IsPassing p arrived
    → (p' : Program) × (turns (replicate n (list_work medium)) p ≡ some p')
      × IsPassing p' arrived
      × (length p'.event_list.medium.items ≡ 0)
unfolding turns turn
list-drained zero p arrived le h = (p, refl, h, omega (arith, le))
list-drained (suc n) p arrived le h =
    let (p1, round, after, less) = medium-IsPassing p arrived h in
    let (p', run, later, empty) = list-drained n p1 arrived (omega (arith, le, less)) after in
    (p', rw round run, later, empty)

-- The turns of the channel's worker alone
channel-turns :
    (n : ℕ) (p : Program)
    → turns (replicate n (channel_work highest)) p
      ≡ some (record p { channel = Queued.turns (replicate n (Queued.work highest)) p.channel })
unfolding turns turn
channel-turns zero p = refl
channel-turns (suc n) p = channel-turns n (record p { channel = worker_round highest p.channel })

-- The turns that end it.
abbrev pub last_turns : ℕ → List Turn
last_turns n = replicate n (list_work medium) ++ replicate n (channel_work highest)

all_out :
    (p : Program) (arrived : List Message)
    → IsPassing p arrived
    → length p.event_list.medium.items ≡ 0
    → p.channel.packets ≡ arrived
all_out p arrived h none_waits =
    let size : length p.packets ≤ length (handed p.event_list.effects) = omega (
      arith,
      ap length h.list.order,
      length-append (handed p.event_list.effects) (waiting p.event_list.medium.items),
      length-numbers (length p.packets),
      length-waiting p.event_list.medium.items,
      none_waits,
    ) in
    h.passed ∙ take_ge (length (handed p.event_list.effects)) p.packets size ∙ h.kept

channel-drained :
    (c : Channel) (n : ℕ)
    → InOrder c c.packets
    → length c.packets ≤ n
    → let c' = Queued.turns (replicate n (Queued.work highest)) c in
      (c'.packets ≡ c.packets) × (handed c'.event_handle.effects ≡ numbers (length c.packets))
channel-drained c n h le =
    let work_off = replicate n (Queued.work highest) in
    let c' = Queued.turns work_off c in
    let after = turns-InOrder work_off c c.packets h in
    let none_waits =
      drained n c c.packets c.event_handle.highest.items refl
        (omega (arith, le, few_wait c c.packets h)) h in
    let kept : c'.packets ≡ c.packets =
      after.kept ∙ ap (λ l. c.packets ++ l) (arrivals-work n) ∙ append-nil c.packets in
    (
      kept,
      sym (append-nil (handed c'.event_handle.effects))
          ∙ ap (λ l. handed c'.event_handle.effects ++ waiting l) (sym none_waits)
          ∙ after.order
          ∙ ap (λ l. numbers (length l)) kept,
    )

-- From the start of main.c's event list and of the channel, packets arriving and rounds of the two
-- workers' loops in any order: no event is the number of a missing packet, and after as many
-- further rounds of the first worker's medium loop and then of the channel's highest loop as
-- packets have arrived, the channel has got exactly the packets that arrived, in order, and its
-- handler has been called for each of them once, in order.
pub packets-reached :
    (ts : List Turn)
    → let n = length (arrivals ts) in
      (p : Program) × (p' : Program) × (start ≡ some p)
      × (turns (ts ++ last_turns n) p ≡ some p')
      × (p'.channel.packets ≡ arrivals ts)
      × (handed p'.channel.event_handle.effects ≡ numbers n)
packets-reached ts =
    let n = length (arrivals ts) in
    let (p, begun, h) = start-IsPassing in
    let (p1, run1, h1) = turns-IsPassing ts p [] h in
    let few : length p1.event_list.medium.items ≤ n = omega (
      arith,
      ap length h1.list.order,
      length-append (handed p1.event_list.effects) (waiting p1.event_list.medium.items),
      length-numbers (length p1.packets),
      length-waiting p1.event_list.medium.items,
      ap length h1.kept,
    ) in
    let (p2, run2, h2, empty) = list-drained n p1 (arrivals ts) few h1 in
    let all = all_out p2 (arrivals ts) h2 empty in
    let (kept, order) = channel-drained p2.channel n h2.behind (omega (arith, ap length all)) in
    let work = replicate n (list_work medium) in
    let last = replicate n (channel_work highest) in
    (
      p,
      record p2 { channel = Queued.turns (replicate n (Queued.work highest)) p2.channel },
      begun,
      turns-append ts (last_turns n) p
          ∙ ap (λ q. bind q (turns (last_turns n))) run1
          ∙ turns-append work last p1
          ∙ ap (λ q. bind q (turns last)) run2
          ∙ channel-turns n p2,
      kept ∙ all,
      order ∙ ap (λ l. numbers (length l)) all,
    )
