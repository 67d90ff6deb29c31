-- ===== src/Program/Tests.antt =====
-- Runs of main.c.
use lib_uart_comm_protocol_l.Prelude.{◌≡◌, some, List, [], ◌∷◌, ◌++◌}
use lib_uart_comm_protocol_l.NetHelper.Messages.{Message}
use lib_uart_comm_protocol_l.EventList.{highest, medium}
use lib_uart_comm_protocol_l.Channel.Queued.{handed}
use lib_uart_comm_protocol_l.Program.{Program, start, Turn, arrive, list_work, channel_work, turns}
use lib_uart_comm_protocol_l.Program.Reached.{last_turns, packets-reached}

abbrev first : Message
first = record { cmd = 8; payload = 1 ∷ [] }

abbrev second : Message
second = record { cmd = 9; payload = [] }

abbrev both : List Turn
both =
    arrive first ∷ list_work highest ∷ list_work medium ∷ arrive second ∷ channel_work highest ∷ []

packets-reached_example :
    (p : Program) × (p' : Program) × (start ≡ some p)
    × (turns (both ++ last_turns 2) p ≡ some p')
    × (p'.channel.packets ≡ first ∷ second ∷ [])
    × (handed p'.channel.event_handle.effects ≡ 0 ∷ 1 ∷ [])
packets-reached_example = packets-reached both
