-- ===== src/Dispatcher/Requests/Examples.antt =====
-- Runs of the loop that reads for a dispatcher, and its theorem at a concrete input.
use deepiri_sugar_glider.Base.{◌≡◌, refl, true, false, [], ◌∷◌, arith, error_text}
use deepiri_sugar_glider.Base.Int.{pos}
use deepiri_sugar_glider.Base.Text.{trim_space, is_space}
use deepiri_sugar_glider.Redis.{Event}
use deepiri_sugar_glider.Service.Examples.{sidecar}
use deepiri_sugar_glider.Consume.Examples.{toy}
use deepiri_sugar_glider.Dispatcher.{Dispatcher}
use deepiri_sugar_glider.Dispatcher.Removal.{IsServed}
use deepiri_sugar_glider.Dispatcher.Requests.{Reader}
use deepiri_sugar_glider.Dispatcher.Requests.Reads.{read_turns, read_turns-IsServed}

abbrev reader : Reader
reader = record {
  stream_name = "events";
  consumer_group = "g";
  consumer_name = "d";
  read_count = pos 10;
  block_duration = pos 1000;
}

-- A subscriber with room for one event.
abbrev serving : Dispatcher Event
serving = record {
  subscriber_buffer = 1;
  subscribers = record { id = 1; events = []; drops = 0 } ∷ [];
  next_sub_id = 1;
  stopped = false;
  closed = [];
}

serving-IsServed : IsServed serving
serving-IsServed = record { patient = (omega arith, tt); bounded = (omega arith, tt) }

read_turns-IsServed_example :
    IsServed
      (read_turns toy reader ((false, (1 ∷ []) ∷ []) ∷ (false, []) ∷ []) (sidecar, serving, true)).1
read_turns-IsServed_example =
    read_turns-IsServed toy reader ((false, (1 ∷ []) ∷ []) ∷ (false, []) ∷ []) sidecar serving true
      serving-IsServed

-- The second turn does not read, since the channel is full.
turn_runs :
    ((read_turns toy reader
        ((false, (1 ∷ []) ∷ []) ∷ (false, []) ∷ [])
        (sidecar, serving, true)).0.world
      ≡ 2)
    × ((read_turns toy reader
          ((false, (1 ∷ []) ∷ []) ∷ (false, []) ∷ [])
          (sidecar, serving, true)).0.collector.read_events
        ≡ 1)
unfolding read_turns trim_space is_space error_text
turn_runs = (refl, refl)
