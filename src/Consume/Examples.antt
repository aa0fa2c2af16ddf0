-- ===== src/Consume/Examples.antt =====
-- Runs of internal/service/consume.go, and its theorems at concrete inputs.
use Prim.Native.String.{String}
use deepiri_sugar_glider.Base.{
  ℕ, zero, suc, ◌≡◌, refl, true, false, none, some, List, [], ◌∷◌, length, GoError, redis_nil,
  other, error_text, if◌then◌else◌, Result, ok, err,
}
use deepiri_sugar_glider.Base.Int.{pos}
use deepiri_sugar_glider.Base.Text.{is_empty, trim_space, is_space}
use deepiri_sugar_glider.RedisStreams.{text}
use deepiri_sugar_glider.Redis.{Redis, Message, Messages, Pending}
use deepiri_sugar_glider.Service.{Sidecar}
use deepiri_sugar_glider.Service.Examples.{sidecar}
use deepiri_sugar_glider.Consume.{
  ReadRequest, AckRequest, Body, consume_group_once, read_from_stream, is_consumer_group_ensured,
  ensure_consumer_group,
}
use deepiri_sugar_glider.Consume.Cache.{remembers, forgets, run, run_groups, run-refines}
use deepiri_sugar_glider.Consume.Remembered.{consume_group_once-remembers}
use deepiri_sugar_glider.Consume.Counted.{Told, errors_in, amount_in, consume_group_once-Told}
use deepiri_sugar_glider.Consume.Commands.{Agree, consume_group_once-Agree}

abbrev pub order : Message
order = record {
  id = "1-0";
  values = ("payload", text "{}") ∷ ("dlq_note", text "n") ∷ ("event_type", text "paid") ∷ [];
}

abbrev pub page : String → List Pending
page start = elim start [
  | String.◌∷◌ c String.[] ↦
      record { id = "1-0"; idle = pos 9; retry_count = pos 5 }
      ∷ record { id = "2-0"; idle = pos 9; retry_count = pos 1 }
      ∷ []
  | _ ↦ []
]

-- A server that counts its commands and holds one entry; the first read misses the group.
abbrev pub toy : Redis ℕ
toy = record {
  xgroup_create = λ n stream group. (suc n, some (other "BUSYGROUP"));
  xread_group = λ n args. (suc n, first n);
  xack = λ n stream group ids. (suc n, ok (length ids));
  xadd = λ n args. (suc n, none);
  xdel = λ n stream id. (suc n, none);
  xrange_n = λ n stream start stop limit. (suc n, ok (order ∷ []));
  xrange = λ n stream start stop. (suc n, ok (order ∷ []));
  xpending_ext = λ n args. (suc n, ok (page args.start));
  xinfo_groups = λ n stream. (suc n, ok ("g" ∷ []));
  xinfo_stream = λ n stream.
      (suc n, ok (record { length = pos 1; first_entry_id = "1-0"; last_entry_id = "1-0" }));
  ping = λ n. (n, none);
  now = λ n. "t";
}
  where
    first : ℕ → Result GoError (List Messages)
    first zero = err (other "NOGROUP x")
    first (suc n) = ok (record { stream = "events"; messages = order ∷ [] } ∷ [])

abbrev read : ReadRequest
read = record {
  stream = " events";
  consumer_group = "g";
  consumer_name = "c";
  count = pos 500;
  block_ms = pos 0;
}

abbrev ack : AckRequest
ack = record { stream = "events"; consumer_group = "g"; entry_ids = "1-0" ∷ [] }

-- The group was there once, and Redis has lost it.
abbrev lost : Sidecar ℕ
lost = record sidecar { consumer_groups_ensured = "events|g" ∷ [] }

read_runs :
    ((consume_group_once toy lost read).1
      ≡ ok (record { stream = "events"; entry_id = "1-0"; fields = order.values } ∷ []))
    × ((consume_group_once toy lost read).0.world ≡ 3)
    × ((read_from_stream toy lost "POST" none).1 ≡ (400, Body.error "invalid JSON"))
unfolding read_from_stream consume_group_once trim_space is_space error_text
read_runs = (refl, refl, refl)

run-refines_example :
    is_consumer_group_ensured (run (remembers "a" "g" ∷ forgets " a" "h" ∷ []) sidecar) "a" "g"
    ≡ run_groups
        (remembers "a" "g" ∷ forgets " a" "h" ∷ [])
        (λ _ _. false)
        (trim_space "a")
        (trim_space "g")
run-refines_example =
    run-refines (remembers "a" "g" ∷ forgets " a" "h" ∷ []) sidecar "a" "g" refl
      (unfold trim_space is_space in ((refl, tt), ((refl, tt), tt)))
      (unfold trim_space is_space in (refl, tt))

consume_group_once-Told_example :
    Told
      (errors_in (consume_group_once toy lost read).1)
      (amount_in length (consume_group_once toy lost read).1)
      0
      2
      lost.collector
      (consume_group_once toy lost read).0.collector
consume_group_once-Told_example = consume_group_once-Told toy lost read

consume_group_once-remembers_example :
    (is_consumer_group_ensured
        (consume_group_once toy lost read).0
        (trim_space " events")
        (trim_space "g")
      ≡ true)
    × (ensure_consumer_group toy
          (consume_group_once toy lost read).0
          (trim_space " events")
          (trim_space "g")
        ≡ ((consume_group_once toy lost read).0, none))
consume_group_once-remembers_example =
    consume_group_once-remembers toy lost read
      (record { stream = "events"; entry_id = "1-0"; fields = order.values } ∷ [])
      (unfold consume_group_once trim_space is_space error_text in refl)

-- A client that answers differently what is never sent.
abbrev odd : Redis ℕ
odd = record toy {
  xgroup_create =
      λ n stream group. if is_empty group then (n, none) else toy.xgroup_create n stream group;
  xread_group =
      λ n args. if is_empty args.consumer then (n, err redis_nil) else toy.xread_group n args;
  xack = λ n stream group ids. (n, ok 9);
}

odd-Agree : Agree ("events" ∷ []) toy odd
odd-Agree = record {
  on_create = λ w stream group p. rw p.group_named refl;
  on_read = λ w args p n lo hi. rw n refl;
}

abbrev allowing : Sidecar ℕ
allowing = record sidecar { cfg = record sidecar.cfg { consume_streams = "events" ∷ [] } }

consume_group_once-Agree_example :
    consume_group_once toy allowing read ≡ consume_group_once odd allowing read
consume_group_once-Agree_example = consume_group_once-Agree toy odd allowing read odd-Agree
