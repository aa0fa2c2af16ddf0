-- ===== src/Pipeline/Client/Examples.antt =====
-- A caller of the pipeline at concrete inputs, and the publish path with the pipeline as its client.
use deepiri_sugar_glider.Base.{ℕ, ◌≡◌, refl, true, false, some, [], ◌∷◌, ok}
use deepiri_sugar_glider.Base.Text.{trim_space, is_space}
use deepiri_sugar_glider.Wal.{no_faults}
use deepiri_sugar_glider.Wal.Examples.{request, toy_json, three_lines}
use deepiri_sugar_glider.Service.{Outside, Sidecar}
use deepiri_sugar_glider.Service.Examples.{sidecar}
use deepiri_sugar_glider.Service.Publish.{publish_internal}
use deepiri_sugar_glider.Service.Publish.Counts.{Accounted, publish_internal-Accounted}
use deepiri_sugar_glider.Pipeline.{ctx_case, send_case, enqueue}
use deepiri_sugar_glider.Pipeline.Examples.{server, cfg, job, fresh}
use deepiri_sugar_glider.Pipeline.Client.{takes, ticks, result_case, Waited, Plan, await}
use deepiri_sugar_glider.Pipeline.Client.Interface.{Client, pipeline_client}
use deepiri_sugar_glider.Pipeline.Client.Returns.{await-returns}

await-returns_example :
    (w : Waited) × ((await server cfg
        ((result_case, takes) ∷ [])
        (enqueue server cfg send_case fresh (job 1)).0
        (job 1)).1
      ≡ some w)
await-returns_example =
    await-returns server cfg send_case fresh (enqueue server cfg send_case fresh (job 1)).0 (job 1)
      ((result_case, takes) ∷ []) (unfold enqueue in refl)

-- Each caller waits while the goroutine takes its job.
abbrev plans : ℕ → Plan ℕ
plans id = record { before = ticks ∷ []; pick = ctx_case; waits = (result_case, takes) ∷ [] }

-- The sidecar whose publish path goes through the pipeline.
abbrev outside : Outside (Client ℕ)
outside = record {
  publish = λ w req. (w, ok "direct");
  pipeline = some (pipeline_client server cfg plans);
  json = toy_json "line";
  now = λ w. "t";
  faults = λ w. no_faults;
  caller_done = λ w. false;
}

abbrev piped : Sidecar (Client ℕ)
piped = record {
  cfg = sidecar.cfg;
  wal = sidecar.wal;
  fs = three_lines;
  replaying = true;
  consumer_groups_ensured = [];
  collector = sidecar.collector;
  world = record { state = fresh; next = 7 };
}

publish_internal-Accounted_example :
    Accounted piped.collector
      (publish_internal outside piped (request "x")).0.collector
      (publish_internal outside piped (request "x")).1
publish_internal-Accounted_example = publish_internal-Accounted outside piped (request "x")

piped_runs : (publish_internal outside piped (request "x")).1.entry_id ≡ "1-0"
unfolding publish_internal pipeline_client trim_space is_space
piped_runs = refl
