-- ===== src/Service/Ready/Examples.antt =====
-- The theorem on the readiness probe at a concrete input.
use deepiri_sugar_glider.Base.{ℕ, ◌≡◌, ◌↔◌, none, ok}
use deepiri_sugar_glider.Base.Int.{pos}
use deepiri_sugar_glider.Wal.{bytes, no_faults}
use deepiri_sugar_glider.Service.Examples.{sidecar, outside}
use deepiri_sugar_glider.Consume.Examples.{toy}
use deepiri_sugar_glider.Service.Ready.{readyz, readyz-ready, IsBelow, publish_pipeline_queue_depth}

readyz-ready_example : ((readyz (outside (ok "1-0")) none toy sidecar).1.0 ≡ 200) ↔ (
    ((toy.ping 0).1 ≡ none)
    × ((n : ℕ) × (bytes sidecar.wal sidecar.fs no_faults ≡ ok n))
    × IsBelow (pos 0) (pos 3)
    × IsBelow (pos 0) (pos (publish_pipeline_queue_depth (outside (ok "1-0")) sidecar)))
readyz-ready_example = readyz-ready (outside (ok "1-0")) none toy sidecar
