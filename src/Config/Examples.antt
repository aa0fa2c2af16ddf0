-- ===== src/Config/Examples.antt =====
-- Runs of the configuration, and its theorems at concrete inputs.
use Prim.Native.String.{String, ◌++◌ as append_text}
use text.Mathlib.Text.{◌==◌}
use deepiri_sugar_glider.Base.{ok, [], ◌≡◌, refl, if◌then◌else◌}
use deepiri_sugar_glider.Env.{
  Env, get_env_dual, get_env_int64_dual, get_env_bool_dual, split_csv, millisecond,
}
use deepiri_sugar_glider.Base.Text.{is_empty, trim_space, is_space}
use deepiri_sugar_glider.Base.Parse.{to_lower}
use deepiri_sugar_glider.Config.{load, checks, check_all, with_policies, read_config}
use deepiri_sugar_glider.Config.Dlq.{Policies, parse_dlq_stream_policies}
use deepiri_sugar_glider.Config.Dlq.{lookup, resolve_dlq_policy}
use deepiri_sugar_glider.Config.Dlq.Resolve.{IsGood, resolve_dlq_policy-cases}
use deepiri_sugar_glider.Base.{none, some, ◌∷◌, ◌⊎◌, ◌↔◌, false}
use deepiri_sugar_glider.Config.Listen.{parse_listen_address, parse_listen_address-exact}
use deepiri_sugar_glider.Base.Int.{pos}
use deepiri_sugar_glider.Config.Bounds.{IsValid, load-IsValid, load_accepts, policies_of, settings}

abbrev env : Env
env k = if k == "SIDECAR_REDIS_URL" then "redis://r:6379" else ""

no_policies : policies_of env ≡ ok []
unfolding parse_dlq_stream_policies get_env_dual trim_space is_space
no_policies = refl

loads : load env ≡ ok (settings env [])
unfolding load read_config checks check_all with_policies parse_dlq_stream_policies get_env_dual
    get_env_int64_dual get_env_bool_dual split_csv millisecond trim_space is_space to_lower
loads = refl

is_valid : IsValid (settings env [])
is_valid = (load-IsValid env (settings env []) loads).3

load-IsValid_example :
    (policies : Policies) × (policies_of env ≡ ok policies)
    × (settings env [] ≡ settings env policies)
    × IsValid (settings env [])
load-IsValid_example = load-IsValid env (settings env []) loads

load_accepts_example : load env ≡ ok (settings env [])
load_accepts_example = load_accepts env [] no_policies is_valid

-- The policies of one stream.
abbrev orders_policies : Policies
orders_policies =
    ("orders", record { max_retries = pos 5; min_idle = pos 1000000; dlq_stream = "orders:dlq" })
    ∷ []

orders_parse : parse_dlq_stream_policies " orders:5:1" ≡ ok orders_policies
unfolding parse_dlq_stream_policies split_csv millisecond trim_space is_space
orders_parse = refl

resolve_dlq_policy-cases_example :
    ((lookup "orders" orders_policies
        ≡ some (resolve_dlq_policy orders_policies (pos 3) (pos 0) "orders"))
      × IsGood "orders" (resolve_dlq_policy orders_policies (pos 3) (pos 0) "orders"))
    ⊎ ((lookup "orders" orders_policies ≡ none)
        × (resolve_dlq_policy orders_policies (pos 3) (pos 0) "orders" ≡ record {
          max_retries = pos 3;
          min_idle = pos 0;
          dlq_stream = append_text "orders" ":dlq";
        }))
resolve_dlq_policy-cases_example =
    resolve_dlq_policy-cases " orders:5:1" orders_policies (pos 3) (pos 0) "orders" orders_parse

parse_listen_address-exact_example :
    (parse_listen_address "unix:///run/s.sock" ≡ ok ("unix", "/run/s.sock")) ↔ (
      ("unix:///run/s.sock" ≡ append_text "unix" (append_text "://" "/run/s.sock"))
      × (((◌≡◌ {A = String} "unix" "tcp") ⊎ (◌≡◌ {A = String} "unix" "unix"))
          × (is_empty "/run/s.sock" ≡ false)))
parse_listen_address-exact_example =
    parse_listen_address-exact "unix:///run/s.sock" "unix" "/run/s.sock"
