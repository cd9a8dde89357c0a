-- ===== src/Tests/Urls.antt =====
-- The URL check at concrete inputs.
use secure_claw.Base.{String, ◌≡◌, refl, true, false, Option, none, some, [], ◌∷◌}
use secure_claw.Base.Dict
use secure_claw.Base.Json.{Json}
use secure_claw.Sanitizer.Service.{sanitize_external_content}
use secure_claw.Session.Context.{create_session_context}
use secure_claw.Sanitizer.Service.{returns}
use secure_claw.Agent.Executor.{prepare_input, url_of}
use secure_claw.Agent.Executor.Single.{
  execute_single, check_then_run, run_checked, conclude, run_target, target,
}
use secure_claw.Base.Text.{is_blank}
use secure_claw.Url.{
  is_metadata, host_of, is_local_name, ParsedUrl, UrlEnv, check_url_safety_resolved, is_private_ip,
}
use secure_claw.Url.Text.{domains_of, all_chars}
use secure_claw.Url.Laws.{
  is_outer_url, check_url_safety_resolved-safe, resolving, passes, hex_name_is_not_resolved,
}
use secure_claw.Url.Runs.{with_url_check, http_request_runs_outside}
use secure_claw.Tests.Fixtures.{env, ctx, pending, service}

abbrev parser : String → String → Option ParsedUrl
parser host url = some (record { protocol = "https:"; hostname = host })

abbrev url_env : String → UrlEnv
url_env host = record {
  parse_url = parser host;
  to_lower_case = λ s. s;
  lookup = λ name. returns ("93.184.216.34" ∷ []);
  require_tls = none;
  blocked_domains = some " evil.example , other.example";
  allowed_domains = none;
}

the_private_addresses :
    (is_private_ip "10.1.2.3" ≡ true)
    × (is_private_ip "172.31.0.1" ≡ true)
    × (is_private_ip "172.32.0.1" ≡ false)
    × (is_private_ip "fd12:3456::1" ≡ true)
    × (is_private_ip "::ffff:7f00:1" ≡ true)
    × (is_private_ip "169.254.170.2" ≡ false)
    × (is_private_ip "::" ≡ false)
unfolding is_private_ip
the_private_addresses = (refl, refl, refl, refl, refl, refl, refl)

the_blocklist_is_split :
    domains_of (λ s. s) " evil.example , other.example" ≡ "evil.example" ∷ "other.example" ∷ []
unfolding domains_of
the_blocklist_is_split = refl

check_url_safety_resolved-safe_example :
    (check_url_safety_resolved (url_env "evil.example") "https://evil.example").safe ≡ false
unfolding is_metadata host_of is_private_ip is_local_name is_blank domains_of
check_url_safety_resolved-safe_example =
    check_url_safety_resolved-safe (url_env "evil.example") "https://evil.example"

hex_name_is_not_resolved_example :
    (check_url_safety_resolved
      (resolving (λ name. returns ("10.0.0.1" ∷ [])) (url_env "db"))
      "https://db").safe
    ≡ passes (url_env "db") (record { protocol = "https:"; hostname = "db" })
unfolding host_of all_chars
hex_name_is_not_resolved_example =
    hex_name_is_not_resolved (url_env "db") (λ name. returns ("10.0.0.1" ∷ [])) "https://db"
      (record { protocol = "https:"; hostname = "db" }) refl refl

-- the name is safe although its one address is private
private_host_passes :
    (check_url_safety_resolved
      (resolving (λ name. returns ("10.0.0.1" ∷ [])) (url_env "db"))
      "https://db").safe
    ≡ true
unfolding check_url_safety_resolved
private_host_passes = refl

http_request_runs_outside_example :
    (json : Json) × (env.codec.parse
        (prepare_input (with_url_check (url_env "example.com") env) (pending "c1" "http_request"))
      ≡ some json)
    × (is_outer_url
          (url_env "example.com")
          (parser "example.com" (url_of (with_url_check (url_env "example.com") env) json))
        ≡ true)
unfolding execute_single check_then_run check_url_safety_resolved run_checked conclude
    sanitize_external_content Dict.get create_session_context run_target target
http_request_runs_outside_example =
    http_request_runs_outside (url_env "example.com") env ctx (pending "c1" "http_request") service
      refl refl
