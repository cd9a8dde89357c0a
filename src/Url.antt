-- ===== src/Url.antt =====
-- packages/input-sanitizer/src/url/url-safety.ts: the check of the URL of an outbound request. The URL
-- parser, the lookup of names, `toLowerCase` and the environment are parameters. The reasons of a
-- refusal are those of the source; its category is a text.
pub mod Text
pub mod Laws
pub mod Runs
use secure_claw.Base.{
  String, ◌<>◌, Bool, true, false, not, ◌&&◌, ◌||◌, Option, none, some, List, [], ◌∷◌, any, ◌==◌,
  if◌then◌else◌, or_else,
}
use secure_claw.Base.Text.{is_blank}
use secure_claw.Sanitizer.Service.{Outcome, returns, throws}
use secure_claw.Agent.Executor.{UrlCheck}
use secure_claw.Url.Text.{
  ends_with, strip_brackets, is_private_ipv4, is_private_ipv6, is_ipv4_literal, is_ipv6_literal,
  domains_of,
}

-- what is read of `new URL(rawUrl)`
pub record ParsedUrl : Type 0 where
  pub protocol : String
  pub hostname : String

pub record UrlEnv : Type 0 where
  -- `none` is a thrown TypeError
  pub parse_url : String → Option ParsedUrl
  pub to_lower_case : String → String
  -- `lookup(hostname, { all: true })`, which is also rejected after five seconds
  pub lookup : String → Outcome (List String)
  -- `TESSERA_REQUIRE_TLS`, `HTTP_BLOCKED_DOMAINS` and `HTTP_ALLOWED_DOMAINS`
  pub require_tls : Option String
  pub blocked_domains : Option String
  pub allowed_domains : Option String

abbrev metadata_hostnames : List String
metadata_hostnames = "169.254.169.254" ∷ "metadata.google.internal" ∷ "metadata.azure.com" ∷ []

unfoldable pub is_metadata : String → Bool
is_metadata hostname = any (λ h. h == hostname) metadata_hostnames

unfoldable pub is_private_ip : String → Bool
unfolding is_private_ipv4 is_private_ipv6
is_private_ip addr = is_private_ipv4 addr || is_private_ipv6 addr

unfoldable pub is_local_name : String → Bool
unfolding ends_with
is_local_name hostname =
    (hostname == "localhost") || ends_with ".local" hostname || ends_with ".internal" hostname

abbrev blocked : String → String → UrlCheck
blocked reason category = record { safe = false; reason = some reason; category = some category }

abbrev safe_url : UrlCheck
safe_url = record { safe = true; reason = none; category = none }

module _ (env : UrlEnv) where
  unfoldable pub host_of : ParsedUrl → String
  unfolding strip_brackets
  host_of parsed = strip_brackets (env.to_lower_case parsed.hostname)

  abbrev pub needs_tls : Bool
  needs_tls = not (or_else env.require_tls "" == "false")

  -- the domains of a variable, which counts as empty if it is not set
  abbrev pub in_domains : Option String → String → Bool
  in_domains variable hostname =
      any (λ d. d == hostname) (domains_of env.to_lower_case (or_else variable ""))

  abbrev pub has_domains : Option String → Bool
  has_domains variable = not (is_blank (or_else variable ""))

  -- the checks 2 to 7
  unfoldable pub check_parsed : ParsedUrl → String → UrlCheck
  unfolding is_metadata is_private_ip is_local_name domains_of is_blank
  check_parsed parsed hostname =
      if (parsed.protocol == "http:") && needs_tls
      then blocked
          "Plain HTTP is not allowed. Use HTTPS or set TESSERA_REQUIRE_TLS=false to permit."
          "plain_http"
      else if is_metadata hostname
      then blocked
          ("Access to cloud metadata endpoint '" <> (hostname <> "' is blocked (SSRF prevention)"))
          "metadata_endpoint"
      else if is_private_ip hostname
      then blocked
          ("Access to private or loopback address '"
            <> (hostname <> "' is blocked (SSRF prevention)"))
          "private_ip"
      else if is_local_name hostname
      then blocked ("Access to local hostname '" <> (hostname <> "' is blocked (SSRF prevention)"))
          "localhost"
      else if has_domains env.blocked_domains && in_domains env.blocked_domains hostname
      then blocked ("Domain '" <> (hostname <> "' is in the HTTP_BLOCKED_DOMAINS blocklist"))
          "blocked_domain"
      else if has_domains env.allowed_domains && not (in_domains env.allowed_domains hostname)
      then blocked ("Domain '" <> (hostname <> "' is not in the HTTP_ALLOWED_DOMAINS allowlist"))
          "not_in_allowlist"
      else safe_url

  -- `checkUrlSafety`, from what the parser gives
  unfoldable pub sync_check : Option ParsedUrl → UrlCheck
  unfolding check_parsed host_of
  sync_check none = blocked "URL is invalid or cannot be parsed" "invalid_url"
  sync_check (some parsed) = check_parsed parsed (host_of parsed)

  -- `checkUrlSafety`
  unfoldable pub check_url_safety : String → UrlCheck
  unfolding sync_check
  check_url_safety raw_url = sync_check (env.parse_url raw_url)

  -- the loop over the addresses
  unfoldable pub check_addresses : String → List String → UrlCheck
  unfolding is_metadata is_private_ip
  check_addresses hostname [] = safe_url
  check_addresses hostname (addr ∷ addrs) =
      let rest = check_addresses hostname addrs in
      let normalized = env.to_lower_case addr in
      if is_metadata normalized
      then blocked
          ("'"
            <> (hostname
                <> ("' resolved to cloud metadata IP '"
                    <> (addr <> "' — DNS rebinding attack blocked"))))
          "metadata_endpoint"
      else if is_private_ip normalized
      then blocked
          ("'"
            <> (hostname
                <> ("' resolved to private/loopback IP '"
                    <> (addr <> "' — DNS rebinding attack blocked"))))
          "private_ip"
      else rest

  unfoldable pub check_resolved : String → Outcome (List String) → UrlCheck
  unfolding check_addresses
  check_resolved hostname (throws message) =
      blocked
        ("DNS resolution failed for '" <> (hostname <> "' — request blocked (SSRF prevention)"))
        "private_ip"
  check_resolved hostname (returns addresses) = check_addresses hostname addresses

  unfoldable pub is_ip_literal : String → Bool
  unfolding is_ipv4_literal is_ipv6_literal
  is_ip_literal hostname = is_ipv4_literal hostname || is_ipv6_literal hostname

  -- the rest of `checkUrlSafetyResolved`, after the check without a lookup
  unfoldable pub resolve_host : UrlCheck → Option ParsedUrl → UrlCheck
  unfolding host_of is_ip_literal check_resolved
  resolve_host sync_result none = sync_result
  resolve_host sync_result (some parsed) =
      if not sync_result.safe
      then sync_result
      else if is_ip_literal (host_of parsed)
      then safe_url
      else check_resolved (host_of parsed) (env.lookup (host_of parsed))

  -- `checkUrlSafetyResolved`; a URL that cannot be parsed has not passed the first check
  unfoldable pub check_url_safety_resolved : String → UrlCheck
  unfolding check_url_safety resolve_host
  check_url_safety_resolved raw_url =
      resolve_host (check_url_safety raw_url) (env.parse_url raw_url)
