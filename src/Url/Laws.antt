-- ===== src/Url/Laws.antt =====
-- Which URLs are safe.
use secure_claw.Base.{
  String, ◌≡◌, refl, ap, ◌∙◌, Bool, true, false, not, ◌&&◌, ◌||◌, Option, none, some, List, [], ◌∷◌,
  any, ◌==◌, arith, ℕ, nat_eq, leb,
}
use Prim.Native.Char.{code}
use secure_claw.Url.Text.{is_hex, all_chars, is_ipv4_literal, is_ipv6_literal}
use secure_claw.Sanitizer.Service.{Outcome, returns, throws}
use secure_claw.Agent.Executor.{UrlCheck}
use secure_claw.Url.{
  ParsedUrl, UrlEnv, is_metadata, is_private_ip, is_local_name, host_of, needs_tls, in_domains,
  has_domains, check_parsed, check_url_safety, check_addresses, check_resolved, is_ip_literal,
  sync_check, resolve_host, check_url_safety_resolved,
}

module _ (env : UrlEnv) where
  -- a metadata service, or a private or loopback address
  abbrev pub is_inner : String → Bool
  is_inner addr = is_metadata addr || is_private_ip addr

  -- what the operator's lists let pass
  abbrev pub is_admitted : String → Bool
  is_admitted hostname =
      not (has_domains env env.blocked_domains && in_domains env env.blocked_domains hostname)
      && (not (has_domains env env.allowed_domains) || in_domains env env.allowed_domains hostname)

  -- whether a URL passes the checks without a lookup
  abbrev pub passes : ParsedUrl → Bool
  passes parsed =
      not ((parsed.protocol == "http:") && needs_tls env)
      && not (is_inner (host_of env parsed))
      && not (is_local_name (host_of env parsed))
      && is_admitted (host_of env parsed)

  -- Every address that a lookup gives is outside.
  abbrev pub all_outer : Outcome (List String) → Bool
  all_outer (throws message) = false
  all_outer (returns addresses) = not (any (λ a. is_inner (env.to_lower_case a)) addresses)

  abbrev pub is_outer_url : Option ParsedUrl → Bool
  is_outer_url none = false
  is_outer_url (some parsed) =
      passes parsed
      && (is_ip_literal env (host_of env parsed) || all_outer (env.lookup (host_of env parsed)))

  check_parsed-safe :
      (parsed : ParsedUrl) → (check_parsed env parsed (host_of env parsed)).safe ≡ passes parsed
  unfolding check_parsed
  check_parsed-safe parsed = ground arith

  check_addresses-safe :
      (hostname : String) (addresses : List String)
      → (check_addresses env hostname addresses).safe ≡ all_outer (returns addresses)
  unfolding check_addresses
  check_addresses-safe hostname [] = refl
  check_addresses-safe hostname (addr ∷ addrs) = ground (arith, check_addresses-safe hostname addrs)

  check_resolved-safe :
      (hostname : String) (o : Outcome (List String))
      → (check_resolved env hostname o).safe ≡ all_outer o
  unfolding check_resolved
  check_resolved-safe hostname (throws message) = refl
  check_resolved-safe hostname (returns addresses) = check_addresses-safe hostname addresses

  resolve_host-safe :
      (sync_result : UrlCheck) (parsed : ParsedUrl)
      → sync_result.safe ≡ passes parsed
      → (resolve_host env sync_result (some parsed)).safe ≡ is_outer_url (some parsed)
  unfolding resolve_host
  resolve_host-safe sync_result parsed same =
      ground
        (arith, same, check_resolved-safe (host_of env parsed) (env.lookup (host_of env parsed)))

  resolved-safe :
      (o : Option ParsedUrl) → (resolve_host env (sync_check env o) o).safe ≡ is_outer_url o
  unfolding resolve_host sync_check
  resolved-safe none = refl
  resolved-safe (some parsed) =
      resolve_host-safe (check_parsed env parsed (host_of env parsed)) parsed
        (check_parsed-safe parsed)

  -- A URL is safe exactly if it can be parsed, is not plain HTTP where TLS is required, its host is
  -- no metadata service, private address or local name, is not on the blocklist and is on the
  -- allowlist if there is one, and is an address or a name that resolves to addresses of which none
  -- is a metadata service or private. A name that cannot be resolved is not safe.
  pub check_url_safety_resolved-safe :
      (raw_url : String)
      → (check_url_safety_resolved env raw_url).safe ≡ is_outer_url (env.parse_url raw_url)
  unfolding check_url_safety_resolved check_url_safety
  check_url_safety_resolved-safe raw_url = resolved-safe (env.parse_url raw_url)

-- the environment with another resolver
abbrev pub resolving : (String → Outcome (List String)) → UrlEnv → UrlEnv
resolving lookup env = record env { lookup = lookup }

abbrev is_hex_digit : ℕ → Bool
is_hex_digit c = (leb 48 c && leb c 57) || (leb 97 c && leb c 102)

-- one or more digits or letters from a to f, and so neither a dot nor a colon
abbrev pub is_hex_name : String → Bool
is_hex_name s = not (s == "") && all_chars is_hex_digit s

hex_or_colon : (c : ℕ) → is_hex_digit c ≡ true → (is_hex c || nat_eq c 58) ≡ true
hex_or_colon c h = ground arith

all_chars-imp :
    (p q : ℕ → Bool) (s : String)
    → ((c : ℕ) → p c ≡ true → q c ≡ true)
    → all_chars p s ≡ true
    → all_chars q s ≡ true
unfolding all_chars
all_chars-imp p q String.[] f h = refl
all_chars-imp p q (String.◌∷◌ c s) f h = ground (arith, f (code c), all_chars-imp p q s f)

both_true : (a b : Bool) → a ≡ true → b ≡ true → (a && b) ≡ true
both_true a b h k = ground arith

hex_name_is_ipv6 : (s : String) → is_hex_name s ≡ true → is_ipv6_literal s ≡ true
unfolding is_ipv6_literal
hex_name_is_ipv6 s h =
    both_true (not (s == "")) _ (both_left (not (s == "")) (all_chars is_hex_digit s) h)
      (all_chars-imp is_hex_digit _ s hex_or_colon (both_right (not (s == "")) _ h))
  where
    both_left : (a b : Bool) → (a && b) ≡ true → a ≡ true
    both_left a b k = ground arith

    both_right : (a b : Bool) → (a && b) ≡ true → b ≡ true
    both_right a b k = ground arith

either_true : (a b : Bool) → b ≡ true → (a || b) ≡ true
either_true a b h = ground arith

hex_name_is_literal :
    (env : UrlEnv) (s : String) → is_hex_name s ≡ true → is_ip_literal env s ≡ true
unfolding is_ip_literal
hex_name_is_literal env s h = either_true (is_ipv4_literal s) _ (hex_name_is_ipv6 s h)

literal_decides : (a b c : Bool) → b ≡ true → (a && (b || c)) ≡ a
literal_decides a b c h = ground arith

-- A URL whose host is a name of hexadecimal digits only, such as `db`, is judged without a lookup:
-- it is safe exactly if it passes the checks of its scheme, its host and the operator's lists,
-- whatever addresses the host resolves to, be it a metadata service or a private address.
pub hex_name_is_not_resolved :
    (env : UrlEnv) (lookup : String → Outcome (List String)) (raw_url : String) (parsed : ParsedUrl)
    → env.parse_url raw_url ≡ some parsed
    → is_hex_name (host_of env parsed) ≡ true
    → (check_url_safety_resolved (resolving lookup env) raw_url).safe ≡ passes env parsed
unfolding host_of is_ip_literal
hex_name_is_not_resolved env lookup raw_url parsed found hex =
    let other = resolving lookup env in
    check_url_safety_resolved-safe other raw_url
    ∙ ap (is_outer_url other) found
    ∙ literal_decides (passes env parsed) (is_ip_literal env (host_of env parsed)) _
        (hex_name_is_literal env (host_of env parsed) hex)
