-- ===== src/Tests/Config.antt =====
-- The configuration on samples (internal/config/config.go).
use tg_proxy_relay.Prelude.{
  ◌≡◌, ◌≤◌, ◌↔◌, refl, true, false, [], ◌∷◌, ◌++◌, Bytes, length, none, some, if◌then◌else◌, nat_eq,
  contains, bytes_eq,
}
use tg_proxy_relay.Prelude.Maps.{lookup}
use tg_proxy_relay.Prelude.Text.{codes, trim_space}
use tg_proxy_relay.Config.Tokens.{validate_tokens}
use tg_proxy_relay.Config.Validation.{IsAccepted, validate_tokens_iff}
use tg_proxy_relay.Config.Net.{Net, v4, v6, trim_brackets}
use tg_proxy_relay.Config.Endpoints.{
  TelegramEndpoint, TelegramConfig, addresses_for_route, text_at, endpoints_at, by_roles,
  append_role, role_of, normalize_telegram_address,
}
use tg_proxy_relay.Config.Order.{
  first_each, first_or, with_roles, roles_for, addresses_for_route-first_or,
}
use tg_proxy_relay.Tests.Sample.{sample_go, sample_token}

validate_tokens_iff_example :
    (validate_tokens sample_go (sample_token ∷ []) 1 ≡ none)
    ↔ ((length (sample_token ∷ []) ≤ 1) × IsAccepted sample_go (sample_token ∷ []))
validate_tokens_iff_example = validate_tokens_iff sample_go (sample_token ∷ []) 1

-- Every text is an address.
abbrev sample_net : Net
sample_net = record {
  parse_ip = λ s. some (v6 s);
  ip_string = λ ip. elim ip [ v6 s ↦ s | v4 a b c d ↦ [] ];
  split_host_port = λ s. none;
  join_host_port = λ host port. (host ++ codes ":" ++ port);
}

abbrev endpoint_of : Bytes → Bytes → TelegramEndpoint
endpoint_of address role = record {
  address = address;
  role = role;
  static = false;
  this_port_only = false;
  tcpo_only = false;
  secret = [];
}

abbrev sample_config : TelegramConfig
sample_config = record {
  dc_map = (2, codes "b") ∷ [];
  test_dc_map = [];
  dc_options = (2, endpoint_of (codes "a") [] ∷ endpoint_of (codes "m") (codes "media") ∷ []) ∷ [];
  test_dc_options = [];
}

regular_only :
    addresses_for_route sample_net sample_go sample_config 2 false false ≡ codes "a:443" ∷ []
unfolding addresses_for_route lookup by_roles append_role role_of normalize_telegram_address
    trim_space trim_brackets contains
regular_only = refl

addresses_for_route-first_or_example :
    addresses_for_route sample_net sample_go sample_config 2 false true
    ≡ first_or
        (normalize_telegram_address sample_net
          (text_at (lookup 2 (if false then sample_config.test_dc_map else sample_config.dc_map))))
        (first_each [] (
          with_roles sample_net sample_go (roles_for true) (
            endpoints_at (
              lookup 2
                (if false then sample_config.test_dc_options else sample_config.dc_options)))))
addresses_for_route-first_or_example =
    addresses_for_route-first_or sample_net sample_go sample_config 2 false true
