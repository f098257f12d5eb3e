-- ===== src/Config.antt =====
-- The constants of sim/config.py that the modelled code reads.
use sec_oc.Base.{ℕ, String, List, [], ◌∷◌}

abbrev pub supported_algorithms : List String
supported_algorithms = "HMAC-SHA256" ∷ "HMAC-SHA512" ∷ []

abbrev pub default_freshness_length : ℕ
default_freshness_length = 2

abbrev pub default_authenticator_length : ℕ
default_authenticator_length = 8

abbrev pub max_auth_failures : ℕ
max_auth_failures = 5

-- `MAC_WCET_BUDGET_MS`, in microseconds.
abbrev pub mac_wcet_budget_us : ℕ
mac_wcet_budget_us = 5000

abbrev pub can_max_payload_bytes : ℕ
can_max_payload_bytes = 8

abbrev pub can_fd_max_payload_bytes : ℕ
can_fd_max_payload_bytes = 64

abbrev pub max_bus_messages_per_window : ℕ
max_bus_messages_per_window = 1000
