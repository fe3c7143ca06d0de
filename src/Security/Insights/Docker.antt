-- ===== src/Security/Insights/Docker.antt =====
-- AnalyzeDocker of internal/security/analyzer.go.
use pulseboard.Common.{
  ℕ, String, string_eq, Bool, not, ◌&&◌, ◌||◌, Option, none, some, List, [], ◌∷◌, ◌++◌, ◌==◌, ◌≡◌,
  refl, ◌∙◌, Bool-cases, inl, inr, arith, any, if◌then◌else◌,
}
use pulseboard.Common.Tests.{nat_eq}
use pulseboard.Common.Assoc.{lookup}
use pulseboard.Security.Insights.{
  severity_critical, severity_high, port_exposed_all_interfaces, database_port_exposed,
  privileged_container, host_network_mode, number, text, Insight, highest_from, highest_severity,
  is_empty,
}

pub record PortBinding : Type 0 where
  pub host_ip : String
  pub port : ℕ
  pub protocol : String

pub record DockerSecurityConfig : Type 0 where
  pub privileged : Bool
  pub network_mode : String
  pub bindings : List PortBinding

abbrev pub known_database_ports : List (ℕ × String)
known_database_ports =
    (3306, "MySQL/MariaDB") ∷ (5432, "PostgreSQL") ∷ (6379, "Redis") ∷ (27017, "MongoDB") ∷ []

abbrev pub is_exposed_on_all_interfaces : String → Bool
is_exposed_on_all_interfaces ip = ip == "" || (ip == "0.0.0.0" || ip == "::")

abbrev pub is_host_network : String → Bool
is_host_network mode = mode == "host"

-- The insight on a port, if its number is a known database's or not.
abbrev pub port_insight : String → String → ℕ → PortBinding → Option String → Insight
port_insight id name now b (some db_type) = record {
  insight_type = database_port_exposed;
  severity = severity_critical;
  container_id = id;
  container_name = name;
  details =
      ("port", number b.port)
      ∷ ("protocol", text b.protocol)
      ∷ ("database_type", text db_type)
      ∷ [];
  detected_at = now;
}
port_insight id name now b none = record {
  insight_type = port_exposed_all_interfaces;
  severity = severity_critical;
  container_id = id;
  container_name = name;
  details = ("port", number b.port) ∷ ("protocol", text b.protocol) ∷ [];
  detected_at = now;
}

unfoldable pub analyze_port_bindings : String → String → List PortBinding → ℕ → List Insight
analyze_port_bindings id name [] now = []
analyze_port_bindings id name (b ∷ bindings) now =
    let rest = analyze_port_bindings id name bindings now in
    if not (is_exposed_on_all_interfaces b.host_ip)
    then rest
    else port_insight id name now b (lookup b.port known_database_ports) ∷ rest

abbrev pub host_insight : String → String → String → ℕ → Insight
host_insight id name mode now = record {
  insight_type = host_network_mode;
  severity = severity_high;
  container_id = id;
  container_name = name;
  details = ("network_mode", text mode) ∷ [];
  detected_at = now;
}

abbrev pub privileged_insight : String → String → ℕ → Insight
privileged_insight id name now = record {
  insight_type = privileged_container;
  severity = severity_critical;
  container_id = id;
  container_name = name;
  details = [];
  detected_at = now;
}

unfoldable pub analyze_docker : String → String → DockerSecurityConfig → ℕ → List Insight
analyze_docker id name cfg now =
    (if is_host_network cfg.network_mode
      then host_insight id name cfg.network_mode now ∷ []
      else analyze_port_bindings id name cfg.bindings now)
    ++ (if cfg.privileged then privileged_insight id name now ∷ [] else [])

-- What is dangerous, without the insights.
abbrev has_exposed_address : PortBinding → Bool
has_exposed_address b = is_exposed_on_all_interfaces b.host_ip

abbrev pub is_exposed : DockerSecurityConfig → Bool
is_exposed cfg = not (is_host_network cfg.network_mode) && any has_exposed_address cfg.bindings

abbrev pub is_dangerous : DockerSecurityConfig → Bool
is_dangerous cfg = is_host_network cfg.network_mode || (is_exposed cfg || cfg.privileged)

-- Nothing is above critical.
highest_from-critical :
    (insights : List Insight) → highest_from severity_critical insights ≡ severity_critical
unfolding highest_from
highest_from-critical [] = refl
highest_from-critical (i ∷ insights) = ground (arith, highest_from-critical insights)

highest_from-port :
    (id name : String) (now : ℕ) (b : PortBinding) (db : Option String) (rest : List Insight)
    → highest_from "" (port_insight id name now b db ∷ rest) ≡ severity_critical
unfolding highest_from
highest_from-port id name now b none rest = highest_from-critical rest
highest_from-port id name now b (some db) rest = highest_from-critical rest

analyze_port_bindings-highest :
    (id name : String) (bindings : List PortBinding) (now : ℕ) (tail : List Insight)
    → highest_from "" (analyze_port_bindings id name bindings now ++ tail)
      ≡ (if any has_exposed_address bindings then severity_critical else highest_from "" tail)
unfolding analyze_port_bindings
analyze_port_bindings-highest id name [] now tail = refl
analyze_port_bindings-highest id name (b ∷ bindings) now tail =
    elim (Bool-cases (has_exposed_address b)) [
      | inl t ↦ rw t (highest_from-port id name now b (lookup b.port known_database_ports) _)
      | inr f ↦ rw f (analyze_port_bindings-highest id name bindings now tail)
    ]

analyze_port_bindings-is_empty :
    (id name : String) (bindings : List PortBinding) (now : ℕ) (tail : List Insight)
    → is_empty (analyze_port_bindings id name bindings now ++ tail)
      ≡ (not (any has_exposed_address bindings) && is_empty tail)
unfolding analyze_port_bindings
analyze_port_bindings-is_empty id name [] now tail = refl
analyze_port_bindings-is_empty id name (b ∷ bindings) now tail =
    elim (Bool-cases (has_exposed_address b)) [
      | inl t ↦ rw t refl
      | inr f ↦ rw f (analyze_port_bindings-is_empty id name bindings now tail)
    ]

-- The insights on a container are as severe as its settings: critical if it is privileged or, off the
-- host's network, has a port bound on all interfaces; else high on the host's network; and there are
-- no insights exactly where none of these holds.
pub analyze_docker-highest :
    (id name : String) (cfg : DockerSecurityConfig) (now : ℕ)
    → (highest_severity (analyze_docker id name cfg now) ≡ (
        if cfg.privileged || is_exposed cfg
        then severity_critical
        else (if is_host_network cfg.network_mode then severity_high else "")))
      × (is_empty (analyze_docker id name cfg now) ≡ not (is_dangerous cfg))
unfolding analyze_docker highest_from
analyze_docker-highest id name cfg now = elim (Bool-cases (is_host_network cfg.network_mode)) [
  | inl t ↦ elim (Bool-cases cfg.privileged) [
    | inl p ↦ rw (t, p) (refl, refl)
    | inr n ↦ rw (t, n) (refl, refl)
  ]
  | inr f ↦ elim (Bool-cases cfg.privileged) [
    | inl p ↦
        let last = privileged_insight id name now ∷ [] in
        rw (f, p)
          (
            analyze_port_bindings-highest id name cfg.bindings now last ∙ ground arith,
            analyze_port_bindings-is_empty id name cfg.bindings now last ∙ ground arith,
          )
    | inr n ↦
        rw (f, n)
          (
            analyze_port_bindings-highest id name cfg.bindings now [] ∙ ground arith,
            analyze_port_bindings-is_empty id name cfg.bindings now [] ∙ ground arith,
          )
  ]
]
