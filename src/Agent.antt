-- ===== src/Agent.antt =====
-- The coding-agent backends and how one is selected (crates/runner-core/src/agent.rs).
use flexnetos_runner.Shared.{
  not, Option, none, some, List, [], ◌∷◌, ◌++◌, map, if◌then◌else◌, filter_some, Result, ok, err,
  is_empty, Text, codes, trim, to_ascii_lowercase, join, one_of,
}

pub data Agent : Type 0 where
  claude codex kimi : Agent

pub data ApiStyle : Type 0 where
  anthropic_native anthropic_compatible open_ai_codex : ApiStyle

abbrev pub all_agents : List Agent
all_agents = claude ∷ codex ∷ kimi ∷ []

unfoldable pub as_str : Agent → Text
as_str claude = codes "claude"
as_str codex = codes "codex"
as_str kimi = codes "kimi"

unfoldable pub program : Agent → Text
program codex = codes "codex"
program _ = codes "claude"

unfoldable pub api_style : Agent → ApiStyle
api_style claude = anthropic_native
api_style kimi = anthropic_compatible
api_style codex = open_ai_codex

base_url_env_of : ApiStyle → Option Text
base_url_env_of anthropic_compatible = some (codes "ANTHROPIC_BASE_URL")
base_url_env_of _ = none

unfoldable pub base_url_env : Agent → Option Text
unfolding api_style base_url_env_of
base_url_env a = base_url_env_of (api_style a)

pub record AgentInvocation : Type 0 where
  pub program : Text
  pub subcommand : List Text
  pub headless_flags : List Text
  pub structured_output : List Text
  pub model : Option Text
  pub env : List (Text × Text)

unfoldable pub invocation : Agent → AgentInvocation
invocation claude = record {
  program = codes "claude";
  subcommand = codes "-p" ∷ [];
  headless_flags = codes "--bare" ∷ codes "--permission-mode" ∷ codes "dontAsk" ∷ [];
  structured_output = codes "--output-format" ∷ codes "json" ∷ [];
  model = some (codes "claude-opus-4-8");
  env = [];
}
invocation codex = record {
  program = codes "codex";
  subcommand = codes "exec" ∷ [];
  headless_flags =
      codes "--sandbox"
      ∷ codes "workspace-write"
      ∷ codes "--ask-for-approval"
      ∷ codes "never"
      ∷ codes "--ignore-user-config"
      ∷ [];
  structured_output = codes "--json" ∷ [];
  model = none;
  env = [];
}
invocation kimi = record {
  program = codes "claude";
  subcommand = codes "-p" ∷ [];
  headless_flags = codes "--bare" ∷ codes "--permission-mode" ∷ codes "dontAsk" ∷ [];
  structured_output = codes "--output-format" ∷ codes "json" ∷ [];
  model = none;
  env =
      (codes "ANTHROPIC_BASE_URL", codes "https://api.moonshot.ai/anthropic")
      ∷ (codes "ANTHROPIC_MODEL", codes "kimi-k2.7-code")
      ∷ [];
}

parse_key : Text → Result Agent Text
parse_key s =
    if one_of s (codes "claude" ∷ codes "claude-code" ∷ codes "anthropic" ∷ codes "" ∷ [])
    then ok claude
    else if one_of s (codes "codex" ∷ codes "openai" ∷ codes "openai-codex" ∷ [])
    then ok codex
    else if one_of s (codes "kimi" ∷ codes "kimi-k2" ∷ codes "moonshot" ∷ [])
    then ok kimi
    else err (
        codes "unknown agent '"
        ++ s
        ++ codes "' (expected one of: "
        ++ join (codes ", ") (map as_str all_agents)
        ++ codes ")")

-- `impl FromStr for Agent`
unfoldable pub from_str : Text → Result Agent Text
unfolding parse_key
from_str s = parse_key (to_ascii_lowercase (trim s))

pub data AgentSelectionSource : Type 0 where
  explicit weave env built_in_default : AgentSelectionSource

unfoldable pub policy_owner : AgentSelectionSource → Text
policy_owner weave = codes "weave"
policy_owner explicit = codes "caller"
policy_owner env = codes "runner-env"
policy_owner built_in_default = codes "runner-compat"

pub record AgentSelection : Type 0 where
  pub agent : Agent
  pub source : AgentSelectionSource

-- `raw.parse()?` with the source of the text
abbrev select_parsed : AgentSelectionSource → Result Agent Text → Result AgentSelection Text
select_parsed source (ok a) = ok (record { agent = a; source = source })
select_parsed source (err e) = err e

-- `.map(str::trim).filter(|s| !s.is_empty())`
abbrev supplied : Option Text → Option Text
supplied none = none
supplied (some s) = filter_some (λ t. not (is_empty t)) (some (trim s))

resolve_env : Option Text → Result AgentSelection Text
resolve_env none = ok (record { agent = claude; source = built_in_default })
resolve_env (some raw) = select_parsed env (from_str raw)

resolve_weave : Option Text → Option Text → Result AgentSelection Text
resolve_weave (some raw) env_agent = select_parsed weave (from_str raw)
resolve_weave none env_agent = resolve_env env_agent

unfoldable pub resolve : Option Agent → Option Text → Option Text → Result AgentSelection Text
unfolding resolve_weave resolve_env
resolve (some a) weave_agent env_agent = ok (record { agent = a; source = explicit })
resolve none weave_agent env_agent = resolve_weave (supplied weave_agent) (supplied env_agent)
