-- ===== src/ForgeLoop/Invocation.antt =====
-- How codex is called: codex_auth_readiness, codex_program and codex_invocation of
-- crates/runner-cli/src/forge_loop.rs.
use flexnetos_runner.Shared.{
  Bool, true, false, not, Option, List, [], ◌∷◌, ◌++◌, ◌==◌, if◌then◌else◌, is_empty, map,
  unwrap_or, filter_some, Text, codes, trim,
}

-- The process's environment and the paths that exist.
pub record Environment : Type 0 where
  pub var : Text → Option Text
  pub exists : Text → Bool

-- The variable, if it is more than white space.
unfoldable pub set_or : Environment → Text → Text → Text
set_or env name default =
    unwrap_or (filter_some (λ v. not (is_empty (trim v))) (env.var name)) default

pub record CodexAuthReadiness : Type 0 where
  pub auth_mode : Text
  pub codex_home : Text
  pub auth_json : Text
  pub auth_json_present : Bool
  pub login_status_checked : Bool
  pub login_status_command : Text
  pub verification_commands : List Text

ends_in_slash : Text → Bool
ends_in_slash [] = false
ends_in_slash (c ∷ []) = c == 47
ends_in_slash (c ∷ d ∷ s) = ends_in_slash (d ∷ s)

-- `Path::new(dir).join(name)` of a name without a slash, on Unix
in_dir : Text → Text → Text
unfolding ends_in_slash
in_dir dir name = if ends_in_slash dir then dir ++ name else dir ++ codes "/" ++ name

abbrev pub default_codex_home : Text
default_codex_home = codes "/home/flexnetos/meta/var/lib/codex"

unfoldable pub codex_home_of : Environment → Text
codex_home_of env = set_or env (codes "CODEX_HOME") default_codex_home

unfoldable pub codex_auth_readiness : Environment → CodexAuthReadiness
unfolding in_dir
codex_auth_readiness env =
    let home = codex_home_of env in
    let path = in_dir home (codes "auth.json") in
    let shown = map (λ c. if c == 92 then 47 else c) path in
    record {
      auth_mode = codes "local_chatgpt";
      codex_home = home;
      auth_json = shown;
      auth_json_present = env.exists path;
      login_status_checked = true;
      login_status_command = codes "rtk codex login status";
      verification_commands =
          codes "rtk codex login status" ∷ (codes "rtk proxy -- test -f " ++ shown) ∷ [];
    }

unfoldable pub codex_program : Environment → Text
codex_program env = set_or env (codes "FXRUN_CODEX") (
    if env.exists (codes "/home/flexnetos/.nix-profile/bin/codex")
    then codes "/home/flexnetos/.nix-profile/bin/codex"
    else codes "codex")

pub record CodexInvocation : Type 0 where
  pub program : Text
  pub env : List (Text × Text)
  pub args : List Text

unfoldable pub codex_invocation : Environment → Text → CodexInvocation
codex_invocation env prompt =
    let program = codex_program env in
    let config = codes "--config" in
    record {
      program = program;
      env = (codes "CODEX_HOME", codex_home_of env) ∷ (codes "FXRUN_CODEX", program) ∷ [];
      args =
          codes "exec"
          ∷ codes "--json"
          ∷ codes "--ignore-user-config"
          ∷ config
          ∷ codes "default_permissions=\"forge-loop-workspace\""
          ∷ config
          ∷ codes "approval_policy=\"on-request\""
          ∷ config
          ∷ codes "features.auto_compaction=true"
          ∷ config
          ∷ codes "model_auto_compact_token_limit=3000000"
          ∷ config
          ∷ codes "model_auto_compact_token_limit_scope=\"total\""
          ∷ config
          ∷ codes "tool_output_token_limit=12000"
          ∷ config
          ∷ codes "experimental_compact_prompt_file=\".codex/prompts/compact-forge-loop.md\""
          ∷ codes "--output-schema"
          ∷ codes ".github/codex/schemas/forge-loop-output.schema.json"
          ∷ prompt
          ∷ [];
    }
