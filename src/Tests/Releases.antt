-- ===== src/Tests/Releases.antt =====
-- Tests of the release commands on a host whose script stands in /w.
use flexnetos_runner.Shared.{
  if◌then◌else◌, true, ◌||◌, Option, none, some, [], ◌∷◌, ◌≡◌, refl, ok, err, Text, codes, text_eq,
  join, split, split_from,
}
use flexnetos_runner.Release.{
  Metadata, Host, ReleaseArgs, no_root, build, check, join_path, ancestors, canonical_or_owned,
  is_file, is_executable, discover_root_from, resolve_root, which, resolve_cargo, resolve_bun,
  normalized_components, default_out_root, prepare, execute, build_release, unstarted,
}

abbrev known : Text → Option Metadata
known path =
    if text_eq path (codes "/w/flexnetos_runner/scripts/build-local-ubuntu-release.sh")
      || text_eq path (codes "/usr/bin/cargo")
    then some (record { regular = true; permissions = 493 })
    else none

abbrev host : Option Text → Host
host exe = record {
  variable =
      λ (name : Text). if text_eq name (codes "PATH") then some (codes "/bin:/usr/bin") else none;
  metadata = known;
  canonicalize = λ (path : Text). none;
  current_exe = exe;
  current_dir = none;
}

abbrev no_args : ReleaseArgs
no_args = record {
  root = none;
  out = none;
  components = some (codes "a,,b c");
  cargo = none;
  bun = none;
}

above-path : ancestors (codes "/w/bin") ≡ codes "/w/bin" ∷ codes "/w" ∷ codes "/" ∷ []
unfolding ancestors codes
above-path = refl

check-found :
    prepare (host (some (codes "/w/bin/fxrun"))) check no_args
    ≡ ok (record {
      script = codes "/w/flexnetos_runner/scripts/build-local-ubuntu-release.sh";
      args = codes "--check-only" ∷ [];
      env =
          (codes "FXRUN_CARGO", codes "/usr/bin/cargo")
          ∷ (codes "FXRUN_RELEASE_COMPONENTS", codes "a b c")
          ∷ [];
      out_root = codes "/w/release";
    })
unfolding prepare resolve_root discover_root_from ancestors is_file join_path canonical_or_owned
    resolve_cargo resolve_bun which is_executable normalized_components default_out_root codes
    text_eq join split split_from
check-found = refl

build-rootless : prepare (host none) build no_args ≡ err no_root
unfolding prepare resolve_root is_file join_path codes text_eq
build-rootless = refl

execute-rootless : execute (host none) (λ p. unstarted) (build_release no_args) ≡ ([], err no_root)
unfolding execute prepare resolve_root is_file join_path codes text_eq
execute-rootless = refl
