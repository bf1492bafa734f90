-- ===== src/Tools/RunSkillCommand.antt =====
-- pkg/tools/skills/skills.go: the tool RunSkillCommand. The texts of the errors are not modelled.
pub mod Guard
use souz_go.Prelude.{
  ℕ, zero, suc, ◌+◌, ◌-◌, ◌==◌, ◌||◌, ◌&&◌, not, Bool, true, false, List, [], ◌∷◌, ◌++◌, Option,
  none, some, Text, Error, Result, codes, text_eq, has_prefix, is_blank, length, take, any, leb,
  ltb, if◌then◌else◌, decimal, ℤ, pos, negsuc, Dict, lookup,
}
use souz_go.Agent.Context.{InvocationMeta}
use souz_go.Agent.Platform.{Platform, Args}
use souz_go.Tools.{arg}
use souz_go.Skills.Bundle.{StoredSkill}
use souz_go.Skills.Bundle.Load.{LoadPolicy}
use souz_go.Skills.Registry.{Root, get_skill, bundle_root}
use souz_go.Skills.Services.{Services}
use souz_go.Skills.Validation.{Record, is_approved}
use souz_go.Skills.Store.{get}
use souz_go.Tools.SkillProcess.{
  RunSpec, RunResult, Ended, Process, Host, max_captured_bytes, failed, and_then, write, write_all,
  result_of, script_run_spec, build_run_spec, cleanup, run_process,
}

abbrev pub max_output_chars : ℕ
max_output_chars = 20000

unfoldable pub active_this_turn : InvocationMeta → Text → Bool
active_this_turn meta skill_id = elim meta.active_skill_ids [
  | none ↦ false
  | some ids ↦ any (λ id. text_eq id skill_id) ids
]

-- In milliseconds.
unfoldable pub clamp_timeout : ℤ → ℕ
clamp_timeout (negsuc n) = 60000
clamp_timeout (pos n) = if n == 0 then 60000 else if ltb 300000 n then 300000 else n

-- The rest is followed by "\n[truncated: %d more characters]".
unfoldable pub truncate_output : Text → ℕ → Text
truncate_output s max =
    if leb (length s) max
    then s
    else take max s
      ++ (codes "\n[truncated: " ++ (decimal (length s - max) ++ codes " more characters]"))

-- "k=v" for each key, in an order that the program leaves open.
unfoldable pub env_lines : Dict Text → List Text
env_lines [] = []
env_lines ((k, v) ∷ env) = (k ++ b'=' ∷ v) ∷ env_lines env

-- The arguments that Execute reads after the authorization.
pub record CommandRequest : Type 0 where
  pub runtime : Text
  pub script : Text
  pub command : List Text
  pub working_directory : Text
  pub environment : Dict Text
  pub stdin : Text
  pub timeout_millis : ℤ

-- The record is one that allows the skill to run.
unfoldable pub allows_running : Result Error (Option Record) → Result Error (Unit {0})
unfolding is_approved
allows_running (Result.err e) = Result.err e
allows_running (Result.ok none) = Result.err failed
allows_running (Result.ok (some rec)) = if is_approved rec then Result.ok tt else Result.err failed

-- Whether a resolved path is the root or below it.
unfoldable pub is_inside : (resolved_root resolved : Text) → Bool
is_inside resolved_root resolved =
    text_eq resolved resolved_root || has_prefix resolved (resolved_root ++ codes "/")

module _ {W : Type 0} (H : Host W) where
  unfoldable pub resolve_working_dir : Text → Text → W → Result Error Text
  unfolding is_inside
  resolve_working_dir root rel w =
      let clean = H.clean rel in
      let resolved_root : Text = elim (H.eval_symlinks root w) [
        | Result.err e ↦ root
        | Result.ok r ↦ r
      ] in
      if text_eq rel []
      then Result.ok root
      else if H.is_abs clean || text_eq clean (codes "..") || has_prefix clean (codes "../")
      then Result.err failed
      else and_then (H.eval_symlinks (H.join root clean) w) (λ resolved.
        if is_inside resolved_root resolved && H.is_dir resolved w
        then Result.ok resolved
        else Result.err failed)

  unfoldable pub read_request : Args → Result Error CommandRequest
  unfolding arg
  read_request args =
      and_then (arg H.unmarshal_string args (codes "runtime") (codes "bash")) (λ runtime.
        and_then (arg H.unmarshal_string args (codes "script") []) (λ script.
          and_then (arg H.unmarshal_strings args (codes "command") []) (λ command.
            and_then (arg H.unmarshal_string args (codes "workingDirectory") []) (λ dir.
              and_then (arg H.unmarshal_map args (codes "environment") []) (λ env.
                and_then (arg H.unmarshal_string args (codes "stdin") []) (λ stdin.
                  and_then (arg H.unmarshal_int args (codes "timeoutMillis") (pos 60000)) (λ millis.
                    Result.ok (record {
                      runtime = runtime;
                      script = script;
                      command = command;
                      working_directory = dir;
                      environment = env;
                      stdin = stdin;
                      timeout_millis = millis;
                    }))))))))

  unfoldable pub format_run_result : RunResult → Text
  unfolding truncate_output
  format_run_result r = H.marshal (record r {
    stdout = truncate_output r.stdout max_output_chars;
    stderr = truncate_output r.stderr max_output_chars;
  })

  -- Execute after the authorization, which gave the root of the skill.
  unfoldable pub run_request : (skill_id root : Text) → CommandRequest → W → W × Result Error Text
  unfolding resolve_working_dir build_run_spec env_lines clamp_timeout run_process format_run_result
  run_request skill_id root q w = elim (resolve_working_dir root q.working_directory w) [
    | Result.err e ↦ (w, Result.err e)
    | Result.ok dir ↦
        (let (w', built) = build_run_spec H (H.to_lower q.runtime) q.script q.command dir w in
          elim built [
            | Result.err e ↦ (w', Result.err e)
            | Result.ok spec ↦
                (let with_env : RunSpec = record spec {
                  env =
                      spec.env
                      ++ (codes "SOUZ_SKILL_ID=" ++ skill_id)
                        ∷ (codes "SOUZ_SKILL_ROOT=" ++ root)
                        ∷ env_lines q.environment;
                  stdin = q.stdin;
                } in
                  let (w'', result) = run_process H with_env (clamp_timeout q.timeout_millis) w' in
                  (w'', and_then result (λ r. Result.ok (format_run_result r))))
          ])
  ]

module _ (P : Platform) (S : Services P) (H : Host P.World) (policy : LoadPolicy)
    (policy_version : ℕ) where
  -- The path that authorize gives.
  unfoldable pub authorize : Text → P.World → Result Error Text
  unfolding get_skill get allows_running bundle_root
  authorize skill_id w = elim (get_skill H.to_lower S.sha256 policy (H.root w) skill_id) [
    | none ↦ Result.err failed
    | some stored ↦
        and_then (allows_running (get P S stored.skill_id policy_version stored.bundle_hash w))
          (λ u. elim (bundle_root H.join (H.root w) stored.skill_id stored.bundle_hash) [
            | none ↦ Result.err failed
            | some path ↦ Result.ok path
          ])
  ]

  unfoldable pub execute_command : Args → InvocationMeta → P.World → P.World × Result Error Text
  unfolding arg active_this_turn authorize read_request run_request
  execute_command args meta w = elim (arg H.unmarshal_string args (codes "skillId") []) [
    | Result.err e ↦ (w, Result.err e)
    | Result.ok skill_id ↦
        if text_eq skill_id [] || not (active_this_turn meta skill_id)
        then (w, Result.err failed)
        else elim (authorize skill_id w) [
          | Result.err e ↦ (w, Result.err e)
          | Result.ok root ↦ elim (read_request H args) [
            | Result.err e ↦ (w, Result.err e)
            | Result.ok q ↦ run_request H skill_id root q w
          ]
        ]
  ]
