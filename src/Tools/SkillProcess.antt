-- ===== src/Tools/SkillProcess.antt =====
-- pkg/tools/skills/exec.go: the process of a skill. The paths, the disk and the processes are
-- parameters, the record `Host`; the texts of the errors are not modelled.
pub mod Output
use souz_go.Prelude.{
  ℕ, zero, suc, ◌+◌, ◌-◌, ◌==◌, ◌||◌, ◌&&◌, not, Bool, true, false, List, [], ◌∷◌, ◌++◌, Option,
  none, some, Text, Error, Result, codes, text_eq, has_prefix, is_blank, length, take, any, leb,
  ltb, if◌then◌else◌, decimal, ℤ, pos, negsuc, Dict, lookup,
}
use souz_go.Agent.Context.{InvocationMeta}
use souz_go.Agent.Platform.{Platform, Args}
use souz_go.Tools.{arg}
use souz_go.Skills.Bundle.{StoredSkill}
use souz_go.Skills.Bundle.Load.{LoadPolicy}
use souz_go.Skills.Registry.{Root, get_skill, bundle_root}
use souz_go.Skills.Services.{Services}
use souz_go.Skills.Validation.{Record, is_approved}
use souz_go.Skills.Store.{get}

-- runSpec; its cleanup removes `script_file`.
pub record RunSpec : Type 0 where
  pub name : Text
  pub args : List Text
  pub dir : Text
  pub env : List Text
  pub stdin : Text
  pub script_file : Option Text

pub record RunResult : Type 0 where
  pub exit_code : ℤ
  pub timed_out : Bool
  pub stdout : Text
  pub stderr : Text

-- How cmd.Run ends: the context ended first, or else without an error, with the code of an
-- ExitError, or with another error.
pub data Ended : Type 0 where
  by_context without_error : Ended
  with_code : ℤ → Ended
  with_error : Error → Ended

-- What a process wrote, piece by piece.
pub record Process : Type 0 where
  pub out_writes : List Text
  pub err_writes : List Text
  pub ended : Ended

pub record Host (W : Type 0) : Type 0 where
  -- json.Unmarshal into string, int, []string and map[string]string
  pub unmarshal_string : Text → Result Error Text
  pub unmarshal_int : Text → Result Error ℤ
  pub unmarshal_strings : Text → Result Error (List Text)
  pub unmarshal_map : Text → Result Error (Dict Text)
  -- strings.ToLower, filepath.Clean, filepath.IsAbs and filepath.Join
  pub to_lower : Text → Text
  pub clean : Text → Text
  pub is_abs : Text → Bool
  pub join : Text → Text → Text
  -- filepath.EvalSymlinks, os.Stat and IsDir, and exec.LookPath
  pub eval_symlinks : Text → W → Result Error Text
  pub is_dir : Text → W → Bool
  pub look_path : Text → W → Bool
  -- os.CreateTemp, WriteString and Close, and os.Remove where one of these fails: the path in a
  -- directory, for an extension and a script
  pub write_script : Text → Text → Text → W → W × Result Error Text
  pub remove : Text → W → W
  -- exec.CommandContext and Run, with a time limit in milliseconds
  pub start : RunSpec → ℕ → W → W × Process
  -- json.Marshal of the result
  pub marshal : RunResult → Text
  -- The directory of the registry.
  pub root : W → Root

abbrev pub max_captured_bytes : ℕ
max_captured_bytes = 4194304

abbrev pub failed : Error
failed = Error.other (codes "RunSkillCommand")

abbrev pub and_then : {A B : Type 0} → Result Error A → (A → Result Error B) → Result Error B
and_then (Result.err e) k = Result.err e
and_then (Result.ok a) k = k a

-- cappedBuffer.Write, on what the buffer holds, for a buffer of `max` bytes.
unfoldable pub write : (max : ℕ) → Text → Text → Text
write max buf p =
    let remaining = max - length buf in
    if ltb 0 remaining
    then (if ltb remaining (length p) then buf ++ take remaining p else buf ++ p)
    else buf

unfoldable pub write_all : (max : ℕ) → Text → List Text → Text
unfolding write
write_all max buf [] = buf
write_all max buf (p ∷ ps) = write_all max (write max buf p) ps

unfoldable pub result_of : Process → Result Error RunResult
unfolding write_all
result_of p =
    let result : RunResult = record {
      exit_code = pos 0;
      timed_out = false;
      stdout = write_all max_captured_bytes [] p.out_writes;
      stderr = write_all max_captured_bytes [] p.err_writes;
    } in
    elim p.ended [
      | by_context ↦ Result.ok (record result { timed_out = true; exit_code = negsuc 0 })
      | without_error ↦ Result.ok result
      | with_code c ↦ Result.ok (record result { exit_code = c })
      | with_error e ↦ Result.err e
    ]

module _ {W : Type 0} (H : Host W) where
  unfoldable pub script_run_spec :
      (interpreter ext script dir : Text) → W → W × Result Error RunSpec
  unfolding is_blank
  script_run_spec interpreter ext script dir w =
      if is_blank script
      then (w, Result.err failed)
      else (let (w', r) = H.write_script dir ext script w in
          (
            w',
            and_then r (λ path. Result.ok (record {
              name = interpreter;
              args = path ∷ [];
              dir = dir;
              env = [];
              stdin = [];
              script_file = some path;
            })),
          ))

  unfoldable pub build_run_spec :
      (runtime script : Text) → List Text → (dir : Text) → W → W × Result Error RunSpec
  unfolding script_run_spec
  build_run_spec runtime script command dir w =
      if text_eq runtime (codes "bash") || text_eq runtime []
      then script_run_spec (if H.look_path (codes "bash") w then codes "bash" else codes "sh")
          (codes ".sh") script dir w
      else if text_eq runtime (codes "python")
      then script_run_spec
          (if H.look_path (codes "python3") w then codes "python3" else codes "python")
          (codes ".py") script dir w
      else if text_eq runtime (codes "node")
      then script_run_spec (codes "node") (codes ".js") script dir w
      else if text_eq runtime (codes "process")
      then elim command [
        | [] ↦ (w, Result.err failed)
        | name ∷ args ↦ (
          w,
          Result.ok (record {
            name = name;
            args = args;
            dir = dir;
            env = [];
            stdin = [];
            script_file = none;
          }),
        )
      ]
      else (w, Result.err failed)

  unfoldable pub cleanup : RunSpec → W → W
  cleanup spec w = elim spec.script_file [ none ↦ w | some path ↦ H.remove path w ]

  unfoldable pub run_process : RunSpec → ℕ → W → W × Result Error RunResult
  unfolding cleanup result_of
  run_process spec millis w =
      if H.look_path spec.name w
      then (let (w', p) = H.start spec millis w in (cleanup spec w', result_of p))
      else (cleanup spec w, Result.err failed)
