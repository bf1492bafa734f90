-- ===== src/Tests/Commands.antt =====
-- RunSkillCommand at concrete inputs: the skill "demo", which is approved, and a script that prints.
use mathlib.Core.List.{flatten}
use souz_go.Prelude.{
  ◌≡◌, true, false, [], ◌∷◌, ◌++◌, none, some, Result, codes, text_eq, pos, lookup, if◌then◌else◌,
}
use souz_go.Agent.Context.{InvocationMeta, zero_context}
use souz_go.Agent.Platform.{Args}
use souz_go.Skills.Bundle.Load.{default_load_policy}
use souz_go.Skills.Registry.{StoredFile, listed, Root}
use souz_go.Skills.Validation.{Status}
use souz_go.Tools.RunSkillCommand.{execute_command}
use souz_go.Tools.SkillProcess.{Host, Ended, write_all}
use souz_go.Tools.RunSkillCommand.Guard.{IsGuarded, execute_command-IsGuarded}
use souz_go.Tools.SkillProcess.Output.{write_all-take}
use souz_go.Tests.Skills.{Disk, desk, desk_services, demo, disk_with}

abbrev demo_root : Root
demo_root = record {
  path = codes "/skills";
  listing = listed ((codes "demo", true) ∷ []);
  at = λ id. record {
    stored = if text_eq id (codes "demo") then StoredFile.decoded demo else StoredFile.unread;
    bundles = λ h. none;
    has_skill_md = text_eq id (codes "demo");
    own = record { is_dir = true; entries = [] };
  };
}

-- Texts stand for themselves.
abbrev shell : Host Disk
shell = record {
  unmarshal_string = λ s. Result.ok s;
  unmarshal_int = λ s. Result.ok (pos 5);
  unmarshal_strings = λ s. Result.ok (s ∷ []);
  unmarshal_map = λ s. Result.ok [];
  to_lower = λ s. s;
  clean = λ s. s;
  is_abs = λ s. false;
  join = λ s t. s ++ b'/' ∷ t;
  eval_symlinks = λ s w. Result.ok s;
  is_dir = λ s w. true;
  look_path = λ s w. true;
  write_script = λ dir ext script w. (w, Result.ok (dir ++ ext));
  remove = λ s w. w;
  start = λ spec millis w. (
    record w { files = [] },
    record { out_writes = spec.dir ∷ []; err_writes = []; ended = Ended.without_error },
  );
  marshal = λ r. r.stdout;
  root = λ w. demo_root;
}

abbrev request : Args
request = (codes "skillId", codes "demo") ∷ (codes "script", codes "ls") ∷ []

abbrev granting : InvocationMeta
granting = record (zero_context (Unit {0})).invocation_meta {
  active_skill_ids = some (codes "demo" ∷ []);
}

write_all-take_example : write_all 3 [] (codes "ab" ∷ codes "cd" ∷ codes "e" ∷ []) ≡ codes "abc"
unfolding flatten
write_all-take_example = write_all-take 3 (codes "ab" ∷ codes "cd" ∷ codes "e" ∷ [])

execute_command-IsGuarded_example :
    IsGuarded desk desk_services shell default_load_policy 1 request granting
      (disk_with Status.approved)
      (record (disk_with Status.approved) { files = [] }, Result.ok (codes "/skills/demo"))
unfolding execute_command lookup
execute_command-IsGuarded_example =
    execute_command-IsGuarded desk desk_services shell default_load_policy 1 request granting
      (disk_with Status.approved)
