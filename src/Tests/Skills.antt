-- ===== src/Tests/Skills.antt =====
-- The skills of a turn at concrete inputs: one skill, and a model that chooses and approves it.
use souz_go.Prelude.{
  ◌≡◌, ◌↔◌, refl, Bool, true, false, List, [], ◌∷◌, ◌++◌, Option, none, some, Text, Error, Result,
  codes, all, arith, is_blank,
}
use souz_go.Agent.Platform.{Platform}
use souz_go.Skills.Bundle.Paths.{split_slash, normalize_path}
use souz_go.Skills.Bundle.Paths.Inside.{walk, descend, normalize_path-walk}
use souz_go.Skills.Json.{extract_json_object}
use souz_go.Skills.Json.Objects.{end, byte, object, extract_json_object-object}
use souz_go.Skills.Bundle.{Manifest, SkillBundle, hash, StoredSkill}
use souz_go.Skills.Services.{Services}
use souz_go.Skills.Selection.{select}
use souz_go.Skills.Selection.Offered.{is_offered, select-is_offered}
use souz_go.Skills.Validation.{Record, Status, Content, Entry, is_approved, default_policy}
use souz_go.Skills.Validation.Pipeline.{validate}
use souz_go.Skills.Validation.Approval.{IsVetted, validate-IsVetted}
use souz_go.Skills.Store.{get, invalidate_others}
use souz_go.Skills.Store.Verdicts.{IsDisk, get-invalidate_others}
use souz_go.Nodes.Skills.Activation.{SkillsConfig, candidate_of, skills, ensure_approved}
use souz_go.Nodes.Skills.Grants.{IsSafe, skills-IsSafe}
use souz_go.Nodes.Skills.Approved.{
  IsBacked, invalidated, cached, ensure_approved-IsBacked, ensure_approved_rejected,
}
use souz_go.Nodes.Skills.Cancelled.{holds_rejection, ensure_approved_cancelled}
use souz_go.Tests.Bench.{answer, greeting}

abbrev braces : Text
braces = codes "a{b}c"

-- "x" "{" "a{b}c" "}" "}"
extract_json_object-object_example :
    extract_json_object (codes "x" ++ (b'{' ∷ (braces ++ b'}' ∷ codes "}")))
    ≡ b'{' ∷ (braces ++ b'}' ∷ [])
extract_json_object-object_example =
    extract_json_object-object (codes "x") braces (codes "}") ((λ e. omega (arith, e)), tt)
      (byte (λ e. omega (arith, e)) (λ e. omega (arith, e))
        (object (byte (λ e. omega (arith, e)) (λ e. omega (arith, e)) end)
          (byte (λ e. omega (arith, e)) (λ e. omega (arith, e)) end) refl))

pub record Disk : Type 0 where
  pub files : List Entry
  pub failure : Option Error

-- The model always answers with an object.
abbrev pub desk : Platform
desk = record {
  World = Disk;
  ctx_err = λ w. w.failure;
  Sink = Unit {0};
  emit = λ s e w. w;
  chat = λ req w. (w, Result.ok (answer (codes "{}") []));
  chat_stream = λ req on_chunk w. (w, Result.ok (answer (codes "{}") []));
  Client = Text;
  list_tools = λ c w. (w, Result.ok []);
  call_tool = λ c tool args w. (w, Result.ok (args, Bool.false));
  date_time = λ zone w. codes "today";
  unmarshal_object = λ raw. Result.ok [];
  run_script = λ s w. w;
  error_text = λ e. codes "failed";
}

abbrev demo_manifest : Manifest
demo_manifest = record {
  name = codes "Demo";
  description = codes "A demo.";
  author = [];
  version = [];
  metadata = [];
}

abbrev demo_bundle : SkillBundle
demo_bundle = record {
  skill_id = codes "demo";
  manifest = demo_manifest;
  files = record { path = codes "SKILL.md"; content = codes "text" } ∷ [];
  body = codes "text";
  raw_frontmatter = [];
}

abbrev pub demo : StoredSkill
demo = record {
  skill_id = codes "demo";
  manifest = demo_manifest;
  bundle_hash = codes "00";
  loose = false;
}

abbrev pub desk_services : Services desk
desk_services = record {
  unmarshal_selection =
      λ s. Result.ok (record { selected_skill_ids = codes "demo" ∷ []; rationale = [] });
  unmarshal_verdict = λ s. Result.ok (record {
    decision = codes "approve";
    confidence = 0x3ff0000000000000;
    risk_level = [];
    reasons = [];
  });
  sha256 = λ s. 0 ∷ [];
  match_string = λ pattern s. false;
  now = λ w. 0;
  entries = λ w. w.files;
  put_entries = λ es w. record w { files = es };
  write_file = λ w. (w, none);
  read_dir = λ w. none;
  list_skills = λ w. Result.ok (demo ∷ []);
  load_skill_bundle = λ id hash w. Result.ok demo_bundle;
}

abbrev empty_disk : Disk
empty_disk = record { files = []; failure = none }

abbrev cancelled_disk : Disk
cancelled_disk = record { files = []; failure = some Error.canceled }

abbrev verdict : Status → Record
verdict status = record {
  skill_id = codes "demo";
  bundle_hash = codes "00";
  policy_version = 1;
  status = status;
  confidence = 0;
  reasons = [];
  findings = [];
  created_at = 0;
}

abbrev pub disk_with : Status → Disk
disk_with status = record {
  files =
      record {
        skill_id = codes "demo";
        policy_version = 1;
        bundle_hash = codes "00";
        content = Content.decoded (verdict status);
      }
      ∷ [];
  failure = none;
}

desk-IsDisk : IsDisk desk desk_services
desk-IsDisk = record { entries-put_entries = λ es w. refl; entries-write_file = λ w. refl }

abbrev config : SkillsConfig
config = record { configured = true; policy = default_policy; model = codes "m" }

select-is_offered_example : all (is_offered (candidate_of demo ∷ [])) (codes "demo" ∷ []) ≡ true
unfolding select candidate_of
select-is_offered_example =
    select-is_offered desk desk_services (codes "hi") (codes "m") (candidate_of demo ∷ [])
      empty_disk empty_disk (record { selected_skill_ids = codes "demo" ∷ []; rationale = [] }) refl

validate-IsVetted_example :
    (is_approved (validate desk desk_services demo_bundle default_policy (codes "m") empty_disk).1
      ≡ true)
    ↔ IsVetted desk desk_services demo_bundle default_policy (codes "m") empty_disk
validate-IsVetted_example =
    validate-IsVetted desk desk_services demo_bundle default_policy (codes "m") empty_disk

-- The bundle of the example is approved.
validate_approves :
    is_approved (validate desk desk_services demo_bundle default_policy (codes "m") empty_disk).1
    ≡ true
unfolding is_approved validate is_blank
validate_approves = refl

get-invalidate_others_example :
    get desk desk_services
      (codes "demo")
      1
      (codes "00")
      (invalidate_others desk desk_services
        (codes "demo")
        1
        (codes "00")
        (disk_with Status.approved)).0
    ≡ get desk desk_services (codes "demo") 1 (codes "00") (disk_with Status.approved)
get-invalidate_others_example =
    get-invalidate_others desk desk_services desk-IsDisk (codes "demo") 1 (codes "00")
      (disk_with Status.approved)

skills-IsSafe_example :
    IsSafe desk desk_services config empty_disk
      (skills desk desk_services config empty_disk greeting).1
skills-IsSafe_example = skills-IsSafe desk desk_services config empty_disk greeting refl

ensure_approved-IsBacked_example :
    IsBacked desk desk_services config demo
      (invalidated desk desk_services config demo (disk_with Status.approved))
      demo_bundle
unfolding ensure_approved
ensure_approved-IsBacked_example =
    ensure_approved-IsBacked desk desk_services config demo (disk_with Status.approved) demo_bundle
      refl

ensure_approved_rejected_example :
    ((ensure_approved desk desk_services config demo (disk_with Status.rejected)).1 ≡ none)
    × (cached desk desk_services config demo
          (ensure_approved desk desk_services config demo (disk_with Status.rejected)).0
        ≡ Result.ok (some (verdict Status.rejected)))
unfolding cached
ensure_approved_rejected_example =
    ensure_approved_rejected desk desk_services config demo desk-IsDisk (disk_with Status.rejected)
      (verdict Status.rejected) refl refl

ensure_approved_cancelled_example :
    holds_rejection (
      cached desk desk_services config demo
        (ensure_approved desk desk_services config demo cancelled_disk).0)
    ≡ true
unfolding cached invalidated hash
ensure_approved_cancelled_example =
    ensure_approved_cancelled desk desk_services config demo desk-IsDisk cancelled_disk demo_bundle
      Error.canceled refl refl refl refl refl refl

normalize_path-walk_example :
    (codes "a/b" ≡ codes "a/b")
    × (walk (codes "root" ∷ []) (split_slash (codes "a/b"))
        ≡ descend (codes "root" ∷ []) (split_slash (codes "a/b")))
unfolding normalize_path
normalize_path-walk_example =
    normalize_path-walk (codes "a/b") (codes "a/b") (codes "root" ∷ []) refl
