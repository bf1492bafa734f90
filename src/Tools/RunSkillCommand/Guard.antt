-- ===== src/Tools/RunSkillCommand/Guard.antt =====
-- The two guards of RunSkillCommand: the skill is active this turn, and its record is approved.
use souz_go.Prelude.{
  ℕ, ◌≡◌, refl, ap, ◌∙◌, Bool, true, false, not, ◌||◌, [], Option, none, some, Text, Error, Result,
  codes, text_eq, arith, if◌then◌else◌,
}
use souz_go.Agent.Context.{InvocationMeta}
use souz_go.Agent.Platform.{Platform, Args}
use souz_go.Tools.{arg}
use souz_go.Skills.Bundle.{StoredSkill}
use souz_go.Skills.Bundle.Load.{LoadPolicy}
use souz_go.Skills.Registry.{get_skill, bundle_root}
use souz_go.Skills.Services.{Services}
use souz_go.Skills.Validation.{Record, is_approved}
use souz_go.Skills.Store.{get}
use souz_go.Tools.RunSkillCommand.{
  CommandRequest, active_this_turn, authorize, allows_running, read_request, run_request,
  execute_command,
}
use souz_go.Tools.SkillProcess.{Host, and_then, failed}

module _ (P : Platform) (S : Services P) (H : Host P.World) (policy : LoadPolicy)
    (policy_version : ℕ) where
  -- The skill is in the registry with an approved record for the hash that the registry gives, and
  -- this is its root.
  pub data IsAuthorized (skill_id root : Text) (w : P.World) : Type 0 where
    authorized :
        (stored : StoredSkill) (rec : Record)
        → get_skill H.to_lower S.sha256 policy (H.root w) skill_id ≡ some stored
        → get P S stored.skill_id policy_version stored.bundle_hash w ≡ Result.ok (some rec)
        → is_approved rec ≡ true
        → bundle_root H.join (H.root w) stored.skill_id stored.bundle_hash ≡ some root
        → IsAuthorized skill_id root w

  -- What a call may come to: an error that changes nothing, or the run of a request.
  pub data IsGuarded (args : Args) (meta : InvocationMeta) (w : P.World)
      : P.World × Result Error Text → Type 0 where
    refused : (e : Error) → IsGuarded args meta w (w, Result.err e)
    ran :
        (skill_id root : Text) (q : CommandRequest)
        → arg H.unmarshal_string args (codes "skillId") [] ≡ Result.ok skill_id
        → active_this_turn meta skill_id ≡ true
        → IsAuthorized skill_id root w
        → IsGuarded args meta w (run_request H skill_id root q w)

  authorize-IsAuthorized :
      (skill_id root : Text) (w : P.World)
      → authorize P S H policy policy_version skill_id w ≡ Result.ok root
      → IsAuthorized skill_id root w
  unfolding authorize allows_running
  authorize-IsAuthorized skill_id root w h =
      by_stored (get_skill H.to_lower S.sha256 policy (H.root w) skill_id) refl h
    where
      by_path :
          (stored : StoredSkill) (rec : Record) (path : Option Text)
          → get_skill H.to_lower S.sha256 policy (H.root w) skill_id ≡ some stored
          → get P S stored.skill_id policy_version stored.bundle_hash w ≡ Result.ok (some rec)
          → is_approved rec ≡ true
          → bundle_root H.join (H.root w) stored.skill_id stored.bundle_hash ≡ path
          → (elim path [ none ↦ Result.err failed | some p ↦ Result.ok p ]) ≡ Result.ok root
          → IsAuthorized skill_id root w
      by_path stored rec none a b c d t = absurd (ground (arith, t))
      by_path stored rec (some p) a b c d t =
          authorized stored rec a b c (d ∙ ap some (ground (arith, t)))

      rest : StoredSkill → Result Error (Unit {0}) → Result Error Text
      rest stored r = and_then r (λ u.
          elim (bundle_root H.join (H.root w) stored.skill_id stored.bundle_hash) [
            | none ↦ Result.err failed
            | some path ↦ Result.ok path
          ])

      by_approval :
          (stored : StoredSkill) (rec : Record) (b : Bool)
          → get_skill H.to_lower S.sha256 policy (H.root w) skill_id ≡ some stored
          → get P S stored.skill_id policy_version stored.bundle_hash w ≡ Result.ok (some rec)
          → is_approved rec ≡ b
          → rest stored (if b then Result.ok tt else Result.err failed) ≡ Result.ok root
          → IsAuthorized skill_id root w
      by_approval stored rec false p q a t = absurd (ground (arith, t))
      by_approval stored rec true p q a t = by_path stored rec _ p q a refl t

      by_record :
          (stored : StoredSkill) (r : Result Error (Option Record))
          → get_skill H.to_lower S.sha256 policy (H.root w) skill_id ≡ some stored
          → get P S stored.skill_id policy_version stored.bundle_hash w ≡ r
          → rest stored (allows_running r) ≡ Result.ok root
          → IsAuthorized skill_id root w
      by_record stored (Result.err e) p q t = absurd (ground (arith, t))
      by_record stored (Result.ok none) p q t = absurd (ground (arith, t))
      by_record stored (Result.ok (some rec)) p q t =
          by_approval stored rec (is_approved rec) p q refl t

      by_stored :
          (r : Option StoredSkill)
          → get_skill H.to_lower S.sha256 policy (H.root w) skill_id ≡ r
          → (elim r [
            | none ↦ Result.err failed
            | some stored ↦
                rest stored
                  (allows_running (get P S stored.skill_id policy_version stored.bundle_hash w))
          ])
            ≡ Result.ok root
          → IsAuthorized skill_id root w
      by_stored none p t = absurd (ground (arith, t))
      by_stored (some stored) p t = by_record stored _ p refl t

  -- A call of RunSkillCommand either returns an error and has changed nothing, or is the run of a
  -- request for a skill that is active this turn, which the registry has with an approved record
  -- for the hash that the registry gives, in the root that the registry gives for this skill.
  pub execute_command-IsGuarded :
      (args : Args) (meta : InvocationMeta) (w : P.World)
      → IsGuarded args meta w (execute_command P S H policy policy_version args meta w)
  unfolding execute_command
  execute_command-IsGuarded args meta w =
      by_id (arg H.unmarshal_string args (codes "skillId") []) refl
    where
      by_request :
          (skill_id root : Text) (r : Result Error CommandRequest)
          → arg H.unmarshal_string args (codes "skillId") [] ≡ Result.ok skill_id
          → active_this_turn meta skill_id ≡ true
          → IsAuthorized skill_id root w
          → IsGuarded args meta w (elim r [
            | Result.err e ↦ (w, Result.err e)
            | Result.ok q ↦ run_request H skill_id root q w
          ])
      by_request skill_id root (Result.err e) p a t = refused e
      by_request skill_id root (Result.ok q) p a t = ran skill_id root q p a t

      by_root :
          (skill_id : Text) (r : Result Error Text)
          → arg H.unmarshal_string args (codes "skillId") [] ≡ Result.ok skill_id
          → active_this_turn meta skill_id ≡ true
          → authorize P S H policy policy_version skill_id w ≡ r
          → IsGuarded args meta w (elim r [
            | Result.err e ↦ (w, Result.err e)
            | Result.ok root ↦ elim (read_request H args) [
              | Result.err e ↦ (w, Result.err e)
              | Result.ok q ↦ run_request H skill_id root q w
            ]
          ])
      by_root skill_id (Result.err e) p a t = refused e
      by_root skill_id (Result.ok root) p a t =
          by_request skill_id root (read_request H args) p a
            (authorize-IsAuthorized skill_id root w t)

      by_tests :
          (skill_id : Text) (b a : Bool)
          → arg H.unmarshal_string args (codes "skillId") [] ≡ Result.ok skill_id
          → active_this_turn meta skill_id ≡ a
          → IsGuarded args meta w (
              if b || not a
              then (w, Result.err failed)
              else elim (authorize P S H policy policy_version skill_id w) [
                | Result.err e ↦ (w, Result.err e)
                | Result.ok root ↦ elim (read_request H args) [
                  | Result.err e ↦ (w, Result.err e)
                  | Result.ok q ↦ run_request H skill_id root q w
                ]
              ])
      by_tests skill_id true a p q = refused failed
      by_tests skill_id false false p q = refused failed
      by_tests skill_id false true p q =
          by_root skill_id (authorize P S H policy policy_version skill_id w) p q refl

      by_id :
          (r : Result Error Text)
          → arg H.unmarshal_string args (codes "skillId") [] ≡ r
          → IsGuarded args meta w (elim r [
            | Result.err e ↦ (w, Result.err e)
            | Result.ok skill_id ↦
                if text_eq skill_id [] || not (active_this_turn meta skill_id)
                then (w, Result.err failed)
                else elim (authorize P S H policy policy_version skill_id w) [
                  | Result.err e ↦ (w, Result.err e)
                  | Result.ok root ↦ elim (read_request H args) [
                    | Result.err e ↦ (w, Result.err e)
                    | Result.ok q ↦ run_request H skill_id root q w
                  ]
                ]
          ])
      by_id (Result.err e) p = refused e
      by_id (Result.ok skill_id) p = by_tests skill_id (text_eq skill_id []) _ p refl
