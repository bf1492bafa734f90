-- ===== src/Nodes/Skills/Approved.antt =====
-- What ensureApproved of pkg/agent/nodes/skills.go asks for, and what it never asks for again.
use souz_go.Prelude.{
  ◌≡◌, refl, true, false, Option, none, some, Error, Result, arith, Bool-cases, ◌⊎◌, inl, inr,
}
use souz_go.Agent.Platform.{Platform}
use souz_go.Skills.Bundle.{StoredSkill, SkillBundle}
use souz_go.Skills.Services.{Services}
use souz_go.Skills.Validation.{Record, Status, is_approved}
use souz_go.Skills.Validation.Approval.{IsVetted, validate-IsVetted}
use souz_go.Skills.Store.{get, invalidate_others}
use souz_go.Skills.Store.Verdicts.{IsDisk, get-invalidate_others}
use souz_go.Nodes.Skills.Activation.{
  SkillsConfig, validate_now, judge, needs_validation, allows, ensure_approved,
}

module _ (P : Platform) (S : Services P) (cfg : SkillsConfig) (stored : StoredSkill) where
  -- The world after InvalidateOthers, and the record that is then read.
  unfoldable pub invalidated : P.World → P.World
  unfolding invalidate_others
  invalidated w = (invalidate_others P S stored.skill_id cfg.policy.version stored.bundle_hash w).0

  unfoldable pub cached : P.World → Result Error (Option Record)
  unfolding get
  cached w = get P S stored.skill_id cfg.policy.version stored.bundle_hash w

  -- The bundle is the stored one, and an approval in the cache or a validation stands behind it.
  pub data IsBacked (w : P.World) (b : SkillBundle) : Type 0 where
    by_record :
        (rec : Record)
        → cached w ≡ Result.ok (some rec)
        → is_approved rec ≡ true
        → S.load_skill_bundle stored.skill_id stored.bundle_hash w ≡ Result.ok b
        → IsBacked w b
    by_validation :
        (rec : Option Record)
        → cached w ≡ Result.ok rec
        → needs_validation rec ≡ true
        → S.load_skill_bundle stored.skill_id stored.bundle_hash w ≡ Result.ok b
        → IsVetted P S b cfg.policy cfg.model w
        → IsBacked w b

  validate_now_same :
      (loaded b : SkillBundle) (w : P.World)
      → (validate_now P S cfg loaded w).1 ≡ some b
      → loaded ≡ b
  unfolding validate_now
  validate_now_same loaded b w h = ground (arith, h)

  validate_now-IsVetted :
      (b : SkillBundle) (w : P.World)
      → (validate_now P S cfg b w).1 ≡ some b
      → IsVetted P S b cfg.policy cfg.model w
  unfolding validate_now
  validate_now-IsVetted b w h =
      (validate-IsVetted P S b cfg.policy cfg.model w).0 (ground (arith, h))

  judge-IsBacked :
      (rec : Option Record) (w : P.World) (b : SkillBundle)
      → cached w ≡ Result.ok rec
      → (judge P S cfg stored rec w).1 ≡ some b
      → IsBacked w b
  unfolding judge allows
  judge-IsBacked rec w b c h = by_bundle rec c h _ refl (Bool-cases (needs_validation rec))
    where
      by_bundle :
          (rec : Option Record)
          → cached w ≡ Result.ok rec
          → (judge P S cfg stored rec w).1 ≡ some b
          → (l : Result Error SkillBundle)
          → S.load_skill_bundle stored.skill_id stored.bundle_hash w ≡ l
          → (needs_validation rec ≡ true) ⊎ (needs_validation rec ≡ false)
          → IsBacked w b
      by_bundle rec c h (Result.err x) e (inl n) = ground (arith, h, e, n)
      by_bundle rec c h (Result.ok loaded) e (inl n) =
          let same = validate_now_same loaded b w (ground (arith, h, e, n)) in
          let vet : (validate_now P S cfg b w).1 ≡ some b = ground (arith, h, e, n, same) in
          by_validation rec c n (ground (arith, e, same)) (validate_now-IsVetted b w vet)
      by_bundle none c h l e (inr n) = ground (arith, h, n)
      by_bundle (some rec) c h l e (inr n) =
          by_record rec c (ground (arith, h, n)) (ground (arith, h, e, n))

  -- A bundle that ensureApproved returns is the installed one; after the invalidation of the others,
  -- the cache held an approval of its hash, or held no current verdict and Validate vets it.
  pub ensure_approved-IsBacked :
      (w : P.World) (b : SkillBundle)
      → (ensure_approved P S cfg stored w).1 ≡ some b
      → IsBacked (invalidated w) b
  unfolding ensure_approved invalidated cached
  ensure_approved-IsBacked w b h = by_record_read _ refl
    where
      by_record_read :
          (r : Result Error (Option Record))
          → cached (invalidated w) ≡ r
          → IsBacked (invalidated w) b
      by_record_read (Result.err e) c = ground (arith, h, c)
      by_record_read (Result.ok rec) c =
          judge-IsBacked rec (invalidated w) b c (ground (arith, h, c))

  -- A rejection in the cache is final: where the cache holds one, ensureApproved returns no bundle,
  -- and the cache holds it still.
  pub ensure_approved_rejected :
      (disk : IsDisk P S) (w : P.World) (rec : Record)
      → cached w ≡ Result.ok (some rec)
      → rec.status ≡ Status.rejected
      → ((ensure_approved P S cfg stored w).1 ≡ none)
        × (cached (ensure_approved P S cfg stored w).0 ≡ Result.ok (some rec))
  unfolding ensure_approved judge needs_validation allows is_approved cached
  ensure_approved_rejected disk w rec c r =
      let kept =
        get-invalidate_others P S disk stored.skill_id cfg.policy.version stored.bundle_hash w in
      (ground (arith, c, r, kept), ground (arith, c, r, kept))
