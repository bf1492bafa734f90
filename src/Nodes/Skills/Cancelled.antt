-- ===== src/Nodes/Skills/Cancelled.antt =====
-- What a cancelled turn leaves in the cache of verdicts.
use souz_go.Prelude.{◌≡◌, Bool, true, false, Option, none, some, Error, Result, arith}
use souz_go.Agent.Platform.{Platform}
use souz_go.Skills.Bundle.{StoredSkill, SkillBundle, hash}
use souz_go.Skills.Services.{Services}
use souz_go.Skills.Validation.{Record, Status}
use souz_go.Skills.Validation.Pipeline.{validate, new_record}
use souz_go.Skills.Store.{get, save, write_record, write_entry, record_of}
use souz_go.Skills.Store.Verdicts.{IsDisk, read_entry-write_entry}
use souz_go.Nodes.Skills.Activation.{
  SkillsConfig, validate_now, judge, needs_validation, ensure_approved,
}
use souz_go.Nodes.Skills.Approved.{invalidated, cached}

unfoldable pub is_rejected : Record → Bool
is_rejected rec = elim rec.status [ Status.rejected ↦ true | _ ↦ false ]

-- The cache holds a record with the status REJECTED.
unfoldable pub holds_rejection : Result Error (Option Record) → Bool
unfolding is_rejected
holds_rejection (Result.err e) = false
holds_rejection (Result.ok none) = false
holds_rejection (Result.ok (some rec)) = is_rejected rec

module _ (P : Platform) (S : Services P) (cfg : SkillsConfig) (stored : StoredSkill) where
  validate_cancelled :
      (b : SkillBundle) (w : P.World) (e : Error)
      → P.ctx_err w ≡ some e
      → ((validate P S b cfg.policy cfg.model w).0 ≡ w)
        × (is_rejected (validate P S b cfg.policy cfg.model w).1 ≡ true)
  unfolding validate is_rejected
  validate_cancelled b w e c = (ground (arith, c), ground (arith, c))

  validate_keys :
      (b : SkillBundle) (w : P.World) (e : Error)
      → P.ctx_err w ≡ some e
      → ((validate P S b cfg.policy cfg.model w).1.skill_id ≡ b.skill_id)
        × ((validate P S b cfg.policy cfg.model w).1.policy_version ≡ cfg.policy.version)
        × ((validate P S b cfg.policy cfg.model w).1.bundle_hash ≡ hash S.sha256 b)
  unfolding validate new_record
  validate_keys b w e c = (ground (arith, c), ground (arith, c), ground (arith, c))

  get-save :
      (disk : IsDisk P S) (rec : Record) (w : P.World)
      → (S.write_file w).1 ≡ none
      → get P S rec.skill_id rec.policy_version rec.bundle_hash (save P S rec w).0
        ≡ Result.ok (some rec)
  unfolding get save write_record record_of
  get-save disk rec w h =
      let w' = (S.write_file w).0 in
      ground (
        arith,
        h,
        disk.entries-put_entries
            (write_entry rec.skill_id rec.policy_version rec.bundle_hash rec (S.entries w')) w',
        read_entry-write_entry rec.skill_id rec.policy_version rec.bundle_hash rec (S.entries w'),
      )

  -- Where the installed bundle loads with the id and the hash of its catalog entry, no verdict on
  -- it is in the cache, the turn's context is done when its validation starts, and the file can be
  -- written, a rejection is in the cache afterwards.
  pub ensure_approved_cancelled :
      (disk : IsDisk P S) (w : P.World) (b : SkillBundle) (e : Error)
      → cached P S cfg stored (invalidated P S cfg stored w) ≡ Result.ok none
      → S.load_skill_bundle stored.skill_id stored.bundle_hash (invalidated P S cfg stored w)
        ≡ Result.ok b
      → b.skill_id ≡ stored.skill_id
      → hash S.sha256 b ≡ stored.bundle_hash
      → P.ctx_err (invalidated P S cfg stored w) ≡ some e
      → (S.write_file (invalidated P S cfg stored w)).1 ≡ none
      → holds_rejection (cached P S cfg stored (ensure_approved P S cfg stored w).0) ≡ true
  unfolding ensure_approved judge validate_now invalidated cached holds_rejection needs_validation
  ensure_approved_cancelled disk w b e c l i h x ok =
      let w' = invalidated P S cfg stored w in
      let rec = (validate P S b cfg.policy cfg.model w').1 in
      let (same, rejected) = validate_cancelled b w' e x in
      let (k1, k2, k3) = validate_keys b w' e x in
      ground (arith, c, l, i, h, x, ok, same, rejected, k1, k2, k3, get-save disk rec w' ok)
