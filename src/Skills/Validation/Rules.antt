-- ===== src/Skills/Validation/Rules.antt =====
-- The two stages without a model: pkg/skills/validation/structural.go and static.go.
use souz_go.Prelude.{
  ℕ, Bool, true, false, List, [], ◌∷◌, ◌++◌, Text, Dict, lookup, insert, codes, text_eq, is_blank,
  ltb, length, none, some, if◌then◌else◌, ◌||◌,
}
use souz_go.Skills.Bundle.{File, SkillBundle, skill_md_path}
use souz_go.Skills.Validation.{Finding}

abbrev pub max_description_chars : ℕ
max_description_chars = 2000

abbrev pub structural_finding : Text → Text → Finding
structural_finding file message = record {
  stage = codes "structural";
  file = file;
  message = message;
}

-- append(findings, …) under a condition, in front of the findings that come later.
unfoldable pub when : Bool → Finding → List Finding → List Finding
when b f rest = if b then f ∷ rest else rest

unfoldable pub manifest_findings : SkillBundle → List Finding → List Finding
unfolding when
manifest_findings b rest =
    when (is_blank b.manifest.name) (structural_finding [] (codes "manifest name is empty")) (
      when (is_blank b.manifest.description)
        (structural_finding [] (codes "manifest description is empty"))
        (when (ltb max_description_chars (length b.manifest.description))
          (structural_finding [] (codes "description exceeds the maximum length")) rest))

-- seen[path]
unfoldable pub was_seen : Dict Bool → Text → Bool
unfolding lookup
was_seen seen path = elim (lookup path seen) [ none ↦ false | some b ↦ b ]

-- The loop over the files: its findings, and hasSkillMD.
unfoldable pub file_findings : List File → Dict Bool → Bool → List Finding × Bool
unfolding was_seen insert when
file_findings [] seen has_skill_md = ([], has_skill_md)
file_findings (f ∷ fs) seen has_skill_md =
    let (rest, found) =
      file_findings fs (insert f.path true seen) (has_skill_md || text_eq f.path skill_md_path) in
    (
      when (was_seen seen f.path) (structural_finding f.path (codes "duplicate file path")) rest,
      found,
    )

unfoldable pub structural : SkillBundle → List Finding
unfolding manifest_findings file_findings when
structural b =
    let (duplicates, has_skill_md) = file_findings b.files [] false in
    manifest_findings b (
      duplicates
      ++ when (if has_skill_md then false else true)
          (structural_finding [] (codes "missing " ++ skill_md_path))
          (when (is_blank b.body)
            (structural_finding skill_md_path (codes "SKILL.md has no instructions body")) []))

pub record StaticRule : Type 0 where
  pub message : Text
  pub pattern : Text

abbrev pub static_rules : List StaticRule
static_rules =
    record {
      message = codes "possible prompt-injection phrasing";
      pattern =
          codes
            "(?i)ignore\\b.{0,80}\\b(previous|prior|system|developer)\\b.{0,40}\\binstructions?\\b";
    }
    ∷ record {
      message = codes "possible credential exfiltration";
      pattern =
          codes
            "(?i)(api[_ -]?key|token|secret|password).{0,80}(send|upload|exfiltrat|post|curl|wget)";
    }
    ∷ record {
      message = codes "references a private key path";
      pattern = codes "(?i)(\\.ssh|id_rsa|id_ed25519|known_hosts)";
    }
    ∷ record {
      message = codes "possible environment-variable dumping";
      pattern =
          codes "(?i)(\\bprintenv\\b|\\benv\\b|/proc/self/environ|System\\.getenv|process\\.env)";
    }
    ∷ record {
      message = codes "destructive shell command";
      pattern = codes "(?i)rm\\s+-rf|chmod\\s+-R\\s+777|mkfs\\b|dd\\s+if=.*\\s+of=/dev/";
    }
    ∷ record {
      message = codes "possible network exfiltration";
      pattern =
          codes
            "(?i)(curl|wget).{0,120}(--data|--data-binary|--upload-file|-T\\s|\\b-F\\b|--form|PUT\\s+https?://|POST\\s+https?://)";
    }
    ∷ record {
      message = codes "obfuscated shell execution via decode/eval pipe";
      pattern = codes "(?i)(base64\\s+-d|openssl\\s+enc|python\\s+-c).{0,120}\\|\\s*(sh|bash|zsh)";
    }
    ∷ []

-- `match_string pattern text` is regexp.MustCompile(pattern).MatchString(text).
module _ (match_string : Text → Text → Bool) where
  unfoldable pub rule_findings : File → List StaticRule → List Finding
  unfolding when
  rule_findings f [] = []
  rule_findings f (rule ∷ rules) =
      when (match_string rule.pattern f.content)
        (record { stage = codes "static"; file = f.path; message = rule.message })
        (rule_findings f rules)

  unfoldable pub files_findings : List File → List Finding
  unfolding rule_findings
  files_findings [] = []
  files_findings (f ∷ fs) = rule_findings f static_rules ++ files_findings fs

  -- Static
  unfoldable pub static : SkillBundle → List Finding
  unfolding files_findings
  static b = files_findings b.files
