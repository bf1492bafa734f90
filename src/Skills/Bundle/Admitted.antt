-- ===== src/Skills/Bundle/Admitted.antt =====
-- What the policy keeps out of a bundle that loads.
use souz_go.Prelude.{
  suc, ◌≤◌, ◌≡◌, refl, Bool, true, false, List, [], ◌∷◌, Option, none, some, Text, All, arith,
  length, all, text_leb, if◌then◌else◌,
}
use souz_go.Skills.Bundle.{File, SkillBundle}
use souz_go.Skills.Bundle.Load.{
  LoadPolicy, Directory, Collected, walk_dir, collect_files, insert_file, sort_files, from_files,
  load,
}
use souz_go.Skills.Bundle.Walked.{reported_bytes, is_plain, IsAdmittedFile, walk_dir-IsWalked}

module _ {ℓ} (P : File → Type ℓ) where
  insert_file-All : (f : File) (fs : List File) → P f → All P fs → All P (insert_file f fs)
  unfolding insert_file
  insert_file-All f [] p ps = (p, tt)
  insert_file-All f (g ∷ gs) p (q, qs) = go (text_leb f.path g.path) (insert_file-All f gs p qs)
    where
      go :
          (b : Bool)
          → All P (insert_file f gs)
          → All P (if b then f ∷ g ∷ gs else g ∷ insert_file f gs)
      go true ih = (p, (q, qs))
      go false ih = (q, ih)

  sort_files-All : (fs : List File) → All P fs → All P (sort_files fs)
  unfolding sort_files
  sort_files-All [] ps = tt
  sort_files-All (f ∷ fs) (p, ps) = insert_file-All f (sort_files fs) p (sort_files-All fs ps)

length-insert_file : (f : File) (fs : List File) → length (insert_file f fs) ≡ suc (length fs)
unfolding insert_file
length-insert_file f [] = refl
length-insert_file f (g ∷ gs) = ground (arith, length-insert_file f gs)

length-sort_files : (fs : List File) → length (sort_files fs) ≡ length fs
unfolding sort_files
length-sort_files [] = refl
length-sort_files (f ∷ fs) =
    ground (arith, length-insert_file f (sort_files fs), length-sort_files fs)

-- What the policy promises of a bundle: its directory holds directories and regular files of the
-- size that is allowed and nothing else, so no symbolic link; together these have no more than the
-- bytes that are allowed; and the bundle's files are as many as are allowed, with normalized paths
-- of allowed extensions.
pub record IsAdmitted (to_lower : Text → Text) (policy : LoadPolicy) (d : Directory)
    (b : SkillBundle) : Type 0 where
  pub plain : all (is_plain policy) d.entries ≡ true
  pub bytes : reported_bytes d.entries ≤ policy.max_bundle_bytes
  pub count : length b.files ≤ policy.max_files
  pub files : All (IsAdmittedFile to_lower policy) b.files

abbrev loaded : (Text → Text) → Option (List File) → Option SkillBundle
loaded to_lower r = elim r [ none ↦ none | some files ↦ from_files to_lower files ]

from_files-files :
    (to_lower : Text → Text) (fs : List File) (b : SkillBundle)
    → from_files to_lower fs ≡ some b
    → b.files ≡ sort_files fs
unfolding from_files
from_files-files to_lower fs b h = ground (arith, h)

-- A bundle that loads is within its policy: the directory holds directories and regular files and
-- nothing else, so no symbolic link, each file and all together within the limits of bytes as Info
-- reports them; the files are no more than the limit, and have normalized paths with allowed
-- extensions.
pub load-IsAdmitted :
    (to_lower : Text → Text) (policy : LoadPolicy) (d : Directory) (b : SkillBundle)
    → load to_lower policy d ≡ some b
    → IsAdmitted to_lower policy d b
unfolding load collect_files
load-IsAdmitted to_lower policy d b h =
    go d.is_dir (walk_dir to_lower policy d.entries start) refl h
  where
    start : Collected
    start = record { files = []; total_bytes = 0 }

    go :
        (is_dir : Bool) (r : Option Collected)
        → walk_dir to_lower policy d.entries start ≡ r
        → loaded to_lower (if is_dir then elim r [ none ↦ none | some c ↦ some c.files ] else none)
          ≡ some b
        → IsAdmitted to_lower policy d b
    go false r q t = absurd (ground (arith, t))
    go true none q t = absurd (ground (arith, t))
    go true (some c) q t =
        let walked =
          walk_dir-IsWalked to_lower policy d.entries start c q
            (record { count = omega arith; bytes = omega arith; admitted = tt }) in
        let sorted = from_files-files to_lower c.files b t in
        record {
          plain = walked.plain;
          bytes = omega (arith, walked.total, walked.within.bytes);
          count = rw (sorted, length-sort_files c.files) walked.within.count;
          files =
              rw sorted
                (sort_files-All (IsAdmittedFile to_lower policy) c.files walked.within.admitted);
        }
