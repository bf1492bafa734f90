-- ===== src/Skills/Bundle/Walked.antt =====
-- What the walk over a bundle's directory keeps true.
use souz_go.Prelude.{
  ℕ, suc, ◌+◌, ◌≤◌, ◌≡◌, refl, sym, Bool, true, false, List, [], ◌∷◌, ◌++◌, Option, none, some,
  Text, All, All-append, length-append, arith, length, all, if◌then◌else◌, leb,
}
use souz_go.Skills.Bundle.{File}
use souz_go.Skills.Bundle.Paths.{normalize_path}
use souz_go.Skills.Bundle.Paths.Inside.{join_slash-split_slash}
use souz_go.Skills.Bundle.Load.{
  LoadPolicy, Kind, symlink, directory, regular, other, WalkEntry, Collected, is_allowed_ext,
  add_file, visit, walk_dir,
}

-- The bytes that Info reports of an entry that is a file.
unfoldable pub reported : WalkEntry → ℕ
reported e = elim e.kind [ regular ↦ elim e.size [ none ↦ 0 | some n ↦ n ] | _ ↦ 0 ]

unfoldable pub reported_bytes : List WalkEntry → ℕ
unfolding reported
reported_bytes [] = 0
reported_bytes (e ∷ es) = reported e + reported_bytes es

-- A directory, or a file of at most so many bytes.
unfoldable pub is_plain : LoadPolicy → WalkEntry → Bool
unfolding reported
is_plain policy e = elim e.kind [
  | directory ↦ true
  | regular ↦ leb (reported e) policy.max_file_bytes
  | _ ↦ false
]

module _ (to_lower : Text → Text) (policy : LoadPolicy) where
  visit-is_plain :
      (e : WalkEntry) (c c' : Collected)
      → visit to_lower policy e c ≡ some c'
      → is_plain policy e ≡ true
  unfolding visit add_file is_plain
  visit-is_plain e c c' h = ground (arith, h)

  visit-total :
      (e : WalkEntry) (c c' : Collected)
      → visit to_lower policy e c ≡ some c'
      → c'.total_bytes ≡ c.total_bytes + reported e
  unfolding visit add_file reported
  visit-total e c c' h = ground (arith, h)

  abbrev pub IsAdmittedFile : File → Type 0
  IsAdmittedFile f =
      (is_allowed_ext to_lower policy f.path ≡ true) × (normalize_path f.path ≡ some f.path)

  -- What collectFiles keeps true.
  pub record IsWithin (c : Collected) : Type 0 where
    pub count : length c.files ≤ policy.max_files
    pub bytes : c.total_bytes ≤ policy.max_bundle_bytes
    pub admitted : All IsAdmittedFile c.files

  normalize_path_same : (p q : Text) → normalize_path p ≡ some q → normalize_path q ≡ some q
  unfolding normalize_path
  normalize_path_same p q h =
      let same : q ≡ p = ground (arith, h, join_slash-split_slash p) in cc (h, same)

  -- The file that an entry becomes.
  abbrev file_at : Text → WalkEntry → File
  file_at n e = record { path = n; content = elim e.data_of_file [ none ↦ [] | some t ↦ t ] }

  add_file-files :
      (n : Text) (e : WalkEntry) (c c' : Collected)
      → add_file to_lower policy n e c ≡ some c'
      → c'.files ≡ c.files ++ file_at n e ∷ []
  unfolding add_file
  add_file-files n e c c' h = ground (arith, h)

  add_file-bounds :
      (n : Text) (e : WalkEntry) (c c' : Collected)
      → add_file to_lower policy n e c ≡ some c'
      → (is_allowed_ext to_lower policy n ≡ true)
        × ((suc (length c.files) ≤ policy.max_files) × (c'.total_bytes ≤ policy.max_bundle_bytes))
  unfolding add_file
  add_file-bounds n e c c' h = (ground (arith, h), (ground (arith, h), ground (arith, h)))

  add_file-IsWithin :
      (n : Text) (e : WalkEntry) (c c' : Collected)
      → normalize_path n ≡ some n
      → add_file to_lower policy n e c ≡ some c'
      → IsWithin c
      → IsWithin c'
  add_file-IsWithin n e c c' hn h good =
      let files = add_file-files n e c c' h in
      let bounds = add_file-bounds n e c c' h in
      record {
        count = rw (files, length-append c.files (file_at n e ∷ [])) (omega (arith, bounds.1.0));
        bytes = bounds.1.1;
        admitted = rw files (
            All-append IsAdmittedFile c.files (file_at n e ∷ []) good.admitted
              ((bounds.0, hn), tt));
      }

  visit-IsWithin :
      (e : WalkEntry) (c c' : Collected)
      → visit to_lower policy e c ≡ some c'
      → IsWithin c
      → IsWithin c'
  unfolding visit
  visit-IsWithin e c c' h good = go e.walked e.kind (normalize_path e.rel) refl h
    where
      go :
          (w : Bool) (k : Kind) (p : Option Text)
          → normalize_path e.rel ≡ p
          → (if w
              then elim k [
                | symlink ↦ none
                | directory ↦ some c
                | other ↦ none
                | regular ↦ elim p [ none ↦ none | some n ↦ add_file to_lower policy n e c ]
              ]
              else none)
            ≡ some c'
          → IsWithin c'
      go true directory p q t = ground (arith, t, good)
      go true regular (some n) q t =
          add_file-IsWithin n e c c' (normalize_path_same e.rel n q) t good
      go true regular none q t = absurd (ground (arith, t))
      go true symlink p q t = absurd (ground (arith, t))
      go true other p q t = absurd (ground (arith, t))
      go false k p q t = absurd (ground (arith, t))

  -- What a walk that succeeds has met.
  pub record IsWalked (es : List WalkEntry) (c c' : Collected) : Type 0 where
    pub within : IsWithin c'
    pub plain : all (is_plain policy) es ≡ true
    pub total : c'.total_bytes ≡ c.total_bytes + reported_bytes es

  pub walk_dir-IsWalked :
      (es : List WalkEntry) (c c' : Collected)
      → walk_dir to_lower policy es c ≡ some c'
      → IsWithin c
      → IsWalked es c c'
  unfolding walk_dir reported_bytes
  walk_dir-IsWalked [] c c' h good =
      let same : c ≡ c' = ground (arith, h) in
      record { within = rw (sym same) good; plain = refl; total = rw (sym same) (omega arith) }
  walk_dir-IsWalked (e ∷ es) c c' h good =
      go (visit to_lower policy e c) refl h (λ d t k. walk_dir-IsWalked es d c' t k)
    where
      go :
          (r : Option Collected)
          → visit to_lower policy e c ≡ r
          → (elim r [ none ↦ none | some d ↦ walk_dir to_lower policy es d ]) ≡ some c'
          → ((d : Collected)
              → walk_dir to_lower policy es d ≡ some c'
              → IsWithin d
              → IsWalked es d c')
          → IsWalked (e ∷ es) c c'
      go none q t ih = absurd (ground (arith, t))
      go (some d) q t ih =
          let rest = ih d t (visit-IsWithin e c d q good) in
          record {
            within = rest.within;
            plain = rw (visit-is_plain e c d q) rest.plain;
            total = omega (arith, rest.total, visit-total e c d q);
          }
