-- ===== src/Skills/Store/Verdicts.antt =====
-- What the cache of verdicts keeps.
use souz_go.Prelude.{
  ℕ, ◌≡◌, refl, false, List, [], ◌∷◌, Text, Option, none, some, text_eq, text_eq_refl, text_eq→eq,
  arith,
}
use souz_go.Agent.Platform.{Platform}
use souz_go.Skills.Services.{Services}
use souz_go.Skills.Validation.{Record, Status, Content, Entry}
use souz_go.Skills.Store.{
  is_at, read_entry, write_entry, superseded, write_record, get, invalidate_each, invalidate_others,
}

-- The disk gives back the files that were put on it, and an attempt to write leaves the others.
pub record IsDisk (P : Platform) (S : Services P) : Type 0 where
  pub entries-put_entries : (es : List Entry) (w : P.World) → S.entries (S.put_entries es w) ≡ es
  pub entries-write_file : (w : P.World) → S.entries (S.write_file w).0 ≡ S.entries w

pub read_entry-write_entry :
    (k : Text) (v : ℕ) (h : Text) (rec : Record) (es : List Entry)
    → read_entry k v h (write_entry k v h rec es) ≡ some (Content.decoded rec)
unfolding read_entry write_entry is_at
read_entry-write_entry k v h rec [] = ground (arith, text_eq_refl k, text_eq_refl h)
read_entry-write_entry k v h rec (e ∷ es) =
    ground (arith, text_eq_refl k, text_eq_refl h, read_entry-write_entry k v h rec es)

pub read_entry-write_entry_ne :
    (k : Text) (v : ℕ) (h g : Text) (rec : Record) (es : List Entry)
    → text_eq g h ≡ false
    → read_entry k v h (write_entry k v g rec es) ≡ read_entry k v h es
unfolding read_entry write_entry is_at
read_entry-write_entry_ne k v h g rec [] ne = ground (arith, ne)
read_entry-write_entry_ne k v h g rec (e ∷ es) ne = ground (
  arith,
  ne,
  read_entry-write_entry_ne k v h g rec es ne,
  text_eq→eq e.bundle_hash h,
  text_eq→eq e.bundle_hash g,
)

superseded_ne :
    (k : Text) (v : ℕ) (h : Text) (e : Entry) (rec : Record)
    → superseded k v h e ≡ some rec
    → text_eq e.bundle_hash h ≡ false
unfolding superseded
superseded_ne k v h e rec p = ground (arith, p)

module _ (P : Platform) (S : Services P) (disk : IsDisk P S) where
  write_record_ne :
      (k : Text) (v : ℕ) (h g : Text) (rec : Record) (w : P.World)
      → text_eq g h ≡ false
      → read_entry k v h (S.entries (write_record P S k v g rec w).0)
        ≡ read_entry k v h (S.entries w)
  unfolding write_record
  write_record_ne k v h g rec w ne = ground (
    arith,
    disk.entries-put_entries (write_entry k v g rec (S.entries (S.write_file w).0))
        (S.write_file w).0,
    disk.entries-write_file w,
    read_entry-write_entry_ne k v h g rec (S.entries (S.write_file w).0) ne,
  )

  invalidate_each_current :
      (k : Text) (v : ℕ) (h : Text) (es : List Entry) (w : P.World)
      → read_entry k v h (S.entries (invalidate_each P S k v h es w))
        ≡ read_entry k v h (S.entries w)
  unfolding invalidate_each
  invalidate_each_current k v h [] w = refl
  invalidate_each_current k v h (e ∷ es) w =
      by_entry (λ x. invalidate_each_current k v h es x) _ refl
    where
      by_entry :
          ((x : P.World)
            → read_entry k v h (S.entries (invalidate_each P S k v h es x))
              ≡ read_entry k v h (S.entries x))
          → (o : Option Record) → superseded k v h e ≡ o
          → read_entry k v h (S.entries (invalidate_each P S k v h (e ∷ es) w))
            ≡ read_entry k v h (S.entries w)
      by_entry rest none p = ground (arith, p, rest w)
      by_entry rest (some rec) p =
          let stale = record rec { status = Status.stale } in
          let w' = (write_record P S k v e.bundle_hash stale w).0 in
          ground (
            arith,
            p,
            superseded_ne k v h e rec p,
            write_record_ne k v h e.bundle_hash stale w,
            rest w',
          )

  -- InvalidateOthers leaves the verdict on the current bundle as it is, whichever writes fail.
  pub get-invalidate_others :
      (k : Text) (v : ℕ) (h : Text) (w : P.World)
      → get P S k v h (invalidate_others P S k v h w).0 ≡ get P S k v h w
  unfolding get invalidate_others
  get-invalidate_others k v h w = ground (arith, invalidate_each_current k v h (S.entries w) w)
