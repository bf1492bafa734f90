-- ===== src/Tools/Registry.antt =====
-- The registry of tools: later tools win, and the payload does not depend on the map's order.
use mathlib.Core.List.{Permᴰ, flatten}
use souz_go.Prelude.{
  List, [], ◌∷◌, ◌++◌, Text, Dict, keys, lookup, insert, sort_texts, insert_text_comm, ◌≡◌, ◌∙◌,
  refl, sym, some, text_eq, lookup-insert_self, lookup-insert_ne, false, arith, All,
}
use souz_go.Tools.{Tool, register, register_all, new_registry, to_definitions, definitions_of}

sort_texts-perm : (ss ts : List Text) → Permᴰ ss ts → sort_texts ss ≡ sort_texts ts
unfolding sort_texts
sort_texts-perm _ _ Permᴰ.nil = refl
sort_texts-perm _ _ (Permᴰ.cons e p) = cc (sort_texts-perm _ _ p)
sort_texts-perm _ _ (Permᴰ.swap {a = a} {b = b} {l = l} e f) =
    cc (insert_text_comm a b (sort_texts l))
sort_texts-perm _ _ (Permᴰ.trans p q) = sort_texts-perm _ _ p ∙ sort_texts-perm _ _ q

module _ {W : Type 0} where
  definitions_of-congr :
      (r r' : Dict (Tool W)) (ns : List Text)
      → ((k : Text) → lookup k r ≡ lookup k r')
      → definitions_of r ns ≡ definitions_of r' ns
  unfolding definitions_of
  definitions_of-congr r r' [] h = refl
  definitions_of-congr r r' (n ∷ ns) h = ground (arith, h n, definitions_of-congr r r' ns h)

  -- The definitions sent to the model do not depend on the order in which the registry's map is
  -- visited: two maps with the same keys, in any order, and the same tool at each key give the same
  -- list.
  pub to_definitions-perm :
      (r r' : Dict (Tool W))
      → Permᴰ (keys r) (keys r')
      → ((k : Text) → lookup k r ≡ lookup k r')
      → to_definitions r ≡ to_definitions r'
  unfolding to_definitions
  to_definitions-perm r r' p h =
      rw (sort_texts-perm _ _ p) (definitions_of-congr r r' (sort_texts (keys r')) h)

  register-append :
      (ts us : List (Tool W)) (r : Dict (Tool W))
      → register (ts ++ us) r ≡ register us (register ts r)
  unfolding register
  register-append [] us r = refl
  register-append (t ∷ ts) us r = register-append ts us (insert t.name t r)

  register_ne :
      (k : Text) (ts : List (Tool W)) (r : Dict (Tool W))
      → All (λ (t : Tool W). text_eq t.name k ≡ false) ts
      → lookup k (register ts r) ≡ lookup k r
  unfolding register
  register_ne k [] r h = refl
  register_ne k (t ∷ ts) r (ht, hts) =
      register_ne k ts (insert t.name t r) hts ∙ lookup-insert_ne t.name k t r ht

  register_all-flatten :
      (lists : List (List (Tool W))) (r : Dict (Tool W))
      → register_all lists r ≡ register (flatten lists) r
  unfolding register_all register flatten
  register_all-flatten [] r = refl
  register_all-flatten (ts ∷ lists) r =
      register_all-flatten lists (register ts r) ∙ sym (register-append ts (flatten lists) r)

  -- Later tools win on a name collision: the registry maps a name to the last tool of that name in
  -- the lists, taken in order.
  pub lookup-new_registry :
      (lists : List (List (Tool W))) (ts us : List (Tool W)) (t : Tool W)
      → flatten lists ≡ ts ++ t ∷ us
      → All (λ (u : Tool W). text_eq u.name t.name ≡ false) us
      → lookup t.name (new_registry lists) ≡ some t
  unfolding new_registry register
  lookup-new_registry lists ts us t e h =
      rw (register_all-flatten, e, register-append ts (t ∷ us) [])
        (register_ne t.name us _ h ∙ lookup-insert_self t.name t (register ts []))
