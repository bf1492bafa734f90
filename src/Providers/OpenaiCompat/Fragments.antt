-- ===== src/Providers/OpenaiCompat/Fragments.antt =====
-- How the fragments of tool calls come together, whatever the order of the indices.
use souz_go.Prelude.{
  ℤ, ◌≡◌, refl, sym, ap, ◌∙◌, Bool, true, false, List, [], ◌∷◌, ◌++◌, append_assoc, append-nil,
  Text, Option, none, some, text_eq, if◌then◌else◌, arith, any, all, ◌||◌, ◌||◌,
}
use souz_go.Providers.{ToolCall}
use souz_go.Providers.IntMap.{int_eq, int_lookup, int_eq_refl, int_eq→eq, int_lookup-insert}
use souz_go.Providers.OpenaiCompat.{to_raw_args}
use souz_go.Providers.OpenaiCompat.Stream.{
  Fragment, Accumulator, Assembly, no_calls, extended, empty_accumulator, add_fragment,
  add_fragments, assembled,
}

-- The fragments of an index.
unfoldable pub fragments_at : ℤ → List Fragment → List Fragment
fragments_at i [] = []
fragments_at i (f ∷ fs) =
    let rest = fragments_at i fs in if int_eq f.index i then f ∷ rest else rest

-- The last text of the list that is not empty.
unfoldable pub last_set : (Fragment → Text) → Text → List Fragment → Text
last_set part t [] = t
last_set part t (f ∷ fs) = last_set part (if text_eq (part f) [] then t else part f) fs

unfoldable pub all_arguments : List Fragment → Text
all_arguments [] = []
all_arguments (f ∷ fs) = f.arguments ++ all_arguments fs

-- The call that the fragments of one index make.
unfoldable pub call_of : List Fragment → ToolCall
unfolding last_set all_arguments to_raw_args
call_of fs = record {
  id = last_set (λ f. f.id) [] fs;
  name = last_set (λ f. f.name) [] fs;
  args = to_raw_args (all_arguments fs);
}

-- The indices in the order of their first appearance, without those that `seen` holds.
unfoldable pub first_indices : List ℤ → List Fragment → List ℤ
first_indices seen [] = []
first_indices seen (f ∷ fs) =
    let known = first_indices seen fs in
    let fresh = f.index ∷ first_indices (seen ++ f.index ∷ []) fs in
    if any (λ i. int_eq i f.index) seen then known else fresh

unfoldable pub calls_at : List Fragment → List ℤ → List ToolCall
unfolding call_of fragments_at
calls_at fs [] = []
calls_at fs (i ∷ is) = call_of (fragments_at i fs) ∷ calls_at fs is

-- The entry of an index after its fragments.
unfoldable extend : Option Accumulator → List Fragment → Option Accumulator
unfolding extended
extend o [] = o
extend none (f ∷ fs) = extend (some (extended empty_accumulator f)) fs
extend (some acc) (f ∷ fs) = extend (some (extended acc f)) fs

extend-some :
    (acc : Accumulator) (fs : List Fragment)
    → extend (some acc) fs
      ≡ some (record {
        id = last_set (λ f. f.id) acc.id fs;
        name = last_set (λ f. f.name) acc.name fs;
        args = acc.args ++ all_arguments fs;
      })
unfolding extend extended last_set all_arguments
extend-some acc [] = ground (arith, append-nil acc.args)
extend-some acc (f ∷ fs) =
    ground
      (arith, extend-some (extended acc f) fs, append_assoc acc.args f.arguments (all_arguments fs))

int_lookup-add_fragment :
    (a : Assembly) (f : Fragment) (i : ℤ)
    → int_lookup i (add_fragment a f).calls
      ≡ (if int_eq f.index i then extend (int_lookup i a.calls) (f ∷ []) else int_lookup i a.calls)
unfolding add_fragment extend
int_lookup-add_fragment a f i = by_entry _ refl
  where
    by_entry :
        (o : Option Accumulator)
        → int_lookup f.index a.calls ≡ o
        → int_lookup i (add_fragment a f).calls ≡ (
            if int_eq f.index i
            then extend (int_lookup i a.calls) (f ∷ [])
            else int_lookup i a.calls)
    by_entry none e = ground (
      arith,
      e,
      int_lookup-insert f.index i (extended empty_accumulator f) a.calls,
      int_eq→eq f.index i,
    )
    by_entry (some acc) e =
        ground (arith, e, int_lookup-insert f.index i (extended acc f) a.calls, int_eq→eq f.index i)

extend-cons :
    (o : Option Accumulator) (f : Fragment) (fs : List Fragment)
    → extend (extend o (f ∷ [])) fs ≡ extend o (f ∷ fs)
unfolding extend
extend-cons none f fs = refl
extend-cons (some acc) f fs = refl

int_lookup-add_fragments :
    (a : Assembly) (fs : List Fragment) (i : ℤ)
    → int_lookup i (add_fragments a fs).calls ≡ extend (int_lookup i a.calls) (fragments_at i fs)
unfolding add_fragments extend fragments_at
int_lookup-add_fragments a [] i = refl
int_lookup-add_fragments a (f ∷ fs) i = ground (
  arith,
  int_lookup-add_fragments (add_fragment a f) fs i,
  int_lookup-add_fragment a f i,
  extend-cons (int_lookup i a.calls) f (fragments_at i fs),
)

unfoldable is_some : Option Accumulator → Bool
is_some none = false
is_some (some acc) = true

any-append_int :
    (i : ℤ) (xs : List ℤ) (x : ℤ)
    → any (λ j. int_eq j i) (xs ++ x ∷ []) ≡ (any (λ j. int_eq j i) xs || int_eq x i)
any-append_int i [] x = ground arith
any-append_int i (y ∷ xs) x = ground (arith, any-append_int i xs x)

-- The order holds the keys of the map.
unfoldable IsKnown : Assembly → Type 0
IsKnown a = (i : ℤ) → is_some (int_lookup i a.calls) ≡ any (λ j. int_eq j i) a.order

add_fragment-IsKnown : (a : Assembly) (f : Fragment) → IsKnown a → IsKnown (add_fragment a f)
unfolding IsKnown is_some add_fragment
add_fragment-IsKnown a f h i = by_entry _ refl
  where
    by_entry :
        (o : Option Accumulator)
        → int_lookup f.index a.calls ≡ o
        → is_some (int_lookup i (add_fragment a f).calls)
          ≡ any (λ j. int_eq j i) (add_fragment a f).order
    by_entry none e = ground (
      arith,
      e,
      h i,
      int_lookup-insert f.index i (extended empty_accumulator f) a.calls,
      any-append_int i a.order f.index,
    )
    by_entry (some acc) e = ground (
      arith,
      e,
      h i,
      h f.index,
      int_lookup-insert f.index i (extended acc f) a.calls,
      int_eq→eq f.index i,
    )

add_fragments-order :
    (a : Assembly) (fs : List Fragment)
    → IsKnown a
    → (add_fragments a fs).order ≡ a.order ++ first_indices a.order fs
unfolding add_fragments first_indices IsKnown is_some
add_fragments-order a [] h = sym (append-nil a.order)
add_fragments-order a (f ∷ fs) h =
    by_entry (add_fragments-order (add_fragment a f) fs (add_fragment-IsKnown a f h)) _ refl
  where
    by_entry :
        (add_fragments (add_fragment a f) fs).order
          ≡ (add_fragment a f).order ++ first_indices (add_fragment a f).order fs
        → (o : Option Accumulator) → int_lookup f.index a.calls ≡ o
        → (add_fragments a (f ∷ fs)).order ≡ a.order ++ first_indices a.order (f ∷ fs)
    by_entry ih none e =
        let seen : any (λ i. int_eq i f.index) a.order ≡ false = sym (h f.index) ∙ ap is_some e in
        let grown : (add_fragment a f).order ≡ a.order ++ f.index ∷ [] =
          rw (e, add_fragment) refl in
        rw seen (
          ih
          ∙ ap (λ (o : List ℤ). o ++ first_indices o fs) grown
          ∙ append_assoc a.order (f.index ∷ []) (first_indices (a.order ++ f.index ∷ []) fs))
    by_entry ih (some acc) e =
        let seen : any (λ i. int_eq i f.index) a.order ≡ true = sym (h f.index) ∙ ap is_some e in
        let kept : (add_fragment a f).order ≡ a.order = rw (e, add_fragment) refl in
        rw seen (ih ∙ ap (λ (o : List ℤ). o ++ first_indices o fs) kept)

-- The list has a fragment of the index.
unfoldable has_index : List Fragment → ℤ → Bool
has_index fs i = any (λ f. int_eq f.index i) fs

all_weaken :
    (f : Fragment) (fs : List Fragment) (is : List ℤ)
    → all (has_index fs) is ≡ true
    → all (has_index (f ∷ fs)) is ≡ true
unfolding has_index
all_weaken f fs [] h = refl
all_weaken f fs (i ∷ is) h = ground (arith, h, all_weaken f fs is)

first_indices-has_index :
    (seen : List ℤ) (fs : List Fragment) → all (has_index fs) (first_indices seen fs) ≡ true
unfolding has_index first_indices
first_indices-has_index seen [] = refl
first_indices-has_index seen (f ∷ fs) = ground (
  arith,
  int_eq_refl f.index,
  all_weaken f fs (first_indices seen fs),
  all_weaken f fs (first_indices (seen ++ f.index ∷ []) fs),
  first_indices-has_index seen fs,
  first_indices-has_index (seen ++ f.index ∷ []) fs,
)

extend-fragments_at :
    (fs : List Fragment) (i : ℤ)
    → has_index fs i ≡ true
    → extend none (fragments_at i fs)
      ≡ some (record {
        id = last_set (λ f. f.id) [] (fragments_at i fs);
        name = last_set (λ f. f.name) [] (fragments_at i fs);
        args = all_arguments (fragments_at i fs);
      })
unfolding extend has_index fragments_at extended last_set all_arguments
extend-fragments_at [] i h = cc
extend-fragments_at (f ∷ fs) i h = ground (
  arith,
  h,
  extend-fragments_at fs i,
  extend-some (extended empty_accumulator f) (fragments_at i fs),
)

assembled-calls_at :
    (fs : List Fragment) (is : List ℤ)
    → all (has_index fs) is ≡ true
    → assembled (add_fragments no_calls fs).calls is ≡ calls_at fs is
unfolding assembled calls_at call_of int_lookup
assembled-calls_at fs [] h = refl
assembled-calls_at fs (i ∷ is) h = ground (
  arith,
  h,
  assembled-calls_at fs is,
  extend-fragments_at fs i,
  int_lookup-add_fragments no_calls fs i,
)

no_calls-IsKnown : IsKnown no_calls
unfolding IsKnown is_some int_lookup
no_calls-IsKnown i = refl

-- The tool calls that the fragments of a stream make: one for each index, in the order in which the
-- indices first appear. Whatever fragments of other indices come between, each call has the last id
-- and the last name that its fragments set, and as arguments theirs in order, or {} if they are
-- empty.
pub assembled-add_fragments :
    (fs : List Fragment)
    → assembled (add_fragments no_calls fs).calls (add_fragments no_calls fs).order
      ≡ calls_at fs (first_indices [] fs)
assembled-add_fragments fs =
    rw (add_fragments-order no_calls fs no_calls-IsKnown)
      (assembled-calls_at fs (first_indices [] fs) (first_indices-has_index [] fs))
