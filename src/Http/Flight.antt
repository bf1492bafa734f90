-- ===== src/Http/Flight.antt =====
-- At most one turn of a chat is under way.
use souz_go.Prelude.{
  ℕ, ◌≤◌, ◌+◌, ◌≡◌, ap, List, [], ◌∷◌, ◌++◌, Text, none, some, lookup, lookup-insert_self,
  lookup-insert_ne, lookup-erase_self, lookup-erase_ne, text_eq, text_eq→eq, arith, if◌then◌else◌,
}
use souz_go.Storage.{Sessions, Codec}
use souz_go.Http.Requests.{
  Active, Phase, Request, Server, Move, refuse, check, unreadable, load, clash, begin, turn, finish,
  Step, arrive, serve, Reach, here, next, try_begin_execution, end_execution,
}

-- Between tryBeginExecution and endExecution.
unfoldable pub under_way : Phase → ℕ
under_way p = elim p [ Phase.executing c cs ↦ 1 | Phase.saved r ↦ 1 | _ ↦ 0 ]

-- How many requests of the chat are there.
unfoldable pub turns_of : Text → List Request → ℕ
unfolding under_way
turns_of k [] = 0
turns_of k (r ∷ rs) =
    let rest = turns_of k rs in if text_eq r.chat_id k then under_way r.phase + rest else rest

unfoldable pub entries_of : Text → Active → ℕ
unfolding lookup
entries_of k active = elim (lookup k active) [ none ↦ 0 | some running ↦ 1 ]

turns_of-append :
    (k : Text) (xs ys : List Request) → turns_of k (xs ++ ys) ≡ turns_of k xs + turns_of k ys
unfolding turns_of
turns_of-append k [] ys = omega arith
turns_of-append k (x ∷ xs) ys = ground (arith, turns_of-append k xs ys)

-- What a step of a request of the chat `j` does to the count of the chat `k`.
unfoldable pub own : Text → Text → ℕ → ℕ
own j k n = if text_eq j k then n else 0

-- The map of the server and the requests under way agree on every chat.
unfoldable pub IsSingle : Server → Type 0
IsSingle v = (k : Text) → entries_of k v.active ≡ turns_of k v.requests

-- A server without requests, whatever is stored.
abbrev pub fresh : Sessions → Server
fresh sessions = record { active = []; sessions = sessions; requests = [] }

entries_of_bound : (k : Text) (active : Active) → entries_of k active ≤ 1
unfolding entries_of
entries_of_bound k active = ground arith

module _ (J : Codec) where
  Move-turns_of :
      (j k : Text) (others : ℕ) {a b : Active} {s t : Sessions} {p q : Phase}
      → Move J j (a, s, p) (b, t, q)
      → entries_of k a ≡ own j k (under_way p) + others
      → entries_of k b ≡ own j k (under_way q) + others
  unfolding own under_way entries_of try_begin_execution end_execution
  Move-turns_of j k others (refuse e) h = h
  Move-turns_of j k others (check content e) h = h
  Move-turns_of j k others (unreadable x e) h = h
  Move-turns_of j k others (load cs e) h = h
  Move-turns_of j k others (clash e) h = h
  Move-turns_of j k others (begin {a = a} {b = b} e) h =
      ground (arith, h, e, lookup-insert_self j tt a, lookup-insert_ne j k tt a, text_eq→eq j k)
  Move-turns_of j k others (turn now written user assistant outcome failure u e) h = h
  Move-turns_of j k others (finish {a = a}) h =
      ground (arith, h, lookup-erase_self j a, lookup-erase_ne j k a, text_eq→eq j k)

  Step-IsSingle : {v u : Server} → Step J v u → IsSingle v → IsSingle u
  unfolding IsSingle turns_of own under_way
  Step-IsSingle (arrive j body) h k = ground (arith, h k)
  Step-IsSingle (serve {v = v} before after {k = j} {p = p} {q = q} {a = a} {s = s} e move) h k =
      let others = turns_of k before + turns_of k after in
      let was = ap (turns_of k) e in
      let moved = Move-turns_of j k others move (
        ground (
          arith,
          h k,
          was,
          turns_of-append k before (record { chat_id = j; phase = p } ∷ after),
        )) in
      ground (arith, moved, turns_of-append k before (record { chat_id = j; phase = q } ∷ after))

  Reach-IsSingle : (sessions : Sessions) {v : Server} → Reach J (fresh sessions) v → IsSingle v
  unfolding IsSingle entries_of turns_of
  Reach-IsSingle sessions here k = ground arith
  Reach-IsSingle sessions (next r st) k = Step-IsSingle st (Reach-IsSingle sessions r) k

  -- In every state that a server can reach, each chat has at most one request between its
  -- tryBeginExecution and its endExecution, and has one exactly where the map holds an entry for it.
  pub Reach-turns_of :
      (sessions : Sessions) (k : Text) {v : Server}
      → Reach J (fresh sessions) v
      → (turns_of k v.requests ≤ 1) × (entries_of k v.active ≡ turns_of k v.requests)
  unfolding IsSingle
  Reach-turns_of sessions k {v = v} r =
      let single = Reach-IsSingle sessions r k in
      (omega (arith, single, entries_of_bound k v.active), single)
