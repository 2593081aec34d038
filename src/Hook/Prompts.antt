-- ===== src/Hook/Prompts.antt =====
-- Which responses a prompt takes.
use sr_code.Prelude.{
  String, ◌≡◌, ◌≢◌, ◌↔◌, ◌⊎◌, inl, inr, true, none, some, arith, eq_iff, ◌==◌, nat_has_eq,
  string_has_eq, if◌then◌else◌, Option-cases,
}
use sr_code.Prelude.Dict.{lookup, lookup-insert}
use sr_code.Hook.{Pending, Response, PendingEntry, Manager, Error, deliver, begin_respond, respond}

-- The answers that a prompt takes: an answer for the whole session only if it allows, and only if
-- the prompt offers it.
abbrev pub IsLegal : Pending → Response → Type 0
IsLegal p r = (r.scope ≢ "session") ⊎ ((r.behavior ≡ "allow") × (p.allow_always ≡ true))

-- A response is accepted exactly if its prompt is pending, has had no response yet, and takes it.
pub respond_accepts :
    (id : String) (r : Response) (m : Manager)
    → ((respond id r m).0 ≡ none) ↔ (
        (p : PendingEntry) × (lookup id m.pending ≡ some p)
        × (p.response ≡ none)
        × IsLegal p.prompt r)
unfolding respond
respond_accepts id r m = (accepted, refused)
  where
    accepted :
        (respond id r m).0 ≡ none
        → (p : PendingEntry) × (lookup id m.pending ≡ some p)
          × (p.response ≡ none)
          × IsLegal p.prompt r
    accepted h = elim (Option-cases (lookup id m.pending)) [
      | inl e ↦ absurd (ground (arith, e))
      | inr (p, e) ↦ (
        p,
        e,
        ground (arith, e),
        ground (arith, e, eq_iff r.scope "session", eq_iff r.behavior "allow"),
      )
    ]

    refused :
        (p : PendingEntry) × (lookup id m.pending ≡ some p)
          × (p.response ≡ none)
          × IsLegal p.prompt r
        → (respond id r m).0 ≡ none
    refused (p, e, free, legal) =
        ground (arith, e, eq_iff r.scope "session", eq_iff r.behavior "allow")

-- A refused response changes nothing.
respond_refused :
    (id : String) (r : Response) (m : Manager) → (respond id r m).0 ≢ none → (respond id r m).1 ≡ m
unfolding respond
respond_refused id r m h = ground arith

-- What an accepted response does to the prompts.
pub lookup-respond :
    (id j : String) (r : Response) (m : Manager) (p : PendingEntry)
    → lookup id m.pending ≡ some p
    → (respond id r m).0 ≡ none
    → lookup j (respond id r m).1.pending
      ≡ (if id == j then some (record p { response = some r }) else lookup j m.pending)
unfolding respond
lookup-respond id j r m p e h =
    ground (arith, lookup-insert id j (record p { response = some r }) m.pending)

-- Once a response is accepted, every further response to the prompt is refused and changes nothing:
-- the first answer stands.
pub respond_once :
    (id : String) (r r' : Response) (m : Manager)
    → (respond id r m).0 ≡ none
    → ((respond id r' (respond id r m).1).0 ≢ none)
      × ((respond id r' (respond id r m).1).1 ≡ (respond id r m).1)
respond_once id r r' m h =
    let (p, e, free, legal) = (respond_accepts id r m).0 h in
    let after = lookup-respond id id r m p e h in
    let no : (respond id r' (respond id r m).1).0 ≢ none = λ h'.
      let (q, e', free', legal') = (respond_accepts id r' (respond id r m).1).0 h' in
      ground (arith, after, e', free', eq_iff id id) in
    (no, respond_refused id r' (respond id r m).1 no)

-- `Respond` is its lookup and its checks, and then its send.
respond-begins :
    (id : String) (r : Response) (m : Manager) (p : PendingEntry)
    → lookup id m.pending ≡ some p
    → begin_respond id r m ≡ none
    → respond id r m ≡ deliver id p r m
unfolding respond begin_respond
respond-begins id r m p e ok = ground (arith, e, ok)

respond-refuses :
    (id : String) (r : Response) (m : Manager) (err : Error)
    → begin_respond id r m ≡ some err
    → respond id r m ≡ (some err, m)
unfolding respond begin_respond
respond-refuses id r m err refused = elim (Option-cases (lookup id m.pending)) [
  | inl e ↦ ground (arith, e, refused)
  | inr (p, e) ↦ ground (arith, e, refused)
]
