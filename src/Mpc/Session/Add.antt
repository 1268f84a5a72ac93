-- ===== src/Mpc/Session/Add.antt =====
-- `addIntent` registers the intent in an open session, and disturbs no other session.
use shade.Shared.{
  String, ◌≡◌, ◌≢◌, refl, sym, ap, ◌∙◌, inl, inr, true, some, [], ◌∷◌, arith, eq_iff, Option-cases,
  Bool-cases,
}
use shade.Shared.Maps.{Assoc, get, put, get-put}
use shade.Mpc.Session.{
  MpcIntent, SessionState, CommitteeState, Status, opened, matching, signed, failed, Now, is_open,
  create_session, find_open, get_or_create_open_session, with_intent, add_intent, get_session,
  get_session_for_intent,
}

get-put_self : {V : Type 0} (k : String) (v : V) (m : Assoc V) → get k (put k v m) ≡ some v
get-put_self k v m = rw get-put (ground (arith, eq_iff k k))

get-put_ne : {V : Type 0} (k j : String) (v : V) (m : Assoc V) → k ≢ j → get j (put k v m) ≡ get j m
get-put_ne k j v m ne = rw get-put (ground (arith, eq_iff k j))

is_open-opened : (s : Status) → is_open s ≡ true → s ≡ opened
is_open-opened opened h = refl
is_open-opened matching h = cc
is_open-opened signed h = cc
is_open-opened failed h = cc

find_open-opened :
    (sessions : Assoc SessionState) (s : SessionState)
    → find_open sessions ≡ some s
    → s.status ≡ opened
unfolding find_open
find_open-opened [] s e = cc
find_open-opened ((k, t) ∷ sessions) s e = elim (Bool-cases (is_open t.status)) [
  | inl here ↦
      let same : t ≡ s = ground arith in
      ap (λ (u : SessionState). u.status) (sym same) ∙ is_open-opened t.status here
  | inr there ↦ find_open-opened sessions s (ground arith)
]

get_or_create-opened :
    (st : CommitteeState) (now : Now) → (get_or_create_open_session st now).0.status ≡ opened
unfolding get_or_create_open_session create_session
get_or_create-opened st now = elim (Option-cases (find_open st.sessions)) [
  | inl e ↦ rw (e, get_or_create_open_session) refl
  | inr (s, e) ↦ rw (e, get_or_create_open_session) (find_open-opened st.sessions s e)
]

-- After `addIntent` the intent's id leads to the session whose id was returned; that session is
-- open and holds the intent, and every session under another id is as it was before.
pub add_intent_lem :
    (st : CommitteeState) (now : Now) (i : MpcIntent)
    → let (id, after) = add_intent st now i in
      (s : SessionState) × (get_session_for_intent after i.intent_id ≡ some s)
      × (s.session_id ≡ id)
      × (s.status ≡ opened)
      × (get i.intent_id s.intents ≡ some i)
      × ((k : String) → id ≢ k → get_session after k ≡ get_session st k)
unfolding add_intent get_session_for_intent get_session
add_intent_lem st now i =
    let (s, st') = get_or_create_open_session st now in
    (
      with_intent i s,
      rw get-put_self (get-put_self s.session_id (with_intent i s) st'.sessions),
      refl,
      get_or_create-opened st now,
      get-put_self i.intent_id i s.intents,
      λ k ne. get-put_ne s.session_id k (with_intent i s) st'.sessions ne ∙ kept k ne,
    )
  where
    kept :
        (k : String)
        → (get_or_create_open_session st now).0.session_id ≢ k
        → get k (get_or_create_open_session st now).1.sessions ≡ get k st.sessions
    kept k ne = elim (Option-cases (find_open st.sessions)) [
      | inl e ↦
          rw (e, get_or_create_open_session)
            (get-put_ne _ k _ st.sessions (rw (e, get_or_create_open_session) at ne))
      | inr (t, e) ↦ rw (e, get_or_create_open_session) refl
    ]
