-- ===== src/Api/Rfq/Intents.antt =====
-- apps/api/src/routes.ts: POST /v1/intents, with its hand-over to the matching committee.
use shade.Shared.{
  String, Bool, true, false, not, ◌&&◌, ◌||◌, List, [], ◌∷◌, Option, none, some, ◌==◌,
  if◌then◌else◌,
}
use shade.Api.Vaults.{Reply, ok, error}
use shade.Api.Sql.{any_row, update_rows, insert_new}
use shade.Api.Rfq.Tables.{
  EncryptedShare, IntentBody, IntentRow, MpcIntentRow, ShareRow, Tables, transition, log,
  has_intent,
}

-- What the committee's service answers: nothing that can be read, an error code, or a session.
pub data Committee : Type 0 where
  failed refused : Committee
  session : Option String → Committee

pub record IntentReply : Type 0 where
  pub intent_hash : String
  pub mpc_session_id : Option String

abbrev pub filled : List EncryptedShare → Bool
filled [] = false
filled (s ∷ shares) = true

-- A text that is there and not empty.
abbrev pub truthy : Option String → Bool
truthy none = false
truthy (some s) = not (s == "")

abbrev pub or_text : String → Option String → String
or_text other none = other
or_text other (some s) = s

-- Whether the intent takes the path of the committee.
abbrev pub has_mpc_fields : IntentBody → Bool
has_mpc_fields b = filled b.encrypted_shares && truthy b.note_nullifier && truthy b.note_commitment

abbrev pub new_intent : String → String → String → IntentBody → IntentRow
new_intent intent_hash key user_id b = record {
  intent_hash = intent_hash;
  idempotency_key = key;
  public_commitment = b;
  expiry_ledger = b.expiry_ledger;
  policy_id = b.compliance_policy_id;
  user_signature = b.signature;
  user_id = some user_id;
  state = "INTENT_CREATED";
  mpc_session_id = none;
}

abbrev pub new_mpc_intent : String → String → String → IntentBody → MpcIntentRow
new_mpc_intent intent_hash name user_id b = record {
  intent_id = intent_hash;
  session_id = name;
  user_id = user_id;
  note_nullifier = or_text "" b.note_nullifier;
  note_commitment = or_text "" b.note_commitment;
  recipient_commitment = or_text "" b.recipient_commitment;
  status = "pending";
}

-- `insert … on conflict (intent_id) do update set session_id = …`
unfoldable pub upsert_mpc_intent : MpcIntentRow → List MpcIntentRow → List MpcIntentRow
unfolding any_row update_rows
upsert_mpc_intent r rows =
    if any_row (λ k. k.intent_id == r.intent_id) rows
    then update_rows (λ k. k.intent_id == r.intent_id) (λ k. record k { session_id = r.session_id })
        rows
    else r ∷ rows

unfoldable pub insert_shares : String → List EncryptedShare → List ShareRow → List ShareRow
unfolding insert_new
insert_shares intent_id [] rows = rows
insert_shares intent_id (s ∷ shares) rows = insert_shares intent_id shares (
    insert_new (λ r. r.intent_id == intent_id && r.share.node_id == s.node_id)
      (record { intent_id = intent_id; share = s }) rows)

-- The session's row, before the intent that refers to it.
abbrev pub with_session : Option String → List String → List String
unfolding insert_new
with_session sid sessions =
    let name = or_text "unknown" sid in
    if truthy sid then insert_new (λ k. k == name) name sessions else sessions

unfoldable pub set_session : Option String → IntentRow → IntentRow
set_session sid r = record r { mpc_session_id = sid }

-- The rows that an answer with a session makes.
unfoldable pub link_session : String → String → IntentBody → Option String → Tables → Tables
unfolding upsert_mpc_intent insert_shares update_rows set_session
link_session user_id intent_hash b sid t = log user_id "mpc.intent.routed" intent_hash (record t {
  mpc_sessions = with_session sid t.mpc_sessions;
  mpc_intents =
      upsert_mpc_intent (new_mpc_intent intent_hash (or_text "unknown" sid) user_id b)
        t.mpc_intents;
  mpc_shares = insert_shares intent_hash b.encrypted_shares t.mpc_shares;
  intents = update_rows (has_intent intent_hash) (set_session sid) t.intents;
})

-- The path of the committee: a failure of the service is not one of the request. The row of the intent
-- refers to a session, so where there is none of that name its insertion throws and ends the path.
unfoldable pub route_mpc :
    String → String → IntentBody → Committee → Tables → Option String × Tables
unfolding link_session any_row
route_mpc user_id intent_hash b failed t = (none, t)
route_mpc user_id intent_hash b refused t = (none, t)
route_mpc user_id intent_hash b (session sid) t =
    if any_row (λ k. k == or_text "unknown" sid) (with_session sid t.mpc_sessions)
    then (sid, link_session user_id intent_hash b sid t)
    else (sid, t)

-- `hash` is `hashJson` of the body; `committee` is what the committee's service answers to an intent.
module _ (hash : IntentBody → String) (committee : String → IntentBody → Committee) where
  unfoldable pub insert_intent : String → IntentBody → String → Tables → Tables
  unfolding insert_new
  insert_intent user_id b key t =
      let h = hash b in
      log user_id "intent.create" h (
        transition "intent" h "INTENT_CREATED" none (record t {
          intents =
              insert_new (λ r. r.intent_hash == h || r.idempotency_key == key)
                (new_intent h key user_id b) t.intents;
        }))

  unfoldable pub create_intent :
      Option String → Option IntentBody → Option String → Tables → Reply IntentReply × Tables
  unfolding insert_intent route_mpc
  create_intent none body key t = (error 401, t)
  create_intent (some user_id) none key t = (error 400, t)
  create_intent (some user_id) (some b) none t = (error 400, t)
  create_intent (some user_id) (some b) (some key) t =
      let h = hash b in
      let created = insert_intent user_id b key t in
      let (sid, routed) = route_mpc user_id h b (committee h b) created in
      if has_mpc_fields b
      then (ok (record { intent_hash = h; mpc_session_id = sid }), routed)
      else (ok (record { intent_hash = h; mpc_session_id = none }), created)
