-- ===== src/Mpc/Session.antt =====
-- apps/mpc-committee/src/state.ts: the sessions of the committee and the shares that they hold.
-- `Date.now()` is an argument: printed for the session id, as a number for `startedAt`.
pub mod Add
pub mod Tests
use Prim.Native.String.{◌++◌}
use shade.Shared.{ℕ, String, Option, none, some, List, [], ◌∷◌, Bool, true, false, map}
use shade.Shared.Maps.{Assoc, get, put}
use shade.Mpc.Shamir.{Share}
use shade.Mpc.Batch.{SignedMatchBatch}

pub record EncryptedShare : Type 0 where
  pub node_id : String
  pub ciphertext : String
  pub nonce : String
  pub sender_pubkey : String

pub record MpcIntent : Type 0 where
  pub intent_id : String
  pub user_id : String
  pub input_asset : String
  pub output_asset : String
  pub expiry_ledger : ℕ
  pub policy_id : String
  pub note_nullifier : String
  pub note_commitment : String
  pub recipient_commitment : String
  pub encrypted_shares : List EncryptedShare
  pub submitted_at : ℕ

-- The entry keeps the ciphertext, nonce and sender key of `encrypted_share`; its node is `node_id`.
pub record NodeShareEntry : Type 0 where
  pub intent_id : String
  pub node_id : String
  pub encrypted_share : EncryptedShare
  pub decrypted_share : Option Share

-- The source's "open" is a reserved word here.
pub data Status : Type 0 where
  opened matching signed failed : Status

pub record SessionState : Type 0 where
  pub session_id : String
  pub started_at : ℕ
  pub status : Status
  pub intents : Assoc MpcIntent
  pub shares : Assoc (Assoc NodeShareEntry)
  pub signed_batch : Option SignedMatchBatch

pub record CommitteeState : Type 0 where
  pub sessions : Assoc SessionState
  pub intent_to_session : Assoc String

pub record Now : Type 0 where
  pub printed : String
  pub started_at : ℕ

abbrev pub is_open : Status → Bool
is_open opened = true
is_open _ = false

abbrev pub new_session : String → ℕ → SessionState
new_session id at = record {
  session_id = id;
  started_at = at;
  status = opened;
  intents = [];
  shares = [];
  signed_batch = none;
}

unfoldable pub create_session : CommitteeState → String → ℕ → SessionState × CommitteeState
create_session st id at =
    let s = new_session id at in (s, record st { sessions = put id s st.sessions })

-- The first open session in insertion order.
unfoldable pub find_open : Assoc SessionState → Option SessionState
find_open [] = none
find_open ((k, s) ∷ sessions) = elim (is_open s.status) [
  | true ↦ some s
  | false ↦ find_open sessions
]

unfoldable pub get_or_create_open_session : CommitteeState → Now → SessionState × CommitteeState
unfolding create_session
get_or_create_open_session st now = elim (find_open st.sessions) [
  | some s ↦ (s, st)
  | none ↦ create_session st ("session-" ++ now.printed) now.started_at
]

abbrev pub or_new {ℓ} : {V : Type ℓ} → Option (Assoc V) → Assoc V
or_new none = []
or_new (some m) = m

-- `session.shares.get(nodeId)!.set(intentId, …)`, on a new map if the node has none.
unfoldable pub store_share :
    String → Assoc (Assoc NodeShareEntry) → EncryptedShare → Assoc (Assoc NodeShareEntry)
store_share intent_id shares enc =
    put enc.node_id
      (put intent_id
        (record {
          intent_id = intent_id;
          node_id = enc.node_id;
          encrypted_share = enc;
          decrypted_share = none;
        })
        (or_new (get enc.node_id shares)))
      shares

unfoldable pub store_shares :
    String → Assoc (Assoc NodeShareEntry) → List EncryptedShare → Assoc (Assoc NodeShareEntry)
store_shares intent_id shares [] = shares
store_shares intent_id shares (enc ∷ encs) =
    store_shares intent_id (store_share intent_id shares enc) encs

abbrev pub with_intent : MpcIntent → SessionState → SessionState
with_intent i s = record s {
  intents = put i.intent_id i s.intents;
  shares = store_shares i.intent_id s.shares i.encrypted_shares;
}

-- The session object that is changed is the one that the map holds under its id.
unfoldable pub add_intent : CommitteeState → Now → MpcIntent → String × CommitteeState
unfolding get_or_create_open_session find_open store_shares store_share
add_intent st now i =
    let (s, st') = get_or_create_open_session st now in
    (
      s.session_id,
      record {
        sessions = put s.session_id (with_intent i s) st'.sessions;
        intent_to_session = put i.intent_id s.session_id st'.intent_to_session;
      },
    )

unfoldable pub get_session : CommitteeState → String → Option SessionState
get_session st id = get id st.sessions

abbrev pub session_of : CommitteeState → Option String → Option SessionState
session_of st none = none
session_of st (some id) = get id st.sessions

unfoldable pub get_session_for_intent : CommitteeState → String → Option SessionState
get_session_for_intent st intent_id = session_of st (get intent_id st.intent_to_session)

unfoldable pub get_open_sessions : Assoc SessionState → List SessionState
get_open_sessions [] = []
get_open_sessions ((k, s) ∷ sessions) =
    let rest = get_open_sessions sessions in
    elim (is_open s.status) [ true ↦ s ∷ rest | false ↦ rest ]

unfoldable pub all_sessions : CommitteeState → List SessionState
all_sessions st = map (λ e. e.1) st.sessions
