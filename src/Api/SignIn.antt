-- ===== src/Api/SignIn.antt =====
-- apps/api: sign-in by a wallet's signature, with nonces that are used once and sessions that can be
-- revoked (routes.ts, auth.ts, and the tables `auth_nonces` and `user_sessions` of db.ts).
use shade.Shared.{
  ℕ, ◌+◌, ◌<◌, String, ◌≡◌, refl, ap, inl, inr, Bool, true, false, not, ◌&&◌, List, [], ◌∷◌, Option,
  none, some, arith, ◌==◌, eq_refl, ltb, Bool-cases, Option-cases, if◌then◌else◌,
}
use shade.Api.Vaults.{Reply, ok, error}

-- `consumed` is whether `consumed_at` is set; rows stand with the newest first.
pub record NonceRow : Type 0 where
  pub wallet_type : String
  pub address : String
  pub nonce : String
  pub message : String
  pub expires_at : ℕ
  pub consumed : Bool

pub record SessionRow : Type 0 where
  pub user_id : String
  pub session_hash : String
  pub expires_at : ℕ
  pub revoked : Bool

pub record UserWallet : Type 0 where
  pub user_id : String
  pub wallet_type : String
  pub address : String

pub record AuthTables : Type 0 where
  pub nonces : List NonceRow
  pub sessions : List SessionRow
  pub wallets : List UserWallet

-- In milliseconds.
abbrev pub nonce_ttl : ℕ
nonce_ttl = 600000

abbrev pub session_ttl : ℕ
session_ttl = 604800000

abbrev pub is_usable : String → String → String → ℕ → NonceRow → Bool
is_usable wallet_type address nonce now r =
    (r.wallet_type == wallet_type && (r.address == address && r.nonce == nonce))
    && (not r.consumed && ltb now r.expires_at)

-- Marks the newest usable row, and gives its message.
unfoldable pub consume_nonce :
    String → String → String → ℕ → List NonceRow → Option String × List NonceRow
consume_nonce wallet_type address nonce now [] = (none, [])
consume_nonce wallet_type address nonce now (r ∷ rows) =
    let (message, rest) = consume_nonce wallet_type address nonce now rows in
    if is_usable wallet_type address nonce now r
    then (some r.message, record r { consumed = true } ∷ rows)
    else (message, r ∷ rest)

unfoldable pub user_by_wallet : String → String → List UserWallet → Option String
user_by_wallet wallet_type address [] = none
user_by_wallet wallet_type address (w ∷ rows) =
    if w.wallet_type == wallet_type && w.address == address
    then some w.user_id
    else user_by_wallet wallet_type address rows

abbrev known_user : Option String → String → String → String → AuthTables → String × AuthTables
known_user (some user_id) fresh wallet_type address t = (user_id, t)
known_user none fresh wallet_type address t = (
  fresh,
  record t {
    wallets = record { user_id = fresh; wallet_type = wallet_type; address = address } ∷ t.wallets;
  },
)

-- `fresh` is the id that the table gives a new user.
unfoldable pub upsert_user_by_wallet : String → String → String → AuthTables → String × AuthTables
unfolding user_by_wallet
upsert_user_by_wallet fresh wallet_type address t =
    known_user (user_by_wallet wallet_type address t.wallets) fresh wallet_type address t

unfoldable pub user_id_for_session : String → ℕ → List SessionRow → Option String
user_id_for_session hash now [] = none
user_id_for_session hash now (r ∷ rows) =
    if r.session_hash == hash && (not r.revoked && ltb now r.expires_at)
    then some r.user_id
    else user_id_for_session hash now rows

unfoldable pub revoke_session : String → List SessionRow → List SessionRow
revoke_session hash [] = []
revoke_session hash (r ∷ rows) =
    (if r.session_hash == hash then record r { revoked = true } else r) ∷ revoke_session hash rows

-- POST /v1/auth/nonce
unfoldable pub issue_nonce :
    (String → String → String → String) → String → String → String → ℕ → AuthTables → AuthTables
issue_nonce auth_message wallet_type address nonce now t = record t {
  nonces =
      record {
        wallet_type = wallet_type;
        address = address;
        nonce = nonce;
        message = auth_message wallet_type address nonce;
        expires_at = now + nonce_ttl;
        consumed = false;
      }
      ∷ t.nonces;
}

-- `verifyHandler`: `verify` is `verifyWalletSignature`, which asks the wallets' libraries, and `token_hash`
-- the hash of the new token.
module _ (verify : String → String → String → String → Bool) (fresh token_hash : String)
    (now : ℕ) where
  unfoldable pub verify_wallet :
      String → String → String → String → AuthTables → Reply String × AuthTables
  unfolding consume_nonce upsert_user_by_wallet
  verify_wallet wallet_type address nonce signature t =
      let (message, nonces) = consume_nonce wallet_type address nonce now t.nonces in
      let t' = record t { nonces = nonces } in
      elim message [
        | none ↦ (error 401, t')
        | some m ↦
            if not (verify wallet_type address m signature)
            then (error 401, t')
            else let (user_id, t2) = upsert_user_by_wallet fresh wallet_type address t' in
              (
                ok user_id,
                record t2 {
                  sessions =
                      record {
                        user_id = user_id;
                        session_hash = token_hash;
                        expires_at = now + session_ttl;
                        revoked = false;
                      }
                      ∷ t2.sessions;
                },
              )
      ]

-- POST /v1/auth/logout; `hash` is none where the request has no token.
unfoldable pub logout : Option String → AuthTables → AuthTables
unfolding revoke_session
logout none t = t
logout (some hash) t = record t { sessions = revoke_session hash t.sessions }

-- `requireUser`
unfoldable pub require_user : Option String → ℕ → AuthTables → Reply String
unfolding user_id_for_session
require_user none now t = error 401
require_user (some hash) now t = elim (user_id_for_session hash now t.sessions) [
  | none ↦ error 401
  | some user_id ↦ ok user_id
]

-- How often the nonce can still be used.
abbrev pub uses : String → String → String → ℕ → List NonceRow → ℕ
uses wallet_type address nonce now [] = 0
uses wallet_type address nonce now (r ∷ rows) =
    let rest = uses wallet_type address nonce now rows in
    if is_usable wallet_type address nonce now r then 1 + rest else rest

consume_nonce-uses :
    (wallet_type address nonce : String) (now : ℕ) (rows : List NonceRow) (m : String)
    → (consume_nonce wallet_type address nonce now rows).0 ≡ some m
    → uses wallet_type address nonce now (consume_nonce wallet_type address nonce now rows).1 + 1
      ≡ uses wallet_type address nonce now rows
unfolding consume_nonce
consume_nonce-uses wallet_type address nonce now [] m e = cc
consume_nonce-uses wallet_type address nonce now (r ∷ rows) m e =
    elim (Bool-cases (is_usable wallet_type address nonce now r)) [
      | inl usable ↦ ground arith
      | inr used ↦
          let ih =
            consume_nonce-uses wallet_type address nonce now rows m
              (rw (used, consume_nonce) at e) in
          ground arith
    ]

require_user-new :
    (token_hash : String) (now later : ℕ) (u user_id : String) (t : AuthTables)
    (rest : List SessionRow)
    → u ≡ user_id
    → later < now + session_ttl
    → require_user (some token_hash) later (record t {
      sessions =
          record {
            user_id = u;
            session_hash = token_hash;
            expires_at = now + session_ttl;
            revoked = false;
          }
          ∷ rest;
    })
      ≡ ok user_id
unfolding require_user user_id_for_session
require_user-new token_hash now later u user_id t rest same soon =
    let valid : ltb later (now + session_ttl) ≡ true = ground arith in
    rw (eq_refl token_hash, valid, user_id_for_session, require_user) (ap ok same)

-- Every sign-in that succeeds has used up one of the nonces that were issued for this wallet, and opens
-- a session whose token is good for the user of the reply until it expires.
pub verify_wallet-session :
    (verify : String → String → String → String → Bool) (fresh token_hash : String) (now later : ℕ)
    (wallet_type address nonce signature : String) (t : AuthTables) (user_id : String)
    → (verify_wallet verify fresh token_hash now wallet_type address nonce signature t).0
      ≡ ok user_id
    → later < now + session_ttl
    → let after =
        (verify_wallet verify fresh token_hash now wallet_type address nonce signature t).1 in
      (uses wallet_type address nonce now after.nonces + 1
        ≡ uses wallet_type address nonce now t.nonces)
      × (require_user (some token_hash) later after ≡ ok user_id)
unfolding verify_wallet require_user user_id_for_session upsert_user_by_wallet
verify_wallet-session verify fresh token_hash now later wallet_type address nonce signature t
      user_id e soon =
    elim (Option-cases (consume_nonce wallet_type address nonce now t.nonces).0) [
      | inl missing ↦ absurd (cc (rw (missing, verify_wallet) at e))
      | inr (m, used) ↦ elim (Bool-cases (verify wallet_type address m signature)) [
        | inr wrong ↦ absurd (cc (rw (used, wrong, verify_wallet) at e))
        | inl right ↦ elim (Option-cases (user_by_wallet wallet_type address t.wallets)) [
          | inl new ↦
              let same : fresh ≡ user_id = ground arith in
              rw (used, right, new, verify_wallet)
                (
                  consume_nonce-uses wallet_type address nonce now t.nonces m used,
                  require_user-new token_hash now later fresh user_id t t.sessions same soon,
                )
          | inr (u, known) ↦
              let same : u ≡ user_id = ground arith in
              rw (used, right, known, verify_wallet)
                (
                  consume_nonce-uses wallet_type address nonce now t.nonces m used,
                  require_user-new token_hash now later u user_id t t.sessions same soon,
                )
        ]
      ]
    ]

revoke-none :
    (hash : String) (now : ℕ) (rows : List SessionRow)
    → user_id_for_session hash now (revoke_session hash rows) ≡ none
unfolding user_id_for_session revoke_session
revoke-none hash now [] = refl
revoke-none hash now (r ∷ rows) = elim (Bool-cases (r.session_hash == hash)) [
  | inl hit ↦ rw (hit, hit) (revoke-none hash now rows)
  | inr miss ↦ rw (miss, miss) (revoke-none hash now rows)
]

-- After a logout the token is refused, at any time.
pub logout-require_user :
    (hash : String) (now : ℕ) (t : AuthTables)
    → require_user (some hash) now (logout (some hash) t) ≡ error 401
unfolding logout require_user
logout-require_user hash now t = rw (revoke-none hash now t.sessions, require_user, logout) refl
